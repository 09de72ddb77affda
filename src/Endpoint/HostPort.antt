-- ===== src/Endpoint/HostPort.antt =====
-- That an endpoint of amneziawg.go which names an address is read as that address and printed the
-- same way: `net.JoinHostPort` and `net.SplitHostPort`, and the end of `resolveAmneziaWgEndpoint`.
use skipi_core.Base.{
  ℕ, ◌≡◌, ◌≢◌, refl, ap, sym, ◌∙◌, inl, inr, true, false, Option, none, some, List, [], ◌∷◌, ◌++◌,
  ◌==◌, ◌*◌, ◌+◌, ◌-◌, Bool-cases, Option-cases, arith, Text, is_some, is_empty, trim_space, trim,
  trim_left, is_space, is_digit, index_byte, digits_value, parse_uint, Lacks, All, All-append,
}
use mathlib.Core.List.{reverse, reverse_aux, reverse-reverse}
use skipi_core.Endpoint.{
  Netip, cut_last_colon, lacks_byte, bracketed, split_host, split_host_port, join_host_port,
  valid_port, literal, at, resolve_endpoint,
}
use skipi_core.Socks.Associate.{NetAddr, is_usable, unmap}

lacks_byte-Lacks : (c : ℕ) (s : Text) → Lacks c s → lacks_byte c s ≡ true
unfolding lacks_byte index_byte
lacks_byte-Lacks c [] h = refl
lacks_byte-Lacks c (d ∷ s) h = ground (arith, h.0, lacks_byte-Lacks c s h.1)

cut_last_colon-none : (s : Text) → Lacks b':' s → cut_last_colon s ≡ none
unfolding cut_last_colon
cut_last_colon-none [] h = refl
cut_last_colon-none (c ∷ s) h = rw (cut_last_colon-none s h.1, h.0, cut_last_colon) refl

cut_last_colon-append :
    (s port : Text) → Lacks b':' port → cut_last_colon (s ++ b':' ∷ port) ≡ some (s, port)
unfolding cut_last_colon
cut_last_colon-append [] port h = rw (cut_last_colon-none port h) refl
cut_last_colon-append (c ∷ s) port h = rw (cut_last_colon-append s port h, cut_last_colon) refl

bracketed-append : (host : Text) → Lacks b']' host → bracketed (host ++ b']' ∷ []) ≡ some host
unfolding bracketed
bracketed-append [] h = refl
bracketed-append (c ∷ []) h = rw h.0 refl
bracketed-append (c ∷ d ∷ s) h = rw (bracketed-append (d ∷ s) h.1, h.0) refl

-- Without the entries that the tests of a host and a port look for.
unfoldable pub IsPlain : Text → Type 0
IsPlain s = Lacks b'[' s × Lacks b']' s

cut_last_colon-bracket :
    (s port : Text)
    → Lacks b':' port
    → cut_last_colon (s ++ b']' ∷ b':' ∷ port) ≡ some (s ++ b']' ∷ [], port)
unfolding cut_last_colon
cut_last_colon-bracket [] port h = rw (cut_last_colon-none port h) refl
cut_last_colon-bracket (c ∷ s) port h = rw (cut_last_colon-bracket s port h, cut_last_colon) refl

split_host-plain :
    (host port : Text)
    → host ≢ []
    → IsPlain host
    → IsPlain port
    → lacks_byte b':' host ≡ true
    → split_host host port ≡ some (host, port)
unfolding split_host IsPlain
split_host-plain [] port n h p e = absurd (n refl)
split_host-plain (c ∷ s) port n h p e =
    rw
      (
        h.0.0,
        e,
        lacks_byte-Lacks b'[' (c ∷ s) h.0,
        lacks_byte-Lacks b']' (c ∷ s) h.1,
        lacks_byte-Lacks b'[' port p.0,
        lacks_byte-Lacks b']' port p.1,
      )
      refl

split_host-bracket :
    (host port : Text)
    → IsPlain host
    → IsPlain port
    → split_host (b'[' ∷ (host ++ b']' ∷ [])) port ≡ some (host, port)
unfolding split_host IsPlain
split_host-bracket host port h p =
    rw
      (
        bracketed-append host h.1,
        lacks_byte-Lacks b'[' host h.0,
        lacks_byte-Lacks b'[' port p.0,
        lacks_byte-Lacks b']' port p.1,
      )
      refl

-- A host and a port that are joined are read back, for a host that is not empty, where neither
-- holds a bracket and the port holds no colon; the host may hold colons.
pub split_host_port-join :
    (host port : Text)
    → host ≢ []
    → IsPlain host
    → IsPlain port
    → Lacks b':' port
    → split_host_port (join_host_port host port) ≡ some (host, port)
unfolding split_host_port join_host_port
split_host_port-join host port n h p c = elim (Bool-cases (lacks_byte b':' host)) [
  | inl e ↦
      rw (e, split_host_port, cut_last_colon-append host port c)
        (split_host-plain host port n h p e)
  | inr e ↦
      rw (e, split_host_port, cut_last_colon-bracket (b'[' ∷ host) port c)
        (split_host-bracket host port h p)
]

-- Texts of entries that are not spaces.
abbrev pub NoSpace : Text → Type 0
NoSpace = All (λ c. is_space c ≡ false)

trim_left-NoSpace : (s : Text) → NoSpace s → trim_left is_space s ≡ s
unfolding trim_left
trim_left-NoSpace [] h = refl
trim_left-NoSpace (c ∷ s) h = rw h.0 refl

reverse-NoSpace : (s r : Text) → NoSpace s → NoSpace r → NoSpace (reverse_aux s r)
reverse-NoSpace [] r hs hr = hr
reverse-NoSpace (c ∷ s) r hs hr = reverse-NoSpace s (c ∷ r) hs.1 (hs.0, hr)

trim_space-NoSpace : (s : Text) → NoSpace s → trim_space s ≡ s
unfolding trim_space trim
trim_space-NoSpace s h =
    rw (trim_left-NoSpace s h, trim_left-NoSpace (reverse s) (reverse-NoSpace s [] h tt))
      (reverse-reverse s)

-- What a port can be made of.
abbrev pub IsPort : Text → Type 0
IsPort s = NoSpace s × Lacks b':' s × Lacks b'[' s × Lacks b']' s

digit :
    (c : ℕ)
    → is_digit c ≡ true
    → (is_space c ≡ false) × ((c == b':') ≡ false) × ((c == b'[') ≡ false) × ((c == b']') ≡ false)
unfolding is_digit is_space
digit c h = ground arith

digits-IsPort : (s : Text) (n : ℕ) → is_some (digits_value n s) ≡ true → IsPort s
unfolding digits_value
digits-IsPort [] n h = (tt, tt, tt, tt)
digits-IsPort (c ∷ s) n h = elim (Bool-cases (is_digit c)) [
  | inr d ↦ absurd (ground (arith, h, d))
  | inl d ↦
      let (a, b, e, f) = digit c d in
      let (w, x, y, z) =
        digits-IsPort s (n * 10 + (c - b'0')) (sym (rw (d, digits_value) refl) ∙ h) in
      ((a, w), (b, x), (e, y), (f, z))
]

valid_port-IsPort : (s : Text) → valid_port s ≡ true → IsPort s
unfolding valid_port parse_uint
valid_port-IsPort [] h = absurd (ground arith)
valid_port-IsPort (c ∷ s) h = elim (Option-cases (digits_value 0 (c ∷ s))) [
  | inl e ↦
      absurd (
        ground (arith, (let g : false ≡ true = sym (rw (e, valid_port, parse_uint) refl) ∙ h in g)))
  | inr (n, e) ↦ digits-IsPort (c ∷ s) 0 (rw e refl)
]

join-NoSpace : (host port : Text) → NoSpace host → NoSpace port → NoSpace (join_host_port host port)
unfolding join_host_port is_space
join-NoSpace host port h p = elim (Bool-cases (lacks_byte b':' host)) [
  | inl e ↦ rw (e, join_host_port) (All-append _ host (b':' ∷ port) h (refl, p))
  | inr e ↦
      rw (e, join_host_port) (refl, All-append _ host (b']' ∷ b':' ∷ port) h (refl, (refl, p)))
]

not_empty : (s : Text) → s ≢ [] → is_empty s ≡ false
not_empty [] n = absurd (n refl)
not_empty (c ∷ s) n = refl

-- An address that the package net/netip reads back from the text it prints, a text with neither
-- spaces nor brackets.
unfoldable pub IsRead : Netip → NetAddr → Type 0
IsRead netip a =
    (netip.parse_addr (netip.string a) ≡ some a)
    × (netip.string a ≢ [])
    × IsPlain (netip.string a)
    × NoSpace (netip.string a)

-- The endpoint that a resolution gives, an address and a port that can be used, resolves to itself
-- and asks no resolver, for an address that is not an IPv4 address mapped to IPv6 and that is read
-- back from the text it is printed as.
pub resolve_endpoint-join :
    (netip : Netip) (lookup : Text → Option (List NetAddr)) (a : NetAddr) (port : Text)
    → IsRead netip a
    → is_usable a ≡ true
    → unmap a ≡ a
    → valid_port port ≡ true
    → let t = join_host_port (netip.string a) port in resolve_endpoint netip lookup t ≡ at t
unfolding resolve_endpoint literal IsRead IsPlain
resolve_endpoint-join netip lookup a port (read, n, plain, spaces) u m v =
    let (no_space, no_colon, left, right) = valid_port-IsPort port v in
    let host = netip.string a in
    let trimmed =
      trim_space-NoSpace (join_host_port host port) (join-NoSpace host port spaces no_space) in
    let parts = split_host_port-join host port n plain (left, right) no_colon in
    let there : is_empty (trim_space host) ≡ false =
      ap is_empty (trim_space-NoSpace host spaces) ∙ not_empty host n in
    rw (trimmed, resolve_endpoint, parts, there, v, literal, read, u, m) refl
