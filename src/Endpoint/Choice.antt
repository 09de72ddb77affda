-- ===== src/Endpoint/Choice.antt =====
-- Which of the addresses of a host name amneziawg.go takes, lines 443-557.
use skipi_core.Base.{
  ◌≡◌, ◌≢◌, refl, ap, sym, subst, ◌∙◌, ◌⊎◌, inl, inr, true, false, Option, none, some, List, [],
  ◌∷◌, Bool-cases, Option-cases, arith, Text, if◌then◌else◌, take, str_eq, is_empty, trim_space,
}
use skipi_core.Socks.{v4_prefix}
use skipi_core.Socks.Associate.{NetAddr, invalid, v4, v6, unmap, is_usable, is4}
use skipi_core.Endpoint.{
  Netip, usable_addresses, pick_address, is_valid, NameServers, lookup_with_fallback,
  lookup_configured, refiltered, unless_empty, at, trouble, lookup_failed, resolve_endpoint,
  looked_up, chosen, join_host_port, split_host_port, valid_port, literal,
}

-- The first IPv4 address of a list, and the first address; the other one if there is none.
first4 : List NetAddr → Option NetAddr
first4 [] = none
first4 (a ∷ as_) = if is4 a then some a else first4 as_

or_head : Option NetAddr → List NetAddr → Option NetAddr
or_head (some a) as_ = some a
or_head none [] = none
or_head none (a ∷ as_) = some a

-- The first usable IPv4 address, and the first usable address of any kind if there is none.
unfoldable pub preferred : List NetAddr → Option NetAddr
unfolding first4 or_head
preferred as_ = or_head (first4 (usable_addresses as_)) (usable_addresses as_)

unmap-unmap : (a : NetAddr) → unmap (unmap a) ≡ unmap a
unfolding unmap
unmap-unmap invalid = refl
unmap-unmap (v4 ip) = refl
unmap-unmap (v6 ip) = elim (Bool-cases (str_eq (take 12 ip) v4_prefix)) [
  | inl e ↦ rw (e, unmap) refl
  | inr e ↦ rw (e, unmap) (rw (e, unmap) refl)
]

usable_valid : (a : NetAddr) → is_usable a ≡ true → is_valid a ≡ true
unfolding is_usable is_valid
usable_valid a h = ground arith

-- An address in front that is not IPv4 comes first among those of its kind only.
or_head-one :
    (o : Option NetAddr) (a : NetAddr) (as_ : List NetAddr)
    → or_head o (a ∷ []) ≡ or_head o (a ∷ as_)
unfolding or_head
or_head-one none a as_ = refl
or_head-one (some b) a as_ = refl

-- With an IPv6 address that was seen before.
pick_address-seen :
    (f : NetAddr) (as_ : List NetAddr)
    → pick_address f as_ ≡ (
        if is_valid f
        then or_head (first4 (usable_addresses as_)) (f ∷ [])
        else or_head (first4 (usable_addresses as_)) (usable_addresses as_))
unfolding pick_address usable_addresses first4 or_head
pick_address-seen f [] = refl
pick_address-seen f (a ∷ as_) = elim (Bool-cases (is_usable (unmap a))) [
  | inr u ↦ rw (u, pick_address, usable_addresses) (pick_address-seen f as_)
  | inl u ↦ elim (Bool-cases (is4 (unmap a))) [
    | inl t ↦
        rw (u, t, pick_address, usable_addresses, first4)
          (elim (Bool-cases (is_valid f)) [ inl v ↦ rw v refl | inr v ↦ rw v refl ])
    | inr t ↦
        rw (u, t, pick_address, usable_addresses, first4)
          (elim (Bool-cases (is_valid f)) [
            | inl v ↦ rw v (pick_address-seen f as_ ∙ rw v refl)
            | inr v ↦ rw v (
                pick_address-seen (unmap a) as_
                ∙ rw (usable_valid (unmap a) u)
                    (or_head-one (first4 (usable_addresses as_)) (unmap a) _))
          ])
  ]
]

-- The loop takes the first usable IPv4 address of the list, the first usable IPv6 address if there
-- is none, and nothing only if no address of the list is usable.
pub pick_address-preferred : (as_ : List NetAddr) → pick_address invalid as_ ≡ preferred as_
unfolding preferred is_valid
pick_address-preferred as_ = pick_address-seen invalid as_

usable-usable :
    (as_ : List NetAddr) → usable_addresses (usable_addresses as_) ≡ usable_addresses as_
unfolding usable_addresses
usable-usable [] = refl
usable-usable (a ∷ as_) = elim (Bool-cases (is_usable (unmap a))) [
  | inl u ↦
      rw (u, usable_addresses)
        (rw (unmap-unmap a, u, usable_addresses) (ap (◌∷◌ (unmap a)) (usable-usable as_)))
  | inr u ↦ rw (u, usable_addresses) (usable-usable as_)
]

-- An address, and every one is usable: what a lookup gives.
pub AreUsable : List NetAddr → Type 0
AreUsable as_ = (usable_addresses as_ ≡ as_) × (as_ ≢ [])

unless_empty-AreUsable :
    (us : List NetAddr) (later : Option (List NetAddr)) (found : List NetAddr)
    → usable_addresses us ≡ us
    → ((f : List NetAddr) → later ≡ some f → AreUsable f)
    → unless_empty us later ≡ some found
    → AreUsable found
unfolding unless_empty AreUsable
unless_empty-AreUsable [] later found u h e = h found e
unless_empty-AreUsable (a ∷ us) later found u h e =
    subst AreUsable {x = a ∷ us} {y = found} (inj e) (u, λ q. cc)
  where
    inj : {xs ys : List NetAddr} → some xs ≡ some ys → xs ≡ ys
    inj q = cc

never : {as_ : List NetAddr} → none ≡ some as_ → AreUsable as_
never e = absurd cc

lookup_configured-AreUsable :
    (r : NameServers) (host : Text) (servers found : List NetAddr)
    → lookup_configured r host servers ≡ some found
    → AreUsable found
unfolding lookup_configured
lookup_configured-AreUsable r host [] found e = never e
lookup_configured-AreUsable r host (s ∷ rest) found e = elim (Bool-cases (is_usable (unmap s))) [
  | inr u ↦ lookup_configured-AreUsable r host rest found (sym (rw (u, lookup_configured) refl) ∙ e)
  | inl u ↦
      unless_empty-AreUsable (usable_addresses (r.server (unmap s) host).addresses)
        (if (r.server (unmap s) host).expired then none else lookup_configured r host rest) found
        (usable-usable _)
        (λ f q. elim (Bool-cases (r.server (unmap s) host).expired) [
          | inl x ↦ never (sym (rw x refl) ∙ q)
          | inr x ↦ lookup_configured-AreUsable r host rest f (sym (rw x refl) ∙ q)
        ])
        (sym (rw (u, lookup_configured) refl) ∙ e)
]

-- What the lookup of a host with its fallback returns is never empty, and every address of it can
-- be used.
lookup_with_fallback-AreUsable :
    (r : NameServers) (servers : List NetAddr) (host : Text) (found : List NetAddr)
    → lookup_with_fallback r servers host ≡ some found
    → AreUsable found
unfolding lookup_with_fallback refiltered
lookup_with_fallback-AreUsable r servers host found e =
    unless_empty-AreUsable (usable_addresses (r.system host)) _ found (usable-usable _)
      (λ f q.
        unless_empty-AreUsable (refiltered (lookup_configured r host servers)) none f
          (again (lookup_configured r host servers)) (λ g x. never x) q)
      e
  where
    again : (o : Option (List NetAddr)) → usable_addresses (refiltered o) ≡ refiltered o
    again none = refl
    again (some as_) = usable-usable as_

or_first_some :
    (o : Option NetAddr) (as_ : List NetAddr) → as_ ≢ [] → (a : NetAddr) × (or_head o as_ ≡ some a)
unfolding or_head
or_first_some (some a) as_ h = (a, refl)
or_first_some none [] h = absurd (h refl)
or_first_some none (a ∷ as_) h = (a, refl)

preferred_found :
    (found : List NetAddr) → AreUsable found → (a : NetAddr) × (preferred found ≡ some a)
unfolding preferred AreUsable
preferred_found found (u, h) = or_first_some _ _ (λ e. h (sym u ∙ e))

-- The endpoint of a peer that is a name and not an address, with a port that can be used: if the
-- lookup of the name, by the system and then by the configured servers, fails, so does the
-- resolution, and otherwise it is the port behind the first usable IPv4 address of what was
-- found, or the first usable address of what was found if none of them is IPv4. It never fails
-- because no address can be used.
pub resolve_endpoint-named :
    (netip : Netip) (r : NameServers) (servers : List NetAddr) (raw host port : Text)
    → split_host_port (trim_space raw) ≡ some (host, port)
    → is_empty (trim_space host) ≡ false
    → valid_port port ≡ true
    → literal netip host ≡ none
    → let lookup = lookup_with_fallback r servers in
      ((lookup host ≡ none) × (resolve_endpoint netip lookup raw ≡ trouble lookup_failed))
      ⊎ ((found : List NetAddr) × (a : NetAddr) × (lookup host ≡ some found)
          × (preferred found ≡ some a)
          × (resolve_endpoint netip lookup raw ≡ at (join_host_port (netip.string a) port)))
unfolding resolve_endpoint looked_up chosen
resolve_endpoint-named netip r servers raw host port s h p l =
    elim (Option-cases (lookup_with_fallback r servers host)) [
      | inl e ↦ inl (e, rw (s, h, p, l, e, resolve_endpoint) refl)
      | inr (found, e) ↦
          let (a, q) =
            preferred_found found (lookup_with_fallback-AreUsable r servers host found e) in
          inr (
            found,
            a,
            e,
            q,
            rw (s, h, p, l, e, pick_address-preferred found, q, resolve_endpoint) refl,
          )
    ]
