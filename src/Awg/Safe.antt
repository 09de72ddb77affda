-- ===== src/Awg/Safe.antt =====
-- What settings that pass amneziawg.go's validation promise to the runner and to `BuildIpcConfig`.
use skipi_core.Base.{
  ◌≡◌, refl, inl, inr, Bool, true, false, Option, none, some, List, [], ◌∷◌, ◌++◌, Bool-cases,
  arith, Text, is_empty, trim_space, is_some, codes, All,
}
use skipi_core.Awg.Chain.{valid_chain}
use skipi_core.Awg.{
  string_val, version3_ranges, Value, Peer, Settings, Flag, unset, set, malformed, parse_flag,
  version31_flags, Codecs, decode_key_to_hex,
}
use skipi_core.Awg.Validate.{
  Fault, orelse, has_peer, range_ok, valid_header_range, all_or, within, flag_ok, check_peers,
  check_key, sizes, when_not, junk_ordered, validate,
}
use skipi_core.Awg.Build.{
  before, with_flag, flag_lines, with_key, peer_lines, protected, after_key, build_ipc_config,
  peer_rest, joined, numbers, headers, chains,
}

pub orelse-none : (a b : Option Fault) → orelse a b ≡ none → (a ≡ none) × (b ≡ none)
unfolding orelse
orelse-none none b e = (refl, e)
orelse-none (some f) b e = cc

pub all_or-none :
    {A : Type 0} (fault : Fault) (test : A → Bool) (xs : List A)
    → all_or fault test xs ≡ none
    → All (λ a. test a ≡ true) xs
unfolding all_or
all_or-none fault test [] e = tt
all_or-none fault test (x ∷ xs) e = elim (Bool-cases (test x)) [
  | inl q ↦ (q, all_or-none fault test xs (ground (arith, e, q)))
  | inr q ↦ ground (arith, e, q)
]

pub when_not-none : (ok : Bool) (fault : Fault) → when_not ok fault ≡ none → ok ≡ true
unfolding when_not
when_not-none true fault e = refl
when_not-none false fault e = cc

-- The parts of a validation that passed.
pub record Passed (codecs : Codecs) (s : Settings) : Type 0 where
  pub count : within 128 s.jc ≡ true
  pub sized : All (λ n. within 1280 n ≡ true) (sizes s)
  pub junk : junk_ordered s ≡ true
  pub headers : All (λ v. valid_header_range (string_val v) ≡ true) (s.h1 ∷ s.h2 ∷ s.h3 ∷ s.h4 ∷ [])
  pub chains : All (λ t. valid_chain t ≡ true) (s.i1 ∷ s.i2 ∷ s.i3 ∷ s.i4 ∷ s.i5 ∷ [])
  pub key : check_key codecs s ≡ none
  pub ranges : All (λ r. range_ok r ≡ true) (version3_ranges s)
  pub flags : All (λ f. flag_ok f ≡ true) (version31_flags s)
  pub some_peer : has_peer s.peers ≡ true
  pub peers : check_peers s.peers ≡ none

pub validate-Passed : (codecs : Codecs) (s : Settings) → validate codecs s ≡ none → Passed codecs s
unfolding validate
validate-Passed codecs s e =
    let (a, e1) = orelse-none _ _ e in
    let (b, e2) = orelse-none _ _ e1 in
    let (c, e3) = orelse-none _ _ e2 in
    let (d, e4) = orelse-none _ _ e3 in
    let (f, e5) = orelse-none _ _ e4 in
    let (g, e6) = orelse-none _ _ e5 in
    let (h, e7) = orelse-none _ _ e6 in
    let (i, e8) = orelse-none _ _ e7 in
    let (j, k) = orelse-none _ _ e8 in
    record {
      count = when_not-none _ _ a;
      sized = all_or-none _ _ _ b;
      junk = when_not-none _ _ c;
      headers = all_or-none _ _ _ d;
      chains = all_or-none _ _ _ f;
      key = g;
      ranges = all_or-none _ _ _ h;
      flags = all_or-none _ _ _ i;
      some_peer = when_not-none _ _ j;
      peers = k;
    }

before_some : (t : Text) (o : Option Text) → is_some o ≡ true → is_some (before t o) ≡ true
unfolding before
before_some t none e = e
before_some t (some u) e = refl

with_flag_some :
    (name : Text) (v : Value) (rest : Option Text) (f : Flag)
    → parse_flag v ≡ f
    → flag_ok (name, v) ≡ true
    → is_some rest ≡ true
    → is_some (with_flag name f rest) ≡ true
unfolding with_flag flag_ok
with_flag_some name v rest unset e ok h = h
with_flag_some name v rest (set b) e ok h = before_some _ rest h
with_flag_some name v rest malformed e ok h = ground (arith, e, ok)

flag_lines_some :
    (fs : List (Text × Value)) → All (λ f. flag_ok f ≡ true) fs → is_some (flag_lines fs) ≡ true
unfolding flag_lines
flag_lines_some [] h = refl
flag_lines_some ((name, v) ∷ fs) h =
    with_flag_some name v (flag_lines fs) (parse_flag v) refl h.0 (flag_lines_some fs h.1)

with_key_some :
    (name more : Text) (key rest : Option Text)
    → is_some key ≡ true
    → is_some rest ≡ true
    → is_some (with_key name key more rest) ≡ true
unfolding with_key
with_key_some name more none rest e f = cc
with_key_some name more (some hex) rest e f = before_some _ rest f

-- The public key of a peer that is there can be decoded.
unfoldable pub HasKey : Codecs → Option Peer → Type 0
HasKey codecs none = Unit {0}
HasKey codecs (some p) = is_some (decode_key_to_hex codecs p.public_key) ≡ true

peer_lines_some :
    (codecs : Codecs) (ps : List (Option Peer))
    → check_peers ps ≡ none
    → All (HasKey codecs) ps
    → is_some (peer_lines codecs ps) ≡ true
unfolding check_peers peer_lines HasKey
peer_lines_some codecs [] e h = refl
peer_lines_some codecs (none ∷ ps) e h = cc
peer_lines_some codecs (some p ∷ ps) e h =
    let rest : check_peers ps ≡ none = ground (arith, e) in
    with_key_some (codes "public_key") (peer_rest codecs p) (decode_key_to_hex codecs p.public_key)
      (peer_lines codecs ps) h.0 (peer_lines_some codecs ps rest h.1)

protected_some :
    (codecs : Codecs) (s : Settings) (rest : Option Text)
    → check_key codecs s ≡ none
    → is_some rest ≡ true
    → is_some (protected codecs (trim_space s.header_protection_key) rest) ≡ true
unfolding check_key protected
protected_some codecs s rest e h =
    elim (Bool-cases (is_empty (trim_space s.header_protection_key))) [
      | inl q ↦ rw q h
      | inr q ↦ rw q (
          with_key_some (codes "header_protection_key") []
            (decode_key_to_hex codecs (trim_space s.header_protection_key)) rest
            (ground (arith, e, q)) h)
    ]

joined_some :
    (a b : Option Text) → is_some a ≡ true → is_some b ≡ true → is_some (joined a b) ≡ true
unfolding joined
joined_some none b e f = cc
joined_some (some t) b e f = before_some t b f

-- Settings that pass the validation are always written, provided that the secret key and the
-- public keys of the peers can be decoded: no other error of `BuildIpcConfig` can occur.
pub validate-build_ipc_config :
    (codecs : Codecs) (s : Settings)
    → validate codecs s ≡ none
    → is_some (decode_key_to_hex codecs s.secret_key) ≡ true
    → All (HasKey codecs) s.peers
    → is_some (build_ipc_config codecs s) ≡ true
unfolding build_ipc_config after_key
validate-build_ipc_config codecs s e secret keys =
    let v = validate-Passed codecs s e in
    with_key_some (codes "private_key") (numbers s ++ (headers s ++ chains s))
      (decode_key_to_hex codecs s.secret_key)
      (protected codecs (trim_space s.header_protection_key) (after_key codecs s)) secret
      (protected_some codecs s (after_key codecs s) v.key (
        before_some _ (joined (flag_lines (version31_flags s)) (peer_lines codecs s.peers)) (
          joined_some (flag_lines (version31_flags s)) (peer_lines codecs s.peers)
            (flag_lines_some (version31_flags s) v.flags)
            (peer_lines_some codecs s.peers v.peers keys))))
