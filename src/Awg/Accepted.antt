-- ===== src/Awg/Accepted.antt =====
-- Which settings amneziawg.go's `validateNativeRunnerCompatibility` lets through, field by field.
use skipi_core.Base.{
  ℕ, zero, suc, ◌≤◌, ◌≡◌, ◌↔◌, refl, sym, ◌∙◌, ◌⊎◌, inl, inr, Bool, true, false, not, ◌&&◌, Option,
  none, some, List, [], ◌∷◌, Bool-cases, Option-cases, arith, subst, Text, is_empty, trim_space,
  byte_len, is_some, ℤ, pos, negsuc, ltz, All,
}
use skipi_core.Awg.{
  Value, Peer, Settings, string_val, Flag, unset, set, malformed, parse_flag, range_set, Codecs,
  decode_key_to_hex, version31_flags, version3_ranges,
}
use skipi_core.Awg.Chain.{max_chain, valid_chain}
use skipi_core.Awg.Tags.{Tags, valid_chain_iff}
use skipi_core.Awg.Validate.{
  Fault, short_padding, orelse, all_or, within, flag_ok, range_ok, check_peers, check_key, paddings,
  sizes, enough_padding, when_not, junk_ordered, validate, valid_header_range, valid_u16_range,
  has_peer,
}
use skipi_core.Awg.Safe.{all_or-none, Passed, validate-Passed}

-- A number from 0 to `limit`, and one that is at least `least`.
IsUpTo : ℕ → ℤ → Type 0
IsUpTo limit n = (k : ℕ) × (n ≡ pos k) × (k ≤ limit)

IsFrom : ℕ → ℤ → Type 0
IsFrom least n = (k : ℕ) × (n ≡ pos k) × (least ≤ k)

-- A blank chain, or tags whose bytes, and whose text, come to at most 4096.
IsChain : Text → Type 0
IsChain text =
    (byte_len (trim_space text) ≤ max_chain)
    × ((m : ℕ) × Tags (trim_space text) m × (m ≤ max_chain))

-- A value that is not set, or whose text is a range of 16-bit numbers.
IsRange : Value → Type 0
IsRange v =
    (range_set v ≡ none) ⊎ ((t : Text) × (range_set v ≡ some t) × (valid_u16_range t ≡ true))

IsFlag : Value → Type 0
IsFlag v = ¬ (parse_flag v ≡ malformed)

IsPeer : Option Peer → Type 0
unfolding IsRange
IsPeer none = ⊥
IsPeer (some p) = IsRange p.keep_alive

-- No header protection key, or one that can be decoded, with paddings of at least 12.
IsKey : Codecs → Settings → Type 0
IsKey codecs s =
    (trim_space s.header_protection_key ≡ [])
    ⊎ ((is_some (decode_key_to_hex codecs (trim_space s.header_protection_key)) ≡ true)
        × IsFrom 12 s.s1
        × IsFrom 12 s.s2
        × IsFrom 12 s.s3
        × IsFrom 12 s.s4)

-- The settings that the runner takes.
pub record Accepted (codecs : Codecs) (s : Settings) : Type 0 where
  jc : IsUpTo 128 s.jc
  jmin : IsUpTo 1280 s.jmin
  jmax : IsUpTo 1280 s.jmax
  s1 : IsUpTo 1280 s.s1
  s2 : IsUpTo 1280 s.s2
  s3 : IsUpTo 1280 s.s3
  s4 : IsUpTo 1280 s.s4
  junk : (lo hi : ℕ) → s.jmin ≡ pos (suc lo) → s.jmax ≡ pos (suc hi) → lo ≤ hi
  h1 : valid_header_range (string_val s.h1) ≡ true
  h2 : valid_header_range (string_val s.h2) ≡ true
  h3 : valid_header_range (string_val s.h3) ≡ true
  h4 : valid_header_range (string_val s.h4) ≡ true
  i1 : IsChain s.i1
  i2 : IsChain s.i2
  i3 : IsChain s.i3
  i4 : IsChain s.i4
  i5 : IsChain s.i5
  key : IsKey codecs s
  content_padding_addition : IsRange s.content_padding_addition
  rekey_after_time : IsRange s.rekey_after_time
  rekey_timeout : IsRange s.rekey_timeout
  reject_after_time : IsRange s.reject_after_time
  keepalive_timeout : IsRange s.keepalive_timeout
  max_handshake_attempts : IsRange s.max_handshake_attempts
  random_trailers : IsFlag s.random_trailers
  disable_cookies : IsFlag s.disable_cookies
  some_peer : ¬ (s.peers ≡ [])
  peers : All IsPeer s.peers

pos_inj : {a b : ℕ} → pos a ≡ pos b → a ≡ b
pos_inj e = cc

within_iff : (limit : ℕ) (n : ℤ) → (within limit n ≡ true) ↔ IsUpTo limit n
unfolding within IsUpTo
within_iff limit (pos k) =
    (λ e. (k, refl, ground (arith, e)), λ (j, q, h). ground (arith, pos_inj q, h))
within_iff limit (negsuc k) = (λ e. absurd (ground (arith, e)), λ (j, q, h). absurd (cc))

enough_padding_iff : (n : ℤ) → (enough_padding n ≡ true) ↔ IsFrom 12 n
unfolding enough_padding IsFrom
enough_padding_iff (pos k) =
    (λ e. (k, refl, ground (arith, e)), λ (j, q, h). ground (arith, pos_inj q, h))
enough_padding_iff (negsuc k) = (λ e. absurd (ground (arith, e)), λ (j, q, h). absurd (cc))

range_ok_iff : (name : Text) (v : Value) → (range_ok (name, v) ≡ true) ↔ IsRange v
unfolding range_ok IsRange
range_ok_iff name v = elim (Option-cases (range_set v)) [
  | inl e ↦ (λ q. inl e, λ h. rw (e, range_ok) refl)
  | inr (t, e) ↦ (
    λ q. inr (t, e, sym (rw (e, range_ok) refl) ∙ q),
    λ h.
        rw (e, range_ok)
          (elim h [
            | inl n ↦ absurd (clash (sym e ∙ n))
            | inr (u, f, ok) ↦ subst (λ x. valid_u16_range x ≡ true) (inj (sym f ∙ e)) ok
          ]),
  )
]
  where
    clash : {t : Text} → some t ≡ none → ⊥
    clash q = cc

    inj : {t u : Text} → some t ≡ some u → t ≡ u
    inj q = cc

flag_ok_iff : (name : Text) (v : Value) → (flag_ok (name, v) ≡ true) ↔ IsFlag v
unfolding flag_ok IsFlag
flag_ok_iff name v = go (parse_flag v) refl
  where
    go : (f : Flag) → parse_flag v ≡ f → (flag_ok (name, v) ≡ true) ↔ (¬ (parse_flag v ≡ malformed))
    go unset e = (λ q m. cc, λ h. rw (e, flag_ok) refl)
    go (set b) e = (λ q m. cc, λ h. rw (e, flag_ok) refl)
    go malformed e = (λ q m. ground (arith, e, q), λ h. absurd (h e))

has_peer_iff : (ps : List (Option Peer)) → (has_peer ps ≡ true) ↔ (¬ (ps ≡ []))
unfolding has_peer
has_peer_iff [] = (λ e. cc, λ h. absurd (h refl))
has_peer_iff (p ∷ ps) = (λ e q. cc, λ h. refl)

check_peers_iff : (ps : List (Option Peer)) → (check_peers ps ≡ none) ↔ All IsPeer ps
unfolding check_peers IsPeer
check_peers_iff [] = (λ e. tt, λ h. refl)
check_peers_iff (none ∷ ps) = (λ e. cc, λ h. absurd h.0)
check_peers_iff (some p ∷ ps) = elim (Bool-cases (range_ok ([], p.keep_alive))) [
  | inl q ↦ (
    λ e. ((range_ok_iff [] p.keep_alive).0 q, (check_peers_iff ps).0 (ground (arith, e, q))),
    λ h. rw (q, check_peers) ((check_peers_iff ps).1 h.1),
  )
  | inr q ↦ (
    λ e. absurd (ground (arith, e, q)),
    λ h. absurd (ground (arith, q, (range_ok_iff [] p.keep_alive).1 h.0)),
  )
]

junk_ordered_iff :
    (lo hi : ℤ)
    → (not (ltz (pos 0) lo && (ltz (pos 0) hi && ltz hi lo)) ≡ true)
      ↔ ((n m : ℕ) → lo ≡ pos (suc n) → hi ≡ pos (suc m) → n ≤ m)
junk_ordered_iff (pos zero) hi = (λ e n m q r. omega (arith, pos_inj q), λ h. refl)
junk_ordered_iff (negsuc a) hi = (λ e n m q r. absurd (cc), λ h. refl)
junk_ordered_iff (pos (suc a)) (pos zero) =
    (λ e n m q r. omega (arith, pos_inj r), λ h. ground arith)
junk_ordered_iff (pos (suc a)) (negsuc b) = (λ e n m q r. absurd (cc), λ h. ground arith)
junk_ordered_iff (pos (suc a)) (pos (suc b)) =
    (λ e n m q r. ground (arith, e, pos_inj q, pos_inj r), λ h. ground (arith, h a b refl refl))

all_or-all :
    {A : Type 0} (fault : Fault) (test : A → Bool) (xs : List A)
    → All (λ a. test a ≡ true) xs
    → all_or fault test xs ≡ none
unfolding all_or
all_or-all fault test [] h = refl
all_or-all fault test (x ∷ xs) h = rw (h.0, all_or-all fault test xs h.1, all_or) refl

is_empty_iff : (t : Text) → (is_empty t ≡ true) ↔ (t ≡ [])
is_empty_iff [] = (λ e. refl, λ e. refl)
is_empty_iff (c ∷ t) = (λ e. cc, λ e. absurd (cc))

check_key_iff : (codecs : Codecs) (s : Settings) → (check_key codecs s ≡ none) ↔ IsKey codecs s
unfolding check_key IsKey paddings
check_key_iff codecs s = elim (Bool-cases (is_empty (trim_space s.header_protection_key))) [
  | inl q ↦ (
    λ e. inl ((is_empty_iff (trim_space s.header_protection_key)).0 q),
    λ h. rw (q, check_key) refl,
  )
  | inr q ↦
      elim (Bool-cases (is_some (decode_key_to_hex codecs (trim_space s.header_protection_key)))) [
        | inr d ↦ (
          λ e. absurd (ground (arith, e, q, d)),
          λ h. absurd (elim h [
            | inl b ↦ ground (arith, q, (is_empty_iff (trim_space s.header_protection_key)).1 b)
            | inr (k, w, x, y, z) ↦ ground (arith, d, k)
          ]),
        )
        | inl d ↦ (
          λ e.
              let padded : all_or short_padding enough_padding (paddings s) ≡ none =
                sym (rw (q, d, check_key) refl) ∙ e in
              let (a, (b, (c, (f, u)))) =
                all_or-none short_padding enough_padding (paddings s) padded in
              inr (
                d,
                (enough_padding_iff s.s1).0 a,
                (enough_padding_iff s.s2).0 b,
                (enough_padding_iff s.s3).0 c,
                (enough_padding_iff s.s4).0 f,
              ),
          λ h.
              rw (q, d, check_key)
                (elim h [
                  | inl b ↦
                      absurd
                        (ground (arith, q, (is_empty_iff (trim_space s.header_protection_key)).1 b))
                  | inr (k, a, b, c, f) ↦ all_or-all short_padding enough_padding (paddings s) (
                    (enough_padding_iff s.s1).1 a,
                    (
                      (enough_padding_iff s.s2).1 b,
                      ((enough_padding_iff s.s3).1 c, ((enough_padding_iff s.s4).1 f, tt)),
                    ),
                  )
                ]),
        )
      ]
]

Passed-Accepted : (codecs : Codecs) (s : Settings) → Passed codecs s → Accepted codecs s
unfolding junk_ordered sizes version3_ranges version31_flags IsChain
Passed-Accepted codecs s v =
    let (jmin, (jmax, (s1, (s2, (s3, (s4, x)))))) = v.sized in
    let (h1, (h2, (h3, (h4, y)))) = v.headers in
    let (i1, (i2, (i3, (i4, (i5, z))))) = v.chains in
    let (r1, (r2, (r3, (r4, (r5, (r6, u)))))) = v.ranges in
    let (f1, (f2, w)) = v.flags in
    record {
      jc = (within_iff 128 s.jc).0 v.count;
      jmin = (within_iff 1280 s.jmin).0 jmin;
      jmax = (within_iff 1280 s.jmax).0 jmax;
      s1 = (within_iff 1280 s.s1).0 s1;
      s2 = (within_iff 1280 s.s2).0 s2;
      s3 = (within_iff 1280 s.s3).0 s3;
      s4 = (within_iff 1280 s.s4).0 s4;
      junk = (junk_ordered_iff s.jmin s.jmax).0 v.junk;
      h1 = h1;
      h2 = h2;
      h3 = h3;
      h4 = h4;
      i1 = (valid_chain_iff s.i1).0 i1;
      i2 = (valid_chain_iff s.i2).0 i2;
      i3 = (valid_chain_iff s.i3).0 i3;
      i4 = (valid_chain_iff s.i4).0 i4;
      i5 = (valid_chain_iff s.i5).0 i5;
      key = (check_key_iff codecs s).0 v.key;
      content_padding_addition = (range_ok_iff _ s.content_padding_addition).0 r1;
      rekey_after_time = (range_ok_iff _ s.rekey_after_time).0 r2;
      rekey_timeout = (range_ok_iff _ s.rekey_timeout).0 r3;
      reject_after_time = (range_ok_iff _ s.reject_after_time).0 r4;
      keepalive_timeout = (range_ok_iff _ s.keepalive_timeout).0 r5;
      max_handshake_attempts = (range_ok_iff _ s.max_handshake_attempts).0 r6;
      random_trailers = (flag_ok_iff _ s.random_trailers).0 f1;
      disable_cookies = (flag_ok_iff _ s.disable_cookies).0 f2;
      some_peer = (has_peer_iff s.peers).0 v.some_peer;
      peers = (check_peers_iff s.peers).0 v.peers;
    }

both : (a b : Option Fault) → a ≡ none → b ≡ none → orelse a b ≡ none
unfolding orelse
both none b e f = f
both (some x) b e f = absurd (cc)

passing : (ok : Bool) (fault : Fault) → ok ≡ true → when_not ok fault ≡ none
unfolding when_not
passing true fault e = refl
passing false fault e = absurd (cc)

Accepted-validate : (codecs : Codecs) (s : Settings) → Accepted codecs s → validate codecs s ≡ none
unfolding validate junk_ordered sizes version3_ranges version31_flags IsChain
Accepted-validate codecs s v = both _ _ (passing _ _ ((within_iff 128 s.jc).1 v.jc)) (
    both _ _ (all_or-all _ _ _ sized) (
      both _ _ (passing _ _ ((junk_ordered_iff s.jmin s.jmax).1 v.junk)) (
        both _ _ (all_or-all _ _ _ (v.h1, (v.h2, (v.h3, (v.h4, tt))))) (
          both _ _ (all_or-all _ _ _ chains) (
            both _ _ ((check_key_iff codecs s).1 v.key) (
              both _ _ (all_or-all _ _ _ ranges) (
                both _ _ (all_or-all _ _ _ flags) (
                  both _ _ (passing _ _ ((has_peer_iff s.peers).1 v.some_peer))
                    ((check_peers_iff s.peers).1 v.peers)))))))))
  where
    sized : All (λ n. within 1280 n ≡ true) (s.jmin ∷ s.jmax ∷ s.s1 ∷ s.s2 ∷ s.s3 ∷ s.s4 ∷ [])
    sized = (
      (within_iff 1280 s.jmin).1 v.jmin,
      (
        (within_iff 1280 s.jmax).1 v.jmax,
        (
          (within_iff 1280 s.s1).1 v.s1,
          (
            (within_iff 1280 s.s2).1 v.s2,
            ((within_iff 1280 s.s3).1 v.s3, ((within_iff 1280 s.s4).1 v.s4, tt)),
          ),
        ),
      ),
    )

    chains : All (λ t. valid_chain t ≡ true) (s.i1 ∷ s.i2 ∷ s.i3 ∷ s.i4 ∷ s.i5 ∷ [])
    chains = (
      (valid_chain_iff s.i1).1 v.i1,
      (
        (valid_chain_iff s.i2).1 v.i2,
        (
          (valid_chain_iff s.i3).1 v.i3,
          ((valid_chain_iff s.i4).1 v.i4, ((valid_chain_iff s.i5).1 v.i5, tt)),
        ),
      ),
    )

    ranges : All (λ r. range_ok r ≡ true) (version3_ranges s)
    ranges = (
      (range_ok_iff _ s.content_padding_addition).1 v.content_padding_addition,
      (
        (range_ok_iff _ s.rekey_after_time).1 v.rekey_after_time,
        (
          (range_ok_iff _ s.rekey_timeout).1 v.rekey_timeout,
          (
            (range_ok_iff _ s.reject_after_time).1 v.reject_after_time,
            (
              (range_ok_iff _ s.keepalive_timeout).1 v.keepalive_timeout,
              ((range_ok_iff _ s.max_handshake_attempts).1 v.max_handshake_attempts, tt),
            ),
          ),
        ),
      ),
    )

    flags : All (λ f. flag_ok f ≡ true) (version31_flags s)
    flags = (
      (flag_ok_iff _ s.random_trailers).1 v.random_trailers,
      ((flag_ok_iff _ s.disable_cookies).1 v.disable_cookies, tt),
    )

-- The validation passes exactly the settings that are accepted, field by field: a junk count from 0
-- to 128, junk sizes and paddings from 0 to 1280, no positive jmin above a positive jmax, four
-- headers that the validator of header ranges lets through, five chains that are blank or tags of
-- at most 4096 bytes, a header protection key that is blank or can be decoded with four paddings of
-- at least 12, six times that are not set or ranges of 16-bit numbers, two flags that are not
-- malformed, and peers, at least one, that are there and whose keepalive is not set or such a range.
pub validate_iff : (codecs : Codecs) (s : Settings) → (validate codecs s ≡ none) ↔ Accepted codecs s
validate_iff codecs s =
    (λ e. Passed-Accepted codecs s (validate-Passed codecs s e), Accepted-validate codecs s)
