-- ===== src/Awg/Validate.antt =====
-- amneziawg.go, lines 139-160 and 231-351: the validators of the AmneziaWG settings. An error is
-- known by what it is about.
use skipi_core.Base.{
  ℕ, Bool, true, false, not, ◌||◌, ◌&&◌, Option, none, some, List, [], ◌∷◌, if◌then◌else◌, ltb,
  Text, codes, str_eq, is_empty, trim_space, split, parse_uint, ℤ, pos, ltz, is_some, has_prefix,
}
use skipi_core.Awg.{
  Value, Peer, Settings, string_val, unset, set, malformed, parse_flag, version31_flags,
  version3_ranges, range_set, Codecs, decode_key_to_hex,
}
use skipi_core.Awg.Chain.{valid_chain}

pub data Fault : Type 0 where
  bad_count bad_size jmin_above_jmax bad_header bad_chain bad_key short_padding : Fault
  bad_range bad_flag no_peer missing_peer bad_keepalive : Fault

pub data Bound : Type 0 where
  bound : ℕ → Bound
  bad : Bound

-- One bound of `validateAmneziaWgU16Range`.
u16_bound : Text → Bound
unfolding has_prefix parse_uint trim_space str_eq
u16_bound part =
    if is_empty part || not (str_eq (trim_space part) part) || has_prefix (codes "+") part
    then bad
    else elim (parse_uint 65536 part) [ none ↦ bad | some n ↦ bound n ]

ordered : Bound → Bound → Bool
ordered (bound n) (bound m) = not (ltb m n)
ordered (bound n) bad = false
ordered bad later = false

-- `validateAmneziaWgU16Range`
unfoldable pub valid_u16_range : Text → Bool
unfolding u16_bound ordered
valid_u16_range value = parts (split (codes "-") value)
  where
    parts : List Text → Bool
    parts (a ∷ []) = ordered (u16_bound a) (u16_bound a)
    parts (a ∷ b ∷ []) = ordered (u16_bound a) (u16_bound b)
    parts _ = false

u32_bound : Text → Bound
unfolding parse_uint
u32_bound part = elim (parse_uint 4294967296 part) [ none ↦ bad | some n ↦ bound n ]

-- `validateAmneziaWgHeaderRange`; no error is `true`.
unfoldable pub valid_header_range : Text → Bool
unfolding u32_bound ordered trim_space
valid_header_range value =
    if is_empty value || str_eq value (codes "0")
    then true
    else if not (str_eq (trim_space value) value)
    then false
    else parts (split (codes "-") value)
  where
    parts : List Text → Bool
    parts (a ∷ []) = ordered (u32_bound a) (u32_bound a)
    parts (a ∷ b ∷ []) = ordered (u32_bound a) (u32_bound b)
    parts _ = false

-- The first fault of the two.
unfoldable pub orelse : Option Fault → Option Fault → Option Fault
orelse (some f) later = some f
orelse none later = later

-- A loop that returns the fault at the first value that fails the test.
unfoldable pub all_or : Fault → {A : Type 0} → (A → Bool) → List A → Option Fault
all_or fault test [] = none
all_or fault test (a ∷ rest) =
    let later = all_or fault test rest in if test a then later else some fault

unfoldable pub within : ℕ → ℤ → Bool
within limit n = not (ltz n (pos 0) || ltz (pos limit) n)

unfoldable pub range_ok : Text × Value → Bool
unfolding range_set valid_u16_range
range_ok (name, v) = elim (range_set v) [ none ↦ true | some t ↦ valid_u16_range t ]

unfoldable pub flag_ok : Text × Value → Bool
flag_ok (name, v) = elim (parse_flag v) [ unset ↦ true | set b ↦ true | malformed ↦ false ]

-- The check of the peers, one after the other.
unfoldable pub check_peers : List (Option Peer) → Option Fault
check_peers [] = none
check_peers (none ∷ rest) = some missing_peer
check_peers (some p ∷ rest) =
    if range_ok ([], p.keep_alive) then check_peers rest else some bad_keepalive

unfoldable pub sizes : Settings → List ℤ
sizes s = s.jmin ∷ s.jmax ∷ s.s1 ∷ s.s2 ∷ s.s3 ∷ s.s4 ∷ []

unfoldable pub paddings : Settings → List ℤ
paddings s = s.s1 ∷ s.s2 ∷ s.s3 ∷ s.s4 ∷ []

unfoldable pub enough_padding : ℤ → Bool
enough_padding n = not (ltz n (pos 12))

-- The check of the header protection key, with its text trimmed.
unfoldable pub check_key : Codecs → Settings → Option Fault
unfolding enough_padding paddings
check_key codecs s =
    if is_empty (trim_space s.header_protection_key)
    then none
    else if is_some (decode_key_to_hex codecs (trim_space s.header_protection_key))
    then all_or short_padding enough_padding (paddings s)
    else some bad_key

unfoldable pub junk_ordered : Settings → Bool
junk_ordered s = not (ltz (pos 0) s.jmin && (ltz (pos 0) s.jmax && ltz s.jmax s.jmin))

unfoldable pub when_not : Bool → Fault → Option Fault
when_not ok fault = if ok then none else some fault

unfoldable pub has_peer : List (Option Peer) → Bool
has_peer [] = false
has_peer (p ∷ rest) = true

-- `validateNativeRunnerCompatibility` of settings that are there.
unfoldable pub validate : Codecs → Settings → Option Fault
unfolding within sizes junk_ordered when_not check_key check_peers has_peer
validate codecs s = orelse (when_not (within 128 s.jc) bad_count) (
    orelse (all_or bad_size (within 1280) (sizes s)) (
      orelse (when_not (junk_ordered s) jmin_above_jmax) (
        orelse
          (all_or bad_header (λ v. valid_header_range (string_val v))
            (s.h1 ∷ s.h2 ∷ s.h3 ∷ s.h4 ∷ []))
          (orelse (all_or bad_chain valid_chain (s.i1 ∷ s.i2 ∷ s.i3 ∷ s.i4 ∷ s.i5 ∷ [])) (
            orelse (check_key codecs s) (
              orelse (all_or bad_range range_ok (version3_ranges s)) (
                orelse (all_or bad_flag flag_ok (version31_flags s))
                  (orelse (when_not (has_peer s.peers) no_peer) (check_peers s.peers)))))))))
