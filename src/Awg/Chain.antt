-- ===== src/Awg/Chain.antt =====
-- amneziawg.go, lines 353-409: `validateAmneziaWgObfuscationChain`.
use skipi_core.Base.{
  ℕ, zero, suc, ◌+◌, ◌/◌, ◌%◌, Bool, true, false, not, ◌||◌, ◌&&◌, Option, none, some, List, [],
  ◌∷◌, ◌==◌, if◌then◌else◌, ltb, leb, Text, codes, str_eq, is_empty, byte_len, has_prefix,
  index_byte, fields, parse_uint, trim_space, take, drop, length, is_digit,
}

-- `amneziaWgMaxObfuscationChainBytes`
abbrev pub max_chain : ℕ
max_chain = 4096

is_hex : ℕ → Bool
unfolding is_digit
is_hex c = is_digit c || leb b'a' c && leb c b'f' || leb b'A' c && leb c b'F'

unfoldable pub all_hex : Text → Bool
unfolding is_hex
all_hex [] = true
all_hex (c ∷ s) = is_hex c && all_hex s

-- `strings.TrimPrefix(argument, "0x")`
without_0x : Text → Text
unfolding has_prefix
without_0x s = if has_prefix (codes "0x") s then drop 2 s else s

-- The cases of the switch, each with the bytes that the tag adds; `none` is an error.
byte_tag : Text → Option ℕ
unfolding without_0x all_hex
byte_tag argument =
    let text = without_0x argument in
    if is_empty argument || is_empty text || not (byte_len text % 2 == 0) || not (all_hex text)
    then none
    else some (byte_len text / 2)

length_tag : Text → Option ℕ
unfolding parse_uint
length_tag argument = elim (parse_uint 65536 argument) [
  | none ↦ none
  | some n ↦ if ltb max_chain n then none else some n
]

tag_bytes : Text → Text → Option ℕ
unfolding byte_tag length_tag
tag_bytes kind argument =
    if str_eq kind (codes "b")
    then byte_tag argument
    else if str_eq kind (codes "r")
        || str_eq kind (codes "rc")
        || str_eq kind (codes "rd")
        || str_eq kind (codes "dz")
    then length_tag argument
    else if str_eq kind (codes "t") || str_eq kind (codes "d") || str_eq kind (codes "ds")
    then (if is_empty argument then some 0 else none)
    else none

parts_bytes : List Text → Option ℕ
unfolding tag_bytes
parts_bytes (kind ∷ []) = tag_bytes kind []
parts_bytes (kind ∷ argument ∷ []) = tag_bytes kind argument
parts_bytes _ = none

-- What stands between `<` and `>`.
unfoldable pub read_tag : Text → Option ℕ
unfolding parts_bytes fields
read_tag inside = parts_bytes (fields inside)

pub data Verdict : Type 0 where
  accepted : ℕ → Verdict
  refused : Verdict
  out_of_fuel : Verdict

-- The loop over the tags, with the bytes so far. Each round takes a `>` off the text, so its
-- length is fuel enough.
unfoldable pub chain : ℕ → ℕ → Text → Verdict
unfolding read_tag index_byte
chain fuel total [] = accepted total
chain zero total (c ∷ s) = out_of_fuel
chain (suc fuel) total (c ∷ s) = if not (c == b'<') then refused else elim (index_byte b'>' s) [
  | none ↦ refused
  | some i ↦ elim (read_tag (take i s)) [
    | none ↦ refused
    | some n ↦
        let rest = chain fuel (total + n) (drop (suc i) s) in
        if ltb max_chain (total + n) then refused else rest
  ]
]

unfoldable pub is_accepted : Verdict → Bool
is_accepted (accepted total) = true
is_accepted refused = false
is_accepted out_of_fuel = false

unfoldable pub valid_spec : Text → Bool
unfolding chain is_accepted
valid_spec spec =
    if is_empty spec
    then true
    else if ltb max_chain (byte_len spec)
    then false
    else is_accepted (chain (length spec) 0 spec)

-- `validateAmneziaWgObfuscationChain`; no error is `true`.
unfoldable pub valid_chain : Text → Bool
unfolding valid_spec trim_space
valid_chain text = valid_spec (trim_space text)
