-- ===== src/Base/Strings.antt =====
-- Texts as lists of code points, with what the code uses of the packages strings and strconv.
use Prim.Native.Char.{code}
use Prim.Native.String.{String}
use Prim.Native.Nat.{ℕ, zero, suc, ◌+◌, ◌-◌, ◌*◌, ◌/◌, ◌%◌}
use mathlib.Core.Path.{◌≡◌, refl, ap}
use mathlib.Core.Logic.{◌↔◌, inl, inr}
use mathlib.Core.Bool.{Bool, true, false, ◌&&◌, ◌||◌}
use mathlib.Core.Option.{Option, none, some}
use mathlib.Core.List.{List, [], ◌∷◌, ◌++◌, reverse}
use skipi_core.Base.Tests.{ltb, leb, ◌==◌, if◌then◌else◌, Bool-cases}
use skipi_core.Base.Lists.{length, All}
use skipi_core.Base.Ints.{ℤ, pos, negsuc, int64_half}
use native.Mathlib.Omega.{arith}

abbrev pub Text : Type 0
Text = List ℕ

abbrev pub codes : String → Text
codes String.[] = []
codes (String.◌∷◌ c s) = code c ∷ codes s

-- `s == t`
unfoldable pub str_eq : Text → Text → Bool
str_eq [] [] = true
str_eq (x ∷ xs) (y ∷ ys) = x == y && str_eq xs ys
str_eq _ _ = false

pub str_eq_iff : (s t : Text) → (str_eq s t ≡ true) ↔ (s ≡ t)
unfolding str_eq
str_eq_iff (x ∷ xs) (y ∷ ys) = ground (arith, str_eq_iff xs ys)
str_eq_iff _ _ = ground arith

pub str_eq_refl : (s : Text) → str_eq s s ≡ true
str_eq_refl s = (str_eq_iff s s).1 refl

-- `s == ""`
abbrev pub is_empty : Text → Bool
is_empty [] = true
is_empty (_ ∷ _) = false

-- `unicode.IsSpace`
unfoldable pub is_space : ℕ → Bool
is_space c =
    leb 9 c && leb c 13
    || c == 0x20
    || c == 0x85
    || c == 0xa0
    || c == 0x1680
    || leb 0x2000 c && leb c 0x200a
    || c == 0x2028
    || c == 0x2029
    || c == 0x202f
    || c == 0x205f
    || c == 0x3000

-- The bytes of a text in UTF-8: `len(s)`.
abbrev pub byte_len : Text → ℕ
byte_len [] = 0
byte_len (c ∷ s) =
    (if ltb c 0x80 then 1 else if ltb c 0x800 then 2 else if ltb c 0x10000 then 3 else 4)
    + byte_len s

unfoldable pub trim_left : (ℕ → Bool) → Text → Text
trim_left p [] = []
trim_left p (c ∷ s) = if p c then trim_left p s else c ∷ s

-- `strings.TrimFunc`: both ends.
unfoldable pub trim : (ℕ → Bool) → Text → Text
unfolding trim_left
trim p s = reverse (trim_left p (reverse (trim_left p s)))

-- `strings.TrimSpace`
unfoldable pub trim_space : Text → Text
unfolding trim is_space
trim_space = trim is_space

-- `strings.HasPrefix(s, p)`, the prefix first.
unfoldable pub has_prefix : Text → Text → Bool
has_prefix [] s = true
has_prefix (x ∷ p) [] = false
has_prefix (x ∷ p) (y ∷ s) = x == y && has_prefix p s

-- One entry joined to the first part.
abbrev add_to_first : ℕ → List Text → List Text
add_to_first c [] = (c ∷ []) ∷ []
add_to_first c (t ∷ ts) = (c ∷ t) ∷ ts

-- The text behind `skip` entries, cut at each separator.
split_from : Text → ℕ → Text → List Text
unfolding has_prefix
split_from sep skip [] = [] ∷ []
split_from sep (suc k) (c ∷ s) = split_from sep k s
split_from sep zero (c ∷ s) = elim (has_prefix sep (c ∷ s)) [
  | true ↦ [] ∷ split_from sep (length sep - 1) s
  | false ↦ add_to_first c (split_from sep zero s)
]

-- `strings.Split(s, sep)` for a separator that is not empty.
unfoldable pub split : Text → Text → List Text
unfolding split_from
split sep s = split_from sep 0 s

-- `strings.Fields`: the runs of entries that are not spaces; `word` is the run being read.
fields_from : Text → Text → List Text
fields_from word [] = if is_empty word then [] else word ∷ []
fields_from word (c ∷ s) = elim (is_space c) [
  | true ↦ (if is_empty word then fields_from [] s else word ∷ fields_from [] s)
  | false ↦ fields_from (word ++ c ∷ []) s
]

unfoldable pub fields : Text → List Text
unfolding fields_from is_space
fields s = fields_from [] s

-- `strings.IndexByte`
unfoldable pub index_byte : ℕ → Text → Option ℕ
index_byte c [] = none
index_byte c (d ∷ s) =
    if c == d then some 0 else elim (index_byte c s) [ none ↦ none | some i ↦ some (suc i) ]

-- `strings.LastIndex` of one byte.
unfoldable pub last_index : ℕ → Text → Option ℕ
last_index c [] = none
last_index c (d ∷ s) = elim (last_index c s) [
  | some i ↦ some (suc i)
  | none ↦ (if c == d then some 0 else none)
]

unfoldable pub is_digit : ℕ → Bool
is_digit c = leb b'0' c && leb c b'9'

-- The number that digits stand for, behind `acc`; `none` at any other byte.
unfoldable pub digits_value : ℕ → Text → Option ℕ
unfolding is_digit
digits_value acc [] = some acc
digits_value acc (c ∷ s) = elim (is_digit c) [
  | true ↦ digits_value (acc * 10 + (c - b'0')) s
  | false ↦ none
]

-- `strconv.ParseUint(s, 10, bits)`, with `limit = 2 ^ bits`.
unfoldable pub parse_uint : ℕ → Text → Option ℕ
unfolding digits_value
parse_uint limit [] = none
parse_uint limit (c ∷ s) = elim (digits_value 0 (c ∷ s)) [
  | none ↦ none
  | some n ↦ (if ltb n limit then some n else none)
]

abbrev negate : ℕ → ℤ
negate zero = pos 0
negate (suc n) = negsuc n

-- A sign read, the digits behind it.
signed : Bool → Text → Option ℤ
unfolding digits_value
signed minus [] = none
signed minus (c ∷ s) = elim (digits_value 0 (c ∷ s)) [
  | none ↦ none
  | some n ↦
      (if minus
        then (if leb n int64_half then some (negate n) else none)
        else (if ltb n int64_half then some (pos n) else none))
]

-- `strconv.Atoi` and `strconv.ParseInt(s, 10, 64)`.
unfoldable pub atoi : Text → Option ℤ
unfolding signed
atoi [] = none
atoi (c ∷ s) =
    if c == b'-' then signed true s else if c == b'+' then signed false s else signed false (c ∷ s)

-- The decimal digits of `n`, on fuel above `n`.
digits_fuel : ℕ → ℕ → Text
digits_fuel zero n = []
digits_fuel (suc f) n =
    let rest = digits_fuel f (n / 10) in
    if ltb n 10 then (b'0' + n) ∷ [] else rest ++ (b'0' + n % 10) ∷ []

-- `strconv.Itoa` of a number that is not negative.
unfoldable pub format_nat : ℕ → Text
unfolding digits_fuel
format_nat n = digits_fuel (suc n) n

unfoldable pub format_int : ℤ → Text
unfolding format_nat
format_int (pos n) = format_nat n
format_int (negsuc n) = b'-' ∷ format_nat (suc n)

split_test : split (codes ">>>") (codes "a>>>b>>>>c") ≡ codes "a" ∷ codes "b" ∷ codes ">c" ∷ []
unfolding split
split_test = refl

fields_test : fields (codes "  ab c ") ≡ codes "ab" ∷ codes "c" ∷ []
unfolding fields
fields_test = refl

atoi_test : atoi (codes "-128") ≡ some (negsuc 127)
unfolding atoi
atoi_test = refl

format_nat_test : format_nat 10809 ≡ codes "10809"
unfolding format_nat
format_nat_test = refl

-- No entry of the text is `c`.
abbrev pub Lacks : ℕ → Text → Type 0
Lacks c [] = Unit {0}
Lacks c (d ∷ s) = ((d == c) ≡ false) × Lacks c s

has_prefix-Lacks :
    (c : ℕ) (sep : Text) (d : ℕ) (s : Text)
    → (d == c) ≡ false
    → has_prefix (c ∷ sep) (d ∷ s) ≡ false
unfolding has_prefix
has_prefix-Lacks c sep d s h = ground arith

pub has_prefix-append : (p s : Text) → has_prefix p (p ++ s) ≡ true
unfolding has_prefix
has_prefix-append [] s = refl
has_prefix-append (x ∷ p) s = ground (arith, has_prefix-append p s)

split_skip :
    (sep p s : Text) (k : ℕ) → k ≡ length p → split_from sep k (p ++ s) ≡ split_from sep 0 s
unfolding split_from
split_skip sep [] s k e = ap (λ i. split_from sep i s) e
split_skip sep (x ∷ p) s zero e = absurd (omega arith)
split_skip sep (x ∷ p) s (suc k) e = split_skip sep p s k (omega arith)

-- A part with no first byte of the separator in it is cut off whole.
pub split_part :
    (c : ℕ) (sep t s : Text)
    → Lacks c t
    → split (c ∷ sep) (t ++ ((c ∷ sep) ++ s)) ≡ t ∷ split (c ∷ sep) s
unfolding split split_from
split_part c sep [] s h =
    rw (has_prefix-append (c ∷ sep) s, split_from)
      (ap (◌∷◌ []) (split_skip (c ∷ sep) sep s (length (c ∷ sep) - 1) (omega arith)))
split_part c sep (d ∷ t) s h =
    rw (has_prefix-Lacks c sep d (t ++ ((c ∷ sep) ++ s)) h.0, split_from)
      (ap (add_to_first d) (split_part c sep t s h.1))

pub split_last : (c : ℕ) (sep t : Text) → Lacks c t → split (c ∷ sep) t ≡ t ∷ []
unfolding split split_from
split_last c sep [] h = refl
split_last c sep (d ∷ t) h =
    rw (has_prefix-Lacks c sep d t h.0, split_from) (ap (add_to_first d) (split_last c sep t h.1))

word-append : (word : Text) (c : ℕ) → is_empty (word ++ c ∷ []) ≡ false
word-append [] c = refl
word-append (d ∷ word) c = refl

fields_from_words : (word s : Text) → All (λ w. is_empty w ≡ false) (fields_from word s)
unfolding fields_from
fields_from_words [] [] = tt
fields_from_words (d ∷ word) [] = (refl, tt)
fields_from_words [] (c ∷ s) = elim (Bool-cases (is_space c)) [
  | inl e ↦ rw (e, fields_from) (fields_from_words [] s)
  | inr e ↦ rw (e, fields_from) (fields_from_words (c ∷ []) s)
]
fields_from_words (d ∷ word) (c ∷ s) = elim (Bool-cases (is_space c)) [
  | inl e ↦ rw (e, fields_from) (refl, fields_from_words [] s)
  | inr e ↦ rw (e, fields_from) (fields_from_words (d ∷ (word ++ c ∷ [])) s)
]

-- No part of a text between spaces is empty.
pub fields_words : (s : Text) → All (λ w. is_empty w ≡ false) (fields s)
unfolding fields
fields_words s = fields_from_words [] s
