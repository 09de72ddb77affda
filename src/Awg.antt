-- ===== src/Awg.antt =====
-- amneziawg.go, lines 31-351 and 559-695: the AmneziaWG settings, their validation and the
-- configuration text for the runner. A JSON value of any kind is a `Value`; the base64 decoders of
-- the package encoding/base64 are an argument.
pub mod Chain
pub mod Tags
pub mod Validate
pub mod Build
pub mod Safe
pub mod Accepted
pub mod Tests
use skipi_core.Base.{
  ℕ, ◌+◌, ◌-◌, ◌*◌, ◌/◌, ◌%◌, Bool, true, false, not, ◌||◌, ◌&&◌, Option, none, some, List, [], ◌∷◌,
  ◌++◌, ◌==◌, if◌then◌else◌, ltb, leb, Text, codes, str_eq, is_empty, byte_len, trim_space,
  trim_left, split, parse_uint, format_int, ℤ,
}
use mathlib.Core.List.{reverse}
use skipi_core.Awg.Chain.{all_hex}

-- A field of type `any`: nothing, a string, a number, a Boolean, or something that `%v` prints.
pub data Value : Type 0 where
  absent : Value
  text : Text → Value
  number : ℤ → Value
  boolean : Bool → Value
  printed : Text → Value

-- `AmneziaWgPeer`
pub record Peer : Type 0 where
  pub public_key : Text
  pub pre_shared_key : Text
  pub endpoint : Text
  pub keep_alive : Value
  pub allowed_ips : List Text

-- `AmneziaWgSettings`, without the address, the MTU and the DNS servers; a peer may be null.
pub record Settings : Type 0 where
  pub secret_key : Text
  pub peers : List (Option Peer)
  pub jc : ℤ
  pub jmin : ℤ
  pub jmax : ℤ
  pub s1 : ℤ
  pub s2 : ℤ
  pub s3 : ℤ
  pub s4 : ℤ
  pub h1 : Value
  pub h2 : Value
  pub h3 : Value
  pub h4 : Value
  pub i1 : Text
  pub i2 : Text
  pub i3 : Text
  pub i4 : Text
  pub i5 : Text
  pub header_protection_key : Text
  pub content_padding_addition : Value
  pub rekey_after_time : Value
  pub rekey_timeout : Value
  pub reject_after_time : Value
  pub keepalive_timeout : Value
  pub max_handshake_attempts : Value
  pub random_trailers : Value
  pub disable_cookies : Value

-- `stringVal`
unfoldable pub string_val : Value → Text
unfolding trim_space format_int
string_val absent = []
string_val (text t) = trim_space t
string_val (number n) = format_int n
string_val (boolean b) = if b then codes "true" else codes "false"
string_val (printed t) = t

-- `strings.ToLower` where only ASCII letters matter.
unfoldable pub to_lower : Text → Text
to_lower [] = []
to_lower (c ∷ s) = (if leb b'A' c && leb c b'Z' then c + 32 else c) ∷ to_lower s

pub data Flag : Type 0 where
  unset : Flag
  set : Bool → Flag
  malformed : Flag

flag_text : Text → Flag
flag_text t =
    if is_empty t
    then unset
    else if str_eq t (codes "on") || str_eq t (codes "true") || str_eq t (codes "1")
    then set true
    else if str_eq t (codes "off") || str_eq t (codes "false") || str_eq t (codes "0")
    then set false
    else malformed

-- `parseAmneziaWgFlag`
unfoldable pub parse_flag : Value → Flag
unfolding flag_text to_lower string_val
parse_flag absent = unset
parse_flag (boolean b) = set b
parse_flag (text t) = flag_text (to_lower (string_val (text t)))
parse_flag (number n) = flag_text (to_lower (string_val (number n)))
parse_flag (printed t) = flag_text (to_lower (string_val (printed t)))

-- `version31Flags` and `version3Ranges`, with the names of the runner.
unfoldable pub version31_flags : Settings → List (Text × Value)
version31_flags s =
    (codes "random_trailers", s.random_trailers) ∷ (codes "disable_cookies", s.disable_cookies) ∷ []

unfoldable pub version3_ranges : Settings → List (Text × Value)
version3_ranges s =
    (codes "content_padding_addition", s.content_padding_addition)
    ∷ (codes "rekey_after_time", s.rekey_after_time)
    ∷ (codes "rekey_timeout", s.rekey_timeout)
    ∷ (codes "reject_after_time", s.reject_after_time)
    ∷ (codes "keepalive_timeout", s.keepalive_timeout)
    ∷ (codes "max_handshake_attempts", s.max_handshake_attempts)
    ∷ []

-- `rangeSet`: the text, if the value is configured.
unfoldable pub range_set : Value → Option Text
unfolding string_val to_lower
range_set v =
    let t = string_val v in
    if is_empty t || str_eq t (codes "0") || str_eq (to_lower t) (codes "off") then none else some t

-- The three base64 decoders that are tried.
pub record Codecs : Type 0 where
  pub std : Text → Option (List ℕ)
  pub raw_std : Text → Option (List ℕ)
  pub raw_url : Text → Option (List ℕ)

first_decoded : Option (List ℕ) → Option (List ℕ) → Option (List ℕ)
first_decoded (some bytes) later = some bytes
first_decoded none later = later

hex_digit : ℕ → ℕ
hex_digit n = if ltb n 10 then b'0' + n else b'a' + (n - 10)

-- `hex.EncodeToString`
to_hex : List ℕ → Text
unfolding hex_digit
to_hex [] = []
to_hex (b ∷ bs) = hex_digit (b / 16) ∷ hex_digit (b % 16) ∷ to_hex bs

-- `strings.TrimRight(raw, "=")`
without_padding : Text → Text
unfolding trim_left
without_padding t = reverse (trim_left (λ c. c == b'=') (reverse t))

key_bytes : Option (List ℕ) → Option Text
unfolding to_hex
key_bytes none = none
key_bytes (some bytes) = if count bytes == 32 then some (to_hex bytes) else none
  where
    count : List ℕ → ℕ
    count [] = 0
    count (b ∷ bs) = 1 + count bs

-- `decodeKeyToHex`
unfoldable pub decode_key_to_hex : Codecs → Text → Option Text
unfolding key_bytes first_decoded without_padding all_hex to_lower trim_space
decode_key_to_hex codecs key =
    let raw = trim_space key in
    if is_empty raw
    then none
    else if byte_len raw == 64 && all_hex raw
    then some (to_lower raw)
    else let short = without_padding raw in
      key_bytes (
        first_decoded (codecs.std raw)
          (first_decoded (codecs.raw_std short) (codecs.raw_url short)))
