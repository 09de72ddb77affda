-- ===== src/Awg/Build.antt =====
-- amneziawg.go, lines 162-198 and 587-695: whether any AmneziaWG parameter is set, and the
-- configuration text for the runner.
use skipi_core.Base.{
  Bool, true, false, not, ◌||◌, Option, none, some, List, [], ◌∷◌, ◌++◌, if◌then◌else◌, Text, codes,
  str_eq, is_empty, trim_space, ℤ, format_int, is_positive,
}
use skipi_core.Awg.{
  Value, Peer, Settings, string_val, Flag, unset, set, malformed, parse_flag, version31_flags,
  version3_ranges, range_set, Codecs, decode_key_to_hex,
}

-- One line of the text.
unfoldable pub line : Text → Text → Text
line name value = name ++ (codes "=" ++ (value ++ codes "\n"))

number_line : Text → ℤ → Text
unfolding line
number_line name n = if is_positive n then line name (format_int n) else []

header_set : Value → Bool
header_set v = not (is_empty (string_val v) || str_eq (string_val v) (codes "0"))

header_line : Text → Value → Text
unfolding header_set line
header_line name v = if header_set v then line name (string_val v) else []

chain_line : Text → Text → Text
unfolding line
chain_line name spec = if is_empty (trim_space spec) then [] else line name (trim_space spec)

range_line : Text → Value → Text
unfolding line
range_line name v = elim (range_set v) [ none ↦ [] | some t ↦ line name t ]

range_lines : List (Text × Value) → Text
unfolding range_line
range_lines [] = []
range_lines ((name, v) ∷ rest) = range_line name v ++ range_lines rest

-- Text joined in front of text that may be missing.
unfoldable pub before : Text → Option Text → Option Text
before t none = none
before t (some u) = some (t ++ u)

flag_value : Bool → Text
flag_value b = if b then codes "true" else codes "false"

unfoldable pub with_flag : Text → Flag → Option Text → Option Text
unfolding before flag_value line
with_flag name unset rest = rest
with_flag name (set b) rest = before (line name (flag_value b)) rest
with_flag name malformed rest = none

unfoldable pub flag_lines : List (Text × Value) → Option Text
unfolding with_flag
flag_lines [] = some []
flag_lines ((name, v) ∷ rest) = with_flag name (parse_flag v) (flag_lines rest)

shared_key_line : Codecs → Text → Text
unfolding line
shared_key_line codecs key = if is_empty key then [] else elim (decode_key_to_hex codecs key) [
  | none ↦ []
  | some hex ↦ if is_empty hex then [] else line (codes "preshared_key") hex
]

ip_lines : List Text → Text
unfolding line
ip_lines [] = []
ip_lines (ip ∷ rest) = line (codes "allowed_ip") ip ++ ip_lines rest

all_ips : List Text → List Text
all_ips [] = codes "0.0.0.0/0" ∷ codes "::/0" ∷ []
all_ips (ip ∷ rest) = ip ∷ rest

-- What is written of a peer behind its key.
pub peer_rest : Codecs → Peer → Text
unfolding shared_key_line ip_lines all_ips range_line line
peer_rest codecs p =
    shared_key_line codecs p.pre_shared_key
    ++ ((if is_empty p.endpoint then [] else line (codes "endpoint") p.endpoint)
        ++ (ip_lines (all_ips p.allowed_ips)
            ++ range_line (codes "persistent_keepalive_interval") p.keep_alive))

unfoldable pub with_key : Text → Option Text → Text → Option Text → Option Text
unfolding before line
with_key name none more rest = none
with_key name (some hex) more rest = before (line name hex ++ more) rest

unfoldable pub peer_lines : Codecs → List (Option Peer) → Option Text
unfolding with_key peer_rest
peer_lines codecs [] = some []
peer_lines codecs (none ∷ rest) = none
peer_lines codecs (some p ∷ rest) =
    with_key (codes "public_key") (decode_key_to_hex codecs p.public_key) (peer_rest codecs p)
      (peer_lines codecs rest)

pub numbers : Settings → Text
unfolding number_line
numbers s =
    number_line (codes "jc") s.jc
    ++ (number_line (codes "jmin") s.jmin
        ++ (number_line (codes "jmax") s.jmax
            ++ (number_line (codes "s1") s.s1
                ++ (number_line (codes "s2") s.s2
                    ++ (number_line (codes "s3") s.s3 ++ number_line (codes "s4") s.s4)))))

pub headers : Settings → Text
unfolding header_line
headers s =
    header_line (codes "h1") s.h1
    ++ (header_line (codes "h2") s.h2
        ++ (header_line (codes "h3") s.h3 ++ header_line (codes "h4") s.h4))

pub chains : Settings → Text
unfolding chain_line
chains s =
    chain_line (codes "i1") s.i1
    ++ (chain_line (codes "i2") s.i2
        ++ (chain_line (codes "i3") s.i3
            ++ (chain_line (codes "i4") s.i4 ++ chain_line (codes "i5") s.i5)))

-- The header protection key, and what follows it.
unfoldable pub protected : Codecs → Text → Option Text → Option Text
unfolding with_key
protected codecs key rest =
    if is_empty key
    then rest
    else with_key (codes "header_protection_key") (decode_key_to_hex codecs key) [] rest

-- The texts of both, if neither is missing.
unfoldable pub joined : Option Text → Option Text → Option Text
unfolding before
joined none rest = none
joined (some t) rest = before t rest

unfoldable pub after_key : Codecs → Settings → Option Text
unfolding range_lines before joined
after_key codecs s =
    before (range_lines (version3_ranges s))
      (joined (flag_lines (version31_flags s)) (peer_lines codecs s.peers))

-- `BuildIpcConfig`; `none` is an error.
unfoldable pub build_ipc_config : Codecs → Settings → Option Text
unfolding numbers headers chains protected after_key with_key before
build_ipc_config codecs s =
    with_key (codes "private_key") (decode_key_to_hex codecs s.secret_key)
      (numbers s ++ (headers s ++ chains s))
      (protected codecs (trim_space s.header_protection_key) (after_key codecs s))

any_chain : List Text → Bool
any_chain [] = false
any_chain (t ∷ rest) = not (is_empty (trim_space t)) || any_chain rest

any_flag : List (Text × Value) → Bool
any_flag [] = false
any_flag ((name, v) ∷ rest) = elim (parse_flag v) [
  | unset ↦ any_flag rest
  | set b ↦ true
  | malformed ↦ true
]

any_range : List (Text × Value) → Bool
any_range [] = false
any_range ((name, v) ∷ rest) = elim (range_set v) [ none ↦ any_range rest | some t ↦ true ]

-- `HasAmneziaParams`
unfoldable pub has_amnezia_params : Settings → Bool
unfolding header_set any_chain any_flag any_range
has_amnezia_params s =
    is_positive s.jc
    || is_positive s.jmin
    || is_positive s.jmax
    || is_positive s.s1
    || is_positive s.s2
    || is_positive s.s3
    || is_positive s.s4
    || header_set s.h1
    || header_set s.h2
    || header_set s.h3
    || header_set s.h4
    || any_chain (s.i1 ∷ s.i2 ∷ s.i3 ∷ s.i4 ∷ s.i5 ∷ [])
    || not (is_empty (trim_space s.header_protection_key))
    || any_flag (version31_flags s)
    || any_range (version3_ranges s)
