-- ===== src/Awg/Tests.antt =====
-- The theorems on amneziawg.go's settings at concrete settings.
use skipi_core.Base.{
  ℕ, ◌≡◌, refl, true, false, is_some, none, some, List, [], ◌∷◌, arith, Text, codes, pos,
  trim_space, str_eq, split, index_byte,
}
use skipi_core.Awg.{
  absent, text, boolean, Peer, Settings, Codecs, string_val, to_lower, parse_flag, version31_flags,
  version3_ranges, range_set, decode_key_to_hex,
}
use skipi_core.Awg.Chain.{valid_chain, read_tag}
use skipi_core.Awg.Tags.{no_tags, tag, valid_chain_iff}
use skipi_core.Awg.Validate.{
  validate, valid_u16_range, valid_header_range, orelse, all_or, check_peers, check_key, range_ok,
  flag_ok,
}
use skipi_core.Awg.Accepted.{Accepted, validate_iff}
use skipi_core.Awg.Build.{build_ipc_config}
use skipi_core.Awg.Safe.{HasKey, validate-build_ipc_config}

tag_read : read_tag (codes "b 0xf1") ≡ some 1
unfolding read_tag str_eq
tag_read = refl

lacks_close : index_byte b'>' (codes "b 0xf1") ≡ none
unfolding index_byte
lacks_close = refl

valid_chain_iff_example : valid_chain (codes "<b 0xf1>") ≡ true
unfolding trim_space
valid_chain_iff_example =
    (valid_chain_iff (codes "<b 0xf1>")).1
      (omega arith, (1, tag (codes "b 0xf1") [] 1 0 lacks_close tag_read no_tags, omega arith))

chain_outside_test : valid_chain (codes "<t>x") ≡ false
unfolding valid_chain str_eq
chain_outside_test = refl

abbrev pub key : List ℕ
key =
    1 ∷ 2 ∷ 3 ∷ 4 ∷ 5 ∷ 6 ∷ 7 ∷ 8 ∷ 9 ∷ 10 ∷ 11 ∷ 12 ∷ 13 ∷ 14 ∷ 15 ∷ 16 ∷ 17 ∷ 18 ∷ 19 ∷ 20 ∷ 21
    ∷ 22 ∷ 23 ∷ 24 ∷ 25 ∷ 26 ∷ 27 ∷ 28 ∷ 29 ∷ 30 ∷ 31 ∷ 32 ∷ []

abbrev pub codecs : Codecs
codecs = record { std = λ t. some key; raw_std = λ t. none; raw_url = λ t. none }

abbrev pub peer : Peer
peer = record {
  public_key = codes "cGVlcg==";
  pre_shared_key = [];
  endpoint = codes "203.0.113.5:51820";
  keep_alive = text (codes "20-30");
  allowed_ips = [];
}

abbrev pub settings : Settings
settings = record {
  secret_key = codes "c2VjcmV0";
  peers = some peer ∷ [];
  jc = pos 4;
  jmin = pos 40;
  jmax = pos 70;
  s1 = pos 15;
  s2 = pos 16;
  s3 = pos 17;
  s4 = pos 18;
  h1 = text (codes "5-90");
  h2 = absent;
  h3 = absent;
  h4 = absent;
  i1 = codes "<t>";
  i2 = [];
  i3 = [];
  i4 = [];
  i5 = [];
  header_protection_key = codes "aGVhZGVy";
  content_padding_addition = absent;
  rekey_after_time = text (codes "off");
  rekey_timeout = absent;
  reject_after_time = absent;
  keepalive_timeout = absent;
  max_handshake_attempts = absent;
  random_trailers = boolean true;
  disable_cookies = text (codes "OFF");
}

pub settings_valid : validate codecs settings ≡ none
unfolding validate orelse all_or valid_header_range string_val str_eq split valid_chain
    decode_key_to_hex version3_ranges version31_flags range_ok flag_ok parse_flag check_key
    check_peers valid_u16_range range_set to_lower trim_space
settings_valid = refl

keys_decode : (t : Text) → t ≡ codes "c2VjcmV0" → is_some (decode_key_to_hex codecs t) ≡ true
unfolding decode_key_to_hex
keys_decode t e = rw e refl

peer_key : HasKey codecs (some peer)
unfolding HasKey decode_key_to_hex
peer_key = refl

validate-build_ipc_config_example : is_some (build_ipc_config codecs settings) ≡ true
validate-build_ipc_config_example =
    validate-build_ipc_config codecs settings settings_valid (keys_decode (codes "c2VjcmV0") refl)
      (peer_key, tt)

validate_iff_example : Accepted codecs settings
validate_iff_example = (validate_iff codecs settings).0 settings_valid

-- A line break between the parts of a tag passes.
chain_newline_test : valid_chain (codes "<b\n0xf1>") ≡ true
unfolding valid_chain str_eq
chain_newline_test = refl
