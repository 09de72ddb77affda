-- ===== src/Documents.antt =====
-- amneziawg.go, ParseAmneziaWgSettings and RewriteWireguardOutboundToSocks: JSON documents as
-- `encoding/json` reads them into `any`. What it reads a text to and prints a document as are
-- arguments.
pub mod Rewriting
pub mod Parsing
pub mod Tests
use skipi_core.Base.{
  ℕ, Bool, true, false, not, ◌||◌, ◌&&◌, Option, none, some, List, [], ◌∷◌, if◌then◌else◌, Text,
  codes, str_eq, is_empty, ℤ, is_some,
}
use skipi_core.Awg.{Settings}

mutual
  pub data Json : Type 0 where
    null : Json
    boolean : Bool → Json
    number : ℤ → Json
    string : Text → Json
    array : Items → Json
    object : Members → Json

  pub data Items : Type 0 where
    end : Items
    item : Json → Items → Items

  pub data Members : Type 0 where
    close : Members
    member : Text → Json → Members → Members

-- `map[string]any`: the value of a key, and the map with a value put in.
unfoldable pub get : Text → Members → Option Json
unfolding str_eq
get k close = none
get k (member j v m) = if str_eq j k then some v else get k m

unfoldable pub put : Text → Json → Members → Members
unfolding str_eq
put k v close = member k v close
put k v (member j w m) = if str_eq j k then member k v m else member j w (put k v m)

-- `text, _ := value.(string)`
string_or_empty : Option Json → Text
string_or_empty (some (string t)) = t
string_or_empty _ = []

unfoldable pub is_awg_protocol : Text → Bool
unfolding str_eq
is_awg_protocol t = str_eq t (codes "wireguard") || str_eq t (codes "amneziawg")

-- The outbound that takes the place of one with the members `m`.
or_proxy : Text → Text
or_proxy tag = if is_empty tag then codes "proxy" else tag

unfoldable pub socks_outbound : ℤ → Text → Json
socks_outbound port tag = object (
    member (codes "tag") (string tag) (
      member (codes "protocol") (string (codes "socks")) (
        member (codes "settings")
          (object (
            member (codes "servers")
              (array (
                item
                  (object (
                    member (codes "address") (string (codes "127.0.0.1"))
                      (member (codes "port") (number port) close)))
                  end))
              close))
          close)))

-- Whether an outbound is one of AmneziaWG, and what it is rewritten to.
unfoldable pub is_awg_outbound : Json → Bool
unfolding get string_or_empty is_awg_protocol
is_awg_outbound (object m) = is_awg_protocol (string_or_empty (get (codes "protocol") m))
is_awg_outbound _ = false

unfoldable pub tag_of : Json → Text
unfolding get string_or_empty or_proxy
tag_of (object m) = or_proxy (string_or_empty (get (codes "tag") m))
tag_of _ = codes "proxy"

rewrite_outbound : ℤ → Json → Json
unfolding is_awg_outbound socks_outbound tag_of
rewrite_outbound port ob = if is_awg_outbound ob then socks_outbound port (tag_of ob) else ob

-- The loop over the outbounds: the slice afterwards, and `modified`.
unfoldable pub rewrite_all : ℤ → Items → Items × Bool
unfolding rewrite_outbound is_awg_outbound
rewrite_all port end = (end, false)
rewrite_all port (item ob rest) =
    let (done, modified) = rewrite_all port rest in
    (item (rewrite_outbound port ob) done, is_awg_outbound ob || modified)

-- The outbounds of a document, if they are an array.
unfoldable pub outbounds_of : Members → Option Items
unfolding get
outbounds_of m = elim (get (codes "outbounds") m) [
  | none ↦ none
  | some (array items) ↦ some items
  | some _ ↦ none
]

-- The document after the loop, if it changed anything.
replaced : Members → Items × Bool → Option Members
unfolding put
replaced m (items, modified) =
    if modified then some (put (codes "outbounds") (array items) m) else none

unfoldable pub rewrite_document : ℤ → Members → Option Members
unfolding outbounds_of rewrite_all replaced
rewrite_document port m = elim (outbounds_of m) [
  | none ↦ none
  | some items ↦ replaced m (rewrite_all port items)
]

printed : Text → Option Text → Text
printed raw none = raw
printed raw (some t) = t

rewritten : (Members → Option Text) → Text → Option Members → Text
unfolding printed
rewritten print raw none = raw
rewritten print raw (some m) = printed raw (print m)

-- `RewriteWireguardOutboundToSocks`
unfoldable pub rewrite_wireguard_outbound_to_socks :
    (Text → Option Members) → (Members → Option Text) → Text → ℤ → Text
unfolding rewrite_document rewritten
rewrite_wireguard_outbound_to_socks parse print raw port = elim (parse raw) [
  | none ↦ raw
  | some m ↦ rewritten print raw (rewrite_document port m)
]

-- The settings that a value is decoded to, if it is decoded and they have a key.
keyed : Option Settings → Option Settings
keyed none = none
keyed (some s) = if is_empty s.secret_key then none else some s

unfoldable pub settings_in : (Json → Option Settings) → Members → Option Settings
unfolding get keyed
settings_in decode m = elim (get (codes "settings") m) [ none ↦ none | some v ↦ keyed (decode v) ]

outbound_settings : (Json → Option Settings) → Json → Option Settings
unfolding settings_in is_awg_outbound
outbound_settings decode (object m) =
    if is_awg_outbound (object m) then settings_in decode m else none
outbound_settings decode _ = none

-- The loop over the outbounds.
unfoldable pub first_settings : (Json → Option Settings) → Items → Option Settings
unfolding outbound_settings
first_settings decode end = none
first_settings decode (item ob rest) = elim (outbound_settings decode ob) [
  | some s ↦ some s
  | none ↦ first_settings decode rest
]

or_else : Option Settings → Option Settings → Option Settings
or_else none later = later
or_else (some s) later = some s

in_outbounds : (Json → Option Settings) → Members → Option Settings
unfolding outbounds_of first_settings
in_outbounds decode m = elim (outbounds_of m) [
  | none ↦ none
  | some items ↦ first_settings decode items
]

-- The three places, in order; `decode` reads settings from a value, and a text as its value.
unfoldable pub settings_of_document : (Json → Option Settings) → Members → Option Settings
unfolding get settings_in in_outbounds or_else
settings_of_document decode m =
    or_else (if is_some (get (codes "secretKey") m) then decode (object m) else none)
      (or_else (settings_in decode m) (in_outbounds decode m))

-- `ParseAmneziaWgSettings`; `none` is either of its errors.
unfoldable pub parse_amnezia_wg_settings :
    (Text → Option Members) → (Json → Option Settings) → Text → Option Settings
unfolding settings_of_document
parse_amnezia_wg_settings parse decode raw = elim (parse raw) [
  | none ↦ none
  | some m ↦ settings_of_document decode m
]
