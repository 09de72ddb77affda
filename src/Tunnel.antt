-- ===== src/Tunnel.antt =====
-- desktop/nmtun/settings.go and permissions.go: what NetworkManager is asked for, and what it must
-- grant. A dictionary of D-Bus is an association list, and a JSON plan is the record it encodes.
pub mod Plans
pub mod Sections
pub mod Session
pub mod Host
pub mod Tests
use skipi_core.Base.{
  ℕ, suc, ◌+◌, ◌≡◌, refl, Bool, true, false, not, ◌||◌, ◌&&◌, Option, none, some, List, [], ◌∷◌,
  ◌++◌, ◌==◌, if◌then◌else◌, ltb, leb, length, Text, codes, str_eq, is_empty, is_digit, ℤ, pos, ltz,
  to_nat, format_nat, lookup,
}
use skipi_core.Socks.Associate.{NetAddr, is4}

-- `Plan`
pub record Plan : Type 0 where
  pub name : Text
  pub mtu : ℤ
  pub addresses : List Text
  pub routes : List Text

is_letter : ℕ → Bool
is_letter c = leb b'A' c && leb c b'Z' || leb b'a' c && leb c b'z'

is_name_byte : ℕ → Bool
unfolding is_letter is_digit
is_name_byte c = is_letter c || is_digit c || c == b'_' || c == b'-'

every : (ℕ → Bool) → Text → Bool
every p [] = true
every p (c ∷ s) = p c && every p s

-- `CheckInterfaceName`: a letter, and up to 14 bytes more.
unfoldable pub check_interface_name : Text → Bool
unfolding is_letter is_name_byte every
check_interface_name [] = false
check_interface_name (c ∷ s) = is_letter c && (leb (length s) 14 && every is_name_byte s)

is_user_start : ℕ → Bool
unfolding is_letter is_digit
is_user_start c = is_letter c || is_digit c || c == b'_'

is_user_byte : ℕ → Bool
unfolding is_name_byte
is_user_byte c = is_name_byte c || c == b'.'

-- `userNamePattern`
unfoldable pub is_user_name : Text → Bool
unfolding is_user_start is_user_byte every
is_user_name [] = false
is_user_name (c ∷ s) = is_user_start c && every is_user_byte s

-- `netip.Prefix`, and what the package reads and prints.
pub record Prefix : Type 0 where
  pub addr : NetAddr
  pub bits : ℕ

pub record Prefixes : Type 0 where
  pub parse : Text → Option Prefix
  pub masked : Prefix → Prefix
  pub string : NetAddr → Text

-- A value of D-Bus; entries have a text under a key and a number under `prefix`.
pub data Variant : Type 0 where
  text : Text → Variant
  number : ℕ → Variant
  flag : Bool → Variant
  texts : List Text → Variant
  entries : Text → List (Text × ℕ) → Variant

abbrev pub Section : Type 0
Section = List (Text × Variant)

pub data PlanError : Type 0 where
  bad_interface_name bad_mtu bad_user_name : PlanError
  bad_address bad_route : Text → PlanError
  no_ipv4 too_many_addresses ipv6_routes_without_address : PlanError

-- The entries of both families, IPv4 first.
pub data Sorted : Type 0 where
  sorted : List (Text × ℕ) → List (Text × ℕ) → Sorted
  bad_text : Text → Sorted

entry : Prefixes → Prefix → Text × ℕ
entry ps p = (ps.string p.addr, p.bits)

sort_into : Prefixes → Prefix → Sorted → Sorted
unfolding entry
sort_into ps p (bad_text t) = bad_text t
sort_into ps p (sorted v4s v6s) =
    if is4 p.addr then sorted (entry ps p ∷ v4s) v6s else sorted v4s (entry ps p ∷ v6s)

-- The loops over the addresses and the routes; `change` is what is done to a prefix first.
unfoldable pub sort_all : Prefixes → (Prefix → Prefix) → List Text → Sorted
unfolding sort_into
sort_all ps change [] = sorted [] []
sort_all ps change (t ∷ rest) = elim (ps.parse t) [
  | none ↦ bad_text t
  | some p ↦ sort_into ps (change p) (sort_all ps change rest)
]

pub data Built : Type 0 where
  settings_of : List (Text × Section) → Built
  no_settings : PlanError → Built

route_data : List (Text × ℕ) → Section
route_data [] = []
route_data (r ∷ rs) = (codes "route-data", entries (codes "dest") (r ∷ rs)) ∷ []

manual : List (Text × ℕ) → List (Text × ℕ) → Section
unfolding route_data
manual addresses routes =
    (codes "method", text (codes "manual"))
    ∷ (codes "address-data", entries (codes "address") addresses)
    ∷ (codes "never-default", flag true)
    ∷ route_data routes

ipv6_section : List (Text × ℕ) → List (Text × ℕ) → Section
unfolding manual
ipv6_section [] routes = (codes "method", text (codes "ignore")) ∷ []
ipv6_section (a ∷ as_) routes = manual (a ∷ as_) routes

-- The whole dictionary.
pub sections : Plan → ℕ → Text → List (Text × ℕ) → List (Text × ℕ) → Sorted → List (Text × Section)
unfolding manual ipv6_section
sections p uid user a4 a6 (bad_text t) = []
sections p uid user a4 a6 (sorted r4 r6) =
    (
      codes "connection",
      (codes "id", text (codes "SKIPI TUN"))
          ∷ (codes "type", text (codes "tun"))
          ∷ (codes "interface-name", text p.name)
          ∷ (codes "autoconnect", flag false)
          ∷ (codes "permissions", texts ((codes "user:" ++ user ++ codes ":") ∷ []))
          ∷ [],
    )
    ∷ (
      codes "tun",
      (codes "mode", number 1)
          ∷ (codes "owner", text (format_nat uid))
          ∷ (codes "pi", flag false)
          ∷ [],
    )
    ∷ (codes "802-3-ethernet", (codes "mtu", number (to_nat p.mtu)) ∷ [])
    ∷ (codes "ipv4", manual a4 r4)
    ∷ (codes "ipv6", ipv6_section a6 r6)
    ∷ []

with_routes : Plan → ℕ → Text → List (Text × ℕ) → List (Text × ℕ) → Sorted → Built
unfolding sections
with_routes p uid user a4 a6 (bad_text t) = no_settings (bad_route t)
with_routes p uid user a4 a6 (sorted r4 r6) =
    if ltb 0 (length r6) && length a6 == 0
    then no_settings ipv6_routes_without_address
    else settings_of (sections p uid user a4 a6 (sorted r4 r6))

with_addresses : Prefixes → Plan → ℕ → Text → Sorted → Built
unfolding with_routes sort_all
with_addresses ps p uid user (bad_text t) = no_settings (bad_address t)
with_addresses ps p uid user (sorted a4 a6) =
    if length a4 == 0
    then no_settings no_ipv4
    else if ltb 1 (length a4) || ltb 1 (length a6)
    then no_settings too_many_addresses
    else with_routes p uid user a4 a6 (sort_all ps ps.masked p.routes)

-- `Plan.Settings`, for a user id that is not negative.
unfoldable pub plan_settings : Prefixes → Plan → ℕ → Text → Built
unfolding check_interface_name is_user_name sort_all with_addresses
plan_settings ps p uid user =
    if not (check_interface_name p.name)
    then no_settings bad_interface_name
    else if ltz p.mtu (pos 1280) || ltz (pos 65535) p.mtu
    then no_settings bad_mtu
    else if not (is_user_name user)
    then no_settings bad_user_name
    else with_addresses ps p uid user (sort_all ps (λ x. x) p.addresses)

-- The answer to a permission: the map's value, or an empty text.
granted : Text → List (Text × Text) → Bool
unfolding lookup str_eq
granted name permissions = elim (lookup name permissions) [
  | none ↦ false
  | some answer ↦ str_eq answer (codes "yes")
]

unfoldable pub control_permission : Text
control_permission = codes "org.freedesktop.NetworkManager.network-control"

unfoldable pub modify_permission : Text
modify_permission = codes "org.freedesktop.NetworkManager.settings.modify.own"

-- `checkPermissions`: the permission that is not granted, if there is one.
unfoldable pub check_permissions : List (Text × Text) → Option Text
unfolding granted control_permission modify_permission
check_permissions permissions =
    if not (granted control_permission permissions)
    then some control_permission
    else if not (granted modify_permission permissions)
    then some modify_permission
    else none
