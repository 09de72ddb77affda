-- ===== src/Netbind/Tests.antt =====
-- The theorems on desktop/netbind at concrete adapters, tables and dials.
use skipi_core.Base.{
  ℕ, zero, suc, ◌≡◌, refl, ◌⊎◌, not, ◌||◌, true, false, Option, none, some, List, [], ◌∷◌, ◌++◌,
  All, Text, codes, str_eq, split, fields, atoi, ℤ, pos, ltz, if◌then◌else◌, has_prefix, is_digit,
}
use skipi_core.Awg.{to_lower}
use skipi_core.Socks.Associate.{NetAddr}
use skipi_core.Netbind.{
  Adapter, is_candidate, default_adapter, best_adapter, improves, default_interface, route_of,
  parse_hex32, best_route, default_route_metrics, default_interface_from_netstat, field, le,
}
use skipi_core.Netbind.Adapters.{In, Behind, default_adapter-IsBest}
use skipi_core.Netbind.Routes.{candidates, HasRoute, default_interface-least}
use skipi_core.Netbind.Metrics.{lowest_metric, rows_of, default_route_metrics-lowest}
use skipi_core.Netbind.Binder.{
  new_binder, enable, Socket, control, Call, enables, controls, run, is_loopback, current, is_stale,
}
use skipi_core.Netbind.Binder.Told.{IsTold, new_binder-IsTold, run-IsTold}
use skipi_core.Netbind.Binder.Changes.{choices, changes, lookups, run-changes}
use skipi_core.Netbind.Binder.Bound.{pins, choice_at, pinned_to, dial_error, control-pins}

abbrev ethernet : Adapter
ethernet = record {
  index = 19;
  name = codes "Ethernet";
  up = true;
  has_gateway = true;
  loopback = false;
  metric = 25;
}

abbrev wifi : Adapter
wifi = record {
  index = 8;
  name = codes "Wi-Fi";
  up = true;
  has_gateway = true;
  loopback = false;
  metric = 25;
}

adapter_test : default_adapter str_eq (ethernet ∷ wifi ∷ []) (codes "skipi0") ≡ some 8
unfolding default_adapter best_adapter is_candidate improves str_eq
adapter_test = refl

default_adapter-IsBest_example :
    let r = default_adapter str_eq (ethernet ∷ wifi ∷ []) (codes "skipi0") in
    ((r ≡ none) × All (λ a. is_candidate str_eq (codes "skipi0") a ≡ false) (ethernet ∷ wifi ∷ []))
    ⊎ ((b : Adapter) × (r ≡ some b.index)
        × In b (ethernet ∷ wifi ∷ [])
        × (is_candidate str_eq (codes "skipi0") b ≡ true)
        × All (Behind str_eq (codes "skipi0") b) (ethernet ∷ wifi ∷ []))
default_adapter-IsBest_example =
    default_adapter-IsBest str_eq (codes "skipi0") (ethernet ∷ wifi ∷ [])

table : Text
table =
    codes "Iface Destination Gateway Flags RefCnt Use Metric Mask\n"
    ++ (codes "wlan0 00000000 0101A8C0 0003 0 0 600 00000000 0 0 0\n"
        ++ codes "eth0 00000000 0101A8C0 0003 0 0 100 00000000 0 0 0\n")

table_candidates :
    candidates (codes "skipi0") (split (codes "\n") table)
    ≡ (codes "wlan0", pos 600) ∷ (codes "eth0", pos 100) ∷ []
unfolding candidates table split fields route_of str_eq parse_hex32 is_digit atoi
table_candidates = refl

default_interface-least_example :
    let cs = candidates (codes "skipi0") (split (codes "\n") table) in
    ((default_interface table (codes "skipi0") ≡ none) × (cs ≡ []))
    ⊎ ((name : Text) × (metric : ℤ) × (default_interface table (codes "skipi0") ≡ some name)
        × HasRoute (name, metric) cs
        × All (λ c. ltz c.1 metric ≡ false) cs)
default_interface-least_example =
    default_interface-least table (codes "skipi0") (rw table_candidates (refl, (refl, tt)))

-- A route behind one with a negative metric takes its place, although its metric is higher.
negative_test :
    default_interface
      (codes
        "eth0 00000000 0101A8C0 0003 0 0 -5 00000000\nwlan0 00000000 0101A8C0 0003 0 0 600 00000000")
      (codes "skipi0")
    ≡ some (codes "wlan0")
unfolding default_interface best_route split fields route_of str_eq parse_hex32 is_digit atoi
negative_test = refl

netstat_test :
    default_interface_from_netstat
      (λ t. not (str_eq t (codes "link#4")))
      (codes "default link#4 UCSI utun3\ndefault 192.168.1.1 UGScg en0")
      (codes "skipi0")
    ≡ some (codes "en0")
unfolding default_interface_from_netstat str_eq has_prefix split fields
netstat_test = refl

zeros : ℕ → List ℕ
zeros zero = []
zeros (suc n) = 0 ∷ zeros n

-- One default route of the interface 7, with the metric 25.
one_row : List ℕ
one_row =
    1 ∷ 0 ∷ 0 ∷ 0 ∷ (zeros 12 ++ 7 ∷ 0 ∷ 0 ∷ 0 ∷ 2 ∷ 0 ∷ (zeros 70 ++ 25 ∷ 0 ∷ 0 ∷ 0 ∷ zeros 16))

default_route_metrics-lowest_example :
    default_route_metrics one_row 7 ≡ lowest_metric 7 (rows_of one_row)
default_route_metrics-lowest_example = default_route_metrics-lowest one_row 7

metrics_test : default_route_metrics one_row 7 ≡ some 25
unfolding default_route_metrics field le one_row zeros
metrics_test = refl

no_address : Text → Option NetAddr
no_address t = none

abbrev broken : Socket
broken = record { runs = true; error = none; bind_error = some (codes "EPERM") }

abbrev dials : List Call
dials =
    enables
    ∷ controls (codes "203.0.113.7:443") 10 (codes "eth0", true) broken
    ∷ controls (codes "203.0.113.8:443") 20 (codes "wlan0", true) broken
    ∷ controls (codes "203.0.113.9:443") 1500 (codes "wlan0", true) broken
    ∷ []

run-IsTold_example : IsTold (run no_address (new_binder 1000 true true) dials)
run-IsTold_example =
    run-IsTold no_address (new_binder 1000 true true) dials (new_binder-IsTold 1000 true true)

run-changes_example :
    let es = (run no_address (new_binder 1000 true true) dials).events in
    choices es ≡ changes none (lookups es)
run-changes_example = run-changes no_address 1000 true dials

-- Two lookups, which differ, and three pinned sockets.
dials_test :
    let es = (run no_address (new_binder 1000 true true) dials).events in
    (lookups es ≡ (codes "eth0", true) ∷ (codes "wlan0", true) ∷ [])
    × (pins es ≡ codes "eth0" ∷ codes "eth0" ∷ codes "wlan0" ∷ [])
unfolding run new_binder no_address is_loopback lookups pins to_lower has_prefix current is_stale
dials_test = (refl, refl)

control-pins_example :
    let b = enable (new_binder 1000 true true) in
    let o = control no_address (codes "203.0.113.7:443") 10 (codes "eth0", true) broken b in
    let left_alone = is_loopback no_address (codes "203.0.113.7:443") || not b.enabled in
    let c = choice_at 10 (codes "eth0", true) b in
    (pins o.0.events ≡ pins b.events ++ (if left_alone then [] else pinned_to broken c))
    × (o.1 ≡ (if left_alone then none else dial_error broken c))
control-pins_example =
    control-pins no_address (codes "203.0.113.7:443") 10 (codes "eth0", true) broken
      (enable (new_binder 1000 true true))
