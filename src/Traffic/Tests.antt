-- ===== src/Traffic/Tests.antt =====
-- Runs of skipicore.go's traffic snapshots on concrete counters, and the theorems at concrete
-- inputs.
use skipi_core.Base.{
  ℕ, ◌%◌, ◌^◌, ◌≡◌, refl, true, inl, inr, some, List, [], ◌∷◌, arith, Text, codes, lookup, insert,
  str_eq,
}
use skipi_core.Traffic.{
  CounterName, Stats, parse_name, is_traffic, value_at, visit, visit_counter, or_empty, drain,
  query_all_outbound, snapshot_from_totals, add_total, add_named,
}
use skipi_core.Traffic.Names.{IsCounterName}
use skipi_core.Traffic.Drain.{counted, drain-counted}

abbrev proxy_up : Text
proxy_up = codes "outbound>>>proxy>>>traffic>>>uplink"

abbrev proxy_down : Text
proxy_down = codes "outbound>>>proxy>>>traffic>>>downlink"

abbrev counters : List (Text × ℕ)
counters = (proxy_up, 30) ∷ (codes "user>>>love@v2ray.com>>>online", 1) ∷ (proxy_down, 400) ∷ []

abbrev stats : Stats
stats = record { manager = some counters; totals = some ((proxy_up, 12) ∷ []) }

abbrev proxy : CounterName
proxy = record { kind = codes "outbound"; tag = codes "proxy"; direction = codes "uplink" }

parse_test : parse_name proxy_up ≡ some proxy
unfolding parse_name str_eq
parse_test = refl

query_all_test : (query_all_outbound stats).1 ≡ codes "proxy,uplink,30;proxy,downlink,400;"
unfolding query_all_outbound drain visit visit_counter is_traffic parse_name snapshot_from_totals
    add_total add_named lookup insert
query_all_test = refl

proxy-IsCounterName : IsCounterName proxy
proxy-IsCounterName = record { kind = inr refl; tag = refl; direction = inl refl }

proxy_up-traffic : is_traffic proxy_up ≡ true
unfolding is_traffic parse_name str_eq
proxy_up-traffic = refl

drain-counted_example :
    value_at proxy_up (or_empty (drain stats).0.totals) ≡ counted proxy_up stats % 2 ^ 64
unfolding lookup or_empty str_eq
drain-counted_example =
    (drain-counted stats counters proxy_up refl (omega arith) proxy_up-traffic (omega arith)).0
