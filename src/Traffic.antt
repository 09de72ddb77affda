-- ===== src/Traffic.antt =====
-- skipicore.go, lines 330-466: the traffic counters of Xray drained into the controller's totals,
-- and the snapshots made of them. A statistics manager is the list of its counters with their
-- int64 values as bit patterns; the JSON text of a snapshot is the record that is encoded.
pub mod Names
pub mod Totals
pub mod Drain
pub mod Tests
use skipi_core.Base.{
  ℕ, ◌+◌, Bool, true, false, not, ◌&&◌, ◌||◌, Option, none, some, List, [], ◌∷◌, ◌++◌,
  if◌then◌else◌, Text, codes, str_eq, is_empty, is_some, split, format_nat, lookup, insert, add64,
  is_pos64, ltb, ◌==◌,
}

-- The named results of `parseTrafficStatCounterName`.
pub record CounterName : Type 0 where
  pub kind : Text
  pub tag : Text
  pub direction : Text

parse_parts : List Text → Option CounterName
parse_parts (kind ∷ tag ∷ traffic ∷ direction ∷ []) =
    if not (str_eq kind (codes "inbound") || str_eq kind (codes "outbound"))
      || not (str_eq traffic (codes "traffic"))
    then none
    else if is_empty tag
        || not (str_eq direction (codes "uplink") || str_eq direction (codes "downlink"))
    then none
    else some (record { kind = kind; tag = tag; direction = direction })
parse_parts _ = none

-- `parseTrafficStatCounterName`; `none` is `ok == false`.
unfoldable pub parse_name : Text → Option CounterName
unfolding parse_parts split
parse_name name = parse_parts (split (codes ">>>") name)

-- `isTrafficStatCounter`
unfoldable pub is_traffic : Text → Bool
is_traffic name = is_some (parse_name name)

-- `trafficStatsBytes`
pub record Bytes : Type 0 where
  pub uplink : ℕ
  pub downlink : ℕ

-- `trafficStatsSnapshot`
pub record Snapshot : Type 0 where
  pub inbound : List (Text × Bytes)
  pub outbound : List (Text × Bytes)

-- `newTrafficStatsSnapshot`
abbrev pub new_snapshot : Snapshot
new_snapshot = record { inbound = []; outbound = [] }

-- The value of a Go map at a key, which is the zero value if the key is missing.
abbrev pub bytes_at : Text → List (Text × Bytes) → Bytes
bytes_at tag m = elim (lookup tag m) [ none ↦ record { uplink = 0; downlink = 0 } | some b ↦ b ]

abbrev pub value_at : Text → List (Text × ℕ) → ℕ
value_at name m = elim (lookup name m) [ none ↦ 0 | some v ↦ v ]

add_bytes : Bytes → Text → ℕ → Bytes
add_bytes b direction value =
    if str_eq direction (codes "uplink")
    then record b { uplink = add64 b.uplink value }
    else record b { downlink = add64 b.downlink value }

-- One turn of the loop of `trafficStatsSnapshotFromTotals`, behind the two tests.
unfoldable pub add_named : Snapshot → CounterName → ℕ → Snapshot
unfolding add_bytes
add_named s n value =
    if str_eq n.kind (codes "inbound")
    then record s {
      inbound = insert n.tag (add_bytes (bytes_at n.tag s.inbound) n.direction value) s.inbound;
    }
    else record s {
      outbound = insert n.tag (add_bytes (bytes_at n.tag s.outbound) n.direction value) s.outbound;
    }

unfoldable pub add_total : Snapshot → Text → ℕ → Snapshot
add_total s name value =
    if is_pos64 value then elim (parse_name name) [ none ↦ s | some n ↦ add_named s n value ] else s

unfoldable pub snapshot_onto : Snapshot → List (Text × ℕ) → Snapshot
snapshot_onto s [] = s
snapshot_onto s ((name, value) ∷ rest) = snapshot_onto (add_total s name value) rest

-- `trafficStatsSnapshotFromTotals`, over the map in the order in which it is listed.
unfoldable pub snapshot_from_totals : List (Text × ℕ) → Snapshot
unfolding snapshot_onto
snapshot_from_totals totals = snapshot_onto new_snapshot totals

-- The fields `statsManager` and `trafficStatsTotals` of a controller; `none` is nil.
pub record Stats : Type 0 where
  pub manager : Option (List (Text × ℕ))
  pub totals : Option (List (Text × ℕ))

-- The counters, the totals and the deltas in the course of `VisitCounters`.
pub record Visit : Type 0 where
  pub counters : List (Text × ℕ)
  pub totals : List (Text × ℕ)
  pub deltas : List (Text × ℕ)

-- The callback on a counter that is about traffic: `counter.Set(0)` returned `value`.
take_value : Text → ℕ → Visit → Visit
take_value name value v =
    if is_pos64 value
    then record v {
      totals = insert name (add64 (value_at name v.totals) value) v.totals;
      deltas = insert name value v.deltas;
    }
    else v

-- The callback of `VisitCounters`.
unfoldable pub visit_counter : Text → ℕ → List (Text × ℕ) → List (Text × ℕ) → Visit
unfolding take_value
visit_counter name value totals deltas =
    let v : Visit = record { counters = []; totals = totals; deltas = deltas } in
    if is_traffic name then take_value name value v else v

unfoldable pub visit : List (Text × ℕ) → List (Text × ℕ) → List (Text × ℕ) → Visit
visit [] totals deltas = record { counters = []; totals = totals; deltas = deltas }
visit ((name, value) ∷ rest) totals deltas =
    let w = visit_counter name value totals deltas in
    let later = visit rest w.totals w.deltas in
    record later { counters = (name, if is_traffic name then 0 else value) ∷ later.counters }

unfoldable pub or_empty : Option (List (Text × ℕ)) → List (Text × ℕ)
or_empty none = []
or_empty (some m) = m

drain_manager : Option (List (Text × ℕ)) → Stats → Stats × List (Text × ℕ)
unfolding visit visit_counter or_empty
drain_manager none s = (s, [])
drain_manager (some counters) s =
    let v = visit counters (or_empty s.totals) [] in
    (record { manager = some v.counters; totals = some v.totals }, v.deltas)

-- `drainTrafficStatsLocked`: the new state and the deltas.
unfoldable pub drain : Stats → Stats × List (Text × ℕ)
unfolding drain_manager
drain s = drain_manager s.manager s

-- `collectTrafficStatsLocked` and `QueryTrafficStats`
unfoldable pub query_traffic_stats : Stats → Stats × Snapshot
unfolding or_empty
query_traffic_stats s = let (s', _) = drain s in (s', snapshot_from_totals (or_empty s'.totals))

-- `<` of Go strings.
text_lt : Text → Text → Bool
text_lt [] [] = false
text_lt [] (_ ∷ _) = true
text_lt (_ ∷ _) [] = false
text_lt (x ∷ xs) (y ∷ ys) = ltb x y || x == y && text_lt xs ys

insert_sorted : Text → List Text → List Text
unfolding text_lt
insert_sorted t [] = t ∷ []
insert_sorted t (u ∷ us) = if text_lt u t then u ∷ insert_sorted t us else t ∷ u ∷ us

-- `sortedTrafficStatTags`
unfoldable pub sorted_tags : List (Text × Bytes) → List Text
unfolding insert_sorted
sorted_tags [] = []
sorted_tags ((tag, _) ∷ m) = insert_sorted tag (sorted_tags m)

write_entry : Text → Text → ℕ → Text
unfolding format_nat
write_entry tag direction value =
    if is_pos64 value
    then tag ++ (codes "," ++ (direction ++ (codes "," ++ (format_nat value ++ codes ";"))))
    else []

write_tags : List (Text × Bytes) → List Text → Text
unfolding write_entry
write_tags m [] = []
write_tags m (tag ∷ tags) =
    let b = bytes_at tag m in
    write_entry tag (codes "uplink") b.uplink
    ++ (write_entry tag (codes "downlink") b.downlink ++ write_tags m tags)

-- `QueryAllOutboundTrafficStats`
unfoldable pub query_all_outbound : Stats → Stats × Text
unfolding sorted_tags write_tags
query_all_outbound s =
    let (s', deltas) = drain s in
    let outbound = (snapshot_from_totals deltas).outbound in
    (s', write_tags outbound (sorted_tags outbound))
