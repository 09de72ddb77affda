-- ===== src/Traffic/Totals.antt =====
-- The snapshot of skipicore.go's `trafficStatsSnapshotFromTotals` against a plain sum.
use skipi_core.Base.{
  ℕ, ◌+◌, ◌%◌, ◌^◌, ◌<◌, ◌≡◌, refl, Bool, true, false, not, ◌&&◌, none, some, List, [], ◌∷◌, inl,
  inr, Option-cases, if◌then◌else◌, arith, Text, codes, str_eq, str_eq_iff, lookup, insert,
  lookup-insert, is_pos64, add64,
}
use skipi_core.Traffic.{
  CounterName, Bytes, Snapshot, parse_name, bytes_at, new_snapshot, add_bytes, add_named, add_total,
  snapshot_onto, snapshot_from_totals,
}

-- One number of a snapshot: the kind is inbound or not, the direction is uplink or not.
pub reading : Bool → Text → Bool → Snapshot → ℕ
reading is_inbound tag is_uplink s =
    let b = bytes_at tag (if is_inbound then s.inbound else s.outbound) in
    if is_uplink then b.uplink else b.downlink

same : Bool → Bool → Bool
same true b = b
same false b = not b

abbrev concerns : Bool → Text → Bool → CounterName → Bool
concerns is_inbound tag is_uplink n =
    same is_inbound (str_eq n.kind (codes "inbound"))
    && str_eq n.tag tag
    && same is_uplink (str_eq n.direction (codes "uplink"))

-- The bytes of one total that belong to the reading: none if it is not positive or not a counter.
contribution : Bool → Text → Bool → Text → ℕ → ℕ
contribution is_inbound tag is_uplink name value =
    if is_pos64 value
    then elim (parse_name name) [
      | none ↦ 0
      | some n ↦ (if concerns is_inbound tag is_uplink n then value else 0)
    ]
    else 0

pub sum_of : Bool → Text → Bool → List (Text × ℕ) → ℕ
unfolding contribution
sum_of is_inbound tag is_uplink [] = 0
sum_of is_inbound tag is_uplink ((name, value) ∷ rest) =
    contribution is_inbound tag is_uplink name value + sum_of is_inbound tag is_uplink rest

bytes_at-insert :
    (k j : Text) (b : Bytes) (m : List (Text × Bytes))
    → bytes_at j (insert k b m) ≡ (if str_eq k j then b else bytes_at j m)
bytes_at-insert k j b m = ground (arith, lookup-insert k j b m)

reading-add_named :
    (i : Bool) (tag : Text) (u : Bool) (s : Snapshot) (n : CounterName) (value : ℕ)
    → reading i tag u (add_named s n value)
      ≡ (if concerns i tag u n then add64 (reading i tag u s) value else reading i tag u s)
unfolding reading add_named same
reading-add_named true tag u s n value =
    let b = add_bytes (bytes_at n.tag s.inbound) n.direction value in
    ground (arith, lookup-insert n.tag tag b s.inbound, str_eq_iff n.tag tag)
reading-add_named false tag u s n value =
    let b = add_bytes (bytes_at n.tag s.outbound) n.direction value in
    ground (arith, lookup-insert n.tag tag b s.outbound, str_eq_iff n.tag tag)

reading-new_snapshot : (i u : Bool) (tag : Text) → reading i tag u new_snapshot ≡ 0
unfolding reading lookup
reading-new_snapshot true true tag = refl
reading-new_snapshot true false tag = refl
reading-new_snapshot false true tag = refl
reading-new_snapshot false false tag = refl

reading-add_total :
    (i : Bool) (tag : Text) (u : Bool) (s : Snapshot) (name : Text) (value : ℕ)
    → reading i tag u s < 2 ^ 64
    → reading i tag u (add_total s name value)
      ≡ (reading i tag u s + contribution i tag u name value) % 2 ^ 64
unfolding add_total contribution
reading-add_total i tag u s name value h = elim (Option-cases (parse_name name)) [
  | inl e ↦ rw (e, add_total) (ground arith)
  | inr (n, e) ↦ rw (e, add_total) (ground (arith, reading-add_named i tag u s n value))
]

reading-snapshot_onto :
    (i : Bool) (tag : Text) (u : Bool) (totals : List (Text × ℕ)) (s : Snapshot)
    → reading i tag u s < 2 ^ 64
    → reading i tag u (snapshot_onto s totals)
      ≡ (reading i tag u s + sum_of i tag u totals) % 2 ^ 64
unfolding snapshot_onto sum_of
reading-snapshot_onto i tag u [] s h = omega arith
reading-snapshot_onto i tag u ((name, value) ∷ rest) s h =
    let step = reading-add_total i tag u s name value h in
    omega (
      arith,
      step,
      reading-snapshot_onto i tag u rest (add_total s name value) (omega (arith, step)),
    )

-- Every number of a snapshot is the sum, modulo 2 ^ 64, of the positive totals whose counter name
-- is of that kind, tag and direction.
pub reading-snapshot_from_totals :
    (is_inbound : Bool) (tag : Text) (is_uplink : Bool) (totals : List (Text × ℕ))
    → reading is_inbound tag is_uplink (snapshot_from_totals totals)
      ≡ sum_of is_inbound tag is_uplink totals % 2 ^ 64
unfolding snapshot_from_totals
reading-snapshot_from_totals i tag u totals =
    let start : reading i tag u new_snapshot ≡ 0 = reading-new_snapshot i u tag in
    omega (arith, start, reading-snapshot_onto i tag u totals new_snapshot (omega (arith, start)))
