-- ===== src/Traffic/Drain.antt =====
-- Draining in skipicore.go: no byte that Xray counted is lost or counted twice, and readers of
-- the cumulative snapshot do not take from one another.
use skipi_core.Base.{
  ℕ, ◌+◌, ◌%◌, ◌^◌, ◌<◌, ◌≡◌, refl, ap, ◌∙◌, subst, ◌&&◌, true, false, none, some, List, [], ◌∷◌,
  inl, inr, Option-cases, Bool-cases, if◌then◌else◌, arith, Text, str_eq, str_eq_iff, lookup,
  insert, lookup-insert, ltb, add64, All,
}
use skipi_core.Traffic.{
  Stats, Visit, is_traffic, value_at, take_value, visit_counter, visit, or_empty, drain_manager,
  drain, query_traffic_stats,
}

-- What the counters of one name hold together.
pub counter_sum : Text → List (Text × ℕ) → ℕ
counter_sum n [] = 0
counter_sum n ((name, value) ∷ rest) = (if str_eq name n then value else 0) + counter_sum n rest

-- The counters hold no negative value and less than 2 ^ 63 bytes.
abbrev pub Counts : List (Text × ℕ) → Type 0
Counts = All (λ c. c.1 < 2 ^ 63)

-- What is counted for a name so far: in the totals, and in the counters that are not drained.
pub counted : Text → Stats → ℕ
unfolding counter_sum or_empty
counted n s = value_at n (or_empty s.totals) + counter_sum n (or_empty s.manager)

value_at-insert :
    (k n : Text) (v : ℕ) (m : List (Text × ℕ))
    → value_at n (insert k v m) ≡ (if str_eq k n then v else value_at n m)
value_at-insert k n v m = ground (arith, lookup-insert k n v m)

-- The step on one counter: the totals of `n` grow by what the counter held.
take-total :
    (n name : Text) (value : ℕ) (v : Visit)
    → value < 2 ^ 63
    → value_at n v.totals < 2 ^ 64
    → value_at n (take_value name value v).totals
      ≡ (value_at n v.totals + (if str_eq name n then value else 0)) % 2 ^ 64
unfolding take_value
take-total n name value v h w =
    ground (
      arith,
      lookup-insert name n (add64 (value_at name v.totals) value) v.totals,
      str_eq_iff name n,
    )

visit_counter-total :
    (n name : Text) (value : ℕ) (totals deltas : List (Text × ℕ))
    → is_traffic n ≡ true
    → value < 2 ^ 63
    → value_at n totals < 2 ^ 64
    → value_at n (visit_counter name value totals deltas).totals
      ≡ (value_at n totals + (if str_eq name n then value else 0)) % 2 ^ 64
unfolding visit_counter
visit_counter-total n name value totals deltas t h w =
    let v : Visit = record { counters = []; totals = totals; deltas = deltas } in
    let step = take-total n name value v h w in
    elim (Bool-cases (is_traffic name)) [
      | inl e ↦ rw e step
      | inr e ↦ rw e (ground (arith, str_eq_iff name n))
    ]

lookup_nil : (n : Text) → lookup {V = ℕ} n [] ≡ none
unfolding lookup
lookup_nil n = refl

visit-total :
    (n : Text) (counters totals deltas : List (Text × ℕ))
    → is_traffic n ≡ true
    → Counts counters
    → value_at n totals < 2 ^ 64
    → value_at n (visit counters totals deltas).totals
      ≡ (value_at n totals + counter_sum n counters) % 2 ^ 64
unfolding visit counter_sum
visit-total n [] totals deltas t h w = omega arith
visit-total n ((name, value) ∷ rest) totals deltas t h w =
    let m = visit_counter name value totals deltas in
    let step = visit_counter-total n name value totals deltas t h.0 w in
    omega (arith, step, visit-total n rest m.totals m.deltas t h.1 (omega (arith, step)))

visit-cleared :
    (n : Text) (counters totals deltas : List (Text × ℕ))
    → counter_sum n (visit counters totals deltas).counters
      ≡ (if is_traffic n then 0 else counter_sum n counters)
unfolding visit counter_sum
visit-cleared n [] totals deltas = ground arith
visit-cleared n ((name, value) ∷ rest) totals deltas =
    let m = visit_counter name value totals deltas in
    let ih = visit-cleared n rest m.totals m.deltas in
    elim (Bool-cases (str_eq name n)) [
      | inl e ↦ rw e (ground (arith, ih, ap is_traffic ((str_eq_iff name n).0 e)))
      | inr e ↦ rw e (ground (arith, ih))
    ]

-- A drain moves everything: the totals of a traffic counter become what was counted for it so far,
-- modulo 2 ^ 64, its counters are left at zero, and the counters of names that are not about
-- traffic keep their values, provided that each counter's value is not negative and below 2 ^ 63
-- and that the total is a word of 64 bits.
pub drain-counted :
    (s : Stats) (counters : List (Text × ℕ)) (n : Text)
    → s.manager ≡ some counters
    → Counts counters
    → is_traffic n ≡ true
    → value_at n (or_empty s.totals) < 2 ^ 64
    → (value_at n (or_empty (drain s).0.totals) ≡ counted n s % 2 ^ 64)
      × (counter_sum n (or_empty (drain s).0.manager) ≡ 0)
      × ((m : Text)
          → is_traffic m ≡ false
          → counter_sum m (or_empty (drain s).0.manager) ≡ counter_sum m counters)
unfolding drain counted
drain-counted s counters n e h t w =
    let totals = or_empty s.totals in
    rw (e, drain_manager)
      (
        visit-total n counters totals [] t h w,
        visit-cleared n counters totals [] ∙ rw t,
        λ m u. visit-cleared m counters totals [] ∙ rw u,
      )

visit_counter-cleared :
    (name : Text) (value : ℕ) (totals : List (Text × ℕ))
    → visit_counter name (if is_traffic name then 0 else value) totals []
      ≡ record { counters = []; totals = totals; deltas = [] }
unfolding visit_counter take_value
visit_counter-cleared name value totals = ground arith

visit-again :
    (counters totals deltas later : List (Text × ℕ))
    → let cleared = (visit counters totals deltas).counters in
      visit cleared later [] ≡ record { counters = cleared; totals = later; deltas = [] }
unfolding visit
visit-again [] totals deltas later = refl
visit-again ((name, value) ∷ rest) totals deltas later =
    let m = visit_counter name value totals deltas in
    let ih = visit-again rest m.totals m.deltas later in
    rw (visit_counter-cleared name value later, ih) (ground arith)

-- Two readers of the cumulative snapshot with no traffic in between see the same numbers, and the
-- second one changes nothing.
pub query_traffic_stats_idem :
    (s : Stats) → query_traffic_stats (query_traffic_stats s).0 ≡ query_traffic_stats s
unfolding query_traffic_stats drain
query_traffic_stats_idem s = elim (Option-cases s.manager) [
  | inl e ↦ rw (e, drain_manager) refl
  | inr (counters, e) ↦ rw (e, drain_manager) (unfold or_empty in rw (visit-again counters) refl)
]

-- No counter of the list has this name.
abbrev pub Absent : Text → List (Text × ℕ) → Type 0
Absent n = All (λ c. str_eq c.0 n ≡ false)

-- Xray registers each counter name once.
abbrev pub Distinct : List (Text × ℕ) → Type 0
Distinct [] = Unit {0}
Distinct ((name, _) ∷ rest) = Absent name rest × Distinct rest

counter_sum-Absent : (n : Text) (cs : List (Text × ℕ)) → Absent n cs → counter_sum n cs ≡ 0
unfolding counter_sum
counter_sum-Absent n [] h = refl
counter_sum-Absent n ((name, value) ∷ rest) h = ground (arith, h.0, counter_sum-Absent n rest h.1)

visit_counter-delta :
    (n name : Text) (value : ℕ) (totals deltas : List (Text × ℕ))
    → is_traffic n ≡ true
    → value < 2 ^ 63
    → value_at n (visit_counter name value totals deltas).deltas
      ≡ (if str_eq name n && ltb 0 value then value else value_at n deltas)
unfolding visit_counter take_value
visit_counter-delta n name value totals deltas t h = elim (Bool-cases (str_eq name n)) [
  | inl e ↦
      let q = ap is_traffic ((str_eq_iff name n).0 e) ∙ t in
      rw (e, q) (ground (arith, lookup-insert name n value deltas))
  | inr e ↦ rw e (ground (arith, lookup-insert name n value deltas))
]

visit-deltas :
    (n : Text) (counters totals deltas : List (Text × ℕ))
    → is_traffic n ≡ true
    → Counts counters
    → Distinct counters
    → value_at n (visit counters totals deltas).deltas
      ≡ (if ltb 0 (counter_sum n counters) then counter_sum n counters else value_at n deltas)
unfolding visit counter_sum
visit-deltas n [] totals deltas t h d = refl
visit-deltas n ((name, value) ∷ rest) totals deltas t h d =
    let m = visit_counter name value totals deltas in
    let ih = visit-deltas n rest m.totals m.deltas t h.1 d.1 in
    let step = visit_counter-delta n name value totals deltas t h.0 in
    elim (Bool-cases (str_eq name n)) [
      | inl e ↦
          let none_left =
            counter_sum-Absent n rest (subst (λ k. Absent k rest) ((str_eq_iff name n).0 e) d.0) in
          rw e (ih ∙ ground (arith, step, none_left))
      | inr e ↦ rw e (ih ∙ ground (arith, step))
    ]

-- The deltas of a drain are what each traffic counter held, if no counter name is registered
-- twice and each value is not negative and below 2 ^ 63; a counter with no new bytes has delta 0.
pub drain-deltas :
    (s : Stats) (counters : List (Text × ℕ)) (n : Text)
    → s.manager ≡ some counters
    → Counts counters
    → Distinct counters
    → is_traffic n ≡ true
    → value_at n (drain s).1 ≡ counter_sum n counters
unfolding drain
drain-deltas s counters n e h d t =
    rw (e, drain_manager)
      (ground (arith, visit-deltas n counters (or_empty s.totals) [] t h d, lookup_nil n))
