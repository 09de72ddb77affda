-- ===== src/Netbind/Metrics.antt =====
-- What desktop/netbind/route_table.go makes of the rows of a table.
use skipi_core.Base.{
  ℕ, zero, suc, ◌+◌, ◌*◌, ◌≡◌, refl, sym, ap, subst, ==_refl, ◌∙◌, inl, inr, true, false, ◌&&◌,
  Option, none, some, List, [], ◌∷◌, ◌==◌, if◌then◌else◌, Bool-cases, arith, ltb, length, take,
  drop, update,
}
use skipi_core.Netbind.{field, is_default_row, lower, note_row, metrics_from, default_route_metrics}

-- The lower of two metrics, of which one may be missing.
lowest_of : Option ℕ → Option ℕ → Option ℕ
lowest_of none b = b
lowest_of (some a) none = some a
lowest_of (some a) (some b) = some (if ltb b a then b else a)

-- The lowest metric of the IPv4 default routes of an interface among the rows.
unfoldable pub lowest_metric : ℕ → List (List ℕ) → Option ℕ
unfolding lowest_of is_default_row
lowest_metric index [] = none
lowest_metric index (row ∷ rows) =
    lowest_of (if is_default_row row && field 8 4 row == index then some (field 84 4 row) else none)
      (lowest_metric index rows)

rows_from : List ℕ → ℕ → ℕ → List (List ℕ)
rows_from table i zero = []
rows_from table i (suc k) = elim (ltb (length table) (8 + i * 104 + 104)) [
  | true ↦ []
  | false ↦ take 104 (drop (8 + i * 104) table) ∷ rows_from table (suc i) k
]

-- The rows that stand whole in the table, as many as it counts at most.
unfoldable pub rows_of : List ℕ → List (List ℕ)
unfolding rows_from
rows_of table = if ltb (length table) 8 then [] else rows_from table 0 (field 0 4 table)

lowest_of_assoc : (a b c : Option ℕ) → lowest_of (lowest_of a b) c ≡ lowest_of a (lowest_of b c)
unfolding lowest_of
lowest_of_assoc none b c = refl
lowest_of_assoc (some a) none c = refl
lowest_of_assoc (some a) (some b) none = refl
lowest_of_assoc (some a) (some b) (some c) = ap some (ground arith)

lowest_of_nothing : (a : Option ℕ) → lowest_of a none ≡ a
unfolding lowest_of
lowest_of_nothing none = refl
lowest_of_nothing (some a) = refl

lowest_of-lower : (o : Option ℕ) (v : ℕ) → (if lower o v then some v else o) ≡ lowest_of o (some v)
unfolding lower lowest_of
lowest_of-lower none v = refl
lowest_of-lower (some a) v = elim (Bool-cases (ltb v a)) [ inl e ↦ rw e refl | inr e ↦ rw e refl ]

-- What a write at `f` does at the same key, and at another one.
written :
    (f v : ℕ) (metrics : ℕ → Option ℕ) (index : ℕ)
    → (if lower (metrics f) v then update metrics f (some v) else metrics) index
      ≡ lowest_of (metrics index) (if f == index then some v else none)
written f v metrics index = elim (Bool-cases (f == index)) [
  | inl e ↦
      let same : f ≡ index = ground (arith, e) in
      subst
        (λ j.
          (if lower (metrics j) v then update metrics j (some v) else metrics) index
          ≡ lowest_of (metrics index) (if j == index then some v else none))
        (sym same) at_
  | inr e ↦ elim (Bool-cases (lower (metrics f) v)) [
    | inl l ↦ rw (l, e) (sym (lowest_of_nothing (metrics index)))
    | inr l ↦ rw (l, e) (sym (lowest_of_nothing (metrics index)))
  ]
]
  where
    at_ :
        (if lower (metrics index) v then update metrics index (some v) else metrics) index
        ≡ lowest_of (metrics index) (if index == index then some v else none)
    at_ = elim (Bool-cases (lower (metrics index) v)) [
      | inl l ↦ rw (l, ==_refl index) (sym (rw l refl) ∙ lowest_of-lower (metrics index) v)
      | inr l ↦ rw (l, ==_refl index) (sym (rw l refl) ∙ lowest_of-lower (metrics index) v)
    ]

noted :
    (row : List ℕ) (metrics : ℕ → Option ℕ) (index : ℕ)
    → note_row row metrics index
      ≡ lowest_of
          (metrics index)
          (if is_default_row row && field 8 4 row == index then some (field 84 4 row) else none)
unfolding note_row
noted row metrics index = elim (Bool-cases (is_default_row row)) [
  | inr d ↦ rw (d, note_row) (sym (lowest_of_nothing (metrics index)))
  | inl d ↦ rw (d, note_row) (written (field 8 4 row) (field 84 4 row) metrics index)
]

metrics_from-lowest :
    (table : List ℕ) (i k : ℕ) (metrics : ℕ → Option ℕ) (index : ℕ)
    → metrics_from table i k metrics index
      ≡ lowest_of (metrics index) (lowest_metric index (rows_from table i k))
unfolding metrics_from rows_from lowest_metric
metrics_from-lowest table i zero metrics index = sym (lowest_of_nothing (metrics index))
metrics_from-lowest table i (suc k) metrics index =
    elim (Bool-cases (ltb (length table) (8 + i * 104 + 104))) [
      | inl t ↦ rw (t, metrics_from, rows_from) (sym (lowest_of_nothing (metrics index)))
      | inr t ↦
          rw (t, metrics_from, rows_from)
            (metrics_from-lowest table (suc i) k _ index
              ∙ ap (λ o. lowest_of o (lowest_metric index (rows_from table (suc i) k)))
                  (noted (take 104 (drop (8 + i * 104) table)) metrics index)
              ∙ lowest_of_assoc (metrics index) _ _)
    ]

-- The map has, for each interface, the lowest metric of its IPv4 default routes among the rows
-- that stand whole in the table, and no metric for an interface without one: a table that is cut
-- short counts as far as it goes, and one without a header is empty.
pub default_route_metrics-lowest :
    (table : List ℕ) (index : ℕ)
    → default_route_metrics table index ≡ lowest_metric index (rows_of table)
unfolding default_route_metrics rows_of lowest_metric lowest_of
default_route_metrics-lowest table index = elim (Bool-cases (ltb (length table) 8)) [
  | inl t ↦ rw (t, default_route_metrics, rows_of) refl
  | inr t ↦
      rw (t, default_route_metrics, rows_of)
        (metrics_from-lowest table 0 (field 0 4 table) (λ j. none) index)
]
