-- ===== src/Select/Fastest.antt =====
-- Which node skipicore.go's `FastSelectBestOutbound` picks.
use skipi_core.Base.{
  ℕ, ◌+◌, ◌≤◌, ◌≡◌, refl, subst, ◌⊎◌, inl, inr, true, false, ◌||◌, Option, none, some, List, [],
  ◌∷◌, ◌++◌, arith, ltb, leb, Bool-cases, Option-cases, Text, is_empty, length, length-append, All,
  All-append,
}
use mathlib.Core.List.{append_assoc}
use skipi_core.Select.{
  ProbeResult, Race, start_race, receive, note_latency, better, is_fast_first, enough, or_first,
  collect,
}
use skipi_core.Select.Candidates.{IsTag}

abbrev pub IsAtLeast : ℕ → Option ℕ → Type 0
IsAtLeast lat none = Unit {0}
IsAtLeast lat (some l) = lat ≤ l

abbrev pub Failed : ProbeResult → Type 0
Failed p = p.latency ≡ none

-- Some node answered with this tag and latency.
abbrev pub Heard : Text → ℕ → List ProbeResult → Type 0
Heard tag lat [] = ⊥
Heard tag lat (p ∷ ps) = ((p.tag ≡ tag) × (p.latency ≡ some lat)) ⊎ Heard tag lat ps

abbrev pub Wins : Text → ℕ → List ProbeResult → Type 0
Wins tag lat seen = Heard tag lat seen × All (λ p. IsAtLeast lat p.latency) seen

Heard-old :
    (tag : Text) (lat : ℕ) (xs ys : List ProbeResult) → Heard tag lat xs → Heard tag lat (xs ++ ys)
Heard-old tag lat [] ys h = absurd h
Heard-old tag lat (x ∷ xs) ys (inl e) = inl e
Heard-old tag lat (x ∷ xs) ys (inr h) = inr (Heard-old tag lat xs ys h)

Heard-new :
    (p : ProbeResult) (lat : ℕ) (xs : List ProbeResult)
    → p.latency ≡ some lat
    → Heard p.tag lat (xs ++ p ∷ [])
Heard-new p lat [] e = inl (refl, e)
Heard-new p lat (x ∷ xs) e = inr (Heard-new p lat xs e)

All-lower :
    (k m : ℕ) (xs : List ProbeResult)
    → k ≤ m
    → All (λ p. IsAtLeast m p.latency) xs
    → All (λ p. IsAtLeast k p.latency) xs
All-lower k m [] h a = tt
All-lower k m (x ∷ xs) h a = (lower x.latency a.0, All-lower k m xs h a.1)
  where
    lower : (o : Option ℕ) → IsAtLeast m o → IsAtLeast k o
    lower none b = tt
    lower (some l) b = omega arith

All-Failed : (k : ℕ) (xs : List ProbeResult) → All Failed xs → All (λ p. IsAtLeast k p.latency) xs
All-Failed k [] a = tt
All-Failed k (x ∷ xs) a = (rw a.0 tt, All-Failed k xs a.1)

-- The variables of the loop after the results `seen`.
record RaceInv (seen : List ProbeResult) (r : Race) : Type 0 where
  counted : r.received ≡ length seen
  state :
      ((is_empty r.fastest ≡ true) × All Failed seen)
      ⊎ ((is_empty r.fastest ≡ false) × Wins r.fastest r.lowest seen)

-- A result after `seen` that leaves the lead alone, and one that takes it.
module _ (seen : List ProbeResult) (p : ProbeResult) where
  Wins-extend :
      (t : Text) (lat : ℕ) → IsAtLeast lat p.latency → Wins t lat seen → Wins t lat (seen ++ p ∷ [])
  Wins-extend t lat h w = (
    Heard-old t lat seen (p ∷ []) w.0,
    All-append (λ q. IsAtLeast lat q.latency) seen (p ∷ []) w.1 (h, tt),
  )

  Wins-lead :
      (l : ℕ)
      → p.latency ≡ some l
      → All (λ q. IsAtLeast l q.latency) seen
      → Wins p.tag l (seen ++ p ∷ [])
  Wins-lead l e a = (
    Heard-new p l seen e,
    All-append (λ q. IsAtLeast l q.latency) seen (p ∷ []) a (rw e (omega arith), tt),
  )

  -- A node that answers takes the lead if nobody has it or if it is faster, and else it stays.
  note_latency-RaceInv :
      (r : Race) (o : Option ℕ)
      → p.latency ≡ o
      → IsTag p.tag
      → RaceInv seen r
      → RaceInv (seen ++ p ∷ []) (note_latency (record r { received = r.received + 1 }) p.tag o)
  unfolding note_latency better
  note_latency-RaceInv r none e tag v = record {
    counted = omega (arith, v.counted, length-append seen (p ∷ []));
    state = elim v.state [
      | inl (f, a) ↦ inl (f, All-append Failed seen (p ∷ []) a (e, tt))
      | inr (f, w) ↦ inr (f, Wins-extend r.fastest r.lowest (rw e tt) w)
    ];
  }
  note_latency-RaceInv r (some l) e tag v =
      let count : r.received + 1 ≡ length (seen ++ p ∷ []) =
        omega (arith, v.counted, length-append seen (p ∷ [])) in
      elim v.state [
        | inl (f, a) ↦
            rw f
              (record { counted = count; state = inr (tag, Wins-lead l e (All-Failed l seen a)) })
        | inr (f, w) ↦ elim (Bool-cases (ltb l r.lowest)) [
          | inl faster ↦
              rw (f, faster)
                (record {
                  counted = count;
                  state = inr (tag, Wins-lead l e (All-lower l r.lowest seen (ground arith) w.1));
                })
          | inr slower ↦
              rw (f, slower)
                (record {
                  counted = count;
                  state = inr (f, Wins-extend r.fastest r.lowest (rw e (ground arith)) w);
                })
        ]
      ]

receive-RaceInv :
    (seen : List ProbeResult) (r : Race) (p : ProbeResult)
    → IsTag p.tag
    → RaceInv seen r
    → RaceInv (seen ++ p ∷ []) (receive r p)
unfolding receive
receive-RaceInv seen r p tag v = note_latency-RaceInv seen p r p.latency refl tag v

-- What is picked once the results `seen` have been received, of all that would arrive: the fastest
-- node of those, or the first candidate if none of them answered.
pub record Picked (n : ℕ) (first : Text) (arrivals : List ProbeResult) (tag : Text) : Type 0 where
  pub seen : List ProbeResult
  pub later : List ProbeResult
  pub splits : arrivals ≡ seen ++ later
  pub verdict :
      ((tag ≡ first) × All Failed seen × ((later ≡ []) ⊎ (n ≤ length seen)))
      ⊎ ((lat : ℕ) × Wins tag lat seen)

Picked-or_first :
    (n : ℕ) (first : Text) (seen later : List ProbeResult) (r : Race)
    → RaceInv seen r
    → (later ≡ []) ⊎ (n ≤ length seen)
    → Picked n first (seen ++ later) (or_first first r)
unfolding or_first
Picked-or_first n first seen later r v last = elim v.state [
  | inl (e, a) ↦
      rw e (record { seen = seen; later = later; splits = refl; verdict = inl (refl, a, last) })
  | inr (e, w) ↦
      rw e (record { seen = seen; later = later; splits = refl; verdict = inr (r.lowest, w) })
]

-- What returns early has a node in the lead.
pub early_lead :
    (n : ℕ) (r : Race) (p : ProbeResult)
    → IsTag p.tag
    → (is_fast_first r p || enough n (receive r p)) ≡ true
    → is_empty (receive r p).fastest ≡ false
unfolding is_fast_first enough receive note_latency better
early_lead n r p tag h = elim (Option-cases p.latency) [
  | inl e ↦ ground (arith, e)
  | inr (l, e) ↦ elim (Bool-cases (is_empty r.fastest)) [
    | inl f ↦ simp (e, f) tag
    | inr f ↦ elim (Bool-cases (ltb l r.lowest)) [
      | inl g ↦ simp (e, f, g) tag
      | inr g ↦ simp (e, f, g) refl
    ]
  ]
]

Picked-early :
    (n : ℕ) (first : Text) (seen later : List ProbeResult) (r : Race)
    → RaceInv seen r
    → is_empty r.fastest ≡ false
    → Picked n first (seen ++ later) r.fastest
Picked-early n first seen later r v f = elim v.state [
  | inl (e, a) ↦ cc
  | inr (e, w) ↦ record { seen = seen; later = later; splits = refl; verdict = inr (r.lowest, w) }
]

collect-Picked :
    (n : ℕ) (first : Text) (seen : List ProbeResult) (r : Race) (ps : List ProbeResult)
    → All (λ p. IsTag p.tag) ps
    → RaceInv seen r
    → Picked n first (seen ++ ps) (collect n first r ps)
unfolding collect
collect-Picked n first seen r [] tags v = Picked-or_first n first seen [] r v (inl refl)
collect-Picked n first seen r (p ∷ ps) tags v =
    let w = receive-RaceInv seen r p tags.0 v in
    elim (Bool-cases (leb n r.received)) [
      | inl full ↦
          rw full (Picked-or_first n first seen (p ∷ ps) r v (inr (ground (arith, v.counted))))
      | inr open_ ↦ elim (Bool-cases (is_fast_first r p || enough n (receive r p))) [
        | inl stop ↦
            rw (open_, stop)
              (subst (λ xs. Picked n first xs (receive r p).fastest) (append_assoc seen (p ∷ []) ps)
                (Picked-early n first (seen ++ p ∷ []) ps (receive r p) w
                  (early_lead n r p tags.0 stop)))
        | inr on ↦
            rw (open_, on)
              (subst (λ xs. Picked n first xs (collect n first (receive r p) ps))
                (append_assoc seen (p ∷ []) ps)
                (collect-Picked n first (seen ++ p ∷ []) (receive r p) ps tags.1 w))
      ]
    ]

-- With nobody blank among the candidates, the node picked is the fastest of those that answered so
-- far; the first candidate is picked with no answer only when the deadline has passed or every
-- candidate has failed.
pub collect-start-Picked :
    (n : ℕ) (first : Text) (arrivals : List ProbeResult)
    → All (λ p. IsTag p.tag) arrivals
    → Picked n first arrivals (collect n first start_race arrivals)
collect-start-Picked n first arrivals tags =
    collect-Picked n first [] start_race arrivals tags
      (record { counted = refl; state = inl (refl, tt) })
