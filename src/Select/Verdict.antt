-- ===== src/Select/Verdict.antt =====
-- The node that skipicore.go's `FastSelectBestOutbound` picks, told from the results alone.
use skipi_core.Base.{
  ℕ, ◌+◌, ◌/◌, ◌≡◌, refl, sym, ap, ◌∙◌, ◌⊎◌, inl, inr, Bool, true, false, not, ◌||◌, ◌&&◌, Option,
  none, some, List, [], ◌∷◌, ◌++◌, arith, ltb, leb, if◌then◌else◌, Bool-cases, Option-cases, Text,
  is_empty, is_some, length, length-append, All,
}
use skipi_core.Select.{
  ProbeResult, Race, start_race, receive, note_latency, better, is_fast_first, enough, or_first,
  collect,
}
use skipi_core.Select.Candidates.{IsTag}
use skipi_core.Select.Fastest.{early_lead}

unfoldable pub answered : List ProbeResult → Bool
answered [] = false
answered (p ∷ ps) = is_some p.latency || answered ps

-- The first node that answered took less than 350 ms.
unfoldable pub quick : List ProbeResult → Bool
quick [] = false
quick (p ∷ ps) = elim p.latency [ none ↦ quick ps | some l ↦ ltb l 350 ]

-- Results after which there is no waiting for more although some of the `n` are missing: a quick
-- answer, or an answer with half of the results or with three.
unfoldable pub early : ℕ → List ProbeResult → Bool
unfolding quick answered
early n xs = quick xs || (answered xs && (leb ((n + 1) / 2) (length xs) || leb 3 (length xs)))

unfoldable pub decided : ℕ → List ProbeResult → Bool
unfolding early
decided n xs = leb n (length xs) || early n xs

-- Behind the results `seen`, as many more as it takes until it is decided.
unfoldable pub settled : ℕ → List ProbeResult → List ProbeResult → List ProbeResult
unfolding decided
settled n seen [] = seen
settled n seen (p ∷ ps) =
    let more = settled n (seen ++ p ∷ []) ps in if decided n seen then seen else more

lead : Text → Option ℕ → Option (Text × ℕ) → Option (Text × ℕ)
lead tag none later = later
lead tag (some l) none = some (tag, l)
lead tag (some l) (some (t, m)) = if ltb m l then some (t, m) else some (tag, l)

-- The answer with the lowest latency, of several such the one that came first.
unfoldable pub quickest : List ProbeResult → Option (Text × ℕ)
unfolding lead
quickest [] = none
quickest (p ∷ ps) = lead p.tag p.latency (quickest ps)

unfoldable pub winner : Text → Option (Text × ℕ) → Text
winner first none = first
winner first (some (tag, l)) = tag

-- A result behind the others.
ahead : Option (Text × ℕ) → Text → Option ℕ → Option (Text × ℕ)
ahead q tag none = q
ahead none tag (some l) = some (tag, l)
ahead (some (t, m)) tag (some l) = if ltb l m then some (tag, l) else some (t, m)

lead-ahead :
    (t u : Text) (o s : Option ℕ) (q : Option (Text × ℕ))
    → lead t o (ahead q u s) ≡ ahead (lead t o q) u s
unfolding lead ahead
lead-ahead t u none s q = refl
lead-ahead t u (some l) none q = refl
lead-ahead t u (some l) (some k) none = refl
lead-ahead t u (some l) (some k) (some (v, m)) = elim (Bool-cases (ltb m l)) [
  | inl a ↦ elim (Bool-cases (ltb k m)) [
    | inl b ↦ let c : ltb k l ≡ true = ground (arith, a, b) in rw (a, b, lead) (rw c refl)
    | inr b ↦ rw (a, b, lead) (rw a refl)
  ]
  | inr a ↦ elim (Bool-cases (ltb k m)) [
    | inl b ↦ rw (a, b, lead) refl
    | inr b ↦ let c : ltb k l ≡ false = ground (arith, a, b) in rw (a, b, lead) (rw (a, c) refl)
  ]
]

quickest-append :
    (xs : List ProbeResult) (p : ProbeResult)
    → quickest (xs ++ p ∷ []) ≡ ahead (quickest xs) p.tag p.latency
unfolding quickest lead ahead
quickest-append [] p = go p.latency
  where
    go : (o : Option ℕ) → lead p.tag o none ≡ ahead none p.tag o
    go none = refl
    go (some l) = refl
quickest-append (x ∷ xs) p =
    ap (lead x.tag x.latency) (quickest-append xs p)
    ∙ lead-ahead x.tag p.tag x.latency p.latency (quickest xs)

answered-append :
    (xs : List ProbeResult) (p : ProbeResult)
    → answered (xs ++ p ∷ []) ≡ (answered xs || is_some p.latency)
unfolding answered
answered-append [] p = ground arith
answered-append (x ∷ xs) p = ground (arith, answered-append xs p)

quick-append :
    (xs : List ProbeResult) (p : ProbeResult)
    → quick (xs ++ p ∷ []) ≡ (if answered xs then quick xs else quick (p ∷ []))
unfolding quick answered
quick-append [] p = refl
quick-append (x ∷ xs) p = elim (Option-cases x.latency) [
  | inl e ↦ rw (e, quick, answered) (quick-append xs p)
  | inr (l, e) ↦ rw (e, quick, answered) refl
]

-- The variables of the loop after the results `seen`.
record Led (seen : List ProbeResult) (r : Race) : Type 0 where
  counted : r.received ≡ length seen
  leader :
      ((is_empty r.fastest ≡ true) × (quickest seen ≡ none) × (answered seen ≡ false))
      ⊎ ((is_empty r.fastest ≡ false)
          × (quickest seen ≡ some (r.fastest, r.lowest))
          × (answered seen ≡ true))

module _ (seen : List ProbeResult) (p : ProbeResult) where
  note_latency-Led :
      (r : Race) (o : Option ℕ)
      → p.latency ≡ o
      → IsTag p.tag
      → Led seen r
      → Led (seen ++ p ∷ []) (note_latency (record r { received = r.received + 1 }) p.tag o)
  unfolding note_latency better ahead
  note_latency-Led r o e tag v = record {
    counted = count o;
    leader = elim v.leader [
      | inl (f, q, a) ↦ first_answer o e f q a
      | inr (f, q, a) ↦ other_answer o e f q a
    ];
  }
    where
      all :
          (o : Option ℕ) → p.latency ≡ o → quickest (seen ++ p ∷ []) ≡ ahead (quickest seen) p.tag o
      all o e = quickest-append seen p ∙ ap (ahead (quickest seen) p.tag) e

      after : Option ℕ → Race
      after o = note_latency (record r { received = r.received + 1 }) p.tag o

      Leads : Race → Type 0
      Leads s =
          ((is_empty s.fastest ≡ true)
            × (quickest (seen ++ p ∷ []) ≡ none)
            × (answered (seen ++ p ∷ []) ≡ false))
          ⊎ ((is_empty s.fastest ≡ false)
              × (quickest (seen ++ p ∷ []) ≡ some (s.fastest, s.lowest))
              × (answered (seen ++ p ∷ []) ≡ true))

      count : (o : Option ℕ) → (after o).received ≡ length (seen ++ p ∷ [])
      count none = omega (arith, v.counted, length-append seen (p ∷ []))
      count (some l) = elim (Bool-cases (is_empty r.fastest || ltb l r.lowest)) [
        | inl b ↦ rw b (omega (arith, v.counted, length-append seen (p ∷ [])))
        | inr b ↦ rw b (omega (arith, v.counted, length-append seen (p ∷ [])))
      ]

      first_answer :
          (o : Option ℕ)
          → p.latency ≡ o
          → is_empty r.fastest ≡ true
          → quickest seen ≡ none
          → answered seen ≡ false
          → Leads (after o)
      first_answer none e f q a =
          inl (f, all none e ∙ q, ground (arith, answered-append seen p, e, a))
      first_answer (some l) e f q a =
          rw f (inr (tag, all (some l) e ∙ rw q refl, ground (arith, answered-append seen p, e)))

      other_answer :
          (o : Option ℕ)
          → p.latency ≡ o
          → is_empty r.fastest ≡ false
          → quickest seen ≡ some (r.fastest, r.lowest)
          → answered seen ≡ true
          → Leads (after o)
      other_answer none e f q a = inr (f, all none e ∙ q, ground (arith, answered-append seen p, a))
      other_answer (some l) e f q a = elim (Bool-cases (ltb l r.lowest)) [
        | inl b ↦
            rw (f, b)
              (inr
                (tag, all (some l) e ∙ rw (q, b) refl, ground (arith, answered-append seen p, a)))
        | inr b ↦
            rw (f, b)
              (inr (f, all (some l) e ∙ rw (q, b) refl, ground (arith, answered-append seen p, a)))
      ]

receive-Led :
    (seen : List ProbeResult) (r : Race) (p : ProbeResult)
    → IsTag p.tag
    → Led seen r
    → Led (seen ++ p ∷ []) (receive r p)
unfolding receive
receive-Led seen r p tag v = note_latency-Led seen p r p.latency refl tag v

Led-answered :
    (seen : List ProbeResult) (r : Race) → Led seen r → is_empty r.fastest ≡ not (answered seen)
Led-answered seen r v = elim v.leader [
  | inl (f, q, a) ↦ rw (f, a) refl
  | inr (f, q, a) ↦ rw (f, a) refl
]

or_first-winner :
    (first : Text) (seen : List ProbeResult) (r : Race)
    → Led seen r
    → or_first first r ≡ winner first (quickest seen)
unfolding or_first winner
or_first-winner first seen r v = elim v.leader [
  | inl (f, q, a) ↦ rw (f, q) refl
  | inr (f, q, a) ↦ rw (f, q) refl
]

fastest-winner :
    (first : Text) (seen : List ProbeResult) (r : Race)
    → Led seen r
    → is_empty r.fastest ≡ false
    → r.fastest ≡ winner first (quickest seen)
unfolding winner
fastest-winner first seen r v f = elim v.leader [ inl (g, q, a) ↦ cc | inr (g, q, a) ↦ rw q refl ]

late_answer : (r : Race) (p : ProbeResult) → is_empty r.fastest ≡ false → is_fast_first r p ≡ false
unfolding is_fast_first
late_answer r p f = elim (Option-cases p.latency) [
  | inl e ↦ rw (e, is_fast_first) refl
  | inr (l, e) ↦ rw (e, f, is_fast_first) refl
]

first_answer-quick :
    (r : Race) (p : ProbeResult) → is_empty r.fastest ≡ true → is_fast_first r p ≡ quick (p ∷ [])
unfolding is_fast_first quick
first_answer-quick r p f = elim (Option-cases p.latency) [
  | inl e ↦ rw (e, is_fast_first, quick) refl
  | inr (l, e) ↦ rw (e, f, is_fast_first, quick) refl
]

-- The tests for an early return, after one more result.
receive-quick :
    (n : ℕ) (seen : List ProbeResult) (r : Race) (p : ProbeResult)
    → Led seen r
    → early n seen ≡ false
    → is_fast_first r p ≡ quick (seen ++ p ∷ [])
unfolding early
receive-quick n seen r p v e =
    let x = Led-answered seen r v in
    elim (Bool-cases (answered seen)) [
      | inl a ↦
          let slow : quick seen ≡ false = ground (arith, e) in
          late_answer r p (x ∙ ap not a) ∙ sym (quick-append seen p ∙ rw a slow)
      | inr a ↦ first_answer-quick r p (x ∙ ap not a) ∙ sym (quick-append seen p ∙ rw a refl)
    ]

receive-early :
    (n : ℕ) (seen : List ProbeResult) (r : Race) (p : ProbeResult)
    → IsTag p.tag
    → Led seen r
    → early n seen ≡ false
    → (is_fast_first r p || enough n (receive r p)) ≡ early n (seen ++ p ∷ [])
unfolding early enough
receive-early n seen r p tag v e =
    let w = receive-Led seen r p tag v in
    let x = Led-answered (seen ++ p ∷ []) (receive r p) w in
    ground (arith, receive-quick n seen r p v e, x, w.counted)

settled-decided :
    (n : ℕ) (seen ps : List ProbeResult) → decided n seen ≡ true → settled n seen ps ≡ seen
unfolding settled
settled-decided n seen [] e = refl
settled-decided n seen (p ∷ ps) e = rw (e, settled) refl

collect-winner :
    (n : ℕ) (first : Text) (seen : List ProbeResult) (r : Race) (ps : List ProbeResult)
    → All (λ p. IsTag p.tag) ps
    → Led seen r
    → early n seen ≡ false
    → collect n first r ps ≡ winner first (quickest (settled n seen ps))
unfolding collect settled decided
collect-winner n first seen r [] tags v e = or_first-winner first seen r v
collect-winner n first seen r (p ∷ ps) tags v e =
    let w = receive-Led seen r p tags.0 v in
    let same = receive-early n seen r p tags.0 v e in
    elim (Bool-cases (leb n r.received)) [
      | inl full ↦
          let d : decided n seen ≡ true = ground (arith, full, v.counted) in
          rw (full, d, settled) (or_first-winner first seen r v)
      | inr open_ ↦
          let d : decided n seen ≡ false = ground (arith, open_, v.counted, e) in
          elim (Bool-cases (is_fast_first r p || enough n (receive r p))) [
            | inl stop ↦
                let now : decided n (seen ++ p ∷ []) ≡ true = ground (arith, stop, same) in
                rw (open_, stop, d, settled)
                  (rw (settled-decided n (seen ++ p ∷ []) ps now) (
                    fastest-winner first (seen ++ p ∷ []) (receive r p) w
                      (early_lead n r p tags.0 stop)))
            | inr on ↦
                rw (open_, on, d, settled)
                  (collect-winner n first (seen ++ p ∷ []) (receive r p) ps tags.1 w
                    (sym same ∙ on))
          ]
    ]

-- With nobody blank among the candidates, the node picked is, of the shortest run of first results
-- that decides, or of all results if none does, the one that answered with the lowest latency, of
-- several such the one whose answer came first, and the first candidate if none of them answered.
-- Results decide if they are the results of all `n` candidates, if the first node that answered
-- took less than 350 ms, or if a node has answered and they are half of `n`, rounded up, or three.
pub collect-start-winner :
    (n : ℕ) (first : Text) (arrivals : List ProbeResult)
    → All (λ p. IsTag p.tag) arrivals
    → collect n first start_race arrivals ≡ winner first (quickest (settled n [] arrivals))
unfolding early quick answered quickest
collect-start-winner n first arrivals tags =
    collect-winner n first [] start_race arrivals tags
      (record { counted = refl; leader = inl (refl, refl, refl) }) refl
