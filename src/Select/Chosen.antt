-- ===== src/Select/Chosen.antt =====
-- That skipicore.go's `FastSelectBestOutbound` returns a candidate.
use skipi_core.Base.{
  ℕ, ◌≡◌, refl, sym, subst, ◌⊎◌, inl, inr, true, false, List, [], ◌∷◌, ◌++◌, Bool-cases, Text,
  is_empty, length, All, split, trim_space,
}
use skipi_core.Core.{World, Reply}
use skipi_core.Probe.{Result, ok, err, start_test_instance}
use skipi_core.Select.{
  ProbeResult, start_race, collect, parse_candidates, race, choose, fast_select, trimmed,
}
use skipi_core.Select.Candidates.{IsTag, parse_candidates-All}
use skipi_core.Select.Fastest.{Heard, Picked, collect-start-Picked}

abbrev pub IsOneOf : Text → List Text → Type 0
IsOneOf t [] = ⊥
IsOneOf t (c ∷ cs) = (t ≡ c) ⊎ IsOneOf t cs

IsOneOf-IsTag : (t : Text) (cs : List Text) → All IsTag cs → IsOneOf t cs → IsTag t
IsOneOf-IsTag t [] a h = absurd h
IsOneOf-IsTag t (c ∷ cs) a (inl e) = subst IsTag (sym e) a.0
IsOneOf-IsTag t (c ∷ cs) a (inr h) = IsOneOf-IsTag t cs a.1 h

-- The results of probes of candidates.
abbrev pub AllOneOf : List Text → List ProbeResult → Type 0
AllOneOf cs ps = All (λ p. IsOneOf p.tag cs) ps

AllOneOf-IsTag :
    (cs : List Text) (ps : List ProbeResult)
    → All IsTag cs
    → AllOneOf cs ps
    → All (λ p. IsTag p.tag) ps
AllOneOf-IsTag cs [] a h = tt
AllOneOf-IsTag cs (p ∷ ps) a h = (IsOneOf-IsTag p.tag cs a h.0, AllOneOf-IsTag cs ps a h.1)

AllOneOf-left :
    (cs : List Text) (xs ys : List ProbeResult) → AllOneOf cs (xs ++ ys) → AllOneOf cs xs
AllOneOf-left cs [] ys h = tt
AllOneOf-left cs (x ∷ xs) ys h = (h.0, AllOneOf-left cs xs ys h.1)

Heard-IsOneOf :
    (cs : List Text) (t : Text) (lat : ℕ) (ps : List ProbeResult)
    → AllOneOf cs ps
    → Heard t lat ps
    → IsOneOf t cs
Heard-IsOneOf cs t lat [] h e = absurd e
Heard-IsOneOf cs t lat (p ∷ ps) h (inl e) = subst (λ x. IsOneOf x cs) e.0 h.0
Heard-IsOneOf cs t lat (p ∷ ps) h (inr e) = Heard-IsOneOf cs t lat ps h.1 e

Picked-IsOneOf :
    (cs : List Text) (n : ℕ) (first : Text) (arrivals : List ProbeResult) (t : Text)
    → IsOneOf first cs
    → AllOneOf cs arrivals
    → Picked n first arrivals t
    → IsOneOf t cs
Picked-IsOneOf cs n first arrivals t one h v = elim v.verdict [
  | inl (e, failed, rest) ↦ subst (λ x. IsOneOf x cs) (sym e) one
  | inr (lat, wins) ↦
      Heard-IsOneOf cs t lat v.seen
        (AllOneOf-left cs v.seen v.later (subst (AllOneOf cs) v.splits h)) wins.0
]

choose-IsOneOf :
    (cs : List Text) (w : World) (reply : Reply) (arrivals : List ProbeResult)
    → All IsTag cs
    → AllOneOf cs arrivals
    → (((choose cs w reply arrivals).1 ≡ []) × (cs ≡ []))
      ⊎ IsOneOf (choose cs w reply arrivals).1 cs
unfolding choose race
choose-IsOneOf [] w reply arrivals a h = inl (refl, refl)
choose-IsOneOf (c ∷ []) w reply arrivals a h = inr (inl refl)
choose-IsOneOf (c ∷ d ∷ cs) w reply arrivals a h = inr (go (start_test_instance w reply).1 refl)
  where
    go :
        (r : Result ℕ)
        → (start_test_instance w reply).1 ≡ r
        → IsOneOf (race c (d ∷ cs) w reply arrivals).1 (c ∷ d ∷ cs)
    go (err e) q = rw (q, race) (inl refl)
    go (ok i) q =
        let e : (race c (d ∷ cs) w reply arrivals).1
            ≡ collect (length (c ∷ d ∷ cs)) c start_race arrivals =
          rw (q, race) refl in
        subst (λ x. IsOneOf x (c ∷ d ∷ cs)) (sym e)
          (Picked-IsOneOf (c ∷ d ∷ cs) (length (c ∷ d ∷ cs)) c arrivals
            (collect (length (c ∷ d ∷ cs)) c start_race arrivals) (inl refl) h
            (collect-start-Picked (length (c ∷ d ∷ cs)) c arrivals
              (AllOneOf-IsTag (c ∷ d ∷ cs) arrivals a h)))

none_of : (t : Text) → is_empty t ≡ true → parse_candidates t ≡ []
unfolding parse_candidates trimmed split trim_space
none_of [] q = refl
none_of (c ∷ t) q = cc

-- With a configuration, and with results of probes of candidates only, what is returned is one of
-- the candidates, whether or not an instance starts and whichever results arrive in time; without
-- any candidate it is the empty text.
pub fast_select-IsOneOf :
    (config tags : Text) (w : World) (reply : Reply) (arrivals : List ProbeResult)
    → is_empty config ≡ false
    → AllOneOf (parse_candidates tags) arrivals
    → let t = (fast_select config tags w reply arrivals).1 in
      ((t ≡ []) × (parse_candidates tags ≡ [])) ⊎ IsOneOf t (parse_candidates tags)
unfolding fast_select
fast_select-IsOneOf config tags w reply arrivals e h = elim (Bool-cases (is_empty tags)) [
  | inl q ↦ inl (rw (e, q) refl, none_of tags q)
  | inr q ↦
      rw (e, q)
        (choose-IsOneOf (parse_candidates tags) w reply arrivals (parse_candidates-All tags) h)
]
