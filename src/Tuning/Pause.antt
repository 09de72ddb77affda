-- ===== src/Tuning/Pause.antt =====
-- Balance of runtime_tuning.go's garbage collector pauses over every order of calls.
use skipi_core.Base.{
  ℕ, zero, suc, ◌+◌, ◌≡◌, ◌≢◌, refl, ap, ◌∙◌, inl, inr, Bool, true, false, List, [], ◌∷◌, ◌++◌,
  ◌==◌, if◌then◌else◌, Bool-cases, arith, length, ℤ, negsuc,
}
use skipi_core.Tuning.{
  Gc, hold, pause, spend, release, resume, Call, pauses, resumes, step, run, idle,
}

-- The functions that were returned and not yet called.
unfoldable pub open_count : List Bool → ℕ
open_count [] = 0
open_count (true ∷ ts) = suc (open_count ts)
open_count (false ∷ ts) = open_count ts

-- Nobody holds the pause and the percentage is `p`, or somebody does, it is -1 and `p` is kept.
pub record Inv (p : ℤ) (g : Gc) : Type 0 where
  pub counted : g.holders ≡ open_count g.tokens
  pub percent_is : g.percent ≡ (if g.holders == 0 then p else negsuc 0)
  pub previous_is : g.holders ≢ 0 → g.previous ≡ p

open_count-append : (ts : List Bool) → open_count (ts ++ true ∷ []) ≡ suc (open_count ts)
unfolding open_count
open_count-append [] = refl
open_count-append (true ∷ ts) = ap suc (open_count-append ts)
open_count-append (false ∷ ts) = open_count-append ts

open_count-spend :
    (ts : List Bool) (i : ℕ)
    → open_count ts ≡ (if (spend ts i).0 then 1 else 0) + open_count (spend ts i).1
unfolding open_count spend
open_count-spend [] i = omega arith
open_count-spend (true ∷ ts) zero = omega arith
open_count-spend (false ∷ ts) zero = omega arith
open_count-spend (true ∷ ts) (suc i) = omega (arith, open_count-spend ts i)
open_count-spend (false ∷ ts) (suc i) = omega (arith, open_count-spend ts i)

pause-Inv : (p : ℤ) (g : Gc) → Inv p g → Inv p (pause g).0
unfolding pause hold
pause-Inv p g v = record {
  counted = ground (arith, v.counted, open_count-append g.tokens);
  percent_is = ground (arith, v.percent_is);
  previous_is = λ n. elim (Bool-cases (g.holders == 0)) [
    | inl e ↦ ground (arith, v.percent_is)
    | inr e ↦ ground (arith, v.previous_is (ground arith))
  ];
}

resume-Inv : (p : ℤ) (g : Gc) (i : ℕ) → Inv p g → Inv p (resume g i)
unfolding resume release
resume-Inv p g i v =
    let c = open_count-spend g.tokens i in
    elim (Bool-cases (spend g.tokens i).0) [
      | inl e ↦
          let held : g.holders ≡ suc (open_count (spend g.tokens i).1) =
            ground (arith, v.counted, c) in
          let kept = v.previous_is (ground arith) in
          rw e (record {
            counted = ground arith;
            percent_is = ground (arith, v.percent_is);
            previous_is = λ n. ground arith;
          })
      | inr e ↦ rw e v
    ]

step-Inv : (p : ℤ) (g : Gc) (c : Call) → Inv p g → Inv p (step g c)
unfolding step
step-Inv p g pauses v = pause-Inv p g v
step-Inv p g (resumes i) v = resume-Inv p g i v

run-Inv : (p : ℤ) (g : Gc) (cs : List Call) → Inv p g → Inv p (run g cs)
unfolding run
run-Inv p g [] v = v
run-Inv p g (c ∷ cs) v = run-Inv p (step g c) cs (step-Inv p g c v)

-- After any calls of `pauseGCForStartup` and of the functions it returned, in any order and each
-- called any number of times, the collector's percentage is the one before the first start if
-- every returned function was called, and -1 as long as one was not.
pub run-percent :
    (p : ℤ) (cs : List Call)
    → let g = run (idle p) cs in g.percent ≡ (if open_count g.tokens == 0 then p else negsuc 0)
unfolding run open_count
run-percent p cs =
    let g = run (idle p) cs in
    let v : Inv p g =
      run-Inv p (idle p) cs
        (record { counted = refl; percent_is = refl; previous_is = λ n. absurd (n refl) }) in
    v.percent_is ∙ rw v.counted refl

spend-append : (ts : List Bool) → spend (ts ++ true ∷ []) (length ts) ≡ (true, ts ++ false ∷ [])
unfolding spend
spend-append [] = refl
spend-append (t ∷ ts) = rw (spend-append ts) refl

-- A pause and the call of the function that it returned leave the percentage and the number of
-- holders as they were.
pub resume-pause :
    (g : Gc)
    → let h = resume (pause g).0 (pause g).1 in (h.percent ≡ g.percent) × (h.holders ≡ g.holders)
unfolding resume pause hold release
resume-pause g = rw (spend-append g.tokens) (ground arith)
