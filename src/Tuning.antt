-- ===== src/Tuning.antt =====
-- runtime_tuning.go: how many threads run Go code, and the garbage collector's pause during a
-- start. An int holds numCPU + 1.
pub mod Procs
pub mod Pause
pub mod Tests
use skipi_core.Base.{
  ℕ, zero, suc, ◌+◌, ◌-◌, ◌/◌, Bool, true, false, Option, none, some, List, [], ◌∷◌, ◌++◌, ◌==◌,
  ltb, if◌then◌else◌, Text, ℤ, pos, negsuc, ltz, to_nat, atoi, length,
}

-- The number that is left once an override is ruled out.
default_procs : ℕ → ℕ
default_procs cpus =
    let half = (cpus + 1) / 2 in
    let procs = if ltb half 2 then 2 else half in if ltb cpus procs then cpus else procs

with_override : ℕ → Option ℤ → ℕ
unfolding default_procs
with_override cpus none = default_procs cpus
with_override cpus (some parsed) =
    if ltz parsed (pos 1)
    then default_procs cpus
    else (if ltz (pos cpus) parsed then cpus else to_nat parsed)

-- `resolveMaxProcs`
unfoldable pub resolve_max_procs : ℤ → Text → ℕ
unfolding with_override
resolve_max_procs num_cpu override =
    with_override (if ltz num_cpu (pos 1) then 1 else to_nat num_cpu) (atoi override)

-- The collector's percentage, the variables `gcPauseHolders` and `gcPausePrevious`, and for each
-- function that `pauseGCForStartup` has returned whether its `once` is still to run.
pub record Gc : Type 0 where
  pub percent : ℤ
  pub holders : ℕ
  pub previous : ℤ
  pub tokens : List Bool

-- `debug.SetGCPercent(-1)` under `gcPauseHolders == 0`.
hold : Gc → Gc
hold g = if g.holders == 0 then record g { previous = g.percent; percent = negsuc 0 } else g

-- `pauseGCForStartup`; the function that it returns is known by its place among the tokens.
unfoldable pub pause : Gc → Gc × ℕ
unfolding hold
pause g =
    let h = hold g in
    (record h { holders = h.holders + 1; tokens = g.tokens ++ true ∷ [] }, length g.tokens)

-- Whether the `once` at this place is still to run, and the tokens with it spent.
unfoldable pub spend : List Bool → ℕ → Bool × List Bool
spend [] i = (false, [])
spend (t ∷ ts) zero = (t, false ∷ ts)
spend (t ∷ ts) (suc i) = let (live, rest) = spend ts i in (live, t ∷ rest)

release : Gc → Gc
release g =
    if g.holders - 1 == 0
    then record g { holders = g.holders - 1; percent = g.previous }
    else record g { holders = g.holders - 1 }

-- A call of a function that `pauseGCForStartup` returned.
unfoldable pub resume : Gc → ℕ → Gc
unfolding release spend
resume g i =
    let (live, tokens) = spend g.tokens i in
    if live then release (record g { tokens = tokens }) else g

pub data Call : Type 0 where
  pauses : Call
  resumes : ℕ → Call

unfoldable pub step : Gc → Call → Gc
step g pauses = (pause g).0
step g (resumes i) = resume g i

unfoldable pub run : Gc → List Call → Gc
run g [] = g
run g (c ∷ cs) = run (step g c) cs

-- Before any start, at the percentage `p`.
abbrev pub idle : ℤ → Gc
idle p = record { percent = p; holders = 0; previous = pos 0; tokens = [] }
