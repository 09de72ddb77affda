-- ===== src/Tuning/Procs.antt =====
-- The bounds of runtime_tuning.go's `resolveMaxProcs`.
use skipi_core.Base.{
  ℕ, zero, suc, ◌+◌, ◌/◌, ◌≤◌, ◌≡◌, refl, Option, none, some, if◌then◌else◌, arith, Text, ℤ, pos,
  negsuc, ltz, to_nat, atoi, leb,
}
use skipi_core.Tuning.{resolve_max_procs, with_override, default_procs}

-- The number of CPUs, at least 1.
abbrev cpus : ℤ → ℕ
cpus n = if ltz n (pos 1) then 1 else to_nat n

-- An override that is a number from 1 up.
abbrev IsOverride : Text → ℕ → Type 0
IsOverride text n = (atoi text ≡ some (pos n)) × (1 ≤ n)

default_bounds :
    (n : ℕ)
    → 1 ≤ n
    → (1 ≤ default_procs n)
      × (default_procs n ≤ n)
      × (2 ≤ n → 2 ≤ default_procs n)
      × (3 ≤ n → default_procs n ≤ (n + 1) / 2)
unfolding default_procs
default_bounds n h = (ground arith, ground arith, λ two. ground arith, λ three. ground arith)

-- The thread count is at least 1 and at most the CPU count. An override from 1 up decides it, cut
-- down to the CPU count. With any other override it is at least 2 where there are two CPUs, and
-- at most half of the CPUs, rounded up, where there are three or more.
pub resolve_max_procs_bounds :
    (num_cpu : ℤ) (override : Text)
    → let procs = resolve_max_procs num_cpu override in
      let n = cpus num_cpu in
      (1 ≤ procs)
      × (procs ≤ n)
      × ((wanted : ℕ) → IsOverride override wanted → procs ≡ (if leb wanted n then wanted else n))
      × (((wanted : ℕ) → ¬ IsOverride override wanted)
          → (2 ≤ n → 2 ≤ procs) × (3 ≤ n → procs ≤ (n + 1) / 2))
unfolding resolve_max_procs
resolve_max_procs_bounds num_cpu override = go (cpus num_cpu) (ground arith) (atoi override) refl
  where
    go :
        (n : ℕ)
        → 1 ≤ n
        → (o : Option ℤ) → atoi override ≡ o
        → (1 ≤ with_override n o)
          × (with_override n o ≤ n)
          × ((wanted : ℕ)
              → IsOverride override wanted
              → with_override n o ≡ (if leb wanted n then wanted else n))
          × (((wanted : ℕ) → ¬ IsOverride override wanted)
              → (2 ≤ n → 2 ≤ with_override n o) × (3 ≤ n → with_override n o ≤ (n + 1) / 2))
    go n h none e =
        let (a, b, c, d) = default_bounds n h in (a, b, λ w i. ground arith, λ no_override. (c, d))
    go n h (some (negsuc k)) e =
        let (a, b, c, d) = default_bounds n h in (a, b, λ w i. ground arith, λ no_override. (c, d))
    go n h (some (pos zero)) e =
        let (a, b, c, d) = default_bounds n h in (a, b, λ w i. ground arith, λ no_override. (c, d))
    go n h (some (pos (suc k))) e = (
      ground arith,
      ground arith,
      λ w i. ground arith,
      λ no_override. absurd (no_override (suc k) (e, omega arith)),
    )
