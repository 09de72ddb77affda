-- ===== src/Probe/Delay.antt =====
-- The delay that skipicore.go's `measureInstanceDelay` reports is the least one that it measured.
use skipi_core.Base.{
  ℕ, ◌≡◌, refl, Bool, true, false, Option, none, List, [], ◌∷◌, if◌then◌else◌, arith, ltb, ℤ, pos,
  negsuc,
}
use skipi_core.Probe.{
  Attempt, no_request, no_response, bad_status, bad_body, done, ProbeError, Progress, after_attempt,
  attempts, measure_delay,
}

heard_one : Attempt → List ℕ → List ℕ
heard_one (done d) ds = d ∷ ds
heard_one no_request ds = ds
heard_one no_response ds = ds
heard_one bad_status ds = ds
heard_one bad_body ds = ds

-- The delays of the attempts that succeed, up to the first attempt that finds the deadline passed.
unfoldable pub heard : List (Bool × Attempt) → List ℕ
unfolding heard_one
heard [] = []
heard ((late, a) ∷ rest) = if late then [] else heard_one a (heard rest)

unfoldable pub minimum : ℕ → List ℕ → ℕ
minimum d [] = d
minimum d (e ∷ es) = minimum (if ltb e d then e else d) es

attempts_some :
    (d : ℕ) (e : Option ProbeError) (rounds : List (Bool × Attempt))
    → attempts (record { min_duration = pos d; success = true; last_error = e }) rounds
      ≡ (pos (minimum d (heard rounds)), none)
unfolding attempts heard minimum after_attempt
attempts_some d e [] = refl
attempts_some d e ((true, a) ∷ rest) = refl
attempts_some d e ((false, done f) ∷ rest) =
    ground (arith, attempts_some f e rest, attempts_some d e rest)
attempts_some d e ((false, no_request) ∷ rest) = attempts_some d _ rest
attempts_some d e ((false, no_response) ∷ rest) = attempts_some d _ rest
attempts_some d e ((false, bad_status) ∷ rest) = attempts_some d _ rest
attempts_some d e ((false, bad_body) ∷ rest) = attempts_some d _ rest

-- The report that the delays call for.
unfoldable pub reported : List ℕ → ℤ
unfolding minimum
reported [] = negsuc 0
reported (d ∷ ds) = pos (minimum d ds)

abbrev nothing : Option ProbeError → Progress
nothing e = record { min_duration = negsuc 0; success = false; last_error = e }

attempts_none :
    (e : Option ProbeError) (rounds : List (Bool × Attempt))
    → (attempts (nothing e) rounds).0 ≡ reported (heard rounds)
unfolding attempts heard after_attempt reported
attempts_none e [] = refl
attempts_none e ((true, a) ∷ rest) = refl
attempts_none e ((false, done f) ∷ rest) = rw (attempts_some f e rest) refl
attempts_none e ((false, no_request) ∷ rest) = attempts_none _ rest
attempts_none e ((false, no_response) ∷ rest) = attempts_none _ rest
attempts_none e ((false, bad_status) ∷ rest) = attempts_none _ rest
attempts_none e ((false, bad_body) ∷ rest) = attempts_none _ rest

-- The report of two attempts is the least delay among those that succeeded before the deadline
-- had passed, and -1 if there is none.
pub measure_delay-minimum :
    (first second : Bool × Attempt)
    → (measure_delay first second).0 ≡ reported (heard (first ∷ second ∷ []))
unfolding measure_delay
measure_delay-minimum first second = attempts_none none (first ∷ second ∷ [])
