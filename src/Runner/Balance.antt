-- ===== src/Runner/Balance.antt =====
-- How often what a process makes is closed: each once, but for the one that is held.
use skipi_core.Base.{
  ℕ, suc, ◌≡◌, Bool, true, false, not, ◌&&◌, Option, none, some, ◌==◌, ◌<◌, if◌then◌else◌, ltb,
  arith, ==_refl,
}
use skipi_core.Runner.{bump}

pub is_held : Option ℕ → ℕ → Bool
is_held none i = false
is_held (some d) i = d == i

-- Of `made` things, each was closed once, but for the held one, which was not; nothing else was
-- closed.
pub IsBalanced : ℕ → (ℕ → ℕ) → Option ℕ → Type 0
IsBalanced made closes held =
    ((i : ℕ) → closes i ≡ (if ltb i made && not (is_held held i) then 1 else 0))
    × ((i : ℕ) → is_held held i ≡ true → i < made)

pub IsBalanced-none : IsBalanced 0 (λ i. 0) none
unfolding IsBalanced is_held
IsBalanced-none = (λ i. ground arith, λ i e. ground (arith, e))

pub IsBalanced-made :
    (n : ℕ) (closes : ℕ → ℕ) → IsBalanced n closes none → IsBalanced (suc n) closes (some n)
unfolding IsBalanced is_held
IsBalanced-made n closes b = (λ i. ground (arith, b.0 i), λ i e. ground (arith, e))

pub IsBalanced-closed :
    (n : ℕ) (closes : ℕ → ℕ) (d : ℕ)
    → IsBalanced n closes (some d)
    → IsBalanced n (bump d closes) none
unfolding IsBalanced is_held bump
IsBalanced-closed n closes d b =
    (λ i. ground (arith, b.0 i, b.0 d, b.1 d), λ i e. ground (arith, e))

-- What is held is not closed.
pub IsBalanced-held :
    (made : ℕ) (closes : ℕ → ℕ) (l : ℕ) → IsBalanced made closes (some l) → closes l ≡ 0
unfolding IsBalanced is_held
IsBalanced-held made closes l b = ground (arith, b.0 l, ==_refl l)
