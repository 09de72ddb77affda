-- ===== src/Bridge/Handles.antt =====
-- The handles that desktop/bridge/bridge.go gives out.
use skipi_core.Base.{ℕ, ◌+◌, ◌^◌, ◌<◌, ◌≡◌, ◌≢◌, false, none, some, arith, ==_iff, ==_refl}
use skipi_core.Core.{new_controller}
use skipi_core.Bridge.{Runtime, Process, controller_locked, create_controller, following}

pub following_bounds : (n : ℕ) → (0 < following n) × (following n < 2 ^ 64)
unfolding following
following_bounds n = (ground arith, ground arith)

following_next : (n : ℕ) → n + 1 < 2 ^ 64 → following n ≡ n + 1
unfolding following
following_next n b = ground arith

-- The handles above the last one have no controller.
abbrev pub IsNumbered : Runtime → Type 0
IsNumbered u = (h : ℕ) → u.next_handle < h → u.controllers h ≡ none

-- A new handle is a number other than 0 below 2 ^ 64 that has an idle controller, and no other
-- handle and no other runtime changes. As long as fewer than 2 ^ 64 - 1 handles were given out it
-- is one that no controller had.
pub create_controller_lem :
    (p : Process) (r : ℕ)
    → let (q, h) = create_controller r p in
      (h ≢ 0)
      × (h < 2 ^ 64)
      × (controller_locked q r h ≡ some (new_controller false))
      × ((k : ℕ) → k ≢ h → (q.runtimes r).controllers k ≡ (p.runtimes r).controllers k)
      × ((s : ℕ) → s ≢ r → q.runtimes s ≡ p.runtimes s)
      × (IsNumbered (p.runtimes r)
          → (p.runtimes r).next_handle + 1 < 2 ^ 64
          → ((p.runtimes r).controllers h ≡ none) × IsNumbered (q.runtimes r))
unfolding create_controller controller_locked following
create_controller_lem p r =
    let n = (p.runtimes r).next_handle in
    let (positive, small) = following_bounds n in
    (
      ground (arith, positive),
      small,
      rw (==_refl r) (ground (arith, positive, ==_refl (following n))),
      λ k d. rw (==_refl r) (ground (arith, d)),
      λ s d. ground (arith, ==_iff r s),
      λ v b. rw (==_refl r) (
        v (following n) (ground (arith, following_next n b)),
        λ k lt. ground (arith, following_next n b, v k),
      ),
    )
