-- ===== src/Bridge/Exclusive.antt =====
-- That desktop/bridge/bridge.go runs one session at a time, and what a start and a stop say then.
use skipi_core.Base.{
  ℕ, ◌≡◌, refl, sym, subst, ◌∙◌, inl, inr, Bool, true, false, not, ◌||◌, none, some, List,
  Bool-cases, Option-cases, arith, Text, ℤ, pos, ltz, is_empty, trim_space, is_some, ==_refl,
}
use skipi_core.Core.{Controller, Reply}
use skipi_core.Bridge.{
  Process, controller_locked, release, is_holder, held_elsewhere, start, stop, Call, run,
  active_handle_of, clear_active, clear_process_active,
}
use skipi_core.Bridge.Session.{locked, free, stop-IsLeased, run-IsLeased}
use skipi_core.Bridge.Lease.{IsLeased}

-- From a process in which each controller that runs holds the lease, as in a new one, after any
-- calls of any runtimes' methods, whatever Xray answers, two controllers that run are the same
-- one, and its handle is what `ActiveHandle` of its runtime returns.
pub run-single :
    (p : Process) (ks : List Call) (r h s k : ℕ) (c d : Controller)
    → IsLeased p
    → ((run p ks).runtimes r).controllers h ≡ some c
    → ((run p ks).runtimes s).controllers k ≡ some d
    → c.is_running ≡ true
    → d.is_running ≡ true
    → (r ≡ s) × (h ≡ k) × (active_handle_of r (run p ks) ≡ h)
unfolding active_handle_of
run-single p ks r h s k c d v at to on also =
    let w = run-IsLeased p ks v in
    let (a, b, e) = w.holds r h c at on in
    let (f, g, x) = w.holds s k d to also in (ground (arith, a, f), ground (arith, b, g), e)

-- While a controller runs and holds the lease, no `Start` of any handle of any runtime changes anything, and each
-- one reports an error.
pub start-busy :
    (p : Process) (r h : ℕ) (c : Controller) (s k : ℕ) (config : Text) (fd : ℤ) (reply : Reply)
    → IsLeased p
    → (p.runtimes r).controllers h ≡ some c
    → c.is_running ≡ true
    → ((start s k config fd reply p).0 ≡ p) × (is_some (start s k config fd reply p).1 ≡ true)
unfolding start
start-busy p r h c s k config fd reply v at on = elim (Bool-cases (is_empty (trim_space config))) [
  | inl a ↦ rw (a, start) (refl, refl)
  | inr a ↦ elim (Bool-cases (ltz fd (pos 0))) [
    | inl b ↦ rw (a, b, start) (refl, refl)
    | inr b ↦ elim (Bool-cases (not (is_holder p.asset_runtime s) || is_empty p.asset_directory)) [
      | inl d ↦ rw (a, b, d, start) (refl, refl)
      | inr d ↦ elim (Option-cases (controller_locked p s k)) [
        | inl e ↦ rw (a, b, d, e, start) (refl, refl)
        | inr (x, e) ↦ elim (Bool-cases (held_elsewhere p s k)) [
          | inl f ↦ rw (a, b, d, e, f, start) (refl, refl)
          | inr f ↦ simp (a, b, d, e, f, same x e f, start) (refl, refl)
        ]
      ]
    ]
  ]
]
  where
    -- Its lease leaves only the controller itself, which runs already.
    same :
        (x : Controller)
        → controller_locked p s k ≡ some x
        → held_elsewhere p s k ≡ false
        → x.is_running ≡ true
    same x e f =
        let (a, b, d) = v.holds r h c at on in
        let (g, i) = free p s k f r a in
        let there : (p.runtimes s).controllers k ≡ some c =
          subst (λ y. (p.runtimes y).controllers k ≡ some c) g
            (subst (λ y. (p.runtimes r).controllers y ≡ some c) (sym b ∙ i) at) in
        ground (arith, there, locked p s k x e, on)

released :
    (p : Process) (r h : ℕ) (c : Controller) (closes : Bool)
    → controller_locked p r h ≡ some c
    → p.active_runtime ≡ some r
    → p.active_handle ≡ h
    → (p.runtimes r).active ≡ h
    → let q = (stop r h closes p).0 in (q.active_runtime ≡ none) × ((q.runtimes r).active ≡ 0)
unfolding stop release clear_active clear_process_active is_holder
released p r h c closes e a b d =
    rw (e, stop) (rw (a, b, ==_refl r, ==_refl h) refl, rw (==_refl r, d, ==_refl h) refl)

-- `Stop` of the controller that runs and holds the lease frees the lease, also when Xray reports an error, and then
-- no controller of the process runs.
pub stop-releases :
    (p : Process) (r h : ℕ) (c : Controller) (closes : Bool)
    → IsLeased p
    → (controller_locked p r h ≡ some c)
    → c.is_running ≡ true
    → let q = (stop r h closes p).0 in
      (q.active_runtime ≡ none)
      × (active_handle_of r q ≡ 0)
      × ((s k : ℕ) (d : Controller) → (q.runtimes s).controllers k ≡ some d → d.is_running ≡ false)
unfolding active_handle_of
stop-releases p r h c closes v e on =
    let (a, b, d) = v.holds r h c (locked p r h c e) on in
    let freed = released p r h c closes e a b d in
    (
      freed.0,
      freed.1,
      λ s k x at. elim (Bool-cases x.is_running) [
        | inl y ↦
            let w = (stop-IsLeased p r h closes v).holds s k x at y in ground (arith, w.0, freed.0)
        | inr y ↦ y
      ],
    )
