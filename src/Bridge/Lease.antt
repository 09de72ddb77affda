-- ===== src/Bridge/Lease.antt =====
-- The lease of desktop/bridge/bridge.go: at most one controller of the process runs, and it is the
-- one that the process and its runtime have down as active.
use skipi_core.Base.{
  ℕ, ◌≡◌, refl, sym, ap, ◌∙◌, inl, inr, true, false, Option, some, ◌==◌, Bool-cases, arith, update,
  ==_iff,
}
use skipi_core.Core.{Controller}
use skipi_core.Core.Sound.{IsSound}
use skipi_core.Bridge.{Runtime, Process, clear_process_active, clear_active, release, is_holder}

-- Each controller runs exactly if it has an instance, and one that runs has the lease.
pub record Held (rs : ℕ → Runtime) (ar : Option ℕ) (ah : ℕ) : Type 0 where
  pub sound : (r h : ℕ) (c : Controller) → (rs r).controllers h ≡ some c → IsSound c
  pub holds :
      (r h : ℕ) (c : Controller)
      → (rs r).controllers h ≡ some c
      → c.is_running ≡ true
      → (ar ≡ some r) × (ah ≡ h) × ((rs r).active ≡ h)

abbrev pub IsLeased : Process → Type 0
IsLeased p = Held p.runtimes p.active_runtime p.active_handle

-- One runtime is replaced by `u`, and the lease by another.
pub replace-Held :
    (rs : ℕ → Runtime) (ar br : Option ℕ) (ah bh : ℕ) (r : ℕ) (u : Runtime)
    → Held rs ar ah
    → ((h : ℕ) (c : Controller) → u.controllers h ≡ some c → IsSound c)
    → ((h : ℕ) (c : Controller)
        → u.controllers h ≡ some c
        → c.is_running ≡ true
        → (br ≡ some r) × (bh ≡ h) × (u.active ≡ h))
    → ((s : ℕ) → (r == s) ≡ false → ar ≡ some s → (br ≡ ar) × (bh ≡ ah))
    → Held (update rs r u) br bh
replace-Held rs ar br ah bh r u v sound mine others = record {
  sound = λ s h c e. elim (Bool-cases (r == s)) [
    | inl q ↦ sound h c (sym (ap (λ x. x.controllers h) (at s q)) ∙ e)
    | inr q ↦ v.sound s h c (sym (ap (λ x. x.controllers h) (off s q)) ∙ e)
  ];
  holds = λ s h c e on. elim (Bool-cases (r == s)) [
    | inl q ↦
        let (a, b, d) = mine h c (sym (ap (λ x. x.controllers h) (at s q)) ∙ e) on in
        (a ∙ ap some ((==_iff r s).0 q), b, ap (λ x. x.active) (at s q) ∙ d)
    | inr q ↦
        let (a, b, d) = v.holds s h c (sym (ap (λ x. x.controllers h) (off s q)) ∙ e) on in
        let (f, g) = others s q a in (f ∙ a, g ∙ b, ap (λ x. x.active) (off s q) ∙ d)
  ];
}
  where
    at : (s : ℕ) → (r == s) ≡ true → update rs r u s ≡ u
    at s q = rw q refl

    off : (s : ℕ) → (r == s) ≡ false → update rs r u s ≡ rs s
    off s q = rw q refl

-- A controller that runs only if it ran before takes the place of another one, or of none.
pub place-Held :
    (rs : ℕ → Runtime) (ar : Option ℕ) (ah : ℕ) (r h n : ℕ) (o : Option Controller)
    → Held rs ar ah
    → ((c : Controller) → o ≡ some c → IsSound c)
    → ((c : Controller)
        → o ≡ some c
        → c.is_running ≡ true
        → (ar ≡ some r) × (ah ≡ h) × ((rs r).active ≡ h))
    → Held
        (update rs r
          (record (rs r) { next_handle = n; controllers = update (rs r).controllers h o }))
        ar
        ah
place-Held rs ar ah r h n o v sound mine =
    replace-Held rs ar ar ah ah r _ v
      (λ k c e. elim (Bool-cases (h == k)) [
        | inl q ↦ sound c (ground arith)
        | inr q ↦ v.sound r k c (ground arith)
      ])
      (λ k c e on. elim (Bool-cases (h == k)) [
        | inl q ↦ let (a, b, d) = mine c (ground arith) on in (a, ground arith, ground arith)
        | inr q ↦ v.holds r k c (ground arith) on
      ])
      (λ s q a. (refl, refl))

-- The lease of a controller that does not run can go.
pub release-IsLeased :
    (p : Process) (r h : ℕ)
    → IsLeased p
    → ((c : Controller) → (p.runtimes r).controllers h ≡ some c → c.is_running ≡ false)
    → IsLeased (release p r h)
unfolding release clear_active clear_process_active is_holder
release-IsLeased p r h v idle =
    replace-Held p.runtimes p.active_runtime _ p.active_handle _ r _ v (λ k c e. v.sound r k c e)
      (λ k c e on.
        let (a, b, d) = v.holds r k c e on in
        let ne : (k == h) ≡ false = elim (Bool-cases (k == h)) [
          | inl q ↦
              let off =
                idle c (sym (ap (λ i. (p.runtimes r).controllers i) ((==_iff k h).0 q)) ∙ e) in
              ground (arith, on, off)
          | inr q ↦ q
        ] in
        (rw (a, b, ne) ground arith, rw (a, b, ne) ground arith, rw (d, ne) refl))
      (λ s q a. rw a ground (arith, q))
