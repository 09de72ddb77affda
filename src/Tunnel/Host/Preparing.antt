-- ===== src/Tunnel/Host/Preparing.antt =====
-- What `prepareLocked` of desktop/tunhost/binding.go does, on every branch.
use skipi_core.Base.{
  ℕ, ◌≡◌, refl, sym, subst, ◌∙◌, inl, inr, Bool, true, false, Option, none, some, if◌then◌else◌,
  Bool-cases, arith, is_some, Text,
}
use skipi_core.Tunnel.Host.{
  HostState, register_once, is_registered, Prepared, prepared, not_prepared, prepare_locked,
}

-- The controller is registered once, if it was tried.
unfoldable pub Once : ℕ → Option Bool → Type 0
Once n none = n ≡ 0
Once n (some r) = n ≡ 1

-- A binding goes through a controller that was registered.
unfoldable pub Registered : Option Text → Option Bool → Type 0
Registered none r = Unit
Registered (some name) r = r ≡ some true

-- What preparing comes to: the session and what is open stay.
unfoldable pub IsPrepare : HostState → HostState × Prepared → Type 0
IsPrepare h (g, not_prepared) =
    (h.binding ≡ none)
    × (g.binding ≡ none)
    × (g.session ≡ h.session)
    × (g.open_things ≡ h.open_things)
    × Once g.registrations g.registered
IsPrepare h (g, prepared here) =
    (is_some g.binding ≡ true)
    × Registered g.binding g.registered
    × (g.session ≡ h.session)
    × (g.open_things ≡ h.open_things)
    × Once g.registrations g.registered
    × (h.binding ≡ (if here then none else g.binding))

register_once_lem :
    (answer : Bool) (h : HostState)
    → Once h.registrations h.registered
    → let g = register_once answer h in
      Once g.registrations g.registered
      × (g.binding ≡ h.binding)
      × (g.session ≡ h.session)
      × (g.open_things ≡ h.open_things)
unfolding register_once Once
register_once_lem answer h o = go h.registered refl o
  where
    go :
        (r : Option Bool)
        → h.registered ≡ r
        → Once h.registrations r
        → let g = register_once answer h in
          Once g.registrations g.registered
          × (g.binding ≡ h.binding)
          × (g.session ≡ h.session)
          × (g.open_things ≡ h.open_things)
    go none e o = simp (e, register_once) (omega (arith, o), refl, refl, refl)
    go (some r) e o = simp (e, register_once) (o, refl, refl, refl)

pub is_some-none : {A : Type 0} (o : Option A) → is_some o ≡ false → o ≡ none
is_some-none none e = refl
is_some-none (some a) e = absurd (ground (arith, e))

registered_true : (r : Option Bool) → is_registered r ≡ true → r ≡ some true
unfolding is_registered
registered_true none e = absurd (ground (arith, e))
registered_true (some true) e = refl
registered_true (some false) e = absurd (ground (arith, e))

pub prepare_locked-IsPrepare :
    (name : Text) (answer : Bool) (h : HostState)
    → Once h.registrations h.registered
    → Registered h.binding h.registered
    → IsPrepare h (prepare_locked name answer h)
unfolding prepare_locked IsPrepare Registered
prepare_locked-IsPrepare name answer h o r = elim (Bool-cases (is_some h.binding)) [
  | inl b ↦
      subst (IsPrepare h) {x = (h, prepared false)} (sym (simp (b, prepare_locked) refl))
        (b, r, refl, refl, o, refl)
  | inr b ↦
      let g = register_once answer h in
      let l = register_once_lem answer h o in
      let n = is_some-none h.binding b in
      elim (Bool-cases (is_registered g.registered)) [
        | inl e ↦
            subst (IsPrepare h) {x = (record g { binding = some name }, prepared true)}
              (sym (simp (b, e, prepare_locked) refl))
              (refl, registered_true g.registered e, l.2, l.3, l.0, n)
        | inr e ↦
            subst (IsPrepare h) {x = (g, not_prepared)} (sym (simp (b, e, prepare_locked) refl))
              (n, l.1 ∙ n, l.2, l.3, l.0)
      ]
]
