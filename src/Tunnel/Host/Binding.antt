-- ===== src/Tunnel/Host/Binding.antt =====
-- What desktop/tunhost keeps of its binding and its session.
use skipi_core.Base.{
  ℕ, ◌≡◌, refl, sym, subst, ◌∙◌, inl, inr, Bool, true, false, Option, none, some, List, [], ◌∷◌,
  Bool-cases, Option-cases, arith, is_some, Text,
}
use skipi_core.Tunnel.{Plan, check_interface_name, Built, settings_of, no_settings}
use skipi_core.Tunnel.Session.{Open, Session, SystemAnswers, Outcome, opened, not_opened_for, close}
use skipi_core.Tunnel.Session.Balance.{Leaves, IsOutcome, open_session-IsOutcome, close-Leaves}
use skipi_core.Tunnel.Host.{
  HostState, new_host, Prepared, prepared, not_prepared, prepare_locked, prepare_binding,
  opening_done, opening, with_plan, open_host, close_host, Call, prepares, opens, closes, step, run,
}
use skipi_core.Tunnel.Host.Preparing.{
  Once, Registered, IsPrepare, prepare_locked-IsPrepare, is_some-none,
}

abbrev nothing_open : Open
nothing_open = record { fds_opened = 0; fds_closed = 0; buses_opened = 0; buses_closed = 0 }

-- A session has a binding, and is what is open; without one nothing is open.
Holds : Option Session → Option Text → Open → Type 0
Holds none binding o = Leaves 0 0 nothing_open o
Holds (some s) binding o =
    (is_some binding ≡ true)
    × Leaves 1 1 nothing_open o
    × ((n : ℕ) × (s.fd ≡ some n))
    × (s.has_bus ≡ true)

unfoldable pub IsSafe : HostState → Type 0
unfolding Once Registered Holds
IsSafe h =
    Once h.registrations h.registered
    × Registered h.binding h.registered
    × Holds h.session h.binding h.open_things

pub new_host-IsSafe : IsSafe new_host
unfolding IsSafe Once Registered Holds Leaves new_host
new_host-IsSafe = (refl, tt, (refl, refl))

Leaves-trans :
    (f b : ℕ) (o p : Open) → Leaves 0 0 nothing_open o → Leaves f b o p → Leaves f b nothing_open p
unfolding Leaves
Leaves-trans f b o p (x, y) (u, v) = (omega (arith, x, u), omega (arith, y, v))

-- A host without a session.
idle-IsSafe :
    (h : HostState)
    → Once h.registrations h.registered
    → Registered h.binding h.registered
    → h.session ≡ none
    → Leaves 0 0 nothing_open h.open_things
    → IsSafe h
unfolding IsSafe Holds
idle-IsSafe h o r n l = (o, r, subst (λ s. Holds s h.binding h.open_things) (sym n) l)

busy-IsSafe :
    (g : HostState) (s : Session) (o : Open)
    → Once g.registrations g.registered
    → Registered g.binding g.registered
    → is_some g.binding ≡ true
    → Leaves 1 1 nothing_open o
    → (n : ℕ) × (s.fd ≡ some n)
    → s.has_bus ≡ true
    → IsSafe (record g { session = some s; open_things = o })
unfolding IsSafe Holds
busy-IsSafe g s o once r b l fd bus = (once, r, (b, l, fd, bus))

opening_done-IsSafe :
    (here : Bool) (g : HostState) (x : Open × Outcome)
    → Once g.registrations g.registered
    → Registered g.binding g.registered
    → is_some g.binding ≡ true
    → g.session ≡ none
    → Leaves 0 0 nothing_open g.open_things
    → IsOutcome g.open_things x
    → IsSafe (opening_done here g x).0
unfolding opening_done IsOutcome Registered
opening_done-IsSafe here g (o, opened s) once r b n l (out, fd, bus) =
    busy-IsSafe g s o once r b (Leaves-trans 1 1 g.open_things o l out) fd bus
opening_done-IsSafe true g (o, not_opened_for f) once r b n l out =
    idle-IsSafe (record g { binding = none; open_things = o }) once tt n
      (Leaves-trans 0 0 g.open_things o l out)
opening_done-IsSafe false g (o, not_opened_for f) once r b n l out =
    idle-IsSafe (record g { open_things = o }) once r n (Leaves-trans 0 0 g.open_things o l out)

opening-IsSafe :
    (a : SystemAnswers) (plan : Plan) (h : HostState) (r : HostState × Prepared)
    → h.session ≡ none
    → Leaves 0 0 nothing_open h.open_things
    → IsPrepare h r
    → IsSafe (opening a plan r).0
unfolding opening IsPrepare Registered
opening-IsSafe a plan h (g, not_prepared) n l (before, b, s, o, once) =
    idle-IsSafe g once (subst (λ x. Registered x g.registered) (sym b) tt) (s ∙ n)
      (subst (Leaves 0 0 nothing_open) (sym o) l)
opening-IsSafe a plan h (g, prepared here) n l (b, r, s, o, once, before) =
    opening_done-IsSafe here g _ once r b (s ∙ n) (subst (Leaves 0 0 nothing_open) (sym o) l)
      (open_session-IsOutcome a plan g.open_things)

idle_now :
    (h : HostState) → IsSafe h → is_some h.session ≡ false → Leaves 0 0 nothing_open h.open_things
unfolding IsSafe Holds
idle_now h (o, r, held) e =
    subst (λ s. Holds s h.binding h.open_things) (is_some-none h.session e) held

safe-IsPrepare :
    (name : Text) (answer : Bool) (h : HostState)
    → IsSafe h
    → IsPrepare h (prepare_locked name answer h)
unfolding IsSafe
safe-IsPrepare name answer h (o, r, held) = prepare_locked-IsPrepare name answer h o r

with_plan-IsSafe :
    (a : SystemAnswers) (answer : Bool) (plan : Plan) (s : Built) (h : HostState)
    → IsSafe h
    → IsSafe (with_plan a answer plan s h).0
unfolding with_plan
with_plan-IsSafe a answer plan (no_settings e) h v = v
with_plan-IsSafe a answer plan (settings_of s) h v = elim (Bool-cases (is_some h.session)) [
  | inl e ↦ simp (e, with_plan) v
  | inr e ↦
      simp (e, with_plan)
        (opening-IsSafe a plan h _ (is_some-none h.session e) (idle_now h v e)
          (safe-IsPrepare plan.name answer h v))
]

open_host-IsSafe :
    (a : SystemAnswers) (answer : Bool) (plan : Option Plan) (h : HostState)
    → IsSafe h
    → IsSafe (open_host a answer plan h).0
unfolding open_host
open_host-IsSafe a answer none h v = v
open_host-IsSafe a answer (some plan) h v = with_plan-IsSafe a answer plan _ h v

Holds-bound :
    (s : Option Session) (b c : Option Text) (o : Open)
    → is_some c ≡ true
    → Holds s b o
    → Holds s c o
unfolding Holds
Holds-bound none b c o e held = held
Holds-bound (some s) b c o e (x, l, fd, bus) = (e, l, fd, bus)

prepared-IsSafe : (h : HostState) (r : HostState × Prepared) → IsSafe h → IsPrepare h r → IsSafe r.0
unfolding IsSafe IsPrepare Registered
prepared-IsSafe h (g, not_prepared) (o, r, held) (before, b, s, t, once) = (
  once,
  subst (λ x. Registered x g.registered) (sym b) tt,
  subst (λ x. Holds x g.binding g.open_things) (sym s)
      (subst (λ x. Holds h.session x g.open_things) (before ∙ sym b)
        (subst (λ x. Holds h.session h.binding x) (sym t) held)),
)
prepared-IsSafe h (g, prepared here) (o, r, held) (b, now, s, t, once, before) = (
  once,
  now,
  subst (λ x. Holds x g.binding g.open_things) (sym s)
      (subst (λ x. Holds h.session g.binding x) (sym t)
        (Holds-bound h.session h.binding g.binding h.open_things b held)),
)

prepare_binding-IsSafe :
    (name : Text) (answer : Bool) (h : HostState)
    → IsSafe h
    → IsSafe (prepare_binding name answer h).0
unfolding prepare_binding
prepare_binding-IsSafe name answer h v = elim (Bool-cases (check_interface_name name)) [
  | inr e ↦ simp (e, prepare_binding) v
  | inl e ↦ simp (e, prepare_binding) (prepared-IsSafe h _ v (safe-IsPrepare name answer h v))
]

closed-IsSafe :
    (h : HostState) (s : Session)
    → IsSafe h
    → h.session ≡ some s
    → IsSafe (record h { binding = none; session = none; open_things = (close s h.open_things).0 })
unfolding IsSafe Holds Registered IsOutcome
closed-IsSafe h s (o, r, held) e =
    let (b, l, fd, bus) = subst (λ x. Holds x h.binding h.open_things) e held in
    (o, tt, close-Leaves nothing_open h.open_things s (l, fd, bus))

released-IsSafe :
    (h : HostState)
    → IsSafe h
    → h.session ≡ none
    → IsSafe (record h { binding = none; session = none })
unfolding IsSafe Holds Registered
released-IsSafe h (o, r, held) e = (o, tt, subst (λ x. Holds x h.binding h.open_things) e held)

close_host-IsSafe : (h : HostState) → IsSafe h → IsSafe (close_host h)
unfolding close_host
close_host-IsSafe h v = elim (Option-cases h.session) [
  | inl e ↦ simp (e, close_host) (released-IsSafe h v e)
  | inr (s, e) ↦ simp (e, close_host) (closed-IsSafe h s v e)
]

step-IsSafe : (h : HostState) (k : Call) → IsSafe h → IsSafe (step h k)
unfolding step
step-IsSafe h (prepares name answer) v = prepare_binding-IsSafe name answer h v
step-IsSafe h (opens a answer plan) v = open_host-IsSafe a answer plan h v
step-IsSafe h closes v = close_host-IsSafe h v

-- From a host as a new one is, after any calls and whatever is answered to them: while there is a
-- session, the binding that keeps the connections of Core off it is in place, and one descriptor
-- and one connection to the bus are open; without one, nothing is left open. The controller is
-- registered once at most, and no binding is in place if that failed.
pub run-IsSafe : (h : HostState) (ks : List Call) → IsSafe h → IsSafe (run h ks)
unfolding run
run-IsSafe h [] v = v
run-IsSafe h (k ∷ ks) v = run-IsSafe (step h k) ks (step-IsSafe h k v)
