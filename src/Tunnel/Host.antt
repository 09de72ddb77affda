-- ===== src/Tunnel/Host.antt =====
-- desktop/tunhost, binding.go and tunhost_linux.go: the one tunnel session of the process, and the
-- binding that keeps the connections of Core off it. Each function runs under the lock; the binder
-- is known by the interface that it leaves out.
pub mod Preparing
pub mod Binding
pub mod Descriptor
use skipi_core.Base.{
  ℕ, suc, Bool, true, false, not, Option, none, some, List, [], ◌∷◌, if◌then◌else◌, is_some, Text,
  codes,
}
use skipi_core.Tunnel.{
  Plan, check_interface_name, Prefixes, Built, settings_of, no_settings, PlanError, plan_settings,
}
use skipi_core.Tunnel.Session.{
  Open, Session, SessionFailure, SystemAnswers, Outcome, opened, not_opened_for, open_session,
  close,
}

-- The variables of the package, with what the sessions have open. `registered` is what
-- `register.Do` left in `registerErr`, if it ran: true is no error.
pub record HostState : Type 0 where
  pub binding : Option Text
  pub registered : Option Bool
  pub registrations : ℕ
  pub session : Option Session
  pub open_things : Open

unfoldable pub new_host : HostState
new_host = record {
  binding = none;
  registered = none;
  registrations = 0;
  session = none;
  open_things = record { fds_opened = 0; fds_closed = 0; buses_opened = 0; buses_closed = 0 };
}

pub data HostError : Type 0 where
  bad_name not_registered session_open : HostError
  plan_unreadable : HostError
  plan_invalid : PlanError → HostError
  session_failed : SessionFailure → HostError

-- `register.Do`, with what `RegisterDialerController` answers.
register_once : Bool → HostState → HostState
register_once answer h = elim h.registered [
  | some r ↦ h
  | none ↦ record h { registered = some answer; registrations = suc h.registrations }
]

is_registered : Option Bool → Bool
is_registered none = false
is_registered (some r) = r

pub data Prepared : Type 0 where
  prepared : Bool → Prepared
  not_prepared : Prepared

-- `prepareLocked`
unfoldable pub prepare_locked : Text → Bool → HostState → HostState × Prepared
unfolding register_once is_registered
prepare_locked name answer h =
    if is_some h.binding
    then (h, prepared false)
    else let g = register_once answer h in
      if is_registered g.registered
      then (record g { binding = some name }, prepared true)
      else (g, not_prepared)

prepare_error : Prepared → Option HostError
prepare_error (prepared here) = none
prepare_error not_prepared = some not_registered

-- `Prepare`
unfoldable pub prepare_binding : Text → Bool → HostState → HostState × Option HostError
unfolding check_interface_name prepare_locked prepare_error
prepare_binding name answer h =
    if check_interface_name name
    then (let (g, p) = prepare_locked name answer h in (g, prepare_error p))
    else (h, some bad_name)

-- `Prepared`
unfoldable pub is_prepared : HostState → Bool
is_prepared h = is_some h.binding

abbrev pub release_locked : HostState → HostState
release_locked h = record h { binding = none }

opening_done : Bool → HostState → Open × Outcome → HostState × (Option HostError × Option Session)
opening_done here h (o, opened s) = (record h { session = some s; open_things = o }, (none, some s))
opening_done here h (o, not_opened_for f) =
    let g = record h { open_things = o } in
    (if here then release_locked g else g, (some (session_failed f), none))

opening :
    SystemAnswers → Plan → HostState × Prepared → HostState × (Option HostError × Option Session)
unfolding opening_done open_session
opening a plan (h, not_prepared) = (h, (some not_registered, none))
opening a plan (h, prepared here) = opening_done here h (open_session a plan h.open_things)

with_plan :
    SystemAnswers
    → Bool
    → Plan
    → Built
    → HostState
    → HostState × (Option HostError × Option Session)
unfolding prepare_locked opening
with_plan a answer plan (no_settings e) h = (h, (some (plan_invalid e), none))
with_plan a answer plan (settings_of s) h =
    if is_some h.session
    then (h, (some session_open, none))
    else opening a plan (prepare_locked plan.name answer h)

-- `Open` on Linux, with what the JSON plan is read to; it gives the error or the session.
unfoldable pub open_host :
    SystemAnswers → Bool → Option Plan → HostState → HostState × (Option HostError × Option Session)
unfolding with_plan plan_settings
open_host a answer none h = (h, (some plan_unreadable, none))
open_host a answer (some plan) h =
    with_plan a answer plan (plan_settings a.prefixes plan 0 (codes "validate")) h

-- `Close` on Linux.
unfoldable pub close_host : HostState → HostState
unfolding close
close_host h = elim h.session [
  | none ↦ release_locked h
  | some s ↦ record h { binding = none; session = none; open_things = (close s h.open_things).0 }
]

pub data Call : Type 0 where
  prepares : Text → Bool → Call
  opens : SystemAnswers → Bool → Option Plan → Call
  closes : Call

unfoldable pub step : HostState → Call → HostState
unfolding prepare_binding open_host close_host
step h (prepares name answer) = (prepare_binding name answer h).0
step h (opens a answer plan) = (open_host a answer plan h).0
step h closes = close_host h

unfoldable pub run : HostState → List Call → HostState
unfolding step
run h [] = h
run h (k ∷ ks) = run (step h k) ks
