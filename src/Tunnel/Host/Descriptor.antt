-- ===== src/Tunnel/Host/Descriptor.antt =====
-- What desktop/tunhost returns when a session is opened.
use skipi_core.Base.{◌≡◌, inl, inr, Bool, Option, none, some, Bool-cases, ℕ, is_some}
use skipi_core.Tunnel.{Plan, Built, settings_of, no_settings}
use skipi_core.Tunnel.Session.{Open, Session, SystemAnswers, Outcome, opened, not_opened_for}
use skipi_core.Tunnel.Session.Balance.{IsOutcome, open_session-IsOutcome}
use skipi_core.Tunnel.Host.{
  HostState, HostError, Prepared, prepared, not_prepared, prepare_locked, opening_done, opening,
  with_plan, open_host,
}

-- An error, or a session with its descriptor.
unfoldable pub IsOpened : HostState × (Option HostError × Option Session) → Type 0
IsOpened (h, (some e, s)) = Unit {0}
IsOpened (h, (none, none)) = ⊥
IsOpened (h, (none, some s)) = (n : ℕ) × (s.fd ≡ some n)

done-IsOpened :
    (here : Bool) (h : HostState) (o : Open) (x : Open × Outcome)
    → IsOutcome o x
    → IsOpened (opening_done here h x)
unfolding opening_done IsOpened IsOutcome
done-IsOpened here h o (p, opened s) (l, fd, bus) = fd
done-IsOpened here h o (p, not_opened_for f) l = tt

opening-IsOpened :
    (a : SystemAnswers) (plan : Plan) (r : HostState × Prepared) → IsOpened (opening a plan r)
unfolding opening IsOpened
opening-IsOpened a plan (h, not_prepared) = tt
opening-IsOpened a plan (h, prepared here) =
    done-IsOpened here h h.open_things _ (open_session-IsOutcome a plan h.open_things)

with_plan-IsOpened :
    (a : SystemAnswers) (registers : Bool) (plan : Plan) (s : Built) (h : HostState)
    → IsOpened (with_plan a registers plan s h)
unfolding with_plan IsOpened
with_plan-IsOpened a registers plan (no_settings e) h = tt
with_plan-IsOpened a registers plan (settings_of s) h = elim (Bool-cases (is_some h.session)) [
  | inl e ↦ rw (e, with_plan) tt
  | inr e ↦ rw (e, with_plan) (opening-IsOpened a plan (prepare_locked plan.name registers h))
]

pub open_host-IsOpened :
    (a : SystemAnswers) (registers : Bool) (plan : Option Plan) (h : HostState)
    → IsOpened (open_host a registers plan h)
unfolding open_host IsOpened
open_host-IsOpened a registers none h = tt
open_host-IsOpened a registers (some plan) h = with_plan-IsOpened a registers plan _ h
