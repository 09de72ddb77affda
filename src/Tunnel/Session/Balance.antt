-- ===== src/Tunnel/Session/Balance.antt =====
-- What desktop/nmtun/session_linux.go leaves open.
use skipi_core.Base.{
  ℕ, suc, ◌+◌, ◌≡◌, refl, inl, inr, Bool, true, false, Option, none, some, List, [], ◌∷◌,
  Bool-cases, Option-cases, arith, Text,
}
use skipi_core.Tunnel.{Plan, Built, settings_of, no_settings}
use skipi_core.Tunnel.Session.{
  Open, Session, Round, absent, not_opened, bad_request, not_set, attached, fd_opened, fd_closed,
  close_fd, bus_closed, Attached, has_fd, failed, attach, Poll, wait_activated, close,
  SystemAnswers, Outcome, opened, not_opened_for, activated, connected, planned, for_account,
  open_session,
}

-- From `o` to `p`, as many descriptors and connections were closed as opened, but for `fds` and
-- `buses` of them.
unfoldable pub Leaves : ℕ → ℕ → Open → Open → Type 0
Leaves fds buses o p =
    (p.fds_opened + o.fds_closed ≡ fds + (p.fds_closed + o.fds_opened))
    × (p.buses_opened + o.buses_closed ≡ buses + (p.buses_closed + o.buses_opened))

-- What an attempt leaves.
IsAttach : Open → Open × Attached → Type 0
IsAttach o (p, has_fd n) = Leaves 1 0 o p
IsAttach o (p, failed f) = Leaves 0 0 o p

-- A descriptor that was opened and closed before makes no difference.
retried : (o : Open) (r : Open × Attached) → IsAttach (fd_closed (fd_opened o)) r → IsAttach o r
unfolding IsAttach Leaves fd_closed fd_opened
retried o (p, has_fd n) (a, b) = (omega (arith, a), b)
retried o (p, failed f) (a, b) = (omega (arith, a), b)

attach-IsAttach :
    (again : Bool) (rounds : List Round) (o : Open) → IsAttach o (attach again rounds o)
unfolding attach IsAttach Leaves fd_opened fd_closed
attach-IsAttach again [] o = (omega arith, omega arith)
attach-IsAttach again (absent ∷ rest) o = attach-IsAttach again rest o
attach-IsAttach again (not_opened ∷ rest) o = (omega arith, omega arith)
attach-IsAttach again (bad_request ∷ rest) o = (omega arith, omega arith)
attach-IsAttach again (not_set ∷ rest) o =
    retried o (attach true rest (fd_closed (fd_opened o)))
      (attach-IsAttach true rest (fd_closed (fd_opened o)))
attach-IsAttach again (attached n ∷ rest) o = (omega arith, omega arith)

-- A session that is open has its descriptor and its connection; otherwise nothing is left open.
unfoldable pub IsOutcome : Open → Open × Outcome → Type 0
IsOutcome o (p, opened s) = Leaves 1 1 o p × ((n : ℕ) × (s.fd ≡ some n)) × (s.has_bus ≡ true)
IsOutcome o (p, not_opened_for f) = Leaves 0 0 o p

bus_opened : Open → Open
bus_opened o = record o { buses_opened = suc o.buses_opened }

activated-IsOutcome :
    (polls : List Poll) (o : Open) (r : Open × Attached)
    → IsAttach (bus_opened o) r
    → IsOutcome o (activated polls r)
unfolding activated IsOutcome IsAttach Leaves close close_fd bus_closed fd_closed bus_opened
activated-IsOutcome polls o (p, failed f) (a, b) = (omega (arith, a), omega (arith, b))
activated-IsOutcome polls o (p, has_fd n) (a, b) = elim (Option-cases (wait_activated polls)) [
  | inl e ↦ rw (e, activated) ((omega (arith, a), omega (arith, b)), (n, refl), refl)
  | inr (f, e) ↦ rw (e, activated) (omega (arith, a), omega (arith, b))
]

activating :
    (a : SystemAnswers) (o : Open)
    → IsOutcome o (activated a.polls (attach false a.rounds (bus_opened o)))
activating a o = activated-IsOutcome a.polls o _ (attach-IsAttach false a.rounds (bus_opened o))

connected-IsOutcome : (a : SystemAnswers) (o : Open) → IsOutcome o (connected a o)
unfolding connected IsOutcome Leaves bus_closed bus_opened
connected-IsOutcome a o = elim (Bool-cases a.connects) [
  | inr e ↦ simp (e, connected) (omega arith, omega arith)
  | inl e ↦ elim (Bool-cases a.authenticates) [
    | inr f ↦ simp (e, f, connected) (omega arith, omega arith)
    | inl f ↦ elim (Bool-cases a.says_hello) [
      | inr g ↦ simp (e, f, g, connected) (omega arith, omega arith)
      | inl g ↦ elim (Bool-cases a.activates) [
        | inr h ↦ simp (e, f, g, h, connected) (omega arith, omega arith)
        | inl h ↦ simp (e, f, g, h, connected) (activating a o)
      ]
    ]
  ]
]

planned-IsOutcome : (a : SystemAnswers) (s : Built) (o : Open) → IsOutcome o (planned a s o)
unfolding planned IsOutcome Leaves
planned-IsOutcome a (no_settings e) o = (omega arith, omega arith)
planned-IsOutcome a (settings_of s) o = connected-IsOutcome a o

for_account-IsOutcome :
    (a : SystemAnswers) (plan : Plan) (account : Option (Option ℕ × Text)) (o : Open)
    → IsOutcome o (for_account a plan account o)
unfolding for_account IsOutcome Leaves
for_account-IsOutcome a plan none o = (omega arith, omega arith)
for_account-IsOutcome a plan (some (none, user)) o = (omega arith, omega arith)
for_account-IsOutcome a plan (some (some uid, user)) o = planned-IsOutcome a _ o

-- Opening a session, whatever is answered to it: a session that is open has one descriptor and one
-- connection to the bus, and they are what was opened and not closed; if it is not opened, every
-- descriptor and every connection that was opened on the way is closed again.
pub open_session-IsOutcome :
    (a : SystemAnswers) (plan : Plan) (o : Open) → IsOutcome o (open_session a plan o)
unfolding open_session
open_session-IsOutcome a plan o = for_account-IsOutcome a plan a.account o

-- Closing the session that was opened leaves nothing open.
pub close-Leaves :
    (o p : Open) (s : Session) → IsOutcome o (p, opened s) → Leaves 0 0 o (close s p).0
unfolding IsOutcome Leaves close close_fd fd_closed bus_closed
close-Leaves o p s (l, (n, e), b) = rw (e, b, close) (omega (arith, l.0), omega (arith, l.1))
