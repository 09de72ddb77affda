-- ===== src/Tunnel/Session.antt =====
-- desktop/nmtun/session_linux.go: a session with NetworkManager. What the bus, NetworkManager and
-- the kernel answer is an argument; a loop that polls until a deadline is the list of its rounds,
-- which ends when the deadline has passed.
pub mod Balance
use skipi_core.Base.{
  ℕ, suc, Bool, true, false, not, Option, none, some, List, [], ◌∷◌, ◌==◌, ◌||◌, if◌then◌else◌,
  Text, codes,
}
use skipi_core.Tunnel.{Plan, Prefixes, Built, settings_of, no_settings, PlanError, plan_settings}

-- Which descriptors and connections are open: how many were opened and closed so far.
pub record Open : Type 0 where
  pub fds_opened : ℕ
  pub fds_closed : ℕ
  pub buses_opened : ℕ
  pub buses_closed : ℕ

-- `Session`: the descriptor, and whether it has a connection.
pub record Session : Type 0 where
  pub fd : Option ℕ
  pub has_bus : Bool

pub data SessionFailure : Type 0 where
  no_account no_user_id : SessionFailure
  bad_plan : PlanError → SessionFailure
  no_bus not_authenticated no_handshake refused : SessionFailure
  no_tun_device bad_name not_attached not_created : SessionFailure
  no_state bad_state deactivated not_activated : SessionFailure

-- A round of `attach`: the device is not there yet, or what the kernel answers to the steps.
pub data Round : Type 0 where
  absent : Round
  not_opened : Round
  bad_request : Round
  not_set : Round
  attached : ℕ → Round

fd_opened : Open → Open
fd_opened o = record o { fds_opened = suc o.fds_opened }

fd_closed : Open → Open
fd_closed o = record o { fds_closed = suc o.fds_closed }

pub data Attached : Type 0 where
  has_fd : ℕ → Attached
  failed : SessionFailure → Attached

-- `attach`, with whether a round was refused before.
unfoldable pub attach : Bool → List Round → Open → Open × Attached
unfolding fd_opened fd_closed
attach again [] o = (o, failed (if again then not_attached else not_created))
attach again (absent ∷ rest) o = attach again rest o
attach again (not_opened ∷ rest) o = (o, failed no_tun_device)
attach again (bad_request ∷ rest) o = (fd_closed (fd_opened o), failed bad_name)
attach again (not_set ∷ rest) o = attach true rest (fd_closed (fd_opened o))
attach again (attached n ∷ rest) o = (fd_opened o, has_fd n)

-- What a poll of the connection's state gives.
pub data Poll : Type 0 where
  unreadable not_a_number : Poll
  state : ℕ → Poll

-- `waitActivated`; `none` is success.
unfoldable pub wait_activated : List Poll → Option SessionFailure
wait_activated [] = some not_activated
wait_activated (unreadable ∷ rest) = some no_state
wait_activated (not_a_number ∷ rest) = some bad_state
wait_activated (state n ∷ rest) =
    let later = wait_activated rest in
    if n == 2 then none else if n == 3 || n == 4 then some deactivated else later

close_fd : Option ℕ → Open → Open
unfolding fd_closed
close_fd none o = o
close_fd (some n) o = fd_closed o

bus_closed : Open → Open
bus_closed o = record o { buses_closed = suc o.buses_closed }

-- `Close`, whose errors are passed on and change nothing.
unfoldable pub close : Session → Open → Open × Session
unfolding close_fd bus_closed
close s o = (
  if s.has_bus then bus_closed (close_fd s.fd o) else close_fd s.fd o,
  record { fd = none; has_bus = false },
)

-- What is answered to `Open`: the account's user id and name, the steps on the bus, and the rounds.
pub record SystemAnswers : Type 0 where
  pub account : Option (Option ℕ × Text)
  pub prefixes : Prefixes
  pub connects : Bool
  pub authenticates : Bool
  pub says_hello : Bool
  pub activates : Bool
  pub rounds : List Round
  pub polls : List Poll

pub data Outcome : Type 0 where
  opened : Session → Outcome
  not_opened_for : SessionFailure → Outcome

-- The end of `Open`, with a session whose device is attached or not.
activated : List Poll → Open × Attached → Open × Outcome
unfolding wait_activated close
activated polls (o, failed f) =
    ((close (record { fd = none; has_bus = true }) o).0, not_opened_for f)
activated polls (o, has_fd n) = elim (wait_activated polls) [
  | some f ↦ ((close (record { fd = some n; has_bus = true }) o).0, not_opened_for f)
  | none ↦ (o, opened (record { fd = some n; has_bus = true }))
]

connected : SystemAnswers → Open → Open × Outcome
unfolding bus_closed attach activated
connected a o =
    if not a.connects
    then (o, not_opened_for no_bus)
    else let p = record o { buses_opened = suc o.buses_opened } in
      if not a.authenticates
      then (bus_closed p, not_opened_for not_authenticated)
      else if not a.says_hello
      then (bus_closed p, not_opened_for no_handshake)
      else if not a.activates
      then (bus_closed p, not_opened_for refused)
      else activated a.polls (attach false a.rounds p)

planned : SystemAnswers → Built → Open → Open × Outcome
unfolding connected
planned a (no_settings e) o = (o, not_opened_for (bad_plan e))
planned a (settings_of s) o = connected a o

for_account : SystemAnswers → Plan → Option (Option ℕ × Text) → Open → Open × Outcome
unfolding planned plan_settings
for_account a plan none o = (o, not_opened_for no_account)
for_account a plan (some (none, user)) o = (o, not_opened_for no_user_id)
for_account a plan (some (some uid, user)) o = planned a (plan_settings a.prefixes plan uid user) o

-- `Open`
unfoldable pub open_session : SystemAnswers → Plan → Open → Open × Outcome
unfolding for_account
open_session a plan o = for_account a plan a.account o
