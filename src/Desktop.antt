-- ===== src/Desktop.antt =====
-- cmd/skipicore-desktop/main.go: the C interface of the desktop library, over the bridge (Bridge),
-- the AmneziaWG runner (Runner) and the tunnel host (Tunnel). A C string is its text, and NULL is
-- `none`; the library has one runtime, number 0. The functions that measure a delay, show a
-- notification or read the memory are left out.
pub mod Exports
pub mod Tests
use skipi_core.Base.{
  ℕ, zero, suc, Bool, true, false, not, ◌||◌, Option, none, some, List, [], ◌∷◌, if◌then◌else◌,
  Text, codes, is_empty, ℤ, pos, negsuc, ltz,
}
use skipi_core.ConnLog
use skipi_core.Traffic
use skipi_core.Core.{Reply}
use skipi_core.Bridge
use skipi_core.Bridge.{
  Process, Error, Answer, ok, fail, Files, initialize_assets, create_controller, destroy_controller,
  start, stop, is_running, set_log_enabled, read_log,
}
use skipi_core.Runner
use skipi_core.Runner.{
  Machine, TunnelConfig, Failure, start_amnezia_wg, stop_amnezia_wg, is_amnezia_wg_running,
  set_socket_protector,
}
use skipi_core.Tunnel.{Plan}
use skipi_core.Tunnel.Session.{Session, SystemAnswers}
use skipi_core.Tunnel.Host.{HostState, HostError, prepare_binding, open_host, close_host}

-- The process: `desktopErrors.message`, and what the calls change.
pub record Desktop : Type 0 where
  pub message : Text
  pub process : Process
  pub machine : Machine
  pub tunnel : HostState

-- The errors of the calls.
pub data Fault : Type 0 where
  null_argument blank_argument : Text → Fault
  of_bridge : Error → Fault
  of_tunnel : HostError → Fault
  of_runner : Failure → Fault
  port_not_positive : Fault

-- What an action returns, or what a recovered panic says.
pub data Result (A : Type 0) : Type 0 where
  value : A → Result A
  fault : Fault → Result A
  panic : Text → Result A

-- The texts of errors and of recovered panics, and the JSON texts of snapshots.
pub record Texts : Type 0 where
  pub describe : Fault → Text
  pub panic_error : Text → Text
  pub traffic : Traffic.Snapshot → Text
  pub connections : ConnLog.Snapshot → Text

-- What a function returns to C.
pub data Returned : Type 0 where
  error_text : Option Text → Returned
  owned_text : Option Text → Returned
  number : ℤ → Returned
  handle : ℕ → Returned

-- `setLastError` and `clearLastError`
set_last_error : Text → Desktop → Desktop
set_last_error t d = record d { message = t }

clear_last_error : Desktop → Desktop
clear_last_error d = record d { message = [] }

-- `cError`
c_error : Texts → Desktop × Result Bool → Desktop × Returned
unfolding set_last_error clear_last_error
c_error ts (d, value a) = (clear_last_error d, error_text none)
c_error ts (d, fault f) = (set_last_error (ts.describe f) d, error_text (some (ts.describe f)))
c_error ts (d, panic t) =
    (set_last_error (ts.panic_error t) d, error_text (some (ts.panic_error t)))

-- `cString`
c_string : Texts → Desktop × Result Text → Desktop × Returned
unfolding set_last_error clear_last_error
c_string ts (d, value t) = (clear_last_error d, owned_text (some t))
c_string ts (d, fault f) = (set_last_error (ts.describe f) d, owned_text none)
c_string ts (d, panic t) = (set_last_error (ts.panic_error t) d, owned_text none)

-- `cInt32` and `cInt64`
c_int : Texts → Desktop × Result ℤ → Desktop × Returned
unfolding set_last_error clear_last_error
c_int ts (d, value n) = (clear_last_error d, number n)
c_int ts (d, fault f) = (set_last_error (ts.describe f) d, number (negsuc 0))
c_int ts (d, panic t) = (set_last_error (ts.panic_error t) d, number (negsuc 0))

-- `requiredCString`
unfoldable pub required_c_string : Option Text → Text → Result Text
required_c_string none field = fault (null_argument field)
required_c_string (some t) field = if is_empty t then fault (blank_argument field) else value t

-- An action that needs a text, and does nothing without it.
with_text : {A : Type 0} → Result Text → Desktop → (Text → Desktop × Result A) → Desktop × Result A
with_text (value t) d action = action t
with_text (fault f) d action = (d, fault f)
with_text (panic t) d action = (d, panic t)

-- A call of a method of the runtime.
on_process : Desktop → Process × Option Error → Desktop × Result Bool
on_process d (p, none) = (record d { process = p }, value true)
on_process d (p, some e) = (record d { process = p }, fault (of_bridge e))
