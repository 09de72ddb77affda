-- ===== src/Core/Surroundings.antt =====
-- skipicore.go, lines 132-173 and 199-254, and connection_log.go, lines 144-149 and 173-201: a
-- controller, the process around it, and what the steps of a start or a stop do to the process.
-- Instances and connection logs are known by the order in which they were made.
use skipi_core.Base.{
  ℕ, ◌+◌, Bool, true, false, Option, none, some, List, ◌++◌, ◌==◌, if◌then◌else◌, Text, ℤ,
  is_positive, format_int, update,
}
use skipi_core.ConnLog.{ConnectionLog, new_connection_log}
use skipi_core.Traffic.{Stats}
use skipi_core.Tuning.{Gc}

-- `connectionLogHandler`: the instance whose log is behind it, if that has one, and its log.
pub record Handler : Type 0 where
  pub inner : Option ℕ
  pub log : ℕ

-- Who is registered with Xray's log: an instance's own log, or a handler of ours.
pub data LogOwner : Type 0 where
  xray : ℕ → LogOwner
  skipi : Handler → LogOwner

-- The calls of `CoreCallbackHandler`: `OnEmitStatus` by its code.
pub data Event : Type 0 where
  startup shutdown : Event
  emit_status : ℕ → Event

-- What is shared by the whole process. `closed` says of each instance whether Close was called;
-- `tun_fd` and `v2ray_tun_fd` are the environment variables of the TUN descriptor.
pub record World : Type 0 where
  pub tun_fd : Option Text
  pub v2ray_tun_fd : Option Text
  pub asset : Option Text
  pub cert : Option Text
  pub v2ray_asset : Option Text
  pub xudp_base_key : Option Text
  pub next_instance : ℕ
  pub closed : ℕ → Bool
  pub next_log : ℕ
  pub logs : ℕ → ConnectionLog
  pub active_log : Option Handler
  pub registered : Option LogOwner
  pub gc : Gc
  pub events : List Event

pub record Controller : Type 0 where
  pub instance_id : Option ℕ
  pub stats : Stats
  pub has_callback : Bool
  pub is_running : Bool
  pub conn_log : Option ℕ
  pub conn_log_enabled : Bool

-- `NewCoreController`
unfoldable pub new_controller : Bool → Controller
new_controller has_callback = record {
  instance_id = none;
  stats = record { manager = none; totals = none };
  has_callback = has_callback;
  is_running = false;
  conn_log = none;
  conn_log_enabled = false;
}

-- What Xray answers in the course of a start: whether the configuration loads, whether `core.New`
-- registers its own log, whether it returns an instance, whether that has a log and which counters,
-- and whether it starts.
pub record Reply : Type 0 where
  pub loads : Bool
  pub registers : Bool
  pub creates : Bool
  pub has_log : Bool
  pub counters : Option (List (Text × ℕ))
  pub starts : Bool

pub data StartError : Type 0 where
  already_running load_failed create_failed start_failed : StartError

-- `clearTunFdEnv`
unfoldable pub clear_tun_fd_env : World → World
clear_tun_fd_env w = record w { tun_fd = none; v2ray_tun_fd = none }

-- What both variables are set to: the descriptor, or nothing.
unfoldable pub published : ℤ → Option Text
published fd = if is_positive fd then some (format_int fd) else none

unfoldable pub publish_tun_fd : ℤ → World → World
unfolding published
publish_tun_fd fd w = record w { tun_fd = published fd; v2ray_tun_fd = published fd }

-- What `core.New` does to the process: with `registers`, Xray's log belongs to the new instance.
unfoldable pub register_new : Bool → World → World
register_new registers w = record w {
  registered = if registers then some (xray w.next_instance) else w.registered;
}

unfoldable pub new_instance : World → World
new_instance w = record w {
  next_instance = w.next_instance + 1;
  closed = update w.closed w.next_instance false;
}

unfoldable pub close_instance : ℕ → World → World
close_instance i w = record w { closed = update w.closed i true }

-- `newConnectionLog` and `installConnectionLog` for the instance `i`.
unfoldable pub install_connection_log : ℕ → Bool → Bool → World → World
install_connection_log i has_log enabled w =
    let h : Handler = record { inner = if has_log then some i else none; log = w.next_log } in
    record w {
      next_log = w.next_log + 1;
      logs = update w.logs w.next_log (new_connection_log enabled);
      active_log = some h;
      registered = some (skipi h);
    }

-- The owner once the active handler, if there is one, is registered again.
unfoldable pub restored : Option Handler → Option LogOwner → Option LogOwner
restored none owner = owner
restored (some h) owner = some (skipi h)

-- `restoreConnectionLog`
unfoldable pub restore_connection_log : World → World
unfolding restored
restore_connection_log w = record w { registered = restored w.active_log w.registered }

unfoldable pub same_log : Option ℕ → ℕ → Bool
same_log none i = false
same_log (some j) i = i == j

-- The active handler, forgotten if it is the one of the log `l`.
unfoldable pub unless_of : Option ℕ → Option Handler → Option Handler
unfolding same_log
unless_of l none = none
unless_of l (some h) = if same_log l h.log then none else some h

-- `clearConnectionLog`
unfoldable pub clear_connection_log : Option ℕ → World → World
unfolding unless_of
clear_connection_log l w = record w { active_log = unless_of l w.active_log }

unfoldable pub emit : Bool → List Event → World → World
emit has_callback es w = record w { events = if has_callback then w.events ++ es else w.events }
