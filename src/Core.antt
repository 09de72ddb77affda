-- ===== src/Core.antt =====
-- skipicore.go, lines 107-328 and 475-485: the life of a CoreController, over the process that
-- Core/Surroundings describes. What Xray answers to a call (a configuration that loads, an instance
-- that starts, an error of Close) is an argument. Each method runs under the controller's lock, so
-- it is one step.
pub mod Surroundings
pub mod Start
pub mod Stop
pub mod Sound
pub mod Owned
pub mod Log
pub mod Tests
unfoldable pub use skipi_core.Core.Surroundings.{
  new_controller, clear_tun_fd_env, published, publish_tun_fd, register_new, new_instance,
  close_instance, install_connection_log, restored, restore_connection_log, same_log, unless_of,
  clear_connection_log, emit,
}
pub use skipi_core.Core.Surroundings.{
  Handler, LogOwner, Event, World, Controller, Reply, StartError, xray, skipi, startup, shutdown,
  emit_status, already_running, load_failed, create_failed, start_failed,
}
use skipi_core.Base.{
  ℕ, ◌+◌, Bool, true, false, not, ◌||◌, Option, none, some, List, [], ◌∷◌, ◌++◌, ◌==◌,
  if◌then◌else◌, Text, ℤ, pos, is_positive, is_some, is_empty, format_int, update,
}
use skipi_core.ConnLog
use skipi_core.ConnLog.{ConnectionLog, new_connection_log, snapshot}
use skipi_core.Traffic
use skipi_core.Traffic.{Stats}
use skipi_core.Tuning.{Gc, pause, resume}

-- A controller and the process behind a call, and the error that the call returned, if any.
pub record Outcome (E : Type 0) : Type 0 where
  pub controller : Controller
  pub world : World
  pub error : Option E

-- `StartLoop` from `server.Start` on, with the instance `i` and its connection log `l`.
start_server : Controller → World → ℕ → ℕ → Reply → Outcome StartError
unfolding emit close_instance clear_connection_log clear_tun_fd_env
start_server c w i l reply =
    if reply.starts
    then record {
      controller = record c {
        stats = record { manager = reply.counters; totals = c.stats.totals };
        instance_id = some i;
        conn_log = some l;
        is_running = true;
      };
      world = emit c.has_callback (startup ∷ emit_status 0 ∷ []) w;
      error = none;
    }
    else record {
      controller = record c { stats = record { manager = none; totals = none } };
      world = clear_tun_fd_env (clear_connection_log (some l) (close_instance i w));
      error = some start_failed;
    }

-- `StartLoop` behind the loading of the configuration.
create_server : Controller → World → Reply → Outcome StartError
unfolding start_server register_new new_instance install_connection_log clear_tun_fd_env
create_server c w reply =
    let v = register_new reply.registers w in
    if reply.creates
    then start_server c
        (install_connection_log w.next_instance reply.has_log c.conn_log_enabled (new_instance v))
        w.next_instance w.next_log reply
    else record { controller = c; world = clear_tun_fd_env v; error = some create_failed }

load_config : Controller → World → ℤ → Reply → Outcome StartError
unfolding create_server publish_tun_fd
load_config c w fd reply =
    if reply.loads
    then create_server c (publish_tun_fd fd w) reply
    else record { controller = c; world = w; error = some load_failed }

-- `StartLoop`: the collector is paused before the configuration loads, and resumed on every way out.
unfoldable pub start_loop : Controller → World → ℤ → Reply → Outcome StartError
unfolding load_config
start_loop c w fd reply =
    if c.is_running
    then record { controller = c; world = w; error = some already_running }
    else let (paused, token) = pause w.gc in
      let o =
        load_config (record c { stats = record { manager = none; totals = some [] } })
          (record w { gc = paused }) fd reply in
      record {
        controller = o.controller;
        world = record (o.world) { gc = resume o.world.gc token };
        error = o.error;
      }

pub data StopError : Type 0 where
  close_failed : StopError

stop_instance : Controller → World → ℕ → Bool → Outcome StopError
unfolding emit close_instance clear_connection_log clear_tun_fd_env
stop_instance c w i closes = record {
  controller = record c {
    conn_log = none;
    instance_id = none;
    stats = record { manager = none; totals = none };
    is_running = false;
  };
  world =
      emit c.has_callback (shutdown ∷ emit_status 0 ∷ [])
        (clear_tun_fd_env (clear_connection_log c.conn_log (close_instance i w)));
  error = if closes then none else some close_failed;
}

-- `StopLoop`; `closes` is whether Close of the instance succeeds.
unfoldable pub stop_loop : Controller → World → Bool → Outcome StopError
unfolding stop_instance
stop_loop c w closes =
    if c.is_running
    then elim c.instance_id [
      | none ↦ record { controller = c; world = w; error = none }
      | some i ↦ stop_instance c w i closes
    ]
    else record { controller = c; world = w; error = none }

-- The store of logs with the flag of one log set, if there is that log.
with_enabled : Option ℕ → Bool → (ℕ → ConnectionLog) → ℕ → ConnectionLog
with_enabled none enabled logs = logs
with_enabled (some l) enabled logs = update logs l (record (logs l) { enabled = enabled })

-- `SetConnectionLogEnabled`
unfoldable pub set_connection_log_enabled : Controller → World → Bool → Controller × World
unfolding with_enabled
set_connection_log_enabled c w enabled = (
  record c { conn_log_enabled = enabled },
  record w { logs = with_enabled c.conn_log enabled w.logs },
)

-- `ReadConnectionLog`
unfoldable pub read_connection_log : Controller → World → ℕ → ConnLog.Snapshot
read_connection_log c w after = elim c.conn_log [
  | none ↦ record { seq = 0; entries = [] }
  | some l ↦ snapshot (w.logs l) after
]

-- `QueryTrafficStats`
unfoldable pub query_traffic_stats : Controller → Controller × Traffic.Snapshot
query_traffic_stats c =
    let (s, out) = Traffic.query_traffic_stats c.stats in (record c { stats = s }, out)

set_if : Bool → Text → Option Text → Option Text
set_if true value old = some value
set_if false value old = old

-- `InitCoreEnv`, but for the asset reader.
unfoldable pub init_core_env : Text → Text → World → World
unfolding set_if
init_core_env data_dir asset_key w =
    let has_dir = not (is_empty data_dir) in
    record w {
      asset = set_if has_dir data_dir w.asset;
      cert = set_if has_dir data_dir w.cert;
      v2ray_asset = set_if has_dir data_dir w.v2ray_asset;
      xudp_base_key = set_if (not (is_empty asset_key)) asset_key w.xudp_base_key;
    }

-- A call of a controller's method, with what Xray answers to it.
pub data Call : Type 0 where
  starts_loop : ℤ → Reply → Call
  stops_loop : Bool → Call
  enables_log : Bool → Call
  queries_stats : Call

abbrev pub State : Type 0
State = Controller × World

unfoldable pub step : State → Call → State
step (c, w) (starts_loop fd reply) = let o = start_loop c w fd reply in (o.controller, o.world)
step (c, w) (stops_loop closes) = let o = stop_loop c w closes in (o.controller, o.world)
step (c, w) (enables_log enabled) = set_connection_log_enabled c w enabled
step (c, w) queries_stats = ((query_traffic_stats c).0, w)

unfoldable pub run : State → List Call → State
run s [] = s
run s (k ∷ ks) = run (step s k) ks
