-- ===== src/Desktop/Exports.antt =====
-- cmd/skipicore-desktop/main.go: the exported functions. Each one is named for what it does, without
-- the prefix SkipiCoreDesktop.
pub mod Reports
pub mod Calls
use skipi_core.Base.{
  ℕ, zero, suc, Bool, true, false, not, ◌||◌, Option, none, some, List, [], ◌∷◌, if◌then◌else◌,
  Text, codes, is_empty, ℤ, pos, negsuc, ltz,
}
use skipi_core.ConnLog
use skipi_core.Traffic
use skipi_core.Core.{Reply}
use skipi_core.Bridge
use skipi_core.Bridge.{
  Process, Error, Answer, ok, fail, Files, initialize_assets, create_controller, destroy_controller,
  start, stop, is_running, set_log_enabled, read_log,
}
use skipi_core.Runner
use skipi_core.Runner.{
  Machine, TunnelConfig, Failure, start_amnezia_wg, stop_amnezia_wg, is_amnezia_wg_running,
  set_socket_protector,
}
use skipi_core.Tunnel.{Plan}
use skipi_core.Tunnel.Session.{Session, SystemAnswers}
use skipi_core.Tunnel.Host.{HostState, HostError, prepare_binding, open_host, close_host}
use skipi_core.Desktop.{
  Desktop, Fault, null_argument, blank_argument, of_bridge, of_tunnel, of_runner, port_not_positive,
  Result, value, fault, panic, Texts, Returned, error_text, owned_text, number, handle,
  set_last_error, clear_last_error, c_error, c_string, c_int, required_c_string, with_text,
  on_process,
}

unfoldable pub initialize : Texts → Files → Option Text → Desktop → Desktop × Returned
unfolding c_error required_c_string with_text on_process initialize_assets
initialize ts files directory d = c_error ts (
    with_text (required_c_string directory (codes "asset directory")) d
      (λ t. on_process d (initialize_assets files 0 t d.process)))

created : Desktop → Process × ℕ → Desktop × Returned
unfolding clear_last_error
created d (p, h) = (clear_last_error (record d { process = p }), handle h)

unfoldable pub create : Desktop → Desktop × Returned
unfolding created create_controller
create d = created d (create_controller 0 d.process)

unfoldable pub destroy : Texts → ℕ → Bool → Desktop → Desktop × Returned
unfolding c_error on_process destroy_controller
destroy ts h closes d = c_error ts (on_process d (destroy_controller 0 h closes d.process))

unfoldable pub start_controller : Texts → ℕ → Option Text → ℤ → Reply → Desktop → Desktop × Returned
unfolding c_error required_c_string with_text on_process start
start_controller ts h config fd reply d = c_error ts (
    with_text (required_c_string config (codes "Xray configuration")) d
      (λ t. on_process d (start 0 h t fd reply d.process)))

unfoldable pub stop_controller : Texts → ℕ → Bool → Desktop → Desktop × Returned
unfolding c_error on_process stop
stop_controller ts h closes d = c_error ts (on_process d (stop 0 h closes d.process))

running_number : Desktop → Process × Answer Bool → Desktop × Result ℤ
running_number d (p, ok running) =
    (record d { process = p }, value (if running then pos 1 else pos 0))
running_number d (p, fail e) = (record d { process = p }, fault (of_bridge e))

unfoldable pub is_controller_running : Texts → ℕ → Desktop → Desktop × Returned
unfolding c_int running_number is_running
is_controller_running ts h d = c_int ts (running_number d (is_running 0 h d.process))

traffic_text : Texts → Desktop → Process × Answer Traffic.Snapshot → Desktop × Result Text
traffic_text ts d (p, ok s) = (record d { process = p }, value (ts.traffic s))
traffic_text ts d (p, fail e) = (record d { process = p }, fault (of_bridge e))

unfoldable pub traffic_stats : Texts → ℕ → Desktop → Desktop × Returned
unfolding c_string traffic_text Bridge.query_traffic_stats
traffic_stats ts h d = c_string ts (traffic_text ts d (Bridge.query_traffic_stats 0 h d.process))

nonzero : ℤ → Bool
nonzero (pos zero) = false
nonzero _ = true

unfoldable pub enable_log : Texts → ℕ → ℤ → Desktop → Desktop × Returned
unfolding c_error on_process set_log_enabled nonzero
enable_log ts h enabled d =
    c_error ts (on_process d (set_log_enabled 0 h (nonzero enabled) d.process))

log_text : Texts → Answer ConnLog.Snapshot → Result Text
log_text ts (ok s) = value (ts.connections s)
log_text ts (fail e) = fault (of_bridge e)

unfoldable pub connection_log : Texts → ℕ → ℕ → Desktop → Desktop × Returned
unfolding c_string log_text read_log
connection_log ts h after d = c_string ts (d, log_text ts (read_log 0 h after d.process))

fd_number : Option ℕ → ℤ
fd_number none = negsuc 0
fd_number (some n) = pos n

tunnel_number : Desktop → HostState × (Option HostError × Option Session) → Desktop × Result ℤ
unfolding fd_number
tunnel_number d (h, (some e, s)) = (record d { tunnel = h }, fault (of_tunnel e))
tunnel_number d (h, (none, none)) = (record d { tunnel = h }, value (negsuc 0))
tunnel_number d (h, (none, some s)) = (record d { tunnel = h }, value (fd_number s.fd))

-- `read` is how the JSON plan is read, and `registers` whether the controller can be registered.
unfoldable pub tun_open :
    Texts → (Text → Option Plan) → SystemAnswers → Bool → Option Text → Desktop → Desktop × Returned
unfolding c_int required_c_string with_text tunnel_number open_host
tun_open ts read a registers plan d = c_int ts (
    with_text (required_c_string plan (codes "TUN plan")) d
      (λ t. tunnel_number d (open_host a registers (read t) d.tunnel)))

tunnel_error : Desktop → HostState × Option HostError → Desktop × Result Bool
tunnel_error d (h, none) = (record d { tunnel = h }, value true)
tunnel_error d (h, some e) = (record d { tunnel = h }, fault (of_tunnel e))

unfoldable pub tun_prepare : Texts → Bool → Option Text → Desktop → Desktop × Returned
unfolding c_error required_c_string with_text tunnel_error prepare_binding
tun_prepare ts registers name d = c_error ts (
    with_text (required_c_string name (codes "interface name")) d
      (λ t. tunnel_error d (prepare_binding t registers d.tunnel)))

-- With the error that closing the descriptor or the connection gave, if any.
unfoldable pub tun_close : Texts → Option HostError → Desktop → Desktop × Returned
unfolding c_error tunnel_error close_host
tun_close ts failed d = c_error ts (tunnel_error d (close_host d.tunnel, failed))

runner_error : Desktop → Machine × Option Failure → Desktop × Result Bool
runner_error d (m, none) = (record d { machine = m }, value true)
runner_error d (m, some e) = (record d { machine = m }, fault (of_runner e))

-- `StartAmneziaWg` of the bridge: without a socket protector.
unfoldable pub start_runner_on :
    Runner.Answers → Option TunnelConfig → ℤ → Desktop → Desktop × Result Bool
unfolding runner_error start_amnezia_wg set_socket_protector
start_runner_on a config port d =
    if ltz (pos 0) port
    then runner_error d (start_amnezia_wg a config port (set_socket_protector none d.machine))
    else (d, fault port_not_positive)

unfoldable pub start_awg :
    Texts
    → (Text → Option TunnelConfig)
    → Runner.Answers
    → Option Text
    → ℤ
    → Desktop
    → Desktop × Returned
unfolding c_error required_c_string with_text start_runner_on
start_awg ts read a config port d = c_error ts (
    with_text (required_c_string config (codes "AmneziaWG configuration")) d
      (λ t. start_runner_on a (read t) port d))

unfoldable pub stop_awg : Texts → Desktop → Desktop × Returned
unfolding c_error stop_amnezia_wg
stop_awg ts d = c_error ts (record d { machine = stop_amnezia_wg d.machine }, value true)

-- `SkipiCoreDesktopIsAmneziaWgRunning`, which leaves the message.
unfoldable pub is_awg_running : Desktop → ℤ
unfolding is_amnezia_wg_running
is_awg_running d = if is_amnezia_wg_running d.machine then pos 1 else pos 0

-- `SkipiCoreDesktopLastError`
unfoldable pub last_error : Desktop → Text
last_error d = d.message

-- A call of one of these functions, with what is answered to it.
pub data Call : Type 0 where
  initializes : Files → Option Text → Call
  creates : Call
  destroys : ℕ → Bool → Call
  starts : ℕ → Option Text → ℤ → Reply → Call
  stops : ℕ → Bool → Call
  asks queries : ℕ → Call
  enables : ℕ → ℤ → Call
  reads : ℕ → ℕ → Call
  opens_tun : (Text → Option Plan) → SystemAnswers → Bool → Option Text → Call
  prepares_tun : Bool → Option Text → Call
  closes_tun : Option HostError → Call
  starts_awg : (Text → Option TunnelConfig) → Runner.Answers → Option Text → ℤ → Call
  stops_awg : Call

unfoldable pub step : Texts → Desktop → Call → Desktop × Returned
unfolding initialize create destroy start_controller stop_controller is_controller_running
    traffic_stats enable_log connection_log tun_open tun_prepare tun_close start_awg stop_awg
step ts d (initializes files directory) = initialize ts files directory d
step ts d creates = create d
step ts d (destroys h closes) = destroy ts h closes d
step ts d (starts h config fd reply) = start_controller ts h config fd reply d
step ts d (stops h closes) = stop_controller ts h closes d
step ts d (asks h) = is_controller_running ts h d
step ts d (queries h) = traffic_stats ts h d
step ts d (enables h enabled) = enable_log ts h enabled d
step ts d (reads h after) = connection_log ts h after d
step ts d (opens_tun read a registers plan) = tun_open ts read a registers plan d
step ts d (prepares_tun registers name) = tun_prepare ts registers name d
step ts d (closes_tun failed) = tun_close ts failed d
step ts d (starts_awg read a config port) = start_awg ts read a config port d
step ts d stops_awg = stop_awg ts d

unfoldable pub run : Texts → Desktop → List Call → Desktop
unfolding step
run ts d [] = d
run ts d (k ∷ ks) = run ts (step ts d k).0 ks
