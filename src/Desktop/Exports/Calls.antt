-- ===== src/Desktop/Exports/Calls.antt =====
-- What the functions of cmd/skipicore-desktop do to the parts below them.
use skipi_core.Base.{
  ◌≡◌, refl, ap, ◌∙◌, inl, inr, Bool, Option, none, some, List, [], ◌∷◌, Bool-cases, ℕ, Text, codes,
  ℤ, pos, ltz, is_empty, if◌then◌else◌,
}
use skipi_core.Traffic
use skipi_core.Bridge
use skipi_core.Bridge.{
  Process, Error, Answer, ok, fail, initialize_assets, create_controller, destroy_controller, start,
  stop, is_running, query_traffic_stats, set_log_enabled, read_log,
}
use skipi_core.Runner
use skipi_core.Runner.{
  Machine, Failure, start_amnezia_wg, stop_amnezia_wg, set_socket_protector, TunnelConfig,
}
use skipi_core.Tunnel.Session.{Session}
use skipi_core.Tunnel.Host
use skipi_core.Tunnel.Host.{HostState, HostError, open_host, prepare_binding, close_host}
use skipi_core.Desktop.{
  Desktop, Result, value, fault, panic, Texts, c_error, c_string, c_int, required_c_string,
  with_text, on_process, set_last_error, clear_last_error,
}
use skipi_core.Desktop.Exports.{
  initialize, created, create, destroy, start_controller, stop_controller, running_number,
  is_controller_running, traffic_text, traffic_stats, nonzero, enable_log, connection_log,
  tunnel_number, tun_open, tunnel_error, tun_prepare, tun_close, runner_error, start_runner_on,
  start_awg, stop_awg, step, run, Call, initializes, creates, destroys, starts, stops, asks,
  queries, enables, reads, opens_tun, prepares_tun, closes_tun, starts_awg, stops_awg,
}

-- The calls of the parts that one function makes.
pub record Work : Type 0 where
  pub bridge : List Bridge.Call
  pub tunnel : List Host.Call
  pub runner : List Runner.Call

bridge_work : Bridge.Call → Work
bridge_work k = record { bridge = k ∷ []; tunnel = []; runner = [] }

tunnel_work : Host.Call → Work
tunnel_work k = record { bridge = []; tunnel = k ∷ []; runner = [] }

runner_work : List Runner.Call → Work
runner_work ks = record { bridge = []; tunnel = []; runner = ks }

-- Without a text there is nothing to do.
texted : Option Text → (Text → Work) → Work
unfolding runner_work
texted none work = runner_work []
texted (some t) work = if is_empty t then runner_work [] else work t

awg_work : Runner.Answers → Option TunnelConfig → ℤ → Work
unfolding runner_work
awg_work a config port =
    if ltz (pos 0) port
    then runner_work (Runner.protects none ∷ Runner.starts a config port ∷ [])
    else runner_work []

unfoldable pub work : Call → Work
unfolding texted bridge_work tunnel_work runner_work awg_work nonzero
work (initializes files directory) =
    texted directory (λ t. bridge_work (Bridge.initializes files 0 t))
work creates = bridge_work (Bridge.creates 0)
work (destroys h closes) = bridge_work (Bridge.destroys 0 h closes)
work (starts h config fd reply) = texted config (λ t. bridge_work (Bridge.starts 0 h t fd reply))
work (stops h closes) = bridge_work (Bridge.stops 0 h closes)
work (asks h) = bridge_work (Bridge.asks 0 h)
work (queries h) = bridge_work (Bridge.queries 0 h)
work (enables h enabled) = bridge_work (Bridge.enables 0 h (nonzero enabled))
work (reads h after) = runner_work []
work (opens_tun read a registers plan) =
    texted plan (λ t. tunnel_work (Host.opens a registers (read t)))
work (prepares_tun registers name) = texted name (λ t. tunnel_work (Host.prepares t registers))
work (closes_tun failed) = tunnel_work Host.closes
work (starts_awg read a config port) = texted config (λ t. awg_work a (read t) port)
work stops_awg = runner_work (Runner.stops ∷ [])

-- The parts of a process, without the message.
abbrev pub Parts : Type 0
Parts = Process × HostState × Machine

abbrev pub parts : Desktop → Parts
parts d = (d.process, d.tunnel, d.machine)

unfoldable pub perform : Parts → Work → Parts
perform (p, h, m) w = (Bridge.run p w.bridge, Host.run h w.tunnel, Runner.run m w.runner)

unfoldable pub replay : Parts → List Call → Parts
unfolding perform work
replay x [] = x
replay x (k ∷ ks) = replay (perform x (work k)) ks

c_error-parts : (ts : Texts) (x : Desktop × Result Bool) → parts (c_error ts x).0 ≡ parts x.0
unfolding c_error set_last_error clear_last_error
c_error-parts ts (d, value a) = refl
c_error-parts ts (d, fault f) = refl
c_error-parts ts (d, panic t) = refl

c_string-parts : (ts : Texts) (x : Desktop × Result Text) → parts (c_string ts x).0 ≡ parts x.0
unfolding c_string set_last_error clear_last_error
c_string-parts ts (d, value a) = refl
c_string-parts ts (d, fault f) = refl
c_string-parts ts (d, panic t) = refl

c_int-parts : (ts : Texts) (x : Desktop × Result ℤ) → parts (c_int ts x).0 ≡ parts x.0
unfolding c_int set_last_error clear_last_error
c_int-parts ts (d, value a) = refl
c_int-parts ts (d, fault f) = refl
c_int-parts ts (d, panic t) = refl

on_process-parts :
    (d : Desktop) (x : Process × Option Error)
    → parts (on_process d x).0 ≡ (x.0, d.tunnel, d.machine)
unfolding on_process
on_process-parts d (p, none) = refl
on_process-parts d (p, some e) = refl

created-parts : (d : Desktop) (x : Process × ℕ) → parts (created d x).0 ≡ (x.0, d.tunnel, d.machine)
unfolding created clear_last_error
created-parts d (p, h) = refl

running_number-parts :
    (d : Desktop) (x : Process × Answer Bool)
    → parts (running_number d x).0 ≡ (x.0, d.tunnel, d.machine)
unfolding running_number
running_number-parts d (p, ok b) = refl
running_number-parts d (p, fail e) = refl

traffic_text-parts :
    (ts : Texts) (d : Desktop) (x : Process × Answer Traffic.Snapshot)
    → parts (traffic_text ts d x).0 ≡ (x.0, d.tunnel, d.machine)
unfolding traffic_text
traffic_text-parts ts d (p, ok s) = refl
traffic_text-parts ts d (p, fail e) = refl

tunnel_number-parts :
    (d : Desktop) (x : HostState × (Option HostError × Option Session))
    → parts (tunnel_number d x).0 ≡ (d.process, x.0, d.machine)
unfolding tunnel_number
tunnel_number-parts d (h, (some e, s)) = refl
tunnel_number-parts d (h, (none, none)) = refl
tunnel_number-parts d (h, (none, some s)) = refl

tunnel_error-parts :
    (d : Desktop) (x : HostState × Option HostError)
    → parts (tunnel_error d x).0 ≡ (d.process, x.0, d.machine)
unfolding tunnel_error
tunnel_error-parts d (h, none) = refl
tunnel_error-parts d (h, some e) = refl

runner_error-parts :
    (d : Desktop) (x : Machine × Option Failure)
    → parts (runner_error d x).0 ≡ (d.process, d.tunnel, x.0)
unfolding runner_error
runner_error-parts d (m, none) = refl
runner_error-parts d (m, some e) = refl

with_text-parts :
    {A : Type 0} (t : Option Text) (field : Text) (d : Desktop) (action : Text → Desktop × Result A)
    (w : Text → Work)
    → ((s : Text) → parts (action s).0 ≡ perform (parts d) (w s))
    → parts (with_text (required_c_string t field) d action).0 ≡ perform (parts d) (texted t w)
unfolding with_text required_c_string texted perform runner_work Bridge.run Host.run Runner.run
with_text-parts none field d action w each = refl
with_text-parts (some s) field d action w each = elim (Bool-cases (is_empty s)) [
  | inl e ↦ simp (e, required_c_string, texted) refl
  | inr e ↦ simp (e, required_c_string, texted) (each s)
]

start_runner_on-parts :
    (a : Runner.Answers) (config : Option TunnelConfig) (port : ℤ) (d : Desktop)
    → parts (start_runner_on a config port d).0 ≡ perform (parts d) (awg_work a config port)
unfolding start_runner_on awg_work perform runner_work Bridge.run Host.run Runner.run Runner.step
start_runner_on-parts a config port d = elim (Bool-cases (ltz (pos 0) port)) [
  | inl e ↦ simp (e, start_runner_on, awg_work) (runner_error-parts d _)
  | inr e ↦ simp (e, start_runner_on, awg_work) refl
]

-- The parts after a wrapper, and after a method of one part.
ruleset parts_laws = (
  c_error-parts, c_string-parts, c_int-parts, on_process-parts, created-parts, running_number-parts,
  traffic_text-parts, tunnel_number-parts, tunnel_error-parts, runner_error-parts,
)

step-parts :
    (ts : Texts) (d : Desktop) (k : Call) → parts (step ts d k).0 ≡ perform (parts d) (work k)
unfolding step initialize create destroy start_controller stop_controller is_controller_running
    traffic_stats enable_log connection_log tun_open tun_prepare tun_close start_awg stop_awg
    perform work bridge_work tunnel_work runner_work Bridge.run Bridge.step Host.run Host.step
    Runner.run Runner.step
step-parts ts d creates = simp parts_laws refl
step-parts ts d (destroys h closes) = simp parts_laws refl
step-parts ts d (stops h closes) = simp parts_laws refl
step-parts ts d (asks h) = simp parts_laws refl
step-parts ts d (queries h) = simp parts_laws refl
step-parts ts d (enables h enabled) = simp parts_laws refl
step-parts ts d (closes_tun failed) = simp parts_laws refl
step-parts ts d stops_awg = simp parts_laws refl
step-parts ts d (reads h after) = simp parts_laws refl
step-parts ts d (initializes files directory) = simp parts_laws (
    with_text-parts directory (codes "asset directory") d
      (λ t. on_process d (initialize_assets files 0 t d.process))
      (λ t. bridge_work (Bridge.initializes files 0 t)) (λ t. simp parts_laws refl))
step-parts ts d (starts h config fd reply) = simp parts_laws (
    with_text-parts config (codes "Xray configuration") d
      (λ t. on_process d (start 0 h t fd reply d.process))
      (λ t. bridge_work (Bridge.starts 0 h t fd reply)) (λ t. simp parts_laws refl))
step-parts ts d (opens_tun read a registers plan) = simp parts_laws (
    with_text-parts plan (codes "TUN plan") d
      (λ t. tunnel_number d (open_host a registers (read t) d.tunnel))
      (λ t. tunnel_work (Host.opens a registers (read t))) (λ t. simp parts_laws refl))
step-parts ts d (prepares_tun registers name) = simp parts_laws (
    with_text-parts name (codes "interface name") d
      (λ t. tunnel_error d (prepare_binding t registers d.tunnel))
      (λ t. tunnel_work (Host.prepares t registers)) (λ t. simp parts_laws refl))
step-parts ts d (starts_awg read a config port) = simp parts_laws (
    with_text-parts config (codes "AmneziaWG configuration") d
      (λ t. start_runner_on a (read t) port d) (λ t. awg_work a (read t) port)
      (λ t. start_runner_on-parts a (read t) port d))

-- Any calls of these exported functions do to the bridge, to the tunnel host and to the AmneziaWG
-- runner what their own methods do, in order: a function calls the method of one part, to start
-- the runner after taking the socket protector away, and it calls none that changes a part if it
-- reads the log, if a text that it needs is NULL or empty, or if its port is not positive. The
-- texts of the errors have no part in it.
pub run-replay :
    (ts : Texts) (d : Desktop) (ks : List Call) → parts (run ts d ks) ≡ replay (parts d) ks
unfolding run replay
run-replay ts d [] = refl
run-replay ts d (k ∷ ks) =
    run-replay ts (step ts d k).0 ks ∙ ap (λ x. replay x ks) (step-parts ts d k)
