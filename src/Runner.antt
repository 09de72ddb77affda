-- ===== src/Runner.antt =====
-- amneziawg.go, lines 697-738, 787-914 and 944-1056: the AmneziaWG runner of the process, from its
-- settings to its SOCKS listener, and how it is started and stopped. Each exported function runs
-- under the lock of the package and is one step. Devices and listeners are known by the order in
-- which they are made; the context of a listener is known by the listener's number.
pub mod Making
pub mod Starting
pub mod Balance
pub mod Clean
pub mod Refinement
pub mod Serving
pub mod Tests
use skipi_core.Base.{
  ℕ, suc, ◌+◌, Bool, true, false, not, Option, none, some, List, [], ◌∷◌, ◌++◌, ◌==◌, if◌then◌else◌,
  Text, ℤ, pos, ltz, is_positive, update,
}
use skipi_core.Socks.Associate.{NetAddr, v4}
use skipi_core.Awg.{Peer, Settings, Codecs}
use skipi_core.Awg.Validate.{Fault, validate}
use skipi_core.Awg.Build.{build_ipc_config}
use skipi_core.Endpoint.{
  Netip, NameServers, PeerTrouble, Resolved, resolve_peer_endpoints, DnsTrouble, Servers, servers,
  no_dns, netstack_dns_addresses,
}

-- The field `address`: nothing that is used, a text, or a list in which some entries are texts.
pub data Address : Type 0 where
  unused : Address
  one : Text → Address
  many : List (Option Text) → Address

-- `AmneziaWgSettings` with the fields that only the runner reads.
pub record TunnelConfig : Type 0 where
  pub settings : Settings
  pub address : Address
  pub mtu : ℤ
  pub dns_servers : List Text

-- `SocketProtector`: whether `Protect` accepts a descriptor.
abbrev pub Protector : Type 0
Protector = ℤ → Bool

-- `AmneziaWgRunner`; a number stands for what is not nil, and the tunnel has its device's.
pub record Runner : Type 0 where
  pub tun : Option ℕ
  pub dev : Option ℕ
  pub local_addrs : List NetAddr
  pub listener : Option ℕ
  pub socks_port : ℤ
  pub running : Bool
  pub cancel : Option ℕ
  pub protector : Option Protector

-- The variables of the package, and what happened to the devices and the listeners so far.
pub record Machine : Type 0 where
  pub active : Option Runner
  pub socket_protector : Option Protector
  pub devices : ℕ
  pub device_closes : ℕ → ℕ
  pub tun_closes : ℕ → ℕ
  pub listeners : ℕ
  pub listener_closes : ℕ → ℕ
  pub cancels : ℕ → ℕ

unfoldable pub new_machine : Machine
new_machine = record {
  active = none;
  socket_protector = none;
  devices = 0;
  device_closes = λ i. 0;
  tun_closes = λ i. 0;
  listeners = 0;
  listener_closes = λ i. 0;
  cancels = λ i. 0;
}

-- What is answered to a start: by the packages net/netip and encoding/base64, the resolvers, the
-- packages netstack and device, the bind (its two descriptors, an error being `none`, if it
-- exposes them), and the listening socket (the port it got).
pub record Answers : Type 0 where
  pub netip : Netip
  pub codecs : Codecs
  pub resolver : NameServers
  pub creates_tun : List NetAddr → List NetAddr → ℤ → Bool
  pub ipc_set : Text → Bool
  pub up : Bool
  pub descriptors : Option (Option ℤ × Option ℤ)
  pub is_android : Bool
  pub listens : ℤ → Option ℤ

pub data Refusal : Type 0 where
  invalid_settings : Fault → Refusal
  invalid_dns : DnsTrouble → Refusal
  unresolved_peer : PeerTrouble → Refusal
  no_tun no_ipc_config ipc_refused : Refusal
  not_up : Refusal
  bind_hides_descriptors descriptor_rejected nothing_protected : Refusal
  not_listening : Refusal

pub data Failure : Type 0 where
  not_parsed : Failure
  not_initialized not_started : Refusal → Failure

-- One more at the number `i`.
unfoldable pub bump : ℕ → (ℕ → ℕ) → ℕ → ℕ
bump i counts = update counts i (suc (counts i))

abbrev pub close_device : ℕ → Machine → Machine
close_device i h = record h { device_closes = bump i h.device_closes }

local_address : Netip → Text → List NetAddr → List NetAddr
local_address netip t more = elim (netip.parse_prefix t) [
  | some a ↦ a ∷ more
  | none ↦ elim (netip.parse_addr t) [ some a ↦ a ∷ more | none ↦ more ]
]

local_each : Netip → List (Option Text) → List NetAddr
unfolding local_address
local_each netip [] = []
local_each netip (none ∷ rest) = local_each netip rest
local_each netip (some t ∷ rest) = local_address netip t (local_each netip rest)

or_private : List NetAddr → List NetAddr
or_private [] = v4 (10 ∷ 8 ∷ 0 ∷ 2 ∷ []) ∷ []
or_private (a ∷ as_) = a ∷ as_

-- The local addresses of a runner.
unfoldable pub local_addresses : Netip → Address → List NetAddr
unfolding local_address local_each or_private
local_addresses netip unused = or_private []
local_addresses netip (one t) = or_private (local_address netip t [])
local_addresses netip (many ts) = or_private (local_each netip ts)

unfoldable pub positive_or : ℤ → ℤ → ℤ
positive_or n default = if is_positive n then n else default

pub data Made : Type 0 where
  made : Machine → Runner → Made
  refused : Machine → Refusal → Made

-- The settings with their peers resolved and the resolvers, or why there is no runner for them.
pub data Prepared : Type 0 where
  ready : Settings → List NetAddr → Prepared
  unfit : Refusal → Prepared

with_peers : Settings → List NetAddr → Resolved → Prepared
with_peers s dns r = elim r.error [
  | some e ↦ unfit (unresolved_peer e)
  | none ↦ ready (record s { peers = r.peers }) dns
]

with_dns : Answers → Settings → Servers → Prepared
unfolding with_peers
with_dns a s (no_dns t) = unfit (invalid_dns t)
with_dns a s (servers dns) =
    with_peers s dns (resolve_peer_endpoints a.netip a.resolver dns s.peers)

-- The checks at the start of `NewAmneziaWgRunner`.
unfoldable pub prepare : Answers → TunnelConfig → Prepared
unfolding with_dns
prepare a c = elim (validate a.codecs c.settings) [
  | some f ↦ unfit (invalid_settings f)
  | none ↦ with_dns a c.settings (netstack_dns_addresses a.netip c.dns_servers)
]

-- The device, once its tunnel is there: it is closed again if it cannot be configured_device.
configured_device : Answers → Settings → List NetAddr → ℤ → Machine → Made
configured_device a s locals port h =
    let d = h.devices in
    let g = record h { devices = suc d } in
    elim (build_ipc_config a.codecs s) [
      | none ↦ refused (close_device d g) no_ipc_config
      | some ipc ↦
          if a.ipc_set ipc
          then made g (record {
            tun = some d;
            dev = some d;
            local_addrs = locals;
            listener = none;
            socks_port = port;
            running = false;
            cancel = none;
            protector = g.socket_protector;
          })
          else refused (close_device d g) ipc_refused
    ]

-- `NewAmneziaWgRunner`
unfoldable pub new_runner : Answers → TunnelConfig → ℤ → Machine → Made
unfolding prepare local_addresses positive_or configured_device
new_runner a c socks_port h = elim (prepare a c) [
  | unfit e ↦ refused h e
  | ready s dns ↦
      let locals = local_addresses a.netip c.address in
      if a.creates_tun locals dns (positive_or c.mtu (pos 1420))
      then configured_device a s locals (positive_or socks_port (pos 10809)) h
      else refused h no_tun
]

-- The loop over the descriptors: how many are protected, unless one is rejected.
unfoldable pub protect_each : Protector → ℕ → List (Option ℤ) → Option ℕ
protect_each accepts count [] = some count
protect_each accepts count (none ∷ rest) = protect_each accepts count rest
protect_each accepts count (some fd ∷ rest) = elim (ltz fd (pos 0)) [
  | true ↦ protect_each accepts count rest
  | false ↦ elim (accepts fd) [ true ↦ protect_each accepts (suc count) rest | false ↦ none ]
]

protect_result : Bool → Option ℕ → Option Refusal
protect_result is_android none = some descriptor_rejected
protect_result is_android (some count) =
    if count == 0 then (if is_android then some nothing_protected else none) else none

-- `protectPeerSockets`; `none` is success.
unfoldable pub protect_peer_sockets : Option Protector → Answers → Option Refusal
unfolding protect_each protect_result
protect_peer_sockets none a = none
protect_peer_sockets (some accepts) a = elim a.descriptors [
  | none ↦ (if a.is_android then some bind_hides_descriptors else none)
  | some (fd4, fd6) ↦ protect_result a.is_android (protect_each accepts 0 (fd4 ∷ fd6 ∷ []))
]

pub close_held : Option ℕ → Machine → Machine
close_held none h = h
close_held (some d) h = close_device d h

pub record Started : Type 0 where
  pub host : Machine
  pub runner : Runner
  pub error : Option Refusal

-- `Start`
unfoldable pub start_runner : Answers → Runner → Machine → Started
unfolding protect_peer_sockets close_held
start_runner a r h =
    if r.running
    then record { host = h; runner = r; error = none }
    else if not a.up
    then record { host = close_held r.dev h; runner = r; error = some not_up }
    else elim (protect_peer_sockets r.protector a) [
      | some e ↦ record { host = close_held r.dev h; runner = r; error = some e }
      | none ↦ elim (a.listens r.socks_port) [
        | none ↦ record { host = close_held r.dev h; runner = r; error = some not_listening }
        | some port ↦ record {
          host = record h { listeners = suc h.listeners };
          runner = record r {
            listener = some h.listeners;
            socks_port = port;
            cancel = some h.listeners;
            running = true;
          };
          error = none;
        }
      ]
    ]

pub cancel_context : Option ℕ → Machine → Machine
unfolding bump
cancel_context none h = h
cancel_context (some i) h = record h { cancels = bump i h.cancels }

close_listener : Option ℕ → Machine → Machine
unfolding bump
close_listener none h = h
close_listener (some i) h = record h { listener_closes = bump i h.listener_closes }

-- The device if there is one, which closes its tunnel, or else the tunnel.
close_tunnel : Option ℕ → Option ℕ → Machine → Machine
unfolding bump
close_tunnel (some d) tun h = close_device d h
close_tunnel none none h = h
close_tunnel none (some t) h = record h { tun_closes = bump t h.tun_closes }

-- `Stop`, which reports no error.
unfoldable pub stop_runner : Runner → Machine → Machine × Runner
unfolding cancel_context close_listener close_tunnel
stop_runner r h =
    if r.running
    then (
      close_tunnel r.dev r.tun (close_listener r.listener (cancel_context r.cancel h)),
      record r { running = false; listener = none; dev = none; tun = none },
    )
    else (h, r)

abbrev with_active : Option Runner → Machine → Machine
with_active r h = record h { active = r }

-- The tunnel that runs is stopped before the settings of the new one are read.
pub stop_previous : Option Runner → Machine → Machine
unfolding stop_runner
stop_previous none h = h
stop_previous (some r) h = if r.running then with_active none (stop_runner r h).0 else h

launched : Started → Machine × Option Failure
launched s = elim s.error [
  | some e ↦ (s.host, some (not_started e))
  | none ↦ (with_active (some s.runner) s.host, none)
]

launch : Answers → Made → Machine × Option Failure
unfolding start_runner launched
launch a (refused h e) = (h, some (not_initialized e))
launch a (made h r) = launched (start_runner a r h)

-- `StartAmneziaWg`, with what `ParseAmneziaWgSettings` makes of the text.
unfoldable pub start_amnezia_wg :
    Answers → Option TunnelConfig → ℤ → Machine → Machine × Option Failure
unfolding stop_previous new_runner launch
start_amnezia_wg a none socks_port h = (stop_previous h.active h, some not_parsed)
start_amnezia_wg a (some c) socks_port h =
    launch a (new_runner a c socks_port (stop_previous h.active h))

-- `StopAmneziaWg`, which reports no error.
unfoldable pub stop_amnezia_wg : Machine → Machine
unfolding stop_runner
stop_amnezia_wg h = elim h.active [ none ↦ h | some r ↦ with_active none (stop_runner r h).0 ]

is_active : Option Runner → Bool
is_active none = false
is_active (some r) = r.running

-- `IsAmneziaWgRunning`
unfoldable pub is_amnezia_wg_running : Machine → Bool
unfolding is_active
is_amnezia_wg_running h = is_active h.active

-- `SetAmneziaWgSocketProtector`
unfoldable pub set_socket_protector : Option Protector → Machine → Machine
set_socket_protector p h = record h { socket_protector = p }

-- A call of an exported function.
pub data Call : Type 0 where
  starts : Answers → Option TunnelConfig → ℤ → Call
  stops : Call
  protects : Option Protector → Call

unfoldable pub step : Machine → Call → Machine
unfolding start_amnezia_wg stop_amnezia_wg set_socket_protector
step h (starts a c port) = (start_amnezia_wg a c port h).0
step h stops = stop_amnezia_wg h
step h (protects p) = set_socket_protector p h

unfoldable pub run : Machine → List Call → Machine
unfolding step
run h [] = h
run h (k ∷ ks) = run (step h k) ks

-- What `Accept` returns.
pub data Accept : Type 0 where
  connection : ℕ → Accept
  failed : Accept

-- `serveSocks`: each round with whether the context is done when `Accept` returns. It gives the
-- connections that are handled, and the rounds that follow if the loop has ended.
unfoldable pub serve_socks : List (Bool × Accept) → List ℕ × Option (List (Bool × Accept))
serve_socks [] = ([], none)
serve_socks ((is_done, connection c) ∷ rest) =
    let (handled, ended) = serve_socks rest in (c ∷ handled, ended)
serve_socks ((is_done, failed) ∷ rest) = elim is_done [
  | true ↦ ([], some rest)
  | false ↦ serve_socks rest
]
