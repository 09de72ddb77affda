-- ===== src/Lib.antt =====
-- SKIPI Core: a Go library that runs Xray inside an app. A controller starts and stops one Xray
-- instance and reads its traffic counters and its connection log, isolated instances probe
-- outbounds, a desktop host drives several controllers through a bridge, and an AmneziaWG tunnel
-- is reached through a SOCKS5 listener of its own. This library models the parts that carry state
-- or decide something.
--
-- Base: texts as code points, 64-bit words, association lists, lists and Boolean tests, shared by
--   all the other modules.
-- ConnLog (connection_log.go): a session's log. `record_text` is `record`, `snapshot` is
--   `snapshot`; ConnLog/Lines has the three regular expressions.
-- Traffic (skipicore.go, `QueryTrafficStats` and what it calls): Xray's counters drained into
--   totals.
-- Tuning (runtime_tuning.go): the thread count and the pause of the garbage collector.
-- Core (skipicore.go, `CoreController`): `start_loop` is `StartLoop`, `stop_loop` is `StopLoop`.
--   They work on a controller and on a `World` (Core/Surroundings), the process around it: the
--   environment variables, the instances that were made and which of them are closed, the log that
--   Xray has registered and the callbacks so far. Core/Log has the handler in front of Xray's log,
--   which feeds the log of ConnLog.
-- Probe (skipicore.go, `MeasureOutboundDelay` and `MeasureOutboundDownload`): instances beside
--   the running one, in the same `World`.
-- Select (skipicore.go, `FastSelectBestOutbound`): the race between candidates.
-- Bridge (desktop/bridge/bridge.go): runtimes, handles and the lease on the one session, over the
--   controllers of Core.
-- Socks (amneziawg.go, the SOCKS listener): requests, replies and datagrams as bytes.
-- Awg (amneziawg.go, `AmneziaWgSettings`): Awg/Validate is `validateNativeRunnerCompatibility`,
--   Awg/Chain the loop over an obfuscation chain, and Awg/Build is `BuildIpcConfig`.
-- Endpoint (amneziawg.go, `resolvePeerEndpoints` and `netstackDNSAddresses`): where the peers are,
--   by the resolvers of the system and of the settings.
-- Runner (amneziawg.go, `AmneziaWgRunner` and the exported functions around it): a `Machine` has
--   the variables of the package, and how often each device and listener that was made was
--   closed. `new_runner` is `NewAmneziaWgRunner` over Awg and Endpoint, `start_runner` and
--   `stop_runner` are `Start` and `Stop`.
-- Netbind (desktop/netbind): `default_adapter`, `default_interface`, `default_route_metrics` and
--   `default_interface_from_netstat` find the interface of the default route; Netbind/Binder is
--   `Binder`, with the events of its surroundings in order.
-- Tunnel (desktop/nmtun, desktop/tunhost): the settings of a plan, Tunnel/Session a session with
--   NetworkManager and what it leaves open, and Tunnel/Host the one session of the process with
--   the binding that keeps Core's connections off it: `prepare_binding` is `Prepare`,
--   `open_host` and `close_host` are `Open` and `Close`.
-- Documents (amneziawg.go, `ParseAmneziaWgSettings` and `RewriteWireguardOutboundToSocks`): where
--   settings are found in a JSON document, and how its outbounds are rewritten.
-- Desktop (cmd/skipicore-desktop/main.go): the C interface. A `Desktop` is the message of the last
--   error, a process of Bridge, a machine of Runner and a host of Tunnel; Desktop/Exports has the
--   exported functions over them.
--
-- What Xray, the operating system, the network and the clock answer is an argument of the
-- definition that asks, a record such as `Core.Reply`, so the theorems hold of every answer.
-- Methods that run under a lock are one step; other orders are other lists of calls. A channel or
-- a socket is the list of what arrives on it. JSON texts are the records they encode. An int64 is
-- its bit pattern below 2 ^ 64 where it can wrap around, a handle wraps around at 2 ^ 64, and a
-- port is kept as a number. Recursions are on lists, but for the loop over an obfuscation chain,
-- which runs on fuel: the length of the text is enough, since each round takes a tag off it.
--
-- Not modelled: what encoding/json does to a text; desktop/notify; the system calls in
-- desktop/netbind/system_*.go and the calls of desktop/nmtun/probe_linux.go over the bus; the
-- tunnel hosts of the other systems; the functions of the bridge and of the C interface that
-- measure delays, notify or read the memory; the fetching of certificates and the memory
-- statistics of skipicore.go.
-- The zones of IPv6 addresses are left out: an address is its family and its bytes.
-- The regular expressions are read as the package regexp matches them on one line.
pub mod Base
pub mod ConnLog
pub mod Traffic
pub mod Tuning
pub mod Core
pub mod Probe
pub mod Select
pub mod Bridge
pub mod Socks
pub mod Awg
pub mod Endpoint
pub mod Runner
pub mod Netbind
pub mod Tunnel
pub mod Documents
pub mod Desktop
