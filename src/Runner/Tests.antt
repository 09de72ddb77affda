-- ===== src/Runner/Tests.antt =====
-- The theorems on amneziawg.go's runner at concrete settings and answers.
use skipi_core.Base.{
  ◌≡◌, refl, not, true, none, some, is_some, List, [], ◌∷◌, ◌++◌, codes, pos, negsuc, trim_space,
  str_eq, split, format_int,
}
use skipi_core.Socks.Associate.{is_usable, unmap}
use skipi_core.Awg.{
  string_val, decode_key_to_hex, version3_ranges, version31_flags, parse_flag, range_set, to_lower,
}
use skipi_core.Awg.Chain.{valid_chain}
use skipi_core.Awg.Validate.{
  validate, orelse, all_or, valid_header_range, range_ok, flag_ok, check_key, check_peers,
  valid_u16_range,
}
use skipi_core.Awg.Tests.{codecs, settings}
use skipi_core.Awg.Build.{build_ipc_config, flag_lines, peer_lines}
use skipi_core.Endpoint.Tests.{netip, resolver}
use skipi_core.Endpoint.{
  netstack_dns_addresses, resolve_peer_endpoints, split_host_port, valid_port, literal,
  join_host_port,
}
use skipi_core.Runner.{
  TunnelConfig, one, new_machine, Answers, prepare, start_amnezia_wg, is_amnezia_wg_running, Call,
  starts, stops, protects, run, Runner, Machine, Accept, connection, failed, protect_peer_sockets,
  positive_or, local_addresses,
}
use skipi_core.Runner.Making.{configures}
use skipi_core.Runner.Starting.{port_opened}
use skipi_core.Runner.Clean.{IsClean, new_machine-IsClean, run-IsClean}
use skipi_core.Runner.Refinement.{view, replay, port_served, start_amnezia_wg-serves, run-view}

answers : Answers
answers = record {
  netip = netip;
  codecs = codecs;
  resolver = resolver;
  creates_tun = λ locals dns mtu. true;
  ipc_set = λ text. true;
  up = true;
  descriptors = some (some (pos 7), some (negsuc 0));
  is_android = true;
  listens = λ port. some port;
}

config : TunnelConfig
config = record {
  settings = settings;
  address = one (codes "10.0.0.2/32");
  mtu = pos 0;
  dns_servers = codes "9.9.9.9" ∷ [];
}

calls : List Call
calls = protects (some (λ fd. true)) ∷ starts answers none (pos 0) ∷ stops ∷ []

run-IsClean_example : IsClean (run new_machine (calls ++ starts answers (some config) (pos 0) ∷ []))
run-IsClean_example =
    run-IsClean new_machine (calls ++ starts answers (some config) (pos 0) ∷ []) new_machine-IsClean

run-view_example : view (run new_machine calls) ≡ replay (view new_machine) calls
run-view_example = run-view new_machine calls new_machine-IsClean

settings_fit : configures answers config ≡ true
unfolding configures answers config prepare validate orelse all_or valid_header_range string_val
    str_eq split valid_chain decode_key_to_hex version3_ranges version31_flags range_ok flag_ok
    parse_flag check_key check_peers valid_u16_range range_set to_lower trim_space netip
    netstack_dns_addresses is_usable unmap resolve_peer_endpoints split_host_port valid_port literal
    join_host_port build_ipc_config local_addresses format_int flag_lines peer_lines
settings_fit = refl

tunnel_served : port_served answers (some (λ fd. true)) (some config) (pos 0) ≡ some (pos 10809)
unfolding port_served answers port_opened protect_peer_sockets positive_or
tunnel_served = rw settings_fit refl

start_amnezia_wg-serves_example :
    let o = start_amnezia_wg answers (some config) (pos 0) (run new_machine calls) in
    let p = port_served answers (run new_machine calls).socket_protector (some config) (pos 0) in
    (view o.0 ≡ record { port = p; guard = (run new_machine calls).socket_protector })
    × (is_some o.1 ≡ not (is_some p))
    × (is_amnezia_wg_running o.0 ≡ is_some p)
start_amnezia_wg-serves_example =
    start_amnezia_wg-serves answers (some config) (pos 0) (run new_machine calls)
      (run-IsClean new_machine calls new_machine-IsClean)

-- A host on which the runner with the listener 0 runs.
abbrev serving : Runner
serving = record {
  tun = some 0;
  dev = some 0;
  local_addrs = [];
  listener = some 0;
  socks_port = pos 10809;
  running = true;
  cancel = some 0;
  protector = none;
}

abbrev serving_machine : Machine
serving_machine = record new_machine { active = some serving; devices = 1; listeners = 1 }

abbrev heard_before : List Accept
heard_before = connection 3 ∷ failed ∷ connection 4 ∷ []
