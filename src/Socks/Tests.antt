-- ===== src/Socks/Tests.antt =====
-- The theorems on amneziawg.go's SOCKS5 listener at concrete bytes.
use skipi_core.Base.{◌≡◌, refl, true, none, some, List, [], ◌∷◌, ◌++◌, arith, codes, str_eq}
use skipi_core.Socks.{
  Addr, v4_prefix, Resolver, Host, name_host, command, handle_socks_conn, parse_socks_udp_datagram,
  build_socks_udp_datagram, to4,
}
use skipi_core.Socks.Address.{encode}
use skipi_core.Socks.Request.{handle_socks_conn-encode}
use skipi_core.Socks.Datagram.{parse-build-shifted}
use skipi_core.Socks.Associate.{
  NetAddr, v4, v6, opened, Arrival, receive_all, udp_bind_address, is_usable, unmap,
}
use skipi_core.Socks.Associate.Client.{AllFrom, receive_all-AllFrom}

abbrev resolver : Resolver
resolver = record { parse_ip = λ t. none; lookup_host = λ t. none }

abbrev target : Host
target = name_host (codes "example.org")

abbrev local_ : Addr
local_ = record { ip = 127 ∷ 0 ∷ 0 ∷ 1 ∷ []; port = 1080 }

handle_socks_conn-encode_example :
    handle_socks_conn resolver
      (5 ∷ 1 ∷ ((0 ∷ []) ++ (5 ∷ 1 ∷ 0 ∷ (encode target 443).0 ∷ ((encode target 443).1 ++ []))))
    ≡ (5 ∷ 0 ∷ [], command resolver 1 (target, 443) [])
handle_socks_conn-encode_example =
    handle_socks_conn-encode resolver (0 ∷ []) 1 0 target 443 [] (omega arith, omega arith)
      (omega arith)

-- A query for 8.8.4.53, port 53, goes to port 13568 of 1.8.8.4.
parse-build-shifted_example :
    parse_socks_udp_datagram resolver
      (build_socks_udp_datagram (record { ip = 8 ∷ 8 ∷ 4 ∷ 53 ∷ []; port = 53 }) (7 ∷ []))
    ≡ some (53 ∷ 7 ∷ [], record { ip = v4_prefix ++ 1 ∷ 8 ∷ 8 ∷ 4 ∷ []; port = 13568 })
parse-build-shifted_example = parse-build-shifted resolver 8 8 4 53 53 (7 ∷ [])

abbrev arrivals : List Arrival
arrivals =
    record {
      source = local_;
      packet = build_socks_udp_datagram (record { ip = 8 ∷ 8 ∷ 4 ∷ 53 ∷ []; port = 53 }) (7 ∷ []);
      listens = true;
    }
    ∷ []

abbrev locals : List NetAddr
locals =
    v6 (253 ∷ 0 ∷ 0 ∷ 0 ∷ 0 ∷ 0 ∷ 0 ∷ 0 ∷ 0 ∷ 0 ∷ 0 ∷ 0 ∷ 0 ∷ 0 ∷ 0 ∷ 2 ∷ [])
    ∷ v4 (10 ∷ 8 ∷ 0 ∷ 2 ∷ [])
    ∷ []

receive_all-AllFrom_example :
    AllFrom
      (some (127 ∷ 0 ∷ 0 ∷ 1 ∷ []))
      (receive_all resolver locals (some (127 ∷ 0 ∷ 0 ∷ 1 ∷ [])) opened arrivals)
unfolding AllFrom
receive_all-AllFrom_example =
    receive_all-AllFrom resolver locals (some (127 ∷ 0 ∷ 0 ∷ 1 ∷ [])) opened arrivals tt

bind_test :
    udp_bind_address (record { ip = 8 ∷ 8 ∷ 4 ∷ 53 ∷ []; port = 53 }) locals
    ≡ some (record { ip = 10 ∷ 8 ∷ 0 ∷ 2 ∷ []; port = 0 }, true)
unfolding udp_bind_address to4 is_usable unmap str_eq
bind_test = refl
