-- ===== src/Endpoint/Tests.antt =====
-- The theorems on where the peers of amneziawg.go are at concrete endpoints and resolvers.
use skipi_core.Base.{
  ◌≡◌, refl, ◌⊎◌, false, Option, none, some, List, [], ◌∷◌, arith, Text, codes, str_eq, trim_space,
  is_space, if◌then◌else◌,
}
use skipi_core.Socks.Associate.{NetAddr, invalid, v4, v6, unmap, is_usable}
use skipi_core.Endpoint.{
  Netip, NameServers, at, trouble, lookup_failed, resolve_endpoint, split_host_port, join_host_port,
  lookup_with_fallback, valid_port, literal, usable_addresses, lookup_configured, servers, no_dns,
  bad_server, netstack_dns_addresses, pick_address,
}
use skipi_core.Endpoint.Choice.{preferred, resolve_endpoint-named}
use skipi_core.Endpoint.HostPort.{IsPlain, IsRead, resolve_endpoint-join}

abbrev pub dns4 : NetAddr
dns4 = v4 (9 ∷ 9 ∷ 9 ∷ 9 ∷ [])

abbrev pub server4 : NetAddr
server4 = v4 (203 ∷ 0 ∷ 113 ∷ 5 ∷ [])

abbrev server6 : NetAddr
server6 = v6 (32 ∷ 1 ∷ 0 ∷ 0 ∷ 0 ∷ 0 ∷ 0 ∷ 0 ∷ 0 ∷ 0 ∷ 0 ∷ 0 ∷ 0 ∷ 0 ∷ 0 ∷ 1 ∷ [])

table : List (Text × NetAddr) → Text → Option NetAddr
unfolding str_eq
table [] t = none
table ((name, a) ∷ rest) t = if str_eq name t then some a else table rest t

names : List (Text × NetAddr)
names = (codes "9.9.9.9", dns4) ∷ (codes "203.0.113.5", server4) ∷ (codes "2001::1", server6) ∷ []

printed : NetAddr → Text
unfolding str_eq
printed invalid = codes "invalid IP"
printed (v4 ip) = if str_eq ip (9 ∷ 9 ∷ 9 ∷ 9 ∷ []) then codes "9.9.9.9" else codes "203.0.113.5"
printed (v6 ip) = codes "2001::1"

unfoldable pub netip : Netip
unfolding table names printed
netip = record { parse_addr = table names; parse_prefix = λ t. none; string = printed }

unfoldable pub resolver : NameServers
resolver = record {
  system = λ host. v4 (0 ∷ 0 ∷ 0 ∷ 0 ∷ []) ∷ [];
  server = λ a host. record { addresses = server6 ∷ server4 ∷ []; expired = false };
}

split_test : split_host_port (codes "[2001::1]:51820") ≡ some (codes "2001::1", codes "51820")
unfolding split_host_port
split_test = refl

split_colons_test : split_host_port (codes "2001::1:51820") ≡ none
unfolding split_host_port
split_colons_test = refl

read6 : IsRead netip server6
unfolding IsRead netip IsPlain is_space
read6 = (refl, λ e. cc, ground arith, ground arith)

resolve_endpoint-join_example :
    resolve_endpoint netip (λ host. none) (join_host_port (codes "2001::1") (codes "51820"))
    ≡ at (join_host_port (codes "2001::1") (codes "51820"))
unfolding netip is_usable unmap str_eq valid_port
resolve_endpoint-join_example =
    resolve_endpoint-join netip (λ host. none) server6 (codes "51820") read6 refl refl refl

resolve_endpoint-named_example :
    let lookup = lookup_with_fallback resolver (dns4 ∷ []) in
    ((lookup (codes "vpn.example") ≡ none)
      × (resolve_endpoint netip lookup (codes " vpn.example:51820") ≡ trouble lookup_failed))
    ⊎ ((found : List NetAddr) × (a : NetAddr) × (lookup (codes "vpn.example") ≡ some found)
        × (preferred found ≡ some a)
        × (resolve_endpoint netip lookup (codes " vpn.example:51820")
            ≡ at (join_host_port (netip.string a) (codes "51820"))))
unfolding split_host_port trim_space valid_port literal netip
resolve_endpoint-named_example =
    resolve_endpoint-named netip resolver (dns4 ∷ []) (codes " vpn.example:51820")
      (codes "vpn.example") (codes "51820") refl refl refl refl

-- The IPv4 address is taken, which comes second.
named_test :
    resolve_endpoint netip (lookup_with_fallback resolver (dns4 ∷ [])) (codes " vpn.example:51820")
    ≡ at (codes "203.0.113.5:51820")
unfolding resolve_endpoint netip resolver lookup_with_fallback lookup_configured pick_address
    usable_addresses is_usable unmap str_eq literal join_host_port
named_test = refl

dns_values : List Text
dns_values = codes " 9.9.9.9" ∷ [] ∷ codes "9.9.9.9" ∷ []

dns_found : netstack_dns_addresses netip dns_values ≡ servers (dns4 ∷ [])
unfolding netstack_dns_addresses netip dns_values trim_space is_usable unmap
dns_found = refl

dns_bad_test :
    netstack_dns_addresses netip (codes "dns.example" ∷ [])
    ≡ no_dns (bad_server (codes "dns.example"))
unfolding netstack_dns_addresses netip trim_space
dns_bad_test = refl
