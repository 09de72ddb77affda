-- ===== src/Endpoint.antt =====
-- amneziawg.go, lines 411-557 and 916-942: where the peers of an AmneziaWG tunnel are, and which
-- resolvers it uses. What the package net/netip reads and prints, and what a resolver answers, are
-- arguments; a deadline is part of the answer after which it has passed.
pub mod HostPort
pub mod Choice
pub mod Peers
pub mod Resolvers
pub mod Tests
use skipi_core.Base.{
  ℕ, suc, Bool, true, false, not, ◌||◌, ◌&&◌, Option, none, some, List, [], ◌∷◌, ◌++◌, ◌==◌,
  if◌then◌else◌, Text, str_eq, is_empty, is_some, trim_space, index_byte, parse_uint,
}
use skipi_core.Socks.Associate.{NetAddr, invalid, v4, v6, unmap, is_usable, is4}
use skipi_core.Awg.{Peer}

-- `netip.ParseAddr`, the address of what `netip.ParsePrefix` returns, and `Addr.String`.
pub record Netip : Type 0 where
  pub parse_addr : Text → Option NetAddr
  pub parse_prefix : Text → Option NetAddr
  pub string : NetAddr → Text

-- The text up to the last colon, and behind it.
unfoldable pub cut_last_colon : Text → Option (Text × Text)
cut_last_colon [] = none
cut_last_colon (c ∷ s) = elim (cut_last_colon s) [
  | some (front, back) ↦ some (c ∷ front, back)
  | none ↦ (if c == b':' then some ([], s) else none)
]

unfoldable pub lacks_byte : ℕ → Text → Bool
unfolding index_byte
lacks_byte c s = not (is_some (index_byte c s))

-- What stands in front of a bracket that ends the text, and holds no other one.
unfoldable pub bracketed : Text → Option Text
bracketed [] = none
bracketed (c ∷ []) = if c == b']' then some [] else none
bracketed (c ∷ d ∷ s) = elim (bracketed (d ∷ s)) [
  | none ↦ none
  | some host ↦ (if c == b']' then none else some (c ∷ host))
]

split_host : Text → Text → Option (Text × Text)
unfolding lacks_byte bracketed
split_host [] port = if lacks_byte b'[' port && lacks_byte b']' port then some ([], port) else none
split_host (c ∷ front) port =
    if c == b'['
    then (elim (bracketed front) [
      | none ↦ none
      | some host ↦
          if lacks_byte b'[' host && (lacks_byte b'[' port && lacks_byte b']' port)
          then some (host, port)
          else none
    ])
    else if lacks_byte b':' (c ∷ front)
        && (lacks_byte b'[' (c ∷ front)
            && (lacks_byte b']' (c ∷ front) && (lacks_byte b'[' port && lacks_byte b']' port)))
    then some (c ∷ front, port)
    else none

-- `net.SplitHostPort`
unfoldable pub split_host_port : Text → Option (Text × Text)
unfolding cut_last_colon split_host
split_host_port s = elim (cut_last_colon s) [
  | none ↦ none
  | some (front, port) ↦ split_host front port
]

-- `net.JoinHostPort`
unfoldable pub join_host_port : Text → Text → Text
unfolding lacks_byte
join_host_port host port =
    if lacks_byte b':' host then host ++ b':' ∷ port else b'[' ∷ (host ++ b']' ∷ b':' ∷ port)

-- `usableAmneziaWgAddresses`
unfoldable pub usable_addresses : List NetAddr → List NetAddr
usable_addresses [] = []
usable_addresses (a ∷ rest) =
    let more = usable_addresses rest in if is_usable (unmap a) then unmap a ∷ more else more

-- What a resolver answers, and whether the caller's deadline has passed then.
pub record Found : Type 0 where
  pub addresses : List NetAddr
  pub expired : Bool

pub record NameServers : Type 0 where
  pub system : Text → List NetAddr
  pub server : NetAddr → Text → Found

unless_empty : List NetAddr → Option (List NetAddr) → Option (List NetAddr)
unless_empty [] later = later
unless_empty (a ∷ rest) later = some (a ∷ rest)

-- `lookupAmneziaWgHostWithConfiguredDNS`; `none` is an error.
unfoldable pub lookup_configured : NameServers → Text → List NetAddr → Option (List NetAddr)
unfolding usable_addresses unless_empty
lookup_configured r host [] = none
lookup_configured r host (s ∷ rest) =
    let later = lookup_configured r host rest in
    if is_usable (unmap s)
    then unless_empty (usable_addresses (r.server (unmap s) host).addresses)
        (if (r.server (unmap s) host).expired then none else later)
    else later

-- The addresses of the second lookup are filtered again.
refiltered : Option (List NetAddr) → List NetAddr
unfolding usable_addresses
refiltered none = []
refiltered (some as_) = usable_addresses as_

-- `lookupAmneziaWgHostWithFallback`, the configured servers second.
unfoldable pub lookup_with_fallback : NameServers → List NetAddr → Text → Option (List NetAddr)
unfolding usable_addresses unless_empty lookup_configured refiltered
lookup_with_fallback r servers host =
    unless_empty (usable_addresses (r.system host))
      (unless_empty (refiltered (lookup_configured r host servers)) none)

is_valid : NetAddr → Bool
is_valid invalid = false
is_valid (v4 ip) = true
is_valid (v6 ip) = true

-- The loop over the addresses that were found, with the first IPv6 address so far.
unfoldable pub pick_address : NetAddr → List NetAddr → Option NetAddr
unfolding is_valid
pick_address first6 [] = if is_valid first6 then some first6 else none
pick_address first6 (a ∷ rest) = elim (is_usable (unmap a)) [
  | false ↦ pick_address first6 rest
  | true ↦ elim (is4 (unmap a)) [
    | true ↦ some (unmap a)
    | false ↦ pick_address (if is_valid first6 then first6 else unmap a) rest
  ]
]

pub data Trouble : Type 0 where
  bad_endpoint bad_port lookup_failed no_address : Trouble

pub data Endpoint : Type 0 where
  at : Text → Endpoint
  trouble : Trouble → Endpoint

unfoldable pub valid_port : Text → Bool
unfolding parse_uint
valid_port port = elim (parse_uint 65536 port) [ none ↦ false | some n ↦ not (n == 0) ]

-- The host as an address, if it is one.
unfoldable pub literal : Netip → Text → Option NetAddr
literal netip host = elim (netip.parse_addr host) [
  | none ↦ none
  | some a ↦ (if is_usable a then some (unmap a) else none)
]

chosen : Netip → Text → Option NetAddr → Endpoint
unfolding join_host_port
chosen netip port none = trouble no_address
chosen netip port (some a) = at (join_host_port (netip.string a) port)

unfoldable pub looked_up : Netip → Text → Option (List NetAddr) → Endpoint
unfolding chosen pick_address
looked_up netip port none = trouble lookup_failed
looked_up netip port (some found) = chosen netip port (pick_address invalid found)

-- `resolveAmneziaWgEndpoint`
unfoldable pub resolve_endpoint : Netip → (Text → Option (List NetAddr)) → Text → Endpoint
unfolding split_host_port trim_space valid_port literal join_host_port looked_up
resolve_endpoint netip lookup raw = elim (split_host_port (trim_space raw)) [
  | none ↦ trouble bad_endpoint
  | some (host, port) ↦
      if is_empty (trim_space host)
      then trouble bad_endpoint
      else if valid_port port
      then (elim (literal netip host) [
        | some a ↦ at (join_host_port (netip.string a) port)
        | none ↦ looked_up netip port (lookup host)
      ])
      else trouble bad_port
]

pub data PeerTrouble : Type 0 where
  missing : ℕ → PeerTrouble
  unresolved : ℕ → Trouble → PeerTrouble

-- What became of the peers, which are changed in place, and the first trouble.
pub record Resolved : Type 0 where
  pub peers : List (Option Peer)
  pub error : Option PeerTrouble

one_more : Option Peer → Resolved → Resolved
one_more p r = record { peers = p ∷ r.peers; error = r.error }

-- `resolvePeerEndpoints`, from the peer number `index` on.
unfoldable pub resolve_peers : (Text → Endpoint) → ℕ → List (Option Peer) → Resolved
unfolding one_more
resolve_peers resolve index [] = record { peers = []; error = none }
resolve_peers resolve index (none ∷ rest) = record {
  peers = none ∷ rest;
  error = some (missing index);
}
resolve_peers resolve index (some p ∷ rest) = elim (resolve p.endpoint) [
  | trouble t ↦ record { peers = some p ∷ rest; error = some (unresolved index t) }
  | at e ↦ one_more (some (record p { endpoint = e })) (resolve_peers resolve (suc index) rest)
]

unfoldable pub resolve_peer_endpoints :
    Netip → NameServers → List NetAddr → List (Option Peer) → Resolved
unfolding resolve_peers resolve_endpoint lookup_with_fallback
resolve_peer_endpoints netip r servers peers =
    resolve_peers (resolve_endpoint netip (lookup_with_fallback r servers)) 0 peers

-- Whether two addresses are the same key of a map.
unfoldable pub same_address : NetAddr → NetAddr → Bool
same_address invalid invalid = true
same_address (v4 a) (v4 b) = str_eq a b
same_address (v6 a) (v6 b) = str_eq a b
same_address _ _ = false

unfoldable pub occurs : NetAddr → List NetAddr → Bool
unfolding same_address
occurs a [] = false
occurs a (b ∷ bs) = same_address a b || occurs a bs

pub data DnsTrouble : Type 0 where
  bad_server : Text → DnsTrouble
  no_servers : DnsTrouble

pub data Servers : Type 0 where
  servers : List NetAddr → Servers
  no_dns : DnsTrouble → Servers

-- One value of the list that is not blank, as an address.
unfoldable pub server_address : Netip → Text → Option NetAddr
server_address netip value = elim (netip.parse_addr value) [
  | none ↦ none
  | some a ↦ (if is_usable a then some (unmap a) else none)
]

-- The loop over `DNSServers`, with the addresses so far.
unfoldable pub dns_from : Netip → List NetAddr → List Text → Servers
unfolding trim_space server_address occurs
dns_from netip seen [] = elim seen [ [] ↦ no_dns no_servers | a ∷ as_ ↦ servers (a ∷ as_) ]
dns_from netip seen (raw ∷ rest) = elim (is_empty (trim_space raw)) [
  | true ↦ dns_from netip seen rest
  | false ↦ elim (server_address netip (trim_space raw)) [
    | none ↦ no_dns (bad_server raw)
    | some a ↦ elim (occurs a seen) [
      | true ↦ dns_from netip seen rest
      | false ↦ dns_from netip (seen ++ a ∷ []) rest
    ]
  ]
]

-- `netstackDNSAddresses`
unfoldable pub netstack_dns_addresses : Netip → List Text → Servers
unfolding dns_from
netstack_dns_addresses netip raws = dns_from netip [] raws
