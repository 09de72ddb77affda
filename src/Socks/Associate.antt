-- ===== src/Socks/Associate.antt =====
-- amneziawg.go, lines 1222-1379: the datagrams of a UDP association, and the local address for
-- each family. The tunnel's answers are arguments; what is passed to its `WriteTo` is kept in order.
pub mod Client
pub mod Family
use skipi_core.Base.{
  ℕ, ◌≡◌, ◌≢◌, refl, ap, ◌∙◌, ◌⊎◌, inl, inr, Bool, true, false, not, ◌||◌, ◌&&◌, Option, none, some,
  List, [], ◌∷◌, ◌++◌, ◌==◌, if◌then◌else◌, Bool-cases, Option-cases, arith, length, take, drop,
  str_eq, is_some, All, All-append, ==_refl, ==_iff,
}
use skipi_core.Socks.{Addr, to4, to16, ip_equal, v4_prefix, Resolver, parse_socks_udp_datagram}

-- `netip.Addr`; the zero one is not valid.
pub data NetAddr : Type 0 where
  invalid : NetAddr
  v4 v6 : List ℕ → NetAddr

all_zero : List ℕ → Bool
all_zero [] = true
all_zero (b ∷ bs) = b == 0 && all_zero bs

-- `Unmap`
unfoldable pub unmap : NetAddr → NetAddr
unmap invalid = invalid
unmap (v4 ip) = v4 ip
unmap (v6 ip) = if str_eq (take 12 ip) v4_prefix then v4 (drop 12 ip) else v6 ip

-- `IsValid`, and not `IsUnspecified`.
unfoldable pub is_usable : NetAddr → Bool
unfolding all_zero
is_usable invalid = false
is_usable (v4 ip) = not (all_zero ip)
is_usable (v6 ip) = not (all_zero ip)

abbrev pub is4 : NetAddr → Bool
is4 invalid = false
is4 (v4 ip) = true
is4 (v6 ip) = false

abbrev pub bytes_of : NetAddr → List ℕ
bytes_of invalid = []
bytes_of (v4 ip) = ip
bytes_of (v6 ip) = ip

same_family : Bool → Bool → Bool
same_family true b = b
same_family false b = not b

serves : Bool → NetAddr → Bool
unfolding same_family
serves want4 a = is_usable a && same_family want4 (is4 a)

-- The loop over the local addresses.
first_local : Bool → List NetAddr → Option Addr
unfolding serves
first_local want4 [] = none
first_local want4 (a ∷ as_) =
    let later = first_local want4 as_ in
    if serves want4 (unmap a) then some (record { ip = bytes_of (unmap a); port = 0 }) else later

-- `amneziaWgUDPBindAddress`: the address, and whether the family is IPv4.
unfoldable pub udp_bind_address : Addr → List NetAddr → Option (Addr × Bool)
unfolding first_local
udp_bind_address destination locals =
    let want4 = is_some (to4 destination.ip) in
    if not (want4 || is_some (to16 destination.ip))
    then none
    else elim (first_local want4 locals) [ none ↦ none | some a ↦ some (a, want4) ]

-- `clientAddr`, which families have a tunnel socket, and what was sent: the source, the
-- destination and the payload.
pub record Association : Type 0 where
  pub client : Option Addr
  pub tunnel4 : Bool
  pub tunnel6 : Bool
  pub sent : List (Addr × (Addr × List ℕ))

abbrev pub opened : Association
opened = record { client = none; tunnel4 = false; tunnel6 = false; sent = [] }

pub same_addr : Addr → Addr → Bool
same_addr c source = ip_equal c.ip source.ip && c.port == source.port

-- The client, which is the first source that gets so far.
pin : Option Addr → Addr → Addr
pin none source = source
pin (some c) source = c

-- The datagram once it has a tunnel socket.
pinned : Association → Addr → Addr → List ℕ → Association
unfolding pin same_addr
pinned a source destination payload =
    let c = pin a.client source in
    record a {
      client = some c;
      sent = if same_addr c source then a.sent ++ (source, (destination, payload)) ∷ [] else a.sent;
    }

-- `tunnelFor`: the socket of the family, which is made if there is none and `listens` says that
-- this succeeds.
tunnel_for : Association → Bool → Option (Addr × Bool) → Option Association
tunnel_for a listens none = none
tunnel_for a listens (some (bind, want4)) =
    if (if want4 then a.tunnel4 else a.tunnel6)
    then some a
    else if listens
    then some (record a { tunnel4 = want4 || a.tunnel4; tunnel6 = not want4 || a.tunnel6 })
    else none

then_send : Association → Option Association → Addr → Addr → List ℕ → Association
unfolding pinned
then_send a none source destination payload = a
then_send a (some b) source destination payload = pinned b source destination payload

forward : Association → List NetAddr → Bool → Addr → Option (List ℕ × Addr) → Association
unfolding then_send tunnel_for udp_bind_address
forward a locals listens source none = a
forward a locals listens source (some (payload, destination)) =
    then_send a (tunnel_for a listens (udp_bind_address destination locals)) source destination
      payload

pub from_control : Option (List ℕ) → Addr → Bool
from_control none source = true
from_control (some ip) source = ip_equal source.ip ip

-- A datagram that reaches the socket, and whether a tunnel socket could be made for it.
pub record Arrival : Type 0 where
  pub source : Addr
  pub packet : List ℕ
  pub listens : Bool

-- One round of the loop over the client's datagrams in `handleSocksUDPAssociate`.
unfoldable pub receive_datagram :
    Resolver → List NetAddr → Option (List ℕ) → Association → Arrival → Association
unfolding from_control forward
receive_datagram s locals control a d =
    if from_control control d.source
    then forward a locals d.listens d.source (parse_socks_udp_datagram s d.packet)
    else a

unfoldable pub receive_all :
    Resolver → List NetAddr → Option (List ℕ) → Association → List Arrival → Association
receive_all s locals control a [] = a
receive_all s locals control a (d ∷ ds) =
    receive_all s locals control (receive_datagram s locals control a d) ds
