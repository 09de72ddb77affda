-- ===== src/Socks.antt =====
-- amneziawg.go, lines 1056-1218 and 1300-1434: the SOCKS5 listener in front of the tunnel. Bytes are
-- numbers below 256. An address that a request spells in bytes is kept as bytes in place of its
-- text, which `net.ParseIP` reads back; `net.ParseIP` of a name and the tunnel's answers are
-- arguments.
pub mod Address
pub mod Request
pub mod Datagram
pub mod Associate
pub mod Tests
use skipi_core.Base.{
  ℕ, ◌+◌, ◌-◌, ◌*◌, ◌/◌, ◌%◌, Bool, true, false, not, ◌||◌, ◌&&◌, Option, none, some, List, [], ◌∷◌,
  ◌++◌, ◌==◌, if◌then◌else◌, ltb, leb, Text, str_eq, is_empty, length, take, drop,
}

-- `net.IP` is its bytes, and `net.UDPAddr` is this.
pub record Addr : Type 0 where
  pub ip : List ℕ
  pub port : ℕ

-- The first twelve bytes of an IPv4 address in its form of sixteen.
abbrev pub v4_prefix : List ℕ
v4_prefix = 0 ∷ 0 ∷ 0 ∷ 0 ∷ 0 ∷ 0 ∷ 0 ∷ 0 ∷ 0 ∷ 0 ∷ 255 ∷ 255 ∷ []

-- `IP.To4`, `IP.To16` and `IP.Equal`
unfoldable pub to4 : List ℕ → Option (List ℕ)
to4 ip =
    if length ip == 4
    then some ip
    else if length ip == 16 && str_eq (take 12 ip) v4_prefix
    then some (drop 12 ip)
    else none

unfoldable pub to16 : List ℕ → Option (List ℕ)
to16 ip =
    if length ip == 4 then some (v4_prefix ++ ip) else if length ip == 16 then some ip else none

unfoldable pub ip_equal : List ℕ → List ℕ → Bool
unfolding to16
ip_equal a b = elim (to16 a) [
  | none ↦ str_eq a b
  | some x ↦ elim (to16 b) [ none ↦ false | some y ↦ str_eq x y ]
]

-- `io.ReadFull` of so many bytes, with the bytes behind them.
unfoldable pub read_full : ℕ → List ℕ → Option (List ℕ × List ℕ)
read_full n bs = if leb n (length bs) then some (take n bs, drop n bs) else none

pub data Host : Type 0 where
  ip_host : List ℕ → Host
  name_host : Text → Host

pub data ReadError : Type 0 where
  short empty_domain unsupported : ReadError

-- What a reader comes to, with the bytes that are left.
pub data Read (A : Type 0) : Type 0 where
  got : A → List ℕ → Read A
  failed : ReadError → Read A

pub read_port : Host → List ℕ → Read (Host × ℕ)
read_port host (a ∷ b ∷ rest) = got (host, a * 256 + b) rest
read_port host (a ∷ []) = failed short
read_port host [] = failed short

-- The bytes of an address, then the port.
pub then_port : (List ℕ → Host) → Option (List ℕ × List ℕ) → Read (Host × ℕ)
unfolding read_port
then_port f none = failed short
then_port f (some (bytes, rest)) = read_port (f bytes) rest

read_name : List ℕ → Read (Host × ℕ)
unfolding read_full then_port
read_name [] = failed short
read_name (n ∷ bs) = if n == 0 then failed empty_domain else then_port name_host (read_full n bs)

-- `readSocksAddress`
unfoldable pub read_socks_address : List ℕ → ℕ → Read (Host × ℕ)
unfolding read_full then_port read_name
read_socks_address bs atyp =
    if atyp == 1
    then then_port ip_host (read_full 4 bs)
    else if atyp == 3
    then read_name bs
    else if atyp == 4
    then then_port ip_host (read_full 16 bs)
    else failed unsupported

-- `binary.BigEndian.AppendUint16` of `uint16(port)`
abbrev pub port_bytes : ℕ → List ℕ
port_bytes port = (port % 65536) / 256 ∷ (port % 65536) % 256 ∷ []

-- The address of a reply: `To4`, else `To16`, else zeros.
address_bytes : List ℕ → List ℕ
unfolding to4 to16
address_bytes ip = elim (to4 ip) [
  | some a ↦ 1 ∷ a
  | none ↦ elim (to16 ip) [ some a ↦ 4 ∷ a | none ↦ 1 ∷ 0 ∷ 0 ∷ 0 ∷ 0 ∷ [] ]
]

-- The bytes that `sendSocksReplyWithAddress` writes.
unfoldable pub socks_reply_with_address : ℕ → Addr → List ℕ
unfolding address_bytes
socks_reply_with_address rep a = 5 ∷ rep ∷ 0 ∷ address_bytes a.ip ++ port_bytes a.port

-- `sendSocksReply`
unfoldable pub socks_reply : ℕ → List ℕ
unfolding socks_reply_with_address
socks_reply rep =
    socks_reply_with_address rep (record { ip = v4_prefix ++ 0 ∷ 0 ∷ 0 ∷ 0 ∷ []; port = 0 })

-- `net.ParseIP` of a name, and `LookupHost` of the tunnel.
pub record Resolver : Type 0 where
  pub parse_ip : Text → Option (List ℕ)
  pub lookup_host : Text → Option (List Text)

first_address : Resolver → Option (List Text) → Option (List ℕ)
first_address s none = none
first_address s (some []) = none
first_address s (some (a ∷ rest)) = s.parse_ip a

-- The address of a host: the tunnel is asked for a name that is no address.
unfoldable pub resolve_ip : Resolver → Host → Option (List ℕ)
unfolding to16 first_address
resolve_ip s (ip_host ip) = to16 ip
resolve_ip s (name_host name) = elim (s.parse_ip name) [
  | some ip ↦ some ip
  | none ↦ first_address s (s.lookup_host name)
]

-- `resolveTunnelUDPAddress`
unfoldable pub resolve_tunnel_udp_address : Resolver → Host × ℕ → Option Addr
resolve_tunnel_udp_address s (host, port) = elim (resolve_ip s host) [
  | none ↦ none
  | some ip ↦ some (record { ip = ip; port = port })
]

-- How a connection goes on: it is closed, it is refused with a reply, it becomes a UDP association,
-- or a target is dialled, with the bytes that the client has sent beyond its request.
pub data Action : Type 0 where
  closes : Action
  refuses : ℕ → Action
  associates : List ℕ → Action
  dials : Addr → List ℕ → Action

dial : Resolver → Host × ℕ → List ℕ → Action
unfolding resolve_ip
dial s (host, port) rest = elim (resolve_ip s host) [
  | none ↦ refuses 4
  | some ip ↦ dials (record { ip = ip; port = port }) rest
]

-- The commands, once the address has been read.
pub command : Resolver → ℕ → Host × ℕ → List ℕ → Action
unfolding dial
command s cmd target rest =
    if cmd == 3 then associates rest else if cmd == 1 then dial s target rest else refuses 7

after_address : Resolver → ℕ → Read (Host × ℕ) → Action
unfolding command
after_address s cmd (failed e) = refuses 8
after_address s cmd (got target rest) = command s cmd target rest

request : Resolver → List ℕ → Action
unfolding after_address read_socks_address
request s (version ∷ cmd ∷ reserved ∷ atyp ∷ bs) =
    if version == 5 then after_address s cmd (read_socks_address bs atyp) else closes
request s (version ∷ cmd ∷ reserved ∷ []) = closes
request s (version ∷ cmd ∷ []) = closes
request s (version ∷ []) = closes
request s [] = closes

-- The methods are read and not looked at.
after_greeting : Resolver → Option (List ℕ × List ℕ) → List ℕ × Action
unfolding request
after_greeting s none = ([], closes)
after_greeting s (some (methods, rest)) = (5 ∷ 0 ∷ [], request s rest)

-- `handleSocksConn` up to the dialling, on the bytes that the client sends: the bytes written in
-- answer to the greeting, and the action.
unfoldable pub handle_socks_conn : Resolver → List ℕ → List ℕ × Action
unfolding after_greeting read_full
handle_socks_conn s (version ∷ count ∷ bs) =
    if version == 5 then after_greeting s (read_full count bs) else ([], closes)
handle_socks_conn s (version ∷ []) = ([], closes)
handle_socks_conn s [] = ([], closes)

with_payload : List ℕ → Option Addr → Option (List ℕ × Addr)
with_payload payload none = none
with_payload payload (some addr) = some (payload, addr)

-- The datagram behind the reading of its address from its fourth byte on.
datagram : Resolver → List ℕ → Read (Host × ℕ) → Option (List ℕ × Addr)
unfolding with_payload resolve_tunnel_udp_address
datagram s packet (failed e) = none
datagram s packet (got target rest) =
    let consumed = length (drop 3 packet) - length rest in
    if consumed == 0 || ltb (length packet) (3 + consumed)
    then none
    else with_payload (drop (3 + consumed) packet) (resolve_tunnel_udp_address s target)

-- `parseSocksUDPDatagram`, with the reader as in the code: it starts at the type of the address.
unfoldable pub parse_socks_udp_datagram : Resolver → List ℕ → Option (List ℕ × Addr)
unfolding datagram read_socks_address
parse_socks_udp_datagram s (a ∷ b ∷ c ∷ atyp ∷ bs) =
    if not (a == 0) || not (b == 0) || not (c == 0)
    then none
    else datagram s (a ∷ b ∷ c ∷ atyp ∷ bs) (read_socks_address (atyp ∷ bs) atyp)
parse_socks_udp_datagram s (a ∷ b ∷ c ∷ []) = none
parse_socks_udp_datagram s (a ∷ b ∷ []) = none
parse_socks_udp_datagram s (a ∷ []) = none
parse_socks_udp_datagram s [] = none

-- `To16` of an address that has neither form is nil.
or_nil : Option (List ℕ) → List ℕ
or_nil none = []
or_nil (some ip) = ip

source_bytes : List ℕ → List ℕ
unfolding to4 to16 or_nil
source_bytes ip = elim (to4 ip) [ some a ↦ 1 ∷ a | none ↦ 4 ∷ or_nil (to16 ip) ]

-- `buildSocksUDPDatagram`
unfoldable pub build_socks_udp_datagram : Addr → List ℕ → List ℕ
unfolding source_bytes
build_socks_udp_datagram source payload =
    0 ∷ 0 ∷ 0 ∷ source_bytes source.ip ++ port_bytes source.port ++ payload
