-- ===== src/Socks/Datagram.antt =====
-- What amneziawg.go's `parseSocksUDPDatagram` makes of the datagrams that `buildSocksUDPDatagram`
-- builds.
use skipi_core.Base.{
  ℕ, ◌+◌, ◌-◌, ◌*◌, ◌/◌, ◌%◌, ◌≡◌, refl, ap, ◌∙◌, false, some, List, [], ◌∷◌, ◌++◌, ltb, arith,
  length,
}
use skipi_core.Socks.{
  v4_prefix, Resolver, ip_host, to4, to16, read_port, then_port, read_socks_address, resolve_ip,
  resolve_tunnel_udp_address, parse_socks_udp_datagram, build_socks_udp_datagram, source_bytes,
  datagram, with_payload, got,
}
use skipi_core.Socks.Address.{read_full-append}

read_shifted :
    (a b c d h l : ℕ) (payload : List ℕ)
    → read_socks_address (1 ∷ a ∷ b ∷ c ∷ d ∷ h ∷ l ∷ payload) 1
      ≡ got (ip_host (1 ∷ a ∷ b ∷ c ∷ []), d * 256 + h) (l ∷ payload)
unfolding read_socks_address then_port read_port
read_shifted a b c d h l payload =
    ap (then_port ip_host) (read_full-append 4 (1 ∷ a ∷ b ∷ c ∷ []) (d ∷ h ∷ l ∷ payload) refl)

datagram_shifted :
    (s : Resolver) (a b c d h l : ℕ) (payload : List ℕ)
    → datagram s
        (0 ∷ 0 ∷ 0 ∷ 1 ∷ a ∷ b ∷ c ∷ d ∷ h ∷ l ∷ payload)
        (got (ip_host (1 ∷ a ∷ b ∷ c ∷ []), d * 256 + h) (l ∷ payload))
      ≡ some (l ∷ payload, record { ip = v4_prefix ++ 1 ∷ a ∷ b ∷ c ∷ []; port = d * 256 + h })
unfolding datagram with_payload resolve_tunnel_udp_address resolve_ip to16
datagram_shifted s a b c d h l payload =
    let six : length (1 ∷ a ∷ b ∷ c ∷ d ∷ h ∷ l ∷ payload) - length (l ∷ payload) ≡ 6 =
      omega arith in
    let fits : ltb (length (0 ∷ 0 ∷ 0 ∷ 1 ∷ a ∷ b ∷ c ∷ d ∷ h ∷ l ∷ payload)) 9 ≡ false =
      ground arith in
    rw (six, fits, datagram) refl

-- A datagram for a.b.c.d, as RFC 1928 lays it out, is taken as one for 1.a.b.c: the type of the
-- address is read as its first byte. Its last byte and the port's high byte make the port, and
-- the port's low byte stands in front of the payload.
pub parse-build-shifted :
    (s : Resolver) (a b c d port : ℕ) (payload : List ℕ)
    → parse_socks_udp_datagram s
        (build_socks_udp_datagram (record { ip = a ∷ b ∷ c ∷ d ∷ []; port = port }) payload)
      ≡ some (
        port % 65536 % 256 ∷ payload,
        record { ip = v4_prefix ++ 1 ∷ a ∷ b ∷ c ∷ []; port = d * 256 + port % 65536 / 256 },
      )
unfolding parse_socks_udp_datagram build_socks_udp_datagram source_bytes to4
parse-build-shifted s a b c d port payload =
    let h = port % 65536 / 256 in
    let l = port % 65536 % 256 in
    ap (datagram s (0 ∷ 0 ∷ 0 ∷ 1 ∷ a ∷ b ∷ c ∷ d ∷ h ∷ l ∷ payload))
      (read_shifted a b c d h l payload)
    ∙ datagram_shifted s a b c d h l payload
