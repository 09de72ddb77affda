-- ===== src/Socks/Request.antt =====
-- What amneziawg.go's `handleSocksConn` makes of a client that keeps to the protocol.
use skipi_core.Base.{ℕ, ◌<◌, ◌≡◌, refl, ap, ◌∙◌, List, [], ◌∷◌, ◌++◌, length}
use skipi_core.Socks.{
  Host, Resolver, command, request, handle_socks_conn, after_greeting, after_address,
}
use skipi_core.Socks.Address.{encode, IsSpelt, read_full-append, read_socks_address-encode}

-- A greeting with any methods, then a request for a target that can be spelt: no authentication is asked for, and the command is
-- run on the target that the client spelt, with just the bytes that it sent beyond the request.
pub handle_socks_conn-encode :
    (s : Resolver) (methods : List ℕ) (cmd reserved : ℕ) (h : Host) (port : ℕ) (rest : List ℕ)
    → IsSpelt h
    → port < 65536
    → let (atyp, bytes) = encode h port in
      handle_socks_conn s
        (5 ∷ length methods ∷ (methods ++ (5 ∷ cmd ∷ reserved ∷ atyp ∷ (bytes ++ rest))))
      ≡ (5 ∷ 0 ∷ [], command s cmd (h, port) rest)
unfolding handle_socks_conn request after_greeting after_address
handle_socks_conn-encode s methods cmd reserved h port rest v b =
    let (atyp, bytes) = encode h port in
    ap (after_greeting s)
      (read_full-append (length methods) methods (5 ∷ cmd ∷ reserved ∷ atyp ∷ (bytes ++ rest)) refl)
    ∙ ap (λ x. (5 ∷ 0 ∷ [], after_address s cmd x)) (read_socks_address-encode h port rest v b)
