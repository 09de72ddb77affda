-- ===== src/Socks/Associate/Client.antt =====
-- Whose datagrams an association of amneziawg.go's `handleSocksUDPAssociate` sends on.
use skipi_core.Base.{
  ℕ, ◌≡◌, refl, inl, inr, Bool, true, Option, none, some, List, [], ◌∷◌, Bool-cases, arith, All,
  All-append,
}
use skipi_core.Socks.{Addr, Resolver, parse_socks_udp_datagram}
use skipi_core.Socks.Associate.{
  NetAddr, Association, pin, pinned, same_addr, tunnel_for, then_send, forward, from_control,
  Arrival, receive_datagram, receive_all, udp_bind_address,
}

-- The source is the client, and has the address of the connection that asked for the association.
unfoldable pub IsClient : Option (List ℕ) → Option Addr → Addr × (Addr × List ℕ) → Type 0
IsClient control none x = ⊥
IsClient control (some c) x = (same_addr c x.0 ≡ true) × (from_control control x.0 ≡ true)

unfoldable pub AllFrom : Option (List ℕ) → Association → Type 0
AllFrom control a = All (IsClient control a.client) a.sent

All-pin :
    (control : Option (List ℕ)) (o : Option Addr) (source : Addr)
    (xs : List (Addr × (Addr × List ℕ)))
    → All (IsClient control o) xs
    → All (IsClient control (some (pin o source))) xs
unfolding pin IsClient
All-pin control (some c) source xs v = v
All-pin control none source [] v = tt
All-pin control none source (x ∷ xs) v = absurd v.0

pinned-AllFrom :
    (control : Option (List ℕ)) (a : Association) (source destination : Addr) (payload : List ℕ)
    → from_control control source ≡ true
    → AllFrom control a
    → AllFrom control (pinned a source destination payload)
unfolding pinned AllFrom IsClient
pinned-AllFrom control a source destination payload f v =
    elim (Bool-cases (same_addr (pin a.client source) source)) [
      | inl e ↦ rw e (
          All-append (IsClient control (some (pin a.client source))) a.sent _
            (All-pin control a.client source a.sent v) ((e, f), tt))
      | inr e ↦ rw e (All-pin control a.client source a.sent v)
    ]

tunnel_for-AllFrom :
    (control : Option (List ℕ)) (a b : Association) (listens : Bool) (o : Option (Addr × Bool))
    → tunnel_for a listens o ≡ some b
    → (b.client ≡ a.client) × (b.sent ≡ a.sent)
unfolding tunnel_for
tunnel_for-AllFrom control a b listens none e = cc
tunnel_for-AllFrom control a b listens (some (bind, want4)) e = ground arith

then_send-AllFrom :
    (control : Option (List ℕ)) (a : Association) (o : Option Association)
    (source destination : Addr) (payload : List ℕ)
    → ((b : Association) → o ≡ some b → (b.client ≡ a.client) × (b.sent ≡ a.sent))
    → from_control control source ≡ true
    → AllFrom control a
    → AllFrom control (then_send a o source destination payload)
unfolding then_send AllFrom
then_send-AllFrom control a none source destination payload same f v = v
then_send-AllFrom control a (some b) source destination payload same f v =
    let (c, t) = same b refl in
    pinned-AllFrom control b source destination payload f (rw (AllFrom, c, t) v)

forward-AllFrom :
    (locals : List NetAddr) (control : Option (List ℕ)) (a : Association) (listens : Bool)
    (source : Addr) (o : Option (List ℕ × Addr))
    → from_control control source ≡ true
    → AllFrom control a
    → AllFrom control (forward a locals listens source o)
unfolding forward
forward-AllFrom locals control a listens source none f v = v
forward-AllFrom locals control a listens source (some (payload, destination)) f v =
    then_send-AllFrom control a _ source destination payload
      (λ b. tunnel_for-AllFrom control a b listens (udp_bind_address destination locals)) f v

receive_datagram-AllFrom :
    (s : Resolver) (locals : List NetAddr) (control : Option (List ℕ)) (a : Association)
    (d : Arrival)
    → AllFrom control a
    → AllFrom control (receive_datagram s locals control a d)
unfolding receive_datagram
receive_datagram-AllFrom s locals control a d v =
    elim (Bool-cases (from_control control d.source)) [
      | inr f ↦ rw f v
      | inl f ↦ rw f (
          forward-AllFrom locals control a d.listens d.source (parse_socks_udp_datagram s d.packet)
            f v)
    ]

-- Every datagram that an association sends into the tunnel comes from one client, which has the
-- address of the connection that asked for the association, whatever else reaches its socket,
-- provided that this holds of what was sent before, as when nothing was.
pub receive_all-AllFrom :
    (s : Resolver) (locals : List NetAddr) (control : Option (List ℕ)) (a : Association)
    (ds : List Arrival)
    → AllFrom control a
    → AllFrom control (receive_all s locals control a ds)
unfolding receive_all
receive_all-AllFrom s locals control a [] v = v
receive_all-AllFrom s locals control a (d ∷ ds) v =
    receive_all-AllFrom s locals control (receive_datagram s locals control a d) ds
      (receive_datagram-AllFrom s locals control a d v)
