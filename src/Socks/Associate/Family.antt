-- ===== src/Socks/Associate/Family.antt =====
-- The local address that amneziawg.go's `amneziaWgUDPBindAddress` picks.
use skipi_core.Base.{
  ℕ, ◌≡◌, sym, ap, ◌∙◌, ◌⊎◌, inl, inr, Bool, true, false, ◌||◌, none, some, List, [], ◌∷◌,
  Bool-cases, Option-cases, arith, is_some, All,
}
use skipi_core.Socks.{Addr, to4, to16}
use skipi_core.Socks.Associate.{
  NetAddr, unmap, is_usable, is4, bytes_of, serves, same_family, first_local, udp_bind_address,
}

-- A local address of the family that is valid and not the unspecified one.
unfoldable pub IsFor : Bool → NetAddr → Type 0
IsFor want4 a = (is_usable (unmap a) ≡ true) × (is4 (unmap a) ≡ want4)

-- The address is in the list, and none in front of it is for the family.
pub data First (want4 : Bool) (ip : List ℕ) : List NetAddr → Type 0 where
  here :
      (a : NetAddr) (as_ : List NetAddr)
      → IsFor want4 a
      → bytes_of (unmap a) ≡ ip
      → First want4 ip (a ∷ as_)
  there :
      (a : NetAddr) (as_ : List NetAddr)
      → ¬ IsFor want4 a
      → First want4 ip as_
      → First want4 ip (a ∷ as_)

serves-IsFor : (w : Bool) (a : NetAddr) → serves w (unmap a) ≡ true → IsFor w a
unfolding serves same_family IsFor
serves-IsFor true a e = (ground (arith, e), ground (arith, e))
serves-IsFor false a e = (ground (arith, e), ground (arith, e))

serves-not : (w : Bool) (a : NetAddr) → serves w (unmap a) ≡ false → ¬ IsFor w a
unfolding serves same_family IsFor
serves-not true a e (u, f) = ground (arith, e, u, f)
serves-not false a e (u, f) = ground (arith, e, u, f)

first_local-First :
    (w : Bool) (locals : List NetAddr) (a : Addr)
    → first_local w locals ≡ some a
    → First w a.ip locals × (a.port ≡ 0)
unfolding first_local
first_local-First w [] a e = cc
first_local-First w (b ∷ bs) a e = elim (Bool-cases (serves w (unmap b))) [
  | inl y ↦
      let q : record { ip = bytes_of (unmap b); port = 0 } ≡ a = ground (arith, e, y) in
      (here b bs (serves-IsFor w b y) (ap (λ x. x.ip) q), sym (ap (λ x. x.port) q))
  | inr y ↦
      let (f, z) = first_local-First w bs a (ground (arith, e, y)) in
      (there b bs (serves-not w b y) f, z)
]

first_local-none :
    (w : Bool) (locals : List NetAddr) → first_local w locals ≡ none → All (λ a. ¬ IsFor w a) locals
unfolding first_local
first_local-none w [] e = tt
first_local-none w (b ∷ bs) e = elim (Bool-cases (serves w (unmap b))) [
  | inl y ↦ ground (arith, e, y)
  | inr y ↦ (serves-not w b y, first_local-none w bs (ground (arith, e, y)))
]

-- The local address for a destination is the first one of its family that is valid and not the
-- unspecified one, with port 0; an error says that there is none, or that the destination has
-- neither form.
pub udp_bind_address_lem :
    (destination : Addr) (locals : List NetAddr)
    → let want4 = is_some (to4 destination.ip) in
      ((a : Addr) (family : Bool)
        → udp_bind_address destination locals ≡ some (a, family)
        → (family ≡ want4) × First want4 a.ip locals × (a.port ≡ 0))
      × (udp_bind_address destination locals ≡ none
          → ((want4 ≡ false) × (to16 destination.ip ≡ none)) ⊎ All (λ a. ¬ IsFor want4 a) locals)
unfolding udp_bind_address
udp_bind_address_lem destination locals =
    let w = is_some (to4 destination.ip) in
    elim (Option-cases (first_local w locals)) [
      | inl e ↦ (λ a f q. ground (arith, e, q), λ q. inr (first_local-none w locals e))
      | inr (a, e) ↦ elim (Bool-cases (w || is_some (to16 destination.ip))) [
        | inl y ↦ (
          λ b f q.
              let same : (a ≡ b) × (w ≡ f) = ground (arith, e, y, q) in
              let (first, z) = first_local-First w locals b (e ∙ ap some same.0) in
              (sym same.1, first, z),
          λ q. ground (arith, e, y, q),
        )
        | inr y ↦ (λ b f q. ground (arith, y, q), λ q. inl (ground (arith, y), ground (arith, y)))
      ]
    ]
