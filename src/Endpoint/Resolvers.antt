-- ===== src/Endpoint/Resolvers.antt =====
-- The resolvers of an AmneziaWG tunnel, amneziawg.go, lines 916-942.
use skipi_core.Base.{
  ◌≡◌, ◌≢◌, refl, sym, ap, subst, ◌∙◌, ◌⊎◌, inl, inr, true, false, ◌||◌, some, List, [], ◌∷◌, ◌++◌,
  Bool-cases, Option-cases, arith, Text, str_eq, str_eq_iff, str_eq_refl, is_empty, trim_space, All,
}
use mathlib.Core.List.{append_assoc, append-nil}
use skipi_core.Socks.Associate.{NetAddr, invalid, v4, v6}
use skipi_core.Endpoint.{
  Netip, server_address, same_address, occurs, Servers, servers, no_dns, DnsTrouble, bad_server,
  dns_from, netstack_dns_addresses,
}

-- No address stands twice.
unfoldable pub AreDistinct : List NetAddr → Type 0
AreDistinct [] = Unit
AreDistinct (a ∷ as_) = (occurs a as_ ≡ false) × AreDistinct as_

-- A value is blank, or it is an address that is among the servers.
unfoldable pub IsServed : Netip → List NetAddr → Text → Type 0
IsServed netip as_ raw =
    (is_empty (trim_space raw) ≡ true)
    ⊎ ((a : NetAddr) × (server_address netip (trim_space raw) ≡ some a) × (occurs a as_ ≡ true))

same_address_refl : (a : NetAddr) → same_address a a ≡ true
unfolding same_address
same_address_refl invalid = refl
same_address_refl (v4 x) = str_eq_refl x
same_address_refl (v6 x) = str_eq_refl x

str_eq_comm : (s t : Text) → str_eq s t ≡ str_eq t s
str_eq_comm s t = ground (arith, str_eq_iff s t, str_eq_iff t s)

same_address_comm : (a b : NetAddr) → same_address a b ≡ same_address b a
unfolding same_address
same_address_comm (v4 x) (v4 y) = str_eq_comm x y
same_address_comm (v6 x) (v6 y) = str_eq_comm x y
same_address_comm invalid invalid = refl
same_address_comm invalid (v4 y) = refl
same_address_comm invalid (v6 y) = refl
same_address_comm (v4 x) invalid = refl
same_address_comm (v6 x) invalid = refl
same_address_comm (v4 x) (v6 y) = refl
same_address_comm (v6 x) (v4 y) = refl

occurs-append :
    (a : NetAddr) (xs ys : List NetAddr) → occurs a (xs ++ ys) ≡ (occurs a xs || occurs a ys)
unfolding occurs
occurs-append a [] ys = refl
occurs-append a (x ∷ xs) ys = ground (arith, occurs-append a xs ys)

added : (a : NetAddr) (xs ys : List NetAddr) → occurs a (xs ++ a ∷ ys) ≡ true
unfolding occurs
added a xs ys = ground (arith, occurs-append a xs (a ∷ ys), same_address_refl a)

AreDistinct-append :
    (a : NetAddr) (xs : List NetAddr)
    → AreDistinct xs
    → occurs a xs ≡ false
    → AreDistinct (xs ++ a ∷ [])
unfolding AreDistinct occurs
AreDistinct-append a [] h e = (refl, tt)
AreDistinct-append a (x ∷ xs) h e = (
  ground (arith, occurs-append x xs (a ∷ []), h.0, e, same_address_comm a x),
  AreDistinct-append a xs h.1 (ground (arith, e)),
)

inj : {as_ bs : List NetAddr} → servers as_ ≡ servers bs → as_ ≡ bs
inj e = ap addresses e
  where
    addresses : Servers → List NetAddr
    addresses (servers as_) = as_
    addresses (no_dns t) = []

failed : {t : DnsTrouble} {as_ : List NetAddr} {A : Type 0} → no_dns t ≡ servers as_ → A
failed e = absurd cc

-- What the loop keeps of the addresses so far.
pub IsServedFrom : Netip → List NetAddr → List Text → List NetAddr → Type 0
IsServedFrom netip seen raws as_ =
    AreDistinct as_
    × (as_ ≢ [])
    × ((more : List NetAddr) × (as_ ≡ seen ++ more))
    × All (IsServed netip as_) raws

dns_from-IsServedFrom :
    (netip : Netip) (seen : List NetAddr) (raws : List Text) (as_ : List NetAddr)
    → AreDistinct seen
    → dns_from netip seen raws ≡ servers as_
    → IsServedFrom netip seen raws as_
unfolding dns_from IsServedFrom IsServed occurs
dns_from-IsServedFrom netip [] [] as_ d e = failed e
dns_from-IsServedFrom netip (a ∷ seen) [] as_ d e = (
  subst AreDistinct (inj e) d,
  λ q. ground (arith, inj e, q),
  ([], sym (inj e) ∙ sym (append-nil (a ∷ seen))),
  tt,
)
dns_from-IsServedFrom netip seen (raw ∷ rest) as_ d e =
    elim (Bool-cases (is_empty (trim_space raw))) [
      | inl b ↦
          let (x, y, z, w) =
            dns_from-IsServedFrom netip seen rest as_ d (sym (rw (b, dns_from) refl) ∙ e) in
          (x, y, z, (inl b, w))
      | inr b ↦ elim (Option-cases (server_address netip (trim_space raw))) [
        | inl s ↦ failed {t = bad_server raw} (sym (rw (b, s, dns_from) refl) ∙ e)
        | inr (a, s) ↦ elim (Bool-cases (occurs a seen)) [
          | inl o ↦
              let (x, y, (more, z), w) =
                dns_from-IsServedFrom netip seen rest as_ d
                  (sym (rw (b, s, o, dns_from) refl) ∙ e) in
              (x, y, (more, z), (inr (a, s, rw z (occurs-append a seen more ∙ rw o refl)), w))
          | inr o ↦
              let (x, y, (more, z), w) =
                dns_from-IsServedFrom netip (seen ++ a ∷ []) rest as_
                  (AreDistinct-append a seen d o) (sym (rw (b, s, o, dns_from) refl) ∙ e) in
              let all = z ∙ append_assoc seen (a ∷ []) more in
              (x, y, (a ∷ more, all), (inr (a, s, rw all (added a seen more)), w))
        ]
      ]
    ]

-- The resolvers of a tunnel, if the list of their addresses is accepted: there is one at least,
-- none stands twice, and each value of the list is blank or is an address among them.
pub netstack_dns_addresses-IsServed :
    (netip : Netip) (raws : List Text) (as_ : List NetAddr)
    → netstack_dns_addresses netip raws ≡ servers as_
    → AreDistinct as_ × (as_ ≢ []) × All (IsServed netip as_) raws
unfolding netstack_dns_addresses AreDistinct IsServedFrom
netstack_dns_addresses-IsServed netip raws as_ e =
    let (a, b, c, d) = dns_from-IsServedFrom netip [] raws as_ tt e in (a, b, d)
