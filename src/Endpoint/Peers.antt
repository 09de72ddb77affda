-- ===== src/Endpoint/Peers.antt =====
-- What amneziawg.go makes of the endpoints of the peers, lines 411-434: they are changed in place,
-- one after the other, up to the first that fails.
use skipi_core.Base.{
  ℕ, suc, ◌+◌, ◌≡◌, refl, ap, subst, ◌⊎◌, inl, inr, Option, none, some, List, [], ◌∷◌, ◌++◌, arith,
  length, Text,
}
use skipi_core.Awg.{Peer}
use skipi_core.Endpoint.{
  Endpoint, at, trouble, Trouble, PeerTrouble, missing, unresolved, Resolved, one_more,
  resolve_peers,
}

-- The second list is the first with each endpoint replaced by what it resolves to.
unfoldable pub AreResolved : (Text → Endpoint) → List (Option Peer) → List (Option Peer) → Type 0
AreResolved resolve [] [] = Unit
AreResolved resolve (some p ∷ ps) (some q ∷ qs) =
    (e : Text) × (resolve p.endpoint ≡ at e)
    × (q ≡ record p { endpoint = e })
    × AreResolved resolve ps qs
AreResolved resolve _ _ = ⊥

-- Why the peer number `index` stops the resolution.
unfoldable pub Stops : (Text → Endpoint) → ℕ → Option Peer → PeerTrouble → Type 0
Stops resolve index none e = e ≡ missing index
Stops resolve index (some p) e =
    (t : Trouble) × (resolve p.endpoint ≡ trouble t) × (e ≡ unresolved index t)

Endpoint-cases : (x : Endpoint) → ((t : Trouble) × (x ≡ trouble t)) ⊎ ((e : Text) × (x ≡ at e))
Endpoint-cases (trouble t) = inl (t, refl)
Endpoint-cases (at e) = inr (e, refl)

-- The peers from the number `index` on, up to one that stops the resolution.
unfoldable pub StopsAt : (Text → Endpoint) → ℕ → List (Option Peer) → Resolved → Type 0
StopsAt resolve index ps r =
    (before done : List (Option Peer)) × (p : Option Peer) × (rest : List (Option Peer))
    × (e : PeerTrouble) × (r.error ≡ some e)
    × (ps ≡ before ++ p ∷ rest)
    × (r.peers ≡ done ++ p ∷ rest)
    × AreResolved resolve before done
    × Stops resolve (index + length before) p e

-- Either no error is reported, and every peer is there and has its endpoint resolved and nothing
-- else changed, or the error is of one peer, which is missing or does not resolve: the peers in
-- front of it are resolved, and it and those behind it are as they were.
pub resolve_peers-outcome :
    (resolve : Text → Endpoint) (index : ℕ) (ps : List (Option Peer))
    → let r = resolve_peers resolve index ps in
      ((r.error ≡ none) × AreResolved resolve ps r.peers) ⊎ StopsAt resolve index ps r
unfolding resolve_peers one_more AreResolved Stops StopsAt
resolve_peers-outcome resolve index [] = inl (refl, tt)
resolve_peers-outcome resolve index (none ∷ rest) =
    inr ([], [], none, rest, missing index, refl, refl, refl, tt, ap missing (omega arith))
resolve_peers-outcome resolve index (some p ∷ rest) = elim (Endpoint-cases (resolve p.endpoint)) [
  | inl (t, x) ↦
      rw (x, resolve_peers)
        (inr (
          [],
          [],
          some p,
          rest,
          unresolved index t,
          refl,
          refl,
          refl,
          tt,
          (t, x, ap (λ i. unresolved i t) (omega arith)),
        ))
  | inr (u, x) ↦
      rw (x, resolve_peers)
        (elim (resolve_peers-outcome resolve (suc index) rest) [
          | inl (e, all) ↦ inl (e, (u, x, refl, all))
          | inr (b, d, q, post, e, err, split, now, all, why) ↦ inr (
            some p ∷ b,
            some (record p { endpoint = u }) ∷ d,
            q,
            post,
            e,
            err,
            ap (◌∷◌ (some p)) split,
            ap (◌∷◌ (some (record p { endpoint = u }))) now,
            (u, x, refl, all),
            subst (λ i. Stops resolve i q e) (omega arith) why,
          )
        ])
]
