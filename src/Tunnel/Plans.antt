-- ===== src/Tunnel/Plans.antt =====
-- Which plans desktop/nmtun/settings.go accepts.
use skipi_core.Base.{
  ℕ, suc, ◌≡◌, refl, sym, ap, ◌∙◌, inl, inr, Bool, true, false, not, ◌||◌, ◌&&◌, Option, none, some,
  List, [], ◌∷◌, ◌==◌, Bool-cases, Option-cases, arith, ltb, leb, length, Text, pos, ltz,
}
use skipi_core.Socks.Associate.{is4}
use skipi_core.Tunnel.{
  Plan, check_interface_name, is_user_name, Prefix, Prefixes, Sorted, sorted, bad_text, sort_into,
  sort_all, Built, settings_of, no_settings, with_routes, with_addresses, plan_settings,
}

counted_in : Bool → Option (ℕ × ℕ) → Option (ℕ × ℕ)
counted_in four none = none
counted_in true (some (n4, n6)) = some (suc n4, n6)
counted_in false (some (n4, n6)) = some (n4, suc n6)

-- How many prefixes of each family the texts are, IPv4 first, if each one is a prefix.
unfoldable pub families : Prefixes → (Prefix → Prefix) → List Text → Option (ℕ × ℕ)
unfolding counted_in
families ps change [] = some (0, 0)
families ps change (t ∷ rest) = elim (ps.parse t) [
  | none ↦ none
  | some p ↦ counted_in (is4 (change p).addr) (families ps change rest)
]

-- One IPv4 address, one IPv6 address at most, and IPv6 routes only with an IPv6 address.
fitting : Option (ℕ × ℕ) → Option (ℕ × ℕ) → Bool
fitting none routes = false
fitting (some (n4, n6)) none = false
fitting (some (n4, n6)) (some (m4, m6)) = n4 == 1 && (leb n6 1 && (m6 == 0 || n6 == 1))

unfoldable pub accepts : Prefixes → Plan → Text → Bool
unfolding fitting
accepts ps p user =
    check_interface_name p.name
    && (not (ltz p.mtu (pos 1280))
        && not (ltz (pos 65535) p.mtu)
        && (is_user_name user
            && fitting (families ps (λ x. x) p.addresses) (families ps ps.masked p.routes)))

unfoldable pub is_settings : Built → Bool
is_settings (settings_of s) = true
is_settings (no_settings e) = false

counts : Sorted → Option (ℕ × ℕ)
counts (sorted a b) = some (length a, length b)
counts (bad_text t) = none

sort_into-counts :
    (ps : Prefixes) (p : Prefix) (s : Sorted)
    → counts (sort_into ps p s) ≡ counted_in (is4 p.addr) (counts s)
unfolding sort_into counts counted_in
sort_into-counts ps p (bad_text t) = refl
sort_into-counts ps p (sorted a b) = elim (Bool-cases (is4 p.addr)) [
  | inl e ↦ rw (e, sort_into) refl
  | inr e ↦ rw (e, sort_into) refl
]

sort_all-counts :
    (ps : Prefixes) (change : Prefix → Prefix) (ts : List Text)
    → counts (sort_all ps change ts) ≡ families ps change ts
unfolding sort_all families counts
sort_all-counts ps change [] = refl
sort_all-counts ps change (t ∷ rest) = elim (Option-cases (ps.parse t)) [
  | inl e ↦ rw (e, sort_all, families) refl
  | inr (p, e) ↦
      rw (e, sort_all, families)
        (sort_into-counts ps (change p) (sort_all ps change rest)
          ∙ ap (counted_in (is4 (change p).addr)) (sort_all-counts ps change rest))
]

with_routes-fitting :
    (p : Plan) (uid : ℕ) (user : Text) (a4 a6 : List (Text × ℕ)) (r : Sorted)
    → length a4 ≡ 1
    → leb (length a6) 1 ≡ true
    → is_settings (with_routes p uid user a4 a6 r)
      ≡ fitting (some (length a4, length a6)) (counts r)
unfolding with_routes fitting counts is_settings
with_routes-fitting p uid user a4 a6 (bad_text t) e l = refl
with_routes-fitting p uid user a4 a6 (sorted r4 r6) e l =
    elim (Bool-cases (ltb 0 (length r6) && length a6 == 0)) [
      | inl t ↦ rw (t, with_routes) (ground (arith, e, l, t))
      | inr t ↦ rw (t, with_routes) (ground (arith, e, l, t))
    ]

unfit :
    (n4 n6 : ℕ) (routes : Option (ℕ × ℕ))
    → (n4 == 1 && leb n6 1) ≡ false
    → fitting (some (n4, n6)) routes ≡ false
unfolding fitting
unfit n4 n6 none e = refl
unfit n4 n6 (some (m4, m6)) e = ground (arith, e)

with_addresses-fitting :
    (ps : Prefixes) (p : Plan) (uid : ℕ) (user : Text) (s : Sorted)
    → is_settings (with_addresses ps p uid user s)
      ≡ fitting (counts s) (families ps ps.masked p.routes)
unfolding with_addresses counts fitting is_settings
with_addresses-fitting ps p uid user (bad_text t) = refl
with_addresses-fitting ps p uid user (sorted a4 a6) = elim (Bool-cases (length a4 == 0)) [
  | inl z ↦ rw (z, with_addresses) (sym (unfit (length a4) (length a6) _ (ground (arith, z))))
  | inr z ↦ elim (Bool-cases (ltb 1 (length a4) || ltb 1 (length a6))) [
    | inl m ↦
        rw (z, m, with_addresses) (sym (unfit (length a4) (length a6) _ (ground (arith, z, m))))
    | inr m ↦
        rw (z, m, with_addresses)
          (with_routes-fitting p uid user a4 a6 (sort_all ps ps.masked p.routes)
              (ground (arith, z, m)) (ground (arith, m))
            ∙ ap (fitting (some (length a4, length a6))) (sort_all-counts ps ps.masked p.routes))
  ]
]

-- A plan is turned into settings exactly if it is acceptable: a name for the interface, an MTU
-- from 1280 to 65535, a name of a user, addresses that are one IPv4 prefix and at most one IPv6
-- prefix, and routes that are prefixes, with IPv6 ones only if there is an IPv6 address.
pub plan_settings-accepts :
    (ps : Prefixes) (p : Plan) (uid : ℕ) (user : Text)
    → is_settings (plan_settings ps p uid user) ≡ accepts ps p user
unfolding plan_settings is_settings accepts
plan_settings-accepts ps p uid user = elim (Bool-cases (check_interface_name p.name)) [
  | inr n ↦ rw (n, plan_settings) refl
  | inl n ↦ elim (Bool-cases (ltz p.mtu (pos 1280) || ltz (pos 65535) p.mtu)) [
    | inl m ↦ rw (n, m, plan_settings) (ground (arith, m))
    | inr m ↦ elim (Bool-cases (is_user_name user)) [
      | inr u ↦ rw (n, m, u, plan_settings) (ground (arith, m))
      | inl u ↦
          rw (n, m, u, plan_settings)
            (with_addresses-fitting ps p uid user (sort_all ps (λ x. x) p.addresses)
              ∙ ap (λ c. fitting c (families ps ps.masked p.routes))
                  (sort_all-counts ps (λ x. x) p.addresses)
              ∙ inside (ltz p.mtu (pos 1280)) (ltz (pos 65535) p.mtu) _ m)
    ]
  ]
]
  where
    inside : (a b c : Bool) → (a || b) ≡ false → c ≡ (not a && not b && c)
    inside a b c e = ground (arith, e)
