-- ===== src/Tunnel/Sections.antt =====
-- What the settings of desktop/nmtun/settings.go say whatever the plan is.
use skipi_core.Base.{
  ℕ, ◌≤◌, ◌≡◌, refl, sym, ap, ◌∙◌, ◌⊎◌, inl, inr, Bool, true, false, ◌||◌, ◌&&◌, Option, none, some,
  List, [], ◌∷◌, ◌++◌, ◌==◌, Bool-cases, arith, ltb, length, Text, codes, str_eq, pos, ltz, lookup,
  Lacks, is_digit,
}
use skipi_core.Tunnel.{
  PlanError, bad_interface_name, bad_mtu, bad_user_name, no_ipv4, too_many_addresses,
  ipv6_routes_without_address, Plan, check_interface_name, is_letter, is_name_byte, every,
  is_user_name, is_user_start, is_user_byte, Prefixes, Variant, text, flag, texts, Section, Sorted,
  sorted, bad_text, sort_all, settings_of, no_settings, manual, ipv6_section, sections, with_routes,
  with_addresses, plan_settings,
}

every-Lacks : (p : ℕ → Bool) (c : ℕ) (s : Text) → p c ≡ false → every p s ≡ true → Lacks c s
unfolding every
every-Lacks p c [] n e = tt
every-Lacks p c (d ∷ s) n e = (
  elim (Bool-cases (d == c)) [
    | inr q ↦ q
    | inl q ↦ let same : d ≡ c = ground (arith, q) in absurd (ground (arith, e, n, ap p same))
  ],
  every-Lacks p c s n (ground (arith, e)),
)

-- A name of an interface that is accepted is of 1 to 15 bytes and has no slash and no dot.
check_interface_name-bounds :
    (name : Text)
    → check_interface_name name ≡ true
    → (1 ≤ length name) × (length name ≤ 15) × Lacks b'/' name × Lacks b'.' name
unfolding check_interface_name is_letter is_name_byte is_digit
check_interface_name-bounds [] e = absurd (ground (arith, e))
check_interface_name-bounds (c ∷ s) e = (
  omega arith,
  ground (arith, e),
  (ground (arith, e), every-Lacks is_name_byte b'/' s refl (ground (arith, e))),
  (ground (arith, e), every-Lacks is_name_byte b'.' s refl (ground (arith, e))),
)

is_user_name-Lacks : (user : Text) → is_user_name user ≡ true → Lacks b':' user
unfolding is_user_name is_user_start is_user_byte is_letter is_name_byte is_digit
is_user_name-Lacks [] e = tt
is_user_name-Lacks (c ∷ s) e =
    (ground (arith, e), every-Lacks is_user_byte b':' s refl (ground (arith, e)))

-- What the dictionary was made of.
Made : Plan → ℕ → Text → List (Text × Section) → Type 0
Made p uid user s =
    (a4 a6 r4 r6 : List (Text × ℕ)) × (s ≡ sections p uid user a4 a6 (sorted r4 r6))
    × (check_interface_name p.name ≡ true)
    × (is_user_name user ≡ true)

clash :
    {e : PlanError} {s : List (Text × Section)} → no_settings e ≡ settings_of s → {A : Type 0} → A
clash e = absurd cc

inj : {s t : List (Text × Section)} → settings_of s ≡ settings_of t → s ≡ t
inj e = cc

routed :
    (p : Plan) (uid : ℕ) (user : Text) (a4 a6 : List (Text × ℕ)) (r : Sorted)
    (s : List (Text × Section))
    → with_routes p uid user a4 a6 r ≡ settings_of s
    → (r4 r6 : List (Text × ℕ)) × (s ≡ sections p uid user a4 a6 (sorted r4 r6))
unfolding with_routes
routed p uid user a4 a6 (bad_text t) s e = absurd cc
routed p uid user a4 a6 (sorted r4 r6) s e =
    elim (Bool-cases (ltb 0 (length r6) && length a6 == 0)) [
      | inl t ↦ clash {e = ipv6_routes_without_address} (sym (rw (t, with_routes) refl) ∙ e)
      | inr t ↦ (r4, r6, sym (inj (sym (rw (t, with_routes) refl) ∙ e)))
    ]

addressed :
    (ps : Prefixes) (p : Plan) (uid : ℕ) (user : Text) (x : Sorted) (s : List (Text × Section))
    → with_addresses ps p uid user x ≡ settings_of s
    → (a4 a6 r4 r6 : List (Text × ℕ)) × (s ≡ sections p uid user a4 a6 (sorted r4 r6))
unfolding with_addresses
addressed ps p uid user (bad_text t) s e = absurd cc
addressed ps p uid user (sorted a4 a6) s e = elim (Bool-cases (length a4 == 0)) [
  | inl z ↦ clash {e = no_ipv4} (sym (rw (z, with_addresses) refl) ∙ e)
  | inr z ↦ elim (Bool-cases (ltb 1 (length a4) || ltb 1 (length a6))) [
    | inl m ↦ clash {e = too_many_addresses} (sym (rw (z, m, with_addresses) refl) ∙ e)
    | inr m ↦
        let (r4, r6, q) =
          routed p uid user a4 a6 (sort_all ps ps.masked p.routes) s
            (sym (rw (z, m, with_addresses) refl) ∙ e) in
        (a4, a6, r4, r6, q)
  ]
]

plan_settings-Made :
    (ps : Prefixes) (p : Plan) (uid : ℕ) (user : Text) (s : List (Text × Section))
    → plan_settings ps p uid user ≡ settings_of s
    → Made p uid user s
unfolding plan_settings Made
plan_settings-Made ps p uid user s e = elim (Bool-cases (check_interface_name p.name)) [
  | inr n ↦ clash {e = bad_interface_name} (sym (rw (n, plan_settings) refl) ∙ e)
  | inl n ↦ elim (Bool-cases (ltz p.mtu (pos 1280) || ltz (pos 65535) p.mtu)) [
    | inl m ↦ clash {e = bad_mtu} (sym (rw (n, m, plan_settings) refl) ∙ e)
    | inr m ↦ elim (Bool-cases (is_user_name user)) [
      | inr u ↦ clash {e = bad_user_name} (sym (rw (n, m, u, plan_settings) refl) ∙ e)
      | inl u ↦
          let (a4, a6, r4, r6, q) =
            addressed ps p uid user (sort_all ps (λ x. x) p.addresses) s
              (sym (rw (n, m, u, plan_settings) refl) ∙ e) in
          (a4, a6, r4, r6, q, n, u)
    ]
  ]
]

-- The value of a key of a section.
pub value : Text → Text → List (Text × Section) → Option Variant
value section key s = elim (lookup section s) [ none ↦ none | some fields ↦ lookup key fields ]

ipv6_never :
    (a6 r6 : List (Text × ℕ))
    → (lookup (codes "never-default") (ipv6_section a6 r6) ≡ some (flag true))
      ⊎ (some (ipv6_section a6 r6) ≡ some ((codes "method", text (codes "ignore")) ∷ []))
unfolding ipv6_section manual lookup str_eq
ipv6_never [] r6 = inr refl
ipv6_never (a ∷ as_) r6 = inl refl

-- The settings of an accepted plan, whatever its addresses and routes are: no family of the tunnel
-- can become the default route, only the user may use the connection, whose name holds no colon,
-- and it is for the interface of the plan, whose name is of 1 to 15 bytes with no slash or dot.
pub plan_settings_safe :
    (ps : Prefixes) (p : Plan) (uid : ℕ) (user : Text) (s : List (Text × Section))
    → plan_settings ps p uid user ≡ settings_of s
    → (value (codes "ipv4") (codes "never-default") s ≡ some (flag true))
      × ((value (codes "ipv6") (codes "never-default") s ≡ some (flag true))
          ⊎ (lookup (codes "ipv6") s ≡ some ((codes "method", text (codes "ignore")) ∷ [])))
      × (value (codes "connection") (codes "permissions") s
          ≡ some (texts ((codes "user:" ++ user ++ codes ":") ∷ [])))
      × Lacks b':' user
      × (value (codes "connection") (codes "interface-name") s ≡ some (text p.name))
      × (1 ≤ length p.name)
      × (length p.name ≤ 15)
      × Lacks b'/' p.name
      × Lacks b'.' p.name
unfolding value sections manual lookup str_eq Made
plan_settings_safe ps p uid user s e =
    let (a4, a6, r4, r6, q, n, u) = plan_settings-Made ps p uid user s e in
    let (low, high, slash, dot) = check_interface_name-bounds p.name n in
    (
      rw q refl,
      rw q (ipv6_never a6 r6),
      rw q refl,
      is_user_name-Lacks user u,
      rw q refl,
      low,
      high,
      slash,
      dot,
    )
