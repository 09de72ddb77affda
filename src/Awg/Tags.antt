-- ===== src/Awg/Tags.antt =====
-- The chains that amneziawg.go's `validateAmneziaWgObfuscationChain` lets through.
use skipi_core.Base.{
  ℕ, zero, suc, ◌+◌, ◌≤◌, ◌≡◌, ◌↔◌, refl, sym, ap, ◌∙◌, subst, inl, inr, true, false, none, some,
  [], ◌∷◌, ◌++◌, ◌==◌, Bool-cases, Option-cases, arith, ltb, Text, byte_len, index_byte, trim_space,
  take, drop, length, ==_iff, ==_refl, length-append,
}
use skipi_core.Awg.Chain.{
  max_chain, read_tag, Verdict, accepted, refused, out_of_fuel, chain, valid_chain, valid_spec,
  is_accepted,
}

-- A text that is tags one after the other, and the bytes that they add.
pub data Tags : Text → ℕ → Type 0 where
  no_tags : Tags [] 0
  tag :
      (inside rest : Text) (n m : ℕ)
      → index_byte b'>' inside ≡ none
      → read_tag inside ≡ some n
      → Tags rest m
      → Tags (b'<' ∷ (inside ++ b'>' ∷ rest)) (n + m)

index_byte-split :
    (c : ℕ) (s : Text) (i : ℕ)
    → index_byte c s ≡ some i
    → (s ≡ take i s ++ c ∷ drop (suc i) s) × (index_byte c (take i s) ≡ none)
unfolding index_byte
index_byte-split c [] i e = cc
index_byte-split c (d ∷ s) zero e = elim (Bool-cases (c == d)) [
  | inl q ↦ (ap (λ x. x ∷ s) (sym ((==_iff c d).0 q)), refl)
  | inr q ↦ elim (Option-cases (index_byte c s)) [
    | inl f ↦ ground (arith, e, q, f)
    | inr (j, f) ↦ ground (arith, e, q, f)
  ]
]
index_byte-split c (d ∷ s) (suc i) e = elim (Bool-cases (c == d)) [
  | inl q ↦ ground (arith, e, q)
  | inr q ↦ elim (Option-cases (index_byte c s)) [
    | inl f ↦ ground (arith, e, q, f)
    | inr (j, f) ↦
        let same : j ≡ i = ground (arith, e, q, f) in
        let (a, b) = index_byte-split c s i (f ∙ ap some same) in
        (ap (λ x. d ∷ x) a, rw (q, b) refl)
  ]
]

index_byte-append :
    (c : ℕ) (xs ys : Text) → index_byte c xs ≡ none → index_byte c (xs ++ c ∷ ys) ≡ some (length xs)
unfolding index_byte
index_byte-append c [] ys e = rw (==_refl c) refl
index_byte-append c (x ∷ xs) ys e = elim (Bool-cases (c == x)) [
  | inl q ↦ ground (arith, e, q)
  | inr q ↦ elim (Option-cases (index_byte c xs)) [
    | inl f ↦ rw (q, index_byte-append c xs ys f) refl
    | inr (j, f) ↦ ground (arith, e, q, f)
  ]
]

take-append : (xs ys : Text) → take (length xs) (xs ++ ys) ≡ xs
take-append [] ys = refl
take-append (x ∷ xs) ys = ap (λ zs. x ∷ zs) (take-append xs ys)

drop_past : (xs : Text) (c : ℕ) (ys : Text) → drop (suc (length xs)) (xs ++ c ∷ ys) ≡ ys
drop_past [] c ys = refl
drop_past (x ∷ xs) c ys = drop_past xs c ys

le_of : (k : ℕ) → ltb max_chain k ≡ false → k ≤ max_chain
le_of k h = ground arith

not_le : (k : ℕ) → ltb max_chain k ≡ true → k ≤ max_chain → ⊥
not_le k h l = ground arith

chain-Tags :
    (fuel total : ℕ) (s : Text) (t : ℕ)
    → total ≤ max_chain
    → chain fuel total s ≡ accepted t
    → (m : ℕ) × Tags s m × (t ≡ total + m) × (t ≤ max_chain)
unfolding chain
chain-Tags fuel total [] t b e = (0, no_tags, ground (arith, e), ground (arith, e, b))
chain-Tags zero total (c ∷ s) t b e = cc
chain-Tags (suc fuel) total (c ∷ s) t b e = elim (Bool-cases (c == b'<')) [
  | inr q ↦ ground (arith, e, q)
  | inl q ↦ elim (Option-cases (index_byte b'>' s)) [
    | inl f ↦ ground (arith, e, q, f)
    | inr (i, f) ↦ elim (Option-cases (read_tag (take i s))) [
      | inl g ↦ ground (arith, e, q, f, g)
      | inr (n, g) ↦ elim (Bool-cases (ltb max_chain (total + n))) [
        | inl h ↦ ground (arith, e, q, f, g, h)
        | inr h ↦
            let (m, v, x, y) =
              chain-Tags fuel (total + n) (drop (suc i) s) t (le_of (total + n) h)
                (ground (arith, e, q, f, g, h)) in
            let (split_, lacks) = index_byte-split b'>' s i f in
            (
              n + m,
              subst (λ z. Tags z (n + m))
                  (ap (λ z. z ∷ (take i s ++ b'>' ∷ drop (suc i) s)) (sym ((==_iff c b'<').0 q))
                    ∙ ap (λ z. c ∷ z) (sym split_))
                  (tag (take i s) (drop (suc i) s) n m lacks g v),
              omega (arith, x),
              y,
            )
      ]
    ]
  ]
]

Tags-chain :
    (fuel total m : ℕ) (s : Text)
    → Tags s m
    → length s ≤ fuel
    → total + m ≤ max_chain
    → chain fuel total s ≡ accepted (total + m)
unfolding chain
Tags-chain fuel total m s no_tags f b = ground arith
Tags-chain zero total m s (tag inside rest n k lacks g v) f b = ground (arith, f)
Tags-chain (suc fuel) total m s (tag inside rest n k lacks g v) f b =
    let i = index_byte-append b'>' inside rest lacks in
    let t = take-append inside (b'>' ∷ rest) in
    let d = drop_past inside b'>' rest in
    let fits : ltb max_chain (total + n) ≡ false = ground (arith, b) in
    let long : length rest ≤ fuel = ground (arith, f, length-append inside (b'>' ∷ rest)) in
    let later = Tags-chain fuel (total + n) k rest v long (omega (arith, b)) in
    rw (i, t, g, d, fits, later, chain) (ap accepted (omega arith))

accepted_of : (v : Verdict) → is_accepted v ≡ true → (t : ℕ) × (v ≡ accepted t)
unfolding is_accepted
accepted_of (accepted t) e = (t, refl)
accepted_of refused e = cc
accepted_of out_of_fuel e = cc

valid_spec_iff :
    (spec : Text)
    → (valid_spec spec ≡ true)
      ↔ ((byte_len spec ≤ max_chain) × ((m : ℕ) × Tags spec m × (m ≤ max_chain)))
unfolding valid_spec
valid_spec_iff [] = (λ e. (omega arith, (0, no_tags, omega arith)), λ h. refl)
valid_spec_iff (c ∷ s) = elim (Bool-cases (ltb max_chain (byte_len (c ∷ s)))) [
  | inl q ↦ (λ e. ground (arith, e, q), λ h. absurd (not_le (byte_len (c ∷ s)) q h.0))
  | inr q ↦ (
    λ e.
        let g : valid_spec (c ∷ s) ≡ is_accepted (chain (length (c ∷ s)) 0 (c ∷ s)) = rw q refl in
        let (t, f) = accepted_of (chain (length (c ∷ s)) 0 (c ∷ s)) (sym g ∙ e) in
        let (m, v, x, y) = chain-Tags (length (c ∷ s)) 0 (c ∷ s) t (omega arith) f in
        (le_of (byte_len (c ∷ s)) q, (m, v, omega (arith, x, y))),
    λ h.
        let (m, v, y) = h.1 in
        let f = Tags-chain (length (c ∷ s)) 0 m (c ∷ s) v (omega arith) (omega (arith, y)) in
        rw (q, f, is_accepted) refl,
  )
]

-- A chain is let through exactly if it is blank or consists of tags whose bytes, and whose text,
-- come to at most 4096.
pub valid_chain_iff :
    (text : Text)
    → (valid_chain text ≡ true) ↔ (
        (byte_len (trim_space text) ≤ max_chain)
        × ((m : ℕ) × Tags (trim_space text) m × (m ≤ max_chain)))
unfolding valid_chain
valid_chain_iff text = valid_spec_iff (trim_space text)
