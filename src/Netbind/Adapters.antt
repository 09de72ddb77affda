-- ===== src/Netbind/Adapters.antt =====
-- Which adapter desktop/netbind/adapter.go chooses.
use skipi_core.Base.{
  ◌≤◌, ◌<◌, ◌≡◌, refl, sym, ◌⊎◌, inl, inr, Bool, true, false, Option, none, some, List, [], ◌∷◌,
  Bool-cases, arith, All, Text, subst, ◌&&◌,
}
use skipi_core.Netbind.{Adapter, is_candidate, improves, best_adapter, default_adapter, index_of}

-- The adapter does not rank behind the other one: by the metric, and by the index for equal ones.
unfoldable pub Ranks : Adapter → Adapter → Type 0
Ranks a b = (a.metric < b.metric) ⊎ ((a.metric ≡ b.metric) × (a.index ≤ b.index))

-- An adapter of the list.
unfoldable pub In : Adapter → List Adapter → Type 0
In a [] = ⊥
In a (b ∷ bs) = (a ≡ b) ⊎ In a bs

improves-Ranks : (b a : Adapter) → improves (some b) a ≡ true → Ranks a b
unfolding improves Ranks
improves-Ranks b a e = ground (arith, e)

stays-Ranks : (b a : Adapter) → improves (some b) a ≡ false → Ranks b a
unfolding improves Ranks
stays-Ranks b a e = ground (arith, e)

Ranks-trans : (a b c : Adapter) → Ranks a b → Ranks b c → Ranks a c
unfolding Ranks
Ranks-trans a b c x y = ground (arith, x, y)

Ranks-refl : (a : Adapter) → Ranks a a
unfolding Ranks
Ranks-refl a = inr (refl, omega arith)

-- The best so far, if there is one, does not rank in front.
Over : Option Adapter → Adapter → Type 0
Over none b = Unit
Over (some x) b = Ranks b x

module _ (equal_fold : Text → Text → Bool) (exclude : Text) where
  -- An adapter that is no candidate, or does not rank in front of `b`.
  unfoldable pub Behind : Adapter → Adapter → Type 0
  Behind b a = (is_candidate equal_fold exclude a ≡ false) ⊎ Ranks b a

  -- What the loop comes to.
  IsBest : Option Adapter → List Adapter → Option Adapter → Type 0
  IsBest best as_ none = (best ≡ none) × All (λ a. is_candidate equal_fold exclude a ≡ false) as_
  IsBest best as_ (some b) =
      ((best ≡ some b) ⊎ (In b as_ × (is_candidate equal_fold exclude b ≡ true)))
      × Over best b
      × All (Behind b) as_

  taken :
      (best : Option Adapter) (a : Adapter) (as_ : List Adapter) (r : Option Adapter)
      → is_candidate equal_fold exclude a ≡ true
      → improves best a ≡ true
      → IsBest (some a) as_ r
      → IsBest best (a ∷ as_) r
  unfolding IsBest Over In Behind
  taken best a as_ none c i (e, all) = absurd cc
  taken best a as_ (some b) c i (from, over, all) =
      (inr (where_ from, cand from), beats best i, (inr over, all))
    where
      inj : {x y : Adapter} → some x ≡ some y → x ≡ y
      inj e = cc

      where_ :
          (some a ≡ some b) ⊎ (In b as_ × (is_candidate equal_fold exclude b ≡ true))
          → In b (a ∷ as_)
      where_ (inl e) = inl (sym (inj e))
      where_ (inr (x, y)) = inr x

      cand :
          (some a ≡ some b) ⊎ (In b as_ × (is_candidate equal_fold exclude b ≡ true))
          → is_candidate equal_fold exclude b ≡ true
      cand (inl e) = subst (λ x. is_candidate equal_fold exclude x ≡ true) (inj e) c
      cand (inr (x, y)) = y

      beats : (o : Option Adapter) → improves o a ≡ true → Over o b
      beats none e = tt
      beats (some x) e = Ranks-trans b a x over (improves-Ranks x a e)

  later :
      (o : Option Adapter) (a : Adapter) (as_ : List Adapter) (b : Adapter)
      → (o ≡ some b) ⊎ (In b as_ × (is_candidate equal_fold exclude b ≡ true))
      → (o ≡ some b) ⊎ (In b (a ∷ as_) × (is_candidate equal_fold exclude b ≡ true))
  unfolding In
  later o a as_ b (inl e) = inl e
  later o a as_ b (inr (x, y)) = inr (inr x, y)

  passed :
      (best : Option Adapter) (a : Adapter) (as_ : List Adapter) (r : Option Adapter)
      → (is_candidate equal_fold exclude a && improves best a) ≡ false
      → IsBest best as_ r
      → IsBest best (a ∷ as_) r
  unfolding IsBest Over In Behind improves
  passed none a as_ none c (e, all) = (e, (ground (arith, c), all))
  passed (some x) a as_ none c (e, all) = absurd cc
  passed none a as_ (some b) c (from, over, all) =
      (later none a as_ b from, over, (inl (ground (arith, c)), all))
  passed (some x) a as_ (some b) c (from, over, all) =
      (later (some x) a as_ b from, over, (behind, all))
    where
      behind : Behind b a
      behind = elim (Bool-cases (is_candidate equal_fold exclude a)) [
        | inr e ↦ inl e
        | inl e ↦ inr (Ranks-trans b x a over (stays-Ranks x a (ground (arith, c, e))))
      ]

  best_adapter-IsBest :
      (best : Option Adapter) (as_ : List Adapter)
      → IsBest best as_ (best_adapter equal_fold exclude best as_)
  unfolding best_adapter IsBest Over
  best_adapter-IsBest none [] = (refl, tt)
  best_adapter-IsBest (some b) [] = (inl refl, Ranks-refl b, tt)
  best_adapter-IsBest best (a ∷ as_) =
      elim (Bool-cases (is_candidate equal_fold exclude a && improves best a)) [
        | inl t ↦
            rw (t, best_adapter)
              (taken best a as_ _ (ground (arith, t)) (ground (arith, t))
                (best_adapter-IsBest (some a) as_))
        | inr t ↦ rw (t, best_adapter) (passed best a as_ _ t (best_adapter-IsBest best as_))
      ]

  -- The index is the one of an adapter of the list that is up, has a gateway, is no loopback and
  -- is not the excluded one, and no other such adapter ranks in front of it, by a lower metric or
  -- by the same metric and a lower index; without an index, the list has no such adapter.
  pub default_adapter-IsBest :
      (as_ : List Adapter)
      → let r = default_adapter equal_fold as_ exclude in
        ((r ≡ none) × All (λ a. is_candidate equal_fold exclude a ≡ false) as_)
        ⊎ ((b : Adapter) × (r ≡ some b.index)
            × In b as_
            × (is_candidate equal_fold exclude b ≡ true)
            × All (Behind b) as_)
  unfolding default_adapter index_of IsBest
  default_adapter-IsBest as_ =
      go (best_adapter equal_fold exclude none as_) (best_adapter-IsBest none as_)
    where
      go :
          (o : Option Adapter)
          → IsBest none as_ o
          → ((index_of o ≡ none) × All (λ a. is_candidate equal_fold exclude a ≡ false) as_)
            ⊎ ((b : Adapter) × (index_of o ≡ some b.index)
                × In b as_
                × (is_candidate equal_fold exclude b ≡ true)
                × All (Behind b) as_)
      go none (e, all) = inl (refl, all)
      go (some b) (inl e, over, all) = absurd cc
      go (some b) (inr (x, y), over, all) = inr (b, refl, x, y, all)
