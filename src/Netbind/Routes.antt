-- ===== src/Netbind/Routes.antt =====
-- Which route of a table desktop/netbind/route.go takes.
use skipi_core.Base.{
  ◌≡◌, refl, sym, ap, subst, ◌∙◌, ◌⊎◌, inl, inr, Bool, true, false, Option, none, some, List, [],
  ◌∷◌, Bool-cases, Option-cases, arith, All, Text, codes, is_empty, split, fields, fields_words,
  atoi, ℤ, pos, negsuc, ltz, if◌then◌else◌,
}
use skipi_core.Netbind.{
  passes_over, up_with_gateway, parse_hex32, Best, take_route, route_of, with_metric, best_route,
  default_interface,
}

-- The interfaces and metrics of the default routes that can be used, line by line.
unfoldable pub candidates : Text → List Text → List (Text × ℤ)
candidates exclude [] = []
candidates exclude (line ∷ rest) = elim (route_of exclude (fields line)) [
  | none ↦ candidates exclude rest
  | some r ↦ r ∷ candidates exclude rest
]

unfoldable pub HasRoute : Text × ℤ → List (Text × ℤ) → Type 0
HasRoute r [] = ⊥
HasRoute r (c ∷ cs) = (r ≡ c) ⊎ HasRoute r cs

pick : Best → List (Text × ℤ) → Best
unfolding take_route
pick b [] = b
pick b (c ∷ cs) = pick (take_route b (some c)) cs

best_route-pick :
    (exclude : Text) (lines : List Text) (b : Best)
    → best_route exclude b lines ≡ pick b (candidates exclude lines)
unfolding best_route candidates pick take_route
best_route-pick exclude [] b = refl
best_route-pick exclude (line ∷ rest) b = elim (Option-cases (route_of exclude (fields line))) [
  | inl e ↦ rw (e, best_route, candidates) (best_route-pick exclude rest b)
  | inr (r, e) ↦ rw (e, best_route, candidates) (best_route-pick exclude rest _)
]

at_least_trans : (a b c : ℤ) → ltz a b ≡ false → ltz b c ≡ false → ltz a c ≡ false
at_least_trans (pos a) (pos b) (pos c) x y = ground (arith, x, y)
at_least_trans (pos a) (pos b) (negsuc c) x y = refl
at_least_trans (pos a) (negsuc b) (pos c) x y = absurd (ground (arith, y))
at_least_trans (pos a) (negsuc b) (negsuc c) x y = refl
at_least_trans (negsuc a) (pos b) c x y = absurd (ground (arith, x))
at_least_trans (negsuc a) (negsuc b) (pos c) x y = absurd (ground (arith, y))
at_least_trans (negsuc a) (negsuc b) (negsuc c) x y = ground (arith, x, y)

at_least_refl : (a : ℤ) → ltz a a ≡ false
at_least_refl (pos a) = ground arith
at_least_refl (negsuc a) = ground arith

below_false : (a b : ℤ) → ltz a b ≡ true → ltz b a ≡ false
below_false (pos a) (pos b) e = ground (arith, e)
below_false (pos a) (negsuc b) e = absurd (ground (arith, e))
below_false (negsuc a) (pos b) e = refl
below_false (negsuc a) (negsuc b) e = ground (arith, e)

as_route : Best → Text × ℤ
as_route b = (b.name, b.metric)

-- From a best route with a metric that is not negative.
IsLeast : Best → List (Text × ℤ) → Best → Type 0
IsLeast b cs r =
    ((r ≡ b) ⊎ HasRoute (as_route r) cs)
    × (ltz b.metric r.metric ≡ false)
    × All (λ c. ltz c.1 r.metric ≡ false) cs

nil-IsLeast : (b : Best) → IsLeast b [] b
unfolding IsLeast
nil-IsLeast b = (inl refl, at_least_refl b.metric, tt)

replaced-IsLeast :
    (b : Best) (name : Text) (metric : ℤ) (cs : List (Text × ℤ)) (r : Best)
    → ltz metric b.metric ≡ true
    → IsLeast (record { name = name; metric = metric }) cs r
    → IsLeast b ((name, metric) ∷ cs) r
unfolding IsLeast HasRoute as_route
replaced-IsLeast b name metric cs r l (from, low, all) = (
  found from,
  at_least_trans b.metric metric r.metric (below_false metric b.metric l) low,
  (low, all),
)
  where
    found :
        (r ≡ record { name = name; metric = metric }) ⊎ HasRoute (as_route r) cs
        → (r ≡ b) ⊎ ((as_route r ≡ (name, metric)) ⊎ HasRoute (as_route r) cs)
    found (inl e) = inr (inl (ap as_route e))
    found (inr x) = inr (inr x)

kept-IsLeast :
    (b : Best) (name : Text) (metric : ℤ) (cs : List (Text × ℤ)) (r : Best)
    → ltz metric b.metric ≡ false
    → IsLeast b cs r
    → IsLeast b ((name, metric) ∷ cs) r
unfolding IsLeast HasRoute
kept-IsLeast b name metric cs r l (from, low, all) =
    (found from, low, (at_least_trans metric b.metric r.metric l low, all))
  where
    found :
        (r ≡ b) ⊎ HasRoute (as_route r) cs
        → (r ≡ b) ⊎ ((as_route r ≡ (name, metric)) ⊎ HasRoute (as_route r) cs)
    found (inl e) = inl e
    found (inr x) = inr (inr x)

pick-IsLeast :
    (cs : List (Text × ℤ)) (b : Best)
    → ltz b.metric (pos 0) ≡ false
    → All (λ c. ltz c.1 (pos 0) ≡ false) cs
    → IsLeast b cs (pick b cs)
unfolding pick
pick-IsLeast [] b n h = nil-IsLeast b
pick-IsLeast ((name, metric) ∷ cs) b n h = elim (Bool-cases (ltz metric b.metric)) [
  | inl l ↦
      subst (λ t. IsLeast b ((name, metric) ∷ cs) (pick t cs)) (sym (taken n l))
        (replaced-IsLeast b name metric cs _ l
          (pick-IsLeast cs (record { name = name; metric = metric }) h.0 h.1))
  | inr l ↦
      subst (λ t. IsLeast b ((name, metric) ∷ cs) (pick t cs)) (sym (left n l))
        (kept-IsLeast b name metric cs _ l (pick-IsLeast cs b n h.1))
]
  where
    taken :
        ltz b.metric (pos 0) ≡ false
        → ltz metric b.metric ≡ true
        → take_route b (some (name, metric)) ≡ record { name = name; metric = metric }
    taken n l = simp (n, l, take_route) refl

    left :
        ltz b.metric (pos 0) ≡ false
        → ltz metric b.metric ≡ false
        → take_route b (some (name, metric)) ≡ b
    left n l = simp (n, l, take_route) refl

-- The name of a route, if there is one.
IsNamed : Option (Text × ℤ) → Type 0
IsNamed none = Unit
IsNamed (some r) = is_empty r.0 ≡ false

none-IsNamed : IsNamed none
unfolding IsNamed
none-IsNamed = tt

unless-IsNamed : (b : Bool) (o : Option (Text × ℤ)) → IsNamed o → IsNamed (if b then none else o)
unfolding IsNamed
unless-IsNamed true o n = tt
unless-IsNamed false o n = n

with_metric-IsNamed :
    (b : Bool) (name : Text) (metric : Option ℤ)
    → is_empty name ≡ false
    → IsNamed (if b then with_metric name metric else none)
unfolding IsNamed with_metric
with_metric-IsNamed false name metric e = tt
with_metric-IsNamed true name none e = tt
with_metric-IsNamed true name (some m) e = e

route_of-IsNamed :
    (exclude : Text) (words : List Text)
    → All (λ w. is_empty w ≡ false) words
    → IsNamed (route_of exclude words)
unfolding route_of
route_of-IsNamed exclude (name ∷ dest ∷ gateway ∷ flags ∷ refs ∷ use_ ∷ metric ∷ mask ∷ more) h =
    unless-IsNamed (passes_over exclude name dest mask) _
      (with_metric-IsNamed (up_with_gateway (parse_hex32 flags)) name (atoi metric) h.0)
route_of-IsNamed exclude [] h = none-IsNamed
route_of-IsNamed exclude (a ∷ []) h = none-IsNamed
route_of-IsNamed exclude (a ∷ b ∷ []) h = none-IsNamed
route_of-IsNamed exclude (a ∷ b ∷ c ∷ []) h = none-IsNamed
route_of-IsNamed exclude (a ∷ b ∷ c ∷ d ∷ []) h = none-IsNamed
route_of-IsNamed exclude (a ∷ b ∷ c ∷ d ∷ f ∷ []) h = none-IsNamed
route_of-IsNamed exclude (a ∷ b ∷ c ∷ d ∷ f ∷ g ∷ []) h = none-IsNamed
route_of-IsNamed exclude (a ∷ b ∷ c ∷ d ∷ f ∷ g ∷ i ∷ []) h = none-IsNamed

named_some : (o : Option (Text × ℤ)) (r : Text × ℤ) → IsNamed o → o ≡ some r → is_empty r.0 ≡ false
unfolding IsNamed
named_some none r n e = absurd cc
named_some (some s) r n e = ground (arith, n, inj e)
  where
    inj : some s ≡ some r → s ≡ r
    inj q = cc

candidates_named :
    (exclude : Text) (lines : List Text)
    → All (λ c. is_empty c.0 ≡ false) (candidates exclude lines)
unfolding candidates
candidates_named exclude [] = tt
candidates_named exclude (line ∷ rest) = elim (Option-cases (route_of exclude (fields line))) [
  | inl e ↦ rw (e, candidates) (candidates_named exclude rest)
  | inr (r, e) ↦
      rw (e, candidates)
        (
          named_some (route_of exclude (fields line)) r
              (route_of-IsNamed exclude (fields line) (fields_words line)) e,
          candidates_named exclude rest,
        )
]

IsChoice : List (Text × ℤ) → Option Text → Type 0
IsChoice cs o =
    ((o ≡ none) × (cs ≡ []))
    ⊎ ((name : Text) × (metric : ℤ) × (o ≡ some name)
        × HasRoute (name, metric) cs
        × All (λ c. ltz c.1 metric ≡ false) cs)

all-HasRoute :
    (P : Text × ℤ → Type 0) (r : Text × ℤ) (cs : List (Text × ℤ)) → All P cs → HasRoute r cs → P r
unfolding HasRoute
all-HasRoute P r [] h m = absurd m
all-HasRoute P r (c ∷ cs) h (inl e) = subst P (sym e) h.0
all-HasRoute P r (c ∷ cs) h (inr m) = all-HasRoute P r cs h.1 m

least-IsChoice :
    (name : Text) (metric : ℤ) (cs : List (Text × ℤ)) (r : Best)
    → IsLeast (record { name = name; metric = metric }) cs r
    → is_empty name ≡ false
    → All (λ c. is_empty c.0 ≡ false) cs
    → IsChoice ((name, metric) ∷ cs) (if is_empty r.name then none else some r.name)
unfolding IsLeast IsChoice HasRoute as_route
least-IsChoice name metric cs r (inl e, low, all) e0 n =
    inr (
      r.name,
      r.metric,
      rw (ap (λ b. is_empty b.name) e ∙ e0) refl,
      inl (ap as_route e),
      (low, all),
    )
least-IsChoice name metric cs r (inr m, low, all) e0 n =
    inr (r.name, r.metric, rw (all-HasRoute _ (r.name, r.metric) cs n m) refl, inr m, (low, all))

pick-IsChoice :
    (cs : List (Text × ℤ))
    → All (λ c. ltz c.1 (pos 0) ≡ false) cs
    → All (λ c. is_empty c.0 ≡ false) cs
    → let b = pick (record { name = []; metric = negsuc 0 }) cs in
      IsChoice cs (if is_empty b.name then none else some b.name)
unfolding pick take_route IsChoice
pick-IsChoice [] h n = inl (refl, refl)
pick-IsChoice ((name, metric) ∷ cs) h n =
    least-IsChoice name metric cs _
      (pick-IsLeast cs (record { name = name; metric = metric }) h.0 h.1) n.0 n.1

-- On a table in which no default route that can be used has a negative metric: the interface is
-- the one of such a route, and no other one has a lower metric; there is no interface only if
-- there is no such route.
pub default_interface-least :
    (table exclude : Text)
    → All (λ c. ltz c.1 (pos 0) ≡ false) (candidates exclude (split (codes "\n") table))
    → let cs = candidates exclude (split (codes "\n") table) in
      ((default_interface table exclude ≡ none) × (cs ≡ []))
      ⊎ ((name : Text) × (metric : ℤ) × (default_interface table exclude ≡ some name)
          × HasRoute (name, metric) cs
          × All (λ c. ltz c.1 metric ≡ false) cs)
unfolding default_interface IsChoice
default_interface-least table exclude h =
    let lines = split (codes "\n") table in
    let start : Best = record { name = []; metric = negsuc 0 } in
    subst (λ b. IsChoice (candidates exclude lines) (if is_empty b.name then none else some b.name))
      (sym (best_route-pick exclude lines start))
      (pick-IsChoice (candidates exclude lines) h (candidates_named exclude lines))
