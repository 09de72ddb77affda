-- ===== src/ConnLog/Lines.antt =====
-- The three regular expressions of connection_log.go, matched as the package regexp does: at the
-- leftmost place where a match exists, the lazy parts as short as the rest allows.
use skipi_core.Base.{
  ℕ, ◌≡◌, refl, Bool, not, ◌||◌, Option, none, some, [], ◌∷◌, ◌++◌, ◌==◌, if◌then◌else◌, Text,
  codes, is_digit, has_prefix, is_empty, length, drop,
}

-- The longest run of entries that pass, and what follows it.
span : (ℕ → Bool) → Text → Text × Text
span p [] = ([], [])
span p (c ∷ s) = let (run, rest) = span p s in if p c then (c ∷ run, rest) else ([], c ∷ s)

-- `\S`
not_blank : ℕ → Bool
not_blank c = not (c == b'\t' || c == b'\n' || c == 0x0c || c == b'\r' || c == b' ')

-- `[(\d+)] ` with the brackets as they stand in the line.
id_head : Text → Option (Text × Text)
unfolding span is_digit has_prefix
id_head [] = none
id_head (c ∷ s) =
    let (id, rest) = span is_digit s in
    if c == b'['
    then (if is_empty id
        then none
        else (if has_prefix (codes "] ") rest then some (id, drop 2 rest) else none))
    else none

module _ {ℓ} {A : Type ℓ} where
  abbrev first_some : Option A → Option A → Option A
  first_some (some a) later = some a
  first_some none later = later

  -- `.*?marker`, then `k` on what follows.
  lazy_find : Text → (Text → Option A) → Text → Option A
  unfolding has_prefix
  lazy_find marker k [] = none
  lazy_find marker k (c ∷ s) =
      let later = lazy_find marker k s in
      first_some (if has_prefix marker (c ∷ s) then k (drop (length marker) (c ∷ s)) else none)
        (if c == b'\n' then none else later)

  -- `(.+?)close`, then `k` on the group and what follows.
  lazy_group : Text → (Text → Text → Option A) → Text → Text → Option A
  unfolding has_prefix
  lazy_group close k group [] = none
  lazy_group close k group (c ∷ s) =
      let longer = lazy_group close k (group ++ c ∷ []) s in
      if c == b'\n'
      then none
      else first_some
          (if has_prefix close s then k (group ++ c ∷ []) (drop (length close) s) else none) longer

  -- A match at the leftmost place.
  search_line : (Text → Option A) → Text → Option A
  search_line pattern_at [] = none
  search_line pattern_at (c ∷ s) =
      let later = search_line pattern_at s in first_some (pattern_at (c ∷ s)) later

-- `(\S+)`
word_group : Text → Text → Option (Text × Text)
unfolding span not_blank
word_group id s =
    let (word, rest) = span not_blank s in if is_empty word then none else some (id, word)

at_head : {A : Type 0} → (Text → Text → Option A) → Text → Option A
unfolding id_head
at_head k s = elim (id_head s) [ none ↦ none | some (id, rest) ↦ k id rest ]

-- `sniffedDomainPattern`: the connection's number and the domain.
unfoldable pub match_sniffed : Text → Option (Text × Text)
unfolding search_line at_head lazy_find word_group
match_sniffed = search_line (at_head (λ id. lazy_find (codes "sniffed domain: ") (word_group id)))

detour_groups : Text → Text → Option (Text × Text × Text)
unfolding lazy_group
detour_groups id =
    lazy_group (codes "] for [")
      (λ outbound. lazy_group (codes "]") (λ dest _. some (id, outbound, dest)) []) []

-- `routedPattern`: the number, the outbound and the destination.
unfoldable pub match_routed : Text → Option (Text × Text × Text)
unfolding search_line at_head lazy_find detour_groups
match_routed = search_line (at_head (λ id. lazy_find (codes "taking detour [") (detour_groups id)))

-- `defaultRoutePattern`: the number and the destination.
unfoldable pub match_default : Text → Option (Text × Text)
unfolding search_line at_head lazy_find word_group
match_default = search_line (at_head (λ id. lazy_find (codes "default route for ") (word_group id)))

sniffed_test :
    match_sniffed (codes "[Info] [42] app: sniffed domain: a.org x")
    ≡ some (codes "42", codes "a.org")
unfolding match_sniffed
sniffed_test = refl

routed_test :
    match_routed (codes "[42] app/dispatcher: taking detour [proxy] for [tcp:[::1]:443]")
    ≡ some (codes "42", codes "proxy", codes "tcp:[::1")
unfolding match_routed
routed_test = refl
