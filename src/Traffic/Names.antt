-- ===== src/Traffic/Names.antt =====
-- The counter names of skipicore.go's `parseTrafficStatCounterName`, printed and read.
use skipi_core.Base.{
  ◌≡◌, ap, ◌∙◌, sym, subst, false, ◌⊎◌, inl, inr, some, [], ◌∷◌, ◌++◌, arith, Text, codes,
  str_eq_iff, str_eq_refl, is_empty, split, split_part, split_last, Lacks,
}
use skipi_core.Traffic.{CounterName, parse_name, parse_parts}

-- Xray's name of the counter.
pub print_name : CounterName → Text
print_name n =
    n.kind
    ++ (codes ">>>"
        ++ (n.tag ++ (codes ">>>" ++ (codes "traffic" ++ (codes ">>>" ++ n.direction)))))

-- The names that the code accepts.
pub record IsCounterName (n : CounterName) : Type 0 where
  pub kind : (n.kind ≡ codes "inbound") ⊎ (n.kind ≡ codes "outbound")
  pub tag : is_empty n.tag ≡ false
  pub direction : (n.direction ≡ codes "uplink") ⊎ (n.direction ≡ codes "downlink")

Lacks-of_eq : {s t : Text} → s ≡ t → Lacks b'>' t → Lacks b'>' s
Lacks-of_eq e h = subst (Lacks b'>') (sym e) h

split-print_name :
    (n : CounterName)
    → Lacks b'>' n.kind
    → Lacks b'>' n.tag
    → Lacks b'>' n.direction
    → split (codes ">>>") (print_name n) ≡ n.kind ∷ n.tag ∷ codes "traffic" ∷ n.direction ∷ []
unfolding print_name
split-print_name n k t d =
    let sep = codes ">>" in
    split_part b'>' sep n.kind _ k
    ∙ ap (λ x. n.kind ∷ x) (split_part b'>' sep n.tag _ t)
    ∙ ap (λ x. n.kind ∷ n.tag ∷ x) (split_part b'>' sep (codes "traffic") _ (ground arith))
    ∙ ap (λ x. n.kind ∷ n.tag ∷ codes "traffic" ∷ x) (split_last b'>' sep n.direction d)

-- A printed name is read back, provided that its tag holds no `>`.
pub parse_name-print_name :
    (n : CounterName) → IsCounterName n → Lacks b'>' n.tag → parse_name (print_name n) ≡ some n
unfolding parse_name parse_parts
parse_name-print_name n v h =
    ap parse_parts (split-print_name n kind h direction)
    ∙ ground (
      arith,
      v.tag,
      str_eq_iff n.kind (codes "inbound"),
      str_eq_iff n.kind (codes "outbound"),
      str_eq_iff n.direction (codes "uplink"),
      str_eq_iff n.direction (codes "downlink"),
      str_eq_refl (codes "traffic"),
    )
  where
    kind : Lacks b'>' n.kind
    kind = elim v.kind [
      | inl e ↦ Lacks-of_eq e (ground arith)
      | inr e ↦ Lacks-of_eq e (ground arith)
    ]

    direction : Lacks b'>' n.direction
    direction = elim v.direction [
      | inl e ↦ Lacks-of_eq e (ground arith)
      | inr e ↦ Lacks-of_eq e (ground arith)
    ]
