-- ===== src/Select/Candidates.antt =====
-- The candidates of skipicore.go's `FastSelectBestOutbound`.
use skipi_core.Base.{
  ◌≡◌, false, List, [], ◌∷◌, Text, is_empty, trim_space, split, codes, All, inl, inr, Bool-cases,
}
use skipi_core.Select.{parse_candidates, trimmed}

abbrev pub IsTag : Text → Type 0
IsTag t = is_empty t ≡ false

trimmed-All : (ts : List Text) → All IsTag (trimmed ts)
unfolding trimmed
trimmed-All [] = tt
trimmed-All (t ∷ ts) = elim (Bool-cases (is_empty (trim_space t))) [
  | inl e ↦ rw e (trimmed-All ts)
  | inr e ↦ rw e (e, trimmed-All ts)
]

-- No candidate is blank.
pub parse_candidates-All : (text : Text) → All IsTag (parse_candidates text)
unfolding parse_candidates
parse_candidates-All text = trimmed-All (split (codes ",") text)
