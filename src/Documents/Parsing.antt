-- ===== src/Documents/Parsing.antt =====
-- Where ParseAmneziaWgSettings finds settings.
use skipi_core.Base.{
  ◌≡◌, refl, sym, subst, ◌∙◌, inl, inr, true, false, Option, none, some, Bool-cases, Option-cases,
  arith, codes, str_eq, ℤ,
}
use skipi_core.Awg.{Settings}
use skipi_core.Documents.{
  Json, null, boolean, number, string, array, object, Items, end, item, Members, get,
  is_awg_outbound, outbounds_of, settings_in, outbound_settings, first_settings, in_outbounds,
  settings_of_document, rewrite_document,
}
use skipi_core.Documents.Rewriting.{has_awg, has_awg_outbound, IsDone, rewrite_document-IsDone}

outbound_settings-awg :
    (decode : Json → Option Settings) (ob : Json) (s : Settings)
    → outbound_settings decode ob ≡ some s
    → is_awg_outbound ob ≡ true
unfolding outbound_settings
outbound_settings-awg decode (object m) s e = elim (Bool-cases (is_awg_outbound (object m))) [
  | inl a ↦ a
  | inr a ↦ absurd (ground (arith, a, e))
]
outbound_settings-awg decode null s e = absurd cc
outbound_settings-awg decode (boolean b) s e = absurd cc
outbound_settings-awg decode (number n) s e = absurd cc
outbound_settings-awg decode (string t) s e = absurd cc
outbound_settings-awg decode (array items) s e = absurd cc

first_settings-awg :
    (decode : Json → Option Settings) (items : Items) (s : Settings)
    → first_settings decode items ≡ some s
    → has_awg items ≡ true
unfolding first_settings has_awg
first_settings-awg decode end s e = absurd cc
first_settings-awg decode (item ob rest) s e = elim (Option-cases (outbound_settings decode ob)) [
  | inr (found, f) ↦ ground (arith, outbound_settings-awg decode ob found f)
  | inl f ↦
      let later : first_settings decode rest ≡ some s = sym (rw (f, first_settings) refl) ∙ e in
      ground (arith, first_settings-awg decode rest s later)
]

in_outbounds-awg :
    (decode : Json → Option Settings) (m : Members) (s : Settings)
    → in_outbounds decode m ≡ some s
    → has_awg_outbound m ≡ true
unfolding in_outbounds has_awg_outbound
in_outbounds-awg decode m s e = elim (Option-cases (outbounds_of m)) [
  | inl o ↦ absurd (no_value (sym (rw (o, in_outbounds) refl) ∙ e))
  | inr (items, o) ↦
      rw (o, has_awg_outbound)
        (first_settings-awg decode items s (sym (rw (o, in_outbounds) refl) ∙ e))
]
  where
    no_value : none ≡ some s → ⊥
    no_value c = cc

-- A document in which the outbounds are all that can have the settings of a tunnel, as it has no
-- secret key and no settings of its own: if settings are found in it, it is rewritten, and
-- afterwards no outbound is of AmneziaWG and no settings are found any more.
pub settings_of_document-rewritten :
    (decode : Json → Option Settings) (m : Members) (s : Settings) (port : ℤ)
    → get (codes "secretKey") m ≡ none
    → get (codes "settings") m ≡ none
    → settings_of_document decode m ≡ some s
    → (n : Members) × (rewrite_document port m ≡ some n)
      × (has_awg_outbound n ≡ false)
      × (settings_of_document decode n ≡ none)
unfolding IsDone str_eq settings_in settings_of_document in_outbounds
settings_of_document-rewritten decode m s port no_key no_settings e =
    elim (Option-cases (rewrite_document port m)) [
      | inl r ↦
          let plain = subst (IsDone port m) r (rewrite_document-IsDone port m) in
          absurd (ground (arith, plain, awg))
      | inr (n, r) ↦
          let (x, (before, after, y, z, each, plain), others) =
            subst (IsDone port m) r (rewrite_document-IsDone port m) in
          let clean : has_awg_outbound n ≡ false = rw (z, has_awg_outbound) plain in
          let key = others (codes "secretKey") refl ∙ no_key in
          let own = others (codes "settings") refl ∙ no_settings in
          (n, r, clean, rw (key, own, settings_in, nothing n clean, settings_of_document) refl)
    ]
  where
    found : in_outbounds decode m ≡ some s
    found = sym (rw (no_key, settings_in, no_settings, settings_of_document) refl) ∙ e

    awg : has_awg_outbound m ≡ true
    awg = in_outbounds-awg decode m s found

    nothing : (n : Members) → has_awg_outbound n ≡ false → in_outbounds decode n ≡ none
    nothing n clean = elim (Option-cases (in_outbounds decode n)) [
      | inl i ↦ i
      | inr (t, i) ↦ absurd (ground (arith, clean, in_outbounds-awg decode n t i))
    ]
