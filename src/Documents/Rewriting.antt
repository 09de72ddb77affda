-- ===== src/Documents/Rewriting.antt =====
-- What RewriteWireguardOutboundToSocks does to a document.
use skipi_core.Base.{
  ◌≡◌, refl, sym, ap, subst, ◌∙◌, ◌⊎◌, inl, inr, Bool, true, false, ◌||◌, Option, none, some,
  Bool-cases, Option-cases, arith, if◌then◌else◌, Text, codes, str_eq, str_eq_iff, ℤ,
}
use skipi_core.Documents.{
  Json, array, Items, end, item, Members, close, member, get, put, is_awg_outbound, is_awg_protocol,
  socks_outbound, tag_of, rewrite_outbound, rewrite_all, outbounds_of, replaced, rewrite_document,
  printed, rewritten, rewrite_wireguard_outbound_to_socks,
}

get-put :
    (k j : Text) (v : Json) (m : Members)
    → get j (put k v m) ≡ (if str_eq k j then some v else get j m)
unfolding get put
get-put k j v close = refl
get-put k j v (member i w m) =
    ground (arith, str_eq_iff k j, str_eq_iff i k, str_eq_iff i j, get-put k j v m)

-- Some outbound is one of AmneziaWG.
unfoldable pub has_awg : Items → Bool
has_awg end = false
has_awg (item ob rest) = is_awg_outbound ob || has_awg rest

rewrite_all-modified : (port : ℤ) (items : Items) → (rewrite_all port items).1 ≡ has_awg items
unfolding rewrite_all has_awg
rewrite_all-modified port end = refl
rewrite_all-modified port (item ob rest) =
    ap (λ x. is_awg_outbound ob || x) (rewrite_all-modified port rest)

socks_outbound-plain : (port : ℤ) (tag : Text) → is_awg_outbound (socks_outbound port tag) ≡ false
unfolding is_awg_outbound socks_outbound get is_awg_protocol str_eq
socks_outbound-plain port tag = refl

rewrite_outbound-plain : (port : ℤ) (ob : Json) → is_awg_outbound (rewrite_outbound port ob) ≡ false
unfolding rewrite_outbound
rewrite_outbound-plain port ob = elim (Bool-cases (is_awg_outbound ob)) [
  | inl e ↦ rw (e, rewrite_outbound) (socks_outbound-plain port (tag_of ob))
  | inr e ↦ rw (e, rewrite_outbound) e
]

rewrite_all-plain : (port : ℤ) (items : Items) → has_awg (rewrite_all port items).0 ≡ false
unfolding rewrite_all has_awg
rewrite_all-plain port end = refl
rewrite_all-plain port (item ob rest) =
    ground (arith, rewrite_outbound-plain port ob, rewrite_all-plain port rest)

outbounds_of-put :
    (items : Items) (m : Members)
    → outbounds_of (put (codes "outbounds") (array items) m) ≡ some items
unfolding outbounds_of str_eq
outbounds_of-put items m =
    rw (get-put (codes "outbounds") (codes "outbounds") (array items) m, outbounds_of) refl

-- One outbound of AmneziaWG is a SOCKS outbound with its tag afterwards, any other one is the same.
unfoldable pub IsRewritten : ℤ → Items → Items → Type 0
IsRewritten port end end = Unit {0}
IsRewritten port (item a as_) (item b bs) =
    (((is_awg_outbound a ≡ true) × (b ≡ socks_outbound port (tag_of a)))
      ⊎ ((is_awg_outbound a ≡ false) × (b ≡ a)))
    × IsRewritten port as_ bs
IsRewritten port _ _ = ⊥

rewrite_all-IsRewritten :
    (port : ℤ) (items : Items) → IsRewritten port items (rewrite_all port items).0
unfolding rewrite_all IsRewritten
rewrite_all-IsRewritten port end = tt
rewrite_all-IsRewritten port (item ob rest) = (one, rewrite_all-IsRewritten port rest)
  where
    one :
        ((is_awg_outbound ob ≡ true) × (rewrite_outbound port ob ≡ socks_outbound port (tag_of ob)))
        ⊎ ((is_awg_outbound ob ≡ false) × (rewrite_outbound port ob ≡ ob))
    one = elim (Bool-cases (is_awg_outbound ob)) [
      | inl e ↦ inl (e, rw (e, rewrite_outbound) refl)
      | inr e ↦ inr (e, rw (e, rewrite_outbound) refl)
    ]

-- A document without an array of outbounds, or with no outbound of AmneziaWG in it.
unfoldable pub has_awg_outbound : Members → Bool
unfolding has_awg
has_awg_outbound m = elim (outbounds_of m) [ none ↦ false | some items ↦ has_awg items ]

-- A document that is rewritten, and what comes of it.
unfoldable pub IsDone : ℤ → Members → Option Members → Type 0
unfolding has_awg_outbound
IsDone port m none = has_awg_outbound m ≡ false
IsDone port m (some n) =
    (has_awg_outbound m ≡ true)
    × ((before after : Items) × (outbounds_of m ≡ some before)
        × (outbounds_of n ≡ some after)
        × IsRewritten port before after
        × (has_awg after ≡ false))
    × ((k : Text) → str_eq (codes "outbounds") k ≡ false → get k n ≡ get k m)

replaced-IsDone :
    (port : ℤ) (m : Members) (items : Items)
    → outbounds_of m ≡ some items
    → IsDone port m (replaced m (rewrite_all port items))
unfolding IsDone has_awg_outbound replaced
replaced-IsDone port m items e = elim (Bool-cases (has_awg items)) [
  | inr h ↦ rw (rewrite_all-modified port items ∙ h, replaced) (rw (e, has_awg_outbound) h)
  | inl h ↦
      rw (rewrite_all-modified port items ∙ h, replaced)
        (
          rw (e, has_awg_outbound) h,
          (
            items,
            (rewrite_all port items).0,
            e,
            outbounds_of-put (rewrite_all port items).0 m,
            rewrite_all-IsRewritten port items,
            rewrite_all-plain port items,
          ),
          λ k d. get-put (codes "outbounds") k (array (rewrite_all port items).0) m ∙ rw d refl,
        )
]

-- The document is rewritten exactly if one of its outbounds is of AmneziaWG. Then it has as many
-- outbounds as before, in order: one of AmneziaWG is the SOCKS outbound of the port with its tag,
-- or the tag `proxy` if it had none, any other one is as it was, none is of AmneziaWG any more,
-- and every other key of the document has the value that it had.
pub rewrite_document-IsDone : (port : ℤ) (m : Members) → IsDone port m (rewrite_document port m)
unfolding rewrite_document IsDone has_awg_outbound
rewrite_document-IsDone port m = elim (Option-cases (outbounds_of m)) [
  | inl e ↦ rw (e, rewrite_document) (rw (e, has_awg_outbound) refl)
  | inr (items, e) ↦ rw (e, rewrite_document) (replaced-IsDone port m items e)
]

-- A rewritten document has nothing to rewrite.
again : (p q : ℤ) (m n : Members) → rewrite_document p m ≡ some n → rewrite_document q n ≡ none
unfolding rewrite_document IsDone
again p q m n e =
    let (some_awg, (before, after, x, y, z, plain), others) =
      subst (IsDone p m) e (rewrite_document-IsDone p m) in
    rw (y, rewrite_document) (rw (rewrite_all-modified q after ∙ plain, replaced) refl)

-- A text that is rewritten is rewritten once: if the result is read to the document that it was
-- printed from, rewriting it again, for whatever port, gives it unchanged.
pub rewrite_wireguard_outbound_to_socks-again :
    (parse : Text → Option Members) (print : Members → Option Text) (raw result : Text) (p q : ℤ)
    (m n : Members)
    → parse raw ≡ some m
    → rewrite_document p m ≡ some n
    → print n ≡ some result
    → parse result ≡ some n
    → let rewrite = rewrite_wireguard_outbound_to_socks parse print in
      (rewrite raw p ≡ result) × (rewrite (rewrite raw p) q ≡ rewrite raw p)
unfolding rewrite_wireguard_outbound_to_socks rewritten printed
rewrite_wireguard_outbound_to_socks-again parse print raw result p q m n reads done prints rereads =
    (once, ap (λ t. rewrite_wireguard_outbound_to_socks parse print t q) once ∙ twice ∙ sym once)
  where
    once : rewrite_wireguard_outbound_to_socks parse print raw p ≡ result
    once = rw (reads, done, prints, rewrite_wireguard_outbound_to_socks) refl

    twice : rewrite_wireguard_outbound_to_socks parse print result q ≡ result
    twice = rw (rereads, again p q m n done, rewrite_wireguard_outbound_to_socks) refl
