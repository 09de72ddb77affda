-- ===== src/ConnLog/Tail.antt =====
-- The log of connection_log.go against an unbounded one: what each line routes, and what is kept.
use skipi_core.Base.{
  ℕ, suc, ◌+◌, ◌-◌, ◌≤◌, ◌<◌, ◌≡◌, refl, ap, ◌∙◌, subst, inl, inr, none, some, List, [], ◌∷◌, ◌++◌,
  ltb, if◌then◌else◌, Bool-cases, Option-cases, arith, Text, length, length-append, length-drop,
  drop, is_empty, ◌%◌, ◌^◌, lookup, erase, add64, last_n, last_n-append,
}
use mathlib.Core.List.{append-nil, append_assoc}
use skipi_core.ConnLog.{
  ConnectionLog, Entry, new_entry, Destination, capacity, push_entry, add_named, add, sniff, Line,
  sniffed, routed, other, record_line, read_line, record_text, record_all, split_destination,
}

-- The entry of one routed connection, and none for a destination with no name.
entry_for : ConnectionLog → Destination → Text → Text → ℕ → List Entry
entry_for l d host outbound now =
    if is_empty host then [] else new_entry (add64 l.seq 1) d host outbound now ∷ []

emitted_line : ConnectionLog → Line → ℕ → List Entry
unfolding entry_for
emitted_line l (routed id destination outbound) now =
    let d = split_destination destination in
    elim (lookup id l.pending) [
      | some name ↦ entry_for l d name outbound now
      | none ↦ entry_for l d d.host outbound now
    ]
emitted_line l _ now = []

emitted_text : ConnectionLog → Text → ℕ → List Entry
unfolding emitted_line
emitted_text l line now = if l.enabled then emitted_line l (read_line line) now else []

-- Every connection that the lines route, in order, with no bound.
unfoldable pub emitted : ConnectionLog → List (Text × ℕ) → List Entry
unfolding emitted_text
emitted l [] = []
emitted l ((line, now) ∷ rest) = emitted_text l line now ++ emitted (record_text l line now) rest

push_entry-last_n : (es : List Entry) (e : Entry) → push_entry es e ≡ last_n capacity (es ++ e ∷ [])
unfolding push_entry
push_entry-last_n es e = elim (Bool-cases (ltb capacity (length (es ++ e ∷ [])))) [
  | inl t ↦ rw t
  | inr t ↦ rw t (
      ap (λ n. drop n (es ++ e ∷ []))
        (let g : 0 ≡ length (es ++ e ∷ []) - capacity = ground arith in g))
]

last_n-short : (es : List Entry) → length es ≤ capacity → es ≡ last_n capacity (es ++ [])
last_n-short es h =
    rw (append-nil es) (ap (λ n. drop n es) (let g : 0 ≡ length es - capacity = omega arith in g))

-- What one line does: its entry comes to the end, and the last `capacity` entries stay.
abbrev Extends : ConnectionLog → List Entry → ConnectionLog → Type 0
Extends l es m =
    (m.entries ≡ last_n capacity (l.entries ++ es)) × (m.seq ≡ (l.seq + length es) % 2 ^ 64)

Extends-nil :
    (l m : ConnectionLog)
    → m.entries ≡ l.entries
    → m.seq ≡ l.seq
    → length l.entries ≤ capacity
    → l.seq < 2 ^ 64
    → Extends l [] m
Extends-nil l m e s h w = (e ∙ last_n-short l.entries h, omega arith)

add_named-Extends :
    (l m : ConnectionLog) (d : Destination) (host outbound : Text) (now : ℕ)
    → m.entries ≡ l.entries
    → m.seq ≡ l.seq
    → length l.entries ≤ capacity
    → l.seq < 2 ^ 64
    → Extends l (entry_for l d host outbound now) (add_named m d host outbound now)
unfolding entry_for add_named
add_named-Extends l m d host outbound now e s h w = elim (Bool-cases (is_empty host)) [
  | inl t ↦ rw t (Extends-nil l m e s h w)
  | inr t ↦
      rw (t, e, s)
        (push_entry-last_n l.entries (new_entry (add64 l.seq 1) d host outbound now), refl)
]

record_line-Extends :
    (l : ConnectionLog) (line : Line) (now : ℕ)
    → length l.entries ≤ capacity
    → l.seq < 2 ^ 64
    → Extends l (emitted_line l line now) (record_line l line now)
unfolding emitted_line record_line sniff add
record_line-Extends l (sniffed id domain) now h w = Extends-nil l (sniff l id domain) refl refl h w
record_line-Extends l (routed id destination outbound) now h w =
    let d = split_destination destination in
    elim (Option-cases (lookup id l.pending)) [
      | inl e ↦
          rw (e, emitted_line, add) (add_named-Extends l l d d.host outbound now refl refl h w)
      | inr (name, e) ↦
          rw (e, emitted_line, add)
            (add_named-Extends l (record l { pending = erase id l.pending }) d name outbound now
              refl refl h w)
    ]
record_line-Extends l other now h w = Extends-nil l l refl refl h w

record_text-Extends :
    (l : ConnectionLog) (line : Text) (now : ℕ)
    → length l.entries ≤ capacity
    → l.seq < 2 ^ 64
    → Extends l (emitted_text l line now) (record_text l line now)
unfolding emitted_text record_text
record_text-Extends l line now h w = elim (Bool-cases l.enabled) [
  | inl e ↦ simp e (record_line-Extends l (read_line line) now h w)
  | inr e ↦ simp e (Extends-nil l l refl refl h w)
]

Extends-length :
    (l : ConnectionLog) (es : List Entry) (m : ConnectionLog)
    → Extends l es m
    → length m.entries ≤ capacity
Extends-length l es m x =
    omega
      (arith, ap length x.0, length-drop (length (l.entries ++ es) - capacity) (l.entries ++ es))

-- After any lines the log is exactly the last 1000 entries of an unbounded log of everything that
-- the lines routed, older entries first, provided that it held at most 1000 before.
pub record_all-last_n :
    (l : ConnectionLog) (lines : List (Text × ℕ))
    → length l.entries ≤ capacity
    → l.seq < 2 ^ 64
    → (record_all l lines).entries ≡ last_n capacity (l.entries ++ emitted l lines)
unfolding record_all emitted
record_all-last_n l [] h w = last_n-short l.entries h
record_all-last_n l ((line, now) ∷ rest) h w =
    let m = record_text l line now in
    let es = emitted_text l line now in
    let x : Extends l es m = record_text-Extends l line now h w in
    let later : List Entry = emitted m rest in
    record_all-last_n m rest (Extends-length l es m x) (omega (arith, x.1))
    ∙ ap (λ ys. last_n capacity (ys ++ later)) x.0
    ∙ last_n-append capacity (l.entries ++ es) later
    ∙ ap (last_n capacity) (append_assoc l.entries es later)

-- The entries are numbered one by one from `n + 1`.
abbrev pub Numbered : ℕ → List Entry → Type 0
Numbered n [] = Unit {0}
Numbered n (e ∷ es) = (e.seq ≡ suc n) × Numbered (suc n) es

Numbered-append :
    (n k : ℕ) (xs ys : List Entry)
    → Numbered n xs
    → k ≡ n + length xs
    → Numbered k ys
    → Numbered n (xs ++ ys)
Numbered-append n k [] ys hx e hy = subst (λ i. Numbered i ys) (let g : k ≡ n = omega arith in g) hy
Numbered-append n k (x ∷ xs) ys hx e hy =
    (hx.0, Numbered-append (suc n) k xs ys hx.1 (omega arith) hy)

emitted_text-Numbered :
    (l : ConnectionLog) (line : Text) (now : ℕ)
    → l.seq + 1 < 2 ^ 63
    → Numbered l.seq (emitted_text l line now) × (length (emitted_text l line now) ≤ 1)
unfolding emitted_text emitted_line entry_for
emitted_text-Numbered l line now h = elim (Bool-cases l.enabled) [
  | inl e ↦ simp e (go (read_line line))
  | inr e ↦ simp e (tt, omega arith)
]
  where
    one :
        (d : Destination) (host outbound : Text)
        → Numbered l.seq (entry_for l d host outbound now)
          × (length (entry_for l d host outbound now) ≤ 1)
    one d host outbound = elim (Bool-cases (is_empty host)) [
      | inl e ↦ rw e (tt, omega arith)
      | inr e ↦ rw e ((omega arith, tt), omega arith)
    ]

    go : (x : Line) → Numbered l.seq (emitted_line l x now) × (length (emitted_line l x now) ≤ 1)
    go (sniffed _ _) = (tt, omega arith)
    go (routed id destination outbound) =
        let d = split_destination destination in
        elim (Option-cases (lookup id l.pending)) [
          | inl e ↦ rw (e, emitted_line) (one d d.host outbound)
          | inr (name, e) ↦ rw (e, emitted_line) (one d name outbound)
        ]
    go other = (tt, omega arith)

-- What the lines route is numbered one by one from the log's cursor, and the cursor moves to the
-- last number, provided that fewer than 2 ^ 63 numbers are ever given.
pub emitted-Numbered :
    (l : ConnectionLog) (lines : List (Text × ℕ))
    → length l.entries ≤ capacity
    → l.seq + length lines < 2 ^ 63
    → Numbered l.seq (emitted l lines)
      × ((record_all l lines).seq ≡ l.seq + length (emitted l lines))
      × (length (emitted l lines) ≤ length lines)
unfolding record_all emitted
emitted-Numbered l [] h w = (tt, omega arith, omega arith)
emitted-Numbered l ((line, now) ∷ rest) h w =
    let m = record_text l line now in
    let es = emitted_text l line now in
    let x : Extends l es m = record_text-Extends l line now h (omega arith) in
    let (numbered, short) = emitted_text-Numbered l line now (omega arith) in
    let moved : m.seq ≡ l.seq + length es = omega (arith, x.1) in
    let (later, seq, n) = emitted-Numbered m rest (Extends-length l es m x) (omega arith) in
    (
      Numbered-append l.seq m.seq es (emitted m rest) numbered moved later,
      omega (arith, length-append es (emitted m rest)),
      omega (arith, length-append es (emitted m rest)),
    )
