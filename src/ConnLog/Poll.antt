-- ===== src/ConnLog/Poll.antt =====
-- What a client that polls `snapshot` of connection_log.go sees, and how a sniffed name reaches
-- the entry of its connection.
use skipi_core.Base.{
  ℕ, suc, ◌+◌, ◌-◌, ◌≤◌, ◌<◌, ◌^◌, ◌≡◌, refl, sym, ap, ◌∙◌, subst, Bool, true, false, none, some,
  List, [], ◌∷◌, ◌++◌, if◌then◌else◌, arith, Text, length, drop, All, All-drop, drop-append, last_n,
  gt64, add64, lookup, insert, erase, lookup-insert, lookup-erase, str_eq_refl, length-append,
  is_empty, leb,
}
use skipi_core.ConnLog.{
  ConnectionLog, Entry, sniffed, routed, capacity, pending_limit, new_connection_log, new_entry,
  push_entry, add_named, add, sniff, newer, snapshot, record_line, record_all, split_destination,
}
use skipi_core.ConnLog.Bounds.{IsBounded, session-IsBounded}
use skipi_core.ConnLog.Tail.{emitted, Numbered, emitted-Numbered, record_all-last_n}

abbrev Is : Bool → ℕ → Entry → Type 0
Is b after e = gt64 e.seq after ≡ b

newer-append :
    (after : ℕ) (xs ys : List Entry) → newer after (xs ++ ys) ≡ newer after xs ++ newer after ys
unfolding newer
newer-append after [] ys = refl
newer-append after (x ∷ xs) ys = ground (arith, newer-append after xs ys)

newer-All : (after : ℕ) (es : List Entry) → All (Is true after) es → newer after es ≡ es
unfolding newer
newer-All after [] h = refl
newer-All after (e ∷ es) h = rw (h.0, newer-All after es h.1)

newer-none : (after : ℕ) (es : List Entry) → All (Is false after) es → newer after es ≡ []
unfolding newer
newer-none after [] h = refl
newer-none after (e ∷ es) h = rw (h.0, newer-none after es h.1)

Numbered-above :
    (n after : ℕ) (es : List Entry)
    → Numbered n es
    → after ≤ n
    → n + length es < 2 ^ 63
    → All (Is true after) es
Numbered-above n after [] h le w = tt
Numbered-above n after (e ∷ es) h le w =
    (ground (arith, h.0), Numbered-above (suc n) after es h.1 (omega arith) (omega arith))

Numbered-below :
    (n after : ℕ) (es : List Entry)
    → Numbered n es
    → n + length es ≤ after
    → after < 2 ^ 63
    → All (Is false after) es
Numbered-below n after [] h le w = tt
Numbered-below n after (e ∷ es) h le w =
    (ground (arith, h.0), Numbered-below (suc n) after es h.1 (omega arith) w)

-- A client that polls with the cursor of its last snapshot gets the connections that were routed
-- since then, each once, in order and with no gap, or the last 1000 of them if there were more,
-- and the cursor moves on by their number. It holds of every session with fewer than 2 ^ 63
-- lines.
pub snapshot-since :
    (enabled : Bool) (before after : List (Text × ℕ))
    → length before + length after < 2 ^ 63
    → let l = record_all (new_connection_log enabled) before in
      snapshot (record_all l after) l.seq ≡ record {
        seq = l.seq + length (emitted l after);
        entries = last_n capacity (emitted l after);
      }
unfolding snapshot new_connection_log
snapshot-since enabled before after h = snap
  where
    start : ConnectionLog
    start = new_connection_log enabled

    l : ConnectionLog
    l = record_all start before

    old : List Entry
    old = emitted start before

    new : List Entry
    new = emitted l after

    first : Numbered 0 old × (l.seq ≡ 0 + length old) × (length old ≤ length before)
    first = emitted-Numbered start before (omega arith) (omega arith)

    bounded : IsBounded l
    bounded = session-IsBounded enabled before

    second :
        Numbered l.seq new
        × ((record_all l after).seq ≡ l.seq + length new)
        × (length new ≤ length after)
    second = emitted-Numbered l after bounded.entries_le (omega (arith, first.1, first.2))

    kept : l.entries ≡ last_n capacity old
    kept = record_all-last_n start before (omega arith) (omega arith)

    k : ℕ
    k = length (l.entries ++ new) - capacity

    stale : newer l.seq (drop k l.entries) ≡ []
    stale = newer-none l.seq _ (
        All-drop (Is false l.seq) k l.entries (
          subst (All (Is false l.seq)) (sym kept) (
            All-drop (Is false l.seq) (length old - capacity) old (
              Numbered-below 0 l.seq old first.0 (omega (arith, first.1))
                (omega (arith, first.1, first.2))))))

    fresh : newer l.seq (drop (k - length l.entries) new) ≡ drop (k - length l.entries) new
    fresh = newer-All l.seq _ (
        All-drop (Is true l.seq) (k - length l.entries) new (
          Numbered-above l.seq l.seq new second.0 (omega arith)
            (omega (arith, first.1, first.2, second.2))))

    count : k - length l.entries ≡ length new - capacity
    count = omega (arith, length-append l.entries new, bounded.entries_le)

    seen : newer l.seq (record_all l after).entries ≡ last_n capacity new
    seen =
        ap (newer l.seq)
          (record_all-last_n l after bounded.entries_le (omega (arith, first.1, first.2)))
        ∙ ap (newer l.seq) (drop-append k l.entries new)
        ∙ newer-append l.seq (drop k l.entries) _
        ∙ rw (stale, fresh) (ap (λ i. drop i new) count)

    snap :
        snapshot (record_all l after) l.seq
        ≡ record { seq = l.seq + length new; entries = last_n capacity new }
    snap = λ i. record { seq = second.1 i; entries = seen i }

-- A name, not empty, that was sniffed for a connection is the host of its entry in place of the routed
-- address, the address gives the port and the network, and the name is then forgotten: a later
-- routing line with the same number uses its own address.
pub sniffed-routed :
    (l : ConnectionLog) (id domain destination outbound : Text) (t now : ℕ)
    → is_empty domain ≡ false
    → let m =
        record_line (record_line l (sniffed id domain) t) (routed id destination outbound) now in
      (m.entries
        ≡ push_entry l.entries
            (new_entry (add64 l.seq 1) (split_destination destination) domain outbound now))
      × (m.seq ≡ add64 l.seq 1)
      × (lookup id m.pending ≡ none)
unfolding record_line sniff add add_named
sniffed-routed l id domain destination outbound t now h =
    let kept = if leb pending_limit (length l.pending) then [] else l.pending in
    let hit : lookup id (insert id domain kept) ≡ some domain =
      lookup-insert id id domain kept ∙ rw (str_eq_refl id) in
    let gone : lookup id (erase id (insert id domain kept)) ≡ none =
      lookup-erase id id (insert id domain kept) ∙ rw (str_eq_refl id) in
    rw (hit, record_line, add, sniff) (rw (h, add_named) (refl, refl, gone))
