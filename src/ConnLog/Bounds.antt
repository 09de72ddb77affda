-- ===== src/ConnLog/Bounds.antt =====
-- The memory that the connection log of connection_log.go may hold.
use skipi_core.Base.{
  ℕ, ◌-◌, ◌≤◌, Bool, inl, inr, List, [], ◌∷◌, ◌++◌, Option-cases, arith, Text, length, length-drop,
  lookup, length-insert-le, length-erase-le,
}
use skipi_core.ConnLog.{
  ConnectionLog, Entry, Destination, capacity, pending_limit, new_connection_log, push_entry,
  add_named, add, sniff, Line, sniffed, routed, other, record_line, read_line, record_text,
  record_all, split_destination,
}

pub record IsBounded (l : ConnectionLog) : Type 0 where
  pub entries_le : length l.entries ≤ capacity
  pub pending_le : length l.pending ≤ pending_limit

length-push_entry-le : (es : List Entry) (e : Entry) → length (push_entry es e) ≤ capacity
unfolding push_entry
length-push_entry-le es e =
    ground (arith, length-drop (length (es ++ e ∷ []) - capacity) (es ++ e ∷ []))

add_named-IsBounded :
    (l : ConnectionLog) (d : Destination) (host outbound : Text) (now : ℕ)
    → IsBounded l
    → IsBounded (add_named l d host outbound now)
unfolding add_named
add_named-IsBounded l d host outbound now b = grind (arith, length-push_entry-le)

record_line-IsBounded :
    (l : ConnectionLog) (line : Line) (now : ℕ) → IsBounded l → IsBounded (record_line l line now)
unfolding record_line sniff add
record_line-IsBounded l (sniffed id domain) now b =
    ground
      (arith, length-insert-le id domain l.pending, length-insert-le {0} {V = Text} id domain [])
record_line-IsBounded l (routed id destination outbound) now b =
    elim (Option-cases (lookup id l.pending)) [
      | inl e ↦ rw (e, add) (add_named-IsBounded l (split_destination destination) _ outbound now b)
      | inr (name, e) ↦
          rw (e, add)
            (add_named-IsBounded _ (split_destination destination) name outbound now (record {
              entries_le = b.entries_le;
              pending_le = omega (arith, b.pending_le, length-erase-le id l.pending);
            }))
    ]
record_line-IsBounded l other now b = b

record_text-IsBounded :
    (l : ConnectionLog) (line : Text) (now : ℕ) → IsBounded l → IsBounded (record_text l line now)
unfolding record_text
record_text-IsBounded l line now b = ground (arith, record_line-IsBounded l (read_line line) now b)

record_all-IsBounded :
    (l : ConnectionLog) (lines : List (Text × ℕ)) → IsBounded l → IsBounded (record_all l lines)
unfolding record_all
record_all-IsBounded l [] b = b
record_all-IsBounded l ((line, now) ∷ rest) b =
    record_all-IsBounded (record_text l line now) rest (record_text-IsBounded l line now b)

-- Whatever lines a session logs, a log that started empty holds at most 1000 entries and at most
-- 4096 names that wait for their routing line.
pub session-IsBounded :
    (enabled : Bool) (lines : List (Text × ℕ))
    → IsBounded (record_all (new_connection_log enabled) lines)
unfolding new_connection_log
session-IsBounded enabled lines =
    record_all-IsBounded _ lines (record { entries_le = omega arith; pending_le = omega arith })
