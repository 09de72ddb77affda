-- ===== src/ConnLog/Tests.antt =====
-- Runs of connection_log.go's log on concrete lines, and the theorems at concrete inputs.
use skipi_core.Base.{
  ℕ, ◌≡◌, refl, true, List, [], ◌∷◌, arith, Text, codes, pos, lookup, insert, erase,
}
use skipi_core.ConnLog.{
  ConnectionLog, Entry, new_connection_log, snapshot, record_all, record_text, split_destination,
}
use skipi_core.ConnLog.Tail.{emitted}
use skipi_core.ConnLog.Poll.{snapshot-since}

abbrev first_lines : List (Text × ℕ)
first_lines =
    (codes "[Info] [7] app/dispatcher: sniffed domain: example.org", 100)
    ∷ (codes "[Info] [7] app/dispatcher: taking detour [proxy] for [tcp:203.0.113.9:443]", 101)
    ∷ []

abbrev later_lines : List (Text × ℕ)
later_lines =
    (codes "[Info] [8] app/dispatcher: default route for udp:1.1.1.1:53", 102)
    ∷ (codes "[Info] nothing to see", 103)
    ∷ []

abbrev polled : ConnectionLog
polled = record_all (new_connection_log true) first_lines

abbrev dns_entry : Entry
dns_entry = record {
  seq = 2;
  time = 102;
  host = codes "1.1.1.1";
  port = pos 53;
  network = codes "udp";
  outbound = codes "default";
}

destination_v6 :
    split_destination (codes "tcp:[2001:db8::1]:443")
    ≡ record { network = codes "tcp"; host = codes "2001:db8::1"; port = pos 443 }
unfolding split_destination
destination_v6 = refl

snapshot-since_example :
    snapshot (record_all polled later_lines) 1 ≡ record { seq = 2; entries = dns_entry ∷ [] }
unfolding record_all record_text new_connection_log emitted lookup insert erase
snapshot-since_example = snapshot-since true first_lines later_lines (omega arith)
