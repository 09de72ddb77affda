-- ===== src/ConnLog.antt =====
-- connection_log.go: the connection log of a session, the handler in front of Xray's own log and
-- the destination reader. The clock's answer is an argument; the JSON text of a snapshot is the
-- record that is encoded.
pub mod Lines
pub mod Bounds
pub mod Tail
pub mod Poll
pub mod Tests
use skipi_core.Base.{
  ℕ, ◌+◌, ◌-◌, Bool, true, false, not, ◌&&◌, ◌||◌, Option, none, some, List, [], ◌∷◌, ◌++◌, ◌==◌,
  ltb, leb, if◌then◌else◌, Text, codes, is_empty, length, drop, take, ℤ, pos, atoi, index_byte,
  last_index, trim, lookup, insert, erase, add64, gt64,
}
use skipi_core.ConnLog.Lines.{match_sniffed, match_routed, match_default}

-- `connectionLogCapacity`
abbrev pub capacity : ℕ
capacity = 1000

-- `connectionLogPendingLimit`
abbrev pub pending_limit : ℕ
pending_limit = 4096

-- `ConnectionLogEntry`
pub record Entry : Type 0 where
  pub seq : ℕ
  pub time : ℕ
  pub host : Text
  pub port : ℤ
  pub network : Text
  pub outbound : Text

pub record ConnectionLog : Type 0 where
  pub enabled : Bool
  pub seq : ℕ
  pub entries : List Entry
  pub pending : List (Text × Text)

pub record Snapshot : Type 0 where
  pub seq : ℕ
  pub entries : List Entry

-- `newConnectionLog`
unfoldable pub new_connection_log : Bool → ConnectionLog
new_connection_log enabled = record { enabled = enabled; seq = 0; entries = []; pending = [] }

pub record Destination : Type 0 where
  pub network : Text
  pub host : Text
  pub port : ℤ

-- The network in front of the first colon, if the colon is not the first byte.
cut_network : Text → Text × Text
unfolding index_byte
cut_network d = elim (index_byte b':' d) [
  | none ↦ (codes "tcp", d)
  | some i ↦ (if ltb 0 i then (take i d, drop (i + 1) d) else (codes "tcp", d))
]

-- The port behind the last colon, if it is a number.
cut_port : Text → Text × ℤ
unfolding last_index atoi
cut_port d = elim (last_index b':' d) [
  | none ↦ (d, pos 0)
  | some i ↦ elim (atoi (drop (i + 1) d)) [ none ↦ (d, pos 0) | some p ↦ (take i d, p) ]
]

is_bracket : ℕ → Bool
is_bracket c = c == b'[' || c == b']'

-- `splitDestination`
unfoldable pub split_destination : Text → Destination
unfolding cut_network cut_port is_bracket trim
split_destination d =
    let (network, rest) = cut_network d in
    let (host, port) = cut_port rest in
    record { network = network; host = trim is_bracket host; port = port }

-- `append`, then only the last `capacity` entries are kept.
unfoldable pub push_entry : List Entry → Entry → List Entry
push_entry entries e =
    let all = entries ++ e ∷ [] in
    if ltb capacity (length all) then drop (length all - capacity) all else all

abbrev pub new_entry : ℕ → Destination → Text → Text → ℕ → Entry
new_entry seq d host outbound now = record {
  seq = seq;
  time = now;
  host = host;
  port = d.port;
  network = d.network;
  outbound = outbound;
}

-- The body of `add` behind the lookup in `pending`: `host` is the name to log.
add_named : ConnectionLog → Destination → Text → Text → ℕ → ConnectionLog
unfolding push_entry
add_named l d host outbound now = if is_empty host then l else record l {
  seq = add64 l.seq 1;
  entries = push_entry l.entries (new_entry (add64 l.seq 1) d host outbound now);
}

unfoldable pub add : ConnectionLog → Text → Text → Text → ℕ → ConnectionLog
unfolding add_named split_destination
add l id destination outbound now =
    let d = split_destination destination in
    elim (lookup id l.pending) [
      | some name ↦ add_named (record l { pending = erase id l.pending }) d name outbound now
      | none ↦ add_named l d d.host outbound now
    ]

-- The branch of `record` for a sniffed name.
unfoldable pub sniff : ConnectionLog → Text → Text → ConnectionLog
sniff l id domain =
    let kept = if leb pending_limit (length l.pending) then [] else l.pending in
    record l { pending = insert id domain kept }

-- What a line says to the log.
pub data Line : Type 0 where
  sniffed : Text → Text → Line
  routed : Text → Text → Text → Line
  other : Line

-- The patterns in the order in which they are tried. `routed` holds the number, the destination
-- and the outbound.
unfoldable pub read_line : Text → Line
unfolding match_sniffed match_routed match_default
read_line line = elim (match_sniffed line) [
  | some (id, domain) ↦ sniffed id domain
  | none ↦ elim (match_routed line) [
    | some (id, outbound, destination) ↦ routed id destination outbound
    | none ↦ elim (match_default line) [
      | some (id, destination) ↦ routed id destination (codes "default")
      | none ↦ other
    ]
  ]
]

unfoldable pub record_line : ConnectionLog → Line → ℕ → ConnectionLog
unfolding sniff add
record_line l (sniffed id domain) now = sniff l id domain
record_line l (routed id destination outbound) now = add l id destination outbound now
record_line l other now = l

-- `record`: one line of the log, at the time `now`.
unfoldable pub record_text : ConnectionLog → Text → ℕ → ConnectionLog
unfolding record_line read_line
record_text l line now = if l.enabled then record_line l (read_line line) now else l

-- The loop of `snapshot`.
unfoldable pub newer : ℕ → List Entry → List Entry
newer after [] = []
newer after (e ∷ es) = let rest = newer after es in if gt64 e.seq after then e ∷ rest else rest

-- `snapshot`
unfoldable pub snapshot : ConnectionLog → ℕ → Snapshot
unfolding newer
snapshot l after = record { seq = l.seq; entries = newer after l.entries }

-- The session's lines, in order, each with the time at which it is read.
unfoldable pub record_all : ConnectionLog → List (Text × ℕ) → ConnectionLog
record_all l [] = l
record_all l ((line, now) ∷ rest) = record_all (record_text l line now) rest
