-- ===== src/Select.antt =====
-- skipicore.go, lines 1012-1149: `FastSelectBestOutbound`. The probes run side by side; what
-- arrives on their channel before the deadline, and in which order, is an argument, and the end of
-- that list is the deadline.
pub mod Candidates
pub mod Fastest
pub mod Verdict
pub mod Chosen
pub mod Tests
use skipi_core.Base.{
  ℕ, ◌+◌, ◌/◌, Bool, true, false, not, ◌||◌, ◌&&◌, Option, none, some, List, [], ◌∷◌, ◌++◌,
  if◌then◌else◌, ltb, leb, Text, codes, split, trim_space, is_empty, length,
}
use skipi_core.Core.{World, Reply, close_instance}
use skipi_core.Probe.{start_test_instance, Result, ok, err}

trimmed : List Text → List Text
trimmed [] = []
trimmed (t ∷ ts) =
    let rest = trimmed ts in let tag = trim_space t in if is_empty tag then rest else tag ∷ rest

-- The candidates of the comma-separated list.
unfoldable pub parse_candidates : Text → List Text
unfolding trimmed
parse_candidates text = trimmed (split (codes ",") text)

-- `probeResult`: a latency, or the error of a probe that failed.
pub record ProbeResult : Type 0 where
  pub tag : Text
  pub latency : Option ℕ

-- The variables `fastestTag` and `lowestLatency`, and `received`.
pub record Race : Type 0 where
  pub fastest : Text
  pub lowest : ℕ
  pub received : ℕ

abbrev pub start_race : Race
start_race = record { fastest = []; lowest = 999999; received = 0 }

better : Race → Text → ℕ → Race
better r tag latency =
    if is_empty r.fastest || ltb latency r.lowest
    then record r { fastest = tag; lowest = latency }
    else r

-- `res.err == nil` is a latency that is there.
note_latency : Race → Text → Option ℕ → Race
unfolding better
note_latency r tag none = r
note_latency r tag (some latency) = better r tag latency

-- One result received, before the tests for an early return.
unfoldable pub receive : Race → ProbeResult → Race
unfolding note_latency
receive r p = note_latency (record r { received = r.received + 1 }) p.tag p.latency

-- The return inside the first branch: the first responsive node answers in less than 350 ms.
pub is_fast_first : Race → ProbeResult → Bool
is_fast_first r p = elim p.latency [
  | none ↦ false
  | some latency ↦ is_empty r.fastest && ltb latency 350
]

pub enough : ℕ → Race → Bool
enough n r = not (is_empty r.fastest) && (leb ((n + 1) / 2) r.received || leb 3 r.received)

or_first : Text → Race → Text
or_first first r = if is_empty r.fastest then first else r.fastest

-- The loop over the channel for `n` candidates, the first of which is `first`.
unfoldable pub collect : ℕ → Text → Race → List ProbeResult → Text
unfolding is_fast_first enough or_first
collect n first r [] = or_first first r
collect n first r (p ∷ ps) =
    let q = receive r p in
    let later = collect n first q ps in
    if leb n r.received
    then or_first first r
    else if is_fast_first r p || enough n q
    then q.fastest
    else later

race : Text → List Text → World → Reply → List ProbeResult → World × Text
unfolding start_test_instance collect
race first rest w reply arrivals =
    let (v, started) = start_test_instance w reply in
    elim started [
      | err _ ↦ (v, first)
      | ok i ↦ (close_instance i v, collect (length (first ∷ rest)) first start_race arrivals)
    ]

choose : List Text → World → Reply → List ProbeResult → World × Text
unfolding race
choose [] w reply arrivals = (w, [])
choose (tag ∷ []) w reply arrivals = (w, tag)
choose (first ∷ second ∷ rest) w reply arrivals = race first (second ∷ rest) w reply arrivals

-- `FastSelectBestOutbound`, behind the defaults of the URL and the timeout, which only the probes
-- use. The instance starts as in `start_test_instance`: the inbounds are dropped, the handler is
-- restored, and an error anywhere gives the first candidate.
unfoldable pub fast_select : Text → Text → World → Reply → List ProbeResult → World × Text
unfolding choose
fast_select config tags w reply arrivals =
    if is_empty config || is_empty tags
    then (w, [])
    else choose (parse_candidates tags) w reply arrivals
