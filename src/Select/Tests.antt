-- ===== src/Select/Tests.antt =====
-- The theorems on skipicore.go's `FastSelectBestOutbound` at concrete candidates and results.
use skipi_core.Base.{Text, ◌≡◌, refl, none, some, List, [], ◌∷◌, codes, split, trim_space}
use skipi_core.Select.{ProbeResult, start_race, receive, collect, parse_candidates}
use skipi_core.Select.Verdict.{winner, quickest, decided, settled, collect-start-winner}

abbrev arrivals : List ProbeResult
arrivals =
    record { tag = codes "de"; latency = none }
    ∷ record { tag = codes "nl"; latency = some 420 }
    ∷ record { tag = codes "fi"; latency = some 380 }
    ∷ []

collect_test : collect 3 (codes "de") start_race arrivals ≡ codes "nl"
unfolding collect receive
collect_test = refl

collect-start-winner_example :
    collect 3 (codes "de") start_race arrivals
    ≡ winner (codes "de") (quickest (settled 3 [] arrivals))
collect-start-winner_example =
    collect-start-winner 3 (codes "de") arrivals (refl, (refl, (refl, tt)))

-- Two results decide, of which one is an answer; a third one that is faster comes too late.
settled_test :
    (settled 3 [] arrivals
      ≡ record { tag = codes "de"; latency = none }
        ∷ record { tag = codes "nl"; latency = some 420 }
        ∷ [])
    × (quickest arrivals ≡ some (codes "fi", 380))
unfolding settled quickest decided
settled_test = (refl, refl)

abbrev tags : Text
tags = codes "de, nl,fi"

tags_read : parse_candidates tags ≡ codes "de" ∷ codes "nl" ∷ codes "fi" ∷ []
unfolding parse_candidates split trim_space
tags_read = refl
