-- ===== src/Runner/Serving.antt =====
-- The loop of amneziawg.go's SOCKS listener, lines 1041-1056, and `Stop`, which ends it.
use skipi_core.Base.{ℕ, Bool, List, [], ◌∷◌, ltb, if◌then◌else◌}
use skipi_core.Runner.{Accept, connection, failed, Runner, Machine}

-- A round of the loop on the listener `l` in the state `h`: whether its context is done, and what
-- `Accept` returns, which on a closed listener is an error.
unfoldable pub round : ℕ → Machine → Accept → Bool × Accept
round l h a = (ltb 0 (h.cancels l), if ltb 0 (h.listener_closes l) then failed else a)

unfoldable pub rounds : ℕ → Machine → List Accept → List (Bool × Accept)
unfolding round
rounds l h [] = []
rounds l h (a ∷ as_) = round l h a ∷ rounds l h as_

-- The connections among what is accepted.
unfoldable pub connections : List Accept → List ℕ
connections [] = []
connections (connection c ∷ rest) = c ∷ connections rest
connections (failed ∷ rest) = connections rest

unfoldable pub joining : List ℕ → List Accept
joining [] = []
joining (c ∷ cs) = connection c ∷ joining cs
