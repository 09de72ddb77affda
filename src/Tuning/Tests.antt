-- ===== src/Tuning/Tests.antt =====
-- Runs of runtime_tuning.go, and the theorems at concrete inputs.
use skipi_core.Base.{◌≡◌, refl, List, [], ◌∷◌, codes, pos, negsuc, atoi}
use skipi_core.Tuning.{resolve_max_procs, Call, pauses, resumes, run, idle, step, pause, resume}
use skipi_core.Tuning.Pause.{open_count, run-percent}

eight_cores : resolve_max_procs (pos 8) (codes "") ≡ 4
unfolding resolve_max_procs atoi
eight_cores = refl

abbrev overlapping : List Call
overlapping = pauses ∷ pauses ∷ resumes 1 ∷ resumes 1 ∷ []

run-percent_example : (run (idle (pos 50)) overlapping).percent ≡ negsuc 0
unfolding run step pause resume open_count
run-percent_example = run-percent (pos 50) overlapping
