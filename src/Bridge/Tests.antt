-- ===== src/Bridge/Tests.antt =====
-- The theorems on desktop/bridge/bridge.go at a concrete process with two runtimes' calls.
use skipi_core.Base.{
  ◌≡◌, refl, true, false, none, some, List, [], ◌∷◌, codes, pos, trim_space, is_empty,
}
use skipi_core.Core.{Controller, new_controller, start_loop, stop_loop, init_core_env}
use skipi_core.Core.Tests.{fresh, good}
use skipi_core.Bridge.{
  Process, new_runtime, Files, normalize_asset_directory, controller_locked, create_controller,
  following, start, stop, is_running, active_handle_of, Call, initializes, creates, starts, asks,
  step, run, initialize_assets, release, clear_process_active, is_holder,
}
use skipi_core.Bridge.Lease.{IsLeased}
use skipi_core.Bridge.Session.{run-IsLeased}
use skipi_core.Bridge.Restart.{stop-start}
use skipi_core.Bridge.Exclusive.{run-single, start-busy, stop-releases}

abbrev files : Files
files = record { abs = λ p. some p; stat = λ p. some true; clean = λ p. p }

abbrev pub process : Process
process = record {
  world = fresh;
  runtimes = λ r. new_runtime;
  asset_runtime = none;
  asset_directory = [];
  active_runtime = none;
  active_handle = 0;
}

abbrev calls : List Call
calls =
    initializes files 0 (codes "/srv")
    ∷ creates 0
    ∷ creates 0
    ∷ starts 0 2 (codes "{}") (pos 0) good
    ∷ asks 0 1
    ∷ []

abbrev after : Process
after = run process calls

pub process-IsLeased : IsLeased process
unfolding new_runtime
process-IsLeased = record { sound = λ r h c e. cc; holds = λ r h c e on. cc }

abbrev runner : Controller
runner = (start_loop (new_controller false) fresh (pos 0) good).controller

after_at : (after.runtimes 0).controllers 2 ≡ some runner
unfolding run step init_core_env initialize_assets normalize_asset_directory trim_space
    create_controller following start controller_locked is_running release clear_process_active
    start_loop new_controller new_runtime
after_at = refl

runner_on : runner.is_running ≡ true
unfolding start_loop new_controller
runner_on = refl

run-single_example : active_handle_of 0 after ≡ 2
run-single_example =
    let (a, b, c) =
      run-single process calls 0 2 0 2 runner runner process-IsLeased after_at after_at runner_on
        runner_on in
    c

start-busy_example : (start 1 1 (codes "{}") (pos 0) good after).0 ≡ after
start-busy_example =
    (start-busy after 0 2 runner 1 1 (codes "{}") (pos 0) good
      (run-IsLeased process calls process-IsLeased) after_at runner_on).0

after_locked : controller_locked after 0 2 ≡ some runner
unfolding controller_locked
after_locked = after_at

stop-releases_example : (stop 0 2 false after).0.active_runtime ≡ none
stop-releases_example =
    (stop-releases after 0 2 runner false (run-IsLeased process calls process-IsLeased) after_locked
      runner_on).0

abbrev idler : Controller
idler = new_controller false

idler_locked : controller_locked (stop 0 2 false after).0 0 1 ≡ some idler
unfolding controller_locked run step init_core_env initialize_assets normalize_asset_directory
    trim_space create_controller following start stop is_running release clear_process_active
    start_loop stop_loop new_controller new_runtime
idler_locked = refl

after_assets : (is_holder after.asset_runtime 0 ≡ true) × (is_empty after.asset_directory ≡ false)
unfolding run step init_core_env initialize_assets normalize_asset_directory trim_space
    create_controller following start controller_locked is_running release clear_process_active
    start_loop new_controller new_runtime
after_assets = (refl, refl)

config_given : is_empty (trim_space (codes "{}")) ≡ false
unfolding trim_space
config_given = refl

stop-start_example :
    active_handle_of 0 (start 0 1 (codes "{}") (pos 0) good (stop 0 2 false after).0).0 ≡ 1
stop-start_example =
    (stop-start after 0 2 1 runner idler false (codes "{}") (pos 0) good
      (run-IsLeased process calls process-IsLeased) after_locked runner_on idler_locked config_given
      refl after_assets.0 after_assets.1 refl refl refl).1
