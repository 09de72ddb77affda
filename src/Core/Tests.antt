-- ===== src/Core/Tests.antt =====
-- The theorems on skipicore.go's controller at a concrete process and concrete answers of Xray.
use skipi_core.Base.{ℕ, ◌≡◌, ◌<◌, refl, Bool, true, false, none, some, List, [], ◌∷◌, arith, pos}
use skipi_core.ConnLog.{new_connection_log}
use skipi_core.Tuning.{idle}
use skipi_core.Core.{
  Controller, World, Handler, Reply, new_controller, start_loop, Call, starts_loop, enables_log,
  queries_stats, run, step, query_traffic_stats, State, set_connection_log_enabled,
}
use skipi_core.Core.Start.{refusal, start_loop_outcome}
use skipi_core.Core.Owned.{Inv, run-Inv}

abbrev pub fresh : World
fresh = record {
  tun_fd = none;
  v2ray_tun_fd = none;
  asset = none;
  cert = none;
  v2ray_asset = none;
  xudp_base_key = none;
  next_instance = 0;
  closed = λ i. false;
  next_log = 0;
  logs = λ l. new_connection_log false;
  active_log = none;
  registered = none;
  gc = idle (pos 100);
  events = [];
}

abbrev pub good : Reply
good = record {
  loads = true;
  registers = true;
  creates = true;
  has_log = true;
  counters = some [];
  starts = true;
}

abbrev controller : Controller
controller = new_controller true

abbrev session : List Call
session = enables_log true ∷ starts_loop (pos 7) good ∷ queries_stats ∷ []

no_lt : (i : ℕ) → i < 0 → ⊥
no_lt i lt = omega arith

pub fresh-Inv : (has_callback : Bool) → Inv (new_controller has_callback) fresh
unfolding new_controller
fresh-Inv has_callback = record {
  running = refl;
  logged = refl;
  owned = λ i lt. absurd (no_lt i lt);
  tun = λ h. (refl, refl);
  active = refl;
}

abbrev after : State
after = run (controller, fresh) session

abbrev pub behind : Handler
behind = record { inner = some 0; log = 0 }

after-running : after.0.is_running ≡ true
unfolding run step query_traffic_stats start_loop set_connection_log_enabled new_controller
after-running = refl

after-active : after.1.active_log ≡ some behind
unfolding run step start_loop set_connection_log_enabled new_controller
after-active = refl

after-Inv : Inv after.0 after.1
after-Inv = run-Inv (controller, fresh) session (fresh-Inv true)

run-Inv_example : Inv after.0 after.1
run-Inv_example = run-Inv (controller, fresh) session (fresh-Inv true)

start_loop_outcome_example :
    (start_loop controller fresh (pos 7) good).error ≡ refusal controller good
start_loop_outcome_example = (start_loop_outcome controller fresh (pos 7) good).0
