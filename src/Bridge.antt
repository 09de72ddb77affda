-- ===== src/Bridge.antt =====
-- desktop/bridge/bridge.go: the runtimes of a desktop host, their controllers and the lease on the
-- one running session of the process. Runtimes are known by number. Each method is one step: the
-- ones that change the lease run under the locks; the others look their controller up under the
-- lock and use it at once.
pub mod Lease
pub mod Handles
pub mod Session
pub mod Exclusive
pub mod Restart
pub mod Tests
use skipi_core.Base.{
  ℕ, ◌+◌, ◌%◌, ◌^◌, Bool, true, false, not, ◌||◌, ◌&&◌, Option, none, some, List, [], ◌∷◌, ◌==◌,
  if◌then◌else◌, Text, ℤ, pos, ltz, is_neg, is_empty, trim_space, update, is_some,
}
use skipi_core.ConnLog
use skipi_core.Traffic
use skipi_core.Core
use skipi_core.Core.{
  Controller, World, Reply, new_controller, init_core_env, StartError, StopError, Outcome,
  start_loop, stop_loop, set_connection_log_enabled, read_connection_log,
}

-- `Runtime`; a handle that is not in the map has no controller.
pub record Runtime : Type 0 where
  pub controllers : ℕ → Option Controller
  pub next_handle : ℕ
  pub active : ℕ
  pub asset_dir : Text

-- `coreProcessState`, with the runtimes and what the controllers share.
pub record Process : Type 0 where
  pub world : World
  pub runtimes : ℕ → Runtime
  pub asset_runtime : Option ℕ
  pub asset_directory : Text
  pub active_runtime : Option ℕ
  pub active_handle : ℕ

-- `NewRuntime`
unfoldable pub new_runtime : Runtime
new_runtime = record { controllers = λ h. none; next_handle = 0; active = 0; asset_dir = [] }

pub data Error : Type 0 where
  blank_directory directory_unresolved directory_unreadable not_a_directory assets_in_use : Error
  blank_config negative_descriptor assets_not_initialized controller_not_found : Error
  another_controller_active already_running : Error
  core_not_started : StartError → Error
  core_not_stopped : StopError → Error

-- What a method returns.
pub data Answer (A : Type 0) : Type 0 where
  ok : A → Answer A
  fail : Error → Answer A

-- What the operating system says of paths: `filepath.Abs`, `os.Stat` with whether the path is a
-- directory, and `filepath.Clean`.
pub record Files : Type 0 where
  pub abs : Text → Option Text
  pub stat : Text → Option Bool
  pub clean : Text → Text

-- `normalizeAssetDirectory`
unfoldable pub normalize_asset_directory : Files → Text → Answer Text
normalize_asset_directory files dir =
    if is_empty (trim_space dir) then fail blank_directory else elim (files.abs (trim_space dir)) [
      | none ↦ fail directory_unresolved
      | some path ↦ elim (files.stat path) [
        | none ↦ fail directory_unreadable
        | some is_dir ↦ if is_dir then ok (files.clean path) else fail not_a_directory
      ]
    ]

pub is_holder : Option ℕ → ℕ → Bool
is_holder none r = false
is_holder (some s) r = s == r

-- The runtime `r` and its controllers within a process.
abbrev pub place : Process → ℕ → ℕ → Option Controller → Process
place p r h c =
    let u = p.runtimes r in
    record p {
      runtimes = update p.runtimes r (record u { controllers = update u.controllers h c });
    }

-- `controllerLocked`
unfoldable pub controller_locked : Process → ℕ → ℕ → Option Controller
controller_locked p r h = if h == 0 then none else (p.runtimes r).controllers h

-- `clearProcessActiveLocked`
unfoldable pub clear_process_active : Process → ℕ → ℕ → Process
unfolding is_holder
clear_process_active p r h =
    let mine = is_holder p.active_runtime r && (p.active_handle == h) in
    record p {
      active_runtime = if mine then none else p.active_runtime;
      active_handle = if mine then 0 else p.active_handle;
    }

-- `r.active` is reset if it is the handle.
clear_active : Process → ℕ → ℕ → Process
clear_active p r h =
    let u = p.runtimes r in
    record p {
      runtimes = update p.runtimes r (record u { active = if u.active == h then 0 else u.active });
    }

-- Both resets, as every method that ends a session does them.
unfoldable pub release : Process → ℕ → ℕ → Process
unfolding clear_active
release p r h = clear_process_active (clear_active p r h) r h

-- `InitializeAssets`
unfoldable pub initialize_assets : Files → ℕ → Text → Process → Process × Option Error
initialize_assets files r dir p = elim (normalize_asset_directory files dir) [
  | fail e ↦ (p, some e)
  | ok path ↦ if is_some p.active_runtime then (p, some assets_in_use) else (
    record p {
      world = init_core_env path [] p.world;
      runtimes = update p.runtimes r (record (p.runtimes r) { asset_dir = path });
      asset_runtime = some r;
      asset_directory = path;
    },
    none,
  )
]

-- The handle after this one: it wraps around, and 0 is left out.
unfoldable pub following : ℕ → ℕ
following n = let m = (n + 1) % 2 ^ 64 in if m == 0 then (m + 1) % 2 ^ 64 else m

-- `CreateController`
unfoldable pub create_controller : ℕ → Process → Process × ℕ
unfolding following
create_controller r p =
    let u = p.runtimes r in
    let h = following u.next_handle in
    (
      record p {
        runtimes = update p.runtimes r (record u {
          next_handle = h;
          controllers = update u.controllers h (some (new_controller false));
        });
      },
      h,
    )

stop_error : Option StopError → Option Error
stop_error none = none
stop_error (some e) = some (core_not_stopped e)

-- `DestroyController`: the handle goes, whatever Xray says of the stop.
unfoldable pub destroy_controller : ℕ → ℕ → Bool → Process → Process × Option Error
unfolding stop_error
destroy_controller r h closes p = elim (controller_locked p r h) [
  | none ↦ (p, some controller_not_found)
  | some c ↦
      if c.is_running
      then (let o = stop_loop c p.world closes in
          (release (place (record p { world = o.world }) r h none) r h, stop_error o.error))
      else (release (place p r h none) r h, none)
]

-- Whether another controller has the lease, by the process and by the runtime.
pub held_elsewhere : Process → ℕ → ℕ → Bool
held_elsewhere p r h =
    is_some p.active_runtime && (not (is_holder p.active_runtime r) || not (p.active_handle == h))
    || not ((p.runtimes r).active == 0) && not ((p.runtimes r).active == h)

-- The end of `Start`, with what `StartLoop` came to.
started : Process → ℕ → ℕ → Outcome StartError → Process × Option Error
started p r h o = elim o.error [
  | some e ↦
      (place (record p { world = o.world }) r h (some o.controller), some (core_not_started e))
  | none ↦
      let u = p.runtimes r in
      (
        record p {
          world = o.world;
          runtimes =
              update p.runtimes r
                (record u { controllers = update u.controllers h (some o.controller); active = h });
          active_runtime = some r;
          active_handle = h;
        },
        none,
      )
]

-- `Start`
unfoldable pub start : ℕ → ℕ → Text → ℤ → Reply → Process → Process × Option Error
unfolding held_elsewhere started is_holder
start r h config fd reply p =
    if is_empty (trim_space config)
    then (p, some blank_config)
    else if ltz fd (pos 0)
    then (p, some negative_descriptor)
    else if not (is_holder p.asset_runtime r) || is_empty p.asset_directory
    then (p, some assets_not_initialized)
    else elim (controller_locked p r h) [
      | none ↦ (p, some controller_not_found)
      | some c ↦
          if held_elsewhere p r h
          then (p, some another_controller_active)
          else if c.is_running
          then (p, some already_running)
          else started p r h (start_loop c p.world fd reply)
    ]

-- `Stop`: the lease is released also when Xray reports an error.
unfoldable pub stop : ℕ → ℕ → Bool → Process → Process × Option Error
unfolding stop_error
stop r h closes p = elim (controller_locked p r h) [
  | none ↦ (p, some controller_not_found)
  | some c ↦
      let o = stop_loop c p.world closes in
      (
        release (place (record p { world = o.world }) r h (some o.controller)) r h,
        stop_error o.error,
      )
]

-- `IsRunning`: a lease of a controller that does not run is released.
unfoldable pub is_running : ℕ → ℕ → Process → Process × Answer Bool
is_running r h p = elim (controller_locked p r h) [
  | none ↦ (p, fail controller_not_found)
  | some c ↦ if c.is_running then (p, ok true) else (release p r h, ok false)
]

-- `QueryTrafficStats`
unfoldable pub query_traffic_stats : ℕ → ℕ → Process → Process × Answer Traffic.Snapshot
query_traffic_stats r h p = elim (controller_locked p r h) [
  | none ↦ (p, fail controller_not_found)
  | some c ↦ let (d, out) = Core.query_traffic_stats c in (place p r h (some d), ok out)
]

-- `SetConnectionLogEnabled`
unfoldable pub set_log_enabled : ℕ → ℕ → Bool → Process → Process × Option Error
set_log_enabled r h enabled p = elim (controller_locked p r h) [
  | none ↦ (p, some controller_not_found)
  | some c ↦
      let (d, w) = set_connection_log_enabled c p.world enabled in
      (place (record p { world = w }) r h (some d), none)
]

-- `ReadConnectionLog`
unfoldable pub read_log : ℕ → ℕ → ℕ → Process → Answer ConnLog.Snapshot
read_log r h after p = elim (controller_locked p r h) [
  | none ↦ fail controller_not_found
  | some c ↦ ok (read_connection_log c p.world after)
]

-- `ActiveHandle`
unfoldable pub active_handle_of : ℕ → Process → ℕ
active_handle_of r p = (p.runtimes r).active

-- A call of a method of a runtime, with what Xray and the operating system answer.
pub data Call : Type 0 where
  initializes : Files → ℕ → Text → Call
  creates : ℕ → Call
  destroys : ℕ → ℕ → Bool → Call
  starts : ℕ → ℕ → Text → ℤ → Reply → Call
  stops : ℕ → ℕ → Bool → Call
  asks : ℕ → ℕ → Call
  queries : ℕ → ℕ → Call
  enables : ℕ → ℕ → Bool → Call

unfoldable pub step : Process → Call → Process
step p (initializes files r dir) = (initialize_assets files r dir p).0
step p (creates r) = (create_controller r p).0
step p (destroys r h closes) = (destroy_controller r h closes p).0
step p (starts r h config fd reply) = (start r h config fd reply p).0
step p (stops r h closes) = (stop r h closes p).0
step p (asks r h) = (is_running r h p).0
step p (queries r h) = (query_traffic_stats r h p).0
step p (enables r h enabled) = (set_log_enabled r h enabled p).0

unfoldable pub run : Process → List Call → Process
run p [] = p
run p (k ∷ ks) = run (step p k) ks
