-- ===== src/Core/Sound.antt =====
-- Whether a controller of skipicore.go runs agrees with whether it has an instance.
use skipi_core.Base.{
  ◌≡◌, refl, inl, inr, Bool, false, some, Bool-cases, Option-cases, arith, ℤ, is_some,
}
use skipi_core.Core.{
  Controller, World, Reply, StartError, start_loop, stop_loop, stop_instance, query_traffic_stats,
  set_connection_log_enabled, new_controller,
}
use skipi_core.Core.Start.{start_loop_outcome}

abbrev pub IsSound : Controller → Type 0
IsSound c = c.is_running ≡ is_some c.instance_id

pub start_loop-IsSound :
    (c : Controller) (w : World) (fd : ℤ) (reply : Reply)
    → IsSound c
    → IsSound (start_loop c w fd reply).controller
start_loop-IsSound c w fd reply s =
    let (a, b, d) = start_loop_outcome c w fd reply in
    elim (Option-cases (start_loop c w fd reply).error) [
      | inl e ↦ let s = b e in rw (s.0, s.1) refl
      | inr (x, e) ↦ let t = d (λ q. ground (arith, e, q)) in rw (t.0, t.1) s
    ]

pub start_loop-refused :
    (c : Controller) (w : World) (fd : ℤ) (reply : Reply) (x : StartError)
    → (start_loop c w fd reply).error ≡ some x
    → (start_loop c w fd reply).controller.is_running ≡ c.is_running
start_loop-refused c w fd reply x e =
    let (a, b, d) = start_loop_outcome c w fd reply in (d (λ q. ground (arith, e, q))).0

-- A stop leaves a sound controller that does not run.
pub stop_loop-off :
    (c : Controller) (w : World) (closes : Bool)
    → IsSound c
    → ((stop_loop c w closes).controller.is_running ≡ false)
      × IsSound (stop_loop c w closes).controller
unfolding stop_loop stop_instance
stop_loop-off c w closes s = elim (Bool-cases c.is_running) [
  | inr h ↦ simp h (refl, ground arith)
  | inl h ↦ elim (Option-cases c.instance_id) [
    | inl e ↦ ground (arith, s)
    | inr (i, e) ↦ simp (h, e) (refl, refl)
  ]
]

pub query_stats_running : (c : Controller) → (query_traffic_stats c).0.is_running ≡ c.is_running
unfolding query_traffic_stats
query_stats_running c = refl

pub query_stats-IsSound : (c : Controller) → IsSound c → IsSound (query_traffic_stats c).0
unfolding query_traffic_stats
query_stats-IsSound c s = s

pub set_enabled_running :
    (c : Controller) (w : World) (on : Bool)
    → (set_connection_log_enabled c w on).0.is_running ≡ c.is_running
unfolding set_connection_log_enabled
set_enabled_running c w on = refl

pub set_enabled-IsSound :
    (c : Controller) (w : World) (on : Bool)
    → IsSound c
    → IsSound (set_connection_log_enabled c w on).0
unfolding set_connection_log_enabled
set_enabled-IsSound c w on s = s

pub new_controller_idle : (new_controller false).is_running ≡ false
unfolding new_controller
new_controller_idle = refl

pub new_controller-IsSound : IsSound (new_controller false)
unfolding new_controller
new_controller-IsSound = refl
