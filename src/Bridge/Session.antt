-- ===== src/Bridge/Session.antt =====
-- What the methods of desktop/bridge/bridge.go keep of the lease.
use skipi_core.Base.{
  ℕ, ◌≡◌, refl, sym, ap, subst, ◌∙◌, inl, inr, Bool, true, false, not, ◌||◌, Option, none, some,
  List, [], ◌∷◌, ◌==◌, Bool-cases, Option-cases, arith, Text, ℤ, pos, ltz, is_empty, trim_space,
  is_some, ==_refl,
}
use skipi_core.Core
use skipi_core.Core.{
  Controller, World, Reply, Outcome, StartError, start_loop, stop_loop, new_controller,
  set_connection_log_enabled,
}
use skipi_core.Core.Sound.{
  IsSound, start_loop-IsSound, start_loop-refused, stop_loop-off, query_stats-IsSound,
  query_stats_running, set_enabled-IsSound, set_enabled_running, new_controller-IsSound,
  new_controller_idle,
}
use skipi_core.Bridge.{
  Process, Files, Answer, ok, fail, normalize_asset_directory, controller_locked, is_holder, place,
  initialize_assets, create_controller, following, destroy_controller, held_elsewhere, started,
  start, stop, is_running, query_traffic_stats, set_log_enabled, Call, initializes, creates,
  destroys, starts, stops, asks, queries, enables, step, run,
}
use skipi_core.Bridge.Lease.{IsLeased, replace-Held, place-Held, release-IsLeased}

pub locked :
    (p : Process) (r h : ℕ) (c : Controller)
    → controller_locked p r h ≡ some c
    → (p.runtimes r).controllers h ≡ some c
unfolding controller_locked
locked p r h c e = ground arith

-- A controller in place of the one under the handle, sound, and running only if that one did.
place-IsLeased :
    (p : Process) (w : World) (r h : ℕ) (b c : Controller)
    → IsLeased p
    → (p.runtimes r).controllers h ≡ some b
    → IsSound c
    → (c.is_running ≡ true → b.is_running ≡ true)
    → IsLeased (place (record p { world = w }) r h (some c))
place-IsLeased p w r h b c v e s on =
    place-Held p.runtimes p.active_runtime p.active_handle r h (p.runtimes r).next_handle (some c) v
      (λ d q. subst IsSound (inj q) s)
      (λ d q run. v.holds r h b e (on (ap (λ x. x.is_running) (inj q) ∙ run)))
  where
    inj : {d : Controller} → some c ≡ some d → c ≡ d
    inj q = cc

drop-IsLeased :
    (p : Process) (w : World) (r h : ℕ)
    → IsLeased p
    → IsLeased (place (record p { world = w }) r h none)
drop-IsLeased p w r h v =
    place-Held p.runtimes p.active_runtime p.active_handle r h (p.runtimes r).next_handle none v
      (λ d q. cc) (λ d q. cc)

-- What `place` puts under the handle.
placed :
    (p : Process) (w : World) (r h : ℕ) (o : Option Controller)
    → ((place (record p { world = w }) r h o).runtimes r).controllers h ≡ o
placed p w r h o = rw (==_refl r, ==_refl h) refl

pub stop-IsLeased :
    (p : Process) (r h : ℕ) (closes : Bool) → IsLeased p → IsLeased (stop r h closes p).0
unfolding stop
stop-IsLeased p r h closes v = elim (Option-cases (controller_locked p r h)) [
  | inl e ↦ rw (e, stop) v
  | inr (c, e) ↦
      let at = locked p r h c e in
      let (off, s) = stop_loop-off c p.world closes (v.sound r h c at) in
      let o = stop_loop c p.world closes in
      rw (e, stop)
        (release-IsLeased (place (record p { world = o.world }) r h (some o.controller)) r h
          (place-IsLeased p o.world r h c o.controller v at s (λ on. ground (arith, on, off)))
          (λ d q. ground (arith, off, placed p o.world r h (some o.controller), q)))
]

destroy_controller-IsLeased :
    (p : Process) (r h : ℕ) (closes : Bool)
    → IsLeased p
    → IsLeased (destroy_controller r h closes p).0
unfolding destroy_controller
destroy_controller-IsLeased p r h closes v = elim (Option-cases (controller_locked p r h)) [
  | inl e ↦ rw (e, destroy_controller) v
  | inr (c, e) ↦ elim (Bool-cases c.is_running) [
    | inl on ↦
        rw (e, on, destroy_controller)
          (release-IsLeased _ r h (drop-IsLeased p (stop_loop c p.world closes).world r h v)
            (λ d q. ground (arith, placed p (stop_loop c p.world closes).world r h none, q)))
    | inr on ↦
        rw (e, on, destroy_controller)
          (release-IsLeased _ r h (drop-IsLeased p p.world r h v)
            (λ d q. ground (arith, placed p p.world r h none, q)))
  ]
]

is_running-IsLeased : (p : Process) (r h : ℕ) → IsLeased p → IsLeased (is_running r h p).0
unfolding is_running
is_running-IsLeased p r h v = elim (Option-cases (controller_locked p r h)) [
  | inl e ↦ rw (e, is_running) v
  | inr (c, e) ↦ elim (Bool-cases c.is_running) [
    | inl on ↦ rw (e, on, is_running) v
    | inr on ↦
        rw (e, on, is_running)
          (release-IsLeased p r h v (λ d q. ground (arith, on, locked p r h c e, q)))
  ]
]

query-IsLeased : (p : Process) (r h : ℕ) → IsLeased p → IsLeased (query_traffic_stats r h p).0
unfolding query_traffic_stats
query-IsLeased p r h v = elim (Option-cases (controller_locked p r h)) [
  | inl e ↦ rw (e, query_traffic_stats) v
  | inr (c, e) ↦
      let at = locked p r h c e in
      rw (e, query_traffic_stats)
        (place-IsLeased p p.world r h c (Core.query_traffic_stats c).0 v at
          (query_stats-IsSound c (v.sound r h c at)) (λ on. sym (query_stats_running c) ∙ on))
]

set_log_enabled-IsLeased :
    (p : Process) (r h : ℕ) (on : Bool) → IsLeased p → IsLeased (set_log_enabled r h on p).0
unfolding set_log_enabled
set_log_enabled-IsLeased p r h on v = elim (Option-cases (controller_locked p r h)) [
  | inl e ↦ rw (e, set_log_enabled) v
  | inr (c, e) ↦
      let at = locked p r h c e in
      let s = set_connection_log_enabled c p.world on in
      rw (e, set_log_enabled)
        (place-IsLeased p s.1 r h c s.0 v at (set_enabled-IsSound c p.world on (v.sound r h c at))
          (λ x. sym (set_enabled_running c p.world on) ∙ x))
]

create_controller-IsLeased : (p : Process) (r : ℕ) → IsLeased p → IsLeased (create_controller r p).0
unfolding create_controller
create_controller-IsLeased p r v =
    let h = following (p.runtimes r).next_handle in
    place-Held p.runtimes p.active_runtime p.active_handle r h h (some (new_controller false)) v
      (λ c e.
        subst IsSound {x = new_controller false} {y = c} (ground (arith, e)) new_controller-IsSound)
      (λ c e on. ground (arith, e, on, new_controller_idle))

initialize_assets-IsLeased :
    (p : Process) (files : Files) (r : ℕ) (dir : Text)
    → IsLeased p
    → IsLeased (initialize_assets files r dir p).0
unfolding initialize_assets
initialize_assets-IsLeased p files r dir v = go (normalize_asset_directory files dir) refl
  where
    go :
        (a : Answer Text)
        → normalize_asset_directory files dir ≡ a
        → IsLeased (initialize_assets files r dir p).0
    go (fail x) e = rw (e, initialize_assets) v
    go (ok path) e = elim (Bool-cases (is_some p.active_runtime)) [
      | inl q ↦ rw (e, q, initialize_assets) v
      | inr q ↦
          rw (e, q, initialize_assets)
            (replace-Held p.runtimes p.active_runtime p.active_runtime p.active_handle
              p.active_handle r _ v (λ k c e. v.sound r k c e) (λ k c e on. v.holds r k c e on)
              (λ s x a. (refl, refl)))
    ]

-- Nobody else runs if the checks of `Start` pass.
pub free :
    (p : Process) (r h : ℕ)
    → held_elsewhere p r h ≡ false
    → (s : ℕ) → p.active_runtime ≡ some s
    → (s ≡ r) × (p.active_handle ≡ h)
unfolding held_elsewhere is_holder
free p r h f s e =
    let i : is_holder p.active_runtime r ≡ (s == r) = rw e refl in
    let j : is_some p.active_runtime ≡ true = rw e refl in
    (ground (arith, f, i, j), ground (arith, f, i, j))

started-IsLeased :
    (p : Process) (r h : ℕ) (c : Controller) (fd : ℤ) (reply : Reply)
    → IsLeased p
    → (p.runtimes r).controllers h ≡ some c
    → held_elsewhere p r h ≡ false
    → c.is_running ≡ false
    → IsLeased (started p r h (start_loop c p.world fd reply)).0
unfolding started
started-IsLeased p r h c fd reply v at f idle =
    let o = start_loop c p.world fd reply in
    let s = start_loop-IsSound c p.world fd reply (v.sound r h c at) in
    elim (Option-cases o.error) [
      | inr (x, e) ↦
          rw (e, started)
            (place-IsLeased p o.world r h c o.controller v at s
              (λ on. sym (start_loop-refused c p.world fd reply x e) ∙ on))
      | inl e ↦
          rw (e, started)
            (replace-Held p.runtimes p.active_runtime (some r) p.active_handle h r _ v
              (λ k d q. elim (Bool-cases (h == k)) [
                | inl y ↦ subst IsSound {x = o.controller} {y = d} (ground arith) s
                | inr y ↦ v.sound r k d (ground arith)
              ])
              (λ k d q on. elim (Bool-cases (h == k)) [
                | inl y ↦ (refl, ground arith, ground arith)
                | inr y ↦ alone r k d (ground arith) on y
              ])
              (λ k y q. ground (arith, (free p r h f k q).0, y, ==_refl r)))
    ]
  where
    alone :
        (s k : ℕ) (d : Controller)
        → (p.runtimes s).controllers k ≡ some d
        → d.is_running ≡ true
        → (h == k) ≡ false
        → {A : Type 0} → A
    alone s k d q on y =
        let (a, b, e) = v.holds s k d q on in
        absurd (ground (arith, (free p r h f s a).1, b, y, ==_refl h))

start-IsLeased :
    (p : Process) (r h : ℕ) (config : Text) (fd : ℤ) (reply : Reply)
    → IsLeased p
    → IsLeased (start r h config fd reply p).0
unfolding start
start-IsLeased p r h config fd reply v = elim (Bool-cases (is_empty (trim_space config))) [
  | inl a ↦ rw (a, start) v
  | inr a ↦ elim (Bool-cases (ltz fd (pos 0))) [
    | inl b ↦ rw (a, b, start) v
    | inr b ↦ elim (Bool-cases (not (is_holder p.asset_runtime r) || is_empty p.asset_directory)) [
      | inl d ↦ rw (a, b, d, start) v
      | inr d ↦ elim (Option-cases (controller_locked p r h)) [
        | inl e ↦ rw (a, b, d, e, start) v
        | inr (c, e) ↦ elim (Bool-cases (held_elsewhere p r h)) [
          | inl f ↦ rw (a, b, d, e, f, start) v
          | inr f ↦ elim (Bool-cases c.is_running) [
            | inl on ↦ rw (a, b, d, e, f, on, start) v
            | inr idle ↦
                simp (a, b, d, e, f, idle, start)
                  (started-IsLeased p r h c fd reply v (locked p r h c e) f idle)
          ]
        ]
      ]
    ]
  ]
]

step-IsLeased : (p : Process) (k : Call) → IsLeased p → IsLeased (step p k)
unfolding step
step-IsLeased p (initializes files r dir) v = initialize_assets-IsLeased p files r dir v
step-IsLeased p (creates r) v = create_controller-IsLeased p r v
step-IsLeased p (destroys r h closes) v = destroy_controller-IsLeased p r h closes v
step-IsLeased p (starts r h config fd reply) v = start-IsLeased p r h config fd reply v
step-IsLeased p (stops r h closes) v = stop-IsLeased p r h closes v
step-IsLeased p (asks r h) v = is_running-IsLeased p r h v
step-IsLeased p (queries r h) v = query-IsLeased p r h v
step-IsLeased p (enables r h on) v = set_log_enabled-IsLeased p r h on v

pub run-IsLeased : (p : Process) (ks : List Call) → IsLeased p → IsLeased (run p ks)
unfolding run
run-IsLeased p [] v = v
run-IsLeased p (k ∷ ks) v = run-IsLeased (step p k) ks (step-IsLeased p k v)
