-- ===== src/Core/Stop.antt =====
-- What skipicore.go's `StopLoop` does, and the callbacks around a session.
use skipi_core.Base.{
  ℕ, ◌≡◌, refl, inl, inr, Bool, true, false, none, some, [], ◌∷◌, ◌++◌, if◌then◌else◌, Option-cases,
  arith, ==_refl,
}
use skipi_core.Base.{ℤ, is_some}
use skipi_core.Core.{
  Controller, World, startup, emit_status, Reply, close_failed, start_loop, load_config,
  create_server, start_server, publish_tun_fd, clear_tun_fd_env, register_new, new_instance,
  close_instance, install_connection_log, clear_connection_log, emit, stop_loop, stop_instance,
}
use skipi_core.Core.Owned.{Inv, unless_of_own}

-- Under the invariant of a controller and its process, a stop of a running controller closes its
-- instance, also when Xray reports an error of that, and
-- leaves no instance, no log, no counters, no published descriptor and no active handler; the
-- error that it returns is Xray's.
pub stop_loop_running :
    (c : Controller) (w : World) (closes : Bool)
    → Inv c w
    → c.is_running ≡ true
    → let o = stop_loop c w closes in
      (o.controller.is_running ≡ false)
      × (o.controller.instance_id ≡ none)
      × (o.controller.conn_log ≡ none)
      × (o.controller.stats ≡ record { manager = none; totals = none })
      × ((i : ℕ) → c.instance_id ≡ some i → o.world.closed i ≡ true)
      × (o.world.tun_fd ≡ none)
      × (o.world.v2ray_tun_fd ≡ none)
      × (o.world.active_log ≡ none)
      × (o.error ≡ (if closes then none else some close_failed))
unfolding stop_loop stop_instance clear_tun_fd_env emit close_instance clear_connection_log
stop_loop_running c w closes v h = elim (Option-cases c.instance_id) [
  | inl e ↦ ground (arith, v.running)
  | inr (i, e) ↦
      simp (h, e)
        (
          refl,
          refl,
          refl,
          refl,
          λ j q. ground (arith, ==_refl j),
          refl,
          refl,
          unless_of_own c.conn_log w.active_log v.active,
          refl,
        )
]

-- The callbacks of a start: one startup and one status of code 0 if it reports no error and there
-- is a handler, and none at all otherwise.
pub start_loop-events :
    (c : Controller) (w : World) (fd : ℤ) (reply : Reply)
    → let o = start_loop c w fd reply in
      o.world.events ≡ (
        if c.has_callback
        then (if is_some o.error then w.events else w.events ++ startup ∷ emit_status 0 ∷ [])
        else w.events)
unfolding start_loop load_config create_server start_server register_new new_instance
    install_connection_log publish_tun_fd clear_tun_fd_env close_instance clear_connection_log emit
start_loop-events c w fd reply = ground arith
