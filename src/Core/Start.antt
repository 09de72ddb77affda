-- ===== src/Core/Start.antt =====
-- What skipicore.go's `StartLoop` does on each of its ways out.
use skipi_core.Base.{
  ◌≡◌, ◌≢◌, refl, inl, inr, Bool, true, not, ◌&&◌, Option, none, some, [], if◌then◌else◌,
  Bool-cases, arith, ℤ, ==_refl,
}
use skipi_core.ConnLog.{new_connection_log}
use skipi_core.Tuning.Pause.{resume-pause}
use skipi_core.Core.{
  Controller, World, Handler, skipi, Reply, StartError, already_running, load_failed, create_failed,
  start_failed, start_loop, load_config, create_server, start_server, publish_tun_fd, published,
  clear_tun_fd_env, register_new, new_instance, close_instance, install_connection_log,
  clear_connection_log, emit,
}

-- Whether the start gets as far as a running server, from Xray's answers alone.
accepts : Reply → Bool
accepts r = r.loads && r.creates && r.starts

-- The error that is reported: the first thing that goes wrong.
unfoldable pub refusal : Controller → Reply → Option StartError
refusal c r =
    if c.is_running
    then some already_running
    else if not r.loads
    then some load_failed
    else if not r.creates
    then some create_failed
    else if not r.starts
    then some start_failed
    else none

-- A start reports the first thing that goes wrong. Without an error the controller runs the new
-- instance with a fresh connection log, empty totals and the instance's counters, the descriptor is
-- published in both variables (or both are unset), and our handler is registered. With an error
-- it runs exactly if it ran before and keeps its instance and its log, and a server that was made
-- and did not start has been closed.
pub start_loop_outcome :
    (c : Controller) (w : World) (fd : ℤ) (reply : Reply)
    → let o = start_loop c w fd reply in
      let h : Handler = record {
        inner = if reply.has_log then some w.next_instance else none;
        log = w.next_log;
      } in
      (o.error ≡ refusal c reply)
      × (o.error ≡ none
          → (o.controller.is_running ≡ true)
            × (o.controller.instance_id ≡ some w.next_instance)
            × (o.controller.conn_log ≡ some w.next_log)
            × (o.controller.stats ≡ record { manager = reply.counters; totals = some [] })
            × (o.world.logs w.next_log ≡ new_connection_log c.conn_log_enabled)
            × (o.world.tun_fd ≡ published fd)
            × (o.world.v2ray_tun_fd ≡ published fd)
            × (o.world.active_log ≡ some h)
            × (o.world.registered ≡ some (skipi h)))
      × (o.error ≢ none
          → (o.controller.is_running ≡ c.is_running)
            × (o.controller.instance_id ≡ c.instance_id)
            × (o.controller.conn_log ≡ c.conn_log)
            × (o.error ≡ some start_failed → o.world.closed w.next_instance ≡ true))
unfolding refusal start_loop load_config create_server start_server register_new new_instance
    install_connection_log publish_tun_fd clear_tun_fd_env close_instance clear_connection_log emit
start_loop_outcome c w fd reply = elim (Bool-cases c.is_running) [
  | inl h ↦ simp h (refl, λ e. cc, λ e. (refl, refl, refl, λ f. cc))
  | inr h ↦ elim (Bool-cases reply.loads) [
    | inr l ↦ simp (h, l) (refl, λ e. cc, λ e. (refl, refl, refl, λ f. cc))
    | inl l ↦ elim (Bool-cases reply.creates) [
      | inr m ↦ simp (h, l, m) (refl, λ e. cc, λ e. (refl, refl, refl, λ f. cc))
      | inl m ↦ elim (Bool-cases reply.starts) [
        | inr s ↦ simp (h, l, m, s) (refl, λ e. cc, λ e. (refl, refl, refl, λ f. simp ==_refl refl))
        | inl s ↦
            simp (h, l, m, s)
              (
                refl,
                λ e. (refl, refl, refl, refl, simp ==_refl refl, refl, refl, refl, refl),
                λ e. absurd (e refl),
              )
      ]
    ]
  ]
]

load_config-gc :
    (c : Controller) (w : World) (fd : ℤ) (reply : Reply)
    → (load_config c w fd reply).world.gc ≡ w.gc
unfolding load_config create_server start_server register_new new_instance install_connection_log
    publish_tun_fd clear_tun_fd_env close_instance clear_connection_log emit
load_config-gc c w fd reply = ground arith

-- On every way out of a start the collector's percentage and the number of its holders are what
-- they were before.
pub start_loop-gc :
    (c : Controller) (w : World) (fd : ℤ) (reply : Reply)
    → let g = (start_loop c w fd reply).world.gc in
      (g.percent ≡ w.gc.percent) × (g.holders ≡ w.gc.holders)
unfolding start_loop
start_loop-gc c w fd reply = elim (Bool-cases c.is_running) [
  | inl h ↦ simp h (refl, refl)
  | inr h ↦ simp (h, load_config-gc) (resume-pause w.gc)
]
