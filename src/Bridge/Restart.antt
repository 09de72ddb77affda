-- ===== src/Bridge/Restart.antt =====
-- That a session of desktop/bridge/bridge.go can be started again after one was stopped.
use skipi_core.Base.{
  ℕ, ◌≡◌, refl, ◌∙◌, ap, Bool, true, false, none, some, arith, Text, ℤ, pos, ltz, is_empty,
  trim_space, ==_refl, ◌==◌,
}
use skipi_core.Core.{Controller, Reply, Outcome, StartError, start_loop}
use skipi_core.Core.Start.{start_loop_outcome, refusal}
use skipi_core.Bridge.{
  Process, controller_locked, is_holder, held_elsewhere, start, started, stop, release,
  clear_process_active, active_handle_of, is_running, ok,
}
use skipi_core.Bridge.Session.{locked}
use skipi_core.Bridge.Lease.{IsLeased}
use skipi_core.Bridge.Exclusive.{stop-releases}

-- No lease stands in the way of a start when the process and the runtime have none.
start-started :
    (q : Process) (r k : ℕ) (d : Controller) (config : Text) (fd : ℤ) (reply : Reply)
    → q.active_runtime ≡ none
    → (q.runtimes r).active ≡ 0
    → controller_locked q r k ≡ some d
    → d.is_running ≡ false
    → is_empty (trim_space config) ≡ false
    → ltz fd (pos 0) ≡ false
    → is_holder q.asset_runtime r ≡ true
    → is_empty q.asset_directory ≡ false
    → start r k config fd reply q ≡ started q r k (start_loop d q.world fd reply)
unfolding start held_elsewhere
start-started q r k d config fd reply a b e off f g i j = simp (f, g, i, j, e, a, b, off) refl

locked_nonzero :
    (p : Process) (r k : ℕ) (d : Controller) → controller_locked p r k ≡ some d → (k == 0) ≡ false
unfolding controller_locked
locked_nonzero p r k d e = ground arith

started-is_running :
    (q : Process) (r k : ℕ) (o : Outcome StartError)
    → (k == 0) ≡ false
    → o.error ≡ none
    → o.controller.is_running ≡ true
    → let u = started q r k o in
      (u.1 ≡ none) × (active_handle_of r u.0 ≡ k) × ((is_running r k u.0).1 ≡ ok true)
unfolding started active_handle_of is_running controller_locked
started-is_running q r k o z f on =
    rw (f, started)
      (simp (==_refl, z, on, is_running, controller_locked)
        (refl, rw (active_handle_of, ==_refl r) refl, refl))

stop_assets :
    (p : Process) (r h : ℕ) (c : Controller) (closes : Bool)
    → controller_locked p r h ≡ some c
    → let q = (stop r h closes p).0 in
      (q.asset_runtime ≡ p.asset_runtime) × (q.asset_directory ≡ p.asset_directory)
unfolding stop release clear_process_active
stop_assets p r h c closes e = rw (e, stop) (refl, refl)

accepted :
    (c : Controller) (reply : Reply)
    → c.is_running ≡ false
    → reply.loads ≡ true
    → reply.creates ≡ true
    → reply.starts ≡ true
    → refusal c reply ≡ none
unfolding refusal
accepted c reply off l m s = simp (off, l, m, s) refl

-- After a `Stop` of the controller that runs and holds the lease, also one that reports an error, a `Start` of any
-- controller of the same runtime, with a config that is not blank, a descriptor that is not negative, assets that
-- were initialized by this runtime and an Xray that loads, creates and starts, reports no error; that controller
-- runs then, and its handle is the active one.
pub stop-start :
    (p : Process) (r h k : ℕ) (c d : Controller) (closes : Bool) (config : Text) (fd : ℤ)
    (reply : Reply)
    → IsLeased p
    → controller_locked p r h ≡ some c
    → c.is_running ≡ true
    → controller_locked (stop r h closes p).0 r k ≡ some d
    → is_empty (trim_space config) ≡ false
    → ltz fd (pos 0) ≡ false
    → is_holder p.asset_runtime r ≡ true
    → is_empty p.asset_directory ≡ false
    → reply.loads ≡ true
    → reply.creates ≡ true
    → reply.starts ≡ true
    → let u = start r k config fd reply (stop r h closes p).0 in
      (u.1 ≡ none) × (active_handle_of r u.0 ≡ k) × ((is_running r k u.0).1 ≡ ok true)
unfolding active_handle_of
stop-start p r h k c d closes config fd reply v at on to f g i j l m s =
    let q = (stop r h closes p).0 in
    let (a, b, idle) = stop-releases p r h c closes v at on in
    let (x, y) = stop_assets p r h c closes at in
    let off = idle r k d (locked q r k d to) in
    let (e, works, fails) = start_loop_outcome d q.world fd reply in
    let fine = e ∙ accepted d reply off l m s in
    rw
      (start-started q r k d config fd reply a b to off f g (ap (λ z. is_holder z r) x ∙ i)
        (ap is_empty y ∙ j))
      (started-is_running q r k (start_loop d q.world fd reply) (locked_nonzero q r k d to) fine
        (works fine).0)
