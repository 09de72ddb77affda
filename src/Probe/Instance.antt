-- ===== src/Probe/Instance.antt =====
-- What skipicore.go's isolated test instances leave behind in the process.
use skipi_core.Base.{
  ℕ, ◌+◌, ◌<◌, ◌≡◌, refl, ap, inl, inr, Bool, true, false, not, Option, none, some, List, [], ◌∷◌,
  if◌then◌else◌, arith, Text, str_eq, str_eq_iff, Bool-cases, update,
}
use skipi_core.Core.{
  World, Handler, LogOwner, skipi, xray, Reply, register_new, new_instance, close_instance,
  restore_connection_log, restored,
}
use skipi_core.Probe.{
  Config, strip, essential_apps, is_essential, Attempt, start_test_instance, start_created,
  measure_outbound_delay,
}

pub count : Text → List Text → ℕ
count t [] = 0
count t (u ∷ us) = (if str_eq u t then 1 else 0) + count t us

count-essential_apps :
    (t : Text) (ts : List Text)
    → count t (essential_apps ts) ≡ (if is_essential t then count t ts else 0)
unfolding count essential_apps
count-essential_apps t [] = ground arith
count-essential_apps t (u ∷ us) = elim (Bool-cases (str_eq u t)) [
  | inl e ↦ ground (arith, count-essential_apps t us, ap is_essential ((str_eq_iff u t).0 e))
  | inr e ↦ ground (arith, count-essential_apps t us)
]

-- A test configuration has no inbound, and of the applications exactly the dispatcher, the
-- outbound manager and the log, each as often as before.
pub strip_lem :
    (c : Config) (t : Text)
    → ((strip c).inbounds ≡ [])
      × (count t (strip c).apps ≡ (if is_essential t then count t c.apps else 0))
unfolding strip
strip_lem c t = (refl, count-essential_apps t c.apps)

-- Whose Xray's log is after the probe: nothing changes if the configuration cannot be read; an
-- instance that is not made can have registered its own log before it failed, which stays; one that
-- is made gives the log back to the session that runs, and keeps it if there is none.
pub owner_left : World → Reply → Option LogOwner
owner_left w reply =
    let taken = if reply.registers then some (xray w.next_instance) else w.registered in
    if not reply.loads
    then w.registered
    else if not reply.creates
    then taken
    else elim w.active_log [ none ↦ taken | some h ↦ some (skipi h) ]

-- What the probe leaves: the session's log, the descriptor and the logs are untouched, what is not
-- closed was made and not closed before, and Xray's log has the owner above.
pub record Leaves (reply : Reply) (w v : World) : Type 0 where
  pub active : v.active_log ≡ w.active_log
  pub tun : v.tun_fd ≡ w.tun_fd
  pub v2ray_tun : v.v2ray_tun_fd ≡ w.v2ray_tun_fd
  pub logs : v.logs ≡ w.logs
  pub events : v.events ≡ w.events
  pub closed :
      (i : ℕ)
      → i < v.next_instance
      → v.closed i ≡ false
      → (i < w.next_instance) × (w.closed i ≡ false)
  pub owner : v.registered ≡ owner_left w reply

-- The delay probe of an outbound, on any of its ways out: no instance that it made stays open, and
-- the log of the session, its enabled flags, the TUN descriptor and the callbacks are as before.
-- Xray's log is the session's again if an instance was made while a session ran; it is as before if
-- the configuration could not be read; and if the instance could not be made, it is the one that
-- this instance registered before it failed, if it did, also while a session runs.
pub measure_outbound_delay-Leaves :
    (w : World) (reply : Reply) (first second : Bool × Attempt)
    → Leaves reply w (measure_outbound_delay w reply first second).0
unfolding measure_outbound_delay start_test_instance start_created register_new new_instance
    close_instance restore_connection_log restored owner_left
measure_outbound_delay-Leaves w reply first second =
    go reply.loads reply.registers reply.creates reply.has_log reply.counters reply.starts
      w.active_log refl
  where
    shut :
        (i : ℕ)
        → i < w.next_instance + 1
        → update (update w.closed w.next_instance false) w.next_instance true i ≡ false
        → (i < w.next_instance) × (w.closed i ≡ false)
    shut i lt q = (ground arith, ground arith)

    go :
        (l r c hl : Bool) (cs : Option (List (Text × ℕ))) (s : Bool) (active : Option Handler)
        → w.active_log ≡ active
        → let q : Reply = record {
          loads = l;
          registers = r;
          creates = c;
          has_log = hl;
          counters = cs;
          starts = s;
        } in
          Leaves q w (measure_outbound_delay w q first second).0
    go false r c hl cs s active e = record {
      active = refl;
      tun = refl;
      v2ray_tun = refl;
      logs = refl;
      events = refl;
      closed = λ i lt q. (lt, q);
      owner = refl;
    }
    go true r false hl cs s active e = record {
      active = refl;
      tun = refl;
      v2ray_tun = refl;
      logs = refl;
      events = refl;
      closed = λ i lt q. (lt, q);
      owner = refl;
    }
    go true r true hl cs true none e = record {
      active = refl;
      tun = refl;
      v2ray_tun = refl;
      logs = refl;
      events = refl;
      closed = shut;
      owner = rw (e, restored, owner_left) refl;
    }
    go true r true hl cs true (some h) e = record {
      active = refl;
      tun = refl;
      v2ray_tun = refl;
      logs = refl;
      events = refl;
      closed = shut;
      owner = rw (e, restored, owner_left) refl;
    }
    go true r true hl cs false none e = record {
      active = refl;
      tun = refl;
      v2ray_tun = refl;
      logs = refl;
      events = refl;
      closed = shut;
      owner = rw (e, restored, owner_left) refl;
    }
    go true r true hl cs false (some h) e = record {
      active = refl;
      tun = refl;
      v2ray_tun = refl;
      logs = refl;
      events = refl;
      closed = shut;
      owner = rw (e, restored, owner_left) refl;
    }
