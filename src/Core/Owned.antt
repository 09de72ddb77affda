-- ===== src/Core/Owned.antt =====
-- What holds of a skipicore.go controller and its process after any calls of its methods.
use skipi_core.Base.{
  ℕ, ◌<◌, ◌≡◌, refl, sym, ap, ◌∙◌, inl, inr, Bool, true, false, Option, none, some, List, [], ◌∷◌,
  Bool-cases, Option-cases, arith, ℤ, is_some, ==_iff, ==_refl,
}
use skipi_core.Tuning.{Gc}
use skipi_core.Core.{
  Controller, World, Handler, Reply, Outcome, start_loop, load_config, create_server, start_server,
  publish_tun_fd, clear_tun_fd_env, register_new, new_instance, close_instance,
  install_connection_log, clear_connection_log, unless_of, same_log, emit, stop_loop, stop_instance,
  set_connection_log_enabled, query_traffic_stats, State, Call, starts_loop, stops_loop,
  enables_log, queries_stats, step, run,
}

abbrev pub log_of : Option Handler → Option ℕ
log_of none = none
log_of (some h) = some h.log

-- A controller runs exactly if it has an instance and exactly if it has a connection log. Of the
-- instances made, only its own may not be closed. While it does not run no TUN descriptor is
-- published. The active handler belongs to its log.
pub record Inv (c : Controller) (w : World) : Type 0 where
  pub running : c.is_running ≡ is_some c.instance_id
  pub logged : c.is_running ≡ is_some c.conn_log
  pub owned : (i : ℕ) → i < w.next_instance → w.closed i ≡ false → c.instance_id ≡ some i
  pub tun : c.is_running ≡ false → (w.tun_fd ≡ none) × (w.v2ray_tun_fd ≡ none)
  pub active : log_of w.active_log ≡ c.conn_log

-- Nothing of the controller is left over from an earlier session.
record Idle (c : Controller) (w : World) : Type 0 where
  halted : c.is_running ≡ false
  no_instance : c.instance_id ≡ none
  no_log : c.conn_log ≡ none
  all_closed : (i : ℕ) → i < w.next_instance → w.closed i ≡ true
  inactive : w.active_log ≡ none

log_of-none : (a : Option Handler) → log_of a ≡ none → a ≡ none
log_of-none none e = refl
log_of-none (some h) e = cc

Idle-of_Inv : (c : Controller) (w : World) → Inv c w → c.is_running ≡ false → Idle c w
Idle-of_Inv c w inv h =
    let no_log : c.conn_log ≡ none = ground (arith, inv.logged, h) in
    record {
      halted = h;
      no_instance = ground (arith, inv.running, h);
      no_log = no_log;
      all_closed = λ i lt. ground (arith, inv.owned i lt, inv.running, h);
      inactive = log_of-none w.active_log (inv.active ∙ no_log);
    }

Inv-of_Idle :
    (c : Controller) (w : World) → Idle c w → w.tun_fd ≡ none → w.v2ray_tun_fd ≡ none → Inv c w
Inv-of_Idle c w v t u = record {
  running = ground (arith, v.halted, v.no_instance);
  logged = ground (arith, v.halted, v.no_log);
  owned = λ i lt e. ground (arith, v.all_closed i lt);
  tun = λ x. (t, u);
  active = ap log_of v.inactive ∙ sym v.no_log;
}

-- What holds behind a call.
abbrev Keeps : {E : Type 0} → Outcome E → Type 0
Keeps o = Inv o.controller o.world

create_server-Inv :
    (c : Controller) (w : World) (reply : Reply) → Idle c w → Keeps (create_server c w reply)
unfolding create_server start_server register_new new_instance install_connection_log
    clear_tun_fd_env emit close_instance clear_connection_log unless_of same_log
create_server-Inv c w reply v = elim (Bool-cases reply.creates) [
  | inr e ↦ rw e (
      Inv-of_Idle c _
        (record {
          halted = v.halted;
          no_instance = v.no_instance;
          no_log = v.no_log;
          all_closed = v.all_closed;
          inactive = v.inactive;
        })
        refl refl)
  | inl e ↦ elim (Bool-cases reply.starts) [
    | inl f ↦
        rw (e, f)
          (record {
            running = refl;
            logged = refl;
            owned = λ i lt o. ground (arith, ==_iff w.next_instance i, v.all_closed i);
            tun = λ x. cc;
            active = refl;
          })
    | inr f ↦
        rw (e, f)
          (Inv-of_Idle _ _
            (record {
              halted = v.halted;
              no_instance = v.no_instance;
              no_log = v.no_log;
              all_closed = λ i lt. ground (arith, ==_iff w.next_instance i, v.all_closed i);
              inactive = rw (==_refl w.next_log) refl;
            })
            refl refl)
  ]
]

-- The collector's state does not matter.
Inv-gc : (c : Controller) (w : World) (g : Gc) → Inv c w → Inv c (record w { gc = g })
Inv-gc c w g v = record {
  running = v.running;
  logged = v.logged;
  owned = v.owned;
  tun = v.tun;
  active = v.active;
}

start_loop-Inv :
    (c : Controller) (w : World) (fd : ℤ) (reply : Reply)
    → Inv c w
    → Keeps (start_loop c w fd reply)
unfolding start_loop load_config publish_tun_fd
start_loop-Inv c w fd reply inv = elim (Bool-cases c.is_running) [
  | inl e ↦ simp e inv
  | inr h ↦
      let v = Idle-of_Inv c w inv h in
      elim (Bool-cases reply.loads) [
        | inl e ↦
            simp (h, e)
              (Inv-gc _ _ _ (
                create_server-Inv _ _ reply (record {
                  halted = refl;
                  no_instance = v.no_instance;
                  no_log = v.no_log;
                  all_closed = v.all_closed;
                  inactive = v.inactive;
                })))
        | inr e ↦
            simp (h, e)
              (Inv-of_Idle _ _
                (record {
                  halted = refl;
                  no_instance = v.no_instance;
                  no_log = v.no_log;
                  all_closed = v.all_closed;
                  inactive = v.inactive;
                })
                (inv.tun h).0 (inv.tun h).1)
      ]
]

pub unless_of_own : (l : Option ℕ) (a : Option Handler) → log_of a ≡ l → unless_of l a ≡ none
unfolding unless_of same_log
unless_of_own none none e = refl
unless_of_own none (some h) e = cc
unless_of_own (some l) none e = refl
unless_of_own (some l) (some h) e = ground arith

stop_loop-Inv :
    (c : Controller) (w : World) (closes : Bool) → Inv c w → Keeps (stop_loop c w closes)
unfolding stop_loop stop_instance clear_tun_fd_env emit close_instance clear_connection_log
stop_loop-Inv c w closes inv = elim (Bool-cases c.is_running) [
  | inr h ↦ simp h inv
  | inl h ↦ elim (Option-cases c.instance_id) [
    | inl e ↦ ground (arith, inv.running)
    | inr (i, e) ↦
        simp (h, e)
          (Inv-of_Idle _ _
            (record {
              halted = refl;
              no_instance = refl;
              no_log = refl;
              all_closed = λ j lt. elim (Bool-cases (w.closed j)) [
                | inl q ↦ ground arith
                | inr q ↦ ground (arith, inv.owned j lt q, ==_refl j)
              ];
              inactive = unless_of_own c.conn_log w.active_log inv.active;
            })
            refl refl)
  ]
]

set_enabled-Inv :
    (c : Controller) (w : World) (enabled : Bool)
    → Inv c w
    → let s = set_connection_log_enabled c w enabled in Inv s.0 s.1
unfolding set_connection_log_enabled
set_enabled-Inv c w enabled v = record {
  running = v.running;
  logged = v.logged;
  owned = v.owned;
  tun = v.tun;
  active = v.active;
}

query_stats-Inv : (c : Controller) (w : World) → Inv c w → Inv (query_traffic_stats c).0 w
unfolding query_traffic_stats
query_stats-Inv c w v = record {
  running = v.running;
  logged = v.logged;
  owned = v.owned;
  tun = v.tun;
  active = v.active;
}

step-Inv : (s : State) (k : Call) → Inv s.0 s.1 → Inv (step s k).0 (step s k).1
unfolding step
step-Inv (c, w) (starts_loop fd reply) v = start_loop-Inv c w fd reply v
step-Inv (c, w) (stops_loop closes) v = stop_loop-Inv c w closes v
step-Inv (c, w) (enables_log enabled) v = set_enabled-Inv c w enabled v
step-Inv (c, w) queries_stats v = query_stats-Inv c w v

-- Any calls of a controller's methods keep the invariant, whatever Xray answers: only the instance of a running
-- controller is not closed, and no TUN descriptor stays published once nothing runs.
pub run-Inv : (s : State) (ks : List Call) → Inv s.0 s.1 → Inv (run s ks).0 (run s ks).1
unfolding run
run-Inv s [] v = v
run-Inv s (k ∷ ks) v = run-Inv (step s k) ks (step-Inv s k v)
