-- ===== src/Runner/Refinement.antt =====
-- amneziawg.go's runner of the process, as its callers see it: a tunnel on a port, or none.
use skipi_core.Base.{
  ℕ, not, ◌≡◌, refl, sym, ap, subst, ◌∙◌, inl, inr, Bool, true, false, Option, none, some, List, [],
  ◌∷◌, if◌then◌else◌, Bool-cases, ℤ, pos, is_some,
}
use skipi_core.Socks.Associate.{NetAddr}
use skipi_core.Runner.{
  TunnelConfig, Protector, Runner, Machine, Answers, Failure, made, refused, new_runner,
  start_runner, stop_runner, stop_previous, launched, launch, start_amnezia_wg, stop_amnezia_wg,
  is_active, is_amnezia_wg_running, set_socket_protector, Call, starts, stops, protects, step, run,
  positive_or, local_addresses, close_tunnel, close_listener, cancel_context, close_held,
  with_active, not_initialized, not_started,
}
use skipi_core.Runner.Making.{
  configures, fresh_runner, with_device, IsUndone, IsOutcome, new_runner-IsOutcome,
}
use skipi_core.Runner.Starting.{port_opened, start_done, start_failed, start_runner-cases}
use skipi_core.Runner.Clean.{IsClean, stop_previous_idle, step-IsClean}

-- The port on which a start comes to serve, if it does: it needs settings, a device for them, and
-- a listener, and what ran before has no part in it.
unfoldable pub port_served : Answers → Option Protector → Option TunnelConfig → ℤ → Option ℤ
port_served a p none port = none
port_served a p (some c) port =
    if configures a c then port_opened a p (positive_or port (pos 10809)) else none

-- The abstract state: the port of the tunnel, and the protector of sockets.
pub record View : Type 0 where
  pub port : Option ℤ
  pub guard : Option Protector

-- A start replaces the tunnel, also if it fails; a stop removes it.
unfoldable pub view_step : View → Call → View
view_step v (starts a c port) = record v { port = port_served a v.guard c port }
view_step v stops = record v { port = none }
view_step v (protects p) = record v { guard = p }

unfoldable pub replay : View → List Call → View
unfolding view_step
replay v [] = v
replay v (k ∷ ks) = replay (view_step v k) ks

served : Option Runner → Option ℤ
served none = none
served (some r) = if r.running then some r.socks_port else none

-- What is seen of a host.
unfoldable pub view : Machine → View
unfolding served
view h = record { port = served h.active; guard = h.socket_protector }

-- Stopping a runner leaves the protector as it is.
close_tunnel-guard :
    (d t : Option ℕ) (h : Machine) → (close_tunnel d t h).socket_protector ≡ h.socket_protector
unfolding close_tunnel
close_tunnel-guard (some d) t h = refl
close_tunnel-guard none (some t) h = refl
close_tunnel-guard none none h = refl

close_listener-guard :
    (l : Option ℕ) (h : Machine) → (close_listener l h).socket_protector ≡ h.socket_protector
unfolding close_listener
close_listener-guard none h = refl
close_listener-guard (some l) h = refl

cancel_context-guard :
    (l : Option ℕ) (h : Machine) → (cancel_context l h).socket_protector ≡ h.socket_protector
unfolding cancel_context
cancel_context-guard none h = refl
cancel_context-guard (some l) h = refl

stop_runner-guard :
    (r : Runner) (h : Machine) → (stop_runner r h).0.socket_protector ≡ h.socket_protector
unfolding stop_runner
stop_runner-guard r h = elim (Bool-cases r.running) [
  | inl on ↦
      simp (on, stop_runner)
        (close_tunnel-guard r.dev r.tun _
          ∙ (close_listener-guard r.listener _ ∙ cancel_context-guard r.cancel h))
  | inr off ↦ simp (off, stop_runner) refl
]

kept :
    (b : Bool) (g h : Machine)
    → g.socket_protector ≡ h.socket_protector
    → (if b then with_active none g else h).socket_protector ≡ h.socket_protector
kept true g h e = e
kept false g h e = refl

stop_previous-guard :
    (h : Machine) (o : Option Runner) → (stop_previous o h).socket_protector ≡ h.socket_protector
unfolding stop_previous
stop_previous-guard h none = refl
stop_previous-guard h (some r) = kept r.running (stop_runner r h).0 h (stop_runner-guard r h)

-- A view, and whether an error is reported.
abbrev Answered : Option Protector → Option ℤ → Machine × Option Failure → Type 0
Answered guard port (h, e) =
    (view h ≡ record { port = port; guard = guard }) × (is_some e ≡ not (is_some port))

undone-Answered :
    (h g : Machine) (e : Failure)
    → h.active ≡ none
    → IsUndone h g
    → Answered h.socket_protector none (g, some e)
unfolding view served
undone-Answered h g e n (inl q) = rw q (rw n refl, refl)
undone-Answered h g e n (inr q) = rw q (rw n refl, refl)

starting-Answered :
    (a : Answers) (locals : List NetAddr) (port : ℤ) (h : Machine)
    → h.active ≡ none
    → Answered h.socket_protector
        (port_opened a h.socket_protector port)
        (launched (start_runner a (fresh_runner locals port h) (with_device h)))
unfolding launched view served close_held
starting-Answered a locals port h n =
    let r = fresh_runner locals port h in
    elim (start_runner-cases a r (with_device h) refl) [
      | inl (e, q, fails) ↦
          subst
            (λ s. Answered h.socket_protector (port_opened a h.socket_protector port) (launched s))
            (sym q)
            (subst
              (λ o. Answered h.socket_protector o (launched (start_failed r (with_device h) e)))
              (sym fails) (undone-Answered h _ (not_started e) n (inr refl)))
      | inr (p, q, works) ↦
          subst
            (λ s. Answered h.socket_protector (port_opened a h.socket_protector port) (launched s))
            (sym q)
            (subst (λ o. Answered h.socket_protector o (launched (start_done r (with_device h) p)))
              (sym works) (refl, refl))
    ]

launch-Answered :
    (a : Answers) (c : TunnelConfig) (port : ℤ) (h : Machine)
    → h.active ≡ none
    → Answered h.socket_protector
        (port_served a h.socket_protector (some c) port)
        (launch a (new_runner a c port h))
unfolding launch IsOutcome port_served
launch-Answered a c port h n = elim (new_runner-IsOutcome a c port h) [
  | inl (g, e, q, undone, fails) ↦
      subst
        (λ m.
          Answered h.socket_protector (port_served a h.socket_protector (some c) port) (launch a m))
        (sym q)
        (subst
          (λ b.
            Answered h.socket_protector
              (if b then port_opened a h.socket_protector (positive_or port (pos 10809)) else none)
              (launch a (refused g e)))
          (sym fails) (undone-Answered h g (not_initialized e) n undone))
  | inr (q, works) ↦
      subst
        (λ m.
          Answered h.socket_protector (port_served a h.socket_protector (some c) port) (launch a m))
        (sym q)
        (subst
          (λ b.
            Answered h.socket_protector
              (if b then port_opened a h.socket_protector (positive_or port (pos 10809)) else none)
              (launch a (
                made (with_device h) (
                  fresh_runner (local_addresses a.netip c.address) (positive_or port (pos 10809))
                    h))))
          (sym works) (starting-Answered a _ (positive_or port (pos 10809)) h n))
]

running-view : (h : Machine) → is_amnezia_wg_running h ≡ is_some (view h).port
unfolding is_amnezia_wg_running is_active view served
running-view h = go h.active
  where
    go : (o : Option Runner) → is_active o ≡ is_some (served o)
    go none = refl
    go (some r) = elim (Bool-cases r.running) [ inl e ↦ simp e refl | inr e ↦ simp e refl ]

start-Answered :
    (a : Answers) (c : Option TunnelConfig) (port : ℤ) (h : Machine)
    → IsClean h
    → Answered h.socket_protector
        (port_served a h.socket_protector c port)
        (start_amnezia_wg a c port h)
unfolding start_amnezia_wg port_served view served
start-Answered a none port h v = (
  ap2 (stop_previous h.active h) _ (stop_previous_idle h v) (stop_previous-guard h h.active),
  refl,
)
  where
    ap2 :
        (g : Machine) (p : Option Protector)
        → g.active ≡ none
        → g.socket_protector ≡ p
        → view g ≡ record { port = none; guard = p }
    ap2 g p e q =
        ap (λ o. record { port = served o; guard = g.socket_protector }) e
        ∙ ap (λ x. record { port = none; guard = x }) q
start-Answered a (some c) port h v =
    subst (λ g. Answered g (port_served a g (some c) port) (start_amnezia_wg a (some c) port h))
      (stop_previous-guard h h.active)
      (launch-Answered a c port (stop_previous h.active h) (stop_previous_idle h v))

-- A start, from a host on which what is open belongs to a runner that runs: it serves on the port
-- that the settings and the answers give, and reports no error exactly then; if they give none,
-- nothing runs afterwards, whatever ran before.
pub start_amnezia_wg-serves :
    (a : Answers) (c : Option TunnelConfig) (port : ℤ) (h : Machine)
    → IsClean h
    → let o = start_amnezia_wg a c port h in
      let p = port_served a h.socket_protector c port in
      (view o.0 ≡ record { port = p; guard = h.socket_protector })
      × (is_some o.1 ≡ not (is_some p))
      × (is_amnezia_wg_running o.0 ≡ is_some p)
start_amnezia_wg-serves a c port h v =
    let (x, y) = start-Answered a c port h v in
    (x, y, running-view (start_amnezia_wg a c port h).0 ∙ ap (λ w. is_some w.port) x)

stop-view :
    (h : Machine) → view (stop_amnezia_wg h) ≡ record { port = none; guard = h.socket_protector }
unfolding stop_amnezia_wg view served
stop-view h = go h.active refl
  where
    go :
        (o : Option Runner)
        → h.active ≡ o
        → view (stop_amnezia_wg h) ≡ record { port = none; guard = h.socket_protector }
    go none e = simp (e, stop_amnezia_wg) refl
    go (some r) e =
        simp (e, stop_amnezia_wg)
          (ap (λ g. record { port = none; guard = g }) (stop_runner-guard r h))

step-view : (h : Machine) (k : Call) → IsClean h → view (step h k) ≡ view_step (view h) k
unfolding step view_step view set_socket_protector
step-view h (starts a c port) v = (start_amnezia_wg-serves a c port h v).0
step-view h stops v = stop-view h
step-view h (protects p) v = refl

-- Any calls of the exported functions, in any order and whatever is answered to them, do to the
-- port of the tunnel and to the protector what the abstract machine does: a start replaces the
-- tunnel by the one that its settings and answers give, or by none, a stop removes it, and nothing
-- else of what happened before has a part in it.
pub run-view : (h : Machine) (ks : List Call) → IsClean h → view (run h ks) ≡ replay (view h) ks
unfolding run replay
run-view h [] v = refl
run-view h (k ∷ ks) v =
    run-view (step h k) ks (step-IsClean h k v) ∙ ap (λ w. replay w ks) (step-view h k v)
