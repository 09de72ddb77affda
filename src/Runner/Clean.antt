-- ===== src/Runner/Clean.antt =====
-- What amneziawg.go's runner leaves behind: the devices, listeners and contexts it made are closed,
-- each once, but for those of the active runner.
use skipi_core.Base.{
  ℕ, ◌≡◌, refl, sym, ap, ◌∙◌, subst, inl, inr, true, Option, none, some, List, [], ◌∷◌, ℤ,
}
use skipi_core.Socks.Associate.{NetAddr}
use skipi_core.Runner.{
  TunnelConfig, Protector, Runner, Machine, new_machine, Answers, close_device, made, new_runner,
  close_held, cancel_context, close_listener, close_tunnel, stop_runner, stop_previous, launched,
  launch, start_amnezia_wg, stop_amnezia_wg, set_socket_protector, Call, starts, stops, protects,
  step, run,
}
use skipi_core.Runner.Making.{fresh_runner, with_device, IsUndone, IsOutcome, new_runner-IsOutcome}
use skipi_core.Runner.Starting.{start_done, start_runner-cases}
use skipi_core.Runner.Balance.{
  IsBalanced, IsBalanced-none, IsBalanced-made, IsBalanced-closed, IsBalanced-held,
}

-- The device that is open, and the listener with its context.
unfoldable pub Holds : Machine → Option ℕ → Option ℕ → Type 0
Holds h d l =
    IsBalanced h.devices h.device_closes d
    × IsBalanced h.listeners h.listener_closes l
    × IsBalanced h.listeners h.cancels l
    × ((i : ℕ) → h.tun_closes i ≡ 0)

-- What is open is what the active runner has, and it runs; nothing is open without one.
unfoldable pub IsCleanWith : Machine → Option Runner → Type 0
IsCleanWith h none = Holds h none none
IsCleanWith h (some r) =
    (d l : ℕ) × Holds h (some d) (some l)
    × (r.running ≡ true)
    × (r.dev ≡ some d)
    × (r.listener ≡ some l)
    × (r.cancel ≡ some l)

unfoldable pub IsClean : Machine → Type 0
IsClean h = IsCleanWith h h.active

pub new_machine-IsClean : IsClean new_machine
unfolding IsClean IsCleanWith Holds new_machine
new_machine-IsClean = (IsBalanced-none, IsBalanced-none, IsBalanced-none, λ i. refl)

closed-Holds :
    (h : Machine) (d l : ℕ) (tun : Option ℕ)
    → Holds h (some d) (some l)
    → Holds
        (close_tunnel (some d) tun (close_listener (some l) (cancel_context (some l) h)))
        none
        none
unfolding close_tunnel close_listener cancel_context Holds
closed-Holds h d l tun (a, b, c, e) = (
  IsBalanced-closed h.devices h.device_closes d a,
  IsBalanced-closed h.listeners h.listener_closes l b,
  IsBalanced-closed h.listeners h.cancels l c,
  e,
)

stop_runner-Holds :
    (h : Machine) (r : Runner) → IsCleanWith h (some r) → Holds (stop_runner r h).0 none none
unfolding stop_runner IsCleanWith
stop_runner-Holds h r (d, l, held, on, dev, lis, ctx) =
    rw (on, stop_runner, dev, lis, ctx) (closed-Holds h d l r.tun held)

stop_previous-Holds :
    (h : Machine) (o : Option Runner) → IsCleanWith h o → Holds (stop_previous o h) none none
unfolding stop_previous stop_runner IsCleanWith Holds
stop_previous-Holds h none c = c
stop_previous-Holds h (some r) (d, l, held, on, dev, lis, ctx) =
    rw (on, stop_previous, stop_runner, dev, lis, ctx) (closed-Holds h d l r.tun held)

pub stop_previous_idle : (h : Machine) → IsClean h → (stop_previous h.active h).active ≡ none
unfolding stop_previous IsClean IsCleanWith
stop_previous_idle h c = go h.active refl c
  where
    go : (o : Option Runner) → h.active ≡ o → IsCleanWith h o → (stop_previous o h).active ≡ none
    go none e c = e
    go (some r) e c = rw (c.3, stop_previous) refl

IsClean-idle : (h : Machine) → h.active ≡ none → Holds h none none → IsClean h
unfolding IsClean IsCleanWith Holds
IsClean-idle h n held = rw n held

made-Holds : (h : Machine) → Holds h none none → Holds (with_device h) (some h.devices) none
unfolding Holds
made-Holds h (a, b, c, e) = (IsBalanced-made h.devices h.device_closes a, b, c, e)

close_device-Holds :
    (h : Machine) (d : ℕ) → Holds h (some d) none → Holds (close_device d h) none none
unfolding Holds
close_device-Holds h d (a, b, c, e) = (IsBalanced-closed h.devices h.device_closes d a, b, c, e)

-- A runner that does not come to run leaves nothing open.
undone-IsClean : (h g : Machine) → h.active ≡ none → Holds h none none → IsUndone h g → IsClean g
undone-IsClean h g n held (inl e) = subst IsClean (sym e) (IsClean-idle h n held)
undone-IsClean h g n held (inr e) = subst IsClean (sym e) (
    IsClean-idle (close_device h.devices (with_device h)) n
      (close_device-Holds (with_device h) h.devices (made-Holds h held)))

serving-IsClean :
    (locals : List NetAddr) (port : ℤ) (h : Machine) (p : ℤ)
    → Holds h none none
    → IsClean (launched (start_done (fresh_runner locals port h) (with_device h) p)).0
unfolding launched IsClean IsCleanWith Holds
serving-IsClean locals port h p (x, y, z, w) = (
  h.devices,
  h.listeners,
  (
    IsBalanced-made h.devices h.device_closes x,
    IsBalanced-made h.listeners h.listener_closes y,
    IsBalanced-made h.listeners h.cancels z,
    w,
  ),
  refl,
  refl,
  refl,
  refl,
)

started-IsClean :
    (a : Answers) (locals : List NetAddr) (port : ℤ) (h : Machine)
    → h.active ≡ none
    → Holds h none none
    → IsClean (launch a (made (with_device h) (fresh_runner locals port h))).0
unfolding launch launched close_held
started-IsClean a locals port h n held =
    elim (start_runner-cases a (fresh_runner locals port h) (with_device h) refl) [
      | inl (e, q, fails) ↦
          subst (λ s. IsClean (launched s).0) (sym q)
            (undone-IsClean h (close_device h.devices (with_device h)) n held (inr refl))
      | inr (p, q, works) ↦
          subst (λ s. IsClean (launched s).0) (sym q) (serving-IsClean locals port h p held)
    ]

launch-IsClean :
    (a : Answers) (c : TunnelConfig) (port : ℤ) (h : Machine)
    → h.active ≡ none
    → Holds h none none
    → IsClean (launch a (new_runner a c port h)).0
unfolding launch IsOutcome
launch-IsClean a c port h n held = elim (new_runner-IsOutcome a c port h) [
  | inl (g, e, q, undone, fails) ↦
      subst (λ m. IsClean (launch a m).0) (sym q) (undone-IsClean h g n held undone)
  | inr (q, works) ↦ subst (λ m. IsClean (launch a m).0) (sym q) (started-IsClean a _ _ h n held)
]

start-IsClean :
    (a : Answers) (c : Option TunnelConfig) (port : ℤ) (h : Machine)
    → IsClean h
    → IsClean (start_amnezia_wg a c port h).0
unfolding start_amnezia_wg IsClean
start-IsClean a none port h v =
    IsClean-idle _ (stop_previous_idle h v) (stop_previous-Holds h h.active v)
start-IsClean a (some c) port h v =
    launch-IsClean a c port _ (stop_previous_idle h v) (stop_previous-Holds h h.active v)

stop-IsClean : (h : Machine) → IsClean h → IsClean (stop_amnezia_wg h)
unfolding stop_amnezia_wg IsClean IsCleanWith Holds
stop-IsClean h v = go h.active refl v
  where
    go : (o : Option Runner) → h.active ≡ o → IsCleanWith h o → IsClean (stop_amnezia_wg h)
    go none e c = simp (e, stop_amnezia_wg) c
    go (some r) e c = simp (e, stop_amnezia_wg) (stop_runner-Holds h r c)

protector-IsClean :
    (h : Machine) (p : Option Protector) (o : Option Runner)
    → IsCleanWith h o
    → IsCleanWith (record h { socket_protector = p }) o
unfolding IsCleanWith Holds
protector-IsClean h p none c = c
protector-IsClean h p (some r) c = c

pub step-IsClean : (h : Machine) (k : Call) → IsClean h → IsClean (step h k)
unfolding step set_socket_protector IsClean
step-IsClean h (starts a c port) v = start-IsClean a c port h v
step-IsClean h stops v = stop-IsClean h v
step-IsClean h (protects p) v = protector-IsClean h p h.active v

-- From a host on which what is open belongs to a runner that runs, as on a new one, this stays so
-- after any calls of the exported functions, whatever is answered to them: every device, every
-- listener and every context that was made is closed exactly once, but for those of the active
-- runner, which are not closed and which it has.
pub run-IsClean : (h : Machine) (ks : List Call) → IsClean h → IsClean (run h ks)
unfolding run
run-IsClean h [] v = v
run-IsClean h (k ∷ ks) v = run-IsClean (step h k) ks (step-IsClean h k v)

-- The runner that runs, with its listener and the context of it, neither of which is closed.
pub IsClean-running :
    (h : Machine) (r : Runner) (l : ℕ)
    → IsClean h
    → h.active ≡ some r
    → r.listener ≡ some l
    → (r.running ≡ true)
      × ((d : ℕ) × (r.dev ≡ some d))
      × (r.cancel ≡ some l)
      × (h.cancels l ≡ 0)
      × (h.listener_closes l ≡ 0)
unfolding IsClean IsCleanWith Holds
IsClean-running h r l v e listens =
    let (d, k, (a, b, c, t), on, dev, lis, ctx) = subst (IsCleanWith h) e v in
    let same : k ≡ l = some_inj (sym lis ∙ listens) in
    (
      on,
      (d, dev),
      ctx ∙ ap some same,
      subst (λ i. h.cancels i ≡ 0) same (IsBalanced-held h.listeners h.cancels k c),
      subst (λ i. h.listener_closes i ≡ 0) same (IsBalanced-held h.listeners h.listener_closes k b),
    )
  where
    some_inj : {n m : ℕ} → some n ≡ some m → n ≡ m
    some_inj q = cc
