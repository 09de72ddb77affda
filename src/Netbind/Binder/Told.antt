-- ===== src/Netbind/Binder/Told.antt =====
-- What desktop/netbind/binder.go's cache and callbacks come to over any calls.
use skipi_core.Base.{
  ℕ, ◌+◌, ◌≡◌, refl, ◌∙◌, inl, inr, Bool, true, false, not, ◌||◌, ◌&&◌, Option, List, [], ◌∷◌, ◌++◌,
  if◌then◌else◌, Bool-cases, Option-cases, arith, Text, str_eq, str_eq_iff,
}
use skipi_core.Socks.Associate.{NetAddr}
use skipi_core.Netbind.Binder.{
  Choice, Event, looked_up, chose, bound, reported, Binder, new_binder, enable, disable, is_stale,
  same_choice, refresh, current, was_reported, report_bind_error, is_loopback, Socket, bind_socket,
  controlled, control, Call, enables, disables, controls, step, run,
}

-- How often a failure was told.
unfoldable pub times : Text → Text → List Event → ℕ
unfolding str_eq
times iface err [] = 0
times iface err (reported i e ∷ rest) =
    (if str_eq iface i && str_eq err e then 1 else 0) + times iface err rest
times iface err (_ ∷ rest) = times iface err rest

times-append :
    (iface err : Text) (xs ys : List Event)
    → times iface err (xs ++ ys) ≡ times iface err xs + times iface err ys
unfolding times
times-append iface err [] ys = omega arith
times-append iface err (reported i e ∷ xs) ys = omega (arith, times-append iface err xs ys)
times-append iface err (looked_up t c ∷ xs) ys = times-append iface err xs ys
times-append iface err (chose c ∷ xs) ys = times-append iface err xs ys
times-append iface err (bound i ∷ xs) ys = times-append iface err xs ys

-- What was told is what is remembered, once each.
unfoldable pub IsTold : Binder → Type 0
IsTold b =
    (iface err : Text)
    → times iface err b.events ≡ (if was_reported iface err b.reports then 1 else 0)

told :
    (iface err : Text) (b : Binder)
    → IsTold b
    → was_reported iface err b.reports ≡ false
    → IsTold (record b {
      reports = (iface, err) ∷ b.reports;
      events = b.events ++ reported iface err ∷ [];
    })
unfolding IsTold times was_reported
told iface err b v n i e = elim (Bool-cases (str_eq i iface && str_eq e err)) [
  | inl q ↦
      let same_i : i ≡ iface = ground (arith, q, str_eq_iff i iface) in
      let same_e : e ≡ err = ground (arith, q, str_eq_iff e err) in
      let fresh : was_reported i e b.reports ≡ false = rw (same_i, same_e) n in
      let before : times i e b.events ≡ 0 = v i e ∙ rw fresh refl in
      rw (times-append i e b.events (reported iface err ∷ []), q) (omega (arith, before))
  | inr q ↦
      rw (times-append i e b.events (reported iface err ∷ []), q)
        (let z : times i e b.events + (0 + 0) ≡ times i e b.events = omega arith in z ∙ v i e)
]

report-IsTold : (iface err : Text) (b : Binder) → IsTold b → IsTold (report_bind_error iface err b)
unfolding report_bind_error
report-IsTold iface err b v =
    elim (Bool-cases (not b.has_on_bind_error || was_reported iface err b.reports)) [
      | inl t ↦ simp (t, report_bind_error) v
      | inr t ↦ simp (t, report_bind_error) (told iface err b v (ground (arith, t)))
    ]

-- An event that tells of no failure.
silent :
    (b : Binder) (xs : List Event)
    → ((i e : Text) → times i e xs ≡ 0)
    → IsTold b
    → IsTold (record b { events = b.events ++ xs })
unfolding IsTold
silent b xs h v i e =
    times-append i e b.events xs
    ∙ (let z : times i e b.events + times i e xs ≡ times i e b.events = omega (arith, h i e) in
        z ∙ v i e)

refresh-IsTold : (now : ℕ) (c : Choice) (b : Binder) → IsTold b → IsTold (refresh now c b)
unfolding refresh IsTold times
refresh-IsTold now c b v =
    elim (Bool-cases
      ((not b.announced || not (same_choice c (b.iface, b.ok))) && b.has_on_choose)) [
        | inl t ↦ simp (t, refresh) (silent b (looked_up now c ∷ chose c ∷ []) (λ i e. refl) v)
        | inr t ↦ simp (t, refresh) (silent b (looked_up now c ∷ []) (λ i e. refl) v)
      ]

current-IsTold : (now : ℕ) (c : Choice) (b : Binder) → IsTold b → IsTold (current now c b).0
unfolding current
current-IsTold now c b v = elim (Bool-cases (not b.enabled)) [
  | inl t ↦ simp (t, current) v
  | inr t ↦ elim (Bool-cases (is_stale b.ttl now b.refreshed)) [
    | inl u ↦ simp (t, u, current) (refresh-IsTold now c b v)
    | inr u ↦ simp (t, u, current) v
  ]
]

bind_socket-IsTold :
    (iface : Text) (s : Socket) (b : Binder) → IsTold b → IsTold (bind_socket iface s b)
unfolding bind_socket times
bind_socket-IsTold iface s b v =
    let now : IsTold (record b { events = b.events ++ bound iface ∷ [] }) =
      silent b (bound iface ∷ []) (λ i e. refl) v in
    elim (Bool-cases s.runs) [
      | inr t ↦ simp (t, bind_socket) v
      | inl t ↦ elim (Option-cases s.bind_error) [
        | inl u ↦ simp (t, u, bind_socket) now
        | inr (e, u) ↦ simp (t, u, bind_socket) (report-IsTold iface e _ now)
      ]
    ]

controlled-IsTold : (s : Socket) (r : Binder × Choice) → IsTold r.0 → IsTold (controlled s r).0
unfolding controlled
controlled-IsTold s (b, (iface, true)) v = bind_socket-IsTold iface s b v
controlled-IsTold s (b, (iface, false)) v = v

control-IsTold :
    (parse : Text → Option NetAddr) (address : Text) (now : ℕ) (answer : Choice) (s : Socket)
    (b : Binder)
    → IsTold b
    → IsTold (control parse address now answer s b).0
unfolding control
control-IsTold parse address now answer s b v = elim (Bool-cases (is_loopback parse address)) [
  | inl t ↦ simp (t, control) v
  | inr t ↦
      simp (t, control) (controlled-IsTold s (current now answer b) (current-IsTold now answer b v))
]

step-IsTold :
    (parse : Text → Option NetAddr) (b : Binder) (k : Call) → IsTold b → IsTold (step parse b k)
unfolding step enable disable IsTold
step-IsTold parse b enables v = v
step-IsTold parse b disables v = v
step-IsTold parse b (controls address now answer s) v =
    control-IsTold parse address now answer s b v

pub new_binder-IsTold : (ttl : ℕ) (choose error : Bool) → IsTold (new_binder ttl choose error)
unfolding IsTold new_binder times was_reported
new_binder-IsTold ttl choose error i e = refl

-- From a binder that remembers each failure that was told, as a new one does, after any calls and
-- whatever is answered to them: the same failed bind of the same interface was told exactly once
-- if it is remembered, and never otherwise, however often it failed.
pub run-IsTold :
    (parse : Text → Option NetAddr) (b : Binder) (ks : List Call)
    → IsTold b
    → IsTold (run parse b ks)
unfolding run
run-IsTold parse b [] v = v
run-IsTold parse b (k ∷ ks) v = run-IsTold parse (step parse b k) ks (step-IsTold parse b k v)
