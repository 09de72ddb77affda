-- ===== src/Netbind/Binder/Bound.antt =====
-- Which sockets desktop/netbind/binder.go pins, and to what.
use skipi_core.Base.{
  ℕ, ◌≡◌, refl, sym, ap, ◌∙◌, inl, inr, Bool, true, false, not, ◌||◌, ◌&&◌, Option, none, List, [],
  ◌∷◌, ◌++◌, if◌then◌else◌, Bool-cases, Option-cases, Text,
}
use mathlib.Core.List.{append-nil}
use skipi_core.Socks.Associate.{NetAddr}
use skipi_core.Netbind.Binder.{
  Choice, Event, looked_up, chose, bound, reported, Binder, is_stale, same_choice, refresh, current,
  report_bind_error, was_reported, is_loopback, Socket, bind_socket, controlled, control,
}

-- The interfaces that a socket was pinned to.
unfoldable pub pins : List Event → List Text
pins [] = []
pins (bound i ∷ rest) = i ∷ pins rest
pins (_ ∷ rest) = pins rest

pins-append : (xs ys : List Event) → pins (xs ++ ys) ≡ pins xs ++ pins ys
unfolding pins
pins-append [] ys = refl
pins-append (bound i ∷ xs) ys = ap (◌∷◌ i) (pins-append xs ys)
pins-append (looked_up t c ∷ xs) ys = pins-append xs ys
pins-append (chose c ∷ xs) ys = pins-append xs ys
pins-append (reported i e ∷ xs) ys = pins-append xs ys

unpinned : (es xs : List Event) → pins xs ≡ [] → pins (es ++ xs) ≡ pins es
unpinned es xs e = pins-append es xs ∙ rw e (append-nil (pins es))

-- The interface that is used at `now`: a fresh answer if the last one is too old.
unfoldable pub choice_at : ℕ → Choice → Binder → Choice
choice_at now answer b = if is_stale b.ttl now b.refreshed then answer else (b.iface, b.ok)

-- What a socket is pinned to, and the error of its dial.
unfoldable pub pinned_to : Socket → Choice → List Text
pinned_to s (iface, ok) = if ok && s.runs then iface ∷ [] else []

unfoldable pub dial_error : Socket → Choice → Option Text
dial_error s (iface, ok) = if ok then s.error else none

refresh-pins : (now : ℕ) (c : Choice) (b : Binder) → pins (refresh now c b).events ≡ pins b.events
unfolding refresh pins
refresh-pins now c b =
    elim (Bool-cases
      ((not b.announced || not (same_choice c (b.iface, b.ok))) && b.has_on_choose)) [
        | inl t ↦ simp (t, refresh) (unpinned b.events (looked_up now c ∷ chose c ∷ []) refl)
        | inr t ↦ simp (t, refresh) (unpinned b.events (looked_up now c ∷ []) refl)
      ]

report-pins :
    (iface err : Text) (b : Binder) → pins (report_bind_error iface err b).events ≡ pins b.events
unfolding report_bind_error pins
report-pins iface err b =
    elim (Bool-cases (not b.has_on_bind_error || was_reported iface err b.reports)) [
      | inl t ↦ simp (t, report_bind_error) refl
      | inr t ↦ simp (t, report_bind_error) (unpinned b.events (reported iface err ∷ []) refl)
    ]

bind_socket-pins :
    (iface : Text) (s : Socket) (b : Binder)
    → pins (bind_socket iface s b).events ≡ pins b.events ++ pinned_to s (iface, true)
unfolding bind_socket pinned_to pins
bind_socket-pins iface s b = elim (Bool-cases s.runs) [
  | inr t ↦ simp (t, bind_socket) (sym (append-nil (pins b.events)))
  | inl t ↦ elim (Option-cases s.bind_error) [
    | inl u ↦ simp (t, u, bind_socket) (pins-append b.events (bound iface ∷ []))
    | inr (e, u) ↦
        simp (t, u, bind_socket)
          (report-pins iface e (record b { events = b.events ++ bound iface ∷ [] })
            ∙ pins-append b.events (bound iface ∷ []))
  ]
]

controlled-pins :
    (s : Socket) (r : Binder × Choice)
    → (pins (controlled s r).0.events ≡ pins r.0.events ++ pinned_to s r.1)
      × ((controlled s r).1 ≡ dial_error s r.1)
unfolding controlled pinned_to dial_error
controlled-pins s (b, (iface, true)) = (bind_socket-pins iface s b, refl)
controlled-pins s (b, (iface, false)) = (sym (append-nil (pins b.events)), refl)

current_lem :
    (now : ℕ) (answer : Choice) (b : Binder)
    → (pins (current now answer b).0.events ≡ pins b.events)
      × ((current now answer b).1 ≡ (if not b.enabled then ([], false) else choice_at now answer b))
unfolding current choice_at
current_lem now answer b = elim (Bool-cases (not b.enabled)) [
  | inl t ↦ simp (t, current) (refl, refl)
  | inr t ↦ elim (Bool-cases (is_stale b.ttl now b.refreshed)) [
    | inl u ↦ simp (t, u, current) (refresh-pins now answer b, refl)
    | inr u ↦ simp (t, u, current) (refl, refl)
  ]
]

unused :
    (b : Bool) (s : Socket) (c : Choice)
    → pinned_to s (if b then ([], false) else c) ≡ (if b then [] else pinned_to s c)
unfolding pinned_to
unused true s c = refl
unused false s c = refl

unused_error :
    (b : Bool) (s : Socket) (c : Choice)
    → dial_error s (if b then ([], false) else c) ≡ (if b then none else dial_error s c)
unfolding dial_error
unused_error true s c = refl
unused_error false s c = refl

-- A dial pins its socket to one interface at most: to none for an address on the loopback or on a
-- binder that is not enabled, and else to the one of the lookup that holds at the time, if there
-- is one. Its error is the one of the socket, and never that of a bind that failed.
pub control-pins :
    (parse : Text → Option NetAddr) (address : Text) (now : ℕ) (answer : Choice) (s : Socket)
    (b : Binder)
    → let o = control parse address now answer s b in
      let left_alone = is_loopback parse address || not b.enabled in
      let c = choice_at now answer b in
      (pins o.0.events ≡ pins b.events ++ (if left_alone then [] else pinned_to s c))
      × (o.1 ≡ (if left_alone then none else dial_error s c))
unfolding control
control-pins parse address now answer s b =
    let (x, y) = controlled-pins s (current now answer b) in
    let (p, c) = current_lem now answer b in
    elim (Bool-cases (is_loopback parse address)) [
      | inl l ↦ simp (l, control) (sym (append-nil (pins b.events)), refl)
      | inr l ↦
          simp (l, control)
            (
              x
                  ∙ ap (λ q. q ++ pinned_to s (current now answer b).1) p
                  ∙ ap (λ d. pins b.events ++ pinned_to s d) c
                  ∙ ap (λ q. pins b.events ++ q)
                      (unused (not b.enabled) s (choice_at now answer b)),
              y ∙ ap (dial_error s) c ∙ unused_error (not b.enabled) s (choice_at now answer b),
            )
    ]
