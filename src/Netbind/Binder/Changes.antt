-- ===== src/Netbind/Binder/Changes.antt =====
-- What desktop/netbind/binder.go tells of the interfaces that it looks up.
use skipi_core.Base.{
  ℕ, ◌≡◌, refl, sym, ap, ◌∙◌, inl, inr, Bool, true, false, not, ◌||◌, ◌&&◌, Option, none, some,
  List, [], ◌∷◌, ◌++◌, if◌then◌else◌, Bool-cases, Option-cases, arith, Text,
}
use mathlib.Core.List.{append-nil}
use skipi_core.Socks.Associate.{NetAddr}
use skipi_core.Netbind.Binder.{
  Choice, Event, looked_up, chose, bound, reported, Binder, new_binder, enable, disable, is_stale,
  same_choice, refresh, current, report_bind_error, was_reported, is_loopback, Socket, bind_socket,
  controlled, control, Call, enables, disables, controls, step, run,
}

-- The interfaces that were looked up, and the ones that were told.
unfoldable pub lookups : List Event → List Choice
lookups [] = []
lookups (looked_up t c ∷ rest) = c ∷ lookups rest
lookups (_ ∷ rest) = lookups rest

unfoldable pub choices : List Event → List Choice
choices [] = []
choices (chose c ∷ rest) = c ∷ choices rest
choices (_ ∷ rest) = choices rest

lookups-append : (xs ys : List Event) → lookups (xs ++ ys) ≡ lookups xs ++ lookups ys
unfolding lookups
lookups-append [] ys = refl
lookups-append (looked_up t c ∷ xs) ys = ap (◌∷◌ c) (lookups-append xs ys)
lookups-append (chose c ∷ xs) ys = lookups-append xs ys
lookups-append (bound i ∷ xs) ys = lookups-append xs ys
lookups-append (reported i e ∷ xs) ys = lookups-append xs ys

choices-append : (xs ys : List Event) → choices (xs ++ ys) ≡ choices xs ++ choices ys
unfolding choices
choices-append [] ys = refl
choices-append (chose c ∷ xs) ys = ap (◌∷◌ c) (choices-append xs ys)
choices-append (looked_up t c ∷ xs) ys = choices-append xs ys
choices-append (bound i ∷ xs) ys = choices-append xs ys
choices-append (reported i e ∷ xs) ys = choices-append xs ys

-- Whether a choice differs from the one before it, if there is one.
unfoldable pub differs : Option Choice → Choice → Bool
differs none c = true
differs (some p) c = not (same_choice c p)

-- The choices that differ from the one right before.
unfoldable pub changes : Option Choice → List Choice → List Choice
changes before [] = []
changes before (c ∷ cs) =
    let later = changes (some c) cs in if differs before c then c ∷ later else later

last_of : Option Choice → List Choice → Option Choice
last_of before [] = before
last_of before (c ∷ cs) = last_of (some c) cs

last_of-append :
    (before : Option Choice) (cs : List Choice) (c : Choice)
    → last_of before (cs ++ c ∷ []) ≡ some c
unfolding last_of
last_of-append before [] c = refl
last_of-append before (d ∷ cs) c = last_of-append (some d) cs c

changes-append :
    (before : Option Choice) (cs : List Choice) (c : Choice)
    → changes before (cs ++ c ∷ [])
      ≡ changes before cs ++ (if differs (last_of before cs) c then c ∷ [] else [])
unfolding changes last_of
changes-append before [] c = refl
changes-append before (d ∷ cs) c = elim (Bool-cases (differs before d)) [
  | inl t ↦ rw (t, changes) (ap (◌∷◌ d) (changes-append (some d) cs c))
  | inr t ↦ rw (t, changes) (changes-append (some d) cs c)
]

announcement : Binder → Option Choice
announcement b = if b.announced then some (b.iface, b.ok) else none

-- A binder that tells changes told those of its lookups, and keeps the last one.
unfoldable pub IsHeard : Binder → Type 0
unfolding announcement last_of
IsHeard b =
    (b.has_on_choose ≡ true)
    × (choices b.events ≡ changes none (lookups b.events))
    × (last_of none (lookups b.events) ≡ announcement b)

-- An event of another kind.
other :
    (b : Binder) (xs : List Event)
    → lookups xs ≡ []
    → choices xs ≡ []
    → IsHeard b
    → IsHeard (record b { events = b.events ++ xs })
unfolding IsHeard
other b xs l c (on, told, last) =
    let same : lookups (b.events ++ xs) ≡ lookups b.events =
      lookups-append b.events xs ∙ rw l (append-nil (lookups b.events)) in
    let also : choices (b.events ++ xs) ≡ choices b.events =
      choices-append b.events xs ∙ rw c (append-nil (choices b.events)) in
    (on, also ∙ (told ∙ ap (changes none) (sym same)), ap (last_of none) same ∙ last)

differs-announcement :
    (b : Binder) (c : Choice)
    → differs (announcement b) c ≡ (not b.announced || not (same_choice c (b.iface, b.ok)))
unfolding announcement differs
differs-announcement b c = elim (Bool-cases b.announced) [
  | inl t ↦ simp t refl
  | inr t ↦ simp t refl
]

-- The events of a lookup.
heard :
    (b : Binder) (c : Choice) (xs : List Event)
    → lookups xs ≡ c ∷ []
    → choices xs ≡ (if differs (announcement b) c then c ∷ [] else [])
    → IsHeard b
    → (choices (b.events ++ xs) ≡ changes none (lookups (b.events ++ xs)))
      × (last_of none (lookups (b.events ++ xs)) ≡ some c)
unfolding IsHeard
heard b c xs l h (on, told, last) =
    let all : lookups (b.events ++ xs) ≡ lookups b.events ++ c ∷ [] =
      lookups-append b.events xs ∙ ap (λ ys. lookups b.events ++ ys) l in
    (
      choices-append b.events xs
          ∙ ap (λ ys. choices b.events ++ ys) h
          ∙ ap (λ ys. ys ++ (if differs (announcement b) c then c ∷ [] else [])) told
          ∙ ap (λ p. changes none (lookups b.events) ++ (if differs p c then c ∷ [] else []))
              (sym last)
          ∙ sym (changes-append none (lookups b.events) c)
          ∙ ap (changes none) (sym all),
      ap (last_of none) all ∙ last_of-append none (lookups b.events) c,
    )

lookup_events : ℕ → Choice → Bool → Bool → List Event
lookup_events now c changed on = looked_up now c ∷ (if changed && on then chose c ∷ [] else [])

lookup_events_lem :
    (now : ℕ) (c : Choice) (changed on : Bool)
    → on ≡ true
    → (lookups (lookup_events now c changed on) ≡ c ∷ [])
      × (choices (lookup_events now c changed on) ≡ (if changed then c ∷ [] else []))
unfolding lookups choices lookup_events
lookup_events_lem now c true true e = (refl, refl)
lookup_events_lem now c false true e = (refl, refl)
lookup_events_lem now c true false e = absurd (ground (arith, e))
lookup_events_lem now c false false e = absurd (ground (arith, e))

refresh-IsHeard : (now : ℕ) (c : Choice) (b : Binder) → IsHeard b → IsHeard (refresh now c b)
unfolding IsHeard refresh announcement lookup_events
refresh-IsHeard now c b v =
    let changed = not b.announced || not (same_choice c (b.iface, b.ok)) in
    let (l, h) = lookup_events_lem now c changed b.has_on_choose v.0 in
    let (x, y) =
      heard b c (lookup_events now c changed b.has_on_choose) l
        (h ∙ ap (λ d. if d then c ∷ [] else []) (sym (differs-announcement b c))) v in
    (v.0, x, y)

current-IsHeard : (now : ℕ) (c : Choice) (b : Binder) → IsHeard b → IsHeard (current now c b).0
unfolding current
current-IsHeard now c b v = elim (Bool-cases (not b.enabled)) [
  | inl t ↦ simp (t, current) v
  | inr t ↦ elim (Bool-cases (is_stale b.ttl now b.refreshed)) [
    | inl u ↦ simp (t, u, current) (refresh-IsHeard now c b v)
    | inr u ↦ simp (t, u, current) v
  ]
]

remembered :
    (b : Binder) (rs : List (Text × Text)) → IsHeard b → IsHeard (record b { reports = rs })
unfolding IsHeard announcement
remembered b rs v = v

report-IsHeard :
    (iface err : Text) (b : Binder) → IsHeard b → IsHeard (report_bind_error iface err b)
unfolding report_bind_error lookups choices
report-IsHeard iface err b v =
    elim (Bool-cases (not b.has_on_bind_error || was_reported iface err b.reports)) [
      | inl t ↦ simp (t, report_bind_error) v
      | inr t ↦
          simp (t, report_bind_error)
            (remembered _ ((iface, err) ∷ b.reports)
              (other b (reported iface err ∷ []) refl refl v))
    ]

bind_socket-IsHeard :
    (iface : Text) (s : Socket) (b : Binder) → IsHeard b → IsHeard (bind_socket iface s b)
unfolding bind_socket lookups choices
bind_socket-IsHeard iface s b v =
    let now : IsHeard (record b { events = b.events ++ bound iface ∷ [] }) =
      other b (bound iface ∷ []) refl refl v in
    elim (Bool-cases s.runs) [
      | inr t ↦ simp (t, bind_socket) v
      | inl t ↦ elim (Option-cases s.bind_error) [
        | inl u ↦ simp (t, u, bind_socket) now
        | inr (e, u) ↦ simp (t, u, bind_socket) (report-IsHeard iface e _ now)
      ]
    ]

controlled-IsHeard : (s : Socket) (r : Binder × Choice) → IsHeard r.0 → IsHeard (controlled s r).0
unfolding controlled
controlled-IsHeard s (b, (iface, true)) v = bind_socket-IsHeard iface s b v
controlled-IsHeard s (b, (iface, false)) v = v

control-IsHeard :
    (parse : Text → Option NetAddr) (address : Text) (now : ℕ) (answer : Choice) (s : Socket)
    (b : Binder)
    → IsHeard b
    → IsHeard (control parse address now answer s b).0
unfolding control
control-IsHeard parse address now answer s b v = elim (Bool-cases (is_loopback parse address)) [
  | inl t ↦ simp (t, control) v
  | inr t ↦
      simp (t, control)
        (controlled-IsHeard s (current now answer b) (current-IsHeard now answer b v))
]

step-IsHeard :
    (parse : Text → Option NetAddr) (b : Binder) (k : Call) → IsHeard b → IsHeard (step parse b k)
unfolding step enable disable IsHeard announcement
step-IsHeard parse b enables v = v
step-IsHeard parse b disables v = v
step-IsHeard parse b (controls address now answer s) v =
    control-IsHeard parse address now answer s b v

pub new_binder-IsHeard : (ttl : ℕ) (error : Bool) → IsHeard (new_binder ttl true error)
unfolding IsHeard new_binder announcement lookups choices changes last_of
new_binder-IsHeard ttl error = (refl, refl, refl)

run-IsHeard :
    (parse : Text → Option NetAddr) (b : Binder) (ks : List Call)
    → IsHeard b
    → IsHeard (run parse b ks)
unfolding run
run-IsHeard parse b [] v = v
run-IsHeard parse b (k ∷ ks) v = run-IsHeard parse (step parse b k) ks (step-IsHeard parse b k v)

-- A new binder with a callback for its choices, after any calls and whatever is answered to them:
-- the callback heard of the lookups exactly the ones whose answer differs from the one right
-- before, in order, and of the first one.
pub run-changes :
    (parse : Text → Option NetAddr) (ttl : ℕ) (error : Bool) (ks : List Call)
    → let es = (run parse (new_binder ttl true error) ks).events in
      choices es ≡ changes none (lookups es)
unfolding IsHeard
run-changes parse ttl error ks =
    (run-IsHeard parse (new_binder ttl true error) ks (new_binder-IsHeard ttl error)).1
