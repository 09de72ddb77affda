-- ===== src/Runner/Starting.antt =====
-- What amneziawg.go's `AmneziaWgRunner.Start` comes to, lines 944-1012.
use skipi_core.Base.{
  suc, ◌≡◌, refl, ◌⊎◌, inl, inr, true, false, Option, none, some, if◌then◌else◌, Bool-cases,
  Option-cases, ℤ,
}
use skipi_core.Runner.{
  Protector, Runner, Machine, Answers, Refusal, not_up, not_listening, protect_peer_sockets,
  close_held, Started, start_runner,
}

-- The port that the listener of a runner gets: its device must come up, its sockets must be
-- protected, and the port must be free.
unfoldable pub port_opened : Answers → Option Protector → ℤ → Option ℤ
port_opened a p port =
    if a.up
    then (elim (protect_peer_sockets p a) [ some e ↦ none | none ↦ a.listens port ])
    else none

-- A start that fails closes the device and leaves the runner as it was.
abbrev pub start_failed : Runner → Machine → Refusal → Started
start_failed r h e = record { host = close_held r.dev h; runner = r; error = some e }

-- A start that succeeds has a listener and its context.
abbrev pub start_done : Runner → Machine → ℤ → Started
start_done r h port = record {
  host = record h { listeners = suc h.listeners };
  runner = record r {
    listener = some h.listeners;
    socks_port = port;
    cancel = some h.listeners;
    running = true;
  };
  error = none;
}

pub start_runner-cases :
    (a : Answers) (r : Runner) (h : Machine)
    → r.running ≡ false
    → ((e : Refusal) × (start_runner a r h ≡ start_failed r h e)
        × (port_opened a r.protector r.socks_port ≡ none))
      ⊎ ((port : ℤ) × (start_runner a r h ≡ start_done r h port)
          × (port_opened a r.protector r.socks_port ≡ some port))
unfolding start_runner port_opened
start_runner-cases a r h idle = elim (Bool-cases a.up) [
  | inr u ↦ inl (not_up, simp (idle, u, start_runner) refl, rw (u, port_opened) refl)
  | inl u ↦ elim (Option-cases (protect_peer_sockets r.protector a)) [
    | inr (e, p) ↦ inl (e, simp (idle, u, p, start_runner) refl, simp (u, p, port_opened) refl)
    | inl p ↦ elim (Option-cases (a.listens r.socks_port)) [
      | inl l ↦
          inl (not_listening, simp (idle, u, p, l, start_runner) refl, simp (u, p, port_opened) l)
      | inr (port, l) ↦
          inr (port, simp (idle, u, p, l, start_runner) refl, simp (u, p, port_opened) l)
    ]
  ]
]
