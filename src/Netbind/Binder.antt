-- ===== src/Netbind/Binder.antt =====
-- desktop/netbind/binder.go: the dialer controller. Each method that takes the lock is one step;
-- times are nanoseconds, and the zero time is `none`.
pub mod Told
pub mod Changes
pub mod Bound
use skipi_core.Base.{
  ℕ, suc, ◌+◌, Bool, true, false, not, ◌||◌, ◌&&◌, Option, none, some, List, [], ◌∷◌, ◌++◌, ◌==◌,
  if◌then◌else◌, leb, Text, codes, str_eq, has_prefix, is_some, drop,
}
use skipi_core.Awg.{to_lower}
use skipi_core.Socks.Associate.{NetAddr, invalid, v4, v6, unmap}

-- What `Lookup` and `OnChoose` speak of: an interface, and whether there is one.
abbrev pub Choice : Type 0
Choice = Text × Bool

-- What the binder does to its surroundings, in order.
pub data Event : Type 0 where
  looked_up : ℕ → Choice → Event
  chose : Choice → Event
  bound : Text → Event
  reported : Text → Text → Event

-- `Binder`, with which of the two callbacks are set.
pub record Binder : Type 0 where
  pub ttl : ℕ
  pub has_on_choose : Bool
  pub has_on_bind_error : Bool
  pub enabled : Bool
  pub iface : Text
  pub ok : Bool
  pub refreshed : Option ℕ
  pub announced : Bool
  pub reports : List (Text × Text)
  pub events : List Event

unfoldable pub new_binder : ℕ → Bool → Bool → Binder
new_binder ttl choose error = record {
  ttl = ttl;
  has_on_choose = choose;
  has_on_bind_error = error;
  enabled = false;
  iface = [];
  ok = false;
  refreshed = none;
  announced = false;
  reports = [];
  events = [];
}

-- `Enable` and `Disable`
unfoldable pub enable : Binder → Binder
enable b = record b { enabled = true; refreshed = none }

unfoldable pub disable : Binder → Binder
disable b = record b { enabled = false }

-- Whether the last lookup is too old at `now`.
unfoldable pub is_stale : ℕ → ℕ → Option ℕ → Bool
is_stale ttl now none = true
is_stale ttl now (some t) = leb (t + ttl) now

unfoldable pub same_choice : Choice → Choice → Bool
unfolding str_eq
same_choice (name, true) (other, true) = str_eq name other
same_choice (name, false) (other, false) = str_eq name other
same_choice _ _ = false

-- A lookup that is done, and what is told of it.
unfoldable pub refresh : ℕ → Choice → Binder → Binder
unfolding same_choice
refresh now c b =
    let changed = not b.announced || not (same_choice c (b.iface, b.ok)) in
    record b {
      iface = c.0;
      ok = c.1;
      refreshed = some now;
      announced = true;
      events =
          b.events ++ looked_up now c ∷ (if changed && b.has_on_choose then chose c ∷ [] else []);
    }

-- `current`, with what `Lookup` would answer.
unfoldable pub current : ℕ → Choice → Binder → Binder × Choice
unfolding is_stale refresh
current now answer b =
    if not b.enabled
    then (b, ([], false))
    else if is_stale b.ttl now b.refreshed
    then (refresh now answer b, answer)
    else (b, (b.iface, b.ok))

unfoldable pub was_reported : Text → Text → List (Text × Text) → Bool
unfolding str_eq
was_reported iface err [] = false
was_reported iface err ((i, e) ∷ rest) =
    str_eq iface i && str_eq err e || was_reported iface err rest

-- `reportBindError`
unfoldable pub report_bind_error : Text → Text → Binder → Binder
unfolding was_reported
report_bind_error iface err b =
    if not b.has_on_bind_error || was_reported iface err b.reports then b else record b {
      reports = (iface, err) ∷ b.reports;
      events = b.events ++ reported iface err ∷ [];
    }

-- `IsLoopback`
is_loopback_address : NetAddr → Bool
unfolding str_eq unmap
is_loopback_address a = loopback (unmap a)
  where
    loopback : NetAddr → Bool
    loopback invalid = false
    loopback (v4 []) = false
    loopback (v4 (b ∷ bs)) = b == 127
    loopback (v6 ip) =
        str_eq ip (0 ∷ 0 ∷ 0 ∷ 0 ∷ 0 ∷ 0 ∷ 0 ∷ 0 ∷ 0 ∷ 0 ∷ 0 ∷ 0 ∷ 0 ∷ 0 ∷ 0 ∷ 1 ∷ [])

-- `isLoopback`, with `netip.ParseAddrPort`.
unfoldable pub is_loopback : (Text → Option NetAddr) → Text → Bool
unfolding has_prefix to_lower is_loopback_address
is_loopback parse address =
    has_prefix (codes "localhost:") (to_lower address)
    || (elim (parse address) [ none ↦ false | some a ↦ is_loopback_address a ])

-- What the socket and the system answer: whether `RawConn.Control` runs its function, the error it
-- returns, and the error of `Bind`.
pub record Socket : Type 0 where
  pub runs : Bool
  pub error : Option Text
  pub bind_error : Option Text

bind_socket : Text → Socket → Binder → Binder
unfolding report_bind_error
bind_socket iface s b =
    let c = record b { events = b.events ++ bound iface ∷ [] } in
    if not s.runs then b else elim s.bind_error [ none ↦ c | some e ↦ report_bind_error iface e c ]

controlled : Socket → Binder × Choice → Binder × Option Text
unfolding bind_socket
controlled s (b, (iface, ok)) = if ok then (bind_socket iface s b, s.error) else (b, none)

-- `Control`
unfoldable pub control :
    (Text → Option NetAddr) → Text → ℕ → Choice → Socket → Binder → Binder × Option Text
unfolding is_loopback current controlled
control parse address now answer s b =
    if is_loopback parse address then (b, none) else controlled s (current now answer b)

pub data Call : Type 0 where
  enables : Call
  disables : Call
  controls : Text → ℕ → Choice → Socket → Call

unfoldable pub step : (Text → Option NetAddr) → Binder → Call → Binder
unfolding enable disable control
step parse b enables = enable b
step parse b disables = disable b
step parse b (controls address now answer s) = (control parse address now answer s b).0

unfoldable pub run : (Text → Option NetAddr) → Binder → List Call → Binder
unfolding step
run parse b [] = b
run parse b (k ∷ ks) = run parse (step parse b k) ks
