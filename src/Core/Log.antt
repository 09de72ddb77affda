-- ===== src/Core/Log.antt =====
-- connection_log.go, lines 144-171: what the handler in front of Xray's log does with a message.
use skipi_core.Base.{
  ℕ, ◌≡◌, ◌≤◌, refl, Bool, true, false, Option, none, some, ◌==◌, if◌then◌else◌, ◌&&◌, ltb, arith,
  Text, update, ==_refl,
}
use skipi_core.ConnLog.{ConnectionLog, record_text, snapshot}
use skipi_core.Core.{
  Controller, World, Handler, set_connection_log_enabled, with_enabled, read_connection_log,
}
use skipi_core.Core.Owned.{Inv}

-- A `GeneralMessage` has a severity; the other messages have none.
pub data Message : Type 0 where
  general : ℕ → Text → Message
  other : Text → Message

-- The log behind the handler with the message, which only Info lines reach.
unfoldable pub observe : ℕ → ConnectionLog → Message → ℕ → ConnectionLog
observe info l (general severity text) now = if severity == info then record_text l text now else l
observe info l (other text) now = l

-- `Handle`, with Xray's number for Info: the process, and the instance whose log is handed the
-- message, if the handler has one behind it.
unfoldable pub handle : ℕ → Handler → Message → ℕ → World → World × Option (ℕ × Message)
unfolding observe
handle info h m now w = (
  record w { logs = update w.logs h.log (observe info (w.logs h.log) m now) },
  elim h.inner [ none ↦ none | some i ↦ some (i, m) ],
)

abbrev pub or_default : ℕ → Option ℕ → ℕ
or_default d none = d
or_default d (some s) = s

abbrev pub level_of : (ℕ → Option ℕ) → Option ℕ → Option ℕ
level_of levels none = none
level_of levels (some i) = levels i

-- `Severity`, with Xray's numbers for Info and Warning and the severity of each instance's log,
-- which is none where that log does not say.
unfoldable pub severity : ℕ → ℕ → (ℕ → Option ℕ) → Handler → World → ℕ
severity info warning levels h w =
    let own = or_default warning (level_of levels h.inner) in
    if (w.logs h.log).enabled && ltb own info then info else own

-- Under the invariant of a controller and its process, with a handler that is active: what the
-- controller's log says after the handler has received a message is what the log says
-- after it has read the message, and no other log of the process has changed.
pub read-handle :
    (c : Controller) (w : World) (h : Handler) (info : ℕ) (m : Message) (now after : ℕ)
    → Inv c w
    → w.active_log ≡ some h
    → let v = (handle info h m now w).0 in
      (read_connection_log c v after ≡ snapshot (observe info (w.logs h.log) m now) after)
      × ((l : ℕ) → (l == h.log) ≡ false → v.logs l ≡ w.logs l)
unfolding handle read_connection_log
read-handle c w h info m now after v e =
    let own : c.conn_log ≡ some h.log = ground (arith, v.active, e) in
    (rw (own, ==_refl h.log) refl, λ l d. ground arith)

-- Under the invariant of a controller and its process, with a handler that is active: with the
-- flag set by `SetConnectionLogEnabled` the running session's handler asks for Info lines
-- at least, and never for less than its inner log does; with the flag cleared it asks for just
-- what that log does, or Warning.
pub set_enabled-severity :
    (c : Controller) (w : World) (h : Handler) (info warning : ℕ) (levels : ℕ → Option ℕ)
    (on : Bool)
    → Inv c w
    → w.active_log ≡ some h
    → let v = (set_connection_log_enabled c w on).1 in
      let own = or_default warning (level_of levels h.inner) in
      let s = severity info warning levels h v in
      (own ≤ s) × (on ≡ true → info ≤ s) × (on ≡ false → s ≡ own)
unfolding set_connection_log_enabled with_enabled severity
set_enabled-severity c w h info warning levels on v e =
    let own : c.conn_log ≡ some h.log = ground (arith, v.active, e) in
    rw (own, ==_refl h.log) (go on)
  where
    go :
        (b : Bool)
        → let own = or_default warning (level_of levels h.inner) in
          let s = if b && ltb own info then info else own in
          (own ≤ s) × (b ≡ true → info ≤ s) × (b ≡ false → s ≡ own)
    go true = (ground arith, λ x. ground arith, λ x. cc)
    go false = (ground arith, λ x. cc, λ x. refl)
