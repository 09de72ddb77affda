-- ===== src/Probe.antt =====
-- skipicore.go, lines 502-781: isolated test instances, the delay probe, the download probe and its
-- cancellation. What Xray and the HTTP client answer are arguments.
pub mod Delay
pub mod Download
pub mod Instance
pub mod Tests
use skipi_core.Base.{
  ℕ, ◌+◌, ◌*◌, ◌^◌, Bool, true, false, not, ◌||◌, ◌&&◌, Option, none, some, List, [], ◌∷◌, ◌++◌,
  ◌==◌, if◌then◌else◌, Text, codes, str_eq, trim_space, is_empty, ℤ, pos, negsuc, ltz, to_nat, ltb,
  leb, update, lookup, insert, erase,
}
use skipi_core.Core.{
  World, Reply, register_new, new_instance, close_instance, restore_connection_log,
}

-- The parts of a loaded configuration that a test instance changes: the inbounds and the types of
-- the applications.
pub record Config : Type 0 where
  pub inbounds : List Text
  pub apps : List Text

unfoldable pub is_essential : Text → Bool
is_essential t =
    str_eq t (codes "xray.app.proxyman.OutboundConfig")
    || str_eq t (codes "xray.app.dispatcher.Config")
    || str_eq t (codes "xray.app.log.Config")

essential_apps : List Text → List Text
essential_apps [] = []
essential_apps (t ∷ ts) = if is_essential t then t ∷ essential_apps ts else essential_apps ts

-- The configuration of a test instance.
unfoldable pub strip : Config → Config
unfolding essential_apps is_essential
strip c = record { inbounds = []; apps = essential_apps c.apps }

pub data TestError : Type 0 where
  parse_failed create_failed start_failed : TestError

pub data Result (A : Type 0) : Type 0 where
  ok : A → Result A
  err : TestError → Result A

start_created : World → Reply → World × Result ℕ
unfolding new_instance restore_connection_log close_instance
start_created w reply =
    let v = restore_connection_log (new_instance w) in
    if reply.starts
    then (v, ok w.next_instance)
    else (close_instance w.next_instance v, err start_failed)

-- `startOutboundTestInstance` on a configuration that Xray answers with `reply`.
unfoldable pub start_test_instance : World → Reply → World × Result ℕ
unfolding start_created register_new
start_test_instance w reply =
    if reply.loads
    then (if reply.creates
        then start_created (register_new reply.registers w) reply
        else (register_new reply.registers w, err create_failed))
    else (w, err parse_failed)

-- One round of `measureInstanceDelay`: how the request ended, with the milliseconds it took.
pub data Attempt : Type 0 where
  no_request no_response bad_status bad_body : Attempt
  done : ℕ → Attempt

pub data ProbeError : Type 0 where
  deadline_passed : ProbeError
  attempt_failed : Attempt → ProbeError

-- The variables `minDuration`, `success` and `lastErr`.
pub record Progress : Type 0 where
  pub min_duration : ℤ
  pub success : Bool
  pub last_error : Option ProbeError

unfoldable pub after_attempt : Progress → Attempt → Progress
after_attempt p (done d) =
    if not p.success || ltz (pos d) p.min_duration
    then record p { min_duration = pos d; success = true }
    else record p { success = true }
after_attempt p a = record p { last_error = some (attempt_failed a) }

finish : Progress → ℤ × Option ProbeError
finish p = if p.success then (p.min_duration, none) else (negsuc 0, p.last_error)

passed : Progress → ℤ × Option ProbeError
passed p = if p.success then (p.min_duration, none) else (negsuc 0, some deadline_passed)

-- The loop over the attempts: before each one the deadline may have passed.
unfoldable pub attempts : Progress → List (Bool × Attempt) → ℤ × Option ProbeError
unfolding finish passed
attempts p [] = finish p
attempts p ((late, a) ∷ rest) =
    let later = attempts (after_attempt p a) rest in if late then passed p else later

-- `measureInstanceDelay` of an instance, behind the default of the target; the code makes two
-- attempts.
unfoldable pub measure_delay : Bool × Attempt → Bool × Attempt → ℤ × Option ProbeError
unfolding attempts
measure_delay first second =
    attempts (record { min_duration = negsuc 0; success = false; last_error = none })
      (first ∷ second ∷ [])

pub data MeasureError : Type 0 where
  not_started : TestError → MeasureError
  probe_failed : ProbeError → MeasureError

with_error : ℤ × Option ProbeError → ℤ × Option MeasureError
with_error (d, none) = (d, none)
with_error (d, some e) = (d, some (probe_failed e))

-- `MeasureOutboundDelay`: the instance is closed on the way out.
unfoldable pub measure_outbound_delay :
    World → Reply → Bool × Attempt → Bool × Attempt → World × (ℤ × Option MeasureError)
unfolding with_error
measure_outbound_delay w reply first second =
    let (v, started) = start_test_instance w reply in
    elim started [
      | err e ↦ (v, (negsuc 0, some (not_started e)))
      | ok i ↦ (close_instance i v, with_error (measure_delay first second))
    ]

-- `outboundDownloadResult`
pub record DownloadResult : Type 0 where
  pub bytes_downloaded : ℤ
  pub elapsed_millis : ℕ
  pub ttfb_millis : ℕ
  pub status_code : ℕ

pub data DownloadError : Type 0 where
  bad_limit bad_timeout no_target : DownloadError
  no_server : TestError → DownloadError
  request_failed : DownloadError
  wrong_status : ℕ → DownloadError
  short_body : ℕ → DownloadError

-- `maxOutboundDownloadBytes` and the two bounds of the timeout.
abbrev pub max_bytes_limit : ℕ
max_bytes_limit = 100 * 2 ^ 20

abbrev pub min_timeout : ℕ
min_timeout = 10000

abbrev pub max_timeout : ℕ
max_timeout = 10 * 60 * 1000

-- The checks at the head of `MeasureOutboundDownload`.
unfoldable pub check_download : ℤ → ℤ → Text → Option DownloadError
check_download max_bytes timeout target =
    if not (ltz (pos 0) max_bytes) || ltz (pos max_bytes_limit) max_bytes
    then some bad_limit
    else if ltz timeout (pos min_timeout) || ltz (pos max_timeout) timeout
    then some bad_timeout
    else if is_empty (trim_space target)
    then some no_target
    else none

-- What the server answers: the status and the bytes of its body, with the two clock readings.
pub record Response : Type 0 where
  pub status : ℕ
  pub body : ℕ
  pub ttfb : ℕ
  pub elapsed : ℕ

pub data Downloaded : Type 0 where
  result : DownloadResult → Downloaded
  error : DownloadError → Downloaded

-- `measureInstanceDownload`: `CopyN` reads `limit` bytes, or fails at the end of the body.
unfoldable pub measure_download : ℕ → Option Response → Downloaded
measure_download limit none = error request_failed
measure_download limit (some r) =
    if ltb r.status 200 || leb 300 r.status
    then error (wrong_status r.status)
    else if ltb r.body limit
    then error (short_body r.body)
    else result (record {
      bytes_downloaded = pos limit;
      elapsed_millis = r.elapsed;
      ttfb_millis = r.ttfb;
      status_code = r.status;
    })

-- `outboundDownloadCancels` with, for each running download, whether it was cancelled. Downloads
-- are known by the order in which they start.
pub record Cancels : Type 0 where
  pub table : List (Text × ℕ)
  pub cancelled : ℕ → Bool

-- The `Store` and the deferred `Delete` of `MeasureOutboundDownload`.
unfoldable pub begin_download : Cancels → Text → ℕ → Cancels
begin_download s id n = if is_empty id then s else record s { table = insert id n s.table }

unfoldable pub end_download : Cancels → Text → Cancels
end_download s id = if is_empty id then s else record s { table = erase id s.table }

-- `CancelOutboundDownload`
unfoldable pub cancel_download : Cancels → Text → Cancels
cancel_download s id = if is_empty id then s else elim (lookup id s.table) [
  | none ↦ s
  | some n ↦ record s { cancelled = update s.cancelled n true }
]

-- `MeasureOutboundDownload`, with the number `n` of the download.
unfoldable pub measure_outbound_download :
    World
    → Cancels
    → Reply
    → Option Response
    → ℤ
    → ℤ
    → Text
    → Text
    → ℕ
    → World × Cancels × Downloaded
measure_outbound_download w s reply response max_bytes timeout target id n =
    elim (check_download max_bytes timeout target) [
      | some e ↦ (w, s, error e)
      | none ↦
          let (v, started) = start_test_instance w reply in
          elim started [
            | err e ↦ (v, s, error (no_server e))
            | ok i ↦ (
              close_instance i v,
              end_download (begin_download s id n) id,
              measure_download (to_nat max_bytes) response,
            )
          ]
    ]
