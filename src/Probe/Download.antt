-- ===== src/Probe/Download.antt =====
-- The limits of skipicore.go's download probe, and which running download a cancellation reaches.
use skipi_core.Base.{
  ℕ, ◌≤◌, ◌≡◌, ◌↔◌, refl, ◌==◌, ◌∙◌, true, false, Option, none, some, List, [], ◌∷◌, arith, Text,
  is_empty, pos, lookup, insert, lookup-insert, lookup-erase, str_eq, str_eq_refl, ==_refl, All,
}
use skipi_core.Probe.{
  Response, result, measure_download, DownloadResult, Cancels, begin_download, end_download,
  cancel_download,
}

-- A download reports a result exactly if the server answers with a status from 200 to 299 and
-- a body of at least the limit, and then it reports exactly the limit as the bytes that it read.
pub measure_download_iff :
    (limit : ℕ) (response : Option Response) (r : DownloadResult)
    → (measure_download limit response ≡ result r) ↔ (
        (s : Response) × (response ≡ some s)
        × (200 ≤ s.status)
        × (s.status ≤ 299)
        × (limit ≤ s.body)
        × (r ≡ record {
          bytes_downloaded = pos limit;
          elapsed_millis = s.elapsed;
          ttfb_millis = s.ttfb;
          status_code = s.status;
        }))
unfolding measure_download
measure_download_iff limit none r = (λ h. cc, λ h. ground arith)
measure_download_iff limit (some s) r =
    (λ h. (s, refl, ground arith, ground arith, ground arith, ground arith), λ h. ground arith)

-- What the other downloads do in the meantime.
pub data Op : Type 0 where
  begins : Text → ℕ → Op
  ends : Text → Op
  cancels : Text → Op

unfoldable pub id_of : Op → Text
id_of (begins id n) = id
id_of (ends id) = id
id_of (cancels id) = id

pub apply : Cancels → Op → Cancels
apply s (begins id n) = begin_download s id n
apply s (ends id) = end_download s id
apply s (cancels id) = cancel_download s id

pub apply_all : Cancels → List Op → Cancels
unfolding apply
apply_all s [] = s
apply_all s (o ∷ os) = apply_all (apply s o) os

apply-lookup :
    (s : Cancels) (o : Op) (id : Text)
    → str_eq (id_of o) id ≡ false
    → lookup id (apply s o).table ≡ lookup id s.table
unfolding apply id_of begin_download end_download cancel_download
apply-lookup s (begins j n) id h = ground (arith, lookup-insert j id n s.table)
apply-lookup s (ends j) id h = ground (arith, lookup-erase j id s.table)
apply-lookup s (cancels j) id h = ground arith

apply_all-lookup :
    (s : Cancels) (os : List Op) (id : Text)
    → All (λ o. str_eq (id_of o) id ≡ false) os
    → lookup id (apply_all s os).table ≡ lookup id s.table
unfolding apply_all
apply_all-lookup s [] id h = refl
apply_all-lookup s (o ∷ os) id h = apply_all-lookup (apply s o) os id h.1 ∙ apply-lookup s o id h.0

-- A download that began under a request id that is not empty is reached by a cancellation of that id, whatever
-- downloads with other ids did since.
pub cancel-begin :
    (s : Cancels) (id : Text) (n : ℕ) (os : List Op)
    → is_empty id ≡ false
    → All (λ o. str_eq (id_of o) id ≡ false) os
    → (cancel_download (apply_all (begin_download s id n) os) id).cancelled n ≡ true
unfolding cancel_download begin_download
cancel-begin s id n os e h =
    let hit : lookup id (apply_all (begin_download s id n) os).table ≡ some n =
      apply_all-lookup (begin_download s id n) os id h
      ∙ rw e (lookup-insert id id n s.table ∙ rw (str_eq_refl id)) in
    ground (arith, hit, ==_refl n)

-- Two downloads under one request id that is not empty, whatever downloads with other ids do in the
-- meantime: a cancellation of the id reaches the one that began later, and never the other. Once
-- either of the two has ended, a cancellation of the id changes nothing, although the other one
-- still runs.
pub cancel-begin-shared :
    (s : Cancels) (id : Text) (n m : ℕ) (os : List Op)
    → is_empty id ≡ false
    → (m == n) ≡ false
    → All (λ o. str_eq (id_of o) id ≡ false) os
    → let t = apply_all (begin_download (begin_download s id n) id m) os in
      ((cancel_download t id).cancelled m ≡ true)
      × ((cancel_download t id).cancelled n ≡ t.cancelled n)
      × (cancel_download (end_download t id) id ≡ end_download t id)
unfolding cancel_download end_download begin_download
cancel-begin-shared s id n m os e d h =
    let t = apply_all (begin_download (begin_download s id n) id m) os in
    let hit : lookup id t.table ≡ some m =
      apply_all-lookup (begin_download (begin_download s id n) id m) os id h
      ∙ rw e (lookup-insert id id m (insert id n s.table) ∙ rw (str_eq_refl id)) in
    (
      ground (arith, hit, ==_refl m),
      ground (arith, hit, d),
      rw e (ground (arith, lookup-erase id id t.table, str_eq_refl id)),
    )
