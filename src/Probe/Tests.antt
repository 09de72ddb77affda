-- ===== src/Probe/Tests.antt =====
-- The theorems on skipicore.go's probes at concrete answers of Xray and of the network.
use skipi_core.Base.{
  some, List, str_eq, ◌≡◌, refl, true, false, none, [], ◌∷◌, codes, pos, negsuc, trim_space,
}
use skipi_core.Core.Tests.{fresh, good, behind}
use skipi_core.Core.{
  World, Reply, skipi, xray, register_new, restore_connection_log, restored, new_instance,
  close_instance,
}
use skipi_core.Probe.{
  Config, no_response, done, measure_delay, after_attempt, measure_outbound_delay,
  start_test_instance, check_download, Response, Cancels, begin_download, end_download,
  cancel_download,
}
use skipi_core.Probe.Download.{Op, begins, ends, cancels, id_of, apply_all, cancel-begin-shared}
use skipi_core.Probe.Instance.{Leaves, measure_outbound_delay-Leaves}

measure_delay_late_test : (measure_delay (false, no_response) (true, done 35)).0 ≡ negsuc 0
unfolding measure_delay after_attempt
measure_delay_late_test = refl

check_download_test : check_download (pos 1048576) (pos 15000) (codes "https://a.org") ≡ none
unfolding check_download trim_space
check_download_test = refl

abbrev response : Response
response = record { status = 206; body = 5000; ttfb = 12; elapsed = 90 }

abbrev cancels_none : Cancels
cancels_none = record { table = []; cancelled = λ n. false }

abbrev others : List Op
others = begins (codes "b") 2 ∷ cancels (codes "b") ∷ ends (codes "b") ∷ []

cancel-begin-shared_example :
    let t =
      apply_all (begin_download (begin_download cancels_none (codes "a") 0) (codes "a") 1) others in
    ((cancel_download t (codes "a")).cancelled 1 ≡ true)
    × ((cancel_download t (codes "a")).cancelled 0 ≡ t.cancelled 0)
    × (cancel_download (end_download t (codes "a")) (codes "a") ≡ end_download t (codes "a"))
unfolding id_of str_eq
cancel-begin-shared_example =
    cancel-begin-shared cancels_none (codes "a") 0 1 others refl refl (refl, (refl, (refl, tt)))

abbrev config : Config
config = record {
  inbounds = codes "tun" ∷ [];
  apps = codes "xray.app.dns.Config" ∷ codes "xray.app.log.Config" ∷ [];
}

-- A session whose handler stands in front of the log of the instance 0.
abbrev in_session : World
in_session = record fresh {
  next_instance = 1;
  active_log = some behind;
  registered = some (skipi behind);
}

measure_outbound_delay-Leaves_example :
    Leaves good in_session
      (measure_outbound_delay in_session good (false, done 80) (false, no_response)).0
measure_outbound_delay-Leaves_example =
    measure_outbound_delay-Leaves in_session good (false, done 80) (false, no_response)

-- With an instance that is made the session's handler is registered, and with one that is not, the
-- log that it left.
owner_test :
    let after =
      λ (r : Reply). (measure_outbound_delay in_session r (false, done 80) (false, done 80)).0 in
    ((after good).registered ≡ some (skipi behind))
    × ((after (record good { creates = false })).registered ≡ some (xray 1))
unfolding measure_outbound_delay start_test_instance register_new restore_connection_log restored
    new_instance close_instance
owner_test = (refl, refl)
