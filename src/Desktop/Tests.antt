-- ===== src/Desktop/Tests.antt =====
-- The theorems on the C interface at concrete calls.
use skipi_core.Base.{◌≡◌, refl, true, Option, none, some, List, [], ◌∷◌, Text, codes, str_eq, pos}
use skipi_core.Bridge.{controller_locked, new_runtime}
use skipi_core.Bridge.Tests.{process}
use skipi_core.Runner.{new_machine}
use skipi_core.Tunnel.{Plan, plan_settings, check_interface_name, is_user_name, sort_all}
use skipi_core.Tunnel.Session.{open_session, attach, wait_activated}
use skipi_core.Tunnel.Host.{new_host, open_host, prepare_locked}
use skipi_core.Tunnel.Tests.{some_prefixes, plan, agreeable}
use skipi_core.Desktop.{
  required_c_string, Desktop, Fault, null_argument, blank_argument, of_bridge, of_tunnel, of_runner,
  port_not_positive, Texts, number, error_text,
}
use skipi_core.Desktop.Exports.{
  is_controller_running, tun_open, tun_prepare, create, Call, creates, asks, opens_tun,
  prepares_tun, step, run, last_error,
}
use skipi_core.Desktop.Exports.Calls.{parts, replay, run-replay}

described : Fault → Text
described (null_argument field) = codes "must not be NULL"
described (blank_argument field) = codes "must not be blank"
described (of_bridge e) = codes "bridge"
described (of_tunnel e) = codes "tunnel"
described (of_runner e) = codes "runner"
described port_not_positive = codes "port"

abbrev words : Texts
words = record {
  describe = described;
  panic_error = λ t. t;
  traffic = λ s. codes "{}";
  connections = λ s. codes "{}";
}

abbrev new_desktop : Desktop
new_desktop = record { message = []; process = process; machine = new_machine; tunnel = new_host }

read_plan : Text → Option Plan
read_plan t = some plan

abbrev session : List Call
session =
    creates
    ∷ prepares_tun true none
    ∷ opens_tun read_plan agreeable true (some (codes "plan"))
    ∷ asks 7
    ∷ []

run-replay_example : parts (run words new_desktop session) ≡ replay (parts new_desktop) session
run-replay_example = run-replay words new_desktop session

-- A name that is NULL is refused, and a tunnel is opened and its descriptor returned.
reports_test :
    ((step words new_desktop (prepares_tun true none)).1
      ≡ error_text (some (codes "must not be NULL")))
    × ((step words new_desktop (opens_tun read_plan agreeable true (some (codes "plan")))).1
        ≡ number (pos 12))
    × (last_error (run words new_desktop session) ≡ codes "bridge")
unfolding step described read_plan last_error run some_prefixes create required_c_string
    is_controller_running tun_open tun_prepare open_host open_session plan_settings
    check_interface_name is_user_name sort_all str_eq attach wait_activated prepare_locked new_host
    controller_locked new_runtime
reports_test = (refl, refl, refl)
