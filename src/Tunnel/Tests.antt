-- ===== src/Tunnel/Tests.antt =====
-- The theorems on desktop/nmtun and desktop/tunhost at concrete plans and answers.
use skipi_core.Base.{
  ℕ, ◌≤◌, ◌≡◌, refl, ◌⊎◌, true, false, none, some, List, [], ◌∷◌, ◌++◌, if◌then◌else◌, length, Text,
  codes, str_eq, is_digit, pos, lookup, Lacks, is_some,
}
use skipi_core.Socks.Associate.{v4, v6}
use skipi_core.Tunnel.{
  Plan, check_interface_name, is_user_name, Prefixes, text, flag, texts, Section, sorted, sort_all,
  settings_of, no_settings, sections, plan_settings, check_permissions, control_permission,
  modify_permission, bad_mtu,
}
use skipi_core.Tunnel.Plans.{families, accepts, is_settings, plan_settings-accepts}
use skipi_core.Tunnel.Sections.{value, plan_settings_safe}
use skipi_core.Tunnel.Session.{
  Open, absent, not_set, attached, state, SystemAnswers, attach, wait_activated, close,
  open_session,
}
use skipi_core.Tunnel.Session.Balance.{IsOutcome, open_session-IsOutcome}
use skipi_core.Tunnel.Host.{
  new_host, Call, prepares, opens, closes, run, is_prepared, open_host, close_host, prepare_locked,
  prepare_binding,
}
use skipi_core.Tunnel.Host.Binding.{IsSafe, new_host-IsSafe, run-IsSafe}

-- The texts of two IPv4 prefixes and an IPv6 one are read.
unfoldable pub some_prefixes : Prefixes
some_prefixes = record {
  parse = λ t.
      if◌then◌else◌ (str_eq t (codes "172.19.0.1/30"))
        (some (record { addr = v4 (172 ∷ 19 ∷ 0 ∷ 1 ∷ []); bits = 30 }))
        (if◌then◌else◌ (str_eq t (codes "0.0.0.0/1"))
          (some (record { addr = v4 (0 ∷ 0 ∷ 0 ∷ 0 ∷ []); bits = 1 }))
          (if◌then◌else◌ (str_eq t (codes "fd00::1/126"))
            (some (record {
              addr = v6 (253 ∷ 0 ∷ 0 ∷ 0 ∷ 0 ∷ 0 ∷ 0 ∷ 0 ∷ 0 ∷ 0 ∷ 0 ∷ 0 ∷ 0 ∷ 0 ∷ 0 ∷ 1 ∷ []);
              bits = 126;
            }))
            none));
  masked = λ p. p;
  string = λ a. codes "address";
}

abbrev pub plan : Plan
plan = record {
  name = codes "skipi0";
  mtu = pos 1500;
  addresses = codes "172.19.0.1/30" ∷ codes "fd00::1/126" ∷ [];
  routes = codes "0.0.0.0/1" ∷ [];
}

abbrev mistaken : Plan
mistaken = record plan { addresses = codes "172.19.0.1/30" ∷ codes "0.0.0.0/1" ∷ [] }

plan_settings-accepts_example :
    is_settings (plan_settings some_prefixes plan 1000 (codes "ann"))
    ≡ accepts some_prefixes plan (codes "ann")
plan_settings-accepts_example = plan_settings-accepts some_prefixes plan 1000 (codes "ann")

accepts_test :
    (accepts some_prefixes plan (codes "ann") ≡ true)
    × (accepts some_prefixes plan (codes "a b") ≡ false)
    × (accepts some_prefixes mistaken (codes "ann") ≡ false)
unfolding accepts check_interface_name is_user_name families some_prefixes str_eq
accepts_test = (refl, refl, refl)

abbrev four : List (Text × ℕ)
four = (codes "address", 30) ∷ []

abbrev six : List (Text × ℕ)
six = (codes "address", 126) ∷ []

abbrev halves : List (Text × ℕ)
halves = (codes "address", 1) ∷ []

abbrev made : List (Text × Section)
made = sections plan 1000 (codes "ann") four six (sorted halves [])

made_test : plan_settings some_prefixes plan 1000 (codes "ann") ≡ settings_of made
unfolding plan_settings check_interface_name is_user_name sort_all some_prefixes str_eq
made_test = refl

plan_settings_safe_example :
    (value (codes "ipv4") (codes "never-default") made ≡ some (flag true))
    × ((value (codes "ipv6") (codes "never-default") made ≡ some (flag true))
        ⊎ (lookup (codes "ipv6") made ≡ some ((codes "method", text (codes "ignore")) ∷ [])))
    × (value (codes "connection") (codes "permissions") made
        ≡ some (texts ((codes "user:" ++ codes "ann" ++ codes ":") ∷ [])))
    × Lacks b':' (codes "ann")
    × (value (codes "connection") (codes "interface-name") made ≡ some (text (codes "skipi0")))
    × (1 ≤ length (codes "skipi0"))
    × (length (codes "skipi0") ≤ 15)
    × Lacks b'/' (codes "skipi0")
    × Lacks b'.' (codes "skipi0")
plan_settings_safe_example = plan_settings_safe some_prefixes plan 1000 (codes "ann") made made_test

mtu_test :
    plan_settings some_prefixes (record plan { mtu = pos 1279 }) 1000 (codes "ann")
    ≡ no_settings bad_mtu
unfolding plan_settings check_interface_name is_digit
mtu_test = refl

-- Two polls until the device is there, a refused round, and the one that attaches.
abbrev pub agreeable : SystemAnswers
agreeable = record {
  account = some (some 1000, codes "ann");
  prefixes = some_prefixes;
  connects = true;
  authenticates = true;
  says_hello = true;
  activates = true;
  rounds = absent ∷ absent ∷ not_set ∷ attached 12 ∷ [];
  polls = state 1 ∷ state 2 ∷ [];
}

abbrev late : SystemAnswers
late = record agreeable { polls = state 1 ∷ state 1 ∷ [] }

abbrev untouched : Open
untouched = record { fds_opened = 0; fds_closed = 0; buses_opened = 0; buses_closed = 0 }

open_session-IsOutcome_example : IsOutcome untouched (open_session agreeable plan untouched)
open_session-IsOutcome_example = open_session-IsOutcome agreeable plan untouched

late_test :
    (open_session late plan untouched).0
    ≡ record { fds_opened = 2; fds_closed = 2; buses_opened = 1; buses_closed = 1 }
unfolding open_session plan_settings check_interface_name is_user_name sort_all some_prefixes str_eq
    attach wait_activated close
late_test = refl

permissions_test :
    (check_permissions ((control_permission, codes "yes") ∷ (modify_permission, codes "auth") ∷ [])
      ≡ some modify_permission)
    × (check_permissions ((modify_permission, codes "yes") ∷ (control_permission, codes "yes") ∷ [])
        ≡ none)
unfolding check_permissions control_permission modify_permission str_eq lookup
permissions_test = (refl, refl)

abbrev calls : List Call
calls =
    opens late true (some plan)
    ∷ prepares (codes "skipi0") true
    ∷ opens agreeable true (some plan)
    ∷ []

run-IsSafe_example : IsSafe (run new_host calls)
run-IsSafe_example = run-IsSafe new_host calls new_host-IsSafe

-- The late session takes its binding with it; the other one is open, and closing it leaves nothing.
run_test :
    (is_prepared (run new_host (opens late true (some plan) ∷ [])) ≡ false)
    × (is_some (run new_host calls).session ≡ true)
    × ((run new_host (calls ++ (closes ∷ []))).open_things
        ≡ record { fds_opened = 4; fds_closed = 4; buses_opened = 2; buses_closed = 2 })
unfolding run new_host open_session plan_settings check_interface_name is_user_name sort_all
    some_prefixes str_eq attach wait_activated close is_prepared open_host close_host
    prepare_binding prepare_locked
run_test = (refl, refl, refl)
