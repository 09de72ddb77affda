-- ===== src/Runner/Making.antt =====
-- What amneziawg.go's `NewAmneziaWgRunner` comes to, lines 835-914.
use skipi_core.Base.{
  suc, ◌≡◌, refl, ◌⊎◌, inl, inr, Bool, true, false, ◌&&◌, Option, none, some, Bool-cases,
  Option-cases, ℤ, pos, Text, List,
}
use skipi_core.Socks.Associate.{NetAddr}
use skipi_core.Awg.Build.{build_ipc_config}
use skipi_core.Runner.{
  TunnelConfig, Runner, Machine, Answers, Refusal, no_tun, no_ipc_config, ipc_refused, close_device,
  Made, made, refused, Prepared, ready, unfit, prepare, configured_device, new_runner,
  local_addresses, positive_or,
}

ipc_accepted : Answers → Option Text → Bool
ipc_accepted a none = false
ipc_accepted a (some text) = a.ipc_set text

fits : Answers → TunnelConfig → Prepared → Bool
unfolding ipc_accepted
fits a c (unfit e) = false
fits a c (ready s dns) =
    a.creates_tun (local_addresses a.netip c.address) dns (positive_or c.mtu (pos 1420))
    && ipc_accepted a (build_ipc_config a.codecs s)

-- Whether there is a device for the settings: they are valid and resolve, the tunnel is created,
-- and the device accepts the text of its configuration.
unfoldable pub configures : Answers → TunnelConfig → Bool
unfolding fits
configures a c = fits a c (prepare a c)

-- A runner that does not run yet, with a device of its own.
abbrev pub fresh_runner : List NetAddr → ℤ → Machine → Runner
fresh_runner locals port h = record {
  tun = some h.devices;
  dev = some h.devices;
  local_addrs = locals;
  listener = none;
  socks_port = port;
  running = false;
  cancel = none;
  protector = h.socket_protector;
}

abbrev pub with_device : Machine → Machine
with_device h = record h { devices = suc h.devices }

-- Without a runner, the device was not made, or was closed again.
abbrev pub IsUndone : Machine → Machine → Type 0
IsUndone h g = (g ≡ h) ⊎ (g ≡ close_device h.devices (with_device h))

-- The two outcomes, with whether the settings fit.
unfoldable pub IsOutcome : Answers → TunnelConfig → ℤ → Machine → Made → Type 0
IsOutcome a c port h m =
    ((g : Machine) × (e : Refusal) × (m ≡ refused g e) × IsUndone h g × (configures a c ≡ false))
    ⊎ ((m
          ≡ made (with_device h)
              (fresh_runner (local_addresses a.netip c.address) (positive_or port (pos 10809)) h))
        × (configures a c ≡ true))

pub new_runner-IsOutcome :
    (a : Answers) (c : TunnelConfig) (port : ℤ) (h : Machine)
    → IsOutcome a c port h (new_runner a c port h)
unfolding new_runner configured_device configures fits ipc_accepted IsOutcome
new_runner-IsOutcome a c port h = go (prepare a c) refl
  where
    go : (p : Prepared) → prepare a c ≡ p → IsOutcome a c port h (new_runner a c port h)
    go (unfit e) q = inl (h, e, simp (q, new_runner) refl, inl refl, rw (q, configures) refl)
    go (ready s dns) q =
        elim (Bool-cases
          (a.creates_tun (local_addresses a.netip c.address) dns (positive_or c.mtu (pos 1420)))) [
            | inr t ↦
                inl (h, no_tun, simp (q, t, new_runner) refl, inl refl, rw (q, configures, t) refl)
            | inl t ↦ elim (Option-cases (build_ipc_config a.codecs s)) [
              | inl b ↦ inl (
                _,
                no_ipc_config,
                simp (q, t, b, new_runner, configured_device) refl,
                inr refl,
                rw (q, configures, t, b) refl,
              )
              | inr (x, b) ↦ elim (Bool-cases (a.ipc_set x)) [
                | inr i ↦ inl (
                  _,
                  ipc_refused,
                  simp (q, t, b, i, new_runner, configured_device) refl,
                  inr refl,
                  rw (q, configures, t, b) i,
                )
                | inl i ↦ inr (
                  simp (q, t, b, i, new_runner, configured_device) refl,
                  rw (q, configures, t, b) i,
                )
              ]
            ]
          ]
