-- ===== src/Device/Tick/Slot.antt =====
-- src/device.c and src/port/arch_unix.c, built with SSL, together: the connection of a device over
-- all its calls.
use libsupla.Prelude.{ℕ, ◌≡◌, ◌∙◌, refl, ap, some, false, Bool-cases, inl, inr, ◌==◌}
use libsupla.Port.{Host, is_live}
use libsupla.Port.Ssl.{SocketLibrary}
use libsupla.Port.Ssl.Reconnect.{IsOwned, replay, replay-nothing, replay-hangs_up, replay-redials}
use libsupla.Env.{Env, config, idle, init}
use libsupla.Device.{World, state_code}
use libsupla.Device.Access.{
  supla_dev_start, supla_dev_stop, supla_dev_enter_config_mode, supla_dev_exit_config_mode,
}
use libsupla.Device.Channels.{supla_dev_free}
use libsupla.Device.Connection.{link_calls}
use libsupla.Device.Tick.Connection.{Redials, links-set_state, supla_dev_iterate-Redials}
use libsupla.Device.Tick.Reach.{
  Step, Reach, created, then_does, starts, stops, enters_config, exits_config, edits, iterates,
}

-- The calls of a device so far have been carried out without a fault, and the link owns what they have left.
abbrev pub IsPlugged : SocketLibrary → World → Type 0
IsPlugged lib w = (h : Host) × (replay lib (link_calls w.trace) ≡ some h) × IsOwned h

module _ (env : Env) (lib : SocketLibrary) where
  IsPlugged-same :
      (w w' : World) → link_calls w'.trace ≡ link_calls w.trace → IsPlugged lib w → IsPlugged lib w'
  IsPlugged-same w w' e (h, f, own) = (h, ap (replay lib) e ∙ f, own)

  IsPlugged-Redials : (w w' : World) → Redials w w' → IsPlugged lib w → IsPlugged lib w'
  IsPlugged-Redials w w' (inl e) p = IsPlugged-same w w' e p
  IsPlugged-Redials w w' (inr (host, port, ssl, e)) (h, f, own) =
      let (h', g, own') = replay-redials lib (link_calls w.trace) h host port ssl f own in
      (h', ap (replay lib) e ∙ g, own')

  links-start : (w : World) → link_calls (supla_dev_start w).0.trace ≡ link_calls w.trace
  unfolding supla_dev_start
  links-start w = elim (Bool-cases (state_code w.dev.state == state_code idle)) [
    | inl b ↦ simp b (links-set_state w init)
    | inr b ↦ simp b refl
  ]

  links-exit : (w : World) → link_calls (supla_dev_exit_config_mode w).0.trace ≡ link_calls w.trace
  unfolding supla_dev_exit_config_mode
  links-exit w = elim (Bool-cases (state_code w.dev.state == state_code config)) [
    | inl b ↦ simp b (links-set_state w idle)
    | inr b ↦ simp b refl
  ]

  IsPlugged-Step : (w w' : World) → Step env w w' → IsPlugged lib w → IsPlugged lib w'
  unfolding supla_dev_stop supla_dev_enter_config_mode
  IsPlugged-Step _ _ (iterates w w' rc e) p =
      IsPlugged-Redials w w' (supla_dev_iterate-Redials env w (w', rc) e) p
  IsPlugged-Step _ _ (starts w) p = IsPlugged-same w (supla_dev_start w).0 (links-start w) p
  IsPlugged-Step _ _ (stops w) p = IsPlugged-same w (supla_dev_stop w).0 (links-set_state w idle) p
  IsPlugged-Step _ _ (enters_config w) p =
      IsPlugged-same w (supla_dev_enter_config_mode w).0 (links-set_state w config) p
  IsPlugged-Step _ _ (exits_config w) p =
      IsPlugged-same w (supla_dev_exit_config_mode w).0 (links-exit w) p
  IsPlugged-Step _ _ (edits w dev e) p = p

  -- Whatever calls have been made on a device since its creation, carrying out its calls of
  -- `supla_cloud_disconnect` and `supla_cloud_connect`, as built with SSL, frees no block twice and
  -- leaves nothing allocated but the socket in `cloud_link`.
  pub Reach-IsPlugged : (w : World) → Reach env w → IsPlugged lib w
  unfolding link_calls
  Reach-IsPlugged _ (created self name soft_ver default now) = replay-nothing lib
  Reach-IsPlugged _ (then_does w w' r s) = IsPlugged-Step w w' s (Reach-IsPlugged w r)

  -- After `supla_dev_free` of any such device, nothing that its connections allocated is left.
  pub free-releases :
      (w : World)
      → Reach env w
      → (h : Host) × (replay lib (link_calls (supla_dev_free w).0.trace) ≡ some h)
        × ((b : ℕ) → is_live h.trace b ≡ false)
  unfolding supla_dev_free link_calls
  free-releases w r =
      let (h, e, own) = Reach-IsPlugged w r in replay-hangs_up lib (link_calls w.trace) h e own
