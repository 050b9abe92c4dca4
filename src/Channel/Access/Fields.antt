-- ===== src/Channel/Access/Fields.antt =====
-- The readers and setters of a channel's fields agree.
use libsupla.Prelude.{ℕ, ◌≡◌, refl, Option, some, Bytes, ◌==◌, false}
use libsupla.Prelude.Int.{ℤ}
use libsupla.Value.{result_true}
use libsupla.Channel.{Channel}
use libsupla.Channel.Create.{type_actiontrigger}
use libsupla.Channel.Access.{
  supla_channel_get_config, supla_channel_set_default_caption, supla_channel_set_default_icon,
  supla_channel_get_data, supla_channel_set_data, supla_channel_get_assigned_device,
  supla_channel_get_active_function, supla_channel_set_active_function,
}

-- What is set is read back: the caption and the icon in the configuration, the user's pointer, and,
-- on a channel that is no action trigger, the active function; a new function changes neither the
-- configuration nor the device that the channel is assigned to.
channel_fields_lem :
    (ch : Channel) (caption : Option Bytes) (icon p : ℕ) (f : ℤ)
    → (ch.config.type == type_actiontrigger) ≡ false
    → ((supla_channel_get_config (supla_channel_set_default_caption ch caption).0).0.default_caption
        ≡ caption)
      × ((supla_channel_get_config (supla_channel_set_default_icon ch icon).0).0.default_icon
          ≡ icon)
      × (supla_channel_get_data (supla_channel_set_data ch p).0 ≡ p)
      × (supla_channel_get_active_function (supla_channel_set_active_function ch f).0
          ≡ (f, result_true))
      × (supla_channel_get_config (supla_channel_set_active_function ch f).0
          ≡ supla_channel_get_config ch)
      × (supla_channel_get_assigned_device (some (supla_channel_set_active_function ch f).0)
          ≡ supla_channel_get_assigned_device (some ch))
unfolding supla_channel_get_config supla_channel_set_default_caption supla_channel_set_default_icon
    supla_channel_get_data supla_channel_set_data supla_channel_get_assigned_device
    supla_channel_get_active_function supla_channel_set_active_function
channel_fields_lem ch caption icon p f e = rw (e) (refl, refl, refl, refl, refl, refl)
