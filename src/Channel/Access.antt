-- ===== src/Channel/Access.antt =====
-- The functions of src/channel.c that read or set one field of a channel. A null channel is `none`
-- where the function allows it.
pub mod Fields
use libsupla.Prelude.{ℕ, Option, none, some, Bytes, ◌==◌, if◌then◌else◌}
use libsupla.Prelude.Int.{ℤ, negsuc}
use libsupla.Value.{result_false, result_true}
use libsupla.Channel.{Channel, ChannelConfig}
use libsupla.Channel.Create.{type_actiontrigger}

-- `supla_channel_get_config`
pub supla_channel_get_config : Channel → ChannelConfig × ℕ
supla_channel_get_config ch = (ch.config, result_true)

-- `supla_channel_set_default_caption`
unfoldable pub supla_channel_set_default_caption : Channel → Option Bytes → Channel × ℕ
supla_channel_set_default_caption ch caption =
    (record ch { config = record ch.config { default_caption = caption } }, result_true)

-- `supla_channel_set_default_icon`
unfoldable pub supla_channel_set_default_icon : Channel → ℕ → Channel × ℕ
supla_channel_set_default_icon ch icon =
    (record ch { config = record ch.config { default_icon = icon } }, result_true)

-- `supla_channel_get_data`
pub supla_channel_get_data : Channel → ℕ
supla_channel_get_data ch = ch.config.user_data

-- `supla_channel_set_data`
unfoldable pub supla_channel_set_data : Channel → ℕ → Channel × ℕ
supla_channel_set_data ch p = (record ch { config = record ch.config { user_data = p } }, p)

-- `supla_channel_get_assigned_device`
pub supla_channel_get_assigned_device : Option Channel → ℕ
supla_channel_get_assigned_device none = 0
supla_channel_get_assigned_device (some ch) = ch.dev

-- `supla_channel_get_assigned_number`
abbrev pub supla_channel_get_assigned_number : Option Channel → ℤ
supla_channel_get_assigned_number none = negsuc 0
supla_channel_get_assigned_number (some ch) = ch.number

-- `supla_channel_get_active_function`
pub supla_channel_get_active_function : Channel → ℤ × ℕ
supla_channel_get_active_function ch = (ch.active_function, result_true)

-- `supla_channel_set_active_function`
unfoldable pub supla_channel_set_active_function : Channel → ℤ → Channel × ℕ
supla_channel_set_active_function ch function =
    if ch.config.type == type_actiontrigger
    then (ch, result_false)
    else (record ch { active_function = function }, result_true)
