-- ===== src/Device/Tests.antt =====
-- Devices at concrete inputs.
use libsupla.Prelude.{
  ℕ, ◌≡◌, ◌≢◌, ◌↔◌, ◌≤◌, refl, true, none, some, [], ◌∷◌, arith, Bytes, length, replicate, c_string,
}
use libsupla.Prelude.Int.{pos, negsuc, ◌-ℤ◌}
use libsupla.Channel.Create.{kind}
use libsupla.Wire.{
  NewValue, StateRequest, CalcfgRequest, LocalTime, register_device_result, set_channel_result,
}
use libsupla.Env.{config, idle, init, connected, online}
use libsupla.Device.{World, supla_dev_get_channel_by_num}
use libsupla.Device.Access.{new_device}
use libsupla.Device.Channels.{supla_dev_add_channel}
use libsupla.Device.Channels.Numbering.{
  Added, supla_dev_add_channel_lem, get_channel_by_num-IsNumbered,
}
use libsupla.Device.Handlers.{
  supla_dev_on_set_channel_value, supla_dev_on_calcfg_request,
  supla_dev_on_get_user_localtime_result, cmd_enter_cfg_mode,
}
use libsupla.Device.Handlers.Messages.{dispatch}
use libsupla.Device.Handlers.Replies.{
  calls_of, supla_dev_on_set_channel_value-answers, supla_dev_on_calcfg_request-answers,
}
use libsupla.Device.Handlers.Clock.{supla_dev_on_get_user_localtime_result_lem}
use libsupla.Device.Handlers.Effects.{Dispatched, dispatch-Dispatched}
use libsupla.Device.Notify.{notification, title_and_body_size}
use libsupla.Device.Notify.Sizes.{notification-fits}
use libsupla.Device.Register.{register_header, supla_dev_register}
use libsupla.Device.Register.Header.{ZeroPadded, register_header-keys}
use libsupla.Device.Register.Collect.{
  IsRegistrable, register_all, registered_by, supla_dev_register_lem,
}
use libsupla.Device.Channels.Race.{raced_first, raced_second}
use libsupla.Device.Register.Race.{raced-register}
use libsupla.Device.Tick.{supla_dev_iterate}
use libsupla.Device.Tick.Faults.{supla_dev_iterate-ne-none}
use libsupla.Samples.{thermometer, bare, world_in, calm, acceptance}

supla_dev_add_channel_lem_example :
    Added (world_in idle) (supla_dev_add_channel calm (world_in idle) thermometer)
supla_dev_add_channel_lem_example =
    (supla_dev_add_channel_lem calm (world_in idle) thermometer (λ tr ch. refl) (refl, tt)).0
      (omega arith)

get_channel_by_num-IsNumbered_example :
    supla_dev_get_channel_by_num (world_in idle).dev (pos 0) ≡ some (0, thermometer)
get_channel_by_num-IsNumbered_example =
    (get_channel_by_num-IsNumbered (world_in idle).dev 0 (refl, tt)).0 thermometer refl

abbrev new_value : NewValue
new_value = record { sender_id = pos 5; channel_number = 9; duration_ms = 0; value = replicate 8 0 }

supla_dev_on_set_channel_value-answers_example :
    (success : ℕ) × (calls_of
        (supla_dev_on_set_channel_value calm (world_in online) new_value).trace
      ≡ set_channel_result 9 (pos 5) success ∷ calls_of [])
    × (supla_dev_get_channel_by_num (world_in online).dev (pos 9) ≡ none → success ≡ 0)
supla_dev_on_set_channel_value-answers_example =
    supla_dev_on_set_channel_value-answers calm (world_in online) new_value

abbrev state_request : StateRequest
state_request = record { sender_id = pos 5; channel_number = 0 }

abbrev enter_config : CalcfgRequest
enter_config = record {
  sender_id = pos 5;
  channel_number = negsuc 0;
  command = cmd_enter_cfg_mode;
  super_user_authorized = 1;
  payload = [];
}

supla_dev_on_calcfg_request-answers_example :
    (supla_dev_on_calcfg_request calm (world_in online) enter_config).dev.state ≡ config
supla_dev_on_calcfg_request-answers_example =
    ((supla_dev_on_calcfg_request-answers calm (world_in online) enter_config).4 refl refl refl).1

abbrev noon : LocalTime
noon = record { year = 2024; month = 5; day = 1; hour = 12; min = 0; sec = 0 }

abbrev synchronised : World
synchronised = record {
  dev = record bare { on_server_time_sync = true; uptime = pos 60; connection_uptime = pos 50 };
  trace = [];
}

supla_dev_on_get_user_localtime_result_lem_example :
    let w' = supla_dev_on_get_user_localtime_result calm synchronised noon in
    calm.now w'.trace -ℤ w'.dev.init_time ≡ pos 60
supla_dev_on_get_user_localtime_result_lem_example =
    (supla_dev_on_get_user_localtime_result_lem calm synchronised noon refl refl).0

dispatch-Dispatched_example :
    Dispatched calm
      (world_in connected)
      (register_device_result acceptance)
      (dispatch calm (world_in connected) (register_device_result acceptance))
dispatch-Dispatched_example =
    dispatch-Dispatched calm (world_in connected) (register_device_result acceptance)

abbrev title : Bytes
title = replicate 101 65

notification-fits_example :
    (length (notification bare (negsuc 0) title (66 ∷ []) (pos 0)).title_and_body
      ≡ title_and_body_size)
    ↔ (101 ≤ 100)
unfolding new_device c_string
notification-fits_example =
    notification-fits bare (negsuc 0) title (66 ∷ []) (pos 0) refl refl (omega arith)

register_header-keys_example :
    (((register_header bare).guid ≡ bare.supla_config.guid) ↔ ZeroPadded bare.supla_config.guid)
    × (((register_header bare).auth_key ≡ bare.supla_config.auth_key)
        ↔ ZeroPadded bare.supla_config.auth_key)
unfolding new_device
register_header-keys_example = register_header-keys bare refl refl

thermometer-IsRegistrable : IsRegistrable thermometer
unfolding kind
thermometer-IsRegistrable =
    (record { value = refl; extvalue = refl; at = refl; sized = refl }, λ e. cc)

raced-register_example :
    let second = raced_second calm (world_in idle) thermometer thermometer in
    ((raced_first calm (world_in idle) thermometer thermometer).1 ≡ 1)
    × (second.1 ≡ 1)
    × (supla_dev_register calm second.0 ≡ none)
raced-register_example =
    raced-register calm (world_in idle) thermometer thermometer (refl, tt) (omega arith) refl refl
      refl

supla_dev_register_lem_example :
    supla_dev_register calm (world_in init)
    ≡ registered_by calm (world_in init) (register_all calm.holds (thermometer ∷ []))
supla_dev_register_lem_example =
    supla_dev_register_lem calm (world_in init) (refl, tt) (omega arith) refl

supla_dev_iterate-ne-none_example : supla_dev_iterate calm (world_in init) ≢ none
supla_dev_iterate-ne-none_example =
    supla_dev_iterate-ne-none calm (world_in init) (refl, tt) (omega arith)
      (thermometer-IsRegistrable, tt)
