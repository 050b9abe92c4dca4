-- ===== src/Samples.antt =====
-- An environment, channels and a device, for the tests of the modules.
use libsupla.Prelude.{if◌then◌else◌, ◌+◌, ◌*◌, true, false, none, some, [], ◌∷◌, length, replicate}
use libsupla.Prelude.Int.{ℤ, pos, negsuc}
use libsupla.Value.{SuplaValue}
use libsupla.ActionTrigger.{SuplaActionTrigger}
use libsupla.Channel.{Channel, ChannelConfig}
use libsupla.Env.{Env, Input, DevState, nothing, received}
use libsupla.Wire.{RegisterResult, register_device_result}
use libsupla.Port.{is_live}
use libsupla.Port.Ssl.{SocketLibrary}
use libsupla.Device.{Device, World}
use libsupla.Device.Access.{new_device}

-- The protocol library takes every call, the clocks advance with the trace, the callbacks do
-- nothing; the connection's result and the input are given.
abbrev pub scripted : ℤ → Input → Env
scripted connection input = record {
  call_result = λ tr c. pos 1;
  register_allowed = λ tr. true;
  now = λ tr. pos (1000 + length tr);
  monotonic_ms = λ tr. 5000 + 100 * length tr;
  cloud_connect = λ tr. connection;
  input = λ tr. input;
  output = λ tr. true;
  on_get_channel_state = λ tr st. st;
  on_server_time_sync = λ tr lt. pos 0;
  on_channel_init = λ tr ch. ch;
  on_set_value = λ tr ch nv. (ch, pos 1);
  on_get_state = λ tr ch st. (ch, st);
  on_calcfg_req = λ tr ch req. (ch, pos 0);
  on_config_recv = λ tr ch cfg. ch;
  on_config_set = λ tr ch cfg. (ch, cfg);
  holds = λ a. none;
  stack = λ tr. pos 77;
  stack_size = λ tr. 4;
  stack_bytes = λ tr. replicate 128 7;
}

-- A thermometer, with callbacks for its values and its state.
abbrev pub thermometer_config : ChannelConfig
thermometer_config = record {
  type = 3034;
  supported_functions = 0;
  action_trigger_conflicts = 1;
  action_trigger_related_channel = none;
  default_function = pos 40;
  flags = 0;
  offline = 0;
  value_validity_time = 0;
  default_icon = 0;
  subdevice_id = 0;
  default_caption = none;
  push_notification = record { enabled = 0; srv_managed_fields = 0 };
  on_channel_init = false;
  on_set_value = true;
  on_get_state = true;
  on_calcfg_req = false;
  on_config_set = false;
  on_config_recv = false;
  on_sched_recv = false;
  user_data = 0;
}

-- Its value waits for transmission.
abbrev pub thermometer_value : SuplaValue
thermometer_value = record { sync = 0; sync_onchange = 1; value = 9 ∷ replicate 7 0 }

abbrev pub thermometer : Channel
thermometer = record {
  config = thermometer_config;
  lock = true;
  dev = 0;
  number = pos 0;
  active_function = pos 40;
  supla_val = some thermometer_value;
  supla_extval = none;
  action_trigger = none;
}

abbrev pub blank_trigger : SuplaActionTrigger
blank_trigger = record {
  sync = 0;
  properties = record { related_channel_number = 0; disables_local_operation = 0 };
  at = record { channel_number = 0; action_trigger = pos 0 };
}

-- A new device, and the same with the thermometer in a given state.
abbrev pub bare : Device
bare = new_device 1 none none (108 ∷ []) (pos 900)

abbrev pub world_in : DevState → World
world_in s = record { dev = record bare { state = s; channels = thermometer ∷ [] }; trace = [] }

abbrev pub calm : Env
calm = scripted (pos 1) nothing

abbrev pub refusing : Env
refusing = scripted (pos 0) nothing

abbrev pub acceptance : RegisterResult
acceptance = record { result_code = 3; activity_timeout = 120; version = 23; version_min = 1 }

abbrev pub accepting : Env
accepting = scripted (pos 1) (received (some (register_device_result acceptance)))

-- A library of sockets that has one block, and a server that does not answer.
abbrev pub silent : SocketLibrary
silent = record {
  client_init = λ tr host port ssl. if is_live tr 9 then none else some 9;
  client_connect = λ tr l ms. pos 0;
  socket_write = λ tr l buf. pos 0;
  socket_read = λ tr l count. ([], negsuc 0);
}
