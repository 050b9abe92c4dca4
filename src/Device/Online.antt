-- ===== src/Device/Online.antt =====
-- What src/device.c does once it is registered: the requests after registration, the ping, and the
-- transmission of channel data.

pub mod Effects
pub mod Keeping
pub mod Calls
pub mod Requests
pub mod Alive
pub mod Delivery
use libsupla.Prelude.{
  ℕ, ◌+◌, ◌%◌, Bool, true, false, Option, none, some, List, [], ◌∷◌, Bytes, ◌==◌, if◌then◌else◌,
  replicate, strncpy, strlen, not,
}
use libsupla.Prelude.Int.{ℤ, pos, negsuc, ◌+ℤ◌, ◌-ℤ◌, eqb_ℤ, leb_ℤ, u8}
use libsupla.Channel.{Channel}
use libsupla.Channel.Sync.{supla_channel_sync}
use libsupla.Wire.{
  WireConfig, ping_server, get_user_localtime, set_channel_caption, get_channel_functions,
  get_channel_config, push_channel_config, register_push_notification,
}
use libsupla.Env.{Env, Trace, called, channel_called_back}
use libsupla.Device.{Device, World, srpc_send, emit}

-- SUPLA_CONFIG_TYPE_WEEKLY_SCHEDULE, SUPLA_CONFIG_TYPE_ALT_WEEKLY_SCHEDULE
abbrev pub weekly_schedule : ℕ
weekly_schedule = 2

abbrev pub alt_weekly_schedule : ℕ
alt_weekly_schedule = 3

-- SUPLA_CAPTION_MAXSIZE
abbrev pub caption_maxsize : ℕ
caption_maxsize = 401

-- One channel's caption: the request that is sent, `caption` being the array of the request so far.
caption_request : ℤ → Option Bytes → Bytes → Trace → Bytes × Trace
caption_request number none caption tr = (caption, tr)
caption_request number (some text) caption tr =
    let caption' = strncpy caption text 400 in
    (caption', called (set_channel_caption (u8 number) caption' (strlen caption' + 1)) ∷ tr)

-- The loop of `supla_dev_set_channel_captions`; one request serves all rounds.
pub captions_loop : List Channel → Bytes → Trace → Trace
unfolding caption_request
captions_loop [] caption tr = tr
captions_loop (ch ∷ chs) caption tr =
    let (caption', tr') = caption_request ch.number ch.config.default_caption caption tr in
    captions_loop chs caption' tr'

-- `supla_dev_set_channel_captions`
unfoldable pub supla_dev_set_channel_captions : World → World
unfolding captions_loop
supla_dev_set_channel_captions w = record w {
  trace = captions_loop w.dev.channels (replicate caption_maxsize 0) w.trace;
}

-- The loop of `supla_dev_register_push_notifications`.
pub push_loop : List Channel → Trace → Trace
push_loop [] tr = tr
push_loop (ch ∷ chs) tr = push_loop chs (
    if ch.config.push_notification.enabled == 0
    then tr
    else called
        (register_push_notification ch.number ch.config.push_notification.srv_managed_fields)
      ∷ tr)

-- `supla_dev_register_push_notifications`; the device's context is -1.
unfoldable pub supla_dev_register_push_notifications : World → World
unfolding push_loop
supla_dev_register_push_notifications w =
    let push = w.dev.push_notification in
    let tr =
      if push.enabled == 0
      then w.trace
      else called (register_push_notification (negsuc 0) push.srv_managed_fields) ∷ w.trace in
    record w { trace = push_loop w.dev.channels tr }

module _ (env : Env) where
  -- `supla_dev_time_sync`
  unfoldable pub supla_dev_time_sync : World → World
  supla_dev_time_sync w =
      if w.dev.on_server_time_sync then srpc_send env w get_user_localtime else w

  -- `supla_dev_get_channel_functions`
  unfoldable pub supla_dev_get_channel_functions : World → World
  supla_dev_get_channel_functions w = srpc_send env w get_channel_functions

  -- the two requests for the schedules
  schedule_requests : Channel → Trace → Trace
  schedule_requests ch tr =
      if ch.config.on_sched_recv
      then called (get_channel_config (u8 ch.number) alt_weekly_schedule)
        ∷ called (get_channel_config (u8 ch.number) weekly_schedule)
        ∷ tr
      else tr

  -- The call of `on_config_set` and the configuration that goes out. `set_req` is one variable for
  -- the whole loop: it starts cleared, and only the callbacks write it.
  config_request : Channel → WireConfig → Trace → Channel × WireConfig × Trace
  config_request ch set_req tr =
      if ch.config.on_config_set
      then (let (ch', set_req') = env.on_config_set tr ch set_req in
          (
            ch',
            set_req',
            called (push_channel_config set_req') ∷ channel_called_back ch.number ∷ tr,
          ))
      else (ch, set_req, tr)

  -- The loop of `supla_dev_sync_channel_configurations`.
  pub configs_loop : List Channel → WireConfig → Trace → List Channel × Trace
  unfolding schedule_requests config_request
  configs_loop [] set_req tr = ([], tr)
  configs_loop (ch ∷ chs) set_req tr =
      let (ch', set_req', tr') = config_request ch set_req (schedule_requests ch tr) in
      let (chs', tr'') = configs_loop chs set_req' tr' in (ch' ∷ chs', tr'')

  -- `supla_dev_sync_channel_configurations`
  unfoldable pub supla_dev_sync_channel_configurations : World → World
  unfolding configs_loop
  supla_dev_sync_channel_configurations w =
      let cleared : WireConfig = record {
        channel_number = 0;
        func = pos 0;
        config_type = 0;
        config = [];
      } in
      let (chs, tr) = configs_loop w.dev.channels cleared w.trace in
      record w { dev = record w.dev { channels = chs }; trace = tr }

  -- the loop of `supla_dev_sync_channels_data`
  sync_loop : List Channel → Trace → List Channel × Trace
  sync_loop [] tr = ([], tr)
  sync_loop (ch ∷ chs) tr =
      let (ch', tr') = supla_channel_sync env ch tr in
      let (chs', tr'') = sync_loop chs tr' in (ch' ∷ chs', tr'')

  -- `supla_dev_sync_channels_data`
  unfoldable pub supla_dev_sync_channels_data : World → World
  unfolding sync_loop
  supla_dev_sync_channels_data w =
      let (chs, tr) = sync_loop w.dev.channels w.trace in
      record w { dev = record w.dev { channels = chs }; trace = tr }

  -- The first half of the ping: a request when five seconds are left of the timeout.
  ping_if_due : World → ℤ → World
  ping_if_due w now =
      if leb_ℤ (w.dev.activity_timeout -ℤ pos 5) (now -ℤ w.dev.last_ping)
      then (let w' = srpc_send env w ping_server in
          record w' { dev = record w'.dev { last_ping = env.now w'.trace } })
      else w

  -- `supla_connection_ping`; `false` is a timeout.
  unfoldable pub supla_connection_ping : World → World × Bool
  unfolding ping_if_due
  supla_connection_ping w =
      if eqb_ℤ w.dev.activity_timeout (pos 0)
      then (w, true)
      else (let now = env.now w.trace in
          let w' = ping_if_due w now in
          (w', not (leb_ℤ (w'.dev.activity_timeout +ℤ pos 10) (now -ℤ w'.dev.last_resp))))
