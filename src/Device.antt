-- ===== src/Device.antt =====
-- src/device-priv.h: the state of a device, and the primitive steps that the functions of
-- src/device.c are made of. The lock, which is recursive and held through each call, makes a public
-- function one step; where a function reads before it takes the lock, this is the call of a thread
-- that is alone (Channels.Race has two). `Trace` keeps what the outside sees, the latest first.
pub mod Access
pub mod Connection
pub mod Announcements
pub mod Channels
pub mod Handlers
pub mod Notify
pub mod Register
pub mod Online
pub mod Tick
mod Tests
use libsupla.Prelude.{
  ℕ, suc, ◌+◌, Bool, Option, none, some, List, [], ◌∷◌, Bytes, ◌==◌, if◌then◌else◌, set,
}
use libsupla.Prelude.Int.{ℤ, eqb_ℤ}
use libsupla.Channel.{Channel, PushConfig}
use libsupla.Wire.{Call}
use libsupla.Env.{
  Env, Trace, Event, DevState, called, state_changed, config, idle, init, connected, registered,
  online,
}

-- `struct supla_config`
pub record SuplaConfig : Type 0 where
  pub guid : Bytes
  pub auth_key : Bytes
  pub email : Bytes
  pub server : Bytes
  pub port : ℤ
  pub ssl : ℕ

-- `struct supla_dev`. A callback is a flag that says whether it is set; a `struct timeval` is its
-- seconds, which are all that is read; `self` is the address of the device.
pub record Device : Type 0 where
  pub self : ℕ
  pub name : Bytes
  pub soft_ver : Bytes
  pub manufacturer_id : ℤ
  pub product_id : ℤ
  pub flags : ℕ
  pub state : DevState
  pub supla_config : SuplaConfig
  pub activity_timeout : ℤ
  pub on_state_change : Bool
  pub on_get_channel_state : Bool
  pub on_server_time_sync : Bool
  pub on_restart_from_server : Bool
  pub push_notification : PushConfig
  pub iterate_time_msec : ℕ
  pub wait_iterate_msec : ℕ
  pub init_time : ℤ
  pub register_time : ℤ
  pub last_ping : ℤ
  pub last_resp : ℤ
  pub uptime : ℤ
  pub connection_uptime : ℤ
  pub connection_reset_cause : ℕ
  pub channels : List Channel

-- The device, and what has happened so far.
pub record World : Type 0 where
  pub dev : Device
  pub trace : Trace

-- the numbers of the enumeration `supla_dev_state_t`
abbrev pub state_code : DevState → ℕ
state_code config = 0
state_code idle = 1
state_code init = 2
state_code connected = 3
state_code registered = 4
state_code online = 5

abbrev pub emit : World → Event → World
emit w e = record w { trace = e ∷ w.trace }

-- `supla_dev_set_state`
unfoldable pub supla_dev_set_state : World → DevState → World
supla_dev_set_state w new_state =
    if state_code w.dev.state == state_code new_state
    then w
    else (let w' = record w { dev = record w.dev { state = new_state } } in
        if w.dev.on_state_change then emit w' (state_changed new_state) else w')

-- `supla_dev_set_iterate_delay_msec`
abbrev pub supla_dev_set_iterate_delay_msec : World → ℕ → World
supla_dev_set_iterate_delay_msec w msec = record w {
  dev = record w.dev { wait_iterate_msec = msec };
}

-- `supla_dev_set_connection_reset_cause`
abbrev pub supla_dev_set_connection_reset_cause : World → ℕ → World
supla_dev_set_connection_reset_cause w cause = record w {
  dev = record w.dev { connection_reset_cause = cause };
}

-- A call into the protocol library, with its result.
abbrev pub srpc_call : Env → World → Call → World × ℤ
srpc_call env w c = (emit w (called c), env.call_result w.trace c)

-- The same where the code drops the result.
abbrev pub srpc_send : Env → World → Call → World
srpc_send env w c = emit w (called c)

abbrev pub put_channel : World → ℕ → Channel → World
put_channel w i ch = record w { dev = record w.dev { channels = set w.dev.channels i ch } }

-- The loop of `supla_dev_get_channel_by_num`, which runs through to the end: the last channel with
-- the number, with its place in the list for its address.
find_channel : List Channel → ℤ → ℕ → Option (ℕ × Channel) → Option (ℕ × Channel)
find_channel [] num i out = out
find_channel (ch ∷ chs) num i out =
    find_channel chs num (i + 1) (if eqb_ℤ ch.number num then some (i, ch) else out)

-- `supla_dev_get_channel_by_num`
unfoldable pub supla_dev_get_channel_by_num : Device → ℤ → Option (ℕ × Channel)
unfolding find_channel
supla_dev_get_channel_by_num dev num = find_channel dev.channels num 0 none
