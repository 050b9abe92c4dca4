-- ===== src/Device/Register.antt =====
-- The registration of src/device.c: `get_channel_data_callback` and `supla_dev_register`. A result
-- of `none` is a fault: a failed assertion or a read through a null pointer.
pub mod Header
pub mod Collect
pub mod Missing
pub mod Race
pub mod Connection
pub mod Keeping
use libsupla.Prelude.{
  ℕ, zero, suc, ◌+◌, ◌%◌, Option, none, some, List, [], ◌∷◌, Bytes, replicate, strncpy,
  if◌then◌else◌,
}
use libsupla.Prelude.Int.{ℤ, pos}
use libsupla.Channel.{Channel}
use libsupla.Channel.Register.{DeviceChannel, supla_channel_to_register_struct}
use libsupla.Wire.{RegisterHeader, register_device}
use libsupla.Env.{Env}
use libsupla.Device.{Device, World, put_channel, supla_dev_get_channel_by_num, srpc_call}
use libsupla.Device.Channels.{supla_dev_get_channel_count}

-- The header: each field is copied as a C string into a cleared array.
unfoldable pub register_header : Device → RegisterHeader
unfolding strncpy supla_dev_get_channel_count
register_header dev = record {
  email = strncpy (replicate 256 0) dev.supla_config.email 256;
  auth_key = strncpy (replicate 16 0) dev.supla_config.auth_key 16;
  guid = strncpy (replicate 16 0) dev.supla_config.guid 16;
  name = strncpy (replicate 201 0) dev.name 201;
  soft_ver = strncpy (replicate 21 0) dev.soft_ver 21;
  server_name = strncpy (replicate 65 0) dev.supla_config.server 65;
  flags = dev.flags;
  manufacturer_id = dev.manufacturer_id;
  product_id = dev.product_id;
  channel_count = supla_dev_get_channel_count dev % 256;
}

-- One struct before those of the later calls.
pub cons_struct :
    DeviceChannel → Option (List DeviceChannel × World) → Option (List DeviceChannel × World)
cons_struct d none = none
cons_struct d (some (ds, w)) = some (d ∷ ds, w)

module _ (env : Env) where
  -- the struct of the channel found, and the device with that channel as the call left it
  pub data_of : World → Option (ℕ × Channel) → Option (DeviceChannel × World)
  data_of w none = none
  data_of w (some (i, ch)) = elim (supla_channel_to_register_struct env.holds ch) [
    | none ↦ none
    | some (d, ch') ↦ some (d, put_channel w i ch')
  ]

  -- `get_channel_data_callback`
  unfoldable pub get_channel_data_callback : World → ℤ → Option (DeviceChannel × World)
  unfolding data_of
  get_channel_data_callback w num = data_of w (supla_dev_get_channel_by_num w.dev num)

  -- The loop of the protocol library over the channels' numbers: `left` calls, from number i on.
  unfoldable pub collect : World → ℕ → ℕ → Option (List DeviceChannel × World)
  unfolding cons_struct
  collect w i zero = some ([], w)
  collect w i (suc left) = elim (get_channel_data_callback w (pos i)) [
    | none ↦ none
    | some (d, w') ↦ cons_struct d (collect w' (i + 1) left)
  ]

  -- The library writes the header and the channels, and returns its result.
  finish_register : RegisterHeader → Option (List DeviceChannel × World) → Option (World × ℤ)
  finish_register hdr none = none
  finish_register hdr (some (ds, w)) = some (srpc_call env w (register_device hdr ds))

  -- `supla_dev_register`; a protocol version without the call gives 0 before any channel is asked
  -- for.
  unfoldable pub supla_dev_register : World → Option (World × ℤ)
  unfolding finish_register
  supla_dev_register w =
      let w' = record w { dev = record w.dev { register_time = env.now w.trace } } in
      let hdr = register_header w.dev in
      if env.register_allowed w.trace
      then finish_register hdr (collect w' 0 hdr.channel_count)
      else some (w', pos 0)
