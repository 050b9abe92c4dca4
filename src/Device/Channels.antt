-- ===== src/Device/Channels.antt =====
-- The functions of src/device.c on the list of channels.
pub mod Numbering
pub mod Keeping
pub mod Fit
pub mod Race
use libsupla.Prelude.{
  ℕ, suc, ◌+◌, Option, none, some, List, [], ◌∷◌, ◌++◌, length, leb, if◌then◌else◌, map,
}
use libsupla.Prelude.Int.{ℤ, pos}
use libsupla.Value.{result_true, result_false}
use libsupla.Channel.{Channel}
use libsupla.Channel.Create.{Block, supla_channel_free}
use libsupla.Env.{Env, Trace, channel_called_back, disconnected}
use libsupla.Device.{Device, World, emit, put_channel}

-- SUPLA_CHANNELMAXCOUNT
abbrev pub channelmaxcount : ℕ
channelmaxcount = 128

-- `supla_dev_get_channel_count`
unfoldable pub supla_dev_get_channel_count : Device → ℕ
supla_dev_get_channel_count dev = length dev.channels

-- The channel as it enters the device: its owner and its number.
abbrev pub assigned : Device → Channel → Channel
assigned dev ch = record ch { dev = dev.self; number = pos (supla_dev_get_channel_count dev) }

-- The queue links through the channel itself. A channel that is added a second time would close the
-- queue to a ring; the list of values has no such runs, so they are outside the model.
abbrev pub insert_tail : Device → Channel → Device
insert_tail dev ch = record dev { channels = dev.channels ++ (ch ∷ []) }

-- The call of `on_channel_init`, after the locks are released.
pub channel_init : Env → World → ℕ → Channel → World
channel_init env w i ch =
    if ch.config.on_channel_init
    then put_channel (emit w (channel_called_back ch.number)) i (env.on_channel_init w.trace ch)
    else w

-- `supla_dev_add_channel`
unfoldable pub supla_dev_add_channel : Env → World → Channel → World × ℕ
unfolding channel_init supla_dev_get_channel_count
supla_dev_add_channel env w ch =
    let count = supla_dev_get_channel_count w.dev in
    if leb channelmaxcount (count + 1)
    then (w, result_false)
    else (let ch' = assigned w.dev ch in
        (channel_init env (record w { dev = insert_tail w.dev ch' }) count ch', result_true))

-- `supla_dev_free`: the link is closed, and the blocks of each channel are freed in turn, the first
-- channel first. (The blocks of the protocol library and of the device follow.)
unfoldable pub supla_dev_free : World → World × List (List Block)
supla_dev_free w = (
  emit (record w { dev = record w.dev { channels = [] } }) disconnected,
  map supla_channel_free w.dev.channels,
)
