-- ===== src/Env.antt =====
-- What the device and its channels meet outside: the protocol library, the socket, the clocks, and
-- the program's callbacks. Each answer is a function of the trace, which is all that has happened,
-- the latest first; so an answer may change from call to call, and nothing is assumed of it.
use libsupla.Prelude.{ℕ, Bool, Option, Bytes, List}
use libsupla.Prelude.Int.{ℤ}
use libsupla.Channel.{Channel}
use libsupla.Wire.{Call, Message, NewValue, ChannelState, CalcfgRequest, WireConfig, LocalTime}

-- `supla_dev_state_t`
pub data DevState : Type 0 where
  config idle init connected registered online : DevState

-- What the library does that others can see: calls into the protocol library and the socket,
-- callbacks of the program, and the reading of the clocks that begins a round.
pub data Event : Type 0 where
  called : Call → Event
  state_changed : DevState → Event
  disconnected : Event
  connecting : Bytes → ℤ → ℕ → Event
  input_polled : Event
  clock_read : Event
  output_flushed : Event
  restart_requested : Event
  time_offered : LocalTime → Event
  channel_called_back : ℤ → Event

abbrev pub Trace : Type 0
Trace = List Event

-- The first half of `srpc_iterate`: it fails, or finds nothing, or receives one call, which
-- `srpc_getdata` can decode (`some`) or not (`none`).
pub data Input : Type 0 where
  failed nothing : Input
  received : Option Message → Input

pub record Env : Type 0 where
  -- the result of an `srpc_…_async_…` call: 0, or the new request's id
  pub call_result : Trace → Call → ℤ
  -- whether the protocol version in use has the registration call
  pub register_allowed : Trace → Bool
  -- the seconds of `gettimeofday` and `time`
  pub now : Trace → ℤ
  -- `supla_time_getmonotonictime_milliseconds`
  pub monotonic_ms : Trace → ℕ
  pub cloud_connect : Trace → ℤ
  -- the two halves of `srpc_iterate`, before and after the received call is handled
  pub input : Trace → Input
  pub output : Trace → Bool
  -- callbacks of the device
  pub on_get_channel_state : Trace → ChannelState → ChannelState
  pub on_server_time_sync : Trace → LocalTime → ℤ
  -- callbacks of a channel, which may change the channel
  pub on_channel_init : Trace → Channel → Channel
  pub on_set_value : Trace → Channel → NewValue → Channel × ℤ
  pub on_get_state : Trace → Channel → ChannelState → Channel × ChannelState
  pub on_calcfg_req : Trace → Channel → CalcfgRequest → Channel × ℤ
  pub on_config_recv : Trace → Channel → WireConfig → Channel
  pub on_config_set : Trace → Channel → WireConfig → Channel × WireConfig
  -- the channel that the program's pointer variable at an address holds
  pub holds : ℕ → Option Channel
  -- what an uninitialised local variable holds
  pub stack : Trace → ℤ
  -- the same for a local variable's unsigned size and for its array of bytes
  pub stack_size : Trace → ℕ
  pub stack_bytes : Trace → Bytes
