-- ===== src/Lib.antt =====
-- libsupla connects a device with the SUPLA home automation cloud. A program creates a device
-- (`supla_dev_t`) and channels (`supla_channel_t`), adds the channels to the device, and calls
-- `supla_dev_iterate` again and again; the device connects, registers its channels, answers the
-- server and transmits the channels' values. This library models that code and proves what it keeps.
--
-- Parts and files (paths from the repository's root):
-- * Prelude and its children: lists and bytes, the C library's memory functions, Boolean tests and
--   signed integers that the parts share.
-- * Value (src/supla-value.c), ExtValue (src/supla-extvalue.c), ActionTrigger
--   (src/supla-action-trigger.c): what a channel holds, with the flag that asks for a transmission.
--   The functions have the names of the source; a null pointer is `none`.
-- * Channel (src/channel-priv.h, include/libsupla/channel.h): the record of a channel. Its children
--   follow src/channel.c: Create (`supla_channel_create`, with a heap that may refuse each block, and
--   `supla_channel_free`), Access and Values (readers and setters), Register
--   (`supla_channel_to_register_struct`, where `none` is a read through a null pointer), Sync
--   (`supla_channel_sync`).
-- * Wire, the protocol structs that the device and the channels exchange with the protocol library,
--   the messages that come in and the calls that go out.
-- * Env, the environment as a record of functions of the trace, that is of all that has happened: the
--   results of the protocol library's calls, the connection, the clocks, what is received, and the
--   program's callbacks. A callback gives its answer and the channel as it leaves it; it makes no
--   calls of its own.
-- * Port (src/port): the operating system and the sockets of the protocol library as records of
--   functions, with the trace of what was allocated and opened. Its children are the connection of
--   src/port/arch_unix.c in its two builds, Socket (NOSSL) and Ssl, where `none` is a use of memory that
--   is not allocated, and Clock.
-- * Device (src/device-priv.h): the record of a device; a World is a device with the trace. The
--   children follow src/device.c: Access (creation, readers, setters, start and stop, configuration
--   mode), Channels (the list), Handlers and Handlers.Messages (the received calls), Register, Notify
--   (notifications), Online (the work after registration) and Tick (`supla_dev_iterate`, with the
--   switch on the state taken apart by case).
-- * Device.Announcements and Device.Tick.Informed: what the callback `on_state_change` tells the program.
-- * Locks (src/device.c and src/channel.c): for each function the operations on locks that it makes, in
--   order, with those of what it calls; Threads, any number of threads that call these functions of one
--   device, interleaved operation by operation. The locks are recursive. The
--   protocol library takes its own lock and gives it back within each call; it holds it while it asks
--   for the channels of a registration, and not while it hands a received message over.
-- * Samples, and the Tests beside the parts: concrete inputs.
--
-- The components interact through the World: a round of `supla_dev_iterate` serves the connection,
-- the handlers look channels up by number and put them back, and every call to the server, every
-- callback and every reading of the round's clocks is an event of the trace. The locks are held
-- through each public function, so each is one step, but for three that read before they lock:
-- `supla_dev_start` and `supla_dev_exit_config_mode`, taken as the calls of a thread that is alone,
-- and `supla_dev_add_channel`, which Channels.Race also takes in two steps, for two threads. Locks
-- has the locks alone, without what is done under them, for a device and channels that have all
-- been given their locks. A function of src/channel.c locks only its channel, so another thread may
-- set a channel's data in the middle of a round: Device takes such calls between rounds, and
-- Channel.Sync.View has the calls on one channel in any order. No loop needs fuel: all run over
-- lists or over the count of channels.
--
-- Numbers: bytes are natural numbers, lengths and times in milliseconds are natural numbers with the
-- wrap-around of 64-bit subtraction written out, `int`s that may be negative are ℤ. Conversions to
-- bytes wrap. A struct passed by pointer with its size is the list of its bytes.
--
-- Every function of src/device.c, src/channel.c, the three parts of a channel and
-- src/port/arch_unix.c has its definition. `supla_dev_iterate` is `none` for a fault of the
-- registration only; the faults of a connection are in Port, but for a null socket, which the
-- protocol library's connect reads through. Not modelled: such a run; a channel that is added
-- twice, which makes a ring of the C list; a pointer variable of the program that comes to hold
-- another related channel; src/supla-common, a copy of the SUPLA project's protocol library, whose
-- calls are parameters, as are the calls of the operating system; log texts; the example and the
-- tests; calls that a callback makes on the device or a channel in the midst of a round, but for
-- the locks they take. Device takes the result of a connection from Env, and not from Port: which
-- of the two builds serves it is left open. Device.Tick.Slot carries the calls of a device on its
-- link over to Port.Ssl, and Device.Tick.Use says what a program may call.
pub mod Prelude
pub mod Value
pub mod ExtValue
pub mod ActionTrigger
pub mod Channel
pub mod Wire
pub mod Env
pub mod Locks
pub mod Port
pub mod Device
pub mod Samples
