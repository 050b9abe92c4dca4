-- ===== src/Device/Connection.antt =====
-- What the trace of a device says of its connection.
use libsupla.Prelude.{ℕ, List, [], ◌∷◌, Bytes}
use libsupla.Prelude.Int.{ℤ}
use libsupla.Env.{
  Trace, called, state_changed, disconnected, connecting, input_polled, clock_read, output_flushed,
  restart_requested, time_offered, channel_called_back,
}

-- A call of `supla_cloud_disconnect`, or of `supla_cloud_connect` with the server, the port and the
-- flag for SSL.
pub data LinkCall : Type 0 where
  hangs_up : LinkCall
  dials : Bytes → ℤ → ℕ → LinkCall

-- The calls of the trace, the latest first.
unfoldable pub link_calls : Trace → List LinkCall
link_calls [] = []
link_calls (disconnected ∷ tr) = hangs_up ∷ link_calls tr
link_calls (connecting host port ssl ∷ tr) = dials host port ssl ∷ link_calls tr
link_calls (input_polled ∷ tr) = link_calls tr
link_calls (called c ∷ tr) = link_calls tr
link_calls (state_changed s ∷ tr) = link_calls tr
link_calls (output_flushed ∷ tr) = link_calls tr
link_calls (clock_read ∷ tr) = link_calls tr
link_calls (restart_requested ∷ tr) = link_calls tr
link_calls (time_offered t ∷ tr) = link_calls tr
link_calls (channel_called_back n ∷ tr) = link_calls tr
