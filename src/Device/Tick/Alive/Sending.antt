-- ===== src/Device/Tick/Alive/Sending.antt =====
-- What a round of src/device.c sends in ONLINE.
use libsupla.Prelude.{
  ◌≡◌, ◌∙◌, refl, sym, ap, some, true, false, List, [], ◌∷◌, ◌++◌, ℕ, ◌≤◌, ◌≢◌, ◌⊎◌, Bytes, take,
  length, memcpy, get_elem?,
}
use mathlib.Core.List.{reverse, reverse-append, reverse-cons, append_assoc}
use libsupla.Channel.Sync.Delivery.{waiting, value_call, waiting-value, Accepts}
use libsupla.Wire.{Call}
use libsupla.Value.{SuplaValue, channelvalue_size}
use libsupla.Value.Sync.{IsSized, supla_val_set_lem}
use libsupla.Channel.{Channel}
use libsupla.Channel.Values.{supla_channel_set_value}
use libsupla.Env.{Env, Trace, nothing, online, clock_read, input_polled}
use libsupla.Device.{World, emit, put_channel}
use libsupla.Device.Handlers.Replies.{calls_of}
use libsupla.Device.Online.{supla_connection_ping}
use libsupla.Device.Online.Alive.{is_silent, ping-channels}
use libsupla.Device.Online.Delivery.{
  all_waiting, all_waiting-set, ping_calls, calls_of-logged, trace-sync, trace-ping,
  none_waiting-sync,
}
use libsupla.Device.Tick.{is_waiting, after_input, supla_dev_iterate}
use libsupla.Device.Tick.Progress.{started}
use libsupla.Device.Tick.Alive.{served, synced, online_round}

module _ (env : Env) (w : World) (s : w.dev.state ≡ online)
    (free : is_waiting w.dev (env.monotonic_ms w.trace) ≡ false)
    (output : (tr : Trace) → env.output tr ≡ true) (silent : (tr : Trace) → env.input tr ≡ nothing)
    (heard : is_silent w (env.now (clock_read ∷ w.trace)) ≡ false) where
  -- the world at the end of the round
  round_end : World
  round_end = (after_input env (emit (synced env w s free) input_polled) nothing).0

  round_lem : supla_dev_iterate env w ≡ some (round_end, 0)
  unfolding round_end
  round_lem = online_round env w s free output silent heard

  calls_of-round :
      calls_of round_end.trace
      ≡ reverse (all_waiting w.dev.channels)
        ++ (reverse (ping_calls w (env.now (clock_read ∷ w.trace))) ++ calls_of w.trace)
  unfolding round_end after_input calls_of synced served started
  calls_of-round =
      let u = served env w s free in
      let v = (supla_connection_ping env u).0 in
      let sent = reverse (all_waiting w.dev.channels) in
      ap calls_of (trace-sync env v)
      ∙ calls_of-logged (all_waiting v.dev.channels) v.trace
      ∙ ap (λ chs. reverse (all_waiting chs) ++ calls_of v.trace) (ping-channels env u)
      ∙ ap (λ cs. sent ++ cs)
          (ap calls_of (trace-ping env u)
            ∙ calls_of-logged (ping_calls u (env.now u.trace)) u.trace)

  none_waiting-round : Accepts env → all_waiting round_end.dev.channels ≡ []
  unfolding round_end after_input synced
  none_waiting-round a = none_waiting-sync env a (supla_connection_ping env (served env w s free)).0

  -- A round in ONLINE with no delay under way, on a connection that takes all output and brings
  -- nothing, and whose server has not been silent for too long, returns 0. Its calls into the protocol
  -- library are the ping, if that is due, and then all that the channels wait to have sent, channel by
  -- channel.
  pub supla_dev_iterate-sends :
      (w' : World) × (supla_dev_iterate env w ≡ some (w', 0))
      × (calls_of w'.trace
          ≡ reverse (all_waiting w.dev.channels)
            ++ (reverse (ping_calls w (env.now (clock_read ∷ w.trace))) ++ calls_of w.trace))
  supla_dev_iterate-sends = (round_end, round_lem, calls_of-round)

-- The value waits once it is set: it did before, it is to be sent at every call, or its bytes change.
abbrev pub IsNews : SuplaValue → Bytes → ℕ → Type 0
IsNews sv value len =
    (sv.sync ≡ 0) ⊎ ((sv.sync_onchange ≡ 0) ⊎ (take len sv.value ≢ take len value))

waiting-set_value :
    (ch : Channel) (sv : SuplaValue) (value : Bytes) (len : ℕ)
    → ch.supla_val ≡ some sv
    → IsSized sv
    → len ≤ length value
    → len ≤ channelvalue_size
    → IsNews sv value len
    → (after : List Call) × (waiting (supla_channel_set_value ch value len).0
        ≡ value_call ch (memcpy sv.value value len) ∷ after)
unfolding supla_channel_set_value
waiting-set_value ch sv value len e sized readable fits news =
    let (out, f, st) = (supla_val_set_lem sv value len sized readable).0 fits in
    let z : out.sync ≡ 0 = st.pending news in
    let ch' = (supla_channel_set_value ch value len).0 in
    let g : ch'.supla_val ≡ some out = rw e (ap (λ x. x.0) f) in
    let (after, k) = waiting-value ch' out g z in
    (after, k ∙ ap (λ v. value_call ch v ∷ after) st.stored)

reverse_around :
    (first : List Call) (c : Call) (last tail : List Call)
    → reverse (first ++ (c ∷ last)) ++ tail ≡ reverse last ++ (c ∷ (reverse first ++ tail))
reverse_around first c last tail = simp (reverse-append, reverse-cons, append_assoc) refl

-- A value that is news is set on a channel of a device in ONLINE, as `supla_dev_iterate-sends` wants
-- it, and the protocol library takes every call, with an id whose low byte is not 0. Then the next
-- round sends the channel's value, with the bytes that were set, and nothing waits after it.
pub supla_channel_set_value-sends :
    (env : Env) (u : World) (i : ℕ) (ch : Channel) (sv : SuplaValue) (value : Bytes) (len : ℕ)
    → get_elem? u.dev.channels i ≡ some ch
    → ch.supla_val ≡ some sv
    → IsSized sv
    → len ≤ length value
    → len ≤ channelvalue_size
    → IsNews sv value len
    → u.dev.state ≡ online
    → is_waiting u.dev (env.monotonic_ms u.trace) ≡ false
    → ((tr : Trace) → env.output tr ≡ true)
    → ((tr : Trace) → env.input tr ≡ nothing)
    → is_silent u (env.now (clock_read ∷ u.trace)) ≡ false
    → Accepts env
    → (w' : World) × (before : List Call) × (after : List Call) × (supla_dev_iterate env
          (put_channel u i (supla_channel_set_value ch value len).0)
        ≡ some (w', 0))
      × (calls_of w'.trace
          ≡ after ++ (value_call ch (memcpy sv.value value len) ∷ (before ++ calls_of u.trace)))
      × (all_waiting w'.dev.channels ≡ [])
supla_channel_set_value-sends env u i ch sv value len at e sized readable fits news s free output
      silent heard a =
    let ch' = (supla_channel_set_value ch value len).0 in
    let w = put_channel u i ch' in
    let (rest, f) = waiting-set_value ch sv value len e sized readable fits news in
    let (first, last, g) = all_waiting-set u.dev.channels i ch ch' at in
    let c = value_call ch (memcpy sv.value value len) in
    let pings = reverse (ping_calls w (env.now (clock_read ∷ w.trace))) in
    (
      round_end env w s free output silent heard,
      reverse first ++ pings,
      reverse (rest ++ last),
      round_lem env w s free output silent heard,
      calls_of-round env w s free output silent heard
          ∙ ap (λ cs. reverse cs ++ (pings ++ calls_of u.trace))
              (g ∙ ap (λ cs. first ++ (cs ++ last)) f)
          ∙ reverse_around first c (rest ++ last) (pings ++ calls_of u.trace)
          ∙ ap (λ cs. reverse (rest ++ last) ++ (c ∷ cs))
              (sym (append_assoc (reverse first) pings (calls_of u.trace))),
      none_waiting-round env w s free output silent heard a,
    )
