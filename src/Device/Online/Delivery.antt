-- ===== src/Device/Online/Delivery.antt =====
-- The transmission of channel data and the ping of src/device.c: which calls they make.
use libsupla.Prelude.{
  ℕ, zero, suc, ◌≡◌, ◌∙◌, refl, sym, ap, some, List, [], ◌∷◌, ◌++◌, arith, if◌then◌else◌, get_elem?,
  set,
}
use libsupla.Prelude.Int.{ℤ, pos, ◌-ℤ◌, eqb_ℤ, leb_ℤ}
use mathlib.Core.List.{append_assoc, reverse, reverse-cons}
use libsupla.Channel.{Channel}
use libsupla.Channel.Sync.{supla_channel_sync}
use libsupla.Channel.Sync.Delivery.{waiting, logged, Accepts, supla_channel_sync_lem}
use libsupla.Wire.{Call, ping_server}
use libsupla.Env.{Env, Trace, called}
use libsupla.Device.{World}
use libsupla.Device.Handlers.Replies.{calls_of}
use libsupla.Device.Online.{
  sync_loop, supla_dev_sync_channels_data, ping_if_due, supla_connection_ping,
}

-- What the channels of a device wait to have sent, in the order of the channels.
unfoldable pub all_waiting : List Channel → List Call
all_waiting [] = []
all_waiting (ch ∷ chs) = waiting ch ++ all_waiting chs

-- The ping that is due at a time.
abbrev pub ping_calls : World → ℤ → List Call
ping_calls w now =
    if eqb_ℤ w.dev.activity_timeout (pos 0)
    then []
    else if leb_ℤ (w.dev.activity_timeout -ℤ pos 5) (now -ℤ w.dev.last_ping)
    then ping_server ∷ []
    else []

logged-append : (xs ys : List Call) (tr : Trace) → logged (xs ++ ys) tr ≡ logged ys (logged xs tr)
unfolding logged
logged-append [] ys tr = refl
logged-append (x ∷ xs) ys tr = logged-append xs ys (called x ∷ tr)

-- The calls of a trace after some more.
pub calls_of-logged :
    (cs : List Call) (tr : Trace) → calls_of (logged cs tr) ≡ reverse cs ++ calls_of tr
unfolding logged calls_of
calls_of-logged [] tr = refl
calls_of-logged (c ∷ cs) tr =
    calls_of-logged cs (called c ∷ tr) ∙ simp (reverse-cons, append_assoc) refl

-- With another channel in its place, what waits has its data in it.
pub all_waiting-set :
    (chs : List Channel) (i : ℕ) (ch ch' : Channel)
    → get_elem? chs i ≡ some ch
    → (before : List Call) × (after : List Call) × (all_waiting (set chs i ch')
        ≡ before ++ (waiting ch' ++ after))
unfolding all_waiting
all_waiting-set [] i ch ch' e = cc
all_waiting-set (c ∷ chs) zero ch ch' e = ([], all_waiting chs, refl)
all_waiting-set (c ∷ chs) (suc i) ch ch' e =
    let (before, after, f) = all_waiting-set chs i ch ch' e in
    (
      waiting c ++ before,
      after,
      rw f (sym (append_assoc (waiting c) before (waiting ch' ++ after))),
    )

module _ (env : Env) where
  trace-sync_loop :
      (chs : List Channel) (tr : Trace) → (sync_loop env chs tr).1 ≡ logged (all_waiting chs) tr
  unfolding sync_loop all_waiting logged
  trace-sync_loop [] tr = refl
  trace-sync_loop (ch ∷ chs) tr =
      trace-sync_loop chs (supla_channel_sync env ch tr).1
      ∙ ap (logged (all_waiting chs)) (supla_channel_sync_lem env ch tr).0
      ∙ sym (logged-append (waiting ch) (all_waiting chs) tr)

  none_waiting-sync_loop :
      Accepts env → (chs : List Channel) (tr : Trace) → all_waiting (sync_loop env chs tr).0 ≡ []
  unfolding sync_loop all_waiting
  none_waiting-sync_loop a [] tr = refl
  none_waiting-sync_loop a (ch ∷ chs) tr =
      rw ((supla_channel_sync_lem env ch tr).1 a)
        (none_waiting-sync_loop a chs (supla_channel_sync env ch tr).1)

  pub trace-sync :
      (w : World)
      → (supla_dev_sync_channels_data env w).trace ≡ logged (all_waiting w.dev.channels) w.trace
  unfolding supla_dev_sync_channels_data
  trace-sync w = trace-sync_loop w.dev.channels w.trace

  pub none_waiting-sync :
      Accepts env → (w : World) → all_waiting (supla_dev_sync_channels_data env w).dev.channels ≡ []
  unfolding supla_dev_sync_channels_data
  none_waiting-sync a w = none_waiting-sync_loop a w.dev.channels w.trace

  pub trace-ping :
      (w : World)
      → (supla_connection_ping env w).0.trace ≡ logged (ping_calls w (env.now w.trace)) w.trace
  unfolding supla_connection_ping ping_if_due logged
  trace-ping w = ground arith
