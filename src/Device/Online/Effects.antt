-- ===== src/Device/Online/Effects.antt =====
-- The requests after registration, the ping and the synchronisation leave the device's state and
-- the record of the server's acceptance as they are.
use libsupla.Prelude.{
  ◌≡◌, ◌∙◌, refl, sym, subst, Bool-cases, inl, inr, Option, none, some, Bool, true, false, List, [],
  ◌∷◌, arith, if◌then◌else◌, Bytes, ◌==◌,
}
use libsupla.Prelude.Int.{ℤ, negsuc}
use libsupla.Channel.{Channel}
use libsupla.Channel.Sync.{supla_channel_sync}
use libsupla.Channel.Sync.Delivery.{waiting, logged, supla_channel_sync_lem}
use libsupla.Wire.{Call, WireConfig, register_push_notification}
use libsupla.Env.{Env, Trace, called, channel_called_back}
use libsupla.Device.{World}
use libsupla.Device.Connection.{link_calls}
use libsupla.Device.Announcements.{told}
use libsupla.Device.Handlers.Effects.{accepted}
use libsupla.Device.Online.{
  caption_request, captions_loop, supla_dev_set_channel_captions, push_loop,
  supla_dev_register_push_notifications, supla_dev_time_sync, supla_dev_get_channel_functions,
  schedule_requests, config_request, configs_loop, supla_dev_sync_channel_configurations, sync_loop,
  supla_dev_sync_channels_data, supla_connection_ping,
}

module _ (env : Env) where
  -- No attempt to connect, and nothing of the server, is in what the second trace has more.
  record Silent (tr tr' : Trace) : Type 0 where
    acceptance : accepted env tr' ≡ accepted env tr
    links : link_calls tr' ≡ link_calls tr
    news : told tr' ≡ told tr

  Silent-refl : (tr : Trace) → Silent tr tr
  Silent-refl tr = record { acceptance = refl; links = refl; news = refl }

  Silent-trans : (s t u : Trace) → Silent s t → Silent t u → Silent s u
  Silent-trans s t u h k = record {
    acceptance = k.acceptance ∙ h.acceptance;
    links = k.links ∙ h.links;
    news = k.news ∙ h.news;
  }

  Silent-called : (c : Call) (tr : Trace) → Silent tr (called c ∷ tr)
  unfolding accepted link_calls told
  Silent-called c tr = record { acceptance = refl; links = refl; news = refl }

  Silent-called_back : (n : ℤ) (tr : Trace) → Silent tr (channel_called_back n ∷ tr)
  unfolding accepted link_calls told
  Silent-called_back n tr = record { acceptance = refl; links = refl; news = refl }

  pub record Quiet (w w' : World) : Type 0 where
    pub acceptance : accepted env w'.trace ≡ accepted env w.trace
    pub links : link_calls w'.trace ≡ link_calls w.trace
    pub news : told w'.trace ≡ told w.trace
    pub callback : w'.dev.on_state_change ≡ w.dev.on_state_change
    pub state : w'.dev.state ≡ w.dev.state

  Quiet-of_Silent :
      (w w' : World)
      → Silent w.trace w'.trace
      → w'.dev.on_state_change ≡ w.dev.on_state_change
      → w'.dev.state ≡ w.dev.state
      → Quiet w w'
  Quiet-of_Silent w w' h c e = record {
    acceptance = h.acceptance;
    links = h.links;
    news = h.news;
    callback = c;
    state = e;
  }

  pub Quiet-trans : (u v w : World) → Quiet u v → Quiet v w → Quiet u w
  Quiet-trans u v w h k = record {
    acceptance = k.acceptance ∙ h.acceptance;
    links = k.links ∙ h.links;
    news = k.news ∙ h.news;
    callback = k.callback ∙ h.callback;
    state = k.state ∙ h.state;
  }

  Silent-caption_request :
      (n : ℤ) (c : Option Bytes) (buf : Bytes) (tr : Trace)
      → Silent tr (caption_request n c buf tr).1
  unfolding caption_request
  Silent-caption_request n none buf tr = Silent-refl tr
  Silent-caption_request n (some text) buf tr = Silent-called _ tr

  Silent-captions :
      (chs : List Channel) (buf : Bytes) (tr : Trace) → Silent tr (captions_loop chs buf tr)
  unfolding captions_loop
  Silent-captions [] buf tr = Silent-refl tr
  Silent-captions (ch ∷ chs) buf tr =
      let (buf', tr') = caption_request ch.number ch.config.default_caption buf tr in
      Silent-trans tr tr' _ (Silent-caption_request ch.number ch.config.default_caption buf tr)
        (Silent-captions chs buf' tr')

  Silent-unless : (b : Bool) (c : Call) (tr : Trace) → Silent tr (if b then tr else called c ∷ tr)
  Silent-unless true c tr = Silent-refl tr
  Silent-unless false c tr = Silent-called c tr

  Silent-push : (chs : List Channel) (tr : Trace) → Silent tr (push_loop chs tr)
  unfolding push_loop
  Silent-push [] tr = Silent-refl tr
  Silent-push (ch ∷ chs) tr =
      let push = ch.config.push_notification in
      Silent-trans tr _ _
        (Silent-unless (push.enabled == 0)
          (register_push_notification ch.number push.srv_managed_fields) tr)
        (Silent-push chs _)

  Silent-schedules : (ch : Channel) (tr : Trace) → Silent tr (schedule_requests env ch tr)
  unfolding schedule_requests
  Silent-schedules ch tr = elim (Bool-cases ch.config.on_sched_recv) [
    | inl e ↦ simp e (Silent-trans tr _ _ (Silent-called _ tr) (Silent-called _ _))
    | inr e ↦ simp e (Silent-refl tr)
  ]

  Silent-config_request :
      (ch : Channel) (req : WireConfig) (tr : Trace) → Silent tr (config_request env ch req tr).2
  unfolding config_request
  Silent-config_request ch req tr = elim (Bool-cases ch.config.on_config_set) [
    | inl e ↦ simp e (Silent-trans tr _ _ (Silent-called_back ch.number tr) (Silent-called _ _))
    | inr e ↦ simp e (Silent-refl tr)
  ]

  Silent-configs :
      (chs : List Channel) (req : WireConfig) (tr : Trace)
      → Silent tr (configs_loop env chs req tr).1
  unfolding configs_loop
  Silent-configs [] req tr = Silent-refl tr
  Silent-configs (ch ∷ chs) req tr =
      let tr1 = schedule_requests env ch tr in
      let (ch', req', tr2) = config_request env ch req tr1 in
      Silent-trans tr tr1 _ (Silent-schedules ch tr)
        (Silent-trans tr1 tr2 _ (Silent-config_request ch req tr1) (Silent-configs chs req' tr2))

  Silent-logged : (cs : List Call) (tr : Trace) → Silent tr (logged cs tr)
  unfolding logged
  Silent-logged [] tr = Silent-refl tr
  Silent-logged (c ∷ cs) tr =
      Silent-trans tr _ _ (Silent-called c tr) (Silent-logged cs (called c ∷ tr))

  Silent-sync : (chs : List Channel) (tr : Trace) → Silent tr (sync_loop env chs tr).1
  unfolding sync_loop
  Silent-sync [] tr = Silent-refl tr
  Silent-sync (ch ∷ chs) tr =
      let (ch', tr') = supla_channel_sync env ch tr in
      Silent-trans tr tr' _
        (subst (Silent tr) (sym ((supla_channel_sync_lem env ch tr).0))
          (Silent-logged (waiting ch) tr))
        (Silent-sync chs tr')

  Quiet-time_sync : (w : World) → Quiet w (supla_dev_time_sync env w)
  unfolding supla_dev_time_sync accepted link_calls told
  Quiet-time_sync w = ground arith

  Quiet-functions : (w : World) → Quiet w (supla_dev_get_channel_functions env w)
  unfolding supla_dev_get_channel_functions accepted link_calls told
  Quiet-functions w = ground arith

  pub Quiet-ping : (w : World) → Quiet w (supla_connection_ping env w).0
  unfolding supla_connection_ping accepted link_calls told
  Quiet-ping w = ground arith

  pub Quiet-sync : (w : World) → Quiet w (supla_dev_sync_channels_data env w)
  unfolding supla_dev_sync_channels_data
  Quiet-sync w = Quiet-of_Silent w _ (Silent-sync w.dev.channels w.trace) refl refl

  Quiet-configs : (w : World) → Quiet w (supla_dev_sync_channel_configurations env w)
  unfolding supla_dev_sync_channel_configurations
  Quiet-configs w = Quiet-of_Silent w _ (Silent-configs w.dev.channels _ w.trace) refl refl

  Quiet-captions : (w : World) → Quiet w (supla_dev_set_channel_captions w)
  unfolding supla_dev_set_channel_captions
  Quiet-captions w = Quiet-of_Silent w _ (Silent-captions w.dev.channels _ w.trace) refl refl

  Quiet-push : (w : World) → Quiet w (supla_dev_register_push_notifications w)
  unfolding supla_dev_register_push_notifications
  Quiet-push w =
      let push = w.dev.push_notification in
      Quiet-of_Silent w _
        (Silent-trans w.trace _ _
          (Silent-unless (push.enabled == 0)
            (register_push_notification (negsuc 0) push.srv_managed_fields) w.trace)
          (Silent-push w.dev.channels _))
        refl refl

  -- The requests that a device sends once it is registered.
  pub Quiet-requests :
      (w : World)
      → Quiet w (
          supla_dev_register_push_notifications (
            supla_dev_sync_channel_configurations env (
              supla_dev_get_channel_functions env
                (supla_dev_set_channel_captions (supla_dev_time_sync env w)))))
  Quiet-requests w =
      let w1 = supla_dev_time_sync env w in
      let w2 = supla_dev_set_channel_captions w1 in
      let w3 = supla_dev_get_channel_functions env w2 in
      let w4 = supla_dev_sync_channel_configurations env w3 in
      Quiet-trans w w1 _ (Quiet-time_sync w) (
        Quiet-trans w1 w2 _ (Quiet-captions w1) (
          Quiet-trans w2 w3 _ (Quiet-functions w2)
            (Quiet-trans w3 w4 _ (Quiet-configs w3) (Quiet-push w4))))
