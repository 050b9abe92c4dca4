-- ===== src/Device/Online/Requests.antt =====
-- The requests that a device sends in its round in REGISTERED, as one list.
use libsupla.Prelude.{
  ◌≡◌, ◌∙◌, refl, ap, sym, false, List, [], ◌∷◌, ◌++◌, ◌==◌, if◌then◌else◌, Bool-cases, inl, inr,
  All,
}
use libsupla.Prelude.Int.{pos, negsuc}
use libsupla.Channel.Sync.Delivery.{logged}
use libsupla.Wire.{Call, get_user_localtime, get_channel_functions, register_push_notification}
use libsupla.Env.{Env}
use libsupla.Device.{Device, World}
use libsupla.Device.Online.{
  supla_dev_set_channel_captions, supla_dev_register_push_notifications, supla_dev_time_sync,
  supla_dev_get_channel_functions, supla_dev_sync_channel_configurations,
}
use libsupla.Device.Online.Calls.{
  logged-append, caption_calls, captions_loop_lem, push_calls_of, push_calls, push_step,
  push_loop_lem, schedule_calls, configs_loop_lem,
}

-- All requests of the round: the time, the captions, the functions, the schedules, the notifications
-- of the device and of its channels.
unfoldable pub requests : Device → List Call
unfolding push_calls_of
requests dev =
    ((((if dev.on_server_time_sync then get_user_localtime ∷ [] else [])
          ++ caption_calls dev.channels)
        ++ (get_channel_functions ∷ []))
      ++ schedule_calls dev.channels)
    ++ (push_calls_of (negsuc 0) dev.push_notification ++ push_calls dev.channels)

-- The device is as it was, and some requests more have gone out.
abbrev pub sends : World → List Call → World
sends w cs = record w { trace = logged cs w.trace }

sends-append : (w : World) (cs ds : List Call) → sends (sends w cs) ds ≡ sends w (cs ++ ds)
sends-append w cs ds = ap (λ t. record w { trace = t }) (sym (logged-append cs ds w.trace))

-- one function after others
then_sends :
    (f : World → World) (w v : World) (cs ds : List Call)
    → v ≡ sends w cs
    → f (sends w cs) ≡ sends (sends w cs) ds
    → f v ≡ sends w (cs ++ ds)
then_sends f w v cs ds e h = ap f e ∙ (h ∙ sends-append w cs ds)

module _ (env : Env) where
  time_lem :
      (w : World)
      → supla_dev_time_sync env w
        ≡ sends w (if w.dev.on_server_time_sync then get_user_localtime ∷ [] else [])
  unfolding supla_dev_time_sync logged
  time_lem w = elim (Bool-cases w.dev.on_server_time_sync) [ inl e ↦ simp e | inr e ↦ simp e ]

  captions_lem :
      (w : World) → supla_dev_set_channel_captions w ≡ sends w (caption_calls w.dev.channels)
  unfolding supla_dev_set_channel_captions
  captions_lem w =
      ap (λ t. record w { trace = t }) (captions_loop_lem w.dev.channels _ w.trace refl)

  functions_lem :
      (w : World) → supla_dev_get_channel_functions env w ≡ sends w (get_channel_functions ∷ [])
  unfolding supla_dev_get_channel_functions logged
  functions_lem w = refl

  configs_lem :
      (w : World)
      → All (λ ch. ch.config.on_config_set ≡ false) w.dev.channels
      → supla_dev_sync_channel_configurations env w ≡ sends w (schedule_calls w.dev.channels)
  unfolding supla_dev_sync_channel_configurations
  configs_lem w h = simp (
      configs_loop_lem env w.dev.channels
        (record { channel_number = 0; func = pos 0; config_type = 0; config = [] }) w.trace h)

  push_lem :
      (w : World)
      → supla_dev_register_push_notifications w
        ≡ sends w (push_calls_of (negsuc 0) w.dev.push_notification ++ push_calls w.dev.channels)
  unfolding supla_dev_register_push_notifications push_calls_of
  push_lem w =
      let push = w.dev.push_notification in
      ap (λ t. record w { trace = t })
        (push_loop_lem w.dev.channels _
          ∙ (ap (logged (push_calls w.dev.channels)) (
                push_step (push.enabled == 0)
                  (register_push_notification (negsuc 0) push.srv_managed_fields) w.trace)
              ∙ sym (
                  logged-append (push_calls_of (negsuc 0) push) (push_calls w.dev.channels)
                    w.trace)))

  -- A device none of whose channels has the callback that writes a configuration sends these requests
  -- and is else as it was.
  pub requests_lem :
      (w : World)
      → All (λ ch. ch.config.on_config_set ≡ false) w.dev.channels
      → supla_dev_register_push_notifications (
          supla_dev_sync_channel_configurations env (
            supla_dev_get_channel_functions env
              (supla_dev_set_channel_captions (supla_dev_time_sync env w))))
        ≡ sends w (requests w.dev)
  unfolding requests
  requests_lem w h =
      let u1 = supla_dev_time_sync env w in
      let u2 = supla_dev_set_channel_captions u1 in
      let u3 = supla_dev_get_channel_functions env u2 in
      let u4 = supla_dev_sync_channel_configurations env u3 in
      let e2 =
        then_sends supla_dev_set_channel_captions w u1 _ _ (time_lem w)
          (captions_lem (sends w _)) in
      let e3 =
        then_sends (supla_dev_get_channel_functions env) w u2 _ _ e2 (functions_lem (sends w _)) in
      let e4 =
        then_sends (supla_dev_sync_channel_configurations env) w u3 _ _ e3
          (configs_lem (sends w _) h) in
      then_sends supla_dev_register_push_notifications w u4 _ _ e4 (push_lem (sends w _))
