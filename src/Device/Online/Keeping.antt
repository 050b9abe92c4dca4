-- ===== src/Device/Online/Keeping.antt =====
-- The configurations and the transmission of channel data leave the channels of a device in place.
use libsupla.Prelude.{List, [], ◌∷◌, arith, inl, inr, Bool-cases}
use libsupla.Channel.{Channel}
use libsupla.Channel.Sync.{supla_channel_sync}
use libsupla.Channel.Sync.Keeping.{supla_channel_sync-Keeps}
use libsupla.Channel.Keeping.{Keeps, Keeps-refl}
use libsupla.Wire.{WireConfig}
use libsupla.Env.{Env, Trace}
use libsupla.Device.{World}
use libsupla.Device.Channels.Keeping.{KeepsAll, KeepsChannels, CallbacksKeep}
use libsupla.Device.Handlers.Keeping.{KeepsChannels-same}
use libsupla.Device.Online.{
  schedule_requests, config_request, configs_loop, supla_dev_sync_channel_configurations, sync_loop,
  supla_dev_sync_channels_data, supla_connection_ping, supla_dev_time_sync,
  supla_dev_get_channel_functions, supla_dev_set_channel_captions,
  supla_dev_register_push_notifications,
}

module _ (env : Env) where
  sync_loop-Keeps : (cs : List Channel) (tr : Trace) → KeepsAll cs (sync_loop env cs tr).0
  unfolding sync_loop
  sync_loop-Keeps [] tr = tt
  sync_loop-Keeps (c ∷ cs) tr =
      (supla_channel_sync-Keeps env c tr, sync_loop-Keeps cs (supla_channel_sync env c tr).1)

  pub sync_data-Keeps : (w : World) → KeepsChannels w (supla_dev_sync_channels_data env w)
  unfolding supla_dev_sync_channels_data
  sync_data-Keeps w = sync_loop-Keeps w.dev.channels w.trace

  pub ping-Keeps : (w : World) → KeepsChannels w (supla_connection_ping env w).0
  unfolding supla_connection_ping
  ping-Keeps w = KeepsChannels-same w (supla_connection_ping env w).0 (ground arith)

  module _ (keeps : CallbacksKeep env) where
    config_request-Keeps :
        (c : Channel) (req : WireConfig) (tr : Trace) → Keeps c (config_request env c req tr).0
    unfolding config_request
    config_request-Keeps c req tr = elim (Bool-cases c.config.on_config_set) [
      | inl e ↦ simp e (keeps.config_set tr c req)
      | inr e ↦ simp e (Keeps-refl c)
    ]

    configs_loop-Keeps :
        (cs : List Channel) (req : WireConfig) (tr : Trace)
        → KeepsAll cs (configs_loop env cs req tr).0
    unfolding configs_loop
    configs_loop-Keeps [] req tr = tt
    configs_loop-Keeps (c ∷ cs) req tr =
        let (c', req', tr') = config_request env c req (schedule_requests env c tr) in
        (config_request-Keeps c req (schedule_requests env c tr), configs_loop-Keeps cs req' tr')

    -- The requests that a device sends once it is registered.
    pub requests-Keeps :
        (w : World)
        → KeepsChannels w (
            supla_dev_register_push_notifications (
              supla_dev_sync_channel_configurations env (
                supla_dev_get_channel_functions env
                  (supla_dev_set_channel_captions (supla_dev_time_sync env w)))))
    unfolding supla_dev_register_push_notifications supla_dev_sync_channel_configurations
        supla_dev_get_channel_functions supla_dev_set_channel_captions supla_dev_time_sync
    requests-Keeps w = elim (Bool-cases w.dev.on_server_time_sync) [
      | inl e ↦ simp e (configs_loop-Keeps w.dev.channels _ _)
      | inr e ↦ simp e (configs_loop-Keeps w.dev.channels _ _)
    ]
