-- ===== src/Channel/Tests.antt =====
-- Channels at concrete inputs.
use libsupla.Prelude.{
  All, ℕ, ◌≡◌, ◌⊎◌, memcmp_eq, replicate, refl, ◌↔◌, true, none, some, [], ◌∷◌, arith,
}
use libsupla.Channel.{Channel}
use libsupla.Channel.Create.{supla_channel_create, kind, other}
use libsupla.Channel.Create.Blocks.{wanted, grants, IsNew, IsWellFormed, supla_channel_create_lem}
use libsupla.Channel.Register
use libsupla.Channel.Register.{DeviceChannel, supla_channel_to_register_struct}
use libsupla.Channel.Register.Faults.{register_faults}
use libsupla.Channel.Sync.{supla_channel_sync}
use libsupla.Channel.Sync.Delivery.{waiting, supla_channel_sync_lem, supla_channel_sync-again}
use libsupla.Channel.Values.{supla_channel_set_value}
use libsupla.Channel.Values.Kept.{Kept, Change-Kept, by_value}
use libsupla.Env.{called, Env, Trace, nothing}
use libsupla.Channel.Sync.Actions.{emit_all, emit_results, emit_all-last}
use libsupla.Channel.Create.{type_actiontrigger}
use libsupla.Value.{result_true}
use libsupla.Wire.{action_trigger}
use libsupla.Channel.Sync.View.{Deals, begins, changes, syncs, server_value, Deals-server_value}
use libsupla.Value.{supla_val_set}
use libsupla.Samples.{scripted, thermometer, thermometer_config, thermometer_value, blank_trigger}
use libsupla.Prelude.Int.{pos}

abbrev calm : Env
calm = scripted (pos 1) nothing

supla_channel_create_lem_example :
    (ch : Channel) × (supla_channel_create (λ b. true) blank_trigger thermometer_config
      ≡ (some ch, []))
    × IsNew thermometer_config ch
    × (ch.lock ≡ true)
unfolding kind grants wanted
supla_channel_create_lem_example =
    (supla_channel_create_lem (λ b. true) blank_trigger thermometer_config).0 refl

thermometer-IsWellFormed : IsWellFormed thermometer
unfolding kind
thermometer-IsWellFormed = record { value = refl; extvalue = refl; at = refl; sized = refl }

register_faults_example :
    (supla_channel_to_register_struct (λ a. none) thermometer ≡ none) ↔ (kind 3034 ≡ other)
register_faults_example = register_faults (λ a. none) thermometer thermometer-IsWellFormed

supla_channel_sync_lem_example : waiting (supla_channel_sync calm thermometer []).0 ≡ []
supla_channel_sync_lem_example =
    (supla_channel_sync_lem calm thermometer []).1 (λ tr c. omega arith)

supla_channel_sync-again_example : waiting (supla_channel_sync calm thermometer []).0 ≡ []
supla_channel_sync-again_example =
    (supla_channel_sync-again calm thermometer [] thermometer_value refl refl refl refl).2
      (omega arith)

Change-Kept_example : Kept thermometer (supla_channel_set_value thermometer (1 ∷ 2 ∷ []) 2).0
Change-Kept_example =
    Change-Kept thermometer (supla_channel_set_value thermometer (1 ∷ 2 ∷ []) 2).0
      (by_value thermometer (1 ∷ 2 ∷ []) 2 (omega arith)) thermometer-IsWellFormed

-- the thermometer's struct, the thermometer with a new value, and after the synchronisation
abbrev thermometer_struct : DeviceChannel
thermometer_struct = record {
  number = 0;
  type = 3034;
  default_function = pos 40;
  flags = 0;
  offline = 0;
  value_validity_time = 0;
  default_icon = 0;
  subdevice_id = 0;
  body = Register.values 0 (9 ∷ replicate 7 0);
}

abbrev warmer : Channel
warmer = (supla_channel_set_value thermometer (12 ∷ []) 1).0

abbrev synced : Channel × Trace
synced = supla_channel_sync calm warmer []

synced-Deals : Deals calm (λ a. none) synced.0 (9 ∷ replicate 7 0) synced.1
unfolding supla_channel_to_register_struct
synced-Deals = syncs warmer (9 ∷ replicate 7 0) [] (
    changes thermometer warmer (9 ∷ replicate 7 0) []
      (begins thermometer thermometer thermometer_struct 0 (9 ∷ replicate 7 0) refl refl)
      (by_value thermometer (12 ∷ []) 1 (omega arith)))

-- The server had the new value, and the flag holds the id of the request.
Deals-server_value_example :
    (◌≡◌ {A = ℕ} 1 0) ⊎ (server_value calm 0 (9 ∷ replicate 7 0) synced.1 ≡ 12 ∷ replicate 7 0)
unfolding supla_channel_set_value supla_channel_sync supla_val_set memcmp_eq
Deals-server_value_example =
    Deals-server_value calm (λ a. none) synced.0 (9 ∷ replicate 7 0) synced.1
      (record { sync = 1; sync_onchange = 1; value = 12 ∷ replicate 7 0 }) synced-Deals refl

-- a button, on which the program emits two actions between two rounds
abbrev button : Channel
button = record thermometer {
  config = record thermometer_config { type = type_actiontrigger };
  number = pos 3;
  supla_val = none;
  action_trigger = some blank_trigger;
}

emit_all-last_example :
    All (λ rc. rc ≡ result_true) (emit_results button (pos 4 ∷ []))
    × ((supla_channel_sync calm (emit_all button (pos 4 ∷ pos 8 ∷ [])) []).1
        ≡ called (action_trigger (record { channel_number = 3; action_trigger = pos 8 })) ∷ [])
emit_all-last_example =
    emit_all-last calm [] button (pos 4 ∷ []) (pos 8)
      (record { type = refl; value = refl; extvalue = refl; at = refl }) ((λ e. cc), tt) (λ e. cc)
