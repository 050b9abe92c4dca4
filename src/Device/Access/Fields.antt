-- ===== src/Device/Access/Fields.antt =====
-- The readers and setters of a device's fields agree.
use Prim.Native.Nat.{bit_or}
use libsupla.Prelude.{arith, ℕ, ◌≡◌, refl, Bool, true, false, memcmp_eq, replicate, Bytes}
use libsupla.Prelude.Int.{ℤ, pos, eqb_ℤ}
use libsupla.Value.{result_true}
use libsupla.Device.{Device, SuplaConfig}
use libsupla.Env.{DevState}
use libsupla.Device.Access.{
  supla_dev_state_str, supla_dev_set_flags, supla_dev_get_flags, supla_dev_set_manufacturer_data,
  supla_dev_get_manufacturer_data, supla_dev_set_activity_timeout, supla_dev_get_activity_timeout,
  supla_dev_set_state_changed_callback, supla_dev_set_common_channel_state_callback,
  supla_dev_set_server_time_sync_callback, supla_dev_set_server_req_restart_callback,
  supla_dev_enable_notifications, supla_dev_disable_notifications, supla_dev_set_config,
  supla_dev_get_config, authkey_size, guid_size, supla_dev_get_software_version,
  supla_dev_get_state, supla_dev_get_uptime, supla_dev_get_connection_uptime, supla_dev_set_name,
}

-- What is set is read back: flags, the manufacturer's data, an activity timeout (0 as the default of
-- 120 seconds), and a configuration neither of whose keys is all zero. The callback for restarts adds
-- its flag to those that were set. Switching the notifications off keeps their fields.
device_fields_lem :
    (dev : Device) (flags fields : ℕ) (m p sec : ℤ) (c : SuplaConfig)
    → eqb_ℤ sec (pos 0) ≡ false
    → memcmp_eq c.auth_key (replicate authkey_size 0) authkey_size ≡ false
    → memcmp_eq c.guid (replicate guid_size 0) guid_size ≡ false
    → (supla_dev_get_flags (supla_dev_set_flags dev flags).0 ≡ (flags, result_true))
      × (supla_dev_get_flags
            (supla_dev_set_server_req_restart_callback (supla_dev_set_flags dev flags).0 true).0
          ≡ (bit_or flags 0x0800, result_true))
      × (supla_dev_get_manufacturer_data (supla_dev_set_manufacturer_data dev m p).0
          ≡ ((m, p), result_true))
      × (supla_dev_get_activity_timeout (supla_dev_set_activity_timeout dev sec).0
          ≡ (sec, result_true))
      × (supla_dev_get_activity_timeout (supla_dev_set_activity_timeout dev (pos 0)).0
          ≡ (pos 120, result_true))
      × (supla_dev_get_config (supla_dev_set_config dev c).0 ≡ (c, result_true))
      × ((supla_dev_disable_notifications (supla_dev_enable_notifications dev fields).0
            ).0.push_notification.srv_managed_fields
          ≡ fields)
unfolding supla_dev_set_flags supla_dev_get_flags supla_dev_set_manufacturer_data
    supla_dev_get_manufacturer_data supla_dev_set_activity_timeout supla_dev_get_activity_timeout
    supla_dev_set_server_req_restart_callback supla_dev_enable_notifications
    supla_dev_disable_notifications supla_dev_set_config supla_dev_get_config
device_fields_lem dev flags fields m p sec c s a g =
    rw (s, a, g) (refl, refl, refl, refl, refl, refl, refl)

-- The setters of the name and of three callbacks change nothing that these readers give: the
-- version, the state, the uptimes.
device_readers_lem :
    (dev : Device) (name : Bytes) (cb : Bool)
    → let set =
        (supla_dev_set_name
          (supla_dev_set_server_time_sync_callback
            (supla_dev_set_common_channel_state_callback
              (supla_dev_set_state_changed_callback dev cb).0
              cb).0
            cb).0
          name).0 in
      (supla_dev_get_state set ≡ supla_dev_get_state dev)
      × (supla_dev_get_uptime set ≡ supla_dev_get_uptime dev)
      × (supla_dev_get_connection_uptime set ≡ supla_dev_get_connection_uptime dev)
      × (supla_dev_get_software_version set ≡ supla_dev_get_software_version dev)
unfolding supla_dev_set_name supla_dev_set_server_time_sync_callback
    supla_dev_set_common_channel_state_callback supla_dev_set_state_changed_callback
    supla_dev_get_state supla_dev_get_uptime supla_dev_get_connection_uptime
    supla_dev_get_software_version
device_readers_lem dev name cb = (refl, refl, refl, refl)

-- The texts of the states tell them apart.
state_str-injective : (s t : DevState) → supla_dev_state_str s ≡ supla_dev_state_str t → s ≡ t
unfolding supla_dev_state_str
state_str-injective s t e = ground arith
