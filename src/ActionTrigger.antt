-- ===== src/ActionTrigger.antt =====
-- src/supla-action-trigger.c and src/supla-action-trigger.h: the pending action of an action
-- trigger channel.
use libsupla.Prelude.{ℕ, if◌then◌else◌, Option, none, some}
use libsupla.Prelude.Int.{ℤ, pos, u8, eqb_ℤ}
use libsupla.Value.{result_false, result_true}

-- `TActionTriggerProperties`: the related channel's number plus 1, in a byte
pub record ActionTriggerProperties : Type 0 where
  pub related_channel_number : ℕ
  pub disables_local_operation : ℕ

-- `TDS_ActionTrigger`
pub record DsActionTrigger : Type 0 where
  pub channel_number : ℕ
  pub action_trigger : ℤ

-- `supla_action_trigger_t`
pub record SuplaActionTrigger : Type 0 where
  pub sync : ℕ
  pub properties : ActionTriggerProperties
  pub at : DsActionTrigger

-- `supla_action_trigger_init`; the properties stay as they are.
unfoldable pub supla_action_trigger_init : SuplaActionTrigger → SuplaActionTrigger
supla_action_trigger_init t = record t {
  at = record { channel_number = 0; action_trigger = pos 0 };
  sync = 1;
}

-- `supla_action_trigger_emit`; `none` is the null pointer.
unfoldable pub supla_action_trigger_emit :
    Option SuplaActionTrigger → ℤ → ℤ → Option SuplaActionTrigger × ℕ
supla_action_trigger_emit none ch_num action = (none, result_false)
supla_action_trigger_emit (some t) ch_num action =
    if eqb_ℤ action (pos 0) then (some t, result_false) else (
      some (record t {
        at = record { channel_number = u8 ch_num; action_trigger = action };
        sync = 0;
      }),
      result_true,
    )
