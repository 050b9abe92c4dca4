-- ===== src/Channel/Create.antt =====
-- `supla_channel_create` and `supla_channel_free` of src/channel.c. The heap says for each block
-- whether its allocation succeeds; beside the channel stand the blocks that were freed, in order.
pub mod Blocks
use Prim.Native.Nat.{bit_or}
use libsupla.Prelude.{
  ℕ, suc, Bool, true, false, Option, none, some, List, [], ◌∷◌, ◌++◌, ◌==◌, ◌||◌, if◌then◌else◌,
}
use libsupla.Prelude.Int.{negsuc, u8}
use libsupla.Value.{supla_val_init, SuplaValue}
use libsupla.ExtValue.{supla_extval_init, SuplaExtendedValue}
use libsupla.ActionTrigger.{SuplaActionTrigger, supla_action_trigger_init}
use libsupla.Channel.{ChannelConfig, Channel, sync_values_onchange}

-- SUPLA_CHANNELTYPE_* of the protocol, as far as the library names them
abbrev pub type_relay : ℕ
type_relay = 2900

abbrev pub type_electricity_meter : ℕ
type_electricity_meter = 5000

abbrev pub type_impulse_counter : ℕ
type_impulse_counter = 5010

abbrev pub type_thermostat : ℕ
type_thermostat = 6000

abbrev pub type_actiontrigger : ℕ
type_actiontrigger = 11000

-- SENSORNO, SENSORNC, DISTANCESENSOR, CALLBUTTON, THERMOMETERDS18B20, DHT11, DHT22, DHT21, AM2302,
-- AM2301, THERMOMETER, HUMIDITYSENSOR, HUMIDITYANDTEMPSENSOR, WINDSENSOR, PRESSURESENSOR,
-- RAINSENSOR, WEIGHTSENSOR, WEATHER_STATION, DIMMER, RGBLEDCONTROLLER, DIMMERANDRGBLED,
-- VALVE_OPENCLOSE, VALVE_PERCENTAGE, GENERAL_PURPOSE_MEASUREMENT, ENGINE
abbrev pub value_types : List ℕ
value_types =
    1000 ∷ 1010 ∷ 1020 ∷ 1500 ∷ 3000 ∷ 3010 ∷ 3020 ∷ 3022 ∷ 3030 ∷ 3032 ∷ 3034 ∷ 3036 ∷ 3038 ∷ 3042
    ∷ 3044 ∷ 3048 ∷ 3050 ∷ 3100 ∷ 4000 ∷ 4010 ∷ 4020 ∷ 7000 ∷ 7010 ∷ 9000 ∷ 10000 ∷ []

abbrev pub extended_types : List ℕ
extended_types = type_relay ∷ type_electricity_meter ∷ type_impulse_counter ∷ type_thermostat ∷ []

unfoldable pub is_one_of : ℕ → List ℕ → Bool
is_one_of t [] = false
is_one_of t (u ∷ us) = t == u || is_one_of t us

-- The groups of cases of the switch on the type.
pub data Kind : Type 0 where
  values extended trigger other : Kind

unfoldable pub kind : ℕ → Kind
unfolding is_one_of
kind t =
    if is_one_of t value_types
    then values
    else if is_one_of t extended_types
    then extended
    else if t == type_actiontrigger
    then trigger
    else other

-- `config.flags |= flag` if the callback is set
set_flag_if : Bool → ℕ → ℕ → ℕ
set_flag_if set flag flags = if set then bit_or flags flag else flags

-- The flags that the callbacks imply: CHANNELSTATE, CALCFG_RECALIBRATE,
-- RUNTIME_CHANNEL_CONFIG_UPDATE (twice), WEEKLY_SCHEDULE.
pub implied_flags : ChannelConfig → ℕ
unfolding set_flag_if
implied_flags c = set_flag_if c.on_sched_recv 0x10000000 (
    set_flag_if c.on_config_recv 0x08000000 (
      set_flag_if c.on_config_set 0x08000000
        (set_flag_if c.on_calcfg_req 0x4000 (set_flag_if c.on_get_state 0x00010000 c.flags))))

-- The blocks that the function asks the heap for.
pub data Block : Type 0 where
  channel_block lock_block value_block extvalue_block trigger_block : Block

-- The channel before the switch. The result of `lck_init` is not looked at.
pub initial : (Block → Bool) → ChannelConfig → Channel
unfolding implied_flags
initial heap c = record {
  config = record c { flags = implied_flags c };
  lock = heap lock_block;
  dev = 0;
  number = negsuc 0;
  active_function = c.default_function;
  supla_val = none;
  supla_extval = none;
  action_trigger = none;
}

-- A new trigger: initialised, then its properties are set from the channel as it is now. `fresh`
-- is what the new block holds.
new_trigger : SuplaActionTrigger → Channel → SuplaActionTrigger
new_trigger fresh ch = record (supla_action_trigger_init fresh) {
  properties = record {
    related_channel_number = u8 ch.number;
    disables_local_operation = ch.config.action_trigger_conflicts;
  };
}

-- `lck_free`
freed_lock : Channel → List Block
freed_lock ch = if ch.lock then lock_block ∷ [] else []

freed_if {ℓ} : {A : Type ℓ} → Option A → Block → List Block
freed_if none b = []
freed_if (some _) b = b ∷ []

-- The label `malloc_failed`; `lck_free(NULL)` and `free(NULL)` do nothing.
malloc_failed : Channel → List Block
unfolding freed_lock freed_if
malloc_failed ch =
    freed_lock ch
    ++ freed_if ch.supla_val value_block
    ++ freed_if ch.supla_extval extvalue_block
    ++ freed_if ch.action_trigger trigger_block
    ++ (channel_block ∷ [])

-- The allocation of the value, then of the extended value.
with_value : Channel → Channel
unfolding supla_val_init
with_value ch = record ch { supla_val = some (supla_val_init (sync_values_onchange ch.config)) }

with_extvalue : Channel → Channel
unfolding supla_extval_init
with_extvalue ch = record ch {
  supla_extval = some (supla_extval_init (sync_values_onchange ch.config));
}

-- the switch
allocate : (Block → Bool) → SuplaActionTrigger → Channel → Kind → Option Channel × List Block
unfolding malloc_failed with_value with_extvalue new_trigger
allocate heap fresh ch values =
    if heap value_block then (some (with_value ch), []) else (none, malloc_failed ch)
allocate heap fresh ch extended =
    if heap value_block
    then (if heap extvalue_block
        then (some (with_extvalue (with_value ch)), [])
        else (none, malloc_failed (with_value ch)))
    else (none, malloc_failed ch)
allocate heap fresh ch trigger =
    if heap trigger_block
    then (some (record ch { action_trigger = some (new_trigger fresh ch) }), [])
    else (none, malloc_failed ch)
allocate heap fresh ch other = (some ch, [])

-- `supla_channel_create`
unfoldable pub supla_channel_create :
    (Block → Bool) → SuplaActionTrigger → ChannelConfig → Option Channel × List Block
unfolding allocate initial kind
supla_channel_create heap fresh c =
    if heap channel_block then allocate heap fresh (initial heap c) (kind c.type) else (none, [])

-- `supla_channel_free`: the blocks that it frees.
pub supla_channel_free : Channel → List Block
unfolding malloc_failed
supla_channel_free ch = malloc_failed ch
