-- ===== src/Device/Tick/Tests.antt =====
-- Rounds at concrete inputs.
use libsupla.Prelude.{
  ℕ, zero, suc, ◌+◌, ◌*◌, ◌≡◌, refl, true, false, Option, none, some, [], ◌∷◌, ◌++◌, List, inr,
  replicate, arith,
}
use libsupla.Prelude.Int.{ℤ, pos, negsuc, ◌-ℤ◌, ◌+ℤ◌}
use libsupla.Env.{Env, Input, received, idle, init, connected, registered, online}
use libsupla.Device.{World, supla_dev_set_state, put_channel}
use libsupla.Device.Access.{supla_dev_set_state_changed_callback, supla_dev_start, new_device}
use libsupla.Device.Register.{collect, register_header, supla_dev_register}
use libsupla.Device.Tick.{
  supla_dev_iterate, switch_state, case_connected, serve, case_init, after_switch,
}
use libsupla.Device.Tick.Serving.{IsAccepted}
use libsupla.Device.Tick.Transitions.{can_follow, supla_dev_iterate-can_follow}
use libsupla.Device.Tick.Reach.{Reach, created, then_does, starts, iterates, Reach-IsAccepted}
use libsupla.Device.Tick.Backoff.{times_noted, AllSoon, supla_dev_iterate-backs_off}
use libsupla.Channel.{Channel}
use libsupla.Channel.Keeping.{Keeps-refl}
use libsupla.Channel.Create.{kind}
use libsupla.Wire.{channel_set_value}
use libsupla.Device.Channels.{supla_dev_add_channel, supla_dev_free}
use libsupla.Device.Channels.Keeping.{CallbacksKeep, KeepsChannels}
use libsupla.Device.Tick.Slot.{IsPlugged, Reach-IsPlugged, free-releases}
use libsupla.Device.Announcements.{told}
use libsupla.Device.Tick.Informed
use libsupla.Device.Tick.Informed.{Followed-told}
use libsupla.Device.Tick.Alive.Sending.{supla_dev_iterate-sends, supla_channel_set_value-sends}
use libsupla.Device.Online.Delivery.{all_waiting}
use libsupla.Device.Handlers.Replies.{calls_of}
use libsupla.Channel.Sync.Delivery.{value_call, waiting}
use libsupla.Channel.Values.{supla_channel_set_value}
use libsupla.Device.Tick.Alive.Configuring.{supla_dev_iterate-configures}
use libsupla.Device.Handlers.{cmd_enter_cfg_mode}
use libsupla.Wire.{CalcfgRequest, calcfg_request, Call, ping_server}
use libsupla.Device.Connection.{link_calls}
use libsupla.Port.{Host, is_live}
use libsupla.Port.Ssl.Reconnect.{replay}
use libsupla.Device.Tick.Alive.{GivenUp, supla_dev_iterate-online}
use libsupla.Device.Tick.Use.{Used, begins, then_uses, adds, rounds, rounds-Used}
use libsupla.Device.Online.Requests.{requests, sends}
use libsupla.Device.Tick.Registered.{supla_dev_iterate-requests}
use libsupla.Device.Tick.Progress
use libsupla.Samples.{
  thermometer, thermometer_value, bare, world_in, calm, refusing, accepting, scripted, silent,
}

-- the outcome of a round that does not fault
outcome_of : Option (World × ℕ) → World × ℕ
outcome_of none = (world_in idle, 0)
outcome_of (some out) = out

-- the round in which a connected device is accepted
abbrev accepted_round : World × ℕ
accepted_round = outcome_of (supla_dev_iterate accepting (world_in connected))

accepted_round-lem : supla_dev_iterate accepting (world_in connected) ≡ some accepted_round
unfolding supla_dev_iterate switch_state case_connected after_switch outcome_of new_device ◌-ℤ◌
accepted_round-lem = refl

supla_dev_iterate-can_follow_example : can_follow connected accepted_round.0.dev.state ≡ true
supla_dev_iterate-can_follow_example =
    supla_dev_iterate-can_follow accepting (world_in connected) accepted_round accepted_round-lem

-- a device that was created and started, and the round in which it connects and is accepted
abbrev started : World
started = (supla_dev_start (record { dev = bare; trace = [] })).0

abbrev up_round : World × ℕ
up_round = outcome_of (supla_dev_iterate accepting started)

up_round-lem : supla_dev_iterate accepting started ≡ some up_round
unfolding supla_dev_iterate switch_state case_init after_switch outcome_of new_device ◌-ℤ◌
    supla_dev_start supla_dev_set_state supla_dev_register collect register_header
up_round-lem = refl

up_round-Reach : Reach accepting up_round.0
up_round-Reach =
    then_does _ _
      (then_does _ _ (created 1 none none (108 ∷ []) (pos 900))
        (starts (record { dev = bare; trace = [] })))
      (iterates started up_round.0 up_round.1 up_round-lem)

Reach-IsAccepted_example : IsAccepted accepting up_round.0
Reach-IsAccepted_example = Reach-IsAccepted accepting up_round.0 up_round-Reach

-- the round in which a device is refused a connection
abbrev refused_round : World × ℕ
refused_round = outcome_of (supla_dev_iterate refusing (world_in init))

refused_round-lem : supla_dev_iterate refusing (world_in init) ≡ some refused_round
unfolding supla_dev_iterate switch_state case_init after_switch outcome_of new_device ◌-ℤ◌
refused_round-lem = refl

refused_round-ms : refusing.monotonic_ms refused_round.0.trace ≡ 5300
unfolding supla_dev_iterate switch_state case_init after_switch outcome_of new_device ◌-ℤ◌
refused_round-ms = refl

refused_round-later :
    (k : ℕ) → refusing.monotonic_ms (times_noted refusing k refused_round.0).trace ≡ 5300 + 100 * k
unfolding times_noted
refused_round-later zero = refused_round-ms
refused_round-later (suc k) = omega (arith, refused_round-later k)

refused_round-AllSoon : AllSoon refusing 5000 40 refused_round.0
refused_round-AllSoon k lt = (
  omega (arith, refused_round-later k),
  omega (arith, refused_round-later k),
  omega (arith, refused_round-later k),
)

supla_dev_iterate-backs_off_example :
    (rounds refusing 40 refused_round.0 ≡ some (times_noted refusing 40 refused_round.0))
    × ((times_noted refusing 40 refused_round.0).dev.state ≡ init)
unfolding new_device
supla_dev_iterate-backs_off_example =
    supla_dev_iterate-backs_off refusing (world_in init) refused_round.0 refused_round.1 40 refl
      refl refl refused_round-lem refused_round-AllSoon

supla_dev_iterate-requests_example :
    supla_dev_iterate calm (world_in registered)
    ≡ some (
        serve calm (
          supla_dev_set_state
            (sends
              (Progress.started calm (world_in registered))
              (requests (world_in registered).dev))
            online))
unfolding new_device
supla_dev_iterate-requests_example =
    supla_dev_iterate-requests calm (world_in registered) refl refl (refl, tt)

scripted-CallbacksKeep : (rc : ℤ) (i : Input) → CallbacksKeep (scripted rc i)
scripted-CallbacksKeep rc i = record {
  channel_init = λ tr c. Keeps-refl c;
  set_value = λ tr c v. Keeps-refl c;
  get_state = λ tr c s. Keeps-refl c;
  calcfg_req = λ tr c r. Keeps-refl c;
  config_recv = λ tr c g. Keeps-refl c;
  config_set = λ tr c g. Keeps-refl c;
}

-- a round that brings a new value for the thermometer
abbrev writing : Env
writing = scripted (pos 1) (
    received (
      some (
        channel_set_value
          (record { sender_id = pos 5; channel_number = 0; duration_ms = 0; value = 1 ∷ [] }))))

abbrev written_round : World × ℕ
written_round = outcome_of (supla_dev_iterate writing (world_in connected))

written_round-lem : supla_dev_iterate writing (world_in connected) ≡ some written_round
unfolding supla_dev_iterate switch_state case_connected after_switch outcome_of new_device ◌-ℤ◌
written_round-lem = refl

-- a device with one channel, whose value the program has set before it added the channel
abbrev unnumbered : Channel
unnumbered = record thermometer { number = negsuc 0 }

abbrev equipped : World
equipped = (supla_dev_add_channel calm (record { dev = bare; trace = [] }) unnumbered).0

equipped-Used : Used calm equipped
unfolding kind
equipped-Used = then_uses _ _ (begins 1 none none (108 ∷ []) (pos 900)) (
    adds (record { dev = bare; trace = [] }) unnumbered
      (record { value = refl; extvalue = refl; at = refl; sized = refl }, λ e. cc) refl)

rounds-Used_example :
    (w' : World) × (rounds calm 5 equipped ≡ some w') × Used calm w' × KeepsChannels equipped w'
rounds-Used_example = rounds-Used calm (scripted-CallbacksKeep _ _) 5 equipped equipped-Used

-- a device whose server has been silent for 950 seconds, with a timeout of two minutes
abbrev forgotten : World
forgotten = record {
  dev = record bare {
    state = online;
    activity_timeout = pos 120;
    last_resp = pos 50;
    channels = thermometer ∷ [];
  };
  trace = [];
}

supla_dev_iterate-online_example :
    (out : World × ℕ) × (supla_dev_iterate calm forgotten ≡ some out) × GivenUp forgotten out
unfolding new_device ◌-ℤ◌ ◌+ℤ◌
supla_dev_iterate-online_example =
    supla_dev_iterate-online calm forgotten refl refl (λ tr. refl) (λ tr. refl)

Reach-IsPlugged_example : IsPlugged silent up_round.0
Reach-IsPlugged_example = Reach-IsPlugged accepting silent up_round.0 up_round-Reach

free-releases_example :
    (h : Host) × (replay silent (link_calls (supla_dev_free up_round.0).0.trace) ≡ some h)
    × ((b : ℕ) → is_live h.trace b ≡ false)
free-releases_example = free-releases accepting silent up_round.0 up_round-Reach

-- a device that has heard of its server ten seconds ago, and pings it
abbrev serving : World
serving = record {
  dev = record bare { state = online; last_resp = pos 990; channels = thermometer ∷ [] };
  trace = [];
}

supla_dev_iterate-sends_example :
    (w' : World) × (supla_dev_iterate calm serving ≡ some (w', 0))
    × (calls_of w'.trace ≡ value_call thermometer (9 ∷ replicate 7 0) ∷ ping_server ∷ [])
unfolding new_device ◌-ℤ◌ ◌+ℤ◌ calls_of all_waiting waiting
supla_dev_iterate-sends_example =
    supla_dev_iterate-sends calm serving refl refl (λ tr. refl) (λ tr. refl) refl

supla_channel_set_value-sends_example :
    (w' : World) × (before : List Call) × (after : List Call) × (supla_dev_iterate calm
        (put_channel serving 0 (supla_channel_set_value thermometer (7 ∷ 3 ∷ []) 2).0)
      ≡ some (w', 0))
    × (calls_of w'.trace
        ≡ after ++ (value_call thermometer (7 ∷ 3 ∷ replicate 6 0) ∷ (before ++ calls_of [])))
    × (all_waiting w'.dev.channels ≡ [])
unfolding new_device ◌-ℤ◌ ◌+ℤ◌
supla_channel_set_value-sends_example =
    supla_channel_set_value-sends calm serving 0 thermometer thermometer_value (7 ∷ 3 ∷ []) 2 refl
      refl refl (omega arith) (omega arith) (inr (inr (λ e. cc))) refl refl (λ tr. refl)
      (λ tr. refl) refl (λ tr c e. cc)

-- the same device as `started`, with the callback on its state
abbrev followed : World
followed = record { dev = (supla_dev_set_state_changed_callback bare true).0; trace = [] }

Followed-told_example :
    told (supla_dev_start followed).0.trace ≡ (supla_dev_start followed).0.dev.state
unfolding supla_dev_start supla_dev_set_state supla_dev_set_state_changed_callback new_device
Followed-told_example = Followed-told calm _ (
    Informed.then_does _ _ (Informed.created 1 none none (108 ∷ []) (pos 900)) (starts followed)
      refl)

-- the server asks the device for its configuration mode, and the output fails
abbrev mode_request : CalcfgRequest
mode_request = record {
  sender_id = pos 5;
  channel_number = negsuc 0;
  command = cmd_enter_cfg_mode;
  super_user_authorized = 1;
  payload = [];
}

abbrev breaking : Env
breaking = record (scripted (pos 1) (received (some (calcfg_request mode_request)))) {
  output = λ tr. false;
}

supla_dev_iterate-configures_example :
    (out : World × ℕ) × (supla_dev_iterate breaking serving ≡ some out) × (out.0.dev.state ≡ init)
unfolding new_device ◌-ℤ◌ ◌+ℤ◌
supla_dev_iterate-configures_example =
    supla_dev_iterate-configures breaking serving mode_request false
      (record { authorized = refl; device = refl; command = refl }) refl refl refl (λ tr. refl)
      (λ tr. refl)
