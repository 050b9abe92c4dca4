-- ===== src/Device/Online/Calls.antt =====
-- The requests that the loops of src/device.c over the channels send, each as one list.
use libsupla.Prelude.{
  ◌+◌, ◌≡◌, ◌∙◌, refl, ap, sym, Option, none, some, Bool, true, false, List, [], ◌∷◌, ◌++◌, arith,
  Bytes, ◌==◌, if◌then◌else◌, replicate, strncpy, strlen, drop, drop-strncpy, All,
}
use libsupla.Prelude.Int.{ℤ, u8}
use libsupla.Channel.{Channel, PushConfig}
use libsupla.Channel.Sync.Delivery.{logged}
use libsupla.Wire.{
  Call, WireConfig, set_channel_caption, get_channel_config, register_push_notification,
}
use libsupla.Env.{Env, Trace, called}
use libsupla.Device.Online.{
  caption_maxsize, weekly_schedule, alt_weekly_schedule, caption_request, captions_loop, push_loop,
  schedule_requests, config_request, configs_loop,
}

pub logged-append :
    (cs ds : List Call) (tr : Trace) → logged (cs ++ ds) tr ≡ logged ds (logged cs tr)
unfolding logged
logged-append [] ds tr = refl
logged-append (c ∷ cs) ds tr = logged-append cs ds (called c ∷ tr)

-- The caption of one channel, in a cleared array of its own.
caption_calls_of : ℤ → Option Bytes → List Call
caption_calls_of n none = []
caption_calls_of n (some text) =
    let caption = strncpy (replicate caption_maxsize 0) text 400 in
    set_channel_caption (u8 n) caption (strlen caption + 1) ∷ []

pub caption_calls : List Channel → List Call
unfolding caption_calls_of
caption_calls [] = []
caption_calls (ch ∷ chs) = caption_calls_of ch.number ch.config.default_caption ++ caption_calls chs

-- The array of the request is ready: its last byte is 0.
abbrev pub IsReady : Bytes → Type 0
IsReady caption = drop 400 caption ≡ 0 ∷ []

-- The strings that were in the array before do not show.
reuse :
    (caption text : Bytes)
    → IsReady caption
    → strncpy caption text 400 ≡ strncpy (replicate caption_maxsize 0) text 400
unfolding strncpy
reuse caption text ready = rw ready refl

caption_request-reuse :
    (n : ℤ) (c : Option Bytes) (caption : Bytes) (tr : Trace)
    → IsReady caption
    → IsReady (caption_request n c caption tr).0
      × ((caption_request n c caption tr).1 ≡ logged (caption_calls_of n c) tr)
unfolding caption_request caption_calls_of logged
caption_request-reuse n none caption tr ready = (ready, refl)
caption_request-reuse n (some text) caption tr ready =
    (drop-strncpy caption text 400 ∙ ready, rw (reuse caption text ready) refl)

pub captions_loop_lem :
    (chs : List Channel) (caption : Bytes) (tr : Trace)
    → IsReady caption
    → captions_loop chs caption tr ≡ logged (caption_calls chs) tr
unfolding captions_loop caption_calls
captions_loop_lem [] caption tr ready = unfold logged in refl
captions_loop_lem (ch ∷ chs) caption tr ready =
    let c = ch.config.default_caption in
    let (caption', tr') = caption_request ch.number c caption tr in
    let (ready', e) = caption_request-reuse ch.number c caption tr ready in
    captions_loop_lem chs caption' tr' ready'
    ∙ (ap (logged (caption_calls chs)) e
        ∙ sym (logged-append (caption_calls_of ch.number c) (caption_calls chs) tr))

unfoldable pub push_calls_of : ℤ → PushConfig → List Call
push_calls_of context push =
    if push.enabled == 0
    then []
    else register_push_notification context push.srv_managed_fields ∷ []

pub push_calls : List Channel → List Call
unfolding push_calls_of
push_calls [] = []
push_calls (ch ∷ chs) = push_calls_of ch.number ch.config.push_notification ++ push_calls chs

pub push_step :
    (b : Bool) (c : Call) (tr : Trace)
    → (if b then tr else called c ∷ tr) ≡ logged (if b then [] else c ∷ []) tr
unfolding logged
push_step true c tr = refl
push_step false c tr = refl

pub push_loop_lem :
    (chs : List Channel) (tr : Trace) → push_loop chs tr ≡ logged (push_calls chs) tr
unfolding push_loop push_calls
push_loop_lem [] tr = unfold logged in refl
push_loop_lem (ch ∷ chs) tr =
    let push = ch.config.push_notification in
    push_loop_lem chs _
    ∙ (ap (logged (push_calls chs)) (
          push_step (push.enabled == 0)
            (register_push_notification ch.number push.srv_managed_fields) tr)
        ∙ sym (logged-append (push_calls_of ch.number push) (push_calls chs) tr))

schedule_calls_of : Channel → List Call
schedule_calls_of ch =
    if ch.config.on_sched_recv
    then get_channel_config (u8 ch.number) weekly_schedule
      ∷ get_channel_config (u8 ch.number) alt_weekly_schedule
      ∷ []
    else []

pub schedule_calls : List Channel → List Call
unfolding schedule_calls_of
schedule_calls [] = []
schedule_calls (ch ∷ chs) = schedule_calls_of ch ++ schedule_calls chs

module _ (env : Env) where
  schedule_step :
      (ch : Channel) (tr : Trace) → schedule_requests env ch tr ≡ logged (schedule_calls_of ch) tr
  unfolding schedule_requests schedule_calls_of logged
  schedule_step ch tr = ground arith

  -- Without the callback that writes a configuration the loop sends the schedules' requests alone.
  pub configs_loop_lem :
      (chs : List Channel) (req : WireConfig) (tr : Trace)
      → All (λ ch. ch.config.on_config_set ≡ false) chs
      → configs_loop env chs req tr ≡ (chs, logged (schedule_calls chs) tr)
  unfolding configs_loop config_request schedule_calls
  configs_loop_lem [] req tr h = unfold logged in refl
  configs_loop_lem (ch ∷ chs) req tr (h, hs) =
      simp (h, configs_loop_lem chs req (schedule_requests env ch tr) hs)
        (ap (λ t. (ch ∷ chs, logged (schedule_calls chs) t)) (schedule_step ch tr)
          ∙ ap (λ t. (ch ∷ chs, t))
              (sym (logged-append (schedule_calls_of ch) (schedule_calls chs) tr)))
