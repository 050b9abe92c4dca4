-- ===== src/Device/Notify.antt =====
-- `supla_dev_send_notification` of src/device.c.
pub mod Sizes
use libsupla.Prelude.{
  ℕ, ◌+◌, ◌/◌, ◌%◌, Bool, true, false, ◌&&◌, ◌||◌, not, List, [], ◌∷◌, ◌++◌, Bytes, ◌==◌,
  if◌then◌else◌, take, drop, replicate, strlen, strncpy,
}
use libsupla.Prelude.Int.{ℤ, pos, negsuc, eqb_ℤ, wrap}
use libsupla.Value.{result_false}
use libsupla.Channel.{Channel}
use libsupla.Wire.{PushNotification, send_push_notification}
use libsupla.Env.{Env}
use libsupla.Device.{Device, World, srpc_call}

-- SUPLA_PN_TITLE_MAXSIZE, SUPLA_PN_BODY_MAXSIZE
abbrev pub pn_title_maxsize : ℕ
pn_title_maxsize = 101

abbrev pub pn_body_maxsize : ℕ
pn_body_maxsize = 256

-- the size of the array `TitleAndBody`
abbrev pub title_and_body_size : ℕ
title_and_body_size = 357

-- the tests of PN_SERVER_MANAGED_TITLE, _BODY and _SOUND
abbrev pub managed_title : ℕ → Bool
managed_title fields = fields % 2 == 1

abbrev pub managed_body : ℕ → Bool
managed_body fields = fields / 2 % 2 == 1

abbrev pub managed_sound : ℕ → Bool
managed_sound fields = fields / 4 % 2 == 1

-- Some channel has the number and notifications of its own.
unfoldable pub channel_enabled : ℤ → List Channel → Bool
channel_enabled ctx [] = false
channel_enabled ctx (ch ∷ chs) =
    (eqb_ℤ ctx ch.number && not (ch.config.push_notification.enabled == 0))
    || channel_enabled ctx chs

unfoldable pub enabled_for : Device → ℤ → Bool
unfolding channel_enabled
enabled_for dev ctx =
    if eqb_ℤ ctx (negsuc 0)
    then not (dev.push_notification.enabled == 0)
    else channel_enabled ctx dev.channels

-- `strncpy` to a place in an array. A list that outgrows the array is a write past its end.
unfoldable pub strncpy_at : Bytes → ℕ → Bytes → ℕ → Bytes
unfolding strncpy
strncpy_at array offset src n = take offset array ++ strncpy (drop offset array) src n

-- the array after the title
unfoldable pub with_title : ℕ → Bytes → Bytes
unfolding strncpy
with_title fields title =
    let zeros : Bytes = replicate title_and_body_size 0 in
    if managed_title fields then zeros else strncpy zeros title pn_title_maxsize

-- The notification that is sent; the two sizes are 16-bit.
unfoldable pub notification : Device → ℤ → Bytes → Bytes → ℤ → PushNotification
notification dev ctx title message sound_id =
    let fields = dev.push_notification.srv_managed_fields in
    let title_size = if managed_title fields then 0 else (strlen title + 1) % 65536 in
    let array = with_title fields title in
    record {
      context = ctx;
      sound_id = if managed_sound fields then negsuc 0 else sound_id;
      title_size = title_size;
      body_size = if managed_body fields then 0 else (strlen message + 1) % 65536;
      title_and_body =
          if managed_body fields
          then array
          else strncpy_at array title_size message pn_body_maxsize;
    }

-- `supla_dev_send_notification`
unfoldable pub supla_dev_send_notification : Env → World → ℤ → Bytes → Bytes → ℤ → World × ℤ
supla_dev_send_notification env w ctx title message sound_id =
    if enabled_for w.dev ctx
    then srpc_call env w (send_push_notification (notification w.dev ctx title message sound_id))
    else (w, pos result_false)
