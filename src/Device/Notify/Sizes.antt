-- ===== src/Device/Notify/Sizes.antt =====
-- How much of its array a notification fills.
use libsupla.Prelude.{
  ℕ, ◌+◌, ◌-◌, ◌%◌, ◌≤◌, ◌<◌, ◌≡◌, ◌↔◌, ◌∙◌, false, ◌++◌, length, take, drop, replicate, arith,
  Bytes, c_string, strlen, strncpy, length-append, length-take, length-drop, length-replicate,
  length-strncpy, Bool-cases, inl, inr,
}
use native.Mathlib.Decide.{dec_le}
use libsupla.Prelude.Int.{ℤ}
use libsupla.Device.{Device}
use libsupla.Device.Notify.{
  title_and_body_size, managed_title, managed_body, strncpy_at, with_title, notification,
}

length-strncpy_max : (dst src : Bytes) (n : ℕ) → length (strncpy dst src n) ≡ n + (length dst - n)
unfolding strncpy
length-strncpy_max dst src n =
    let s = take n (c_string src) in
    omega (
      arith,
      length-append s (replicate (n - length s) 0 ++ drop n dst),
      length-append {A = ℕ} (replicate (n - length s) 0) (drop n dst),
      length-replicate {A = ℕ} (n - length s) 0,
      length-take n (c_string src),
      length-drop n dst,
    )

length-strncpy_at :
    (array : Bytes) (offset : ℕ) (src : Bytes) (n : ℕ)
    → offset ≤ length array
    → length (strncpy_at array offset src n) ≡ offset + (n + (length array - offset - n))
unfolding strncpy_at
length-strncpy_at array offset src n h = omega (
  arith,
  length-append (take offset array) (strncpy (drop offset array) src n),
  length-take offset array,
  length-drop offset array,
  length-strncpy_max (drop offset array) src n,
)

length-strncpy_at_beyond :
    (array : Bytes) (offset : ℕ) (src : Bytes) (n : ℕ)
    → length array ≤ offset
    → length (strncpy_at array offset src n) ≡ length array + n
unfolding strncpy_at
length-strncpy_at_beyond array offset src n h = omega (
  arith,
  length-append (take offset array) (strncpy (drop offset array) src n),
  length-take offset array,
  length-drop offset array,
  length-strncpy_max (drop offset array) src n,
)

length-with_title : (fields : ℕ) (title : Bytes) → length (with_title fields title) ≡ 357
unfolding with_title
length-with_title fields title = elim (Bool-cases (managed_title fields)) [
  | inl e ↦ rw e (length-replicate {A = ℕ} 357 0)
  | inr e ↦
      rw e
        (length-strncpy (replicate 357 0) title 101 (omega arith) ∙ length-replicate {A = ℕ} 357 0)
]

-- Of a title and a body that the program gives, not the server, and a title shorter than 65,535
-- bytes: the array of the notification keeps its length through the writes exactly if the title has
-- at most 100 bytes.
pub notification-fits :
    (dev : Device) (ctx : ℤ) (title message : Bytes) (sound_id : ℤ)
    → managed_title dev.push_notification.srv_managed_fields ≡ false
    → managed_body dev.push_notification.srv_managed_fields ≡ false
    → strlen title < 65535
    → (length (notification dev ctx title message sound_id).title_and_body ≡ title_and_body_size)
      ↔ (strlen title ≤ 100)
unfolding notification
notification-fits dev ctx title message sound_id t b h = rw (t, b) (fits, kept)
  where
    array : Bytes
    array = with_title dev.push_notification.srv_managed_fields title

    inside :
        (strlen title + 1) % 65536 ≤ 357
        → length (strncpy_at array ((strlen title + 1) % 65536) message 256)
          ≡ (strlen title + 1) % 65536 + (256 + (357 - (strlen title + 1) % 65536 - 256))
    inside le = omega (
      arith,
      length-with_title dev.push_notification.srv_managed_fields title,
      length-strncpy_at array ((strlen title + 1) % 65536) message 256
          (omega (arith, length-with_title dev.push_notification.srv_managed_fields title)),
    )

    outside :
        357 ≤ (strlen title + 1) % 65536
        → length (strncpy_at array ((strlen title + 1) % 65536) message 256) ≡ 613
    outside le = omega (
      arith,
      length-with_title dev.push_notification.srv_managed_fields title,
      length-strncpy_at_beyond array ((strlen title + 1) % 65536) message 256
          (omega (arith, length-with_title dev.push_notification.srv_managed_fields title)),
    )

    fits :
        length (strncpy_at array ((strlen title + 1) % 65536) message 256) ≡ 357
        → strlen title ≤ 100
    fits e = elim (dec_le ((strlen title + 1) % 65536) 357) [
      | yes le ↦ omega (arith, inside le)
      | no gt ↦ omega (arith, outside (omega arith))
    ]

    kept :
        strlen title ≤ 100
        → length (strncpy_at array ((strlen title + 1) % 65536) message 256) ≡ 357
    kept le = omega (arith, inside (omega arith))
