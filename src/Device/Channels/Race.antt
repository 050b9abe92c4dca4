-- ===== src/Device/Channels/Race.antt =====
-- `supla_dev_add_channel` of src/device.c reads the count of channels before it takes the lock under
-- which it inserts. Here it is two steps, so that two threads can come between each other.
use libsupla.Prelude.{
  ℕ, ◌+◌, ◌<◌, ◌≡◌, refl, [], ◌∷◌, ◌++◌, length, false, arith, if◌then◌else◌, leb,
}
use libsupla.Prelude.Int.{pos}
use libsupla.Value.{result_true, result_false}
use libsupla.Channel.{Channel}
use libsupla.Env.{Env}
use libsupla.Device.{World}
use libsupla.Device.Channels.{
  channelmaxcount, supla_dev_get_channel_count, supla_dev_add_channel, insert_tail, channel_init,
}

-- The channel with the number that was counted.
unfoldable pub counted : World → ℕ → Channel → Channel
counted w count ch = record ch { dev = w.dev.self; number = pos count }

-- `supla_dev_add_channel` from the return of its count on, the list being as it is by then.
unfoldable pub insert_counted : Env → ℕ → World → Channel → World × ℕ
unfolding counted
insert_counted env count w ch = if leb channelmaxcount (count + 1) then (w, result_false) else (
  channel_init env (record w { dev = insert_tail w.dev (counted w count ch) })
      (length w.dev.channels) (counted w count ch),
  result_true,
)

-- A thread that is alone inserts what it has counted.
pub insert_counted-alone :
    (env : Env) (w : World) (ch : Channel)
    → insert_counted env (supla_dev_get_channel_count w.dev) w ch ≡ supla_dev_add_channel env w ch
unfolding insert_counted supla_dev_add_channel supla_dev_get_channel_count counted
insert_counted-alone env w ch = refl

pub inserts-channels :
    (env : Env) (count : ℕ) (w : World) (ch : Channel)
    → count < 127
    → ch.config.on_channel_init ≡ false
    → (insert_counted env count w ch).0.dev.channels ≡ w.dev.channels ++ (counted w count ch ∷ [])
unfolding insert_counted channel_init counted
inserts-channels env count w ch room plain = ground arith

pub inserts-result :
    (env : Env) (count : ℕ) (w : World) (ch : Channel)
    → count < 127
    → (insert_counted env count w ch).1 ≡ result_true
unfolding insert_counted
inserts-result env count w ch room = ground arith

module _ (env : Env) (w : World) (a b : Channel) where
  -- Both threads have counted; the one with a inserts, and then the one with b.
  abbrev pub raced_first : World × ℕ
  raced_first = insert_counted env (supla_dev_get_channel_count w.dev) w a

  abbrev pub raced_second : World × ℕ
  raced_second = insert_counted env (supla_dev_get_channel_count w.dev) raced_first.0 b
