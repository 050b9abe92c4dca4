-- ===== src/Device/Register/Collect.antt =====
-- The registration asks for the channels by number; it tells the server of every channel, once, in
-- the order of the list.
use libsupla.Prelude.{
  ℕ, ◌+◌, ◌<◌, ◌≡◌, ◌≢◌, ◌∙◌, sym, ap, refl, Option, none, some, List, [], ◌∷◌, ◌++◌, length,
  get_elem?, arith, true, set, All, Option-cases, inl, inr,
}
use mathlib.Core.List.{append_assoc}
use mathlib.Core.Path.{subst}
use libsupla.Prelude.Int.{ℤ, pos}
use libsupla.Channel.{Channel}
use libsupla.Channel.Create.{kind, other}
use libsupla.Channel.Create.Blocks.{IsWellFormed}
use libsupla.Channel.Register.{DeviceChannel, supla_channel_to_register_struct}
use libsupla.Channel.Register.Faults.{register_faults}
use libsupla.Wire.{register_device}
use libsupla.Env.{Env, called}
use libsupla.Device.{Device, World}
use libsupla.Device.Channels.{supla_dev_get_channel_count}
use libsupla.Device.Channels.Numbering.{NumberedFrom, IsNumbered, get_channel_by_num-IsNumbered}
use libsupla.Device.Register.{
  register_header, data_of, cons_struct, get_channel_data_callback, collect, finish_register,
  supla_dev_register,
}

cons_both :
    DeviceChannel
    → Channel
    → Option (List DeviceChannel × List Channel)
    → Option (List DeviceChannel × List Channel)
cons_both d ch none = none
cons_both d ch (some (ds, chs)) = some (d ∷ ds, ch ∷ chs)

-- The structs of a list of channels, each channel as its struct's making leaves it; or a fault.
pub register_all : (ℕ → Option Channel) → List Channel → Option (List DeviceChannel × List Channel)
register_all holds [] = some ([], [])
register_all holds (ch ∷ chs) = elim (supla_channel_to_register_struct holds ch) [
  | none ↦ none
  | some (d, ch') ↦ cons_both d ch' (register_all holds chs)
]

number-to_register :
    (holds : ℕ → Option Channel) (ch ch' : Channel) (d : DeviceChannel)
    → supla_channel_to_register_struct holds ch ≡ some (d, ch')
    → ch'.number ≡ ch.number
unfolding supla_channel_to_register_struct
number-to_register holds ch ch' d e = ground arith

-- The device with another list of channels.
abbrev pub with_channels : World → List Channel → World
with_channels w chs = record w { dev = record w.dev { channels = chs } }

get_elem?-middle :
    (pre rest : List Channel) (ch : Channel) → get_elem? (pre ++ (ch ∷ rest)) (length pre) ≡ some ch
get_elem?-middle [] rest ch = refl
get_elem?-middle (c ∷ pre) rest ch = get_elem?-middle pre rest ch

set-middle :
    (pre rest : List Channel) (ch ch' : Channel)
    → set (pre ++ (ch ∷ rest)) (length pre) ch' ≡ pre ++ (ch' ∷ rest)
set-middle [] rest ch ch' = refl
set-middle (c ∷ pre) rest ch ch' = ap (λ t. c ∷ t) (set-middle pre rest ch ch')

length-snoc : (pre : List Channel) (ch : Channel) → length (pre ++ (ch ∷ [])) ≡ length pre + 1
length-snoc [] ch = refl
length-snoc (c ∷ pre) ch = omega (arith, length-snoc pre ch)

NumberedFrom-middle :
    (pre rest : List Channel) (ch ch' : Channel) (i : ℕ)
    → NumberedFrom i (pre ++ (ch ∷ rest))
    → ch'.number ≡ ch.number
    → NumberedFrom i (pre ++ (ch' ∷ rest))
NumberedFrom-middle [] rest ch ch' i h e = (e ∙ h.0, h.1)
NumberedFrom-middle (c ∷ pre) rest ch ch' i h e =
    (h.0, NumberedFrom-middle pre rest ch ch' (i + 1) h.1 e)

-- What the loop makes of the remaining channels.
joined :
    World
    → List Channel
    → Option (List DeviceChannel × List Channel)
    → Option (List DeviceChannel × World)
joined w pre none = none
joined w pre (some (ds, rest)) = some (ds, with_channels w (pre ++ rest))

module _ (env : Env) (w : World) where
  -- one call of the callback
  callback_lem :
      (pre rest : List Channel) (ch : Channel)
      → NumberedFrom 0 (pre ++ (ch ∷ rest))
      → get_channel_data_callback env (with_channels w (pre ++ (ch ∷ rest))) (pos (length pre))
        ≡ data_of env (with_channels w (pre ++ (ch ∷ rest))) (some (length pre, ch))
  unfolding get_channel_data_callback
  callback_lem pre rest ch h = ap (data_of env (with_channels w (pre ++ (ch ∷ rest)))) (
      (get_channel_by_num-IsNumbered (with_channels w (pre ++ (ch ∷ rest))).dev (length pre) h).0 ch
        (get_elem?-middle pre rest ch))

  data_of-some :
      (pre rest : List Channel) (ch ch' : Channel) (d : DeviceChannel)
      → supla_channel_to_register_struct env.holds ch ≡ some (d, ch')
      → data_of env (with_channels w (pre ++ (ch ∷ rest))) (some (length pre, ch))
        ≡ some (d, with_channels w ((pre ++ (ch' ∷ [])) ++ rest))
  unfolding data_of
  data_of-some pre rest ch ch' d e =
      rw (e, data_of)
        (ap (λ t. some (d, with_channels w t))
          (set-middle pre rest ch ch' ∙ sym (append_assoc pre (ch' ∷ []) rest)))

  data_of-none :
      (u : World) (i : ℕ) (ch : Channel)
      → supla_channel_to_register_struct env.holds ch ≡ none
      → data_of env u (some (i, ch)) ≡ none
  unfolding data_of
  data_of-none u i ch e = rw (e, data_of)

  joined-cons :
      (pre : List Channel) (ch : Channel) (d : DeviceChannel)
      (r : Option (List DeviceChannel × List Channel))
      → cons_struct d (joined w (pre ++ (ch ∷ [])) r) ≡ joined w pre (cons_both d ch r)
  unfolding joined cons_struct cons_both
  joined-cons pre ch d none = refl
  joined-cons pre ch d (some (ds, rest)) =
      ap (λ t. some (d ∷ ds, with_channels w t)) (append_assoc pre (ch ∷ []) rest)

  -- the claim for the channels that are left
  abbrev Collects : List Channel → List Channel → Type 0
  Collects pre rest =
      NumberedFrom 0 (pre ++ rest)
      → collect env (with_channels w (pre ++ rest)) (length pre) (length rest)
        ≡ joined w pre (register_all env.holds rest)

  collect-cons :
      (pre rest : List Channel) (ch : Channel)
      → ((pre' : List Channel) → Collects pre' rest)
      → (r : Option (DeviceChannel × Channel)) → supla_channel_to_register_struct env.holds ch ≡ r
      → Collects pre (ch ∷ rest)
  unfolding collect register_all joined
  collect-cons pre rest ch later none e h =
      rw (callback_lem pre rest ch h ∙ data_of-none _ (length pre) ch e, collect)
        (rw (e, register_all))
  collect-cons pre rest ch later (some (d, ch')) e h =
      let moved : NumberedFrom 0 ((pre ++ (ch' ∷ [])) ++ rest) =
        subst (NumberedFrom 0) (sym (append_assoc pre (ch' ∷ []) rest))
          (NumberedFrom-middle pre rest ch ch' 0 h (number-to_register env.holds ch ch' d e)) in
      let next = later (pre ++ (ch' ∷ [])) moved in
      rw (callback_lem pre rest ch h ∙ data_of-some pre rest ch ch' d e, collect)
        (rw (← length-snoc pre ch', next)
          (rw (e, register_all) (joined-cons pre ch' d (register_all env.holds rest))))

  -- The loop over the channels that are left, from the first one's number on.
  collect_lem : (pre rest : List Channel) → Collects pre rest
  unfolding collect register_all joined
  collect_lem pre [] h = refl
  collect_lem pre (ch ∷ rest) h =
      collect-cons pre rest ch (λ pre'. collect_lem pre' rest)
        (supla_channel_to_register_struct env.holds ch) refl h

-- What the registration comes to, given the structs of the channels.
unfoldable pub registered_by :
    Env → World → Option (List DeviceChannel × List Channel) → Option (World × ℤ)
registered_by env w none = none
registered_by env w (some (ds, chs)) =
    let c = register_device (register_header w.dev) ds in
    let dev' = record w.dev { register_time = env.now w.trace; channels = chs } in
    some (record { dev = dev'; trace = called c ∷ w.trace }, env.call_result w.trace c)

finish-joined :
    (env : Env) (w : World) (r : Option (List DeviceChannel × List Channel))
    → finish_register env
        (register_header w.dev)
        (joined (record w { dev = record w.dev { register_time = env.now w.trace } }) [] r)
      ≡ registered_by env w r
unfolding finish_register joined registered_by
finish-joined env w none = refl
finish-joined env w (some (ds, chs)) = refl

pub channel_count_lem :
    (dev : Device)
    → length dev.channels < 256
    → (register_header dev).channel_count ≡ length dev.channels
unfolding register_header supla_dev_get_channel_count
channel_count_lem dev h = omega arith

-- For a numbered device of fewer than 256 channels, and a protocol version with the call: one
-- registration call goes out, with the header and the structs of all channels in order; the
-- channels stay as the making of the structs leaves them, the time of the registration is noted, and
-- the result is the call's. If some channel's struct cannot be made the registration faults.
pub supla_dev_register_lem :
    (env : Env) (w : World)
    → IsNumbered w.dev
    → length w.dev.channels < 256
    → env.register_allowed w.trace ≡ true
    → supla_dev_register env w ≡ registered_by env w (register_all env.holds w.dev.channels)
unfolding supla_dev_register
supla_dev_register_lem env w numbered small allowed =
    let started = record w { dev = record w.dev { register_time = env.now w.trace } } in
    rw allowed (
      ap (λ n. finish_register env (register_header w.dev) (collect env started 0 n))
        (channel_count_lem w.dev small)
      ∙ ap (finish_register env (register_header w.dev))
          (collect_lem env started [] w.dev.channels numbered)
      ∙ finish-joined env w (register_all env.holds w.dev.channels))

-- A channel of a type that the library knows, as `supla_channel_create` makes it.
abbrev pub IsRegistrable : Channel → Type 0
IsRegistrable ch = IsWellFormed ch × (kind ch.config.type ≢ other)

cons_both-ne-none :
    (d : DeviceChannel) (ch : Channel) (r : Option (List DeviceChannel × List Channel))
    → r ≢ none
    → cons_both d ch r ≢ none
unfolding cons_both
cons_both-ne-none d ch none h = absurd (h refl)
cons_both-ne-none d ch (some (ds, chs)) h = λ e. cc

-- The structs of any channels can be made that are of types that the library knows, and as
-- `supla_channel_create` makes them.
pub register_all-IsRegistrable :
    (holds : ℕ → Option Channel) (chs : List Channel)
    → All IsRegistrable chs
    → register_all holds chs ≢ none
unfolding register_all
register_all-IsRegistrable holds [] h = λ e. cc
register_all-IsRegistrable holds (ch ∷ chs) (good, rest) =
    elim (Option-cases (supla_channel_to_register_struct holds ch)) [
      | inl e ↦ absurd (good.1 ((register_faults holds ch good.0).0 e))
      | inr (r, e) ↦
          rw (e, register_all)
            (cons_both-ne-none r.0 r.1 (register_all holds chs)
              (register_all-IsRegistrable holds chs rest))
    ]
