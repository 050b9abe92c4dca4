-- ===== src/Device/Register/Missing.antt =====
-- The registration of src/device.c asks for every number below the count of channels: a number that
-- no channel has fails its assertion.
use libsupla.Prelude.{
  ℕ, zero, suc, ◌+◌, ◌≤◌, ◌<◌, ◌≡◌, ◌∙◌, refl, ap, none, some, List, [], ◌∷◌, length, All, true,
  false, inl, inr, Option-cases, arith,
}
use native.Mathlib.Decide.{dec_lt}
use libsupla.Prelude.Int.{ℤ, pos, eqb_ℤ}
use libsupla.Channel.{Channel}
use libsupla.Channel.Register.{DeviceChannel}
use libsupla.Env.{Env}
use libsupla.Device.{World, find_channel, supla_dev_get_channel_by_num}
use libsupla.Device.Channels.Keeping.{KeepsAll, get_channel_by_num-IsLocated}
use libsupla.Device.Register.{
  register_header, data_of, cons_struct, get_channel_data_callback, collect, finish_register,
  supla_dev_register,
}
use libsupla.Device.Register.Collect.{channel_count_lem}
use libsupla.Device.Register.Keeping.{data_of-Keeps}

-- No channel of the device has the number.
abbrev pub IsMissing : ℕ → World → Type 0
IsMissing k w = All (λ c. eqb_ℤ c.number (pos k) ≡ false) w.dev.channels

find_channel-missing :
    (cs : List Channel) (k i : ℕ)
    → All (λ c. eqb_ℤ c.number (pos k) ≡ false) cs
    → find_channel cs (pos k) i none ≡ none
unfolding find_channel
find_channel-missing [] k i h = refl
find_channel-missing (c ∷ cs) k i (h, hs) = simp h (find_channel-missing cs k (i + 1) hs)

All-missing :
    (k : ℕ) (cs ds : List Channel)
    → KeepsAll cs ds
    → All (λ c. eqb_ℤ c.number (pos k) ≡ false) cs
    → All (λ c. eqb_ℤ c.number (pos k) ≡ false) ds
All-missing k [] [] h a = tt
All-missing k [] (d ∷ ds) h a = absurd h
All-missing k (c ∷ cs) [] h a = tt
All-missing k (c ∷ cs) (d ∷ ds) h a =
    (ap (λ n. eqb_ℤ n (pos k)) h.0.number ∙ a.0, All-missing k cs ds h.1 a.1)

module _ (env : Env) (k : ℕ) where
  callback-missing : (w : World) → IsMissing k w → get_channel_data_callback env w (pos k) ≡ none
  unfolding get_channel_data_callback data_of supla_dev_get_channel_by_num
  callback-missing w m = ap (data_of env w) (find_channel-missing w.dev.channels k 0 m)

  callback-IsMissing :
      (w w1 : World) (n : ℤ) (d : DeviceChannel)
      → get_channel_data_callback env w n ≡ some (d, w1)
      → IsMissing k w
      → IsMissing k w1
  unfolding get_channel_data_callback
  callback-IsMissing w w1 n d e m =
      All-missing k w.dev.channels w1.dev.channels
        (data_of-Keeps env w w1 (supla_dev_get_channel_by_num w.dev n) d
          (get_channel_by_num-IsLocated w n) e)
        m

  collect-missing :
      (left : ℕ) (w : World) (i : ℕ)
      → i ≤ k
      → k < i + left
      → IsMissing k w
      → collect env w i left ≡ none
  unfolding collect
  collect-missing zero w i le lt m = absurd (omega arith)
  collect-missing (suc left) w i le lt m =
      elim (Option-cases (get_channel_data_callback env w (pos i))) [
        | inl f ↦ rw (f, collect)
        | inr ((d, w1), f) ↦ elim (dec_lt i k) [
          | yes below ↦
              let rest : collect env w1 (i + 1) left ≡ none =
                collect-missing left w1 (i + 1) (omega (arith, below)) (omega (arith, lt))
                  (callback-IsMissing w w1 (pos i) d f m) in
              rw (f, collect) (unfold cons_struct in rw rest refl)
          | no above ↦
              let same : i ≡ k = omega (arith, le, above) in
              let gone : get_channel_data_callback env w (pos i) ≡ none =
                rw same (callback-missing w m) in
              cc
        ]
      ]

  -- If the protocol version has the call, a device of fewer than 256 channels faults in its
  -- registration when a number below their count belongs to no channel.
  pub register-missing :
      (w : World)
      → k < length w.dev.channels
      → length w.dev.channels < 256
      → IsMissing k w
      → env.register_allowed w.trace ≡ true
      → supla_dev_register env w ≡ none
  unfolding supla_dev_register finish_register
  register-missing w below small m allowed =
      let w' = record w { dev = record w.dev { register_time = env.now w.trace } } in
      let gone : collect env w' 0 (register_header w.dev).channel_count ≡ none =
        collect-missing (register_header w.dev).channel_count w' 0 (omega arith)
          (omega (arith, channel_count_lem w.dev small, below)) m in
      simp (allowed, gone) refl
