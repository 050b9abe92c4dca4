-- ===== src/Device/Register/Keeping.antt =====
-- The registration of src/device.c writes to the channels of a device only their related channels.
use libsupla.Prelude.{
  ℕ, zero, suc, ◌+◌, ◌≡◌, ◌∙◌, refl, sym, subst, Option, none, some, List, inl, inr, Option-cases,
  Bool-cases, some-injective, ap,
}
use libsupla.Prelude.Int.{ℤ, pos}
use libsupla.Channel.{Channel}
use libsupla.Channel.Register.{DeviceChannel, supla_channel_to_register_struct}
use libsupla.Channel.Register.Keeping.{to_register-Keeps}
use libsupla.Wire.{RegisterHeader}
use libsupla.Env.{Env}
use libsupla.Device.{World, put_channel}
use libsupla.Device.Channels.Keeping.{
  KeepsChannels, KeepsAll-refl, KeepsAll-trans, KeepsAll-set, IsLocated,
  get_channel_by_num-IsLocated,
}
use libsupla.Device.Register.{
  register_header, data_of, cons_struct, get_channel_data_callback, collect, finish_register,
  supla_dev_register,
}

module _ (env : Env) where
  pub data_of-Keeps :
      (w w' : World) (found : Option (ℕ × Channel)) (d : DeviceChannel)
      → IsLocated w found
      → data_of env w found ≡ some (d, w')
      → KeepsChannels w w'
  unfolding data_of
  data_of-Keeps w w' none d l = λ e. cc
  data_of-Keeps w w' (some (i, c)) d l =
      elim (Option-cases (supla_channel_to_register_struct env.holds c)) [
        | inl f ↦ λ e. (let g : data_of env w (some (i, c)) ≡ none = rw (f, data_of) in cc)
        | inr ((d', c'), f) ↦ λ e.
            (let g : data_of env w (some (i, c)) ≡ some (d', put_channel w i c') =
                rw (f, data_of) in
              subst (λ x. KeepsChannels w x.1) (some-injective _ _ (sym g ∙ e))
                (KeepsAll-set w.dev.channels i c c' l (to_register-Keeps env.holds c (d', c') f)))
      ]

  pub cons_struct-some :
      (d : DeviceChannel) (o : Option (List DeviceChannel × World))
      (out : List DeviceChannel × World)
      → cons_struct d o ≡ some out
      → (ds : List DeviceChannel) × (o ≡ some (ds, out.1))
  unfolding cons_struct
  cons_struct-some d none out e = cc
  cons_struct-some d (some (ds, w)) out e =
      (ds, ap (λ t. some (ds, t)) (ap (λ x. x.1) (some-injective _ _ e)))

  collect-Keeps :
      (left : ℕ) (w : World) (i : ℕ) (out : List DeviceChannel × World)
      → collect env w i left ≡ some out
      → KeepsChannels w out.1
  unfolding collect
  collect-Keeps zero w i out =
      λ e. subst (λ x. KeepsChannels w x.1) (some-injective _ _ e) (KeepsAll-refl w.dev.channels)
  collect-Keeps (suc left) w i out = elim (Option-cases (get_channel_data_callback env w (pos i))) [
    | inl f ↦ λ e. (let g : collect env w i (suc left) ≡ none = rw (f, collect) in cc)
    | inr ((d, w1), f) ↦ λ e.
        (let step : collect env w i (suc left) ≡ cons_struct d (collect env w1 (i + 1) left) =
            rw (f, collect) in
          let (ds, g) = cons_struct-some d (collect env w1 (i + 1) left) out (sym step ∙ e) in
          KeepsAll-trans w.dev.channels w1.dev.channels out.1.dev.channels
            (unfold get_channel_data_callback in
              data_of-Keeps w w1 _ d (get_channel_by_num-IsLocated w (pos i)) f)
            (collect-Keeps left w1 (i + 1) (ds, out.1) g))
  ]

  finish-Keeps :
      (w : World) (hdr : RegisterHeader) (o : Option (List DeviceChannel × World)) (out : World × ℤ)
      → ((r : List DeviceChannel × World) → o ≡ some r → KeepsChannels w r.1)
      → finish_register env hdr o ≡ some out
      → KeepsChannels w out.0
  unfolding finish_register
  finish-Keeps w hdr none out h e = cc
  finish-Keeps w hdr (some (ds, v)) out h e =
      subst (λ x. KeepsChannels w x.0) (some-injective _ _ e) (h (ds, v) refl)

  pub register-Keeps :
      (w : World) (out : World × ℤ) → supla_dev_register env w ≡ some out → KeepsChannels w out.0
  unfolding supla_dev_register
  register-Keeps w out =
      let w' = record w { dev = record w.dev { register_time = env.now w.trace } } in
      let hdr = register_header w.dev in
      elim (Bool-cases (env.register_allowed w.trace)) [
        | inl b ↦
            simp b (finish-Keeps w hdr _ out (λ r e. collect-Keeps hdr.channel_count w' 0 r e))
        | inr b ↦ simp b (λ e.
            subst (λ x. KeepsChannels w x.0) (some-injective _ _ e) (KeepsAll-refl w.dev.channels))
      ]
