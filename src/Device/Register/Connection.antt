-- ===== src/Device/Register/Connection.antt =====
-- The registration of src/device.c makes no attempt to connect, and tells the program nothing.
use libsupla.Prelude.{
  ℕ, zero, suc, ◌+◌, ◌≡◌, ◌∙◌, refl, sym, ap, Option, none, some, List, ◌∷◌, subst, inl, inr,
  Option-cases, Bool-cases, some-injective,
}
use libsupla.Prelude.Int.{ℤ, pos}
use libsupla.Channel.{Channel}
use libsupla.Channel.Register.{DeviceChannel, supla_channel_to_register_struct}
use libsupla.Wire.{RegisterHeader, register_device}
use libsupla.Env.{Env, called}
use libsupla.Device.{World, put_channel, supla_dev_get_channel_by_num}
use libsupla.Device.Connection.{link_calls}
use libsupla.Device.Announcements.{told, Tells}
use libsupla.Device.Register.{
  register_header, data_of, cons_struct, get_channel_data_callback, collect, finish_register,
  supla_dev_register,
}
use libsupla.Device.Register.Keeping.{cons_struct-some}

-- Nothing but the channels differs.
abbrev OnlyChannels : World → World → Type 0
OnlyChannels w w' = w' ≡ record w { dev = record w.dev { channels = w'.dev.channels } }

OnlyChannels-trans : (u v w : World) → OnlyChannels u v → OnlyChannels v w → OnlyChannels u w
OnlyChannels-trans u v w h k =
    let with_channels : World → World =
      λ x. record x { dev = record x.dev { channels = w.dev.channels } } in
    k ∙ ap with_channels h

module _ (env : Env) where
  data_of-OnlyChannels :
      (w w' : World) (found : Option (ℕ × Channel)) (d : DeviceChannel)
      → data_of env w found ≡ some (d, w')
      → OnlyChannels w w'
  unfolding data_of
  data_of-OnlyChannels w w' none d e = cc
  data_of-OnlyChannels w w' (some (i, c)) d e =
      elim (Option-cases (supla_channel_to_register_struct env.holds c)) [
        | inl f ↦ let g : data_of env w (some (i, c)) ≡ none = rw (f, data_of) in cc
        | inr ((d', c'), f) ↦
            let g : data_of env w (some (i, c)) ≡ some (d', put_channel w i c') = rw (f, data_of) in
            subst (λ x. OnlyChannels w x.1) (some-injective _ _ (sym g ∙ e)) refl
      ]

  collect-OnlyChannels :
      (left : ℕ) (w : World) (i : ℕ) (out : List DeviceChannel × World)
      → collect env w i left ≡ some out
      → OnlyChannels w out.1
  unfolding collect
  collect-OnlyChannels zero w i out e = subst (λ x. OnlyChannels w x.1) (some-injective _ _ e) refl
  collect-OnlyChannels (suc left) w i out e =
      elim (Option-cases (get_channel_data_callback env w (pos i))) [
        | inl f ↦ let g : collect env w i (suc left) ≡ none = rw (f, collect) in cc
        | inr ((d, w1), f) ↦
            let step : collect env w i (suc left) ≡ cons_struct d (collect env w1 (i + 1) left) =
              rw (f, collect) in
            let (ds, g) = cons_struct-some env d (collect env w1 (i + 1) left) out (sym step ∙ e) in
            OnlyChannels-trans w w1 out.1
              (unfold get_channel_data_callback in
                data_of-OnlyChannels w w1 (supla_dev_get_channel_by_num w.dev (pos i)) d f)
              (collect-OnlyChannels left w1 (i + 1) (ds, out.1) g)
      ]

  -- The connection, and what the program is told, are left alone.
  pub record Registers (w w' : World) : Type 0 where
    pub links : link_calls w'.trace ≡ link_calls w.trace
    pub tells : Tells w w'

  Registers-finish :
      (u w : World) (hdr : RegisterHeader) (o : Option (List DeviceChannel × World))
      (out : World × ℤ)
      → Registers u w
      → ((r : List DeviceChannel × World) → o ≡ some r → OnlyChannels w r.1)
      → finish_register env hdr o ≡ some out
      → Registers u out.0
  unfolding finish_register link_calls told
  Registers-finish u w hdr none out k h e = cc
  Registers-finish u w hdr (some (ds, v)) out k h e =
      subst (λ x. Registers u x.0) (some-injective _ _ e)
        (subst (λ x. Registers u (record x { trace = called (register_device hdr ds) ∷ x.trace }))
          (sym (h (ds, v) refl)) (record { links = k.links; tells = k.tells }))

  pub register-Registers :
      (w : World) (out : World × ℤ) → supla_dev_register env w ≡ some out → Registers w out.0
  unfolding supla_dev_register
  register-Registers w out =
      let w' = record w { dev = record w.dev { register_time = env.now w.trace } } in
      let hdr = register_header w.dev in
      let r : Registers w w' = record { links = refl; tells = (refl, inl (refl, refl)) } in
      elim (Bool-cases (env.register_allowed w.trace)) [
        | inl b ↦ simp b (
            Registers-finish w w' hdr _ out r
              (λ x e. collect-OnlyChannels hdr.channel_count w' 0 x e))
        | inr b ↦ simp b (λ e. subst (λ x. Registers w x.0) (some-injective _ _ e) r)
      ]
