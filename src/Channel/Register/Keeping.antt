-- ===== src/Channel/Register/Keeping.antt =====
-- `supla_channel_to_register_struct` of src/channel.c writes only the number of the related channel.
use libsupla.Prelude.{
  ℕ, ◌≡◌, refl, Option, none, some, some-injective, Bool-cases, inl, inr, ◌==◌, subst,
}
use libsupla.ActionTrigger.{SuplaActionTrigger}
use libsupla.Value.{SuplaValue}
use libsupla.Channel.{Channel}
use libsupla.Channel.Create.{type_actiontrigger}
use libsupla.Channel.Keeping.{Keeps, Keeps-refl}
use libsupla.Channel.Register.{
  DeviceChannel, RegisterBody, trigger_body, value_body, map_head, with_head,
  supla_channel_to_register_struct,
}

module _ (holds : ℕ → Option Channel) where
  trigger_body-Keeps :
      (c : Channel) (t : Option SuplaActionTrigger) (b : RegisterBody × Channel)
      → c.action_trigger ≡ t
      → trigger_body holds c t ≡ some b
      → Keeps c b.1
  unfolding trigger_body
  trigger_body-Keeps c none b e f = cc
  trigger_body-Keeps c (some t) b e f =
      subst (λ x. Keeps c x.1) (some-injective _ _ f)
        (record {
          number = refl;
          type = refl;
          formed = λ h. record { value = h.value; extvalue = h.extvalue; at = cc; sized = h.sized };
        })

  value_body-Keeps :
      (c : Channel) (v : Option SuplaValue) (b : RegisterBody × Channel)
      → value_body holds c v ≡ some b
      → Keeps c b.1
  unfolding value_body
  value_body-Keeps c none b f = cc
  value_body-Keeps c (some sv) b f = subst (λ x. Keeps c x.1) (some-injective _ _ f) (Keeps-refl c)

  map_head-Keeps :
      (c : Channel) (o : Option (RegisterBody × Channel)) (out : DeviceChannel × Channel)
      → ((b : RegisterBody × Channel) → o ≡ some b → Keeps c b.1)
      → map_head holds c o ≡ some out
      → Keeps c out.1
  unfolding map_head with_head
  map_head-Keeps c none out h f = cc
  map_head-Keeps c (some b) out h f = subst (λ x. Keeps c x.1) (some-injective _ _ f) (h b refl)

  pub to_register-Keeps :
      (c : Channel) (out : DeviceChannel × Channel)
      → supla_channel_to_register_struct holds c ≡ some out
      → Keeps c out.1
  unfolding supla_channel_to_register_struct
  to_register-Keeps c out = elim (Bool-cases (c.config.type == type_actiontrigger)) [
    | inl e ↦ simp e (map_head-Keeps c _ out (λ b. trigger_body-Keeps c c.action_trigger b refl))
    | inr e ↦ simp e (map_head-Keeps c _ out (λ b. value_body-Keeps c c.supla_val b))
  ]
