-- ===== src/Channel/Register/Reported.antt =====
-- The value that the registration struct of src/channel.c carries.
use libsupla.Prelude.{
  ℕ, ◌≡◌, subst, Option, none, some, some-injective, Bytes, Bool-cases, inl, inr, ◌==◌, refl,
}
use libsupla.Value.{SuplaValue}
use libsupla.ActionTrigger.{SuplaActionTrigger}
use libsupla.Channel.{Channel}
use libsupla.Channel.Create.{type_actiontrigger}
use libsupla.Channel.Register.{
  RegisterBody, values, DeviceChannel, trigger_body, value_body, map_head, with_head,
  supla_channel_to_register_struct,
}

-- A value in the union is that of the channel.
abbrev Reports : RegisterBody → Channel → Type 0
Reports body c =
    (functions : ℕ) (r : Bytes) (sv : SuplaValue)
    → body ≡ values functions r
    → c.supla_val ≡ some sv
    → sv.value ≡ r

module _ (holds : ℕ → Option Channel) where
  Reports-trigger :
      (c : Channel) (t : Option SuplaActionTrigger) (b : RegisterBody × Channel)
      → trigger_body holds c t ≡ some b
      → Reports b.0 b.1
  unfolding trigger_body
  Reports-trigger c none b f = cc
  Reports-trigger c (some t) b f =
      subst (λ (x : RegisterBody × Channel). Reports x.0 x.1) (some-injective _ _ f)
        (λ functions r sv e v. cc)

  Reports-value :
      (c : Channel) (v : Option SuplaValue) (b : RegisterBody × Channel)
      → c.supla_val ≡ v
      → value_body holds c v ≡ some b
      → Reports b.0 b.1
  unfolding value_body
  Reports-value c none b g f = cc
  Reports-value c (some sv) b g f =
      subst (λ (x : RegisterBody × Channel). Reports x.0 x.1) (some-injective _ _ f)
        (λ functions r w e v. cc)

  Reports-head :
      (c : Channel) (o : Option (RegisterBody × Channel)) (out : DeviceChannel × Channel)
      → ((b : RegisterBody × Channel) → o ≡ some b → Reports b.0 b.1)
      → map_head holds c o ≡ some out
      → Reports out.0.body out.1
  unfolding map_head with_head
  Reports-head c none out h f = cc
  Reports-head c (some b) out h f =
      subst (λ (x : DeviceChannel × Channel). Reports x.0.body x.1) (some-injective _ _ f)
        (h b refl)

  -- A value that the registration struct carries is the one that the channel has.
  pub to_register-value :
      (c : Channel) (out : DeviceChannel × Channel)
      → supla_channel_to_register_struct holds c ≡ some out
      → (functions : ℕ) (r : Bytes) (sv : SuplaValue) → out.0.body ≡ values functions r
      → out.1.supla_val ≡ some sv
      → sv.value ≡ r
  unfolding supla_channel_to_register_struct
  to_register-value c out = elim (Bool-cases (c.config.type == type_actiontrigger)) [
    | inl e ↦ simp e (Reports-head c _ out (λ b. Reports-trigger c c.action_trigger b))
    | inr e ↦ simp e (Reports-head c _ out (λ b. Reports-value c c.supla_val b refl))
  ]
