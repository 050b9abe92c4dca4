-- ===== src/Channel/Register/Faults.antt =====
-- When registration reads through a null pointer, and what it says of a channel otherwise.
use libsupla.Prelude.{ℕ, ◌≡◌, ◌≢◌, ◌↔◌, refl, Option, none, arith}
use libsupla.Channel.{Channel}
use libsupla.Channel.Create.{kind, Kind, values, extended, trigger, other, type_actiontrigger}
use libsupla.Channel.Create.Blocks.{IsWellFormed}
use libsupla.Channel.Register.{supla_channel_to_register_struct}

kind-trigger : (t : ℕ) → kind t ≡ trigger → t ≡ type_actiontrigger
unfolding kind
kind-trigger t e = ground arith

kind-actiontrigger : (t : ℕ) → t ≡ type_actiontrigger → kind t ≡ trigger
unfolding kind
kind-actiontrigger t e = rw e

module _ (holds : ℕ → Option Channel) (ch : Channel) (w : IsWellFormed ch) where
  faults_values : kind ch.config.type ≡ values → supla_channel_to_register_struct holds ch ≢ none
  unfolding supla_channel_to_register_struct
  faults_values e = ground (arith, kind-actiontrigger ch.config.type)

  faults_extended :
      kind ch.config.type ≡ extended → supla_channel_to_register_struct holds ch ≢ none
  unfolding supla_channel_to_register_struct
  faults_extended e = ground (arith, kind-actiontrigger ch.config.type)

  faults_trigger : kind ch.config.type ≡ trigger → supla_channel_to_register_struct holds ch ≢ none
  unfolding supla_channel_to_register_struct
  faults_trigger e = ground (arith, kind-trigger ch.config.type)

  faults_other : kind ch.config.type ≡ other → supla_channel_to_register_struct holds ch ≡ none
  unfolding supla_channel_to_register_struct
  faults_other e = ground (arith, kind-actiontrigger ch.config.type)

  -- Registration of a well-formed channel reads through a null pointer exactly if the channel's type
  -- is none of those that `supla_channel_create` knows.
  pub register_faults :
      (supla_channel_to_register_struct holds ch ≡ none) ↔ (kind ch.config.type ≡ other)
  register_faults = (by_kind (kind ch.config.type) refl, faults_other)
    where
      by_kind :
          (k : Kind)
          → kind ch.config.type ≡ k
          → supla_channel_to_register_struct holds ch ≡ none
          → kind ch.config.type ≡ other
      by_kind values e h = absurd (faults_values e h)
      by_kind extended e h = absurd (faults_extended e h)
      by_kind trigger e h = absurd (faults_trigger e h)
      by_kind other e h = e
