-- ===== src/Channel/Create/Blocks.antt =====
-- `supla_channel_create` neither leaks nor frees twice, and a created channel has the parts that
-- its type calls for.
use mathlib.Core.List.{reverse}
use libsupla.Prelude.{
  ◌≡◌, refl, Bool, true, false, Option, none, some, is_some, List, [], ◌∷◌, ◌++◌, if◌then◌else◌,
  arith, Bool-cases, inl, inr,
}
use libsupla.Prelude.Int.{negsuc}
use libsupla.ActionTrigger.{SuplaActionTrigger}
use libsupla.Value.{SuplaValue}
use libsupla.Value.Sync
use libsupla.Channel.{Channel, ChannelConfig}
use libsupla.Channel.Create.{
  Kind, values, extended, trigger, other, kind, Block, channel_block, value_block, extvalue_block,
  trigger_block, lock_block, initial, allocate, with_value, with_extvalue, new_trigger,
  supla_channel_create,
}

-- The blocks that a channel of a kind wants, in the order of the calls.
unfoldable pub wanted : Kind → List Block
wanted values = channel_block ∷ value_block ∷ []
wanted extended = channel_block ∷ value_block ∷ extvalue_block ∷ []
wanted trigger = channel_block ∷ trigger_block ∷ []
wanted other = channel_block ∷ []

-- The blocks that the heap grants before its first refusal, and whether it grants all.
unfoldable pub granted : (Block → Bool) → List Block → List Block
granted heap [] = []
granted heap (b ∷ bs) = if heap b then b ∷ granted heap bs else []

unfoldable pub grants : (Block → Bool) → List Block → Bool
grants heap [] = true
grants heap (b ∷ bs) = if heap b then grants heap bs else false

grants-channel :
    (heap : Block → Bool) (k : Kind) → grants heap (wanted k) ≡ true → heap channel_block ≡ true
unfolding grants wanted
grants-channel heap values g = ground arith
grants-channel heap extended g = ground arith
grants-channel heap trigger g = ground arith
grants-channel heap other g = ground arith

granted-none :
    (heap : Block → Bool) (k : Kind) → heap channel_block ≡ false → granted heap (wanted k) ≡ []
unfolding granted wanted
granted-none heap values g = ground arith
granted-none heap extended g = ground arith
granted-none heap trigger g = ground arith
granted-none heap other g = ground arith

-- Which parts a channel of a kind has.
abbrev pub has_value : Kind → Bool
has_value values = true
has_value extended = true
has_value trigger = false
has_value other = false

abbrev pub has_extvalue : Kind → Bool
has_extvalue extended = true
has_extvalue values = false
has_extvalue trigger = false
has_extvalue other = false

abbrev pub has_trigger : Kind → Bool
has_trigger trigger = true
has_trigger values = false
has_trigger extended = false
has_trigger other = false

abbrev pub Sized : Option SuplaValue → Type 0
Sized none = Unit
Sized (some sv) = Sync.IsSized sv

-- A channel with the parts of its kind, its value array of full size.
pub record IsWellFormed (ch : Channel) : Type 0 where
  pub value : is_some ch.supla_val ≡ has_value (kind ch.config.type)
  pub extvalue : is_some ch.supla_extval ≡ has_extvalue (kind ch.config.type)
  pub at : is_some ch.action_trigger ≡ has_trigger (kind ch.config.type)
  pub sized : Sized ch.supla_val

-- A new channel: well formed, in no device, with its default function active.
pub record IsNew (c : ChannelConfig) (ch : Channel) : Type 0 where
  pub formed : IsWellFormed ch
  pub number : ch.number ≡ negsuc 0
  pub unassigned : ch.dev ≡ 0
  pub active : ch.active_function ≡ c.default_function
  pub type : ch.config.type ≡ c.type

-- The channel when every allocation succeeds.
completed : SuplaActionTrigger → Channel → Kind → Channel
completed fresh ch values = with_value ch
completed fresh ch extended = with_extvalue (with_value ch)
completed fresh ch trigger = record ch { action_trigger = some (new_trigger fresh ch) }
completed fresh ch other = ch

completed-IsNew :
    (heap : Block → Bool) (fresh : SuplaActionTrigger) (c : ChannelConfig) (k : Kind)
    → kind c.type ≡ k
    → IsNew c (completed fresh (initial heap c) k)
unfolding completed initial with_value with_extvalue
completed-IsNew heap fresh c values e = ground arith
completed-IsNew heap fresh c extended e = ground arith
completed-IsNew heap fresh c trigger e = ground arith
completed-IsNew heap fresh c other e = ground arith

completed-lock :
    (fresh : SuplaActionTrigger) (ch : Channel) (k : Kind) → (completed fresh ch k).lock ≡ ch.lock
unfolding completed with_value with_extvalue
completed-lock fresh ch values = refl
completed-lock fresh ch extended = refl
completed-lock fresh ch trigger = refl
completed-lock fresh ch other = refl

-- The lock, if it was made; it is asked for as soon as there is a channel.
unfoldable pub made_lock : (Block → Bool) → List Block
made_lock heap =
    if heap channel_block then (if heap lock_block then lock_block ∷ [] else []) else []

made_lock-none : (heap : Block → Bool) → heap channel_block ≡ false → made_lock heap ≡ []
unfolding made_lock
made_lock-none heap e = simp e

module _ (heap : Block → Bool) (fresh : SuplaActionTrigger) (c : ChannelConfig) where
  allocate-success :
      (k : Kind)
      → grants heap (wanted k) ≡ true
      → allocate heap fresh (initial heap c) k ≡ (some (completed fresh (initial heap c) k), [])
  unfolding allocate completed grants wanted
  allocate-success values g = ground arith
  allocate-success extended g = ground arith
  allocate-success trigger g = ground arith
  allocate-success other g = ground arith

  allocate-failure :
      (k : Kind)
      → heap channel_block ≡ true
      → grants heap (wanted k) ≡ false
      → allocate heap fresh (initial heap c) k
        ≡ (none, made_lock heap ++ reverse (granted heap (wanted k)))
  unfolding allocate initial with_value grants granted wanted made_lock
  allocate-failure values ok g = ground arith
  allocate-failure extended ok g = ground arith
  allocate-failure trigger ok g = ground arith
  allocate-failure other ok g = ground arith

  -- If the heap grants every block that the type wants, the lock aside, the result is a new channel,
  -- well formed for its type, and nothing is freed; it has a lock if the heap grants one, and is
  -- returned without a lock otherwise. If one of those blocks is refused, the result is null, and what
  -- was granted is freed, each block once: first the lock, if it was made, and then the other blocks,
  -- the last one first.
  pub supla_channel_create_lem :
      (grants heap (wanted (kind c.type)) ≡ true
        → (ch : Channel) × (supla_channel_create heap fresh c ≡ (some ch, []))
          × IsNew c ch
          × (ch.lock ≡ heap lock_block))
      × (grants heap (wanted (kind c.type)) ≡ false
          → supla_channel_create heap fresh c
            ≡ (none, made_lock heap ++ reverse (granted heap (wanted (kind c.type)))))
  unfolding supla_channel_create
  supla_channel_create_lem = (success, failure)
    where
      success :
          grants heap (wanted (kind c.type)) ≡ true
          → (ch : Channel) × (supla_channel_create heap fresh c ≡ (some ch, []))
            × IsNew c ch
            × (ch.lock ≡ heap lock_block)
      success g = (
        completed fresh (initial heap c) (kind c.type),
        rw (grants-channel heap (kind c.type) g) (allocate-success (kind c.type) g),
        completed-IsNew heap fresh c (kind c.type) refl,
        unfold initial in completed-lock fresh (initial heap c) (kind c.type),
      )

      failure :
          grants heap (wanted (kind c.type)) ≡ false
          → supla_channel_create heap fresh c
            ≡ (none, made_lock heap ++ reverse (granted heap (wanted (kind c.type))))
      failure g = elim (Bool-cases (heap channel_block)) [
        | inl ok ↦ rw ok (allocate-failure (kind c.type) ok g)
        | inr bad ↦ rw bad (rw (granted-none heap (kind c.type) bad, made_lock-none heap bad))
      ]
