-- ===== src/Device/Channels/Numbering.antt =====
-- The channels of a device are numbered by their places, so a number finds its channel.
use libsupla.Prelude.{
  ℕ, zero, suc, ◌+◌, ◌≤◌, ◌<◌, ◌≡◌, ◌∙◌, sym, ap, refl, Option, none, some, List, [], ◌∷◌, ◌++◌,
  length, get_elem?, arith, set, if◌then◌else◌,
}
use mathlib.Core.Path.{subst}
use libsupla.Prelude.Int.{pos, negsuc}
use libsupla.Value.{result_true, result_false}
use libsupla.Channel.{Channel}
use libsupla.Env.{Env, Trace}
use libsupla.Device.{Device, World, find_channel, supla_dev_get_channel_by_num}
use libsupla.Device.Channels.{
  supla_dev_get_channel_count, supla_dev_add_channel, assigned, channel_init, insert_tail,
}

-- The list from place i on holds the numbers i, i + 1, and so on.
abbrev pub NumberedFrom : ℕ → List Channel → Type 0
NumberedFrom i [] = Unit
NumberedFrom i (ch ∷ chs) = (ch.number ≡ pos i) × NumberedFrom (i + 1) chs

abbrev pub IsNumbered : Device → Type 0
IsNumbered dev = NumberedFrom 0 dev.channels

-- A number below the list's places is not found further on.
find_channel-below :
    (chs : List Channel) (n i : ℕ) (out : Option (ℕ × Channel))
    → NumberedFrom i chs
    → n < i
    → find_channel chs (pos n) i out ≡ out
unfolding find_channel
find_channel-below [] n i out h lt = refl
find_channel-below (ch ∷ chs) n i out h lt =
    ground (arith, find_channel-below chs n (i + 1) out h.1)

find_channel-above :
    (chs : List Channel) (n i : ℕ)
    → NumberedFrom i chs
    → i + length chs ≤ n
    → find_channel chs (pos n) i none ≡ none
unfolding find_channel
find_channel-above [] n i h le = refl
find_channel-above (ch ∷ chs) n i h le = ground (arith, find_channel-above chs n (i + 1) h.1)

find_channel-at :
    (chs : List Channel) (k i : ℕ) (ch : Channel)
    → NumberedFrom i chs
    → get_elem? chs k ≡ some ch
    → find_channel chs (pos (i + k)) i none ≡ some (i + k, ch)
unfolding find_channel
find_channel-at [] k i ch h e = cc
find_channel-at (c ∷ chs) zero i ch h e =
    ground (arith, find_channel-below chs (i + 0) (i + 1) (some (i, c)) h.1)
find_channel-at (c ∷ chs) (suc k) i ch h e = ground (arith, find_channel-at chs k (i + 1) ch h.1 e)

find_channel-negsuc :
    (chs : List Channel) (n i : ℕ) → NumberedFrom i chs → find_channel chs (negsuc n) i none ≡ none
unfolding find_channel
find_channel-negsuc [] n i h = refl
find_channel-negsuc (ch ∷ chs) n i h = ground (arith, find_channel-negsuc chs n (i + 1) h.1)

-- In a numbered device the number n finds the channel at place n, and nothing if there is none; a
-- negative number finds nothing.
pub get_channel_by_num-IsNumbered :
    (dev : Device) (n : ℕ)
    → IsNumbered dev
    → ((ch : Channel)
        → get_elem? dev.channels n ≡ some ch
        → supla_dev_get_channel_by_num dev (pos n) ≡ some (n, ch))
      × (length dev.channels ≤ n → supla_dev_get_channel_by_num dev (pos n) ≡ none)
      × (supla_dev_get_channel_by_num dev (negsuc n) ≡ none)
unfolding supla_dev_get_channel_by_num
get_channel_by_num-IsNumbered dev n h = (
  λ ch e. ground (arith, find_channel-at dev.channels n 0 ch h e),
  λ le. find_channel-above dev.channels n 0 h (omega arith),
  find_channel-negsuc dev.channels n 0 h,
)

NumberedFrom-append :
    (chs : List Channel) (i : ℕ) (ch : Channel)
    → NumberedFrom i chs
    → ch.number ≡ pos (i + length chs)
    → NumberedFrom i (chs ++ (ch ∷ []))
NumberedFrom-append [] i ch h e = (ground arith, tt)
NumberedFrom-append (c ∷ chs) i ch h e =
    (h.0, NumberedFrom-append chs (i + 1) ch h.1 (ground arith))

-- A channel written back at its place with its number keeps the numbering.
pub NumberedFrom-set :
    (chs : List Channel) (i k : ℕ) (ch : Channel)
    → NumberedFrom i chs
    → ch.number ≡ pos (i + k)
    → NumberedFrom i (set chs k ch)
NumberedFrom-set [] i k ch h e = tt
NumberedFrom-set (c ∷ chs) i zero ch h e = (ground arith, h.1)
NumberedFrom-set (c ∷ chs) i (suc k) ch h e =
    (h.0, NumberedFrom-set chs (i + 1) k ch h.1 (ground arith))

-- What a program's `on_channel_init` must not do: change the channel's number.
abbrev pub InitKeepsNumber : Env → Type 0
InitKeepsNumber env = (tr : Trace) (ch : Channel) → (env.on_channel_init tr ch).number ≡ ch.number

set-append :
    (chs : List Channel) (c v : Channel) → set (chs ++ (c ∷ [])) (length chs) v ≡ chs ++ (v ∷ [])
set-append [] c v = refl
set-append (ch ∷ chs) c v = ap (λ t. ch ∷ t) (set-append chs c v)

-- The channel that stands in the device after the call of `on_channel_init`.
unfoldable pub after_init : Env → World → Channel → Channel
after_init env w ch = if ch.config.on_channel_init then env.on_channel_init w.trace ch else ch

pub channels-channel_init :
    (env : Env) (w : World) (chs : List Channel) (ch : Channel)
    → w.dev.channels ≡ chs ++ (ch ∷ [])
    → (channel_init env w (length chs) ch).dev.channels ≡ chs ++ (after_init env w ch ∷ [])
unfolding channel_init after_init
channels-channel_init env w chs ch e =
    ground (arith, set-append chs ch (env.on_channel_init w.trace ch))

number-after_init :
    (env : Env) (w : World) (ch : Channel)
    → InitKeepsNumber env
    → (after_init env w ch).number ≡ ch.number
unfolding after_init
number-after_init env w ch keeps = ground (arith, keeps w.trace ch)

-- What a successful call leaves: one channel more at the end of the list, the others as they were;
-- the list is numbered, and the new number finds the new channel.
pub record Added (w : World) (out : World × ℕ) : Type 0 where
  pub accepted : out.1 ≡ result_true
  pub added : Channel
  pub listed : out.0.dev.channels ≡ w.dev.channels ++ (added ∷ [])
  pub numbered : IsNumbered out.0.dev
  pub found :
      supla_dev_get_channel_by_num out.0.dev (pos (length w.dev.channels))
      ≡ some (length w.dev.channels, added)

get_elem?-last :
    (chs : List Channel) (v : Channel) → get_elem? (chs ++ (v ∷ [])) (length chs) ≡ some v
get_elem?-last [] v = refl
get_elem?-last (ch ∷ chs) v = get_elem?-last chs v

Added-of_listed :
    (w out : World) (v : Channel)
    → out.dev.channels ≡ w.dev.channels ++ (v ∷ [])
    → NumberedFrom 0 (w.dev.channels ++ (v ∷ []))
    → Added w (out, result_true)
Added-of_listed w out v e h =
    let n : IsNumbered out.dev = subst (NumberedFrom 0) (sym e) h in
    let k = length w.dev.channels in
    record {
      accepted = refl;
      added = v;
      listed = e;
      numbered = n;
      found =
          (get_channel_by_num-IsNumbered out.dev k n).0 v
            (ap (λ t. get_elem? t k) e ∙ get_elem?-last w.dev.channels v);
    }

module _ (env : Env) (w : World) (ch : Channel) where
  unfoldable pub inserted : World
  inserted = record w { dev = insert_tail w.dev (assigned w.dev ch) }

  pub add_channel-accepts :
      length w.dev.channels < 127
      → supla_dev_add_channel env w ch
        ≡ (channel_init env inserted (length w.dev.channels) (assigned w.dev ch), result_true)
  unfolding supla_dev_add_channel supla_dev_get_channel_count inserted
  add_channel-accepts room = ground arith

  add_channel-Added :
      InitKeepsNumber env
      → IsNumbered w.dev
      → Added w (channel_init env inserted (length w.dev.channels) (assigned w.dev ch), result_true)
  unfolding supla_dev_get_channel_count inserted
  add_channel-Added keeps numbered =
      Added-of_listed w (channel_init env inserted (length w.dev.channels) (assigned w.dev ch))
        (after_init env inserted (assigned w.dev ch))
        (channels-channel_init env inserted w.dev.channels (assigned w.dev ch) refl)
        (NumberedFrom-append w.dev.channels 0 (after_init env inserted (assigned w.dev ch)) numbered
          (number-after_init env inserted (assigned w.dev ch) keeps ∙ ap pos (omega arith)))

-- With fewer than 127 channels, a numbered list, and an `on_channel_init` that keeps the number, the
-- call succeeds as `Added` says. With 127 channels or more it fails and changes nothing.
pub supla_dev_add_channel_lem :
    (env : Env) (w : World) (ch : Channel)
    → InitKeepsNumber env
    → IsNumbered w.dev
    → (length w.dev.channels < 127 → Added w (supla_dev_add_channel env w ch))
      × (127 ≤ length w.dev.channels → supla_dev_add_channel env w ch ≡ (w, result_false))
supla_dev_add_channel_lem env w ch keeps numbered = (
  λ room.
      subst (Added w) (sym (add_channel-accepts env w ch room))
        (add_channel-Added env w ch keeps numbered),
  refused,
)
  where
    refused : 127 ≤ length w.dev.channels → supla_dev_add_channel env w ch ≡ (w, result_false)
    refused full = unfold supla_dev_add_channel supla_dev_get_channel_count in ground arith
