-- ===== src/Device/Tick/Serving.antt =====
-- The service of the connection at the end of a round of `supla_dev_iterate` in src/device.c, and
-- what it does to the device's state.
use libsupla.Prelude.{
  ℕ, ◌≡◌, ◌⊎◌, ◌∙◌, refl, sym, ap, Option, none, some, Bool, true, false, not, ◌||◌, arith,
  Bool-cases, inl, inr, ◌==◌, ==_iff, ◌∷◌, if◌then◌else◌,
}
use libsupla.Wire.{Message}
use libsupla.Env.{
  Env, DevState, Input, failed, nothing, received, input_polled, config, idle, init, connected,
  registered, online,
}
use libsupla.Device.{World, state_code, supla_dev_set_state}
use libsupla.Device.Handlers.Effects.{accepted, input_accepts, dispatch-Dispatched}
use libsupla.Device.Handlers.Messages.{supla_dev_on_remote_call_received}
use libsupla.Device.Tick.{after_input, srpc_iterate, serve}

code_state : ℕ → DevState
code_state n =
    if n == 0
    then config
    else if n == 1
    then idle
    else if n == 2
    then init
    else if n == 3
    then connected
    else if n == 4
    then registered
    else online

code_state-state_code : (s : DevState) → code_state (state_code s) ≡ s
unfolding code_state
code_state-state_code config = refl
code_state-state_code idle = refl
code_state-state_code init = refl
code_state-state_code connected = refl
code_state-state_code registered = refl
code_state-state_code online = refl

state_code-injective : (s t : DevState) → state_code s ≡ state_code t → s ≡ t
state_code-injective s t e =
    sym (code_state-state_code s) ∙ ap code_state e ∙ code_state-state_code t

pub set_state-state : (w : World) (s : DevState) → (supla_dev_set_state w s).dev.state ≡ s
unfolding supla_dev_set_state
set_state-state w s = elim (Bool-cases (state_code w.dev.state == state_code s)) [
  | inl e ↦ simp e (state_code-injective w.dev.state s ((==_iff _ _).0 e))
  | inr e ↦ ground arith
]

-- The states of a device that the server has registered.
unfoldable pub is_up : DevState → Bool
is_up registered = true
is_up online = true
is_up config = false
is_up idle = false
is_up init = false
is_up connected = false

module _ (env : Env) where
  -- A device in REGISTERED or ONLINE has been accepted by the server since the last attempt to
  -- connect.
  unfoldable pub IsAccepted : World → Type 0
  IsAccepted w = (not (is_up w.dev.state) || accepted env w.trace) ≡ true

  pub accepted-set_state :
      (w : World) (s : DevState)
      → accepted env (supla_dev_set_state w s).trace ≡ accepted env w.trace
  unfolding supla_dev_set_state accepted
  accepted-set_state w s = ground arith

  pub not_up : (w : World) (s : DevState) → is_up s ≡ false → w.dev.state ≡ s → IsAccepted w
  unfolding IsAccepted
  not_up w s h e = rw (e, h) refl

  -- What the input of a round does to the state.
  unfoldable pub Received : World → World → Type 0
  Received w w' =
      (w'.dev.state ≡ w.dev.state) ⊎ ((w'.dev.state ≡ config) ⊎ (w'.dev.state ≡ registered))

  receive-state :
      (w : World) (m : Option Message) → Received w (supla_dev_on_remote_call_received env w m)
  unfolding supla_dev_on_remote_call_received Received
  receive-state w none = inl refl
  receive-state w (some m) =
      let d =
        (dispatch-Dispatched env (record w { dev = record w.dev { last_resp = env.now w.trace } })
          m).state in
      ground arith

  polled : World → World
  polled w = record w { trace = input_polled ∷ w.trace }

  receive-IsAccepted :
      (w : World) (m : Option Message)
      → IsAccepted w
      → env.input w.trace ≡ received m
      → IsAccepted (supla_dev_on_remote_call_received env (polled w) m)
  unfolding supla_dev_on_remote_call_received IsAccepted accepted input_accepts is_up polled
  receive-IsAccepted w none h e = ground arith
  receive-IsAccepted w (some m) h e =
      let w1 = polled w in
      let d =
        dispatch-Dispatched env (record w1 { dev = record w1.dev { last_resp = env.now w1.trace } })
          m in
      elim (d.state) [
        | inl same ↦ rw (same, d.acceptance, e) (ground arith)
        | inr (inl c) ↦ rw (c) refl
        | inr (inr (r, a)) ↦ rw (r, d.acceptance, e, a) refl
      ]

  iterate-state : (w : World) (i : Input) → Received w (after_input env (polled w) i).0
  unfolding after_input polled Received
  iterate-state w failed = inl refl
  iterate-state w nothing = inl refl
  iterate-state w (received m) = receive-state (polled w) m

  iterate-IsAccepted :
      (w : World) (i : Input)
      → IsAccepted w
      → env.input w.trace ≡ i
      → IsAccepted (after_input env (polled w) i).0
  unfolding after_input polled
  iterate-IsAccepted w failed h e = unfold IsAccepted accepted input_accepts in rw (e) h
  iterate-IsAccepted w nothing h e = unfold IsAccepted accepted input_accepts in rw (e) h
  iterate-IsAccepted w (received m) h e = unfold IsAccepted accepted in receive-IsAccepted w m h e

  pub serve-IsAccepted : (w : World) → IsAccepted w → IsAccepted (serve env w).0
  unfolding serve srpc_iterate polled is_up
  serve-IsAccepted w h = elim (Bool-cases (srpc_iterate env w).1) [
    | inl ok ↦ simp ok (iterate-IsAccepted w (env.input w.trace) h refl)
    | inr bad ↦ simp bad (not_up _ init refl (set_state-state _ init))
  ]

  pub serve-state : (w : World) → (Received w (serve env w).0) ⊎ ((serve env w).0.dev.state ≡ init)
  unfolding serve srpc_iterate polled
  serve-state w = elim (Bool-cases (srpc_iterate env w).1) [
    | inl ok ↦ simp ok (inl (iterate-state w (env.input w.trace)))
    | inr bad ↦ simp bad (inr (set_state-state _ init))
  ]
