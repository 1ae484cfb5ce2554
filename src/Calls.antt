-- ===== src/Calls.antt =====
-- modem/call_adapter.go: `ActiveCallAdapter`, the one call that the gateway's upper layers see, over
-- the operations of a modem control.
pub mod Ids
pub mod Ghosts
use dontmove_kit.Prelude.{
  ℕ, suc, ◌+◌, ◌<◌, Bool, true, false, not, ◌&&◌, ◌||◌, Option, none, some, List, [], ◌∷◌, ◌++◌,
  ltb, ◌==◌, if◌then◌else◌, length, is_nil,
}
use dontmove_kit.Prelude.Int.{ℤ, pos}
use dontmove_kit.Text.{Text, text_eq}
use dontmove_kit.At.Client.{CtxError}
use dontmove_kit.At.Adapter.{
  Kind, incoming, ended, Event, Except, done, failed, Failure, event_capacity,
}
use dontmove_kit.At.Adapter.Reaping.{Reaped}

-- modem.ModemControl with the two interfaces that the adapter asks its control for.
pub record Control : Type 1 where
  pub State : Type 0
  pub dial : Text → State → Except Text × State
  pub answer : Text → State → Except (List Text) × State
  pub hangup : Text → State → Except (Unit {0}) × State
  pub send_dtmf : Text → ℕ → State → Except (List Text) × State
  pub wait_ready : State → Except (Unit {0}) × State
  pub wait_active_dir : ℤ → State → Except (Unit {0}) × State
  pub reap_ghosts : State → Reaped × State

pub data CallError : Type 0 where
  control_failed : Failure → CallError
  no_active_call : CallError

pub data Outcome {ℓ} (A : Type ℓ) : Type ℓ where
  ok : A → Outcome A
  err : CallError → Outcome A

abbrev pub outcome : {A : Type 0} → Except A → Outcome A
outcome (done x) = ok x
outcome (failed e) = err (control_failed e)

abbrev is_kind : Kind → Kind → Bool
is_kind incoming incoming = true
is_kind ended ended = true
is_kind _ _ = false

module _ (control : Control) where
  open control use {State}

  -- ActiveCallAdapter, with the control's state.
  pub record ActiveCall : Type 0 where
    pub line : State
    pub active : Text
    pub logical : Text
    pub last_physical : Text
    pub last_logical : Text
    pub events : List Event

  unfoldable pub set_logical_call_id : Text → ActiveCall → ActiveCall
  set_logical_call_id id a = record a { logical = id }

  abbrev dialed : Except Text → ActiveCall → Outcome Text × ActiveCall
  dialed (failed e) a = (err (control_failed e), a)
  dialed (done id) a = (ok id, record a { active = id; last_physical = []; last_logical = [] })

  unfoldable pub dial : Text → ActiveCall → Outcome Text × ActiveCall
  dial peer a = let r = control.dial peer a.line in dialed r.0 (record a { line = r.1 })

  -- withActive: the control is not asked when no call is up.
  abbrev pub with_active :
      {A : Type 0} → (Text → State → Except A × State) → ActiveCall → Outcome A × ActiveCall
  with_active action a =
      let r = action a.active a.line in
      elim (is_nil a.active) [
        | true ↦ (err no_active_call, a)
        | false ↦ (outcome r.0, record a { line = r.1 })
      ]

  unfoldable pub answer : ActiveCall → Outcome (List Text) × ActiveCall
  answer = with_active control.answer

  unfoldable pub dtmf : ℕ → ActiveCall → Outcome (List Text) × ActiveCall
  dtmf digit = with_active (λ id. control.send_dtmf id digit)

  abbrev hung_up : Outcome (Unit {0}) × ActiveCall → Outcome (Unit {0}) × ActiveCall
  hung_up (err e, a) = (err e, a)
  hung_up (ok u, a) = (
    ok u,
    record a { last_physical = a.active; last_logical = a.logical; active = []; logical = [] },
  )

  unfoldable pub hangup : ActiveCall → Outcome (Unit {0}) × ActiveCall
  hangup a = hung_up (with_active control.hangup a)

  abbrev reaped : Reaped → ActiveCall → Reaped × ActiveCall
  reaped (n, none) a = ((n, none), if n == 0 then a else record a { active = []; logical = [] })
  reaped (n, some e) a = ((n, some e), a)

  unfoldable pub reap_ghosts : ActiveCall → Reaped × ActiveCall
  reap_ghosts a = let r = control.reap_ghosts a.line in reaped r.0 (record a { line = r.1 })

  -- The parts of one round of `forwardEvents`.
  abbrev pub is_known : Text → ActiveCall → Bool
  is_known id a = text_eq id a.active || text_eq id a.last_physical

  abbrev pub logical_for : Text → ActiveCall → Text
  logical_for id a =
      if text_eq id a.last_physical && not (is_nil a.last_logical)
      then a.last_logical
      else a.logical

  abbrev pub adopt : Event → ActiveCall → ActiveCall
  adopt event a =
      if is_kind event.kind incoming && (not (is_nil event.call_id) && is_nil a.active)
      then record a { active = event.call_id }
      else a

  -- The event as it is passed on, over the state that `adopt` made.
  abbrev pub translate : Event → Text → ActiveCall → Event
  translate event logical a =
      if not (is_nil event.call_id) && (is_known event.call_id a && not (is_nil logical))
      then record event { call_id = logical }
      else event

  abbrev pub retire : Event → ActiveCall → ActiveCall
  retire event a =
      let kept =
        if is_nil a.last_physical
        then record a { last_physical = event.call_id; last_logical = a.logical }
        else a in
      if is_kind event.kind ended && is_known event.call_id a
      then record kept { active = []; logical = [] }
      else a

  abbrev pub enqueue : Event → ActiveCall → ActiveCall
  enqueue event a =
      if ltb (length a.events) event_capacity
      then record a { events = a.events ++ event ∷ [] }
      else a

  -- One round of `forwardEvents`.
  unfoldable pub forward : Event → ActiveCall → ActiveCall
  forward event a =
      let logical = logical_for event.call_id a in
      let adopted = adopt event a in
      enqueue (translate event logical adopted) (retire event adopted)
