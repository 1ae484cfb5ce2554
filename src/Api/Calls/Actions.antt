-- ===== src/Api/Calls/Actions.antt =====
-- api/server.go: `callAction`, which answers, rejects and hangs up calls and sends tones, and
-- `deleteCall`.
pub mod Once
pub mod Outcomes
use dontmove_kit.Prelude.{
  ℕ, Bool, true, false, not, ◌&&◌, ◌||◌, Option, none, some, List, [], ◌∷◌, ◌++◌, if◌then◌else◌,
}
use dontmove_kit.Text.{Text, txt, text_eq, runes, trim_space}
use dontmove_kit.Api.{
  Method, get, post, delete, method_eq, Request, value_of, Body, empty, failure, object, Call,
  Response, write, write_error,
}
use dontmove_kit.Api.State.{
  Reason, no_active_call, call_not_found, Error, Result, good, bad, Env, Server,
}
use dontmove_kit.Api.Keys.{
  Handler, reply, behind, authorize, idempotency_key, require, with_json, with_claim, on_result,
  write_idempotent_error, write_idempotent_call_error, answer_with, accept, audit,
}
use dontmove_kit.Api.Messages.{failed_with}
use dontmove_kit.Api.Messages.Actions.{parts_below, is_no_rows}
use dontmove_kit.Api.Recordings.Control.{call_recording_action}
use dontmove_kit.Api.Calls.{persist_call, close_webrtc, get_call, no_call_database}

-- The actions; a tone comes with its digit, a rune.
pub data Action : Type 0 where
  answer reject hangup : Action
  dtmf : ℕ → Action

unfoldable pub action_name : Action → Text
action_name answer = txt "answer"
action_name reject = txt "reject"
action_name hangup = txt "hangup"
action_name (dtmf digit) = txt "dtmf"

abbrev pub op_of : Action → Text
op_of action = txt "call." ++ action_name action

abbrev pub is_call_not_found : Error → Bool
is_call_not_found e = elim e.reason [ call_not_found ↦ true | _ ↦ false ]

abbrev pub is_no_active_call : Error → Bool
is_no_active_call e = elim e.reason [ no_active_call ↦ true | _ ↦ false ]

abbrev pub is_tone : Action → Bool
is_tone (dtmf digit) = true
is_tone _ = false

module _ (env : Env) where
  abbrev pub close_if : Action → Text → Server env → Server env
  close_if reject id s = close_webrtc env id s
  close_if hangup id s = close_webrtc env id s
  close_if _ id s = s

  abbrev nothing_after : Server env → Server env
  nothing_after s = s

  abbrev pub end_action : Text → Text → Text → Action → Handler env
  end_action device key id action s =
      accept env device (op_of action) key 204 empty id (txt "CB-CALL-004") nothing_after
        (close_if action id s)

  abbrev pub after_persist : Text → Text → Text → Action → Result ℕ → Handler env
  after_persist device key id action (bad e) =
      write_idempotent_error env device (op_of action) key 500 (txt "CB-CALL-004") e.text
  after_persist device key id action (good n) = end_action device key id action

  -- The end of an action that succeeded, with the change of the call that is to be stored.
  unfoldable pub conclude : Text → Text → Text → Action → Option (Call × Text) → Handler env
  conclude device key id action none s = end_action device key id action s
  conclude device key id action (some change) s =
      let r = persist_call env change s in after_persist device key id action r.0 r.1

  abbrev pub rolled_back : Text → Text → Action → Bool → Server env → Server env
  rolled_back key id action modem_ok s =
      if not modem_ok && not (is_tone action)
      then record s { control = env.rollback key id s.control }
      else s

  -- The end of an action that failed; the controller's change is taken back if the modem did not
  -- take the command.
  unfoldable pub fail_action : Text → Text → Text → Action → Bool → Error → Handler env
  fail_action device key id action modem_ok e s =
      write_idempotent_call_error env device (op_of action) key e
        (audit env device (op_of action) id (txt "failed") (rolled_back key id action modem_ok s))

  abbrev pub after_ready : Text → Text → Text → Result (Call × Text) → Handler env
  after_ready device key id (bad e) = fail_action device key id answer true e
  after_ready device key id (good change) = conclude device key id answer (some change)

  abbrev pub after_modem_answer : Text → Text → Text → Result (Unit {0}) → Handler env
  after_modem_answer device key id (bad e) s = fail_action device key id answer false e s
  after_modem_answer device key id (good u) s =
      let r = env.mark_cellular_ready id s.control in
      after_ready device key id r.0 (record s { control = r.1 })

  abbrev pub after_answer : Text → Text → Text → Result (Call × Text) → Handler env
  after_answer device key id (bad e) s = fail_action device key id answer false e s
  after_answer device key id (good change) s =
      let r = env.modem_answer s.modem in
      after_modem_answer device key id r.0 (record s { modem = r.1 })

  unfoldable pub do_answer : Text → Text → Text → Handler env
  do_answer device key id s =
      let r = env.answer key id s.control in
      after_answer device key id r.0 (record s { control = r.1 })

  -- A call that Finish does not know was ended by the modem's own event, and is not stored again.
  abbrev pub after_finish : Text → Text → Text → Action → Result (Call × Text) → Handler env
  after_finish device key id action (good change) = conclude device key id action (some change)
  after_finish device key id action (bad e) =
      if is_call_not_found e
      then conclude device key id action none
      else fail_action device key id action true e

  unfoldable pub finish_hangup : Text → Text → Text → Action → Handler env
  finish_hangup device key id action s =
      let r = env.finish id s.control in
      after_finish device key id action r.0 (record s { control = r.1 })

  -- A modem that is idle already has hung up.
  abbrev pub after_modem_hangup : Text → Text → Text → Action → Result (Unit {0}) → Handler env
  after_modem_hangup device key id action (good u) = finish_hangup device key id action
  after_modem_hangup device key id action (bad e) =
      if is_no_active_call e
      then finish_hangup device key id action
      else fail_action device key id action false e

  abbrev pub after_hangup : Text → Text → Text → Action → Result (Call × Text) → Handler env
  after_hangup device key id action (bad e) s = fail_action device key id action false e s
  after_hangup device key id action (good change) s =
      let r = env.modem_hangup s.modem in
      after_modem_hangup device key id action r.0 (record s { modem = r.1 })

  unfoldable pub do_hangup : Text → Text → Text → Action → Handler env
  do_hangup device key id action s =
      let r = env.hangup key id (action_name action) s.control in
      after_hangup device key id action r.0 (record s { control = r.1 })

  abbrev pub after_modem_tone : Text → Text → Text → ℕ → Result (Unit {0}) → Handler env
  after_modem_tone device key id digit (bad e) = fail_action device key id (dtmf digit) false e
  after_modem_tone device key id digit (good u) = conclude device key id (dtmf digit) none

  abbrev pub after_tone : Text → Text → Text → ℕ → Result (Unit {0}) → Handler env
  after_tone device key id digit (bad e) s = fail_action device key id (dtmf digit) false e s
  after_tone device key id digit (good u) s =
      let r = env.modem_dtmf digit s.modem in
      after_modem_tone device key id digit r.0 (record s { modem = r.1 })

  unfoldable pub do_tone : Text → Text → Text → ℕ → Handler env
  do_tone device key id digit s =
      let r = env.dtmf id digit s.control in
      after_tone device key id digit r.0 (record s { control = r.1 })

  -- callAction behind the claim.
  unfoldable pub perform : Text → Text → Text → Action → Handler env
  perform device key id answer = do_answer device key id
  perform device key id reject = do_hangup device key id reject
  perform device key id hangup = do_hangup device key id hangup
  perform device key id (dtmf digit) = do_tone device key id digit

  abbrev pub act : Text → Text → Text → Action → Handler env
  act device key id action =
      with_claim env device (op_of action) key (failed_with env (txt "CB-CALL-004"))
        (perform device key id action)

  abbrev pub tone_of : Text → Text → Text → List ℕ → Handler env
  tone_of device key id (digit ∷ []) = act device key id (dtmf digit)
  tone_of device key id _ =
      reply env
        (write_error 400 (txt "CB-CALL-008") (txt "digit must contain exactly one DTMF character"))

  abbrev pub tone_fields : Text → Text → Text → List (Text × Text) → Handler env
  tone_fields device key id fields =
      tone_of device key id (runes (trim_space (value_of (txt "digit") fields)))

  abbrev pub no_call_action : Response
  no_call_action = write_error 404 (txt "CB-CALL-006") (txt "call action not found")

  abbrev pub with_voice : Handler env → Handler env
  with_voice =
      require env (env.has_control && env.has_modem)
        (write_error 503 (txt "CB-CALL-000") (txt "voice modem is unavailable"))

  -- The actions by their names.
  unfoldable pub act_named : Request → Text → Text → Text → Text → Handler env
  act_named r device id name key =
      if text_eq name (txt "answer")
      then with_voice (act device key id answer)
      else if text_eq name (txt "reject")
      then with_voice (act device key id reject)
      else if text_eq name (txt "hangup")
      then with_voice (act device key id hangup)
      else if text_eq name (txt "dtmf")
      then with_voice (
          with_json env r.json (write_error 400 (txt "CB-CALL-007") (txt "invalid JSON body"))
            (tone_fields device key id))
      else reply env no_call_action
