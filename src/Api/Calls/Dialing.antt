-- ===== src/Api/Calls/Dialing.antt =====
-- api/server.go: `dial`. A call that the modem does not take, or whose state does not follow, is
-- released in the controller before the answer goes out.
pub mod Once
use dontmove_kit.Prelude.{
  ℕ, Bool, true, false, not, ◌&&◌, ◌||◌, Option, none, some, List, [], ◌∷◌, ◌++◌, ltb,
  if◌then◌else◌, length, is_nil,
}
use dontmove_kit.Text.{Text, txt, trim_space}
use dontmove_kit.Api.{
  Request, value_of, Body, one_call, Call, call_response, Response, write, write_error,
}
use dontmove_kit.Api.State.{Reason, active_call, Error, Result, good, bad, Env, Server}
use dontmove_kit.Api.Keys.{
  Handler, reply, behind, authorize, idempotency_key, require, with_json, with_claim,
  write_idempotent_error, write_idempotent_call_error, accept,
}
use dontmove_kit.Api.Messages.{failed_with}
use dontmove_kit.Api.Messages.Sending.{to_of}
use dontmove_kit.Api.Calls.{persist_call}

abbrev pub client_call_id : List (Text × Text) → Text
client_call_id fields = trim_space (value_of (txt "clientCallId") fields)

unfoldable pub is_valid_dial : List (Text × Text) → Bool
is_valid_dial fields =
    not
      (is_nil (to_of fields) || (ltb 32 (length (to_of fields)) || is_nil (client_call_id fields)))

abbrev is_active_call : Error → Bool
is_active_call e = elim e.reason [ active_call ↦ true | _ ↦ false ]

abbrev pub dial_op : Text
dial_op = txt "call.dial"

module _ (env : Env) where
  -- The cleanup of a call that the modem itself still holds.
  abbrev hang_stale : Error → Server env → Server env
  hang_stale e s = if is_active_call e then record s { modem = (env.modem_hangup s.modem).1 } else s

  abbrev ended_or : Call → Result (Call × Text) → Call
  ended_or call (good change) = change.0
  ended_or call (bad e) = call

  -- The modem's refusal: the controller hangs up and finishes the call, and its last state is stored
  -- under the event of the dial.
  unfoldable pub release_dial : Text → Call → Text → Error → Server env → Server env
  release_dial key call kind e s =
      let s = hang_stale e s in
      let hung =
        (env.hangup (txt "modem-failure:" ++ key) call.id (txt "modem_dial_failed") s.control).1 in
      let r = env.finish call.id hung in
      (persist_call env (ended_or call r.0, kind) (record s { control = r.1 })).1

  abbrev save_finished : Result (Call × Text) → Server env → Server env
  save_finished (bad e) s = s
  save_finished (good change) s = (persist_call env change s).1

  -- The modem dialed, but the controller's state did not follow.
  unfoldable pub abandon_dial : Call → Server env → Server env
  abandon_dial call s =
      let r = env.finish call.id s.control in
      save_finished r.0 (record s { control = r.1; modem = (env.modem_hangup s.modem).1 })

  abbrev nothing_after : Server env → Server env
  nothing_after s = s

  abbrev pub answer_dial : Text → Text → Call → Result ℕ → Handler env
  answer_dial device key call (bad e) =
      write_idempotent_error env device dial_op key 500 (txt "CB-CALL-004") e.text
  answer_dial device key call (good n) =
      accept env device dial_op key 201 (one_call (call_response env.gateway_id call)) call.id
        (txt "CB-CALL-004") nothing_after

  abbrev pub after_ready : Text → Text → Call → Result (Call × Text) → Handler env
  after_ready device key call (bad e) s =
      write_idempotent_call_error env device dial_op key e (abandon_dial call s)
  after_ready device key call (good change) s =
      let r = persist_call env change s in answer_dial device key change.0 r.0 r.1

  unfoldable pub dialed : Text → Text → Call → Handler env
  dialed device key call s =
      let r = env.mark_cellular_ready call.id s.control in
      after_ready device key call r.0 (record s { control = r.1 })

  abbrev pub after_modem : Text → Text → Call × Text → Result (Unit {0}) → Handler env
  after_modem device key change (bad e) s =
      write_idempotent_call_error env device dial_op key e (release_dial key change.0 change.1 e s)
  after_modem device key change (good u) s = dialed device key change.0 s

  abbrev pub after_control : Text → Text → Text → Result (Call × Text) → Handler env
  after_control device key to (bad e) s = write_idempotent_call_error env device dial_op key e s
  after_control device key to (good change) s =
      let r = env.modem_dial to (env.set_logical_call_id change.0.id s.modem) in
      after_modem device key change r.0 (record s { modem = r.1 })

  -- dial behind the claim.
  unfoldable pub dial_claimed : Text → Text → List (Text × Text) → Handler env
  dial_claimed device key fields s =
      let r = env.dial key (client_call_id fields) (to_of fields) s.control in
      after_control device key (to_of fields) r.0 (record s { control = r.1 })

  abbrev pub dial_fields : Text → Text → List (Text × Text) → Handler env
  dial_fields device key fields =
      require env (is_valid_dial fields)
        (write_error 400 (txt "CB-CALL-002") (txt "to and clientCallId are required"))
        (require env (not (env.is_emergency_number (to_of fields)))
          (write_error 403 (txt "CB-CALL-011") env.emergency_text)
          (with_claim env device dial_op key (failed_with env (txt "CB-CALL-004"))
            (dial_claimed device key fields)))

  abbrev pub dial_keyed : Request → Text → Text → Handler env
  dial_keyed r device key =
      require env (env.has_control && env.has_modem)
        (write_error 503 (txt "CB-CALL-000") (txt "voice modem is unavailable"))
        (with_json env r.json (write_error 400 (txt "CB-CALL-001") (txt "invalid JSON body"))
          (dial_fields device key))

  abbrev pub dial_authorized : Request → Text → Handler env
  dial_authorized r device = behind env (idempotency_key r) (dial_keyed r device)

  -- dial.
  unfoldable pub dial : Request → Handler env
  dial r = behind env (authorize env r) (dial_authorized r)
