-- ===== src/Api/Recordings/Control.antt =====
-- api/server.go: `callRecordingAction`, the start and the stop of a recording.
use dontmove_kit.Prelude.{ℕ, Bool, true, false, ◌&&◌, if◌then◌else◌}
use dontmove_kit.Text.{Text, txt, text_eq}
use dontmove_kit.Api.{Request, one_recording, Call, Recording}
use dontmove_kit.Api.State.{low_storage, recording_disabled, Error, Result, good, bad, Env}
use dontmove_kit.Api.Keys.{
  Handler, behind, authorize, idempotency_key, require, with_claim, write_idempotent_error, accept,
}
use dontmove_kit.Api.Messages.{failed_with}
use dontmove_kit.Api.Messages.Actions.{is_no_rows}
use dontmove_kit.Api.Calls.{is_not_active}
use dontmove_kit.Api.Recordings.{no_recordings, response_of, nothing_after}

-- The status and the code of a recording that does not start.
unfoldable pub start_error_status : Error → ℕ × Text
start_error_status e = elim e.reason [
  | low_storage ↦ (507, txt "CB-REC-005")
  | recording_disabled ↦ (409, txt "CB-REC-015")
  | _ ↦ (502, txt "CB-REC-004")
]

module _ (env : Env) where
  abbrev pub answer_recording : Text → Text → Text → ℕ → Recording → Handler env
  answer_recording device key operation status r =
      accept env device operation key status (one_recording (response_of env r)) r.id
        (txt "CB-REC-001") (nothing_after env)

  abbrev pub started : Text → Text → Result Recording → Handler env
  started device key (good r) = answer_recording device key (txt "recording.start") 201 r
  started device key (bad e) =
      write_idempotent_error env device (txt "recording.start") key (start_error_status e).0
        (start_error_status e).1 e.text

  abbrev pub start_of : Text → Text → Call → Handler env
  start_of device key call s =
      let r = env.start_recording call (txt "manual") device s.store in
      started device key r.0 (record s { store = r.1 })

  abbrev pub start_call : Text → Text → Call → Handler env
  start_call device key call =
      if text_eq call.state env.active_state
      then start_of device key call
      else write_idempotent_error env device (txt "recording.start") key 409 (txt "CB-REC-003")
          (txt "recording requires an active call")

  abbrev pub stored_recording : Text → Text → Result Recording → Handler env
  stored_recording device key (good r) = answer_recording device key (txt "recording.stop") 202 r
  stored_recording device key (bad e) =
      write_idempotent_error env device (txt "recording.stop") key 404 (txt "CB-REC-007")
        (txt "recording not found")

  abbrev pub find_stopped : Text → Text → Text → Handler env
  find_stopped device key call_id s =
      stored_recording device key (env.get_recording_by_call call_id s.store) s

  -- A recording that was not running has stopped as well.
  abbrev pub stopped : Text → Text → Text → Result (Unit {0}) → Handler env
  stopped device key call_id (good u) = find_stopped device key call_id
  stopped device key call_id (bad e) =
      if is_not_active e
      then find_stopped device key call_id
      else write_idempotent_error env device (txt "recording.stop") key 502 (txt "CB-REC-006")
          e.text

  abbrev pub stop_call : Text → Text → Text → Handler env
  stop_call device key call_id s =
      let r = env.stop_recording call_id (txt "manual") s.store in
      stopped device key call_id r.0 (record s { store = r.1 })

  abbrev pub no_call : Text → Text → Text → Error → Handler env
  no_call device key operation e =
      if is_no_rows e
      then write_idempotent_error env device operation key 404 (txt "CB-CALL-006")
          (txt "call not found")
      else write_idempotent_error env device operation key 500 (txt "CB-REC-002")
          (txt "call not found")

  abbrev pub on_call : Text → Text → Text → Bool → Result Call → Handler env
  on_call device key call_id true (good call) = start_call device key call
  on_call device key call_id false (good call) = stop_call device key call_id
  on_call device key call_id true (bad e) = no_call device key (txt "recording.start") e
  on_call device key call_id false (bad e) = no_call device key (txt "recording.stop") e

  abbrev pub op_named : Bool → Text
  op_named true = txt "recording.start"
  op_named false = txt "recording.stop"

  -- callRecordingAction behind the claim.
  unfoldable pub record_claimed : Text → Text → Bool → Text → Handler env
  record_claimed device call_id starts key s =
      on_call device key call_id starts (env.get_call call_id s.store) s

  abbrev pub record_keyed : Text → Text → Bool → Text → Handler env
  record_keyed device call_id starts key =
      with_claim env device (op_named starts) key (failed_with env (txt "CB-REC-001"))
        (record_claimed device call_id starts key)

  abbrev pub record_authorized : Request → Text → Bool → Text → Handler env
  record_authorized r call_id starts device =
      require env (env.has_recordings && env.has_database) no_recordings
        (behind env (idempotency_key r) (record_keyed device call_id starts))

  -- callRecordingAction, of a start or a stop.
  unfoldable pub call_recording_action : Request → Text → Bool → Handler env
  call_recording_action r call_id starts =
      behind env (authorize env r) (record_authorized r call_id starts)
