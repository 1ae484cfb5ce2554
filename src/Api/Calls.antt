-- ===== src/Api/Calls.antt =====
-- api/server.go: how a call's state reaches the line, the store and the event bus, and the modem's
-- events.
pub mod Deletion
pub mod Dispatch
pub mod Dialing
pub mod Actions
pub mod Endings
use dontmove_kit.Prelude.{
  ℕ, Bool, true, false, not, ◌&&◌, ◌||◌, Option, none, some, List, [], ◌∷◌, ◌++◌, if◌then◌else◌,
  is_some, keep, is_nil, map,
}
use dontmove_kit.Text.{Text, txt, text_eq, trim_space}
use dontmove_kit.At.Adapter.{Kind, Event, incoming, ended}
use dontmove_kit.Api.{
  Request, Body, one_call, many_calls, Call, call_response, Response, write, write_error,
}
use dontmove_kit.Api.State.{Reason, not_active, Error, Result, good, bad, Env, Server}
use dontmove_kit.Api.Keys.{Handler, reply, behind, authorize, require, on_result, audit}
use dontmove_kit.Api.Paging.{pagination}
use dontmove_kit.Api.Messages.{failed_with, on_parsed}
use dontmove_kit.Api.Messages.Sending.{push_to}
use dontmove_kit.Api.Messages.Actions.{is_no_rows}

-- Line.ActiveCallID as persistCall sets it.
unfoldable pub active_id : Call → Option Text
active_id call = if is_some call.ended_at then none else some call.id

abbrev pub is_not_active : Error → Bool
is_not_active e = elim e.reason [ not_active ↦ true | _ ↦ false ]

-- `delete` of a map from calls.
unfoldable pub without : Text → List Text → List Text
without id ids = keep (λ i. not (text_eq i id)) ids

abbrev pub call_not_found_response : Response
call_not_found_response = write_error 404 (txt "CB-CALL-006") (txt "call not found")

abbrev pub no_call_database : Response
no_call_database = write_error 503 (txt "CB-CALL-000") (txt "call database unavailable")

module _ (env : Env) where
  -- What became of a stop that persistCall asked for: only its failure is audited.
  abbrev pub stopped : Call → Result (Unit {0}) → Server env → Server env
  stopped call (good u) s = s
  stopped call (bad e) s =
      if is_not_active e
      then s
      else audit env (txt "system") (txt "recording.stop") call.id (txt "failed") s

  unfoldable pub stop_recording : Call → Server env → Server env
  stop_recording call s =
      let r = env.stop_recording call.id call.end_reason s.store in
      if is_some call.ended_at && env.has_recordings
      then stopped call r.0 (record s { store = r.1 })
      else s

  unfoldable pub publish_call : ℕ → Text → Call → Server env → Server env
  publish_call sequence kind call s =
      if env.has_events
      then record s {
        published =
            s.published ++ (sequence, kind, one_call (call_response env.gateway_id call)) ∷ [];
      }
      else s

  abbrev pub saved : Call → Text → Result ℕ → Server env → Result ℕ × Server env
  saved call kind (bad e) s = (bad e, s)
  saved call kind (good sequence) s =
      (good sequence, publish_call sequence kind call (stop_recording call s))

  -- persistCall.
  unfoldable pub persist_call : Call × Text → Server env → Result ℕ × Server env
  persist_call (call, kind) s =
      let s = record s { line = record s.line { active_call_id = active_id call } } in
      let r = env.save_call call s.store in
      if env.has_database then saved call kind r.0 (record s { store = r.1 }) else (good 0, s)

  -- closeWebRTC, up to the media's own shutdown.
  unfoldable pub close_webrtc : Text → Server env → Server env
  close_webrtc id s = record s { media = without id s.media }

  -- sendIncomingCallPush.
  unfoldable pub send_incoming_call_push : Call → Server env → Server env
  send_incoming_call_push call s =
      if env.has_database && (env.has_push && env.valid_uuid call.id)
      then push_to env (txt "push.voip") call.id (λ device. env.send_voip device call)
          (env.list_push_targets s.store) s
      else s

  abbrev pub push_if_saved : Call → Result ℕ × Server env → Server env
  push_if_saved call (bad e, s) = s
  push_if_saved call (good n, s) = send_incoming_call_push call s

  abbrev pub came_in : Result (Call × Text) → Server env → Server env
  came_in (bad e) s = s
  came_in (good change) s = push_if_saved change.0 (persist_call change s)

  abbrev pub finished : Result (Call × Text) → Server env → Server env
  finished (bad e) s = s
  finished (good change) s = close_webrtc change.0.id (persist_call change s).1

  -- Finish of a call that the controller saw end, and what is stored of it.
  unfoldable pub finish_ended : Call → Server env → Server env
  finish_ended call s =
      let r = env.finish call.id s.control in finished r.0 (record s { control = r.1 })

  abbrev pub went_down : Result (Call × Text) → Server env → Server env
  went_down (bad e) s = s
  went_down (good change) s = finish_ended change.0 (persist_call change s).1

  abbrev pub on_modem_event : Kind → Event → Server env → Server env
  on_modem_event incoming event s =
      let r = env.incoming event.call_id event.peer s.control in
      came_in r.0 (record s { control = r.1 })
  on_modem_event ended event s =
      let r = env.remote_ended event.call_id event.raw s.control in
      went_down r.0 (record s { control = r.1 })

  -- HandleModemEvent.
  unfoldable pub handle_modem_event : Event → Server env → Server env
  handle_modem_event event s = if env.has_control then on_modem_event event.kind event s else s

  abbrev pub write_calls : List Call → Handler env
  write_calls stored =
      reply env (write 200 (many_calls (map (call_response env.gateway_id) stored)))

  abbrev pub list_page : ℕ × ℕ → Handler env
  list_page (after, limit) s =
      on_result env (env.list_calls limit s.store) (failed_with env (txt "CB-CALL-004")) write_calls
        s

  abbrev pub list_authorized : Request → Text → Handler env
  list_authorized r device =
      require env env.has_database no_call_database
        (on_parsed env (txt "CB-CALL-005") (pagination r) list_page)

  -- listCalls.
  unfoldable pub list_calls : Request → Handler env
  list_calls r = behind env (authorize env r) (list_authorized r)

  abbrev pub get_failed : Error → Handler env
  get_failed e =
      if is_no_rows e
      then reply env call_not_found_response
      else failed_with env (txt "CB-CALL-004") e

  abbrev pub write_call : Call → Handler env
  write_call call = reply env (write 200 (one_call (call_response env.gateway_id call)))

  -- getCall.
  unfoldable pub get_call : Text → Handler env
  get_call id s =
      require env (not (is_nil (trim_space id))) call_not_found_response
        (require env env.has_database no_call_database
          (on_result env (env.get_call id s.store) get_failed write_call))
        s
