-- ===== src/Api/Recordings/Once.antt =====
-- api/server.go: the recordings' handlers under a key that was seen before.
use dontmove_kit.Prelude.{
  ◌≡◌, refl, ◌&&◌, Bool, true, false, List, [], ◌∷◌, inl, inr, Bool-cases, if_either,
}
use dontmove_kit.Text.{Text, txt, text_eq}
use dontmove_kit.Api.{get, method_eq, Request, Call, Recording}
use dontmove_kit.Api.State.{Error, Result, good, bad, Env, Server}
use dontmove_kit.Api.Keys.{authorize, idempotency_key, Handler}
use dontmove_kit.Api.Keys.Once.{
  KeyTable, IsRecorded, accept-IsRecorded, with_claim-IsIdempotent,
  write_idempotent_error-IsRecorded,
}
use dontmove_kit.Api.Keys.Repeats.{
  IsIdempotent, behind-IsIdempotent, require-IsIdempotent, reply-IsIdempotent, if-IsIdempotent,
  unchanged-IsIdempotent, behind_keeps, require_keeps, on_result_keeps,
}
use dontmove_kit.Api.Paging.{pagination, recording_time_filters}
use dontmove_kit.Api.Messages.Reading.{on_parsed_keeps}
use dontmove_kit.Api.Messages.Actions.{parts_below, is_no_rows}
use dontmove_kit.Api.Calls.{is_not_active}
use dontmove_kit.Api.Recordings.{
  recordings, list_authorized, list_page, list_between, write_recordings, get_failed,
  write_recording, get_recording, deleted, delete_claimed, delete_keyed, asset_failed, write_asset,
  serve_recording_asset, is_asset, recording_route, recording_authorized, recording_action,
  is_missing,
}
use dontmove_kit.Api.Recordings.Control.{
  started, start_call, stored_recording, stopped, no_call, on_call, op_named, record_claimed,
  record_keyed, record_authorized, call_recording_action, start_error_status,
}

module _ {env : Env} where
  get_failed_keeps : (e : Error) (s : Server env) → (get_failed env e s).1 ≡ s
  get_failed_keeps e s = elim (Bool-cases (is_no_rows e)) [
    | inl gone ↦ rw gone refl
    | inr other ↦ rw other refl
  ]

  get_recording-IsIdempotent : (id : Text) → IsIdempotent (get_recording env id)
  get_recording-IsIdempotent id = unchanged-IsIdempotent (get_recording env id) (λ s.
      on_result_keeps (env.get_recording id s.store) (get_failed env) (write_recording env) s
        (λ e. get_failed_keeps e s) (λ r. refl))

  asset_failed_keeps : (e : Error) (s : Server env) → (asset_failed env e s).1 ≡ s
  asset_failed_keeps e s = if_either (λ (h : Handler env). (h s).1 ≡ s) (is_missing e) _ _ refl refl

  serve_recording_asset-IsIdempotent :
      (id asset : Text) → IsIdempotent (serve_recording_asset env id asset)
  unfolding serve_recording_asset
  serve_recording_asset-IsIdempotent id asset =
      unchanged-IsIdempotent (serve_recording_asset env id asset) (λ s.
        on_result_keeps _ (asset_failed env) (write_asset env) s (λ e. asset_failed_keeps e s)
          (λ path. require_keeps _ _ _ s refl))

  -- The list of recordings, asked for again, is the same and changes nothing.
  pub recordings-IsIdempotent : (r : Request) → IsIdempotent (recordings env r)
  unfolding recordings
  recordings-IsIdempotent r = require-IsIdempotent _ _ _ (
      unchanged-IsIdempotent _ (λ s.
        behind_keeps (authorize env r) (list_authorized env r) s (λ device. require_keeps _ _ _ s (
          on_parsed_keeps _ (pagination r) (list_page env r) s (λ page.
            on_parsed_keeps _ (recording_time_filters r) (list_between env r page) s (λ times.
              on_result_keeps _ _ (write_recordings env) s (λ e. refl) (λ items. refl)))))))

module _ {env : Env} (table : KeyTable env) (stored : env.has_database ≡ true) where
  started-IsRecorded :
      (device key : Text) (r : Result Recording) (s : Server env)
      → IsRecorded table stored device (txt "recording.start") key (started env device key r s)
  started-IsRecorded device key (good r) s =
      accept-IsRecorded table stored device _ key 201 _ _ _ _ (λ t. refl) s
  started-IsRecorded device key (bad e) s =
      let (status, code) = start_error_status e in
      write_idempotent_error-IsRecorded table stored device _ key status code e.text s

  start_call-IsRecorded :
      (device key : Text) (call : Call) (s : Server env)
      → IsRecorded table stored device
          (txt "recording.start")
          key
          (start_call env device key call s)
  start_call-IsRecorded device key call s =
      elim (Bool-cases (text_eq call.state env.active_state)) [
        | inl up ↦ rw up (started-IsRecorded device key _ _)
        | inr down ↦ rw down (write_idempotent_error-IsRecorded table stored device _ key 409 _ _ s)
      ]

  stored_recording-IsRecorded :
      (device key : Text) (r : Result Recording) (s : Server env)
      → IsRecorded table stored device
          (txt "recording.stop")
          key
          (stored_recording env device key r s)
  stored_recording-IsRecorded device key (good r) s =
      accept-IsRecorded table stored device _ key 202 _ _ _ _ (λ t. refl) s
  stored_recording-IsRecorded device key (bad e) s =
      write_idempotent_error-IsRecorded table stored device _ key 404 _ _ s

  stopped-IsRecorded :
      (device key call_id : Text) (r : Result (Unit {0})) (s : Server env)
      → IsRecorded table stored device
          (txt "recording.stop")
          key
          (stopped env device key call_id r s)
  stopped-IsRecorded device key call_id (good u) s = stored_recording-IsRecorded device key _ s
  stopped-IsRecorded device key call_id (bad e) s = elim (Bool-cases (is_not_active e)) [
    | inl idle ↦ rw idle (stored_recording-IsRecorded device key _ s)
    | inr other ↦ rw other (write_idempotent_error-IsRecorded table stored device _ key 502 _ _ s)
  ]

  no_call-IsRecorded :
      (device key operation : Text) (e : Error) (s : Server env)
      → IsRecorded table stored device operation key (no_call env device key operation e s)
  no_call-IsRecorded device key operation e s = elim (Bool-cases (is_no_rows e)) [
    | inl gone ↦ rw gone (write_idempotent_error-IsRecorded table stored device _ key 404 _ _ s)
    | inr other ↦ rw other (write_idempotent_error-IsRecorded table stored device _ key 500 _ _ s)
  ]

  on_call-IsRecorded :
      (device key call_id : Text) (starts : Bool) (r : Result Call) (s : Server env)
      → IsRecorded table stored device
          (op_named env starts)
          key
          (on_call env device key call_id starts r s)
  on_call-IsRecorded device key call_id true (good call) s = start_call-IsRecorded device key call s
  on_call-IsRecorded device key call_id false (good call) s =
      stopped-IsRecorded device key call_id _ _
  on_call-IsRecorded device key call_id true (bad e) s = no_call-IsRecorded device key _ e s
  on_call-IsRecorded device key call_id false (bad e) s = no_call-IsRecorded device key _ e s

  -- A start or a stop of a call's recording, again under its key, is answered the same and changes
  -- nothing.
  pub call_recording_action-IsIdempotent :
      (r : Request) (call_id : Text) (starts : Bool)
      → IsIdempotent (call_recording_action env r call_id starts)
  unfolding call_recording_action record_claimed
  call_recording_action-IsIdempotent r call_id starts =
      behind-IsIdempotent (authorize env r) (record_authorized env r call_id starts) (λ device.
        require-IsIdempotent _ _ _ (
          behind-IsIdempotent (idempotency_key r) (record_keyed env device call_id starts) (λ key.
            with_claim-IsIdempotent table stored device (op_named env starts) key _
              (record_claimed env device call_id starts key)
              (λ s. on_call-IsRecorded device key call_id starts _ s))))

  deleted-IsRecorded :
      (device key id : Text) (r : Result (Unit {0})) (s : Server env)
      → IsRecorded table stored device (txt "recording.delete") key (deleted env device key id r s)
  deleted-IsRecorded device key id (good u) s =
      accept-IsRecorded table stored device _ key 204 _ _ _ _ (λ t. refl) s
  deleted-IsRecorded device key id (bad e) s = elim (Bool-cases (is_no_rows e)) [
    | inl gone ↦ rw gone (write_idempotent_error-IsRecorded table stored device _ key 404 _ _ s)
    | inr other ↦ rw other (write_idempotent_error-IsRecorded table stored device _ key 502 _ _ s)
  ]

  delete_keyed-IsIdempotent : (device id key : Text) → IsIdempotent (delete_keyed env device id key)
  unfolding delete_claimed
  delete_keyed-IsIdempotent device id key =
      with_claim-IsIdempotent table stored device _ key _ (delete_claimed env device id key)
        (λ s. deleted-IsRecorded device key id _ _)

  recording_route-IsIdempotent :
      (r : Request) (device : Text) (parts : List Text)
      → IsIdempotent (recording_route env r device parts)
  recording_route-IsIdempotent r device [] = reply-IsIdempotent _
  recording_route-IsIdempotent r device (id ∷ []) =
      if-IsIdempotent (method_eq r.method get) _ _ (get_recording-IsIdempotent id) (
        require-IsIdempotent _ _ _ (
          behind-IsIdempotent (idempotency_key r) (delete_keyed env device id)
            (delete_keyed-IsIdempotent device id)))
  recording_route-IsIdempotent r device (id ∷ name ∷ []) =
      if-IsIdempotent (method_eq r.method get && is_asset env name) _ _
        (serve_recording_asset-IsIdempotent id name) (reply-IsIdempotent _)
  recording_route-IsIdempotent r device (id ∷ name ∷ more ∷ rest) = reply-IsIdempotent _

  -- A recording that is read or deleted, again under the deletion's key: the same answer, and nothing
  -- changes.
  pub recording_action-IsIdempotent : (r : Request) → IsIdempotent (recording_action env r)
  unfolding recording_action
  recording_action-IsIdempotent r =
      behind-IsIdempotent (authorize env r) (recording_authorized env r) (λ device.
        require-IsIdempotent _ _ _
          (recording_route-IsIdempotent r device (parts_below (txt "/api/v1/recordings/") r.path)))
