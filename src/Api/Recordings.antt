-- ===== src/Api/Recordings.antt =====
-- api/server.go: the handlers of recordings and of their settings.
pub mod Control
pub mod Preferences
pub mod Once
use dontmove_kit.Prelude.{
  ℕ, Bool, true, false, not, ◌&&◌, ◌||◌, Option, none, some, List, [], ◌∷◌, ◌++◌, map,
  if◌then◌else◌, is_nil,
}
use dontmove_kit.Prelude.Int.{ℤ}
use dontmove_kit.Text.{Text, txt, text_eq, trim_space}
use dontmove_kit.Api.{
  Method, get, put, delete, method_eq, Request, value_of, SettingsRequest, Settings, Body, empty,
  plain, one_recording, many_recordings, current_settings, Call, Recording, RecordingResponse,
  unix_milli?, line_of, Response, write, write_error,
}
use dontmove_kit.Api.State.{
  Reason, not_active, low_storage, recording_disabled, automatic_disabled, not_exist, no_rows,
  Error, Result, good, bad, Env, Server,
}
use dontmove_kit.Api.Keys.{
  Handler, reply, behind, authorize, idempotency_key, require, with_json, with_claim, on_result,
  write_idempotent_error, accept, audit,
}
use dontmove_kit.Api.Paging.{pagination, recording_time_filters}
use dontmove_kit.Api.Messages.{failed_with, on_parsed}
use dontmove_kit.Api.Messages.Actions.{parts_below, is_no_rows}
use dontmove_kit.Api.Calls.{is_not_active}

-- recordingResponseFromDB, with the route metadata and the peaks of the waveform's file.
unfoldable pub recording_response : Text → (Text → List ℕ) → Recording → RecordingResponse
recording_response gateway_id peaks r = record {
  id = r.id;
  gateway_id = gateway_id;
  line_id = line_of gateway_id;
  call_id = r.call_id;
  state = r.state;
  trigger_mode = r.trigger_mode;
  started_at = unix_milli? r.started_at;
  stopped_at = unix_milli? r.stopped_at;
  duration_ms = r.duration_ms;
  container = r.container;
  codec = r.codec;
  sample_rate = r.sample_rate;
  channels = r.channels;
  bitrate = r.bitrate;
  size_bytes = r.size_bytes;
  sha256 = r.sha256;
  waveform_version = if is_nil r.waveform_path then [] else txt "v1";
  failure_code = r.failure_code;
  failure_detail = r.failure_detail;
  retention_expires_at = unix_milli? r.retention_expires_at;
  waveform_peaks = if is_nil r.waveform_path then [] else peaks r.waveform_path;
}

abbrev pub is_missing : Error → Bool
is_missing e = elim e.reason [ no_rows ↦ true | not_exist ↦ true | _ ↦ false ]

abbrev pub no_recordings : Response
no_recordings = write_error 503 (txt "CB-REC-000") (txt "recording service unavailable")

abbrev pub recording_not_found : Response
recording_not_found = write_error 404 (txt "CB-REC-007") (txt "recording not found")

abbrev pub asset_not_found : Response
asset_not_found = write_error 404 (txt "CB-REC-007") (txt "recording asset not found")

module _ (env : Env) where
  abbrev pub response_of : Recording → RecordingResponse
  response_of = recording_response env.gateway_id env.waveform_peaks

  abbrev pub nothing_after : Server env → Server env
  nothing_after s = s

  abbrev pub write_recordings : List Recording → Handler env
  write_recordings items = reply env (write 200 (many_recordings (map response_of items)))

  abbrev bad_list : Error → Handler env
  bad_list e = reply env (write_error 400 (txt "CB-REC-001") e.text)

  abbrev pub list_between : Request → ℕ × ℕ → Option ℤ × Option ℤ → Handler env
  list_between r (after, limit) times s =
      on_result env
        (env.list_recordings after limit (value_of (txt "direction") r.query)
          (trim_space (value_of (txt "query") r.query)) times s.store)
        bad_list write_recordings s

  abbrev pub list_page : Request → ℕ × ℕ → Handler env
  list_page r page =
      on_parsed env (txt "CB-REC-001") (recording_time_filters r) (list_between r page)

  abbrev pub list_authorized : Request → Text → Handler env
  list_authorized r device =
      require env env.has_recordings no_recordings
        (on_parsed env (txt "CB-REC-001") (pagination r) (list_page r))

  -- recordings.
  unfoldable pub recordings : Request → Handler env
  recordings r =
      require env (method_eq r.method get)
        (write_error 405 (txt "CB-API-001") (txt "method not allowed"))
        (behind env (authorize env r) (list_authorized r))

  abbrev pub get_failed : Error → Handler env
  get_failed e =
      if is_no_rows e then reply env recording_not_found else failed_with env (txt "CB-REC-001") e

  abbrev pub write_recording : Recording → Handler env
  write_recording r = reply env (write 200 (one_recording (response_of r)))

  abbrev pub get_recording : Text → Handler env
  get_recording id s = on_result env (env.get_recording id s.store) get_failed write_recording s

  abbrev pub deleted : Text → Text → Text → Result (Unit {0}) → Handler env
  deleted device key id (good u) =
      accept env device (txt "recording.delete") key 204 empty id (txt "CB-REC-001") nothing_after
  deleted device key id (bad e) =
      if is_no_rows e
      then write_idempotent_error env device (txt "recording.delete") key 404 (txt "CB-REC-007")
          e.text
      else write_idempotent_error env device (txt "recording.delete") key 502 (txt "CB-REC-008")
          e.text

  unfoldable pub delete_claimed : Text → Text → Text → Handler env
  delete_claimed device id key s =
      let r = env.delete_recording id s.store in
      deleted device key id r.0 (record s { store = r.1 })

  abbrev pub delete_keyed : Text → Text → Text → Handler env
  delete_keyed device id key =
      with_claim env device (txt "recording.delete") key (failed_with env (txt "CB-REC-001"))
        (delete_claimed device id key)

  abbrev pub asset_failed : Error → Handler env
  asset_failed e =
      if is_missing e then reply env asset_not_found else failed_with env (txt "CB-REC-001") e

  abbrev pub write_asset : Text → Handler env
  write_asset path =
      require env (env.file_opens path) asset_not_found (reply env (write 200 (plain path)))

  -- serveRecordingAsset: the file at a path, named by the path.
  unfoldable pub serve_recording_asset : Text → Text → Handler env
  serve_recording_asset id asset s =
      let path =
        if text_eq asset (txt "audio")
        then env.audio_path id s.store
        else env.waveform_path id s.store in
      on_result env path asset_failed write_asset s

  abbrev pub is_asset : Text → Bool
  is_asset name = text_eq name (txt "audio") || text_eq name (txt "waveform")

  abbrev pub recording_route : Request → Text → List Text → Handler env
  recording_route r device (id ∷ []) =
      if method_eq r.method get
      then get_recording id
      else require env (method_eq r.method delete)
          (write_error 405 (txt "CB-API-001") (txt "method not allowed"))
          (behind env (idempotency_key r) (delete_keyed device id))
  recording_route r device (id ∷ name ∷ []) =
      if method_eq r.method get && is_asset name
      then serve_recording_asset id name
      else reply env recording_not_found
  recording_route r device _ = reply env recording_not_found

  abbrev pub recording_authorized : Request → Text → Handler env
  recording_authorized r device =
      require env (env.has_recordings && env.has_database) no_recordings
        (recording_route r device (parts_below (txt "/api/v1/recordings/") r.path))

  -- recordingAction.
  unfoldable pub recording_action : Request → Handler env
  recording_action r = behind env (authorize env r) (recording_authorized r)
