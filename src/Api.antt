-- ===== src/Api.antt =====
-- api/server.go: what comes over the wire, and what goes back.
--
-- A JSON body is what `json.Decoder` makes of it: the string fields of an object, or nothing. A
-- response's body is the value that is marshalled; marshalling itself does not fail.
pub mod Sdp
pub mod Turn
pub mod State
pub mod Keys
pub mod Paging
pub mod Messages
pub mod Calls
pub mod Routes
pub mod Recordings
use dontmove_kit.Prelude.{
  ℕ, ◌/◌, ◌++◌, Bool, true, false, Option, none, some, List, [], ◌∷◌, if◌then◌else◌,
}
use dontmove_kit.Prelude.Int.{ℤ}
use dontmove_kit.Text.{Text, txt, text_eq}
use dontmove_kit.Sms.{Message}

pub data Method : Type 0 where
  get post put delete other_method : Method

abbrev pub method_eq : Method → Method → Bool
method_eq get get = true
method_eq post post = true
method_eq put put = true
method_eq delete delete = true
method_eq other_method other_method = true
method_eq _ _ = false

-- recordingSettingsRequest: a field that is missing is none.
pub record SettingsRequest : Type 0 where
  pub enabled : Option Bool
  pub auto_mode : Option Text
  pub retention_days : Option ℤ
  pub minimum_free_bytes : Option ℤ

-- The settings of the recordings, with the bytes in use as a response gives them.
pub record Settings : Type 0 where
  pub enabled : Bool
  pub auto_mode : Text
  pub retention_days : ℤ
  pub minimum_free_bytes : ℤ

-- What a handler reads of http.Request. `settings` is the body of a change of the settings. `now` is time.Now, in nanoseconds.
pub record Request : Type 0 where
  pub method : Method
  pub path : Text
  pub headers : List (Text × Text)
  pub query : List (Text × Text)
  pub json : Option (List (Text × Text))
  pub settings : Option SettingsRequest
  pub now : ℕ

-- The value of a header, a query parameter or a string field: empty if it is missing.
unfoldable pub value_of : Text → List (Text × Text) → Text
unfolding text_eq
value_of name [] = []
value_of name ((key, value) ∷ rest) = if text_eq key name then value else value_of name rest

-- db.Call and call.Call.
pub record Call : Type 0 where
  pub id : Text
  pub direction : Text
  pub peer : Text
  pub state : Text
  pub started_at : ℕ
  pub connected_at : Option ℕ
  pub ended_at : Option ℕ
  pub end_reason : Text
  pub recording_id : Text
  pub recording_state : Text
  pub recording_duration_ms : Option ℤ

pub record CallResponse : Type 0 where
  pub id : Text
  pub gateway_id : Text
  pub line_id : Text
  pub direction : Text
  pub peer : Text
  pub state : Text
  pub started_at : ℕ
  pub connected_at : Option ℕ
  pub ended_at : Option ℕ
  pub end_reason : Text
  pub recording_id : Text
  pub recording_state : Text
  pub recording_duration_ms : Option ℤ

pub record MessageResponse : Type 0 where
  pub id : Text
  pub gateway_id : Text
  pub line_id : Text
  pub thread_key : Text
  pub direction : Text
  pub peer : Text
  pub body : Text
  pub encoding : Text
  pub status : Text
  pub created_at : ℕ

pub record Thread : Type 0 where
  pub key : Text
  pub peer : Text
  pub unread_count : ℕ
  pub last_message : Message

pub record ThreadResponse : Type 0 where
  pub key : Text
  pub peer : Text
  pub unread_count : ℕ
  pub last_message : MessageResponse

-- db.Change.
pub record Change : Type 0 where
  pub seq : ℕ
  pub entity : Text

-- db.Recording.
pub record Recording : Type 0 where
  pub id : Text
  pub call_id : Text
  pub state : Text
  pub trigger_mode : Text
  pub started_at : Option ℕ
  pub stopped_at : Option ℕ
  pub duration_ms : Option ℕ
  pub container : Text
  pub codec : Text
  pub sample_rate : ℕ
  pub channels : ℕ
  pub bitrate : ℕ
  pub size_bytes : Option ℕ
  pub sha256 : Text
  pub waveform_path : Text
  pub failure_code : Text
  pub failure_detail : Text
  pub retention_expires_at : Option ℕ

pub record RecordingResponse : Type 0 where
  pub id : Text
  pub gateway_id : Text
  pub line_id : Text
  pub call_id : Text
  pub state : Text
  pub trigger_mode : Text
  pub started_at : Option ℕ
  pub stopped_at : Option ℕ
  pub duration_ms : Option ℕ
  pub container : Text
  pub codec : Text
  pub sample_rate : ℕ
  pub channels : ℕ
  pub bitrate : ℕ
  pub size_bytes : Option ℕ
  pub sha256 : Text
  pub waveform_version : Text
  pub failure_code : Text
  pub failure_detail : Text
  pub retention_expires_at : Option ℕ
  pub waveform_peaks : List ℕ

-- modem.LineStatus, with the fields that this file reads or sets.
pub record Line : Type 0 where
  pub sim : Text
  pub registration : Text
  pub capability_tier : Text
  pub voice : Text
  pub sms : Text
  pub active_call_id : Option Text

pub data Body : Type 0 where
  empty : Body
  failure : Text → Text → Body  -- code and message
  object : List (Text × Text) → Body
  one_message : MessageResponse → Body
  many_messages : List MessageResponse → Body
  many_threads : List ThreadResponse → Body
  one_call : CallResponse → Body
  many_calls : List CallResponse → Body
  changes : ℕ → ℕ → Bool → List Change → Body  -- from, to, hasMore
  line_status : Line → Body
  gateway_status : List (Text × Text) → Text → Body  -- with the capabilities as they are marshalled
  plain : Text → Body
  one_recording : RecordingResponse → Body
  many_recordings : List RecordingResponse → Body
  current_settings : Settings → ℕ → Body  -- with the bytes in use
  ice_servers : List Text → Text → Text → ℕ → Body  -- urls, username, credential, expiry

-- `has_more` is the header X-CellBridge-Has-More.
pub record Response : Type 0 where
  pub status : ℕ
  pub body : Body
  pub has_more : Option Bool

-- writeJSON and writeRawJSON.
abbrev pub write : ℕ → Body → Response
write status body = record { status = status; body = body; has_more = none }

-- writeError.
abbrev pub write_error : ℕ → Text → Text → Response
write_error status code message = write status (failure code message)

-- (time.Time).UnixMilli of a time in nanoseconds.
abbrev pub unix_milli : ℕ → ℕ
unix_milli t = t / 1000000

abbrev pub unix_milli? : Option ℕ → Option ℕ
unix_milli? none = none
unix_milli? (some t) = some (unix_milli t)

-- routeMetadata's line.
abbrev pub line_of : Text → Text
line_of gateway_id = gateway_id ++ txt ":line"

-- callResponseFromDomain and callResponseFromDB, with the route metadata.
unfoldable pub call_response : Text → Call → CallResponse
call_response gateway_id call = record {
  id = call.id;
  gateway_id = gateway_id;
  line_id = line_of gateway_id;
  direction = call.direction;
  peer = call.peer;
  state = call.state;
  started_at = unix_milli call.started_at;
  connected_at = unix_milli? call.connected_at;
  ended_at = unix_milli? call.ended_at;
  end_reason = call.end_reason;
  recording_id = call.recording_id;
  recording_state = call.recording_state;
  recording_duration_ms = call.recording_duration_ms;
}

-- messageResponseFromDB.
unfoldable pub message_response : Text → Message → MessageResponse
message_response gateway_id message = record {
  id = message.id;
  gateway_id = gateway_id;
  line_id = line_of gateway_id;
  thread_key = message.thread_key;
  direction = message.direction;
  peer = message.peer;
  body = message.body;
  encoding = message.encoding;
  status = message.status;
  created_at = unix_milli message.created_at;
}

unfoldable pub thread_response : Text → Thread → ThreadResponse
unfolding message_response
thread_response gateway_id thread = record {
  key = thread.key;
  peer = thread.peer;
  unread_count = thread.unread_count;
  last_message = message_response gateway_id thread.last_message;
}
