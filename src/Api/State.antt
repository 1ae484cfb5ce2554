-- ===== src/Api/State.antt =====
-- api/server.go: the server's state, and the services that its handlers call.
--
-- The database, the token service, the call controller, the modem, the SMS engine, the recordings and
-- the push broker are packages that are not part of this repository: `Env` has their operations over
-- the states of the three that matter, a store, a controller and a modem. A `nil` service of
-- the source is a `has_…` that is false.
use dontmove_kit.Prelude.{ℕ, Bool, Option, List}
use dontmove_kit.Prelude.Int.{ℤ}
use dontmove_kit.Text.{Text}
use dontmove_kit.Sms.{Message}
use dontmove_kit.Api.{Body, Call, Change, Line, Recording, Settings, Thread}

-- The errors that a handler asks for with errors.Is.
pub data Reason : Type 0 where
  no_rows line_busy call_not_found invalid_dtmf invalid_state : Reason
  duplicate_event active_call no_active_call not_active low_storage : Reason
  recording_disabled automatic_disabled not_exist other_reason : Reason

pub record Error : Type 0 where
  pub reason : Reason
  pub text : Text

pub data Result {ℓ} (A : Type ℓ) : Type ℓ where
  good : A → Result A
  bad : Error → Result A

-- db.IdempotencyRecord: what was answered, or that it is still pending.
pub data Saved : Type 0 where
  pending : Saved
  answered : ℕ → Body → Saved

-- What ClaimIdempotency gives beside its error.
pub data Claim : Type 0 where
  claimed : Claim
  existing : Saved → Claim

-- What (*sms.Engine).Send gives.
pub data Sent : Type 0 where
  sent : Message → Sent
  not_sent : Message → Error → Sent
  not_created : Error → Sent

-- The server's PrivateTURN; the lifetime of a credential is in nanoseconds.
pub record Turn : Type 0 where
  pub enabled : Bool
  pub host : Text
  pub secret : Text
  pub credential_ttl : ℤ
  pub port : ℤ

pub record Env : Type 1 where
  pub Store : Type 0
  pub Control : Type 0
  pub Modem : Type 0
  pub gateway_id : Text
  pub gateway_name : Text
  pub version : Text
  pub fingerprint : Text
  pub network_mode : Text
  pub network_transport : Text
  pub turn : Turn
  pub hmac : Text → Text → Text  -- HMAC-SHA1 of a key and a text, in base64
  pub lookup_ip : Text → Option (List (Option Text))  -- net.LookupIP: `none` for an address that is not IPv4
  pub has_auth : Bool
  pub has_database : Bool
  pub has_engine : Bool
  pub has_control : Bool
  pub has_modem : Bool
  pub has_events : Bool
  pub has_recordings : Bool
  pub has_push : Bool
  pub has_sms_notifier : Bool
  pub yak_push_token : Text
  -- (*auth.Service).Authorize; `none` is an error.
  pub authorize : Text → Option Text
  -- The database.
  pub claim : Text → Text → Text → Store → Result Claim × Store
  pub complete : Text → Text → Text → ℕ → Body → Store → Result (Unit {0}) × Store
  pub append_audit : Text → Text → Text → Text → Store → Store
  pub get_call : Text → Store → Result Call
  pub list_calls : ℕ → Store → Result (List Call)
  pub save_call : Call → Store → Result ℕ × Store
  pub delete_call : Text → Store → Result ℕ × Store
  pub sync : ℕ → ℕ → Store → Result (List Change)
  pub list_messages : ℕ → ℕ → Store → Result (List Message)
  pub list_thread_messages : Text → Option ℕ → Text → ℕ → Store → Result (List Message)
  pub list_threads : Store → Result (List Thread)
  pub mark_message_read : Text → Store → Result (Unit {0}) × Store
  pub delete_message : Text → Store → Result (Unit {0}) × Store
  pub register_push : Text → Text → Text → Text → Text → Store → Result (Unit {0}) × Store
  -- The call controller. An event is its kind.
  pub emergency_text : Text  -- ErrEmergencyCall's
  pub is_emergency_number : Text → Bool
  pub dial : Text → Text → Text → Control → Result (Call × Text) × Control
  pub answer : Text → Text → Control → Result (Call × Text) × Control
  pub hangup : Text → Text → Text → Control → Result (Call × Text) × Control
  pub dtmf : Text → ℕ → Control → Result (Unit {0}) × Control
  pub mark_cellular_ready : Text → Control → Result (Call × Text) × Control
  pub finish : Text → Control → Result (Call × Text) × Control
  pub rollback : Text → Text → Control → Control
  pub incoming : Text → Text → Control → Result (Call × Text) × Control
  pub remote_ended : Text → Text → Control → Result (Call × Text) × Control
  -- The modem, as calls and the SMS engine use it.
  pub set_logical_call_id : Text → Modem → Modem
  pub modem_dial : Text → Modem → Result (Unit {0}) × Modem
  pub modem_answer : Modem → Result (Unit {0}) × Modem
  pub modem_hangup : Modem → Result (Unit {0}) × Modem
  pub modem_dtmf : ℕ → Modem → Result (Unit {0}) × Modem
  pub send_sms : Text → Text → Modem → Store → Sent × Modem × Store
  -- The push broker: its targets by device, and whether a push to one went through.
  pub list_push_targets : Store → Result (List Text)
  pub send_voip : Text → Call → Bool
  pub send_message : Text → Message → Bool
  pub valid_uuid : Text → Bool
  -- The recordings' manager. `active_state` is call.Active; a waveform's peaks are read from its file.
  pub active_state : Text
  pub recording_settings : Store → Result Settings
  pub update_settings : Settings → Store → Result (Unit {0}) × Store
  pub used_bytes : Store → Result ℕ
  pub start_recording : Call → Text → Text → Store → Result Recording × Store
  pub get_recording_by_call : Text → Store → Result Recording
  pub get_recording : Text → Store → Result Recording
  pub list_recordings : ℕ → ℕ → Text → Text → Option ℤ × Option ℤ → Store → Result (List Recording)
  pub delete_recording : Text → Store → Result (Unit {0}) × Store
  pub audio_path : Text → Store → Result Text
  pub waveform_path : Text → Store → Result Text
  pub file_opens : Text → Bool
  pub waveform_peaks : Text → List ℕ
  pub stop_recording : Text → Text → Store → Result (Unit {0}) × Store

module _ (env : Env) where
  open env use {Store, Control, Modem}

  -- The server: `last_sends` is lastSMSSend, `media` the calls with a WebRTC session,
  -- `published` what went to the event bus, and `yak_pushes` the bodies
  -- posted to the push endpoint.
  pub record Server : Type 0 where
    pub store : Store
    pub control : Control
    pub modem : Modem
    pub last_sends : List (Text × ℕ)
    pub line : Line
    pub capabilities : Text  -- as they are marshalled
    pub media : List Text
    pub published : List (ℕ × Text × Body)
    pub forwarded : List (Text × Text)  -- what InboundSMSNotifier was given
    pub yak_pushes : List (List (Text × Text))
