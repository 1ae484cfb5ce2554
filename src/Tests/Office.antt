-- ===== src/Tests/Office.antt =====
-- A gateway for the runs over api/server.go: its services, its state, and a request.
use dontmove_kit.Prelude.{
  ℕ, ◌+◌, ◌-◌, ◌≡◌, refl, Bool, true, false, ◌&&◌, Option, none, some, List, [], ◌∷◌, if◌then◌else◌,
  ap, ◌∙◌, ◌++◌,
}
use dontmove_kit.Text.{Text, txt, text_eq}
use dontmove_kit.Text.Laws.{text_eq_refl}
use dontmove_kit.Prelude.Int.{pos}
use dontmove_kit.Sms.{Message}
use dontmove_kit.Api.{post, Request, Call, Body, empty, write}
use dontmove_kit.Api.State.{
  other_reason, Error, Result, good, bad, Saved, pending, answered, Claim, claimed, existing, sent,
  Env, Server,
}
use dontmove_kit.Api.Keys.{reply}
use dontmove_kit.Api.Keys.Once.{KeyTable}
use dontmove_kit.Api.Routes.{Elsewhere, calls}

-- A database: the keys and the stored calls.
pub record Book : Type 0 where
  pub keys : Text → Text → Text → Option Saved
  pub calls : Text → Result Call

abbrev pub set_key :
    Text
    → Text
    → Text
    → Saved
    → (Text → Text → Text → Option Saved)
    → Text
    → Text
    → Text
    → Option Saved
set_key d o k saved keys d' o' k' =
    if text_eq d d' && (text_eq o o' && text_eq k k') then some saved else keys d' o' k'

abbrev pub claim_as : Option Saved → Text → Text → Text → Book → Result Claim × Book
claim_as none d o k book = (good claimed, record book { keys = set_key d o k pending book.keys })
claim_as (some saved) d o k book = (good (existing saved), book)

pub claim_as_calls :
    (found : Option Saved) (d o k id : Text) (book : Book)
    → (claim_as found d o k book).1.calls id ≡ book.calls id
claim_as_calls none d o k id book = refl
claim_as_calls (some saved) d o k id book = refl

pub set_key_found :
    (d o k : Text) (saved : Saved) (keys : Text → Text → Text → Option Saved)
    → set_key d o k saved keys d o k ≡ some saved
set_key_found d o k saved keys = rw (text_eq_refl d, text_eq_refl o, text_eq_refl k) refl

abbrev pub complete_key : Text → Text → Text → ℕ → Body → Book → Result (Unit {0}) × Book
complete_key d o k status body book =
    (good tt, record book { keys = set_key d o k (answered status body) book.keys })

abbrev pub call_up : Call
call_up = record {
  id = txt "c1";
  direction = txt "outgoing";
  peer = txt "10086";
  state = txt "active";
  started_at = 0;
  connected_at = none;
  ended_at = none;
  end_reason = [];
  recording_id = [];
  recording_state = [];
  recording_duration_ms = none;
}

abbrev pub call_over : Call
call_over = record call_up { state = txt "ended"; ended_at = some 5 }

abbrev pub unknown_error : Error
unknown_error = record { reason = other_reason; text = txt "unknown" }

abbrev pub text_message : Message
text_message = record {
  id = txt "m1";
  thread_key = txt "10086";
  direction = txt "outbound";
  peer = txt "10086";
  body = txt "hi";
  encoding = txt "gsm7";
  status = txt "sent";
  created_at = 0;
  modem_storage = [];
  modem_index = 0;
  pdu_hash = [];
  sync_seq = 1;
}

-- A gateway whose controller counts its calls, and whose modem counts its commands or refuses them.
abbrev pub office : Bool → Env
office modem_ok = record {
  Store = Book;
  Control = ℕ;
  Modem = ℕ;
  gateway_id = txt "g";
  gateway_name = txt "gateway";
  version = txt "1";
  fingerprint = txt "f";
  network_mode = txt "tailnet";
  network_transport = [];
  turn = record {
    enabled = true;
    host = txt "relay.ts.net";
    secret = txt "s";
    credential_ttl = pos 0;
    port = pos 0;
  };
  hmac = λ key text. key ++ text;
  lookup_ip = λ host. some (some (txt "100.64.0.1") ∷ none ∷ []);
  has_auth = true;
  has_database = true;
  has_engine = true;
  has_control = true;
  has_modem = true;
  has_events = true;
  has_recordings = false;
  has_push = false;
  has_sms_notifier = true;
  yak_push_token = [];
  authorize = λ token. if text_eq token (txt "t") then some (txt "d") else none;
  claim = λ d o k book. claim_as (book.keys d o k) d o k book;
  complete = complete_key;
  append_audit = λ device action target result book. book;
  get_call = λ id book. book.calls id;
  list_calls = λ limit book. good [];
  save_call = λ call book. (good 1, book);
  delete_call = λ id book. (good 1, book);
  sync = λ after limit book. good [];
  list_messages = λ after limit book. good [];
  list_thread_messages = λ key before id limit book. good [];
  list_threads = λ book. good [];
  mark_message_read = λ id book. (good tt, book);
  delete_message = λ id book. (good tt, book);
  register_push = λ device apns voip environment locale book. (good tt, book);
  emergency_text = txt "emergency";
  is_emergency_number = λ to. text_eq to (txt "112");
  dial = λ key id to n. (good (call_up, txt "call.created"), n + 1);
  answer = λ key id n. (good (call_up, txt "call.updated"), n + 1);
  hangup = λ key id reason n. (good (call_up, txt "call.updated"), n + 1);
  dtmf = λ id digit n. (good tt, n);
  mark_cellular_ready = λ id n. (good (call_up, txt "call.updated"), n);
  finish = λ id n. (good (call_over, txt "call.ended"), n);
  rollback = λ key id n. n - 1;
  incoming = λ id peer n. (good (call_up, txt "call.incoming"), n + 1);
  remote_ended = λ id raw n. (good (call_over, txt "call.ended"), n);
  set_logical_call_id = λ id n. n;
  modem_dial = λ to n. (good tt, n + 1);
  modem_answer = λ n. (if modem_ok then good tt else bad unknown_error, n + 1);
  modem_hangup = λ n. (if modem_ok then good tt else bad unknown_error, n + 1);
  modem_dtmf = λ digit n. (good tt, n + 1);
  send_sms = λ to body n book. (sent text_message, n + 1, book);
  list_push_targets = λ book. good [];
  send_voip = λ device call. true;
  send_message = λ device message. true;
  valid_uuid = λ id. true;
  active_state = txt "active";
  recording_settings = λ book. bad unknown_error;
  update_settings = λ settings book. (good tt, book);
  used_bytes = λ book. good 0;
  start_recording = λ call mode device book. (bad unknown_error, book);
  get_recording_by_call = λ id book. bad unknown_error;
  get_recording = λ id book. bad unknown_error;
  list_recordings = λ after limit direction query times book. good [];
  delete_recording = λ id book. (good tt, book);
  audio_path = λ id book. bad unknown_error;
  waveform_path = λ id book. bad unknown_error;
  file_opens = λ path. false;
  waveform_peaks = λ path. [];
  stop_recording = λ id reason book. (good tt, book);
}

unfoldable pub office_table : (modem_ok : Bool) → KeyTable (office modem_ok)
office_table modem_ok = record {
  find = λ d o k book. book.keys d o k;
  claim_known = λ d o k book saved h. ap (λ found. claim_as found d o k book) h;
  claim_new = λ d o k book h. ap (λ found. (claim_as found d o k book).0) h;
  claim_pending = λ d o k book h.
      ap (λ found. (claim_as found d o k book).1.keys d o k) h
      ∙ set_key_found d o k pending book.keys;
  complete_good = λ d o k status body book. refl;
  complete_found = λ d o k status body book. set_key_found d o k (answered status body) book.keys;
  audit_keeps = λ d o k who what target result book. refl;
}

abbrev pub no_call : Text → Result Call
no_call id = bad unknown_error

abbrev pub opened : (modem_ok : Bool) → (Text → Result Call) → Server (office modem_ok)
opened modem_ok calls = record {
  store = record { keys = λ d o k. none; calls = calls };
  control = 0;
  modem = 0;
  last_sends = [];
  line = record {
    sim = txt "ready";
    registration = txt "home";
    capability_tier = txt "full";
    voice = txt "available";
    sms = txt "available";
    active_call_id = some (txt "c1");
  };
  capabilities = [];
  media = txt "c1" ∷ [];
  published = [];
  forwarded = [];
  yak_pushes = [];
}

abbrev pub shut : (modem_ok : Bool) → Elsewhere (office modem_ok)
shut modem_ok = record {
  media = λ r device. reply (office modem_ok) (write 404 empty);
  pairing_start = λ r. reply (office modem_ok) (write 404 empty);
  pairing_complete = λ r. reply (office modem_ok) (write 404 empty);
  refresh = λ r. reply (office modem_ok) (write 404 empty);
  events = λ r. reply (office modem_ok) (write 404 empty);
}

abbrev pub dial_fields : List (Text × Text)
dial_fields = (txt "to", txt "10086") ∷ (txt "clientCallId", txt "c1") ∷ []

abbrev pub post_calls : Request
post_calls = record {
  method = post;
  path = txt "/api/v1/calls";
  headers = (txt "Authorization", txt "Bearer t") ∷ (txt "Idempotency-Key", txt "k") ∷ [];
  query = [];
  json = some dial_fields;
  settings = none;
  now = 0;
}
