-- ===== src/Api/Messages/Sending.antt =====
-- api/server.go: `sendMessage` and what follows a message: the rate limit, `HandleMessage` and the
-- pushes. The goroutines of the pushes are run in the targets' order.
pub mod Once
pub mod Limits
use dontmove_kit.Prelude.{
  ℕ, ◌+◌, Bool, true, false, not, ◌&&◌, ◌||◌, Option, none, some, List, [], ◌∷◌, ◌++◌, ltb,
  if◌then◌else◌, length, is_nil,
}
use dontmove_kit.Text.{Text, txt, text_eq, runes, trim_space, trim_prefix}
use dontmove_kit.Sms.{Message}
use dontmove_kit.Api.{
  Request, value_of, Body, failure, one_message, Response, write, write_error, message_response,
}
use dontmove_kit.Api.State.{
  Error, Result, good, bad, Sent, sent, not_sent, not_created, Env, Server,
}
use dontmove_kit.Api.Keys.{
  Check, Handler, reply, behind, authorize, idempotency_key, require, with_json, with_claim,
  write_idempotent_error, answer_with, accept, audit,
}
use dontmove_kit.Api.Messages.{no_database, failed_with}

unfoldable pub last_send : Text → List (Text × ℕ) → Option ℕ
last_send device [] = none
last_send device ((d, t) ∷ rest) = if text_eq d device then some t else last_send device rest

-- A write of the map lastSMSSend.
unfoldable pub note_send : Text → ℕ → List (Text × ℕ) → List (Text × ℕ)
note_send device now [] = (device, now) ∷ []
note_send device now ((d, t) ∷ rest) =
    let noted = note_send device now rest in
    if text_eq d device then (d, now) ∷ rest else (d, t) ∷ noted

-- time.Second, in nanoseconds.
abbrev pub second : ℕ
second = 1000000000

abbrev pub is_recent : ℕ → Option ℕ → Bool
is_recent now none = false
is_recent now (some previous) = ltb now (previous + second)

-- allowSMSSend, at a time.
unfoldable pub allow_sms_send : Text → ℕ → List (Text × ℕ) → Bool × List (Text × ℕ)
allow_sms_send device now sends =
    if is_recent now (last_send device sends)
    then (false, sends)
    else (true, note_send device now sends)

abbrev pub is_inbound : Message → Bool
is_inbound message = text_eq message.direction (txt "inbound")

-- The body that sendYakPhonePush posts.
unfoldable pub yak_push : Text → Text → Text → Text → List (Text × Text)
yak_push token push_type caller_uri message_body =
    (txt "token", token)
    ∷ (txt "caller_uri", caller_uri)
    ∷ (txt "caller_name", trim_prefix caller_uri (txt "sip:"))
    ∷ (txt "type", push_type)
    ∷ (if is_nil message_body then [] else (txt "message_body", message_body) ∷ [])

-- The fields of the request's body, as sendMessage takes and checks them.
abbrev pub to_of : List (Text × Text) → Text
to_of fields = trim_space (value_of (txt "to") fields)

abbrev pub body_of : List (Text × Text) → Text
body_of fields = trim_space (value_of (txt "body") fields)

unfoldable pub is_valid_message : List (Text × Text) → Bool
unfolding runes
is_valid_message fields = not (
    is_nil (to_of fields)
    || ltb 32 (length (to_of fields))
    || (is_nil (body_of fields) || ltb 10000 (length (runes (body_of fields)))))

module _ (env : Env) where
  abbrev pub outcome_of : Bool → Text
  outcome_of true = txt "accepted"
  outcome_of false = txt "failed"

  -- The audits of a push to each target, which say whether it went through.
  unfoldable pub push_all : Text → Text → (Text → Bool) → List Text → Server env → Server env
  unfolding audit
  push_all action id push [] s = s
  push_all action id push (device ∷ rest) s =
      push_all action id push rest (audit env device action id (outcome_of (push device)) s)

  abbrev pub push_to : Text → Text → (Text → Bool) → Result (List Text) → Server env → Server env
  push_to action id push (bad e) s = s
  push_to action id push (good targets) s = push_all action id push targets s

  -- sendYakPhonePush, up to the post.
  unfoldable pub send_yak_phone_push : Text → Text → Text → Server env → Server env
  send_yak_phone_push push_type caller_uri message_body s =
      if is_nil env.yak_push_token then s else record s {
        yak_pushes =
            s.yak_pushes ++ yak_push env.yak_push_token push_type caller_uri message_body ∷ [];
      }

  -- sendMessagePush behind the post: the broker's targets.
  unfoldable pub broker_push : Message → Server env → Server env
  broker_push message s =
      if env.has_database && env.has_push
      then push_to (txt "push.message") message.id (λ device. env.send_message device message)
          (env.list_push_targets s.store) s
      else s

  -- sendMessagePush.
  unfoldable pub send_message_push : Message → Server env → Server env
  send_message_push message s =
      broker_push message
        (send_yak_phone_push (txt "message") (txt "sip:" ++ message.peer) message.body s)

  abbrev pub publish_message : Message → Server env → Server env
  publish_message message s =
      if env.has_events
      then record s {
        published =
            s.published
            ++ (
              message.sync_seq,
              txt "message.created",
              one_message (message_response env.gateway_id message),
            )
              ∷ [];
      }
      else s

  abbrev pub forward_message : Message → Server env → Server env
  forward_message message s =
      if is_inbound message && env.has_sms_notifier
      then record s { forwarded = s.forwarded ++ (message.peer, message.body) ∷ [] }
      else s

  -- HandleMessage, of a message.
  unfoldable pub handle_message : Message → Server env → Server env
  handle_message message s =
      send_message_push message (forward_message message (publish_message message s))

  -- What sendMessage does with what the engine gave.
  abbrev sms_response : Message → Body
  sms_response message = one_message (message_response env.gateway_id message)

  abbrev pub after_send : Text → Text → Sent → Handler env
  after_send device key (sent message) s =
      accept env device (txt "sms.send") key 201 (sms_response message) message.id
        (txt "CB-SMS-004") (handle_message message) s
  after_send device key (not_sent message e) s =
      answer_with env device (txt "sms.send") key 502 (sms_response message)
        (audit env device (txt "sms.send") message.id (txt "failed") s)
  after_send device key (not_created e) s =
      answer_with env device (txt "sms.send") key 502 (failure (txt "CB-SMS-002") e.text)
        (audit env device (txt "sms.send") (txt "request:" ++ key) (txt "failed") s)

  unfoldable pub submit : Text → Text → List (Text × Text) → Handler env
  submit device key fields s =
      let r = env.send_sms (to_of fields) (body_of fields) s.modem s.store in
      after_send device key r.0 (record s { modem = r.1; store = r.2 })

  -- sendMessage behind the claim.
  unfoldable pub send_claimed : Request → Text → Text → List (Text × Text) → Handler env
  send_claimed r device key fields s =
      let allowed = allow_sms_send device r.now s.last_sends in
      let go_on = submit device key fields (record s { last_sends = allowed.1 }) in
      let refuse_it =
        write_idempotent_error env device (txt "sms.send") key 429 (txt "CB-SMS-008")
          (txt "SMS send rate limit exceeded") s in
      if allowed.0 then go_on else refuse_it

  abbrev pub send_fields : Request → Text → Text → List (Text × Text) → Handler env
  send_fields r device key fields =
      require env (is_valid_message fields)
        (write_error 400 (txt "CB-SMS-003") (txt "to or body is invalid"))
        (with_claim env device (txt "sms.send") key (failed_with env (txt "CB-SMS-004"))
          (send_claimed r device key fields))

  abbrev pub send_keyed : Request → Text → Text → Handler env
  send_keyed r device key =
      require env env.has_engine
        (write_error 503 (txt "CB-SMS-000") (txt "SMS modem is unavailable"))
        (require env env.has_database (no_database (txt "CB-SMS-000")) (
          with_json env r.json (write_error 400 (txt "CB-SMS-003") (txt "invalid JSON body"))
            (send_fields r device key)))

  abbrev pub send_authorized : Request → Text → Handler env
  send_authorized r device = behind env (idempotency_key r) (send_keyed r device)

  -- sendMessage.
  unfoldable pub send_message : Request → Handler env
  send_message r = behind env (authorize env r) (send_authorized r)
