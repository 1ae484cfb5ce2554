-- ===== src/Api/Messages/Sending/Once.antt =====
-- api/server.go: a message whose key was seen before is not submitted again.
use dontmove_kit.Api.Keys.Settled.{audit-find}
use dontmove_kit.Prelude.{
  ◌≡◌, refl, ap, ◌∙◌, ◌&&◌, Bool, true, List, [], ◌∷◌, inl, inr, Bool-cases, is_nil,
}
use dontmove_kit.Text.{Text, txt}
use dontmove_kit.Sms.{Message}
use dontmove_kit.Api.{Request, failure}
use dontmove_kit.Api.State.{Result, good, bad, Sent, sent, not_sent, not_created, Env, Server}
use dontmove_kit.Api.Keys.{authorize, idempotency_key}
use dontmove_kit.Api.Keys.Once.{
  KeyTable, IsRecorded, answer_with-IsRecorded, accept-IsRecorded, completions_of,
  with_claim-IsIdempotent, write_idempotent_error-IsRecorded,
}
use dontmove_kit.Api.Keys.Repeats.{
  IsIdempotent, behind-IsIdempotent, require-IsIdempotent, with_json-IsIdempotent,
}
use dontmove_kit.Api.Messages.Sending.{
  push_all, push_to, broker_push, send_yak_phone_push, send_message_push, handle_message,
  publish_message, forward_message, after_send, submit, send_claimed, send_fields, send_keyed,
  send_authorized, send_message, outcome_of, allow_sms_send, is_inbound,
}

module _ {env : Env} (table : KeyTable env) (stored : env.has_database ≡ true) where
  pub push_all-find :
      (device operation key action id : Text) (push : Text → Bool) (targets : List Text)
      (s : Server env)
      → table.find device operation key (push_all env action id push targets s).store
        ≡ table.find device operation key s.store
  unfolding push_all
  push_all-find device operation key action id push [] s = refl
  push_all-find device operation key action id push (target ∷ rest) s =
      push_all-find device operation key action id push rest _
      ∙ audit-find (completions_of table) stored device operation key target action id
          (outcome_of env (push target)) s

  push_to-find :
      (device operation key action id : Text) (push : Text → Bool) (r : Result (List Text))
      (s : Server env)
      → table.find device operation key (push_to env action id push r s).store
        ≡ table.find device operation key s.store
  push_to-find device operation key action id push (bad e) s = refl
  push_to-find device operation key action id push (good targets) s =
      push_all-find device operation key action id push targets s

  broker_push-find :
      (device operation key : Text) (message : Message) (s : Server env)
      → table.find device operation key (broker_push env message s).store
        ≡ table.find device operation key s.store
  unfolding broker_push
  broker_push-find device operation key message s =
      elim (Bool-cases (env.has_database && env.has_push)) [
        | inl on ↦ rw on (push_to-find device operation key _ _ _ (env.list_push_targets s.store) s)
        | inr off ↦ rw off refl
      ]

  yak_keeps :
      (push_type caller_uri message_body : Text) (s : Server env)
      → (send_yak_phone_push env push_type caller_uri message_body s).store ≡ s.store
  unfolding send_yak_phone_push
  yak_keeps push_type caller_uri message_body s = elim (Bool-cases (is_nil env.yak_push_token)) [
    | inl off ↦ rw off refl
    | inr on ↦ rw on refl
  ]

  publish_keeps :
      (message : Message) (s : Server env) → (publish_message env message s).store ≡ s.store
  publish_keeps message s = elim (Bool-cases env.has_events) [
    | inl on ↦ rw on refl
    | inr off ↦ rw off refl
  ]

  forward_keeps :
      (message : Message) (s : Server env) → (forward_message env message s).store ≡ s.store
  forward_keeps message s = elim (Bool-cases (is_inbound message && env.has_sms_notifier)) [
    | inl on ↦ rw on refl
    | inr off ↦ rw off refl
  ]

  handle_message-find :
      (device operation key : Text) (message : Message) (s : Server env)
      → table.find device operation key (handle_message env message s).store
        ≡ table.find device operation key s.store
  unfolding handle_message send_message_push
  handle_message-find device operation key message s =
      let find = table.find device operation key in
      broker_push-find device operation key message _
      ∙ ap find (yak_keeps _ _ _ _)
      ∙ ap find (forward_keeps message _)
      ∙ ap find (publish_keeps message s)

  after_send-IsRecorded :
      (device key : Text) (r : Sent) (s : Server env)
      → IsRecorded table stored device (txt "sms.send") key (after_send env device key r s)
  after_send-IsRecorded device key (sent message) s =
      accept-IsRecorded table stored device _ key 201 _ _ _ _
        (handle_message-find device (txt "sms.send") key message) s
  after_send-IsRecorded device key (not_sent message e) s =
      answer_with-IsRecorded table stored device _ key 502 _ _
  after_send-IsRecorded device key (not_created e) s =
      answer_with-IsRecorded table stored device _ key 502 (failure (txt "CB-SMS-002") e.text) _

  -- Whatever the modem makes of a message, the answer is what the table holds under the key.
  pub send_claimed-IsRecorded :
      (r : Request) (device key : Text) (fields : List (Text × Text)) (s : Server env)
      → IsRecorded table stored device (txt "sms.send") key (send_claimed env r device key fields s)
  unfolding send_claimed submit
  send_claimed-IsRecorded r device key fields s =
      elim (Bool-cases (allow_sms_send device r.now s.last_sends).0) [
        | inl allowed ↦ rw allowed (after_send-IsRecorded device key _ _)
        | inr refused ↦
            rw refused (write_idempotent_error-IsRecorded table stored device _ key 429 _ _ s)
      ]

  -- A message that comes again under its key gets the same answer and changes nothing.
  pub send_message-IsIdempotent : (r : Request) → IsIdempotent (send_message env r)
  unfolding send_message
  send_message-IsIdempotent r =
      behind-IsIdempotent (authorize env r) (send_authorized env r) (λ device.
        behind-IsIdempotent (idempotency_key r) (send_keyed env r device) (λ key.
          require-IsIdempotent _ _ _ (
            require-IsIdempotent _ _ _ (
              with_json-IsIdempotent r.json _ (send_fields env r device key) (λ fields.
                require-IsIdempotent _ _ _ (
                  with_claim-IsIdempotent table stored device _ key _ _
                    (send_claimed-IsRecorded r device key fields)))))))
