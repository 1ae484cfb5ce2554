-- ===== src/Api/Messages/Actions/Once.antt =====
-- api/server.go: marking a message read and registering for pushes, again under the same key.
use dontmove_kit.Prelude.{◌≡◌, refl, ◌&&◌, true, false, List, [], ◌∷◌, inl, inr, Bool-cases}
use dontmove_kit.Text.{Text, txt, text_eq}
use dontmove_kit.Api.{post, delete, method_eq, Request}
use dontmove_kit.Api.State.{Result, good, bad, Env, Server}
use dontmove_kit.Api.Keys.{authorize, idempotency_key}
use dontmove_kit.Api.Keys.Once.{
  KeyTable, IsRecorded, answer_with-IsRecorded, accept-IsRecorded, with_claim-IsIdempotent,
  write_idempotent_error-IsRecorded,
}
use dontmove_kit.Api.Keys.Repeats.{
  IsIdempotent, behind-IsIdempotent, require-IsIdempotent, with_json-IsIdempotent,
  reply-IsIdempotent,
}
use dontmove_kit.Api.Messages.Actions.{
  is_no_rows, parts_below, after_read, read_claimed, read_keyed, message_route, message_authorized,
  message_action, after_register, register_claimed, register_fields, register_keyed,
  register_authorized, device_action,
}

module _ {env : Env} (table : KeyTable env) (stored : env.has_database ≡ true) where
  after_read-IsRecorded :
      (device key id : Text) (r : Result (Unit {0})) (s : Server env)
      → IsRecorded table stored device (txt "message.read") key (after_read env device key id r s)
  after_read-IsRecorded device key id (good u) s =
      accept-IsRecorded table stored device _ key 204 _ _ _ _ (λ t. refl) s
  after_read-IsRecorded device key id (bad e) s = elim (Bool-cases (is_no_rows e)) [
    | inl gone ↦ rw gone (answer_with-IsRecorded table stored device _ key 404 _ s)
    | inr other ↦ rw other (write_idempotent_error-IsRecorded table stored device _ key 500 _ _ s)
  ]

  after_register-IsRecorded :
      (device key : Text) (r : Result (Unit {0})) (s : Server env)
      → IsRecorded table stored device (txt "push.register") key (after_register env device key r s)
  after_register-IsRecorded device key (good u) s =
      accept-IsRecorded table stored device _ key 204 _ _ _ _ (λ t. refl) s
  after_register-IsRecorded device key (bad e) s = elim (Bool-cases (is_no_rows e)) [
    | inl gone ↦ rw gone (write_idempotent_error-IsRecorded table stored device _ key 404 _ _ s)
    | inr other ↦ rw other (write_idempotent_error-IsRecorded table stored device _ key 500 _ _ s)
  ]

  read_keyed-IsIdempotent :
      (r : Request) (device id : Text) → (key : Text) → IsIdempotent (read_keyed env device id key)
  unfolding read_claimed
  read_keyed-IsIdempotent r device id key =
      with_claim-IsIdempotent table stored device _ key _ (read_claimed env device id key)
        (λ s. after_read-IsRecorded device key id _ _)

  message_route-IsIdempotent :
      (r : Request) (device : Text) (parts : List Text)
      → method_eq r.method delete ≡ false
      → IsIdempotent (message_route env r device parts)
  message_route-IsIdempotent r device [] h = reply-IsIdempotent _
  message_route-IsIdempotent r device (id ∷ []) h = rw h (reply-IsIdempotent _)
  message_route-IsIdempotent r device (id ∷ action ∷ []) h =
      elim (Bool-cases (text_eq action (txt "read") && method_eq r.method post)) [
        | inl read ↦ rw read (
            behind-IsIdempotent (idempotency_key r) (read_keyed env device id)
              (read_keyed-IsIdempotent r device id))
        | inr other ↦ rw other (reply-IsIdempotent _)
      ]
  message_route-IsIdempotent r device (id ∷ action ∷ more ∷ rest) h = reply-IsIdempotent _

  -- A message's action that is not a deletion, again under its key, is answered the same and changes
  -- nothing.
  pub message_action-IsIdempotent :
      (r : Request) → method_eq r.method delete ≡ false → IsIdempotent (message_action env r)
  unfolding message_action
  message_action-IsIdempotent r h =
      behind-IsIdempotent (authorize env r) (message_authorized env r) (λ device.
        require-IsIdempotent _ _ _
          (message_route-IsIdempotent r device (parts_below (txt "/api/v1/messages/") r.path) h))

  -- A registration for pushes, again under its key, is answered the same and changes nothing.
  pub device_action-IsIdempotent : (r : Request) → IsIdempotent (device_action env r)
  unfolding device_action register_claimed
  device_action-IsIdempotent r = require-IsIdempotent _ _ _ (
      behind-IsIdempotent (authorize env r) (register_authorized env r) (λ device.
        require-IsIdempotent _ _ _ (
          behind-IsIdempotent (idempotency_key r) (register_keyed env r device) (λ key.
            require-IsIdempotent _ _ _ (
              with_json-IsIdempotent r.json _ (register_fields env device key) (λ fields.
                require-IsIdempotent _ _ _ (
                  with_claim-IsIdempotent table stored device _ key _
                    (register_claimed env device key fields)
                    (λ s. after_register-IsRecorded device key _ _))))))))
