-- ===== src/Api/Messages/Actions.antt =====
-- api/server.go: `messageAction`, which marks a message read or deletes it, and `deviceAction`, which
-- registers a device's push tokens.
pub mod Once
use dontmove_kit.Prelude.{
  ℕ, Bool, true, false, not, ◌&&◌, ◌||◌, Option, none, some, List, [], ◌∷◌, if◌then◌else◌, is_nil,
}
use dontmove_kit.Text.{Text, txt, text_eq, trim_prefix, trim_suffix, split}
use dontmove_kit.Api.{
  Method, post, put, delete, method_eq, Request, value_of, Body, empty, failure, Response, write,
  write_error,
}
use dontmove_kit.Api.State.{Reason, no_rows, Error, Result, good, bad, Env, Server}
use dontmove_kit.Api.Keys.{
  Handler, reply, behind, authorize, idempotency_key, require, with_json, with_claim,
  write_idempotent_error, answer_with, accept,
}
use dontmove_kit.Api.Messages.{no_database, failed_with}

-- The segments of a path below a prefix.
unfoldable pub parts_below : Text → Text → List Text
parts_below prefix path = split (trim_suffix (trim_prefix path prefix) (txt "/")) (txt "/")

abbrev pub is_no_rows : Error → Bool
is_no_rows e = elim e.reason [ no_rows ↦ true | _ ↦ false ]

abbrev message_not_found : Body
message_not_found = failure (txt "CB-SMS-006") (txt "message not found")

abbrev pub is_valid_registration : List (Text × Text) → Bool
is_valid_registration fields =
    not (is_nil (value_of (txt "apnsToken") fields))
    && (not (is_nil (value_of (txt "voipToken") fields))
        && ((text_eq (value_of (txt "environment") fields) (txt "sandbox")
              || text_eq (value_of (txt "environment") fields) (txt "production"))
            && not (is_nil (value_of (txt "locale") fields))))

module _ (env : Env) where
  abbrev nothing_after : Server env → Server env
  nothing_after s = s

  abbrev pub after_read : Text → Text → Text → Result (Unit {0}) → Handler env
  after_read device key id (good u) =
      accept env device (txt "message.read") key 204 empty id (txt "CB-SMS-007") nothing_after
  after_read device key id (bad e) =
      if is_no_rows e
      then answer_with env device (txt "message.read") key 404 message_not_found
      else write_idempotent_error env device (txt "message.read") key 500 (txt "CB-SMS-007") e.text

  unfoldable pub read_claimed : Text → Text → Text → Handler env
  read_claimed device id key s =
      let r = env.mark_message_read id s.store in
      after_read device key id r.0 (record s { store = r.1 })

  abbrev read_unclaimed : Text → Text → Error → Handler env
  read_unclaimed device key e =
      write_idempotent_error env device (txt "message.read") key 500 (txt "CB-SMS-007") e.text

  abbrev pub read_keyed : Text → Text → Text → Handler env
  read_keyed device id key =
      with_claim env device (txt "message.read") key (read_unclaimed device key)
        (read_claimed device id key)

  abbrev after_delete : Text → Text → Text → Result (Unit {0}) → Handler env
  after_delete device key id (good u) =
      accept env device (txt "message.delete") key 204 empty id (txt "CB-SMS-007") nothing_after
  after_delete device key id (bad e) =
      if is_no_rows e
      then answer_with env device (txt "message.delete") key 404 message_not_found
      else failed_with env (txt "CB-SMS-007") e

  unfoldable pub delete_claimed : Text → Text → Text → Handler env
  delete_claimed device id key s =
      let r = env.delete_message id s.store in
      after_delete device key id r.0 (record s { store = r.1 })

  abbrev delete_keyed : Text → Text → Text → Handler env
  delete_keyed device id key =
      with_claim env device (txt "message.delete") key (failed_with env (txt "CB-SMS-007"))
        (delete_claimed device id key)

  abbrev no_message_action : Handler env
  no_message_action =
      reply env (write_error 404 (txt "CB-SMS-006") (txt "message action not found"))

  abbrev pub message_route : Request → Text → List Text → Handler env
  message_route r device (id ∷ []) =
      if method_eq r.method delete
      then behind env (idempotency_key r) (delete_keyed device id)
      else no_message_action
  message_route r device (id ∷ action ∷ []) =
      if text_eq action (txt "read") && method_eq r.method post
      then behind env (idempotency_key r) (read_keyed device id)
      else no_message_action
  message_route r device _ = no_message_action

  abbrev pub message_authorized : Request → Text → Handler env
  message_authorized r device =
      require env env.has_database (no_database (txt "CB-SMS-000"))
        (message_route r device (parts_below (txt "/api/v1/messages/") r.path))

  -- messageAction.
  unfoldable pub message_action : Request → Handler env
  message_action r = behind env (authorize env r) (message_authorized r)

  abbrev pub after_register : Text → Text → Result (Unit {0}) → Handler env
  after_register device key (good u) =
      accept env device (txt "push.register") key 204 empty device (txt "CB-PUSH-003") nothing_after
  after_register device key (bad e) =
      if is_no_rows e
      then write_idempotent_error env device (txt "push.register") key 404 (txt "CB-PUSH-004")
          (txt "device not found")
      else write_idempotent_error env device (txt "push.register") key 500 (txt "CB-PUSH-003")
          e.text

  unfoldable pub register_claimed : Text → Text → List (Text × Text) → Handler env
  register_claimed device key fields s =
      let r =
        env.register_push device (value_of (txt "apnsToken") fields)
          (value_of (txt "voipToken") fields) (value_of (txt "environment") fields)
          (value_of (txt "locale") fields) s.store in
      after_register device key r.0 (record s { store = r.1 })

  abbrev pub register_fields : Text → Text → List (Text × Text) → Handler env
  register_fields device key fields =
      require env (is_valid_registration fields)
        (write_error 400 (txt "CB-PUSH-002") (txt "invalid push registration"))
        (with_claim env device (txt "push.register") key (failed_with env (txt "CB-PUSH-003"))
          (register_claimed device key fields))

  abbrev pub register_keyed : Request → Text → Text → Handler env
  register_keyed r device key = require env env.has_database (no_database (txt "CB-PUSH-000")) (
      with_json env r.json (write_error 400 (txt "CB-PUSH-001") (txt "invalid JSON body"))
        (register_fields device key))

  abbrev is_own_push : Text → List Text → Bool
  is_own_push device (owner ∷ action ∷ []) = text_eq action (txt "push") && text_eq owner device
  is_own_push device _ = false

  abbrev pub register_authorized : Request → Text → Handler env
  register_authorized r device =
      require env (is_own_push device (parts_below (txt "/api/v1/devices/") r.path))
        (write_error 403 (txt "CB-AUTH-003") (txt "device cannot update this device"))
        (behind env (idempotency_key r) (register_keyed r device))

  -- deviceAction.
  unfoldable pub device_action : Request → Handler env
  device_action r =
      require env (method_eq r.method put)
        (write_error 405 (txt "CB-API-001") (txt "method not allowed"))
        (behind env (authorize env r) (register_authorized r))
