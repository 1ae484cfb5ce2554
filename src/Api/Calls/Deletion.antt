-- ===== src/Api/Calls/Deletion.antt =====
-- api/server.go: `deleteCall`.
pub mod Keeping
use dontmove_kit.Prelude.{
  ℕ, Bool, true, false, not, ◌&&◌, ◌||◌, Option, none, some, List, [], ◌∷◌, ◌++◌, if◌then◌else◌,
}
use dontmove_kit.Text.{Text, txt, text_eq, runes, trim_space}
use dontmove_kit.Api.{
  Method, get, post, delete, method_eq, Request, value_of, Body, empty, failure, object, Call,
  Response, write, write_error,
}
use dontmove_kit.Api.State.{
  Reason, no_active_call, call_not_found, Error, Result, good, bad, Env, Server,
}
use dontmove_kit.Api.Keys.{
  Handler, reply, behind, authorize, idempotency_key, require, with_json, with_claim, on_result,
  write_idempotent_error, write_idempotent_call_error, answer_with, accept, audit,
}
use dontmove_kit.Api.Messages.{failed_with}
use dontmove_kit.Api.Messages.Actions.{parts_below, is_no_rows}
use dontmove_kit.Api.Recordings.Control.{call_recording_action}
use dontmove_kit.Api.Calls.{persist_call, close_webrtc, get_call, no_call_database}

abbrev pub delete_op : Text
delete_op = txt "call.delete"

module _ (env : Env) where
  abbrev pub not_found_body : Body
  not_found_body = failure (txt "CB-CALL-006") (txt "call not found")

  -- A row that is missing is recorded under the key; another error of the database is not.
  abbrev pub delete_failed : Text → Text → Error → Handler env
  delete_failed device key e =
      if is_no_rows e
      then answer_with env device delete_op key 404 not_found_body
      else failed_with env (txt "CB-CALL-004") e

  abbrev pub publish_deleted : Text → ℕ → Server env → Server env
  publish_deleted id sequence s =
      if env.has_events
      then record s {
        published =
            s.published ++ (sequence, txt "call.deleted", object ((txt "id", id) ∷ [])) ∷ [];
      }
      else s

  abbrev pub after_delete : Text → Text → Text → Result ℕ → Handler env
  after_delete device key id (bad e) = delete_failed device key e
  after_delete device key id (good sequence) =
      accept env device delete_op key 204 empty id (txt "CB-CALL-004") (publish_deleted id sequence)

  abbrev pub delete_row : Text → Text → Text → Option ℕ → Handler env
  delete_row device key id none s =
      answer_with env device delete_op key 409
        (failure (txt "CB-CALL-010") (txt "active call cannot be deleted")) s
  delete_row device key id (some ended_at) s =
      let r = env.delete_call id s.store in
      after_delete device key id r.0 (record s { store = r.1 })

  abbrev pub delete_stored : Text → Text → Text → Call → Handler env
  delete_stored device key id call = delete_row device key id call.ended_at

  -- deleteCall behind the claim: a call that has not ended is not deleted.
  unfoldable pub delete_claimed : Text → Text → Text → Handler env
  delete_claimed device id key s =
      on_result env (env.get_call id s.store) (delete_failed device key)
        (delete_stored device key id) s

  abbrev pub delete_keyed : Text → Text → Text → Handler env
  delete_keyed device id key =
      with_claim env device delete_op key (failed_with env (txt "CB-CALL-004"))
        (delete_claimed device id key)

  -- deleteCall.
  unfoldable pub delete_call : Request → Text → Text → Handler env
  delete_call r id device =
      require env env.has_database no_call_database
        (behind env (idempotency_key r) (delete_keyed device id))
