-- ===== src/Api/Routes/Once.antt =====
-- api/server.go: every route but the deletions, run again on the same request.
use dontmove_kit.Prelude.{◌≡◌, refl, true, false, arith}
use dontmove_kit.Text.{txt}
use dontmove_kit.Api.{get, post, delete, method_eq, Request}
use dontmove_kit.Api.State.{Env, Server}
use dontmove_kit.Api.Keys.{authorize}
use dontmove_kit.Api.Keys.Once.{KeyTable}
use dontmove_kit.Api.Keys.Repeats.{
  IsIdempotent, if-IsIdempotent, require-IsIdempotent, reply-IsIdempotent, unchanged-IsIdempotent,
  behind_keeps, require_keeps, on_result_keeps,
}
use dontmove_kit.Api.Paging.{pagination}
use dontmove_kit.Api.Messages.{get_messages, threads, sync, failed_with}
use dontmove_kit.Api.Messages.Reading.{
  get_messages_keeps, threads_keeps, sync_keeps, on_parsed_keeps,
}
use dontmove_kit.Api.Messages.Sending.Once.{send_message-IsIdempotent}
use dontmove_kit.Api.Messages.Actions.Once.{message_action-IsIdempotent, device_action-IsIdempotent}
use dontmove_kit.Api.Calls.{list_calls, list_authorized, list_page, write_calls}
use dontmove_kit.Api.Recordings.Once.{recordings-IsIdempotent, recording_action-IsIdempotent}
use dontmove_kit.Api.Calls.Dialing.{dial}
use dontmove_kit.Api.Calls.Dialing.Once.{dial-IsIdempotent}
use dontmove_kit.Api.Calls.Actions.Once.{call_action-IsIdempotent}
use dontmove_kit.Api.Routes.{
  Endpoint, to_health, to_identity, to_gateway, to_line, to_pairing_start, to_pairing_complete,
  to_refresh, to_sync, to_messages, to_message_action, to_threads, to_calls, to_call_action,
  to_recording_settings, to_recordings, to_recording_action, to_device_action, to_events,
  no_endpoint, endpoint_of, health, identity, gateway, write_gateway, line, write_line, messages,
  calls, Elsewhere, handler_of, serve, is_repeatable_at, is_repeatable,
}

list_calls_keeps : {env : Env} (r : Request) (s : Server env) → (list_calls env r s).1 ≡ s
unfolding list_calls
list_calls_keeps {env} r s = behind_keeps (authorize env r) (list_authorized env r) s (λ device.
    require_keeps _ _ _ s (
      on_parsed_keeps _ (pagination r) (list_page env) s (λ page.
        on_result_keeps _ (failed_with env (txt "CB-CALL-004")) (write_calls env) s (λ e. refl)
          (λ found. refl))))

module _ {env : Env} (table : KeyTable env) (stored : env.has_database ≡ true) where
  messages-IsIdempotent : (r : Request) → IsIdempotent (messages env r)
  unfolding messages
  messages-IsIdempotent r =
      if-IsIdempotent (method_eq r.method post) _ _ (send_message-IsIdempotent table stored r) (
        require-IsIdempotent _ _ (get_messages env r)
          (unchanged-IsIdempotent (get_messages env r) (get_messages_keeps r)))

  calls-IsIdempotent : (r : Request) → IsIdempotent (calls env r)
  unfolding calls
  calls-IsIdempotent r =
      if-IsIdempotent (method_eq r.method get) _ _
        (unchanged-IsIdempotent (list_calls env r) (list_calls_keeps r))
        (require-IsIdempotent _ _ (dial env r) (dial-IsIdempotent table stored r))

  handler_of-IsIdempotent :
      (others : Elsewhere env) (endpoint : Endpoint) (r : Request)
      → is_repeatable_at env endpoint r ≡ true
      → method_eq r.method delete ≡ false
      → IsIdempotent (handler_of env others endpoint r)
  unfolding handler_of health identity gateway line
  handler_of-IsIdempotent others to_health r here kept =
      require-IsIdempotent _ _ (health env r) (unchanged-IsIdempotent (health env r) (λ s. refl))
  handler_of-IsIdempotent others to_identity r here kept =
      require-IsIdempotent _ _ (identity env r)
        (unchanged-IsIdempotent (identity env r) (λ s. refl))
  handler_of-IsIdempotent others to_gateway r here kept = require-IsIdempotent _ _ (gateway env r) (
      unchanged-IsIdempotent (gateway env r)
        (λ s. behind_keeps (authorize env r) (write_gateway env) s (λ device. refl)))
  handler_of-IsIdempotent others to_line r here kept = require-IsIdempotent _ _ (line env r) (
      unchanged-IsIdempotent (line env r)
        (λ s. behind_keeps (authorize env r) (write_line env) s (λ device. refl)))
  handler_of-IsIdempotent others to_sync r here kept =
      require-IsIdempotent _ _ (sync env r) (unchanged-IsIdempotent (sync env r) (sync_keeps r))
  handler_of-IsIdempotent others to_messages r here kept = messages-IsIdempotent r
  handler_of-IsIdempotent others to_message_action r here kept =
      message_action-IsIdempotent table stored r kept
  handler_of-IsIdempotent others to_threads r here kept =
      require-IsIdempotent _ _ (threads env r)
        (unchanged-IsIdempotent (threads env r) (threads_keeps r))
  handler_of-IsIdempotent others to_calls r here kept = calls-IsIdempotent r
  handler_of-IsIdempotent others to_call_action r here kept =
      call_action-IsIdempotent table stored others.media r here kept
  handler_of-IsIdempotent others to_device_action r here kept =
      device_action-IsIdempotent table stored r
  handler_of-IsIdempotent others no_endpoint r here kept = reply-IsIdempotent _
  handler_of-IsIdempotent others to_pairing_start r here kept = absurd (ground (arith, here))
  handler_of-IsIdempotent others to_pairing_complete r here kept = absurd (ground (arith, here))
  handler_of-IsIdempotent others to_refresh r here kept = absurd (ground (arith, here))
  handler_of-IsIdempotent others to_recording_settings r here kept = absurd (ground (arith, here))
  handler_of-IsIdempotent others to_recordings r here kept = recordings-IsIdempotent r
  handler_of-IsIdempotent others to_recording_action r here kept =
      recording_action-IsIdempotent table stored r
  handler_of-IsIdempotent others to_events r here kept = absurd (ground (arith, here))

  -- A request that is no deletion, sent again at once, gets the same answer and leaves the whole server
  -- as the first one left it; those of pairing, token refresh, media, the recordings' settings and the
  -- event stream are left out. The database is there, its table of keys keeps its promises, and it
  -- never fails to complete a key.
  pub serve-IsIdempotent :
      (others : Elsewhere env) (r : Request)
      → is_repeatable env r ≡ true
      → method_eq r.method delete ≡ false
      → IsIdempotent (serve env others r)
  unfolding serve is_repeatable
  serve-IsIdempotent others r here kept =
      handler_of-IsIdempotent others (endpoint_of r.path) r here kept
