-- ===== src/Api/Routes/Guards.antt =====
-- api/server.go: a request without a valid token gets nothing done.
use dontmove_kit.Prelude.{
  ℕ, ◌≡◌, refl, sym, ap, ◌∙◌, ◌⊎◌, inl, inr, Bool, true, false, if◌then◌else◌, Bool-cases,
  Option-cases, arith, none, ◌++◌, length,
}
use dontmove_kit.Text.{Text, txt, has_prefix, trim_prefix, trim_space, drop}
use dontmove_kit.Text.Laws.{append-drop_of_has_prefix}
use dontmove_kit.Api.{get, post, method_eq, Request, Response}
use dontmove_kit.Api.State.{Env, Server}
use dontmove_kit.Api.Keys.{
  Check, refuse, pass, Handler, authorize, behind, require, bearer_header, unauthorized,
}
use dontmove_kit.Api.Messages.{
  get_messages, list_authorized, threads, threads_authorized, sync, sync_authorized,
}
use dontmove_kit.Api.Messages.Sending.{send_message, send_authorized}
use dontmove_kit.Api.Messages.Actions.{
  message_action, message_authorized, device_action, register_authorized,
}
use dontmove_kit.Api.Calls
use dontmove_kit.Api.Calls.{list_calls}
use dontmove_kit.Api.Recordings
use dontmove_kit.Api.Recordings.{recordings, recording_action, recording_authorized}
use dontmove_kit.Api.Recordings.Preferences.{recording_settings, settings_authorized}
use dontmove_kit.Api.Calls.Dialing.{dial, dial_authorized}
use dontmove_kit.Api.Calls.Dispatch.{call_action, call_authorized}
use dontmove_kit.Api.Routes.{
  Endpoint, to_health, to_identity, to_gateway, to_line, to_pairing_start, to_pairing_complete,
  to_refresh, to_sync, to_messages, to_message_action, to_threads, to_calls, to_call_action,
  to_recording_settings, to_recordings, to_recording_action, to_device_action, to_events,
  no_endpoint, endpoint_of, method_not_allowed, gateway, write_gateway, line, write_line, messages,
  calls, Elsewhere, handler_of, serve,
}

-- The endpoints of the modelled handlers that want a token.
abbrev pub is_guarded : Endpoint → Bool
is_guarded to_gateway = true
is_guarded to_line = true
is_guarded to_sync = true
is_guarded to_messages = true
is_guarded to_message_action = true
is_guarded to_threads = true
is_guarded to_calls = true
is_guarded to_call_action = true
is_guarded to_device_action = true
is_guarded to_recording_settings = true
is_guarded to_recordings = true
is_guarded to_recording_action = true
is_guarded _ = false

abbrev refusal_status : Check Text → ℕ
refusal_status (refuse response) = response.status
refusal_status (pass device) = 401

authorize-refuses : (env : Env) (r : Request) → refusal_status (authorize env r) ≡ 401
unfolding authorize
authorize-refuses env r = elim (Bool-cases env.has_auth) [
  | inr off ↦ rw off refl
  | inl on ↦ elim (Bool-cases (has_prefix (bearer_header r) (txt "Bearer "))) [
    | inr bare ↦ rw (on, bare) refl
    | inl bearer ↦
        let token = trim_space (trim_prefix (bearer_header r) (txt "Bearer ")) in
        elim (Option-cases (env.authorize token)) [
          | inl unknown ↦ rw (on, bearer, unknown) refl
          | inr (device, known) ↦ rw (on, bearer, known) refl
        ]
  ]
]

-- The refusal of a request without a valid token.
abbrev refusal_of : Request → Response
refusal_of r = unauthorized (
    if has_prefix (bearer_header r) (txt "Bearer ")
    then txt "invalid token"
    else txt "missing bearer token")

-- A request is refused whose Authorization is not a bearer token that the service knows.
authorize-refusal_of :
    (env : Env) (r : Request)
    → env.has_auth ≡ true
    → ((token : Text)
        → bearer_header r ≡ txt "Bearer " ++ token
        → env.authorize (trim_space token) ≡ none)
    → authorize env r ≡ refuse (refusal_of r)
unfolding authorize trim_prefix
authorize-refusal_of env r on unknown =
    elim (Bool-cases (has_prefix (bearer_header r) (txt "Bearer "))) [
      | inr bare ↦ rw (on, bare) refl
      | inl bearer ↦
          rw
            (
              on,
              bearer,
              unknown (drop (length (txt "Bearer ")) (bearer_header r))
                  (append-drop_of_has_prefix (bearer_header r) (txt "Bearer ") bearer),
            )
            refl
    ]

module _ {env : Env} where
  -- The server is as it was, and the answer is 401, or 405 for a wrong method.
  abbrev pub IsTurnedAway : Server env → Response × Server env → Type 0
  IsTurnedAway s r = (r.1 ≡ s) × ((r.0.status ≡ 401) ⊎ (r.0.status ≡ 405))

  behind-IsTurnedAway :
      (r : Request) (response : Response) (k : Text → Handler env) (s : Server env)
      → authorize env r ≡ refuse response
      → IsTurnedAway s (behind env (authorize env r) k s)
  unfolding behind
  behind-IsTurnedAway r response k s refused =
      let status = ap refusal_status (sym refused) ∙ authorize-refuses env r in
      rw refused (refl, inl status)

  require-IsTurnedAway :
      (b : Bool) (go_on : Handler env) (s : Server env)
      → IsTurnedAway s (go_on s)
      → IsTurnedAway s (require env b method_not_allowed go_on s)
  unfolding require
  require-IsTurnedAway true go_on s h = h
  require-IsTurnedAway false go_on s h = (refl, inr refl)

  if-IsTurnedAway :
      (b : Bool) (h k : Handler env) (s : Server env)
      → IsTurnedAway s (h s)
      → IsTurnedAway s (k s)
      → IsTurnedAway s ((if b then h else k) s)
  if-IsTurnedAway true h k s x y = x
  if-IsTurnedAway false h k s x y = y

  handler_of-IsTurnedAway :
      (others : Elsewhere env) (endpoint : Endpoint) (r : Request) (response : Response)
      (s : Server env)
      → is_guarded endpoint ≡ true
      → authorize env r ≡ refuse response
      → IsTurnedAway s (handler_of env others endpoint r s)
  unfolding handler_of gateway line sync get_messages threads messages send_message message_action
      calls dial list_calls call_action device_action recording_settings recordings recording_action
  handler_of-IsTurnedAway others to_gateway r response s g refused =
      require-IsTurnedAway _ (gateway env r) s
        (behind-IsTurnedAway r response (write_gateway env) s refused)
  handler_of-IsTurnedAway others to_line r response s g refused =
      require-IsTurnedAway _ (line env r) s
        (behind-IsTurnedAway r response (write_line env) s refused)
  handler_of-IsTurnedAway others to_sync r response s g refused =
      require-IsTurnedAway _ (sync env r) s
        (behind-IsTurnedAway r response (sync_authorized env r) s refused)
  handler_of-IsTurnedAway others to_threads r response s g refused =
      require-IsTurnedAway _ (threads env r) s
        (behind-IsTurnedAway r response (threads_authorized env) s refused)
  handler_of-IsTurnedAway others to_messages r response s g refused =
      if-IsTurnedAway (method_eq r.method post) _ _ s
        (behind-IsTurnedAway r response (send_authorized env r) s refused)
        (require-IsTurnedAway _ (get_messages env r) s
          (behind-IsTurnedAway r response (list_authorized env r) s refused))
  handler_of-IsTurnedAway others to_message_action r response s g refused =
      behind-IsTurnedAway r response (message_authorized env r) s refused
  handler_of-IsTurnedAway others to_calls r response s g refused =
      if-IsTurnedAway (method_eq r.method get) _ _ s
        (behind-IsTurnedAway r response (Calls.list_authorized env r) s refused)
        (require-IsTurnedAway _ (dial env r) s
          (behind-IsTurnedAway r response (dial_authorized env r) s refused))
  handler_of-IsTurnedAway others to_call_action r response s g refused =
      behind-IsTurnedAway r response (call_authorized env others.media r) s refused
  handler_of-IsTurnedAway others to_device_action r response s g refused =
      require-IsTurnedAway _ (behind env (authorize env r) (register_authorized env r)) s
        (behind-IsTurnedAway r response (register_authorized env r) s refused)
  handler_of-IsTurnedAway others to_health r response s g refused = absurd (ground (arith, g))
  handler_of-IsTurnedAway others to_identity r response s g refused = absurd (ground (arith, g))
  handler_of-IsTurnedAway others to_pairing_start r response s g refused =
      absurd (ground (arith, g))
  handler_of-IsTurnedAway others to_pairing_complete r response s g refused =
      absurd (ground (arith, g))
  handler_of-IsTurnedAway others to_refresh r response s g refused = absurd (ground (arith, g))
  handler_of-IsTurnedAway others to_recording_settings r response s g refused =
      require-IsTurnedAway _ (behind env (authorize env r) (settings_authorized env r)) s
        (behind-IsTurnedAway r response (settings_authorized env r) s refused)
  handler_of-IsTurnedAway others to_recordings r response s g refused =
      require-IsTurnedAway _ (behind env (authorize env r) (Recordings.list_authorized env r)) s
        (behind-IsTurnedAway r response (Recordings.list_authorized env r) s refused)
  handler_of-IsTurnedAway others to_recording_action r response s g refused =
      behind-IsTurnedAway r response (recording_authorized env r) s refused
  handler_of-IsTurnedAway others to_events r response s g refused = absurd (ground (arith, g))
  handler_of-IsTurnedAway others no_endpoint r response s g refused = absurd (ground (arith, g))

  -- Where tokens are asked for, a request to a guarded endpoint whose Authorization is not `Bearer `
  -- and a token that the token service knows is answered 401, or 405 if its method is wrong, and the
  -- whole server stays as it is.
  pub serve-IsTurnedAway :
      (others : Elsewhere env) (r : Request) (s : Server env)
      → is_guarded (endpoint_of r.path) ≡ true
      → env.has_auth ≡ true
      → ((token : Text)
          → bearer_header r ≡ txt "Bearer " ++ token
          → env.authorize (trim_space token) ≡ none)
      → IsTurnedAway s (serve env others r s)
  unfolding serve
  serve-IsTurnedAway others r s g on unknown =
      handler_of-IsTurnedAway others (endpoint_of r.path) r (refusal_of r) s g
        (authorize-refusal_of env r on unknown)
