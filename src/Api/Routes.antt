-- ===== src/Api/Routes.antt =====
-- api/server.go: `Handler`, its routes, and the handlers of the gateway's own status.
--
-- The multiplexer's own redirects of unclean paths are not modelled. The handlers of pairing, of
-- media and of the event stream are the argument `others`.
pub mod Once
pub mod Guards
use dontmove_kit.Prelude.{
  ℕ, Bool, true, false, not, ◌&&◌, ◌||◌, List, [], ◌∷◌, ◌++◌, if◌then◌else◌, is_nil,
}
use dontmove_kit.Text.{Text, txt, text_eq, has_prefix}
use dontmove_kit.Api.{
  Method, get, post, method_eq, Request, Line, Body, object, line_status, gateway_status, plain,
  Response, write, write_error, line_of,
}
use dontmove_kit.Api.State.{Env, Server}
use dontmove_kit.Api.Keys.{Handler, reply, behind, authorize, require}
use dontmove_kit.Api.Messages.{get_messages, threads, sync}
use dontmove_kit.Api.Messages.Sending.{send_message}
use dontmove_kit.Api.Messages.Actions.{parts_below, message_action, device_action}
use dontmove_kit.Api.Calls.{list_calls}
use dontmove_kit.Api.Recordings.{recordings, recording_action}
use dontmove_kit.Api.Recordings.Preferences.{recording_settings}
use dontmove_kit.Api.Calls.Dialing.{dial}
use dontmove_kit.Api.Calls.Dispatch.{is_media, call_action}

pub data Endpoint : Type 0 where
  to_health to_identity to_gateway to_line to_pairing_start to_pairing_complete : Endpoint
  to_refresh to_sync to_messages to_message_action to_threads to_calls to_call_action : Endpoint
  to_recording_settings to_recordings to_recording_action to_device_action to_events : Endpoint
  no_endpoint : Endpoint

-- A route of the multiplexer: a path, which stands for all below it if it ends in a slash.
abbrev pub Route : Type 0
Route = Text × Bool × Endpoint

unfoldable pub routes : List Route
routes =
    (txt "/api/v1/health", false, to_health)
    ∷ (txt "/api/v1/identity", false, to_identity)
    ∷ (txt "/api/v1/gateway", false, to_gateway)
    ∷ (txt "/api/v1/line", false, to_line)
    ∷ (txt "/api/v1/pairing/start", false, to_pairing_start)
    ∷ (txt "/api/v1/pairing/complete", false, to_pairing_complete)
    ∷ (txt "/api/v1/auth/refresh", false, to_refresh)
    ∷ (txt "/api/v1/sync", false, to_sync)
    ∷ (txt "/api/v1/messages", false, to_messages)
    ∷ (txt "/api/v1/messages/", true, to_message_action)
    ∷ (txt "/api/v1/threads", false, to_threads)
    ∷ (txt "/api/v1/calls", false, to_calls)
    ∷ (txt "/api/v1/calls/", true, to_call_action)
    ∷ (txt "/api/v1/settings/recording", false, to_recording_settings)
    ∷ (txt "/api/v1/recordings", false, to_recordings)
    ∷ (txt "/api/v1/recordings/", true, to_recording_action)
    ∷ (txt "/api/v1/devices/", true, to_device_action)
    ∷ (txt "/api/v1/events", false, to_events)
    ∷ []

-- The route of a path: no two of them meet.
unfoldable pub route_in : List Route → Text → Endpoint
route_in [] path = no_endpoint
route_in ((pattern, subtree, endpoint) ∷ rest) path =
    let later = route_in rest path in
    if (if subtree then has_prefix path pattern else text_eq path pattern) then endpoint else later

unfoldable pub endpoint_of : Text → Endpoint
endpoint_of path = route_in routes path

abbrev pub method_not_allowed : Response
method_not_allowed = write_error 405 (txt "CB-API-001") (txt "method not allowed")

abbrev pub or_else : Text → Text → Text
or_else text default = if is_nil text then default else text

module _ (env : Env) where
  -- method.
  abbrev pub method : Method → (Request → Handler env) → Request → Handler env
  method expected handler r =
      require env (method_eq r.method expected) method_not_allowed (handler r)

  -- health.
  unfoldable pub health : Request → Handler env
  health r s =
      let degraded =
        text_eq s.line.sms (txt "unavailable") && text_eq s.line.voice (txt "unavailable") in
      reply env
        (write 200 (
          object (
            (txt "status", if degraded then txt "degraded" else txt "ok")
            ∷ (txt "version", env.version)
            ∷ [])))
        s

  -- identity.
  unfoldable pub identity : Request → Handler env
  identity r =
      let mode = or_else env.network_mode (txt "tailnet") in
      let default = if text_eq mode (txt "pocket") then txt "pocketWiFi" else txt "tailnet" in
      reply env (
        write 200 (
          object (
            (txt "gatewayId", env.gateway_id)
            ∷ (txt "gatewayName", env.gateway_name)
            ∷ (txt "mode", mode)
            ∷ (txt "transport", or_else env.network_transport default)
            ∷ (txt "apiVersion", txt "v1")
            ∷ (txt "publicKey", env.fingerprint)
            ∷ (txt "fingerprint", env.fingerprint)
            ∷ [])))

  abbrev pub write_gateway : Text → Handler env
  write_gateway device s =
      reply env
        (write 200 (
          gateway_status
            ((txt "id", env.gateway_id)
              ∷ (txt "name", env.gateway_name)
              ∷ (txt "lineID", line_of env.gateway_id)
              ∷ (txt "transport", or_else env.network_transport env.network_mode)
              ∷ [])
            s.capabilities))
        s

  -- gateway.
  unfoldable pub gateway : Request → Handler env
  gateway r = behind env (authorize env r) write_gateway

  abbrev pub write_line : Text → Handler env
  write_line device s = reply env (write 200 (line_status s.line)) s

  -- line.
  unfoldable pub line : Request → Handler env
  line r = behind env (authorize env r) write_line

  -- SetLineStatus.
  unfoldable pub set_line_status : Line → Server env → Server env
  set_line_status status s = record s { line = status }

  -- SetCapabilities.
  unfoldable pub set_capabilities : Text → Server env → Server env
  set_capabilities capabilities s = record s { capabilities = capabilities }

  -- messages.
  unfoldable pub messages : Request → Handler env
  messages r =
      if method_eq r.method post
      then send_message env r
      else require env (method_eq r.method get) method_not_allowed (get_messages env r)

  -- calls.
  unfoldable pub calls : Request → Handler env
  calls r =
      if method_eq r.method get
      then list_calls env r
      else require env (method_eq r.method post) method_not_allowed (dial env r)

  -- The handlers that are not modelled.
  pub record Elsewhere : Type 0 where
    pub media : Request → Text → Handler env
    pub pairing_start : Request → Handler env
    pub pairing_complete : Request → Handler env
    pub refresh : Request → Handler env
    pub events : Request → Handler env

  -- Whether an endpoint's handler is modelled, and answers a repeated request the same.
  abbrev pub is_repeatable_at : Endpoint → Request → Bool
  is_repeatable_at to_pairing_start r = false
  is_repeatable_at to_pairing_complete r = false
  is_repeatable_at to_refresh r = false
  is_repeatable_at to_call_action r =
      not (is_media env r (parts_below (txt "/api/v1/calls/") r.path))
  is_repeatable_at to_recording_settings r = false
  is_repeatable_at to_events r = false
  is_repeatable_at _ r = true

  unfoldable pub is_repeatable : Request → Bool
  is_repeatable r = is_repeatable_at (endpoint_of r.path) r

  -- The handler of an endpoint.
  unfoldable pub handler_of : Elsewhere → Endpoint → Request → Handler env
  handler_of others to_health r = method get health r
  handler_of others to_identity r = method get identity r
  handler_of others to_gateway r = method get gateway r
  handler_of others to_line r = method get line r
  handler_of others to_pairing_start r = method post others.pairing_start r
  handler_of others to_pairing_complete r = method post others.pairing_complete r
  handler_of others to_refresh r = method post others.refresh r
  handler_of others to_sync r = method get (sync env) r
  handler_of others to_messages r = messages r
  handler_of others to_message_action r = message_action env r
  handler_of others to_threads r = method get (threads env) r
  handler_of others to_calls r = calls r
  handler_of others to_call_action r = call_action env others.media r
  handler_of others to_recording_settings r = recording_settings env r
  handler_of others to_recordings r = recordings env r
  handler_of others to_recording_action r = recording_action env r
  handler_of others to_device_action r = device_action env r
  handler_of others to_events r = others.events r
  handler_of others no_endpoint r = reply env (write 404 (plain (txt "404 page not found")))

  -- Handler.
  unfoldable pub serve : Elsewhere → Request → Handler env
  serve others r = handler_of others (endpoint_of r.path) r
