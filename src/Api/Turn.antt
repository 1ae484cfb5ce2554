-- ===== src/Api/Turn.antt =====
-- api/server.go: `privateTURNServer`, the relay for media and its credentials, and `callICE`, whose own
-- test of the settings is the one of `privateTURNServer`.
pub mod Credentials
use dontmove_kit.Prelude.{
  ℕ, ◌+◌, ◌*◌, ◌/◌, Bool, true, false, not, ◌&&◌, ◌||◌, Option, none, some, List, [], ◌∷◌, ◌++◌,
  if◌then◌else◌, is_nil,
}
use dontmove_kit.Prelude.Int.{ℤ, pos, pos_part, leb_ℤ}
use dontmove_kit.Text.{Text, txt, text_eq, trim_space, print_nat}
use dontmove_kit.Api.{ice_servers, write, write_error}
use dontmove_kit.Api.State.{Error, Result, Env, Server}
use dontmove_kit.Api.Keys.{Handler, reply, require, on_result}
use dontmove_kit.Api.Messages.{failed_with}
use dontmove_kit.Api.Messages.Actions.{is_no_rows}

pub record IceServer : Type 0 where
  pub urls : List Text
  pub username : Text
  pub credential : Text

abbrev pub second : ℕ
second = 1000000000

-- A lifetime or a port that is not positive is the default.
abbrev pub or_default : ℕ → ℤ → ℕ
or_default default n = if leb_ℤ n (pos 0) then default else pos_part n

abbrev pub turn_urls : Text → ℕ → List Text
turn_urls host port =
    let address = txt "turn:" ++ (host ++ (txt ":" ++ print_nat port)) in
    (address ++ txt "?transport=udp") ∷ (address ++ txt "?transport=tcp") ∷ []

-- The addresses of the host that are IPv4 and not the host itself.
abbrev pub address_urls : Text → ℕ → List (Option Text) → List Text
address_urls host port [] = []
address_urls host port (none ∷ addresses) = address_urls host port addresses
address_urls host port (some ipv4 ∷ addresses) =
    let rest = address_urls host port addresses in
    if text_eq ipv4 host then rest else turn_urls ipv4 port ++ rest

abbrev pub resolved_urls : Text → ℕ → Option (List (Option Text)) → List Text
resolved_urls host port none = []
resolved_urls host port (some addresses) = address_urls host port addresses

module _ (env : Env) where
  unfoldable pub has_turn : Bool
  has_turn =
      text_eq env.network_mode (txt "tailnet")
      && (env.turn.enabled
          && (not (is_nil (trim_space env.turn.host)) && not (is_nil env.turn.secret)))

  -- The second in which a credential that is made now expires.
  abbrev pub expiry : ℕ → ℕ
  expiry now = (now + or_default (600 * second) env.turn.credential_ttl) / second

  abbrev pub turn_username : ℕ → Text → Text
  turn_username now subject = print_nat (expiry now) ++ (txt ":" ++ trim_space subject)

  abbrev pub turn_server : ℕ → Text → IceServer
  turn_server now subject =
      let host = trim_space env.turn.host in
      let port = or_default 3478 env.turn.port in
      record {
        urls = turn_urls host port ++ resolved_urls host port (env.lookup_ip host);
        username = turn_username now subject;
        credential = env.hmac env.turn.secret (turn_username now subject);
      }

  -- privateTURNServer, with the second of the expiry.
  unfoldable pub private_turn_server : ℕ → Text → Option (IceServer × ℕ)
  unfolding has_turn print_nat
  private_turn_server now subject =
      if has_turn then some (turn_server now subject, expiry now) else none

  abbrev pub ice_failed : Error → Handler env
  ice_failed e =
      if is_no_rows e
      then reply env (write_error 404 (txt "CB-CALL-006") (txt "call not found"))
      else failed_with env (txt "CB-WEBRTC-000") e

  abbrev pub write_ice : Option (IceServer × ℕ) → Handler env
  write_ice none =
      reply env
        (write_error 503 (txt "CB-WEBRTC-008") (txt "private tailnet TURN is not configured"))
  write_ice (some (server, expires_at)) =
      reply env (write 200 (ice_servers server.urls server.username server.credential expires_at))

  -- callICE.
  unfoldable pub call_ice : ℕ → Text → Text → Handler env
  unfolding private_turn_server
  call_ice now call_id device s =
      require env (not (is_nil (trim_space call_id)) && env.has_database)
        (write_error 404 (txt "CB-CALL-006") (txt "call not found"))
        (on_result env (env.get_call call_id s.store) ice_failed
          (λ call. write_ice (private_turn_server now device)))
        s
