-- ===== src/Sip/Server/Requests.antt =====
-- sip/server.go: registrations, and which handler a message goes to.
use dontmove_kit.Prelude.{ℕ, ◌||◌, Option, none, some, [], ◌∷◌, ◌++◌, if◌then◌else◌}
use dontmove_kit.Text.{Text, txt, has_prefix, contains, print_nat, split, trim_left}
use dontmove_kit.Calls.{Control}
use dontmove_kit.Sip.Message.{
  crlf, parse_header, extract_sip_user, head_or, or_else, scan_number, unlines,
}
use dontmove_kit.Sip.Session.{Addr}
use dontmove_kit.Sip.Server.{Env}
use dontmove_kit.Sip.Server.Ending.{Server, respond}
use dontmove_kit.Sip.Server.Answering.{handle_response, handle_bye, or_user}
use dontmove_kit.Sip.Server.Inviting.{handle_invite}

-- The lifetime that a REGISTER asks for.
unfoldable pub register_expires : Text → ℕ
unfolding parse_header scan_number
register_expires msg =
    if contains (parse_header msg (txt "Contact")) (txt "expires=0")
    then 0
    else or_else (scan_number (trim_left (parse_header msg (txt "Expires")))) 3600

-- The account of a REGISTER: the To's user, or else the From's.
unfoldable pub register_user : Text → Option Text
unfolding extract_sip_user
register_user msg =
    or_user (extract_sip_user (parse_header msg (txt "To")))
      (extract_sip_user (parse_header msg (txt "From")))

module _ {control : Control} ⦃env : Env⦄ where
  -- handleRegister, but for what the registrar and the push table store.
  unfoldable pub handle_register : Text → Addr → Server control → Option (Server control)
  unfolding register_expires register_user
  handle_register msg remote srv = elim (register_user msg) [
    | none ↦ none
    | some user ↦ some (
        if env.needs_auth msg
        then respond remote msg 401 (txt "Unauthorized")
            (unlines ((txt "WWW-Authenticate: " ++ env.challenge) ∷ [])) [] [] srv
        else respond remote msg 200 (txt "OK")
            (unlines (
              (txt "Contact: " ++ parse_header msg (txt "Contact"))
              ∷ (txt "Expires: " ++ print_nat (register_expires msg))
              ∷ []))
            [] [] srv)
  ]

  -- handleMessage, but for MESSAGE requests; `none` is a panic of a handler.
  unfoldable pub handle_message : Text → Addr → Server control → Option (Server control)
  handle_message msg remote srv =
      let first = head_or [] (split msg crlf) in
      if has_prefix first (txt "SIP/2.0")
      then handle_response msg remote srv
      else if has_prefix first (txt "REGISTER")
      then handle_register msg remote srv
      else if has_prefix first (txt "INVITE")
      then handle_invite msg remote srv
      else if has_prefix first (txt "ACK")
      then some srv
      else if has_prefix first (txt "BYE") || has_prefix first (txt "CANCEL")
      then some (handle_bye msg remote srv)
      else if has_prefix first (txt "OPTIONS")
      then some (respond remote msg 200 (txt "OK") [] [] [] srv)
      else some srv
