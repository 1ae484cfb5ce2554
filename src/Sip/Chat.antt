-- ===== src/Sip/Chat.antt =====
-- sip/server.go: `handleMessageRequest` and `ForwardSMS`, text messages to and from the SIP clients.
pub mod Once
use dontmove_kit.Prelude.{
  ℕ, suc, ◌+◌, Bool, true, false, not, ◌&&◌, ◌||◌, Option, none, some, List, [], ◌∷◌, ◌++◌, ltb,
  leb, ◌==◌, ◌%◌, if◌then◌else◌, length, is_nil, any, keep,
}
use dontmove_kit.Text.{
  Text, txt, text_eq, cut, contains, fields, trim_prefix, trim_space, print_nat, is_digit,
}
use dontmove_kit.Calls.{Control}
use dontmove_kit.Sip.Message.{crlf, parse_header}
use dontmove_kit.Sip.Session.{Addr}
use dontmove_kit.Sip.Teardown.{Registration, Datagram, contact_addr}
use dontmove_kit.Sip.Server.{Env}
use dontmove_kit.Sip.Server.Ending.{Server, respond}

-- The server with the MESSAGE transactions it has seen, each with its time, and what was handed to
-- the SMS engine: a destination and a body.
pub record Chat (control : Control) : Type 0 where
  pub server : Server control
  pub seen : List (Text × ℕ)
  pub submitted : List (Text × Text)

-- strings.TrimLeft of plus signs and blanks.
unfoldable pub trim_plus : Text → Text
trim_plus [] = []
trim_plus (c ∷ s) = let rest = trim_plus s in if c == b'+' || c == 32 then rest else c ∷ s

abbrev user_of : Text → Option (Text × Text) → Text
user_of uri none = uri
user_of uri (some (user, host)) = if is_nil user then uri else trim_prefix user (txt "sip:")

-- The destination in a request's URI.
unfoldable pub message_target : Text → Text
message_target uri = trim_plus (user_of uri (cut uri (txt "@")))

abbrev behind : Option (Text × Text) → Text
behind none = []
behind (some (head, body)) = trim_space body

-- The body behind the first empty line.
unfoldable pub message_body : Text → Text
message_body msg = behind (cut msg (crlf ++ crlf))

abbrev second_of : List Text → Option Text
second_of [] = none
second_of (a ∷ []) = none
second_of (a ∷ b ∷ rest) = some b

-- strings.Fields(msg)[1]; the code panics when there is none.
unfoldable pub request_target : Text → Option Text
request_target msg = second_of (fields msg)

-- Two minutes, in nanoseconds.
abbrev pub two_minutes : ℕ
two_minutes = 120000000000

abbrev pub is_seen : Text → List (Text × ℕ) → Bool
is_seen key seen = any (λ e. text_eq e.0 key) seen

-- LoadOrStore of a transaction, and the removal of those before the last two minutes.
unfoldable pub note_seen : Text → ℕ → List (Text × ℕ) → Bool × List (Text × ℕ)
note_seen key now seen =
    if is_seen key seen
    then (true, seen)
    else (false, keep (λ e. not (ltb (e.1 + two_minutes) now)) (seen ++ (key, now) ∷ []))

abbrev pub transaction : Text → Text
transaction msg = parse_header msg (txt "Call-ID") ++ txt "|" ++ parse_header msg (txt "CSeq")

module _ {control : Control} ⦃env : Env⦄ where
  abbrev answer : Addr → Text → ℕ → Text → Chat control → Chat control
  answer remote msg code reason chat = record chat {
    server = respond remote msg code reason [] [] [] chat.server;
  }

  -- The answer, and the submission behind it.
  unfoldable pub deliver : Addr → Text → Text → Text → Chat control → Chat control
  deliver remote msg target body chat = record (answer remote msg 200 (txt "OK") chat) {
    submitted = chat.submitted ++ (target, body) ∷ [];
  }

  unfoldable pub deliver_once : ℕ → Addr → Text → Text → Text → Chat control → Chat control
  deliver_once now remote msg target body chat =
      let r = note_seen (transaction msg) now chat.seen in
      if is_nil (parse_header msg (txt "Call-ID"))
      then deliver remote msg target body chat
      else if r.0
      then answer remote msg 200 (txt "OK") chat
      else deliver remote msg target body (record chat { seen = r.1 })

  -- handleMessageRequest, with the URI of its request.
  unfoldable pub message_to : ℕ → Addr → Text → Text → Chat control → Chat control
  message_to now remote msg uri chat =
      let target = message_target uri in
      let body = message_body msg in
      if is_nil target || is_nil body
      then answer remote msg 400 (txt "Bad Request") chat
      else if contains body (txt "<isComposing")
      then answer remote msg 200 (txt "OK") chat
      else deliver_once now remote msg target body chat

  abbrev pub message_for : ℕ → Addr → Text → Option Text → Chat control → Option (Chat control)
  message_for now remote msg none chat = none
  message_for now remote msg (some uri) chat = some (message_to now remote msg uri chat)

  -- handleMessageRequest, of a server that has an SMS engine attached or not.
  unfoldable pub handle_message_request :
      Bool → ℕ → Addr → Text → Chat control → Option (Chat control)
  handle_message_request attached now remote msg chat =
      if attached
      then message_for now remote msg (request_target msg) chat
      else some (answer remote msg 500 (txt "Server Error") chat)

-- The bytes that may stand in the user of the From: no header can be injected by them.
abbrev pub is_caller_byte : ℕ → Bool
is_caller_byte c =
    leb b'a' c && leb c b'z'
    || (leb b'A' c && leb c b'Z' || (is_digit c || (c == b'+' || (c == b'-' || c == b'.'))))

abbrev or_unknown : Text → Text
or_unknown caller = if is_nil caller then txt "unknown" else caller

-- The sender as ForwardSMS writes it.
unfoldable pub caller_of : Text → Text
caller_of peer = or_unknown (keep is_caller_byte (or_unknown peer))

-- The MESSAGE to one registration; the three clock readings name the tag, the call and the branch.
unfoldable pub forward_message : Text → Text → Text → Text → ℕ → ℕ → ℕ → Text
forward_message user local caller body tag call branch =
    txt "MESSAGE sip:"
    ++ user
    ++ txt "@"
    ++ local
    ++ txt " SIP/2.0"
    ++ crlf
    ++ txt "Via: SIP/2.0/UDP "
    ++ local
    ++ txt ":5060;branch=z9hG4bKsms"
    ++ print_nat (branch % 100000)
    ++ txt ";rport"
    ++ crlf
    ++ txt "Max-Forwards: 70"
    ++ crlf
    ++ txt "From: <sip:"
    ++ caller
    ++ txt "@"
    ++ local
    ++ txt ">;tag=sms"
    ++ print_nat (tag % 1000000)
    ++ crlf
    ++ txt "To: <sip:"
    ++ user
    ++ txt "@"
    ++ local
    ++ txt ">"
    ++ crlf
    ++ txt "Call-ID: sms-"
    ++ print_nat call
    ++ txt "-"
    ++ user
    ++ crlf
    ++ txt "CSeq: 1 MESSAGE"
    ++ crlf
    ++ txt "Contact: <sip:cellbridge@"
    ++ local
    ++ txt ":5060>"
    ++ crlf
    ++ txt "Content-Type: text/plain; charset=utf-8"
    ++ crlf
    ++ txt "Content-Length: "
    ++ print_nat (length body)
    ++ crlf
    ++ crlf
    ++ body

module _ ⦃env : Env⦄ where
  -- The datagrams to the registrations whose Contact names an address; `clock` is the n-th reading.
  unfoldable pub forward_to : (ℕ → ℕ) → ℕ → Text → Text → List Registration → List Datagram
  forward_to clock n caller body [] = []
  forward_to clock n caller body (reg ∷ regs) =
      let unreached = forward_to clock n caller body regs in
      let others = forward_to clock (n + 3) caller body regs in
      elim (contact_addr env.resolve reg.contact) [
        | none ↦ unreached
        | some remote ↦
            record {
              to_addr = remote;
              message =
                  forward_message reg.username (env.local_ip_for remote) caller body (clock n)
                    (clock (n + 1)) (clock (n + 2));
            }
            ∷ others
      ]

  -- ForwardSMS, with the socket open.
  unfoldable pub forward_sms : (ℕ → ℕ) → Text → Text → List Registration → List Datagram
  forward_sms clock peer body regs =
      if is_nil body then [] else forward_to clock 0 (caller_of peer) body regs
