-- ===== src/Tests/PushTests.antt =====
-- Runs over the text messages of sip/server.go, and over sip/linphone_push.go.
use dontmove_kit.Prelude.{◌≤◌, ℕ, ◌≡◌, refl, true, Option, none, some, List, [], ◌∷◌, length, all}
use dontmove_kit.Prelude.Int.{ℤ, pos}
use dontmove_kit.Text.{Text, txt, text_eq}
use dontmove_kit.Sip.Chat.{Chat, handle_message_request, is_caller_byte, caller_of}
use dontmove_kit.Sip.Chat.Once.{handle_all, handle_message_request_once, caller_of-all}
use dontmove_kit.Sip.Push.{
  PushParams, Stack, v6, v4, send_linphone_push, wake_linphone_clients, store_push_params, push_for,
  push_body,
}
use dontmove_kit.Sip.Push.Attempts.{is_settled, was_sent, send_linphone_push-was_sent}
use dontmove_kit.Sip.Push.Targets.{
  noted, ReachesAll, Distinct, wake_linphone_clients-all, push_for-store_push_params,
}
use dontmove_kit.Tests.CallTests.{calm}
use dontmove_kit.Tests.SipTests.{phone, home, rings}

abbrev hello : Text
hello = txt "MESSAGE sip:10086@h SIP/2.0\r\nCall-ID: m1\r\nCSeq: 1 MESSAGE\r\n\r\nhi"

abbrev quiet : Chat calm
quiet = record { server = rings; seen = []; submitted = [] }

abbrev or_quiet : Option (Chat calm) → Chat calm
or_quiet none = quiet
or_quiet (some chat) = chat

abbrev said : Chat calm
said = or_quiet (handle_all ⦃env = home⦄ ((5, phone, hello) ∷ []) quiet)

abbrev said_again : Chat calm
said_again = or_quiet (handle_message_request ⦃env = home⦄ true 9 phone hello said)

-- The first delivery is submitted.
said_once : said.submitted ≡ (txt "10086", txt "hi") ∷ []
unfolding handle_all dontmove_kit.Sip.Chat.request_target dontmove_kit.Text.fields
    dontmove_kit.Sip.Chat.message_to dontmove_kit.Sip.Chat.message_target
    dontmove_kit.Sip.Chat.trim_plus dontmove_kit.Text.cut dontmove_kit.Text.trim_prefix
    dontmove_kit.Sip.Chat.message_body dontmove_kit.Text.trim_space dontmove_kit.Text.contains
    dontmove_kit.Sip.Chat.deliver_once dontmove_kit.Sip.Message.parse_header
    dontmove_kit.Sip.Chat.note_seen dontmove_kit.Sip.Chat.deliver
said_once = refl

handle_message_request_once_example : said_again.submitted ≡ said.submitted
unfolding dontmove_kit.Sip.Message.parse_header handle_all dontmove_kit.Sip.Chat.request_target
    dontmove_kit.Text.fields
handle_message_request_once_example =
    handle_message_request_once ⦃env = home⦄ 5 9 phone phone hello [] quiet said said_again refl
      refl refl refl refl

caller_of-all_run : all is_caller_byte (caller_of (txt "10086>\r\nX: y")) ≡ true
caller_of-all_run = caller_of-all (txt "10086>\r\nX: y")

abbrev tokens : PushParams
tokens = record { provider = txt "apns"; param = txt "team.app.voip"; prid = txt "abc:voip" }

-- A service whose key is bound to the IPv4 address.
abbrev bound_to_v4 : List (Text × Text) → Stack → ℕ → Option ℕ
bound_to_v4 body v6 n = some 401
bound_to_v4 body v4 n = some 200

both_settle :
    (stack : Stack) (n : ℕ)
    → is_settled (bound_to_v4 (push_body tokens (txt "in-c1")) stack n) ≡ true
both_settle v6 n = refl
both_settle v4 n = refl

send_linphone_push-was_sent_example :
    (was_sent (send_linphone_push (txt "key") bound_to_v4 tokens (txt "in-c1")) ≡ true)
    × (length (send_linphone_push (txt "key") bound_to_v4 tokens (txt "in-c1")) ≤ 2)
unfolding dontmove_kit.Sip.Push.valid
send_linphone_push-was_sent_example =
    send_linphone_push-was_sent (txt "key") bound_to_v4 tokens (txt "in-c1") v4 refl refl
      (λ n. refl) both_settle

abbrev registers : List (Text × Text × ℤ)
registers =
    (txt "me", txt "<sip:me@h>;pn-provider=apns;pn-param=team.app.voip;pn-prid=abc:voip", pos 3600)
    ∷ []

wake_linphone_clients-all_example :
    ReachesAll bound_to_v4
      (txt "in-c1")
      (noted registers)
      (wake_linphone_clients (txt "key") bound_to_v4 (txt "in-c1") (noted registers)).1
    × Distinct (noted registers)
wake_linphone_clients-all_example =
    wake_linphone_clients-all (txt "key") bound_to_v4 (txt "in-c1") registers refl

push_for-store_push_params_run :
    push_for (txt "me") (store_push_params (txt "me") tokens (pos 3600) []) ≡ some tokens
unfolding text_eq dontmove_kit.Sip.Push.valid
push_for-store_push_params_run =
    push_for-store_push_params (txt "me") (txt "me") tokens (pos 3600) [] refl
