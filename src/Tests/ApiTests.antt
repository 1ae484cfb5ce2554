-- ===== src/Tests/ApiTests.antt =====
-- Runs over api/server.go.
use dontmove_kit.Tests.Office.{office, office_table, no_call, opened, shut, dial_fields, post_calls}
use dontmove_kit.Prelude.{ℕ, ◌/◌, ◌≤◌, ◌≡◌, refl, true, none, some, List, [], ◌∷◌, ap, sym, ◌++◌}
use dontmove_kit.Text.{Text, txt, text_eq, drop, cut, trim_space, runes}
use dontmove_kit.Api.{
  Method, get, post, delete, Request, Call, Line, Body, empty, Response, write, write_error,
}
use dontmove_kit.Api.State.{Error}
use dontmove_kit.Api.Keys.{
  require, authorize, behind, bearer_header, idempotency_key, refuse, unauthorized,
  replay_idempotency, reply, Handler, with_claim,
}
use dontmove_kit.Api.Keys.Settled.{IsSettled}
use dontmove_kit.Api.Keys.Once.{
  completions_of, completions_of-IsRecorded, claimed_by, once, with_claim-once,
}
use dontmove_kit.Api.Keys.Repeats.{IsIdempotent}
use dontmove_kit.Api.Turn.{second, turn_username, turn_server, private_turn_server}
use dontmove_kit.Api.Turn.Credentials.{read_expiry, private_turn_server-read_expiry}
use dontmove_kit.Api.Calls.{without, handle_modem_event}
use dontmove_kit.Api.Calls.Dialing.{dial, dial_op, dial_claimed}
use dontmove_kit.Api.Calls.Dialing.Once.{dial_claimed-IsSettled}
use dontmove_kit.Api.Messages.{thread_page, failed_with}
use dontmove_kit.Api.Messages.Pages.{last_of, thread_page-last_of}
use dontmove_kit.Api.Messages.Sending.{send_claimed}
use dontmove_kit.Api.Messages.Sending.Limits.{allowed_sends, is_spaced, allowed_sends-is_spaced}
use dontmove_kit.Api.Paging.{pagination}
use dontmove_kit.Api.Paging.Bounds.{IsPage, pagination-IsPage}
use dontmove_kit.Api.Routes.{Elsewhere, serve, endpoint_of, routes, route_in, handler_of, calls}
use dontmove_kit.Api.Routes.Once.{serve-IsIdempotent}
use dontmove_kit.Api.Routes.Guards.{IsTurnedAway, serve-IsTurnedAway}

serve-IsIdempotent_example : IsIdempotent (serve (office true) (shut true) post_calls)
unfolding serve dontmove_kit.Api.Routes.is_repeatable endpoint_of dontmove_kit.Api.Routes.route_in
    dontmove_kit.Api.Routes.routes text_eq dontmove_kit.Text.has_prefix
serve-IsIdempotent_example =
    serve-IsIdempotent (office_table true) refl (shut true) post_calls refl refl

-- The dial itself: the modem has one command, and none more when the request comes again.
dial_once :
    ((serve (office true) (shut true) post_calls (opened true no_call)).0.status ≡ 201)
    × ((serve (office true) (shut true) post_calls (opened true no_call)).1.modem ≡ 1)
unfolding serve endpoint_of route_in routes handler_of calls require dial authorize behind
    idempotency_key dontmove_kit.Text.has_prefix dontmove_kit.Text.trim_prefix
    dontmove_kit.Api.Keys.with_json dontmove_kit.Api.Calls.Dialing.is_valid_dial
    dontmove_kit.Api.Keys.with_claim dial_claimed dontmove_kit.Api.Calls.Dialing.dialed
    dontmove_kit.Api.Calls.persist_call dontmove_kit.Api.Keys.accept dontmove_kit.Api.Keys.complete
    dontmove_kit.Api.Keys.audit dontmove_kit.Api.Calls.publish_call
    dontmove_kit.Api.Calls.stop_recording
dial_once = (refl, refl)

-- A dial with another token.
abbrev stolen_calls : Request
stolen_calls = record post_calls { headers = (txt "Authorization", txt "Bearer u") ∷ [] }

bearer_u-unknown :
    (token : Text)
    → bearer_header stolen_calls ≡ txt "Bearer " ++ token
    → (office true).authorize (trim_space token) ≡ none
unfolding trim_space drop dontmove_kit.Api.value_of text_eq
bearer_u-unknown token h =
    let is_u : drop 7 (bearer_header stolen_calls) ≡ token = ap (drop 7) h in rw (sym is_u) refl

serve-IsTurnedAway_example :
    IsTurnedAway
      (opened true no_call)
      (serve (office true) (shut true) stolen_calls (opened true no_call))
unfolding endpoint_of dontmove_kit.Api.Routes.route_in dontmove_kit.Api.Routes.routes text_eq
    dontmove_kit.Text.has_prefix
serve-IsTurnedAway_example =
    serve-IsTurnedAway (shut true) stolen_calls (opened true no_call) refl refl bearer_u-unknown

abbrev claim_failed : Error → Handler (office true)
claim_failed = failed_with (office true) (txt "CB-CALL-004")

abbrev dial_it : Handler (office true)
dial_it = dial_claimed (office true) (txt "d") (txt "k") dial_fields

dial_claimed-IsSettled_example :
    IsSettled
      (completions_of (office_table true))
      refl
      (txt "d")
      dial_op
      (txt "k")
      (dial_claimed (office true) (txt "d") (txt "k") dial_fields (opened true no_call))
dial_claimed-IsSettled_example =
    dial_claimed-IsSettled (completions_of (office_table true)) refl (txt "d") (txt "k") dial_fields
      (opened true no_call)

with_claim-once_example :
    (
      (with_claim
          (office true)
          (txt "d")
          dial_op
          (txt "k")
          claim_failed
          dial_it
          (opened true no_call)).0,
      (office_table true).find
          (txt "d")
          dial_op
          (txt "k")
          (with_claim
            (office true)
            (txt "d")
            dial_op
            (txt "k")
            claim_failed
            dial_it
            (opened true no_call)).1.store,
    )
    ≡ once
        ((office_table true).find (txt "d") dial_op (txt "k") (opened true no_call).store)
        (dial_it
          (claimed_by (office_table true) refl (txt "d") dial_op (txt "k") (opened true no_call))).0
with_claim-once_example =
    with_claim-once (office_table true) refl (txt "d") dial_op (txt "k") claim_failed dial_it
      (opened true no_call)
      (λ s.
        completions_of-IsRecorded (office_table true) refl (txt "d") dial_op (txt "k") (dial_it s) (
          dial_claimed-IsSettled (completions_of (office_table true)) refl (txt "d") (txt "k")
            dial_fields s))

abbrev four_rows : List ℕ
four_rows = 1 ∷ 2 ∷ 3 ∷ 4 ∷ []

thread_page-last_of_example : thread_page 2 (last_of 3 four_rows) ≡ (last_of 2 four_rows, true)
thread_page-last_of_example = thread_page-last_of 2 four_rows

pagination-IsPage_example : IsPage (pagination post_calls)
pagination-IsPage_example = pagination-IsPage post_calls

allowed_sends-is_spaced_example :
    is_spaced
      (txt "d")
      none
      (allowed_sends [] ((txt "d", 5) ∷ (txt "d", 6) ∷ (txt "d", 1000000005) ∷ []))
    ≡ true
unfolding dontmove_kit.Api.Messages.Sending.last_send
allowed_sends-is_spaced_example =
    allowed_sends-is_spaced (txt "d") [] ((txt "d", 5) ∷ (txt "d", 6) ∷ (txt "d", 1000000005) ∷ [])

-- A character beyond ASCII is one rune.
runes_of_bytes : runes (195 ∷ 169 ∷ 226 ∷ 130 ∷ 172 ∷ 49 ∷ []) ≡ 233 ∷ 8364 ∷ 49 ∷ []
unfolding runes
runes_of_bytes = refl

private_turn_server-read_expiry_example :
    (read_expiry (cut (turn_username (office true) 5000000000 (txt "d")) (txt ":")) ≡ some 605)
    × (5000000000 / second ≤ 605)
    × ((turn_server (office true) 5000000000 (txt "d")).credential
        ≡ (office true).hmac (txt "s") (turn_username (office true) 5000000000 (txt "d")))
unfolding private_turn_server dontmove_kit.Api.Turn.has_turn trim_space text_eq
private_turn_server-read_expiry_example =
    private_turn_server-read_expiry (office true) 5000000000 (txt "d")
      (turn_server (office true) 5000000000 (txt "d")) 605 refl
