-- ===== src/Tests/ActionTests.antt =====
-- Runs over the actions on calls of api/server.go.
use dontmove_kit.Tests.Office.{
  claim_as_calls, call_up, call_over, unknown_error, office, office_table, no_call, opened,
  post_calls,
}
use dontmove_kit.Prelude.{◌≡◌, refl, true, false, none, some, [], ◌∷◌}
use dontmove_kit.Text.{Text, txt, text_eq}
use dontmove_kit.Api.{Call, write_error}
use dontmove_kit.Api.State.{Result, good, pending, Server}
use dontmove_kit.Api.Keys.Once.{completions_of, claimed_by}
use dontmove_kit.Api.Keys.Settled.{IsSettled}
use dontmove_kit.Api.Calls.{without, handle_modem_event}
use dontmove_kit.Api.Calls.Endings.{ended_event, handle_modem_event-ended}
use dontmove_kit.Api.Calls.Actions.{answer, hangup, op_of, perform, do_hangup}
use dontmove_kit.Api.Calls.Deletion.{delete_op, delete_call, delete_keyed}
use dontmove_kit.Api.Calls.Actions.Once.{perform-IsSettled}
use dontmove_kit.Api.Calls.Deletion.Keeping.{
  CallRows, delete_call-KeepsActive, delete_keyed_pending,
}
use dontmove_kit.Api.Calls.Actions.Outcomes.{perform_refused-control, do_hangup-line}

perform-IsSettled_example :
    IsSettled
      (completions_of (office_table false))
      refl
      (txt "d")
      (op_of answer)
      (txt "k")
      (perform (office false) (txt "d") (txt "k") (txt "c1") answer (opened false no_call))
perform-IsSettled_example =
    perform-IsSettled (completions_of (office_table false)) refl (txt "d") (txt "k") (txt "c1")
      answer (opened false no_call)

perform_refused-control_example :
    (perform (office false) (txt "d") (txt "k") (txt "c1") answer (opened false no_call)).1.control
    ≡ (office false).rollback (txt "k") (txt "c1") 1
perform_refused-control_example =
    perform_refused-control (txt "d") (txt "k") (txt "c1") answer (opened false no_call) refl

do_hangup-line_example :
    (do_hangup
      (office true)
      (txt "d")
      (txt "k")
      (txt "c1")
      hangup
      (opened true no_call)).1.line.active_call_id
    ≡ none
do_hangup-line_example =
    do_hangup-line (txt "d") (txt "k") (txt "c1") hangup (call_up, txt "call.updated") call_over
      (txt "call.ended") 1 1 (opened true no_call) refl refl refl refl

handle_modem_event-ended_example :
    ((handle_modem_event
        (office true)
        (ended_event (txt "c1") [] [])
        (opened true no_call)).line.active_call_id
      ≡ none)
    × ((handle_modem_event (office true) (ended_event (txt "c1") [] []) (opened true no_call)).media
        ≡ without (txt "c1") (txt "c1" ∷ []))
handle_modem_event-ended_example =
    handle_modem_event-ended (txt "c1") [] [] (opened true no_call) call_over call_over
      (txt "call.ended") (txt "call.ended") 0 0 refl refl refl refl

office_rows : CallRows (office true)
office_rows = record {
  claim_keeps = λ d o k id book. claim_as_calls (book.keys d o k) d o k id book;
  complete_keeps = λ d o k id status body book. refl;
}

abbrev all_up : Text → Result Call
all_up id = good call_up

delete_call-KeepsActive_example :
    (office true).get_call
      (txt "c1")
      (delete_call (office true) post_calls (txt "c1") (txt "d") (opened true all_up)).1.store
    ≡ good call_up
delete_call-KeepsActive_example =
    delete_call-KeepsActive office_rows post_calls (txt "c1") (txt "d") call_up (opened true all_up)
      refl refl

-- The gateway with the key of a deletion pending, and a call that was dialed since.
abbrev held_key : Server (office true)
held_key =
    record (claimed_by (office_table true) refl (txt "d") delete_op (txt "k")
      (opened true no_call)) { control = 1; modem = 1 }

delete_keyed_pending_example :
    (delete_keyed (office true) (txt "d") (txt "c1") (txt "k") (opened true no_call) ≡ (
      write_error 500 (txt "CB-CALL-004") (txt "unknown"),
      claimed_by (office_table true) refl (txt "d") delete_op (txt "k") (opened true no_call),
    ))
    × ((office_table true).find
          (txt "d")
          delete_op
          (txt "k")
          (delete_keyed (office true) (txt "d") (txt "c1") (txt "k") (opened true no_call)).1.store
        ≡ some pending)
    × (delete_keyed (office true) (txt "d") (txt "c2") (txt "k") held_key ≡ (
      write_error 409
          (txt "CB-API-003")
          (txt "request with this Idempotency-Key is still in progress"),
      held_key,
    ))
unfolding office_table text_eq
delete_keyed_pending_example =
    delete_keyed_pending (office_table true) refl (txt "d") (txt "c1") (txt "k") unknown_error
      (opened true no_call) (txt "c2") held_key refl refl refl refl
