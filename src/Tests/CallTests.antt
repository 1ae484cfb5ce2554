-- ===== src/Tests/CallTests.antt =====
-- Runs over modem/call_adapter.go and modem/fanout.go.
use dontmove_kit.Prelude.{◌≡◌, refl, false, none, List, [], ◌∷◌, arith, map}
use dontmove_kit.Text.{txt}
use dontmove_kit.At.Adapter.{Event, incoming, ended, Except, done, active_call, event_capacity}
use dontmove_kit.At.Adapter
use dontmove_kit.Calls.{
  Control, err, control_failed, ActiveCall, hangup, dial, forward, set_logical_call_id, reap_ghosts,
}
use dontmove_kit.Calls.Ids.{ended_event, ended_reported, stray_end_wipes_logical}
use dontmove_kit.Calls.Ghosts.{at_control, Line, reap_ghosts-dial}
use dontmove_kit.FanOut.{Sink, fan_out}
use dontmove_kit.FanOut.Delivery.{filled, fan_out-filled}
use dontmove_kit.Tests.Lines.{ghostly}

-- A control on which everything succeeds.
abbrev pub calm : Control
calm = record {
  State = Unit {0};
  dial = λ peer s. (done (txt "c9"), s);
  answer = λ id s. (done [], s);
  hangup = λ id s. (done tt, s);
  send_dtmf = λ id digit s. (done [], s);
  wait_ready = λ s. (done tt, s);
  wait_active_dir = λ dir s. (done tt, s);
  reap_ghosts = λ s. ((1, none), s);
}

abbrev pub no_call : ActiveCall calm
no_call = record {
  line = tt;
  active = [];
  logical = [];
  last_physical = [];
  last_logical = [];
  events = [];
}

abbrev pub one_call : ActiveCall calm
one_call = record no_call { active = txt "c1"; logical = txt "sip-1" }

ended_reported_example :
    ((forward calm (ended_event (txt "c1") (txt "NO CARRIER")) one_call).events
      ≡ ended_event (txt "sip-1") (txt "NO CARRIER") ∷ [])
    × ((forward calm (ended_event (txt "c1") (txt "NO CARRIER")) one_call).active ≡ [])
    × ((forward calm (ended_event (txt "c1") (txt "NO CARRIER")) (hangup calm one_call).1).events
        ≡ ended_event (txt "sip-1") (txt "NO CARRIER") ∷ [])
unfolding hangup
ended_reported_example =
    ended_reported calm (txt "NO CARRIER") one_call (λ e. ground (arith, e))
      (λ e. ground (arith, e)) (λ e. ground (arith, e)) (omega arith) refl

stray_end_wipes_logical_run :
    (dial calm (txt "10086") (
      forward calm
        (ended_event [] (txt "NO CARRIER"))
        (set_logical_call_id calm (txt "sip-2") no_call))).1.logical
    ≡ []
stray_end_wipes_logical_run =
    stray_end_wipes_logical calm (txt "sip-2") (txt "NO CARRIER") (txt "10086") no_call refl

abbrev ghostly_line : Line 3 3
ghostly_line = record {
  line = ghostly;
  active = txt "c1";
  logical = txt "sip-1";
  last_physical = [];
  last_logical = [];
  events = [];
}

reap_ghosts-dial_run :
    ((reap_ghosts (at_control 3 3) ghostly_line).1.active ≡ [])
    × ((dial (at_control 3 3) (txt "10086") (reap_ghosts (at_control 3 3) ghostly_line).1).0
        ≡ err (control_failed active_call))
unfolding reap_ghosts dontmove_kit.At.Adapter.Reaping.reap_ghosts dontmove_kit.At.Client.exchange
    dontmove_kit.At.Parser.feed dontmove_kit.At.Parser.is_unsolicited
    dontmove_kit.At.Parser.is_final dontmove_kit.At.Clcc.count_ghosts dontmove_kit.At.Clcc.is_live
    dontmove_kit.At.Clcc.clcc_has_live_context
reap_ghosts-dial_run =
    reap_ghosts-dial 3 3 (txt "10086") 0 ghostly_line (λ e. ground (arith, e)) refl (omega arith)
      refl refl

abbrev pub incoming_event : Event
incoming_event = record { kind = incoming; call_id = txt "c1"; peer = txt "10086"; raw = [] }

abbrev sinks : List Sink
sinks =
    record { capacity = 1; buffered = []; closed = false }
    ∷ record { capacity = 0; buffered = []; closed = false }
    ∷ []

fan_out-filled_run :
    fan_out (incoming_event ∷ incoming_event ∷ []) sinks
    ≡ map (filled (incoming_event ∷ incoming_event ∷ [])) sinks
fan_out-filled_run = fan_out-filled (incoming_event ∷ incoming_event ∷ []) sinks
