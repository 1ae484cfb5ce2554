-- ===== src/Calls/Ghosts.antt =====
-- modem/call_adapter.go over at/adapter.go: what a dial meets after ghost calls were cleared.
use dontmove_kit.Prelude.{ℕ, suc, ◌<◌, ◌≡◌, ◌≢◌, false, none, [], arith, length}
use dontmove_kit.Text.{Text}
use dontmove_kit.At.Client.{deadline_exceeded}
use dontmove_kit.At.Adapter.{Adapter, Except, done, failed, Failure, active_call, event_capacity}
use dontmove_kit.At.Adapter.Reaping.{Reaped}
use dontmove_kit.At.Adapter
use dontmove_kit.At.Adapter.Reaping
use dontmove_kit.At.Adapter.Ghosts.{reap_ghosts_stays_busy}
use dontmove_kit.Calls.{Control, err, control_failed, ActiveCall, dial, reap_ghosts}

-- The AT adapter as the control, with the number of probes and polls that fit before the deadlines.
abbrev pub at_control : ℕ → ℕ → Control
at_control probes polls = record {
  State = Adapter;
  dial = Adapter.dial;
  answer = Adapter.answer_call;
  hangup = Adapter.hangup;
  send_dtmf = Adapter.send_dtmf;
  wait_ready = Adapter.wait_ready deadline_exceeded probes;
  wait_active_dir = Adapter.wait_active_dir deadline_exceeded polls;
  reap_ghosts = Reaping.reap_ghosts;
}

module _ (probes polls : ℕ) where
  abbrev pub Line : Type 0
  Line = ActiveCall (at_control probes polls)

  -- Over the AT adapter, clearing ghost calls does not make the next dial start clean: after a
  -- clearing that found some and reports no error, with a call active in the adapter, its channel
  -- open and with room, and no end of a call reported meanwhile, this layer has forgotten the call,
  -- and still the dial fails because the adapter below has one.
  pub reap_ghosts-dial :
      (peer : Text) (n : ℕ) (a : Line)
      → a.line.active ≢ []
      → a.line.closed ≡ false
      → length a.line.events < event_capacity
      → (Reaping.reap_ghosts a.line).1.events ≡ a.line.events
      → (reap_ghosts (at_control probes polls) a).0 ≡ (suc n, none)
      → ((reap_ghosts (at_control probes polls) a).1.active ≡ [])
        × ((dial (at_control probes polls) peer (reap_ghosts (at_control probes polls) a).1).0
            ≡ err (control_failed active_call))
  unfolding reap_ghosts dial
  reap_ghosts-dial peer n a h o r e f = ground (arith, reap_ghosts_stays_busy peer a.line h o r e)
