-- ===== src/At/Adapter/Ghosts.antt =====
-- at/adapter.go: what clearing ghost calls leaves behind.
use dontmove_kit.Prelude.{
  ℕ, ◌<◌, ◌≡◌, ◌≢◌, refl, ap, true, false, Option, none, some, List, [], ◌∷◌, arith, ◌==◌, inl, inr,
  ◌⊎◌, Bool-cases, length, length-append,
}
use dontmove_kit.Text.{Text, txt, trim_space}
use dontmove_kit.At.Client.{exchange}
use dontmove_kit.At.Clcc.{clcc_has_live_context, count_ghosts}
use dontmove_kit.At.Adapter.Refusals.{dial_busy}
use dontmove_kit.At.Adapter.{
  ended, Adapter, Event, handle_urc, handle_urcs, Except, done, failed, Failure, active_call,
  command, dial, event_capacity,
}
use dontmove_kit.At.Adapter.Reaping.{
  Reaped, after_look, after_rung, reap_ladder, first_look, ladder, reap_ghosts,
}

-- From `a` either a call is still active, and no event was sent, or an event was.
record StaysBusy (a b : Adapter) : Type 0 where
  busy : ((b.active ≢ []) × (b.events ≡ a.events)) ⊎ (length a.events < length b.events)
  open_channel : b.closed ≡ false

abbrev HasRoom : Adapter → Type 0
HasRoom a = length a.events < event_capacity

handle_urc-StaysBusy :
    (a : Adapter) (line : Text) (b : Adapter)
    → HasRoom a
    → StaysBusy a b
    → StaysBusy a (handle_urc line b)
unfolding handle_urc
handle_urc-StaysBusy a line b r h = record {
  busy = ground (arith, length-append b.events (event ∷ []), h.busy, h.open_channel);
  open_channel = ground (arith, h.open_channel);
}
  where
    event : Event
    event = record { kind = ended; call_id = b.active; peer = []; raw = trim_space line }

handle_urcs-StaysBusy :
    (a : Adapter) (lines : List Text) (b : Adapter)
    → HasRoom a
    → StaysBusy a b
    → StaysBusy a (handle_urcs lines b)
unfolding handle_urcs
handle_urcs-StaysBusy a [] b r h = h
handle_urcs-StaysBusy a (line ∷ lines) b r h =
    handle_urcs-StaysBusy a lines (handle_urc line b) r (handle_urc-StaysBusy a line b r h)

command-StaysBusy :
    (a : Adapter) (text : Text) (b : Adapter)
    → HasRoom a
    → StaysBusy a b
    → StaysBusy a (command text b).1
unfolding command
command-StaysBusy a text b r h =
    handle_urcs-StaysBusy a (exchange text b.client).1
      (record b { client = (exchange text b.client).2 }) r
      (record { busy = h.busy; open_channel = h.open_channel })

abbrev Outcome : Type 0
Outcome = Reaped × Adapter

module _ (a : Adapter) (r : HasRoom a) where
  after_look-StaysBusy :
      (ghosts : ℕ) (o : Except (List Text) × Adapter) (go_on : Adapter → Outcome)
      → StaysBusy a o.1
      → ((b : Adapter) → StaysBusy a b → StaysBusy a (go_on b).1)
      → StaysBusy a (after_look ghosts o go_on).1
  unfolding after_look
  after_look-StaysBusy ghosts (failed e, b) go_on h ih = h
  after_look-StaysBusy ghosts (done contexts, b) go_on h ih =
      elim (clcc_has_live_context contexts)
        as (λ t.
          StaysBusy a
            (elim t as (λ _. Outcome) [ true ↦ go_on b | false ↦ ((ghosts, none), b) ]).1) [
              | true ↦ ih b h
              | false ↦ h
            ]

  after_rung-StaysBusy :
      (ghosts : ℕ) (o : Except (List Text) × Adapter) (go_on : Option Failure → Adapter → Outcome)
      → StaysBusy a o.1
      → ((last : Option Failure) (b : Adapter) → StaysBusy a b → StaysBusy a (go_on last b).1)
      → StaysBusy a (after_rung ghosts o go_on).1
  unfolding after_rung
  after_rung-StaysBusy ghosts (failed e, b) go_on h ih = ih (some e) b h
  after_rung-StaysBusy ghosts (done lines, b) go_on h ih =
      after_look-StaysBusy ghosts (command (txt "AT+CLCC") b) (go_on none)
        (command-StaysBusy a (txt "AT+CLCC") b r h) (ih none)

  reap_ladder-StaysBusy :
      (ghosts : ℕ) (rungs : List Text) (last : Option Failure) (b : Adapter)
      → StaysBusy a b
      → StaysBusy a (reap_ladder ghosts rungs last b).1
  unfolding reap_ladder
  reap_ladder-StaysBusy ghosts [] last b h = h
  reap_ladder-StaysBusy ghosts (rung ∷ rungs) last b h =
      after_rung-StaysBusy ghosts (command rung b) (reap_ladder ghosts rungs)
        (command-StaysBusy a rung b r h) (reap_ladder-StaysBusy ghosts rungs)

  first_look-StaysBusy :
      (o : Except (List Text) × Adapter) → StaysBusy a o.1 → StaysBusy a (first_look o).1
  unfolding first_look
  first_look-StaysBusy (failed e, b) h = h
  first_look-StaysBusy (done lines, b) h = elim (Bool-cases (count_ghosts lines == 0)) [
    | inl e ↦ rw e h
    | inr e ↦ rw e (reap_ladder-StaysBusy (count_ghosts lines) ladder none b h)
  ]

-- Clearing ghost calls does not free the adapter: if a call is active, the channel is open and has
-- room, and the modem reports no end of a call meanwhile (no event is sent), then that call is
-- still active behind the clearing, whatever it found and cleared, and every dial is refused.
pub reap_ghosts_stays_busy :
    (peer : Text) (a : Adapter)
    → a.active ≢ []
    → a.closed ≡ false
    → length a.events < event_capacity
    → (reap_ghosts a).1.events ≡ a.events
    → dial peer (reap_ghosts a).1 ≡ (failed active_call, (reap_ghosts a).1)
unfolding reap_ghosts
reap_ghosts_stays_busy peer a h o r e = dial_busy peer (reap_ghosts a).1 (
    still (
      first_look-StaysBusy a r (command (txt "AT+CLCC") a) (
        command-StaysBusy a (txt "AT+CLCC") a r
          (record { busy = inl (h, refl); open_channel = o }))))
  where
    still : StaysBusy a (reap_ghosts a).1 → (reap_ghosts a).1.active ≢ []
    still s n = ground (arith, s.busy, ap length e)
