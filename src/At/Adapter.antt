-- ===== src/At/Adapter.antt =====
-- at/adapter.go: the adapter's state, its unsolicited lines and its call commands.
--
-- The identifiers that `uuid` and `id.New` mint are given by the environment, in turn. A line that
-- an exchange meets is handled before the exchange returns, as `dispatchUnsolicited` does.
pub mod Reaping
pub mod Ringing
pub mod Refusals
pub mod Ghosts
pub mod Closing
use dontmove_kit.Prelude.{
  ℕ, zero, suc, ◌+◌, Bool, true, false, not, ◌&&◌, ◌||◌, Option, none, some, List, [], ◌∷◌, ◌++◌,
  ◌==◌, ltb, if◌then◌else◌, length, is_nil, any,
}
use dontmove_kit.Prelude.Int.{ℤ}
use dontmove_kit.Text.{Text, txt, text_eq, has_prefix, trim_space}
use dontmove_kit.At.Parser.{is_call_end}
use dontmove_kit.At.Client.{
  Client, AtError, CtxError, Result, ok, err, exchange, submission_unknown,
}
use dontmove_kit.At.Clcc.{clip_number, clcc_active, clcc_has_live_context, count_ghosts}

pub data Kind : Type 0 where
  incoming ended : Kind

-- modem.ModemEvent, with the fields that the gateway fills.
pub record Event : Type 0 where
  pub kind : Kind
  pub call_id : Text
  pub peer : Text
  pub raw : Text

pub record Adapter : Type 0 where
  pub client : Client
  pub active : Text  -- empty: no call
  pub pending_peer : Text
  pub incoming_sent : Bool
  pub publishing : List Text  -- the calls whose `emitIncomingDelayed` still waits
  pub events : List Event  -- the buffered channel
  pub closed : Bool
  pub crashed : Bool  -- a send on the closed channel that nothing recovers
  pub minted : ℕ
  pub uuid : ℕ → Text
  pub new_id : ℕ → Option Text

abbrev pub event_capacity : ℕ
event_capacity = 32

-- A send that gives up on a full channel. On a closed one it panics: `safe` says that the caller
-- recovers, as `HandleURC` does.
unfoldable pub offer : Bool → Event → Adapter → Adapter
offer safe event a =
    if a.closed
    then record a { crashed = a.crashed || not safe }
    else if ltb (length a.events) event_capacity
    then record a { events = a.events ++ event ∷ [] }
    else a

abbrev ring_active : Adapter → Adapter
ring_active a =
    if is_nil a.active then record a { active = a.uuid a.minted; minted = suc a.minted } else a

-- The first RING of a call starts its `emitIncomingDelayed`.
unfoldable pub ring : Adapter → Adapter
ring a =
    let opened = ring_active a in
    if opened.incoming_sent then opened else record opened {
      incoming_sent = true;
      publishing = opened.publishing ++ opened.active ∷ [];
    }

unfoldable pub call_ended : Text → Adapter → Adapter
unfolding offer
call_ended line a =
    offer true (record { kind = ended; call_id = a.active; peer = []; raw = line })
      (record a { active = []; incoming_sent = false; pending_peer = [] })

-- (*Adapter).HandleURC.
unfoldable pub handle_urc : Text → Adapter → Adapter
unfolding ring call_ended
handle_urc raw a =
    let line = trim_space raw in
    if has_prefix line (txt "+CLIP:")
    then record a { pending_peer = clip_number line }
    else if text_eq line (txt "RING")
    then ring a
    else if is_call_end line
    then call_ended line a
    else a

unfoldable pub handle_urcs : List Text → Adapter → Adapter
handle_urcs [] a = a
handle_urcs (line ∷ lines) a = handle_urcs lines (handle_urc line a)

abbrev publish_call : List Text → Adapter → Adapter
publish_call [] a = a
publish_call (call ∷ calls) a =
    offer false (record { kind = incoming; call_id = call; peer = a.pending_peer; raw = [] })
      (record a { pending_peer = []; publishing = calls })

-- The end of the wait of `emitIncomingDelayed`, of the call that has waited longest.
unfoldable pub publish : Adapter → Adapter
unfolding offer
publish a = publish_call a.publishing a

pub data Failure : Type 0 where
  at_error : AtError → Failure
  active_call : Failure
  call_mismatch : Failure
  no_id : Failure
  invalid_digit : Failure
  invalid_message : Failure
  result_unknown : AtError → Failure
  wait_ended : CtxError → Failure

pub data Except {ℓ} (A : Type ℓ) : Type ℓ where
  done : A → Except A
  failed : Failure → Except A

-- An operation of the adapter: its result and the state behind it.
abbrev pub Op : Type 0 → Type 0
Op A = Adapter → Except A × Adapter

infixl 5 ◌>>=◌ ◌>>◌
abbrev pub ◌>>=◌ : {A B : Type 0} → Op A → (A → Op B) → Op B
◌>>=◌ m f a = let r = m a in elim r.0 [ failed e ↦ (failed e, r.1) | done x ↦ f x r.1 ]

abbrev pub ◌>>◌ : {A B : Type 0} → Op A → Op B → Op B
m >> k = m >>= λ _. k

abbrev pub pure : {A : Type 0} → A → Op A
pure x a = (done x, a)

abbrev pub require : Bool → Failure → Op (Unit {0})
require true e a = (done tt, a)
require false e a = (failed e, a)

abbrev pub update : (Adapter → Adapter) → Op (Unit {0})
update f a = (done tt, f a)

abbrev pub lift : {A : Type 0} → Result A → Except A
lift (ok x) = done x
lift (err e) = failed (at_error e)

-- (*Client).Exchange with the adapter as the line handler.
unfoldable pub command : Text → Op (List Text)
unfolding handle_urcs
command text a =
    let (result, lines, c) = exchange text a.client in
    (lift result, handle_urcs lines (record a { client = c }))

abbrev taken_id : Option Text → Adapter → Except Text × Adapter
taken_id none a = (failed no_id, record a { minted = suc a.minted })
taken_id (some id) a = (done id, record a { minted = suc a.minted })

-- id.New.
unfoldable pub mint : Op Text
mint a = taken_id (a.new_id a.minted) a

-- (*Adapter).Dial.
unfoldable pub dial : Text → Op Text
dial peer a =
    (do
      require (is_nil a.active) active_call
      command (txt "ATD" ++ trim_space peer ++ txt ";")
      id ← mint
      update (λ b. record b { active = id })
      pure id)
      a

-- (*Adapter).validateActive: an empty argument accepts whichever call is active.
unfoldable pub validate_active : Text → Op (Unit {0})
validate_active call a =
    require (not (is_nil a.active || (not (is_nil call) && not (text_eq a.active call))))
      call_mismatch a

-- (*Adapter).Answer.
unfoldable pub answer_call : Text → Op (List Text)
answer_call call = do validate_active call; command (txt "ATA")

-- (*Adapter).finishActive.
unfoldable pub finish_active : Text → Text → Adapter → Adapter
unfolding offer
finish_active call reason a =
    offer false (record { kind = ended; call_id = call; peer = []; raw = reason })
      (record a {
        active = if text_eq a.active call then [] else a.active;
        incoming_sent = false;
        pending_peer = [];
      })

-- (*Adapter).Hangup.
unfoldable pub hangup : Text → Op (Unit {0})
hangup call = do
  validate_active call
  command (txt "ATH")
  update (finish_active call (txt "local_hangup"))

abbrev pub dtmf_digits : Text
dtmf_digits = txt "0123456789*#ABCD"

-- (*Adapter).SendDTMF.
unfoldable pub send_dtmf : Text → ℕ → Op (List Text)
send_dtmf call digit = do
  validate_active call
  require (any (λ d. digit == d) dtmf_digits) invalid_digit
  command (txt "AT+VTS=\"" ++ digit ∷ txt "\"")

-- (*Adapter).WaitReady, with the number of probes that fit before the context ends.
unfoldable pub wait_ready : CtxError → ℕ → Op (Unit {0})
unfolding command
wait_ready why zero a = (failed (wait_ended why), a)
wait_ready why (suc probes) a =
    let probe = command (txt "AT") a in
    elim probe.0 [ done lines ↦ (done tt, probe.1) | failed e ↦ wait_ready why probes probe.1 ]

-- (*Adapter).WaitActiveDir, with the number of polls that fit before the context ends.
unfoldable pub wait_active_dir : CtxError → ℕ → ℤ → Op (Unit {0})
unfolding command
wait_active_dir why zero dir a = (failed (wait_ended why), a)
wait_active_dir why (suc polls) dir a =
    let poll = command (txt "AT+CLCC") a in
    elim poll.0 [
      | failed e ↦ wait_active_dir why polls dir poll.1
      | done lines ↦ elim (clcc_active lines dir) [
        | true ↦ (done tt, poll.1)
        | false ↦ wait_active_dir why polls dir poll.1
      ]
    ]

-- (*Adapter).Close: the channel is closed whatever still waits to send on it.
unfoldable pub close : Adapter → Adapter
close a = record a { closed = true }
