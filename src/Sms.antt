-- ===== src/Sms.antt =====
-- sms/engine.go: `Engine`, which takes messages in and submits them.
--
-- The database, the PDU codec, the assembler, the clock, the identifiers and the modem's SMS commands
-- stand behind interfaces that are not part of this file's code: `Outside` is all of them over one
-- state. A call that can fail returns `none` for any error.
pub mod Sending
pub mod Ingest
use dontmove_kit.Prelude.{
  ℕ, suc, Bool, true, false, Option, none, some, List, [], ◌∷◌, ltb, if◌then◌else◌,
}
use dontmove_kit.Text.{Text, txt, print_nat}

-- What `DecodePDU` gives.
pub record Decoded : Type 0 where
  pub sender : Text
  pub concat_ref : ℕ
  pub part_no : ℕ
  pub total_parts : ℕ
  pub body : Text
  pub encoding : Text

-- db.SMSSegment.
pub record Segment : Type 0 where
  pub id : Text
  pub sender : Text
  pub concat_ref : ℕ
  pub part_no : ℕ
  pub total_parts : ℕ
  pub raw_pdu : Text
  pub pdu_hash : Text
  pub received_at : ℕ

-- LogicalMessage: a message of several segments, with their PDUs.
pub record Completed : Type 0 where
  pub body : Text
  pub encoding : Text
  pub segments : List Text

-- modem.RawSMS.
pub record RawSms : Type 0 where
  pub raw_pdu : Text
  pub modem_storage : Text
  pub modem_index : ℕ

-- db.Message.
pub record Message : Type 0 where
  pub id : Text
  pub thread_key : Text
  pub direction : Text
  pub peer : Text
  pub body : Text
  pub encoding : Text
  pub status : Text
  pub created_at : ℕ
  pub modem_storage : Text
  pub modem_index : ℕ
  pub pdu_hash : Text
  pub sync_seq : ℕ

-- One part of a submission: modem.SMSPayload.
pub record Part : Type 0 where
  pub body : Text
  pub encoding : Text
  pub pdu : Text
  pub part_no : ℕ
  pub total : ℕ

-- How the modem answers a submission: unknown is `modem.ErrSMSSubmissionUnknown`.
pub data Submission : Type 0 where
  accepted unknown refused : Submission

pub record Outside : Type 1 where
  pub State : Type 0
  pub now : State → ℕ
  pub hash : Text → Text
  pub decode : Text → Option Decoded
  pub encode : Text → Text → State → Option (Part × List Part)  -- the first part and the others
  pub new_id : Text → State → Option Text × State
  pub segment_exists : Text → State → Option Bool × State
  pub insert_segment : Segment → State → Option (Unit {0}) × State
  pub list_pending : Text → ℕ → ℕ → State → Option (List Segment) × State
  pub assemble : Decoded → Segment → State → Option (Option Completed) × State
  pub insert_message : Message → State → Option ℕ × State
  pub link_segment : Text → Text → State → Option (Unit {0}) × State
  pub update_status : Text → Text → State → Option ℕ × State
  pub send_sms : Text → Part → State → Submission × State
  pub list_sms : Text → State → Option (List RawSms × Text) × State
  pub delete_sms : Text → State → Option (Unit {0}) × State
  pub prune : State → State

-- The error of `Send`, beside its message.
pub data SendError : Type 0 where
  not_recorded submit_failed : SendError

module _ (outside : Outside) where
  open outside use {State}

  abbrev pub Op : Type 0 → Type 0
  Op A = State → Option A × State

  abbrev pub and_then : {A B : Type 0} → Op A → (A → Op B) → Op B
  and_then m f s = let r = m s in elim r.0 [ none ↦ (none, r.1) | some a ↦ f a r.1 ]

  abbrev pub pure : {A : Type 0} → A → Op A
  pure a s = (some a, s)

  -- What `Send` returns: the message, if it was stored, and the error.
  abbrev pub Answer : Type 0
  Answer = Option Message × Option SendError × State

  abbrev persisted : Option ℕ × State → Message → Text → (Message → State → Answer) → Answer
  persisted (none, s) m status go_on = (some m, some not_recorded, s)
  persisted (some sequence, s) m status go_on =
      go_on (record m { status = status; sync_seq = sequence }) s

  -- persistStatus, and what `Send` does behind it.
  unfoldable pub persist : Text → Message → State → (Message → State → Answer) → Answer
  persist status m s go_on = persisted (outside.update_status m.id status s) m status go_on

  unfoldable pub after_submission :
      Submission × State → Message → (Message → State → Answer) → Answer
  unfolding persist
  after_submission (unknown, s) m go_on =
      persist (txt "submitted") m s (λ m' s'. (some m', none, s'))
  after_submission (refused, s) m go_on =
      persist (txt "failed") m s (λ m' s'. (some m', some submit_failed, s'))
  after_submission (accepted, s) m go_on = persist (txt "submitted") m s go_on

  -- The loop of `Send` over the parts.
  unfoldable pub send_parts : Text → List Part → Message → State → Answer
  unfolding after_submission
  send_parts to [] m s = persist (txt "sent") m s (λ m' s'. (some m', none, s'))
  send_parts to (part ∷ parts) m s =
      after_submission (outside.send_sms to part s) m (send_parts to parts)

  abbrev pub queued_message : Text → Text → Text → Text → ℕ → Message
  queued_message id to body encoding now = record {
    id = id;
    thread_key = to;
    direction = txt "outbound";
    peer = to;
    body = body;
    encoding = encoding;
    status = txt "queued";
    created_at = now;
    modem_storage = [];
    modem_index = 0;
    pdu_hash = [];
    sync_seq = 0;
  }

  abbrev pub stored_message : Text → List Part → Message → Option ℕ × State → Answer
  stored_message to parts m (none, s) = (none, some not_recorded, s)
  stored_message to parts m (some sequence, s) =
      send_parts to parts (record m { sync_seq = sequence }) s

  abbrev pub with_id : Text → Text → Part → List Part → Option Text × State → Answer
  with_id to body part parts (none, s) = (none, some not_recorded, s)
  with_id to body part parts (some id, s) =
      let m = queued_message id to body part.encoding (outside.now s) in
      stored_message to (part ∷ parts) m (outside.insert_message m s)

  -- (*Engine).Send of an engine that has a modem. Its two errors stand for all: one behind a refusal of
  -- the modem, one for the rest.
  unfoldable pub send : Text → Text → State → Answer
  unfolding send_parts
  send to body s = elim (outside.encode to body s) [
    | none ↦ (none, some not_recorded, s)
    | some (part, parts) ↦ with_id to body part parts (outside.new_id (txt "msg_") s)
  ]
