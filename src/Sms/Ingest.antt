-- ===== src/Sms/Ingest.antt =====
-- sms/engine.go: how a message comes in, and a round of the inbox's poll.
pub mod Repeats
use dontmove_kit.Prelude.{
  ℕ, suc, Bool, true, false, Option, none, some, List, [], ◌∷◌, ◌++◌, ltb, if◌then◌else◌,
}
use dontmove_kit.Text.{Text, txt, print_nat}
use dontmove_kit.Sms.{Decoded, Segment, Completed, RawSms, Message, Outside, Op, and_then, pure}

module _ (outside : Outside) where
  open outside use {State}

  abbrev found :
      Option Completed → (State → Option (Option Completed) × State) → Op outside (Option Completed)
  found (some message) go_on s = (some (some message), s)
  found none go_on s = go_on s

  abbrev decoded_segment :
      Segment → Option Decoded → Op outside (Option Completed) → Op outside (Option Completed)
  decoded_segment segment none go_on s = go_on s
  decoded_segment segment (some d) go_on s =
      and_then outside (outside.assemble d segment) (λ completed. found completed go_on) s

  -- The loop over the stored segments, up to the one that completes the message. A PDU that does not
  -- decode is passed over.
  unfoldable pub collect : List Segment → Op outside (Option Completed)
  collect [] s = (some none, s)
  collect (segment ∷ segments) s =
      decoded_segment segment (outside.decode segment.raw_pdu) (collect segments) s

  unfoldable pub link_all : Text → List Text → Op outside (Unit {0})
  link_all message [] s = (some tt, s)
  link_all message (pdu ∷ pdus) s =
      and_then outside (outside.link_segment (outside.hash pdu) message)
        (λ u. link_all message pdus) s

  abbrev inbound_message : RawSms → Decoded → Text → Text → ℕ → Text → Message
  inbound_message raw d body encoding received_at id = record {
    id = id;
    thread_key = d.sender;
    direction = txt "inbound";
    peer = d.sender;
    body = body;
    encoding = encoding;
    status = txt "sent";
    created_at = received_at;
    modem_storage = raw.modem_storage;
    modem_index = raw.modem_index;
    pdu_hash = outside.hash raw.raw_pdu;
    sync_seq = 0;
  }

  abbrev stored_links : Message → List Text → ℕ → Op outside (Option Message)
  stored_links m pdus sequence =
      and_then outside (link_all m.id pdus)
        (λ u. pure outside (some (record m { sync_seq = sequence })))

  abbrev stored_as :
      RawSms → Decoded → ℕ → Text → Text → List Text → Text → Op outside (Option Message)
  stored_as raw d received_at body encoding pdus id =
      let m = inbound_message raw d body encoding received_at id in
      and_then outside (outside.insert_message m) (stored_links m pdus)

  -- The message itself and its links to the PDUs that it is made of.
  unfoldable pub store_message :
      RawSms → Decoded → ℕ → Text → Text → List Text → Op outside (Option Message)
  unfolding link_all
  store_message raw d received_at body encoding pdus =
      and_then outside (outside.new_id (txt "msg_"))
        (stored_as raw d received_at body encoding pdus)

  abbrev store_completed : RawSms → Decoded → ℕ → Option Completed → Op outside (Option Message)
  store_completed raw d received_at none = pure outside none
  store_completed raw d received_at (some c) =
      store_message raw d received_at c.body c.encoding c.segments

  abbrev new_segment : RawSms → Decoded → ℕ → Text → Segment
  new_segment raw d received_at id = record {
    id = id;
    sender = d.sender;
    concat_ref = d.concat_ref;
    part_no = d.part_no;
    total_parts = d.total_parts;
    raw_pdu = raw.raw_pdu;
    pdu_hash = outside.hash raw.raw_pdu;
    received_at = received_at;
  }

  abbrev collected : RawSms → Decoded → ℕ → List Segment → Op outside (Option Message)
  collected raw d received_at pending =
      and_then outside (collect pending) (store_completed raw d received_at)

  -- What a stored segment leads to: a message, if it is the only part or completes one.
  unfoldable pub after_segment : RawSms → Decoded → ℕ → Op outside (Option Message)
  unfolding store_message collect
  after_segment raw d received_at =
      if ltb 1 d.total_parts
      then and_then outside (outside.list_pending d.sender d.concat_ref d.total_parts)
          (collected raw d received_at)
      else store_message raw d received_at d.body d.encoding (raw.raw_pdu ∷ [])

  abbrev inserting : RawSms → Decoded → ℕ → Text → Op outside (Option Message)
  inserting raw d received_at id =
      and_then outside (outside.insert_segment (new_segment raw d received_at id))
        (λ u. after_segment raw d received_at)

  abbrev ingest_decoded : RawSms → Option Decoded → Op outside (Option Message)
  ingest_decoded raw none s = (none, s)
  ingest_decoded raw (some d) s =
      and_then outside (outside.new_id (txt "seg_")) (inserting raw d (outside.now s)) s

  abbrev ingest_unless : RawSms → Bool → Op outside (Option Message)
  ingest_unless raw true = pure outside none
  ingest_unless raw false = ingest_decoded raw (outside.decode raw.raw_pdu)

  -- (*Engine).Ingest: `none` is an error, `some none` is nothing new.
  unfoldable pub ingest : RawSms → Op outside (Option Message)
  unfolding after_segment
  ingest raw =
      and_then outside (outside.segment_exists (outside.hash raw.raw_pdu)) (ingest_unless raw)

  -- The modem's copy goes once `Ingest` has not failed.
  abbrev pub cleared : RawSms → Option (Option Message) × State → List Message × State
  cleared raw (none, s) = ([], s)
  cleared raw (some o, s) =
      let deleted = (outside.delete_sms (print_nat raw.modem_index) s).1 in
      (elim o [ none ↦ [] | some m ↦ m ∷ [] ], if ltb 0 raw.modem_index then deleted else s)

  -- The messages for the handler.
  unfoldable pub take_in : List RawSms → State → List Message × State
  unfolding ingest
  take_in [] s = ([], s)
  take_in (raw ∷ raws) s =
      let first = cleared raw (ingest raw s) in
      let rest = take_in raws first.1 in (first.0 ++ rest.0, rest.1)

  abbrev polled : Text → Option (List RawSms × Text) × State → (List Message × Text) × State
  polled cursor (none, s) = (([], cursor), s)
  polled cursor (some (raws, next), s) = let taken = take_in raws s in ((taken.0, next), taken.1)

  -- A round of `Run`: an error of the listing keeps the cursor.
  unfoldable pub poll : Text → State → (List Message × Text) × State
  unfolding take_in
  poll cursor s = polled cursor (outside.list_sms cursor (outside.prune s))
