-- ===== src/Tests/SmsTests.antt =====
-- Runs over sms/engine.go.
use dontmove_kit.Prelude.{
  ℕ, ◌≡◌, ◌≢◌, refl, Bool, true, Option, none, some, List, [], ◌∷◌, ◌++◌, arith, any, if◌then◌else◌,
}
use dontmove_kit.Text.{Text, txt, text_eq}
use dontmove_kit.Text.Laws.{text_eq_refl}
use dontmove_kit.Sms.{
  Decoded, RawSms, Message, Part, accepted, Outside, send, send_parts, Submission,
}
use dontmove_kit.Sms.Sending.{IsRecorded, send-IsRecorded, GaveParts, send_parts-GaveParts}
use dontmove_kit.Sms.Ingest.{ingest, take_in}
use dontmove_kit.Sms.Ingest.Repeats.{SegmentStore, ingest_once, take_in_lost}

-- A database that keeps hashes and statuses, and a modem that counts the parts.
record Desk : Type 0 where
  hashes : List Text
  statuses : Text → Text
  parts : List (Part × Submission)

abbrev part : Part
part = record { body = txt "hi"; encoding = txt "gsm7"; pdu = txt "0001"; part_no = 1; total = 2 }

abbrev only_part : Decoded
only_part = record {
  sender = txt "10086";
  concat_ref = 0;
  part_no = 1;
  total_parts = 1;
  body = txt "hi";
  encoding = txt "gsm7";
}

-- The outside of an engine, with the answer that storing a message gets.
abbrev desk : Option ℕ → Outside
desk stored = record {
  State = Desk;
  now = λ s. 0;
  hash = λ pdu. pdu;
  decode = λ pdu. some only_part;
  encode = λ to body s. some (part, part ∷ []);
  new_id = λ prefix s. (some prefix, s);
  segment_exists = λ h s. (some (any (text_eq h) s.hashes), s);
  insert_segment = λ segment s. (some tt, record s { hashes = segment.pdu_hash ∷ s.hashes });
  list_pending = λ sender ref total s. (some [], s);
  assemble = λ d segment s. (some none, s);
  insert_message = λ m s. (stored, s);
  link_segment = λ h message s. (some tt, s);
  update_status = λ id status s.
      (some 2, record s { statuses = λ i. if text_eq i id then status else s.statuses i });
  send_sms = λ to p s. (accepted, record s { parts = s.parts ++ (p, accepted) ∷ [] });
  list_sms = λ cursor s. (some ([], cursor), s);
  delete_sms = λ index s. (some tt, s);
  prune = λ s. s;
}

abbrev known : Desk → Text → Bool
known s h = any (text_eq h) s.hashes

known_store : (stored : Option ℕ) → SegmentStore (desk stored) known
known_store stored = record {
  answers = λ h s b e. ground (arith, e);
  inserted = λ segment s e. ground (arith, text_eq_refl segment.pdu_hash);
  new_id = λ prefix h s e. e;
  list_pending = λ sender ref total h s e. e;
  assemble = λ d segment h s e. e;
  insert_message = λ m h s e. e;
  link_segment = λ hash message h s e. e;
  segment_exists = λ hash h s e. e;
}

abbrev empty_desk : Desk
empty_desk = record { hashes = []; statuses = λ id. []; parts = [] }

abbrev raw_sms : RawSms
raw_sms = record { raw_pdu = txt "0791"; modem_storage = txt "MT"; modem_index = 3 }

status_written :
    (id status : Text) (n : ℕ) (s : Desk)
    → ((desk (some 1)).update_status id status s).0 ≡ some n
    → ((desk (some 1)).update_status id status s).1.statuses id ≡ status
status_written id status n s e = ground (arith, text_eq_refl id)

send-IsRecorded_example :
    IsRecorded
      (desk (some 1))
      (λ s id. s.statuses id)
      status_written
      (send (desk (some 1)) (txt "13800138000") (txt "hi") empty_desk)
send-IsRecorded_example =
    send-IsRecorded (desk (some 1)) (λ s id. s.statuses id) status_written (txt "13800138000")
      (txt "hi") empty_desk

abbrev queued : Message
queued = record {
  id = txt "m1";
  thread_key = txt "13800138000";
  direction = txt "outbound";
  peer = txt "13800138000";
  body = txt "hi";
  encoding = txt "gsm7";
  status = txt "queued";
  created_at = 0;
  modem_storage = [];
  modem_index = 0;
  pdu_hash = [];
  sync_seq = 1;
}

send_parts-GaveParts_example :
    GaveParts
      (desk (some 1))
      (λ s. s.parts)
      (λ to p s. refl)
      (λ id status s. refl)
      empty_desk
      (part ∷ part ∷ [])
      (send_parts (desk (some 1)) (txt "13800138000") (part ∷ part ∷ []) queued empty_desk)
send_parts-GaveParts_example =
    send_parts-GaveParts (desk (some 1)) (λ s. s.parts) (λ to p s. refl) (λ id status s. refl)
      (txt "13800138000") (part ∷ part ∷ []) queued empty_desk

abbrev taken : Option Message
taken = or_nothing (ingest (desk (some 1)) raw_sms empty_desk).0
  where
    or_nothing : Option (Option Message) → Option Message
    or_nothing none = none
    or_nothing (some o) = o

ingest_once_example :
    (ingest (desk (some 1)) raw_sms (ingest (desk (some 1)) raw_sms empty_desk).1).0
    ≢ some (some queued)
unfolding ingest
ingest_once_example =
    ingest_once (desk (some 1)) known (known_store (some 1)) raw_sms empty_desk taken queued refl

take_in_lost_example :
    ((take_in (desk none) (raw_sms ∷ []) empty_desk).0 ≡ [])
    × (take_in (desk none) (raw_sms ∷ []) (take_in (desk none) (raw_sms ∷ []) empty_desk).1
        ≡ ([], (ingest (desk none) raw_sms empty_desk).1))
unfolding ingest text_eq
take_in_lost_example =
    take_in_lost (desk none) known (known_store none) raw_sms empty_desk true refl refl refl
      (omega arith)
