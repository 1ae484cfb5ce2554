-- ===== src/Sms/Ingest/Repeats.antt =====
-- sms/engine.go: what a PDU that comes again leads to.
use dontmove_kit.Prelude.{
  ℕ, ◌<◌, ◌≡◌, ◌≢◌, refl, sym, ap, ◌∙◌, Bool, true, false, Option, none, some, List, [], ◌∷◌, inl,
  inr, arith, Option-cases, Bool-cases, ltb,
}
use dontmove_kit.Text.{Text, txt, print_nat}
use dontmove_kit.Sms.{Decoded, Segment, Completed, RawSms, Message, Outside, Op, and_then, pure}
use dontmove_kit.Sms.Ingest.{
  collect, link_all, store_message, after_segment, decoded_segment, found, store_completed,
  new_segment, inserting, collected, stored_links, stored_as, inbound_message, ingest_decoded,
  ingest_unless, ingest, cleared, take_in,
}

module _ (outside : Outside) where
  open outside use {State}

  -- An operation that forgets no segment.
  abbrev pub Grows : {A : Type 0} → (State → Text → Bool) → Op outside A → Type 0
  Grows known m = (h : Text) (s : State) → known s h ≡ true → known (m s).1 h ≡ true

  -- A database of segments: it answers for what it knows, and what was inserted stays, whatever else
  -- is asked of the database, the assembler or the identifiers.
  pub record SegmentStore (known : State → Text → Bool) : Type 0 where
    pub answers :
        (h : Text) (s : State) (b : Bool)
        → (outside.segment_exists h s).0 ≡ some b
        → known (outside.segment_exists h s).1 h ≡ b
    pub inserted :
        (segment : Segment) (s : State)
        → (outside.insert_segment segment s).0 ≡ some tt
        → known (outside.insert_segment segment s).1 segment.pdu_hash ≡ true
    pub new_id : (prefix : Text) → Grows known (outside.new_id prefix)
    pub list_pending :
        (sender : Text) (ref total : ℕ) → Grows known (outside.list_pending sender ref total)
    pub assemble : (d : Decoded) (segment : Segment) → Grows known (outside.assemble d segment)
    pub insert_message : (m : Message) → Grows known (outside.insert_message m)
    pub link_segment : (h message : Text) → Grows known (outside.link_segment h message)
    pub segment_exists : (h : Text) → Grows known (outside.segment_exists h)

module _ (outside : Outside) (known : outside.State → Text → Bool)
    (store : SegmentStore outside known) where
  and_then-Grows :
      {A B : Type 0} (m : Op outside A) (f : A → Op outside B)
      → Grows outside known m
      → ((a : A) → Grows outside known (f a))
      → Grows outside known (and_then outside m f)
  and_then-Grows m f g k h s e = elim (Option-cases (m s).0) [
    | inl n ↦ rw (and_then, n) (g h s e)
    | inr (a, n) ↦ rw (and_then, n) (k a h (m s).1 (g h s e))
  ]

  found-Grows :
      (o : Option Completed) (go_on : Op outside (Option Completed))
      → Grows outside known go_on
      → Grows outside known (found outside o go_on)
  found-Grows none go_on g h s e = g h s e
  found-Grows (some c) go_on g h s e = e

  decoded_segment-Grows :
      (segment : Segment) (o : Option Decoded) (go_on : Op outside (Option Completed))
      → Grows outside known go_on
      → Grows outside known (decoded_segment outside segment o go_on)
  decoded_segment-Grows segment none go_on g = g
  decoded_segment-Grows segment (some d) go_on g =
      and_then-Grows (outside.assemble d segment) (λ c. found outside c go_on)
        (store.assemble d segment) (λ c. found-Grows c go_on g)

  collect-Grows : (segments : List Segment) → Grows outside known (collect outside segments)
  unfolding collect
  collect-Grows [] h s e = e
  collect-Grows (segment ∷ segments) h s e =
      decoded_segment-Grows segment (outside.decode segment.raw_pdu) (collect outside segments)
        (collect-Grows segments) h s e

  link_all-Grows :
      (message : Text) (pdus : List Text) → Grows outside known (link_all outside message pdus)
  unfolding link_all
  link_all-Grows message [] h s e = e
  link_all-Grows message (pdu ∷ pdus) h s e =
      and_then-Grows (outside.link_segment (outside.hash pdu) message)
        (λ u. link_all outside message pdus) (store.link_segment (outside.hash pdu) message)
        (λ u. link_all-Grows message pdus) h s e

  stored_links-Grows :
      (m : Message) (pdus : List Text) (n : ℕ) → Grows outside known (stored_links outside m pdus n)
  stored_links-Grows m pdus n =
      and_then-Grows (link_all outside m.id pdus)
        (λ u. pure outside (some (record m { sync_seq = n }))) (link_all-Grows m.id pdus)
        (λ u h s e. e)

  store_message-Grows :
      (raw : RawSms) (d : Decoded) (at : ℕ) (body encoding : Text) (pdus : List Text)
      → Grows outside known (store_message outside raw d at body encoding pdus)
  unfolding store_message
  store_message-Grows raw d at body encoding pdus =
      and_then-Grows (outside.new_id (txt "msg_")) (stored_as outside raw d at body encoding pdus)
        (store.new_id (txt "msg_"))
        (λ id.
          let m = inbound_message outside raw d body encoding at id in
          and_then-Grows (outside.insert_message m) (stored_links outside m pdus)
            (store.insert_message m) (stored_links-Grows m pdus))

  store_completed-Grows :
      (raw : RawSms) (d : Decoded) (at : ℕ) (o : Option Completed)
      → Grows outside known (store_completed outside raw d at o)
  store_completed-Grows raw d at none h s e = e
  store_completed-Grows raw d at (some c) h s e =
      store_message-Grows raw d at c.body c.encoding c.segments h s e

  after_segment-Grows :
      (raw : RawSms) (d : Decoded) (at : ℕ) → Grows outside known (after_segment outside raw d at)
  unfolding after_segment
  after_segment-Grows raw d at h s e = elim (Bool-cases (ltb 1 d.total_parts)) [
    | inl t ↦
        rw (after_segment, t)
          (and_then-Grows (outside.list_pending d.sender d.concat_ref d.total_parts)
            (collected outside raw d at) (store.list_pending d.sender d.concat_ref d.total_parts)
            (λ pending.
              and_then-Grows (collect outside pending) (store_completed outside raw d at)
                (collect-Grows pending) (store_completed-Grows raw d at))
            h s e)
    | inr f ↦
        rw (after_segment, f)
          (store_message-Grows raw d at d.body d.encoding (raw.raw_pdu ∷ []) h s e)
  ]

  -- What a success says of the first of two operations.
  bind_done :
      {A B : Type 0} (m : Op outside A) (f : A → Op outside B) (s : outside.State) (o : B)
      → (and_then outside m f s).0 ≡ some o
      → (a : A) × ((m s).0 ≡ some a) × (and_then outside m f s ≡ f a (m s).1)
  bind_done m f s o h = elim (Option-cases (m s).0) [
    | inl n ↦ let e : (and_then outside m f s).0 ≡ none = rw (and_then, n) refl in ground (arith, e)
    | inr (a, n) ↦ (a, n, rw (and_then, n) refl)
  ]

  -- Whatever else happens, a segment that was inserted is known.
  inserting-known :
      (raw : RawSms) (d : Decoded) (at : ℕ) (id : Text) (s : outside.State) (o : Option Message)
      → (inserting outside raw d at id s).0 ≡ some o
      → known (inserting outside raw d at id s).1 (outside.hash raw.raw_pdu) ≡ true
  inserting-known raw d at id s o h =
      let (u, e, k) =
        bind_done (outside.insert_segment (new_segment outside raw d at id))
          (λ u. after_segment outside raw d at) s o h in
      rw k (
        after_segment-Grows raw d at (outside.hash raw.raw_pdu) _
          (store.inserted (new_segment outside raw d at id) s e))

  ingest_decoded-known :
      (raw : RawSms) (d : Option Decoded) (s : outside.State) (o : Option Message)
      → (ingest_decoded outside raw d s).0 ≡ some o
      → known (ingest_decoded outside raw d s).1 (outside.hash raw.raw_pdu) ≡ true
  ingest_decoded-known raw none s o h = ground arith
  ingest_decoded-known raw (some d) s o h =
      let (id, e, k) =
        bind_done (outside.new_id (txt "seg_")) (inserting outside raw d (outside.now s)) s o h in
      rw k (
        inserting-known raw d (outside.now s) id (outside.new_id (txt "seg_") s).1 o
          (ap (λ r. r.0) (sym k) ∙ h))

  unless_known :
      (raw : RawSms) (seen : Bool) (s : outside.State) (o : Option Message)
      → known s (outside.hash raw.raw_pdu) ≡ seen
      → (ingest_unless outside raw seen s).0 ≡ some o
      → known (ingest_unless outside raw seen s).1 (outside.hash raw.raw_pdu) ≡ true
  unless_known raw true s o k h = k
  unless_known raw false s o k h = ingest_decoded-known raw (outside.decode raw.raw_pdu) s o h

  ingest-known :
      (raw : RawSms) (s : outside.State) (o : Option Message)
      → (ingest outside raw s).0 ≡ some o
      → known (ingest outside raw s).1 (outside.hash raw.raw_pdu) ≡ true
  unfolding ingest
  ingest-known raw s o h =
      let hash = outside.hash raw.raw_pdu in
      let (seen, e, k) =
        bind_done (outside.segment_exists hash) (ingest_unless outside raw) s o h in
      rw k (
        unless_known raw seen (outside.segment_exists hash s).1 o (store.answers hash s seen e)
          (ap (λ r. r.0) (sym k) ∙ h))

  -- A PDU whose segment the database knows is nothing new.
  ingest_seen :
      (raw : RawSms) (s : outside.State) (b : Bool)
      → known s (outside.hash raw.raw_pdu) ≡ true
      → (outside.segment_exists (outside.hash raw.raw_pdu) s).0 ≡ some b
      → ingest outside raw s ≡ (some none, (outside.segment_exists (outside.hash raw.raw_pdu) s).1)
  unfolding ingest
  ingest_seen raw s b k e =
      let hash = outside.hash raw.raw_pdu in
      let seen : b ≡ true = sym (store.answers hash s b e) ∙ store.segment_exists hash hash s k in
      rw (ingest, and_then, e, seen) refl

  -- A PDU that was taken in, alone or as a part that waits for others, never makes a message again:
  -- when the modem lists it once more, it is nothing new, or the database fails. This holds of a
  -- database that answers for the segments it was given and keeps them.
  pub ingest_once :
      (raw : RawSms) (s : outside.State) (o : Option Message) (m : Message)
      → (ingest outside raw s).0 ≡ some o
      → (ingest outside raw (ingest outside raw s).1).0 ≢ some (some m)
  unfolding ingest
  ingest_once raw s o m h again =
      let s' = (ingest outside raw s).1 in
      let (b, e, k) =
        bind_done (outside.segment_exists (outside.hash raw.raw_pdu)) (ingest_unless outside raw) s'
          (some m) again in
      ground (arith, ap (λ r. r.0) (ingest_seen raw s' b (ingest-known raw s o h) e), again)

  cleared_failed :
      (raw : RawSms) (r : Option (Option Message) × outside.State)
      → r.0 ≡ none
      → cleared outside raw r ≡ ([], r.1)
  cleared_failed raw (none, s) h = refl
  cleared_failed raw (some o, s) h = ground arith

  cleared_nothing :
      (raw : RawSms) (s : outside.State)
      → 0 < raw.modem_index
      → cleared outside raw (some none, s)
        ≡ ([], (outside.delete_sms (print_nat raw.modem_index) s).1)
  cleared_nothing raw s i = ground arith

  -- A message is lost if its segment was stored but the rest of taking it in failed: the attempt
  -- reports no message, and the next round, in which the database answers, takes the PDU for one
  -- that was seen, hands nothing over and deletes the modem's copy.
  pub take_in_lost :
      (raw : RawSms) (s : outside.State) (b : Bool)
      → (ingest outside raw s).0 ≡ none
      → known (ingest outside raw s).1 (outside.hash raw.raw_pdu) ≡ true
      → (outside.segment_exists (outside.hash raw.raw_pdu) (ingest outside raw s).1).0 ≡ some b
      → 0 < raw.modem_index
      → ((take_in outside (raw ∷ []) s).0 ≡ [])
        × (take_in outside (raw ∷ []) (take_in outside (raw ∷ []) s).1 ≡ (
          [],
          (outside.delete_sms
              (print_nat raw.modem_index)
              (outside.segment_exists (outside.hash raw.raw_pdu) (ingest outside raw s).1).1).1,
        ))
  unfolding take_in
  take_in_lost raw s b f k e i =
      rw
        (
          take_in,
          cleared_failed raw (ingest outside raw s) f,
          ingest_seen raw (ingest outside raw s).1 b k e,
          cleared_nothing raw
              (outside.segment_exists (outside.hash raw.raw_pdu) (ingest outside raw s).1).1 i,
        )
        (refl, refl)
