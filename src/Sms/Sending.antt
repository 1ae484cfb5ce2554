-- ===== src/Sms/Sending.antt =====
-- sms/engine.go: what a submission leaves in the database and at the modem.
use mathlib.Core.List.{append-nil, append_assoc}
use dontmove_kit.Prelude.{
  ℕ, ◌≡◌, refl, sym, ap, ◌∙◌, Option, none, some, List, [], ◌∷◌, ◌++◌, inl, inr, ◌⊎◌, Option-cases,
  map,
}
use dontmove_kit.Text.{Text, txt}
use dontmove_kit.Sms.{
  Message, Part, Submission, accepted, unknown, refused, Outside, not_recorded, submit_failed,
  Answer, persist, after_submission, send_parts, queued_message, stored_message, with_id, send,
}

module _ (outside : Outside)
    -- The status that the database holds for a message.
    (status_of : outside.State → Text → Text)
    -- A status that was written is the one that the database holds.
    (written : (id status : Text) (n : ℕ) (s : outside.State)
      → (outside.update_status id status s).0 ≡ some n
      → status_of (outside.update_status id status s).1 id ≡ status) where
  -- The database holds the status that the caller is told, and it is a final one.
  abbrev pub IsRecorded : Answer outside → Type 0
  IsRecorded (o, some not_recorded, s) = Unit
  IsRecorded (some m, none, s) =
      (status_of s m.id ≡ m.status) × ((m.status ≡ txt "sent") ⊎ (m.status ≡ txt "submitted"))
  IsRecorded (some m, some submit_failed, s) =
      (status_of s m.id ≡ m.status) × (m.status ≡ txt "failed")
  IsRecorded (none, _, s) = ⊥

  persist-IsRecorded :
      (status : Text) (m : Message) (s : outside.State)
      (go_on : Message → outside.State → Answer outside)
      → ((n : ℕ) (s' : outside.State)
          → status_of s' m.id ≡ status
          → IsRecorded (go_on (record m { status = status; sync_seq = n }) s'))
      → IsRecorded (persist outside status m s go_on)
  unfolding persist
  persist-IsRecorded status m s go_on h =
      elim (Option-cases (outside.update_status m.id status s).0) [
        | inl e ↦ rw (persist, e) tt
        | inr (n, e) ↦
            rw (persist, e)
              (h n (outside.update_status m.id status s).1 (written m.id status n s e))
      ]

  after-IsRecorded :
      (r : Submission × outside.State) (m : Message)
      (go_on : Message → outside.State → Answer outside)
      → ((m' : Message) (s' : outside.State) → IsRecorded (go_on m' s'))
      → IsRecorded (after_submission outside r m go_on)
  unfolding after_submission
  after-IsRecorded (accepted, s) m go_on h =
      persist-IsRecorded (txt "submitted") m s go_on (λ n s' w. h _ s')
  after-IsRecorded (unknown, s) m go_on h =
      persist-IsRecorded (txt "submitted") m s _ (λ n s' w. (w, inr refl))
  after-IsRecorded (refused, s) m go_on h =
      persist-IsRecorded (txt "failed") m s _ (λ n s' w. (w, refl))

  send_parts-IsRecorded :
      (to : Text) (parts : List Part) (m : Message) (s : outside.State)
      → IsRecorded (send_parts outside to parts m s)
  unfolding send_parts
  send_parts-IsRecorded to [] m s = persist-IsRecorded (txt "sent") m s _ (λ n s' w. (w, inl refl))
  send_parts-IsRecorded to (part ∷ parts) m s =
      after-IsRecorded (outside.send_sms to part s) m (send_parts outside to parts)
        (λ m' s'. send_parts-IsRecorded to parts m' s')

  stored_message-IsRecorded :
      (to : Text) (parts : List Part) (m : Message) (r : Option ℕ × outside.State)
      → IsRecorded (stored_message outside to parts m r)
  stored_message-IsRecorded to parts m (none, s) = tt
  stored_message-IsRecorded to parts m (some n, s) = send_parts-IsRecorded to parts _ s

  with_id-IsRecorded :
      (to body : Text) (part : Part) (parts : List Part) (r : Option Text × outside.State)
      → IsRecorded (with_id outside to body part parts r)
  with_id-IsRecorded to body part parts (none, s) = tt
  with_id-IsRecorded to body part parts (some id, s) =
      let m = queued_message outside id to body part.encoding (outside.now s) in
      stored_message-IsRecorded to (part ∷ parts) m (outside.insert_message m s)

  -- A submission leaves no message queued behind the caller's back: unless the caller is told that
  -- something could not be prepared or recorded, the message that it gets stands in the database
  -- with the status that it shows, which is "failed" beside a refusal of the modem, and "sent" or
  -- "submitted" otherwise. This holds of a database that keeps a status which it accepted.
  pub send-IsRecorded : (to body : Text) (s : outside.State) → IsRecorded (send outside to body s)
  unfolding send
  send-IsRecorded to body s = elim (Option-cases (outside.encode to body s)) [
    | inl e ↦ rw (send, e) tt
    | inr ((part, parts), e) ↦
        rw (send, e) (with_id-IsRecorded to body part parts (outside.new_id (txt "msg_") s))
  ]

-- Parts that were accepted.
abbrev pub all_accepted : List Part → List (Part × Submission)
all_accepted [] = []
all_accepted (part ∷ parts) = (part, accepted) ∷ all_accepted parts

all_accepted-snoc :
    (parts : List Part) (part : Part)
    → all_accepted (parts ++ part ∷ []) ≡ all_accepted parts ++ (part, accepted) ∷ []
all_accepted-snoc [] part = refl
all_accepted-snoc (p ∷ parts) part = ap (λ ps. (p, accepted) ∷ ps) (all_accepted-snoc parts part)

module _ (outside : Outside)
    -- The parts that the modem was given, with what it made of each, and what leaves them alone.
    (given : outside.State → List (Part × Submission))
    (sending : (to : Text) (part : Part) (s : outside.State)
      → given (outside.send_sms to part s).1
        ≡ given s ++ (part, (outside.send_sms to part s).0) ∷ [])
    (recording : (id status : Text) (s : outside.State)
      → given (outside.update_status id status s).1 ≡ given s) where
  -- At most one part that was not accepted.
  abbrev pub IsStop : List (Part × Submission) → Type 0
  IsStop [] = Unit
  IsStop ((part, unknown) ∷ []) = Unit
  IsStop ((part, refused) ∷ []) = Unit
  IsStop _ = ⊥

  -- A message is told as sent if every part was accepted, and as submitted if the last one that was
  -- given is uncertain.
  abbrev pub IsTold : Message → List (Part × Submission) → List Part → Type 0
  IsTold m [] rest = (rest ≡ []) × (m.status ≡ txt "sent")
  IsTold m ((part, unknown) ∷ []) rest = m.status ≡ txt "submitted"
  IsTold m _ rest = ⊥

  abbrev pub IsFailed : Message → List (Part × Submission) → Type 0
  IsFailed m ((part, refused) ∷ []) = m.status ≡ txt "failed"
  IsFailed m _ = ⊥

  -- What the caller is told fits how the run ended.
  abbrev pub IsHonest : Answer outside → List (Part × Submission) → List Part → Type 0
  IsHonest (some m, none, s) last rest = IsTold m last rest
  IsHonest (some m, some submit_failed, s) last rest = IsFailed m last
  IsHonest (some m, some not_recorded, s) last rest = IsStop last
  IsHonest _ last rest = ⊥

  -- The modem was given these parts, in order: those of `done`, which it accepted, and then the one of
  -- `last` if there is one; `rest` was not given.
  pub record GaveParts (before : outside.State) (parts : List Part) (r : Answer outside)
      : Type 0 where
    pub done : List Part
    pub last : List (Part × Submission)
    pub rest : List Part
    pub splits : parts ≡ done ++ (map (λ given_part. given_part.0) last ++ rest)
    pub gave : given r.2 ≡ given before ++ (all_accepted done ++ last)
    pub honest : IsHonest r last rest

  -- Where a submission of `parts` stands: these were accepted, those are left.
  abbrev Stands : outside.State → List Part → List Part → List Part → outside.State → Type 0
  Stands before parts done rest s =
      (parts ≡ done ++ rest) × (given s ≡ given before ++ all_accepted done)

  -- The same behind a part that ended the run.
  abbrev Stopped :
      outside.State
      → List Part
      → List Part
      → List (Part × Submission)
      → List Part
      → outside.State
      → Type 0
  Stopped before parts done last rest s =
      (parts ≡ done ++ (map (λ given_part. given_part.0) last ++ rest))
      × (given s ≡ given before ++ (all_accepted done ++ last))

  persist-GaveParts :
      (before : outside.State) (parts done : List Part) (last : List (Part × Submission))
      (rest : List Part) (status : Text) (m : Message) (s : outside.State)
      (go_on : Message → outside.State → Answer outside)
      → Stopped before parts done last rest s
      → IsStop last
      → ((n : ℕ) (s' : outside.State)
          → Stopped before parts done last rest s'
          → GaveParts before parts (go_on (record m { status = status; sync_seq = n }) s'))
      → GaveParts before parts (persist outside status m s go_on)
  unfolding persist
  persist-GaveParts before parts done last rest status m s go_on g allowed h =
      let s' = (outside.update_status m.id status s).1 in
      let kept : given s' ≡ given before ++ (all_accepted done ++ last) =
        recording m.id status s ∙ g.1 in
      elim (Option-cases (outside.update_status m.id status s).0) [
        | inl e ↦
            rw (persist, e)
              (record {
                done = done;
                last = last;
                rest = rest;
                splits = g.0;
                gave = kept;
                honest = allowed;
              })
        | inr (n, e) ↦ rw (persist, e) (h n s' (g.0, kept))
      ]

  more-Stands :
      (before : outside.State) (parts done rest : List Part) (part : Part) (verdict : Submission)
      (s t : outside.State)
      → Stands before parts done (part ∷ rest) s
      → given t ≡ given s ++ (part, verdict) ∷ []
      → Stopped before parts done ((part, verdict) ∷ []) rest t
  more-Stands before parts done rest part verdict s t (splits, gave) more = (
    splits,
    more
        ∙ ap (λ ps. ps ++ (part, verdict) ∷ []) gave
        ∙ append_assoc (given before) (all_accepted done) ((part, verdict) ∷ []),
  )

  after-GaveParts :
      (before : outside.State) (parts done rest : List Part) (part : Part)
      (r : Submission × outside.State) (m : Message)
      (go_on : Message → outside.State → Answer outside)
      → Stopped before parts done ((part, r.0) ∷ []) rest r.1
      → ((m' : Message) (s' : outside.State)
          → Stands before parts (done ++ part ∷ []) rest s'
          → GaveParts before parts (go_on m' s'))
      → GaveParts before parts (after_submission outside r m go_on)
  unfolding after_submission
  after-GaveParts before parts done rest part (accepted, s) m go_on (splits, gave) h =
      let more = done ++ part ∷ [] in
      let splits_more : parts ≡ more ++ ([] ++ rest) =
        splits ∙ sym (append_assoc done (part ∷ []) rest) in
      let gave_more : given s ≡ given before ++ (all_accepted more ++ []) =
        gave
        ∙ ap (λ ps. given before ++ ps)
            (sym (all_accepted-snoc done part) ∙ sym (append-nil (all_accepted more))) in
      persist-GaveParts before parts more [] rest (txt "submitted") m s go_on
        (splits_more, gave_more) tt
        (λ n s' g'.
          h _ s' (g'.0, g'.1 ∙ ap (λ ps. given before ++ ps) (append-nil (all_accepted more))))
  after-GaveParts before parts done rest part (unknown, s) m go_on g h =
      persist-GaveParts before parts done ((part, unknown) ∷ []) rest (txt "submitted") m s
        (λ m' s'. (some m', none, s')) g tt
        (λ n s' g'. record {
          done = done;
          last = (part, unknown) ∷ [];
          rest = rest;
          splits = g'.0;
          gave = g'.1;
          honest = refl;
        })
  after-GaveParts before parts done rest part (refused, s) m go_on g h =
      persist-GaveParts before parts done ((part, refused) ∷ []) rest (txt "failed") m s
        (λ m' s'. (some m', some submit_failed, s')) g tt
        (λ n s' g'. record {
          done = done;
          last = (part, refused) ∷ [];
          rest = rest;
          splits = g'.0;
          gave = g'.1;
          honest = refl;
        })

  loop-GaveParts :
      (to : Text) (before : outside.State) (parts done rest : List Part) (m : Message)
      (s : outside.State)
      → Stands before parts done rest s
      → GaveParts before parts (send_parts outside to rest m s)
  unfolding send_parts
  loop-GaveParts to before parts done [] m s (splits, gave) =
      persist-GaveParts before parts done [] [] (txt "sent") m s (λ m' s'. (some m', none, s'))
        (splits, gave ∙ ap (λ ps. given before ++ ps) (sym (append-nil (all_accepted done)))) tt
        (λ n s' g'. record {
          done = done;
          last = [];
          rest = [];
          splits = g'.0;
          gave = g'.1;
          honest = (refl, refl);
        })
  loop-GaveParts to before parts done (part ∷ rest) m s g =
      let r = outside.send_sms to part s in
      after-GaveParts before parts done rest part r m (send_parts outside to rest)
        (more-Stands before parts done rest part r.0 s r.1 g (sending to part s))
        (λ m' s' g'. loop-GaveParts to before parts (done ++ part ∷ []) rest m' s' g')

  -- The modem is given the parts of a message in order, from the first, and none twice. The run stops at
  -- the first part that is not accepted: the modem accepted every part before the last one that it was
  -- given. The message is told as sent only if all parts were given and accepted, as submitted if the
  -- last one is uncertain, and as failed if it was refused; a status that the database does not take
  -- ends the run as well. This holds of a modem that counts what it is given, and a database apart
  -- from it.
  pub send_parts-GaveParts :
      (to : Text) (parts : List Part) (m : Message) (s : outside.State)
      → GaveParts s parts (send_parts outside to parts m s)
  send_parts-GaveParts to parts m s =
      loop-GaveParts to s parts [] parts m s (refl, sym (append-nil (given s)))
