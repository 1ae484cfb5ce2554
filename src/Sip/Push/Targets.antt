-- ===== src/Sip/Push/Targets.antt =====
-- sip/linphone_push.go: whom a push reaches.
use dontmove_kit.Prelude.{
  ℕ, ◌≡◌, refl, inl, inr, Bool, true, false, not, ◌||◌, Option, none, some, List, [], ◌∷◌,
  if◌then◌else◌, if_either, is_nil, all, Bool-cases, arith,
}
use dontmove_kit.Prelude.Int.{ℤ, pos, leb_ℤ}
use dontmove_kit.Text.{Text, text_eq}
use dontmove_kit.Text.Laws.{eq_of_text_eq, text_eq_sym}
use dontmove_kit.Sip.Push.{
  PushParams, valid, put_params, delete_params, store_push_params, note_push_params, note_parsed,
  Stack, v6, push_body, attempts_from, send_linphone_push, wake_all, wake_linphone_clients,
  push_for,
}

abbrev pub all_valid : List (Text × PushParams) → Bool
all_valid regs = all (λ reg. valid reg.1) regs

put_params-all_valid :
    (user : Text) (p : PushParams) (regs : List (Text × PushParams))
    → valid p ≡ true
    → all_valid regs ≡ true
    → all_valid (put_params user p regs) ≡ true
unfolding put_params
put_params-all_valid user p [] v h = ground arith
put_params-all_valid user p ((u, q) ∷ rest) v h =
    ground (arith, put_params-all_valid user p rest v, Bool-cases (text_eq u user))

delete_params-all_valid :
    (user : Text) (regs : List (Text × PushParams))
    → all_valid regs ≡ true
    → all_valid (delete_params user regs) ≡ true
unfolding delete_params
delete_params-all_valid user [] h = refl
delete_params-all_valid user ((u, q) ∷ rest) h =
    ground (arith, delete_params-all_valid user rest, Bool-cases (text_eq u user))

store_push_params-all_valid :
    (user : Text) (p : PushParams) (expires : ℤ) (regs : List (Text × PushParams))
    → all_valid regs ≡ true
    → all_valid (store_push_params user p expires regs) ≡ true
unfolding store_push_params
store_push_params-all_valid user p expires regs h =
    ground (arith, delete_params-all_valid user regs h, put_params-all_valid user p regs)

note_parsed-all_valid :
    (user : Text) (expires : ℤ) (found : Option PushParams) (regs : List (Text × PushParams))
    → all_valid regs ≡ true
    → all_valid (note_parsed user expires found regs) ≡ true
note_parsed-all_valid user expires (some p) regs h =
    store_push_params-all_valid user p expires regs h
note_parsed-all_valid user expires none regs h =
    if_either (λ (r : List (Text × PushParams)). all_valid r ≡ true) (leb_ℤ expires (pos 0)) _ _
      (store_push_params-all_valid user _ (pos 0) regs h) h

-- The registrations' push parameters after a run of REGISTERs, each a user, a Contact and a time.
unfoldable pub noted : List (Text × Text × ℤ) → List (Text × PushParams)
unfolding note_push_params
noted [] = []
noted ((user, contact, expires) ∷ earlier) = note_push_params user contact expires (noted earlier)

noted-all_valid : (registers : List (Text × Text × ℤ)) → all_valid (noted registers) ≡ true
unfolding noted note_push_params
noted-all_valid [] = refl
noted-all_valid ((user, contact, expires) ∷ earlier) =
    note_parsed-all_valid user expires _ (noted earlier) (noted-all_valid earlier)

push_for-put_params :
    (other user : Text) (p : PushParams) (regs : List (Text × PushParams))
    → push_for other (put_params user p regs)
      ≡ (if text_eq user other then some p else push_for other regs)
unfolding push_for put_params
push_for-put_params other user p [] = refl
push_for-put_params other user p ((u, q) ∷ regs) = elim (Bool-cases (text_eq u user)) [
  | inl same ↦
      rw (same, eq_of_text_eq u user same) (ground (arith, Bool-cases (text_eq user other)))
  | inr apart ↦ elim (Bool-cases (text_eq u other)) [
    | inr away ↦ rw (apart, away) (push_for-put_params other user p regs)
    | inl here ↦
        rw (apart, here) (ground (arith, eq_of_text_eq u other here, text_eq_sym u user, apart))
  ]
]

push_for-delete_params :
    (other user : Text) (regs : List (Text × PushParams))
    → push_for other (delete_params user regs)
      ≡ (if text_eq user other then none else push_for other regs)
unfolding push_for delete_params
push_for-delete_params other user [] = ground (arith, Bool-cases (text_eq user other))
push_for-delete_params other user ((u, q) ∷ regs) = elim (Bool-cases (text_eq u user)) [
  | inl same ↦
      rw (same, eq_of_text_eq u user same)
        (ground (arith, push_for-delete_params other user regs, Bool-cases (text_eq user other)))
  | inr apart ↦ elim (Bool-cases (text_eq u other)) [
    | inr away ↦ rw (apart, away) (push_for-delete_params other user regs)
    | inl here ↦
        rw (apart, here) (ground (arith, eq_of_text_eq u other here, text_eq_sym u user, apart))
  ]
]

-- What is stored of a user is found again, unless the registration has gone or its parameters are
-- incomplete, and then nothing is; the other users' parameters are as before.
pub push_for-store_push_params :
    (other user : Text) (p : PushParams) (expires : ℤ) (regs : List (Text × PushParams))
    → is_nil user ≡ false
    → push_for other (store_push_params user p expires regs) ≡ (
        if text_eq user other
        then (if leb_ℤ expires (pos 0) || not (valid p) then none else some p)
        else push_for other regs)
unfolding store_push_params
push_for-store_push_params other user p expires regs named =
    elim (Bool-cases (leb_ℤ expires (pos 0) || not (valid p))) [
      | inl gone ↦ rw (named, gone) (push_for-delete_params other user regs)
      | inr kept ↦ rw (named, kept) (push_for-put_params other user p regs)
    ]

-- Each user has one registration.
abbrev pub Distinct : List (Text × PushParams) → Type 0
Distinct [] = Unit
Distinct ((u, p) ∷ rest) = (push_for u rest ≡ none) × Distinct rest

put_params-Distinct :
    (user : Text) (p : PushParams) (regs : List (Text × PushParams))
    → Distinct regs
    → Distinct (put_params user p regs)
unfolding put_params push_for
put_params-Distinct user p [] h = (refl, tt)
put_params-Distinct user p ((u, q) ∷ rest) (alone, h) = elim (Bool-cases (text_eq u user)) [
  | inl same ↦ rw same (alone, h)
  | inr apart ↦ rw apart (
    ground (arith, push_for-put_params u user p rest, text_eq_sym u user, alone),
    put_params-Distinct user p rest h,
  )
]

delete_params-Distinct :
    (user : Text) (regs : List (Text × PushParams))
    → Distinct regs
    → Distinct (delete_params user regs)
unfolding delete_params push_for
delete_params-Distinct user [] h = tt
delete_params-Distinct user ((u, q) ∷ rest) (alone, h) = elim (Bool-cases (text_eq u user)) [
  | inl same ↦ rw same (delete_params-Distinct user rest h)
  | inr apart ↦ rw apart (
    ground (arith, push_for-delete_params u user rest, text_eq_sym u user, alone),
    delete_params-Distinct user rest h,
  )
]

store_push_params-Distinct :
    (user : Text) (p : PushParams) (expires : ℤ) (regs : List (Text × PushParams))
    → Distinct regs
    → Distinct (store_push_params user p expires regs)
unfolding store_push_params
store_push_params-Distinct user p expires regs h = if_either Distinct (is_nil user) _ _ h (
    if_either Distinct (leb_ℤ expires (pos 0) || not (valid p)) _ _
      (delete_params-Distinct user regs h) (put_params-Distinct user p regs h))

note_parsed-Distinct :
    (user : Text) (expires : ℤ) (found : Option PushParams) (regs : List (Text × PushParams))
    → Distinct regs
    → Distinct (note_parsed user expires found regs)
note_parsed-Distinct user expires (some p) regs h = store_push_params-Distinct user p expires regs h
note_parsed-Distinct user expires none regs h =
    if_either Distinct (leb_ℤ expires (pos 0)) _ _
      (store_push_params-Distinct user _ (pos 0) regs h) h

noted-Distinct : (registers : List (Text × Text × ℤ)) → Distinct (noted registers)
unfolding noted note_push_params
noted-Distinct [] = tt
noted-Distinct ((user, contact, expires) ∷ earlier) =
    note_parsed-Distinct user expires _ (noted earlier) (noted-Distinct earlier)

-- A push is at least one post, whose body has these parameters.
abbrev pub IsPosted :
    (List (Text × Text) → Stack → ℕ → Option ℕ)
    → Text
    → PushParams
    → List (Stack × Option ℕ)
    → Type 0
IsPosted service call_id p posts =
    (retries : List (Stack × Option ℕ)) × (posts
      ≡ (v6, service (push_body p call_id) v6 1) ∷ retries)

-- One push for each registration, in order, and no other.
abbrev pub ReachesAll :
    (List (Text × Text) → Stack → ℕ → Option ℕ)
    → Text
    → List (Text × PushParams)
    → List (List (Stack × Option ℕ))
    → Type 0
ReachesAll service call_id [] [] = Unit
ReachesAll service call_id ((u, p) ∷ regs) (posts ∷ pushes) =
    IsPosted service call_id p posts × ReachesAll service call_id regs pushes
ReachesAll service call_id _ _ = ⊥

send_linphone_push-IsPosted :
    (key : Text) (service : List (Text × Text) → Stack → ℕ → Option ℕ) (p : PushParams)
    (call_id : Text)
    → is_nil key ≡ false
    → valid p ≡ true
    → IsPosted service call_id p (send_linphone_push key service p call_id)
unfolding send_linphone_push attempts_from
send_linphone_push-IsPosted key service p call_id k v = rw (k, v) (_, refl)

wake_all-ReachesAll :
    (key : Text) (service : List (Text × Text) → Stack → ℕ → Option ℕ) (call_id : Text)
    (regs : List (Text × PushParams))
    → is_nil key ≡ false
    → all_valid regs ≡ true
    → ReachesAll service call_id regs (wake_all key service call_id regs)
unfolding wake_all
wake_all-ReachesAll key service call_id [] k h = tt
wake_all-ReachesAll key service call_id ((user, p) ∷ rest) k h =
    let ok : valid p ≡ true = ground (arith, h) in
    rw ok (
      send_linphone_push-IsPosted key service p call_id k ok,
      wake_all-ReachesAll key service call_id rest k (ground (arith, h)),
    )

-- After any run of REGISTERs, with a push key that is set, an incoming call pushes to each registration
-- that is kept, once: the pushes are one for each registration, in order, each with a first post that
-- has this registration's parameters and this call, and no user is registered twice.
pub wake_linphone_clients-all :
    (key : Text) (service : List (Text × Text) → Stack → ℕ → Option ℕ) (call_id : Text)
    (registers : List (Text × Text × ℤ))
    → is_nil key ≡ false
    → ReachesAll service call_id
        (noted registers)
        (wake_linphone_clients key service call_id (noted registers)).1
      × Distinct (noted registers)
unfolding wake_linphone_clients
wake_linphone_clients-all key service call_id registers set = rw set (
  wake_all-ReachesAll key service call_id (noted registers) set (noted-all_valid registers),
  noted-Distinct registers,
)
