-- ===== src/Sip/Chat/Once.antt =====
-- sip/server.go: a MESSAGE that UDP delivers again is submitted once.
use dontmove_kit.Prelude.{
  ℕ, ◌+◌, ◌≤◌, ◌≡◌, refl, ◌∙◌, inl, inr, Bool, true, false, not, ◌&&◌, ◌||◌, Option, none, some,
  List, [], ◌∷◌, ◌++◌, ltb, leb, if◌then◌else◌, if_either, is_nil, any, all, keep, Bool-cases,
  any-append, arith,
}
use mathlib.Core.Path.{subst}
use dontmove_kit.Text.{Text, txt, text_eq, contains}
use dontmove_kit.Text.Laws.{text_eq_refl}
use dontmove_kit.Calls.{Control}
use dontmove_kit.Sip.Message.{parse_header}
use dontmove_kit.Sip.Session.{Addr}
use dontmove_kit.Sip.Server.{Env}
use dontmove_kit.Sip.Chat.{
  Chat, two_minutes, is_seen, note_seen, transaction, deliver, deliver_once, message_to,
  message_for, handle_message_request, request_target, message_target, message_body, is_caller_byte,
  caller_of,
}

-- A transaction that was noted at a time or later.
abbrev pub is_noted : Text → ℕ → List (Text × ℕ) → Bool
is_noted key t seen = any (λ e. text_eq e.0 key && leb t e.1) seen

is_noted-keep :
    (key : Text) (t now : ℕ) (seen : List (Text × ℕ))
    → now ≤ t + two_minutes
    → is_noted key t seen ≡ true
    → is_noted key t (keep (λ e. not (ltb (e.1 + two_minutes) now)) seen) ≡ true
is_noted-keep key t now [] h s = s
is_noted-keep key t now ((k, u) ∷ seen) h s =
    ground (arith, is_noted-keep key t now seen h, Bool-cases (ltb (u + two_minutes) now))

is_seen_of_is_noted :
    (key : Text) (t : ℕ) (seen : List (Text × ℕ))
    → is_noted key t seen ≡ true
    → is_seen key seen ≡ true
is_seen_of_is_noted key t [] h = h
is_seen_of_is_noted key t ((k, u) ∷ seen) h = ground (arith, is_seen_of_is_noted key t seen)

note_seen-is_noted :
    (key other : Text) (t now : ℕ) (seen : List (Text × ℕ))
    → now ≤ t + two_minutes
    → is_noted key t seen ≡ true
    → is_noted key t (note_seen other now seen).1 ≡ true
unfolding note_seen
note_seen-is_noted key other t now seen h s =
    if_either (λ (r : Bool × List (Text × ℕ)). is_noted key t r.1 ≡ true) (is_seen other seen) _ _ s
      (is_noted-keep key t now (seen ++ (other, now) ∷ []) h
        (ground (arith, any-append (λ e. text_eq e.0 key && leb t e.1) seen ((other, now) ∷ []))))

abbrev Holds : {A : Type 0} → (A → Type 0) → Option A → Type 0
Holds P none = Unit
Holds P (some a) = P a

module _ {control : Control} ⦃env : Env⦄ where
  message_to-is_noted :
      (key : Text) (t now : ℕ) (remote : Addr) (msg uri : Text) (chat : Chat control)
      → now ≤ t + two_minutes
      → is_noted key t chat.seen ≡ true
      → is_noted key t (message_to now remote msg uri chat).seen ≡ true
  unfolding message_to deliver_once deliver
  message_to-is_noted key t now remote msg uri chat h s =
      let P : Chat control → Type 0 = λ c. is_noted key t c.seen ≡ true in
      if_either P (is_nil (message_target uri) || is_nil (message_body msg)) _ _ s (
        if_either P (contains (message_body msg) (txt "<isComposing")) _ _ s (
          if_either P (is_nil (parse_header msg (txt "Call-ID"))) _ _ s (
            if_either P (note_seen (transaction msg) now chat.seen).0 _ _ s
              (note_seen-is_noted key (transaction msg) t now chat.seen h s))))

  -- A MESSAGE whose transaction was seen is not submitted.
  message_to_seen :
      (now : ℕ) (remote : Addr) (msg uri : Text) (chat : Chat control)
      → is_nil (parse_header msg (txt "Call-ID")) ≡ false
      → is_seen (transaction msg) chat.seen ≡ true
      → (message_to now remote msg uri chat).submitted ≡ chat.submitted
  unfolding message_to deliver_once note_seen
  message_to_seen now remote msg uri chat id seen =
      let P : Chat control → Type 0 = λ c. c.submitted ≡ chat.submitted in
      if_either P (is_nil (message_target uri) || is_nil (message_body msg)) _ _ refl (
        if_either P (contains (message_body msg) (txt "<isComposing")) _ _ refl
          (rw (id, seen) refl))

  -- One that is neither seen nor refused is noted.
  message_to_first :
      (now : ℕ) (remote : Addr) (msg uri : Text) (chat : Chat control)
      → (is_nil (message_target uri) || is_nil (message_body msg)) ≡ false
      → contains (message_body msg) (txt "<isComposing") ≡ false
      → is_nil (parse_header msg (txt "Call-ID")) ≡ false
      → is_seen (transaction msg) chat.seen ≡ false
      → is_noted (transaction msg) now (message_to now remote msg uri chat).seen ≡ true
  unfolding message_to deliver_once deliver note_seen
  message_to_first now remote msg uri chat whole typed id new =
      let key = transaction msg in
      let noted : is_noted key now (chat.seen ++ (key, now) ∷ []) ≡ true =
        any-append (λ e. text_eq e.0 key && leb now e.1) chat.seen ((key, now) ∷ [])
        ∙ ground (arith, text_eq_refl key, Bool-cases (is_noted key now chat.seen)) in
      rw (whole, typed, id, new) (is_noted-keep key now now _ (omega arith) noted)

  -- The MESSAGE again, where what it noted is kept.
  message_to_again :
      (t now : ℕ) (remote again : Addr) (msg uri : Text) (chat chat' : Chat control)
      → is_nil (parse_header msg (txt "Call-ID")) ≡ false
      → is_seen (transaction msg) chat.seen ≡ false
      → (is_noted (transaction msg) t (message_to t remote msg uri chat).seen ≡ true
          → is_noted (transaction msg) t chat'.seen ≡ true)
      → (message_to now again msg uri chat').submitted ≡ chat'.submitted
  unfolding message_to
  message_to_again t now remote again msg uri chat chat' id new kept =
      elim (Bool-cases (is_nil (message_target uri) || is_nil (message_body msg))) [
        | inl refused ↦ rw refused refl
        | inr whole ↦ elim (Bool-cases (contains (message_body msg) (txt "<isComposing"))) [
          | inl typing ↦ rw (whole, typing) refl
          | inr typed ↦
              let noted = kept (message_to_first t remote msg uri chat whole typed id new) in
              message_to_seen now again msg uri chat' id
                (is_seen_of_is_noted (transaction msg) t chat'.seen noted)
        ]
      ]

  abbrev on_chat :
      Option (Chat control) → (Chat control → Option (Chat control)) → Option (Chat control)
  on_chat none f = none
  on_chat (some chat) f = f chat

  -- A run of MESSAGEs, each with its time and sender.
  unfoldable pub handle_all : List (ℕ × Addr × Text) → Chat control → Option (Chat control)
  unfolding handle_message_request
  handle_all [] chat = some chat
  handle_all ((now, remote, msg) ∷ rest) chat =
      on_chat (handle_message_request true now remote msg chat) (handle_all rest)

  abbrev Noted : Text → ℕ → Chat control → Type 0
  Noted key t chat = is_noted key t chat.seen ≡ true

  on_chat-Noted :
      (key : Text) (t : ℕ) (o : Option (Chat control)) (f : Chat control → Option (Chat control))
      → Holds (Noted key t) o
      → ((c : Chat control) → Noted key t c → Holds (Noted key t) (f c))
      → Holds (Noted key t) (on_chat o f)
  on_chat-Noted key t none f h k = tt
  on_chat-Noted key t (some c) f h k = k c h

  message_for-Noted :
      (key : Text) (t now : ℕ) (remote : Addr) (msg : Text) (uri : Option Text)
      (chat : Chat control)
      → now ≤ t + two_minutes
      → Noted key t chat
      → Holds (Noted key t) (message_for now remote msg uri chat)
  message_for-Noted key t now remote msg none chat h s = tt
  message_for-Noted key t now remote msg (some uri) chat h s =
      message_to-is_noted key t now remote msg uri chat h s

  handle_all-Noted :
      (key : Text) (t : ℕ) (messages : List (ℕ × Addr × Text)) (chat : Chat control)
      → all (λ m. leb m.0 (t + two_minutes)) messages ≡ true
      → Noted key t chat
      → Holds (Noted key t) (handle_all messages chat)
  unfolding handle_all handle_message_request
  handle_all-Noted key t [] chat h s = s
  handle_all-Noted key t ((now, remote, msg) ∷ rest) chat h s =
      on_chat-Noted key t (message_for now remote msg (request_target msg) chat) (handle_all rest)
        (message_for-Noted key t now remote msg (request_target msg) chat (ground arith) s)
        (λ c n. handle_all-Noted key t rest c (ground arith) n)

  again_of :
      (t now : ℕ) (remote again : Addr) (msg : Text) (uri : Option Text)
      (later : List (ℕ × Addr × Text)) (chat chat' chat'' : Chat control)
      → is_nil (parse_header msg (txt "Call-ID")) ≡ false
      → is_seen (transaction msg) chat.seen ≡ false
      → all (λ m. leb m.0 (t + two_minutes)) later ≡ true
      → on_chat (message_for t remote msg uri chat) (handle_all later) ≡ some chat'
      → message_for now again msg uri chat' ≡ some chat''
      → chat''.submitted ≡ chat'.submitted
  again_of t now remote again msg none later chat chat' chat'' id new near ran last =
      absurd (ground (arith, ran))
  again_of t now remote again msg (some uri) later chat chat' chat'' id new near ran last =
      let key = transaction msg in
      subst (Holds (λ c. c.submitted ≡ chat'.submitted)) last (
        message_to_again t now remote again msg uri chat chat' id new (λ noted.
          subst (Holds (Noted key t)) ran
            (handle_all-Noted key t later (message_to t remote msg uri chat) near noted)))

  -- A MESSAGE with a Call-ID, handled for the first time, then again after any run of MESSAGEs in the
  -- two minutes behind it: the second time nothing is submitted, whoever sends it.
  pub handle_message_request_once :
      (t now : ℕ) (remote again : Addr) (msg : Text) (later : List (ℕ × Addr × Text))
      (chat chat' chat'' : Chat control)
      → is_nil (parse_header msg (txt "Call-ID")) ≡ false
      → is_seen (transaction msg) chat.seen ≡ false
      → all (λ m. leb m.0 (t + two_minutes)) later ≡ true
      → handle_all ((t, remote, msg) ∷ later) chat ≡ some chat'
      → handle_message_request true now again msg chat' ≡ some chat''
      → chat''.submitted ≡ chat'.submitted
  unfolding handle_all handle_message_request
  handle_message_request_once t now remote again msg later chat chat' chat'' id new near ran last =
      again_of t now remote again msg (request_target msg) later chat chat' chat'' id new near ran
        last

keep-all : (p : ℕ → Bool) (s : Text) → all p (keep p s) ≡ true
keep-all p [] = refl
keep-all p (c ∷ s) = ground (arith, keep-all p s, Bool-cases (p c))

-- The sender's name has only letters, digits and the three marks, whatever the peer's text: it ends
-- neither the URI nor the header that it stands in.
pub caller_of-all : (peer : Text) → all is_caller_byte (caller_of peer) ≡ true
unfolding caller_of
caller_of-all peer =
    let named = if is_nil peer then txt "unknown" else peer in
    let kept = keep is_caller_byte named in
    if_either (λ (s : Text). all is_caller_byte s ≡ true) (is_nil kept) (txt "unknown") kept refl
      (keep-all is_caller_byte named)
