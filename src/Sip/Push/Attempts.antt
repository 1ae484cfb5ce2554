-- ===== src/Sip/Push/Attempts.antt =====
-- sip/linphone_push.go: the retries of a push.
use dontmove_kit.Prelude.{
  ℕ, zero, suc, ◌≤◌, ◌≡◌, refl, Bool, true, false, ◌||◌, Option, none, some, List, [], ◌∷◌, length,
  is_nil, any, all, Bool-cases, arith, map, ap, ◌∙◌,
}
use dontmove_kit.Text.{Text, runes, is_ascii}
use dontmove_kit.Text.Laws.{runes_same}
use dontmove_kit.Sip.Push.{
  Stack, v6, v4, stack_of, is_accepted, is_retried, attempts_from, sanitize_call_id, sanitize_byte,
  is_id_byte, send_linphone_push, valid, PushParams, push_body,
}

abbrev pub was_sent : List (Stack × Option ℕ) → Bool
was_sent posts = any (λ post. is_accepted post.1) posts

pub attempts_from-length :
    (left attempt : ℕ) (service : Stack → ℕ → Option ℕ)
    → length (attempts_from left attempt service) ≤ left
unfolding attempts_from
attempts_from-length zero attempt service = omega arith
attempts_from-length (suc left) attempt service = ground (
  arith,
  attempts_from-length left (suc attempt) service,
  Bool-cases (is_retried (service (stack_of attempt) attempt)),
)

abbrev pub is_settled : Option ℕ → Bool
is_settled answer = is_accepted answer || is_retried answer

accepted-not_retried : (answer : Option ℕ) → is_accepted answer ≡ true → is_retried answer ≡ false
accepted-not_retried none h = ground arith
accepted-not_retried (some status) h = ground arith

-- A push whose key fits one of the two stacks goes through within two posts: one of its posts is
-- accepted, and there are two at most, since none follows it. That stack accepts every post, and the
-- other one accepts or gives an answer that is tried again. A key is set and the registration's
-- parameters are complete.
pub send_linphone_push-was_sent :
    (key : Text) (service : List (Text × Text) → Stack → ℕ → Option ℕ) (p : PushParams)
    (call_id : Text) (fitting : Stack)
    → is_nil key ≡ false
    → valid p ≡ true
    → ((n : ℕ) → is_accepted (service (push_body p call_id) fitting n) ≡ true)
    → ((stack : Stack) (n : ℕ) → is_settled (service (push_body p call_id) stack n) ≡ true)
    → (was_sent (send_linphone_push key service p call_id) ≡ true)
      × (length (send_linphone_push key service p call_id) ≤ 2)
unfolding send_linphone_push attempts_from
send_linphone_push-was_sent key service p call_id v6 k v fits settled =
    let first = accepted-not_retried (service (push_body p call_id) v6 1) (fits 1) in
    rw (k, v) (ground (arith, fits 1), ground (arith, first))
send_linphone_push-was_sent key service p call_id v4 k v fits settled =
    let second = accepted-not_retried (service (push_body p call_id) v4 2) (fits 2) in
    rw (k, v)
      (
        ground (arith, settled v6 1, fits 2),
        ground (arith, second, Bool-cases (is_retried (service (push_body p call_id) v6 1))),
      )

map-sanitize_byte-all : (id : List ℕ) → all is_id_byte (map sanitize_byte id) ≡ true
map-sanitize_byte-all [] = refl
map-sanitize_byte-all (c ∷ id) = ground (arith, map-sanitize_byte-all id, Bool-cases (is_id_byte c))

map-sanitize_byte_same : (id : List ℕ) → all is_id_byte id ≡ true → map sanitize_byte id ≡ id
map-sanitize_byte_same [] h = refl
map-sanitize_byte_same (c ∷ id) h =
    ground (arith, map-sanitize_byte_same id, Bool-cases (is_id_byte c))

all_ascii_of_id : (id : Text) → all is_id_byte id ≡ true → all is_ascii id ≡ true
all_ascii_of_id [] h = refl
all_ascii_of_id (c ∷ id) h = ground (arith, all_ascii_of_id id, ascii_of_id_byte c)
  where
    ascii_of_id_byte : (c : ℕ) → is_id_byte c ≡ true → is_ascii c ≡ true
    ascii_of_id_byte c h = ground arith

-- An id that is made fit for the push service has only its bytes, and one that has them is left as it
-- is: the INVITE's Call-ID.
pub sanitize_call_id-all : (id : Text) → all is_id_byte (sanitize_call_id id) ≡ true
unfolding sanitize_call_id
sanitize_call_id-all id = map-sanitize_byte-all (runes id)

pub sanitize_call_id_same : (id : Text) → all is_id_byte id ≡ true → sanitize_call_id id ≡ id
unfolding sanitize_call_id
sanitize_call_id_same id h =
    ap (map sanitize_byte) (runes_same id (all_ascii_of_id id h)) ∙ map-sanitize_byte_same id h
