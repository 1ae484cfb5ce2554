-- ===== src/Sip/Push.antt =====
-- sip/linphone_push.go and sip/yakpush.go: the pushes that wake a phone for a call.
--
-- The push service is a function that answers a post: an HTTP status, or nothing for a network error.
pub mod Attempts
pub mod Targets
use dontmove_kit.Prelude.{
  ℕ, zero, suc, ◌+◌, ◌-◌, ◌%◌, Bool, true, false, not, ◌&&◌, ◌||◌, Option, none, some, List, [],
  ◌∷◌, ◌++◌, map, leb, ltb, ◌==◌, if◌then◌else◌, length, is_nil, any, take,
}
use dontmove_kit.Prelude.Int.{ℤ, pos, leb_ℤ}
use dontmove_kit.Text.{
  runes, Text, txt, text_eq, has_prefix, has_suffix, trim_prefix, trim_space, cut, split, is_digit,
}

-- LinphonePushURL.
unfoldable pub linphone_push_url : Text → Text
linphone_push_url override =
    if is_nil override then txt "https://subscribe.linphone.org/api/push_notification" else override

pub record PushParams : Type 0 where
  pub provider : Text
  pub param : Text
  pub prid : Text

-- pushParams.valid.
unfoldable pub valid : PushParams → Bool
valid p = not (is_nil p.provider) && (not (is_nil p.param) && not (is_nil p.prid))

abbrev is_quote : ℕ → Bool
is_quote c = c == 34 || c == 39

unfoldable pub trim_left_quotes : Text → Text
trim_left_quotes [] = []
trim_left_quotes (c ∷ s) = let rest = trim_left_quotes s in if is_quote c then rest else c ∷ s

unfoldable pub trim_right_quotes : Text → Text
trim_right_quotes [] = []
trim_right_quotes (c ∷ s) =
    let rest = trim_right_quotes s in if is_nil rest && is_quote c then [] else c ∷ rest

-- strings.Trim of both quotes.
unfoldable pub trim_quotes : Text → Text
trim_quotes s = trim_right_quotes (trim_left_quotes s)

-- The value of the first part of a Contact with this key.
unfoldable pub contact_param : Text → List Text → Text
contact_param key [] = []
contact_param key (part ∷ parts) =
    let later = contact_param key parts in
    let here = trim_space part in
    if has_prefix here (key ++ txt "=")
    then trim_quotes (trim_prefix here (key ++ txt "="))
    else later

abbrev if_valid : PushParams → Option PushParams → Option PushParams
if_valid p otherwise = if valid p then some p else otherwise

abbrev legacy_params : List Text → PushParams
legacy_params parts = record {
  provider = txt "apns";
  param = contact_param (txt "app-id") parts;
  prid = contact_param (txt "pn-tok") parts;
}

abbrev is_legacy : List Text → Bool
is_legacy parts =
    not (is_nil (contact_param (txt "pn-tok") parts))
    && (text_eq (contact_param (txt "pn-type") parts) (txt "apple")
        || text_eq (contact_param (txt "pn-type") parts) (txt "apns"))

-- parsePushParams: the parameters of RFC 8599, or those of its older form.
unfoldable pub parse_push_params : Text → Option PushParams
parse_push_params contact =
    let parts = split contact (txt ";") in
    let modern : PushParams = record {
      provider = contact_param (txt "pn-provider") parts;
      param = contact_param (txt "pn-param") parts;
      prid = contact_param (txt "pn-prid") parts;
    } in
    if_valid modern (if is_legacy parts then if_valid (legacy_params parts) none else none)

-- The runes that the push service allows in a call's id.
abbrev pub is_id_byte : ℕ → Bool
is_id_byte c =
    leb b'a' c && leb c b'z'
    || (leb b'A' c && leb c b'Z' || (is_digit c || (c == b'-' || c == b'~')))

abbrev pub sanitize_byte : ℕ → ℕ
sanitize_byte c = if is_id_byte c then c else b'-'

-- sanitizeCallID, of an id that is UTF-8: each rune that is not allowed is one dash.
unfoldable pub sanitize_call_id : Text → Text
unfolding runes
sanitize_call_id id = map sanitize_byte (runes id)

abbrev text_before : Option (Text × Text) → Text → Text
text_before none s = s
text_before (some (a, b)) s = a

-- cleanPushParam.
unfoldable pub clean_push_param : Text → Text
clean_push_param param = trim_quotes (text_before (cut param (txt "&")) param)

abbrev is_voip : Text → Bool
is_voip token = has_suffix token (txt ":voip")

-- The first token for calls, or `otherwise`.
unfoldable pub voip_token : Text → List Text → Text
voip_token otherwise [] = otherwise
voip_token otherwise (token ∷ tokens) =
    let later = voip_token otherwise tokens in if is_voip token then token else later

abbrev token_of : Text → List Text → Text
token_of prid [] = trim_quotes prid
token_of prid (token ∷ []) = trim_quotes prid
token_of prid (token ∷ second ∷ rest) = voip_token token (token ∷ second ∷ rest)

-- pickCallPrid.
unfoldable pub pick_call_prid : Text → Text
pick_call_prid prid = token_of prid (split prid (txt "&"))

-- keyPrefix, with the ellipsis as its three bytes.
unfoldable pub key_prefix : Text → Text
key_prefix key = if leb (length key) 6 then key else take 6 key ++ 226 ∷ 128 ∷ 166 ∷ []

-- The two clients: the system's own choice, and IPv4.
pub data Stack : Type 0 where
  v6 v4 : Stack

abbrev pub stack_of : ℕ → Stack
stack_of attempt = if attempt % 2 == 0 then v4 else v6

abbrev pub is_accepted : Option ℕ → Bool
is_accepted none = false
is_accepted (some status) = leb 200 status && leb status 299

-- A network error and the two statuses of a key that does not fit the stack are tried again.
abbrev pub is_retried : Option ℕ → Bool
is_retried none = true
is_retried (some status) = status == 401 || status == 403

-- sendLinphonePush's loop, from an attempt on: the posts, with what they were answered.
unfoldable pub attempts_from : ℕ → ℕ → (Stack → ℕ → Option ℕ) → List (Stack × Option ℕ)
attempts_from zero attempt service = []
attempts_from (suc left) attempt service =
    let answer = service (stack_of attempt) attempt in
    let rest = attempts_from left (suc attempt) service in
    (stack_of attempt, answer) ∷ (if is_retried answer then rest else [])

-- The body of a push.
unfoldable pub push_body : PushParams → Text → List (Text × Text)
push_body p call_id =
    (txt "pn_provider", p.provider)
    ∷ (txt "pn_param", clean_push_param p.param)
    ∷ (txt "pn_prid", pick_call_prid p.prid)
    ∷ (txt "type", txt "call")
    ∷ (txt "call_id", sanitize_call_id call_id)
    ∷ []

-- The From that the service wants, empty for none.
unfoldable pub push_from : Text → Text
push_from from =
    if is_nil from || (has_prefix from (txt "sip:") || has_prefix from (txt "sips:"))
    then from
    else txt "sip:" ++ from

-- sendLinphonePush.
unfoldable pub send_linphone_push :
    Text → (List (Text × Text) → Stack → ℕ → Option ℕ) → PushParams → Text → List (Stack × Option ℕ)
send_linphone_push key service p call_id =
    if is_nil key || not (valid p) then [] else attempts_from 4 1 (service (push_body p call_id))

-- A write of the map pushRegs.
unfoldable pub put_params : Text → PushParams → List (Text × PushParams) → List (Text × PushParams)
put_params user p [] = (user, p) ∷ []
put_params user p ((u, q) ∷ rest) =
    let others = put_params user p rest in if text_eq u user then (u, p) ∷ rest else (u, q) ∷ others

unfoldable pub delete_params : Text → List (Text × PushParams) → List (Text × PushParams)
delete_params user [] = []
delete_params user ((u, q) ∷ rest) =
    let others = delete_params user rest in if text_eq u user then others else (u, q) ∷ others

-- storePushParams.
unfoldable pub store_push_params :
    Text → PushParams → ℤ → List (Text × PushParams) → List (Text × PushParams)
store_push_params user p expires regs =
    if is_nil user
    then regs
    else if leb_ℤ expires (pos 0) || not (valid p)
    then delete_params user regs
    else put_params user p regs

-- pushFor.
unfoldable pub push_for : Text → List (Text × PushParams) → Option PushParams
push_for user [] = none
push_for user ((u, p) ∷ rest) = if text_eq u user then some p else push_for user rest

abbrev pub note_parsed :
    Text → ℤ → Option PushParams → List (Text × PushParams) → List (Text × PushParams)
note_parsed user expires (some p) regs = store_push_params user p expires regs
note_parsed user expires none regs =
    if leb_ℤ expires (pos 0)
    then store_push_params user (record { provider = []; param = []; prid = [] }) (pos 0) regs
    else regs

-- What handleRegister does with the parameters of a Contact.
unfoldable pub note_push_params :
    Text → Text → ℤ → List (Text × PushParams) → List (Text × PushParams)
note_push_params user contact expires regs =
    note_parsed user expires (parse_push_params contact) regs

-- The pushes of wakeLinphoneClients, one for each valid registration, with their posts.
unfoldable pub wake_all :
    Text
    → (List (Text × Text) → Stack → ℕ → Option ℕ)
    → Text
    → List (Text × PushParams)
    → List (List (Stack × Option ℕ))
wake_all key service call_id [] = []
wake_all key service call_id ((user, p) ∷ rest) =
    let others = wake_all key service call_id rest in
    if valid p then send_linphone_push key service p call_id ∷ others else others

-- wakeLinphoneClients: whether a push was sent, and the pushes.
unfoldable pub wake_linphone_clients :
    Text
    → (List (Text × Text) → Stack → ℕ → Option ℕ)
    → Text
    → List (Text × PushParams)
    → Bool × List (List (Stack × Option ℕ))
wake_linphone_clients key service call_id regs =
    let pushes = wake_all key service call_id regs in
    if is_nil key then (false, []) else (not (is_nil pushes), pushes)

-- The body that sendYakPush posts, if a token is set.
unfoldable pub send_yak_push : Text → Text → Text → Text → Option (List (Text × Text))
send_yak_push token caller_uri push_type message_body =
    if is_nil token
    then none
    else some (
        (txt "token", token)
        ∷ (txt "caller_uri", caller_uri)
        ∷ (txt "caller_name", trim_prefix caller_uri (txt "sip:"))
        ∷ (txt "type", push_type)
        ∷ (if is_nil message_body then [] else (txt "message_body", message_body) ∷ []))
