-- ===== src/At/Messages.antt =====
-- at/adapter.go: the adapter's commands for text messages.
pub mod Listing
use dontmove_kit.Prelude.{
  ℕ, zero, suc, ◌+◌, ◌-◌, ◌*◌, ◌/◌, Bool, true, false, not, ◌&&◌, ◌||◌, Option, none, some, List,
  [], ◌∷◌, ◌++◌, ◌==◌, ltb, leb, if◌then◌else◌, length, is_nil, take,
}
use dontmove_kit.Prelude.Int.{ℤ, pos, negsuc, sub_ℕ}
use dontmove_kit.Text.{Text, txt, has_prefix, drop, cut, trim_space, atoi, print_nat}
use dontmove_kit.At.Parser.{is_final}
use dontmove_kit.At.Client.{M, AtError, submission_unknown, Result, ok, err, send_pdu, send_text}
use dontmove_kit.At.Adapter.{
  Adapter, Op, Except, done, failed, Failure, at_error, invalid_message, result_unknown,
  handle_urcs, command, mint, ◌>>=◌, ◌>>◌, pure,
}

-- modem.SMSPayload, with what the adapter reads.
pub record Payload : Type 0 where
  pub body : Text
  pub pdu : Text

abbrev pub hex_digit : ℕ → Option ℕ
hex_digit c =
    if leb b'0' c && leb c b'9'
    then some (c - 48)
    else if leb b'a' c && leb c b'f'
    then some (c - 87)
    else if leb b'A' c && leb c b'F'
    then some (c - 55)
    else none

abbrev pub hex_pair : Option ℕ → Option ℕ → Option ℕ
hex_pair (some a) (some b) = some (a * 16 + b)
hex_pair _ _ = none

-- The octets at the head of a PDU that hold the service centre: strconv.ParseInt of two characters in
-- base 16 and 8 bits. A sign may stand before one digit; what does not fit or parse counts as 0.
unfoldable pub smsc_length : Text → ℤ
smsc_length (a ∷ b ∷ rest) =
    let signed : ℕ = elim (hex_digit b) [ none ↦ 0 | some d ↦ d ] in
    if a == b'+'
    then pos signed
    else if a == b'-'
    then sub_ℕ 0 signed
    else elim (hex_pair (hex_digit a) (hex_digit b)) [
      | none ↦ pos 0
      | some n ↦ if ltb n 128 then pos n else pos 0
    ]
smsc_length _ = pos 0

-- The octets that are left behind the service centre, and 0 where the code refuses the length.
abbrev pub octets_behind : ℕ → ℤ → ℕ
octets_behind octets (pos n) = octets - 1 - n
octets_behind octets (negsuc n) = octets - 1 + suc n

unfoldable pub tpdu_length : Text → ℕ
unfolding smsc_length
tpdu_length pdu = octets_behind (length (trim_space pdu) / 2) (smsc_length pdu)

abbrev pub sms_failure : AtError → Failure
sms_failure (submission_unknown e) = result_unknown e
sms_failure e = at_error e

abbrev pub submitted : Result (List Text) × List Text × Adapter → Except (Unit {0}) × Adapter
submitted (ok lines, urcs, a) = (done tt, handle_urcs urcs a)
submitted (err e, urcs, a) = (failed (sms_failure e), handle_urcs urcs a)

-- A submission of the client, with the adapter as the line handler.
unfoldable pub submission : M (List Text) → Op (Unit {0})
unfolding handle_urcs
submission m a =
    let (result, urcs, c) = m a.client in submitted (result, urcs, record a { client = c })

abbrev refuse : Op Text
refuse a = (failed invalid_message, a)

-- Whether a message goes out as text: a short number and a body in the modem's alphabet, which
-- `sms.CanEncodeGSM7` tells.
abbrev pub goes_as_text : (Text → Bool) → Text → Payload → Bool
goes_as_text can_encode_gsm7 destination payload =
    leb (length destination) 6 && (not (is_nil payload.body) && can_encode_gsm7 payload.body)

-- (*Adapter).SendSMS.
unfoldable pub send_sms : (Text → Bool) → Text → Payload → Op Text
unfolding submission tpdu_length
send_sms can_encode_gsm7 raw_destination payload =
    let destination = trim_space raw_destination in
    if goes_as_text can_encode_gsm7 destination payload
    then submission (send_text destination payload.body) >> mint
    else if is_nil payload.pdu
    then refuse
    else if ltb (length (trim_space payload.pdu) / 2) 2 || tpdu_length payload.pdu == 0
    then refuse
    else submission (send_pdu (tpdu_length payload.pdu) payload.pdu) >> mint

-- hex.DecodeString.
unfoldable pub decode_hex : Text → Option Text
decode_hex [] = some []
decode_hex (a ∷ []) = none
decode_hex (a ∷ b ∷ rest) =
    let later = decode_hex rest in
    elim (hex_pair (hex_digit a) (hex_digit b)) [
      | none ↦ none
      | some octet ↦ elim later [ none ↦ none | some octets ↦ some (octet ∷ octets) ]
    ]

-- modem.RawSMS of the storage MT.
pub record Listed : Type 0 where
  pub modem_index : ℤ
  pub raw_pdu : Text

abbrev pub itoa : ℤ → Text
itoa (pos n) = print_nat n
itoa (negsuc n) = b'-' ∷ print_nat (suc n)

abbrev field_before : Option (Text × Text) → Text → Text
field_before none s = s
field_before (some (a, rest)) s = a

-- The index of a "+CMGL:" line.
unfoldable pub cmgl_index : Text → Option ℤ
unfolding cut atoi trim_space drop
cmgl_index line =
    let fields = trim_space (drop 6 line) in
    atoi (trim_space (field_before (cut fields (txt ",")) fields))

abbrev pub with_pdu : Option Text → ℤ → List Listed × Text → List Listed × Text
with_pdu none index rest = rest
with_pdu (some pdu) index rest = (record { modem_index = index; raw_pdu = pdu } ∷ rest.0, rest.1)

abbrev pub is_header : Text → Bool
is_header line = has_prefix line (txt "+CMGL:")

abbrev pub is_pdu_line : Text → Bool
is_pdu_line line = not (is_final line) && not (has_prefix line (txt "+"))

-- What one line makes of the entry that is open and the last index.
unfoldable pub entry_open : Text → Option ℤ → Text → Option ℤ × Text
entry_open line current last =
    if is_header line
    then elim (cmgl_index line) [ none ↦ (current, last) | some i ↦ (some i, itoa i) ]
    else if is_pdu_line line
    then (none, last)
    else (current, last)

unfoldable pub taken_entry : Text → Option ℤ → List Listed × Text → List Listed × Text
taken_entry line none rest = rest
taken_entry line (some index) rest =
    if not (is_header line) && is_pdu_line line
    then with_pdu (decode_hex (trim_space line)) index rest
    else rest

-- The loop of `ListSMS`: the messages, and the last index seen.
unfoldable pub list_lines : List Text → Option ℤ → Text → List Listed × Text
unfolding cmgl_index decode_hex
list_lines [] current last = ([], last)
list_lines (line ∷ lines) current last =
    taken_entry line current
      (list_lines lines (entry_open line current last).0 (entry_open line current last).1)

-- (*Adapter).ListSMS: the messages, and the cursor, which is the caller's on an error.
unfoldable pub list_sms : Text → Op (List Listed × Text)
unfolding command list_lines
list_sms cursor = do
  command (txt "AT+CPMS=\"MT\"")
  command (txt "AT+CMGF=0")
  lines ← command (txt "AT+CMGL=4")
  pure (list_lines lines none (trim_space cursor))

-- (*Adapter).DeleteSMS.
unfoldable pub delete_sms : Text → Op (Unit {0})
unfolding command
delete_sms index = do
  command (txt "AT+CPMS=\"MT\"")
  command (txt "AT+CMGD=" ++ trim_space index)
  pure tt
