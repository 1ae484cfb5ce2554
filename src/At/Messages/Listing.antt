-- ===== src/At/Messages/Listing.antt =====
-- at/adapter.go: what a listing of the stored messages is read as.
use dontmove_kit.Prelude.{
  ℕ, ◌+◌, ◌*◌, ◌/◌, ◌%◌, ◌<◌, ◌≡◌, refl, ap, ◌∙◌, true, false, Option, none, some, List, [], ◌∷◌,
  map, arith, if◌then◌else◌, ltb, All,
}
use dontmove_kit.Prelude.Int.{ℤ}
use dontmove_kit.Text.{Text, txt, trim_space}
use dontmove_kit.At.Messages.{
  hex_digit, decode_hex, Listed, itoa, cmgl_index, is_header, is_pdu_line, entry_open, taken_entry,
  list_lines,
}

-- Half an octet as a digit.
abbrev hex_char : ℕ → ℕ
hex_char n = if ltb n 10 then 48 + n else 87 + n

abbrev pub encode_hex : Text → Text
encode_hex [] = []
encode_hex (c ∷ s) = hex_char (c / 16) ∷ hex_char (c % 16) ∷ encode_hex s

abbrev IsOctet : ℕ → Type 0
IsOctet c = c < 256

hex_digit-hex_char : (n : ℕ) → n < 16 → hex_digit (hex_char n) ≡ some n
hex_digit-hex_char n h = ground arith

decode_hex-cons :
    (a b x y : ℕ) (rest t : Text)
    → hex_digit a ≡ some x
    → hex_digit b ≡ some y
    → decode_hex rest ≡ some t
    → decode_hex (a ∷ b ∷ rest) ≡ some ((x * 16 + y) ∷ t)
unfolding decode_hex
decode_hex-cons a b x y rest t ha hb hr = rw (decode_hex, ha, hb, hr) refl

octet_halves : (c : ℕ) → c / 16 * 16 + c % 16 ≡ c
octet_halves c = omega arith

decode_hex-encode_hex : (s : Text) → All IsOctet s → decode_hex (encode_hex s) ≡ some s
unfolding decode_hex
decode_hex-encode_hex [] h = refl
decode_hex-encode_hex (c ∷ s) h =
    decode_hex-cons (hex_char (c / 16)) (hex_char (c % 16)) (c / 16) (c % 16) (encode_hex s) s
      (hex_digit-hex_char (c / 16) (omega (arith, h.0))) (hex_digit-hex_char (c % 16) (omega arith))
      (decode_hex-encode_hex s h.1)
    ∙ ap (λ v. some (v ∷ s)) (octet_halves c)

-- A message as the modem lists it: two lines, and what they say.
pub record Entry : Type 0 where
  pub header : Text
  pub body : Text
  pub index : ℤ
  pub octets : Text

-- The header names the index, and the body has the octets as hexadecimal digits, blanks around them.
pub record IsEntry (e : Entry) : Type 0 where
  pub opens : is_header e.header ≡ true
  pub names : cmgl_index e.header ≡ some e.index
  pub follows : is_header e.body ≡ false
  pub plain : is_pdu_line e.body ≡ true
  pub digits : trim_space e.body ≡ encode_hex e.octets
  pub bounded : All IsOctet e.octets

abbrev pub entry_lines : List Entry → List Text
entry_lines [] = txt "OK" ∷ []
entry_lines (e ∷ es) = e.header ∷ e.body ∷ entry_lines es

abbrev pub listed : Entry → Listed
listed e = record { modem_index = e.index; raw_pdu = e.octets }

abbrev pub last_index : List Entry → Text → Text
last_index [] last = last
last_index (e ∷ es) last = last_index es (itoa e.index)

header_opens :
    (line : Text) (i : ℤ) (last : Text)
    → is_header line ≡ true
    → cmgl_index line ≡ some i
    → entry_open line none last ≡ (some i, itoa i)
unfolding entry_open
header_opens line i last h n = ground arith

body_closes :
    (line : Text) (current : Option ℤ) (last : Text)
    → is_header line ≡ false
    → is_pdu_line line ≡ true
    → entry_open line current last ≡ (none, last)
unfolding entry_open
body_closes line current last h p = ground arith

body_taken :
    (e : Entry) (rest : List Listed × Text)
    → IsEntry e
    → taken_entry e.body (some e.index) rest ≡ (listed e ∷ rest.0, rest.1)
unfolding taken_entry
body_taken e rest h =
    ground
      (arith, h.follows, h.plain, ap decode_hex h.digits, decode_hex-encode_hex e.octets h.bounded)

header_taken : (line : Text) (rest : List Listed × Text) → taken_entry line none rest ≡ rest
unfolding taken_entry
header_taken line rest = refl

ok_last : (last : Text) → list_lines (txt "OK" ∷ []) none last ≡ ([], last)
unfolding list_lines entry_open taken_entry
ok_last last = ground arith

-- A listing of well-formed entries, ended by OK, is read as exactly these messages in order, each
-- with its index and octets; the next cursor is the last index, or the one before if there are none.
pub list_lines-entries :
    (es : List Entry) (last : Text)
    → All IsEntry es
    → list_lines (entry_lines es) none last ≡ (map listed es, last_index es last)
unfolding list_lines
list_lines-entries [] last h = ok_last last
list_lines-entries (e ∷ es) last (h, hs) =
    rw
      (
        header_opens e.header e.index last h.opens h.names,
        body_closes e.body (some e.index) (itoa e.index) h.follows h.plain,
        body_taken e (list_lines (entry_lines es) none (itoa e.index)) h,
        list_lines-entries es (itoa e.index) hs,
      )
      (header_taken e.header (map listed (e ∷ es), last_index (e ∷ es) last))
