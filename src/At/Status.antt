-- ===== src/At/Status.antt =====
-- at/adapter.go: how the modem's status answers are read.
pub mod Readings
use dontmove_kit.Prelude.{
  ℕ, ◌+◌, ◌*◌, Bool, true, false, not, ◌&&◌, ◌||◌, Option, none, some, List, [], ◌∷◌, ◌==◌,
  if◌then◌else◌, is_nil,
}
use dontmove_kit.Prelude.Int.{ℤ, pos, negsuc, pos_part, neg_part, sub_ℕ, eq_ℤ, leb_ℤ}
use dontmove_kit.Text.{
  Text, txt, text_eq, has_prefix, contains, cut, trim_space, to_lower, atoi, after_last,
}
use dontmove_kit.At.Parser.{is_final}

-- The first line that is neither empty, final nor an echoed command.
unfoldable pub payload : List Text → Text
unfolding trim_space text_eq is_final has_prefix
payload [] = []
payload (raw ∷ lines) =
    let line = trim_space raw in
    let rest = payload lines in
    if not (is_nil line)
      && (not (text_eq line (txt "OK"))
          && (not (is_final line) && not (has_prefix line (txt "AT"))))
    then line
    else rest

pub data SimState : Type 0 where
  ready locked absent unknown_sim : SimState

unfoldable pub normalize_sim : Text → SimState
normalize_sim value =
    let lower = to_lower value in
    if contains lower (txt "ready")
    then ready
    else if contains lower (txt "pin") || contains lower (txt "puk")
    then locked
    else if contains lower (txt "not ready")
    then absent
    else unknown_sim

pub data Registration : Type 0 where
  registered searching denied unknown_registration : Registration

unfoldable pub last_field : Text → Text
unfolding after_last trim_space
last_field value = elim (after_last b',' value) [ none ↦ value | some rest ↦ trim_space rest ]

unfoldable pub normalize_registration : Text → Registration
unfolding last_field trim_space text_eq
normalize_registration value =
    let field = last_field (trim_space value) in
    if text_eq field (txt "1") || text_eq field (txt "5")
    then registered
    else if text_eq field (txt "2")
    then searching
    else if text_eq field (txt "3")
    then denied
    else unknown_registration

-- The text behind the first colon, and the text before the first comma.
abbrev behind_colon : Option (Text × Text) → Text → Text
behind_colon none value = value
behind_colon (some (before, rest)) value = trim_space rest

abbrev before_comma : Option (Text × Text) → Text → Text
before_comma none value = value
before_comma (some (before, rest)) value = before

unfoldable pub rssi_field : Text → Text
unfolding trim_space cut
rssi_field value =
    let trimmed = trim_space value in
    let behind = behind_colon (cut trimmed (txt ":")) trimmed in
    trim_space (before_comma (cut behind (txt ",")) behind)

-- -113 + 2 n.
abbrev pub dbm : ℤ → ℤ
dbm n = sub_ℕ (pos_part n * 2) (113 + neg_part n * 2)

abbrev rssi_of : Option ℤ → ℤ
rssi_of none = pos 0
rssi_of (some n) = if eq_ℤ n (pos 99) then pos 0 else dbm n

unfoldable pub parse_rssi : Text → ℤ
unfolding rssi_field atoi
parse_rssi value = rssi_of (atoi (rssi_field value))

unfoldable pub signal_bars : ℤ → ℕ
signal_bars rssi =
    if leb_ℤ (negsuc 74) rssi
    then 4
    else if leb_ℤ (negsuc 89) rssi
    then 3
    else if leb_ℤ (negsuc 104) rssi
    then 2
    else if not (leb_ℤ rssi (negsuc 112))
    then 1
    else 0
