-- ===== src/Sip/Message/Users.antt =====
-- sip/server.go, extractSIPUser: which headers it cannot read.
use dontmove_kit.Prelude.{◌≡◌, refl, true, false, none, some, [], ◌∷◌, arith, ◌↔◌, is_nil, all}
use dontmove_kit.Text.{Text, txt, cut, contains, fields, fields_fuel, is_space, trim_left}
use dontmove_kit.Sip.Message.{extract_sip_user}

trim_left_blank : (s : Text) → is_nil (trim_left s) ≡ all is_space s
unfolding trim_left
trim_left_blank [] = refl
trim_left_blank (c ∷ s) = ground (arith, trim_left_blank s)

fields_blank : (s : Text) → is_nil (fields s) ≡ all is_space s
unfolding fields fields_fuel
fields_blank s = ground (arith, trim_left_blank s)

-- A "sip:" behind which no "@" and no ">" stands, and nothing but blanks.
abbrev pub IsUnreadable : Text → Type 0
IsUnreadable rest =
    (contains rest (txt "@") ≡ false)
    × (contains rest (txt ">") ≡ false)
    × (all is_space rest ≡ true)

-- The code panics on a header with a "sip:" exactly if what follows the first one has no "@", no ">"
-- and nothing but blanks: then the words of the rest are indexed, and there are none.
pub extract_sip_user-none :
    (hdr skipped rest : Text)
    → cut hdr (txt "sip:") ≡ some (skipped, rest)
    → (extract_sip_user hdr ≡ none) ↔ IsUnreadable rest
unfolding extract_sip_user contains
extract_sip_user-none hdr skipped rest h =
    rw (extract_sip_user, h) (ground (arith, fields_blank rest))
