-- ===== src/Api/Messages/Sending/Limits.antt =====
-- api/server.go: `allowSMSSend` over time.
use dontmove_kit.Prelude.{
  ℕ, ◌+◌, ◌≡◌, refl, ap, ◌∙◌, Bool, true, false, ◌&&◌, Option, none, some, List, [], ◌∷◌, inl, inr,
  leb, if◌then◌else◌, Bool-cases, arith,
}
use mathlib.Core.Path.{subst}
use dontmove_kit.Text.{Text, text_eq}
use dontmove_kit.Text.Laws.{eq_of_text_eq, text_eq_sym}
use dontmove_kit.Api.Messages.Sending.{last_send, note_send, second, is_recent, allow_sms_send}

-- The attempts, each a device and a time, that are let through one after the other.
unfoldable pub allowed_sends : List (Text × ℕ) → List (Text × ℕ) → List (Text × ℕ)
unfolding allow_sms_send
allowed_sends sends [] = []
allowed_sends sends ((device, now) ∷ rest) =
    let r = allow_sms_send device now sends in
    let others = allowed_sends r.1 rest in if r.0 then (device, now) ∷ others else others

abbrev not_before : Option ℕ → ℕ → Bool
not_before none t = true
not_before (some p) t = leb (p + second) t

-- Each send of the device is a second or more behind its last one, `previous` for the first.
unfoldable pub is_spaced : Text → Option ℕ → List (Text × ℕ) → Bool
is_spaced device previous [] = true
is_spaced device previous ((d, t) ∷ rest) =
    let here = not_before previous t && is_spaced device (some t) rest in
    let there = is_spaced device previous rest in if text_eq d device then here else there

last_send-note_send :
    (device d : Text) (t : ℕ) (sends : List (Text × ℕ))
    → last_send device (note_send d t sends)
      ≡ (if text_eq d device then some t else last_send device sends)
unfolding last_send note_send
last_send-note_send device d t [] = refl
last_send-note_send device d t ((e, u) ∷ sends) = elim (Bool-cases (text_eq e d)) [
  | inl same ↦ rw (same, eq_of_text_eq e d same) (ground (arith, Bool-cases (text_eq d device)))
  | inr other ↦ elim (Bool-cases (text_eq e device)) [
    | inr away ↦ rw (other, away) (last_send-note_send device d t sends)
    | inl here ↦
        rw (other, here) (ground (arith, eq_of_text_eq e device here, text_eq_sym e d, other))
  ]
]

is_recent-not_before :
    (t : ℕ) (previous : Option ℕ) → is_recent t previous ≡ false → not_before previous t ≡ true
is_recent-not_before t none h = refl
is_recent-not_before t (some p) h = ground arith

-- Of any run of attempts, by any devices, two that one device gets through are a second apart.
pub allowed_sends-is_spaced :
    (device : Text) (sends attempts : List (Text × ℕ))
    → is_spaced device (last_send device sends) (allowed_sends sends attempts) ≡ true
unfolding is_spaced allowed_sends allow_sms_send
allowed_sends-is_spaced device sends [] = refl
allowed_sends-is_spaced device sends ((d, t) ∷ rest) =
    elim (Bool-cases (is_recent t (last_send d sends))) [
      | inl recent ↦ rw recent (allowed_sends-is_spaced device sends rest)
      | inr free ↦
          let later = allowed_sends-is_spaced device (note_send d t sends) rest in
          let spaced_from = λ (p : Option ℕ).
            is_spaced device p (allowed_sends (note_send d t sends) rest) ≡ true in
          let last_is = λ (b : Bool). if b then some t else last_send device sends in
          let noted = last_send-note_send device d t sends in
          elim (Bool-cases (text_eq d device)) [
            | inr away ↦ rw (free, away) (subst spaced_from (noted ∙ ap last_is away) later)
            | inl here ↦
                let same = eq_of_text_eq d device here in
                let apart =
                  is_recent-not_before t (last_send device sends)
                    (subst (λ e. is_recent t (last_send e sends) ≡ false) same free) in
                rw (free, here, apart) (subst spaced_from (noted ∙ ap last_is here) later)
          ]
    ]
