-- ===== src/At/Client/Rules.antt =====
-- at/parser.go: how a property of a sequence of port operations follows from its parts.
use dontmove_kit.Prelude.{◌≡◌, refl, sym, if◌then◌else◌, Bool, true, false, List, [], ◌∷◌, ◌++◌}
use mathlib.Core.Path.{subst}
use dontmove_kit.Text.{Text}
use dontmove_kit.At.Client.{AtError, write_failed, Result, ok, err, Client, M, ◌>>=◌, ◌>>◌, write}

abbrev pub Outcome : Type 0 → Type 0
Outcome A = Result A × List Text × Client

abbrev pub after : {A : Type 0} → List Text → Outcome A → Outcome A
after lines r = (r.0, lines ++ r.1, r.2)

abbrev pub bound : {A B : Type 0} → (A → M B) → Outcome A → Outcome B
bound f r = elim r.0 [ err e ↦ (err e, r.1, r.2) | ok a ↦ after r.1 (f a r.2) ]

-- A bind by what its first part returned.
pub bind_rule :
    {A B : Type 0} (P : Outcome B → Type 0) (m : M A) (f : A → M B) (c : Client) (r : Outcome A)
    → m c ≡ r
    → ((e : AtError) (lines : List Text) (c' : Client)
        → r ≡ (err e, lines, c')
        → P (err e, lines, c'))
    → ((a : A) (lines : List Text) (c' : Client) → r ≡ (ok a, lines, c') → P (after lines (f a c')))
    → P ((m >>= f) c)
bind_rule P m f c (err e, lines, c') h bad good =
    subst (λ x. P (bound f x)) (sym h) (bad e lines c' refl)
bind_rule P m f c (ok a, lines, c') h bad good =
    subst (λ x. P (bound f x)) (sym h) (good a lines c' refl)

-- The client behind a write that went through.
abbrev pub wrote : Text → Client → Client
wrote text c = record c { sent = c.sent ++ text ∷ [] }

abbrev write_result : Text → Client → Bool → Outcome (Unit {0})
write_result text c b = if b then (ok tt, [], wrote text c) else (err write_failed, [], c)

pub write_rule :
    {B : Type 0} (P : Outcome B → Type 0) (text : Text) (k : M B) (c : Client) (b : Bool)
    → c.accepts c.sent text ≡ b
    → P (err write_failed, [], c)
    → P (k (wrote text c))
    → P ((write text >> k) c)
unfolding write
write_rule P text k c true h bad good =
    subst (λ x. P (bound (λ _. k) (write_result text c x))) (sym h) good
write_rule P text k c false h bad good =
    subst (λ x. P (bound (λ _. k) (write_result text c x))) (sym h) bad
