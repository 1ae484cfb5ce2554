-- ===== src/Text/Laws.antt =====
-- Laws of the text functions: equality, prefixes, blanks and cuts.
use dontmove_kit.Prelude.{
  ℕ, ◌≡◌, refl, true, false, ◌&&◌, some, [], ◌∷◌, ◌++◌, arith, if◌then◌else◌, length, is_nil, inl,
  inr, Option-cases, Bool-cases, ◌↔◌, all, leb, List,
}
use dontmove_kit.Text.{
  is_ascii, runes, runes_from, reversed_onto, Text, text_eq, has_prefix, drop, cut, is_space,
  trim_left, trim_right, trim_space, contains,
}

pub text_eq_refl : (s : Text) → text_eq s s ≡ true
unfolding text_eq
text_eq_refl [] = refl
text_eq_refl (c ∷ s) = ground (arith, text_eq_refl s)

pub eq_of_text_eq : (s t : Text) → text_eq s t ≡ true → s ≡ t
unfolding text_eq
eq_of_text_eq [] [] h = refl
eq_of_text_eq [] (d ∷ t) h = cc
eq_of_text_eq (c ∷ s) [] h = cc
eq_of_text_eq (c ∷ s) (d ∷ t) h = ground (arith, eq_of_text_eq s t)

pub text_eq_iff : (s t : Text) → (text_eq s t ≡ true) ↔ (s ≡ t)
text_eq_iff s t = (eq_of_text_eq s t, λ e. rw e (text_eq_refl t))

pub has_prefix-append : (p s : Text) → has_prefix (p ++ s) p ≡ true
unfolding has_prefix
has_prefix-append [] [] = refl
has_prefix-append [] (c ∷ s) = refl
has_prefix-append (c ∷ p) s = ground (arith, has_prefix-append p s)

pub drop-append : (p s : Text) → drop (length p) (p ++ s) ≡ s
unfolding drop
drop-append [] s = refl
drop-append (c ∷ p) s = drop-append p s

pub append-drop_of_has_prefix : (s p : Text) → has_prefix s p ≡ true → s ≡ p ++ drop (length p) s
unfolding has_prefix drop
append-drop_of_has_prefix [] [] h = refl
append-drop_of_has_prefix (c ∷ s) [] h = refl
append-drop_of_has_prefix [] (d ∷ p) h = cc
append-drop_of_has_prefix (c ∷ s) (d ∷ p) h = ground (arith, append-drop_of_has_prefix s p)

-- A cut gives back the text.
pub cut-append : (s p a b : Text) → cut s p ≡ some (a, b) → s ≡ a ++ (p ++ b)
unfolding cut
cut-append [] [] a b h = ground arith
cut-append [] (d ∷ p) a b h = cc
cut-append (c ∷ s) p a b h = elim (Bool-cases (has_prefix (c ∷ s) p)) [
  | inl e ↦ ground (arith, append-drop_of_has_prefix (c ∷ s) p e)
  | inr e ↦ elim (Option-cases (cut s p)) [
    | inl n ↦ ground arith
    | inr ((l, r), m) ↦ ground (arith, cut-append s p l r m)
  ]
]

-- A text does not start with a blank.
abbrev pub NoBlankFirst : Text → Type 0
NoBlankFirst [] = Unit
NoBlankFirst (c ∷ s) = is_space c ≡ false

trim_left-NoBlankFirst : (s : Text) → NoBlankFirst (trim_left s)
unfolding trim_left
trim_left-NoBlankFirst [] = tt
trim_left-NoBlankFirst (c ∷ s) = elim (Bool-cases (is_space c)) [
  | inl e ↦ rw e (trim_left-NoBlankFirst s)
  | inr e ↦ rw e e
]

pub trim_left_self : (s : Text) → NoBlankFirst s → trim_left s ≡ s
unfolding trim_left
trim_left_self [] h = refl
trim_left_self (c ∷ s) h = rw h

trim_right-NoBlankFirst : (s : Text) → NoBlankFirst s → NoBlankFirst (trim_right s)
unfolding trim_right
trim_right-NoBlankFirst [] h = h
trim_right-NoBlankFirst (c ∷ s) h =
    elim (trim_right s) as (λ t. NoBlankFirst (if is_nil t && is_space c then [] else c ∷ t)) [
      | [] ↦ rw h h
      | d ∷ t ↦ h
    ]

trim_right_idem : (s : Text) → trim_right (trim_right s) ≡ trim_right s
unfolding trim_right
trim_right_idem [] = refl
trim_right_idem (c ∷ s) = ground (arith, trim_right_idem s)

-- strings.TrimSpace is idempotent.
pub trim_space_idem : (s : Text) → trim_space (trim_space s) ≡ trim_space s
unfolding trim_space
trim_space_idem s =
    rw
      (trim_left_self (trim_right (trim_left s))
        (trim_right-NoBlankFirst (trim_left s) (trim_left-NoBlankFirst s)))
      (trim_right_idem (trim_left s))

contains-cons : (c : ℕ) (s p : Text) → contains s p ≡ true → contains (c ∷ s) p ≡ true
unfolding contains
contains-cons c s p h = elim (Bool-cases (has_prefix (c ∷ s) p)) [
  | inl e ↦ rw (e, cut)
  | inr e ↦ elim (Option-cases (cut s p)) [
    | inl n ↦ ground arith
    | inr ((l, r), m) ↦ rw (e, cut) (rw m)
  ]
]

contains_of_has_prefix : (s p : Text) → has_prefix s p ≡ true → contains s p ≡ true
unfolding contains
contains_of_has_prefix [] [] h = refl
contains_of_has_prefix [] (d ∷ p) h = unfold has_prefix in cc h
contains_of_has_prefix (c ∷ s) p h = rw (h, cut)

contains-later :
    (c : ℕ) (s p : Text)
    → has_prefix (c ∷ s) p ≡ false
    → contains (c ∷ s) p ≡ true
    → contains s p ≡ true
unfolding contains
contains-later c s p e h = elim (Option-cases (cut s p)) [
  | inl n ↦ ground (arith, n, e)
  | inr ((l, r), m) ↦ rw m
]

-- What contains a text contains its tail.
pub contains_tail : (s p : Text) (c : ℕ) → contains s (c ∷ p) ≡ true → contains s p ≡ true
unfolding contains
contains_tail [] p c h = cc h
contains_tail (d ∷ s) p c h = elim (Bool-cases (has_prefix (d ∷ s) (c ∷ p))) [
  | inl e ↦ contains-cons d s p (contains_of_has_prefix s p (tail e))
  | inr e ↦ contains-cons d s p (contains_tail s p c (contains-later d s (c ∷ p) e h))
]
  where
    tail : has_prefix (d ∷ s) (c ∷ p) ≡ true → has_prefix s p ≡ true
    tail e = unfold has_prefix in ground arith

pub text_eq_sym : (s t : Text) → text_eq s t ≡ text_eq t s
unfolding text_eq
text_eq_sym [] [] = refl
text_eq_sym [] (d ∷ t) = refl
text_eq_sym (c ∷ s) [] = refl
text_eq_sym (c ∷ s) (d ∷ t) = ground (arith, text_eq_sym s t)

runes_from_ascii :
    (rs : List ℕ) (s : Text) → all is_ascii s ≡ true → runes_from rs s ≡ reversed_onto s rs
unfolding runes_from
runes_from_ascii rs [] h = refl
runes_from_ascii [] (c ∷ s) h =
    let ascii : is_ascii c ≡ true = ground (arith, h) in
    rw ascii (runes_from_ascii (c ∷ []) s (ground (arith, h)))
runes_from_ascii (r ∷ rs) (c ∷ s) h =
    let ascii : is_ascii c ≡ true = ground (arith, h) in
    let low : leb 128 c ≡ false = ground (arith, h) in
    rw (ascii, low) (runes_from_ascii (c ∷ r ∷ rs) s (ground (arith, h)))

-- The runes of a text in ASCII are its bytes.
pub runes_same : (s : Text) → all is_ascii s ≡ true → runes s ≡ s
unfolding runes
runes_same s h = runes_from_ascii [] s h
