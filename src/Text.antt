-- ===== src/Text.antt =====
-- Go's `strings` and `strconv` functions that the gateway uses, over texts as lists of bytes: case and
-- white space are those of ASCII.
pub mod Laws
pub mod Numbers
use Prim.Native.Char.{code}
use Prim.Native.String.{String}
use dontmove_kit.Prelude.Int.{ℤ, pos, sub_ℕ}
use dontmove_kit.Prelude.{
  ℕ, zero, suc, ◌+◌, ◌-◌, ◌*◌, ◌/◌, ◌%◌, Bool, true, false, ◌&&◌, ◌||◌, Option, none, some, List,
  [], ◌∷◌, map, leb, ltb, ◌==◌, if◌then◌else◌, length, is_nil, take,
}

abbrev pub Text : Type 0
Text = List ℕ

-- A text literal.
abbrev pub txt : String → Text
txt String.[] = []
txt (String.◌∷◌ c s) = code c ∷ txt s

unfoldable pub text_eq : Text → Text → Bool
text_eq [] [] = true
text_eq [] (d ∷ t) = false
text_eq (c ∷ s) [] = false
text_eq (c ∷ s) (d ∷ t) = c == d && text_eq s t

-- strings.HasPrefix, the prefix second.
unfoldable pub has_prefix : Text → Text → Bool
has_prefix s [] = true
has_prefix [] (d ∷ p) = false
has_prefix (c ∷ s) (d ∷ p) = c == d && has_prefix s p

-- The text behind a prefix of this length: `s[n:]`.
unfoldable pub drop : ℕ → Text → Text
drop zero s = s
drop (suc n) [] = []
drop (suc n) (c ∷ s) = drop n s

-- strings.TrimPrefix.
unfoldable pub trim_prefix : Text → Text → Text
unfolding has_prefix drop
trim_prefix s p = if has_prefix s p then drop (length p) s else s

unfoldable pub has_suffix : Text → Text → Bool
unfolding has_prefix drop
has_suffix s p = leb (length p) (length s) && text_eq (drop (length s - length p) s) p

-- strings.TrimSuffix.
unfoldable pub trim_suffix : Text → Text → Text
unfolding has_suffix
trim_suffix s p = if has_suffix s p then take (length s - length p) s else s

-- What stands before and behind the first occurrence of `p`: strings.Index and the two slices.
unfoldable pub cut : Text → Text → Option (Text × Text)
unfolding has_prefix drop
cut [] p = if is_nil p then some ([], []) else none
cut (c ∷ s) p =
    let later = cut s p in
    if has_prefix (c ∷ s) p
    then some ([], drop (length p) (c ∷ s))
    else elim later [ none ↦ none | some (a, b) ↦ some (c ∷ a, b) ]

abbrev pub is_found : Option (Text × Text) → Bool
is_found none = false
is_found (some (a, b)) = true

-- strings.Contains.
unfoldable pub contains : Text → Text → Bool
unfolding cut
contains s p = is_found (cut s p)

-- What stands behind the last such byte: strings.LastIndex and the slice.
unfoldable pub after_last : ℕ → Text → Option Text
after_last b [] = none
after_last b (c ∷ s) = elim (after_last b s) [
  | some rest ↦ some rest
  | none ↦ if c == b then some s else none
]

-- unicode.IsSpace on ASCII: tab, newline, vertical tab, form feed, return, space.
unfoldable pub is_space : ℕ → Bool
is_space c = leb 9 c && leb c 13 || c == 32

unfoldable pub trim_left : Text → Text
unfolding is_space
trim_left [] = []
trim_left (c ∷ s) = let rest = trim_left s in if is_space c then rest else c ∷ s

-- strings.TrimRight of blanks: a blank goes if nothing but blanks follows.
unfoldable pub trim_right : Text → Text
unfolding is_space
trim_right [] = []
trim_right (c ∷ s) = let rest = trim_right s in if is_nil rest && is_space c then [] else c ∷ rest

-- strings.TrimSpace.
unfoldable pub trim_space : Text → Text
unfolding trim_left trim_right
trim_space s = trim_right (trim_left s)

-- strings.ToLower on ASCII.
unfoldable pub lower_byte : ℕ → ℕ
lower_byte c = if leb b'A' c && leb c b'Z' then c + 32 else c

unfoldable pub to_lower : Text → Text
unfolding lower_byte
to_lower = map lower_byte

unfoldable pub upper_byte : ℕ → ℕ
upper_byte c = if leb b'a' c && leb c b'z' then c - 32 else c

unfoldable pub to_upper : Text → Text
unfolding upper_byte
to_upper = map upper_byte

-- strings.EqualFold on ASCII.
unfoldable pub equal_fold : Text → Text → Bool
unfolding text_eq to_lower
equal_fold s t = text_eq (to_lower s) (to_lower t)

-- strings.Split on rounds of fuel; a text of length n needs n + 1 of them (Text/Splitting).
unfoldable pub split_fuel : ℕ → Text → Text → List Text
split_fuel zero s sep = s ∷ []
split_fuel (suc f) s sep = elim (cut s sep) [ none ↦ s ∷ [] | some (a, b) ↦ a ∷ split_fuel f b sep ]

unfoldable pub split : Text → Text → List Text
unfolding split_fuel cut
split s sep = split_fuel (suc (length s)) s sep

-- The first word, up to a blank, and the rest.
unfoldable pub take_word : Text → Text × Text
unfolding is_space
take_word [] = ([], [])
take_word (c ∷ s) = let rest = take_word s in if is_space c then ([], s) else (c ∷ rest.0, rest.1)

-- strings.Fields on rounds of fuel.
unfoldable pub fields_fuel : ℕ → Text → List Text
fields_fuel zero s = []
fields_fuel (suc f) s = elim (trim_left s) [
  | [] ↦ []
  | c ∷ rest ↦ (take_word (c ∷ rest)).0 ∷ fields_fuel f (take_word (c ∷ rest)).1
]

unfoldable pub fields : Text → List Text
unfolding fields_fuel trim_left take_word
fields s = fields_fuel (suc (length s)) s

abbrev pub is_digit : ℕ → Bool
is_digit c = leb b'0' c && leb c b'9'

-- The digits of a text as a number, read from the left.
unfoldable pub digits_value : ℕ → Text → Option ℕ
digits_value acc [] = some acc
digits_value acc (c ∷ s) =
    let rest = digits_value (acc * 10 + (c - 48)) s in if is_digit c then rest else none

-- A number as decimal digits: fmt's %d of a value that is not negative.
unfoldable pub print_fuel : ℕ → ℕ → Text → Text
print_fuel zero n acc = acc
print_fuel (suc f) n acc =
    let rest = print_fuel f (n / 10) ((48 + n % 10) ∷ acc) in
    if ltb n 10 then (48 + n) ∷ acc else rest

unfoldable pub print_nat : ℕ → Text
unfolding print_fuel
print_nat n = print_fuel (suc n) n []

-- The bound of Go's 64-bit `int`.
abbrev pub int_limit : ℕ
int_limit = 9223372036854775808

abbrev in_range : ℕ → Option ℕ → Option ℤ
in_range top none = none
in_range top (some n) = if ltb n top then some (pos n) else none

abbrev negated : Option ℕ → Option ℤ
negated none = none
negated (some n) = if leb n int_limit then some (sub_ℕ 0 n) else none

-- The digits behind a sign; no digit at all is an error.
abbrev unsigned : Text → Option ℕ
unsigned [] = none
unsigned (c ∷ s) = digits_value 0 (c ∷ s)

-- strconv.Atoi; `none` is an error of syntax or range.
unfoldable pub atoi : Text → Option ℤ
unfolding digits_value
atoi [] = none
atoi (c ∷ s) =
    if c == b'-'
    then negated (unsigned s)
    else if c == b'+'
    then in_range int_limit (unsigned s)
    else in_range int_limit (unsigned (c ∷ s))

abbrev pub is_ascii : ℕ → Bool
is_ascii c = ltb c 128

-- The bits that a byte gives a rune's code point: a UTF-8 leading byte.
abbrev leading_bits : ℕ → ℕ
leading_bits c =
    if ltb c 128 then c else if ltb c 224 then c - 192 else if ltb c 240 then c - 224 else c - 240

abbrev with_byte : ℕ → List ℕ → List ℕ
with_byte c [] = if ltb c 128 || leb 192 c then leading_bits c ∷ [] else 65533 ∷ []
with_byte c (r ∷ rs) =
    if leb 128 c && ltb c 192 then (r * 64 + (c - 128)) ∷ rs else leading_bits c ∷ r ∷ rs

abbrev reversed_onto : List ℕ → List ℕ → List ℕ
reversed_onto rs [] = rs
reversed_onto rs (x ∷ xs) = reversed_onto (x ∷ rs) xs

-- The runes of a text behind those read already, which are in reverse.
unfoldable pub runes_from : List ℕ → Text → List ℕ
runes_from rs [] = reversed_onto [] rs
runes_from rs (c ∷ s) = runes_from (with_byte c rs) s

-- []rune(s) of a text that is UTF-8, as all that a JSON decoder gives.
unfoldable pub runes : Text → List ℕ
unfolding runes_from
runes = runes_from []
