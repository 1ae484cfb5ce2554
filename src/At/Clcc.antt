-- ===== src/At/Clcc.antt =====
-- at/adapter.go: what the modem's +CLCC and +CLIP lines say.
pub mod Live
use dontmove_kit.Prelude.{
  ℕ, suc, Bool, true, false, ◌&&◌, ◌||◌, Option, none, some, List, [], ◌∷◌, if◌then◌else◌,
}
use dontmove_kit.Prelude.Int.{ℤ, pos, negsuc, eq_ℤ, leb_ℤ}
use dontmove_kit.Text.{Text, txt, has_prefix, trim_prefix, cut, split, trim_space, atoi}

-- Fields 1 and 2 of the fields behind "+CLCC:"; fewer than three are skipped.
abbrev second_third : List Text → Option (Text × Text)
second_third (id ∷ dir ∷ state ∷ rest) = some (dir, state)
second_third _ = none

unfoldable pub clcc_fields : Text → Option (Text × Text)
unfolding has_prefix trim_prefix split
clcc_fields line =
    if has_prefix line (txt "+CLCC:")
    then second_third (split (trim_prefix line (txt "+CLCC:")) (txt ","))
    else none

-- 0 active, 2 dialing, 3 alerting, 4 incoming, 5 waiting; 1 is a held call.
abbrev pub is_live_state : ℤ → Bool
is_live_state state =
    eq_ℤ state (pos 0)
    || eq_ℤ state (pos 2)
    || eq_ℤ state (pos 3)
    || eq_ℤ state (pos 4)
    || eq_ℤ state (pos 5)

abbrev live_number : Option ℤ → Bool
live_number none = false
live_number (some state) = is_live_state state

abbrev live_fields : Option (Text × Text) → Bool
live_fields none = false
live_fields (some (dir, state)) = live_number (atoi (trim_space state))

-- A line of a call context that is not held or unreadable.
unfoldable pub is_live : Text → Bool
unfolding clcc_fields atoi trim_space
is_live line = live_fields (clcc_fields line)

-- The count at the head of `ReapGhosts`.
unfoldable pub count_ghosts : List Text → ℕ
count_ghosts [] = 0
count_ghosts (line ∷ lines) =
    let rest = count_ghosts lines in if is_live line then suc rest else rest

unfoldable pub clcc_has_live_context : List Text → Bool
clcc_has_live_context [] = false
clcc_has_live_context (line ∷ lines) =
    let rest = clcc_has_live_context lines in if is_live line then true else rest

abbrev active_numbers : ℤ → Option ℤ → Option ℤ → Bool
active_numbers dir (some call_dir) (some state) =
    eq_ℤ state (pos 0) && (leb_ℤ dir (negsuc 0) || eq_ℤ call_dir dir)
active_numbers dir _ _ = false

abbrev active_fields : ℤ → Option (Text × Text) → Bool
active_fields dir none = false
active_fields dir (some (call_dir, state)) =
    active_numbers dir (atoi (trim_space call_dir)) (atoi (trim_space state))

unfoldable pub is_active_line : ℤ → Text → Bool
unfolding clcc_fields atoi trim_space
is_active_line dir line = active_fields dir (clcc_fields line)

-- A negative direction matches either.
unfoldable pub clcc_active : List Text → ℤ → Bool
clcc_active [] dir = false
clcc_active (line ∷ lines) dir =
    let rest = clcc_active lines dir in if is_active_line dir line then true else rest

-- The text between the first two double quotes behind "+CLIP:", or nothing.
unfoldable pub clip_number : Text → Text
unfolding trim_space trim_prefix cut
clip_number line = elim (cut (trim_space (trim_prefix line (txt "+CLIP:"))) (txt "\"")) [
  | none ↦ []
  | some (before, rest) ↦ elim (cut rest (txt "\"")) [ none ↦ [] | some (number, after) ↦ number ]
]
