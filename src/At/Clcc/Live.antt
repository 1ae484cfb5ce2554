-- ===== src/At/Clcc/Live.antt =====
-- at/adapter.go: the three readings of a +CLCC answer agree.
use dontmove_kit.Prelude.{ℕ, ◌≡◌, refl, true, not, List, [], ◌∷◌, arith, ◌==◌}
use dontmove_kit.Prelude.Int.{ℤ, negsuc}
use dontmove_kit.Text.{Text}
use dontmove_kit.At.Clcc.{is_live, count_ghosts, clcc_has_live_context, is_active_line, clcc_active}

-- The janitor's first look and its later ones agree: a context is live exactly if one is counted.
pub clcc_has_live_context-count_ghosts :
    (lines : List Text) → clcc_has_live_context lines ≡ not (count_ghosts lines == 0)
unfolding clcc_has_live_context count_ghosts
clcc_has_live_context-count_ghosts [] = refl
clcc_has_live_context-count_ghosts (line ∷ lines) =
    ground (arith, clcc_has_live_context-count_ghosts lines)

is_active_line-is_live :
    (dir : ℤ) (line : Text) → is_active_line dir line ≡ true → is_live line ≡ true
unfolding is_active_line is_live
is_active_line-is_live dir line h = ground arith

is_active_line_any :
    (dir : ℤ) (n : ℕ) (line : Text)
    → is_active_line dir line ≡ true
    → is_active_line (negsuc n) line ≡ true
unfolding is_active_line
is_active_line_any dir n line h = ground arith

-- A call that is active in some direction is active in any, and the janitor sees it as live.
pub clcc_active_live :
    (lines : List Text) (dir : ℤ) (n : ℕ)
    → clcc_active lines dir ≡ true
    → (clcc_active lines (negsuc n) ≡ true) × (clcc_has_live_context lines ≡ true)
unfolding clcc_active clcc_has_live_context
clcc_active_live [] dir n h = cc
clcc_active_live (line ∷ lines) dir n h = ground (
  arith,
  is_active_line-is_live dir line,
  is_active_line_any dir n line,
  clcc_active_live lines dir n,
)
