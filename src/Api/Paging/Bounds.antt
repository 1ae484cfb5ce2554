-- ===== src/Api/Paging/Bounds.antt =====
-- api/server.go: the pages that `pagination` allows.
use dontmove_kit.Prelude.{
  ℕ, ◌≤◌, inl, inr, Option, none, some, leb, ◌&&◌, Bool-cases, is_nil, arith,
}
use dontmove_kit.Prelude.Int.{ℤ, pos, negsuc}
use dontmove_kit.Text.{txt, atoi}
use dontmove_kit.Api.{Request, value_of}
use dontmove_kit.Api.Paging.{Parsed, refused, parsed, pagination, within, both}

abbrev IsLimit : Parsed ℕ → Type 0
IsLimit (refused message) = Unit
IsLimit (parsed limit) = (1 ≤ limit) × (limit ≤ 500)

abbrev pub IsPage : Parsed (ℕ × ℕ) → Type 0
IsPage (refused message) = Unit
IsPage (parsed (after, limit)) = (1 ≤ limit) × (limit ≤ 500)

within-IsLimit : (n : Option ℤ) → IsLimit (within n)
within-IsLimit none = tt
within-IsLimit (some (negsuc n)) = tt
within-IsLimit (some (pos n)) = elim (Bool-cases (leb 1 n && leb n 500)) [
  | inl fits ↦ rw fits (ground arith, ground arith)
  | inr off ↦ rw off tt
]

both-IsPage : (a l : Parsed ℕ) → IsLimit l → IsPage (both a l)
both-IsPage (refused e) l h = tt
both-IsPage (parsed a) (refused e) h = tt
both-IsPage (parsed a) (parsed l) h = h

-- Whatever the query says, a page that is allowed has between 1 and 500 rows.
pub pagination-IsPage : (r : Request) → IsPage (pagination r)
unfolding pagination
pagination-IsPage r =
    let limit = value_of (txt "limit") r.query in
    both-IsPage _ _ (elim (Bool-cases (is_nil limit)) [
      | inl missing ↦ rw missing (omega arith, omega arith)
      | inr given ↦ rw given (within-IsLimit (atoi limit))
    ])
