-- ===== src/Api/Messages/Pages.antt =====
-- api/server.go: the page of a thread.
use dontmove_kit.Prelude.{
  ℕ, zero, suc, ◌+◌, ◌-◌, ◌≡◌, refl, ap, inl, inr, true, List, [], ◌∷◌, ltb, Bool-cases, length,
  slice_from, arith,
}
use dontmove_kit.Api.Messages.{thread_page}

module _ {ℓ} {A : Type ℓ} where
  -- The last `n` of some rows.
  unfoldable pub last_of : ℕ → List A → List A
  last_of n rows = slice_from (length rows - n) rows

  length-slice_from : (n : ℕ) (xs : List A) → length (slice_from n xs) ≡ length xs - n
  length-slice_from zero xs = omega arith
  length-slice_from (suc n) [] = omega arith
  length-slice_from (suc n) (x ∷ xs) = omega (arith, length-slice_from n xs)

  slice_one : (n : ℕ) (xs : List A) → slice_from 1 (slice_from n xs) ≡ slice_from (suc n) xs
  slice_one zero [] = refl
  slice_one zero (x ∷ xs) = refl
  slice_one (suc n) [] = refl
  slice_one (suc n) (x ∷ xs) = slice_one n xs

  -- A database that gives the newest rows of a thread before the cursor, one more than the limit being
  -- asked for, is turned into the page of the newest `limit` rows; X-CellBridge-Has-More says
  -- exactly whether there are older rows than those.
  pub thread_page-last_of :
      (limit : ℕ) (rows : List A)
      → thread_page limit (last_of (limit + 1) rows) ≡ (last_of limit rows, ltb limit (length rows))
  unfolding thread_page last_of
  thread_page-last_of limit rows =
      let given = length-slice_from (length rows - (limit + 1)) rows in
      elim (Bool-cases (ltb limit (length rows))) [
        | inl more ↦
            let full : length (slice_from (length rows - (limit + 1)) rows) ≡ limit + 1 =
              ground arith in
            let beyond : ltb limit (limit + 1) ≡ true = ground arith in
            let one : limit + 1 - limit ≡ 1 = omega arith in
            let next : length rows - limit ≡ suc (length rows - (limit + 1)) = ground arith in
            rw (full, beyond, one, next, more)
              (ap (λ kept. (kept, true)) (slice_one (length rows - (limit + 1)) rows))
        | inr all ↦
            let none_over : length rows - (limit + 1) ≡ 0 = ground arith in
            let none_left : length rows - limit ≡ 0 = ground arith in
            rw (none_over, none_left, all) refl
      ]
