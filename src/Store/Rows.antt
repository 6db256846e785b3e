-- ===== src/Store/Rows.antt =====
-- db/repo.py, _Repo: a table whose rows are named by their number, as the reconciler names them. A
-- row's number is its place, counted from zero; rows are only added at the end, so a number stays.
use wheelbot.Common.{Bool, List, Option, [], if◌then◌else◌, length, none, some, suc, zero, ℕ, ◌∷◌}

module _ {ℓ} {A : Type ℓ} where
  -- `SELECT * FROM ... WHERE id = ?`
  unfoldable pub row : ℕ → List A → Option A
  row n [] = none
  row zero (x ∷ xs) = some x
  row (suc n) (x ∷ xs) = row n xs

  -- `_update`
  unfoldable pub update_row : ℕ → (A → A) → List A → List A
  update_row n f [] = []
  update_row zero f (x ∷ xs) = f x ∷ xs
  update_row (suc n) f (x ∷ xs) = x ∷ update_row n f xs

  abbrev pub further : Option (ℕ × A) → Option (ℕ × A)
  further none = none
  further (some (n, x)) = some (suc n, x)

  -- The first row that satisfies a test, with its number: `_fetch_one`.
  unfoldable pub find_row : (A → Bool) → List A → Option (ℕ × A)
  find_row p [] = none
  find_row p (x ∷ xs) = let rest = further (find_row p xs) in if p x then some (zero, x) else rest

-- The number of the next row.
abbrev pub next_id {ℓ} : {A : Type ℓ} → List A → ℕ
next_id xs = length xs
