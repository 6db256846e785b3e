-- ===== src/Store/Positions.antt =====
-- db/repo.py, PositionsRepo: the rows of `positions`. The account, the symbol and the strategy are on
-- one row at most, so that a row is named by them where the code names it by its number.
use Prim.Native.Nat.{Ordering}
use Prim.Native.String.{compare}
use wheelbot.Common.{
  Bool, List, Option, String, [], false, true, if◌then◌else◌, none, some, str_eq, ℕ, ◌&&◌, ◌++◌,
  ◌∷◌,
}
use wheelbot.Models.{Position, PositionState, Symbol}

-- A strategy's row on a symbol.
pub record Slot : Type 0 where
  pub account : String
  pub symbol : Symbol
  pub strategy : String

abbrev pub is_at : Slot → Position → Bool
is_at k p =
    str_eq p.account_id k.account && (str_eq p.symbol k.symbol && str_eq p.strategy_id k.strategy)

-- `get_by_symbol`, with a strategy.
unfoldable pub get_by_symbol :
    (account : String) → Symbol → (strategy : String) → List Position → Option Position
get_by_symbol account symbol strategy [] = none
get_by_symbol account symbol strategy (p ∷ ps) =
    let rest = get_by_symbol account symbol strategy ps in
    if str_eq p.account_id account && (str_eq p.symbol symbol && str_eq p.strategy_id strategy)
    then some p
    else rest

-- `update_state` of the row.
unfoldable pub update_state :
    Slot → PositionState → (reason : String) → (when : ℕ) → List Position → List Position
update_state k new_state reason when [] = []
update_state k new_state reason when (p ∷ ps) =
    let rest = update_state k new_state reason when ps in
    if is_at k p
    then record p { state = new_state; state_change_reason = some reason; state_changed_at = when }
      ∷ ps
    else p ∷ rest

-- `insert`
abbrev pub insert : Position → List Position → List Position
insert p ps = ps ++ p ∷ []

-- `symbol <= symbol` in SQLite's order of texts.
abbrev symbol_leb : (a b : Symbol) → Bool
symbol_leb a b = elim (compare a b) [ Ordering.gt ↦ false | _ ↦ true ]

-- `ORDER BY symbol`; rows of one symbol stay in the order of the table.
module _ {ℓ} {A : Type ℓ} (symbol : A → Symbol) where
  abbrev insert_by_symbol : A → List A → List A
  insert_by_symbol x [] = x ∷ []
  insert_by_symbol x (y ∷ ys) =
      let rest = insert_by_symbol x ys in
      if symbol_leb (symbol x) (symbol y) then x ∷ y ∷ ys else y ∷ rest

  abbrev pub by_symbol : List A → List A
  by_symbol [] = []
  by_symbol (x ∷ xs) = insert_by_symbol x (by_symbol xs)
