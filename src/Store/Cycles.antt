-- ===== src/Store/Cycles.antt =====
-- db/repo.py, WheelCyclesRepo: the closed cycles, as the risk monitors read them.
use wheelbot.Common.{
  ℕ, Bool, true, false, ◌&&◌, Option, none, some, List, [], ◌∷◌, String, str_eq, leb, if◌then◌else◌,
  select, take,
}
use wheelbot.Common.Int.{ℤ}

-- The columns of `wheel_cycles` that a monitor reads.
pub record Cycle : Type 0 where
  pub account_id : String
  pub strategy_id : String
  pub ended_at : Option ℕ
  pub final_pnl : Option ℤ

-- `ended_at IS NOT NULL AND final_pnl IS NOT NULL`, for one account and strategy.
abbrev pub is_closed_for : String → String → Cycle → Bool
is_closed_for account strategy c =
    str_eq c.account_id account
    && str_eq c.strategy_id strategy
    && elim c.ended_at [ none ↦ false | some _ ↦ true ]
    && elim c.final_pnl [ none ↦ false | some _ ↦ true ]

-- `ended_at`, as the sort key of a cycle that has one.
abbrev ended : Cycle → ℕ
ended c = elim c.ended_at [ none ↦ 0 | some t ↦ t ]

-- Before the first cycle that ended no later than it.
abbrev insert_newest : Cycle → List Cycle → List Cycle
insert_newest c [] = c ∷ []
insert_newest c (d ∷ ds) =
    let rest = insert_newest c ds in if leb (ended d) (ended c) then c ∷ d ∷ ds else d ∷ rest

-- `ORDER BY ended_at DESC`
unfoldable pub newest_first : List Cycle → List Cycle
newest_first [] = []
newest_first (c ∷ cs) = insert_newest c (newest_first cs)

-- `list_closed_for_strategy`: the last closed cycles of a strategy, newest first.
unfoldable pub list_closed_for_strategy :
    (account strategy : String) (limit : ℕ) → List Cycle → List Cycle
unfolding newest_first
list_closed_for_strategy account strategy limit cs =
    take limit (select (is_closed_for account strategy) (newest_first cs))
