-- ===== src/Store/Orders.antt =====
-- db/repo.py, OrdersRepo: the rows of `orders`. A client's id is on one row at most, so that a row is
-- named by it where the code names it by its number.
use wheelbot.Common.{
  Bool, List, Option, String, [], false, if◌then◌else◌, leb, none, select, some, str_eq, ◌&&◌, ◌∷◌,
}
use wheelbot.Models.{Order}
use wheelbot.PaperBroker.{is_open}

-- `client_order_id = ?`: NULL is equal to nothing.
abbrev pub has_client : String → Order → Bool
has_client c o = elim o.client_order_id [ none ↦ false | some d ↦ str_eq d c ]

unfoldable pub get_by_client_id : String → List Order → Option Order
get_by_client_id c [] = none
get_by_client_id c (o ∷ os) =
    let rest = get_by_client_id c os in if has_client c o then some o else rest

-- `update` of the row that carries the client's id.
unfoldable pub update : String → (Order → Order) → List Order → List Order
update c f [] = []
update c f (o ∷ os) = let rest = update c f os in if has_client c o then f o ∷ os else o ∷ rest

abbrev pub insert_oldest : Order → List Order → List Order
insert_oldest o [] = o ∷ []
insert_oldest o (p ∷ ps) =
    let rest = insert_oldest o ps in if leb o.placed_at p.placed_at then o ∷ p ∷ ps else p ∷ rest

-- `ORDER BY placed_at`
unfoldable pub oldest_first : List Order → List Order
oldest_first [] = []
oldest_first (o ∷ os) = insert_oldest o (oldest_first os)

-- `list_pending`: an account's orders that are PENDING or PARTIAL.
unfoldable pub list_pending : (account : String) → List Order → List Order
unfolding oldest_first
list_pending account os =
    select (λ o. str_eq o.account_id account && is_open o.status) (oldest_first os)
