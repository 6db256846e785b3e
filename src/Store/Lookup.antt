-- ===== src/Store/Lookup.antt =====
-- db/repo.py, OrdersRepo and PositionsRepo: what a lookup finds after an insert or an update.
use wheelbot.Common.{
  Bool, List, Option, String, [], arith, eq_iff, false, none, refl, some, str_eq, true, ℕ, ◌&&◌,
  ◌++◌, ◌∷◌, ◌≡◌, Option-cases, inl, inr,
}
use wheelbot.Models.{Order, Position, PositionState}
use wheelbot.Common.Ratio.{Ratio}
use wheelbot.Store.Positions.{Slot, get_by_symbol, is_at, update_state}
use wheelbot.Store.Orders.{get_by_client_id, has_client, update}

pub has_client-eq : (c d : String) (o : Order) → has_client c o ≡ true → has_client d o ≡ str_eq c d
has_client-eq c d o h = elim (Option-cases o.client_order_id) [
  | inl q ↦ ground arith
  | inr (x, q) ↦ ground (arith, eq_iff x c)
]

-- An insert at the end.
pub get_by_client_id-append :
    (c : String) (o : Order) (os : List Order)
    → get_by_client_id c os ≡ none
    → has_client c o ≡ true
    → get_by_client_id c (os ++ o ∷ []) ≡ some o
unfolding get_by_client_id
get_by_client_id-append c o [] e h = ground arith
get_by_client_id-append c o (x ∷ os) e h = ground (arith, get_by_client_id-append c o os)

pub get_by_client_id-append_other :
    (c : String) (o : Order) (os : List Order)
    → has_client c o ≡ false
    → get_by_client_id c (os ++ o ∷ []) ≡ get_by_client_id c os
unfolding get_by_client_id
get_by_client_id-append_other c o [] h = ground arith
get_by_client_id-append_other c o (x ∷ os) h =
    ground (arith, get_by_client_id-append_other c o os h)

-- An update that leaves the client's ids.
module _ (f : Order → Order) (keeps : (o : Order) → (f o).client_order_id ≡ o.client_order_id) where
  keeps-has_client : (c : String) (o : Order) → has_client c (f o) ≡ has_client c o
  keeps-has_client c o = rw (keeps o) refl

  pub get_by_client_id-update :
      (c : String) (x : Order) (os : List Order)
      → get_by_client_id c os ≡ some x
      → get_by_client_id c (update c f os) ≡ some (f x)
  unfolding get_by_client_id update
  get_by_client_id-update c x [] e = ground arith
  get_by_client_id-update c x (o ∷ os) e =
      ground (arith, keeps-has_client c o, get_by_client_id-update c x os)

  pub get_by_client_id-update_other :
      (c d : String) (os : List Order)
      → str_eq c d ≡ false
      → get_by_client_id d (update c f os) ≡ get_by_client_id d os
  unfolding get_by_client_id update
  get_by_client_id-update_other c d [] n = refl
  get_by_client_id-update_other c d (o ∷ os) n =
      ground
        (arith, keeps-has_client d o, has_client-eq c d o, get_by_client_id-update_other c d os n)

-- What a position's row holds of the account, whatever its state.
abbrev pub holding : Option Position → ℕ × Option Ratio × Option ℕ
holding none = (0, none, none)
holding (some p) = (p.shares, p.cost_basis, p.current_cycle_id)

abbrev pub find : Slot → List Position → Option Position
find k ps = get_by_symbol k.account k.symbol k.strategy ps

abbrev pub same_slot : Slot → Slot → Bool
same_slot j k =
    str_eq j.account k.account && (str_eq j.symbol k.symbol && str_eq j.strategy k.strategy)

is_at-same : (j k : Slot) (p : Position) → is_at j p ≡ true → is_at k p ≡ same_slot j k
is_at-same j k p h = ground (
  arith,
  eq_iff p.account_id j.account,
  eq_iff p.symbol j.symbol,
  eq_iff p.strategy_id j.strategy,
)

module _ (k : Slot) (s : PositionState) (reason : String) (when : ℕ) where
  pub find-update_state :
      (p : Position) (ps : List Position)
      → find k ps ≡ some p
      → find k (update_state k s reason when ps)
        ≡ some (record p { state = s; state_change_reason = some reason; state_changed_at = when })
  unfolding get_by_symbol update_state
  find-update_state p [] e = ground arith
  find-update_state p (q ∷ ps) e = ground (arith, find-update_state p ps)

  pub find-update_state_other :
      (j : Slot) (ps : List Position)
      → same_slot k j ≡ false
      → find j (update_state k s reason when ps) ≡ find j ps
  unfolding get_by_symbol update_state
  find-update_state_other j [] n = refl
  find-update_state_other j (q ∷ ps) n =
      ground (arith, is_at-same k j q, find-update_state_other j ps n)

pub find-append :
    (k : Slot) (p : Position) (ps : List Position)
    → find k ps ≡ none
    → is_at k p ≡ true
    → find k (ps ++ p ∷ []) ≡ some p
unfolding get_by_symbol
find-append k p [] e h = ground arith
find-append k p (q ∷ ps) e h = ground (arith, find-append k p ps)

pub find-append_other :
    (k : Slot) (p : Position) (ps : List Position)
    → is_at k p ≡ false
    → find k (ps ++ p ∷ []) ≡ find k ps
unfolding get_by_symbol
find-append_other k p [] h = ground arith
find-append_other k p (q ∷ ps) h = ground (arith, find-append_other k p ps h)
