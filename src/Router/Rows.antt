-- ===== src/Router/Rows.antt =====
-- execution/router.py, the two `_upsert_position_*`: which rows they write.
use mathlib.Core.Path.{subst}
use wheelbot.Store.Lookup.{
  find, find-append, find-append_other, find-update_state, find-update_state_other, holding,
  same_slot,
}
use wheelbot.RiskGate.Defs.{AnyProposal, multi, single, is_buy_to_open, is_sell_to_open}
use wheelbot.Common.{
  Bool-cases, List, Option, Option-cases, String, ap, arith, eq_refl, false, inl, inr, none, refl,
  some, str_eq, sym, true, ℕ, ◌&&◌, ◌∙◌, ◌≡◌, eq_iff, if◌then◌else◌, Bool, ◌||◌,
}
use wheelbot.Models.{
  Order, Position, PositionState, cc_pending, csp_pending, pmcc_long_pending, pmcc_short_pending,
  spread_pending, swing_pending, OrderType, Proposal, is_put,
}
use wheelbot.Router.Defs.{OrderRouter}
use wheelbot.Store.Positions.{Slot, insert, is_at, update_state}
use wheelbot.RiskGate.Screens.{is_buy_to_close, is_swing_id}
use wheelbot.Router.Submit.{is_multi_open}
use wheelbot.Router.Persist.{
  new_row, put_state, slot_of, upsert_position, upsert_position_pending,
  upsert_position_spread_pending, new_state, next_state, pending_state_for, reason_of,
}
use wheelbot.Reconciler.Fills.{is_pmcc, is_swing}

abbrev state_of : Option Position → Option PositionState
state_of none = none
state_of (some p) = some p.state

-- The state of a slot's row, if there is one.
abbrev state_at : Slot → List Position → Option PositionState
state_at k ps = state_of (find k ps)

abbrev new_or_next : (if_new if_there : PositionState) → Option Position → PositionState
new_or_next a b none = a
new_or_next a b (some p) = b

module _ (now : ℕ) (k : Slot) (a b : PositionState) (reason : String) (ps : List Position) where
  put_state-new :
      find k ps ≡ none → put_state k a b now reason ps ≡ insert (new_row k a now reason) ps
  unfolding put_state
  put_state-new e = rw (e, put_state) refl

  put_state-there :
      (p : Position)
      → find k ps ≡ some p
      → put_state k a b now reason ps ≡ update_state k b reason now ps
  unfolding put_state
  put_state-there p e = rw (e, put_state) refl

  new_row-at : is_at k (new_row k a now reason) ≡ true
  new_row-at = ground (arith, eq_refl k.account, eq_refl k.symbol, eq_refl k.strategy)

  -- Found again: the new row, or the row that was there in its new state.
  pub find-new :
      find k ps ≡ none → find k (put_state k a b now reason ps) ≡ some (new_row k a now reason)
  find-new e = rw (put_state-new e) (find-append k (new_row k a now reason) ps e new_row-at)

  pub find-there :
      (p : Position)
      → find k ps ≡ some p
      → find k (put_state k a b now reason ps)
        ≡ some (record p { state = b; state_change_reason = some reason; state_changed_at = now })
  find-there p e = rw (put_state-there p e) (find-update_state k b reason now p ps e)

  put_state-holding : holding (find k (put_state k a b now reason ps)) ≡ holding (find k ps)
  put_state-holding = elim (Option-cases (find k ps)) [
    | inl e ↦ ap holding (find-new e) ∙ ap holding (sym e)
    | inr (p, e) ↦ ap holding (find-there p e) ∙ ap holding (sym e)
  ]

  put_state-other :
      (j : Slot) → same_slot k j ≡ false → find j (put_state k a b now reason ps) ≡ find j ps
  put_state-other j h = elim (Option-cases (find k ps)) [
    | inl e ↦ rw (put_state-new e) (find-append_other j (new_row k a now reason) ps h)
    | inr (p, e) ↦ rw (put_state-there p e) (find-update_state_other k b reason now j ps h)
  ]

  put_state-state : state_at k (put_state k a b now reason ps) ≡ some (new_or_next a b (find k ps))
  put_state-state = elim (Option-cases (find k ps)) [
    | inl e ↦ ap state_of (find-new e) ∙ sym (ap (λ o. some (new_or_next a b o)) e)
    | inr (p, e) ↦ ap state_of (find-there p e) ∙ sym (ap (λ o. some (new_or_next a b o)) e)
  ]

same_slot-same : (k j : Slot) → same_slot k j ≡ true → k ≡ j
same_slot-same k j h =
    ground
      (arith, eq_iff k.account j.account, eq_iff k.symbol j.symbol, eq_iff k.strategy j.strategy)

put_state-holding_any :
    (now : ℕ) (k j : Slot) (a b : PositionState) (reason : String) (ps : List Position)
    → holding (find j (put_state k a b now reason ps)) ≡ holding (find j ps)
put_state-holding_any now k j a b reason ps = elim (Bool-cases (same_slot k j)) [
  | inl e ↦
      subst (λ i. holding (find i (put_state k a b now reason ps)) ≡ holding (find i ps))
        (same_slot-same k j e) (put_state-holding now k a b reason ps)
  | inr e ↦ ap holding (put_state-other now k a b reason ps j e)
]

-- Placing an order leaves what every row holds: the shares, the cost basis and the cycle of each
-- account, symbol and strategy are those before; only the state of a row is moved.
pub upsert_position-holding :
    (r : OrderRouter) (now : ℕ) (p : AnyProposal) (o : Order) (ps : List Position) (j : Slot)
    → holding (find j (upsert_position r now p o ps)) ≡ holding (find j ps)
unfolding upsert_position upsert_position_pending upsert_position_spread_pending
upsert_position-holding r now (single p) o ps j =
    elim (Bool-cases (str_eq p.strategy_id "pmcc" && is_buy_to_close p.order_type)) [
      | inl e ↦ rw e refl
      | inr e ↦ rw e (put_state-holding_any now _ j _ _ _ ps)
    ]
upsert_position-holding r now (multi q) o ps j = elim (Bool-cases (is_multi_open q.order_type)) [
  | inl e ↦ rw e (put_state-holding_any now _ j _ _ _ ps)
  | inr e ↦ rw e refl
]

-- The row of another account, symbol or strategy is left as it is.
upsert_position-other :
    (r : OrderRouter) (now : ℕ) (p : AnyProposal) (o : Order) (ps : List Position) (j : Slot)
    → same_slot (slot_of r p) j ≡ false
    → find j (upsert_position r now p o ps) ≡ find j ps
unfolding upsert_position upsert_position_pending upsert_position_spread_pending
upsert_position-other r now (single p) o ps j h =
    elim (Bool-cases (str_eq p.strategy_id "pmcc" && is_buy_to_close p.order_type)) [
      | inl e ↦ rw e refl
      | inr e ↦ rw e (put_state-other now _ _ _ _ ps j h)
    ]
upsert_position-other r now (multi q) o ps j h = elim (Bool-cases (is_multi_open q.order_type)) [
  | inl e ↦ rw e (put_state-other now _ _ _ _ ps j h)
  | inr e ↦ rw e refl
]

abbrev is_pending_state : PositionState → Bool
is_pending_state csp_pending = true
is_pending_state cc_pending = true
is_pending_state spread_pending = true
is_pending_state pmcc_long_pending = true
is_pending_state pmcc_short_pending = true
is_pending_state swing_pending = true
is_pending_state _ = false

-- The entries that the strategies propose: a wheel sells, PMCC buys its long and sells its short, a
-- swing buys, and the others open a package.
abbrev pub enters : OrderType → (is_swing is_pmcc : Bool) → Bool
enters t is_swing is_pmcc =
    if is_swing
    then is_buy_to_open t
    else if is_pmcc
    then is_buy_to_open t || is_sell_to_open t
    else is_sell_to_open t

abbrev pub is_entry : OrderRouter → AnyProposal → Bool
is_entry r (single p) =
    enters p.order_type (is_swing_id p.strategy_id r.gate.strategies) (str_eq p.strategy_id "pmcc")
is_entry r (multi q) = is_multi_open q.order_type

enters-new :
    (t : OrderType) (contract_is_put is_swing : Bool) (strategy : String)
    → enters t is_swing (str_eq strategy "pmcc") ≡ true
    → is_pending_state (pending_state_for t contract_is_put strategy is_swing) ≡ true
unfolding pending_state_for
enters-new t contract_is_put is_swing strategy h = ground arith

pub enters-no_buy_back :
    (t : OrderType) (is_swing is_pmcc : Bool)
    → enters t is_swing is_pmcc ≡ true
    → (is_pmcc && is_buy_to_close t) ≡ false
enters-no_buy_back t is_swing is_pmcc h = ground arith

next_pending :
    (r : OrderRouter) (p : Proposal)
    → is_pending_state (new_state r p) ≡ true
    → is_pending_state (next_state r p) ≡ true
next_pending r p h = ground arith

either_pending :
    (a b : PositionState) (x : Option Position)
    → is_pending_state a ≡ true
    → is_pending_state b ≡ true
    → is_pending_state (new_or_next a b x) ≡ true
either_pending a b none h k = h
either_pending a b (some p) h k = k

abbrev pub IsPendingAt : Slot → List Position → Type 0
IsPendingAt k ps = (s : PositionState) × (state_at k ps ≡ some s) × (is_pending_state s ≡ true)

-- Whatever the state of the proposal's row was, or when there was none: once an entry is placed, the
-- row's state is one that is pending, never an open one.
upsert_position-pending :
    (r : OrderRouter) (now : ℕ) (p : AnyProposal) (o : Order) (ps : List Position)
    → is_entry r p ≡ true
    → IsPendingAt (slot_of r p) (upsert_position r now p o ps)
unfolding upsert_position upsert_position_pending upsert_position_spread_pending
upsert_position-pending r now (single p) o ps h =
    let k = slot_of r (single p) in
    let new : is_pending_state (new_state r p) ≡ true =
      enters-new p.order_type (is_put p.contract.option_type)
        (is_swing_id p.strategy_id r.gate.strategies) p.strategy_id h in
    let entering =
      enters-no_buy_back p.order_type (is_swing_id p.strategy_id r.gate.strategies)
        (str_eq p.strategy_id "pmcc") h in
    rw entering (
      new_or_next (new_state r p) (next_state r p) (find k ps),
      put_state-state now k (new_state r p) (next_state r p) (reason_of o) ps,
      either_pending (new_state r p) (next_state r p) (find k ps) new (next_pending r p new),
    )
upsert_position-pending r now (multi q) o ps h =
    let k = slot_of r (multi q) in
    rw h (
      new_or_next spread_pending spread_pending (find k ps),
      put_state-state now k spread_pending spread_pending (reason_of o) ps,
      either_pending spread_pending spread_pending (find k ps) refl refl,
    )
