-- ===== src/Reconciler/Returns.antt =====
-- execution/router.py and execution/reconciler.py: a placement that comes to nothing is undone.
use wheelbot.Common.{
  if◌then◌else◌, Bool, Bool-cases, List, Option, String, [], arith, false, inl, inr, none, not,
  refl, some, str_eq, sym, true, ℕ, ◌&&◌, ◌∙◌, ◌∷◌, ◌≡◌, Option-cases, ap,
}
use wheelbot.RiskGate.Defs.{AnyProposal, is_sell_to_open, multi, single, strategy_of, symbol_of}
use wheelbot.Models.{
  OptionType, Order, OrderType, Position, PositionState, call, idle, is_put, shares_held, put,
  Proposal, multi_leg_open, spread_pending, OrderStatus, cancelled, rejected,
}
use wheelbot.Router.Defs.{OrderRouter}
use wheelbot.Store.Positions.{Slot, get_by_symbol}
use wheelbot.Router.Rows.{is_entry, enters-no_buy_back, find-new, find-there}
use wheelbot.Store.Lookup.{find, holding}
use wheelbot.Store.Rows.{find_row, further}
use wheelbot.Reconciler.Defs.{is_at_symbol, Books, BrokerView, Reconciler, position_at}
use wheelbot.Router.Persist.{
  new_row, reason_of, pending_state_for, new_state, next_state, put_state, slot_of, upsert_position,
  upsert_position_pending, upsert_position_spread_pending,
}
use wheelbot.Reconciler.Cancels.{restored, cancel_at, on_cancel, restore}
use wheelbot.PaperBroker.{after, is_open}
use wheelbot.RiskGate.Screens.{is_buy_to_close, is_swing_id}
use wheelbot.Router.Submit.{is_multi_open, ended}
use wheelbot.Reconciler.{dispatch_order_transition, dispatch_status, observed_partial_fill}
use wheelbot.Store.Numbers.{find_row-holds, find_row-update}
use wheelbot.RiskGate.Concurrent.{live}
use wheelbot.Reconciler.States.{move, set_position_state, with_state}
use wheelbot.Common.Ratio.{whole}

-- The row of a lookup, without its number.
abbrev found : Option (ℕ × Position) → Option Position
found none = none
found (some (n, p)) = some p

found-further : (x : Option (ℕ × Position)) → found (further x) ≡ found x
found-further none = refl
found-further (some (n, p)) = refl

-- The router's lookup of a slot and the reconciler's find the same row.
find-found :
    (k : Slot) (ps : List Position)
    → find k ps ≡ found (find_row (is_at_symbol k.account k.symbol (some k.strategy)) ps)
unfolding get_by_symbol find_row
find-found k [] = refl
find-found k (p ∷ ps) = elim (Bool-cases (is_at_symbol k.account k.symbol (some k.strategy) p)) [
  | inl e ↦ rw e refl
  | inr e ↦ rw e (
      find-found k ps
      ∙ sym (found-further (find_row (is_at_symbol k.account k.symbol (some k.strategy)) ps)))
]

-- The entries whose order `_on_cancel` undoes: all but the short call of PMCC.
abbrev is_undone : OrderRouter → AnyProposal → Bool
is_undone r (single p) =
    is_entry r (single p) && not (str_eq p.strategy_id "pmcc" && is_sell_to_open p.order_type)
is_undone r (multi q) = is_entry r (multi q)

-- The state from which a strategy places the entry.
abbrev pub resting : AnyProposal → PositionState
resting (single p) =
    if is_sell_to_open p.order_type && not (is_put p.contract.option_type)
    then shares_held
    else idle
resting (multi q) = idle

abbrev type_of : AnyProposal → OrderType
type_of (single p) = p.order_type
type_of (multi q) = q.order_type

abbrev option_of : AnyProposal → Option OptionType
option_of (single p) = some p.contract.option_type
option_of (multi q) = none

-- An order that was placed for the proposal.
pub record IsOrderOf (p : AnyProposal) (o : Order) : Type 0 where
  pub symbol : o.symbol ≡ symbol_of p
  pub strategy : o.strategy_id ≡ some (strategy_of p)
  pub order_type : o.order_type ≡ type_of p
  pub option_type : o.option_type ≡ option_of p

-- The state that `_on_cancel` gives the row of a pending entry.
abbrev IsUndone : AnyProposal → PositionState → Type 0
IsUndone p s = restored (type_of p) (option_of p) s ≡ some (resting p, false)

new_state-IsUndone :
    (r : OrderRouter) (p : Proposal)
    → is_undone r (single p) ≡ true
    → IsUndone (single p) (new_state r p)
unfolding pending_state_for restored
new_state-IsUndone r p h = by_contract p.contract.option_type refl
  where
    by_contract :
        (c : OptionType) → p.contract.option_type ≡ c → IsUndone (single p) (new_state r p)
    by_contract put e = ground arith
    by_contract call e = ground arith

next_state-IsUndone :
    (r : OrderRouter) (p : Proposal)
    → is_undone r (single p) ≡ true
    → IsUndone (single p) (next_state r p)
unfolding pending_state_for restored
next_state-IsUndone r p h = by_contract p.contract.option_type refl
  where
    by_contract :
        (c : OptionType) → p.contract.option_type ≡ c → IsUndone (single p) (next_state r p)
    by_contract put e = ground arith
    by_contract call e = ground arith

abbrev PlacedRow : AnyProposal → (before : Option Position) → (after : Option Position) → Type 0
PlacedRow p before after =
    (q : Position) × (after ≡ some q) × IsUndone p q.state × (holding (some q) ≡ holding before)

put_state-PlacedRow :
    (p : AnyProposal) (now : ℕ) (k : Slot) (a b : PositionState) (reason : String)
    (ps : List Position)
    → IsUndone p a
    → IsUndone p b
    → PlacedRow p (find k ps) (find k (put_state k a b now reason ps))
put_state-PlacedRow p now k a b reason ps ha hb = elim (Option-cases (find k ps)) [
  | inl e ↦ (new_row k a now reason, find-new now k a b reason ps e, ha, sym (ap holding e))
  | inr (q, e) ↦ (
    record q { state = b; state_change_reason = some reason; state_changed_at = now },
    find-there now k a b reason ps q e,
    hb,
    sym (ap holding e),
  )
]

spread_pending-IsUndone :
    (t : OrderType) → is_multi_open t ≡ true → restored t none spread_pending ≡ some (idle, false)
unfolding restored
spread_pending-IsUndone multi_leg_open h = refl
spread_pending-IsUndone _ h = ground arith

-- The row of an entry that was placed.
upsert_position-PlacedRow :
    (r : OrderRouter) (now : ℕ) (p : AnyProposal) (o : Order) (ps : List Position)
    → is_undone r p ≡ true
    → PlacedRow p (find (slot_of r p) ps) (find (slot_of r p) (upsert_position r now p o ps))
unfolding upsert_position upsert_position_pending upsert_position_spread_pending
upsert_position-PlacedRow r now (single p) o ps h =
    let entering : (str_eq p.strategy_id "pmcc" && is_buy_to_close p.order_type) ≡ false =
      enters-no_buy_back p.order_type (is_swing_id p.strategy_id r.gate.strategies)
        (str_eq p.strategy_id "pmcc") (ground arith) in
    rw entering (
      put_state-PlacedRow (single p) now (slot_of r (single p)) (new_state r p) (next_state r p)
        (reason_of o) ps (new_state-IsUndone r p h) (next_state-IsUndone r p h))
upsert_position-PlacedRow r now (multi q) o ps h = rw h (
    put_state-PlacedRow (multi q) now (slot_of r (multi q)) spread_pending spread_pending
      (reason_of o) ps (spread_pending-IsUndone q.order_type h)
      (spread_pending-IsUndone q.order_type h))

found-some :
    (x : Option (ℕ × Position)) (q : Position) → found x ≡ some q → (n : ℕ) × (x ≡ some (n, q))
found-some none q e = ground arith
found-some (some (n, p)) q e = (n, ground arith)

-- A row that `_on_cancel` restores is found again in its state.
find-restore :
    (k : Slot) (s : Reconciler) (local : Order) (n : ℕ) (q : Position) (to : PositionState)
    (b : Books)
    → find_row (is_at_symbol k.account k.symbol (some k.strategy)) b.positions ≡ some (n, q)
    → find k (restore s local (n, q) (some (to, false)) b).positions
      ≡ some (with_state to "cancel_open" s.now q)
unfolding set_position_state move
find-restore k s local n q to b e =
    let slot = is_at_symbol k.account k.symbol (some k.strategy) in
    find-found k _
    ∙ ap found (
        find_row-update slot (with_state to "cancel_open" s.now) n q b.positions e
          (find_row-holds slot n q b.positions e))

module _ (r : OrderRouter) (s : Reconciler) (p : AnyProposal) (local : Order)
    (account : s.account_id ≡ r.gate.account_id) (of : IsOrderOf p local) where
  position_at-slot :
      (b : Books)
      → position_at s local.symbol local.strategy_id b
        ≡ find_row (is_at_symbol r.gate.account_id (symbol_of p) (some (strategy_of p))) b.positions
  position_at-slot b = rw (account, of.symbol, of.strategy) refl

  on_cancel-row :
      (before : Option Position) (b : Books)
      → PlacedRow p before (find (slot_of r p) b.positions)
      → (q : Position) × (find (slot_of r p) (on_cancel s local b).positions ≡ some q)
        × (q.state ≡ resting p)
        × (holding (some q) ≡ holding before)
  unfolding on_cancel
  on_cancel-row before b (q, there, undone, held) =
      let (n, e) = found-some _ q (sym (find-found (slot_of r p) b.positions) ∙ there) in
      let to : restored local.order_type local.option_type q.state ≡ some (resting p, false) =
        rw (of.order_type, of.option_type) undone in
      (
        with_state (resting p) "cancel_open" s.now q,
        ap (λ x. find (slot_of r p) (cancel_at s local x b).positions) (position_at-slot b ∙ e)
            ∙ ap (λ x. find (slot_of r p) (restore s local (n, q) x b).positions) to
            ∙ find-restore (slot_of r p) s local n q (resting p) b e,
        refl,
        held,
      )

-- The broker's answers that end an order.
abbrev is_ended : OrderStatus → Bool
is_ended cancelled = true
is_ended rejected = true
is_ended _ = false

dispatch-on_cancel :
    (s : Reconciler) (n : ℕ) (local : Order) (v : BrokerView) (b : Books)
    → is_open local.status ≡ true
    → is_ended v.order.status ≡ true
    → observed_partial_fill local v ≡ false
    → dispatch_order_transition s n local v b ≡ on_cancel s local b
unfolding dispatch_order_transition
dispatch-on_cancel s n local v b live ended whole =
    ap (λ z. if z then dispatch_status v.order.status s n local v b else b) live
    ∙ by_status v.order.status ended
  where
    by_status :
        (t : OrderStatus)
        → is_ended t ≡ true
        → dispatch_status t s n local v b ≡ on_cancel s local b
    by_status cancelled h = rw whole refl
    by_status rejected h = rw whole refl
    by_status _ h = ground arith

-- An entry that comes to nothing is undone: once the broker shows the order of an entry cancelled or
-- rejected, with nothing of it filled, the proposal's row is in the state from which the entry was
-- placed (IDLE, or SHARES_HELD for a covered call), and holds the shares, the cost basis and the
-- cycle that it held before the placement; a row that the placement made holds nothing. The short
-- call of PMCC is excepted, and nothing else is written in between.
pub dispatch-upsert_position :
    (r : OrderRouter) (s : Reconciler) (now n : ℕ) (p : AnyProposal) (placed local : Order)
    (v : BrokerView) (b : Books)
    → s.account_id ≡ r.gate.account_id
    → is_undone r p ≡ true
    → IsOrderOf p local
    → is_open local.status ≡ true
    → is_ended v.order.status ≡ true
    → observed_partial_fill local v ≡ false
    → let placed_in = record b { positions = upsert_position r now p placed b.positions } in
      let ended_in = dispatch_order_transition s n local v placed_in in
      (q : Position) × (find (slot_of r p) ended_in.positions ≡ some q)
      × (q.state ≡ resting p)
      × (holding (some q) ≡ holding (find (slot_of r p) b.positions))
dispatch-upsert_position r s now n p placed local v b account undone of live ended whole =
    let placed_in = record b { positions = upsert_position r now p placed b.positions } in
    let (q, there, state, held) =
      on_cancel-row r s p local account of (find (slot_of r p) b.positions) placed_in
        (upsert_position-PlacedRow r now p placed b.positions undone) in
    (
      q,
      ap (λ c. find (slot_of r p) c.positions)
            (dispatch-on_cancel s n local v placed_in live ended whole)
          ∙ there,
      state,
      held,
    )
