-- ===== src/Reconciler/KeptDiff.antt =====
-- execution/reconciler.py, _diff_one: what every write keeps, the diff of a position keeps.
use wheelbot.Reconciler.Defs.{Books, CycleOutcome, Reconciler, update_order}
use wheelbot.Reconciler.Kept.{
  IsKept, close_current-kept, flag-kept, if_kept, open_cycle-kept, set_position_state-kept,
}
use wheelbot.Common.{Option, String, none, not, some, str_eq, ℕ, ◌&&◌}
use wheelbot.Models.{
  Order, Position, PositionState, Symbol, cc_open, cc_pending, csp_open, csp_pending, idle,
  pmcc_both_open, pmcc_long_open, pmcc_long_pending, pmcc_short_pending, spread_open,
  spread_pending,
}
use wheelbot.Reconciler.Shapes.{
  Shape, buy_shares, emptied, expired, has_inflight_order, insert_order, on_assignment,
  on_called_away, on_cc_expiration, on_csp_expiration, on_pmcc_short_expiration,
  on_spread_expiration, sell_shares, shares_claimed_by_other,
}
use wheelbot.Reconciler.Cycles.{close_current}
use wheelbot.Reconciler.Diff.{
  diff_cc_open, diff_cc_pending, diff_csp_open, diff_csp_pending, diff_pmcc_both_open,
  diff_pmcc_long_pending, diff_pmcc_short_pending, diff_spread_open, diff_spread_pending,
  diff_state, flag_own, heal_long_pending, set_own,
}
use wheelbot.Common.Int.{ltb_ℤ, pos, ℤ}
use wheelbot.Reconciler.States.{move}

-- A property that the writes of the handlers keep, an insert of an order and the refresh of one.
pub record IsKeptAll (P : Books → Type 0) : Type 0 where
  pub kept : IsKept P
  pub inserts : (o : Order) (b : Books) → P b → P (insert_order o b)
  pub refreshes : (n : ℕ) (f : Order → Order) (b : Books) → P b → P (update_order n f b)

module _ {P : Books → Type 0} (k : IsKeptAll P) where
  set_own-kept :
      (r : Reconciler) (n : ℕ) (p : Position) (to : PositionState) (reason : String) (c : Option ℕ)
      (b : Books)
      → P b
      → P (set_own r n p to reason c b)
  set_own-kept r n p to reason c b h = set_position_state-kept k.kept r _ p.symbol to reason c _ b h

  flag_own-kept :
      (r : Reconciler) (p : Position) (reason : String) (b : Books)
      → P b
      → P (flag_own r p reason b)
  flag_own-kept r p reason b h = flag-kept k.kept r p.symbol reason _ b h

  expired-kept : (b : Books) → P b → P (expired b)
  expired-kept b h = k.kept.counts _ b h

  buy_shares-kept :
      (r : Reconciler) (s : Symbol) (c : Option ℕ) (q a : ℤ) (b : Books)
      → P b
      → P (buy_shares r s c q a b)
  buy_shares-kept r s none q a b h = h
  buy_shares-kept r s (some c) q a b h = k.inserts _ b h

  sell_shares-kept :
      (r : Reconciler) (s : Symbol) (c : Option ℕ) (q : ℤ) (a : Option ℤ) (b : Books)
      → P b
      → P (sell_shares r s c q a b)
  sell_shares-kept r s none q a b h = h
  sell_shares-kept r s (some c) q none b h = h
  sell_shares-kept r s (some c) q (some a) b h =
      if_kept k.kept (ltb_ℤ (pos 0) q) _ _ (k.inserts _ b h) h

  on_assignment-kept :
      (r : Reconciler) (n : ℕ) (p : Position) (b : Books) → P b → P (on_assignment r n p b)
  unfolding on_assignment
  on_assignment-kept r n p b h =
      buy_shares-kept r p.symbol p.current_cycle_id _ _ _
        (k.kept.moves r.now n p _ _ _ _ (k.kept.notifies _ _ (k.kept.counts _ b h)))

  -- The cycle ends, and the row is emptied.
  ends-kept :
      (r : Reconciler) (n : ℕ) (p : Position) (reason : String) (c : Option ℕ) (o : CycleOutcome)
      (b : Books)
      → P b
      → P (move r.now n p idle reason emptied (close_current r.now c o b))
  ends-kept r n p reason c o b h =
      k.kept.moves r.now n p _ reason _ _ (close_current-kept k.kept r.now c o b h)

  on_csp_expiration-kept :
      (r : Reconciler) (n : ℕ) (p : Position) (b : Books) → P b → P (on_csp_expiration r n p b)
  unfolding on_csp_expiration
  on_csp_expiration-kept r n p b h = ends-kept r n p _ _ _ _ (expired-kept b h)

  on_spread_expiration-kept :
      (r : Reconciler) (n : ℕ) (p : Position) (b : Books) → P b → P (on_spread_expiration r n p b)
  unfolding on_spread_expiration
  on_spread_expiration-kept r n p b h = ends-kept r n p _ _ _ _ (expired-kept b h)

  on_cc_expiration-kept :
      (r : Reconciler) (n : ℕ) (p : Position) (b : Books) → P b → P (on_cc_expiration r n p b)
  unfolding on_cc_expiration
  on_cc_expiration-kept r n p b h = k.kept.moves r.now n p _ _ _ _ (expired-kept b h)

  on_pmcc_short_expiration-kept :
      (r : Reconciler) (n : ℕ) (p : Position) (b : Books)
      → P b
      → P (on_pmcc_short_expiration r n p b)
  unfolding on_pmcc_short_expiration
  on_pmcc_short_expiration-kept r n p b h =
      set_position_state-kept k.kept r _ p.symbol _ _ _ _ _ (expired-kept b h)

  on_called_away-kept :
      (r : Reconciler) (n : ℕ) (p : Position) (b : Books) → P b → P (on_called_away r n p b)
  unfolding on_called_away
  on_called_away-kept r n p b h = if_kept k.kept _ _ _ (flag_own-kept r p _ b h) (
      ends-kept r n p _ _ _ _ (
        sell_shares-kept r p.symbol p.current_cycle_id _ _ _
          (k.kept.notifies _ _ (k.kept.counts _ b h))))

  diff_csp_open-kept :
      (r : Reconciler) (n : ℕ) (p : Position) (s : Shape) (b : Books)
      → P b
      → P (diff_csp_open r n p s b)
  unfolding diff_csp_open
  diff_csp_open-kept r n p s b h = if_kept k.kept s.has_short_put _ _ h (
      if_kept k.kept (not s.has_shares) _ _ (on_csp_expiration-kept r n p b h) (
        if_kept k.kept (shares_claimed_by_other r n p b) _ _ (flag_own-kept r p _ b h)
          (on_assignment-kept r n p b h)))

  diff_cc_open-kept :
      (r : Reconciler) (n : ℕ) (p : Position) (s : Shape) (b : Books)
      → P b
      → P (diff_cc_open r n p s b)
  unfolding diff_cc_open
  diff_cc_open-kept r n p s b h = if_kept k.kept s.has_short_call _ _ h (
      if_kept k.kept s.has_shares _ _ (on_cc_expiration-kept r n p b h)
        (on_called_away-kept r n p b h))

  diff_csp_pending-kept :
      (r : Reconciler) (n : ℕ) (p : Position) (s : Shape) (b : Books)
      → P b
      → P (diff_csp_pending r n p s b)
  unfolding diff_csp_pending
  diff_csp_pending-kept r n p s b h = if_kept k.kept (has_inflight_order p b) _ _ h (
      if_kept k.kept s.has_short_put _ _ (set_own-kept r n p _ _ _ b h)
        (if_kept k.kept s.broker_present _ _ h (set_own-kept r n p _ _ _ b h)))

  diff_cc_pending-kept :
      (r : Reconciler) (n : ℕ) (p : Position) (s : Shape) (b : Books)
      → P b
      → P (diff_cc_pending r n p s b)
  unfolding diff_cc_pending
  diff_cc_pending-kept r n p s b h = if_kept k.kept (has_inflight_order p b) _ _ h (
      if_kept k.kept s.has_short_call _ _ (set_own-kept r n p _ _ _ b h)
        (if_kept k.kept s.has_shares _ _ (set_own-kept r n p _ _ _ b h) h))

  diff_spread_open-kept :
      (r : Reconciler) (n : ℕ) (p : Position) (s : Shape) (b : Books)
      → P b
      → P (diff_spread_open r n p s b)
  unfolding diff_spread_open
  diff_spread_open-kept r n p s b h =
      if_kept k.kept (str_eq p.strategy_id "calendar") _ _
        (if_kept k.kept (not s.has_short_call && not s.has_shares) _ _ (flag_own-kept r p _ b h) h)
        (if_kept k.kept (not s.broker_present) _ _ (on_spread_expiration-kept r n p b h)
          (if_kept k.kept s.has_shares _ _ (flag_own-kept r p _ b h) h))

  diff_spread_pending-kept :
      (r : Reconciler) (n : ℕ) (p : Position) (s : Shape) (b : Books)
      → P b
      → P (diff_spread_pending r n p s b)
  unfolding diff_spread_pending
  diff_spread_pending-kept r n p s b h =
      if_kept k.kept (has_inflight_order p b) _ _ h (
        if_kept k.kept s.broker_present _ _ (set_own-kept r n p _ _ _ b h)
          (flag_own-kept r p _ b h))

  diff_pmcc_both_open-kept :
      (r : Reconciler) (n : ℕ) (p : Position) (s : Shape) (b : Books)
      → P b
      → P (diff_pmcc_both_open r n p s b)
  unfolding diff_pmcc_both_open
  diff_pmcc_both_open-kept r n p s b h =
      if_kept k.kept s.has_shares _ _ (flag_own-kept r p _ b h)
        (if_kept k.kept s.has_short_call _ _ h (on_pmcc_short_expiration-kept r n p b h))

  heal_long_pending-kept :
      (r : Reconciler) (n : ℕ) (p : Position) (x : Option (ℕ × Order)) (b : Books)
      → P b
      → P (heal_long_pending r n p x b)
  unfolding heal_long_pending
  heal_long_pending-kept r n p none b h = set_own-kept r n p _ _ _ b h
  heal_long_pending-kept r n p (some (m, o)) b h =
      set_own-kept r n p _ _ _ _ (k.kept.tags m _ _ (open_cycle-kept k.kept _ b h))

  diff_pmcc_long_pending-kept :
      (r : Reconciler) (n : ℕ) (p : Position) (b : Books) → P b → P (diff_pmcc_long_pending r n p b)
  unfolding diff_pmcc_long_pending
  diff_pmcc_long_pending-kept r n p b h =
      if_kept k.kept (has_inflight_order p b) _ _ h (heal_long_pending-kept r n p _ b h)

  diff_pmcc_short_pending-kept :
      (r : Reconciler) (n : ℕ) (p : Position) (b : Books)
      → P b
      → P (diff_pmcc_short_pending r n p b)
  unfolding diff_pmcc_short_pending
  diff_pmcc_short_pending-kept r n p b h =
      if_kept k.kept (has_inflight_order p b) _ _ h (set_own-kept r n p _ _ _ b h)

  pub diff_state-kept :
      (t : PositionState) (r : Reconciler) (n : ℕ) (p : Position) (s : Shape) (b : Books)
      → P b
      → P (diff_state t r n p s b)
  unfolding diff_state
  diff_state-kept csp_open r n p s b h = diff_csp_open-kept r n p s b h
  diff_state-kept cc_open r n p s b h = diff_cc_open-kept r n p s b h
  diff_state-kept csp_pending r n p s b h = diff_csp_pending-kept r n p s b h
  diff_state-kept cc_pending r n p s b h = diff_cc_pending-kept r n p s b h
  diff_state-kept spread_open r n p s b h = diff_spread_open-kept r n p s b h
  diff_state-kept spread_pending r n p s b h = diff_spread_pending-kept r n p s b h
  diff_state-kept pmcc_long_open r n p s b h =
      if_kept k.kept s.has_shares _ _ (flag_own-kept r p _ b h) h
  diff_state-kept pmcc_both_open r n p s b h = diff_pmcc_both_open-kept r n p s b h
  diff_state-kept pmcc_long_pending r n p s b h = diff_pmcc_long_pending-kept r n p b h
  diff_state-kept pmcc_short_pending r n p s b h = diff_pmcc_short_pending-kept r n p b h
  diff_state-kept _ r n p s b h = h
