-- ===== src/Reconciler/Shifts.antt =====
-- execution/reconciler.py, _diff_one: the state machine of the positions.
use wheelbot.Common.{
  if◌then◌else◌, Bool, Option, String, ap, false, inl, inr, none, refl, some, true, ℕ, ◌+◌, ◌∙◌,
  ◌≡◌, ◌⊎◌, List, not, str_eq,
}
use wheelbot.Reconciler.Defs.{
  Books, CycleOutcome, Reconciler, cc_called_away, count, notify, position_assigned, position_at,
  csp_expired,
}
use wheelbot.Models.{
  Position, PositionState, cc_open, cc_pending, csp_open, csp_pending, idle, pmcc_both_open,
  pmcc_long_open, pmcc_long_pending, pmcc_short_pending, shares_held, spread_open, spread_pending,
  Order,
}
use wheelbot.Reconciler.Shapes.{
  assigned_basis, assigned_shares, cycle_csp_quantity, cycle_row, emptied, on_assignment,
  on_called_away, strike_of, Shape, expired, on_cc_expiration, on_csp_expiration,
  on_pmcc_short_expiration, on_spread_expiration, shape_of,
}
use wheelbot.Reconciler.Cycles.{close_current, open_cycle, spread_expired_outcome}
use wheelbot.Reconciler.States.{move, set_position_state, with_cycle}
use wheelbot.Reconciler.Diff.{
  set_own, diff_cc_open, diff_cc_pending, diff_csp_open, diff_csp_pending, diff_one,
  diff_pmcc_both_open, diff_pmcc_long_pending, diff_pmcc_short_pending, diff_spread_open,
  diff_spread_pending, diff_state, heal_long_pending,
}
use wheelbot.Common.Int.{pos_part}
use wheelbot.Store.Rows.{update_row}
use wheelbot.Reconciler.Logged.{states}
use wheelbot.Reconciler.Transitions.{
  Moved, Shift, buy_shares-positions, close_current-positions, flag_own-Moved, if_Moved, move-Moved,
  sell_shares-positions, set_own-Moved, call_expires, call_filled, call_unfilled, long_filled,
  long_unfilled, put_assigned, put_expires, put_filled, put_unfilled, shares_called, short_expires,
  short_filled, short_unfilled, spread_expires, spread_found,
}

on_assignment-Moved :
    (r : Reconciler) (n : ℕ) (p : Position) (b : Books) → Moved n csp_open b (on_assignment r n p b)
unfolding on_assignment
on_assignment-Moved r n p b =
    let cycle = cycle_row p.current_cycle_id b in
    let shares = assigned_shares (cycle_csp_quantity p.current_cycle_id b.orders) in
    let told =
      notify (position_assigned p.symbol)
        (count (λ s. record s { assignments_processed = s.assignments_processed + 1 }) b) in
    let f : Position → Position =
      λ q. record q { shares = pos_part shares; cost_basis = some (assigned_basis cycle) } in
    elim (move-Moved r.now n p csp_open shares_held "assignment" f b told put_assigned refl) [
      | inl e ↦ inl (
          ap states (buy_shares-positions r p.symbol p.current_cycle_id shares (strike_of cycle) _)
          ∙ e)
      | inr (to, h, e) ↦ inr (
        to,
        h,
        ap states (buy_shares-positions r p.symbol p.current_cycle_id shares (strike_of cycle) _)
            ∙ e,
      )
    ]

on_called_away-Moved :
    (r : Reconciler) (n : ℕ) (p : Position) (b : Books)
    → p.state ≡ cc_open
    → position_at r p.symbol (some p.strategy_id) b ≡ some (n, p)
    → Moved n cc_open b (on_called_away r n p b)
unfolding on_called_away
on_called_away-Moved r n p b is e =
    if_Moved n cc_open b _ _ _
      (flag_own-Moved r n p cc_open "called_away_missing_cc_strike" b is refl e)
      (move-Moved r.now n p cc_open idle "called_away" emptied b _ shares_called (
        close_current-positions r.now p.current_cycle_id cc_called_away _
        ∙ sell_shares-positions r p.symbol p.current_cycle_id _ _ _))

expiration-Moved :
    (r : Reconciler) (n : ℕ) (p : Position) (from : PositionState) (reason : String)
    (o : CycleOutcome) (b : Books)
    → Shift from idle
    → Moved n from b
        (move r.now n p idle reason emptied (close_current r.now p.current_cycle_id o (expired b)))
expiration-Moved r n p from reason o b h =
    move-Moved r.now n p from idle reason emptied b _ h
      (close_current-positions r.now p.current_cycle_id o (expired b))

stays : (n : ℕ) (from : PositionState) (b : Books) → Moved n from b b
stays n from b = inl refl

module _ (r : Reconciler) (n : ℕ) (p : Position) (s : Shape) (b : Books)
    (found : position_at r p.symbol (some p.strategy_id) b ≡ some (n, p)) where
  csp_open-Moved : p.state ≡ csp_open → Moved n csp_open b (diff_csp_open r n p s b)
  unfolding diff_csp_open on_csp_expiration
  csp_open-Moved is = if_Moved n csp_open b s.has_short_put _ _ (stays n csp_open b) (
      if_Moved n csp_open b (not s.has_shares) _ _
        (expiration-Moved r n p csp_open _ csp_expired b put_expires)
        (if_Moved n csp_open b _ _ _ (flag_own-Moved r n p csp_open _ b is refl found)
          (on_assignment-Moved r n p b)))

  cc_open-Moved : p.state ≡ cc_open → Moved n cc_open b (diff_cc_open r n p s b)
  unfolding diff_cc_open on_cc_expiration
  cc_open-Moved is = if_Moved n cc_open b s.has_short_call _ _ (stays n cc_open b) (
      if_Moved n cc_open b s.has_shares _ _
        (move-Moved r.now n p cc_open shares_held _ (λ q. q) b (expired b) call_expires refl)
        (on_called_away-Moved r n p b is found))

  csp_pending-Moved : Moved n csp_pending b (diff_csp_pending r n p s b)
  unfolding diff_csp_pending
  csp_pending-Moved = if_Moved n csp_pending b _ _ _ (stays n csp_pending b) (
      if_Moved n csp_pending b s.has_short_put _ _
        (set_own-Moved r n p csp_pending csp_open _ _ b b put_filled refl)
        (if_Moved n csp_pending b s.broker_present _ _ (stays n csp_pending b)
          (set_own-Moved r n p csp_pending idle _ none b b put_unfilled refl)))

  cc_pending-Moved : Moved n cc_pending b (diff_cc_pending r n p s b)
  unfolding diff_cc_pending
  cc_pending-Moved = if_Moved n cc_pending b _ _ _ (stays n cc_pending b) (
      if_Moved n cc_pending b s.has_short_call _ _
        (set_own-Moved r n p cc_pending cc_open _ _ b b call_filled refl)
        (if_Moved n cc_pending b s.has_shares _ _
          (set_own-Moved r n p cc_pending shares_held _ none b b call_unfilled refl)
          (stays n cc_pending b)))

  spread_open-Moved : p.state ≡ spread_open → Moved n spread_open b (diff_spread_open r n p s b)
  unfolding diff_spread_open on_spread_expiration
  spread_open-Moved is =
      if_Moved n spread_open b (str_eq p.strategy_id "calendar") _ _
        (if_Moved n spread_open b _ _ _ (flag_own-Moved r n p spread_open _ b is refl found)
          (stays n spread_open b))
        (if_Moved n spread_open b _ _ _
          (expiration-Moved r n p spread_open _ (spread_expired_outcome p.strategy_id) b
            spread_expires)
          (if_Moved n spread_open b s.has_shares _ _
            (flag_own-Moved r n p spread_open _ b is refl found) (stays n spread_open b)))

  spread_pending-Moved :
      p.state ≡ spread_pending → Moved n spread_pending b (diff_spread_pending r n p s b)
  unfolding diff_spread_pending
  spread_pending-Moved is = if_Moved n spread_pending b _ _ _ (stays n spread_pending b) (
      if_Moved n spread_pending b s.broker_present _ _
        (set_own-Moved r n p spread_pending spread_open _ _ b b spread_found refl)
        (flag_own-Moved r n p spread_pending _ b is refl found))

  pmcc_both_open-Moved :
      p.state ≡ pmcc_both_open → Moved n pmcc_both_open b (diff_pmcc_both_open r n p s b)
  unfolding diff_pmcc_both_open on_pmcc_short_expiration set_position_state
  pmcc_both_open-Moved is =
      if_Moved n pmcc_both_open b s.has_shares _ _
        (flag_own-Moved r n p pmcc_both_open _ b is refl found)
        (if_Moved n pmcc_both_open b s.has_short_call _ _ (stays n pmcc_both_open b) (
          move-Moved r.now n p pmcc_both_open pmcc_long_open _ (with_cycle none) b (expired b)
            short_expires refl))

  heal_long-Moved :
      (x : Option (ℕ × Order)) → Moved n pmcc_long_pending b (heal_long_pending r n p x b)
  unfolding heal_long_pending open_cycle
  heal_long-Moved none = set_own-Moved r n p pmcc_long_pending idle _ none b b long_unfilled refl
  heal_long-Moved (some (m, o)) =
      set_own-Moved r n p pmcc_long_pending pmcc_long_open _ _ b _ long_filled refl

  long_pending-Moved : Moved n pmcc_long_pending b (diff_pmcc_long_pending r n p b)
  unfolding diff_pmcc_long_pending
  long_pending-Moved =
      if_Moved n pmcc_long_pending b _ _ _ (stays n pmcc_long_pending b) (heal_long-Moved _)

  heal_short-Moved :
      (t : Bool)
      → Moved n pmcc_short_pending b (
          set_own r n p
            (if t then pmcc_long_open else pmcc_both_open)
            "selfheal:stuck_pmcc_short_pending"
            p.current_cycle_id
            b)
  heal_short-Moved true =
      set_own-Moved r n p pmcc_short_pending pmcc_long_open _ _ b b short_unfilled refl
  heal_short-Moved false =
      set_own-Moved r n p pmcc_short_pending pmcc_both_open _ _ b b short_filled refl

  short_pending-Moved : Moved n pmcc_short_pending b (diff_pmcc_short_pending r n p b)
  unfolding diff_pmcc_short_pending
  short_pending-Moved =
      if_Moved n pmcc_short_pending b _ _ _ (stays n pmcc_short_pending b) (heal_short-Moved _)

  diff_state-Moved : (t : PositionState) → p.state ≡ t → Moved n t b (diff_state t r n p s b)
  unfolding diff_state
  diff_state-Moved csp_open is = csp_open-Moved is
  diff_state-Moved cc_open is = cc_open-Moved is
  diff_state-Moved csp_pending is = csp_pending-Moved
  diff_state-Moved cc_pending is = cc_pending-Moved
  diff_state-Moved spread_open is = spread_open-Moved is
  diff_state-Moved spread_pending is = spread_pending-Moved is
  diff_state-Moved pmcc_long_open is =
      if_Moved n pmcc_long_open b s.has_shares _ _
        (flag_own-Moved r n p pmcc_long_open _ b is refl found) (stays n pmcc_long_open b)
  diff_state-Moved pmcc_both_open is = pmcc_both_open-Moved is
  diff_state-Moved pmcc_long_pending is = long_pending-Moved
  diff_state-Moved pmcc_short_pending is = short_pending-Moved
  diff_state-Moved _ is = inl refl

-- What the broker's positions imply for a position is one of the listed transitions of its own
-- state, or nothing: no other row's state changes, and a position that is idle, holds shares, is
-- closed or belongs to an operator keeps its state. The position is the row that is found under
-- its own symbol and strategy.
pub diff_one-Moved :
    (r : Reconciler) (n : ℕ) (p : Position) (broker : List Position) (b : Books)
    → position_at r p.symbol (some p.strategy_id) b ≡ some (n, p)
    → (states (diff_one r n p broker b).positions ≡ states b.positions)
      ⊎ ((to : PositionState) × Shift p.state to
          × (states (diff_one r n p broker b).positions
              ≡ update_row n (λ _. to) (states b.positions)))
unfolding diff_one
diff_one-Moved r n p broker b found = diff_state-Moved r n p (shape_of broker) b found p.state refl
