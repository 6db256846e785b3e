-- ===== src/Reconciler/Kept.antt =====
-- execution/reconciler.py: what the writes of the handlers keep, the handlers keep.
use wheelbot.Common.{
  if◌then◌else◌, Bool, List, Option, String, false, is_none, none, some, true, ℕ, ◌+◌,
}
use wheelbot.Reconciler.Defs.{
  Books, BrokerView, CycleOutcome, Notice, ReconcileSummary, Reconciler, WheelCycle, count,
  cycle_of, notify, tag, tag_untagged,
}
use wheelbot.Models.{
  Order, OrderStatus, OrderType, Position, PositionState, Symbol, buy_to_close, buy_to_open,
  cancelled, filled, idle, multi_leg_close, multi_leg_open, partial, pending, rejected,
  sell_to_close, sell_to_open,
}
use wheelbot.Reconciler.Cancels.{cancel_at, on_cancel, restore}
use wheelbot.Reconciler.Fills.{
  clear_cycle, clear_pointer, end_cycle, is_call_option, is_pmcc, is_put_option, is_swing, on_fill,
  on_pmcc_call, on_pmcc_fill, on_swing_fill, on_swing_option, on_wheel_fill, opens,
}
use wheelbot.Reconciler.Cycles.{
  close_current, close_cycle, close_found, closed, open_cycle, compute_cycle_pnl,
}
use wheelbot.Reconciler.{
  dispatch_order_transition, dispatch_status, end_unfilled, observed_partial_fill,
}
use wheelbot.Reconciler.States.{
  enter, flag_found, flag_manual_intervention, is_manual, move, raise_flag, set_position_state,
  with_cycle,
}
use wheelbot.PaperBroker.{is_open}
use wheelbot.Common.Int.{ltb_ℤ, pos, ℤ}
use wheelbot.Store.Rows.{row, update_row}

-- A property of the books that each single write keeps.
pub record IsKept (P : Books → Type 0) : Type 0 where
  pub counts : (s : ReconcileSummary) (b : Books) → P b → P (record b { summary = s })
  pub notifies : (n : Notice) (b : Books) → P b → P (notify n b)
  pub tags : (n c : ℕ) (b : Books) → P b → P (tag n (some c) b)
  pub cycles : (cs : List WheelCycle) (b : Books) → P b → P (record b { cycles = cs })
  pub clears :
      (n : ℕ) (b : Books) → P b → P (record b { positions = update_row n clear_cycle b.positions })
  pub moves :
      (now n : ℕ) (p : Position) (to : PositionState) (reason : String) (c : Position → Position)
      (b : Books)
      → P b
      → P (move now n p to reason c b)
  pub enters : (p : Position) (reason : String) (b : Books) → P b → P (enter p reason b)

module _ {P : Books → Type 0} (k : IsKept P) where
  pub if_kept : (t : Bool) (b c : Books) → P b → P c → P (if t then b else c)
  if_kept true b c h j = h
  if_kept false b c h j = j

  pub count-kept : (f : ReconcileSummary → ReconcileSummary) (b : Books) → P b → P (count f b)
  count-kept f b h = k.counts (f b.summary) b h

  pub tag-kept : (n : ℕ) (c : Option ℕ) (b : Books) → P b → P (tag n c b)
  tag-kept n none b h = h
  tag-kept n (some c) b h = k.tags n c b h

  tag_untagged-kept :
      (n : ℕ) (o : Order) (c : Option ℕ) (b : Books) → P b → P (tag_untagged n o c b)
  tag_untagged-kept n o c b h =
      elim (o.cycle_id) as (λ x. P (elim x [ none ↦ tag n c b | some _ ↦ b ])) [
        | none ↦ tag-kept n c b h
        | some _ ↦ h
      ]

  pub set_position_state-kept :
      (r : Reconciler) (x : Option (ℕ × Position)) (symbol : Symbol) (to : PositionState)
      (reason : String) (c : Option ℕ) (s : Option String) (b : Books)
      → P b
      → P (set_position_state r x symbol to reason c s b)
  unfolding set_position_state
  set_position_state-kept r none symbol to reason c s b h = k.enters _ reason b h
  set_position_state-kept r (some (n, p)) symbol to reason c s b h =
      k.moves r.now n p to reason (with_cycle c) b h

  raise_flag-kept : (symbol : Symbol) (b : Books) → P b → P (raise_flag symbol b)
  raise_flag-kept symbol b h = k.notifies _ _ (k.counts _ b h)

  flag_found-kept :
      (r : Reconciler) (symbol : Symbol) (reason : String) (s : Option String)
      (x : Option (ℕ × Position)) (b : Books)
      → P b
      → P (flag_found r symbol reason s x b)
  flag_found-kept r symbol reason s none b h = k.enters _ reason _ (raise_flag-kept symbol b h)
  flag_found-kept r symbol reason s (some (n, p)) b h =
      if_kept (is_manual p.state) _ _ h
        (k.moves r.now n p _ reason _ _ (raise_flag-kept symbol b h))

  pub flag-kept :
      (r : Reconciler) (symbol : Symbol) (reason : String) (s : Option String) (b : Books)
      → P b
      → P (flag_manual_intervention r symbol reason s b)
  unfolding flag_manual_intervention
  flag-kept r symbol reason s b h = flag_found-kept r symbol reason s _ b h

  pub open_cycle-kept : (c : WheelCycle) (b : Books) → P b → P (open_cycle c b)
  unfolding open_cycle
  open_cycle-kept c b h = k.counts _ _ (k.cycles _ b h)

  close_found-kept :
      (now cycle : ℕ) (o : CycleOutcome) (pnl : ℤ) (x : Option WheelCycle) (b : Books)
      → P b
      → P (close_found now cycle o pnl x b)
  close_found-kept now cycle o pnl none b h = h
  close_found-kept now cycle o pnl (some c) b h =
      let closing =
        count-kept (λ s. record s { cycles_closed = s.cycles_closed + 1 }) _
          (k.cycles (update_row cycle (closed now pnl o) b.cycles) b h) in
      if_kept (is_none c.ended_at) _ _
        (if_kept (ltb_ℤ pnl (pos 0)) _ _ (k.notifies _ _ closing) closing) h

  close_cycle-kept :
      (now cycle : ℕ) (o : CycleOutcome) (b : Books) → P b → P (close_cycle now cycle o b)
  unfolding close_cycle
  close_cycle-kept now cycle o b h =
      close_found-kept now cycle o (compute_cycle_pnl cycle b.orders) (row cycle b.cycles) b h

  pub close_current-kept :
      (now : ℕ) (c : Option ℕ) (o : CycleOutcome) (b : Books) → P b → P (close_current now c o b)
  unfolding close_current
  close_current-kept now none o b h = h
  close_current-kept now (some c) o b h = close_cycle-kept now c o b h

  clear_pointer-kept : (x : Option (ℕ × Position)) (b : Books) → P b → P (clear_pointer x b)
  unfolding clear_pointer
  clear_pointer-kept none b h = h
  clear_pointer-kept (some (n, p)) b h = k.clears n b h

  end_cycle-kept :
      (now : ℕ) (x : Option (ℕ × Position)) (c : Option ℕ) (o : CycleOutcome) (b : Books)
      → P b
      → P (end_cycle now x c o b)
  unfolding end_cycle
  end_cycle-kept now x none o b h = h
  end_cycle-kept now x (some c) o b h = clear_pointer-kept x _ (close_cycle-kept now c o b h)

  opens-kept :
      (r : Reconciler) (n : ℕ) (o : Order) (x : Option (ℕ × Position)) (c : WheelCycle)
      (to : PositionState) (s : Option String) (b : Books)
      → P b
      → P (opens r n o x c to s b)
  opens-kept r n o x c to s b h =
      k.tags n _ _ (set_position_state-kept r x o.symbol to _ _ s _ (open_cycle-kept c b h))

  -- A close tags its order, sets the state and ends the cycle.
  closes-kept :
      (r : Reconciler) (n : ℕ) (o : Order) (x : Option (ℕ × Position)) (out : CycleOutcome)
      (b : Books)
      → P b
      → P (
          end_cycle r.now x (cycle_of x) out (
            set_position_state r x o.symbol idle "close" none o.strategy_id
              (tag_untagged n o (cycle_of x) b)))
  closes-kept r n o x out b h = end_cycle-kept r.now x (cycle_of x) out _ (
      set_position_state-kept r x o.symbol idle _ none o.strategy_id _
        (tag_untagged-kept n o (cycle_of x) b h))

  on_pmcc_call-kept :
      (r : Reconciler) (n : ℕ) (o : Order) (x : Option (ℕ × Position)) (price : ℤ) (t : OrderType)
      (b : Books)
      → P b
      → P (on_pmcc_call r n o x price t b)
  on_pmcc_call-kept r n o x price buy_to_open b h = opens-kept r n o x _ _ _ b h
  on_pmcc_call-kept r n o x price sell_to_open b h =
      tag-kept n _ _ (set_position_state-kept r x o.symbol _ _ _ _ b h)
  on_pmcc_call-kept r n o x price buy_to_close b h =
      set_position_state-kept r x o.symbol _ _ _ _ _ (tag_untagged-kept n o _ b h)
  on_pmcc_call-kept r n o x price sell_to_close b h = closes-kept r n o x _ b h
  on_pmcc_call-kept r n o x price multi_leg_open b h = flag-kept r o.symbol _ _ b h
  on_pmcc_call-kept r n o x price multi_leg_close b h = flag-kept r o.symbol _ _ b h

  on_pmcc_fill-kept :
      (r : Reconciler) (n : ℕ) (o : Order) (x : Option (ℕ × Position)) (price : ℤ) (b : Books)
      → P b
      → P (on_pmcc_fill r n o x price b)
  unfolding on_pmcc_fill
  on_pmcc_fill-kept r n o x price b h =
      if_kept (is_call_option o.option_type) _ _ (on_pmcc_call-kept r n o x price o.order_type b h)
        (flag-kept r o.symbol _ _ b h)

  on_swing_option-kept :
      (r : Reconciler) (n : ℕ) (o : Order) (x : Option (ℕ × Position)) (price : ℤ) (t : OrderType)
      (b : Books)
      → P b
      → P (on_swing_option r n o x price t b)
  on_swing_option-kept r n o x price buy_to_open b h = opens-kept r n o x _ _ _ b h
  on_swing_option-kept r n o x price sell_to_close b h = closes-kept r n o x _ b h
  on_swing_option-kept r n o x price sell_to_open b h = flag-kept r o.symbol _ _ b h
  on_swing_option-kept r n o x price buy_to_close b h = flag-kept r o.symbol _ _ b h
  on_swing_option-kept r n o x price multi_leg_open b h = flag-kept r o.symbol _ _ b h
  on_swing_option-kept r n o x price multi_leg_close b h = flag-kept r o.symbol _ _ b h

  on_swing_fill-kept :
      (r : Reconciler) (n : ℕ) (o : Order) (x : Option (ℕ × Position)) (price : ℤ) (b : Books)
      → P b
      → P (on_swing_fill r n o x price b)
  unfolding on_swing_fill
  on_swing_fill-kept r n o x price b h =
      if_kept (is_none o.option_type) _ _ (flag-kept r o.symbol _ _ b h)
        (on_swing_option-kept r n o x price o.order_type b h)

  on_wheel_fill-kept :
      (r : Reconciler) (n : ℕ) (o : Order) (x : Option (ℕ × Position)) (price : ℤ) (t : OrderType)
      (b : Books)
      → P b
      → P (on_wheel_fill r n o x price t b)
  unfolding on_wheel_fill
  on_wheel_fill-kept r n o x price multi_leg_open b h = opens-kept r n o x _ _ _ b h
  on_wheel_fill-kept r n o x price multi_leg_close b h =
      end_cycle-kept r.now x _ _ _
        (tag_untagged-kept n o _ _ (set_position_state-kept r x o.symbol _ _ _ _ b h))
  on_wheel_fill-kept r n o x price sell_to_open b h =
      if_kept (is_put_option o.option_type) _ _ (opens-kept r n o x _ _ _ b h)
        (tag-kept n _ _ (set_position_state-kept r x o.symbol _ _ _ _ b h))
  on_wheel_fill-kept r n o x price buy_to_close b h =
      let tagged = tag_untagged-kept n o (cycle_of x) b h in
      if_kept (is_put_option o.option_type) _ _
        (close_current-kept r.now _ _ _ (set_position_state-kept r x o.symbol _ _ _ _ _ tagged))
        (set_position_state-kept r x o.symbol _ _ _ _ _ tagged)
  on_wheel_fill-kept r n o x price buy_to_open b h = flag-kept r o.symbol _ _ b h
  on_wheel_fill-kept r n o x price sell_to_close b h = flag-kept r o.symbol _ _ b h

  on_fill-kept :
      (r : Reconciler) (n : ℕ) (local view : Order) (b : Books) → P b → P (on_fill r n local view b)
  unfolding on_fill
  on_fill-kept r n local view b h =
      let counted = count-kept (λ s. record s { fills_processed = s.fills_processed + 1 }) b h in
      if_kept (is_pmcc local.strategy_id) _ _ (on_pmcc_fill-kept r n local _ _ _ counted) (
        if_kept (is_swing r local.strategy_id) _ _ (on_swing_fill-kept r n local _ _ _ counted)
          (on_wheel_fill-kept r n local _ _ local.order_type _ counted))

  restore-kept :
      (r : Reconciler) (o : Order) (x : ℕ × Position) (to : Option (PositionState × Bool))
      (b : Books)
      → P b
      → P (restore r o x to b)
  restore-kept r o x none b h = h
  restore-kept r o x (some (to, still_open)) b h =
      k.counts _ _ (set_position_state-kept r (some x) o.symbol to _ _ _ b h)

  cancel_at-kept :
      (r : Reconciler) (o : Order) (x : Option (ℕ × Position)) (b : Books)
      → P b
      → P (cancel_at r o x b)
  cancel_at-kept r o none b h = h
  cancel_at-kept r o (some (n, p)) b h = restore-kept r o (n, p) _ b h

  on_cancel-kept : (r : Reconciler) (o : Order) (b : Books) → P b → P (on_cancel r o b)
  unfolding on_cancel
  on_cancel-kept r o b h = cancel_at-kept r o _ b h

  end_unfilled-kept :
      (r : Reconciler) (o : Order) (v : BrokerView) (b : Books) → P b → P (end_unfilled r o v b)
  end_unfilled-kept r o v b h =
      if_kept (observed_partial_fill o v) _ _ (flag-kept r o.symbol _ _ b h)
        (on_cancel-kept r o b h)

  dispatch_status-kept :
      (s : OrderStatus) (r : Reconciler) (n : ℕ) (o : Order) (v : BrokerView) (b : Books)
      → P b
      → P (dispatch_status s r n o v b)
  dispatch_status-kept filled r n o v b h = on_fill-kept r n o v.order b h
  dispatch_status-kept cancelled r n o v b h = end_unfilled-kept r o v b h
  dispatch_status-kept rejected r n o v b h = end_unfilled-kept r o v b h
  dispatch_status-kept pending r n o v b h = h
  dispatch_status-kept partial r n o v b h = h

  pub dispatch-kept :
      (r : Reconciler) (n : ℕ) (o : Order) (v : BrokerView) (b : Books)
      → P b
      → P (dispatch_order_transition r n o v b)
  unfolding dispatch_order_transition
  dispatch-kept r n o v b h =
      if_kept (is_open o.status) _ _ (dispatch_status-kept v.order.status r n o v b h) h
