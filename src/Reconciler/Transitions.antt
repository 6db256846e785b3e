-- ===== src/Reconciler/Transitions.antt =====
-- execution/reconciler.py: the transitions of a position, and the writes that are one of them.
use wheelbot.Common.{
  if◌then◌else◌, Bool, Bool-cases, Option, String, ap, arith, false, inl, inr, is_none, none, refl,
  some, true, ℕ, ◌+◌, ◌∙◌, ◌≡◌, ◌⊎◌,
}
use wheelbot.Reconciler.Defs.{
  Books, CycleOutcome, Reconciler, WheelCycle, count, cycle_closed_loss, notify, position_at,
}
use wheelbot.Models.{
  Position, PositionState, Symbol, cc_open, cc_pending, csp_open, csp_pending, idle,
  manual_intervention, pmcc_both_open, pmcc_long_open, pmcc_long_pending, pmcc_short_pending,
  shares_held, spread_open, spread_pending,
}
use wheelbot.Reconciler.Shapes.{buy_shares, sell_shares}
use wheelbot.Reconciler.Cycles.{close_current, close_cycle, close_found, closed, compute_cycle_pnl}
use wheelbot.Reconciler.States.{
  flag_found, flag_manual_intervention, is_manual, move, raise_flag, set_position_state, with_cycle,
  with_state,
}
use wheelbot.Reconciler.Diff.{flag_own, set_own}
use wheelbot.Common.Int.{ltb_ℤ, pos, ℤ}
use wheelbot.Store.Rows.{row, update_row}
use wheelbot.Reconciler.Logged.{states, states-update}

-- The states in which a shape that the code does not explain is handed to an operator.
abbrev is_watched : PositionState → Bool
is_watched csp_open = true
is_watched cc_open = true
is_watched spread_open = true
is_watched spread_pending = true
is_watched pmcc_long_open = true
is_watched pmcc_both_open = true
is_watched _ = false

-- The transitions that the broker's positions imply.
pub data Shift : PositionState → PositionState → Type 0 where
  put_expires : Shift csp_open idle
  put_assigned : Shift csp_open shares_held
  call_expires : Shift cc_open shares_held
  shares_called : Shift cc_open idle
  put_filled : Shift csp_pending csp_open
  put_unfilled : Shift csp_pending idle
  call_filled : Shift cc_pending cc_open
  call_unfilled : Shift cc_pending shares_held
  spread_expires : Shift spread_open idle
  spread_found : Shift spread_pending spread_open
  short_expires : Shift pmcc_both_open pmcc_long_open
  long_filled : Shift pmcc_long_pending pmcc_long_open
  long_unfilled : Shift pmcc_long_pending idle
  short_filled : Shift pmcc_short_pending pmcc_both_open
  short_unfilled : Shift pmcc_short_pending pmcc_long_open
  doubted : {s : PositionState} → is_watched s ≡ true → Shift s manual_intervention

-- No row's state changes, or that of row `n` by one transition.
abbrev pub Moved : (n : ℕ) → PositionState → (b b' : Books) → Type 0
Moved n from b b' =
    (states b'.positions ≡ states b.positions)
    ⊎ ((to : PositionState) × Shift from to
        × (states b'.positions ≡ update_row n (λ _. to) (states b.positions)))

pub if_Moved :
    (n : ℕ) (from : PositionState) (b : Books) (t : Bool) (c d : Books)
    → Moved n from b c
    → Moved n from b d
    → Moved n from b (if t then c else d)
if_Moved n from b true c d h k = h
if_Moved n from b false c d h k = k

pub move-Moved :
    (now n : ℕ) (p : Position) (from to : PositionState) (reason : String) (f : Position → Position)
    (b c : Books)
    → Shift from to
    → c.positions ≡ b.positions
    → Moved n from b (move now n p to reason f c)
unfolding move
move-Moved now n p from to reason f b c h e = inr (
  to,
  h,
  states-update n (λ q. with_state to reason now (f q)) to c.positions (λ q. refl)
      ∙ ap (λ ps. update_row n (λ _. to) (states ps)) e,
)

pub set_own-Moved :
    (r : Reconciler) (n : ℕ) (p : Position) (from to : PositionState) (reason : String)
    (c : Option ℕ) (b d : Books)
    → Shift from to
    → d.positions ≡ b.positions
    → Moved n from b (set_own r n p to reason c d)
unfolding set_position_state
set_own-Moved r n p from to reason c b d h e =
    move-Moved r.now n p from to reason (with_cycle c) b d h e

watched_false : (s : PositionState) → is_watched s ≡ true → is_manual s ≡ false
watched_false manual_intervention h = ground arith
watched_false csp_open h = refl
watched_false cc_open h = refl
watched_false spread_open h = refl
watched_false spread_pending h = refl
watched_false pmcc_long_open h = refl
watched_false pmcc_both_open h = refl
watched_false _ h = ground arith

-- A flag on the position itself.
pub flag_own-Moved :
    (r : Reconciler) (n : ℕ) (p : Position) (from : PositionState) (reason : String) (b : Books)
    → p.state ≡ from
    → is_watched from ≡ true
    → position_at r p.symbol (some p.strategy_id) b ≡ some (n, p)
    → Moved n from b (flag_own r p reason b)
unfolding flag_manual_intervention move
flag_own-Moved r n p from reason b is watched e =
    let fresh : is_manual p.state ≡ false = ap is_manual is ∙ watched_false from watched in
    let found : (flag_manual_intervention r p.symbol reason (some p.strategy_id) b).positions
        ≡ (move r.now n p manual_intervention reason (λ q. q) (raise_flag p.symbol b)).positions =
      ap (λ x. (flag_found r p.symbol reason (some p.strategy_id) x b).positions) e
      ∙ ap
          (λ z.
            (if z
              then b
              else move r.now n p manual_intervention reason (λ q. q)
                  (raise_flag p.symbol b)).positions)
          fresh in
    inr (
      manual_intervention,
      doubted watched,
      ap states found
          ∙ states-update n (with_state manual_intervention reason r.now) manual_intervention
              b.positions (λ q. refl),
    )

close_found-positions :
    (now c : ℕ) (o : CycleOutcome) (pnl : ℤ) (x : Option WheelCycle) (b : Books)
    → (close_found now c o pnl x b).positions ≡ b.positions
close_found-positions now c o pnl none b = refl
close_found-positions now c o pnl (some w) b = same (is_none w.ended_at) (ltb_ℤ pnl (pos 0))
  where
    same :
        (t u : Bool)
        → (if t
            then if u
              then notify (cycle_closed_loss w.symbol pnl) (
                  count
                    (λ s. record s { cycles_closed = s.cycles_closed + 1 })
                    (record b { cycles = update_row c (closed now pnl o) b.cycles }))
              else count
                  (λ s. record s { cycles_closed = s.cycles_closed + 1 })
                  (record b { cycles = update_row c (closed now pnl o) b.cycles })
            else b).positions
          ≡ b.positions
    same true true = refl
    same true false = refl
    same false u = refl

pub close_current-positions :
    (now : ℕ) (c : Option ℕ) (o : CycleOutcome) (b : Books)
    → (close_current now c o b).positions ≡ b.positions
unfolding close_current close_cycle
close_current-positions now none o b = refl
close_current-positions now (some c) o b =
    close_found-positions now c o (compute_cycle_pnl c b.orders) (row c b.cycles) b

pub buy_shares-positions :
    (r : Reconciler) (s : Symbol) (c : Option ℕ) (q a : ℤ) (b : Books)
    → (buy_shares r s c q a b).positions ≡ b.positions
buy_shares-positions r s none q a b = refl
buy_shares-positions r s (some c) q a b = refl

pub sell_shares-positions :
    (r : Reconciler) (s : Symbol) (c : Option ℕ) (q : ℤ) (a : Option ℤ) (b : Books)
    → (sell_shares r s c q a b).positions ≡ b.positions
sell_shares-positions r s none q a b = refl
sell_shares-positions r s (some c) q none b = refl
sell_shares-positions r s (some c) q (some a) b = elim (Bool-cases (ltb_ℤ (pos 0) q)) [
  | inl e ↦ rw e refl
  | inr e ↦ rw e refl
]
