-- ===== src/Spreads/Closes.antt =====
-- strategies/spreads.py, propose_close_for_symbol: when a close is proposed, and what it asks for.
use wheelbot.Common.{
  Bool-cases, ap, arith, get_or, inl, inr, map, none, refl, some, sym, true, ℕ, ◌∙◌, ◌≡◌,
  if◌then◌else◌, Bool, Option, false, length, ◌==◌, ◌+◌, ◌≤◌, ◌||◌, is_none,
}
use wheelbot.Spreads.{
  Holdings, clamped, close_leg, close_of, close_pricing, closing, is_spread_open, max_close_debit,
  open_order_for, propose_close_for_symbol, triggered, close_cycle, close_position, priced,
  CloseParams, credit_of, stop_trigger, profit_trigger, short_leg_expiration, time_trigger,
}
use wheelbot.Models.{MultiLegProposal, Order, Position, Symbol, spread_open}
use wheelbot.Store.Positions.{get_by_symbol}
use wheelbot.Common.Int.{pos, ℤ, ◌+ℤ◌, ◌-ℤ◌, ◌≤ℤ◌, -ℤ_parts, ltb_ℤ, neg_part, pos_part, ◌*ℤ◌, ◌<ℤ◌}
use wheelbot.Common.Ratio.{whole}
use wheelbot.Spreads.Opens.{opened}

pub none_some : {A : Type 0} (q : MultiLegProposal) → none ≡ some q → A
none_some q e = ground arith

pub some_inj : {a b : MultiLegProposal} → some a ≡ some b → a ≡ b
some_inj {a} {b} e = ap (λ o. get_or o a) e

-- A test that a proposal has passed.
pub if_some :
    (b : Bool) (x : Option MultiLegProposal) (q : MultiLegProposal)
    → (if b then x else none) ≡ some q
    → (b ≡ true) × (x ≡ some q)
if_some true x q e = (refl, e)
if_some false x q e = none_some q e

unless_some :
    (b : Bool) (x : Option MultiLegProposal) (q : MultiLegProposal)
    → (if b then none else x) ≡ some q
    → x ≡ some q
unless_some true x q e = none_some q e
unless_some false x q e = e

-- What stands behind a proposed close: the position, and the prices at which the order that opened
-- it is closed.
abbrev pub IsPriced : Holdings → Symbol → Order → Option (ℤ × ℤ) → MultiLegProposal → Type 0
IsPriced h symbol o md q =
    (mid : ℤ) × (debit : ℤ) × (md ≡ some (mid, debit))
    × (triggered h.params h.today o mid ≡ true)
    × (q ≡ closing symbol h.strategy_id o (clamped (max_close_debit (map close_leg o.legs)) debit))

priced-some :
    (h : Holdings) (symbol : Symbol) (o : Order) (md : Option (ℤ × ℤ)) (q : MultiLegProposal)
    → priced h symbol o md ≡ some q
    → IsPriced h symbol o md q
priced-some h symbol o none q e = none_some q e
priced-some h symbol o (some (mid, debit)) q e =
    let (hit, is) = if_some (triggered h.params h.today o mid) _ q e in
    (mid, debit, refl, hit, sym (some_inj is))

close_of-some :
    (h : Holdings) (symbol : Symbol) (x : Option Order) (q : MultiLegProposal)
    → close_of h symbol x ≡ some q
    → (o : Order) × (x ≡ some o)
      × IsPriced h symbol o (close_pricing h.quote (map close_leg o.legs)) q
close_of-some h symbol none q e = none_some q e
close_of-some h symbol (some o) q e =
    (o, refl, priced-some h symbol o _ q (unless_some (length o.legs == 0) _ q e))

abbrev pub IsClosing : Holdings → Symbol → MultiLegProposal → Type 0
IsClosing h symbol q =
    (position : Position) × (cycle : ℕ) × (o : Order) × (get_by_symbol h.account_id symbol
        h.strategy_id h.positions
      ≡ some position)
    × (is_spread_open position.state ≡ true)
    × (open_order_for cycle h.orders ≡ some o)
    × IsPriced h symbol o (close_pricing h.quote (map close_leg o.legs)) q

close_cycle-some :
    (h : Holdings) (symbol : Symbol) (x : Option ℕ) (q : MultiLegProposal)
    → close_cycle h symbol x ≡ some q
    → (cycle : ℕ) × (close_of h symbol (open_order_for cycle h.orders) ≡ some q)
close_cycle-some h symbol none q e = none_some q e
close_cycle-some h symbol (some cycle) q e = (cycle, e)

close_position-some :
    (h : Holdings) (symbol : Symbol) (x : Option Position) (q : MultiLegProposal)
    → close_position h symbol x ≡ some q
    → (position : Position) × (x ≡ some position)
      × (is_spread_open position.state ≡ true)
      × (close_cycle h symbol position.current_cycle_id ≡ some q)
close_position-some h symbol none q e = none_some q e
close_position-some h symbol (some position) q e =
    let (state, rest) = if_some (is_spread_open position.state) _ q e in
    (position, refl, state, rest)

pub propose_close-IsClosing :
    (h : Holdings) (symbol : Symbol) (q : MultiLegProposal)
    → propose_close_for_symbol h symbol ≡ some q
    → IsClosing h symbol q
unfolding propose_close_for_symbol
propose_close-IsClosing h symbol q e =
    let (position, found, state, rest) = close_position-some h symbol _ q e in
    let (cycle, there) = close_cycle-some h symbol position.current_cycle_id q rest in
    let (o, opened, is) = close_of-some h symbol (open_order_for cycle h.orders) q there in
    (position, cycle, o, found, state, opened, is)

turned-le : (a b : ℤ) → ltb_ℤ a b ≡ false → (pos 0 -ℤ a) ≤ℤ (pos 0 -ℤ b)
turned-le a b h =
    let c : pos_part b + neg_part a ≤ pos_part a + neg_part b = ground arith in
    omega (arith, -ℤ_parts (pos 0) a, -ℤ_parts (pos 0) b, c)

clamped-le : (m debit : ℤ) → (pos 0 -ℤ (m +ℤ m)) ≤ℤ (pos 0 -ℤ clamped (some m) debit)
clamped-le m debit = elim (Bool-cases (ltb_ℤ (m +ℤ m) debit)) [
  | inl e ↦ rw e (omega arith)
  | inr e ↦ rw e (turned-le (m +ℤ m) debit e)
]

-- A close never asks to pay more than the width of the spread's wings, at any quotes: the credit of
-- the proposal, which is the debit with its sign turned, is at least minus the width. Amounts are in
-- half cents, the strikes in cents.
pub propose_close-bounded :
    (h : Holdings) (symbol : Symbol) (q : MultiLegProposal) (m : ℤ)
    → propose_close_for_symbol h symbol ≡ some q
    → max_close_debit q.legs ≡ some m
    → (pos 0 -ℤ (m +ℤ m)) ≤ℤ q.net_credit_per_spread
propose_close-bounded h symbol q m e w =
    let (_, _, o, _, _, _, (mid, debit, _, _, is)) = propose_close-IsClosing h symbol q e in
    let wide : max_close_debit (map close_leg o.legs) ≡ some m =
      sym (ap (λ x. max_close_debit x.legs) is) ∙ w in
    let credit : q.net_credit_per_spread ≡ pos 0 -ℤ clamped (some m) debit =
      ap (λ x. x.net_credit_per_spread) is ∙ ap (λ x. pos 0 -ℤ clamped x debit) wide in
    rw credit (clamped-le m debit)

pub or_right : (a b : Bool) → b ≡ true → (a || b) ≡ true
or_right a b h = ground arith

stop_trigger-true :
    (p : CloseParams) (credit debit : ℤ)
    → (pos 0 <ℤ credit)
    → (pos 0 <ℤ (get_or p.stop_loss_mult (whole (pos 2))).num)
    → let mult = get_or p.stop_loss_mult (whole (pos 2)) in
      ((mult.num *ℤ credit) ≤ℤ (debit *ℤ pos mult.den)) → stop_trigger p credit debit ≡ true
stop_trigger-true p credit debit a b c = ground arith

-- The stop loss fires: once the debit at the mids reaches the strategy's multiple of the credit that
-- the spread collected, and every leg has a quote with both sides, a close of the spread is
-- proposed, whatever the profit target and the date say.
pub propose_close-stops :
    (h : Holdings) (symbol : Symbol) (position : Position) (cycle : ℕ) (o : Order) (mid debit : ℤ)
    → get_by_symbol h.account_id symbol h.strategy_id h.positions ≡ some position
    → position.state ≡ spread_open
    → position.current_cycle_id ≡ some cycle
    → open_order_for cycle h.orders ≡ some o
    → (length o.legs == 0) ≡ false
    → close_pricing h.quote (map close_leg o.legs) ≡ some (mid, debit)
    → (pos 0 <ℤ credit_of o)
    → (pos 0 <ℤ (get_or h.params.stop_loss_mult (whole (pos 2))).num)
    → ((get_or h.params.stop_loss_mult (whole (pos 2))).num *ℤ credit_of o)
      ≤ℤ (mid *ℤ pos (get_or h.params.stop_loss_mult (whole (pos 2))).den)
    → is_none (propose_close_for_symbol h symbol) ≡ false
unfolding propose_close_for_symbol
propose_close-stops h symbol position cycle o mid debit found state k opened legs quoted a b c =
    let hit : triggered h.params h.today o mid ≡ true =
      or_right
        (profit_trigger h.params (credit_of o) mid
          || time_trigger h.params h.today (short_leg_expiration o.legs))
        (stop_trigger h.params (credit_of o) mid)
        (stop_trigger-true h.params (credit_of o) mid a b c) in
    let at_prices : is_none (priced h symbol o (some (mid, debit))) ≡ false =
      ap
        (λ z. is_none (
          if z
          then some (
              closing symbol h.strategy_id o
                (clamped (max_close_debit (map close_leg o.legs)) debit))
          else none))
        hit in
    ap (λ x. is_none (close_position h symbol x)) found
    ∙ ap
        (λ s.
          is_none
            (if is_spread_open s then close_cycle h symbol position.current_cycle_id else none))
        state
    ∙ ap (λ x. is_none (close_cycle h symbol x)) k
    ∙ ap (λ x. is_none (close_of h symbol x)) opened
    ∙ ap
        (λ z.
          is_none
            (if z then none else priced h symbol o (close_pricing h.quote (map close_leg o.legs))))
        legs
    ∙ ap (λ x. is_none (priced h symbol o x)) quoted
    ∙ at_prices
