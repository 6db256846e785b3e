-- ===== src/RiskGate/Breakeven.antt =====
-- risk/limits.py, the PMCC breakeven: what a short call that passes is above.
use mathlib.Core.Option.{some-injective}
use mathlib.Core.Path.{subst}
use mathlib.Core.List.{Mem, mem-cons_of_mem, mem-cons_self}
use wheelbot.Common.{
  if◌then◌else◌, Bool, Bool-cases, List, Option, [], ap, arith, false, inl, inr, none, refl, some,
  str_eq, sym, true, ℕ, ◌∙◌, ◌∷◌, ◌≡◌, ◌≤◌, all, leb, ltb, not, ◌&&◌, ◌+◌, ◌==◌, ◌||◌,
}
use wheelbot.Common.Int.{ltb_ℤ, ℤ, ◌+ℤ◌, ◌-ℤ◌, ◌<ℤ◌, +ℤ_parts, -ℤ_parts, neg_part, pos, pos_part}
use wheelbot.Macro.{Alarms}
use wheelbot.Models.{
  Position, Proposal, buy_to_open, call, filled, sell_to_open, OptionType, OrderStatus, OrderType,
  is_put, put,
}
use wheelbot.RiskGate.{evaluate}
use wheelbot.RiskGate.Defs.{
  GateConfig, Market, OrderRow, Status, fail, is_fail, pass_if, single, is_buy_to_open,
}
use wheelbot.RiskGate.Passed.{evaluate-breakeven_rule}
use wheelbot.RiskGate.Screens.{
  is_long_call, latest_long, long_breakeven, newer, rule_pmcc_short_above_breakeven,
}
use wheelbot.Store.Positions.{get_by_symbol}

abbrev above : Option ℤ → ℤ → Status
above o k = elim o [ none ↦ fail | some b ↦ pass_if (ltb_ℤ b k) ]

above-some :
    (o : Option ℤ) (k : ℤ) → is_fail (above o k) ≡ false → (b : ℤ) × (o ≡ some b) × (b <ℤ k)
above-some none k h = ground arith
above-some (some b) k h = (b, refl, ground arith)

breakeven_eq :
    (p : Proposal) (cfg : GateConfig) (m : Market)
    → str_eq p.strategy_id "pmcc" ≡ true
    → p.order_type ≡ sell_to_open
    → p.contract.option_type ≡ call
    → rule_pmcc_short_above_breakeven p cfg m ≡ above (long_breakeven p cfg m) p.contract.strike
unfolding rule_pmcc_short_above_breakeven
breakeven_eq p cfg m same short is_call = rw (same, short, is_call) refl

breakeven_lem :
    (p : Proposal) (cfg : GateConfig) (m : Market)
    → str_eq p.strategy_id "pmcc" ≡ true
    → p.order_type ≡ sell_to_open
    → p.contract.option_type ≡ call
    → is_fail (rule_pmcc_short_above_breakeven p cfg m) ≡ false
    → (b : ℤ) × (long_breakeven p cfg m ≡ some b) × (b <ℤ p.contract.strike)
breakeven_lem p cfg m same short is_call held =
    above-some (long_breakeven p cfg m) p.contract.strike
      (sym (ap is_fail (breakeven_eq p cfg m same short is_call)) ∙ held)

abbrev bought : OrderType → OptionType → OrderStatus → Bool
bought buy_to_open call filled = true
bought _ _ _ = false

-- A call that was bought, and filled, in the cycle.
abbrev pub is_call_bought : (cycle : ℕ) → OrderRow → Bool
is_call_bought cycle o = o.cycle_id == cycle && bought o.order_type o.option_type o.status

is_long_call-bought : (cycle : ℕ) (o : OrderRow) → is_long_call cycle o ≡ is_call_bought cycle o
is_long_call-bought cycle o =
    ap (λ b. (o.cycle_id == cycle) && b) (by_columns o.order_type o.option_type o.status)
  where
    by_columns :
        (t : OrderType) (u : OptionType) (s : OrderStatus)
        → (is_buy_to_open t && (not (is_put u) && elim s [ filled ↦ true | _ ↦ false ]))
          ≡ bought t u s
    by_columns buy_to_open put s = refl
    by_columns buy_to_open call filled = refl
    by_columns buy_to_open call _ = refl
    by_columns _ u s = refl

-- No call that was bought in the cycle was placed after `o`.
abbrev pub is_latest : (cycle : ℕ) → OrderRow → List OrderRow → Bool
is_latest cycle o os = all (λ x. not (is_call_bought cycle x) || leb x.placed_at o.placed_at) os

abbrev IsLatest : (cycle : ℕ) → List OrderRow → Option OrderRow → Type 0
IsLatest cycle os none = all (λ x. not (is_call_bought cycle x)) os ≡ true
IsLatest cycle os (some o) =
    Mem o os × (is_call_bought cycle o ≡ true) × (is_latest cycle o os ≡ true)

none_bought :
    (cycle : ℕ) (o : OrderRow) (os : List OrderRow)
    → all (λ x. not (is_call_bought cycle x)) os ≡ true
    → is_latest cycle o os ≡ true
none_bought cycle o [] h = refl
none_bought cycle o (x ∷ os) h = ground (arith, none_bought cycle o os)

later_still :
    (cycle : ℕ) (o q : OrderRow) (os : List OrderRow)
    → q.placed_at ≤ o.placed_at
    → is_latest cycle q os ≡ true
    → is_latest cycle o os ≡ true
later_still cycle o q [] h k = refl
later_still cycle o q (x ∷ os) h k = ground (arith, later_still cycle o q os h)

-- A bought call before the rows of which `x` is the latest.
newer-IsLatest :
    (cycle : ℕ) (o : OrderRow) (os : List OrderRow) (x : Option OrderRow)
    → is_call_bought cycle o ≡ true
    → IsLatest cycle os x
    → IsLatest cycle (o ∷ os) (some (newer o x))
newer-IsLatest cycle o os none b h = (mem-cons_self, b, ground (arith, none_bought cycle o os h))
newer-IsLatest cycle o os (some q) b (there, bq, late) =
    elim (Bool-cases (ltb o.placed_at q.placed_at)) [
      | inl e ↦
          subst (λ x. IsLatest cycle (o ∷ os) (some x)) (ap (λ c. if c then q else o) (sym e))
            (mem-cons_of_mem o there, bq, ground (arith, late))
      | inr e ↦
          subst (λ x. IsLatest cycle (o ∷ os) (some x)) (ap (λ c. if c then q else o) (sym e))
            (mem-cons_self, b, ground (arith, later_still cycle o q os (ground arith) late))
    ]

skipped-IsLatest :
    (cycle : ℕ) (o : OrderRow) (os : List OrderRow) (x : Option OrderRow)
    → is_call_bought cycle o ≡ false
    → IsLatest cycle os x
    → IsLatest cycle (o ∷ os) x
skipped-IsLatest cycle o os none b h = ground arith
skipped-IsLatest cycle o os (some q) b (there, bq, late) =
    (mem-cons_of_mem o there, bq, ground arith)

latest_long-IsLatest : (cycle : ℕ) (os : List OrderRow) → IsLatest cycle os (latest_long cycle os)
unfolding latest_long
latest_long-IsLatest cycle [] = refl
latest_long-IsLatest cycle (o ∷ os) = elim (Bool-cases (is_long_call cycle o)) [
  | inl e ↦ rw e (
      newer-IsLatest cycle o os (latest_long cycle os) (sym (is_long_call-bought cycle o) ∙ e)
        (latest_long-IsLatest cycle os))
  | inr e ↦ rw e (
      skipped-IsLatest cycle o os (latest_long cycle os) (sym (is_long_call-bought cycle o) ∙ e)
        (latest_long-IsLatest cycle os))
]

-- The long call under a short one, by the rows of the tables.
pub record IsCovered (p : Proposal) (cfg : GateConfig) (m : Market) : Type 0 where
  pub position : Position
  pub cycle : ℕ
  pub long : OrderRow
  pub strike : ℤ
  pub premium : ℤ
  pub held : get_by_symbol cfg.account_id p.symbol "pmcc" m.positions ≡ some position
  pub in_cycle : position.current_cycle_id ≡ some cycle
  pub among : Mem long m.orders
  pub is_long : is_call_bought cycle long ≡ true
  pub latest : is_latest cycle long m.orders ≡ true
  pub at_strike : long.strike ≡ some strike
  pub at_price : long.fill_price ≡ some premium
  pub above_debit : (strike +ℤ premium) <ℤ p.contract.strike
  pub above_credit : (strike -ℤ premium) <ℤ p.contract.strike

size_covers :
    (k a b : ℤ) → (k +ℤ pos (pos_part a + neg_part a)) <ℤ b → ((k +ℤ a) <ℤ b) × ((k -ℤ a) <ℤ b)
size_covers k a b h = (
  omega (arith, h, +ℤ_parts k a, +ℤ_parts k (pos (pos_part a + neg_part a))),
  omega (arith, h, -ℤ_parts k a, +ℤ_parts k (pos (pos_part a + neg_part a))),
)

-- What a chain of Options gives, its first Option gives too.
chained :
    {A : Type 0} (o : Option A) (f : A → Option ℤ) (b : ℤ)
    → elim o [ none ↦ none | some x ↦ f x ] ≡ some b
    → (x : A) × (o ≡ some x) × (f x ≡ some b)
chained none f b h = ground arith
chained (some x) f b h = (x, refl, h)

long_breakeven-IsCovered :
    (p : Proposal) (cfg : GateConfig) (m : Market) (b : ℤ)
    → long_breakeven p cfg m ≡ some b
    → b <ℤ p.contract.strike
    → IsCovered p cfg m
unfolding long_breakeven
long_breakeven-IsCovered p cfg m b e low =
    let (r, held, e₁) = chained (get_by_symbol cfg.account_id p.symbol "pmcc" m.positions) _ b e in
    let (cycle, in_cycle, e₂) = chained r.current_cycle_id _ b e₁ in
    let (o, found, e₃) = chained (latest_long cycle m.orders) _ b e₂ in
    let (k, at_strike, e₄) = chained o.strike _ b e₃ in
    let (a, at_price, e₅) = chained o.fill_price _ b e₄ in
    let (among, is_long, latest) : IsLatest cycle m.orders (some o) =
      subst (IsLatest cycle m.orders) found (latest_long-IsLatest cycle m.orders) in
    let (debit, credit) =
      size_covers k a p.contract.strike
        (subst (λ x. x <ℤ p.contract.strike) (sym (some-injective _ _ e₅)) low) in
    record {
      position = r;
      cycle = cycle;
      long = o;
      strike = k;
      premium = a;
      held = held;
      in_cycle = in_cycle;
      among = among;
      is_long = is_long;
      latest = latest;
      at_strike = at_strike;
      at_price = at_price;
      above_debit = debit;
      above_credit = credit;
    }

-- A PMCC's short call that passes the gate is covered: the account's PMCC position in the symbol is
-- in a cycle, the orders hold a filled purchase of a call in that cycle, no such purchase was placed
-- later, and the short call's strike is above that call's strike plus the size of its fill price
-- (above the strike with the price added, and with it subtracted).
pub evaluate-long_breakeven :
    (p : Proposal) (cfg : GateConfig) (m : Market) (clock : ℕ) (a : Alarms)
    → str_eq p.strategy_id "pmcc" ≡ true
    → p.order_type ≡ sell_to_open
    → p.contract.option_type ≡ call
    → (evaluate (single p) cfg m clock a).1 ≡ none
    → IsCovered p cfg m
evaluate-long_breakeven p cfg m clock a same short is_call passed =
    let (b, e, low) =
      breakeven_lem p cfg m same short is_call (evaluate-breakeven_rule p cfg m clock a passed) in
    long_breakeven-IsCovered p cfg m b e low
