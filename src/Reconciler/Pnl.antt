-- ===== src/Reconciler/Pnl.antt =====
-- execution/reconciler.py: the profit of a cycle through the assignment and the call of its shares.
use wheelbot.Common.{
  if◌then◌else◌, ==_iff, Bool, List, [], ap, arith, false, is_none, lt→ltb, none, refl, some, true,
  ℕ, ◌++◌, ◌+◌, ◌∙◌, ◌∷◌, ◌≡◌, ◌&&◌, get_or, sym,
}
use wheelbot.Common.IntLaws.{*-minus_one, *-one, *ℤ_parts, *-sub}
use wheelbot.Reconciler.Defs.{
  Books, CycleOutcome, Reconciler, WheelCycle, count, cycle_closed_loss, notify, cc_called_away,
  position_called_away,
}
use wheelbot.Models.{Order, Position, Symbol, buy_to_open, sell_to_close, idle, shares_held}
use wheelbot.Reconciler.Shapes.{
  assigned_shares, cycle_csp_quantity, on_assignment, shares_sold, strike_of, synthetic, call_away,
  cycle_cc_strike, emptied, insert_order, on_called_away, assigned_basis,
}
use wheelbot.Reconciler.Cycles.{
  cash_flow, close_cycle, close_found, closed, compute_cycle_pnl, notify_loss, or_one,
  close_current, csp_cycle,
}
use wheelbot.Common.Int.{int_laws, ltb_ℤ, pos, ℤ, ◌*ℤ◌, ◌+ℤ◌, ◌-ℤ◌, ◌<ℤ◌, pos_part}
use wheelbot.Reconciler.States.{move, flag_manual_intervention, with_state}
use wheelbot.Store.Rows.{row, update_row}
use wheelbot.Store.Numbers.{row-update_row}
use wheelbot.Reconciler.Twice.{at_time}
use wheelbot.PaperBroker.{after}

pub compute_cycle_pnl-append :
    (c : ℕ) (os ps : List Order)
    → compute_cycle_pnl c (os ++ ps) ≡ compute_cycle_pnl c os +ℤ compute_cycle_pnl c ps
unfolding compute_cycle_pnl
compute_cycle_pnl-append c [] ps = omega int_laws
compute_cycle_pnl-append c (o ∷ os) ps =
    ap (λ a. cash_flow c o +ℤ a) (compute_cycle_pnl-append c os ps)
    ∙ add_assoc (cash_flow c o) (compute_cycle_pnl c os) (compute_cycle_pnl c ps)
  where
    add_assoc : (x y z : ℤ) → x +ℤ (y +ℤ z) ≡ (x +ℤ y) +ℤ z
    add_assoc x y z = omega int_laws

one-flow : (c : ℕ) (o : Order) → compute_cycle_pnl c (o ∷ []) ≡ cash_flow c o
unfolding compute_cycle_pnl
one-flow c o = omega int_laws

bought :
    (r : Reconciler) (s : Symbol) (c : ℕ) (q a : ℤ)
    → cash_flow c (synthetic r s buy_to_open c q a) ≡ pos 0 -ℤ (a *ℤ q)
bought r s c q a = rw ((==_iff c c).1 refl) (*-minus_one (a *ℤ q))

sold :
    (r : Reconciler) (s : Symbol) (c : ℕ) (q a : ℤ)
    → cash_flow c (synthetic r s sell_to_close c q a) ≡ a *ℤ q
sold r s c q a = rw ((==_iff c c).1 refl) (*-one (a *ℤ q))

abbrev pub in_cycle : ℕ → Position → Position
in_cycle c p = record p { current_cycle_id = some c }

or_one-positive : (q : ℤ) → pos 0 <ℤ q → or_one q ≡ q
or_one-positive q h = ground arith

-- The shares that an assignment buys.
on_assignment-orders :
    (r : Reconciler) (n c : ℕ) (p : Position) (q : ℤ) (b : Books)
    → cycle_csp_quantity (some c) b.orders ≡ some q
    → pos 0 <ℤ q
    → (on_assignment r n (in_cycle c p) b).orders
      ≡ b.orders
        ++ synthetic r p.symbol buy_to_open c (pos 100 *ℤ q) (strike_of (row c b.cycles)) ∷ []
unfolding on_assignment move
on_assignment-orders r n c p q b e h =
    ap
      (λ x.
        b.orders
        ++ synthetic r p.symbol buy_to_open c (assigned_shares x) (strike_of (row c b.cycles)) ∷ [])
      e
    ∙ ap
        (λ x.
          b.orders
          ++ synthetic r p.symbol buy_to_open c (pos 100 *ℤ x) (strike_of (row c b.cycles)) ∷ [])
        (or_one-positive q h)

shares-positive :
    (q : ℤ) (p : Position)
    → pos 0 <ℤ q
    → (shares_sold (some q) p ≡ pos 100 *ℤ q) × (ltb_ℤ (pos 0) (pos 100 *ℤ q) ≡ true)
shares-positive q p h =
    let more : pos 0 <ℤ (pos 100 *ℤ q) = omega (arith, *ℤ_parts (pos 100) q) in
    (ground arith, lt→ltb _ _ more)

-- A cycle that is open is closed with the profit of its orders.
close_cycle-row :
    (now c : ℕ) (o : CycleOutcome) (w : WheelCycle) (b : Books)
    → row c b.cycles ≡ some w
    → w.ended_at ≡ none
    → row c (close_cycle now c o b).cycles ≡ some (closed now (compute_cycle_pnl c b.orders) o w)
unfolding close_cycle
close_cycle-row now c o w b e h =
    let pnl = compute_cycle_pnl c b.orders in
    ap (λ x. row c (close_found now c o pnl x b).cycles) e
    ∙ ap
        (λ x.
          row c
            (if is_none x
              then notify_loss w.symbol pnl (
                  count (λ s. record s { cycles_closed = s.cycles_closed + 1 })
                    (record b { cycles = update_row c (closed now pnl o) b.cycles }))
              else b).cycles)
        h
    ∙ told (ltb_ℤ pnl (pos 0))
    ∙ row-update_row c (closed now pnl o) w b.cycles e
  where
    told :
        (t : Bool)
        → row c
            (if t
              then notify (cycle_closed_loss w.symbol (compute_cycle_pnl c b.orders)) (
                  count
                    (λ s. record s { cycles_closed = s.cycles_closed + 1 })
                    (record b {
                      cycles = update_row c (closed now (compute_cycle_pnl c b.orders) o) b.cycles;
                    }))
              else count
                  (λ s. record s { cycles_closed = s.cycles_closed + 1 })
                  (record b {
                    cycles = update_row c (closed now (compute_cycle_pnl c b.orders) o) b.cycles;
                  })).cycles
          ≡ row c (update_row c (closed now (compute_cycle_pnl c b.orders) o) b.cycles)
    told true = refl
    told false = refl

-- The call of the shares sells them at the strike of the call, and closes the cycle.
called_away-row :
    (r : Reconciler) (n c : ℕ) (p : Position) (q k : ℤ) (w : WheelCycle) (b : Books)
    → cycle_csp_quantity (some c) b.orders ≡ some q
    → pos 0 <ℤ q
    → cycle_cc_strike (some c) b.orders ≡ some k
    → row c b.cycles ≡ some w
    → w.ended_at ≡ none
    → row c (on_called_away r n (in_cycle c p) b).cycles
      ≡ some (
          closed r.now
            (compute_cycle_pnl c
              (b.orders ++ synthetic r p.symbol sell_to_close c (pos 100 *ℤ q) k ∷ []))
            cc_called_away
            w)
unfolding on_called_away move close_current
called_away-row r n c p q k w b quantity some_shares strike e h =
    let own = in_cycle c p in
    let (sold_all, more) = shares-positive q own some_shares in
    let shares = pos 100 *ℤ q in
    let told =
      notify (position_called_away p.symbol)
        (count (λ s. record s { called_aways_processed = s.called_aways_processed + 1 }) b) in
    let sale = insert_order (synthetic r p.symbol sell_to_close c shares k) told in
    ap
      (λ x.
        row c
          (call_away r n own x (shares_sold (cycle_csp_quantity (some c) b.orders) own) b).cycles)
      strike
    ∙ ap (λ x. row c (call_away r n own (some k) (shares_sold x own) b).cycles) quantity
    ∙ ap (λ x. row c (call_away r n own (some k) x b).cycles) sold_all
    ∙ ap
        (λ z.
          row c
            (if z && false
              then flag_manual_intervention r p.symbol "called_away_missing_cc_strike"
                  (some p.strategy_id) b
              else move r.now n own idle "called_away" emptied
                  (close_cycle r.now c cc_called_away (if z then sale else told))).cycles)
        more
    ∙ close_cycle-row r.now c cc_called_away w sale e h

-- Two flows of the same shares.
flows_net :
    (a b k s q : ℤ) → (((a +ℤ (pos 0 -ℤ (s *ℤ q))) +ℤ b) +ℤ (k *ℤ q)) ≡ (a +ℤ b) +ℤ ((k -ℤ s) *ℤ q)
flows_net a b k s q = omega int_laws ∙ ap (λ x. (a +ℤ b) +ℤ x) (sym (*-sub k s q))

-- The shares of a wheel net out: from the assignment of a put to the call of the shares, with any
-- orders in between, the cycle's profit is that of its other orders and the difference of the two
-- strikes on the shares of the put's contracts. The cycle is one that is open, whose put and call
-- are on record, and the position is in it at both times.
pub called_away-nets :
    (r : Reconciler) (t n c : ℕ) (local p : Position) (q k : ℤ) (w : WheelCycle) (b b' : Books)
    (os : List Order)
    → local.current_cycle_id ≡ some c
    → p.current_cycle_id ≡ some c
    → cycle_csp_quantity (some c) b.orders ≡ some q
    → pos 0 <ℤ q
    → b'.orders ≡ (on_assignment r n local b).orders ++ os
    → cycle_csp_quantity (some c) b'.orders ≡ some q
    → cycle_cc_strike (some c) b'.orders ≡ some k
    → row c b'.cycles ≡ some w
    → w.ended_at ≡ none
    → row c (on_called_away (at_time t r) n p b').cycles
      ≡ some (
          closed t
            ((compute_cycle_pnl c b.orders +ℤ compute_cycle_pnl c os)
              +ℤ ((k -ℤ strike_of (row c b.cycles)) *ℤ (pos 100 *ℤ q)))
            cc_called_away
            w)
called_away-nets r t n c local p q k w b b' os before after quantity some_shares filed again strike
      e h =
    let own : p ≡ in_cycle c p = λ i. record p { current_cycle_id = after i } in
    let old : local ≡ in_cycle c local = λ i. record local { current_cycle_id = before i } in
    let shares = pos 100 *ℤ q in
    let s = strike_of (row c b.cycles) in
    let buy = synthetic r local.symbol buy_to_open c shares s in
    let sell = synthetic (at_time t r) p.symbol sell_to_close c shares k in
    let orders : b'.orders ≡ (b.orders ++ buy ∷ []) ++ os =
      filed
      ∙ ap (λ x. (on_assignment r n x b).orders ++ os) old
      ∙ ap (λ xs. xs ++ os) (on_assignment-orders r n c local q b quantity some_shares) in
    let pnl : compute_cycle_pnl c (b'.orders ++ sell ∷ [])
        ≡ (compute_cycle_pnl c b.orders +ℤ compute_cycle_pnl c os) +ℤ ((k -ℤ s) *ℤ shares) =
      ap (λ xs. compute_cycle_pnl c (xs ++ sell ∷ [])) orders
      ∙ compute_cycle_pnl-append c ((b.orders ++ buy ∷ []) ++ os) (sell ∷ [])
      ∙ ap (λ x. x +ℤ compute_cycle_pnl c (sell ∷ []))
          (compute_cycle_pnl-append c (b.orders ++ buy ∷ []) os)
      ∙ ap (λ x. (x +ℤ compute_cycle_pnl c os) +ℤ compute_cycle_pnl c (sell ∷ []))
          (compute_cycle_pnl-append c b.orders (buy ∷ []))
      ∙ ap
          (λ x.
            ((compute_cycle_pnl c b.orders +ℤ x) +ℤ compute_cycle_pnl c os)
            +ℤ compute_cycle_pnl c (sell ∷ []))
          (one-flow c buy ∙ bought r local.symbol c shares s)
      ∙ ap
          (λ x.
            ((compute_cycle_pnl c b.orders +ℤ (pos 0 -ℤ (s *ℤ shares))) +ℤ compute_cycle_pnl c os)
            +ℤ x)
          (one-flow c sell ∙ sold (at_time t r) p.symbol c shares k)
      ∙ flows_net (compute_cycle_pnl c b.orders) (compute_cycle_pnl c os) k s shares in
    ap (λ x. row c (on_called_away (at_time t r) n x b').cycles) own
    ∙ called_away-row (at_time t r) n c p q k w b' again some_shares strike e h
    ∙ ap (λ x. some (closed t x cc_called_away w)) pnl

-- What an assignment of more than one contract makes of the cost basis per share: the strike less
-- the premium of all contracts, for the position in the cycle that the fill of the put at `price`
-- opened.
pub on_assignment-basis :
    (r s : Reconciler) (n c : ℕ) (local : Position) (o : Order) (price strike : ℤ) (b : Books)
    → local.current_cycle_id ≡ some c
    → row n b.positions ≡ some local
    → row c b.cycles ≡ some (csp_cycle s o price)
    → o.strike ≡ some strike
    → (p : Position) × (row n (on_assignment r n local b).positions ≡ some p)
      × (p.state ≡ shares_held)
      × (p.cost_basis
          ≡ some (record { num = strike *ℤ pos 100 -ℤ price *ℤ pos 100 *ℤ o.quantity; den = 100 }))
unfolding on_assignment move
on_assignment-basis r s n c local o price strike b before found e h =
    let own : local ≡ in_cycle c local = λ i. record local { current_cycle_id = before i } in
    let shares = assigned_shares (cycle_csp_quantity (some c) b.orders) in
    let f : Position → Position = λ p. with_state shares_held "assignment" r.now (record p {
      shares = pos_part shares;
      cost_basis = some (assigned_basis (row c b.cycles));
    }) in
    (
      f local,
      ap (λ x. row n (on_assignment r n x b).positions) own
          ∙ row-update_row n f local b.positions found,
      refl,
      ap (λ x. some (assigned_basis x)) e
          ∙ ap
              (λ x. some (record {
                num = get_or x (pos 0) *ℤ pos 100 -ℤ price *ℤ pos 100 *ℤ o.quantity;
                den = 100;
              }))
              h,
    )
