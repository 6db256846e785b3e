-- ===== src/Reconciler/KeptAll.antt =====
-- execution/reconciler.py: what every write of the reconciler keeps, a whole tick keeps.
use wheelbot.Reconciler.Defs.{Books, BrokerView, Reconciler, WheelCycle, no_summary}
use wheelbot.Reconciler.{
  Feed, diff_all, flag_unknown, locate, process_located, process_order, process_orders,
  reconcile_once, reconcile_positions,
}
use wheelbot.Reconciler.Kept.{dispatch-kept, flag-kept, if_kept}
use wheelbot.Common.{List, Option, String, [], none, some, ℕ, ◌==◌, ◌∷◌}
use wheelbot.Models.{Order, Position, Symbol}
use wheelbot.Reconciler.Parity.{
  audit_cycle_parity, audit_cycles, audit_rows, audit_symbols, broker_shares, has_symbol,
  is_untracked, local_shares, parity_flag,
}
use wheelbot.Reconciler.Diff.{diff_one}
use wheelbot.Reconciler.KeptDiff.{IsKeptAll, diff_state-kept}

module _ {P : Books → Type 0} (k : IsKeptAll P) where
  diff_all-kept :
      (r : Reconciler) (broker : List Position) (ps : List (ℕ × Position)) (b : Books)
      → P b
      → P (diff_all r broker ps b)
  unfolding diff_all diff_one
  diff_all-kept r broker [] b h = h
  diff_all-kept r broker ((n, p) ∷ ps) b h =
      diff_all-kept r broker ps _ (diff_state-kept k p.state r n p _ b h)

  flag_unknown-kept :
      (r : Reconciler) (local : List Position) (ss : List Symbol) (b : Books)
      → P b
      → P (flag_unknown r local ss b)
  unfolding flag_unknown
  flag_unknown-kept r local [] b h = h
  flag_unknown-kept r local (s ∷ ss) b h =
      flag_unknown-kept r local ss _
        (if_kept k.kept (has_symbol s local) _ _ h (flag-kept k.kept r s _ _ b h))

  parity_flag-kept :
      (r : Reconciler) (s : Symbol) (reason : String) (strategy : Option String) (b : Books)
      → P b
      → P (parity_flag r s reason strategy b)
  parity_flag-kept r s reason strategy b h =
      flag-kept k.kept r s reason strategy _ (k.kept.counts _ b h)

  audit_cycles-kept :
      (r : Reconciler) (cs : List WheelCycle) (b : Books) → P b → P (audit_cycles r cs b)
  unfolding audit_cycles
  audit_cycles-kept r [] b h = h
  audit_cycles-kept r (c ∷ cs) b h =
      audit_cycles-kept r cs _
        (if_kept k.kept _ _ _ h (parity_flag-kept r c.symbol _ c.strategy_id b h))

  audit_rows-kept : (r : Reconciler) (ps : List Position) (b : Books) → P b → P (audit_rows r ps b)
  unfolding audit_rows
  audit_rows-kept r [] b h = h
  audit_rows-kept r (p ∷ ps) b h =
      audit_rows-kept r ps _
        (if_kept k.kept (is_untracked p) _ _ (parity_flag-kept r p.symbol _ _ b h) h)

  audit_symbols-kept :
      (r : Reconciler) (broker local : List Position) (ss : List Symbol) (b : Books)
      → P b
      → P (audit_symbols r broker local ss b)
  unfolding audit_symbols
  audit_symbols-kept r broker local [] b h = h
  audit_symbols-kept r broker local (s ∷ ss) b h = audit_symbols-kept r broker local ss _ (
      if_kept k.kept (local_shares s local == broker_shares s broker) _ _ h
        (parity_flag-kept r s _ none b h))

  audit_cycle_parity-kept :
      (r : Reconciler) (broker : List Position) (b : Books)
      → P b
      → P (audit_cycle_parity r broker b)
  unfolding audit_cycle_parity
  audit_cycle_parity-kept r broker b h =
      if_kept k.kept r.cycle_parity_enabled _ _
        (audit_symbols-kept r broker _ _ _ (audit_rows-kept r _ _ (audit_cycles-kept r _ b h))) h

  process_order-kept : (r : Reconciler) (v : BrokerView) (b : Books) → P b → P (process_order r v b)
  unfolding process_order
  process_order-kept r v b h =
      if_kept k.kept _ _ _ h (process_located-kept r v (locate v.order b.orders) b h)
    where
      process_located-kept :
          (r : Reconciler) (v : BrokerView) (x : Option (ℕ × Order)) (b : Books)
          → P b
          → P (process_located r v x b)
      process_located-kept r v none b h = flag-kept k.kept r v.order.symbol _ none b h
      process_located-kept r v (some (n, o)) b h =
          dispatch-kept k.kept r n o v _ (k.refreshes n _ b h)

  process_orders-kept :
      (r : Reconciler) (vs : List BrokerView) (b : Books) → P b → P (process_orders r vs b)
  unfolding process_orders
  process_orders-kept r [] b h = h
  process_orders-kept r (v ∷ vs) b h = process_orders-kept r vs _ (process_order-kept r v b h)

  pub reconcile_once-kept :
      (r : Reconciler) (cursor : Option ℕ) (f : Feed) (b : Books)
      → P b
      → P (reconcile_once r cursor f b).0
  unfolding reconcile_once reconcile_positions
  reconcile_once-kept r cursor f b h = audit_cycle_parity-kept r f.positions _ (
      flag_unknown-kept r _ _ _ (
        diff_all-kept r f.positions _ _ (process_orders-kept r _ _ (k.kept.counts no_summary b h))))
