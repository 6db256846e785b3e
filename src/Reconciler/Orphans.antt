-- ===== src/Reconciler/Orphans.antt =====
-- execution/reconciler.py, _audit_cycle_parity: a cycle that lost its position is flagged.
use mathlib.Core.Path.{subst}
use wheelbot.Reconciler.Defs.{Books, Reconciler, position_at, WheelCycle}
use wheelbot.Common.{
  Bool, List, Option, String, [], ap, false, inl, inr, none, refl, some, sym, true, ℕ, ◌++◌, ◌∙◌,
  ◌∷◌, ◌≡◌, if◌then◌else◌, ◌==◌, ltb, not, ◌-◌, ◌||◌,
}
use wheelbot.Models.{Position, PositionState, Symbol, manual_intervention}
use wheelbot.Reconciler.Parity.{
  audit_cycle, audit_cycles, audit_row, audit_rows, audit_symbol, audit_symbols, broker_shares,
  is_untracked, local_shares, parity_flag, abandoned, audit_cycle_parity, exposed, list_all,
  list_open, symbols_of,
}
use wheelbot.Reconciler.Flagged.{
  StaysOr, parity_flag-StaysOr, parity_flag-manual, state_at, state_of,
}

StaysOr-trans : {a b c : Option PositionState} → StaysOr a b → StaysOr b c → StaysOr a c
StaysOr-trans (inl e) (inl h) = inl (h ∙ e)
StaysOr-trans (inr e) (inl h) = inr (h ∙ e)
StaysOr-trans x (inr h) = inr h

if-StaysOr :
    (t : Bool) (r : Reconciler) (symbol : Symbol) (wanted : Option String)
    (a : Option PositionState) (b c : Books)
    → StaysOr a (state_at r symbol wanted b)
    → StaysOr a (state_at r symbol wanted c)
    → StaysOr a (state_at r symbol wanted (if t then b else c))
if-StaysOr true r symbol wanted a b c h k = h
if-StaysOr false r symbol wanted a b c h k = k

-- The three parts of the audit leave a lookup, or make it manual.
module _ (r : Reconciler) (symbol : Symbol) (wanted : Option String) where
  audit_cycles-StaysOr :
      (cs : List WheelCycle) (b : Books)
      → StaysOr (state_at r symbol wanted b) (state_at r symbol wanted (audit_cycles r cs b))
  unfolding audit_cycles
  audit_cycles-StaysOr [] b = inl refl
  audit_cycles-StaysOr (c ∷ cs) b =
      StaysOr-trans
        (if-StaysOr _ r symbol wanted (state_at r symbol wanted b) b _ (inl refl)
          (parity_flag-StaysOr r c.symbol "orphaned cycle" c.strategy_id symbol wanted b))
        (audit_cycles-StaysOr cs (audit_cycle r c b))

  audit_rows-StaysOr :
      (ps : List Position) (b : Books)
      → StaysOr (state_at r symbol wanted b) (state_at r symbol wanted (audit_rows r ps b))
  unfolding audit_rows
  audit_rows-StaysOr [] b = inl refl
  audit_rows-StaysOr (p ∷ ps) b =
      StaysOr-trans
        (if-StaysOr (is_untracked p) r symbol wanted (state_at r symbol wanted b) _ b
          (parity_flag-StaysOr r p.symbol "untracked stock" (some p.strategy_id) symbol wanted b)
          (inl refl))
        (audit_rows-StaysOr ps (audit_row r p b))

  audit_symbols-StaysOr :
      (broker local : List Position) (ss : List Symbol) (b : Books)
      → StaysOr
          (state_at r symbol wanted b)
          (state_at r symbol wanted (audit_symbols r broker local ss b))
  unfolding audit_symbols
  audit_symbols-StaysOr broker local [] b = inl refl
  audit_symbols-StaysOr broker local (s ∷ ss) b =
      StaysOr-trans
        (if-StaysOr (local_shares s local == broker_shares s broker) r symbol wanted
          (state_at r symbol wanted b) b _ (inl refl)
          (parity_flag-StaysOr r s "share count mismatch" none symbol wanted b))
        (audit_symbols-StaysOr broker local ss (audit_symbol r broker local s b))

audit_cycles-append :
    (r : Reconciler) (cs ds : List WheelCycle) (b : Books)
    → audit_cycles r (cs ++ ds) b ≡ audit_cycles r ds (audit_cycles r cs b)
unfolding audit_cycles
audit_cycles-append r [] ds b = refl
audit_cycles-append r (c ∷ cs) ds b = audit_cycles-append r cs ds (audit_cycle r c b)

abbrev is_exposed : Option PositionState → Bool
is_exposed none = false
is_exposed (some s) = not (abandoned s)

exposed-state_of : (x : Option (ℕ × Position)) → exposed x ≡ is_exposed (state_of x)
exposed-state_of none = refl
exposed-state_of (some (n, p)) = refl

-- The check of one cycle, in books where its position was flagged or is as abandoned as it was.
audit_cycle-orphan :
    (r : Reconciler) (c : WheelCycle) (b b1 : Books)
    → ltb (r.now - c.started_at) r.cycle_parity_min_age ≡ false
    → exposed (position_at r c.symbol c.strategy_id b) ≡ false
    → StaysOr (state_at r c.symbol c.strategy_id b) (state_at r c.symbol c.strategy_id b1)
    → state_at r c.symbol c.strategy_id (audit_cycle r c b1) ≡ some manual_intervention
audit_cycle-orphan r c b b1 old lost (inl same) =
    let x1 = position_at r c.symbol c.strategy_id b1 in
    let lost1 : exposed x1 ≡ false =
      exposed-state_of x1
      ∙ ap is_exposed same
      ∙ sym (exposed-state_of (position_at r c.symbol c.strategy_id b))
      ∙ lost in
    let flag = parity_flag r c.symbol "orphaned cycle" c.strategy_id b1 in
    ap (λ z. state_at r c.symbol c.strategy_id (if z || exposed x1 then b1 else flag)) old
    ∙ ap (λ z. state_at r c.symbol c.strategy_id (if false || z then b1 else flag)) lost1
    ∙ parity_flag-manual r c.symbol "orphaned cycle" c.strategy_id b1
audit_cycle-orphan r c b b1 old lost (inr manual) =
    let x1 = position_at r c.symbol c.strategy_id b1 in
    let flag = parity_flag r c.symbol "orphaned cycle" c.strategy_id b1 in
    ap (λ z. state_at r c.symbol c.strategy_id (if z || exposed x1 then b1 else flag)) old
    ∙ ap (λ z. state_at r c.symbol c.strategy_id (if false || z then b1 else flag))
        (exposed-state_of x1 ∙ ap is_exposed manual)
    ∙ manual

stays_manual :
    (a : Option PositionState) → StaysOr (some manual_intervention) a → a ≡ some manual_intervention
stays_manual a (inl e) = e
stays_manual a (inr e) = e

-- No orphaned cycle escapes the audit: where an open cycle of the account is as old as the audit
-- asks for, and its position is missing or in a state without exposure, the position is in
-- MANUAL_INTERVENTION when the audit ends, whatever else the audit has found before and after.
pub audit_cycle_parity-orphan :
    (r : Reconciler) (broker : List Position) (b : Books) (cs ds : List WheelCycle) (c : WheelCycle)
    → r.cycle_parity_enabled ≡ true
    → list_open r.account_id b.cycles ≡ cs ++ c ∷ ds
    → ltb (r.now - c.started_at) r.cycle_parity_min_age ≡ false
    → exposed (position_at r c.symbol c.strategy_id b) ≡ false
    → state_at r c.symbol c.strategy_id (audit_cycle_parity r broker b) ≡ some manual_intervention
unfolding audit_cycle_parity audit_cycles
audit_cycle_parity-orphan r broker b cs ds c enabled listed old lost =
    let at : Books → Option PositionState = state_at r c.symbol c.strategy_id in
    let b1 = audit_cycles r cs b in
    let b2 = audit_cycles r ds (audit_cycle r c b1) in
    let b3 = audit_cycles r (list_open r.account_id b.cycles) b in
    let rows = list_all r.account_id b3.positions in
    let flagged : at b2 ≡ some manual_intervention = stays_manual _ (
      subst (λ a. StaysOr a (at b2))
        (audit_cycle-orphan r c b b1 old lost (audit_cycles-StaysOr r c.symbol c.strategy_id cs b))
        (audit_cycles-StaysOr r c.symbol c.strategy_id ds (audit_cycle r c b1))) in
    let there : at b3 ≡ some manual_intervention =
      ap (λ xs. at (audit_cycles r xs b)) listed
      ∙ ap at (audit_cycles-append r cs (c ∷ ds) b)
      ∙ flagged in
    let ended = audit_symbols r broker rows (symbols_of rows) (audit_rows r rows b3) in
    ap (λ z. at (if z then ended else b)) enabled
    ∙ stays_manual _ (
        subst (λ a. StaysOr a (at ended)) there
          (StaysOr-trans (audit_rows-StaysOr r c.symbol c.strategy_id rows b3) (
            audit_symbols-StaysOr r c.symbol c.strategy_id broker rows (symbols_of rows)
              (audit_rows r rows b3))))
