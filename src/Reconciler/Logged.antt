-- ===== src/Reconciler/Logged.antt =====
-- execution/reconciler.py: the log of states tells the states.
use wheelbot.Reconciler.Defs.{Books, Reconciler, StateLog}
use wheelbot.Reconciler.{Feed, reconcile_once}
use wheelbot.Reconciler.Kept.{IsKept}
use wheelbot.Reconciler.KeptAll.{reconcile_once-kept}
use wheelbot.Reconciler.KeptDiff.{IsKeptAll}
use wheelbot.Common.{
  List, Option, String, [], ap, map, none, refl, some, suc, sym, zero, ℕ, ◌++◌, ◌∙◌, ◌∷◌, ◌≡◌,
}
use wheelbot.Models.{Position, PositionState}
use wheelbot.Reconciler.Fills.{clear_cycle}
use wheelbot.Reconciler.States.{enter, move, with_state}
use wheelbot.Store.Rows.{update_row}

abbrev pub states : List Position → List PositionState
states ps = map (λ p. p.state) ps

-- An entry without a former state is of a new row.
abbrev pub replay_entry : StateLog → List PositionState → List PositionState
replay_entry e ss = elim e.from_state [
  | none ↦ ss ++ e.to_state ∷ []
  | some _ ↦ update_row e.position_id (λ _. e.to_state) ss
]

unfoldable pub replay : List StateLog → List PositionState → List PositionState
replay [] ss = ss
replay (e ∷ es) ss = replay es (replay_entry e ss)

-- The states of the rows are what the log makes of the states at its start.
abbrev pub IsLogged : List PositionState → Books → Type 0
IsLogged base b = replay b.log base ≡ states b.positions

replay-append :
    (es : List StateLog) (e : StateLog) (ss : List PositionState)
    → replay (es ++ e ∷ []) ss ≡ replay_entry e (replay es ss)
unfolding replay
replay-append [] e ss = refl
replay-append (x ∷ es) e ss = replay-append es e (replay_entry x ss)

states-append :
    (ps : List Position) (p : Position) → states (ps ++ p ∷ []) ≡ states ps ++ p.state ∷ []
states-append [] p = refl
states-append (q ∷ ps) p = ap (λ ss. q.state ∷ ss) (states-append ps p)

pub states-update :
    (n : ℕ) (f : Position → Position) (to : PositionState) (ps : List Position)
    → ((p : Position) → (f p).state ≡ to)
    → states (update_row n f ps) ≡ update_row n (λ _. to) (states ps)
unfolding update_row
states-update n f to [] h = refl
states-update zero f to (p ∷ ps) h = ap (λ s. s ∷ states ps) (h p)
states-update (suc n) f to (p ∷ ps) h = ap (λ ss. p.state ∷ ss) (states-update n f to ps h)

pub states-update_same :
    (n : ℕ) (f : Position → Position) (ps : List Position)
    → ((p : Position) → (f p).state ≡ p.state)
    → states (update_row n f ps) ≡ states ps
unfolding update_row
states-update_same n f [] h = refl
states-update_same zero f (p ∷ ps) h = ap (λ s. s ∷ states ps) (h p)
states-update_same (suc n) f (p ∷ ps) h = ap (λ ss. p.state ∷ ss) (states-update_same n f ps h)

move-IsLogged :
    (base : List PositionState) (now n : ℕ) (p : Position) (to : PositionState) (reason : String)
    (c : Position → Position) (b : Books)
    → IsLogged base b
    → IsLogged base (move now n p to reason c b)
unfolding move
move-IsLogged base now n p to reason c b h =
    replay-append b.log _ base
    ∙ ap (update_row n (λ _. to)) h
    ∙ sym (states-update n (λ q. with_state to reason now (c q)) to b.positions (λ q. refl))

enter-IsLogged :
    (base : List PositionState) (p : Position) (reason : String) (b : Books)
    → IsLogged base b
    → IsLogged base (enter p reason b)
unfolding enter
enter-IsLogged base p reason b h =
    replay-append b.log _ base ∙ ap (λ ss. ss ++ p.state ∷ []) h ∙ sym (states-append b.positions p)

IsLogged-IsKept : (base : List PositionState) → IsKept (IsLogged base)
IsLogged-IsKept base = record {
  counts = λ s b h. h;
  notifies = λ n b h. h;
  tags = λ n c b h. h;
  cycles = λ cs b h. h;
  clears = λ n b h. h ∙ sym (states-update_same n clear_cycle b.positions (λ p. refl));
  moves = λ now n p to reason c b h. move-IsLogged base now n p to reason c b h;
  enters = λ p reason b h. enter-IsLogged base p reason b h;
}

IsLogged-IsKeptAll : (base : List PositionState) → IsKeptAll (IsLogged base)
IsLogged-IsKeptAll base = record {
  kept = IsLogged-IsKept base;
  inserts = λ o b h. h;
  refreshes = λ n f b h. h;
}

-- The log is complete: after any tick, whatever the broker answers, the states of all rows are
-- what the entries of the log make of the states with which it started, if they were so before.
pub reconcile_once-IsLogged :
    (base : List PositionState) (r : Reconciler) (cursor : Option ℕ) (f : Feed) (b : Books)
    → replay b.log base ≡ states b.positions
    → replay (reconcile_once r cursor f b).0.log base
      ≡ states (reconcile_once r cursor f b).0.positions
reconcile_once-IsLogged base r cursor f b h =
    reconcile_once-kept (IsLogged-IsKeptAll base) r cursor f b h
