-- ===== src/Reconciler/Flagged.antt =====
-- execution/reconciler.py, _flag_manual_intervention: what a flag does to the state of a position.
use mathlib.Core.Path.{subst}
use wheelbot.Reconciler.Defs.{Books, Reconciler, position_at, count, is_at_symbol}
use wheelbot.Common.{
  Bool, Bool-cases, List, Option, String, [], ap, false, inl, inr, none, refl, some, suc, sym, true,
  zero, ℕ, ◌++◌, ◌∙◌, ◌∷◌, ◌≡◌, ◌⊎◌, if◌then◌else◌, arith, eq_refl, ◌+◌,
}
use wheelbot.Models.{Position, PositionState, Symbol, manual_intervention}
use wheelbot.PaperBroker.{after}
use wheelbot.Store.Rows.{find_row, further, update_row}
use wheelbot.Reconciler.Parity.{parity_flag}
use wheelbot.Reconciler.States.{
  enter, flag_found, flag_manual_intervention, is_manual, move, new_row, raise_flag, with_state,
}
use wheelbot.Store.Numbers.{find_row-append, find_row-holds, find_row-update}

-- The state of the row that a lookup finds.
abbrev pub state_of : Option (ℕ × Position) → Option PositionState
state_of none = none
state_of (some (n, p)) = some p.state

abbrev pub state_at : Reconciler → Symbol → Option String → Books → Option PositionState
state_at r symbol strategy b = state_of (position_at r symbol strategy b)

-- A lookup after rows became manual: as before, or a manual row.
abbrev pub StaysOr : (before after : Option PositionState) → Type 0
StaysOr before after = (after ≡ before) ⊎ (after ≡ some manual_intervention)

state_of-further : (o : Option (ℕ × Position)) → state_of (further o) ≡ state_of o
state_of-further none = refl
state_of-further (some (n, p)) = refl

first_hit :
    (q : Position → Bool) (p : Position) (ps : List Position)
    → q p ≡ true
    → state_of (find_row q (p ∷ ps)) ≡ some p.state
unfolding find_row
first_hit q p ps h = rw h refl

-- The rows after the first.
skip_first :
    (q : Position → Bool) (x y : Position) (xs ys : List Position)
    → q x ≡ false
    → q y ≡ false
    → StaysOr (state_of (find_row q xs)) (state_of (find_row q ys))
    → StaysOr (state_of (find_row q (x ∷ xs))) (state_of (find_row q (y ∷ ys)))
unfolding find_row
skip_first q x y xs ys h k e =
    rw (h, k, state_of-further (find_row q xs), state_of-further (find_row q ys)) e

update-StaysOr :
    (q : Position → Bool) (n : ℕ) (f : Position → Position) (ps : List Position)
    → ((p : Position) → q (f p) ≡ q p)
    → ((p : Position) → (f p).state ≡ manual_intervention)
    → StaysOr (state_of (find_row q ps)) (state_of (find_row q (update_row n f ps)))
unfolding update_row
update-StaysOr q n f [] same manual = inl refl
update-StaysOr q zero f (p ∷ ps) same manual = elim (Bool-cases (q p)) [
  | inl hit ↦ inr (now_manual hit)
  | inr miss ↦ skip_first q p (f p) ps ps miss (same p ∙ miss) (inl refl)
]
  where
    now_manual : q p ≡ true → state_of (find_row q (f p ∷ ps)) ≡ some manual_intervention
    now_manual hit = first_hit q (f p) ps (same p ∙ hit) ∙ ap (λ s. some s) (manual p)
update-StaysOr q (suc n) f (p ∷ ps) same manual = elim (Bool-cases (q p)) [
  | inl hit ↦ inl (first_hit q p (update_row n f ps) hit ∙ sym (first_hit q p ps hit))
  | inr miss ↦
      skip_first q p p ps (update_row n f ps) miss miss (update-StaysOr q n f ps same manual)
]

append-StaysOr :
    (q : Position → Bool) (p : Position) (ps : List Position)
    → p.state ≡ manual_intervention
    → StaysOr (state_of (find_row q ps)) (state_of (find_row q (ps ++ p ∷ [])))
unfolding find_row
append-StaysOr q p [] manual = elim (Bool-cases (q p)) [
  | inl hit ↦ inr (first_hit q p [] hit ∙ ap (λ s. some s) manual)
  | inr miss ↦ inl (rw miss refl)
]
append-StaysOr q p (x ∷ ps) manual = elim (Bool-cases (q x)) [
  | inl hit ↦ inl (first_hit q x (ps ++ p ∷ []) hit ∙ sym (first_hit q x ps hit))
  | inr miss ↦ skip_first q x x ps (ps ++ p ∷ []) miss miss (append-StaysOr q p ps manual)
]

same_slot :
    (account : String) (symbol : Symbol) (strategy : Option String) (to : PositionState)
    (reason : String) (now : ℕ) (p : Position)
    → is_at_symbol account symbol strategy (with_state to reason now p)
      ≡ is_at_symbol account symbol strategy p
same_slot account symbol none to reason now p = refl
same_slot account symbol (some s) to reason now p = refl

new_row-is_at :
    (r : Reconciler) (symbol : Symbol) (strategy : Option String) (reason : String)
    → is_at_symbol r.account_id symbol strategy
        (new_row r symbol strategy manual_intervention none reason)
      ≡ true
new_row-is_at r symbol none reason = rw (eq_refl r.account_id, eq_refl symbol) refl
new_row-is_at r symbol (some s) reason = rw (eq_refl r.account_id, eq_refl symbol, eq_refl s) refl

module _ (r : Reconciler) (s : Symbol) (reason : String) (strategy : Option String) where
  -- A flag leaves a lookup as it was, or makes its row manual.
  flag_found-StaysOr :
      (x : Option (ℕ × Position)) (symbol : Symbol) (wanted : Option String) (b : Books)
      → StaysOr
          (state_at r symbol wanted b)
          (state_at r symbol wanted (flag_found r s reason strategy x b))
  unfolding enter move
  flag_found-StaysOr none symbol wanted b =
      append-StaysOr (is_at_symbol r.account_id symbol wanted)
        (new_row r s strategy manual_intervention none reason) b.positions refl
  flag_found-StaysOr (some (n, p)) symbol wanted b = elim (Bool-cases (is_manual p.state)) [
    | inl old ↦ inl (
        ap
          (λ z.
            state_at r symbol wanted (
              if z then b else move r.now n p manual_intervention reason (λ q. q) (raise_flag s b)))
          old)
    | inr fresh ↦ transported fresh
  ]
    where
      transported :
          is_manual p.state ≡ false
          → StaysOr
              (state_at r symbol wanted b)
              (state_at r symbol wanted (flag_found r s reason strategy (some (n, p)) b))
      transported fresh =
          subst
            (λ z. StaysOr (state_at r symbol wanted b) (
              state_at r symbol wanted (
                if z
                then b
                else move r.now n p manual_intervention reason (λ q. q) (raise_flag s b))))
            (sym fresh)
            (update-StaysOr (is_at_symbol r.account_id symbol wanted) n
              (with_state manual_intervention reason r.now) b.positions
              (same_slot r.account_id symbol wanted manual_intervention reason r.now) (λ q. refl))

  manual-eq : (t : PositionState) → is_manual t ≡ true → t ≡ manual_intervention
  manual-eq manual_intervention h = refl
  manual-eq _ h = ground arith

  -- The row of the flag itself is manual.
  flag_found-manual :
      (x : Option (ℕ × Position)) (b : Books)
      → position_at r s strategy b ≡ x
      → state_at r s strategy (flag_found r s reason strategy x b) ≡ some manual_intervention
  unfolding enter move
  flag_found-manual none b e = ap state_of (
      find_row-append (is_at_symbol r.account_id s strategy)
        (new_row r s strategy manual_intervention none reason) b.positions e
        (new_row-is_at r s strategy reason))
  flag_found-manual (some (n, p)) b e = elim (Bool-cases (is_manual p.state)) [
    | inl old ↦
        ap
          (λ z.
            state_at r s strategy (
              if z then b else move r.now n p manual_intervention reason (λ q. q) (raise_flag s b)))
          old
        ∙ ap state_of e
        ∙ ap (λ t. some t) (manual-eq p.state old)
    | inr fresh ↦
        ap
          (λ z.
            state_at r s strategy (
              if z then b else move r.now n p manual_intervention reason (λ q. q) (raise_flag s b)))
          fresh
        ∙ ap state_of (
            find_row-update (is_at_symbol r.account_id s strategy)
              (with_state manual_intervention reason r.now) n p b.positions e
              (same_slot r.account_id s strategy manual_intervention reason r.now p
                ∙ find_row-holds (is_at_symbol r.account_id s strategy) n p b.positions e))
  ]

  pub parity_flag-StaysOr :
      (symbol : Symbol) (wanted : Option String) (b : Books)
      → StaysOr
          (state_at r symbol wanted b)
          (state_at r symbol wanted (parity_flag r s reason strategy b))
  unfolding flag_manual_intervention
  parity_flag-StaysOr symbol wanted b =
      flag_found-StaysOr (position_at r s strategy b) symbol wanted
        (count (λ c. record c { parity_flags = c.parity_flags + 1 }) b)

  pub parity_flag-manual :
      (b : Books)
      → state_at r s strategy (parity_flag r s reason strategy b) ≡ some manual_intervention
  unfolding flag_manual_intervention
  parity_flag-manual b =
      flag_found-manual (position_at r s strategy b)
        (count (λ c. record c { parity_flags = c.parity_flags + 1 }) b) refl
