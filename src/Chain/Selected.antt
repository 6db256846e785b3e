-- ===== src/Chain/Selected.antt =====
-- What the selectors' choice satisfies.
use wheelbot.Common.{
  Bool, List, [], all, any, false, is_none, not, refl, some, true, ◌∷◌, ◌≡◌, Bool-cases, Option,
  Option-cases, ap, arith, get_or, inl, inr, none, sym, ◌∙◌, ◌⊎◌, length, select, ◌&&◌, ◌==◌,
  if◌then◌else◌,
}
use wheelbot.Models.{Day, OptionContract}
use wheelbot.Chain.{
  annualized_yield, ChainFilters, Source, delta_passes, fetch_filtered_chain, passes_liquidity,
  within_dte, populate_greeks,
}
use wheelbot.Chain.Selectors.{
  best_scored, contract_of, prefer, SelectorParams, filters_of, select_cc, select_csp, above_basis,
}
use wheelbot.Common.Ratio.{Ratio, ltb_ratio, leb_ratio, whole}

abbrev Scored : Type 0
Scored = Ratio × OptionContract

preferred :
    (a : Scored) (rest : Option Scored) (x : Scored) → prefer a rest ≡ x → (a ≡ x) ⊎ (rest ≡ some x)
preferred (y, c) none x e = inl e
preferred (y, c) (some (z, d)) x e = elim (Bool-cases (ltb_ratio y z)) [
  | inl less ↦ inr (ap (λ p. some p) (sym (rw less refl) ∙ e))
  | inr more ↦ inl (sym (rw more refl) ∙ e)
]

skipped :
    (today : Day) (c : OptionContract) (cs : List OptionContract)
    → annualized_yield today c ≡ none
    → best_scored today (c ∷ cs) ≡ best_scored today cs
unfolding best_scored
skipped today c cs q = rw (q, best_scored) refl

scored :
    (today : Day) (c : OptionContract) (cs : List OptionContract) (y : Ratio)
    → annualized_yield today c ≡ some y
    → best_scored today (c ∷ cs) ≡ some (prefer (y, c) (best_scored today cs))
unfolding best_scored
scored today c cs y q = rw (q, best_scored) refl

some_inj : {a b : Scored} → (some a) ≡ some b → a ≡ b
some_inj {a} {b} e = ap (λ o. get_or o a) e

-- The best of a list whose elements all satisfy a test satisfies it too, and has its yield.
best_scored-all :
    (today : Day) (P : OptionContract → Bool) (cs : List OptionContract) (x : Scored)
    → all P cs ≡ true
    → best_scored today cs ≡ some x
    → (P x.1 ≡ true) × (annualized_yield today x.1 ≡ some x.0)
unfolding best_scored
best_scored-all today P [] x h e = ground arith
best_scored-all today P (c ∷ cs) x h e = elim (Option-cases (annualized_yield today c)) [
  | inl q ↦ best_scored-all today P cs x (ground arith) (sym (skipped today c cs q) ∙ e)
  | inr (y, q) ↦
      elim (preferred (y, c) (best_scored today cs) x
        (some_inj (sym (scored today c cs y q) ∙ e))) [
          | inl mine ↦ rw⁻¹ mine (ground arith, q)
          | inr later ↦ best_scored-all today P cs x (ground arith) later
        ]
]

-- A list has a best element exactly when one of its elements has a yield.
best_scored-any :
    (today : Day) (cs : List OptionContract)
    → is_none (best_scored today cs) ≡ not (any (λ c. not (is_none (annualized_yield today c))) cs)
unfolding best_scored
best_scored-any today [] = refl
best_scored-any today (c ∷ cs) = elim (Option-cases (annualized_yield today c)) [
  | inl q ↦ rw (skipped today c cs q, q) (best_scored-any today cs)
  | inr (y, q) ↦ rw (scored today c cs y q, q) refl
]

module _ {A : Type 0} where
  pub all-select : (p : A → Bool) (xs : List A) → all p (select p xs) ≡ true
  all-select p [] = refl
  all-select p (x ∷ xs) = ground (arith, all-select p xs)

  -- A further filter keeps what all elements satisfy.
  pub all-select_kept :
      (p r : A → Bool) (xs : List A) → all p xs ≡ true → all p (select r xs) ≡ true
  all-select_kept p r [] h = refl
  all-select_kept p r (x ∷ xs) h = ground (arith, all-select_kept p r xs)

  -- A further filter keeps what all elements satisfy, and adds its own test.
  all-select_both :
      (p r : A → Bool) (xs : List A) → all p xs ≡ true → all (λ x. r x && p x) (select r xs) ≡ true
  all-select_both p r [] h = refl
  all-select_both p r (x ∷ xs) h = ground (arith, all-select_both p r xs)

  any-select_and : (p r : A → Bool) (xs : List A) → any p (select r xs) ≡ any (λ x. r x && p x) xs
  any-select_and p r [] = refl
  any-select_and p r (x ∷ xs) = ground (arith, any-select_and p r xs)

-- Every contract of a filtered chain passes the filters on delta and liquidity.
fetched-all :
    (s : Source) (f : ChainFilters) (today : Day)
    → all (λ c. delta_passes f c && passes_liquidity f c) (fetch_filtered_chain s f today) ≡ true
unfolding fetch_filtered_chain
fetched-all s f today =
    let in_window = select (within_dte f today) s.raw in
    elim (Bool-cases (length in_window == 0)) [
      | inl e ↦ rw e refl
      | inr e ↦ rw e (
          all-select (λ c. delta_passes f c && passes_liquidity f c)
            (populate_greeks s.compute_delta s.spot (s.populate_quotes in_window)))
    ]

chosen :
    (o : Option Scored) (c : OptionContract)
    → contract_of o ≡ some c
    → (x : Scored) × (o ≡ some x) × (x.1 ≡ c)
chosen none c e = ground arith
chosen (some (y, d)) c e = ((y, d), refl, ap (λ o. get_or o d) e)

contract_of-is_none : (o : Option Scored) → is_none (contract_of o) ≡ is_none o
contract_of-is_none none = refl
contract_of-is_none (some (y, d)) = refl

both : (a b : Bool) → (a && b) ≡ true → (a ≡ true) × (b ≡ true)
both a b h = ground arith

-- The choice among contracts that all satisfy a test satisfies it.
choice-all :
    (today : Day) (P : OptionContract → Bool) (cs : List OptionContract) (c : OptionContract)
    → all P cs ≡ true
    → contract_of (best_scored today cs) ≡ some c
    → P c ≡ true
choice-all today P cs c h e =
    let (x, found, own) = chosen (best_scored today cs) c e in
    ap P (sym own) ∙ (best_scored-all today P cs x h found).0

-- The covered call that is selected has its strike at the cost basis or above, and passes the
-- filters on delta and liquidity.
select_cc_fits :
    (s : Source) (p : SelectorParams) (cost_basis : Ratio) (today : Day) (c : OptionContract)
    → select_cc s p cost_basis today ≡ some c
    → (leb_ratio cost_basis (whole c.strike) ≡ true)
      × (delta_passes (filters_of p) c ≡ true)
      × (passes_liquidity (filters_of p) c ≡ true)
unfolding select_cc
select_cc_fits s p cost_basis today c e =
    let passes : OptionContract → Bool =
      λ d. delta_passes (filters_of p) d && passes_liquidity (filters_of p) d in
    let above : OptionContract → Bool = λ d. leb_ratio cost_basis (whole d.strike) in
    let candidates = fetch_filtered_chain s (filters_of p) today in
    let fits : (above c && passes c) ≡ true =
      choice-all today (λ d. above d && passes d) (select above candidates) c
        (all-select_both passes above candidates (fetched-all s (filters_of p) today)) e in
    let (strike_fits, rest) = both _ _ fits in
    let (delta_fits, liquid) = both _ _ rest in (strike_fits, delta_fits, liquid)

-- A covered call is selected exactly when some contract of the filtered chain has its strike at
-- the cost basis or above, and a yield.
select_cc-any :
    (s : Source) (p : SelectorParams) (cost_basis : Ratio) (today : Day)
    → is_none (select_cc s p cost_basis today)
      ≡ not (
          any
            (λ c. leb_ratio cost_basis (whole c.strike) && not (is_none (annualized_yield today c)))
            (fetch_filtered_chain s (filters_of p) today))
unfolding select_cc
select_cc-any s p cost_basis today =
    contract_of-is_none _
    ∙ best_scored-any today (above_basis cost_basis (fetch_filtered_chain s (filters_of p) today))
    ∙ ap not (any-select_and _ _ (fetch_filtered_chain s (filters_of p) today))

ranked :
    (best : Option OptionContract) (rank : Option Ratio) (rank_min : Ratio) (c : OptionContract)
    → elim rank [ none ↦ best | some r ↦ if ltb_ratio r rank_min then none else best ] ≡ some c
    → (best ≡ some c) × (ltb_ratio (get_or rank rank_min) rank_min ≡ false)
ranked best none rank_min c e = (e, ground arith)
ranked best (some r) rank_min c e = ground arith

-- The put that is selected passes the filters on delta and liquidity, and is selected only where
-- the rank of implied volatility, if it is known, is not below its minimum.
pub select_csp_fits :
    (s : Source) (p : SelectorParams) (rank : Option Ratio) (rank_min : Ratio) (today : Day)
    (c : OptionContract)
    → select_csp s p rank rank_min today ≡ some c
    → (delta_passes (filters_of p) c ≡ true)
      × (passes_liquidity (filters_of p) c ≡ true)
      × (ltb_ratio (get_or rank rank_min) rank_min ≡ false)
unfolding select_csp
select_csp_fits s p rank rank_min today c e =
    let candidates = fetch_filtered_chain s (filters_of p) today in
    let (best, high) = ranked (contract_of (best_scored today candidates)) rank rank_min c e in
    let fits =
      choice-all today (λ d. delta_passes (filters_of p) d && passes_liquidity (filters_of p) d)
        candidates c (fetched-all s (filters_of p) today) best in
    let (delta_fits, liquid) = both _ _ fits in (delta_fits, liquid, high)
