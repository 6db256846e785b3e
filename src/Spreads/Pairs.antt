-- ===== src/Spreads/Pairs.antt =====
-- strategies/spread_selector.py and strategies/call_spread_selector.py: what a selected pair satisfies.
use wheelbot.Common.{
  if◌then◌else◌, Bool, Option, Option-cases, [], all, ap, arith, false, get_or, inl, inr, none,
  refl, some, sym, true, ◌||◌, ◌∙◌, ◌∷◌, ◌≡◌, List, not, select, ◌⊎◌, ◌*◌,
}
use mathlib.Core.Path.{ap₂}
use wheelbot.Models.{OptionContract, OptionType, Day, call, put}
use wheelbot.Common.Ratio.{Ratio, ltb_ratio, whole}
use wheelbot.Spreads.Selectors.{
  SpreadCandidate, can_cover, low_credit, paired, twice_mid, width_of, with_long, SpreadParams,
  at_mids, beyond, find_long_leg, first_pair, furthest, nearest, or_else, or_next, select_spread,
  target_strike,
}
use wheelbot.Common.Int.{leb_ℤ, pos, ℤ, ◌*ℤ◌, ◌+ℤ◌, ◌-ℤ◌, ◌<ℤ◌, ◌≤ℤ◌}
use wheelbot.Chain.{Source}
use wheelbot.Chain.Selected.{all-select, all-select_kept}
use wheelbot.Store.Lookup.{find}
use wheelbot.Spreads.{width}

-- The width between the strikes, where the long leg of puts is below the short one and that of calls
-- above it.
abbrev pub IsFurtherOut : OptionType → (short long width : ℤ) → Type 0
IsFurtherOut put short long width = (long <ℤ short) × (width ≡ short -ℤ long)
IsFurtherOut call short long width = (short <ℤ long) × (width ≡ long -ℤ short)

-- The credit, in half cents, is that of the mids of both legs' quotes.
abbrev pub IsCredit : (short long : OptionContract) → (credit : ℤ) → Type 0
IsCredit short long credit =
    (b : ℤ) × (a : ℤ) × (b' : ℤ) × (a' : ℤ) × (short.bid ≡ some b)
    × (short.ask ≡ some a)
    × (long.bid ≡ some b')
    × (long.ask ≡ some a')
    × (credit ≡ (b +ℤ a) -ℤ (b' +ℤ a'))

-- The terms of a pair: the long leg is of the side and expires with the short one, its strike is
-- further out, and the pair brings a credit that is no smaller a part of the width than it must be:
-- a hundred times the credit, in cents, is at least the percentage times the width.
abbrev pub IsViable : OptionType → (min_credit_pct : Ratio) → SpreadCandidate → Type 0
IsViable side pct c =
    (c.long.option_type ≡ side)
    × (c.long.expiration ≡ c.short.expiration)
    × IsFurtherOut side c.short.strike c.long.strike c.width_dollars
    × (pos 0 <ℤ c.width_dollars)
    × IsCredit c.short c.long c.net_credit_per_spread
    × (pos 0 <ℤ c.net_credit_per_spread)
    × (pct.num *ℤ c.width_dollars ≤ℤ c.net_credit_per_spread *ℤ pos (50 * pct.den))
    × (c.max_loss_per_spread
        ≡ ((c.width_dollars +ℤ c.width_dollars) -ℤ c.net_credit_per_spread) *ℤ pos 50)

further_out :
    (side : OptionType) (short long : OptionContract)
    → can_cover side short long ≡ true
    → (long.option_type ≡ side)
      × (long.expiration ≡ short.expiration)
      × IsFurtherOut side short.strike long.strike (width_of side short long)
further_out put short long h = ground arith
further_out call short long h = ground arith

quoted :
    (c : OptionContract) (m : ℤ)
    → twice_mid c ≡ some m
    → (b : ℤ) × (a : ℤ) × (c.bid ≡ some b) × (c.ask ≡ some a) × (m ≡ b +ℤ a)
quoted c m e = elim (Option-cases c.bid) [
  | inl no_bid ↦ absurd (ground arith)
  | inr (b, bid) ↦ elim (Option-cases c.ask) [
    | inl no_ask ↦ absurd (ground arith)
    | inr (a, ask) ↦ (b, a, bid, ask, ground arith)
  ]
]

mids-IsCredit :
    (short long : OptionContract) (s l : ℤ)
    → twice_mid short ≡ some s
    → twice_mid long ≡ some l
    → IsCredit short long (s -ℤ l)
mids-IsCredit short long s l e e' =
    let (b, a, bid, ask, m) = quoted short s e in
    let (b', a', bid', ask', m') = quoted long l e' in
    (b, a, b', a', bid, ask, bid', ask', ap₂ (λ x y. x -ℤ y) m m')

enough :
    (pct : Ratio) (credit width : ℤ)
    → low_credit pct credit width ≡ false
    → pct.num *ℤ width ≤ℤ credit *ℤ pos (50 * pct.den)
enough pct credit width e = ground arith

none_is : {A : Type 0} (c : SpreadCandidate) → none ≡ some c → A
none_is c e = ground arith

some_is : {a b : SpreadCandidate} → some a ≡ some b → a ≡ b
some_is {a} {b} e = ap (λ o. get_or o a) e

unless_is :
    (b : Bool) (x : Option SpreadCandidate) (c : SpreadCandidate)
    → (if b then none else x) ≡ some c
    → (b ≡ false) × (x ≡ some c)
unless_is true x c e = none_is c e
unless_is false x c e = (refl, e)

neither : (a b c : Bool) → (a || b || c) ≡ false → (a ≡ false) × (b ≡ false) × (c ≡ false)
neither a b c e = ground arith

positive : (a : ℤ) → leb_ℤ a (pos 0) ≡ false → pos 0 <ℤ a
positive a e = ground arith

paired-IsViable :
    (side : OptionType) (pct y : Ratio) (short long : OptionContract) (credit : ℤ)
    (c : SpreadCandidate)
    → can_cover side short long ≡ true
    → IsCredit short long credit
    → paired side pct y short long credit ≡ some c
    → IsViable side pct c
paired-IsViable side pct y short long credit c covers mids e =
    let (passed, made) =
      unless_is
        (leb_ℤ credit (pos 0)
          || leb_ℤ (width_of side short long) (pos 0)
          || low_credit pct credit (width_of side short long))
        _ c e in
    let (a, b, d) = neither _ _ _ passed in
    let (same_side, together, out) = further_out side short long covers in
    rw⁻¹ (some_is made) (
      same_side,
      together,
      out,
      positive _ b,
      mids,
      positive credit a,
      enough pct credit (width_of side short long) d,
      refl,
    )

at_mids-IsViable :
    (side : OptionType) (pct y : Ratio) (short long : OptionContract) (s l : Option ℤ)
    (c : SpreadCandidate)
    → can_cover side short long ≡ true
    → twice_mid short ≡ s
    → twice_mid long ≡ l
    → at_mids side pct y short long s l ≡ some c
    → IsViable side pct c
at_mids-IsViable side pct y short long none l c covers m m' e = none_is c e
at_mids-IsViable side pct y short long (some s) none c covers m m' e = none_is c e
at_mids-IsViable side pct y short long (some s) (some l) c covers m m' e =
    paired-IsViable side pct y short long (s -ℤ l) c covers (mids-IsCredit short long s l m m') e

-- A long leg that is found can cover the short one.
abbrev Covers : (side : OptionType) → (short : OptionContract) → Option OptionContract → Type 0
Covers side short x = (l : OptionContract) → x ≡ some l → can_cover side short l ≡ true

with_long-IsViable :
    (side : OptionType) (pct y : Ratio) (short : OptionContract) (x : Option OptionContract)
    (c : SpreadCandidate)
    → Covers side short x
    → with_long side pct y short x ≡ some c
    → IsViable side pct c
with_long-IsViable side pct y short none c covers e = none_is c e
with_long-IsViable side pct y short (some long) c covers e =
    at_mids-IsViable side pct y short long (twice_mid short) (twice_mid long) c (covers long refl)
      refl refl e

or_next-some :
    (x next : Option SpreadCandidate) (c : SpreadCandidate)
    → or_next x next ≡ some c
    → (x ≡ some c) ⊎ (next ≡ some c)
or_next-some none next c e = inr e
or_next-some (some d) next c e = inl e

first_pair-IsViable :
    (side : OptionType) (find : OptionContract → Option OptionContract) (pct : Ratio)
    (shorts : List (Ratio × OptionContract)) (c : SpreadCandidate)
    → ((short : OptionContract) → Covers side short (find short))
    → first_pair side find pct shorts ≡ some c
    → IsViable side pct c
first_pair-IsViable side find pct [] c covers e = none_is c e
first_pair-IsViable side find pct ((y, short) ∷ rest) c covers e = elim (or_next-some _ _ c e) [
  | inl this ↦ with_long-IsViable side pct y short (find short) c (covers short) this
  | inr rests ↦ first_pair-IsViable side find pct rest c covers rests
]

-- The nearest and the furthest of a list are elements of it.
chosen_test :
    (b : Bool) (P : OptionContract → Bool) (c d : OptionContract)
    → P c ≡ true
    → P d ≡ true
    → P (if b then c else d) ≡ true
chosen_test true P c d h k = h
chosen_test false P c d h k = k

is_own :
    (P : OptionContract → Bool) (c l : OptionContract) → P c ≡ true → some c ≡ some l → P l ≡ true
is_own P c l h e = ap P (ap (λ o. get_or o c) (sym e)) ∙ h

nearest-all :
    (side : OptionType) (P : OptionContract → Bool) (cs : List OptionContract) (l : OptionContract)
    → all P cs ≡ true
    → nearest side cs ≡ some l
    → P l ≡ true
nearest-all side P [] l h e = ground arith
nearest-all side P (c ∷ cs) l h e = elim (Option-cases (nearest side cs)) [
  | inl z ↦ is_own P c l (ground arith) (sym (rw (z, nearest) refl) ∙ e)
  | inr (d, z) ↦
      is_own P _ l
        (chosen_test (beyond side c.strike d.strike) P d c
          (nearest-all side P cs d (ground arith) z) (ground arith))
        (sym (rw (z, nearest) refl) ∙ e)
]

furthest-all :
    (side : OptionType) (P : OptionContract → Bool) (cs : List OptionContract) (l : OptionContract)
    → all P cs ≡ true
    → furthest side cs ≡ some l
    → P l ≡ true
furthest-all side P [] l h e = ground arith
furthest-all side P (c ∷ cs) l h e = elim (Option-cases (furthest side cs)) [
  | inl z ↦ is_own P c l (ground arith) (sym (rw (z, furthest) refl) ∙ e)
  | inr (d, z) ↦
      is_own P _ l
        (chosen_test (beyond side c.strike d.strike) P c d (ground arith)
          (furthest-all side P cs d (ground arith) z))
        (sym (rw (z, furthest) refl) ∙ e)
]

or_else-some :
    (x y : Option OptionContract) (l : OptionContract)
    → or_else x y ≡ some l
    → (x ≡ some l) ⊎ (y ≡ some l)
or_else-some none y l e = inr e
or_else-some (some d) y l e = inl e

find_long_leg-Covers :
    (side : OptionType) (chain : List OptionContract) (short : OptionContract) (width : ℤ)
    → Covers side short (find_long_leg side chain short width)
unfolding find_long_leg
find_long_leg-Covers side chain short width l e =
    let covers = select (can_cover side short) chain in
    let reaches : OptionContract → Bool =
      λ c. not (beyond side (target_strike side short.strike width) c.strike) in
    elim (or_else-some (nearest side (select reaches covers)) (furthest side covers) l e) [
      | inl near ↦
          nearest-all side (can_cover side short) (select reaches covers) l
            (all-select_kept (can_cover side short) reaches covers
              (all-select (can_cover side short) chain))
            near
      | inr far ↦
          furthest-all side (can_cover side short) covers l
            (all-select (can_cover side short) chain) far
    ]

ranked_high :
    (best : Option SpreadCandidate) (rank : Option Ratio) (rank_min : Ratio) (c : SpreadCandidate)
    → elim rank [ none ↦ best | some r ↦ if ltb_ratio r rank_min then none else best ] ≡ some c
    → best ≡ some c
ranked_high best none rank_min c e = e
ranked_high best (some r) rank_min c e = (unless_is (ltb_ratio r rank_min) best c e).1

-- A spread that is selected, of puts or of calls, is a pair of one expiration in which the strike of
-- the long leg is further out, by the width; the credit is that of the mids of both legs, and both
-- are positive; the credit is the configured part of the width at least, a percentage, and the
-- greatest loss of one spread, in cents, is what the width leaves of it.
pub select_spread-IsViable :
    (side : OptionType) (short_chain full_chain : Source) (p : SpreadParams) (rank : Option Ratio)
    (rank_min : Ratio) (today : Day) (c : SpreadCandidate)
    → select_spread side short_chain full_chain p rank rank_min today ≡ some c
    → IsViable side (get_or p.min_credit_pct_of_width (whole (pos 25))) c
unfolding select_spread
select_spread-IsViable side short_chain full_chain p rank rank_min today c e =
    first_pair-IsViable side _ (get_or p.min_credit_pct_of_width (whole (pos 25))) _ c
      (λ short. find_long_leg-Covers side _ short (get_or p.spread_width_dollars (pos 100)))
      (ranked_high _ rank rank_min c e)
