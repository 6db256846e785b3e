-- ===== src/Macro/Window.antt =====
-- The blackout of data/macro_calendar.py against a direct description.
use wheelbot.Common.{
  Bool, List, Option, String, [], any, arith, get_or, is_none, none, not, refl, some, ℕ, ◌&&◌, ◌+◌,
  ◌||◌, ◌∷◌, ◌≡◌,
}
use wheelbot.Models.{Day}
use wheelbot.Macro.{
  MacroConfig, MacroEvent, between, by_date, first, insert_by_date, is_blackout, is_wanted, touches,
}

first-none : (p : MacroEvent → Bool) (es : List MacroEvent) → is_none (first p es) ≡ not (any p es)
first-none p [] = refl
first-none p (e ∷ es) = ground (arith, first-none p es)

any-insert_by_date :
    (p : MacroEvent → Bool) (e : MacroEvent) (es : List MacroEvent)
    → any p (insert_by_date e es) ≡ (p e || any p es)
any-insert_by_date p e [] = refl
any-insert_by_date p e (f ∷ fs) = ground (arith, any-insert_by_date p e fs)

any-by_date : (p : MacroEvent → Bool) (es : List MacroEvent) → any p (by_date es) ≡ any p es
unfolding by_date
any-by_date p [] = refl
any-by_date p (e ∷ es) = ground (arith, any-insert_by_date p e (by_date es), any-by_date p es)

-- Events outside the query's range never touch the window.
any-between :
    (types : List String) (today horizon : Day) (before after : ℕ) (es : List MacroEvent)
    → any
        (λ e. is_wanted types e && touches today horizon before after e)
        (between today after (horizon + before) es)
      ≡ any (λ e. is_wanted types e && touches today horizon before after e) es
unfolding between
any-between types today horizon before after [] = refl
any-between types today horizon before after (e ∷ es) =
    ground (arith, any-between types today horizon before after es)

-- The blackout blocks exactly when some event of the whole table is of a wanted type and its own
-- days meet the considered ones: neither the range of the query nor the order of the rows hides
-- an event.
pub is_blackout-any :
    (cfg : MacroConfig) (events : List MacroEvent) (today expiration : Day) (types : List String)
    (avoid before after : Option ℕ)
    → let b = get_or before (get_or cfg.blackout_days_before 1) in
      let a = get_or after (get_or cfg.blackout_days_after 0) in
      let horizon : Day = elim avoid [ some n ↦ today + n | none ↦ expiration ] in
      is_none (is_blackout cfg events today expiration types avoid before after)
      ≡ not (any (λ e. is_wanted types e && touches today horizon b a e) events)
unfolding is_blackout
is_blackout-any cfg events today expiration types avoid before after =
    let b = get_or before (get_or cfg.blackout_days_before 1) in
    let a = get_or after (get_or cfg.blackout_days_after 0) in
    let horizon : Day = elim avoid [ some n ↦ today + n | none ↦ expiration ] in
    rw (first-none, any-by_date, any-between types today horizon b a events)
