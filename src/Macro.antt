-- ===== src/Macro.antt =====
-- data/macro_calendar.py, MacroCalendar: the blackout around macro events, and the calendar's own
-- alerts.
pub mod Window
mod Tests
use Prim.Native.Nat.{max, min}
use wheelbot.Common.{
  if◌then◌else◌, Bool, List, Option, String, [], any, get_or, leb, length, ltb, map, none, select,
  some, str_eq, true, ℕ, ◌&&◌, ◌+◌, ◌∷◌,
}
use wheelbot.Models.{Day}
use wheelbot.Store.Alerts.{Limits, try_fire}

-- An event type such as FOMC, in upper case.
pub record MacroEvent : Type 0 where
  pub event_date : Day
  pub event_type : String

pub record MacroConfig : Type 0 where
  pub enabled : Bool
  pub event_types : List String
  pub entry_avoid_days : Option ℕ
  pub blackout_days_before : Option ℕ
  pub blackout_days_after : Option ℕ
  pub min_coverage_days : ℕ

-- What the alerts write: the rate limits, and the notifications sent.
pub data MacroNotice : Type 0 where
  calendar_stale : (coverage_end : Option Day) → MacroNotice
  calendar_empty : MacroNotice

pub record Alarms : Type 0 where
  pub limits : Limits
  pub notices : List MacroNotice

-- db/repo.py, MacroEventsRepo.between. The start is given with the days that were taken off it,
-- so that no subtraction stops at day 0.
pub between : (today days_after : ℕ) (end_day : Day) → List MacroEvent → List MacroEvent
between today days_after end_day events =
    select (λ e. leb today (e.event_date + days_after) && leb e.event_date end_day) events

abbrev pub is_wanted : List String → MacroEvent → Bool
is_wanted types e = any (str_eq e.event_type) types

-- The considered window [today, horizon] overlaps the event's window.
abbrev pub touches : (today horizon : Day) (days_before days_after : ℕ) → MacroEvent → Bool
touches today horizon days_before days_after e =
    leb today (e.event_date + days_after) && leb e.event_date (horizon + days_before)

abbrev pub first : (MacroEvent → Bool) → List MacroEvent → Option MacroEvent
first p [] = none
first p (e ∷ es) = let rest = first p es in if p e then some e else rest

abbrev insert_by_date : MacroEvent → List MacroEvent → List MacroEvent
insert_by_date e [] = e ∷ []
insert_by_date e (f ∷ fs) =
    let rest = insert_by_date e fs in if leb e.event_date f.event_date then e ∷ f ∷ fs else f ∷ rest

-- `sorted(events, key=lambda e: e.event_date)`
pub by_date : List MacroEvent → List MacroEvent
by_date [] = []
by_date (e ∷ es) = insert_by_date e (by_date es)

-- The event that blocks, if any.
pub is_blackout :
    MacroConfig
    → List MacroEvent
    → (today short_expiration : Day) (event_types : List String)
      (entry_avoid_days days_before days_after : Option ℕ)
    → Option MacroEvent
is_blackout cfg events today short_expiration event_types entry_avoid_days days_before days_after =
    let before = get_or days_before (get_or cfg.blackout_days_before 1) in
    let after = get_or days_after (get_or cfg.blackout_days_after 0) in
    let horizon : Day = elim entry_avoid_days [ some n ↦ today + n | none ↦ short_expiration ] in
    first (λ e. is_wanted event_types e && touches today horizon before after e)
      (by_date (between today after (horizon + before) events))

-- The latest stored date of an event type.
unfoldable pub latest_date : String → List MacroEvent → Option Day
latest_date type [] = none
latest_date type (e ∷ es) =
    let rest = latest_date type es in
    if str_eq e.event_type type then some (max e.event_date (get_or rest 0)) else rest

-- The last day that the calendar speaks for: the earliest of the types' latest dates.
unfoldable pub coverage_end : (types : List String) → List MacroEvent → Option Day
coverage_end [] events = none
coverage_end (t ∷ []) events = latest_date t events
coverage_end (t ∷ u ∷ ts) events = elim (latest_date t events) [
  | none ↦ none
  | some d ↦ elim (coverage_end (u ∷ ts) events) [ none ↦ none | some r ↦ some (min d r) ]
]

unfoldable pub is_stale : MacroConfig → (today : Day) → List MacroEvent → Bool
is_stale cfg today events = elim (coverage_end cfg.event_types events) [
  | none ↦ true
  | some last ↦ ltb last (today + cfg.min_coverage_days)
]

-- At most one alert of a key in twenty hours.
abbrev raise_alarm : (key : String) (clock : ℕ) → MacroNotice → Alarms → Alarms
raise_alarm key clock n a =
    let (limits, fires) = try_fire key 20 clock a.limits in
    record { limits = limits; notices = if fires then n ∷ a.notices else a.notices }

unfoldable pub maybe_alert_stale :
    MacroConfig → (today clock : ℕ) → List MacroEvent → Alarms → Alarms
maybe_alert_stale cfg today clock events a =
    if is_stale cfg today events
    then raise_alarm "macro_calendar_stale" clock
        (calendar_stale (coverage_end cfg.event_types events)) a
    else a

unfoldable pub maybe_alert_empty : (clock : ℕ) → List MacroEvent → Alarms → Alarms
maybe_alert_empty clock events a =
    if ltb 0 (length events) then a else raise_alarm "macro_calendar_empty" clock calendar_empty a
