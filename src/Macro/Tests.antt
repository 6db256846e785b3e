-- ===== src/Macro/Tests.antt =====
-- A run of data/macro_calendar.py: a decision of the FOMC on day 105.
use wheelbot.Common.{List, [], any, is_none, none, not, refl, some, true, ◌&&◌, ◌∷◌, ◌≡◌}
use wheelbot.Macro.{MacroConfig, MacroEvent, between, by_date, is_blackout, is_wanted, touches}
use wheelbot.Macro.Window.{is_blackout-any}

abbrev config : MacroConfig
config = record {
  enabled = true;
  event_types = "FOMC" ∷ [];
  entry_avoid_days = none;
  blackout_days_before = some 1;
  blackout_days_after = none;
  min_coverage_days = 30;
}

abbrev events : List MacroEvent
events =
    record { event_date = 120; event_type = "CPI" }
    ∷ record { event_date = 105; event_type = "FOMC" }
    ∷ []

is_blackout-any_example :
    is_none (is_blackout config events 100 104 ("FOMC" ∷ []) none none none)
    ≡ not (any (λ e. is_wanted ("FOMC" ∷ []) e && touches 100 104 1 0 e) events)
is_blackout-any_example = is_blackout-any config events 100 104 ("FOMC" ∷ []) none none none

blocks_before_meeting :
    is_blackout config events 100 104 ("FOMC" ∷ []) none none none
    ≡ some (record { event_date = 105; event_type = "FOMC" })
unfolding is_blackout between by_date
blocks_before_meeting = refl
