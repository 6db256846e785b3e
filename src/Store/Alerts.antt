-- ===== src/Store/Alerts.antt =====
-- db/repo.py, AlertRateLimitsRepo: at most one alert of a key in its cooldown.
use wheelbot.Common.{
  ℕ, ◌+◌, ◌*◌, Bool, true, false, Option, none, some, String, ltb, str_eq, if◌then◌else◌,
}

-- When each key was last fired.
abbrev pub Limits : Type 0
Limits = String → Option ℕ

abbrev seconds_per_hour : ℕ
seconds_per_hour = 3600

abbrev record_firing : String → ℕ → Limits → Limits
record_firing key now l k = if str_eq k key then some now else l k

-- The new table, and whether the alert may be sent. `now - last < cooldown` is stated as
-- `now < last + cooldown`: a clock that went back refuses too.
unfoldable pub try_fire : String → (cooldown_hours now : ℕ) → Limits → Limits × Bool
try_fire key cooldown_hours now l = elim (l key) [
  | none ↦ (record_firing key now l, true)
  | some last ↦
      if ltb now (last + cooldown_hours * seconds_per_hour)
      then (l, false)
      else (record_firing key now l, true)
]

unfoldable last_fired : String → Limits → Option ℕ
last_fired key l = l key
