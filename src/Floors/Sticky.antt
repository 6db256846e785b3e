-- ===== src/Floors/Sticky.antt =====
-- The two floors share the pause columns of strategy_runtime_state: who may write them, and when.
use wheelbot.Floors.WinRate
use wheelbot.Floors.Expectancy
use wheelbot.Common.{
  Bool, Option, String, arith, eq_iff, false, none, refl, some, true, ℕ, ◌∙◌, ◌≡◌, List, Bool-cases,
  Option-cases, inl, inr, length, ltb, ◌==◌,
}
use wheelbot.Store.Runtime.{
  Cause, PauseTag, Table, low_win_rate, mark_paused, negative_expectancy, pause_of, row_or_blank,
  below_expectancy, below_win_rate,
}
use wheelbot.Store.{World, notify_limited-runtime}
use wheelbot.Store.Cycles.{Cycle, list_closed_for_strategy}
use wheelbot.Floors.{FloorConfig, Checked, min_cycles, ok, pause_days, threshold_for, zero_division}
use wheelbot.Models.{Strategy}
use wheelbot.Floors.Expectancy.{ExpectancyResult, after_evaluate, continue_with}
use wheelbot.Common.Ratio.{Ratio, ltb_ratio}
use wheelbot.Floors.WinRate.{win_rate}

-- What one write to the table keeps of every row: a pause that is set, and the drawdown columns.
pub record Keeps (t t' : Table) : Type 0 where
  pub pause_kept : (k : String) (p : PauseTag) → pause_of k t ≡ some p → pause_of k t' ≡ some p
  pub tier_kept :
      (k : String) → (row_or_blank (t' k)).drawdown_state ≡ (row_or_blank (t k)).drawdown_state
  pub window_kept :
      (k : String) → (row_or_blank (t' k)).disabled_until ≡ (row_or_blank (t k)).disabled_until

Keeps-refl : (t : Table) → Keeps t t
Keeps-refl t = record { pause_kept = λ k p e. e; tier_kept = λ k. refl; window_kept = λ k. refl }

Keeps-trans : {t u v : Table} → Keeps t u → Keeps u v → Keeps t v
Keeps-trans a b = record {
  pause_kept = λ k p e. b.pause_kept k p (a.pause_kept k p e);
  tier_kept = λ k. b.tier_kept k ∙ a.tier_kept k;
  window_kept = λ k. b.window_kept k ∙ a.window_kept k;
}

-- A pause is written only where there is none.
mark_paused-Keeps :
    (k : String) (reason : Cause) (now days : ℕ) (state : PauseTag) (t : Table)
    → pause_of k t ≡ none
    → Keeps t (mark_paused k reason now days state t)
unfolding mark_paused
mark_paused-Keeps k reason now days state t free = record {
  pause_kept = λ j p e. ground (arith, eq_iff j k);
  tier_kept = λ j. ground (arith, eq_iff j k);
  window_kept = λ j. ground (arith, eq_iff j k);
}

win_rate-settle-Keeps :
    (k : String) (days now clock : ℕ) (held : Option PauseTag) (target : Bool) (w : World)
    → pause_of k w.runtime ≡ held
    → Keeps w.runtime (WinRate.settle k days now clock held target w).0.runtime
unfolding WinRate.settle
win_rate-settle-Keeps k days now clock (some low_win_rate) target w e = Keeps-refl w.runtime
win_rate-settle-Keeps k days now clock (some negative_expectancy) target w e = Keeps-refl w.runtime
win_rate-settle-Keeps k days now clock none false w e = Keeps-refl w.runtime
win_rate-settle-Keeps k days now clock none true w e =
    rw notify_limited-runtime (mark_paused-Keeps k below_win_rate now days low_win_rate w.runtime e)

expectancy-settle-Keeps :
    (k : String) (days now clock : ℕ) (held : Option PauseTag) (target : Bool) (w : World)
    → pause_of k w.runtime ≡ held
    → Keeps w.runtime (Expectancy.settle k days now clock held target w).0.runtime
unfolding Expectancy.settle
expectancy-settle-Keeps k days now clock (some low_win_rate) target w e = Keeps-refl w.runtime
expectancy-settle-Keeps k days now clock (some negative_expectancy) target w e =
    Keeps-refl w.runtime
expectancy-settle-Keeps k days now clock none false w e = Keeps-refl w.runtime
expectancy-settle-Keeps k days now clock none true w e =
    rw notify_limited-runtime
      (mark_paused-Keeps k below_expectancy now days negative_expectancy w.runtime e)

-- Where a check of a floor ends without settling, the table is the old one.
pub win_rate-Keeps :
    (account : String) (s : Strategy) (c : FloorConfig) (now clock : ℕ) (w : World)
    → Keeps w.runtime (WinRate.check_and_apply account s c now clock w).0.runtime
unfolding WinRate.check_and_apply
win_rate-Keeps account s c now clock w =
    elim (Option-cases (threshold_for s.win_rate_floor_pct c)) [
      | inl off ↦ rw (off, WinRate.check_and_apply) (Keeps-refl w.runtime)
      | inr (threshold, on) ↦
          let cycles = list_closed_for_strategy account s.id (min_cycles c) w.cycles in
          rw (on, WinRate.check_and_apply)
            (elim (Bool-cases (ltb (length cycles) (min_cycles c))) [
              | inl few ↦ rw few (Keeps-refl w.runtime)
              | inr enough ↦ rw enough (elim (Bool-cases (length cycles == 0)) [
                | inl empty ↦ rw empty (Keeps-refl w.runtime)
                | inr some_cycles ↦ rw some_cycles (
                    win_rate-settle-Keeps s.id (pause_days c) now clock (pause_of s.id w.runtime)
                      (ltb_ratio (WinRate.win_rate cycles) threshold) w refl)
              ])
            ])
    ]

pub expectancy-Keeps :
    (account : String) (s : Strategy) (c : FloorConfig) (now clock : ℕ) (w : World)
    → Keeps w.runtime (Expectancy.check_and_apply account s c now clock w).0.runtime
unfolding Expectancy.check_and_apply
expectancy-Keeps account s c now clock w =
    elim (Option-cases (threshold_for s.expectancy_floor_usd c)) [
      | inl off ↦ rw (off, Expectancy.check_and_apply) (Keeps-refl w.runtime)
      | inr (threshold, on) ↦
          rw (on, Expectancy.check_and_apply)
            (continued (Expectancy.evaluate c account s.id w.cycles) threshold)
    ]
  where
    settled :
        (e : Option Ratio) (n : ℕ) (a : Expectancy.Action) (threshold : Ratio)
        → Keeps w.runtime
            (Expectancy.continue_with s c now clock threshold w (Expectancy.result a e n)).0.runtime
    settled none n a threshold = Keeps-refl w.runtime
    settled (some mean) n a threshold =
        expectancy-settle-Keeps s.id (pause_days c) now clock (pause_of s.id w.runtime)
          (ltb_ratio mean threshold) w refl

    continued :
        (r : Checked Expectancy.ExpectancyResult) (threshold : Ratio)
        → Keeps w.runtime (Expectancy.after_evaluate s c now clock threshold w r).0.runtime
    continued zero_division threshold = Keeps-refl w.runtime
    continued (ok r) threshold = settled r.expectancy r.sample_size r.action threshold

-- What happens between two looks at the table: a check of a floor, of any strategy and with any
-- configuration, or trades that add closed cycles.
pub data Step (w : World) : World → Type 0 where
  win_rate_check :
      (account : String) (s : Strategy) (c : FloorConfig) (now clock : ℕ)
      → {w' : World} → (WinRate.check_and_apply account s c now clock w).0 ≡ w'
      → Step w w'
  expectancy_check :
      (account : String) (s : Strategy) (c : FloorConfig) (now clock : ℕ)
      → {w' : World} → (Expectancy.check_and_apply account s c now clock w).0 ≡ w'
      → Step w w'
  trade : (cs : List Cycle) → {w' : World} → record w { cycles = cs } ≡ w' → Step w w'

pub data Reach (w : World) : World → Type 0 where
  here : Reach w w
  next : {u v : World} → Reach w u → Step u v → Reach w v

Step-Keeps : {u v : World} → Step u v → Keeps u.runtime v.runtime
Step-Keeps {u} (win_rate_check account s c now clock e) =
    rw (← e) (win_rate-Keeps account s c now clock u)
Step-Keeps {u} (expectancy_check account s c now clock e) =
    rw (← e) (expectancy-Keeps account s c now clock u)
Step-Keeps {u} (trade cs e) = rw (← e) (Keeps-refl u.runtime)

Reach-Keeps : {w v : World} → Reach w v → Keeps w.runtime v.runtime
Reach-Keeps {w} here = Keeps-refl w.runtime
Reach-Keeps (next r st) = Keeps-trans (Reach-Keeps r) (Step-Keeps st)

-- However the two floors' checks interleave with trades, a pause that is set stays set, with the
-- floor that set it.
pub Reach-pause_of :
    {w v : World} (k : String) (p : PauseTag)
    → Reach w v
    → pause_of k w.runtime ≡ some p
    → pause_of k v.runtime ≡ some p
Reach-pause_of k p run held = (Reach-Keeps run).pause_kept k p held

-- No checks of the floors, however they interleave with trades, change the drawdown breaker's
-- state or the end of its window.
Reach-drawdown_state :
    {w v : World} (k : String)
    → Reach w v
    → ((row_or_blank (v.runtime k)).drawdown_state ≡ (row_or_blank (w.runtime k)).drawdown_state)
      × ((row_or_blank (v.runtime k)).disabled_until ≡ (row_or_blank (w.runtime k)).disabled_until)
Reach-drawdown_state k run = ((Reach-Keeps run).tier_kept k, (Reach-Keeps run).window_kept k)
