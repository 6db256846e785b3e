-- ===== src/KillSwitch/Streak.antt =====
-- The losing streak of execution/kill_switch.py: the query's LIMIT does not change the answer.
use wheelbot.Store.Cycles.{Cycle, newest_first}
use wheelbot.Common.{List, String, [], arith, leb, suc, take, zero, ℕ, ◌∷◌, ◌≡◌}
use wheelbot.KillSwitch.{closed_pnls, consecutive_losses, streak}
use wheelbot.Common.Int.{ℤ}
use Prim.Native.Nat.{min}

streak-take : (n : ℕ) (ps : List ℤ) → streak (take n ps) ≡ min n (streak ps)
unfolding streak
streak-take zero ps = omega arith
streak-take (suc n) [] = omega arith
streak-take (suc n) (p ∷ ps) = ground (arith, streak-take n ps)

-- Only the last few closed cycles are read, and that is enough: the streak reaches the pause's
-- length among them exactly when it does among all closed cycles of the account.
consecutive_losses-leb :
    (account : String) (look : ℕ) (cycles : List Cycle)
    → leb look (consecutive_losses account look cycles)
      ≡ leb look (streak (closed_pnls account (newest_first cycles)))
unfolding consecutive_losses
consecutive_losses-leb account look cycles = rw streak-take (ground arith)
