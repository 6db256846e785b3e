-- ===== src/KillSwitch/Latch.antt =====
-- The session latch of execution/kill_switch.py: how long a trip lasts.
use wheelbot.Common.{
  Bool-cases, List, Option, String, inl, inr, some, str_eq, true, ℕ, ◌&&◌, ◌==◌, ◌≡◌, Bool, arith,
  eq_iff, refl, ◌||◌, Option-cases, [], none, ◌∷◌, ap, sym, ◌++◌, ◌∙◌,
}
use wheelbot.Store.Daily.{Daily, DailyState, Reason, merged, upsert}
use wheelbot.KillSwitch.{
  KillConfig, Session, conclude, Ended, KillSwitchResult, broker_unavailable, check, done,
  drawdown_reasons, is_latching, is_some_reason, prime_session, was_armed, written, zero_division,
  latch_reasons, primed, take_anchor, consecutive_losses, stop_reasons, streak_reasons,
}
use wheelbot.Store.Cycles.{Cycle}
use wheelbot.Common.Int.{ℤ}

-- The day's row is armed, for the reason `r`.
abbrev pub IsArmedFor : String → ℕ → Reason → Daily → Type 0
IsArmedFor account day r t =
    (row : DailyState) × (t account day ≡ some row)
    × (row.kill_switch_armed ≡ true)
    × (row.kill_switch_reason ≡ some r)

-- A write of the day's row keeps it armed, with its first reason; a write of another row does not
-- touch it.
upsert-IsArmedFor :
    (account : String) (day : ℕ) (r : Reason) (b : String) (e : ℕ) (new : DailyState) (t : Daily)
    → IsArmedFor account day r t
    → IsArmedFor account day r (upsert b e new t)
unfolding upsert
upsert-IsArmedFor account day r b e new t (row, found, armed, reason) =
    elim (Bool-cases (str_eq account b && day == e)) [
      | inr other ↦ (row, rw other found, armed, reason)
      | inl same ↦ (merged (some row) new, ground (arith, eq_iff account b), rw armed, rw reason)
    ]

conclude-IsArmedFor :
    (cfg : KillConfig) (account : String) (day e losses : ℕ) (r : Reason)
    (anchor : Option DailyState) (reasons : List Reason) (s : Session)
    → IsArmedFor account day r s.daily
    → IsArmedFor account day r (conclude cfg e losses anchor reasons s).0.daily
unfolding conclude
conclude-IsArmedFor cfg account day e losses r anchor reasons s h =
    elim (Bool-cases (is_some_reason reasons || was_armed anchor)) [
      | inl writes ↦
          rw writes (
            upsert-IsArmedFor account day r cfg.account e (written anchor losses reasons) s.daily h)
      | inr rests ↦ rw rests h
    ]

pub check-IsArmedFor :
    (cfg : KillConfig) (account : String) (day e : ℕ) (equity : Option ℤ) (files : String → Bool)
    (cycles : List Cycle) (r : Reason) (s : Session)
    → IsArmedFor account day r s.daily
    → IsArmedFor account day r (check cfg e equity files cycles s).0.daily
unfolding check
check-IsArmedFor cfg account day e equity files cycles r s h =
    go (drawdown_reasons cfg (s.daily cfg.account e) equity) refl
  where
    go :
        (d : Ended (List Reason))
        → drawdown_reasons cfg (s.daily cfg.account e) equity ≡ d
        → IsArmedFor account day r (check cfg e equity files cycles s).0.daily
    go broker_unavailable q = rw (q, check) h
    go zero_division q = rw (q, check) h
    go (done drawdown) q = rw (q, check) (conclude-IsArmedFor cfg account day e _ r _ _ s h)

prime_session-IsArmedFor :
    (cfg : KillConfig) (account : String) (day e : ℕ) (equity : Option ℤ) (r : Reason) (s : Session)
    → IsArmedFor account day r s.daily
    → IsArmedFor account day r (prime_session cfg e equity s).0.daily
unfolding prime_session
prime_session-IsArmedFor cfg account day e equity r s h = go (s.daily cfg.account e) equity refl
  where
    anchored :
        (x : Option DailyState) (q : Option ℤ)
        → IsArmedFor account day r (take_anchor cfg e x q s).0.daily
    anchored x none = h
    anchored x (some a) = upsert-IsArmedFor account day r cfg.account e (primed x a) s.daily h

    go :
        (x : Option DailyState) (q : Option ℤ)
        → s.daily cfg.account e ≡ x
        → IsArmedFor account day r (prime_session cfg e q s).0.daily
    go none q found = rw (found, prime_session) (anchored none q)
    go (some row) q found = elim (Option-cases row.session_open_equity) [
      | inl fresh ↦ rw (found, prime_session, fresh) (anchored (some row) q)
      | inr (a, old) ↦ rw (found, prime_session, old) h
    ]

-- What happens in a session: checks and primings, of any account and day, with any market, stop
-- file and trades. The operator's release is not among them.
pub data Step (s : Session) : Session → Type 0 where
  checked :
      (cfg : KillConfig) (e : ℕ) (equity : Option ℤ) (files : String → Bool) (cycles : List Cycle)
      → {s' : Session} → (check cfg e equity files cycles s).0 ≡ s'
      → Step s s'
  primed_anew :
      (cfg : KillConfig) (e : ℕ) (equity : Option ℤ)
      → {s' : Session} → (prime_session cfg e equity s).0 ≡ s'
      → Step s s'

pub data Reach (s : Session) : Session → Type 0 where
  here : Reach s s
  next : {t u : Session} → Reach s t → Step t u → Reach s u

pub Reach-IsArmedFor :
    (account : String) (day : ℕ) (r : Reason) {s s' : Session}
    → Reach s s'
    → IsArmedFor account day r s.daily
    → IsArmedFor account day r s'.daily
Reach-IsArmedFor account day r here h = h
Reach-IsArmedFor account day r (next {t = u} run (checked cfg e equity files cycles q)) h =
    rw (← q) (
      check-IsArmedFor cfg account day e equity files cycles r u
        (Reach-IsArmedFor account day r run h))
Reach-IsArmedFor account day r (next {t = u} run (primed_anew cfg e equity q)) h =
    rw (← q)
      (prime_session-IsArmedFor cfg account day e equity r u (Reach-IsArmedFor account day r run h))

-- With the row armed for a latching reason there is always a reason to stay tripped.
latch_reasons_armed :
    (row : DailyState) (r : Reason) (reasons : List Reason)
    → row.kill_switch_armed ≡ true
    → row.kill_switch_reason ≡ some r
    → is_latching r ≡ true
    → is_some_reason (latch_reasons (some row) reasons) ≡ true
unfolding latch_reasons
latch_reasons_armed row r (x ∷ xs) armed reason latching = refl
latch_reasons_armed row r [] armed reason latching = rw (armed, reason, latching)

abbrev tripped_of : Ended KillSwitchResult → Bool
tripped_of (done result) = result.tripped
tripped_of _ = true

check_armed :
    (cfg : KillConfig) (day : ℕ) (equity : Option ℤ) (files : String → Bool) (cycles : List Cycle)
    (r : Reason) (s : Session) {result : KillSwitchResult}
    → IsArmedFor cfg.account day r s.daily
    → is_latching r ≡ true
    → (check cfg day equity files cycles s).1 ≡ done result
    → result.tripped ≡ true
unfolding check conclude
check_armed cfg day equity files cycles r s {result} (row, found, armed, reason) latching ends =
    go (drawdown_reasons cfg (s.daily cfg.account day) equity) refl
  where
    go :
        (d : Ended (List Reason))
        → drawdown_reasons cfg (s.daily cfg.account day) equity ≡ d
        → result.tripped ≡ true
    go broker_unavailable q = cc (rw (q, check) at ends)
    go zero_division q = cc (rw (q, check) at ends)
    go (done drawdown) q =
        let reasons =
          stop_reasons cfg files
          ++ (drawdown
              ++ streak_reasons cfg
                  (consecutive_losses cfg.account cfg.consecutive_losses_pause cycles)) in
        let fired = latch_reasons_armed row r reasons armed reason latching in
        ap tripped_of (sym (rw (q, check) at ends)) ∙ rw found fired

-- Once the day's row is armed for a reason that names a drawdown or a losing streak, every later
-- check of that day that ends at all is tripped, whatever the market, the stop file and the
-- trades have done since, until the operator releases the switch.
pub check_latched :
    (cfg : KillConfig) (day : ℕ) (equity : Option ℤ) (files : String → Bool) (cycles : List Cycle)
    (r : Reason) {s s' : Session} {result : KillSwitchResult}
    → IsArmedFor cfg.account day r s.daily
    → is_latching r ≡ true
    → Reach s s'
    → (check cfg day equity files cycles s').1 ≡ done result
    → result.tripped ≡ true
check_latched cfg day equity files cycles r {s' = t} armed latching run ends =
    check_armed cfg day equity files cycles r t (Reach-IsArmedFor cfg.account day r run armed)
      latching ends
