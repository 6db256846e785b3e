-- ===== src/KillSwitch/Anchor.antt =====
-- The session-open equity: taken once, and kept for the day.
use wheelbot.Common.{
  Bool-cases, String, arith, eq_iff, inl, inr, none, some, str_eq, ℕ, ◌&&◌, ◌==◌, ◌≡◌, ◌⊎◌, Bool,
  List, Option, refl, ◌||◌, Option-cases, true, ◌≢◌,
}
use wheelbot.Store.Daily.{Daily, DailyState, merged, upsert, Reason, coalesce}
use wheelbot.KillSwitch.{
  open_equity_of, Ended, KillConfig, Session, broker_unavailable, check, conclude, done,
  drawdown_reasons, is_some_reason, prime_session, was_armed, written, zero_division, primed,
  take_anchor,
}
use wheelbot.Common.Int.{ℤ}
use wheelbot.Store.Cycles.{Cycle}
use wheelbot.KillSwitch.Latch.{Reach, next, checked, primed_anew, here}

-- The day's row holds the anchor `a`.
abbrev pub HasAnchor : String → ℕ → ℤ → Daily → Type 0
HasAnchor account day a t =
    (row : DailyState) × (t account day ≡ some row) × (row.session_open_equity ≡ some a)

-- A write keeps the anchor if it brings none, or the same one.
upsert-HasAnchor :
    (account : String) (day : ℕ) (a : ℤ) (b : String) (e : ℕ) (new : DailyState) (t : Daily)
    → ((str_eq account b && day == e) ≡ true
        → (new.session_open_equity ≡ none) ⊎ (new.session_open_equity ≡ open_equity_of (t b e)))
    → HasAnchor account day a t
    → HasAnchor account day a (upsert b e new t)
unfolding upsert
upsert-HasAnchor account day a b e new t brings (row, found, anchor) =
    elim (Bool-cases (str_eq account b && day == e)) [
      | inr other ↦ (row, rw other found, anchor)
      | inl same ↦
          let here : t b e ≡ some row = ground (arith, eq_iff account b) in
          (merged (some row) new, rw (same, here), coalesced (rw here at (brings same)))
    ]
  where
    coalesced :
        (new.session_open_equity ≡ none) ⊎ (new.session_open_equity ≡ row.session_open_equity)
        → coalesce new.session_open_equity row.session_open_equity ≡ some a
    coalesced (inl nothing) = rw (nothing, anchor)
    coalesced (inr same) = rw (same, anchor)

check-HasAnchor :
    (cfg : KillConfig) (account : String) (day e : ℕ) (equity : Option ℤ) (files : String → Bool)
    (cycles : List Cycle) (a : ℤ) (s : Session)
    → HasAnchor account day a s.daily
    → HasAnchor account day a (check cfg e equity files cycles s).0.daily
unfolding check conclude
check-HasAnchor cfg account day e equity files cycles a s h =
    go (drawdown_reasons cfg (s.daily cfg.account e) equity) refl
  where
    concluded :
        (losses : ℕ) (reasons : List Reason)
        → HasAnchor account day a (conclude cfg e losses (s.daily cfg.account e) reasons s).0.daily
    concluded losses reasons =
        elim (Bool-cases (is_some_reason reasons || was_armed (s.daily cfg.account e))) [
          | inl writes ↦
              rw (writes, conclude)
                (upsert-HasAnchor account day a cfg.account e
                  (written (s.daily cfg.account e) losses reasons) s.daily (λ _. inr refl) h)
          | inr rests ↦ rw (rests, conclude) h
        ]

    go :
        (d : Ended (List Reason))
        → drawdown_reasons cfg (s.daily cfg.account e) equity ≡ d
        → HasAnchor account day a (check cfg e equity files cycles s).0.daily
    go broker_unavailable q = rw (q, check) h
    go zero_division q = rw (q, check) h
    go (done drawdown) q = rw (q, check) (concluded _ _)

prime_session-HasAnchor :
    (cfg : KillConfig) (account : String) (day e : ℕ) (equity : Option ℤ) (a : ℤ) (s : Session)
    → HasAnchor account day a s.daily
    → HasAnchor account day a (prime_session cfg e equity s).0.daily
unfolding prime_session
prime_session-HasAnchor cfg account day e equity a s h = go (s.daily cfg.account e) equity refl
  where
    differs :
        (x : Option DailyState)
        → s.daily cfg.account e ≡ x
        → open_equity_of x ≡ none
        → (str_eq account cfg.account && day == e) ≢ true
    differs x found empty same =
        let (row, held, anchor) = h in
        let here : s.daily account day ≡ x = ground (arith, eq_iff account cfg.account) in
        ground arith

    anchored :
        (x : Option DailyState) (q : Option ℤ)
        → s.daily cfg.account e ≡ x
        → open_equity_of x ≡ none
        → HasAnchor account day a (take_anchor cfg e x q s).0.daily
    anchored x none found empty = h
    anchored x (some q) found empty =
        upsert-HasAnchor account day a cfg.account e (primed x q) s.daily
          (λ same. absurd (differs x found empty same)) h

    go :
        (x : Option DailyState) (q : Option ℤ)
        → s.daily cfg.account e ≡ x
        → HasAnchor account day a (prime_session cfg e q s).0.daily
    go none q found = rw (found, prime_session) (anchored none q found refl)
    go (some row) q found = elim (Option-cases row.session_open_equity) [
      | inl fresh ↦ rw (found, prime_session, fresh) (anchored (some row) q found fresh)
      | inr (b, old) ↦ rw (found, prime_session, old) h
    ]

-- Once the day's session-open equity is taken, it stays: no later priming or check of any day
-- changes it, so a restart in the middle of the day keeps the baseline of the drawdown.
pub Reach-HasAnchor :
    (account : String) (day : ℕ) (a : ℤ) {s s' : Session}
    → Reach s s'
    → HasAnchor account day a s.daily
    → HasAnchor account day a s'.daily
Reach-HasAnchor account day a here h = h
Reach-HasAnchor account day a (next {t = u} run (checked cfg e equity files cycles q)) h =
    rw (← q) (
      check-HasAnchor cfg account day e equity files cycles a u
        (Reach-HasAnchor account day a run h))
Reach-HasAnchor account day a (next {t = u} run (primed_anew cfg e equity q)) h =
    rw (← q)
      (prime_session-HasAnchor cfg account day e equity a u (Reach-HasAnchor account day a run h))
