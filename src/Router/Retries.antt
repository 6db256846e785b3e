-- ===== src/Router/Retries.antt =====
-- execution/router.py, `_submit_with_retry`: which attempts the loop makes.
use wheelbot.Common.{
  Bool, false, length, suc, true, zero, ℕ, ◌≡◌, ◌≤◌, Bool-cases, arith, inl, inr, refl, ◌*◌, ◌∷◌,
  All, ap, ◌∙◌,
}
use wheelbot.Models.{Order}
use wheelbot.Broker.{Reply, failure, broker_unavailable}
use wheelbot.Router.Submit.{attempts, Attempts, ended, min, settle, submit_with_retry}
use wheelbot.Store.{send}
use wheelbot.Router.Defs.{RouterConfig}

-- `Tried send s k s' a`: `k` calls, from the state `s` to `s'`, all but the last of which find the
-- broker unavailable; the last one's reply is `a`.
pub data Tried {S : Type 0} (send : S → S × Reply Order) : S → ℕ → S → Reply Order → Type 0 where
  last : (s : S) → Tried send s 1 (send s).0 (send s).1
  again :
      (s s' : S) (k : ℕ) (a : Reply Order)
      → (send s).1 ≡ failure broker_unavailable
      → Tried send (send s).0 k s' a
      → Tried send s (suc k) s' a

abbrev pub is_down : Reply Order → Bool
is_down (failure broker_unavailable) = true
is_down _ = false

module _ {S : Type 0} (send : S → S × Reply Order) (limit : ℕ) where
  settle-zero :
      (pause : ℕ) (a : S × Reply Order) (rest : Attempts S) → settle zero pause a rest ≡ ended a
  settle-zero pause (s, a) rest = refl

  settle-last :
      (n pause : ℕ) (a : S × Reply Order) (rest : Attempts S)
      → is_down a.1 ≡ false
      → settle n pause a rest ≡ ended a
  settle-last n pause a rest h = ground arith

  settle-again :
      (n pause : ℕ) (a : S × Reply Order) (rest : Attempts S)
      → is_down a.1 ≡ true
      → (a.1 ≡ failure broker_unavailable)
        × (settle (suc n) pause a rest ≡ record rest { sleeps = pause ∷ rest.sleeps })
  settle-again n pause a rest h = ground arith

  abbrev IsRun : (most : ℕ) → S → Attempts S → Type 0
  IsRun most s r =
      (k : ℕ) × (k ≤ most) × Tried send s k r.broker r.reply × (suc (length r.sleeps) ≡ k)

  attempts-step :
      (n backoff : ℕ) (s : S)
      → attempts send limit (suc n) backoff s
        ≡ settle n
            (min backoff limit)
            (send s)
            (attempts send limit n (min (backoff * 2) limit) (send s).0)
  unfolding attempts
  attempts-step n backoff s = refl

  pub attempts-none :
      (backoff : ℕ) (s : S)
      → attempts send limit 0 backoff s ≡ ended (s, failure broker_unavailable)
  unfolding attempts
  attempts-none backoff s = refl

  -- The loop's three ways on.
  first-zero : (backoff : ℕ) (s : S) → attempts send limit 1 backoff s ≡ ended (send s)
  first-zero backoff s =
      attempts-step 0 backoff s
      ∙ settle-zero (min backoff limit) (send s)
          (attempts send limit 0 (min (backoff * 2) limit) (send s).0)

  first-last :
      (n backoff : ℕ) (s : S)
      → is_down (send s).1 ≡ false
      → attempts send limit (suc n) backoff s ≡ ended (send s)
  first-last n backoff s e = attempts-step n backoff s ∙ settle-last n _ (send s) _ e

  first-again :
      (n backoff : ℕ) (s : S)
      → is_down (send s).1 ≡ true
      → ((send s).1 ≡ failure broker_unavailable)
        × (let rest = attempts send limit (suc n) (min (backoff * 2) limit) (send s).0 in
            attempts send limit (suc (suc n)) backoff s
            ≡ record rest { sleeps = min backoff limit ∷ rest.sleeps })
  first-again n backoff s e =
      let (down, q) = settle-again n (min backoff limit) (send s) _ e in
      (down, attempts-step (suc n) backoff s ∙ q)

  -- What the loop does with `left` attempts is a run of calls of at most that many.
  pub attempts-Tried :
      (left backoff : ℕ) (s : S) → IsRun (suc left) s (attempts send limit (suc left) backoff s)
  attempts-Tried zero backoff s = rw (first-zero backoff s) (1, omega arith, last s, refl)
  attempts-Tried (suc n) backoff s = elim (Bool-cases (is_down (send s).1)) [
    | inr e ↦ rw (first-last (suc n) backoff s e) (1, omega arith, last s, refl)
    | inl e ↦
        let (down, q) = first-again n backoff s e in
        let (k, le, run, eq) = attempts-Tried n (min (backoff * 2) limit) (send s).0 in
        rw q (suc k, omega arith, again s _ k _ down run, omega arith)
  ]

  Tried-some : (k : ℕ) (s s' : S) (a : Reply Order) → Tried send s k s' a → 1 ≤ k
  Tried-some k s s' a (last _) = omega arith
  Tried-some k s s' a (again _ _ j _ _ _) = omega arith

  -- A run that an attempt ends, within the attempts that there are, is what the loop does.
  Tried-attempts :
      (left backoff k : ℕ) (s s' : S) (a : Reply Order)
      → Tried send s k s' a
      → is_down a ≡ false
      → k ≤ left
      → ((attempts send limit left backoff s).broker ≡ s')
        × ((attempts send limit left backoff s).reply ≡ a)
  Tried-attempts zero backoff k s s' a t h le = ground (arith, Tried-some k s s' a t)
  Tried-attempts (suc n) backoff k s s' a (last _) h le = rw (first-last n backoff s h) (refl, refl)
  Tried-attempts (suc zero) backoff k s s' a (again _ _ j _ down t) h le =
      ground (arith, Tried-some j _ s' a t)
  Tried-attempts (suc (suc n)) backoff k s s' a (again _ _ j _ down t) h le =
      let (_, q) = first-again n backoff s (ap is_down down) in
      let rest = Tried-attempts (suc n) (min (backoff * 2) limit) j _ s' a t h (omega arith) in
      rw q rest

  attempts-IsRun :
      (left backoff : ℕ) (s : S) → 1 ≤ left → IsRun left s (attempts send limit left backoff s)
  attempts-IsRun zero backoff s h = ground arith
  attempts-IsRun (suc n) backoff s h = attempts-Tried n backoff s

  -- Every pause is at most the limit.
  attempts-pauses :
      (left backoff : ℕ) (s : S) → All (λ p. p ≤ limit) (attempts send limit left backoff s).sleeps
  attempts-pauses zero backoff s = rw (attempts-none backoff s) tt
  attempts-pauses (suc zero) backoff s = rw (first-zero backoff s) tt
  attempts-pauses (suc (suc n)) backoff s = elim (Bool-cases (is_down (send s).1)) [
    | inr e ↦ rw (first-last (suc n) backoff s e) tt
    | inl e ↦
        let (_, q) = first-again n backoff s e in
        rw q (ground arith, attempts-pauses (suc n) (min (backoff * 2) limit) (send s).0)
  ]

-- The loop of a submission that may be attempted at all: it makes at most the configured number of
-- calls on the broker, each but the last of which finds the broker unavailable, with one pause
-- between two calls, none longer than the configured one; it ends with the last call's reply.
pub submit_with_retry-Tried :
    {S : Type 0} (send : S → S × Reply Order) (cfg : RouterConfig) (s : S)
    → 1 ≤ cfg.retry_max_attempts
    → let r = submit_with_retry send cfg s in
      (k : ℕ) × (k ≤ cfg.retry_max_attempts)
      × Tried send s k r.broker r.reply
      × (suc (length r.sleeps) ≡ k)
      × All (λ p. p ≤ cfg.retry_max_backoff) r.sleeps
unfolding submit_with_retry
submit_with_retry-Tried send cfg s h =
    let (k, le, run, eq) =
      attempts-IsRun send cfg.retry_max_backoff cfg.retry_max_attempts cfg.retry_initial_backoff s
        h in
    (
      k,
      le,
      run,
      eq,
      attempts-pauses send cfg.retry_max_backoff cfg.retry_max_attempts cfg.retry_initial_backoff s,
    )

-- A broker that answers, with an order or with a rejection, within the configured number of calls:
-- the loop ends at that answer.
pub Tried-submit_with_retry :
    {S : Type 0} (send : S → S × Reply Order) (cfg : RouterConfig) (s s' : S) (k : ℕ)
    (a : Reply Order)
    → Tried send s k s' a
    → is_down a ≡ false
    → k ≤ cfg.retry_max_attempts
    → ((submit_with_retry send cfg s).broker ≡ s') × ((submit_with_retry send cfg s).reply ≡ a)
unfolding submit_with_retry
Tried-submit_with_retry send cfg s s' k a t h le =
    Tried-attempts send cfg.retry_max_backoff cfg.retry_max_attempts cfg.retry_initial_backoff k s
      s' a t h le
