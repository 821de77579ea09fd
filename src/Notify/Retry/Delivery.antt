-- ===== src/Notify/Retry/Delivery.antt =====
-- When postWithRetry of internal/notify/retry.go delivers, with the configuration of production.
use tlsrpt_digest.Base.{
  ◌≡◌, refl, sym, ap, subst, ℕ, zero, suc, ◌+◌, ◌-◌, ◌*◌, ◌≤◌, ◌<◌, Bool, true, none, arith,
}
use tlsrpt_digest.Base.Int.{pos, wrap64, ◌+ℤ◌}
use tlsrpt_digest.Base.Time.{second}
use tlsrpt_digest.Notify.Retry.{
  default_backoff_config, backoff_duration, Reply, NotifyError, stop, retry, do_attempt, Session,
  after_attempt, post_with_retry,
}

-- how many attempts the session makes, and that it ends without an error
abbrev Delivers : ℕ → Session → Type 0
Delivers n s = (s.error ≡ none) × (s.attempts ≡ n)

sum_seconds : (c w : ℕ) → c + w ≤ 14 * second → wrap64 (pos c +ℤ pos w) ≡ pos (c + w)
unfolding wrap64 ◌+ℤ◌
sum_seconds c w h = ground arith

wait_1 : backoff_duration (pos (2 * second)) 0 ≡ pos (2 * second)
unfolding backoff_duration wrap64
wait_1 = refl

wait_2 : backoff_duration (pos (2 * second)) 1 ≡ pos (4 * second)
unfolding backoff_duration wrap64
wait_2 = refl

wait_3 : backoff_duration (pos (2 * second)) 2 ≡ pos (8 * second)
unfolding backoff_duration wrap64
wait_3 = refl

module _ (server : ℕ → Reply) (sleeps : ℕ → Bool) (awake : (n : ℕ) → sleeps n ≡ true) where
  -- a wait that fits, and the attempt after it
  step :
      (left attempt c w n : ℕ) (e : NotifyError)
      → backoff_duration (pos (2 * second)) (attempt - 1) ≡ pos w
      → c + w ≤ 14 * second
      → Delivers n (
          after_attempt server sleeps
            (pos (2 * second))
            left
            (suc attempt)
            (pos (c + w))
            (do_attempt (server attempt)))
      → Delivers
          (suc n)
          (after_attempt server sleeps (pos (2 * second)) (suc left) attempt (pos c) (retry e none))
  unfolding after_attempt
  step left attempt c w n e b h d = ground (arith, awake attempt, sum_seconds c w h)

  -- the server accepts attempt `k`, and each attempt before it may be tried again
  abbrev Accepts : ℕ → Type 0
  Accepts k =
      ((i : ℕ) → i < k → (e : NotifyError) × (do_attempt (server i) ≡ retry e none))
      × (do_attempt (server k) ≡ stop none)

  -- the rest of the session once attempt `a` is made, with `c` slept
  abbrev rest : ℕ → ℕ → ℕ → Session
  rest left a c =
      after_attempt server sleeps (pos (2 * second)) left (suc a) (pos c) (do_attempt (server a))

  accepted : (left a c : ℕ) → do_attempt (server a) ≡ stop none → Delivers 0 (rest left a c)
  unfolding after_attempt
  accepted left a c e = rw e (refl, refl)

  again :
      (left a c w n : ℕ)
      → ((e : NotifyError) × (do_attempt (server a) ≡ retry e none))
      → backoff_duration (pos (2 * second)) a ≡ pos w
      → c + w ≤ 14 * second
      → Delivers n (rest left (suc a) (c + w))
      → Delivers (suc n) (rest (suc left) a c)
  again left a c w n (e, r) b h d =
      subst
        (λ v.
          Delivers (suc n)
            (after_attempt server sleeps (pos (2 * second)) (suc left) (suc a) (pos c) v))
        (sym r) (step left (suc a) c w n e (ap_wait a w b) h d)
    where
      ap_wait :
          (m w : ℕ)
          → backoff_duration (pos (2 * second)) m ≡ pos w
          → backoff_duration (pos (2 * second)) (suc m - 1) ≡ pos w
      ap_wait m w b =
          let p : suc m - 1 ≡ m = omega arith in
          subst (λ i. backoff_duration (pos (2 * second)) i ≡ pos w) (sym p) b

  delivered : (k : ℕ) → k ≤ 3 → Accepts k → Delivers k (rest 3 0 0)
  delivered zero h (f, l) = accepted 3 0 0 l
  delivered (suc zero) h (f, l) =
      again 2 0 0 (2 * second) 0 (f 0 (omega arith)) wait_1 (omega arith)
        (accepted 2 1 (2 * second) l)
  delivered (suc (suc zero)) h (f, l) =
      again 2 0 0 (2 * second) 1 (f 0 (omega arith)) wait_1 (omega arith) (
        again 1 1 (2 * second) (4 * second) 0 (f 1 (omega arith)) wait_2 (omega arith)
          (accepted 1 2 (6 * second) l))
  delivered (suc (suc (suc zero))) h (f, l) =
      again 2 0 0 (2 * second) 2 (f 0 (omega arith)) wait_1 (omega arith) (
        again 1 1 (2 * second) (4 * second) 1 (f 1 (omega arith)) wait_2 (omega arith) (
          again 0 2 (6 * second) (8 * second) 0 (f 2 (omega arith)) wait_3 (omega arith)
            (accepted 0 3 (14 * second) l)))
  delivered (suc (suc (suc (suc k)))) h a = absurd (omega arith)

-- With the configuration of production, and a context that breaks no sleep off: if the server accepts
-- attempt `k`, of 0 to 3, and each earlier attempt meets no answer, a status from 500 on, or a 429
-- without a Retry-After that can be read, then postWithRetry delivers, with its attempt `k` the last.
pub post_with_retry-delivers :
    (server : ℕ → Reply) (sleeps : ℕ → Bool) (k : ℕ)
    → ((n : ℕ) → sleeps n ≡ true)
    → k ≤ 3
    → ((i : ℕ) → i < k → (e : NotifyError) × (do_attempt (server i) ≡ retry e none))
    → do_attempt (server k) ≡ stop none
    → let s = post_with_retry server sleeps default_backoff_config in
      (s.error ≡ none) × (s.attempts ≡ suc k)
unfolding post_with_retry
post_with_retry-delivers server sleeps k awake h f l =
    let d = delivered server sleeps awake k h (f, l) in (d.0, ap suc d.1)
