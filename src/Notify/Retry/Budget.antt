-- ===== src/Notify/Retry/Budget.antt =====
-- How long and how often postWithRetry of internal/notify/retry.go tries.
use tlsrpt_digest.Base.{
  ◌≡◌, refl, sym, subst, ℕ, zero, suc, ◌+◌, ◌-◌, ◌*◌, ◌^◌, ◌≤◌, ◌<◌, ◌==◌, ltb, leb, Bool,
  Bool-cases, inl, inr, Option, Option-cases, none, some, List, [], ◌∷◌, ◌&&◌, if◌then◌else◌,
  if_both, arith,
}
use native.Mathlib.Nat.{mul-le-mul_left, pow-le-pow_right}
use tlsrpt_digest.Base.Int.{ℤ, pos, negsuc, ◌+ℤ◌, ltb_ℤ, wrap64, pos_part, wrap64_of_IsInt64}
use tlsrpt_digest.Base.Number.{atoi}
use tlsrpt_digest.Base.Time.{second}
use tlsrpt_digest.Notify.Retry.{
  BackoffConfig, default_backoff_config, max_cumulative_wait, max_backoff_shift, backoff_duration,
  parse_retry_after, Reply, context_done, no_answer, answer, NotifyError, Verdict, stop, retry,
  do_attempt, Session, after_attempt, post_with_retry, slack_server_error, is_unset, pause,
  attempted,
}

abbrev budget : ℕ
budget = 14 * second

-- the time spent in sleeps; a sleep for a negative duration takes none
abbrev pub slept_for : List ℤ → ℕ
slept_for [] = 0
slept_for (w ∷ ws) = pos_part w + slept_for ws

-- a wait within the budget
abbrev Fits : ℤ → Type 0
Fits w = (n : ℕ) × (w ≡ pos n) × (n ≤ budget)

shift_lt : (b k : ℕ) → b < 2 ^ 33 → k ≤ 30 → b * 2 ^ k < 2 ^ 63
shift_lt b k h l =
    let m : b * 2 ^ k ≤ b * 2 ^ 30 = mul-le-mul_left b (pow-le-pow_right (omega arith) l) in
    omega arith

-- the shift that the code takes
abbrev shift_of : ℕ → ℕ
shift_of k = if ltb max_backoff_shift k then max_backoff_shift else k

shift_of_le : (k : ℕ) → shift_of k ≤ 30
shift_of_le k = ground arith

capped : (d : ℕ) → Fits (if ltb_ℤ max_cumulative_wait (pos d) then max_cumulative_wait else pos d)
capped d = (if ltb budget d then budget else d, ground arith, ground arith)

backoff_duration-Fits : (b k : ℕ) → b < 2 ^ 33 → Fits (backoff_duration (pos b) k)
unfolding backoff_duration
backoff_duration-Fits b k h =
    let e : wrap64 (pos (b * 2 ^ shift_of k)) ≡ pos (b * 2 ^ shift_of k) =
      wrap64_of_IsInt64 (pos (b * 2 ^ shift_of k))
        (shift_lt b (shift_of k) h (shift_of_le k), omega arith) in
    subst (λ d. Fits (if ltb_ℤ max_cumulative_wait d then max_cumulative_wait else d)) (sym e)
      (capped (b * 2 ^ shift_of k))

abbrev FitsIn : Verdict → Type 0
FitsIn (retry e (some w)) = Fits w
FitsIn _ = Unit

parse_retry_after-Fits : (h : List ℕ) (w : ℤ) → parse_retry_after h ≡ some w → Fits w
unfolding parse_retry_after
parse_retry_after-Fits [] w e = absurd (ground arith)
parse_retry_after-Fits (c ∷ cs) w e = elim (Option-cases (atoi (c ∷ cs))) [
  | inl n ↦ absurd (ground arith)
  | inr (pos n, p) ↦ (if ltb 14 n then 14 * second else n * second, ground arith, ground arith)
  | inr (negsuc n, p) ↦ absurd (ground arith)
]

sum_Fits : (c n : ℕ) → c ≤ budget → n ≤ budget → wrap64 (pos c +ℤ pos n) ≡ pos (c + n)
unfolding wrap64 ◌+ℤ◌
sum_Fits c n h k = ground arith

asked_Fits :
    (e : NotifyError) (asked : Option ℤ)
    → ((w : ℤ) → asked ≡ some w → Fits w)
    → FitsIn (retry e asked)
asked_Fits e none f = tt
asked_Fits e (some w) f = f w refl

do_attempt-FitsIn : (r : Reply) → FitsIn (do_attempt r)
unfolding do_attempt
do_attempt-FitsIn context_done = tt
do_attempt-FitsIn no_answer = tt
do_attempt-FitsIn (answer sc header) =
    if_both FitsIn (leb 200 sc && ltb sc 300) (λ _. tt)
      λ _.
        if_both FitsIn (sc == 429)
          (λ _.
            asked_Fits (slack_server_error sc) (parse_retry_after header)
              (λ w e. parse_retry_after-Fits header w e))
          λ _. if_both FitsIn (leb 500 sc) (λ _. tt) (λ _. tt)

-- a session within the rest of the budget, and of the attempts
record Within (c left : ℕ) (s : Session) : Type 0 where
  time : c + slept_for s.waits ≤ budget
  tries : s.attempts ≤ left

pause-Within :
    (sleeps : ℕ → Bool) (c w left : ℕ) (last : NotifyError) (attempt : ℕ) (rest : Session)
    → c ≤ budget
    → w ≤ budget
    → (c + w ≤ budget → Within (c + w) left rest)
    → Within c left (pause sleeps (pos c) (pos w) last attempt rest)
pause-Within sleeps c w left last attempt rest h k r =
    if_both (Within c left) (ltb_ℤ max_cumulative_wait (wrap64 (pos c +ℤ pos w)))
      (λ _. record { time = omega arith; tries = omega arith })
      λ b.
        let l : c + w ≤ budget = ground (arith, sum_Fits c w h k) in
        if_both (Within c left) (sleeps attempt)
          (λ _. record { time = ground (arith, (r l).time); tries = (r l).tries })
          (λ _. record { time = omega arith; tries = omega arith })

module _ (server : ℕ → Reply) (sleeps : ℕ → Bool) (b : ℕ) (small : b < 2 ^ 33) where
  -- a wait and the attempt after it, where the rest of the loop keeps to what is left
  paused-Within :
      (left attempt c : ℕ) (wait : ℤ) (last : NotifyError) (v : Verdict)
      → c ≤ budget
      → Fits wait
      → ((c' : ℕ)
          → c' ≤ budget
          → Within c' left (after_attempt server sleeps (pos b) left (suc attempt) (pos c') v))
      → Within c (suc left) (
          pause sleeps (pos c) wait last attempt (
            attempted
              (after_attempt server sleeps (pos b) left (suc attempt) (wrap64 (pos c +ℤ wait)) v)))
  paused-Within left attempt c wait last v h (n, e, k) ih =
      let rest : ℤ → Session =
        λ t. attempted (after_attempt server sleeps (pos b) left (suc attempt) t v) in
      subst
        (λ w.
          Within c (suc left) (pause sleeps (pos c) w last attempt (rest (wrap64 (pos c +ℤ w)))))
        (sym e)
        (pause-Within sleeps c n (suc left) last attempt (rest (wrap64 (pos c +ℤ pos n))) h k (λ l.
          subst (λ t. Within (c + n) (suc left) (rest t)) (sym (sum_Fits c n h k))
            (record { time = (ih (c + n) l).time; tries = omega (arith, (ih (c + n) l).tries) })))

  after_attempt-Within :
      (left attempt c : ℕ) (v : Verdict)
      → c ≤ budget
      → FitsIn v
      → Within c left (after_attempt server sleeps (pos b) left attempt (pos c) v)
  unfolding after_attempt
  after_attempt-Within left attempt c (stop e) h f = record {
    time = omega arith;
    tries = omega arith;
  }
  after_attempt-Within zero attempt c (retry last none) h f = record {
    time = omega arith;
    tries = omega arith;
  }
  after_attempt-Within zero attempt c (retry last (some w)) h f = record {
    time = omega arith;
    tries = omega arith;
  }
  after_attempt-Within (suc left) attempt c (retry last none) h f =
      let v = do_attempt (server attempt) in
      paused-Within left attempt c (backoff_duration (pos b) (attempt - 1)) last v h
        (backoff_duration-Fits b (attempt - 1) small)
        (λ c' l.
          after_attempt-Within left (suc attempt) c' v l (do_attempt-FitsIn (server attempt)))
  after_attempt-Within (suc left) attempt c (retry last (some w)) h f =
      let v = do_attempt (server attempt) in
      let g = do_attempt-FitsIn (server attempt) in
      if_both (Within c (suc left)) (ltb_ℤ (pos 0) w)
        (λ _.
          paused-Within left attempt c w last v h f
            (λ c' l. after_attempt-Within left (suc attempt) c' v l g))
        (λ _.
          let k = after_attempt-Within left (suc attempt) c v h g in
          record { time = k.time; tries = omega (arith, k.tries) })

-- the session for the configuration in force
abbrev Kept : (ℕ → Reply) → (ℕ → Bool) → ℕ → BackoffConfig → Type 0
Kept server sleeps most config =
    let s = attempted (
      after_attempt server sleeps config.base config.retry_count 1 (pos 0)
        (do_attempt (server 0))) in
    (slept_for s.waits ≤ 14 * second) × (1 ≤ s.attempts) × (s.attempts ≤ most)

config-Kept :
    (server : ℕ → Reply) (sleeps : ℕ → Bool) (b n : ℕ)
    → b < 2 ^ 33
    → Kept server sleeps (n + 1) (record { base = pos b; retry_count = n })
config-Kept server sleeps b n h =
    let k =
      after_attempt-Within server sleeps b h n 1 0 (do_attempt (server 0)) (omega arith)
        (do_attempt-FitsIn (server 0)) in
    (omega (arith, k.time), omega arith, omega (arith, k.tries))

-- The base of the backoff is less than 2 ^ 33 ns (8.59 s). Whatever the server answers, and
-- wherever the context breaks a sleep off, postWithRetry sleeps for at most 14 s in all, and makes
-- at least one attempt and, where the configuration is not the unset one, at most one more than
-- its retry count.
pub post_with_retry-keeps_budget :
    (server : ℕ → Reply) (sleeps : ℕ → Bool) (b n : ℕ)
    → b < 2 ^ 33
    → let s = post_with_retry server sleeps (record { base = pos b; retry_count = n }) in
      (slept_for s.waits ≤ 14 * second)
      × (1 ≤ s.attempts)
      × (s.attempts ≤ (if b + n == 0 then 4 else n + 1))
unfolding post_with_retry
post_with_retry-keeps_budget server sleeps b n h =
    let config : BackoffConfig = record { base = pos b; retry_count = n } in
    elim (Bool-cases (b + n == 0)) [
      | inl e ↦
          let unset : (if is_unset config then default_backoff_config else config)
              ≡ default_backoff_config =
            ground arith in
          subst (Kept server sleeps (if b + n == 0 then 4 else n + 1)) (sym unset) (
            subst (λ t. Kept server sleeps (if t then 4 else n + 1) default_backoff_config) (sym e)
              (config-Kept server sleeps (2 * second) 3 (omega arith)))
      | inr e ↦
          let same : (if is_unset config then default_backoff_config else config) ≡ config =
            ground arith in
          subst (Kept server sleeps (if b + n == 0 then 4 else n + 1)) (sym same) (
            subst (λ t. Kept server sleeps (if t then 4 else n + 1) config) (sym e)
              (config-Kept server sleeps b n h))
    ]
