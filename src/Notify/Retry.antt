-- ===== src/Notify/Retry.antt =====
-- internal/notify/retry.go: a webhook POST with retries. A duration is an int64 of nanoseconds.
-- The HTTP client and the context are parameters: what one attempt meets, by its number, and
-- whether a sleep before it is broken off.
pub mod Budget
pub mod Delivery
use tlsrpt_digest.Base.{
  ℕ, zero, suc, ◌+◌, ◌-◌, ◌*◌, ◌/◌, ◌^◌, ◌==◌, ltb, leb, Bool, true, false, not, ◌&&◌, ◌||◌, Option,
  none, some, List, [], ◌∷◌, if◌then◌else◌,
}
use tlsrpt_digest.Base.Int.{ℤ, pos, negsuc, ◌+ℤ◌, ltb_ℤ, wrap64}
use tlsrpt_digest.Base.Number.{atoi}
use tlsrpt_digest.Base.Time.{second}

pub record BackoffConfig : Type 0 where
  pub base : ℤ
  pub retry_count : ℕ

abbrev pub default_backoff_config : BackoffConfig
default_backoff_config = record { base = pos (2 * second); retry_count = 3 }

abbrev pub max_cumulative_wait : ℤ
max_cumulative_wait = pos (14 * second)

abbrev pub max_backoff_shift : ℕ
max_backoff_shift = 30

abbrev pub max_retry_after_seconds : ℕ
max_retry_after_seconds = 14

abbrev pub times : ℤ → ℕ → ℤ
times (pos n) k = pos (n * k)
times (negsuc n) zero = pos 0
times (negsuc n) (suc k) = negsuc (suc n * suc k - 1)

unfoldable pub backoff_duration : ℤ → ℕ → ℤ
backoff_duration base attempt =
    let shift = if ltb max_backoff_shift attempt then max_backoff_shift else attempt in
    let d = wrap64 (times base (2 ^ shift)) in
    if ltb_ℤ max_cumulative_wait d then max_cumulative_wait else d

abbrev cap_seconds : Option ℤ → Option ℤ
cap_seconds none = none
cap_seconds (some (negsuc n)) = none
cap_seconds (some (pos secs)) =
    some
      (pos ((if ltb max_retry_after_seconds secs then max_retry_after_seconds else secs) * second))

unfoldable pub parse_retry_after : List ℕ → Option ℤ
parse_retry_after [] = none
parse_retry_after (c ∷ cs) = cap_seconds (atoi (c ∷ cs))

-- what one attempt meets: the context is done, before the request or when it fails; the request
-- fails; or an answer with its status and its Retry-After header
pub data Reply : Type 0 where
  context_done no_answer : Reply
  answer : ℕ → List ℕ → Reply

pub data NotifyError : Type 0 where
  context_error : NotifyError
  slack_client_error slack_server_error : ℕ → NotifyError

-- the results of doAttempt: stop, or go on with the last error and what Retry-After asked for
pub data Verdict : Type 0 where
  stop : Option NotifyError → Verdict
  retry : NotifyError → Option ℤ → Verdict

unfoldable pub do_attempt : Reply → Verdict
do_attempt context_done = stop (some context_error)
do_attempt no_answer = retry (slack_server_error 0) none
do_attempt (answer sc header) =
    if leb 200 sc && ltb sc 300
    then stop none
    else if sc == 429
    then retry (slack_server_error sc) (parse_retry_after header)
    else if leb 500 sc
    then retry (slack_server_error sc) none
    else stop (some (slack_client_error sc))

-- What a session did: the attempts made, the waits slept through, in their order, and the error
-- returned; `none` is a delivery.
pub record Session : Type 0 where
  pub attempts : ℕ
  pub waits : List ℤ
  pub error : Option NotifyError

abbrev pub ended : Option NotifyError → Session
ended e = record { attempts = 0; waits = []; error = e }

abbrev pub attempted : Session → Session
attempted s = record s { attempts = suc s.attempts }

abbrev pub slept : ℤ → Session → Session
slept wait s = record s { waits = wait ∷ s.waits }

abbrev pub exhausted : NotifyError → Session
exhausted e = ended (some e)

-- sleep for `wait` before the attempt, unless it does not fit the budget or is broken off
abbrev pub pause : (ℕ → Bool) → ℤ → ℤ → NotifyError → ℕ → Session → Session
pause sleeps cumulative wait last attempt rest =
    if ltb_ℤ max_cumulative_wait (wrap64 (cumulative +ℤ wait))
    then exhausted last
    else if sleeps attempt
    then slept wait rest
    else ended (some context_error)

module _ (server : ℕ → Reply) (sleeps : ℕ → Bool) (base : ℤ) where
  -- The loop after `attempt` attempts, of which the last one failed with `last`; `left` more may be
  -- made, and `cumulative` is what has been slept.
  unfoldable pub after_attempt : ℕ → ℕ → ℤ → Verdict → Session
  unfolding backoff_duration
  after_attempt left attempt cumulative (stop e) = ended e
  after_attempt zero attempt cumulative (retry last asked) = exhausted last
  after_attempt (suc left) attempt cumulative (retry last none) =
      let wait = backoff_duration base (attempt - 1) in
      pause sleeps cumulative wait last attempt (
        attempted (
          after_attempt left (suc attempt) (wrap64 (cumulative +ℤ wait))
            (do_attempt (server attempt))))
  after_attempt (suc left) attempt cumulative (retry last (some wait)) =
      if ltb_ℤ (pos 0) wait
      then pause sleeps cumulative wait last attempt (
          attempted (
            after_attempt left (suc attempt) (wrap64 (cumulative +ℤ wait))
              (do_attempt (server attempt))))
      else attempted (after_attempt left (suc attempt) cumulative (do_attempt (server attempt)))

abbrev pub is_unset : BackoffConfig → Bool
is_unset b = not (ltb_ℤ b.base (pos 0) || ltb_ℤ (pos 0) b.base) && b.retry_count == 0

unfoldable pub post_with_retry : (ℕ → Reply) → (ℕ → Bool) → BackoffConfig → Session
unfolding do_attempt after_attempt
post_with_retry server sleeps config =
    let b = if is_unset config then default_backoff_config else config in
    attempted (after_attempt server sleeps b.base b.retry_count 1 (pos 0) (do_attempt (server 0)))
