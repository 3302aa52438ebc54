-- ===== src/Events/RetryPolicy.antt =====
-- The shared retry policy: backend/app/platform/events/retry_policy.py. A `datetime` is a number of
-- microseconds.
use smart_ao_v.Base.{ℕ, ◌+◌, ◌-◌, ◌*◌, ◌^◌, min, not, ◌&&◌, Option, none, some, leb, if◌then◌else◌}
use smart_ao_v.Base.Result.{Result, ok, err}

abbrev pub max_outbox_attempts_limit : ℕ
max_outbox_attempts_limit = 100

-- The statuses of a message of the outbox.
pub data OutboxStatus : Type 0 where
  pending retry failed published : OutboxStatus

pub record RetryDecision : Type 0 where
  pub attempt_count : ℕ
  pub status : OutboxStatus
  pub next_attempt_at : Option ℕ

pub data RetryError : Type 0 where
  max_attempts_out_of_range : RetryError

-- `min(30 * (2 ** max(next_attempt_count - 1, 0)), 3600)`, where no count is below 0
unfoldable pub delay_seconds : ℕ → ℕ
delay_seconds n = min (30 * 2 ^ (n - 1)) 3600

-- `timedelta(seconds=…)`
abbrev pub seconds : ℕ → ℕ
seconds n = n * 1000000

unfoldable pub decide_retry : ℕ → ℕ → ℕ → Result RetryError RetryDecision
unfolding delay_seconds
decide_retry attempts now limit =
    if not (leb 1 limit && leb limit max_outbox_attempts_limit)
    then err max_attempts_out_of_range
    else if leb limit (attempts + 1)
    then ok (record { attempt_count = attempts + 1; status = failed; next_attempt_at = none })
    else ok (record {
      attempt_count = attempts + 1;
      status = retry;
      next_attempt_at = some (now + seconds (delay_seconds (attempts + 1)));
    })
