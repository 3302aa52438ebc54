-- ===== src/Events/Outbox.antt =====
-- What the retention worker does to a message of the outbox:
-- backend/app/workers/dce_retention.py.
use smart_ao_v.Base.{
  ℕ, ◌+◌, String, Bool, true, false, ◌&&◌, Option, none, some, leb, if◌then◌else◌,
}
use smart_ao_v.Base.Result.{Result, ok, err}
use smart_ao_v.Events.RetryPolicy.{
  OutboxStatus, pending, retry, failed, published, RetryError, decide_retry, seconds,
}

-- The columns of `OutboxMessageRecord` that change.
pub record OutboxMessageRecord : Type 0 where
  pub status : OutboxStatus
  pub attempt_count : ℕ
  pub next_attempt_at : Option ℕ
  pub last_error_code : Option String
  pub published_at : Option ℕ

pub record RetentionRunResult : Type 0 where
  pub expired : ℕ
  pub published : ℕ
  pub skipped : ℕ
  pub retried : ℕ
  pub failed : ℕ

abbrev pub is_waiting : OutboxStatus → Bool
is_waiting pending = true
is_waiting retry = true
is_waiting _ = false

abbrev pub is_published : OutboxStatus → Bool
is_published published = true
is_published _ = false

-- The conditions of the query of `_claim_due_messages` on a message of the topic.
unfoldable pub is_due : ℕ → OutboxMessageRecord → Bool
is_due now m = is_waiting m.status && elim m.next_attempt_at [ none ↦ true | some at ↦ leb at now ]

-- `_claim_due_messages`, on a message that is due
unfoldable pub claim : ℕ → ℕ → OutboxMessageRecord → OutboxMessageRecord
claim lease now m = record m { status = retry; next_attempt_at = some (now + seconds lease) }

abbrev pub skipped_one : RetentionRunResult
skipped_one = record { expired = 0; published = 0; skipped = 1; retried = 0; failed = 0 }

unfoldable pub publish_message :
    ℕ → Bool → OutboxMessageRecord → RetentionRunResult × OutboxMessageRecord
publish_message now skipping m = if is_published m.status then (skipped_one, m) else (
  if skipping
      then skipped_one
      else record { expired = 0; published = 1; skipped = 0; retried = 0; failed = 0 },
  record m {
    status = published;
    published_at = some now;
    next_attempt_at = none;
    last_error_code = none;
  },
)

abbrev pub counted : OutboxStatus → RetentionRunResult
counted retry = record { expired = 0; published = 0; skipped = 0; retried = 1; failed = 0 }
counted failed = record { expired = 0; published = 0; skipped = 0; retried = 0; failed = 1 }
counted _ = record { expired = 0; published = 0; skipped = 0; retried = 0; failed = 0 }

unfoldable pub retry_message :
    ℕ
    → ℕ
    → String
    → OutboxMessageRecord
    → Result RetryError RetentionRunResult × OutboxMessageRecord
retry_message limit now error m =
    if is_published m.status
    then (ok skipped_one, m)
    else elim (decide_retry m.attempt_count now limit) [
      | err e ↦ (err e, m)
      | ok d ↦ (
        ok (counted d.status),
        record m {
          status = d.status;
          attempt_count = d.attempt_count;
          next_attempt_at = d.next_attempt_at;
          last_error_code = some error;
        },
      )
    ]

-- What `_process_message` came to: the object is deleted or gone, it may not be deleted, or the
-- payload is invalid or the deletion raised, with the code of the error.
pub data Attempt : Type 0 where
  deleted not_deletable : Attempt
  delete_failed : String → Attempt

-- What `_process_message` then writes, whatever the message has become since it was claimed.
abbrev process_message : ℕ → ℕ → Attempt → OutboxMessageRecord → OutboxMessageRecord
process_message limit now deleted m = (publish_message now false m).1
process_message limit now not_deletable m = (publish_message now true m).1
process_message limit now (delete_failed error) m = (retry_message limit now error m).1

-- One sweep of `run_once` at one message: it is claimed if it is due, and then processed. The two are
-- separate transactions; no other worker comes in between, as long as the lease is not over.
unfoldable pub sweep : ℕ → ℕ → ℕ → Attempt → OutboxMessageRecord → OutboxMessageRecord
unfolding is_due claim publish_message retry_message
sweep limit lease now outcome m =
    if is_due now m then process_message limit now outcome (claim lease now m) else m
