-- ===== src/Events/Backoff.antt =====
-- How often and when a message is tried again, under backend/app/platform/events/retry_policy.py and
-- backend/app/workers/dce_retention.py.
use smart_ao_v.Base.{ℕ, zero, suc, ◌+◌, ◌-◌, ◌*◌, ◌^◌, ◌≤◌, ◌<◌, ◌≡◌, some, List, [], ◌∷◌, arith}
use smart_ao_v.Base.Result.{ok}
use smart_ao_v.Events.RetryPolicy.{
  OutboxStatus, retry, failed, published, delay_seconds, seconds, decide_retry,
}
use smart_ao_v.Events.Outbox.{
  OutboxMessageRecord, Attempt, deleted, not_deletable, delete_failed, sweep,
}

power_pos : (e : ℕ) → 1 ≤ 2 ^ e
power_pos zero = omega arith
power_pos (suc e) = omega (arith, power_pos e)

delay_bounds : (n : ℕ) → (30 ≤ delay_seconds n) × (delay_seconds n ≤ 3600)
unfolding delay_seconds
delay_bounds n = let starts = power_pos (n - 1) in (ground arith, ground arith)

delay-step : (n : ℕ) → delay_seconds (suc n) ≤ delay_seconds (suc (suc n))
unfolding delay_seconds
delay-step n =
    let first : suc n - 1 ≡ n = omega arith in
    let second : suc (suc n) - 1 ≡ suc n = omega arith in
    let doubles : 2 ^ suc n ≡ 2 * 2 ^ n = omega arith in
    rw (first, second) (ground (arith, doubles))

plus_one : (n : ℕ) → n + 1 ≡ suc n
plus_one n = omega arith

plus_two : (n : ℕ) → n + 2 ≡ suc (suc n)
plus_two n = omega arith

-- With a limit of at most 100, a failed attempt before the last one is followed by another after a
-- delay between 30 seconds and an hour, which is not longer than the delay after one failure more.
pub backoff_is_bounded :
    (attempts now limit : ℕ)
    → limit ≤ 100
    → attempts + 1 < limit
    → (next : ℕ) × (decide_retry attempts now limit
        ≡ ok (record { attempt_count = attempts + 1; status = retry; next_attempt_at = some next }))
      × (now + seconds 30 ≤ next)
      × (next ≤ now + seconds 3600)
      × (next ≤ now + seconds (delay_seconds (attempts + 2)))
unfolding decide_retry
backoff_is_bounded attempts now limit b h =
    let here = delay_bounds (attempts + 1) in
    let grows : delay_seconds (attempts + 1) ≤ delay_seconds (attempts + 2) =
      rw (plus_one attempts, plus_two attempts) (delay-step attempts) in
    (
      now + seconds (delay_seconds (attempts + 1)),
      ground arith,
      omega (arith, here),
      omega (arith, here),
      omega (arith, grows),
    )

abbrev pub IsFailed : OutboxStatus → ℕ → ℕ → Type 0
IsFailed failed n limit = n ≡ limit
IsFailed published n limit = Unit
IsFailed _ n limit = n < limit

-- A message counts its failed attempts up to the limit, and it is FAILED when it reaches it.
pub record IsCounted (limit : ℕ) (m : OutboxMessageRecord) : Type 0 where
  pub bounded : m.attempt_count ≤ limit
  pub stopped : IsFailed m.status m.attempt_count limit

sweep-IsCounted :
    (limit lease now : ℕ) (a : Attempt) (m : OutboxMessageRecord)
    → 1 ≤ limit
    → limit ≤ 100
    → IsCounted limit m
    → IsCounted limit (sweep limit lease now a m)
unfolding sweep decide_retry
sweep-IsCounted limit lease now deleted m p b k = ground arith
sweep-IsCounted limit lease now not_deletable m p b k = ground arith
sweep-IsCounted limit lease now (delete_failed e) m p b k = ground arith

-- Sweeps at any times, with any outcomes of the deletion.
unfoldable pub sweep_all : ℕ → ℕ → List (ℕ × Attempt) → OutboxMessageRecord → OutboxMessageRecord
sweep_all limit lease [] m = m
sweep_all limit lease ((now, a) ∷ sweeps) m =
    sweep_all limit lease sweeps (sweep limit lease now a m)

-- With a limit from 1 to 100, no sequence of sweeps counts more failed attempts of a message than
-- the limit; if it held at first, a message that is FAILED has failed as often as the limit, and
-- one that waits has failed less often.
pub attempts_are_bounded :
    (limit lease : ℕ) (sweeps : List (ℕ × Attempt)) (m : OutboxMessageRecord)
    → 1 ≤ limit
    → limit ≤ 100
    → IsCounted limit m
    → IsCounted limit (sweep_all limit lease sweeps m)
unfolding sweep_all
attempts_are_bounded limit lease [] m p b k = k
attempts_are_bounded limit lease ((now, a) ∷ sweeps) m p b k =
    attempts_are_bounded limit lease sweeps (sweep limit lease now a m) p b
      (sweep-IsCounted limit lease now a m p b k)
