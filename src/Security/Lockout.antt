-- ===== src/Security/Lockout.antt =====
-- Whom the limiter of backend/app/platform/security/rate_limit.py refuses.
use smart_ao_v.Base.{
  ℕ, ◌+◌, ◌*◌, ◌≤◌, ◌<◌, ◌≡◌, inl, inr, false, String, List, [], ◌∷◌, arith, some, Bool-cases,
  eq_iff, Option-cases, str_eq, if◌then◌else◌,
}
use smart_ao_v.Base.Result.{ok}
use smart_ao_v.Security.RateLimit.{
  FailureState, States, lookup, erase, Settings, init, check, record_failure, record_success, bump,
}
use smart_ao_v.Security.Buckets.{HasDistinctKeys}
use smart_ao_v.Security.Limits.{
  Call, checked, failed, succeeded, call, run, IsWithin, lookup-IsSoundEntry, limiter_run-IsWithin,
  init-accepted_iff, call-IsWithin,
}
use smart_ao_v.Security.Isolation.{
  KeepsOrDrops, erase-KeepsOrDrops, check-KeepsOrDrops, record_failure-KeepsOrDrops,
  lookup-record_failure,
}

-- The failures of a key among the calls.
abbrev pub failures_of : String → List Call → ℕ
failures_of key [] = 0
failures_of key (failed now k ∷ calls) =
    if str_eq k key then failures_of key calls + 1 else failures_of key calls
failures_of key (checked now k ∷ calls) = failures_of key calls
failures_of key (succeeded k ∷ calls) = failures_of key calls

failures_of_cons :
    (key : String) (m : Call) (calls : List Call)
    → failures_of key (m ∷ calls) ≡ failures_of key calls + failures_of key (m ∷ [])
failures_of_cons key (checked now k) calls = omega arith
failures_of_cons key (failed now k) calls = ground arith
failures_of_cons key (succeeded k) calls = omega arith

module _ (c : Settings) where
  open c use {max_failures, max_lockout_seconds, ticks}

  -- At most `n` failures are counted for a key.
  abbrev Counts : String → ℕ → States → Type 0
  Counts key n d = (s : FailureState) → lookup key d ≡ some s → s.failures ≤ n

  kept-Counts :
      (j : String) (n : ℕ) (d e : States) → KeepsOrDrops c j d e → Counts j n d → Counts j n e
  kept-Counts j n d e h k s q = ground (arith, k s)

  failed-Counts :
      (now : ℕ) (key : String) (n : ℕ) (d : States)
      → Counts key n d
      → Counts key (n + 1) (record_failure c now key d)
  unfolding bump
  failed-Counts now key n d h s q =
      let after = lookup-record_failure c now key d in
      elim (Option-cases (lookup key d)) [
        | inl e ↦ ground (arith, after)
        | inr (t, e) ↦ ground (arith, after, h t e)
      ]

  call-Counts :
      (m : Call) (key : String) (n : ℕ) (d : States)
      → HasDistinctKeys d
      → Counts key n d
      → Counts key (failures_of key (m ∷ []) + n) (call c m d)
  unfolding record_success
  call-Counts (checked now k) key n d w h s q =
      omega
        (arith, kept-Counts key n d (check c now k d).1 (check-KeepsOrDrops c now k key d w) h s q)
  call-Counts (succeeded k) key n d w h s q =
      omega (arith, kept-Counts key n d (erase k d) (erase-KeepsOrDrops c k key d w) h s q)
  call-Counts (failed now k) key n d w h s q = elim (Bool-cases (str_eq k key)) [
    | inl e ↦
        let same : k ≡ key = (eq_iff k key).0 e in
        ground (arith, failed-Counts now key n d h s (rw same at q))
    | inr e ↦
        let other : KeepsOrDrops c key d (record_failure c now k d) =
          record_failure-KeepsOrDrops c now k key d (λ p. ground (arith, eq_iff k key)) w in
        ground (arith, kept-Counts key n d (record_failure c now k d) other h s q)
  ]

  run-Counts :
      (calls : List Call) (key : String) (n : ℕ) (d : States)
      → 0 < c.max_buckets
      → IsWithin c d
      → Counts key n d
      → Counts key (failures_of key calls + n) (run c calls d)
  run-Counts [] key n d p w h s q = omega (arith, h s q)
  run-Counts (m ∷ calls) key n d p w h s q =
      let step = call-Counts m key n d w.distinct h in
      let rest =
        run-Counts calls key (failures_of key (m ∷ []) + n) (call c m d) p (call-IsWithin c m d p w)
          step s q in
      omega (arith, rest, failures_of_cons key m calls)

  -- With accepted settings and after any calls from the start, a key whose check is refused has a
  -- bucket with at least `max_failures` failures, no more than were reported for it, its last
  -- failure is less than the longest lockout ago, and the advised wait is at least a second.
  pub refused-HasFailed :
      (calls : List Call) (now : ℕ) (key : String)
      → init c ≡ ok []
      → (check c now key (run c calls [])).0.allowed ≡ false
      → (s : FailureState) × (lookup key (run c calls []) ≡ some s)
        × (max_failures ≤ s.failures)
        × (s.failures ≤ failures_of key calls)
        × (now < s.last_failure_at + max_lockout_seconds * ticks)
        × (1 ≤ (check c now key (run c calls [])).0.retry_after_seconds)
  unfolding check
  refused-HasFailed calls now key h r =
      let d = run c calls [] in
      let w = limiter_run-IsWithin c calls h in
      elim (Option-cases (lookup key d)) [
        | inl e ↦ ground (arith, e)
        | inr (s, e) ↦
            let sound = lookup-IsSoundEntry c key s d w.sound e in
            let counted =
              run-Counts calls key 0 [] ((init-accepted_iff c).0 h).4
                (record { bounded = omega arith; distinct = tt; sound = tt }) (λ t q. ground arith)
                s e in
            (
              s,
              e,
              ground (arith, sound.earned),
              omega (arith, counted),
              ground (arith, sound.limited),
              ground arith,
            )
      ]
