-- ===== src/Security/Limits.antt =====
-- What the dictionary of the limiter of backend/app/platform/security/rate_limit.py keeps through
-- every call: its bound, its keys and what its entries say.
use smart_ao_v.Base.{
  ℕ, ◌+◌, ◌-◌, ◌*◌, ◌≤◌, ◌<◌, ◌≡◌, ◌↔◌, refl, ◌⊎◌, inl, inr, Bool, true, not, String, List, [], ◌∷◌,
  length, filter, arith, some, is_some, Option-cases,
}
use native.Mathlib.Nat.{mul-le-mul_right}
use smart_ao_v.Base.Result.{ok}
use smart_ao_v.Security.RateLimit.{
  FailureState, States, lookup, insert, erase, evict_oldest, evict_expired, is_stale, Settings,
  init, check, record_failure, record_success, make_room, bump, fresh, lockout_seconds, oldest_of,
}
use smart_ao_v.Security.Buckets.{
  HasDistinctKeys, insert-HasDistinctKeys, erase-HasDistinctKeys, filter-HasDistinctKeys,
  length-filter_le, length-erase_le, length-insert_le, length-insert_found, length-evict_oldest,
}

-- A call of the limiter, at a reading of the clock and on a bucket key.
pub data Call : Type 0 where
  checked failed : ℕ → String → Call
  succeeded : String → Call

module _ (c : Settings) where
  open c use {max_failures, max_lockout_seconds, max_buckets, ticks}

  abbrev pub call : Call → States → States
  call (checked now key) d = (check c now key d).1
  call (failed now key) d = record_failure c now key d
  call (succeeded key) d = record_success key d

  abbrev pub run : List Call → States → States
  run [] d = d
  run (m ∷ calls) d = run calls (call m d)

  -- A lock is at most the longest lockout away from the last failure, and needs enough failures.
  pub record IsSoundEntry (s : FailureState) : Type 0 where
    pub limited : s.locked_until ≤ s.last_failure_at + max_lockout_seconds * ticks
    pub earned : s.failures < max_failures → s.locked_until ≡ 0

  abbrev pub AllSound : States → Type 0
  AllSound [] = Unit
  AllSound (e ∷ d) = IsSoundEntry e.1 × AllSound d

  pub record IsWithin (d : States) : Type 0 where
    pub bounded : length d ≤ max_buckets
    pub distinct : HasDistinctKeys d
    pub sound : AllSound d

  erase-AllSound : (k : String) (d : States) → AllSound d → AllSound (erase k d)
  erase-AllSound k [] h = tt
  erase-AllSound k (e ∷ d) h = ground (arith, erase-AllSound k d)

  insert-AllSound :
      (k : String) (s : FailureState) (d : States)
      → IsSoundEntry s
      → AllSound d
      → AllSound (insert k s d)
  insert-AllSound k s [] e h = (e, tt)
  insert-AllSound k s (f ∷ d) e h = ground (arith, insert-AllSound k s d e)

  filter-AllSound :
      (p : String × FailureState → Bool) (d : States) → AllSound d → AllSound (filter p d)
  filter-AllSound p [] h = tt
  filter-AllSound p (e ∷ d) h = ground (arith, filter-AllSound p d)

  pub lookup-IsSoundEntry :
      (k : String) (s : FailureState) (d : States)
      → AllSound d
      → lookup k d ≡ some s
      → IsSoundEntry s
  lookup-IsSoundEntry k s [] h e = ground arith
  lookup-IsSoundEntry k s ((j, t) ∷ d) h e = ground (arith, lookup-IsSoundEntry k s d)

  erase-IsWithin : (k : String) (d : States) → IsWithin d → IsWithin (erase k d)
  erase-IsWithin k d w = record {
    bounded = omega (arith, w.bounded, length-erase_le k d);
    distinct = erase-HasDistinctKeys k d w.distinct;
    sound = erase-AllSound k d w.sound;
  }

  lockout_le : (n : ℕ) → lockout_seconds c n ≤ max_lockout_seconds
  lockout_le n = ground arith

  bump-IsSoundEntry : (now : ℕ) (s : FailureState) → IsSoundEntry s → IsSoundEntry (bump c now s)
  unfolding bump
  bump-IsSoundEntry now s h = record {
    limited =
        ground
          (arith, h.earned, mul-le-mul_right ticks (lockout_le (s.failures + 1 - max_failures)));
    earned = λ few. ground (arith, h.earned);
  }

  evicted_oldest-IsWithin : (d : States) → IsWithin d → IsWithin (evict_oldest c d)
  unfolding evict_oldest
  evicted_oldest-IsWithin [] w = w
  evicted_oldest-IsWithin (e ∷ d) w = erase-IsWithin (oldest_of c e d).0 (e ∷ d) w

  evict_expired-IsWithin : (now : ℕ) (d : States) → IsWithin d → IsWithin (evict_expired c now d)
  unfolding evict_expired
  evict_expired-IsWithin now d w = record {
    bounded = omega (arith, w.bounded, length-filter_le (λ e. not (is_stale c now e.1)) d);
    distinct = filter-HasDistinctKeys (λ e. not (is_stale c now e.1)) d w.distinct;
    sound = filter-AllSound (λ e. not (is_stale c now e.1)) d w.sound;
  }

  -- There is room for the key: it is there, or one more entry is within the bound.
  abbrev HasRoom : String → States → Type 0
  HasRoom key d = (is_some (lookup key d) ≡ true) ⊎ (length d < max_buckets)

  make_room-IsWithin :
      (now : ℕ) (key : String) (d : States)
      → 0 < max_buckets
      → IsWithin d
      → IsWithin (make_room c now key d) × HasRoom key (make_room c now key d)
  unfolding make_room
  make_room-IsWithin now key d p w =
      let live = evict_expired c now d in
      let l = evict_expired-IsWithin now d w in
      ground (arith, l, l.bounded, length-evict_oldest c live, evicted_oldest-IsWithin live l)

  insert-IsWithin :
      (key : String) (s : FailureState) (d : States)
      → IsSoundEntry s
      → IsWithin d
      → HasRoom key d
      → IsWithin (insert key s d)
  insert-IsWithin key s d e w r = record {
    bounded = elim r [
      | inl found ↦ omega (arith, w.bounded, length-insert_found key s d found)
      | inr room ↦ omega (arith, room, length-insert_le key s d)
    ];
    distinct = insert-HasDistinctKeys key s d w.distinct;
    sound = insert-AllSound key s d e w.sound;
  }

  fresh-IsSoundEntry : (now : ℕ) → IsSoundEntry (fresh c now)
  fresh-IsSoundEntry now = record { limited = omega arith; earned = λ h. refl }

  anew-IsWithin :
      (now : ℕ) (key : String) (d : States)
      → 0 < max_buckets
      → IsWithin d
      → IsWithin (insert key (bump c now (fresh c now)) (make_room c now key d))
  anew-IsWithin now key d p w =
      let (within, room) = make_room-IsWithin now key d p w in
      insert-IsWithin key (bump c now (fresh c now)) (make_room c now key d)
        (bump-IsSoundEntry now (fresh c now) (fresh-IsSoundEntry now)) within room

  record_failure-IsWithin :
      (now : ℕ) (key : String) (d : States)
      → 0 < max_buckets
      → IsWithin d
      → IsWithin (record_failure c now key d)
  unfolding record_failure
  record_failure-IsWithin now key d p w = elim (Option-cases (lookup key d)) [
    | inl e ↦ ground (arith, anew-IsWithin now key d p w)
    | inr (s, e) ↦
        let kept : IsWithin (insert key (bump c now s) d) =
          insert-IsWithin key (bump c now s) d
            (bump-IsSoundEntry now s (lookup-IsSoundEntry key s d w.sound e)) w
            (inl (ground arith)) in
        ground (arith, anew-IsWithin now key d p w)
  ]

  check-IsWithin :
      (now : ℕ) (key : String) (d : States) → IsWithin d → IsWithin (check c now key d).1
  unfolding check
  check-IsWithin now key d w = ground (arith, erase-IsWithin key d w)

  pub call-IsWithin : (m : Call) (d : States) → 0 < max_buckets → IsWithin d → IsWithin (call m d)
  unfolding record_success
  call-IsWithin (checked now key) d p w = check-IsWithin now key d w
  call-IsWithin (failed now key) d p w = record_failure-IsWithin now key d p w
  call-IsWithin (succeeded key) d p w = erase-IsWithin key d w

  run-of_IsWithin :
      (calls : List Call) (d : States) → 0 < max_buckets → IsWithin d → IsWithin (run calls d)
  run-of_IsWithin [] d p w = w
  run-of_IsWithin (m ∷ calls) d p w = run-of_IsWithin calls (call m d) p (call-IsWithin m d p w)

  -- The settings are accepted exactly when all are positive and the base lockout is not above the
  -- longest, and the limiter then starts without state.
  pub init-accepted_iff : (init c ≡ ok []) ↔ (
      (0 < max_failures)
      × (0 < c.failure_window_seconds)
      × (0 < c.base_lockout_seconds)
      × (c.base_lockout_seconds ≤ max_lockout_seconds)
      × (0 < max_buckets))
  unfolding init
  init-accepted_iff = ground arith

  -- With accepted settings, from the start and through any calls at any times, the limiter keeps
  -- at most `max_buckets` buckets with different keys, no lock ends later than the longest lockout
  -- after the bucket's last failure, and a bucket with fewer failures than the limit is not
  -- locked.
  pub limiter_run-IsWithin : (calls : List Call) → init c ≡ ok [] → IsWithin (run calls [])
  limiter_run-IsWithin calls h =
      run-of_IsWithin calls [] (init-accepted_iff.0 h).4
        (record { bounded = omega arith; distinct = tt; sound = tt })
