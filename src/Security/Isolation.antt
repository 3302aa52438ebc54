-- ===== src/Security/Isolation.antt =====
-- What a call of the limiter of backend/app/platform/security/rate_limit.py does to the buckets of
-- other keys.
use smart_ao_v.Base.{
  ℕ, ◌≡◌, ◌≢◌, refl, ◌⊎◌, inl, inr, Bool, true, not, String, [], ◌∷◌, filter, arith, Option, none,
  some, eq_iff, Option-cases, if◌then◌else◌,
}
use smart_ao_v.Security.RateLimit.{
  FailureState, States, lookup, erase, evict_oldest, evict_expired, is_stale, Settings, check,
  record_failure, record_success, make_room, bump, fresh, oldest_of,
}
use smart_ao_v.Security.Buckets.{
  HasDistinctKeys, lookup-insert_self, lookup-insert_ne, lookup-erase_ne, lookup-erase_self,
  filter-HasDistinctKeys,
}
use smart_ao_v.Security.Limits.{Call, checked, failed, succeeded, call, IsWithin}

abbrev pub key_of : Call → String
key_of (checked now key) = key
key_of (failed now key) = key
key_of (succeeded key) = key

module _ (c : Settings) where
  -- A bucket is as it was, or it is gone.
  abbrev pub KeepsOrDrops : String → States → States → Type 0
  KeepsOrDrops j d e = (lookup j e ≡ lookup j d) ⊎ (lookup j e ≡ none)

  pub erase-KeepsOrDrops :
      (k j : String) (d : States) → HasDistinctKeys d → KeepsOrDrops j d (erase k d)
  erase-KeepsOrDrops k j d h =
      ground (arith, eq_iff j k, lookup-erase_ne k j d, lookup-erase_self k d h)

  filter-KeepsOrDrops :
      (p : String × FailureState → Bool) (j : String) (d : States)
      → HasDistinctKeys d
      → KeepsOrDrops j d (filter p d)
  filter-KeepsOrDrops p j [] h = inl refl
  filter-KeepsOrDrops p j ((i, t) ∷ d) h = ground (arith, eq_iff i j, filter-KeepsOrDrops p j d h.1)

  evict_oldest-KeepsOrDrops :
      (j : String) (d : States) → HasDistinctKeys d → KeepsOrDrops j d (evict_oldest c d)
  unfolding evict_oldest
  evict_oldest-KeepsOrDrops j [] h = inl refl
  evict_oldest-KeepsOrDrops j (e ∷ d) h = erase-KeepsOrDrops (oldest_of c e d).0 j (e ∷ d) h

  make_room-KeepsOrDrops :
      (now : ℕ) (key j : String) (d : States)
      → HasDistinctKeys d
      → KeepsOrDrops j d (make_room c now key d)
  unfolding make_room evict_expired
  make_room-KeepsOrDrops now key j d h =
      let fits = λ (e : String × FailureState). not (is_stale c now e.1) in
      ground (
        arith,
        filter-KeepsOrDrops fits j d h,
        evict_oldest-KeepsOrDrops j (filter fits d) (filter-HasDistinctKeys fits d h),
      )

  pub record_failure-KeepsOrDrops :
      (now : ℕ) (key j : String) (d : States)
      → j ≢ key
      → HasDistinctKeys d
      → KeepsOrDrops j d (record_failure c now key d)
  unfolding record_failure
  record_failure-KeepsOrDrops now key j d n h =
      let room = make_room-KeepsOrDrops now key j d h in
      let anew = lookup-insert_ne key j (bump c now (fresh c now)) (make_room c now key d) n in
      elim (Option-cases (lookup key d)) [
        | inl e ↦ ground (arith, room, anew)
        | inr (s, e) ↦ ground (arith, room, anew, lookup-insert_ne key j (bump c now s) d n)
      ]

  pub check-KeepsOrDrops :
      (now : ℕ) (key j : String) (d : States)
      → HasDistinctKeys d
      → KeepsOrDrops j d (check c now key d).1
  unfolding check
  check-KeepsOrDrops now key j d h = ground (arith, erase-KeepsOrDrops key j d h)

  call-KeepsOrDrops :
      (m : Call) (j : String) (d : States)
      → HasDistinctKeys d
      → j ≢ key_of m
      → KeepsOrDrops j d (call c m d)
  unfolding record_success
  call-KeepsOrDrops (checked now key) j d h n = check-KeepsOrDrops now key j d h
  call-KeepsOrDrops (failed now key) j d h n = record_failure-KeepsOrDrops now key j d n h
  call-KeepsOrDrops (succeeded key) j d h n = erase-KeepsOrDrops key j d h

  -- While the limiter is within its bounds, a call leaves the bucket of another key as it was or
  -- forgets it, so it never locks another key; and after a success of a key, a check of it is
  -- allowed at any time.
  pub call-isolated :
      (m : Call) (j : String) (d : States)
      → IsWithin c d
      → (j ≢ key_of m → KeepsOrDrops j d (call c m d))
        × ((now : ℕ) → (check c now j (call c (succeeded j) d)).0.allowed ≡ true)
  unfolding check record_success
  call-isolated m j d w = (
    λ n. call-KeepsOrDrops m j d w.distinct n,
    λ now. ground (arith, lookup-erase_self j d w.distinct),
  )

  -- What a failure leaves in its bucket: one more than what was counted, or the first again.
  abbrev pub next_of : ℕ → Option FailureState → FailureState
  next_of now none = bump c now (fresh c now)
  next_of now (some s) = if is_stale c now s then bump c now (fresh c now) else bump c now s

  pub lookup-record_failure :
      (now : ℕ) (key : String) (d : States)
      → lookup key (record_failure c now key d) ≡ some (next_of now (lookup key d))
  unfolding record_failure
  lookup-record_failure now key d =
      let anew = lookup-insert_self key (bump c now (fresh c now)) (make_room c now key d) in
      elim (Option-cases (lookup key d)) [
        | inl e ↦ ground (arith, anew)
        | inr (s, e) ↦ ground (arith, anew, lookup-insert_self key (bump c now s) d)
      ]
