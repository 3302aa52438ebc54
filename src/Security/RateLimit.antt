-- ===== src/Security/RateLimit.antt =====
-- The login limiter: backend/app/platform/security/rate_limit.py. `threading.Lock` makes each call
-- one step. A clock reading is a number of ticks; rounding in floating point is left out.
use smart_ao_v.Base.{
  ℕ, ◌+◌, ◌-◌, ◌*◌, ◌/◌, ◌^◌, min, max, String, Bool, true, false, not, ◌&&◌, Option, none, some,
  List, [], ◌∷◌, str_eq, ltb, leb, ◌==◌, length, filter, strip, is_empty, is_some, if◌then◌else◌,
}
use smart_ao_v.Base.Result.{Result, ok, err}
use Prim.Native.String

pub record RateLimitDecision : Type 0 where
  pub allowed : Bool
  pub retry_after_seconds : ℕ

pub record FailureState : Type 0 where
  pub first_failure_at : ℕ
  pub last_failure_at : ℕ
  pub failures : ℕ
  pub locked_until : ℕ

-- A `dict` in insertion order, from bucket keys to states.
abbrev pub States : Type 0
States = List (String × FailureState)

abbrev pub lookup : String → States → Option FailureState
lookup k [] = none
lookup k ((j, s) ∷ d) = if str_eq j k then some s else lookup k d

-- `states[k] = s`
abbrev pub insert : String → FailureState → States → States
insert k s [] = (k, s) ∷ []
insert k s ((j, t) ∷ d) = if str_eq j k then (j, s) ∷ d else (j, t) ∷ insert k s d

-- `states.pop(k, None)`
abbrev pub erase : String → States → States
erase k [] = []
erase k ((j, t) ∷ d) = if str_eq j k then d else (j, t) ∷ erase k d

-- The settings that `__init__` accepts, and the ticks of the clock in a second.
pub record Settings : Type 0 where
  pub max_failures : ℕ
  pub failure_window_seconds : ℕ
  pub base_lockout_seconds : ℕ
  pub max_lockout_seconds : ℕ
  pub max_buckets : ℕ
  pub ticks : ℕ

pub data SettingsError : Type 0 where
  not_positive base_above_maximum : SettingsError

-- `LoginRateLimiter.__init__`: the limiter begins with no state.
unfoldable pub init : Settings → Result SettingsError States
init c =
    if min c.max_failures (
        min c.failure_window_seconds
          (min c.base_lockout_seconds (min c.max_lockout_seconds c.max_buckets)))
      == 0
    then err not_positive
    else if ltb c.max_lockout_seconds c.base_lockout_seconds
    then err base_above_maximum
    else ok []

-- `_bucket_key`, over `str.casefold` and the hexadecimal SHA-256 of a text.
unfoldable pub bucket_key :
    (String → String) → (String → String) → String → Option String → String → String
bucket_key casefold sha256 namespace identity source_ip =
    let named : String = elim identity [
      | none ↦ "anonymous"
      | some s ↦ if is_empty s then "anonymous" else s
    ] in
    let address : String = if is_empty (strip source_ip) then "unknown" else strip source_ip in
    sha256 (
      String.◌++◌ namespace
        (String.◌++◌ ":" (String.◌++◌ (casefold (strip named)) (String.◌++◌ ":" address))))

module _ (c : Settings) where
  open c use {
    max_failures, failure_window_seconds, base_lockout_seconds, max_lockout_seconds, max_buckets,
    ticks,
  }

  -- `now - state.last_failure_at > self._failure_window_seconds`
  abbrev pub is_stale : ℕ → FailureState → Bool
  is_stale now s = ltb (failure_window_seconds * ticks) (now - s.last_failure_at)

  -- `check`, on a bucket key
  unfoldable pub check : ℕ → String → States → RateLimitDecision × States
  check now key d = elim (lookup key d) [
    | none ↦ (record { allowed = true; retry_after_seconds = 0 }, d)
    | some s ↦
        if ltb now s.locked_until
        then (
          record { allowed = false; retry_after_seconds = max 1 ((s.locked_until - now) / ticks) },
          d,
        )
        else (
          record { allowed = true; retry_after_seconds = 0 },
          if is_stale now s then erase key d else d,
        )
  ]

  -- `_evict_expired`
  unfoldable pub evict_expired : ℕ → States → States
  evict_expired now d = filter (λ e. not (is_stale now e.1)) d

  -- `min(states, key=…)`: the first of the keys with the oldest failure.
  abbrev pub oldest_of : String × FailureState → States → String × FailureState
  oldest_of best [] = best
  oldest_of best (e ∷ d) =
      oldest_of (if ltb e.1.last_failure_at best.1.last_failure_at then e else best) d

  unfoldable pub evict_oldest : States → States
  evict_oldest [] = []
  evict_oldest (e ∷ d) = erase (oldest_of e d).0 (e ∷ d)

  -- `min(max_lockout, base_lockout * 2 ** exponent)`
  abbrev pub lockout_seconds : ℕ → ℕ
  lockout_seconds exponent = min max_lockout_seconds (base_lockout_seconds * 2 ^ exponent)

  -- One more failure of a bucket.
  unfoldable pub bump : ℕ → FailureState → FailureState
  bump now s =
      let failures' = s.failures + 1 in
      record s {
        failures = failures';
        last_failure_at = now;
        locked_until =
            if leb max_failures failures'
            then now + lockout_seconds (failures' - max_failures) * ticks
            else s.locked_until;
      }

  -- The buckets in which a new one is made: expired ones are gone, and there is room for it.
  unfoldable pub make_room : ℕ → String → States → States
  unfolding evict_expired evict_oldest
  make_room now key d =
      let live = evict_expired now d in
      if not (is_some (lookup key live)) && leb max_buckets (length live)
      then evict_oldest live
      else live

  abbrev pub fresh : ℕ → FailureState
  fresh now = record {
    first_failure_at = now;
    last_failure_at = now;
    failures = 0;
    locked_until = 0;
  }

  -- `record_failure`, on a bucket key
  unfoldable pub record_failure : ℕ → String → States → States
  unfolding bump make_room
  record_failure now key d =
      let anew = insert key (bump now (fresh now)) (make_room now key d) in
      elim (lookup key d) [
        | none ↦ anew
        | some s ↦ if is_stale now s then anew else insert key (bump now s) d
      ]

-- `record_success`, on a bucket key
unfoldable pub record_success : String → States → States
record_success key d = erase key d
