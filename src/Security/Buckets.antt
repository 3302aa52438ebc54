-- ===== src/Security/Buckets.antt =====
-- The dictionary of the limiter of backend/app/platform/security/rate_limit.py: its updates, its size
-- and its distinct keys.
use smart_ao_v.Base.{
  ◌+◌, ◌≤◌, ◌<◌, ◌≡◌, ◌≢◌, refl, Bool, true, String, [], ◌∷◌, length, filter, arith, none, some,
  is_some, eq_iff,
}
use smart_ao_v.Security.RateLimit.{
  FailureState, States, lookup, insert, erase, oldest_of, evict_oldest, Settings,
}

-- No key stands twice.
abbrev pub HasDistinctKeys : States → Type 0
HasDistinctKeys [] = Unit
HasDistinctKeys ((k, s) ∷ d) = (lookup k d ≡ none) × HasDistinctKeys d

pub lookup-insert_self :
    (k : String) (s : FailureState) (d : States) → lookup k (insert k s d) ≡ some s
lookup-insert_self k s [] = ground (arith, eq_iff k k)
lookup-insert_self k s ((j, t) ∷ d) = ground (arith, lookup-insert_self k s d)

pub lookup-insert_ne :
    (k j : String) (s : FailureState) (d : States) → j ≢ k → lookup j (insert k s d) ≡ lookup j d
lookup-insert_ne k j s [] n = ground (arith, eq_iff k j)
lookup-insert_ne k j s ((i, t) ∷ d) n =
    ground (arith, eq_iff i k, eq_iff i j, lookup-insert_ne k j s d n)

pub lookup-erase_ne : (k j : String) (d : States) → j ≢ k → lookup j (erase k d) ≡ lookup j d
lookup-erase_ne k j [] n = refl
lookup-erase_ne k j ((i, t) ∷ d) n = ground (arith, eq_iff i k, eq_iff i j, lookup-erase_ne k j d n)

pub lookup-erase_self : (k : String) (d : States) → HasDistinctKeys d → lookup k (erase k d) ≡ none
lookup-erase_self k [] h = refl
lookup-erase_self k ((i, t) ∷ d) h = ground (arith, eq_iff i k, lookup-erase_self k d h.1)

pub insert-HasDistinctKeys :
    (k : String) (s : FailureState) (d : States)
    → HasDistinctKeys d
    → HasDistinctKeys (insert k s d)
insert-HasDistinctKeys k s [] h = (refl, tt)
insert-HasDistinctKeys k s ((i, t) ∷ d) h =
    ground (arith, eq_iff i k, insert-HasDistinctKeys k s d h.1, lookup-insert_ne k i s d)

erase-none : (k j : String) (d : States) → lookup j d ≡ none → lookup j (erase k d) ≡ none
erase-none k j [] n = refl
erase-none k j ((i, t) ∷ d) n = ground (arith, erase-none k j d)

pub erase-HasDistinctKeys :
    (k : String) (d : States) → HasDistinctKeys d → HasDistinctKeys (erase k d)
erase-HasDistinctKeys k [] h = tt
erase-HasDistinctKeys k ((i, t) ∷ d) h =
    ground (arith, erase-HasDistinctKeys k d h.1, erase-none k i d)

module _ (p : String × FailureState → Bool) where
  filter-none : (j : String) (d : States) → lookup j d ≡ none → lookup j (filter p d) ≡ none
  filter-none j [] n = refl
  filter-none j ((i, t) ∷ d) n = ground (arith, filter-none j d)

  pub filter-HasDistinctKeys : (d : States) → HasDistinctKeys d → HasDistinctKeys (filter p d)
  filter-HasDistinctKeys [] h = tt
  filter-HasDistinctKeys ((i, t) ∷ d) h =
      ground (arith, filter-HasDistinctKeys d h.1, filter-none i d)

  pub length-filter_le : (d : States) → length (filter p d) ≤ length d
  length-filter_le [] = omega arith
  length-filter_le ((i, t) ∷ d) = ground (arith, length-filter_le d)

pub length-erase_le : (k : String) (d : States) → length (erase k d) ≤ length d
length-erase_le k [] = omega arith
length-erase_le k ((i, t) ∷ d) = ground (arith, length-erase_le k d)

pub length-erase_found :
    (k : String) (d : States) → is_some (lookup k d) ≡ true → length (erase k d) + 1 ≡ length d
length-erase_found k [] h = cc
length-erase_found k ((i, t) ∷ d) h = ground (arith, length-erase_found k d)

pub length-insert_le :
    (k : String) (s : FailureState) (d : States) → length (insert k s d) ≤ length d + 1
length-insert_le k s [] = omega arith
length-insert_le k s ((i, t) ∷ d) = ground (arith, length-insert_le k s d)

pub length-insert_found :
    (k : String) (s : FailureState) (d : States)
    → is_some (lookup k d) ≡ true
    → length (insert k s d) ≡ length d
length-insert_found k s [] h = cc
length-insert_found k s ((i, t) ∷ d) h = ground (arith, length-insert_found k s d)

module _ (c : Settings) where
  -- The bucket with the oldest failure is one of the buckets.
  oldest-found :
      (best : String × FailureState) (d : States)
      → is_some (lookup (oldest_of c best d).0 (best ∷ d)) ≡ true
  oldest-found best [] = ground (arith, eq_iff best.0 best.0)
  oldest-found best (e ∷ d) = ground (arith, oldest-found best d, oldest-found e d)

  pub length-evict_oldest : (d : States) → 0 < length d → length (evict_oldest c d) + 1 ≡ length d
  unfolding evict_oldest
  length-evict_oldest [] h = absurd (omega arith)
  length-evict_oldest (e ∷ d) h = length-erase_found (oldest_of c e d).0 (e ∷ d) (oldest-found e d)
