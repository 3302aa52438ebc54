-- ===== src/Base/Keeps.antt =====
-- Methods that keep a property of the object, raises included.
use mathlib.Core.Path.{◌≡◌}
use mathlib.Core.Bool.{Bool, true, false}
use smart_ao_v.Base.Result.{Result, ok, err}
use smart_ao_v.Base.Method.{Method, ◌>>=◌, ◌>>◌, raise_if}

module _ {E S : Type 0} (I : S → Type 0) where
  abbrev pub Keeps : {A : Type 0} → Method E S A → Type 0
  Keeps m = (s : S) → I s → I (m s).1

  after-Keeps :
      {A B : Type 0} (f : A → Method E S B) (l : (a : A) → Keeps (f a)) (r : Result E A) (s : S)
      → I s
      → I (elim r as (λ _. Result E B × S) [ ok a ↦ f a s | err e ↦ (err e, s) ]).1
  after-Keeps f l (ok a) s i = l a s i
  after-Keeps f l (err e) s i = i

  pub bind-Keeps :
      {A B : Type 0} (m : Method E S A) (f : A → Method E S B)
      → Keeps m
      → ((a : A) → Keeps (f a))
      → Keeps (m >>= f)
  bind-Keeps m f k l s i = after-Keeps f l (m s).0 (m s).1 (k s i)

  pub then-Keeps :
      {A B : Type 0} (m : Method E S A) (n : Method E S B) → Keeps m → Keeps n → Keeps (m >> n)
  then-Keeps m n k l = bind-Keeps m (λ _. n) k (λ _. l)

  pub raise_if-Keeps : (c : Bool) (e : E) → Keeps (raise_if c e)
  raise_if-Keeps true e s i = i
  raise_if-Keeps false e s i = i

  after-at :
      {A B : Type 0} (n : Method E S B) (r : Result E A) (s t : S)
      → t ≡ s
      → I s
      → I (n s).1
      → I (elim r as (λ _. Result E B × S) [ ok a ↦ n t | err e ↦ (err e, t) ]).1
  after-at n (ok a) s t q i k = rw q k
  after-at n (err e) s t q i k = rw q i

  -- After a method that leaves the object alone, the rest needs to keep the property from there.
  pub then-at :
      {A B : Type 0} (m : Method E S A) (n : Method E S B) (s : S)
      → (m s).1 ≡ s
      → I s
      → I (n s).1
      → I ((m >> n) s).1
  then-at m n s q i k = after-at n (m s).0 s (m s).1 q i k

  pub raise_if-at :
      {B : Type 0} (c : Bool) (e : E) (n : Method E S B) (s : S)
      → I s
      → I (n s).1
      → I ((raise_if c e >> n) s).1
  raise_if-at true e n s i k = i
  raise_if-at false e n s i k = k
