-- ===== src/Base/Method.antt =====
-- Methods that mutate an object and may raise. The object comes back after a raise too, since
-- what was written before the raise stays written.
use mathlib.Core.Bool.{Bool, true, false}
use smart_ao_v.Base.Result.{Result, ok, err}

abbrev pub Method : Type 0 → Type 0 → Type 0 → Type 0
Method E S A = S → Result E A × S

module _ {E S : Type 0} where
  abbrev pub pure : {A : Type 0} → A → Method E S A
  pure a s = (ok a, s)

  infixl 5 ◌>>=◌ ◌>>◌
  abbrev pub ◌>>=◌ : {A B : Type 0} → Method E S A → (A → Method E S B) → Method E S B
  ◌>>=◌ m f s = let (r, s') = m s in elim r [ ok a ↦ f a s' | err e ↦ (err e, s') ]

  abbrev pub ◌>>◌ : {A B : Type 0} → Method E S A → Method E S B → Method E S B
  m >> k = m >>= λ _. k

  -- `if c: raise e`, for a test of the object
  abbrev pub raise_when : (S → Bool) → E → Method E S (Unit {0})
  raise_when c e s = elim (c s) [ true ↦ (err e, s) | false ↦ (ok tt, s) ]

  abbrev pub raise_if : Bool → E → Method E S (Unit {0})
  raise_if c e s = elim c [ true ↦ (err e, s) | false ↦ (ok tt, s) ]

  abbrev pub gets : {A : Type 0} → (S → A) → Method E S A
  gets f s = (ok (f s), s)

  abbrev pub modify : (S → S) → Method E S (Unit {0})
  modify f s = (ok tt, f s)

  -- A check that reads only its arguments.
  abbrev pub lift : {A : Type 0} → Result E A → Method E S A
  lift r s = (r, s)

  -- `with session_factory.begin()`: a raise in the block restores what was there before it.
  abbrev pub transaction : {A : Type 0} → Method E S A → Method E S A
  transaction m s = let (r, s') = m s in elim r [ ok a ↦ (ok a, s') | err e ↦ (err e, s) ]
