-- ===== src/Base/Rows.antt =====
-- What a query of a table finds after an assignment to the row that another query finds.
use mathlib.Core.Path.{◌≡◌}
use mathlib.Core.Logic.{inl, inr}
use mathlib.Core.Bool.{Bool, true, false}
use mathlib.Core.Option.{none, some}
use mathlib.Core.List.{List, [], ◌∷◌, ◌++◌}
use native.Mathlib.Omega.{arith}
use smart_ao_v.Base.Tests.{Bool-cases}
use smart_ao_v.Base.Lists.{find, update_first}

module _ {ℓ} {A : Type ℓ} where
  pub find-holds : (p : A → Bool) (rows : List A) (r : A) → find p rows ≡ some r → p r ≡ true
  find-holds p [] r h = ground arith
  find-holds p (x ∷ rows) r h = elim (Bool-cases (p x)) [
    | inl e ↦ ground (arith, e)
    | inr e ↦ find-holds p rows r (rw e at h)
  ]

  -- The row that both queries find is found with what is assigned to it.
  pub find-update_first :
      (p q : A → Bool) (g : A → A) (rows : List A) (r : A)
      → find p rows ≡ some r
      → find q rows ≡ some r
      → p (g r) ≡ true
      → find p (update_first q g rows) ≡ some (g r)
  find-update_first p q g [] r h k m = ground arith
  find-update_first p q g (x ∷ rows) r h k m = elim (Bool-cases (p x)) [
    | inl e ↦ ground (arith, e, m, find-holds q rows r)
    | inr e ↦ ground (arith, e, find-update_first p q g rows r, find-holds p (x ∷ rows) r h)
  ]

  -- A row is found as before when another one is assigned to, and stays another one.
  pub find-update_other :
      (p q : A → Bool) (g : A → A) (rows : List A) (r s : A)
      → find p rows ≡ some r
      → find q rows ≡ some s
      → p s ≡ false
      → p (g s) ≡ false
      → find p (update_first q g rows) ≡ some r
  find-update_other p q g [] r s h k m n = ground arith
  find-update_other p q g (x ∷ rows) r s h k m n = elim (Bool-cases (q x)) [
    | inl e ↦ ground (arith, e, h, k, m, n)
    | inr e ↦ ground (arith, e, h, k, find-update_other p q g rows r s)
  ]

  pub find-append :
      (p : A → Bool) (rows more : List A) (r : A)
      → find p rows ≡ some r
      → find p (rows ++ more) ≡ some r
  find-append p [] more r h = ground arith
  find-append p (x ∷ rows) more r h = ground (arith, h, find-append p rows more r)

  -- A row that is added is found when no row was found before.
  pub find-append_new :
      (p : A → Bool) (rows : List A) (x : A)
      → find p rows ≡ none
      → p x ≡ true
      → find p (rows ++ x ∷ []) ≡ some x
  find-append_new p [] x h k = ground (arith, k)
  find-append_new p (y ∷ rows) x h k = ground (arith, h, k, find-append_new p rows x)
