-- ===== src/Decision/Satisfaction.antt =====
-- The conditions of a conditional Go, from approval until all are satisfied:
-- `record_condition_satisfied` and `_derive_condition_status` of
-- backend/app/modules/decision/domain/decision.py.
use smart_ao_v.Base.{
  ℕ, ◌≡◌, ◌≢◌, ◌↔◌, ◌∙◌, refl, sym, ◌⊎◌, inl, true, false, String, List, [], ◌∷◌, ◌++◌, arith, some,
  is_blank, map, any, all, strip,
}
use mathlib.Core.List.{append_assoc}
use smart_ao_v.Base.Result.{ok}
use smart_ao_v.Decision.{
  Decision, DecisionCondition, finalized, conditional_go, open_condition, satisfied, failed, waived,
}
use smart_ao_v.Decision.Conditions.{satisfy_first, derive_condition_status, is_settled, is_failed}
use smart_ao_v.Decision.Review.{record_condition_satisfied}
use smart_ao_v.Decision.Step.{Command, satisfy, step, run}

abbrev pub AllSettled : List DecisionCondition → Type 0
AllSettled [] = Unit
AllSettled (c ∷ cs) = ((c.status ≡ satisfied) ⊎ (c.status ≡ waived)) × AllSettled cs

abbrev pub NoneFailed : List DecisionCondition → Type 0
NoneFailed [] = Unit
NoneFailed (c ∷ cs) = (c.status ≢ failed) × NoneFailed cs

settled_all_iff :
    (cs : List DecisionCondition) → (all (λ c. is_settled c.status) cs ≡ true) ↔ AllSettled cs
settled_all_iff [] = ground arith
settled_all_iff (c ∷ cs) = ground (arith, settled_all_iff cs)

failed_none_iff :
    (cs : List DecisionCondition) → (any (λ c. is_failed c.status) cs ≡ false) ↔ NoneFailed cs
failed_none_iff [] = ground arith
failed_none_iff (c ∷ cs) = ground (arith, failed_none_iff cs)

settled-NoneFailed : (cs : List DecisionCondition) → AllSettled cs → NoneFailed cs
settled-NoneFailed [] h = tt
settled-NoneFailed (c ∷ cs) h = ground (arith, settled-NoneFailed cs h.1)

-- The derived status is FAILED exactly when a condition failed, SATISFIED exactly when each one is
-- satisfied or waived, and OPEN otherwise.
pub derive_condition_status_lem :
    (cs : List DecisionCondition)
    → ((derive_condition_status cs ≡ failed) ↔ ¬ NoneFailed cs)
      × ((derive_condition_status cs ≡ satisfied) ↔ AllSettled cs)
      × ((derive_condition_status cs ≡ open_condition) ↔ (NoneFailed cs × ¬ AllSettled cs))
unfolding derive_condition_status
derive_condition_status_lem cs =
    ground (arith, failed_none_iff cs, settled_all_iff cs, settled-NoneFailed cs)

-- The condition as `mark_satisfied` leaves it.
abbrev pub satisfied_by : String → ℕ → DecisionCondition → DecisionCondition
satisfied_by evidence observed c = record c {
  status = satisfied;
  evidence_reference = some (strip evidence);
  observed_at = some observed;
}

-- No condition of the list has the identifier.
abbrev pub IsFresh : ℕ → List DecisionCondition → Type 0
IsFresh id [] = Unit
IsFresh id (c ∷ cs) = (c.id ≢ id) × IsFresh id cs

abbrev pub HasUniqueIds : List DecisionCondition → Type 0
HasUniqueIds [] = Unit
HasUniqueIds (c ∷ cs) = IsFresh c.id cs × HasUniqueIds cs

abbrev pub AllOpen : List DecisionCondition → Type 0
AllOpen [] = Unit
AllOpen (c ∷ cs) = (c.status ≡ open_condition) × AllOpen cs

-- The first open condition behind others with other identifiers is the one that is satisfied.
satisfy_first-behind :
    (evidence : String) (observed : ℕ) (done : List DecisionCondition) (c : DecisionCondition)
    (todo : List DecisionCondition)
    → is_blank evidence ≡ false
    → c.status ≡ open_condition
    → IsFresh c.id done
    → satisfy_first c.id evidence observed (done ++ c ∷ todo)
      ≡ ok (done ++ satisfied_by evidence observed c ∷ todo)
unfolding satisfy_first
satisfy_first-behind evidence observed [] c todo b o f = ground arith
satisfy_first-behind evidence observed (x ∷ done) c todo b o f =
    ground (arith, satisfy_first-behind evidence observed done c todo b o f.1)

-- One call on the first open condition behind settled ones.
satisfy_step :
    (evidence : String) (observed : ℕ) (done : List DecisionCondition) (c : DecisionCondition)
    (todo : List DecisionCondition) (d : Decision)
    → is_blank evidence ≡ false
    → c.status ≡ open_condition
    → IsFresh c.id done
    → d.lifecycle ≡ finalized
    → d.outcome ≡ conditional_go
    → d.conditions ≡ done ++ c ∷ todo
    → let after = done ++ satisfied_by evidence observed c ∷ todo in
      let d' = step (satisfy c.id evidence observed) d in
      (d'.lifecycle ≡ finalized)
      × (d'.outcome ≡ conditional_go)
      × (d'.conditions ≡ after)
      × (d'.condition_status ≡ derive_condition_status after)
      × (d'.context_status ≡ d.context_status)
unfolding step record_condition_satisfied
satisfy_step evidence observed done c todo d b o f l g e =
    let found : satisfy_first c.id evidence observed d.conditions
        ≡ ok (done ++ satisfied_by evidence observed c ∷ todo) =
      rw e (satisfy_first-behind evidence observed done c todo b o f) in
    ground arith

IsFresh-snoc :
    (id : ℕ) (xs : List DecisionCondition) (c : DecisionCondition)
    → IsFresh id xs
    → c.id ≢ id
    → IsFresh id (xs ++ c ∷ [])
IsFresh-snoc id [] c f n = (n, tt)
IsFresh-snoc id (x ∷ xs) c f n = (f.0, IsFresh-snoc id xs c f.1 n)

AllSettled-snoc :
    (xs : List DecisionCondition) (c : DecisionCondition)
    → AllSettled xs
    → c.status ≡ satisfied
    → AllSettled (xs ++ c ∷ [])
AllSettled-snoc [] c s h = (inl h, tt)
AllSettled-snoc (x ∷ xs) c s h = (s.0, AllSettled-snoc xs c s.1 h)

-- No condition still to be satisfied shares its identifier with one behind.
abbrev AllFresh : List DecisionCondition → List DecisionCondition → Type 0
AllFresh [] done = Unit
AllFresh (c ∷ todo) done = IsFresh c.id done × AllFresh todo done

AllFresh-snoc :
    (todo done : List DecisionCondition) (c : DecisionCondition)
    → AllFresh todo done
    → IsFresh c.id todo
    → AllFresh todo (done ++ c ∷ [])
AllFresh-snoc [] done c a f = tt
AllFresh-snoc (x ∷ todo) done c a f =
    (IsFresh-snoc x.id done c a.0 (λ e. f.0 (sym e)), AllFresh-snoc todo done c a.1 f.1)

AllFresh-nil : (todo : List DecisionCondition) → AllFresh todo []
AllFresh-nil [] = tt
AllFresh-nil (c ∷ todo) = (tt, AllFresh-nil todo)

-- A call for each condition, in the list's order.
abbrev pub satisfy_each : String → ℕ → List DecisionCondition → List Command
satisfy_each evidence observed = map (λ c. satisfy c.id evidence observed)

run-satisfy_each :
    (evidence : String) (observed : ℕ) (done : List DecisionCondition) (c : DecisionCondition)
    (todo : List DecisionCondition) (d : Decision)
    → is_blank evidence ≡ false
    → AllSettled done
    → AllFresh (c ∷ todo) done
    → HasUniqueIds (c ∷ todo)
    → AllOpen (c ∷ todo)
    → d.lifecycle ≡ finalized
    → d.outcome ≡ conditional_go
    → d.conditions ≡ done ++ c ∷ todo
    → let d' = run (satisfy_each evidence observed (c ∷ todo)) d in
      (d'.condition_status ≡ satisfied)
      × AllSettled d'.conditions
      × (d'.lifecycle ≡ finalized)
      × (d'.outcome ≡ conditional_go)
      × (d'.context_status ≡ d.context_status)
unfolding run
run-satisfy_each evidence observed done c [] d b s f u o l g e =
    let (l', g', e', k, x') = satisfy_step evidence observed done c [] d b o.0 f.0 l g e in
    let settled = AllSettled-snoc done (satisfied_by evidence observed c) s refl in
    (k ∙ (derive_condition_status_lem _).1.1 settled, rw e' settled, l', g', x')
run-satisfy_each evidence observed done c (x ∷ todo) d b s f u o l g e =
    let c' = satisfied_by evidence observed c in
    let (l', g', e', k, x') = satisfy_step evidence observed done c (x ∷ todo) d b o.0 f.0 l g e in
    let (k'', s'', l'', g'', x'') =
      run-satisfy_each evidence observed (done ++ c' ∷ []) x todo
        (step (satisfy c.id evidence observed) d) b (AllSettled-snoc done c' s refl)
        (AllFresh-snoc (x ∷ todo) done c' f.1 u.0) u.1 o.1 l' g'
        (e' ∙ sym (append_assoc done (c' ∷ []) (x ∷ todo))) in
    (k'', s'', l'', g'', x'' ∙ x')

-- After a conditional Go with open conditions of distinct identifiers, evidence for each of them in
-- turn makes the decision's conditions SATISFIED.
pub satisfy_each_settles :
    (evidence : String) (observed : ℕ) (c : DecisionCondition) (cs : List DecisionCondition)
    (d : Decision)
    → is_blank evidence ≡ false
    → HasUniqueIds (c ∷ cs)
    → AllOpen (c ∷ cs)
    → d.lifecycle ≡ finalized
    → d.outcome ≡ conditional_go
    → d.conditions ≡ c ∷ cs
    → let d' = run (satisfy_each evidence observed (c ∷ cs)) d in
      (d'.condition_status ≡ satisfied)
      × AllSettled d'.conditions
      × (d'.lifecycle ≡ finalized)
      × (d'.outcome ≡ conditional_go)
      × (d'.context_status ≡ d.context_status)
satisfy_each_settles evidence observed c cs d b u o l g e =
    run-satisfy_each evidence observed [] c cs d b tt (AllFresh-nil (c ∷ cs)) u o l g e
