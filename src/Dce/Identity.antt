-- ===== src/Dce/Identity.antt =====
-- The durable identity of a consultation and its lots and tranches, through every sequence of
-- calls: `Consultation` of backend/app/modules/dce/domain/consultation.py.
use smart_ao_v.Base.{
  ◌+◌, ◌≡◌, ◌≢◌, refl, true, false, String, List, [], ◌∷◌, ◌++◌, map, length, length-snoc, arith,
  Option, any, str_eq, is_unique, contains, is_blank, strip, strip-strip, strip_or_none, ap, eq_iff,
}
use smart_ao_v.Dce.Consultation.{
  Consultation, ConsultationMethod, ConsultationLot, ConsultationTranche, register_lot,
  register_tranche, close, lot_registered, tranche_registered, consultation_closed,
}

-- The calls of a consultation, as data.
pub data Command : Type 0 where
  add_lot add_tranche : String → String → Option String → Command
  shut : String → String → Command

-- A lot or a tranche is named by a text that is not blank and not padded.
abbrev pub IsNamed : String → Type 0
IsNamed s = (is_blank s ≡ false) × (strip s ≡ s)

abbrev pub LotsNamed : List ConsultationLot → Type 0
LotsNamed [] = Unit
LotsNamed (l ∷ ls) = IsNamed l.lot_number × IsNamed l.label × LotsNamed ls

abbrev pub TranchesNamed : List ConsultationTranche → Type 0
TranchesNamed [] = Unit
TranchesNamed (t ∷ ts) = IsNamed t.tranche_reference × IsNamed t.tranche_kind × TranchesNamed ts

LotsNamed-snoc :
    (ls : List ConsultationLot) (l : ConsultationLot)
    → LotsNamed ls
    → IsNamed l.lot_number
    → IsNamed l.label
    → LotsNamed (ls ++ l ∷ [])
LotsNamed-snoc [] l h n b = (n, b, tt)
LotsNamed-snoc (k ∷ ls) l h n b = (h.0, h.1, LotsNamed-snoc ls l h.2 n b)

TranchesNamed-snoc :
    (ts : List ConsultationTranche) (t : ConsultationTranche)
    → TranchesNamed ts
    → IsNamed t.tranche_reference
    → IsNamed t.tranche_kind
    → TranchesNamed (ts ++ t ∷ [])
TranchesNamed-snoc [] t h n b = (n, b, tt)
TranchesNamed-snoc (k ∷ ts) t h n b = (h.0, h.1, TranchesNamed-snoc ts t h.2 n b)

contains-snoc :
    (x y : String) (xs : List String)
    → contains str_eq x xs ≡ false
    → x ≢ y
    → contains str_eq x (xs ++ y ∷ []) ≡ false
contains-snoc x y [] c n = ground (arith, eq_iff x y)
contains-snoc x y (z ∷ xs) c n = ground (arith, contains-snoc x y xs)

module _ (casefold : String → String) where
  unfoldable pub execute : Command → ConsultationMethod (Unit {0})
  execute (add_lot n l s) = register_lot casefold n l s
  execute (add_tranche r k s) = register_tranche casefold r k s
  execute (shut r s) = close r s

  unfoldable pub step : Command → Consultation → Consultation
  unfolding execute
  step c k = (execute c k).1

  unfoldable pub run : List Command → Consultation → Consultation
  unfolding step
  run [] k = k
  run (c ∷ cs) k = run cs (step c k)

  abbrev pub folded_lots : List ConsultationLot → List String
  folded_lots = map (λ l. casefold l.lot_number)

  abbrev pub folded_tranches : List ConsultationTranche → List String
  folded_tranches = map (λ t. casefold t.tranche_reference)

  pub record IsSound (k : Consultation) : Type 0 where
    pub distinct_lots : is_unique str_eq (folded_lots k.lots) ≡ true
    pub distinct_tranches : is_unique str_eq (folded_tranches k.tranches) ≡ true
    pub named_lots : LotsNamed k.lots
    pub named_tranches : TranchesNamed k.tranches
    pub announced : length k.pending_events ≡ k.aggregate_revision + 1

  folded_lots-snoc :
      (ls : List ConsultationLot) (l : ConsultationLot)
      → folded_lots (ls ++ l ∷ []) ≡ folded_lots ls ++ casefold l.lot_number ∷ []
  folded_lots-snoc [] l = refl
  folded_lots-snoc (k ∷ ls) l = ap (λ fs. casefold k.lot_number ∷ fs) (folded_lots-snoc ls l)

  folded_tranches-snoc :
      (ts : List ConsultationTranche) (t : ConsultationTranche)
      → folded_tranches (ts ++ t ∷ []) ≡ folded_tranches ts ++ casefold t.tranche_reference ∷ []
  folded_tranches-snoc [] t = refl
  folded_tranches-snoc (k ∷ ts) t =
      ap (λ fs. casefold k.tranche_reference ∷ fs) (folded_tranches-snoc ts t)

  distinct_lots-snoc :
      (ls : List ConsultationLot) (l : ConsultationLot)
      → is_unique str_eq (folded_lots ls) ≡ true
      → any (λ k. str_eq (casefold k.lot_number) (casefold l.lot_number)) ls ≡ false
      → is_unique str_eq (folded_lots (ls ++ l ∷ [])) ≡ true
  distinct_lots-snoc [] l u a = refl
  distinct_lots-snoc (k ∷ ls) l u a =
      let fresh =
        contains-snoc (casefold k.lot_number) (casefold l.lot_number) (folded_lots ls)
          (ground arith) (ground (arith, eq_iff (casefold k.lot_number) (casefold l.lot_number))) in
      let first : contains str_eq (casefold k.lot_number) (folded_lots (ls ++ l ∷ [])) ≡ false =
        rw (folded_lots-snoc ls l) fresh in
      ground (arith, distinct_lots-snoc ls l)

  distinct_tranches-snoc :
      (ts : List ConsultationTranche) (t : ConsultationTranche)
      → is_unique str_eq (folded_tranches ts) ≡ true
      → any (λ k. str_eq (casefold k.tranche_reference) (casefold t.tranche_reference)) ts ≡ false
      → is_unique str_eq (folded_tranches (ts ++ t ∷ [])) ≡ true
  distinct_tranches-snoc [] t u a = refl
  distinct_tranches-snoc (k ∷ ts) t u a =
      let fresh =
        contains-snoc (casefold k.tranche_reference) (casefold t.tranche_reference)
          (folded_tranches ts) (ground arith)
          (ground (arith, eq_iff (casefold k.tranche_reference) (casefold t.tranche_reference))) in
      let first : contains str_eq (casefold k.tranche_reference) (folded_tranches (ts ++ t ∷ []))
          ≡ false =
        rw (folded_tranches-snoc ts t) fresh in
      ground (arith, distinct_tranches-snoc ts t)

  register_lot-IsSound :
      (n b : String) (s : Option String) (k : Consultation)
      → IsSound k
      → IsSound (register_lot casefold n b s k).1
  unfolding register_lot
  register_lot-IsSound n b s k h =
      let l : ConsultationLot = record {
        lot_number = strip n;
        label = strip b;
        source_reference = strip_or_none s;
      } in
      ground (
        arith,
        length-snoc k.pending_events (lot_registered k.id (strip n)),
        distinct_lots-snoc k.lots l h.distinct_lots,
        LotsNamed-snoc k.lots l h.named_lots,
        strip-strip n,
        strip-strip b,
      )

  register_tranche-IsSound :
      (n b : String) (s : Option String) (k : Consultation)
      → IsSound k
      → IsSound (register_tranche casefold n b s k).1
  unfolding register_tranche
  register_tranche-IsSound n b s k h =
      let t : ConsultationTranche = record {
        tranche_reference = strip n;
        tranche_kind = strip b;
        source_reference = strip_or_none s;
      } in
      ground (
        arith,
        length-snoc k.pending_events (tranche_registered k.id (strip n)),
        distinct_tranches-snoc k.tranches t h.distinct_tranches,
        TranchesNamed-snoc k.tranches t h.named_tranches,
        strip-strip n,
        strip-strip b,
      )

  close-IsSound : (r s : String) (k : Consultation) → IsSound k → IsSound (close r s k).1
  unfolding close
  close-IsSound r s k h = ground (arith, length-snoc k.pending_events (consultation_closed k.id))

  step-IsSound : (c : Command) (k : Consultation) → IsSound k → IsSound (step c k)
  unfolding step
  step-IsSound (add_lot n b s) k h = register_lot-IsSound n b s k h
  step-IsSound (add_tranche n b s) k h = register_tranche-IsSound n b s k h
  step-IsSound (shut r s) k h = close-IsSound r s k h

  -- Every sequence of calls, refused ones included, keeps the lots and the tranches of a sound
  -- consultation named, and distinct after `casefold`.
  pub consultation_run-IsSound :
      (cs : List Command) (k : Consultation) → IsSound k → IsSound (run cs k)
  unfolding run
  consultation_run-IsSound [] k h = h
  consultation_run-IsSound (c ∷ cs) k h =
      consultation_run-IsSound cs (step c k) (step-IsSound c k h)
