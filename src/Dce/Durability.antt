-- ===== src/Dce/Durability.antt =====
-- How a consultation is identified, from its creation on, and what closing it ends: `Consultation`
-- of backend/app/modules/dce/domain/consultation.py.
use smart_ao_v.Base.{
  ℕ, ◌≡◌, ◌∙◌, refl, ◌⊎◌, true, false, String, List, [], ◌∷◌, arith, Option, none, some, is_blank,
  is_some, is_empty, strip-strip, strip_or_empty,
}
use smart_ao_v.Base.Result.{ok}
use smart_ao_v.Dce.Consultation.{
  Consultation, BuyerIdentity, opened, normalized_key, functional_identity, validate_identity,
  create, register_lot, register_tranche, close,
}
use smart_ao_v.Dce.Identity.{Command, add_lot, add_tranche, shut, step, run, IsSound}

module _ (upper casefold : String → String) where
  -- Either the buyer's key and reference, or a source, can name the consultation.
  abbrev pub IsIdentified : Consultation → Type 0
  IsIdentified k =
      (is_blank k.buyer.legal_name ≡ false)
      × (is_blank k.subject ≡ false)
      × ((is_some (normalized_key upper k.buyer) ≡ true)
            × (is_empty (strip_or_empty k.external_reference) ≡ false)
          ⊎ (is_blank k.initial_source ≡ false))

  -- A created consultation is sound, open, at revision 0, and identified.
  pub consultation_create-IsSound :
      (id tenant : ℕ) (buyer : BuyerIdentity) (reference : Option String) (subject source : String)
      {k : Consultation}
      → create upper id tenant buyer reference subject source ≡ ok k
      → IsSound casefold k × IsIdentified k × (k.lifecycle ≡ opened) × (k.aggregate_revision ≡ 0)
  unfolding create validate_identity
  consultation_create-IsSound id tenant buyer none subject source h =
      ground (arith, strip-strip subject, strip-strip source)
  consultation_create-IsSound id tenant buyer (some r) subject source h =
      ground (arith, strip-strip subject, strip-strip source, strip-strip r)

  step-functional_identity :
      (c : Command) (k : Consultation)
      → functional_identity upper (step casefold c k) ≡ functional_identity upper k
  unfolding functional_identity step register_lot register_tranche close
  step-functional_identity (add_lot n b s) k = ground arith
  step-functional_identity (add_tranche n b s) k = ground arith
  step-functional_identity (shut r s) k = ground arith

  -- The functional identity is durable: no sequence of calls changes it.
  pub run-functional_identity :
      (cs : List Command) (k : Consultation)
      → functional_identity upper (run casefold cs k) ≡ functional_identity upper k
  unfolding run
  run-functional_identity [] k = refl
  run-functional_identity (c ∷ cs) k =
      run-functional_identity cs (step casefold c k) ∙ step-functional_identity c k
