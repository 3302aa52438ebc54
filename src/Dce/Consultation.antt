-- ===== src/Dce/Consultation.antt =====
-- The Consultation aggregate: backend/app/modules/dce/domain/consultation.py, with the error
-- classes of errors.py. The Unicode tables behind `str.upper` and `str.casefold` are the
-- parameters `upper` and `casefold`.
use smart_ao_v.Base.{
  ℕ, ◌+◌, String, Bool, true, false, not, ◌&&◌, ◌||◌, Option, none, some, List, [], ◌∷◌, ◌++◌,
  str_eq, any, is_empty, is_blank, is_some, strip, strip_or_empty, strip_or_none, words, join_words,
  if◌then◌else◌,
}
use smart_ao_v.Base.Result.{Result, ok, err}
use smart_ao_v.Base.Method.{Method, ◌>>=◌, ◌>>◌, raise_if, gets, modify, lift}

pub data ConsultationError : Type 0 where
  identity_error lifecycle_error : ConsultationError

pub data ConsultationLifecycle : Type 0 where
  opened closed archived : ConsultationLifecycle

pub data ConsultationFreshness : Type 0 where
  unknown current review_required : ConsultationFreshness

pub record BuyerIdentity : Type 0 where
  pub legal_name : String
  pub normalized_identifier : Option String

pub record ConsultationLot : Type 0 where
  pub lot_number : String
  pub label : String
  pub source_reference : Option String

pub record ConsultationTranche : Type 0 where
  pub tranche_reference : String
  pub tranche_kind : String
  pub source_reference : Option String

pub data ConsultationEvent : Type 0 where
  consultation_created : ℕ → ℕ → ConsultationEvent
  lot_registered : ℕ → String → ConsultationEvent
  tranche_registered : ℕ → String → ConsultationEvent
  consultation_closed : ℕ → ConsultationEvent

pub record Consultation : Type 0 where
  pub id : ℕ
  pub tenant_id : ℕ
  pub buyer : BuyerIdentity
  pub external_reference : Option String
  pub subject : String
  pub initial_source : String
  pub lifecycle : ConsultationLifecycle
  pub freshness : ConsultationFreshness
  pub lots : List ConsultationLot
  pub tranches : List ConsultationTranche
  pub aggregate_revision : ℕ
  pub pending_events : List ConsultationEvent

abbrev pub ConsultationMethod : Type 0 → Type 0
ConsultationMethod A = Method ConsultationError Consultation A

-- The two constructors, with `__post_init__`.
unfoldable pub make_lot : String → String → Option String → Result ConsultationError ConsultationLot
make_lot number label source =
    if is_blank number || is_blank label
    then err identity_error
    else ok (record { lot_number = number; label = label; source_reference = source })

unfoldable pub make_tranche :
    String → String → Option String → Result ConsultationError ConsultationTranche
make_tranche reference kind source =
    if is_blank reference || is_blank kind
    then err identity_error
    else ok
        (record { tranche_reference = reference; tranche_kind = kind; source_reference = source })

-- What `functional_identity` returns: the tag, the tenant and two normalized texts.
pub data FunctionalIdentity : Type 0 where
  buyer_reference : ℕ → String → String → FunctionalIdentity
  source_fallback : ℕ → String → String → FunctionalIdentity

abbrev pub or_empty : Option String → String
or_empty none = ""
or_empty (some s) = s

module _ (upper : String → String) where
  -- `identifier.strip().upper() if identifier else ""`, then `identifier or None`
  unfoldable pub normalized_key : BuyerIdentity → Option String
  normalized_key b = elim b.normalized_identifier [
    | none ↦ none
    | some s ↦ if is_empty s || is_empty (upper (strip s)) then none else some (upper (strip s))
  ]

  -- `" ".join((value or "").strip().upper().split())`
  unfoldable pub normalize_reference : Option String → String
  normalize_reference value = join_words (words (upper (strip (or_empty value))))

  unfoldable pub functional_identity : Consultation → FunctionalIdentity
  functional_identity c =
      let reference = normalize_reference c.external_reference in
      let fallback =
        source_fallback c.tenant_id (normalize_reference (some c.initial_source))
          (normalize_reference (some c.subject)) in
      elim (normalized_key c.buyer) [
        | none ↦ fallback
        | some key ↦
            if is_empty reference then fallback else buyer_reference c.tenant_id key reference
      ]

  -- `_validate_identity`
  unfoldable pub validate_identity :
      BuyerIdentity → Option String → String → String → Result ConsultationError (Unit {0})
  unfolding normalized_key
  validate_identity buyer reference subject source =
      if is_blank buyer.legal_name
      then err identity_error
      else if is_blank subject
      then err identity_error
      else if not (is_some (normalized_key buyer) && not (is_empty (strip_or_empty reference)))
          && not (not (is_blank source) && not (is_blank subject))
      then err identity_error
      else ok tt

  unfoldable pub create :
      ℕ
      → ℕ
      → BuyerIdentity
      → Option String
      → String
      → String
      → Result ConsultationError Consultation
  unfolding validate_identity
  create id tenant buyer reference subject source =
      elim (validate_identity buyer reference subject source) [
        | err e ↦ err e
        | ok u ↦ ok (record {
          id = id;
          tenant_id = tenant;
          buyer = buyer;
          external_reference = strip_or_none reference;
          subject = strip subject;
          initial_source = strip source;
          lifecycle = opened;
          freshness = unknown;
          lots = [];
          tranches = [];
          aggregate_revision = 0;
          pending_events = consultation_created id tenant ∷ [];
        })
      ]

abbrev pub is_opened : ConsultationLifecycle → Bool
is_opened opened = true
is_opened _ = false

-- `_ensure_open`
unfoldable pub ensure_open : ConsultationMethod (Unit {0})
ensure_open c = raise_if (not (is_opened c.lifecycle)) lifecycle_error c

abbrev pub increment_revision : Consultation → Consultation
increment_revision c = record c { aggregate_revision = c.aggregate_revision + 1 }

abbrev pub record_event : ConsultationEvent → Consultation → Consultation
record_event e c = record c { pending_events = c.pending_events ++ e ∷ [] }

module _ (casefold : String → String) where
  unfoldable pub register_lot : String → String → Option String → ConsultationMethod (Unit {0})
  unfolding ensure_open make_lot
  register_lot number label source = do
    ensure_open
    lot ← lift (make_lot (strip number) (strip label) (strip_or_none source))
    lots ← gets (λ c. c.lots)
    raise_if (any (λ l. str_eq (casefold l.lot_number) (casefold lot.lot_number)) lots)
        identity_error
    modify (λ c. record c { lots = c.lots ++ lot ∷ [] })
    modify increment_revision
    modify (λ c. record_event (lot_registered c.id lot.lot_number) c)

  unfoldable pub register_tranche : String → String → Option String → ConsultationMethod (Unit {0})
  unfolding ensure_open make_tranche
  register_tranche reference kind source = do
    ensure_open
    tranche ← lift (make_tranche (strip reference) (strip kind) (strip_or_none source))
    tranches ← gets (λ c. c.tranches)
    raise_if
        (any (λ t. str_eq (casefold t.tranche_reference) (casefold tranche.tranche_reference))
          tranches)
        identity_error
    modify (λ c. record c { tranches = c.tranches ++ tranche ∷ [] })
    modify increment_revision
    modify (λ c. record_event (tranche_registered c.id tranche.tranche_reference) c)

unfoldable pub close : String → String → ConsultationMethod (Unit {0})
unfolding ensure_open
close reason source = do
  ensure_open
  raise_if (is_blank reason || is_blank source) lifecycle_error
  modify (λ c. record c { lifecycle = closed })
  modify increment_revision
  modify (λ c. record_event (consultation_closed c.id) c)
