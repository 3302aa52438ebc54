-- ===== src/Case/Scope.antt =====
-- The perimeter of a Case, its origin and its references to other aggregates:
-- `AggregateReference`, `CaseScope` and `CaseOrigin` of backend/app/modules/case/domain/case.py,
-- with the error classes of errors.py. Messages are left out.
use smart_ao_v.Base.{
  ℕ, String, Bool, true, false, not, ◌&&◌, ◌||◌, Option, none, some, List, [], ◌∷◌, map, ltb, ◌==◌,
  filter, length, is_empty, is_blank, strip, strip_or_empty,
}
use smart_ao_v.Base.Int.{ℤ, pos, ltb_ℤ}
use smart_ao_v.Base.Result.{Result, ok, ◌>>◌, raise_if}

pub data CaseError : Type 0 where
  scope_ambiguous cross_tenant_reference lifecycle_forbids_action value_error : CaseError

pub data CaseScopeKind : Type 0 where
  single_lot multi_lot tranche variant custom_sourced_scope : CaseScopeKind

pub data CaseOriginKind : Type 0 where
  opportunity manual imported customer_request : CaseOriginKind

-- UUIDs are only compared, so they are numbers.
pub record AggregateReference : Type 0 where
  pub aggregate_id : ℕ
  pub aggregate_type : String
  pub tenant_id : ℕ
  pub aggregate_revision : ℤ

-- The constructor, with `__post_init__`.
unfoldable pub make_reference : ℕ → String → ℕ → ℤ → Result CaseError AggregateReference
make_reference id type tenant revision = do
  raise_if (is_blank type) value_error
  raise_if (ltb_ℤ revision (pos 0)) value_error
  ok (record {
    aggregate_id = id;
    aggregate_type = type;
    tenant_id = tenant;
    aggregate_revision = revision;
  })

pub record CaseScope : Type 0 where
  pub kind : CaseScopeKind
  pub lot_numbers : List String
  pub tranche_reference : Option String
  pub variant_reference : Option String
  pub source_justification : Option String

-- The class methods, one for each kind.
abbrev pub single_lot_scope : String → CaseScope
single_lot_scope lot = record {
  kind = single_lot;
  lot_numbers = lot ∷ [];
  tranche_reference = none;
  variant_reference = none;
  source_justification = none;
}

abbrev pub multi_lot_scope : List String → String → CaseScope
multi_lot_scope lots justification = record {
  kind = multi_lot;
  lot_numbers = lots;
  tranche_reference = none;
  variant_reference = none;
  source_justification = some justification;
}

abbrev pub tranche_scope : String → CaseScope
tranche_scope reference = record {
  kind = tranche;
  lot_numbers = [];
  tranche_reference = some reference;
  variant_reference = none;
  source_justification = none;
}

abbrev pub variant_scope : String → CaseScope
variant_scope reference = record {
  kind = variant;
  lot_numbers = [];
  tranche_reference = none;
  variant_reference = some reference;
  source_justification = none;
}

abbrev pub custom_sourced : String → CaseScope
custom_sourced justification = record {
  kind = custom_sourced_scope;
  lot_numbers = [];
  tranche_reference = none;
  variant_reference = none;
  source_justification = some justification;
}

-- The lots that `validate` counts: stripped, blank ones dropped.
abbrev pub named_lots : CaseScope → List String
named_lots s = map strip (filter (λ lot. not (is_blank lot)) s.lot_numbers)

abbrev pub has_text : Option String → Bool
has_text o = not (is_empty (strip_or_empty o))

-- `CaseScope.validate`, over the kind, the number of lots, and whether a tranche `t`, a variant `v`
-- and a justification `j` are given.
unfoldable pub validate_kind : CaseScopeKind → ℕ → Bool → Bool → Bool → Result CaseError (Unit {0})
validate_kind single_lot lots t v j = raise_if (not (lots == 1) || t || v || j) scope_ambiguous
validate_kind multi_lot lots t v j = do
  raise_if (ltb lots 2) scope_ambiguous
  raise_if (not j) scope_ambiguous
  raise_if (t || v) scope_ambiguous
validate_kind tranche lots t v j = do
  raise_if (not t) scope_ambiguous
  raise_if (ltb 0 lots || v || j) scope_ambiguous
validate_kind variant lots t v j = do
  raise_if (not v) scope_ambiguous
  raise_if (ltb 0 lots || t || j) scope_ambiguous
validate_kind custom_sourced_scope lots t v j = do
  raise_if (not j) scope_ambiguous
  raise_if (ltb 0 lots || t || v) scope_ambiguous

unfoldable pub validate_scope : CaseScope → Result CaseError (Unit {0})
unfolding validate_kind
validate_scope s =
    validate_kind s.kind (length (named_lots s)) (has_text s.tranche_reference)
      (has_text s.variant_reference) (has_text s.source_justification)

pub record CaseOrigin : Type 0 where
  pub kind : CaseOriginKind
  pub rationale : Option String
  pub origin_reference_id : Option ℕ

abbrev pub is_manual : CaseOriginKind → Bool
is_manual manual = true
is_manual _ = false

-- `CaseOrigin.validate`
unfoldable pub validate_origin : CaseOrigin → Result CaseError (Unit {0})
validate_origin o = raise_if (is_manual o.kind && not (has_text o.rationale)) scope_ambiguous
