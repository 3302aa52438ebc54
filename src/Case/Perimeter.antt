-- ===== src/Case/Perimeter.antt =====
-- What an explicit perimeter is, apart from the code, and that `validate` decides it.
use smart_ao_v.Base.{ℕ, ◌≡◌, ◌≤◌, ◌↔◌, Bool, true, false, length, arith}
use smart_ao_v.Base.Result.{ok}
use smart_ao_v.Case.Scope.{
  CaseScope, CaseScopeKind, single_lot, multi_lot, tranche, variant, custom_sourced_scope,
  named_lots, has_text, validate_scope,
}

-- The dimensions that each kind has, and no other: `lots` counts lots, and the flags say whether
-- a tranche, a variant and a justification are given.
abbrev pub Spans : CaseScopeKind → ℕ → Bool → Bool → Bool → Type 0
Spans single_lot lots t v j = (lots ≡ 1) × (t ≡ false) × (v ≡ false) × (j ≡ false)
Spans multi_lot lots t v j = (2 ≤ lots) × (t ≡ false) × (v ≡ false) × (j ≡ true)
Spans tranche lots t v j = (lots ≡ 0) × (t ≡ true) × (v ≡ false) × (j ≡ false)
Spans variant lots t v j = (lots ≡ 0) × (t ≡ false) × (v ≡ true) × (j ≡ false)
Spans custom_sourced_scope lots t v j = (lots ≡ 0) × (t ≡ false) × (v ≡ false) × (j ≡ true)

abbrev pub IsExplicit : CaseScope → Type 0
IsExplicit s =
    Spans s.kind (length (named_lots s)) (has_text s.tranche_reference)
      (has_text s.variant_reference) (has_text s.source_justification)

-- A scope is accepted exactly when it names what its kind needs, and nothing that its kind excludes.
pub validate_scope-IsExplicit : (s : CaseScope) → (validate_scope s ≡ ok tt) ↔ IsExplicit s
unfolding validate_scope
validate_scope-IsExplicit s = ground arith
