-- ===== src/Submission/Requirements.antt =====
-- The requirements that the reader of
-- backend/app/modules/submission/infrastructure/decision_gate_reader.py takes as confirmed.
use smart_ao_v.Base.{
  ℕ, ◌+◌, ◌≤◌, ◌≡◌, refl, Bool, true, false, not, ◌&&◌, some, List, [], ◌∷◌, arith, ==_iff, ◌==◌,
  any, filter, length, length-append, contains, Bool-cases, inl, inr,
}
use smart_ao_v.Submission.GateReader.{
  DceRequirementRecord, DceRequirementConfirmationCurrentRecord, CaseRecord, Rows, find_case,
  requirement_ids, is_confirmation, confirmed_rows, all_dce_requirements_confirmed,
}

-- No two requirements of a tenant have the same identifier.
abbrev pub are_distinct : List DceRequirementRecord → Bool
are_distinct [] = true
are_distinct (r ∷ rows) =
    not (any (λ s. s.tenant_id == r.tenant_id && s.id == r.id) rows) && are_distinct rows

-- No requirement has two current confirmations.
abbrev pub are_current : List DceRequirementConfirmationCurrentRecord → Bool
are_current [] = true
are_current (c ∷ rows) =
    not (any (λ b. b.tenant_id == c.tenant_id && b.requirement_id == c.requirement_id) rows)
    && are_current rows

module _ (tenant case : ℕ) where
  -- A requirement of the version whose current confirmation says CONFIRMED.
  abbrev pub is_confirmed :
      ℕ → ℕ → List DceRequirementConfirmationCurrentRecord → List DceRequirementRecord → Bool
  is_confirmed version id confirmations requirements =
      any
        (λ r.
          r.tenant_id == tenant
          && r.dce_version_id == version
          && r.id == id
          && any (is_confirmation tenant case r) confirmations)
        requirements

  no_confirmation :
      (r : DceRequirementRecord) (rows : List DceRequirementConfirmationCurrentRecord)
      → any (λ b. b.tenant_id == r.tenant_id && b.requirement_id == r.id) rows ≡ false
      → length (filter (is_confirmation tenant case r) rows) ≡ 0
  no_confirmation r [] h = refl
  no_confirmation r (c ∷ rows) h = ground (arith, no_confirmation r rows)

  one_confirmation :
      (r : DceRequirementRecord) (rows : List DceRequirementConfirmationCurrentRecord)
      → are_current rows ≡ true
      → length (filter (is_confirmation tenant case r) rows) ≤ 1
  one_confirmation r [] h = omega arith
  one_confirmation r (c ∷ rows) h = elim (Bool-cases (is_confirmation tenant case r c)) [
    | inl e ↦
        let there : (c.tenant_id ≡ r.tenant_id) × (c.requirement_id ≡ r.id) =
          ground (arith, ==_iff c.tenant_id r.tenant_id, ==_iff c.requirement_id r.id) in
        let free : any (λ b. b.tenant_id == c.tenant_id && b.requirement_id == c.requirement_id)
              rows
            ≡ false =
          ground arith in
        let free' : any (λ b. b.tenant_id == r.tenant_id && b.requirement_id == r.id) rows ≡ false =
          rw (there.0, there.1) at free in
        ground (arith, e, no_confirmation r rows free')
    | inr e ↦ ground (arith, e, one_confirmation r rows)
  ]

  any-filter :
      (r : DceRequirementRecord) (rows : List DceRequirementConfirmationCurrentRecord)
      → any (is_confirmation tenant case r) rows ≡ false
      → length (filter (is_confirmation tenant case r) rows) ≡ 0
  any-filter r [] h = refl
  any-filter r (c ∷ rows) h = ground (arith, any-filter r rows)

  module _ (version : ℕ) (confirmations : List DceRequirementConfirmationCurrentRecord) where
    -- The number of rows that the query counts for some identifiers.
    abbrev count : List ℕ → List DceRequirementRecord → ℕ
    count ids rows = length (confirmed_rows tenant case version ids confirmations rows)

    count-none :
        (i : ℕ) (rows : List DceRequirementRecord)
        → any (λ s. s.tenant_id == tenant && s.id == i) rows ≡ false
        → count (i ∷ []) rows ≡ 0
    count-none i [] h = refl
    count-none i (r ∷ rows) h = ground (arith, count-none i rows, ==_iff r.id i)

    count-one :
        (i : ℕ) (rows : List DceRequirementRecord)
        → are_distinct rows ≡ true
        → are_current confirmations ≡ true
        → count (i ∷ []) rows ≤ 1
    count-one i [] h k = omega arith
    count-one i (r ∷ rows) h k = elim (Bool-cases (r.tenant_id == tenant && r.id == i)) [
      | inl e ↦
          let here : (r.tenant_id ≡ tenant) × (r.id ≡ i) =
            ground (arith, ==_iff r.tenant_id tenant, ==_iff r.id i) in
          let free : any (λ s. s.tenant_id == r.tenant_id && s.id == r.id) rows ≡ false =
            ground arith in
          let free' : any (λ s. s.tenant_id == tenant && s.id == i) rows ≡ false =
            rw (here.0, here.1) at free in
          ground (
            arith,
            one_confirmation r confirmations k,
            count-none i rows free',
            length-append (filter (is_confirmation tenant case r) confirmations)
                (confirmed_rows tenant case version (i ∷ []) confirmations rows),
          )
      | inr e ↦ ground (arith, e, count-one i rows, ==_iff r.id i)
    ]

    count-cons :
        (i : ℕ) (ids : List ℕ) (rows : List DceRequirementRecord)
        → count (i ∷ ids) rows ≤ count (i ∷ []) rows + count ids rows
    count-cons i ids [] = omega arith
    count-cons i ids (r ∷ rows) =
        let found = filter (is_confirmation tenant case r) confirmations in
        ground (
          arith,
          count-cons i ids rows,
          length-append found (confirmed_rows tenant case version (i ∷ ids) confirmations rows),
          length-append found (confirmed_rows tenant case version (i ∷ []) confirmations rows),
          length-append found (confirmed_rows tenant case version ids confirmations rows),
        )

    count-confirmed :
        (i : ℕ) (rows : List DceRequirementRecord)
        → is_confirmed version i confirmations rows ≡ false
        → count (i ∷ []) rows ≡ 0
    count-confirmed i [] h = refl
    count-confirmed i (r ∷ rows) h =
        elim (Bool-cases (any (is_confirmation tenant case r) confirmations)) [
          | inl e ↦ ground (arith, e, count-confirmed i rows, ==_iff r.id i)
          | inr e ↦
              let nothing = any-filter r confirmations e in
              let append =
                length-append (filter (is_confirmation tenant case r) confirmations)
                  (confirmed_rows tenant case version (i ∷ []) confirmations rows) in
              ground (arith, e, nothing, append, count-confirmed i rows, ==_iff r.id i)
        ]

    count-nil : (rows : List DceRequirementRecord) → count [] rows ≡ 0
    count-nil [] = refl
    count-nil (r ∷ rows) = ground (arith, count-nil rows)

    module _ (rows : List DceRequirementRecord) (distinct : are_distinct rows ≡ true)
        (current : are_current confirmations ≡ true) where
      count-le : (ids : List ℕ) → count ids rows ≤ length ids
      count-le [] = omega (arith, count-nil rows)
      count-le (i ∷ ids) =
          omega (arith, count-cons i ids rows, count-one i rows distinct current, count-le ids)

      -- A count as high as the number of identifiers leaves none of them out.
      count-all :
          (ids : List ℕ) (j : ℕ)
          → count ids rows ≡ length ids
          → contains ◌==◌ j ids ≡ true
          → is_confirmed version j confirmations rows ≡ true
      count-all [] j h k = ground arith
      count-all (i ∷ ids) j h k =
          let cons = count-cons i ids rows in
          let one = count-one i rows distinct current in
          let le = count-le ids in
          let rest : count ids rows ≡ length ids = omega (arith, cons, one, le, h) in
          elim (Bool-cases (j == i)) [
            | inl e ↦ elim (Bool-cases (is_confirmed version j confirmations rows)) [
              | inl found ↦ found
              | inr lost ↦
                  let same : j ≡ i = (==_iff j i).0 e in
                  let none_of = count-confirmed i rows (rw same at lost) in
                  absurd (omega (arith, cons, le, none_of, h))
            ]
            | inr e ↦ count-all ids j rest (ground (arith, k, e))
          ]

  tested_count :
      (n : List ℕ → ℕ) (ids : List ℕ) (j : ℕ)
      → (elim ids [ [] ↦ true | i ∷ rest ↦ n (i ∷ rest) == length (i ∷ rest) ]) ≡ true
      → contains ◌==◌ j ids ≡ true
      → n ids ≡ length ids
  tested_count n [] j h k = ground arith
  tested_count n (i ∷ ids) j h k = (==_iff (n (i ∷ ids)) (length (i ∷ ids))).0 h

  -- When requirements have distinct identifiers and at most one current confirmation each, and the
  -- reader takes all requirements as confirmed, each requirement that the context refers to is one of
  -- the version that applies to the case, and its current confirmation says CONFIRMED.
  pub confirmed-IsConfirmed :
      (d : Rows) (context version : ℕ) (c : CaseRecord) (j : ℕ)
      → are_distinct d.requirements ≡ true
      → are_current d.confirmations ≡ true
      → find_case tenant case d.cases ≡ some c
      → c.applicable_dce_version_id ≡ some version
      → all_dce_requirements_confirmed tenant case (some context) d ≡ true
      → contains ◌==◌ j (requirement_ids tenant case context d.references) ≡ true
      → is_confirmed version j d.confirmations d.requirements ≡ true
  unfolding all_dce_requirements_confirmed
  confirmed-IsConfirmed d context version c j distinct current found applies h k =
      let ids = requirement_ids tenant case context d.references in
      let counted =
        tested_count
          (λ l. length (confirmed_rows tenant case version l d.confirmations d.requirements)) ids j
          (rw (all_dce_requirements_confirmed, found, applies) at h) k in
      count-all version d.confirmations d.requirements distinct current ids j counted k
