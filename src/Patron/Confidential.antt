-- ===== src/Patron/Confidential.antt =====
-- What the financial services of Patron.Financial tell to an actor that they refuse.
use smart_ao_v.Base.{
  ℕ, ◌≡◌, refl, sym, ◌∙◌, ap, inl, inr, String, Bool, true, false, ◌&&◌, Option, some, Bool-cases,
  arith,
}
use smart_ao_v.Base.Result.{err}
use smart_ao_v.Base.Method.{Method}
use smart_ao_v.Events.Dispatcher.{Command, Database, Handler, DispatchResult}
use smart_ao_v.Security.Authorization.{
  ActorContext, AuthorizationRequest, patron_admin, active, authorize, is_patron_admin,
  financial_private,
}
use smart_ao_v.Security.Policy.{Permits, authorize-allowed_iff}
use smart_ao_v.Patron.Services.{ServiceError, permission, make_request}
use smart_ao_v.Patron.Financial.{
  serve_existing, create_pricing_import, create_report_draft, add_report_line, publish_report,
}

-- The error of an actor that is not admitted, or that the policy refuses.
abbrev refusal : Bool → String → ActorContext → AuthorizationRequest → ServiceError
refusal true text actor r = permission (authorize actor r).code
refusal false text actor r = permission text

pub data FinancialService : Type 0 where
  importing drafting adding_line publishing : FinancialService

abbrev pub capability_of : FinancialService → String
capability_of importing = "financial.report.line.write"
capability_of drafting = "financial.report.create"
capability_of adding_line = "financial.report.line.write"
capability_of publishing = "financial.report.publish"

-- The patron itself, as an active member with the capability.
abbrev pub IsEntitled : ActorContext → String → Type 0
IsEntitled actor action =
    (actor.actor_kind ≡ patron_admin)
    × (actor.membership_state ≡ active)
    × (actor.capabilities action ≡ true)

abbrev required : String
required = "FINANCIAL_REPORT_PATRON_REQUIRED"

module _ {P : Type 0} (case_id subject_id : P → ℕ) where
  abbrev request_of : FinancialService → ActorContext → ℕ → P → AuthorizationRequest
  request_of importing actor now p =
      make_request "financial.report.line.write" "PRICING_IMPORT" (case_id p) financial_private
        (some (case_id p)) false actor now
  request_of drafting actor now p =
      make_request "financial.report.create" "CASE_FINANCIAL_REPORT" (case_id p) financial_private
        (some (case_id p)) false actor now
  request_of adding_line actor now p =
      make_request "financial.report.line.write" "CASE_FINANCIAL_REPORT" (subject_id p)
        financial_private (some (case_id p)) false actor now
  request_of publishing actor now p =
      make_request "financial.report.publish" "CASE_FINANCIAL_REPORT" (subject_id p)
        financial_private (some (case_id p)) false actor now

  abbrev text_of : FinancialService → String
  text_of importing = "PRICING_IMPORT_PATRON_REQUIRED"
  text_of _ = required

  abbrev refusal_of : FinancialService → ActorContext → ℕ → P → ServiceError
  refusal_of s actor now p =
      refusal (is_patron_admin actor.actor_kind) (text_of s) actor (request_of s actor now p)

  entitled :
      (s : FinancialService) (actor : ActorContext) (now : ℕ) (c : P)
      → is_patron_admin actor.actor_kind ≡ true
      → Permits actor (request_of s actor now c)
      → IsEntitled actor (capability_of s)
  entitled importing actor now c h p = (ground (arith, h), p.member, p.capable)
  entitled drafting actor now c h p = (ground (arith, h), p.member, p.capable)
  entitled adding_line actor now c h p = (ground (arith, h), p.member, p.capable)
  entitled publishing actor now c h p = (ground (arith, h), p.member, p.capable)

module _ {P S : Type 0} (hash : Command P → String) (handlers : String → Option (Handler P S)) where
  serve_existing-refuses :
      (admitted : Bool) (text : String) (r : AuthorizationRequest) (exists : S → Bool)
      (actor : ActorContext) (now : ℕ) (case : Option ℕ) (c : Command P) (db : Database S)
      → (admitted && (authorize actor r).allowed) ≡ false
      → serve_existing hash handlers admitted text r exists actor now case c db
        ≡ (err (refusal admitted text actor r), db)
  unfolding serve_existing
  serve_existing-refuses true text r exists actor now case c db h = rw h refl
  serve_existing-refuses false text r exists actor now case c db h = refl

  module _ (case_id subject_id : P → ℕ) where
    -- The services that ask a reader before they dispatch.
    abbrev pub call_financial :
        FinancialService
        → (ℕ → P → S → Bool)
        → ActorContext
        → ℕ
        → Command P
        → Method ServiceError (Database S) DispatchResult
    call_financial importing = create_pricing_import hash handlers case_id subject_id
    call_financial drafting = create_report_draft hash handlers case_id subject_id
    call_financial adding_line = add_report_line hash handlers case_id subject_id
    call_financial publishing = publish_report hash handlers case_id subject_id

    module _ (exists : ℕ → P → S → Bool) (actor : ActorContext) (now : ℕ) (c : Command P)
        (db : Database S) where
      not_entitled :
          (s : FinancialService)
          → ¬ IsEntitled actor (capability_of s)
          → (is_patron_admin actor.actor_kind
              && (authorize actor (request_of case_id subject_id s actor now c.payload)).allowed)
            ≡ false
      not_entitled s denied =
          let r = request_of case_id subject_id s actor now c.payload in
          elim (Bool-cases (is_patron_admin actor.actor_kind && (authorize actor r).allowed)) [
            | inr e ↦ e
            | inl e ↦
                let a : (authorize actor r).allowed ≡ true = ground (arith, e) in
                absurd (
                  denied (
                    entitled case_id subject_id s actor now c.payload (ground (arith, e))
                      ((authorize-allowed_iff actor r).0 a)))
          ]

      call_financial-refuses :
          (s : FinancialService)
          → ¬ IsEntitled actor (capability_of s)
          → call_financial s exists actor now c db
            ≡ (err (refusal_of case_id subject_id s actor now c.payload), db)
      unfolding create_pricing_import create_report_draft add_report_line publish_report
      call_financial-refuses importing denied =
          serve_existing-refuses _ _ (request_of case_id subject_id importing actor now c.payload) _
            actor now _ c db (not_entitled importing denied)
      call_financial-refuses drafting denied =
          serve_existing-refuses _ _ (request_of case_id subject_id drafting actor now c.payload) _
            actor now _ c db (not_entitled drafting denied)
      call_financial-refuses adding_line denied =
          serve_existing-refuses _ _ (request_of case_id subject_id adding_line actor now c.payload)
            _ actor now _ c db (not_entitled adding_line denied)
      call_financial-refuses publishing denied =
          serve_existing-refuses _ _ (request_of case_id subject_id publishing actor now c.payload)
            _ actor now _ c db (not_entitled publishing denied)

    -- To an actor that is not the patron, or no active member, or without the capability, each of the
    -- four services answers the same error whatever the tables hold and whatever the reader says of
    -- them, and leaves the database as it was.
    pub refusal_tells_nothing :
        (s : FinancialService) (x y : ℕ → P → S → Bool) (actor : ActorContext) (now : ℕ)
        (c : Command P) (db db' : Database S)
        → ¬ IsEntitled actor (capability_of s)
        → ((call_financial s x actor now c db).0 ≡ (call_financial s y actor now c db').0)
          × ((call_financial s x actor now c db).1 ≡ db)
    refusal_tells_nothing s x y actor now c db db' denied =
        let here = call_financial-refuses x actor now c db s denied in
        let there = call_financial-refuses y actor now c db' s denied in
        (ap (λ p. p.0) here ∙ sym (ap (λ p. p.0) there), ap (λ p. p.1) here)
