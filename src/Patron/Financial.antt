-- ===== src/Patron/Financial.antt =====
-- The services in front of the dispatcher for financial data: those of pricing scenarios and of pricing
-- imports in backend/app/modules/pricing/application, those that create, fill and publish a financial
-- report in backend/app/modules/membership/application, and `SubmissionPackageService.prepare`. Their readers are parameters.
use smart_ao_v.Base.{ℕ, String, Bool, false, not, Option, none, some}
use smart_ao_v.Base.Method.{Method, ◌>>=◌, ◌>>◌, raise_if, gets}
use smart_ao_v.Events.Dispatcher.{Command, Database, DispatchResult, Handler}
use smart_ao_v.Security.Authorization.{
  ActorContext, AuthorizationRequest, financial_private, authorize, is_patron_admin,
}
use smart_ao_v.Patron.Services.{ServiceError, permission, make_request, dispatch_as, serve}

module _ {P S : Type 0} (canonical_request_hash : Command P → String)
    (handlers : String → Option (Handler P S)) where
  -- The test of the actor, the policy, the reader, the dispatch.
  unfoldable pub serve_existing :
      Bool
      → String
      → AuthorizationRequest
      → (S → Bool)
      → ActorContext
      → ℕ
      → Option ℕ
      → Command P
      → Method ServiceError (Database S) DispatchResult
  serve_existing admitted text r exists actor now case c = do
    raise_if (not admitted) (permission text)
    raise_if (not (authorize actor r).allowed) (permission (authorize actor r).code)
    known ← gets (λ db. exists db.tables)
    raise_if (not known) (permission "NOT_FOUND_OR_FORBIDDEN")
    dispatch_as canonical_request_hash handlers actor now case c

  module _ (case_id subject_id : P → ℕ) where
    unfoldable pub write_pricing :
        ActorContext → ℕ → Command P → Method ServiceError (Database S) DispatchResult
    write_pricing actor now c =
        let r =
          make_request "pricing.write" "PRICING_SCENARIO" (subject_id c.payload) financial_private
            (some (case_id c.payload)) false actor now in
        serve canonical_request_hash handlers (is_patron_admin actor.actor_kind) "PATRON_REQUIRED" r
          actor now (some (case_id c.payload)) c

    unfoldable pub transition_pricing :
        ActorContext → ℕ → Command P → Method ServiceError (Database S) DispatchResult
    transition_pricing actor now c =
        let r =
          make_request "pricing.write" "PRICING_SCENARIO" (subject_id c.payload) financial_private
            none false actor now in
        serve canonical_request_hash handlers (is_patron_admin actor.actor_kind) "PATRON_REQUIRED" r
          actor now none c

    -- `SubmissionPackageService.prepare`
    unfoldable pub prepare_submission :
        ActorContext → ℕ → Command P → Method ServiceError (Database S) DispatchResult
    prepare_submission actor now c =
        let r =
          make_request "submission.authorize" "PREPARATION_PACKAGE_SUBMISSION"
            (subject_id c.payload) financial_private none false actor now in
        serve canonical_request_hash handlers (is_patron_admin actor.actor_kind)
          "SUBMISSION_PATRON_REQUIRED" r actor now none c

    unfoldable pub commit_pricing_import :
        ActorContext → ℕ → Command P → Method ServiceError (Database S) DispatchResult
    commit_pricing_import actor now c =
        let r =
          make_request "financial.report.line.write" "PRICING_IMPORT" (subject_id c.payload)
            financial_private (some (case_id c.payload)) false actor now in
        serve canonical_request_hash handlers (is_patron_admin actor.actor_kind)
          "FINANCIAL_REPORT_PATRON_REQUIRED" r actor now (some (case_id c.payload)) c

  module _ (case_id subject_id : P → ℕ) (exists : ℕ → P → S → Bool) where
    unfoldable pub create_pricing_import :
        ActorContext → ℕ → Command P → Method ServiceError (Database S) DispatchResult
    create_pricing_import actor now c =
        let r =
          make_request "financial.report.line.write" "PRICING_IMPORT" (case_id c.payload)
            financial_private (some (case_id c.payload)) false actor now in
        serve_existing (is_patron_admin actor.actor_kind) "PRICING_IMPORT_PATRON_REQUIRED" r
          (exists actor.tenant_id c.payload) actor now (some (case_id c.payload)) c

    unfoldable pub create_report_draft :
        ActorContext → ℕ → Command P → Method ServiceError (Database S) DispatchResult
    create_report_draft actor now c =
        let r =
          make_request "financial.report.create" "CASE_FINANCIAL_REPORT" (case_id c.payload)
            financial_private (some (case_id c.payload)) false actor now in
        serve_existing (is_patron_admin actor.actor_kind) "FINANCIAL_REPORT_PATRON_REQUIRED" r
          (exists actor.tenant_id c.payload) actor now (some (case_id c.payload)) c

    unfoldable pub add_report_line :
        ActorContext → ℕ → Command P → Method ServiceError (Database S) DispatchResult
    add_report_line actor now c =
        let r =
          make_request "financial.report.line.write" "CASE_FINANCIAL_REPORT" (subject_id c.payload)
            financial_private (some (case_id c.payload)) false actor now in
        serve_existing (is_patron_admin actor.actor_kind) "FINANCIAL_REPORT_PATRON_REQUIRED" r
          (exists actor.tenant_id c.payload) actor now (some (case_id c.payload)) c

    unfoldable pub publish_report :
        ActorContext → ℕ → Command P → Method ServiceError (Database S) DispatchResult
    publish_report actor now c =
        let r =
          make_request "financial.report.publish" "CASE_FINANCIAL_REPORT" (subject_id c.payload)
            financial_private (some (case_id c.payload)) false actor now in
        serve_existing (is_patron_admin actor.actor_kind) "FINANCIAL_REPORT_PATRON_REQUIRED" r
          (exists actor.tenant_id c.payload) actor now (some (case_id c.payload)) c
