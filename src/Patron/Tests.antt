-- ===== src/Patron/Tests.antt =====
-- A patron of tenant 7 who finalizes a decision, and one who wants to sign.
use smart_ao_v.Events.Dispatcher.{commit, find_receipt, dispatch, Command, Database, Handler}
use smart_ao_v.Security.Authorization.{
  authorize, ActorContext, patron_admin, patron_delegate, active,
}
use smart_ao_v.Patron.Services.{
  serve, ServiceError, permission, dispatch_as, finalize_decision, sign, register_risk,
}
use smart_ao_v.Base.{
  arith, Bool, ℕ, arith, Bool, ◌≡◌, ◌⊎◌, refl, String, true, false, Option, none, some, [], str_eq,
  ◌||◌,
}
use smart_ao_v.Base.Result.{ok, err}
use smart_ao_v.Patron.Confidential.{publishing, call_financial, refusal_tells_nothing}
use smart_ao_v.Patron.Access.{MayFinalize, finalize_decision_iff, sign_never_dispatches}

abbrev patron : ActorContext
patron = record {
  actor_id = 1;
  identity_id = 2;
  tenant_id = 7;
  membership_id = 3;
  actor_kind = patron_admin;
  membership_state = active;
  capabilities = λ a. str_eq a "decision.finalize" || str_eq a "submission.signature.write";
  assigned_case_ids = λ i. false;
  session_id = none;
  authenticated_at = 0;
  mfa_verified_at = some 1000;
  correlation_id = 9;
  assignment_scopes = [];
}

-- A handler that stores the decision of the command.
abbrev finalize : Handler ℕ ℕ
finalize c x old = (
  ok (record { result_code = "GO_NO_GO_FINALIZED"; aggregate_refs = []; events = [] }),
  c.payload,
)

abbrev handlers : String → Option (Handler ℕ ℕ)
handlers type = some finalize

abbrev hash : Command ℕ → String
hash c = "hash"

abbrev case_of : ℕ → ℕ
case_of n = 30

abbrev itself : ℕ → ℕ
itself n = n

abbrev no_provider : ℕ → Option String
no_provider n = none

abbrev command : Command ℕ
command = record {
  command_type = "FinalizeGoNoGoDecision";
  command_id = 41;
  idempotency_key = 51;
  payload = 50;
}

abbrev database : Database ℕ
database = record { receipts = []; events = []; outbox = []; next_id = 100; tables = 1 }

finalized :
    (finalize_decision hash handlers case_of itself patron 2000 command database).1.tables ≡ 50
unfolding finalize_decision serve authorize dispatch_as dispatch find_receipt commit
finalized = refl

-- Without the capability the patron may not register a risk.
not_capable :
    register_risk hash handlers case_of itself patron 2000 command database
    ≡ (err (permission "AUTHORIZATION_DENIED"), database)
unfolding register_risk serve authorize
not_capable = refl

finalize_decision_iff_example :
    (MayFinalize patron 2000
      × (finalize_decision hash handlers case_of itself patron 2000 command database
          ≡ dispatch_as hash handlers patron 2000 (some 30) command database))
    ⊎ (¬ MayFinalize patron 2000)
      × ((code : String) × (finalize_decision hash handlers case_of itself patron 2000 command
              database
            ≡ (err (permission code), database)))
finalize_decision_iff_example =
    finalize_decision_iff hash handlers case_of itself patron 2000 command database

sign_never_dispatches_example :
    (e : ServiceError) × (sign hash handlers case_of itself no_provider "YOUSIGN" patron 2000
        command database
      ≡ (err e, database))
sign_never_dispatches_example =
    sign_never_dispatches hash handlers case_of itself no_provider "YOUSIGN" patron 2000 command
      database

abbrev delegate : ActorContext
delegate = record patron { actor_kind = patron_delegate; capabilities = λ a. true }

-- A reader that knows the report of its tenant, and one that knows none.
abbrev knows_all : ℕ → ℕ → ℕ → Bool
knows_all tenant c tables = true

abbrev knows_none : ℕ → ℕ → ℕ → Bool
knows_none tenant c tables = false

refusal_tells_nothing_example :
    ((call_financial hash handlers case_of itself publishing knows_all delegate 2000 command
        database).0
      ≡ (call_financial hash handlers case_of itself publishing knows_none delegate 2000 command
          database).0)
    × ((call_financial hash handlers case_of itself publishing knows_all delegate 2000 command
          database).1
        ≡ database)
refusal_tells_nothing_example =
    refusal_tells_nothing hash handlers case_of itself publishing knows_all knows_none delegate 2000
      command database database (λ (kind, member, capable). ground (arith, kind))
