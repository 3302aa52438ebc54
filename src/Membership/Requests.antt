-- ===== src/Membership/Requests.antt =====
-- The requests for information of
-- backend/app/modules/membership/application/collab_info_blockers_handler.py. `str.lower` and the
-- text of a UUID are parameters.
use smart_ao_v.Base.{
  ℕ, ◌+◌, String, Bool, not, ◌&&◌, ◌||◌, Option, none, some, [], ◌∷◌, ◌++◌, ◌==◌, str_eq, find,
  update_first, if◌then◌else◌, strip,
}
use smart_ao_v.Base.Method.{Method, pure, ◌>>=◌, ◌>>◌, raise_if, gets, modify}
use smart_ao_v.Membership.Rows.{
  CollaboratorTaskRecord, CollaboratorInformationRequestRecord,
  CollaboratorInformationResponseRecord, Tables, CommandContext, WorkError, not_found_or_forbidden,
  version_conflict, task_not_active, request_not_open, Value, text, PendingDomainEvent,
  HandlerOutcome, events_of, or_raise, is_task,
}
use smart_ao_v.Membership.Assignment.{ensure_assignment}
use Prim.Native.String

pub record CreateInformationRequest : Type 0 where
  pub request_id : ℕ
  pub task_id : ℕ
  pub expected_task_revision : ℕ
  pub request_kind : String
  pub subject : String
  pub question : String
  pub requested_object : String
  pub reason : String
  pub priority : String
  pub due_at : Option ℕ
  pub command_id : ℕ
  pub correlation_id : Option ℕ

pub record RecordInformationRequestResponse : Type 0 where
  pub request_id : ℕ
  pub expected_revision : ℕ
  pub outcome : String
  pub response_text : String
  pub source_locator : Option String
  pub command_id : ℕ
  pub correlation_id : Option ℕ

pub data InformationCommand : Type 0 where
  create_information_request : CreateInformationRequest → InformationCommand
  record_information_response : RecordInformationRequestResponse → InformationCommand

abbrev pub is_request : ℕ → ℕ → CollaboratorInformationRequestRecord → Bool
is_request tenant id r = r.tenant_id == tenant && r.id == id

abbrev pub is_same_request : ℕ → ℕ → String → CollaboratorInformationRequestRecord → Bool
is_same_request tenant task key r =
    r.tenant_id == tenant && r.task_id == task && str_eq r.functional_key key

-- `_request_outcome`
abbrev pub request_outcome :
    CollaboratorInformationRequestRecord → Option PendingDomainEvent → HandlerOutcome
request_outcome r event = record {
  result_code =
      if str_eq r.state "ANSWERED"
      then "INFORMATION_REQUEST_ANSWERED"
      else "INFORMATION_REQUEST_CREATED";
  aggregate_type = "InformationRequest";
  aggregate_id = r.id;
  aggregate_revision = r.aggregate_revision;
  events = events_of event;
}

abbrev pub make_request :
    CreateInformationRequest
    → CommandContext
    → CollaboratorTaskRecord
    → String
    → CollaboratorInformationRequestRecord
make_request m c t key = record {
  id = m.request_id;
  tenant_id = c.tenant_id;
  task_id = t.id;
  request_kind = m.request_kind;
  subject = m.subject;
  question = m.question;
  requested_object = m.requested_object;
  reason = m.reason;
  priority = m.priority;
  state = "OPEN";
  functional_key = key;
  due_at = m.due_at;
  aggregate_revision = 0;
  actor_id = c.actor_id;
  membership_id = c.membership_id;
  command_id = m.command_id;
  correlation_id = m.correlation_id;
}

abbrev pub make_response :
    RecordInformationRequestResponse
    → CommandContext
    → CollaboratorInformationRequestRecord
    → CollaboratorInformationResponseRecord
make_response m c r = record {
  id = m.command_id;
  tenant_id = c.tenant_id;
  request_id = r.id;
  request_revision = r.aggregate_revision + 1;
  outcome = m.outcome;
  response_text = m.response_text;
  source_locator = m.source_locator;
  actor_id = c.actor_id;
  membership_id = c.membership_id;
  command_id = m.command_id;
  correlation_id = m.correlation_id;
}

module _ (uuid_text : ℕ → String) (lower_text : String → String) where
  abbrev pub request_event :
      CollaboratorInformationRequestRecord → String → (String × Value) → PendingDomainEvent
  request_event r event_type last = record {
    aggregate_type = "InformationRequest";
    aggregate_id = r.id;
    aggregate_revision = r.aggregate_revision;
    event_type = event_type;
    payload =
        ("request_id", text (uuid_text r.id))
        ∷ ("task_id", text (uuid_text r.task_id))
        ∷ ("state", text r.state)
        ∷ last
        ∷ [];
  }

  abbrev pub reuse_or_request :
      Option CollaboratorInformationRequestRecord
      → CollaboratorInformationRequestRecord
      → Method WorkError Tables HandlerOutcome
  reuse_or_request none r = do
    modify (λ d. record d { requests = d.requests ++ r ∷ [] })
    pure (
        request_outcome r (
          some (request_event r "InformationRequestCreated" ("request_kind", text r.request_kind))))
  reuse_or_request (some existing) r = pure (request_outcome existing none)

  -- `_create_request`
  unfoldable pub create_request :
      CreateInformationRequest → CommandContext → Method WorkError Tables HandlerOutcome
  create_request m c = do
    d ← gets (λ d. d)
    t ← or_raise not_found_or_forbidden (find (is_task c.tenant_id m.task_id) d.tasks)
    ensure_assignment t c
    raise_if (not (t.aggregate_revision == m.expected_task_revision)) version_conflict
    raise_if (str_eq t.state "COMPLETED" || str_eq t.state "ABANDONED") task_not_active
    let key = String.◌++◌ m.request_kind (String.◌++◌ ":" (lower_text (strip m.requested_object)))
    reuse_or_request (find (is_same_request c.tenant_id t.id key) d.requests)
        (make_request m c t key)

  -- `_record_response`
  unfoldable pub record_response :
      RecordInformationRequestResponse → CommandContext → Method WorkError Tables HandlerOutcome
  record_response m c = do
    d ← gets (λ d. d)
    r ← or_raise not_found_or_forbidden (find (is_request c.tenant_id m.request_id) d.requests)
    t ← or_raise not_found_or_forbidden (find (is_task c.tenant_id r.task_id) d.tasks)
    ensure_assignment t c
    raise_if (not (r.aggregate_revision == m.expected_revision)) version_conflict
    raise_if (not (str_eq r.state "OPEN")) request_not_open
    let r' = record r { state = "ANSWERED"; aggregate_revision = r.aggregate_revision + 1 }
    modify (λ d. record d {
      responses = d.responses ++ make_response m c r ∷ [];
      requests =
          update_first (is_request c.tenant_id m.request_id)
            (λ r. record r { state = "ANSWERED"; aggregate_revision = r.aggregate_revision + 1 })
            d.requests;
    })
    pure (
        request_outcome r'
          (some (request_event r' "RequestResponseReceived" ("outcome", text m.outcome))))

  unfoldable pub handle_request :
      InformationCommand → CommandContext → Method WorkError Tables HandlerOutcome
  unfolding create_request record_response ensure_assignment
  handle_request (create_information_request m) c = create_request m c
  handle_request (record_information_response m) c = record_response m c
