-- ===== src/Events/Dispatcher.antt =====
-- `CommandDispatcher` of backend/app/platform/events/dispatcher.py. A transaction that raises leaves
-- the database as it was. `uuid4` is a supply of numbers that were not used before. The request hash
-- and the handlers with their tables are parameters.
use smart_ao_v.Base.{
  ℕ, ◌+◌, String, Bool, true, false, not, ◌&&◌, Option, none, some, List, [], ◌∷◌, ◌++◌, ◌==◌,
  str_eq, if◌then◌else◌,
}
use smart_ao_v.Base.Result.{Result, ok, err}

pub record PendingDomainEvent : Type 0 where
  pub aggregate_type : String
  pub aggregate_id : ℕ
  pub aggregate_revision : ℕ
  pub event_type : String
  pub topic : String
  pub payload_version : ℕ

pub record AggregateRef : Type 0 where
  pub aggregate_type : String
  pub aggregate_id : ℕ
  pub aggregate_revision : ℕ

pub record HandlerOutcome : Type 0 where
  pub result_code : String
  pub aggregate_refs : List AggregateRef
  pub events : List PendingDomainEvent

-- The response that a receipt keeps, and that is replayed.
pub record ReceiptBody : Type 0 where
  pub status : String
  pub command_id : ℕ
  pub idempotency_key : ℕ
  pub result_code : String
  pub aggregate_refs : List AggregateRef
  pub event_ids : List ℕ

pub record DispatchResult : Type 0 where
  pub status : String
  pub command_id : ℕ
  pub idempotency_key : ℕ
  pub result_code : String
  pub aggregate_refs : List AggregateRef
  pub event_ids : List ℕ
  pub replayed : Bool

unfoldable pub as_receipt_body : DispatchResult → ReceiptBody
as_receipt_body r = record {
  status = r.status;
  command_id = r.command_id;
  idempotency_key = r.idempotency_key;
  result_code = r.result_code;
  aggregate_refs = r.aggregate_refs;
  event_ids = r.event_ids;
}

unfoldable pub from_receipt : ReceiptBody → Bool → DispatchResult
from_receipt b replayed' = record {
  status = b.status;
  command_id = b.command_id;
  idempotency_key = b.idempotency_key;
  result_code = b.result_code;
  aggregate_refs = b.aggregate_refs;
  event_ids = b.event_ids;
  replayed = replayed';
}

pub record CommandReceiptRecord : Type 0 where
  pub tenant_id : ℕ
  pub actor_id : ℕ
  pub command_id : ℕ
  pub command_type : String
  pub idempotency_key : ℕ
  pub request_hash : String
  pub status : String
  pub response_body : Option ReceiptBody

pub record DomainEventRecord : Type 0 where
  pub id : ℕ
  pub tenant_id : ℕ
  pub event : PendingDomainEvent
  pub actor_id : ℕ
  pub command_id : ℕ

pub record OutboxRecord : Type 0 where
  pub id : ℕ
  pub tenant_id : ℕ
  pub event_id : ℕ
  pub topic : String
  pub status : String
  pub attempt_count : ℕ

pub record DispatchContext : Type 0 where
  pub tenant_id : ℕ
  pub actor_id : ℕ
  pub actor_kind : String
  pub received_at : ℕ
  pub identity_id : Option ℕ
  pub membership_id : Option ℕ
  pub session_id : Option ℕ
  pub case_id : Option ℕ
  pub correlation_id : Option ℕ

-- A command: its type, its identifiers and the rest of it.
pub record Command (P : Type 0) : Type 0 where
  pub command_type : String
  pub command_id : ℕ
  pub idempotency_key : ℕ
  pub payload : P

-- The tables: `tables` are those of the handlers, and `next_id` the first number not used.
pub record Database (S : Type 0) : Type 0 where
  pub receipts : List CommandReceiptRecord
  pub events : List DomainEventRecord
  pub outbox : List OutboxRecord
  pub next_id : ℕ
  pub tables : S

pub data DispatchError : Type 0 where
  unsupported_command_type idempotency_key_reused command_in_progress : DispatchError
  failed_before_commit : DispatchError
  refused_by_handler : String → DispatchError

unfoldable pub find_receipt :
    ℕ → ℕ → String → ℕ → List CommandReceiptRecord → Option CommandReceiptRecord
find_receipt tenant actor type key [] = none
find_receipt tenant actor type key (r ∷ rows) =
    if r.tenant_id == tenant
      && (r.actor_id == actor && (str_eq r.command_type type && r.idempotency_key == key))
    then some r
    else find_receipt tenant actor type key rows

-- `_resolve_existing_receipt`; a receipt without a body raises a `KeyError`
unfoldable pub resolve_existing_receipt :
    String → CommandReceiptRecord → Result DispatchError DispatchResult
resolve_existing_receipt hash r =
    if not (str_eq r.request_hash hash)
    then err idempotency_key_reused
    else if str_eq r.status "SUCCEEDED"
    then elim r.response_body [
      | none ↦ err failed_before_commit
      | some b ↦ ok (from_receipt b true)
    ]
    else err command_in_progress

-- The rows of `_persist_events_and_outbox`, with two new identifiers for each event.
unfoldable pub event_rows :
    DispatchContext → ℕ → ℕ → List PendingDomainEvent → List DomainEventRecord
event_rows x command n [] = []
event_rows x command n (e ∷ events) =
    record {
      id = n;
      tenant_id = x.tenant_id;
      event = e;
      actor_id = x.actor_id;
      command_id = command;
    }
    ∷ event_rows x command (n + 2) events

unfoldable pub outbox_rows : DispatchContext → ℕ → List PendingDomainEvent → List OutboxRecord
outbox_rows x n [] = []
outbox_rows x n (e ∷ events) =
    record {
      id = n + 1;
      tenant_id = x.tenant_id;
      event_id = n;
      topic = e.topic;
      status = "PENDING";
      attempt_count = 0;
    }
    ∷ outbox_rows x (n + 2) events

unfoldable pub event_ids_from : ℕ → List PendingDomainEvent → List ℕ
event_ids_from n [] = []
event_ids_from n (e ∷ events) = n ∷ event_ids_from (n + 2) events

abbrev pub after_events : ℕ → List PendingDomainEvent → ℕ
after_events n [] = n
after_events n (e ∷ events) = after_events (n + 2) events

abbrev pub Handler : Type 0 → Type 0 → Type 0
Handler P S = Command P → DispatchContext → S → Result String HandlerOutcome × S

module _ {P : Type 0} where
  abbrev pub result_of : Command P → HandlerOutcome → ℕ → DispatchResult
  result_of c o n = record {
    status = "SUCCEEDED";
    command_id = c.command_id;
    idempotency_key = c.idempotency_key;
    result_code = o.result_code;
    aggregate_refs = o.aggregate_refs;
    event_ids = event_ids_from n o.events;
    replayed = false;
  }

  -- The receipt as it is committed, with its response.
  abbrev pub receipt_of :
      String → Command P → DispatchContext → DispatchResult → CommandReceiptRecord
  receipt_of hash c x r = record {
    tenant_id = x.tenant_id;
    actor_id = x.actor_id;
    command_id = c.command_id;
    command_type = c.command_type;
    idempotency_key = c.idempotency_key;
    request_hash = hash;
    status = "SUCCEEDED";
    response_body = some (as_receipt_body r);
  }

module _ {P S : Type 0} where
  -- What is committed after the handler returns.
  unfoldable pub commit :
      String → Command P → DispatchContext → HandlerOutcome → S → Database S → Database S
  commit hash c x o tables' db = record {
    receipts = db.receipts ++ receipt_of hash c x (result_of c o db.next_id) ∷ [];
    events = db.events ++ event_rows x c.command_id db.next_id o.events;
    outbox = db.outbox ++ outbox_rows x db.next_id o.events;
    next_id = after_events db.next_id o.events;
    tables = tables';
  }

  -- The transaction for a command whose handler is known and that has no receipt.
  unfoldable pub execute_new :
      String
      → Handler P S
      → Command P
      → DispatchContext
      → Database S
      → Result DispatchError DispatchResult × Database S
  execute_new hash handler c x db =
      let (outcome, tables') = handler c x db.tables in
      elim outcome [
        | err e ↦ (err (refused_by_handler e), db)
        | ok o ↦ (ok (result_of c o db.next_id), commit hash c x o tables' db)
      ]

  module _ (canonical_request_hash : Command P → String)
      (handlers : String → Option (Handler P S)) where
    -- `CommandDispatcher.dispatch`
    unfoldable pub dispatch :
        Command P → DispatchContext → Database S → Result DispatchError DispatchResult × Database S
    unfolding execute_new
    dispatch c x db = elim (handlers c.command_type) [
      | none ↦ (err unsupported_command_type, db)
      | some handler ↦
          let hash = canonical_request_hash c in
          elim (find_receipt x.tenant_id x.actor_id c.command_type c.idempotency_key db.receipts) [
            | some r ↦ (resolve_existing_receipt hash r, db)
            | none ↦ execute_new hash handler c x db
          ]
    ]
