-- ===== src/Events/Tests.antt =====
-- A message that is tried at most three times, a dispatcher with one handler, and the theorems at
-- them.
use smart_ao_v.Base.{
  ℕ, ◌+◌, ◌≤◌, ◌≡◌, ◌≢◌, eq_iff, refl, String, ◌==◌, str_eq, if◌then◌else◌, Option, none, some,
  List, [], ◌∷◌, arith, true, false,
}
use smart_ao_v.Base.Result.{ok, err}
use smart_ao_v.Events.RetryPolicy.{pending, retry, failed, delay_seconds, seconds, decide_retry}
use smart_ao_v.Events.Outbox.{
  OutboxMessageRecord, Attempt, deleted, delete_failed, sweep, is_due, claim, retry_message,
  publish_message,
}
use smart_ao_v.Events.Backoff.{backoff_is_bounded, IsCounted, attempts_are_bounded, sweep_all}
use smart_ao_v.Events.Dispatcher.{
  DispatchResult, DispatchContext, Command, Database, Handler, idempotency_key_reused,
  refused_by_handler, find_receipt, execute_new, event_ids_from, dispatch,
}
use smart_ao_v.Events.Idempotency
use smart_ao_v.Events.Idempotency.{
  dispatch_here, returned_command_replays, reused_key_is_refused, refused_dispatch_rolls_back,
}
use smart_ao_v.Events.Delivery.{IsDelivered, dispatch_run-IsDelivered}

abbrev message : OutboxMessageRecord
message = record {
  status = pending;
  attempt_count = 0;
  next_attempt_at = none;
  last_error_code = none;
  published_at = none;
}

abbrev stuck : OutboxMessageRecord
stuck = record message {
  status = failed;
  attempt_count = 3;
  last_error_code = some "PRIVATE_DELETE_FAILED";
}

abbrev failures : List (ℕ × Attempt)
failures =
    (0, delete_failed "PRIVATE_DELETE_FAILED")
    ∷ (29999999, deleted)
    ∷ (30000000, delete_failed "PRIVATE_DELETE_FAILED")
    ∷ (90000000, delete_failed "PRIVATE_DELETE_FAILED")
    ∷ (999999999, deleted)
    ∷ []

stuck_after : sweep_all 3 120 failures message ≡ stuck
unfolding sweep_all sweep delay_seconds decide_retry is_due claim retry_message publish_message
stuck_after = refl

backoff_is_bounded_example :
    (next : ℕ) × (decide_retry 1 90 10
      ≡ ok (record { attempt_count = 2; status = retry; next_attempt_at = some next }))
    × (90 + seconds 30 ≤ next)
    × (next ≤ 90 + seconds 3600)
    × (next ≤ 90 + seconds (delay_seconds 3))
backoff_is_bounded_example = backoff_is_bounded 1 90 10 (omega arith) (omega arith)

message-IsCounted : IsCounted 3 message
message-IsCounted = record { bounded = omega arith; stopped = omega arith }

attempts_are_bounded_example : IsCounted 3 (sweep_all 3 120 failures message)
attempts_are_bounded_example =
    attempts_are_bounded 3 120 failures message (omega arith) (omega arith) message-IsCounted

-- A handler that adds a number to its table and tells of it, and refuses to add 0.
abbrev add : Handler ℕ ℕ
add c x total = if c.payload == 0 then (err "NOTHING_TO_ADD", total) else (
  ok (record {
    result_code = "ADDED";
    aggregate_refs = [];
    events =
        record {
          aggregate_type = "Total";
          aggregate_id = 1;
          aggregate_revision = total + c.payload;
          event_type = "Added";
          topic = "cockpit_projection";
          payload_version = 1;
        }
        ∷ [];
  }),
  total + c.payload,
)

abbrev handlers : String → Option (Handler ℕ ℕ)
handlers type = if str_eq type "Add" then some add else none

abbrev request_hash : Command ℕ → String
request_hash c = if c.payload == 0 then "nothing" else if c.payload == 5 then "five" else "more"

abbrev actor : DispatchContext
actor = record {
  tenant_id = 7;
  actor_id = 5;
  actor_kind = "PATRON_ADMIN";
  received_at = 800;
  identity_id = some 2;
  membership_id = some 6;
  session_id = none;
  case_id = none;
  correlation_id = none;
}

abbrev add_five : Command ℕ
add_five = record { command_type = "Add"; command_id = 41; idempotency_key = 51; payload = 5 }

abbrev add_six : Command ℕ
add_six = record add_five { command_id = 42; payload = 6 }

abbrev add_nothing : Command ℕ
add_nothing = record add_five { command_id = 43; idempotency_key = 52; payload = 0 }

abbrev database : Database ℕ
database = record { receipts = []; events = []; outbox = []; next_id = 100; tables = 1 }

abbrev added : DispatchResult
added = record {
  status = "SUCCEEDED";
  command_id = 41;
  idempotency_key = 51;
  result_code = "ADDED";
  aggregate_refs = [];
  event_ids = 100 ∷ [];
  replayed = false;
}

five_added : (dispatch_here request_hash handlers add_five actor database).0 ≡ ok added
unfolding dispatch find_receipt execute_new event_ids_from
five_added = refl

nothing_refused :
    (dispatch_here request_hash handlers add_nothing actor database).0
    ≡ err (refused_by_handler "NOTHING_TO_ADD")
unfolding dispatch find_receipt execute_new
nothing_refused = refl

abbrev traffic : List (Command ℕ × DispatchContext)
traffic = (add_six, actor) ∷ (add_nothing, actor) ∷ (add_five, actor) ∷ []

returned_command_replays_example :
    let later =
      Idempotency.run request_hash handlers traffic
        (dispatch_here request_hash handlers add_five actor database).1 in
    dispatch_here request_hash handlers add_five actor later
    ≡ (ok (record added { replayed = true }), later)
returned_command_replays_example =
    returned_command_replays request_hash handlers add_five actor database added traffic five_added

hashes_differ : request_hash add_six ≢ request_hash add_five
hashes_differ e = let wrong : false ≡ true = (eq_iff "more" "five").1 e in cc

reused_key_is_refused_example :
    let later =
      Idempotency.run request_hash handlers traffic
        (dispatch_here request_hash handlers add_five actor database).1 in
    dispatch_here request_hash handlers add_six actor later ≡ (err idempotency_key_reused, later)
reused_key_is_refused_example =
    reused_key_is_refused request_hash handlers add_five add_six actor database added traffic
      five_added refl refl hashes_differ

database-IsDelivered : IsDelivered database
database-IsDelivered = record { paired = refl; fresh = omega arith }

dispatch_run-IsDelivered_example :
    IsDelivered (Idempotency.run request_hash handlers traffic database)
dispatch_run-IsDelivered_example =
    dispatch_run-IsDelivered request_hash handlers traffic database database-IsDelivered
