-- ===== src/Events/Delivery.antt =====
-- Each event of a committed command has its message in the outbox:
-- backend/app/platform/events/dispatcher.py, through any sequence of dispatched commands.
use smart_ao_v.Base.{
  ℕ, ◌+◌, ◌≤◌, ◌≡◌, ◌∙◌, refl, sym, ap, inl, inr, String, Option, List, [], ◌∷◌, ◌++◌, arith, map,
}
use mathlib.Core.List.{map-append}
use smart_ao_v.Events.Dispatcher.{
  PendingDomainEvent, HandlerOutcome, DomainEventRecord, OutboxRecord, DispatchContext, Command,
  Database, event_rows, outbox_rows, after_events, Handler, commit,
}
use smart_ao_v.Events.Idempotency.{dispatch_here, dispatch-cases, run}

abbrev pub ids : List DomainEventRecord → List ℕ
ids rows = map (λ e. e.id) rows

abbrev pub delivered : List OutboxRecord → List ℕ
delivered rows = map (λ m. m.event_id) rows

ids-append : (a b : List DomainEventRecord) → ids (a ++ b) ≡ ids a ++ ids b
ids-append a b = map-append (λ e. e.id) a b

delivered-append : (a b : List OutboxRecord) → delivered (a ++ b) ≡ delivered a ++ delivered b
delivered-append a b = map-append (λ m. m.event_id) a b

-- The identifiers grow and stay below a bound.
abbrev pub IsRising : List ℕ → ℕ → ℕ → Type 0
IsRising [] low high = low ≤ high
IsRising (n ∷ rest) low high = (low ≤ n) × IsRising rest (n + 1) high

rows_paired :
    (x : DispatchContext) (command n : ℕ) (events : List PendingDomainEvent)
    → delivered (outbox_rows x n events) ≡ ids (event_rows x command n events)
unfolding event_rows outbox_rows
rows_paired x command n [] = refl
rows_paired x command n (e ∷ events) = ap (λ k. n ∷ k) (rows_paired x command (n + 2) events)

rising-weaken :
    (xs : List ℕ) (low low' high : ℕ) → low' ≤ low → IsRising xs low high → IsRising xs low' high
rising-weaken [] low low' high h r = omega arith
rising-weaken (n ∷ rest) low low' high h (a, r) = (omega arith, r)

rows-IsRising :
    (x : DispatchContext) (command n : ℕ) (events : List PendingDomainEvent)
    → IsRising (ids (event_rows x command n events)) n (after_events n events)
unfolding event_rows
rows-IsRising x command n [] = omega arith
rows-IsRising x command n (e ∷ events) = (
  omega arith,
  rising-weaken (ids (event_rows x command (n + 2) events)) (n + 2) (n + 1)
      (after_events (n + 2) events) (omega arith) (rows-IsRising x command (n + 2) events),
)

append-IsRising :
    (xs ys : List ℕ) (low mid high : ℕ)
    → IsRising xs low mid
    → IsRising ys mid high
    → IsRising (xs ++ ys) low high
append-IsRising [] ys low mid high a b = rising-weaken ys mid low high a b
append-IsRising (n ∷ rest) ys low mid high (a, r) b =
    (a, append-IsRising rest ys (n + 1) mid high r b)

-- The outbox has one message for each event, in the same order, and no identifier of an event is
-- used twice.
pub record IsDelivered {S : Type 0} (db : Database S) : Type 0 where
  pub paired : delivered db.outbox ≡ ids db.events
  pub fresh : IsRising (ids db.events) 0 db.next_id

module _ {P S : Type 0} (canonical_request_hash : Command P → String)
    (handlers : String → Option (Handler P S)) where
  commit-IsDelivered :
      (hash : String) (c : Command P) (x : DispatchContext) (o : HandlerOutcome) (t : S)
      (db : Database S)
      → IsDelivered db
      → IsDelivered (commit hash c x o t db)
  unfolding commit
  commit-IsDelivered hash c x o t db k =
      let rows = event_rows x c.command_id db.next_id o.events in
      let split = ids-append db.events rows in
      record {
        paired =
            delivered-append db.outbox (outbox_rows x db.next_id o.events)
            ∙ rw (k.paired, rows_paired x c.command_id db.next_id o.events) (sym split);
        fresh = rw split (
            append-IsRising (ids db.events) (ids rows) 0 db.next_id
              (after_events db.next_id o.events) k.fresh
              (rows-IsRising x c.command_id db.next_id o.events));
      }

  dispatch-IsDelivered :
      (c : Command P) (x : DispatchContext) (db : Database S)
      → IsDelivered db
      → IsDelivered (dispatch_here canonical_request_hash handlers c x db).1
  dispatch-IsDelivered c x db k = elim (dispatch-cases canonical_request_hash handlers c x db) [
    | inl (same, _) ↦ rw same k
    | inr (o, t, fresh, done) ↦ rw done (commit-IsDelivered (canonical_request_hash c) c x o t db k)
  ]

  -- If it holds at first, every sequence of dispatched commands, refused ones included, keeps one
  -- message in the outbox for each event, in the order of the events, and the identifiers of the
  -- events distinct.
  pub dispatch_run-IsDelivered :
      (commands : List (Command P × DispatchContext)) (db : Database S)
      → IsDelivered db
      → IsDelivered (run canonical_request_hash handlers commands db)
  unfolding run
  dispatch_run-IsDelivered [] db k = k
  dispatch_run-IsDelivered ((c, x) ∷ commands) db k =
      dispatch_run-IsDelivered commands (dispatch_here canonical_request_hash handlers c x db).1
        (dispatch-IsDelivered c x db k)
