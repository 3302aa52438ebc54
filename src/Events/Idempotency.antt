-- ===== src/Events/Idempotency.antt =====
-- Commands are executed once: backend/app/platform/events/dispatcher.py, through any sequence of
-- dispatched commands.
use smart_ao_v.Base.{
  ℕ, ◌≡◌, ◌≢◌, refl, sym, ap, ◌⊎◌, inl, inr, String, Bool, true, Option, none, some, List, [], ◌∷◌,
  ◌++◌, arith, eq_iff, Option-cases,
}
use smart_ao_v.Base.Result.{Result, ok, err, Result-cases}
use smart_ao_v.Events.Dispatcher.{
  HandlerOutcome, ReceiptBody, DispatchResult, as_receipt_body, from_receipt, CommandReceiptRecord,
  DispatchContext, Command, Database, DispatchError, idempotency_key_reused, find_receipt,
  resolve_existing_receipt, Handler, result_of, receipt_of, commit, execute_new, dispatch,
}

find_receipt-append :
    (t a : ℕ) (y : String) (k : ℕ) (rows more : List CommandReceiptRecord)
    (r : CommandReceiptRecord)
    → find_receipt t a y k rows ≡ some r
    → find_receipt t a y k (rows ++ more) ≡ some r
unfolding find_receipt
find_receipt-append t a y k [] more r h = ground arith
find_receipt-append t a y k (q ∷ rows) more r h =
    ground (arith, find_receipt-append t a y k rows more r)

find_receipt-snoc :
    (t a : ℕ) (y : String) (k : ℕ) (rows : List CommandReceiptRecord) (r : CommandReceiptRecord)
    → find_receipt t a y k rows ≡ none
    → r.tenant_id ≡ t
    → r.actor_id ≡ a
    → r.command_type ≡ y
    → r.idempotency_key ≡ k
    → find_receipt t a y k (rows ++ r ∷ []) ≡ some r
unfolding find_receipt
find_receipt-snoc t a y k [] r h e f g i = ground (arith, eq_iff r.command_type y)
find_receipt-snoc t a y k (q ∷ rows) r h e f g i = ground (arith, find_receipt-snoc t a y k rows r)

body-from_receipt : (b : ReceiptBody) (s : Bool) → as_receipt_body (from_receipt b s) ≡ b
unfolding as_receipt_body from_receipt
body-from_receipt b s = refl

receipt-replayed :
    (r : DispatchResult) → from_receipt (as_receipt_body r) true ≡ record r { replayed = true }
unfolding as_receipt_body from_receipt
receipt-replayed r = refl

module _ {P S : Type 0} (canonical_request_hash : Command P → String)
    (handlers : String → Option (Handler P S)) where
  abbrev pub dispatch_here :
      Command P → DispatchContext → Database S → Result DispatchError DispatchResult × Database S
  dispatch_here c x db = dispatch canonical_request_hash handlers c x db

  unfoldable pub run : List (Command P × DispatchContext) → Database S → Database S
  run [] db = db
  run ((c, x) ∷ commands) db = run commands (dispatch_here c x db).1

  -- The receipt of a command.
  abbrev pub receipt_for : Command P → DispatchContext → Database S → Option CommandReceiptRecord
  receipt_for c x db =
      find_receipt x.tenant_id x.actor_id c.command_type c.idempotency_key db.receipts

  -- A call commits an execution, or it leaves the database as it was and returns at most what a
  -- receipt says.
  pub dispatch-cases :
      (c : Command P) (x : DispatchContext) (db : Database S)
      → (((dispatch_here c x db).1 ≡ db)
          × ((result : DispatchResult)
              → (dispatch_here c x db).0 ≡ ok result
              → (r : CommandReceiptRecord) × (receipt_for c x db ≡ some r)
                × (resolve_existing_receipt (canonical_request_hash c) r ≡ ok result)))
        ⊎ ((o : HandlerOutcome) × (t : S) × (receipt_for c x db ≡ none)
            × (dispatch_here c x db
                ≡ (ok (result_of c o db.next_id), commit (canonical_request_hash c) c x o t db)))
  unfolding dispatch execute_new
  dispatch-cases c x db = elim (Option-cases (handlers c.command_type)) [
    | inl e ↦ inl (ground (arith, e), λ result h. absurd (ground (arith, e)))
    | inr (handler, e) ↦ elim (Option-cases (receipt_for c x db)) [
      | inr (r', f) ↦ inl (ground (arith, e, f), λ result h. (r', f, ground (arith, e, f)))
      | inl f ↦ elim (Result-cases (handler c x db.tables).0) [
        | inl (o, g) ↦ inr (o, (handler c x db.tables).1, f, ground (arith, e, f, g))
        | inr (u, g) ↦ inl (ground (arith, e, f, g), λ result h. absurd (ground (arith, e, f, g)))
      ]
    ]
  ]

  dispatch-keeps_receipt :
      (c c' : Command P) (x x' : DispatchContext) (db : Database S) (r : CommandReceiptRecord)
      → receipt_for c x db ≡ some r
      → receipt_for c x (dispatch_here c' x' db).1 ≡ some r
  unfolding commit
  dispatch-keeps_receipt c c' x x' db r h = elim (dispatch-cases c' x' db) [
    | inl (same, _) ↦ rw same h
    | inr (o, t, fresh, done) ↦ rw done (
        find_receipt-append x.tenant_id x.actor_id c.command_type c.idempotency_key db.receipts
          (receipt_of (canonical_request_hash c') c' x' (result_of c' o db.next_id) ∷ []) r h)
  ]

  run-keeps_receipt :
      (commands : List (Command P × DispatchContext)) (c : Command P) (x : DispatchContext)
      (db : Database S) (r : CommandReceiptRecord)
      → receipt_for c x db ≡ some r
      → receipt_for c x (run commands db) ≡ some r
  unfolding run
  run-keeps_receipt [] c x db r h = h
  run-keeps_receipt ((c', x') ∷ commands) c x db r h =
      run-keeps_receipt commands c x (dispatch_here c' x' db).1 r
        (dispatch-keeps_receipt c c' x x' db r h)

  -- What a receipt says once a command has returned.
  record Certifies (c : Command P) (result : DispatchResult) (r : CommandReceiptRecord)
      : Type 0 where
    same_hash : r.request_hash ≡ canonical_request_hash c
    succeeded : r.status ≡ "SUCCEEDED"
    same_body : r.response_body ≡ some (as_receipt_body result)

  replay-Certifies :
      (c : Command P) (r : CommandReceiptRecord) (result : DispatchResult)
      → resolve_existing_receipt (canonical_request_hash c) r ≡ ok result
      → Certifies c result r
  unfolding resolve_existing_receipt
  replay-Certifies c r result h = elim (Option-cases r.response_body) [
    | inl e ↦ absurd (ground (arith, e))
    | inr (b, e) ↦
        let same : result ≡ from_receipt b true = ground (arith, e) in
        record {
          same_hash = ground (arith, eq_iff r.request_hash (canonical_request_hash c));
          succeeded = ground (arith, eq_iff r.status "SUCCEEDED");
          same_body = rw (same, body-from_receipt b true) e;
        }
  ]

  returned-Certifies :
      (c : Command P) (x : DispatchContext) (db : Database S) (result : DispatchResult)
      → (dispatch_here c x db).0 ≡ ok result
      → (r : CommandReceiptRecord) × (receipt_for c x (dispatch_here c x db).1 ≡ some r)
        × Certifies c result r
  unfolding dispatch commit
  returned-Certifies c x db result h = elim (dispatch-cases c x db) [
    | inr (o, t, fresh, done) ↦
        let written = receipt_of (canonical_request_hash c) c x (result_of c o db.next_id) in
        let same : result ≡ result_of c o db.next_id = ground (arith, done, h) in
        (
          written,
          rw done (
              find_receipt-snoc x.tenant_id x.actor_id c.command_type c.idempotency_key db.receipts
                written fresh refl refl refl refl),
          record {
            same_hash = refl;
            succeeded = refl;
            same_body = ap (λ k. some (as_receipt_body k)) (sym same);
          },
        )
    | inl (same, replayed) ↦
        let (r, f, resolved) = replayed result h in
        (r, rw same f, replay-Certifies c r result resolved)
  ]

  certified_replays :
      (c : Command P) (x : DispatchContext) (db : Database S) (handler : Handler P S)
      (r : CommandReceiptRecord) (result : DispatchResult)
      → handlers c.command_type ≡ some handler
      → receipt_for c x db ≡ some r
      → Certifies c result r
      → dispatch_here c x db ≡ (ok (record result { replayed = true }), db)
  unfolding dispatch resolve_existing_receipt
  certified_replays c x db handler r result e f k = ground (
    arith,
    e,
    f,
    k.same_hash,
    k.succeeded,
    k.same_body,
    receipt-replayed result,
    eq_iff r.request_hash (canonical_request_hash c),
    eq_iff r.status "SUCCEEDED",
  )

  returned-handler :
      (c : Command P) (x : DispatchContext) (db : Database S) (result : DispatchResult)
      → (dispatch_here c x db).0 ≡ ok result
      → (handler : Handler P S) × (handlers c.command_type ≡ some handler)
  unfolding dispatch
  returned-handler c x db result h = elim (Option-cases (handlers c.command_type)) [
    | inl e ↦ absurd (ground (arith, e))
    | inr found ↦ found
  ]

  -- A command that has returned is never executed again: whatever is dispatched in between,
  -- sending it again in its context returns the same response, marked as replayed, and writes
  -- nothing.
  pub returned_command_replays :
      (c : Command P) (x : DispatchContext) (db : Database S) (result : DispatchResult)
      (commands : List (Command P × DispatchContext))
      → (dispatch_here c x db).0 ≡ ok result
      → let later = run commands (dispatch_here c x db).1 in
        dispatch_here c x later ≡ (ok (record result { replayed = true }), later)
  returned_command_replays c x db result commands h =
      let later = run commands (dispatch_here c x db).1 in
      let (handler, e) = returned-handler c x db result h in
      let (r, f, k) = returned-Certifies c x db result h in
      certified_replays c x later handler r result e
        (run-keeps_receipt commands c x (dispatch_here c x db).1 r f) k

  certified_refuses :
      (c c' : Command P) (x : DispatchContext) (db : Database S) (handler : Handler P S)
      (r : CommandReceiptRecord) (result : DispatchResult)
      → handlers c'.command_type ≡ some handler
      → receipt_for c' x db ≡ some r
      → Certifies c result r
      → canonical_request_hash c' ≢ canonical_request_hash c
      → dispatch_here c' x db ≡ (err idempotency_key_reused, db)
  unfolding dispatch resolve_existing_receipt
  certified_refuses c c' x db handler r result e f k n =
      ground (arith, e, f, k.same_hash, eq_iff r.request_hash (canonical_request_hash c'))

  -- After a command has returned, whatever is dispatched in between, a command of the same type,
  -- key and context whose request has another hash is refused, and writes nothing.
  pub reused_key_is_refused :
      (c c' : Command P) (x : DispatchContext) (db : Database S) (result : DispatchResult)
      (commands : List (Command P × DispatchContext))
      → (dispatch_here c x db).0 ≡ ok result
      → c'.command_type ≡ c.command_type
      → c'.idempotency_key ≡ c.idempotency_key
      → canonical_request_hash c' ≢ canonical_request_hash c
      → let later = run commands (dispatch_here c x db).1 in
        dispatch_here c' x later ≡ (err idempotency_key_reused, later)
  reused_key_is_refused c c' x db result commands h t i n =
      let later = run commands (dispatch_here c x db).1 in
      let (handler, e) = returned-handler c x db result h in
      let (r, f, k) = returned-Certifies c x db result h in
      let f' = run-keeps_receipt commands c x (dispatch_here c x db).1 r f in
      certified_refuses c c' x later handler r result (rw t e) (rw (t, i) f') k n

  -- A call that raises leaves the database as it was.
  pub refused_dispatch_rolls_back :
      (c : Command P) (x : DispatchContext) (db : Database S) (e : DispatchError)
      → (dispatch_here c x db).0 ≡ err e
      → (dispatch_here c x db).1 ≡ db
  refused_dispatch_rolls_back c x db e h = elim (dispatch-cases c x db) [
    | inl (same, _) ↦ same
    | inr (o, t, fresh, done) ↦ absurd (ground (arith, done))
  ]
