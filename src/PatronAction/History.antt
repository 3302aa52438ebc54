-- ===== src/PatronAction/History.antt =====
-- Actions and their history through sequences of transition commands, of
-- backend/app/modules/patron_action.
use smart_ao_v.Base.{
  ℕ, ◌+◌, ◌≡◌, ◌≢◌, refl, ◌⊎◌, inl, inr, true, false, Option, none, some, List, [], ◌∷◌, ◌==◌,
  ==_iff, arith, Option-cases, Bool-cases, ap, sym, ◌∙◌,
}
use smart_ao_v.Base.Result.{ok, err}
use smart_ao_v.PatronAction.Transition.{
  PatronActionRecord, PatronActionTransitionRecord, TransitionPatronActionCommand, CommandContext,
  Tables, Transitioned, version_conflict, find_action, is_of, find_latest, current_state,
  current_revision, is_closed, make_transition, apply_transition, execute,
}
use smart_ao_v.PatronAction.Rows.{
  find_action-is_row, find_action-store_self, find_action-store_other, IsBelow,
  find_latest-snoc_self, find_latest-snoc_other, latest_of, execute-eq-ok, execute-eq-err,
}

-- The row of an action agrees with the latest of its transitions, if it has one.
abbrev pub AgreesWith : PatronActionRecord → Option PatronActionTransitionRecord → Type 0
AgreesWith a none = Unit
AgreesWith a (some t) = (a.state ≡ t.to_state) × (a.aggregate_revision ≡ t.aggregate_revision)

pub record IsConsistent (d : Tables) : Type 0 where
  pub agrees :
      (tenant id : ℕ) (a : PatronActionRecord)
      → find_action tenant id d.actions ≡ some a
      → AgreesWith a (find_latest tenant id d.transitions)

is_row-cases :
    (tenant id tenant' id' : ℕ)
    → ((tenant' ≡ tenant) × (id' ≡ id)) ⊎ ((tenant' ≢ tenant) ⊎ (id' ≢ id))
is_row-cases tenant id tenant' id' = ground (
  arith,
  ==_iff tenant' tenant,
  ==_iff id' id,
  Bool-cases (tenant' == tenant),
  Bool-cases (id' == id),
)

-- A command of a tenant for an action finds and writes no other action, and adds nothing to the
-- history of another.
pub execute-isolated :
    (c : TransitionPatronActionCommand) (x : CommandContext) (d : Tables) (tenant id : ℕ)
    → (tenant ≢ x.tenant_id) ⊎ (id ≢ c.action_id)
    → let d' = (execute c x d).1 in
      (find_action tenant id d'.actions ≡ find_action tenant id d.actions)
      × (find_latest tenant id d'.transitions ≡ find_latest tenant id d.transitions)
unfolding apply_transition
execute-isolated c x d tenant id h = elim (execute-eq-err c x d) [
  | inr same ↦ rw same (refl, refl)
  | inl (event, o) ↦
      let (a, e, n, open_state, edge, writes) = execute-eq-ok c x d o in
      let row = find_action-is_row x.tenant_id c.action_id d.actions a e in
      let current = current_state a (latest_of c x d) in
      let revision = current_revision a (latest_of c x d) in
      let t = make_transition c x a current revision in
      let other : is_of tenant id t ≡ false = ground (arith, row) in
      rw writes (
        find_action-store_other x.tenant_id c.action_id tenant id c.target_state (revision + 1)
            d.actions h,
        find_latest-snoc_other tenant id d.transitions t other,
      )
]

-- What an accepted command leaves: its row and the latest of its history agree.
accepted-rows :
    (c : TransitionPatronActionCommand) (x : CommandContext) (d : Tables) {event : Transitioned}
    → (execute c x d).0 ≡ ok event
    → let d' = (execute c x d).1 in
      (a : PatronActionRecord) × (t : PatronActionTransitionRecord) × (find_action x.tenant_id
          c.action_id d'.actions
        ≡ some a)
      × (find_latest x.tenant_id c.action_id d'.transitions ≡ some t)
      × (a.state ≡ c.target_state)
      × (t.to_state ≡ c.target_state)
      × (a.aggregate_revision ≡ c.expected_revision + 1)
      × (t.aggregate_revision ≡ c.expected_revision + 1)
unfolding apply_transition
accepted-rows c x d o =
    let (a, e, n, open_state, edge, writes) = execute-eq-ok c x d o in
    let (_, same_id) = find_action-is_row x.tenant_id c.action_id d.actions a e in
    let current = current_state a (latest_of c x d) in
    let revision = current_revision a (latest_of c x d) in
    let t = make_transition c x a current revision in
    let below : IsBelow (revision + 1) (latest_of c x d) =
      ground (arith, Option-cases (latest_of c x d)) in
    let is_self : is_of x.tenant_id c.action_id t ≡ true = ground (arith, same_id) in
    rw writes (
      record a { state = c.target_state; aggregate_revision = revision + 1 },
      t,
      find_action-store_self x.tenant_id c.action_id c.target_state (revision + 1) d.actions a e,
      find_latest-snoc_self x.tenant_id c.action_id d.transitions t is_self below,
      refl,
      refl,
      ap (λ k. k + 1) n,
      ap (λ k. k + 1) n,
    )

-- Every command, refused ones included, keeps the rows consistent with their history.
execute-IsConsistent :
    (c : TransitionPatronActionCommand) (x : CommandContext) (d : Tables)
    → IsConsistent d
    → IsConsistent (execute c x d).1
execute-IsConsistent c x d k = elim (execute-eq-err c x d) [
  | inr same ↦ rw same k
  | inl (event, o) ↦ record {
    agrees = λ tenant id b f. elim (is_row-cases x.tenant_id c.action_id tenant id) [
      | inl (st, si) ↦
          let (a', t, row, latest, state, to, n, m) = accepted-rows c x d o in
          let found : find_action x.tenant_id c.action_id (execute c x d).1.actions ≡ some b =
            rw (st, si) at f in
          let same : a' ≡ b = cc in rw (st, si, latest, sym same) (state ∙ sym to, n ∙ sym m)
      | inr other ↦
          let (rows, latest) = execute-isolated c x d tenant id other in
          rw latest (k.agrees tenant id b (rw rows at f))
    ];
  }
]

-- A run of commands, each with its context.
unfoldable pub run : List (TransitionPatronActionCommand × CommandContext) → Tables → Tables
run [] d = d
run ((c, x) ∷ commands) d = run commands (execute c x d).1

-- If it holds at first, every sequence of commands, refused ones included, keeps the state and the
-- revision of each action with a history equal to those of its latest transition.
pub patron_action_run-IsConsistent :
    (commands : List (TransitionPatronActionCommand × CommandContext)) (d : Tables)
    → IsConsistent d
    → IsConsistent (run commands d)
unfolding run
patron_action_run-IsConsistent [] d k = k
patron_action_run-IsConsistent ((c, x) ∷ commands) d k =
    patron_action_run-IsConsistent commands (execute c x d).1 (execute-IsConsistent c x d k)

stale_conflicts :
    (c : TransitionPatronActionCommand) (x : CommandContext) (d : Tables) (a : PatronActionRecord)
    (t : PatronActionTransitionRecord)
    → find_action x.tenant_id c.action_id d.actions ≡ some a
    → find_latest x.tenant_id c.action_id d.transitions ≡ some t
    → t.aggregate_revision ≢ c.expected_revision
    → execute c x d ≡ (err version_conflict, d)
unfolding execute
stale_conflicts c x d a t e f n =
    let same = find_action-is_row x.tenant_id c.action_id d.actions a e in
    let found : find_latest x.tenant_id a.id d.transitions ≡ some t =
      ap (λ k. find_latest x.tenant_id k d.transitions) same.1 ∙ f in
    ground (arith, found)

-- Of two commands of a tenant on one action that expect the same revision, the second is refused
-- with VERSION_CONFLICT once the first is accepted, and writes nothing.
pub second_command_conflicts :
    (c c' : TransitionPatronActionCommand) (x x' : CommandContext) (d : Tables)
    {event : Transitioned}
    → (execute c x d).0 ≡ ok event
    → x'.tenant_id ≡ x.tenant_id
    → c'.action_id ≡ c.action_id
    → c'.expected_revision ≡ c.expected_revision
    → let d' = (execute c x d).1 in execute c' x' d' ≡ (err version_conflict, d')
second_command_conflicts c c' x x' d o t i n =
    let (a, u, row, latest, state, to, m, m') = accepted-rows c x d o in
    stale_conflicts c' x' (execute c x d).1 a u (rw (t, i) row) (rw (t, i) latest)
      (λ q. omega (arith, m', n, q))

current_state-agrees :
    (a : PatronActionRecord) (latest : Option PatronActionTransitionRecord)
    → AgreesWith a latest
    → current_state a latest ≡ a.state
current_state-agrees a none h = refl
current_state-agrees a (some t) h = sym h.0

stays_closed :
    (c : TransitionPatronActionCommand) (x : CommandContext) (d : Tables) (tenant id : ℕ)
    (a : PatronActionRecord)
    → IsConsistent d
    → find_action tenant id d.actions ≡ some a
    → is_closed a.state ≡ true
    → find_action tenant id (execute c x d).1.actions ≡ some a
stays_closed c x d tenant id a k f h = elim (execute-eq-err c x d) [
  | inr same ↦ rw same f
  | inl (event, o) ↦ elim (is_row-cases x.tenant_id c.action_id tenant id) [
    | inl (st, si) ↦
        let (b, e, n, open_state, edge, writes) = execute-eq-ok c x d o in
        let here : find_action x.tenant_id c.action_id d.actions ≡ some a = rw (st, si) at f in
        let same : b ≡ a = cc in
        let open_row : is_closed (current_state a (latest_of c x d)) ≡ false =
          rw same at open_state in
        let agreed =
          current_state-agrees a (latest_of c x d) (k.agrees x.tenant_id c.action_id a here) in
        let open_state' : is_closed a.state ≡ false = rw agreed at open_row in
        absurd (ground (arith, open_state', h))
    | inr other ↦ (execute-isolated c x d tenant id other).0 ∙ f
  ]
]

-- When the rows are consistent with their history at first, no sequence of commands changes a
-- completed or abandoned action.
pub closed_action_stays :
    (commands : List (TransitionPatronActionCommand × CommandContext)) (d : Tables) (tenant id : ℕ)
    (a : PatronActionRecord)
    → IsConsistent d
    → find_action tenant id d.actions ≡ some a
    → is_closed a.state ≡ true
    → find_action tenant id (run commands d).actions ≡ some a
unfolding run
closed_action_stays [] d tenant id a k f h = f
closed_action_stays ((c, x) ∷ commands) d tenant id a k f h =
    closed_action_stays commands (execute c x d).1 tenant id a (execute-IsConsistent c x d k)
      (stays_closed c x d tenant id a k f h) h
