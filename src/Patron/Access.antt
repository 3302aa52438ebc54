-- ===== src/Patron/Access.antt =====
-- Who gets a command through the services of Patron.Services: the policy of
-- backend/app/platform/security/authorization.py, composed with them.
use smart_ao_v.Base.{
  ℕ, ◌+◌, ◌≤◌, ◌≡◌, ◌⊎◌, refl, inl, inr, String, Bool, true, false, not, ◌&&◌, ◌||◌, Option, none,
  some, Bool-cases, arith,
}
use smart_ao_v.Base.Result.{err}
use smart_ao_v.Events.Dispatcher.{Command, Database, Handler}
use smart_ao_v.Security.Authorization.{
  ActorContext, AuthorizationRequest, active, authorize, is_patron_admin, is_active,
  mfa_maximum_age, internal_operational, security_restricted,
}
use smart_ao_v.Security.Policy.{authorize-allowed_iff}
use smart_ao_v.Patron.Services.{
  ServiceError, permission, execution, is_patron, is_other, make_request, dispatch_as, serve,
  finalize_decision, sign,
}

-- A patron or a delegate, active, who may finalize, with a second factor of the last fifteen minutes.
pub record MayFinalize (actor : ActorContext) (now : ℕ) : Type 0 where
  pub patron : is_patron actor.actor_kind ≡ true
  pub member : actor.membership_state ≡ active
  pub capable : actor.capabilities "decision.finalize" ≡ true
  pub factor :
      (verified : ℕ) × (actor.mfa_verified_at ≡ some verified)
      × (verified ≤ now)
      × (now ≤ verified + mfa_maximum_age)

restricted-denied :
    (actor : ActorContext) (r : AuthorizationRequest)
    → r.resource.classification ≡ security_restricted
    → (authorize actor r).allowed ≡ false
restricted-denied actor r h = elim (Bool-cases (authorize actor r).allowed) [
  | inr e ↦ e
  | inl e ↦ absurd (((authorize-allowed_iff actor r).0 e).open_class.0 h)
]

module _ {P S : Type 0} (hash : Command P → String) (handlers : String → Option (Handler P S)) where
  module _ (admitted : Bool) (text : String) (r : AuthorizationRequest) (actor : ActorContext)
      (now : ℕ) (case : Option ℕ) (c : Command P) (db : Database S) where
    serve-dispatches :
        admitted ≡ true
        → (authorize actor r).allowed ≡ true
        → serve hash handlers admitted text r actor now case c db
          ≡ dispatch_as hash handlers actor now case c db
    unfolding serve
    serve-dispatches h k = rw (h, k) refl

    serve-refuses :
        (admitted && (authorize actor r).allowed) ≡ false
        → (code : String) × (serve hash handlers admitted text r actor now case c db
            ≡ (err (permission code), db))
    unfolding serve
    serve-refuses h = elim (Bool-cases admitted) [
      | inr e ↦ (text, rw e refl)
      | inl e ↦
          let k : (authorize actor r).allowed ≡ false = ground (arith, h, e) in
          ((authorize actor r).code, rw (e, k) refl)
    ]

  module _ (case_id subject_id : P → ℕ) where
    abbrev finalize_request : ActorContext → ℕ → Command P → AuthorizationRequest
    finalize_request actor now c =
        make_request "decision.finalize" "DECISION" (subject_id c.payload) internal_operational
          (some (case_id c.payload)) true actor now

    finalize_allowed-MayFinalize :
        (actor : ActorContext) (now : ℕ) (c : Command P)
        → is_patron actor.actor_kind ≡ true
        → (authorize actor (finalize_request actor now c)).allowed ≡ true
        → MayFinalize actor now
    finalize_allowed-MayFinalize actor now c h k =
        let p = (authorize-allowed_iff actor (finalize_request actor now c)).0 k in
        let (at, verified, e, f, before, after) = p.strong refl in
        record {
          patron = h;
          member = p.member;
          capable = p.capable;
          factor = (verified, f, ground (arith, e, before), ground (arith, e, after));
        }

    MayFinalize-allowed :
        (actor : ActorContext) (now : ℕ) (c : Command P)
        → MayFinalize actor now
        → (authorize actor (finalize_request actor now c)).allowed ≡ true
    MayFinalize-allowed actor now c m =
        let (verified, f, before, after) = m.factor in
        (authorize-allowed_iff actor (finalize_request actor now c)).1 (record {
          same_tenant = refl;
          member = m.member;
          capable = m.capable;
          open_class = (λ e. ground (arith, e), λ e. ground (arith, e));
          financial = λ e. absurd (ground (arith, e));
          scoped = λ e. absurd (ground (arith, e, m.patron));
          strong = λ e. (now, verified, refl, f, before, after);
        })

    -- A decision is finalized through the service exactly by an active patron or delegate with the
    -- capability, whose second factor was verified at most fifteen minutes before: then the command is
    -- dispatched, and for anyone else an error is raised and the database is left as it was.
    pub finalize_decision_iff :
        (actor : ActorContext) (now : ℕ) (c : Command P) (db : Database S)
        → (MayFinalize actor now
            × (finalize_decision hash handlers case_id subject_id actor now c db
                ≡ dispatch_as hash handlers actor now (some (case_id c.payload)) c db))
          ⊎ (¬ MayFinalize actor now)
            × ((code : String) × (finalize_decision hash handlers case_id subject_id actor now c db
                  ≡ (err (permission code), db)))
    unfolding finalize_decision
    finalize_decision_iff actor now c db =
        let r = finalize_request actor now c in
        let case = some (case_id c.payload) in
        elim (Bool-cases (is_patron actor.actor_kind && (authorize actor r).allowed)) [
          | inl e ↦
              let k : is_patron actor.actor_kind ≡ true = ground (arith, e) in
              let a : (authorize actor r).allowed ≡ true = ground (arith, e) in
              inl (
                finalize_allowed-MayFinalize actor now c k a,
                serve-dispatches (is_patron actor.actor_kind) "PATRON_REQUIRED" r actor now case c
                    db k a,
              )
          | inr e ↦ inr (
            λ m. absurd (ground (arith, e, m.patron, MayFinalize-allowed actor now c m)),
            serve-refuses (is_patron actor.actor_kind) "PATRON_REQUIRED" r actor now case c db e,
          )
        ]

    -- No command of a signature is ever dispatched by its service: for every actor and time an error
    -- is raised and the database is left as it was.
    pub sign_never_dispatches :
        (provider_of : P → Option String) (provider : String) (actor : ActorContext) (now : ℕ)
        (c : Command P) (db : Database S)
        → (e : ServiceError) × (sign hash handlers case_id subject_id provider_of provider actor now
              c db
            ≡ (err e, db))
    unfolding sign
    sign_never_dispatches provider_of provider actor now c db =
        let r =
          make_request "submission.signature.write" "SUBMISSION_SIGNATURE" (subject_id c.payload)
            security_restricted none true actor now in
        let (code, refused) =
          serve-refuses true "" r actor now none c db (restricted-denied actor r refl) in
        elim (Bool-cases
          (not (is_patron_admin actor.actor_kind) || not (is_active actor.membership_state))) [
            | inl e ↦ (permission "PATRON_REQUIRED", rw e refl)
            | inr e ↦ elim (Bool-cases (is_other provider (provider_of c.payload))) [
              | inl f ↦ (execution "INVALID_PROVIDER", rw (e, f) refl)
              | inr f ↦ (permission code, rw (e, f) refused)
            ]
          ]
