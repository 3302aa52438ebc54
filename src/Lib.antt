-- ===== src/Lib.antt =====
-- Verification library of the SMART_AO backend: the domain core of tender cases, their dossiers,
-- the patron's decisions and actions, prices, and the access to all of these.
--
-- Parts and how they interact. A Case (backend/app/modules/case/domain/case.py) is opened on an
-- explicit perimeter and linked to a Consultation (backend/app/modules/dce/domain/consultation.py),
-- whose dossier is received as immutable DceVersions
-- (backend/app/modules/dce/domain/dce_version.py). A Decision
-- (backend/app/modules/decision/domain/decision.py) freezes contexts that refer to them; the patron
-- approves one, perhaps under conditions, and the submission gate
-- (backend/app/modules/decision/domain/submission_gate.py, read by
-- backend/app/modules/submission/infrastructure/decision_gate_reader.py) reads the decision before
-- anything is sent. The risks of a case (backend/app/modules/decision/domain/risk.py) are treated
-- and linked to requirements, and each link opens an action that the gate waits for. Prices
-- (backend/app/modules/pricing/domain) are computed apart. Requests reach all of them through the
-- authorization policy, the login limiter and the second factor (backend/app/platform/security),
-- and become commands that the dispatcher (backend/app/platform/events/dispatcher.py) runs once
-- each, in one transaction with their events and outbox messages. Handlers such as those of the
-- patron's actions (backend/app/modules/patron_action) and of the collaborators' tasks
-- (backend/app/modules/membership/application) write the rows; workers deliver the messages and
-- retry them (backend/app/platform/events/retry_policy.py, backend/app/workers/dce_retention.py).
--
-- Files:
--   Base       lists, Boolean tests, Python's str operations, signed integers with floor division,
--              and two effects: Result (return or raise) and Method (a method that mutates its object
--              and may raise; the object comes back after a raise as the call left it). Base.Rows is
--              about queries and assignments to rows, Base.Keeps about methods that keep a property;
--              Base.Json is what the JSON columns hold.
--   Case       Case.Scope is CaseScope, CaseOrigin and AggregateReference; Case.Creation is
--              Case.create; Case.Linking is register_consultation_link and the event buffer.
--              Case.Perimeter says what an explicit perimeter is; Case.Trace holds the invariant.
--   Decision   Decision is the data, the events and DecisionContext.build; Decision.Conditions is
--              DecisionCondition; Decision.Approval is create_draft, prepare_context and the three
--              approvals; Decision.Review is what may follow an approval; Decision.Gate is the
--              submission gate, with a snapshot of a decision. Decision.Step runs sequences of calls;
--              Decision.Invariant, Finality, Satisfaction, Readiness and Journey are about them.
--   Dce        Dce.Version and Dce.Consultation are the two aggregates, method by method;
--              Dce.Corpus, Immutability, Identity and Durability are about sequences of calls.
--   Events     Events.Dispatcher is dispatcher.py, Events.RetryPolicy is retry_policy.py, and
--              Events.Outbox is what dce_retention.py does to a message. Events.Idempotency, Delivery
--              and Backoff are about sequences of commands and of sweeps.
--   Membership Membership.WorkTask is collab_work_task_handler.py, Membership.Blockers and Requests are
--              collab_info_blockers_handler.py, over the tables of Membership.Rows; Assignment is the
--              check that both make. Closing, Kept, Steps and Reopening are about completed tasks.
--   Patron     Patron.Services are the services that authorise a command of the patron and give it to
--              the dispatcher, one definition for each; Patron.Financial are those for financial data.
--              Access says who gets through them, Confidential what the refused ones are told.
--   PatronAction
--              PatronAction.State is domain/state.py and PatronAction.Transition the handler of
--              application/transition_service.py over the rows of its two tables. Rows holds lemmas
--              on them; Moves says which commands are accepted, History what the rows keep.
--   Pricing    Pricing.CostBasis and Pricing.Scenario are cost_basis.py and scenario.py;
--              Pricing.Margins says what a price floor is.
--   Risk       Risk.Domain is domain/risk.py and domain/risk_requirement.py of the decision module,
--              Risk.Repository its risk_repository.py; Register and Treatment are the handlers of
--              application/risk.py, Linking is the one of application/risk_requirement.py with the
--              action it has PatronActionWriter open. ReadBack says what the register gives after a
--              treatment, Closing what a link does to the submission gate.
--   Security   Security.Authorization is context.py and authorization.py, Security.Policy what the
--              policy grants; Security.RateLimit is rate_limit.py, with its dictionary in Buckets,
--              its bound in Limits, other keys in Isolation, and locks in Lockout and Streak.
--              Security.Totp is totp.py: its tables, with Codes for the codes, Enrollment for
--              begin_enrollment and confirm_enrollment, and StepUp for verify_step_up and disable.
--              Replay says which codes are accepted again, Recovery how often recovery codes serve,
--              and Disabling what is left once a factor is disabled.
--   Submission Submission.GateReader is decision_gate_reader.py, query by query. Risks is about the
--              risk actions it counts while commands go on, Requirements about the requirements it
--              takes as confirmed, and Reading about the gate on what it reads.
--
-- Choices. A UUID is a natural number, since it is only compared; a datetime is one too. An
-- exception is a constructor for its class, or for its text where one class has several; messages
-- are left out. A frozenset is its membership test. A text is Prim.Native.String, a sequence of
-- code points; `strip` has the table of `str.isspace`. `str.lower` changes ASCII letters only: it
-- is used where the result must be hexadecimal, and no other character lowers to a hexadecimal
-- digit. The Unicode tables behind `str.upper`, `str.casefold`, `str.lower` on other texts and
-- `str.isdigit`, SHA-256, HMAC, Fernet and UTF-8 belong to Python and its packages: they are
-- parameters, with no hypothesis on them, and so is the text of a UUID. Amounts are signed integers
-- without bound, as in Python, and `//` rounds down. The clock of the limiter is a number of ticks,
-- with the ticks of a second as a setting, so that the fractions of a second that the code keeps
-- are kept; the rounding of binary floating point is not. Its lock makes each call one step, so a
-- sequence of calls is any interleaving of them. Database transactions are taken one after the
-- other as well: one that raises leaves the rows as they were, and a receipt is written with its
-- response, since no one sees it in between. A new UUID is the next number of a supply. Handlers
-- and the request hash of the dispatcher are parameters, as are the readers of the financial
-- services, and one sweep of the retention worker is given what the deletion came to. Its claim of
-- a message and what it writes after the deletion are two transactions; they are taken as one step,
-- so a worker whose lease ends before it writes is not covered. Every function is total: loops are
-- structural recursion, and nothing runs on fuel.
--
-- Left out: database sessions, HTTP routes, the rows that the audit of the policy adds, the other
-- workers and storage, which call third-party packages; the branch of the dispatcher for a receipt
-- that another transaction inserts meanwhile; the handlers that load and save the aggregates; the
-- payloads of events and the texts of an action; the constraints of the tables; the URI for an
-- authenticator; reading settings and keys from the environment; the field limits that pydantic
-- checks; the web client.
--
pub mod Base
pub mod Case
pub mod Decision
pub mod Dce
pub mod Events
pub mod Membership
pub mod Patron
pub mod PatronAction
pub mod Pricing
pub mod Risk
pub mod Security
pub mod Submission
