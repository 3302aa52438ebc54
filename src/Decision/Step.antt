-- ===== src/Decision/Step.antt =====
-- The calls that a `Decision` of backend/app/modules/decision/domain/decision.py receives, as data,
-- and what a sequence of them leaves. A caller that catches the error of a call may go on.
use smart_ao_v.Base.{ℕ, String, List, [], ◌∷◌}
use smart_ao_v.Decision.{Decision, DecisionMethod, DecisionContext, DecisionCondition}
use smart_ao_v.Decision.Approval.{
  prepare_context, approve_go, approve_no_go, approve_conditional_go,
}
use smart_ao_v.Decision.Review.{record_condition_satisfied, mark_review_required, supersede}

pub data Command : Type 0 where
  prepare : DecisionContext → Command
  say_go say_no_go : String → String → String → ℕ → Command
  say_conditional_go : String → String → List DecisionCondition → String → ℕ → Command
  satisfy : ℕ → String → ℕ → Command
  require_review : String → Command
  replace_by : ℕ → String → Command

unfoldable pub execute : Command → DecisionMethod (Unit {0})
execute (prepare c) = prepare_context c
execute (say_go f j p at) = approve_go f j p at
execute (say_no_go f j p at) = approve_no_go f j p at
execute (say_conditional_go f j cs p at) = approve_conditional_go f j cs p at
execute (satisfy c e at) = record_condition_satisfied c e at
execute (require_review r) = mark_review_required r
execute (replace_by s r) = supersede s r

unfoldable pub step : Command → Decision → Decision
unfolding execute
step c d = (execute c d).1

unfoldable pub run : List Command → Decision → Decision
unfolding step
run [] d = d
run (c ∷ cs) d = run cs (step c d)
