-- ===== src/Membership/TaskCommands.antt =====
-- The commands of
-- backend/app/modules/membership/application/collab_work_task_commands.py, as they are handled.
use smart_ao_v.Base.{ℕ, String, Option}

pub record CreateTaskFromRequirement : Type 0 where
  pub task_id : ℕ
  pub assignment_id : ℕ
  pub case_id : ℕ
  pub requirement_id : ℕ
  pub task_kind : String
  pub title : String
  pub objective : String
  pub due_at : Option ℕ

pub record RecordTaskResult : Type 0 where
  pub outcome : String
  pub result_text : String
  pub source_locator : Option String
  pub command_id : ℕ
  pub correlation_id : Option ℕ
  -- What `uuid4` returns.
  pub fresh_id : ℕ

-- The command types; those on a task have its identifier and the expected revision.
pub data TaskAction : Type 0 where
  claim_task complete_task : TaskAction
  record_task_result : RecordTaskResult → TaskAction

pub data WorkTaskCommand : Type 0 where
  create_task_from_requirement : CreateTaskFromRequirement → WorkTaskCommand
  on_task : ℕ → ℕ → TaskAction → WorkTaskCommand
