-- ===== src/Ledger/Tests.antt =====
-- The ledger of scheduler/ledger.py on a concrete task.
use clique.Prelude.{◌+◌, ◌≡◌, refl, none, some, [], true}
use clique.Types.{TaskState, TaskType, TaskView}
use clique.Ledger.{Book, duplicate, has_task, is_accepted, one_if, record_task, enter, summary}
use clique.Ledger.Totals.{record_task-once}

abbrev view : TaskView
view = record {
  request = record {
    task_id = "t1";
    submitted_by_node = "pc";
    task_type = TaskType.code_edit;
    prompt = [];
    messages = none;
    session_id = none;
    model_hint = none;
    workspace_id = none;
    workspace_seq = 0;
    max_output_tokens = 1024;
    record_turns = true;
    compaction_covers = none;
    idempotency_key = "k1";
    code = none;
  };
  state = TaskState.succeeded;
  assigned_node = some "gpu";
  attempt_id = some "a-1";
  attempts = 1;
  result = some (record {
    task_id = "t1";
    attempt_id = "a-1";
    state = TaskState.succeeded;
    output = none;
    error = none;
    patch = none;
    applied_sha = some "abc";
  });
}

abbrev empty : Book
empty = record { rows = []; last_seq = 0 }

abbrev one_task : Book
one_task = enter 5 view empty

record_task-once_example :
    ((summary (record_task 5 view empty).1).total_terminal ≡ (summary empty).total_terminal + 1)
    × (((summary (record_task 5 view empty).1).accepted_tasks
          ≡ (summary empty).accepted_tasks + one_if (is_accepted view))
        × (record_task 6 view (record_task 5 view empty).1
            ≡ (duplicate, (record_task 5 view empty).1)))
unfolding has_task
record_task-once_example = record_task-once 5 6 view view empty refl refl
