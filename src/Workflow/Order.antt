-- ===== src/Workflow/Order.antt =====
-- Building and running the pipeline of an order: `_build_and_run_integration_workflow` of
-- integration/models/sale_order.py, `_update_pipeline`, and the job queue that runs the calls.
use jean_fourche.Base.{
  ℕ, zero, suc, String, Bool, ◌&&◌, Option, none, some, List, [], ◌∷◌, ◌++◌, if◌then◌else◌,
}
use jean_fourche.Base.Result.{Result, ok, err, ◌>>=◌}
use jean_fourche.Workflow.Steps.{Step}
use jean_fourche.Workflow.File.{InputFile}
use jean_fourche.Workflow.Pipeline.{
  Task, TaskState, Job, run_task, trigger, raise_message, Error, expected_singleton,
  validation_error, World, Outcome, is_not_done, has_tasks_to_process, find_task, set_state,
  mark_input_as_done, mark_input_to_process, trigger_pipeline, run_and_call_next,
}

-- The step of the next entry of `next_step_task_list`, which ends in `(False, False)`.
abbrev pub next_of : List (Step × Bool) → Option Step
next_of [] = none
next_of ((s, enable) ∷ rest) = some s

-- The records of `pipeline_task_ids`, with the ids that the database counts up.
unfoldable pub create_tasks : ℕ → List (Step × Bool) → List Task
create_tasks id [] = []
create_tasks id ((s, enable) ∷ rest) =
    record {
      id = id;
      state = (if enable then TaskState.todo else TaskState.skip);
      current_step_method = s;
      next_step_method = next_of rest;
    }
    ∷ create_tasks (suc id) rest

-- One entry of the loop of `_update_pipeline`.
unfoldable pub update_task : Step × Bool → List Task → Result Error (List Task)
unfolding find_task set_state
update_task (name, enable) ts = elim (find_task (some name) ts) [
  | [] ↦ ok ts
  | t ∷ [] ↦ ok (if is_not_done t.state && enable then set_state t.id TaskState.todo ts else ts)
  | t ∷ u ∷ us ↦ err expected_singleton
]

unfoldable pub update_tasks : List (Step × Bool) → List Task → Result Error (List Task)
unfolding update_task
update_tasks [] ts = ok ts
update_tasks (entry ∷ rest) ts = update_task entry ts >>= update_tasks rest

module _ {O : Type 0} where
  unfoldable pub start_workflow : World O → World O
  unfolding has_tasks_to_process mark_input_to_process mark_input_as_done
  start_workflow w =
      if has_tasks_to_process w.tasks
      then (let w' = mark_input_to_process w in record w' { delayed = w'.delayed ++ trigger ∷ [] })
      else mark_input_as_done w

  abbrev pub new_pipeline :
      ℕ → List (Step × Bool) → Option InputFile → Bool → List Job → O → World O
  new_pipeline first_id task_list file skip jobs order = record {
    tasks = create_tasks first_id task_list;
    input_file = file;
    current_info = none;
    skip_dispatch = skip;
    delayed = jobs;
    order = order;
  }

  -- On the pipeline that the order has, if it has one; else on a new one.
  unfoldable pub build_and_run_workflow :
      Option (World O)
      → ℕ
      → List (Step × Bool)
      → Option InputFile
      → Bool
      → O
      → Result Error (World O)
  unfolding create_tasks update_tasks start_workflow
  build_and_run_workflow none first_id task_list file skip order =
      ok (start_workflow (new_pipeline first_id task_list file skip [] order))
  build_and_run_workflow (some w) first_id task_list file skip order =
      update_tasks task_list w.tasks >>= λ ts.
      ok (start_workflow (record w { tasks = ts; skip_dispatch = skip }))

  module _ (order_method : Step → Bool → O → Outcome × Option String × O) where
    unfoldable pub run_job : Job → World O → Result Error (World O)
    unfolding run_and_call_next trigger_pipeline
    run_job (run_task id) w = run_and_call_next order_method id w
    run_job trigger w = trigger_pipeline w
    run_job (raise_message id message) w = err validation_error

    -- A job that raises is rolled back, and leaves the queue.
    abbrev pub settle : World O → Result Error (World O) → World O
    settle w (ok w') = w'
    settle w (err e) = w

    -- A worker that runs at most so many jobs, in the order in which they were delayed.
    unfoldable pub work : ℕ → World O → World O
    unfolding run_job
    work zero w = w
    work (suc n) w = elim w.delayed [
      | [] ↦ w
      | job ∷ jobs ↦ (let w' = record w { delayed = jobs } in work n (settle w' (run_job job w')))
    ]
