-- ===== src/Workflow/Pipeline.antt =====
-- The pipeline of an order, integration/models/auto_workflow/integration_workflow_pipeline.py.
-- `self` is a task's id. A write stays in the `World`; a raise gives up the whole call, as the
-- transaction is rolled back. What is handed to the job queue is kept, in order, in `delayed`.
use text.Mathlib.Text.{◌==◌ as str_eq}
use jean_fourche.Base.{
  ℕ, String, Bool, true, false, not, ◌&&◌, Option, none, some, List, [], ◌∷◌, ◌++◌, map, filter,
  any, all, find?, ltb, ◌==◌, if◌then◌else◌,
}
use jean_fourche.Base.Result.{Result, ok, err}
use jean_fourche.Workflow.Steps.{Step, same_step}
use jean_fourche.Workflow.File.{InputFile, action_done, action_process}

pub data TaskState : Type 0 where
  skip todo in_process failed done : TaskState

pub record Task : Type 0 where
  pub id : ℕ
  pub state : TaskState
  pub current_step_method : Step
  pub next_step_method : Option Step

-- The calls of `with_delay`: `_run_and_call_next`, `trigger_pipeline`, `_raise_message`.
pub data Job : Type 0 where
  run_task : ℕ → Job
  trigger : Job
  raise_message : ℕ → Option String → Job

pub data Error : Type 0 where
  user_error validation_error expected_singleton missing_record : Error

-- `order` is what the workflow's methods of the sales order read and write.
pub record World (O : Type 0) : Type 0 where
  pub tasks : List Task
  pub input_file : Option InputFile
  pub current_info : Option String
  pub skip_dispatch : Bool
  pub delayed : List Job
  pub order : O

-- `True`, `None` and `False` of a workflow method.
pub data Outcome : Type 0 where
  success pending failure : Outcome

abbrev pub is_not_done : TaskState → Bool
is_not_done TaskState.done = false
is_not_done _ = true

-- `state in (SKIP, DONE)`
abbrev pub is_finished : TaskState → Bool
is_finished TaskState.skip = true
is_finished TaskState.done = true
is_finished _ = false

abbrev pub is_skip : TaskState → Bool
is_skip TaskState.skip = true
is_skip _ = false

abbrev pub is_stuck : TaskState → Bool
is_stuck TaskState.in_process = true
is_stuck TaskState.failed = true
is_stuck _ = false

abbrev pub step_is : Option Step → Step → Bool
step_is none s = false
step_is (some a) s = same_step s a

-- The `is_done` of a pipeline.
unfoldable pub is_pipeline_done : List Task → Bool
is_pipeline_done ts = not (any (λ t. is_stuck t.state) ts)

unfoldable pub has_tasks_to_process : List Task → Bool
has_tasks_to_process ts = any (λ t. not (is_finished t.state)) ts

-- A recordset: the tasks of that step.
unfoldable pub find_task : Option Step → List Task → List Task
find_task step_name ts = filter (λ t. step_is step_name t.current_step_method) ts

unfoldable pub set_state : ℕ → TaskState → List Task → List Task
set_state id state ts = map (λ t. if t.id == id then record t { state = state } else t) ts

-- `_validate_previous`: whether it lets the task run.
unfoldable pub validate_previous : ℕ → List Task → Bool
validate_previous id ts =
    all (λ t. not (is_not_done t.state)) (filter (λ t. ltb t.id id && not (is_skip t.state)) ts)

module _ {O : Type 0} where
  unfoldable pub mark_input_as_done : World O → World O
  unfolding action_done
  mark_input_as_done w = record w {
    input_file = elim w.input_file [ none ↦ none | some f ↦ some (action_done f) ];
  }

  unfoldable pub mark_input_to_process : World O → World O
  unfolding action_process
  mark_input_to_process w = record w {
    input_file = elim w.input_file [ none ↦ none | some f ↦ some (action_process f) ];
  }

  -- `update_info`: no message, or an empty one, clears the field.
  unfoldable pub update_info : Option String → World O → World O
  update_info message w = record w {
    current_info = elim message [ none ↦ none | some m ↦ if str_eq m "" then none else some m ];
  }

  unfoldable pub run_with_delay : Task → World O → World O
  run_with_delay t w = record w { delayed = w.delayed ++ run_task t.id ∷ [] }

  unfoldable pub mark_state : ℕ → TaskState → World O → World O
  unfolding set_state
  mark_state id state w = record w { tasks = set_state id state w.tasks }

  -- `set_task_to_done`; closing the finished jobs of the task touches the job log alone.
  unfoldable pub set_task_to_done : ℕ → World O → World O
  unfolding mark_state update_info
  set_task_to_done id w = update_info none (mark_state id TaskState.done w)

  unfoldable pub call_pipeline_step : Option Step → World O → Result Error (World O)
  unfolding has_tasks_to_process find_task mark_input_as_done run_with_delay
  call_pipeline_step step_name w =
      if has_tasks_to_process w.tasks
      then elim (find_task step_name w.tasks) [
        | [] ↦ ok (mark_input_as_done w)
        | t ∷ [] ↦ ok (run_with_delay t w)
        | t ∷ u ∷ ts ↦ err expected_singleton
      ]
      else ok (mark_input_as_done w)

  unfoldable pub trigger_pipeline : World O → Result Error (World O)
  unfolding has_tasks_to_process mark_input_as_done mark_input_to_process run_with_delay
  trigger_pipeline w =
      if has_tasks_to_process w.tasks
      then elim (find? (λ t. is_not_done t.state) w.tasks) [
        | none ↦ err expected_singleton
        | some t ↦ ok (mark_input_to_process (run_with_delay t w))
      ]
      else ok (mark_input_as_done w)

  -- `get_next_task` is a recordset, and true if it is not empty.
  unfoldable pub finish_if_last : Task → World O → World O
  unfolding find_task mark_input_as_done
  finish_if_last t w = elim (find_task t.next_step_method w.tasks) [
    | [] ↦ mark_input_as_done w
    | u ∷ us ↦ w
  ]

  abbrev pub with_task : ℕ → World O → (Task → Result Error (World O)) → Result Error (World O)
  with_task id w k = elim (find? (λ t. t.id == id) w.tasks) [
    | none ↦ err missing_record
    | some t ↦ k t
  ]

  unfoldable pub task_force_done : ℕ → World O → Result Error (World O)
  unfolding validate_previous set_task_to_done finish_if_last
  task_force_done id w = with_task id w λ t.
      if validate_previous id w.tasks
      then ok (finish_if_last t (set_task_to_done id w))
      else err user_error

  unfoldable pub task_force_draft : ℕ → World O → Result Error (World O)
  unfolding mark_state
  task_force_draft id w = with_task id w λ t. ok (mark_state id TaskState.todo w)

  module _ (order_method : Step → Bool → O → Outcome × Option String × O) where
    -- `run`, after the order's method.
    abbrev pub after_run : Task → Outcome → Option String → World O → World O
    after_run t Outcome.success message w = finish_if_last t (set_task_to_done t.id w)
    after_run t Outcome.pending message w =
        update_info message (mark_state t.id TaskState.in_process w)
    after_run t Outcome.failure message w = update_info message (mark_state t.id TaskState.failed w)

    unfoldable pub run : ℕ → World O → Result Error (World O)
    unfolding validate_previous set_task_to_done finish_if_last update_info mark_state
    run id w = with_task id w λ t.
        if is_finished t.state
        then err user_error
        else if validate_previous id w.tasks
        then (let (result, message, order) =
              order_method t.current_step_method w.skip_dispatch w.order in
            ok (after_run t result message (record w { order = order })))
        else err user_error

    -- `_run_and_call_next`, after the order's method; a failure ends in `_fail_job_manually`.
    abbrev pub after_job : Task → Outcome → Option String → World O → Result Error (World O)
    after_job t Outcome.success message w =
        call_pipeline_step t.next_step_method (set_task_to_done t.id w)
    after_job t Outcome.pending message w =
        call_pipeline_step t.next_step_method (mark_state t.id TaskState.in_process w)
    after_job t Outcome.failure message w =
        let w' = update_info message (mark_state t.id TaskState.failed w) in
        ok (record w' { delayed = w'.delayed ++ raise_message t.id message ∷ [] })

    unfoldable pub run_and_call_next : ℕ → World O → Result Error (World O)
    unfolding call_pipeline_step set_task_to_done update_info mark_state
    run_and_call_next id w = with_task id w λ t.
        if is_finished t.state
        then call_pipeline_step t.next_step_method w
        else (let (result, message, order) =
              order_method t.current_step_method w.skip_dispatch w.order in
            after_job t result message (record w { order = order }))
