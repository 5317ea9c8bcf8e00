-- ===== src/Workflow/Tests.antt =====
-- Runs of the order workflow.
use jean_fourche.Base.{
  ℕ, suc, String, Bool, true, false, ◌≡◌, refl, ap, Option, none, some, [], ◌∷◌, map, any, arith,
  inl, inr,
}
use jean_fourche.Base.Result.{ok}
use jean_fourche.Workflow.Steps.{Step, SubStatus, flag, workflow_task_list, build_task_list}
use jean_fourche.Workflow.Build.{build_task_list_lem}
use jean_fourche.Workflow.File.{InputFile, FileState}
use jean_fourche.Workflow.Pipeline.{Task, TaskState, World, Outcome, success, run}
use jean_fourche.Workflow.Order.{create_tasks, build_and_run_workflow, work}
use jean_fourche.Workflow.Process.{process, parse, parse_payload, parse-process}
use jean_fourche.Workflow.Calls.{Completed}
use jean_fourche.Workflow.Complete.{workflow_completes}
use jean_fourche.Workflow.Manual.{InOrder, run-InOrder}

-- The order is the number of steps that it has seen.
abbrev obliging : Step → Bool → ℕ → Outcome × Option String × ℕ
obliging step skip n = (success, some "ok", suc n)

abbrev paid : SubStatus
paid = record {
  validate_order = true;
  validate_picking = false;
  create_invoice = true;
  validate_invoice = true;
  send_invoice = false;
  register_payment = false;
  invoice_journal = true;
}

abbrev shipped : SubStatus
shipped = record paid { validate_picking = true }

abbrev new_file : InputFile
new_file = record {
  state = FileState.draft;
  has_order = true;
  update_required = true;
  raw_data = "{}";
}

build_task_list_example :
    build_task_list (paid ∷ shipped ∷ [])
    ≡ map (λ step. (step, any (λ x. flag x step) (paid ∷ shipped ∷ []))) workflow_task_list
build_task_list_example = build_task_list_lem paid (shipped ∷ [])

workflow_completes_example :
    (w : World ℕ) × (build_and_run_workflow none 100
        (build_task_list (paid ∷ shipped ∷ []))
        (some new_file)
        true
        0
      ≡ ok w)
    × Completed
        (create_tasks 100 (build_task_list (paid ∷ shipped ∷ [])))
        new_file
        (work obliging 8 w)
workflow_completes_example =
    workflow_completes obliging (λ s b o. refl) paid (shipped ∷ []) 100 new_file true 0

abbrev task : ℕ → TaskState → Step → Option Step → Task
task id state step next = record {
  id = id;
  state = state;
  current_step_method = step;
  next_step_method = next;
}

abbrev halfway : World ℕ
halfway = record {
  tasks =
      task 1 TaskState.done Step.validate_order (some Step.validate_picking)
      ∷ task 2 TaskState.failed Step.validate_picking none
      ∷ [];
  input_file = some new_file;
  current_info = some "no stock";
  skip_dispatch = false;
  delayed = [];
  order = 0;
}

halfway-InOrder : InOrder halfway.tasks
halfway-InOrder t u (inl e) (inl k) d lt =
    absurd (omega (arith, ap (λ (v : Task). v.id) e, ap (λ (v : Task). v.id) k))
halfway-InOrder t u (inl e) (inr (inl k)) d lt =
    absurd (omega (arith, ap (λ (v : Task). v.id) e, ap (λ (v : Task). v.id) k))
halfway-InOrder t u (inl e) (inr (inr k)) d lt = absurd k
halfway-InOrder t u (inr (inl e)) m d lt = cc (ap (λ (v : Task). v.state) e)
halfway-InOrder t u (inr (inr e)) m d lt = absurd e

after_run : World ℕ
unfolding run
after_run = record halfway {
  tasks =
      task 1 TaskState.done Step.validate_order (some Step.validate_picking)
      ∷ task 2 TaskState.done Step.validate_picking none
      ∷ [];
  input_file = some (record new_file { state = FileState.done; update_required = false });
  current_info = none;
  order = 1;
}

run-InOrder_example : InOrder after_run.tasks
unfolding after_run
run-InOrder_example =
    run-InOrder obliging 2 halfway {w' = after_run} halfway-InOrder (unfold run in refl)

-- The store has an order that the file does not have yet; JSON is read as its own text.
parse-process_example :
    parse (some "{1}") (λ s. some s) (λ s. s) (process new_file).0
    ≡ parse_payload (some "{1}") (λ s. some s) (λ s. s) (process new_file).0
parse-process_example = parse-process (some "{1}") (λ s. some s) (λ s. s) new_file refl
