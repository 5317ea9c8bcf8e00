-- ===== src/Workflow/Complete.antt =====
-- A pipeline whose steps all succeed runs to its end, whatever the statuses of the order.
use jean_fourche.Base.{
  ℕ, zero, suc, String, Bool, true, false, ◌<◌, ◌≡◌, refl, ap, ◌∙◌, inl, inr, Option, none, some,
  List, [], ◌∷◌, ◌++◌, map, any, All, arith, length, Bool-cases,
}
use jean_fourche.Base.Result.{ok}
use jean_fourche.Workflow.Steps.{Step, SubStatus, index, build_task_list, flag, workflow_task_list}
use jean_fourche.Workflow.Build.{build_task_list_lem}
use jean_fourche.Workflow.File.{InputFile, action_done, action_process}
use jean_fourche.Workflow.Pipeline.{
  Task, TaskState, Job, run_task, World, Outcome, success, is_finished, has_tasks_to_process,
  is_not_done, trigger, mark_input_as_done,
}
use jean_fourche.Workflow.Order.{
  run_job, work, create_tasks, build_and_run_workflow, start_workflow, new_pipeline,
}
use jean_fourche.Workflow.Chain.{
  Chain, Before, IsFinished, Before-next, complete_done, Chain-state, Before-same, All-snoc,
}
use jean_fourche.Workflow.Calls.{
  Completed, Continues, MoreContinue, at, after_call, ended, run_finished, run_open,
}

module _ {O : Type 0} (order_method : Step → Bool → O → Outcome × Option String × O)
    (succeeds : (s : Step) (b : Bool) (o : O) → (order_method s b o).0 ≡ success) where
  -- One task is run, and the rest continues.
  work-finished :
      (pre : List Task) (t : Task) (post : List Task) (f : InputFile)
      → All (Before t) pre
      → All IsFinished pre
      → Chain t post
      → ((t' : Task)
          → t'.id ≡ t.id
          → t'.current_step_method ≡ t.current_step_method
          → IsFinished t'
          → MoreContinue order_method succeeds pre t' post f)
      → Continues order_method succeeds pre t post f
  unfolding work
  work-finished pre t post f b fin c more zero info skip o h = absurd (omega arith)
  work-finished pre t post f b fin c more (suc n) info skip o h =
      elim (Bool-cases (is_finished t.state)) [
        | inl ft ↦
            rw
              (run_finished order_method succeeds pre t post (at (pre ++ t ∷ post) [] f info skip o)
                refl b ft)
              (after_call order_method succeeds pre t post f (more t refl refl ft) b fin ft c n info
                skip o _ (omega arith))
        | inr ft ↦
            (let t' : Task = record t { state = TaskState.done } in
              rw (run_open order_method succeeds pre t post f info skip o b c ft) (
                recount ft (
                  after_call order_method succeeds pre t' post f (more t' refl refl refl) b fin refl
                    (Chain-state t TaskState.done post c) n none skip
                    (order_method t.current_step_method skip o).2 _ (omega arith))))
      ]
    where
      recount :
          is_finished t.state ≡ false
          → {w : World O} → Completed (pre ++ record t { state = TaskState.done } ∷ post) f w
          → Completed (pre ++ t ∷ post) f w
      recount ft done = record {
        tasks_done = done.tasks_done ∙ complete_done pre t post ft;
        file_done = done.file_done;
        queue_empty = done.queue_empty;
      }

  work-Chain :
      (pre : List Task) (t : Task) (post : List Task) (f : InputFile)
      → All (Before t) pre
      → All IsFinished pre
      → Chain t post
      → Continues order_method succeeds pre t post f
  work-Chain pre t [] f b fin c = work-finished pre t [] f b fin c (λ t' i s ft. tt)
  work-Chain pre t (u ∷ rest) f b fin c = work-finished pre t (u ∷ rest) f b fin c λ t' i s ft.
      work-Chain (pre ++ t' ∷ []) u rest f
        (Before-next t' u (omega arith, omega (arith, c.1, ap index s)) pre
          (Before-same t t' i s pre b))
        (All-snoc IsFinished pre t' fin ft) c.3

  started :
      (t : Task) (post : List Task) (f : InputFile) (skip : Bool) (o : O)
      → is_not_done t.state ≡ true
      → has_tasks_to_process (t ∷ post) ≡ true
      → run_job order_method trigger
          (record (start_workflow (at (t ∷ post) [] f none skip o)) { delayed = [] })
        ≡ ok (at (t ∷ post) (run_task t.id ∷ []) (action_process f) none skip o)
  unfolding run_job start_workflow
  started t post f skip o new h = ground arith

  start_queue :
      (ts : List Task) (f : InputFile) (skip : Bool) (o : O)
      → has_tasks_to_process ts ≡ true
      → (start_workflow (at ts [] f none skip o)).delayed ≡ trigger ∷ []
  unfolding start_workflow
  start_queue ts f skip o h = ground arith

  start_idle :
      (ts : List Task) (f : InputFile) (skip : Bool) (o : O)
      → has_tasks_to_process ts ≡ false
      → start_workflow (at ts [] f none skip o) ≡ mark_input_as_done (at ts [] f none skip o)
  unfolding start_workflow
  start_idle ts f skip o h = ground arith

  work_first :
      (n : ℕ) (w : World O) (job : Job) {w' : World O}
      → w.delayed ≡ job ∷ []
      → run_job order_method job (record w { delayed = [] }) ≡ ok w'
      → work order_method (suc n) w ≡ work order_method n w'
  unfolding work
  work_first n w job h e = ground arith

  same_file :
      {ts : List Task} {f : InputFile} {w : World O}
      → Completed ts (action_process f) w
      → Completed ts f w
  unfolding action_done action_process
  same_file c = record {
    tasks_done = c.tasks_done;
    file_done = c.file_done;
    queue_empty = c.queue_empty;
  }

  start_completes :
      (t : Task) (post : List Task) (f : InputFile) (skip : Bool) (o : O) (n : ℕ)
      → is_not_done t.state ≡ true
      → Chain t post
      → length post < n
      → Completed
          (t ∷ post)
          f
          (work order_method (suc n) (start_workflow (at (t ∷ post) [] f none skip o)))
  start_completes t post f skip o n new c h = elim (Bool-cases (has_tasks_to_process (t ∷ post))) [
    | inl left ↦
        rw
          (work_first n (start_workflow (at (t ∷ post) [] f none skip o)) trigger
            (start_queue (t ∷ post) f skip o left) (started t post f skip o new left))
          (same_file (work-Chain [] t post (action_process f) tt tt c n none skip o h))
    | inr over ↦
        ended order_method succeeds (t ∷ post) f (suc n) none skip o over _
          (start_idle (t ∷ post) f skip o over)
  ]

  six_complete :
      (e : Step → Bool) (id : ℕ) (f : InputFile) (skip : Bool) (o : O)
      → let ts = create_tasks id (map (λ step. (step, e step)) workflow_task_list) in
        Completed ts f (work order_method 8 (start_workflow (at ts [] f none skip o)))
  unfolding create_tasks
  six_complete e id f skip o =
      start_completes _ _ f skip o 7 (ground arith)
        ((
          omega arith,
          omega arith,
          refl,
          (
            omega arith,
            omega arith,
            refl,
            (
              omega arith,
              omega arith,
              refl,
              (omega arith, omega arith, refl, (omega arith, omega arith, refl, refl)),
            ),
          ),
        ))
        (omega arith)

  -- A new order, whatever its statuses (one at least): if every step succeeds, then the jobs that
  -- the pipeline delays end by themselves, within eight; then each task that was switched on is
  -- done and the others are skipped, the input file is done, and no job is left.
  pub workflow_completes :
      (s : SubStatus) (ss : List SubStatus) (first_id : ℕ) (f : InputFile) (skip : Bool) (o : O)
      → (w : World O) × (build_and_run_workflow none first_id
            (build_task_list (s ∷ ss))
            (some f)
            skip
            o
          ≡ ok w)
        × Completed (create_tasks first_id (build_task_list (s ∷ ss))) f (work order_method 8 w)
  unfolding build_and_run_workflow
  workflow_completes s ss first_id f skip o = (
    start_workflow (new_pipeline first_id (build_task_list (s ∷ ss)) (some f) skip [] o),
    refl,
    rw build_task_list_lem
        (six_complete (λ step. any (λ x. flag x step) (s ∷ ss)) first_id f skip o),
  )
