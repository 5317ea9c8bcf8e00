-- ===== src/Workflow/Calls.antt =====
-- The calls of a pipeline whose steps all succeed: what each leaves of the chain of tasks.
use mathlib.Core.List.{append_assoc}
use mathlib.Core.Path.{subst}
use jean_fourche.Base.{
  ℕ, zero, suc, String, Bool, true, false, ◌<◌, ◌≡◌, refl, ap, sym, ◌∙◌, inl, inr, Option, none,
  some, List, [], ◌∷◌, ◌++◌, map, find?, All, arith, ◌==◌, length, Bool-cases,
}
use jean_fourche.Base.Result.{ok}
use jean_fourche.Workflow.Steps.{Step}
use jean_fourche.Workflow.File.{InputFile, action_done}
use jean_fourche.Workflow.Pipeline.{
  Task, TaskState, Job, run_task, World, Outcome, success, is_finished, has_tasks_to_process,
  find_task, mark_input_as_done, call_pipeline_step, run_and_call_next,
}
use jean_fourche.Workflow.Order.{settle, work}
use jean_fourche.Workflow.Chain.{
  Chain, Before, IsFinished, complete, Before-next, find-split, set_state-split, find_task-split,
  complete_all, nothing_left,
}

-- The end of a run that began with the tasks `ts` and the input file `f`.
pub record Completed {O : Type 0} (ts : List Task) (f : InputFile) (w : World O) : Type 0 where
  pub tasks_done : w.tasks ≡ map complete ts
  pub file_done : w.input_file ≡ some (action_done f)
  pub queue_empty : w.delayed ≡ []

abbrev pub at : {O : Type 0} → List Task → List Job → InputFile → Option String → Bool → O → World O
at ts jobs f info skip o = record {
  tasks = ts;
  input_file = some f;
  current_info = info;
  skip_dispatch = skip;
  delayed = jobs;
  order = o;
}

module _ {O : Type 0} (order_method : Step → Bool → O → Outcome × Option String × O)
    (succeeds : (s : Step) (b : Bool) (o : O) → (order_method s b o).0 ≡ success) where
  -- With no job left a worker stops.
  work_idle : (n : ℕ) (w : World O) → w.delayed ≡ [] → work order_method n w ≡ w
  unfolding work
  work_idle zero w h = refl
  work_idle (suc n) w h = ground arith

  pub ended :
      (ts : List Task) (f : InputFile) (n : ℕ) (info : Option String) (skip : Bool) (o : O)
      → has_tasks_to_process ts ≡ false
      → (w : World O) → w ≡ mark_input_as_done (at ts [] f info skip o)
      → Completed ts f (work order_method n w)
  unfolding mark_input_as_done
  ended ts f n info skip o h w e =
      subst (Completed ts f) (sym (work_idle n w (ap (λ (v : World O). v.delayed) e))) (record {
        tasks_done = ap (λ (v : World O). v.tasks) e ∙ sym (complete_all ts h);
        file_done = ap (λ (v : World O). v.input_file) e;
        queue_empty = ap (λ (v : World O). v.delayed) e;
      })

  call_last :
      (step : Option Step) (w : World O)
      → has_tasks_to_process w.tasks ≡ false
      → call_pipeline_step step w ≡ ok (mark_input_as_done w)
  unfolding call_pipeline_step
  call_last step w h = ground arith

  call_one :
      (step : Option Step) (w : World O) (u : Task)
      → has_tasks_to_process w.tasks ≡ true
      → find_task step w.tasks ≡ u ∷ []
      → call_pipeline_step step w ≡ ok (record w { delayed = w.delayed ++ run_task u.id ∷ [] })
  unfolding call_pipeline_step
  call_one step w u h e = ground arith

  call_next :
      (pre : List Task) (t u : Task) (post : List Task) (f : InputFile) (info : Option String)
      (skip : Bool) (o : O)
      → has_tasks_to_process (pre ++ t ∷ u ∷ post) ≡ true
      → All (Before t) pre
      → Chain t (u ∷ post)
      → call_pipeline_step t.next_step_method (at (pre ++ t ∷ u ∷ post) [] f info skip o)
        ≡ ok (at (pre ++ t ∷ u ∷ post) (run_task u.id ∷ []) f info skip o)
  call_next pre t u post f info skip o h b c =
      call_one t.next_step_method (at (pre ++ t ∷ u ∷ post) [] f info skip o) u h found
    where
      found : find_task t.next_step_method (pre ++ t ∷ u ∷ post) ≡ u ∷ []
      found =
          ap (λ s. find_task s (pre ++ t ∷ u ∷ post)) c.2
          ∙ ap (find_task (some u.current_step_method)) (sym (append_assoc pre (t ∷ []) (u ∷ post)))
          ∙ find_task-split (pre ++ t ∷ []) u post (Before-next t u (c.0, c.1) pre b) c.3

  -- From a task that is finished, whatever the rest.
  abbrev pub Continues : List Task → Task → List Task → InputFile → Type 0
  Continues pre t post f =
      (n : ℕ) (info : Option String) (skip : Bool) (o : O)
      → length post < n
      → Completed (pre ++ t ∷ post) f
          (work order_method n (at (pre ++ t ∷ post) (run_task t.id ∷ []) f info skip o))

  abbrev pub MoreContinue : List Task → Task → List Task → InputFile → Type 0
  MoreContinue pre t [] f = Unit
  MoreContinue pre t (u ∷ rest) f = Continues (pre ++ t ∷ []) u rest f

  -- What a call of the next step leaves, run on.
  pub after_call :
      (pre : List Task) (t : Task) (post : List Task) (f : InputFile)
      → MoreContinue pre t post f
      → All (Before t) pre
      → All IsFinished pre
      → IsFinished t
      → Chain t post
      → (n : ℕ) (info : Option String) (skip : Bool) (o : O) (w : World O) → length post < suc n
      → Completed (pre ++ t ∷ post) f (
          work order_method n (
            settle order_method w
              (call_pipeline_step t.next_step_method (at (pre ++ t ∷ post) [] f info skip o))))
  after_call pre t [] f more b fin ft c n info skip o w h =
      let over : has_tasks_to_process (pre ++ t ∷ []) ≡ false = nothing_left pre t fin ft in
      rw (call_last t.next_step_method (at (pre ++ t ∷ []) [] f info skip o) over)
        (ended (pre ++ t ∷ []) f n info skip o over _ refl)
  after_call pre t (u ∷ rest) f more b fin ft c n info skip o w h =
      elim (Bool-cases (has_tasks_to_process (pre ++ t ∷ u ∷ rest))) [
        | inl some_left ↦ rw (call_next pre t u rest f info skip o some_left b c) (
            subst
              (λ ts.
                Completed ts f (work order_method n (at ts (run_task u.id ∷ []) f info skip o)))
              (append_assoc pre (t ∷ []) (u ∷ rest)) (more n info skip o (omega arith)))
        | inr over ↦
            rw (call_last t.next_step_method (at (pre ++ t ∷ u ∷ rest) [] f info skip o) over)
              (ended (pre ++ t ∷ u ∷ rest) f n info skip o over _ refl)
      ]

  pub run_finished :
      (pre : List Task) (t : Task) (post : List Task) (w : World O)
      → w.tasks ≡ pre ++ t ∷ post
      → All (Before t) pre
      → IsFinished t
      → run_and_call_next order_method t.id w ≡ call_pipeline_step t.next_step_method w
  unfolding run_and_call_next
  run_finished pre t post w e b ft =
      let found : find? (λ u. u.id == t.id) w.tasks ≡ some t =
        ap (find? (λ u. u.id == t.id)) e ∙ find-split pre t post b in
      ground (arith, found)

  pub run_open :
      (pre : List Task) (t : Task) (post : List Task) (f : InputFile) (info : Option String)
      (skip : Bool) (o : O)
      → All (Before t) pre
      → Chain t post
      → is_finished t.state ≡ false
      → run_and_call_next order_method t.id (at (pre ++ t ∷ post) [] f info skip o)
        ≡ call_pipeline_step t.next_step_method (
            at
              (pre ++ record t { state = TaskState.done } ∷ post)
              []
              f
              none
              skip
              (order_method t.current_step_method skip o).2)
  unfolding run_and_call_next
  run_open pre t post f info skip o b c ft = ground (
    arith,
    find-split pre t post b,
    set_state-split pre t TaskState.done post b c,
    succeeds t.current_step_method skip o,
  )
