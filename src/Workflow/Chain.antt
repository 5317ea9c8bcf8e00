-- ===== src/Workflow/Chain.antt =====
-- A pipeline as a chain of tasks: where a call finds its task, and what it finds next.
use jean_fourche.Base.{
  true, false, ◌<◌, ◌≡◌, refl, ap, none, some, List, [], ◌∷◌, ◌++◌, map, find?, All, arith, ◌==◌,
  if◌then◌else◌,
}
use jean_fourche.Workflow.Steps.{index}
use jean_fourche.Workflow.Pipeline.{
  Task, TaskState, is_finished, has_tasks_to_process, find_task, set_state,
}

-- Each task names the next one; ids and steps go up.
abbrev pub Chain : Task → List Task → Type 0
Chain t [] = t.next_step_method ≡ none
Chain t (u ∷ post) =
    (t.id < u.id)
    × (index t.current_step_method < index u.current_step_method)
    × (t.next_step_method ≡ some u.current_step_method)
    × Chain u post

abbrev pub Before : Task → Task → Type 0
Before t u = (u.id < t.id) × (index u.current_step_method < index t.current_step_method)

abbrev pub IsFinished : Task → Type 0
IsFinished t = is_finished t.state ≡ true

-- What a run that succeeds makes of a task.
abbrev pub complete : Task → Task
complete t = if is_finished t.state then t else record t { state = TaskState.done }

After-Chain : (t : Task) (post : List Task) → Chain t post → All (λ v. Before v t) post
After-Chain t [] h = tt
After-Chain t (u ∷ post) h = ((h.0, h.1), later t u (h.0, h.1) post (After-Chain u post h.3))
  where
    later :
        (t u : Task)
        → Before u t
        → (vs : List Task) → All (λ v. Before v u) vs
        → All (λ v. Before v t) vs
    later t u b [] h = tt
    later t u b (v ∷ vs) h = (omega arith, later t u b vs h.1)

pub Before-next :
    (t u : Task)
    → Before u t
    → (pre : List Task) → All (Before t) pre
    → All (Before u) (pre ++ t ∷ [])
Before-next t u b [] h = (b, tt)
Before-next t u b (v ∷ pre) h = (omega arith, Before-next t u b pre h.1)

pub find-split :
    (pre : List Task) (t : Task) (post : List Task)
    → All (Before t) pre
    → find? (λ u. u.id == t.id) (pre ++ t ∷ post) ≡ some t
find-split [] t post h = ground arith
find-split (u ∷ pre) t post h = ground (arith, find-split pre t post h.1)

set_state_after :
    (t : Task) (state : TaskState) (post : List Task)
    → All (λ v. Before v t) post
    → set_state t.id state post ≡ post
unfolding set_state
set_state_after t state [] h = refl
set_state_after t state (v ∷ post) h = ground (arith, set_state_after t state post h.1)

pub set_state-split :
    (pre : List Task) (t : Task) (state : TaskState) (post : List Task)
    → All (Before t) pre
    → Chain t post
    → set_state t.id state (pre ++ t ∷ post) ≡ pre ++ record t { state = state } ∷ post
unfolding set_state
set_state-split [] t state post h c =
    ground (arith, set_state_after t state post (After-Chain t post c))
set_state-split (u ∷ pre) t state post h c = ground (arith, set_state-split pre t state post h.1 c)

find_task_after :
    (t : Task) (post : List Task)
    → All (λ v. Before v t) post
    → find_task (some t.current_step_method) post ≡ []
unfolding find_task
find_task_after t [] h = refl
find_task_after t (v ∷ post) h = ground (arith, find_task_after t post h.1)

pub find_task-split :
    (pre : List Task) (t : Task) (post : List Task)
    → All (Before t) pre
    → Chain t post
    → find_task (some t.current_step_method) (pre ++ t ∷ post) ≡ t ∷ []
unfolding find_task
find_task-split [] t post h c = ground (arith, find_task_after t post (After-Chain t post c))
find_task-split (u ∷ pre) t post h c = ground (arith, find_task-split pre t post h.1 c)

pub complete_all : (ts : List Task) → has_tasks_to_process ts ≡ false → map complete ts ≡ ts
unfolding has_tasks_to_process
complete_all [] h = refl
complete_all (t ∷ ts) h = ground (arith, complete_all ts)

pub complete_done :
    (pre : List Task) (t : Task) (post : List Task)
    → is_finished t.state ≡ false
    → map complete (pre ++ record t { state = TaskState.done } ∷ post)
      ≡ map complete (pre ++ t ∷ post)
complete_done [] t post h = ground arith
complete_done (u ∷ pre) t post h = ap (λ r. complete u ∷ r) (complete_done pre t post h)

-- A chain links ids and steps, whatever the states.
pub Chain-state :
    (t : Task) (state : TaskState) (post : List Task)
    → Chain t post
    → Chain (record t { state = state }) post
Chain-state t state [] h = h
Chain-state t state (u ∷ post) h = h

pub Before-same :
    (t t' : Task)
    → t'.id ≡ t.id
    → t'.current_step_method ≡ t.current_step_method
    → (pre : List Task) → All (Before t) pre
    → All (Before t') pre
Before-same t t' i s [] h = tt
Before-same t t' i s (u ∷ pre) h =
    ((omega arith, omega (arith, ap index s)), Before-same t t' i s pre h.1)

pub nothing_left :
    (pre : List Task) (t : Task)
    → All IsFinished pre
    → IsFinished t
    → has_tasks_to_process (pre ++ t ∷ []) ≡ false
unfolding has_tasks_to_process
nothing_left [] t h f = ground arith
nothing_left (u ∷ pre) t h f = ground (arith, nothing_left pre t h.1 f)

pub All-snoc :
    (P : Task → Type 0) (pre : List Task) (t : Task) → All P pre → P t → All P (pre ++ t ∷ [])
All-snoc P [] t h p = (p, tt)
All-snoc P (u ∷ pre) t h p = (h.0, All-snoc P pre t h.1 p)
