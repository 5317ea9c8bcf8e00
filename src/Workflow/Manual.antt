-- ===== src/Workflow/Manual.antt =====
-- The buttons of a pipeline's tasks, and what a failed or an updated task leaves alone.
use jean_fourche.Base.{
  ℕ, String, Bool, true, false, ◌<◌, ◌≡◌, ◌≢◌, refl, ap, sym, ◌∙◌, inl, inr, ◌⊎◌, Option, none,
  some, List, [], ◌∷◌, find?, In, arith, ◌==◌, Bool-cases, Option-cases,
}
use mathlib.Core.Path.{subst}
use jean_fourche.Base.Result.{ok}
use jean_fourche.Workflow.Steps.{Step}
use jean_fourche.Workflow.Pipeline.{
  Task, TaskState, World, Outcome, is_finished, set_state, validate_previous, run, task_force_done,
  finish_if_last,
}

-- A task that is done has only done and skipped tasks before it.
abbrev pub InOrder : List Task → Type 0
InOrder ts =
    (t u : Task)
    → In t ts
    → In u ts
    → t.state ≡ TaskState.done
    → u.id < t.id
    → is_finished u.state ≡ true

find-In :
    (id : ℕ) (ts : List Task) {t : Task}
    → find? (λ t. t.id == id) ts ≡ some t
    → In t ts × (t.id ≡ id)
find-In id [] h = cc
find-In id (u ∷ ts) {t} h = ground (arith, find-In id ts {t = t})

In-set_state :
    (id : ℕ) (state : TaskState) (ts : List Task) (t : Task)
    → In t (set_state id state ts)
    → (In t ts × (t.id ≢ id)) ⊎ ((t.state ≡ state) × (t.id ≡ id))
unfolding set_state
In-set_state id state [] t m = absurd m
In-set_state id state (u ∷ ts) t m = ground (arith, In-set_state id state ts t)

validated :
    (id : ℕ) (ts : List Task) (u : Task)
    → validate_previous id ts ≡ true
    → In u ts
    → u.id < id
    → is_finished u.state ≡ true
unfolding validate_previous
validated id [] u h m lt = absurd m
validated id (t ∷ ts) u h (inl e) lt =
    let lt' : t.id < id = subst (λ v. v.id < id) (sym e) lt in
    subst (λ v. is_finished v.state ≡ true) e (ground arith)
validated id (t ∷ ts) u h (inr m) lt = validated id ts u (ground arith) m lt

done-InOrder :
    (id : ℕ) (ts : List Task)
    → InOrder ts
    → validate_previous id ts ≡ true
    → InOrder (set_state id TaskState.done ts)
done-InOrder id ts h v t u mt mu d lt =
    go (In-set_state id TaskState.done ts t mt) (In-set_state id TaskState.done ts u mu)
  where
    go :
        (In t ts × (t.id ≢ id)) ⊎ ((t.state ≡ TaskState.done) × (t.id ≡ id))
        → (In u ts × (u.id ≢ id)) ⊎ ((u.state ≡ TaskState.done) × (u.id ≡ id))
        → is_finished u.state ≡ true
    go t_is (inr new) = ap is_finished new.0
    go (inl old) (inl other) = h t u old.0 other.0 d lt
    go (inr new) (inl other) = validated id ts u v other.0 (omega arith)

stuck-InOrder :
    (id : ℕ) (state : TaskState) (ts : List Task) (t : Task)
    → InOrder ts
    → In t ts
    → t.id ≡ id
    → is_finished t.state ≡ false
    → state ≢ TaskState.done
    → InOrder (set_state id state ts)
stuck-InOrder id state ts s h ms same open_ ne t u mt mu d lt =
    go (In-set_state id state ts t mt) (In-set_state id state ts u mu)
  where
    go :
        (In t ts × (t.id ≢ id)) ⊎ ((t.state ≡ state) × (t.id ≡ id))
        → (In u ts × (u.id ≢ id)) ⊎ ((u.state ≡ state) × (u.id ≡ id))
        → is_finished u.state ≡ true
    go (inr new) u_is = absurd (ne (sym new.0 ∙ d))
    go (inl old) (inl other) = h t u old.0 other.0 d lt
    go (inl old) (inr other) =
        let finished : is_finished s.state ≡ true = h t s old.0 ms d (omega arith) in absurd (cc)

module _ {O : Type 0} where
  tasks-finish_if_last : (t : Task) (w : World O) → (finish_if_last t w).tasks ≡ w.tasks
  unfolding finish_if_last
  tasks-finish_if_last t w = ground arith

  -- The button that marks a task as done keeps the tasks in order.
  pub task_force_done-InOrder :
      (id : ℕ) (w : World O) {w' : World O}
      → InOrder w.tasks
      → task_force_done id w ≡ ok w'
      → InOrder w'.tasks
  unfolding task_force_done
  task_force_done-InOrder id w {w'} h e = elim (Bool-cases (validate_previous id w.tasks)) [
    | inl v ↦
        (let same : w'.tasks ≡ set_state id TaskState.done w.tasks = ground arith in
          subst InOrder (sym same) (done-InOrder id w.tasks h v))
    | inr v ↦ absurd (ground arith)
  ]

  module _ (order_method : Step → Bool → O → Outcome × Option String × O) where
    run_tasks :
        (id : ℕ) (w : World O) (t : Task) {w' : World O}
        → find? (λ u. u.id == id) w.tasks ≡ some t
        → run order_method id w ≡ ok w'
        → (validate_previous id w.tasks ≡ true)
          × (is_finished t.state ≡ false)
          × ((w'.tasks ≡ set_state t.id TaskState.done w.tasks)
              ⊎ (w'.tasks ≡ set_state t.id TaskState.in_process w.tasks)
              ⊎ (w'.tasks ≡ set_state t.id TaskState.failed w.tasks))
    unfolding run
    run_tasks id w t f e = (ground arith, ground arith, ground arith)

    -- The button that runs a task keeps the tasks in order, whatever comes of the task.
    pub run-InOrder :
        (id : ℕ) (w : World O) {w' : World O}
        → InOrder w.tasks
        → run order_method id w ≡ ok w'
        → InOrder w'.tasks
    run-InOrder id w {w'} h e = found (Option-cases (find? (λ u. u.id == id) w.tasks))
      where
        found :
            (find? (λ u. u.id == id) w.tasks ≡ none)
              ⊎ ((t : Task) × (find? (λ u. u.id == id) w.tasks ≡ some t))
            → InOrder w'.tasks
        found (inl missing) = absurd (unfold run in ground arith)
        found (inr (t, f)) =
            let (v, is_open, state) = run_tasks id w t f e in
            let (m, same) = find-In id w.tasks f in
            elim state [
              | inl d ↦ subst InOrder (sym d) (
                  done-InOrder t.id w.tasks h
                    (subst (λ i. validate_previous i w.tasks ≡ true) (sym same) v))
              | inr (inl p) ↦
                  subst InOrder (sym p)
                    (stuck-InOrder t.id TaskState.in_process w.tasks t h m refl is_open (λ c. cc))
              | inr (inr p) ↦
                  subst InOrder (sym p)
                    (stuck-InOrder t.id TaskState.failed w.tasks t h m refl is_open (λ c. cc))
            ]
