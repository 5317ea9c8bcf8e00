-- ===== src/Workflow/Build.antt =====
-- What the statuses switch on: the task list of an order, whatever its statuses.
use mathlib.Core.Path.{fun_ext}
use mathlib.Core.List.{append-nil, append_assoc}
use jean_fourche.Base.{Bool, ◌||◌, ◌≡◌, ap, sym, ◌∙◌, List, [], ◌∷◌, ◌++◌, map, any, any-map}
use jean_fourche.Base.Sort.{sort_by}
use jean_fourche.Workflow.Steps.{
  Step, SubStatus, flag, workflow_task_list, TaskDict, build_task_list, collect, summed, index,
  reset_keeps_flags, reset_next_value_if_not_previous, ActiveTask,
}

-- The dictionary of six keys in the order of the steps.
abbrev dict_of : (Step → List Bool) → TaskDict
dict_of flags = map (λ s. (s, index s, flags s)) workflow_task_list

collect_lem :
    (ss : List SubStatus) (flags : Step → List Bool)
    → collect ss (dict_of flags) ≡ dict_of (λ step. flags step ++ map (λ s. flag s step) ss)
collect_lem [] flags = ap dict_of (fun_ext (λ step. sym (append-nil (flags step))))
collect_lem (s ∷ ss) flags =
    collect_lem ss (λ step. flags step ++ flag s step ∷ [])
    ∙ ap dict_of
        (fun_ext (λ step. append_assoc (flags step) (flag s step ∷ []) (map (λ x. flag x step) ss)))

-- An order with at least one status has the six steps, once each and in the order of the workflow,
-- and a step is switched on exactly if one of the statuses switches it on.
pub build_task_list_lem :
    (s : SubStatus) (ss : List SubStatus)
    → build_task_list (s ∷ ss)
      ≡ map (λ step. (step, any (λ x. flag x step) (s ∷ ss))) workflow_task_list
unfolding build_task_list
build_task_list_lem s ss =
    ap (λ d. reset_next_value_if_not_previous (sort d)) (collect_lem ss (λ step. flag s step ∷ []))
    ∙ reset_keeps_flags (sort (dict_of (λ step. flag s step ∷ map (λ x. flag x step) ss)))
    ∙ ap (λ f. map (λ step. (step, f step)) workflow_task_list) (fun_ext any_flag)
  where
    any_flag :
        (step : Step)
        → any (λ b. b) (flag s step ∷ map (λ x. flag x step) ss) ≡ any (λ x. flag x step) (s ∷ ss)
    any_flag step = ap (λ b. flag s step || b) (any-map (λ x. flag x step) (λ b. b) ss)

    sort : TaskDict → List ActiveTask
    sort d = sort_by (λ t. t.2) (summed d)
