-- ===== src/Workflow/Steps.antt =====
-- The tasks of the order workflow, as the order statuses switch them on:
-- integration/models/external/integration_sale_order_sub_status_external.py and the list that
-- integration/models/sale_order.py builds of them.
use jean_fourche.Base.{
  ℕ, suc, Bool, false, not, ◌&&◌, ◌≡◌, refl, ap, List, [], ◌∷◌, ◌++◌, map, any, ◌==◌, leb,
  if◌then◌else◌, length, ◌+◌,
}
use jean_fourche.Base.Sort.{sort_by}

-- `_get_workflow_task_list`
pub data Step : Type 0 where
  validate_order validate_picking create_invoice validate_invoice send_invoice register_payment :
      Step

abbrev pub workflow_task_list : List Step
workflow_task_list =
    validate_order ∷ validate_picking ∷ create_invoice ∷ validate_invoice ∷ send_invoice
    ∷ register_payment ∷ []

-- The place of a step in that list, from 1: its priority, and what tells two names apart.
abbrev pub index : Step → ℕ
index validate_order = 1
index validate_picking = 2
index create_invoice = 3
index validate_invoice = 4
index send_invoice = 5
index register_payment = 6

abbrev pub same_step : Step → Step → Bool
same_step a b = index a == index b

-- The flags of an order status.
pub record SubStatus : Type 0 where
  pub validate_order : Bool
  pub validate_picking : Bool
  pub create_invoice : Bool
  pub validate_invoice : Bool
  pub send_invoice : Bool
  pub register_payment : Bool
  pub invoice_journal : Bool

-- getattr(self, task_name)
abbrev pub flag : SubStatus → Step → Bool
flag s Step.validate_order = s.validate_order
flag s Step.validate_picking = s.validate_picking
flag s Step.create_invoice = s.create_invoice
flag s Step.validate_invoice = s.validate_invoice
flag s Step.send_invoice = s.send_invoice
flag s Step.register_payment = s.register_payment

-- The handlers of the status form.
unfoldable pub onchange_validate_order : SubStatus → SubStatus
onchange_validate_order s = if s.validate_order then s else record s {
  validate_picking = false;
  create_invoice = false;
  invoice_journal = false;
  validate_invoice = false;
  send_invoice = false;
  register_payment = false;
}

unfoldable pub onchange_create_invoice : SubStatus → SubStatus
onchange_create_invoice s = if s.create_invoice then s else record s {
  invoice_journal = false;
  validate_invoice = false;
  send_invoice = false;
  register_payment = false;
}

unfoldable pub onchange_validate_invoice : SubStatus → SubStatus
onchange_validate_invoice s =
    if s.validate_invoice then s else record s { send_invoice = false; register_payment = false }

abbrev pub ActiveTask : Type 0
ActiveTask = Step × Bool × ℕ

-- [(task_name, bool(getattr(self, task_name)), idx) for idx, task_name in enumerate(…, start=idx)]
abbrev pub active_from : SubStatus → ℕ → List Step → List ActiveTask
active_from s idx [] = []
active_from s idx (name ∷ rest) = (name, flag s name, idx) ∷ active_from s (suc idx) rest

unfoldable pub retrieve_active_workflow_tasks : SubStatus → List ActiveTask
retrieve_active_workflow_tasks s = active_from s 1 workflow_task_list

-- `task_dict`: the flags that are met under a key (name, priority), keys in order of insertion.
abbrev pub TaskDict : Type 0
TaskDict = List (Step × ℕ × List Bool)

abbrev pub add_task : ActiveTask → TaskDict → TaskDict
add_task (name, enable, priority) [] = (name, priority, enable ∷ []) ∷ []
add_task (name, enable, priority) ((n, p, flags) ∷ dict) =
    if same_step n name && (p == priority)
    then (n, p, flags ++ enable ∷ []) ∷ dict
    else (n, p, flags) ∷ add_task (name, enable, priority) dict

abbrev pub add_tasks : List ActiveTask → TaskDict → TaskDict
add_tasks [] dict = dict
add_tasks (t ∷ ts) dict = add_tasks ts (add_task t dict)

abbrev pub collect : List SubStatus → TaskDict → TaskDict
collect [] dict = dict
collect (s ∷ ss) dict = collect ss (add_tasks (active_from s 1 workflow_task_list) dict)

abbrev pub summed : TaskDict → List ActiveTask
summed dict = map (λ e. (e.0, any (λ b. b) e.2, e.1)) dict

-- `reset_next_value_if_not_previous`, with the index that it computes and the loop's counter.
abbrev pub reset_loop : ℕ → ℕ → ℕ → List ActiveTask → List (Step × Bool)
reset_loop list_len idx reset_index [] = []
reset_loop list_len idx reset_index ((name, enable, priority) ∷ rest) =
    let reset =
      (if (reset_index == 0) && leb (idx + 1) list_len && not enable
        then idx + 1
        else reset_index) in
    (name, enable) ∷ reset_loop list_len (idx + 1) reset rest

unfoldable pub reset_next_value_if_not_previous : List ActiveTask → List (Step × Bool)
reset_next_value_if_not_previous task_list = reset_loop (length task_list) 0 0 task_list

-- The task list of `_build_task_list_and_vals`, for the statuses that were found.
unfoldable pub build_task_list : List SubStatus → List (Step × Bool)
unfolding sort_by reset_next_value_if_not_previous
build_task_list states =
    reset_next_value_if_not_previous (sort_by (λ t. t.2) (summed (collect states [])))

-- Contrary to its comment, `reset_next_value_if_not_previous` switches no task off: whatever the
-- tasks, each keeps its name and its flag.
pub reset_keeps_flags :
    (task_list : List ActiveTask)
    → reset_next_value_if_not_previous task_list ≡ map (λ t. (t.0, t.1)) task_list
unfolding reset_next_value_if_not_previous
reset_keeps_flags task_list = loop_keeps_flags (length task_list) 0 0 task_list
  where
    loop_keeps_flags :
        (n idx reset : ℕ) (ts : List ActiveTask)
        → reset_loop n idx reset ts ≡ map (λ t. (t.0, t.1)) ts
    loop_keeps_flags n idx reset [] = refl
    loop_keeps_flags n idx reset (t ∷ ts) =
        ap (λ r. (t.0, t.1) ∷ r) (loop_keeps_flags n (idx + 1) _ ts)
