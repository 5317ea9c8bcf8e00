-- ===== src/Orders/Worked.antt =====
-- What comes of an input file: `create_order_from_input` of integration/models/sale_integration.py, from
-- the parsed file to the order and its workflow.
use mathlib.Core.Path.{subst}
use jean_fourche.Base.{
  Bool-cases, ℕ, suc, String, Bool, true, false, ◌≡◌, ◌⊎◌, inl, inr, refl, ap, sym, ◌∙◌, Option,
  none, some, List, [], ◌∷◌, ◌++◌, if◌then◌else◌,
}
use jean_fourche.Base.Result.{Result, ok, ◌>>=◌, lift, Holds, Holds-bind, Holds-bind_any}
use jean_fourche.Mappings.Mixin.{create_integration_mapping}
use jean_fourche.Partners.Records.{Settings as ContactSettings}
use jean_fourche.Partners.Odoo.{Odoo}
use jean_fourche.Workflow.Steps.{Step}
use jean_fourche.Workflow.File.{InputFile, FileState, action_done, action_process}
use jean_fourche.Workflow.Process.{parse}
use jean_fourche.Workflow.Pipeline.{
  World as Pipeline, trigger, has_tasks_to_process, mark_input_to_process, mark_input_as_done,
}
use jean_fourche.Workflow.Order.{build_and_run_workflow, start_workflow, new_pipeline, create_tasks}
use jean_fourche.Orders.Data.{Error, file, mapping, OrderData, Settings}
use jean_fourche.Orders.Env.{Env, World}
use jean_fourche.Orders.Tasks.{PipelineVals, build_task_list_and_vals}
use jean_fourche.Orders.Create.{
  mapped_orders, extract_workflow_data, new_order, with_mapping, found_or_new, create_order,
}
use jean_fourche.Orders.Input.{
  Stage, with_file, file_of, cancelled, with_pipeline, run_workflow, after_order,
  create_order_from_input, integration_action_cancel,
}
use jean_fourche.Orders.Known.{KeepsStatus}
use jean_fourche.Orders.Started.{IsReady, new_order-IsReady}
use jean_fourche.Orders.Buildable.{CanStart, IsReady-CanStart}

-- A pipeline with tasks waits for its trigger while its file is processed; without any, the file is done.
abbrev pub IsStarted : {O : Type 0} → Pipeline O → InputFile → Type 0
IsStarted p f =
    ((has_tasks_to_process p.tasks ≡ true)
      × (p.delayed ≡ trigger ∷ [])
      × (f.state ≡ FileState.workflow_process))
    ⊎ ((has_tasks_to_process p.tasks ≡ false) × (p.delayed ≡ []) × (f.state ≡ FileState.done))

start_workflow-IsStarted :
    {O : Type 0} (first_id : ℕ) (tasks : List (Step × Bool)) (f : InputFile) (order : O)
    → IsStarted
        (start_workflow (new_pipeline first_id tasks (some f) false [] order))
        (file_of f (start_workflow (new_pipeline first_id tasks (some f) false [] order)))
unfolding start_workflow has_tasks_to_process mark_input_to_process mark_input_as_done
    action_process action_done create_tasks
start_workflow-IsStarted {O} first_id tasks f order = by_tasks (has_tasks_to_process p.tasks) refl
  where
    p : Pipeline O
    p = new_pipeline first_id tasks (some f) false [] order

    started : Bool → Pipeline O
    started b =
        if b
        then (let q = mark_input_to_process p in record q { delayed = q.delayed ++ trigger ∷ [] })
        else mark_input_as_done p

    by_tasks :
        (b : Bool)
        → has_tasks_to_process p.tasks ≡ b
        → IsStarted (started b) (file_of f (started b))
    by_tasks true t = inl (t, refl, refl)
    by_tasks false t = inr (t, refl, refl)

module _ {C : Type 0} (env : Env C) (s : Settings) (k : KeepsStatus env) (o : Odoo)
    (cs : ContactSettings) (d : OrderData) where
  -- One order, whose tasks can be built.
  abbrev Made : List ℕ × World C → Type 0
  Made r = (id : ℕ) × (r.0 ≡ id ∷ []) × IsReady env s k d r.1

  create_order-Made :
      (w : World C)
      → mapped_orders s.id d.id w.order_mappings ≡ []
      → Holds Made (create_order env s o cs d w)
  unfolding create_order create_integration_mapping
  create_order-Made w e =
      subst (λ ids. Holds Made (found_or_new env s o cs d w ids)) (sym e)
        (Holds-bind Made (λ a. IsReady env s k d a.1) (new_order env s o cs d w)
          (with_mapping env s o cs d) (new_order-IsReady env s k o cs d w)
          (λ a h.
            Holds-bind_any Made
              (lift mapping (
                create_integration_mapping s.id a.0.id d.id (some a.0.name) none
                  a.1.order_mappings))
              (λ db. ok (
                a.0.id ∷ [],
                record a.1 {
                  orders = a.1.orders ++ a.0 ∷ [];
                  next_order = suc a.1.next_order;
                  order_mappings = db;
                },
              ))
              (λ _. (a.0.id, refl, h))))

  module _ {O J : Type 0} (order_is_cancelled : O → Bool) (action_cancel : O → O)
      (receive_order : Option String) (to_dict : String → Option J)
      (parse_order : J → OrderData) where
    -- An order that was cancelled at the store has no pipeline, and its file is done; another one has
    -- its pipeline.
    abbrev pub IsWorkedOff : Stage C O → Type 0
    IsWorkedOff st =
        ((d.is_cancelled ≡ true) × (st.pipeline ≡ none) × (st.input_file.state ≡ FileState.done))
        ⊎ ((d.is_cancelled ≡ false)
            × (p : Pipeline O) × (st.pipeline ≡ some p)
            × IsStarted p st.input_file)

    abbrev Ends : List ℕ → World C → Result Error (List ℕ × Stage C O) → Type 0
    Ends ids w m = (st : Stage C O) × (m ≡ ok (ids, st)) × (st.world ≡ w) × IsWorkedOff st

    run_workflow-Ends :
        (first_id : ℕ) (st : Stage C O) (f : InputFile) (ids : List ℕ) (w : World C)
        → d.is_cancelled ≡ false
        → st.pipeline ≡ none
        → CanStart env s k d w
        → Ends ids w (
            run_workflow order_is_cancelled action_cancel env s o cs receive_order to_dict
              parse_order first_id d st f w
            >>= λ st'. ok (ids, st'))
    unfolding build_task_list_and_vals build_and_run_workflow extract_workflow_data start_workflow
        create_tasks
    run_workflow-Ends first_id st f ids w c n (ts, e) = (
      finish ts p,
      ap (λ m. (m >>= λ tasks. runs tasks st.pipeline) >>= λ st'. ok (ids, st')) e
          ∙ ap (λ q. runs ts q >>= λ st'. ok (ids, st')) n,
      refl,
      inr (c, p, refl, start_workflow-IsStarted first_id ts.0 f st.order),
    )
      where
        p : Pipeline O
        p = start_workflow (new_pipeline first_id ts.0 (some f) false [] st.order)

        finish : List (Step × Bool) × PipelineVals → Pipeline O → Stage C O
        finish =
            with_pipeline order_is_cancelled action_cancel env s o cs receive_order to_dict
              parse_order st f w

        runs : List (Step × Bool) × PipelineVals → Option (Pipeline O) → Result Error (Stage C O)
        runs tasks q =
            lift file
              (build_and_run_workflow (with_file f q) first_id tasks.0 (some f) false st.order)
            >>= λ r. ok (finish tasks r)

    after_order-Ends :
        (first_id : ℕ) (st : Stage C O) (f : InputFile) (id : ℕ) (w : World C)
        → st.pipeline ≡ none
        → CanStart env s k d w
        → Ends (id ∷ []) w (
            after_order order_is_cancelled action_cancel env s o cs receive_order to_dict
              parse_order first_id st
              (f, d)
              (id ∷ [], w))
    unfolding action_process action_done integration_action_cancel
    after_order-Ends first_id st f id w n k = elim (Bool-cases d.is_cancelled) [
      | inl t ↦ (stop, ap choose t, refl, inl (t, n, refl))
      | inr t ↦
          let r : Ends (id ∷ []) w (choose false) =
            run_workflow-Ends first_id st (action_process f) (id ∷ []) w t n k in
          (r.0, ap choose t ∙ r.1, r.2, r.3)
    ]
      where
        stop : Stage C O
        stop =
            cancelled order_is_cancelled action_cancel env s o cs receive_order to_dict parse_order
              st f w

        choose : Bool → Result Error (List ℕ × Stage C O)
        choose b =
            if b
            then ok (id ∷ [], stop)
            else run_workflow order_is_cancelled action_cancel env s o cs receive_order to_dict
                parse_order first_id d st (action_process f) w
              >>= λ st'. ok (id ∷ [], st')

    -- A new order that could be made is worked off: where the file was parsed, its id is not mapped to an
    -- order yet and `create_order` returned, the whole call returns that one order, and does not fail
    -- for a status or a payment method that the workflow does not know. A cancelled order is left
    -- without a pipeline, with its file done; another one has a pipeline that waits for its trigger,
    -- or whose file is done if it has no tasks. A status that is mapped has an external record, which no import takes away.
    pub create_order_from_input-IsWorkedOff :
        (first_id : ℕ) (st : Stage C O) (f : InputFile) (ids : List ℕ) (w : World C)
        → parse receive_order to_dict parse_order st.input_file ≡ ok (f, d)
        → mapped_orders s.id d.id st.world.order_mappings ≡ []
        → st.pipeline ≡ none
        → create_order env s o cs d st.world ≡ ok (ids, w)
        → (st' : Stage C O) × (create_order_from_input order_is_cancelled action_cancel env s o cs
              receive_order to_dict parse_order first_id st
            ≡ ok (ids, st'))
          × (st'.world ≡ w)
          × IsWorkedOff st'
    unfolding create_order_from_input
    create_order_from_input-IsWorkedOff first_id st f ids w p e n c =
        let m : Made (ids, w) = subst (Holds Made) c (create_order-Made st.world e) in
        let g : Ends ids w (continue (f, d) (ids, w)) =
          subst (λ l. Ends l w (continue (f, d) (l, w))) (sym m.1)
            (after_order-Ends first_id st f m.0 w n (IsReady-CanStart env s k d w m.2)) in
        (
          g.0,
          ap (λ x. lift file x >>= λ y. create_order env s o cs y.1 st.world >>= continue y) p
              ∙ ap (λ x. x >>= continue (f, d)) c
              ∙ g.1,
          g.2,
          g.3,
        )
      where
        continue : InputFile × OrderData → List ℕ × World C → Result Error (List ℕ × Stage C O)
        continue =
            after_order order_is_cancelled action_cancel env s o cs receive_order to_dict
              parse_order first_id st
