-- ===== src/Orders/Input.antt =====
-- From the input file of an order to the order and its workflow: `create_order_from_input` of
-- integration/models/sale_integration.py, and the cancelling of an order in sale_order.py.
use jean_fourche.Base.{
  ℕ, String, Bool, true, false, Option, none, some, List, [], ◌∷◌, if◌then◌else◌,
}
use jean_fourche.Base.Result.{Result, ok, err, ◌>>=◌, lift}
use jean_fourche.Partners.Records.{Settings as ContactSettings}
use jean_fourche.Partners.Odoo.{Odoo}
use jean_fourche.Workflow.File.{InputFile, action_done, action_process}
use jean_fourche.Workflow.Process.{parse}
use jean_fourche.Workflow.Pipeline.{World as Pipeline}
use jean_fourche.Workflow.Order.{build_and_run_workflow}
use jean_fourche.Workflow.Steps.{Step}
use jean_fourche.Orders.Data.{Error, expected_singleton, file, OrderData, Settings}
use jean_fourche.Orders.Env.{Env, World}
use jean_fourche.Orders.Tasks.{PipelineVals, update_vals, build_task_list_and_vals}
use jean_fourche.Orders.Create.{extract_workflow_data, create_order}

-- The database, the file, and of its order the state, as the workflow sees it, and the pipeline.
pub record Stage (C O : Type 0) : Type 0 where
  pub world : World C
  pub input_file : InputFile
  pub order : O
  pub pipeline : Option (Pipeline O)
  pub pipeline_vals : Option PipelineVals

abbrev pub only_order : List ℕ → Result Error ℕ
only_order (id ∷ []) = ok id
only_order _ = err expected_singleton

-- The file of a pipeline, after this one was written.
abbrev pub with_file : {O : Type 0} → InputFile → Option (Pipeline O) → Option (Pipeline O)
with_file f none = none
with_file f (some p) = some (record p { input_file = some f })

abbrev pub file_of : {O : Type 0} → InputFile → Pipeline O → InputFile
file_of f p = elim p.input_file [ none ↦ f | some g ↦ g ]

module _ {O : Type 0} (order_is_cancelled : O → Bool) (action_cancel : O → O) where
  -- By whether the order is cancelled afterwards.
  unfoldable pub integration_action_cancel : O → Bool × O
  integration_action_cancel order =
      if order_is_cancelled order
      then (true, order)
      else (order_is_cancelled (action_cancel order), action_cancel order)

  module _ {C J : Type 0} (env : Env C) (s : Settings) (o : Odoo) (cs : ContactSettings)
      (receive_order : Option String) (to_dict : String → Option J)
      (parse_order : J → OrderData) where
    abbrev pub cancelled : Stage C O → InputFile → World C → Stage C O
    unfolding integration_action_cancel action_done
    cancelled st f w = record st {
      world = w;
      input_file = action_done f;
      order = (integration_action_cancel st.order).1;
    }

    abbrev pub with_pipeline :
        Stage C O → InputFile → World C → List (Step × Bool) × PipelineVals → Pipeline O → Stage C O
    with_pipeline st f w tasks p = record st {
      world = w;
      input_file = file_of f p;
      pipeline = some p;
      pipeline_vals = some (update_vals st.pipeline_vals tasks.1);
    }

    -- The ids of the tasks of a new pipeline count up from the first.
    abbrev pub run_workflow :
        ℕ → OrderData → Stage C O → InputFile → World C → Result Error (Stage C O)
    unfolding build_task_list_and_vals build_and_run_workflow extract_workflow_data
    run_workflow first_id d st f w =
        build_task_list_and_vals env s w.catalog w.method_mappings (extract_workflow_data d).0
          (extract_workflow_data d).1
        >>= λ tasks.
            lift file (
              build_and_run_workflow (with_file f st.pipeline) first_id tasks.0 (some f) false
                st.order)
            >>= λ p. ok (with_pipeline st f w tasks p)

    abbrev pub after_order :
        ℕ → Stage C O → InputFile × OrderData → List ℕ × World C → Result Error (List ℕ × Stage C O)
    unfolding action_process
    after_order first_id st (f, d) (ids, w) = only_order ids >>= λ id.
        if d.is_cancelled
        then ok (ids, cancelled st f w)
        else run_workflow first_id d st (action_process f) w >>= λ st'. ok (ids, st')

    unfoldable pub create_order_from_input : ℕ → Stage C O → Result Error (List ℕ × Stage C O)
    unfolding parse create_order
    create_order_from_input first_id st =
        lift file (parse receive_order to_dict parse_order st.input_file) >>= λ p.
        create_order env s o cs p.1 st.world >>= after_order first_id st p
