-- ===== src/Orders/Tasks.antt =====
-- The tasks of an order, from the codes of its statuses and of its payment method:
-- `_build_task_list_and_vals` of integration/models/sale_order.py.
use text.Mathlib.Text.{◌==◌ as str_eq}
use jean_fourche.Base.{
  ℕ, String, Bool, false, not, Option, none, some, List, [], ◌∷◌, ◌++◌, map, any, all, elem, ◌==◌,
  if◌then◌else◌,
}
use jean_fourche.Base.Result.{Result, ok, err, ◌>>=◌, lift}
use jean_fourche.Mappings.Records.{ExternalRecord, Db, get_external_by_code}
use jean_fourche.Workflow.Steps.{Step, SubStatus, build_task_list}
use jean_fourche.Orders.Data.{Error, api_import_error, mapping, Settings}
use jean_fourche.Orders.Env.{Env}
use jean_fourche.Orders.Vals.{or_option}

-- The values of a pipeline, besides its tasks.
pub record PipelineVals : Type 0 where
  pub payment_method_external_id : Option ℕ
  pub sub_state_external_ids : List ℕ

abbrev pub link_all : List ℕ → List ℕ → List ℕ
link_all ids [] = ids
link_all ids (x ∷ xs) = link_all (if elem x ids then ids else ids ++ x ∷ []) xs

-- The values of `_update_pipeline`, on those of the pipeline.
abbrev pub update_vals : Option PipelineVals → PipelineVals → PipelineVals
update_vals none new = new
update_vals (some old) new = record {
  payment_method_external_id =
      or_option new.payment_method_external_id old.payment_method_external_id;
  sub_state_external_ids = link_all old.sub_state_external_ids new.sub_state_external_ids;
}

-- A recordset has each status once.
abbrev pub union_status : List (ℕ × SubStatus) → ℕ × SubStatus → List (ℕ × SubStatus)
union_status states x = if any (λ y. y.0 == x.0) states then states else states ++ x ∷ []

abbrev pub payment_or_raise : String → List ExternalRecord → Result Error (Option ℕ)
payment_or_raise payment (e ∷ es) = ok (some e.id)
payment_or_raise payment [] = if str_eq payment "" then ok none else err api_import_error

module _ {C : Type 0} (env : Env C) (s : Settings) where
  abbrev pub add_status :
      List (ℕ × SubStatus) → Option (ℕ × SubStatus) → Result Error (List (ℕ × SubStatus))
  add_status states none = err api_import_error
  add_status states (some x) = ok (union_status states x)

  abbrev pub sub_states :
      C → List String → List (ℕ × SubStatus) → Result Error (List (ℕ × SubStatus))
  sub_states c [] states = ok states
  sub_states c (code ∷ codes) states =
      add_status states (env.status_record c code) >>= sub_states c codes

  abbrev pub list_and_vals : Option ℕ → List (ℕ × SubStatus) → List (Step × Bool) × PipelineVals
  unfolding build_task_list
  list_and_vals payment states = (
    build_task_list (map (λ x. x.1) states),
    record { payment_method_external_id = payment; sub_state_external_ids = map (λ x. x.0) states },
  )

  -- The payment methods are those of the mappings.
  unfoldable pub build_task_list_and_vals :
      C → Db → List String → String → Result Error (List (Step × Bool) × PipelineVals)
  unfolding get_external_by_code
  build_task_list_and_vals c methods states payment =
      if not (all (λ code. not (str_eq code "")) states)
      then err api_import_error
      else lift mapping (get_external_by_code false s.id payment methods)
        >>= payment_or_raise payment
        >>= λ p. sub_states c states [] >>= λ xs. ok (list_and_vals p xs)
