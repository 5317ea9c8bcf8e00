-- ===== src/Orders/Buildable.antt =====
-- The tasks of an order whose first status and payment method are known can be built:
-- `_build_task_list_and_vals` of integration/models/sale_order.py.
use text.Mathlib.Text.{◌==◌ as str_eq}
use jean_fourche.Base.{
  ℕ, String, Bool, true, false, not, ◌&&◌, ◌≡◌, refl, ap, ◌∙◌, Option, some, List, [], ◌∷◌, all,
  if◌then◌else◌,
}
use jean_fourche.Base.Result.{ok, err, ◌>>=◌, lift}
use jean_fourche.Mappings.Records.{Db, get_external_by_code}
use jean_fourche.Workflow.Steps.{Step, SubStatus, build_task_list}
use jean_fourche.Orders.Data.{mapping, api_import_error, OrderData, Settings}
use jean_fourche.Orders.Env.{Env, World}
use jean_fourche.Orders.Tasks.{
  PipelineVals, payment_or_raise, add_status, sub_states, list_and_vals, build_task_list_and_vals,
}
use jean_fourche.Orders.Create.{extract_workflow_data}
use jean_fourche.Orders.Known.{KeepsStatus}
use jean_fourche.Orders.Started.{HasStatus, IsReady}

module _ {C : Type 0} (env : Env C) (s : Settings) (k : KeepsStatus env) where
  -- The tasks, from what was found of the statuses and of the payment method.
  build-found :
      (c : C) (db : Db) (states : List String) (payment : String) (p : Option ℕ)
      (xs : List (ℕ × SubStatus))
      → all (λ code. not (str_eq code "")) states ≡ true
      → (lift mapping (get_external_by_code false s.id payment db) >>= payment_or_raise payment)
        ≡ ok p
      → sub_states env s c states [] ≡ ok xs
      → build_task_list_and_vals env s c db states payment ≡ ok (list_and_vals env s p xs)
  unfolding build_task_list_and_vals build_task_list get_external_by_code
  build-found c db states payment p xs n e f =
      ap
        (λ b.
          if not b
          then err api_import_error
          else lift mapping (get_external_by_code false s.id payment db)
            >>= payment_or_raise payment
            >>= λ q. sub_states env s c states [] >>= λ ys. ok (list_and_vals env s q ys))
        n
      ∙ ap (λ m. m >>= λ q. sub_states env s c states [] >>= λ ys. ok (list_and_vals env s q ys)) e
      ∙ ap (λ m. m >>= λ ys. ok (list_and_vals env s p ys)) f

  -- The tasks of an order can be built from what is there.
  abbrev pub CanStart : OrderData → World C → Type 0
  CanStart d w =
      (ts : List (Step × Bool) × PipelineVals) × (build_task_list_and_vals env s w.catalog
          w.method_mappings (extract_workflow_data d).0 (extract_workflow_data d).1
        ≡ ok ts)

  pub IsReady-CanStart : (d : OrderData) (w : World C) → IsReady env s k d w → CanStart d w
  unfolding extract_workflow_data build_task_list_and_vals build_task_list get_external_by_code
  IsReady-CanStart d w (h, (p, e)) = by_codes d.integration_workflow_states h
    where
      Builds : List String → Type 0
      Builds states =
          (ts : List (Step × Bool) × PipelineVals) × (build_task_list_and_vals env s w.catalog
              w.method_mappings states d.payment_method
            ≡ ok ts)

      by_empty :
          (code : String) (x : ℕ × SubStatus)
          → env.status_record w.catalog code ≡ some x
          → (b : Bool) → str_eq code "" ≡ b
          → Builds (if b then [] else code ∷ [])
      by_empty code x f true t = (
        list_and_vals env s p [],
        build-found w.catalog w.method_mappings [] d.payment_method p [] refl e refl,
      )
      by_empty code x f false t = (
        list_and_vals env s p (x ∷ []),
        build-found w.catalog w.method_mappings (code ∷ []) d.payment_method p (x ∷ [])
            (ap (λ b. not b && true) t) e
            (ap (λ r. add_status env s [] r >>= sub_states env s w.catalog []) f),
      )

      by_codes :
          (codes : List String)
          → HasStatus env s k codes w.catalog
          → CanStart (record d { integration_workflow_states = codes }) w
      by_codes [] h = (
        list_and_vals env s p [],
        build-found w.catalog w.method_mappings [] d.payment_method p [] refl e refl,
      )
      by_codes (code ∷ codes) (x, f) = by_empty code x f (str_eq code "") refl
