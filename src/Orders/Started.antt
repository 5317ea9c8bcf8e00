-- ===== src/Orders/Started.antt =====
-- An order that is made has a workflow: what `create_order` of
-- integration/models/integration_sale_order_factory.py leaves for `_build_task_list_and_vals` of sale_order.py.
use mathlib.Core.Path.{subst}
use jean_fourche.Base.{ℕ, String, true, ◌≡◌, refl, sym, Option, none, some, List, [], ◌∷◌}
use jean_fourche.Base.Result.{
  Result, ok, err, ◌>>=◌, lift, Holds, Holds-bind, Holds-bind_any, Holds-mono,
}
use jean_fourche.Mappings.Mixin.{to_external_record}
use jean_fourche.Partners.Records.{Settings as ContactSettings}
use jean_fourche.Partners.Odoo.{Odoo}
use jean_fourche.Workflow.Steps.{SubStatus}
use jean_fourche.Orders.Data.{Error, mapping, OrderData, Order, Settings}
use jean_fourche.Orders.Env.{Env, World}
use jean_fourche.Orders.Lines.{create_order_lines}
use jean_fourche.Orders.Extras.{create_order_additional_lines}
use jean_fourche.Orders.Vals.{get_order_sub_status, status_or_raise, prepare_order_vals}
use jean_fourche.Orders.Create.{
  updated, with_transactions, transactions_of, first_status, apply_values_from_external, with_lines,
  set_values, order_values, after_taxes, extended, valued, completed, new_order, get_payment_method,
}
use jean_fourche.Orders.Known.{KeepsStatus, create_order_additional_lines-Known}
use jean_fourche.Orders.Paid.{IsPaid, Paid, get_payment_method-Paid}

module _ {C : Type 0} (env : Env C) (s : Settings) (k : KeepsStatus env) where
  -- The first of the statuses has a record.
  abbrev pub HasStatus : List String → C → Type 0
  HasStatus [] c = Unit
  HasStatus (code ∷ codes) c = (x : ℕ × SubStatus) × (env.status_record c code ≡ some x)

  get_order_sub_status-HasStatus :
      (code : String) (codes : List String) (c : C)
      → Holds (λ r. HasStatus (code ∷ codes) r.1) (get_order_sub_status env s code c)
  unfolding get_order_sub_status
  get_order_sub_status-HasStatus code codes c = by_status (env.status_of c code) refl
    where
      P : ℕ × C → Type 0
      P r = HasStatus (code ∷ codes) r.1

      or_raise :
          (d : C) (o : Option ℕ)
          → env.status_of d code ≡ o
          → Holds P (status_or_raise env s code d o)
      or_raise d none e = tt
      or_raise d (some i) e = k.status-record d code i e

      by_status :
          (o : Option ℕ)
          → env.status_of c code ≡ o
          → Holds {E = Error} P (elim o [
            | some status ↦ ok (status, c)
            | none ↦
                env.import_statuses c >>= λ d. status_or_raise env s code d (env.status_of d code)
          ])
      by_status (some i) e = k.status-record c code i e
      by_status none e =
          Holds-bind_any P (env.import_statuses c)
            (λ d. status_or_raise env s code d (env.status_of d code))
            (λ d. or_raise d (env.status_of d code) refl)

  first_status-HasStatus :
      (codes : List String) (c : C) → Holds (λ r. HasStatus codes r.1) (first_status env s codes c)
  unfolding get_order_sub_status
  first_status-HasStatus [] c = tt
  first_status-HasStatus (code ∷ codes) c =
      Holds-bind (λ r. HasStatus (code ∷ codes) r.1) (λ r. HasStatus (code ∷ codes) r.1)
        (get_order_sub_status env s code c) (λ r. ok (some r.0, r.1))
        (get_order_sub_status-HasStatus code codes c) (λ _ h. h)

  transactions_of-Known :
      (code : String) (x : ℕ × SubStatus) (ts : List String) (c : C)
      → env.status_record c code ≡ some x
      → Holds (λ r. env.status_record r.1 code ≡ some x) (transactions_of env s ts c)
  transactions_of-Known code x [] c h = h
  transactions_of-Known code x (t ∷ ts) c h =
      Holds-bind Known Known (env.transaction_of t c)
        (λ r. transactions_of env s ts r.1 >>= λ rest. ok (r.0 ∷ rest.0, rest.1))
        (k.transaction-keeps c code x t h)
        (λ r q.
          Holds-bind Known Known (transactions_of env s ts r.1) (λ rest. ok (r.0 ∷ rest.0, rest.1))
            (transactions_of-Known code x ts r.1 q) (λ _ u. u))
    where
      Known : {A : Type 0} → A × C → Type 0
      Known r = env.status_record r.1 code ≡ some x

  -- A step of the catalog that keeps each record keeps the first status.
  keeps-HasStatus :
      {A : Type 0} (codes : List String) (c : C) (m : Result Error (A × C))
      → ((code : String) (x : ℕ × SubStatus)
          → env.status_record c code ≡ some x
          → Holds (λ r. env.status_record r.1 code ≡ some x) m)
      → HasStatus codes c
      → Holds (λ r. HasStatus codes r.1) m
  keeps-HasStatus [] c (ok r) f h = tt
  keeps-HasStatus [] c (err e) f h = tt
  keeps-HasStatus (code ∷ codes) c m f (x, e) =
      Holds-mono (λ r. env.status_record r.1 code ≡ some x) (λ r. HasStatus (code ∷ codes) r.1) m
        (λ r q. (x, q)) (f code x e)

  with_lines-HasStatus :
      (d : OrderData) (order : Order) (c : C)
      → Holds (λ r. HasStatus d.integration_workflow_states r.1) (with_lines env s d order c)
  unfolding apply_values_from_external create_order_lines
  with_lines-HasStatus d order c =
      Holds-bind_any P (create_order_lines env s (env.lang_of order.partner_id) d.lines c)
        (λ r. apply_values_from_external env s d (record order { order_line = r.0 }) r.1)
        (λ r.
          let after : Order = record order { order_line = r.0 } in
          Holds-bind P (λ q. HasStatus codes q.1) (first_status env s codes r.1)
            (with_transactions env s d after) (first_status-HasStatus codes r.1)
            (λ status h.
              Holds-bind P (λ q. HasStatus codes q.1)
                (transactions_of env s d.payment_transactions status.1)
                (updated env s after status.0)
                (keeps-HasStatus codes status.1
                  (transactions_of env s d.payment_transactions status.1)
                  (λ code x. transactions_of-Known code x d.payment_transactions status.1) h)
                (λ _ q. q)))
    where
      codes : List String
      codes = d.integration_workflow_states

      P : Order × C → Type 0
      P r = HasStatus codes r.1

  -- The first status has a record, and the payment method is known.
  abbrev pub IsReady : OrderData → World C → Type 0
  IsReady d w =
      HasStatus d.integration_workflow_states w.catalog
      × IsPaid s.id d.payment_method w.method_mappings

  set_values-IsReady :
      (d : OrderData) (order : Order) (w : World C)
      → HasStatus d.integration_workflow_states w.catalog
      → Holds (λ r. IsReady d r.1) (set_values env s d order w)
  unfolding get_payment_method to_external_record
  set_values-IsReady d order w h =
      Holds-bind (λ r. IsReady d r.1) (λ m. IsReady d m.1)
        (get_payment_method env s d.payment_method w)
        (λ m. lift mapping (to_external_record true s.id m.0 m.1.method_mappings) >>= λ e.
          ok (order_values env s order m.0 e, m.1))
        (Holds-mono (Paid env s d.payment_method w.catalog) (λ m. IsReady d m.1)
          (get_payment_method env s d.payment_method w)
          (λ m (p, c). (subst (HasStatus d.integration_workflow_states) (sym c) h, p))
          (get_payment_method-Paid env s d.payment_method w.catalog w refl))
        (λ m q.
          Holds-bind_any (λ r. IsReady d r.1)
            (lift mapping (to_external_record true s.id m.0 m.1.method_mappings))
            (λ e. ok (order_values env s order m.0 e, m.1)) (λ _. q))

  extended-IsReady :
      (d : OrderData) (v : Order × World C)
      → IsReady d v.1
      → Holds (λ r. IsReady d r.1) (extended env s d v)
  unfolding create_order_additional_lines
  extended-IsReady d (order, w) (h, p) =
      Holds-bind (λ r. IsReady d r.1) (λ x. HasStatus d.integration_workflow_states x.1)
        (create_order_additional_lines env s d order w.catalog)
        (λ x. ok (after_taxes env s x.0 x.0.fiscal_position_id, record w { catalog = x.1 }))
        (keeps-HasStatus d.integration_workflow_states w.catalog
          (create_order_additional_lines env s d order w.catalog)
          (λ code x. create_order_additional_lines-Known env s k code x d order w.catalog) h)
        (λ x q. (q, p))

  pub new_order-IsReady :
      (o : Odoo) (cs : ContactSettings) (d : OrderData) (w : World C)
      → Holds (λ r. IsReady d r.1) (new_order env s o cs d w)
  unfolding new_order
  new_order-IsReady o cs d w =
      Holds-bind_any (λ r. IsReady d r.1) (prepare_order_vals env s o cs d w) (completed env s d)
        (λ a.
          Holds-bind (λ r. IsReady d r.1) (λ b. HasStatus d.integration_workflow_states b.1)
            (with_lines env s d a.0 a.1.catalog) (valued env s d a.1)
            (with_lines-HasStatus d a.0 a.1.catalog)
            (λ b h.
              Holds-bind (λ r. IsReady d r.1) (λ v. IsReady d v.1)
                (set_values env s d b.0 (record a.1 { catalog = b.1 })) (extended env s d)
                (set_values-IsReady d b.0 (record a.1 { catalog = b.1 }) h)
                (λ v q. extended-IsReady d v q)))
