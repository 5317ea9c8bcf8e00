-- ===== src/Orders/Create.antt =====
-- The order itself: `create_order` of integration/models/integration_sale_order_factory.py with what it calls
-- of sale_order.py and sale_integration.py. The dict that it gets is what the input file was parsed to.
use text.Mathlib.Text.{◌==◌ as str_eq}
use jean_fourche.Base.{
  ℕ, suc, String, Bool, true, false, ◌&&◌, Option, none, some, List, [], ◌∷◌, ◌++◌, any, filter,
  ◌==◌, if◌then◌else◌,
}
use jean_fourche.Base.Result.{Result, ok, err, ◌>>=◌, lift}
use jean_fourche.Mappings.Records.{ExternalRecord, MappingRecord, Db}
use jean_fourche.Mappings.Mixin.{create_integration_mapping, internals, to_odoo, to_external_record}
use jean_fourche.Partners.Records.{Settings as ContactSettings}
use jean_fourche.Partners.Odoo.{Odoo}
use jean_fourche.Orders.Data.{Error, expected_singleton, mapping, OrderData, Order, Settings}
use jean_fourche.Orders.Env.{Env, World, PaymentMethod}
use jean_fourche.Orders.Lines.{create_order_lines}
use jean_fourche.Orders.Extras.{create_order_additional_lines}
use jean_fourche.Orders.Vals.{or_option, get_order_sub_status, prepare_order_vals}

-- The statuses and the payment method that the workflow is built from.
unfoldable pub extract_workflow_data : OrderData → List String × String
extract_workflow_data d = (workflow_states d.integration_workflow_states, d.payment_method)
  where
    workflow_states : List String → List String
    workflow_states [] = []
    workflow_states (x ∷ xs) = if str_eq x "" then [] else x ∷ []

-- The orders that mappings of a store name, whose external record has the code.
abbrev pub names_code : ℕ → String → List ExternalRecord → MappingRecord → Bool
names_code integration code es m =
    (m.integration_id == integration) && any (λ e. (e.id == m.external) && str_eq e.code code) es

unfoldable pub mapped_orders : ℕ → String → Db → List ℕ
mapped_orders integration code db =
    internals (filter (names_code integration code db.externals) db.mappings) []

module _ {C : Type 0} (env : Env C) (s : Settings) where
  abbrev pub bind_method : String → ℕ → World C → Result Error (ℕ × World C)
  unfolding create_integration_mapping
  bind_method code id w =
      lift mapping (create_integration_mapping s.id id code (some code) none w.method_mappings)
      >>= λ db. ok (id, record w { method_mappings = db })

  abbrev pub new_method : String → World C → World C
  new_method code w = record w {
    payment_methods =
        w.payment_methods
        ++ record { id = w.next_payment_method; name = code; integration_id = s.id } ∷ [];
    next_payment_method = suc w.next_payment_method;
  }

  abbrev pub is_method : String → PaymentMethod → Bool
  is_method code p = str_eq p.name code && (p.integration_id == s.id)

  abbrev pub method_by_name : String → World C → List PaymentMethod → Result Error (ℕ × World C)
  method_by_name code w [] = bind_method code w.next_payment_method (new_method code w)
  method_by_name code w (p ∷ []) = bind_method code p.id w
  method_by_name code w (p ∷ q ∷ ps) = err expected_singleton

  abbrev pub method_or_bind : String → World C → List ℕ → Result Error (ℕ × World C)
  method_or_bind code w [] = method_by_name code w (filter (is_method code) w.payment_methods)
  method_or_bind code w (id ∷ []) = ok (id, w)
  method_or_bind code w (id ∷ j ∷ ids) = err expected_singleton

  unfoldable pub get_payment_method : String → World C → Result Error (ℕ × World C)
  unfolding to_odoo
  get_payment_method code w =
      lift mapping (to_odoo false s.id code w.method_mappings) >>= method_or_bind code w

  abbrev pub term_of : Option ExternalRecord → Option ℕ
  term_of none = none
  term_of (some e) = env.payment_term e

  abbrev pub transactions_of : List String → C → Result Error (List ℕ × C)
  transactions_of [] c = ok ([], c)
  transactions_of (t ∷ ts) c =
      env.transaction_of t c >>= λ r. transactions_of ts r.1 >>= λ rest. ok (r.0 ∷ rest.0, rest.1)

  abbrev pub first_status : List String → C → Result Error (Option ℕ × C)
  unfolding get_order_sub_status
  first_status [] c = ok (none, c)
  first_status (code ∷ codes) c = get_order_sub_status env s code c >>= λ r. ok (some r.0, r.1)

  abbrev pub updated : Order → Option ℕ → List ℕ × C → Result Error (Order × C)
  updated order status (payments, c) = ok (
    record order {
      sub_status_id = or_option status order.sub_status_id;
      external_payment_ids = order.external_payment_ids ++ payments;
    },
    c,
  )

  abbrev pub with_transactions : OrderData → Order → Option ℕ × C → Result Error (Order × C)
  with_transactions d order (status, c) =
      transactions_of d.payment_transactions c >>= updated order status

  -- In the context that skips the actions after an order.
  unfoldable pub apply_values_from_external : OrderData → Order → C → Result Error (Order × C)
  apply_values_from_external d order c =
      first_status d.integration_workflow_states c >>= with_transactions d order

  -- What the order has for its salesperson: nothing is set, it is emptied, or set.
  abbrev pub sales_person : Option (Option ℕ)
  sales_person = elim s.default_sales_person_id [
    | some u ↦ some (some u)
    | none ↦ if s.keep_sales_person_empty then some none else none
  ]

  abbrev pub order_values : Order → ℕ → Option ExternalRecord → Order
  order_values order method e = record order {
    team_id = or_option s.default_sales_team_id order.team_id;
    user_id = or_option sales_person order.user_id;
    fiscal_position_id = env.fiscal_position order.partner_id order.partner_shipping_id;
    payment_method_id = some method;
    payment_term_id = or_option (term_of e) order.payment_term_id;
    external_fields = env.external_fields;
  }

  abbrev pub set_values : OrderData → Order → World C → Result Error (Order × World C)
  unfolding get_payment_method to_external_record
  set_values d order w = get_payment_method d.payment_method w >>= λ method.
      lift mapping (to_external_record true s.id method.0 method.1.method_mappings) >>= λ e.
      ok (order_values order method.0 e, method.1)

  abbrev pub after_taxes : Order → Option ℕ → Order
  after_taxes order none = order
  after_taxes order (some fiscal_position) =
      if s.update_fiscal_position
      then record order { order_line = env.update_taxes fiscal_position order.order_line }
      else record order { show_update_fpos = true }

  abbrev pub with_lines : OrderData → Order → C → Result Error (Order × C)
  unfolding create_order_lines apply_values_from_external
  with_lines d order c = create_order_lines env s (env.lang_of order.partner_id) d.lines c >>= λ r.
      apply_values_from_external d (record order { order_line = r.0 }) r.1

  abbrev pub extended : OrderData → Order × World C → Result Error (Order × World C)
  unfolding create_order_additional_lines
  extended d (order, w) = create_order_additional_lines env s d order w.catalog >>= λ x.
      ok (after_taxes x.0 x.0.fiscal_position_id, record w { catalog = x.1 })

  abbrev pub valued : OrderData → World C → Order × C → Result Error (Order × World C)
  valued d w (order, c) = set_values d order (record w { catalog = c }) >>= extended d

  abbrev pub completed : OrderData → Order × World C → Result Error (Order × World C)
  completed d (order, w) = with_lines d order w.catalog >>= valued d w

  module _ (o : Odoo) (cs : ContactSettings) where
    -- The order, which is not in the table yet.
    unfoldable pub new_order : OrderData → World C → Result Error (Order × World C)
    unfolding prepare_order_vals
    new_order d w = prepare_order_vals env s o cs d w >>= completed d

    abbrev pub with_mapping : OrderData → Order × World C → Result Error (List ℕ × World C)
    unfolding create_integration_mapping
    with_mapping d (order, w) =
        lift mapping
          (create_integration_mapping s.id order.id d.id (some order.name) none w.order_mappings)
        >>= λ db. ok (
          order.id ∷ [],
          record w {
            orders = w.orders ++ order ∷ [];
            next_order = suc w.next_order;
            order_mappings = db;
          },
        )

    abbrev pub found_or_new : OrderData → World C → List ℕ → Result Error (List ℕ × World C)
    unfolding new_order
    found_or_new d w [] = new_order d w >>= with_mapping d
    found_or_new d w (id ∷ ids) = ok (id ∷ ids, w)

    unfoldable pub create_order : OrderData → World C → Result Error (List ℕ × World C)
    unfolding new_order mapped_orders
    create_order d w = found_or_new d w (mapped_orders s.id d.id w.order_mappings)
