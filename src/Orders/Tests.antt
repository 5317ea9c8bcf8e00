-- ===== src/Orders/Tests.antt =====
-- An order with a discount, of a contact that is set by default.
use jean_fourche.Base.{
  Bool, ℕ, ◌≡◌, String, true, false, refl, Option, none, some, List, [], ◌∷◌, map,
}
use jean_fourche.Base.Int.{ℤ, pos, negsuc, ◌+ℤ◌, ◌-ℤ◌}
use jean_fourche.Base.Result.{Result, ok, err, Holds}
use jean_fourche.Mappings.Records.{create_or_update}
use jean_fourche.Mappings.Mixin.{
  create_integration_mapping, to_odoo, get_mapping, to_external_record, create_mapping,
  write_internal, requeue_mapping,
}
use jean_fourche.Base.Sort.{sort_by}
use jean_fourche.Partners.Memory.{memory as odoo}
use jean_fourche.Partners.Factory.{create_factory, get_partner_and_addresses, validate_data}
use jean_fourche.Partners.Data.{proxy_calls, update_customer_data}
use jean_fourche.Orders.Data.{Error, Order}
use jean_fourche.Orders.Env.{World}
use jean_fourche.Orders.Sample.{settings, contact_settings, world, lamps, shade, order_data}
use jean_fourche.Workflow.File.{FileState}
use jean_fourche.Workflow.Process.{parse}
use jean_fourche.Orders.Input.{Stage, create_order_from_input}
use jean_fourche.Orders.Worked.{IsWorkedOff, create_order_from_input-IsWorkedOff}
use jean_fourche.Orders.Memory.{memory, memory-AddsUntaxed, memory-KeepsStatus}
use jean_fourche.Orders.Taxes.{
  try_get_odoo_tax, get_taxes_from_external_list, get_tax_price_included, get_odoo_product,
  try_get_odoo_product, get_fallback_product_or_raise,
}
use jean_fourche.Orders.Lines.{
  update_order_description, get_discount_product, prepare_order_discount_line_vals,
  prepare_order_line_vals, create_order_lines,
}
use jean_fourche.Orders.Delivery.{try_get_odoo_delivery_carrier, create_delivery_line}
use jean_fourche.Orders.Extras.{
  process_gift_message, create_gift_line, create_line_with_price_difference_product,
  create_order_additional_lines,
}
use jean_fourche.Orders.Vals.{
  get_order_pricelist, get_order_sub_status, get_integration_order_name, prepare_order_vals,
}
use jean_fourche.Orders.Create.{
  mapped_orders, get_payment_method, apply_values_from_external, new_order, create_order,
}
use jean_fourche.Orders.Once.{create_order-create_order}
use jean_fourche.Orders.Total.{new_order-Totals}
use jean_fourche.Orders.Discounts.{Separate, create_order_lines-Separate, create_order_lines-Shows}

abbrev summary :
    Result Error (Order × World (List String)) → Option (String × List (ℕ × ℤ) × String)
summary (ok r) =
    some (r.0.name, map (λ l. (l.product_id, l.price_unit)) r.0.order_line, r.0.delivery_notes)
summary (err e) = none

-- The discount is a line, the second product was imported, the delivery has its taxes in the price, and
-- a last line makes up for what is missing to the total.
made :
    summary (new_order memory settings odoo contact_settings order_data world)
    ≡ some (
      "SHOP-A1",
      (71, pos 12) ∷ (800, negsuc 2) ∷ (71, pos 12) ∷ (900, pos 5) ∷ (801, pos 2) ∷ [],
      "at the door\nPickup Point: %sPost",
    )
unfolding try_get_odoo_tax get_taxes_from_external_list get_tax_price_included get_odoo_product
    try_get_odoo_product get_fallback_product_or_raise update_order_description get_discount_product
    prepare_order_discount_line_vals prepare_order_line_vals create_order_lines
    try_get_odoo_delivery_carrier create_delivery_line process_gift_message create_gift_line
    create_line_with_price_difference_product create_order_additional_lines get_order_pricelist
    get_order_sub_status get_integration_order_name prepare_order_vals get_payment_method
    apply_values_from_external new_order create_integration_mapping to_odoo get_mapping
    to_external_record create_mapping write_internal requeue_mapping create_or_update sort_by
    create_factory get_partner_and_addresses validate_data proxy_calls update_customer_data ◌+ℤ◌
    ◌-ℤ◌
made = refl

-- The first call makes the order 40.
first_call :
    (w : World (List String)) × (create_order memory settings odoo contact_settings order_data world
      ≡ ok (40 ∷ [], w))
unfolding try_get_odoo_tax get_taxes_from_external_list get_tax_price_included get_odoo_product
    try_get_odoo_product get_fallback_product_or_raise update_order_description get_discount_product
    prepare_order_discount_line_vals prepare_order_line_vals create_order_lines
    try_get_odoo_delivery_carrier create_delivery_line process_gift_message create_gift_line
    create_line_with_price_difference_product create_order_additional_lines get_order_pricelist
    get_order_sub_status get_integration_order_name prepare_order_vals get_payment_method
    apply_values_from_external new_order create_integration_mapping to_odoo get_mapping
    to_external_record create_mapping write_internal requeue_mapping create_or_update sort_by
    create_factory get_partner_and_addresses validate_data proxy_calls update_customer_data ◌+ℤ◌
    ◌-ℤ◌ create_order mapped_orders
first_call = (_, refl)

create_order-create_order_example :
    Holds
      (λ r.
        create_order memory settings odoo contact_settings
          (record order_data { is_cancelled = true })
          r.1
        ≡ ok r)
      (create_order memory settings odoo contact_settings order_data world)
create_order-create_order_example =
    create_order-create_order memory settings odoo contact_settings order_data
      (record order_data { is_cancelled = true }) world refl

new_order-Totals_example :
    Holds
      (λ r. memory.order_total r.0.order_line ≡ pos 40)
      (new_order memory settings odoo contact_settings order_data world)
new_order-Totals_example =
    new_order-Totals memory settings memory-AddsUntaxed (λ d product e. refl) odoo contact_settings
      order_data (pos 40) world refl refl refl

create_order_lines-Separate_example :
    Holds
      (λ r. Separate (lamps ∷ shade ∷ []) r.0)
      (create_order_lines memory settings none (lamps ∷ shade ∷ []) [])
create_order_lines-Separate_example =
    create_order_lines-Separate memory settings none (lamps ∷ shade ∷ []) [] refl

create_order_lines-Shows_example :
    Holds
      (λ r.
        (map (λ l. l.discount) r.0 ≡ some 15 ∷ some 0 ∷ [])
        × (map (λ l. l.integration_external_id) r.0 ≡ "l1" ∷ "l2" ∷ []))
      (create_order_lines memory
        (record settings { separate_discount_line = false })
        none
        (lamps ∷ shade ∷ [])
        [])
create_order_lines-Shows_example =
    create_order_lines-Shows memory (record settings { separate_discount_line = false }) none
      (lamps ∷ shade ∷ []) [] refl

abbrev stage : Stage (List String) Bool
stage = record {
  world = world;
  input_file = record {
    state = FileState.create_order;
    has_order = false;
    update_required = false;
    raw_data = "{}";
  };
  order = false;
  pipeline = none;
  pipeline_vals = none;
}

create_order_from_input-IsWorkedOff_example :
    (st : Stage (List String) Bool) × (create_order_from_input
        (λ b. b)
        (λ b. true)
        memory
        settings
        odoo
        contact_settings
        none
        (λ t. some t)
        (λ t. order_data)
        100
        stage
      ≡ ok (40 ∷ [], st))
    × (st.world ≡ first_call.0)
    × IsWorkedOff memory settings memory-KeepsStatus odoo contact_settings order_data
        (λ b. b)
        (λ b. true)
        none
        (λ t. some t)
        (λ t. order_data)
        st
unfolding parse mapped_orders
create_order_from_input-IsWorkedOff_example =
    create_order_from_input-IsWorkedOff memory settings memory-KeepsStatus odoo contact_settings
      order_data (λ b. b) (λ b. true) none (λ t. some t) (λ t. order_data) 100 stage
      stage.input_file (40 ∷ []) first_call.0 refl refl refl first_call.1
