-- ===== src/Orders/Extras.antt =====
-- The further lines of an order: its gift wrapping and the difference to the total of the store. The
-- methods of these names in integration/models/integration_sale_order_factory.py, and
-- `_process_gift_message` of sale_order_line.py.
use Prim.Native.String.{◌++◌ as text_append}
use text.Mathlib.Text.{◌==◌ as str_eq}
use jean_fourche.Base.{
  ℕ, String, Bool, true, false, Option, none, some, List, [], ◌∷◌, ◌++◌, if◌then◌else◌,
}
use jean_fourche.Base.Int.{ℤ, is_zero, is_positive, ◌-ℤ◌}
use jean_fourche.Base.Result.{Result, ok, err, ◌>>=◌}
use jean_fourche.Orders.Data.{
  Error, api_import_error, Tax, GiftData, OrderData, Line, Order, Settings,
}
use jean_fourche.Orders.Env.{Env}
use jean_fourche.Orders.Taxes.{get_taxes_from_external_list, get_tax_price_included}
use jean_fourche.Orders.Lines.{given_amount}
use jean_fourche.Orders.Delivery.{create_delivery_line}

abbrev pub plain_line : ℕ → List Tax → ℤ → Line
plain_line product taxes price = record {
  product_id = product;
  name = none;
  price_unit = price;
  product_uom_qty = none;
  discount = none;
  tax_id = taxes;
  is_delivery = false;
  integration_external_id = "";
  external_location_id = "";
}

abbrev pub add_line : Line → Order → Order
add_line l order = record order { order_line = order.order_line ++ l ∷ [] }

module _ {C : Type 0} (env : Env C) (s : Settings) where
  -- The name of a line without one is the description of its product.
  abbrev pub name_or_description : Option String → Line → String
  name_or_description lang l = elim l.name [
    | none ↦ env.sale_description lang l.product_id
    | some name ↦ name
  ]

  unfoldable pub process_gift_message : String → Line → Order → Order
  process_gift_message message l order =
      let text : String = env.translated none "\nMessage to write: %s" message in
      let line : Line = record l {
        name = some (text_append (name_or_description (env.lang_of order.partner_id) l) text);
      } in
      add_line line (
        if s.has_delivery_note_field
        then record order { delivery_notes = text_append order.delivery_notes text }
        else order)

  abbrev pub gift_price : GiftData → Bool → ℤ
  gift_price d true = d.total_wrapping_tax_incl
  gift_price d false = d.total_wrapping_tax_excl

  -- By whether the taxes are part of the price.
  abbrev pub wrapped_at : GiftData → Order → ℕ → List Tax × C → Bool → Result Error (Order × C)
  unfolding process_gift_message
  wrapped_at d order product (taxes, c) included =
      let line : Line = plain_line product taxes (gift_price d included) in
      ok (
        if str_eq d.gift_message ""
            then add_line line order
            else process_gift_message d.gift_message line order,
        c,
      )

  abbrev pub wrapped : GiftData → Order → ℕ → List Tax × C → Result Error (Order × C)
  unfolding get_tax_price_included
  wrapped d order product (taxes, c) =
      get_tax_price_included env s taxes >>= wrapped_at d order product (taxes, c)

  abbrev pub with_gift_product : GiftData → Order → C → Option ℕ → Result Error (Order × C)
  unfolding get_taxes_from_external_list
  with_gift_product d order c none = err api_import_error
  with_gift_product d order c (some product) =
      get_taxes_from_external_list env s (some product) d.wrapping_tax_ids c
      >>= wrapped d order product

  unfoldable pub create_gift_line : GiftData → Order → C → Result Error (Order × C)
  create_gift_line d order c =
      if d.do_gift_wrapping
      then with_gift_product d order c s.gift_wrapping_product_id
      else ok (order, c)

  abbrev pub difference_product : ℤ → Option ℕ
  difference_product d =
      if is_positive d
      then s.positive_price_difference_product_id
      else s.negative_price_difference_product_id

  abbrev pub with_difference : ℤ → Order → Option ℕ → Result Error Order
  with_difference d order none = err api_import_error
  with_difference d order (some product) = ok (add_line (plain_line product [] d) order)

  -- Amounts are in the smallest unit of the currency, so that the rounding of the difference is it.
  unfoldable pub create_line_with_price_difference_product : ℤ → Order → Result Error Order
  create_line_with_price_difference_product amount_total order =
      let d : ℤ = amount_total -ℤ env.order_total order.order_line in
      if is_zero d then ok order else with_difference d order (difference_product d)

  abbrev pub corrected : Option ℤ → Order → Result Error Order
  unfolding create_line_with_price_difference_product
  corrected none order = ok order
  corrected (some a) order =
      if s.use_order_total_difference_correction
      then create_line_with_price_difference_product a order
      else ok order

  -- The hook for discounts of the whole order does nothing here.
  unfoldable pub create_order_additional_lines : OrderData → Order → C → Result Error (Order × C)
  unfolding create_delivery_line create_gift_line
  create_order_additional_lines d order c =
      create_delivery_line env s d.delivery_data order c >>= λ r.
      create_gift_line d.gift_data r.0 r.1 >>= λ g.
      corrected (given_amount d.amount_total) g.0 >>= λ o. ok (o, g.1)
