-- ===== src/Orders/Delivery.antt =====
-- The delivery line of an order: the methods of these names in
-- integration/models/integration_sale_order_factory.py.
use text.Mathlib.Text.{◌==◌ as str_eq}
use jean_fourche.Base.{
  ℕ, String, Bool, false, not, ◌&&◌, Option, none, some, List, [], ◌∷◌, ◌++◌, all, ◌==◌,
  if◌then◌else◌,
}
use jean_fourche.Base.Int.{ℤ, is_zero}
use jean_fourche.Base.Text.{strip}
use jean_fourche.Base.Result.{Result, ok, err, ◌>>=◌}
use jean_fourche.Orders.Data.{
  Error, not_mapped_from_external, Tax, Discount, CarrierData, DeliveryData, Line, Order, Settings,
}
use jean_fourche.Orders.Env.{Env}
use jean_fourche.Orders.Taxes.{get_taxes_from_external_list, get_tax_price_included}
use jean_fourche.Orders.Lines.{join_lines, delivered, prepare_order_discount_line_vals}

module _ {C : Type 0} (env : Env C) (s : Settings) where
  abbrev pub carrier_or_raise : String → Option ℕ × C → Result Error (ℕ × C)
  carrier_or_raise code (none, c) = err (not_mapped_from_external code)
  carrier_or_raise code (some carrier, c) = ok (carrier, c)

  unfoldable pub try_get_odoo_delivery_carrier : CarrierData → C → Result Error (ℕ × C)
  try_get_odoo_delivery_carrier d c = elim (env.carrier_of c d.id) [
    | some carrier ↦ ok (carrier, c)
    | none ↦ env.import_external_carrier d c >>= carrier_or_raise d.id
  ]

  abbrev pub has_no_rate : Option ℕ → Bool
  has_no_rate none = false
  has_no_rate (some rate) = rate == 0

  -- A carrier with the rate zero takes no taxes but those of zero.
  abbrev pub carrier_taxes : Option ℕ → List Tax → List Tax
  carrier_taxes rate taxes =
      if has_no_rate rate && not (all (λ t. is_zero t.amount) taxes) then [] else taxes

  abbrev pub is_included : List Tax → Result Error Bool
  unfolding get_tax_price_included
  is_included [] = ok false
  is_included (t ∷ taxes) = get_tax_price_included env s (t ∷ taxes)

  abbrev pub delivery_price : DeliveryData → List Tax → ℤ → Result Error ℤ
  delivery_price d taxes price = elim d.shipping_cost_tax_excl [
    | none ↦ ok price
    | some excl ↦ is_included taxes >>= λ b. ok (if b then price else excl)
  ]

  -- The percentage of the delivery line, and the lines that are added.
  abbrev pub delivery_discount :
      Option String
      → DeliveryData
      → ℕ
      → C
      → Option Discount
      → Result Error ((Option ℕ × List Line) × C)
  unfolding prepare_order_discount_line_vals
  delivery_discount lang d product c none = ok ((none, []), c)
  delivery_discount lang d product c (some x) =
      if s.separate_discount_line
      then (prepare_order_discount_line_vals env s lang (delivered d product) c >>= λ r.
          ok ((none, r.0), r.1))
      else ok ((some x.discount_percent, []), c)

  abbrev pub notes_of : Option String → CarrierData → DeliveryData → List String
  notes_of lang carrier d =
      (if str_eq d.delivery_notes "" then [] else strip d.delivery_notes ∷ [])
      ++ (if carrier.is_pickup_point
          then env.translated lang "Pickup Point: %s" carrier.name ∷ []
          else [])

  abbrev pub update_notes : List String → Order → Order
  update_notes [] order = order
  update_notes (t ∷ ts) order =
      if s.has_delivery_note_field
      then record order { delivery_notes = join_lines (t ∷ ts) }
      else order

  abbrev pub or_percent : Option ℕ → Option ℕ → Option ℕ
  or_percent none n = n
  or_percent (some p) n = some p

  abbrev pub finished_delivery :
      CarrierData
      → DeliveryData
      → Order
      → List Line
      → Line
      → List Tax
      → ℤ
      → (Option ℕ × List Line) × C
      → Result Error (Order × C)
  finished_delivery carrier d order lines l taxes price ((percent, discounts), c) =
      let line : Line = record l {
        tax_id = taxes;
        price_unit = price;
        discount = or_percent percent l.discount;
      } in
      ok (
        update_notes (notes_of (env.lang_of order.partner_id) carrier d)
            (record order { order_line = lines ++ (line ∷ discounts) }),
        c,
      )

  abbrev pub discounted_delivery :
      CarrierData
      → DeliveryData
      → Order
      → List Line
      → Line
      → List Tax
      → C
      → ℤ
      → Result Error (Order × C)
  discounted_delivery carrier d order lines l taxes c price =
      delivery_discount (env.lang_of order.partner_id) d l.product_id c d.discount
      >>= finished_delivery carrier d order lines l taxes price

  abbrev pub priced_delivery :
      CarrierData
      → DeliveryData
      → Order
      → List Line
      → Line
      → List Tax × C
      → Result Error (Order × C)
  priced_delivery carrier d order lines l (taxes, c) =
      delivery_price d (carrier_taxes d.carrier_tax_rate taxes) l.price_unit
      >>= discounted_delivery carrier d order lines l (carrier_taxes d.carrier_tax_rate taxes) c

  abbrev pub with_delivery_line :
      CarrierData → DeliveryData → Order → C → List Line × Option Line → Result Error (Order × C)
  unfolding get_taxes_from_external_list
  with_delivery_line carrier d order c (lines, none) = ok (record order { order_line = lines }, c)
  with_delivery_line carrier d order c (lines, some l) =
      get_taxes_from_external_list env s (some l.product_id) d.taxes c
      >>= priced_delivery carrier d order lines l

  abbrev pub with_carrier : DeliveryData → Order → C → Option CarrierData → Result Error (Order × C)
  unfolding try_get_odoo_delivery_carrier
  with_carrier d order c none = ok (order, c)
  with_carrier d order c (some carrier) =
      if str_eq carrier.id ""
      then ok (order, c)
      else try_get_odoo_delivery_carrier carrier c >>= λ r.
          with_delivery_line carrier d order r.1
            (env.set_delivery_line r.0 d.shipping_cost order.order_line)

  unfoldable pub create_delivery_line : DeliveryData → Order → C → Result Error (Order × C)
  create_delivery_line d order c = with_carrier d order c d.carrier
