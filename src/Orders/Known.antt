-- ===== src/Orders/Known.antt =====
-- What an order keeps: a status that is known, and its payment method.
-- integration/models/integration_sale_order_factory.py.
use text.Mathlib.Text.{◌==◌ as str_eq}
use jean_fourche.Base.{ℕ, String, ◌≡◌, Option, none, some, List, [], ◌∷◌}
use jean_fourche.Base.Int.{ℤ}
use jean_fourche.Base.Result.{ok, ◌>>=◌, Holds, Holds-bind, Holds-bind_any, Holds-if}
use jean_fourche.Workflow.Steps.{SubStatus}
use jean_fourche.Orders.Data.{
  Error, Tax, CarrierData, Discount, DeliveryData, GiftData, OrderData, Line, Order, Settings,
}
use jean_fourche.Orders.Env.{Env}
use jean_fourche.Orders.Taxes.{
  try_get_odoo_tax, tax_or_raise, external_taxes, union_tax, taxes_of_policy,
  get_taxes_from_external_list, get_tax_price_included, try_get_odoo_product,
}
use jean_fourche.Orders.Lines.{
  delivered, amount_of, discount_lines, taxed_discount, priced_discount, get_discount_product,
  prepare_order_discount_line_vals, given_amount, price_with, update_order_description, tax_incl_of,
  discount_line, line_name,
}
use jean_fourche.Orders.Delivery.{
  carrier_or_raise, try_get_odoo_delivery_carrier, delivery_price, delivery_discount, carrier_taxes,
  priced_delivery, discounted_delivery, finished_delivery, with_delivery_line, with_carrier,
  create_delivery_line,
}
use jean_fourche.Orders.Extras.{
  wrapped, wrapped_at, with_gift_product, create_gift_line, corrected,
  create_line_with_price_difference_product, create_order_additional_lines, process_gift_message,
}

-- The status of a code has a record, and an import does not take it away.
pub record KeepsStatus {C : Type 0} (env : Env C) : Type 0 where
  pub status-record :
      (c : C) (code : String) (id : ℕ)
      → env.status_of c code ≡ some id
      → (x : ℕ × SubStatus) × (env.status_record c code ≡ some x)
  pub transaction-keeps :
      (c : C) (code : String) (x : ℕ × SubStatus) (t : String)
      → env.status_record c code ≡ some x
      → Holds (λ r. env.status_record r.1 code ≡ some x) (env.transaction_of t c)
  pub tax-keeps :
      (c : C) (code : String) (x : ℕ × SubStatus) (t : String)
      → env.status_record c code ≡ some x
      → Holds (λ r. env.status_record r.1 code ≡ some x) (env.import_external_tax t c)
  pub carrier-keeps :
      (c : C) (code : String) (x : ℕ × SubStatus) (d : CarrierData)
      → env.status_record c code ≡ some x
      → Holds (λ r. env.status_record r.1 code ≡ some x) (env.import_external_carrier d c)

module _ {C : Type 0} (env : Env C) (s : Settings) (k : KeepsStatus env) (code : String)
    (x : ℕ × SubStatus) where
  abbrev pub Known : {A : Type 0} → A × C → Type 0
  Known r = env.status_record r.1 code ≡ some x

  try_get_odoo_tax-Known :
      (t : String) (c : C)
      → env.status_record c code ≡ some x
      → Holds Known (try_get_odoo_tax env s t c)
  unfolding try_get_odoo_tax
  try_get_odoo_tax-Known t c h = by_tax (env.tax_of c t)
    where
      or_raise : (r : Option Tax × C) → Known r → Holds Known (tax_or_raise env s t r)
      or_raise (none, d) q = tt
      or_raise (some u, d) q = q

      by_tax :
          (o : Option Tax)
          → Holds {E = Error} Known (elim o [
            | some u ↦ ok (u, c)
            | none ↦ env.import_external_tax t c >>= tax_or_raise env s t
          ])
      by_tax (some u) = h
      by_tax none =
          Holds-bind Known Known (env.import_external_tax t c) (tax_or_raise env s t)
            (k.tax-keeps c code x t h) or_raise

  external_taxes-Known :
      (ts : List String) (taxes : List Tax) (c : C)
      → env.status_record c code ≡ some x
      → Holds Known (external_taxes env s ts taxes c)
  unfolding try_get_odoo_tax
  external_taxes-Known [] taxes c h = h
  external_taxes-Known (t ∷ ts) taxes c h =
      Holds-bind Known Known (try_get_odoo_tax env s t c)
        (λ r. external_taxes env s ts (union_tax taxes r.0) r.1) (try_get_odoo_tax-Known t c h)
        (λ r q. external_taxes-Known ts (union_tax taxes r.0) r.1 q)

  get_taxes-Known :
      (product : Option ℕ) (ts : List String) (c : C)
      → env.status_record c code ≡ some x
      → Holds Known (get_taxes_from_external_list env s product ts c)
  unfolding get_taxes_from_external_list
  get_taxes-Known product [] c h =
      Holds-bind_any Known (taxes_of_policy env s s.behavior_on_empty_tax product)
        (λ taxes. ok (taxes, c)) (λ _. h)
  get_taxes-Known product (t ∷ ts) c h = external_taxes-Known (t ∷ ts) [] c h

  discount_line-Known :
      (lang : Option String) (d : DeliveryData) (product : ℕ) (c : C)
      → env.status_record c code ≡ some x
      → Holds Known (prepare_order_discount_line_vals env s lang (delivered d product) c)
  unfolding prepare_order_discount_line_vals get_discount_product get_taxes_from_external_list
      update_order_description try_get_odoo_product
  discount_line-Known lang d product c h = by_amount (amount_of d.discount)
    where
      by_amount : (o : Option ℤ) → Holds Known (discount_lines env s lang (delivered d product) c o)
      by_amount none = h
      by_amount (some amount) =
          Holds-bind_any Known (get_discount_product env s)
            (λ p. taxed_discount env s lang (delivered d product) amount p (some product, c))
            (λ p.
              Holds-bind Known Known (get_taxes_from_external_list env s (some product) d.taxes c)
                (priced_discount env s lang (delivered d product) amount p (some product))
                (get_taxes-Known (some product) d.taxes c h)
                (λ t q.
                  Holds-bind_any Known (price_with env s t.0 amount (tax_incl_of d.discount))
                    (λ price. ok (
                      discount_line env s lang p
                            (line_name env s (delivered d product) (some product)) price t.0
                          ∷ [],
                      t.1,
                    ))
                    (λ _. q)))

  delivery_discount-Known :
      (lang : Option String) (d : DeliveryData) (product : ℕ) (c : C) (o : Option Discount)
      → env.status_record c code ≡ some x
      → Holds Known (delivery_discount env s lang d product c o)
  unfolding prepare_order_discount_line_vals
  delivery_discount-Known lang d product c none h = h
  delivery_discount-Known lang d product c (some y) h =
      Holds-if {E = Error} Known s.separate_discount_line
        (prepare_order_discount_line_vals env s lang (delivered d product) c >>= λ r.
          ok ((none, r.0), r.1))
        (ok ((some y.discount_percent, []), c))
        (λ _.
          Holds-bind Known Known
            (prepare_order_discount_line_vals env s lang (delivered d product) c)
            (λ r. ok ((none, r.0), r.1)) (discount_line-Known lang d product c h) (λ _ q. q))
        (λ _. h)

  with_delivery_line-Known :
      (carrier : CarrierData) (d : DeliveryData) (order : Order) (c : C)
      (r : List Line × Option Line)
      → env.status_record c code ≡ some x
      → Holds Known (with_delivery_line env s carrier d order c r)
  unfolding get_taxes_from_external_list get_tax_price_included prepare_order_discount_line_vals
  with_delivery_line-Known carrier d order c (lines, none) h = h
  with_delivery_line-Known carrier d order c (lines, some l) h =
      Holds-bind Known Known (get_taxes_from_external_list env s (some l.product_id) d.taxes c)
        (priced_delivery env s carrier d order lines l)
        (get_taxes-Known (some l.product_id) d.taxes c h)
        (λ t q.
          Holds-bind_any Known
            (delivery_price env s d (carrier_taxes env s d.carrier_tax_rate t.0) l.price_unit)
            (discounted_delivery env s carrier d order lines l
              (carrier_taxes env s d.carrier_tax_rate t.0) t.1)
            (λ price.
              Holds-bind Known Known
                (delivery_discount env s (env.lang_of order.partner_id) d l.product_id t.1
                  d.discount)
                (finished_delivery env s carrier d order lines l
                  (carrier_taxes env s d.carrier_tax_rate t.0) price)
                (delivery_discount-Known (env.lang_of order.partner_id) d l.product_id t.1
                  d.discount q)
                (λ _ u. u)))

  try_get_odoo_delivery_carrier-Known :
      (d : CarrierData) (c : C)
      → env.status_record c code ≡ some x
      → Holds Known (try_get_odoo_delivery_carrier env s d c)
  unfolding try_get_odoo_delivery_carrier
  try_get_odoo_delivery_carrier-Known d c h = by_carrier (env.carrier_of c d.id)
    where
      or_raise : (r : Option ℕ × C) → Known r → Holds Known (carrier_or_raise env s d.id r)
      or_raise (none, e) q = tt
      or_raise (some u, e) q = q

      by_carrier :
          (o : Option ℕ)
          → Holds {E = Error} Known (elim o [
            | some u ↦ ok (u, c)
            | none ↦ env.import_external_carrier d c >>= carrier_or_raise env s d.id
          ])
      by_carrier (some u) = h
      by_carrier none =
          Holds-bind Known Known (env.import_external_carrier d c) (carrier_or_raise env s d.id)
            (k.carrier-keeps c code x d h) or_raise

  create_delivery_line-Known :
      (d : DeliveryData) (order : Order) (c : C)
      → env.status_record c code ≡ some x
      → Holds Known (create_delivery_line env s d order c)
  unfolding create_delivery_line try_get_odoo_delivery_carrier
  create_delivery_line-Known d order c h = by_carrier d.carrier
    where
      by_carrier : (o : Option CarrierData) → Holds Known (with_carrier env s d order c o)
      by_carrier none = h
      by_carrier (some carrier) =
          Holds-if {E = Error} Known (str_eq carrier.id "") (ok (order, c))
            (try_get_odoo_delivery_carrier env s carrier c >>= λ r.
              with_delivery_line env s carrier d order r.1
                (env.set_delivery_line r.0 d.shipping_cost order.order_line))
            (λ _. h)
            (λ _.
              Holds-bind Known Known (try_get_odoo_delivery_carrier env s carrier c)
                (λ r.
                  with_delivery_line env s carrier d order r.1
                    (env.set_delivery_line r.0 d.shipping_cost order.order_line))
                (try_get_odoo_delivery_carrier-Known carrier c h)
                (λ r q.
                  with_delivery_line-Known carrier d order r.1
                    (env.set_delivery_line r.0 d.shipping_cost order.order_line) q))

  create_gift_line-Known :
      (d : GiftData) (order : Order) (c : C)
      → env.status_record c code ≡ some x
      → Holds Known (create_gift_line env s d order c)
  unfolding create_gift_line get_taxes_from_external_list get_tax_price_included
      process_gift_message
  create_gift_line-Known d order c h =
      Holds-if {E = Error} Known d.do_gift_wrapping
        (with_gift_product env s d order c s.gift_wrapping_product_id) (ok (order, c))
        (λ _. by_product s.gift_wrapping_product_id) (λ _. h)
    where
      by_product : (o : Option ℕ) → Holds Known (with_gift_product env s d order c o)
      by_product none = tt
      by_product (some product) =
          Holds-bind Known Known
            (get_taxes_from_external_list env s (some product) d.wrapping_tax_ids c)
            (wrapped env s d order product) (get_taxes-Known (some product) d.wrapping_tax_ids c h)
            (λ t q.
              Holds-bind_any Known (get_tax_price_included env s t.0)
                (wrapped_at env s d order product t) (λ _. q))

  pub create_order_additional_lines-Known :
      (d : OrderData) (order : Order) (c : C)
      → env.status_record c code ≡ some x
      → Holds Known (create_order_additional_lines env s d order c)
  unfolding create_order_additional_lines create_delivery_line create_gift_line
      create_line_with_price_difference_product
  create_order_additional_lines-Known d order c h =
      Holds-bind Known Known (create_delivery_line env s d.delivery_data order c)
        (λ r. create_gift_line env s d.gift_data r.0 r.1 >>= λ g.
          corrected env s (given_amount d.amount_total) g.0 >>= λ z. ok (z, g.1))
        (create_delivery_line-Known d.delivery_data order c h)
        (λ r q.
          Holds-bind Known Known (create_gift_line env s d.gift_data r.0 r.1)
            (λ g. corrected env s (given_amount d.amount_total) g.0 >>= λ z. ok (z, g.1))
            (create_gift_line-Known d.gift_data r.0 r.1 q)
            (λ g u.
              Holds-bind_any Known (corrected env s (given_amount d.amount_total) g.0)
                (λ z. ok (z, g.1)) (λ _. u)))
