-- ===== src/Orders/Total.antt =====
-- The total of an order that is corrected to the total of the store:
-- integration/models/integration_sale_order_factory.py.
use mathlib.Core.Path.{subst}
use jean_fourche.Base.{
  refl, ℕ, true, false, ◌≡◌, ◌∙◌, Option, none, some, List, [], ◌∷◌, ◌++◌, arith,
}
use jean_fourche.Base.Int.{ℤ, is_zero, ◌+ℤ◌, ◌-ℤ◌, +ℤ-sub, sub-is_zero}
use jean_fourche.Base.Result.{ok, ◌>>=◌, Holds, Holds-bind, Holds-bind_any, Holds-if}
use jean_fourche.Partners.Records.{Settings as ContactSettings}
use jean_fourche.Partners.Odoo.{Odoo}
use jean_fourche.Orders.Data.{Error, OrderData, Line, Order, Settings}
use jean_fourche.Orders.Env.{Env, World}
use jean_fourche.Orders.Lines.{given_amount}
use jean_fourche.Orders.Delivery.{create_delivery_line}
use jean_fourche.Orders.Extras.{
  plain_line, create_gift_line, with_difference, difference_product,
  create_line_with_price_difference_product, corrected, create_order_additional_lines,
}
use jean_fourche.Orders.Vals.{prepare_order_vals}
use jean_fourche.Orders.Create.{
  with_lines, set_values, after_taxes, extended, valued, completed, new_order,
}

-- A line without taxes adds its price to the total, if the price list takes nothing off it.
abbrev pub AddsUntaxed : {C : Type 0} → Env C → Type 0
AddsUntaxed env =
    (ls : List Line) (product : ℕ) (price : ℤ)
    → env.pricelist_discount product ≡ 0
    → env.order_total (ls ++ plain_line product [] price ∷ []) ≡ env.order_total ls +ℤ price

-- The price list takes nothing off the products for a difference.
abbrev pub IsUndiscounted : {C : Type 0} → Env C → Settings → Type 0
IsUndiscounted env s =
    (d : ℤ) (product : ℕ)
    → difference_product env s d ≡ some product
    → env.pricelist_discount product ≡ 0

module _ {C : Type 0} (env : Env C) (s : Settings) (law : AddsUntaxed env)
    (undiscounted : IsUndiscounted env s) where
  abbrev Totals : ℤ → Order → Type 0
  Totals a order = env.order_total order.order_line ≡ a

  difference-Totals :
      (a : ℤ) (order : Order)
      → Holds (Totals a) (create_line_with_price_difference_product env s a order)
  unfolding create_line_with_price_difference_product
  difference-Totals a order =
      Holds-if {E = Error} (Totals a) (is_zero d) (ok order)
        (with_difference env s d order (difference_product env s d))
        (λ z. sub-is_zero (env.order_total order.order_line) a z)
        (λ _. with_product (difference_product env s d) refl)
    where
      d : ℤ
      d = a -ℤ env.order_total order.order_line

      with_product :
          (p : Option ℕ)
          → difference_product env s d ≡ p
          → Holds (Totals a) (with_difference env s d order p)
      with_product none e = tt
      with_product (some p) e =
          law order.order_line p d (undiscounted d p e)
          ∙ +ℤ-sub (env.order_total order.order_line) a

  after_taxes-Totals :
      (a : ℤ) (order : Order) (f : Option ℕ)
      → s.update_fiscal_position ≡ false
      → Totals a order
      → Totals a (after_taxes env s order f)
  after_taxes-Totals a order none u t = t
  after_taxes-Totals a order (some p) u t = ground (arith, t)

  extended-Totals :
      (d : OrderData) (a : ℤ) (v : Order × World C)
      → s.use_order_total_difference_correction ≡ true
      → s.update_fiscal_position ≡ false
      → given_amount d.amount_total ≡ some a
      → Holds (λ r. Totals a r.0) (extended env s d v)
  unfolding create_order_additional_lines create_delivery_line create_gift_line
      create_line_with_price_difference_product
  extended-Totals d a (order, w) c u g =
      Holds-bind (λ r. Totals a r.0) (λ x. Totals a x.0)
        (create_order_additional_lines env s d order w.catalog)
        (λ x. ok (after_taxes env s x.0 x.0.fiscal_position_id, record w { catalog = x.1 }))
        (Holds-bind_any (λ x. Totals a x.0)
          (create_delivery_line env s d.delivery_data order w.catalog)
          (λ r. create_gift_line env s d.gift_data r.0 r.1 >>= λ k.
            corrected env s (given_amount d.amount_total) k.0 >>= λ z. ok (z, k.1))
          (λ r.
            Holds-bind_any (λ x. Totals a x.0) (create_gift_line env s d.gift_data r.0 r.1)
              (λ k. corrected env s (given_amount d.amount_total) k.0 >>= λ z. ok (z, k.1))
              (λ k.
                Holds-bind (λ x. Totals a x.0) (Totals a)
                  (corrected env s (given_amount d.amount_total) k.0) (λ z. ok (z, k.1))
                  (is_corrected k.0 (given_amount d.amount_total) g) (λ _ t. t))))
        (λ x t. after_taxes-Totals a x.0 x.0.fiscal_position_id u t)
    where
      is_corrected :
          (k : Order) (m : Option ℤ) → m ≡ some a → Holds (Totals a) (corrected env s m k)
      is_corrected k none e = ground arith
      is_corrected k (some b) e =
          Holds-if {E = Error} (Totals a) s.use_order_total_difference_correction
            (create_line_with_price_difference_product env s b k) (ok k)
            (λ _.
              subst (λ x. Holds (Totals x) (create_line_with_price_difference_product env s b k))
                (ground arith) (difference-Totals b k))
            (λ n. ground (arith, n, c))

  -- With the correction of the total, and if the taxes are not updated afterwards, an order that is
  -- made has the total of the store, where the store gives one that is not zero, and where the price
  -- list takes nothing off the products for a difference. An untaxed line that nothing is taken off
  -- adds its price to the total of an order.
  pub new_order-Totals :
      (o : Odoo) (cs : ContactSettings) (d : OrderData) (a : ℤ) (w : World C)
      → s.use_order_total_difference_correction ≡ true
      → s.update_fiscal_position ≡ false
      → given_amount d.amount_total ≡ some a
      → Holds (λ r. env.order_total r.0.order_line ≡ a) (new_order env s o cs d w)
  unfolding new_order
  new_order-Totals o cs d a w c u g =
      Holds-bind_any (λ r. Totals a r.0) (prepare_order_vals env s o cs d w) (completed env s d)
        (λ p.
          Holds-bind_any (λ r. Totals a r.0) (with_lines env s d p.0 p.1.catalog)
            (valued env s d p.1)
            (λ b.
              Holds-bind_any (λ r. Totals a r.0)
                (set_values env s d b.0 (record p.1 { catalog = b.1 })) (extended env s d)
                (λ v. extended-Totals d a v c u g)))
