-- ===== src/Orders/Discounted.antt =====
-- The line of a product and the line that takes its discount off:
-- integration/models/integration_sale_order_factory.py.
use jean_fourche.Base.{
  all, any, not, ◌&&◌, ℕ, String, Bool, true, false, ◌≡◌, ◌⊎◌, refl, Option, none, some, List, [],
  ◌∷◌, if◌then◌else◌, inl, inr,
}
use jean_fourche.Base.Int.{ℤ, negated}
use jean_fourche.Base.Result.{ok, err, ◌>>=◌, Holds, Holds-bind, Holds-bind_any}
use jean_fourche.Orders.Data.{api_import_error, Tax, LineData, Line, Settings}
use jean_fourche.Orders.Env.{Env}
use jean_fourche.Orders.Taxes.{
  try_get_odoo_product, get_taxes_from_external_list, get_tax_price_included,
  get_fallback_product_or_raise,
}
use jean_fourche.Orders.Lines.{
  sold, update_order_description, amount_of, tax_incl_of, given_amount, price_with, percent_of,
  discount_line, discount_lines, get_discount_product, product_of, line_name, main_line,
  line_product, additional_data, taxed_discount, priced_discount, taxed_line, priced_line,
  prepare_order_line_vals,
}

-- The line of a product.
abbrev pub IsMain : LineData → Line → Type 0
IsMain d l =
    (l.integration_external_id ≡ d.id)
    × (l.discount ≡ some 0)
    × (l.product_uom_qty ≡ d.product_uom_qty)

-- What an amount is, that may be known with taxes as well: that with taxes where all of the line's
-- taxes are part of its price, and that without where none is.
pub data Priced : List Tax → ℤ → Option ℤ → ℤ → Type 0 where
  one_amount : {taxes : List Tax} {amount : ℤ} → Priced taxes amount none amount
  included :
      {t : Tax} {taxes : List Tax} {amount incl : ℤ}
      → all (λ x. x.price_include) (t ∷ taxes) ≡ true
      → Priced (t ∷ taxes) amount (some incl) incl
  excluded :
      {taxes : List Tax} {amount incl : ℤ}
      → any (λ x. x.price_include) taxes ≡ false
      → Priced taxes amount (some incl) amount

-- The line that takes off the discount once. It has no discount of its own.
abbrev pub TakesOff : ℤ → Option ℤ → Line → Type 0
TakesOff amount incl l =
    ((price : ℤ) × Priced l.tax_id amount incl price × (l.price_unit ≡ negated price))
    × (l.product_uom_qty ≡ some 1)
    × (l.discount ≡ none)

-- What follows the line of a product.
abbrev pub Follows : LineData → List Line → Type 0
Follows d ls =
    ((amount_of d.discount ≡ none) × (ls ≡ []))
    ⊎ ((amount : ℤ) × (m : Line) × (amount_of d.discount ≡ some amount)
        × (ls ≡ m ∷ [])
        × TakesOff amount (tax_incl_of d.discount) m)

module _ {C : Type 0} (env : Env C) (s : Settings) (lang : Option String) where
  price_with-Priced :
      (taxes : List Tax) (amount : ℤ) (incl : Option ℤ)
      → Holds (Priced taxes amount incl) (price_with env s taxes amount incl)
  unfolding get_tax_price_included
  price_with-Priced taxes amount none = one_amount
  price_with-Priced [] amount (some i) = excluded refl
  price_with-Priced (t ∷ taxes) amount (some i) =
      by_flags (all (λ x. x.price_include) (t ∷ taxes)) (any (λ x. x.price_include) (t ∷ taxes))
        refl refl
    where
      by_flags :
          (a b : Bool)
          → all (λ x. x.price_include) (t ∷ taxes) ≡ a
          → any (λ x. x.price_include) (t ∷ taxes) ≡ b
          → Holds (Priced (t ∷ taxes) amount (some i)) (
              (if not a && b then err api_import_error else ok a) >>= λ x.
              ok (if x then i else amount))
      by_flags true b e f = included e
      by_flags false true e f = tt
      by_flags false false e f = excluded f

  pub discount_lines-Follows :
      (d : LineData) (c : C) (o : Option ℤ)
      → amount_of d.discount ≡ o
      → Holds (λ r. Follows d r.0) (discount_lines env s lang (sold d) c o)
  unfolding get_taxes_from_external_list get_discount_product try_get_odoo_product
      update_order_description
  discount_lines-Follows d c none e = inl (e, refl)
  discount_lines-Follows d c (some amount) e =
      Holds-bind_any P (get_discount_product env s)
        (λ product.
          product_of env s (sold d) c >>= taxed_discount env s lang (sold d) amount product)
        (λ product.
          Holds-bind_any P (product_of env s (sold d) c)
            (taxed_discount env s lang (sold d) amount product)
            (λ r.
              Holds-bind_any P (get_taxes_from_external_list env s r.0 d.taxes r.1)
                (priced_discount env s lang (sold d) amount product r.0)
                (λ t. priced product r.0 t.0 t.1)))
    where
      P : List Line × C → Type 0
      P r = Follows d r.0

      priced :
          (product : ℕ) (p : Option ℕ) (taxes : List Tax) (c : C)
          → Holds P (priced_discount env s lang (sold d) amount product p (taxes, c))
      priced product p taxes c =
          Holds-bind P (Priced taxes amount (tax_incl_of d.discount))
            (price_with env s taxes amount (tax_incl_of d.discount))
            (λ price.
              ok
                (discount_line env s lang product (line_name env s (sold d) p) price taxes ∷ [], c))
            (price_with-Priced taxes amount (tax_incl_of d.discount))
            (λ price q. inr (
              amount,
              discount_line env s lang product (line_name env s (sold d) p) price taxes,
              e,
              refl,
              ((price, q, refl), refl, refl),
            ))

  -- The line of a product has the percentage unless discounts are separate.
  abbrev pub percent_in_line : LineData → ℕ
  percent_in_line d = if s.separate_discount_line then 0 else percent_of d.discount

  abbrev pub IsLineOf : LineData → Line → Type 0
  IsLineOf d l =
      (l.integration_external_id ≡ d.id)
      × (l.discount ≡ some (percent_in_line d))
      × (l.product_uom_qty ≡ d.product_uom_qty)

  pub prepare_order_line_vals-IsLineOf :
      (d : LineData) (c : C) → Holds (λ r. IsLineOf d r.0) (prepare_order_line_vals env s lang d c)
  unfolding prepare_order_line_vals get_taxes_from_external_list get_fallback_product_or_raise
      update_order_description
  prepare_order_line_vals-IsLineOf d c =
      Holds-bind_any P
        (try_get_odoo_product env s d false c
          >>= line_product env s (additional_data env s lang d) d)
        (taxed_line env s lang d)
        (λ r.
          Holds-bind_any P (get_taxes_from_external_list env s (some r.0.0) d.taxes r.1)
            (priced_line env s lang d r.0.0 r.0.1)
            (λ t.
              Holds-bind_any P
                (price_with env s t.0 d.price_unit (given_amount d.price_unit_tax_incl))
                (λ price. ok (main_line env s lang d r.0.0 r.0.1 t.0 price, t.1))
                (λ _. (refl, refl, refl))))
    where
      P : Line × C → Type 0
      P r = IsLineOf d r.0
