-- ===== src/Orders/Lines.antt =====
-- The lines of the products of an order and of their discounts: the methods of these names in
-- integration/models/integration_sale_order_factory.py.
use Prim.Native.String.{◌++◌ as text_append}
use text.Mathlib.Text.{◌==◌ as str_eq}
use jean_fourche.Base.{
  ℕ, String, Bool, true, false, not, Option, none, some, List, [], ◌∷◌, ◌++◌, if◌then◌else◌,
}
use jean_fourche.Base.Int.{ℤ, is_zero, negated}
use jean_fourche.Base.Result.{Result, ok, err, ◌>>=◌}
use jean_fourche.Orders.Data.{
  Error, not_found_external_product, api_import_error, Tax, Discount, LineData, DeliveryData, Line,
  Settings,
}
use jean_fourche.Orders.Env.{Env}
use jean_fourche.Orders.Taxes.{
  Lookup, found, undefined_external_product, not_found, get_taxes_from_external_list,
  get_tax_price_included, try_get_odoo_product, get_fallback_product_or_raise,
}

-- '\n'.join(texts)
abbrev pub join_lines : List String → String
join_lines [] = ""
join_lines (t ∷ []) = t
join_lines (t ∷ u ∷ ts) = text_append t (text_append "\n" (join_lines (u ∷ ts)))

abbrev pub is_empty : List String → Bool
is_empty [] = true
is_empty (t ∷ ts) = false

abbrev pub with_reference : String → String → String
with_reference reference name =
    if str_eq reference ""
    then name
    else text_append "[" (text_append reference (text_append "] " name))

-- An amount that is there and not zero.
abbrev pub given_amount : Option ℤ → Option ℤ
given_amount none = none
given_amount (some a) = if is_zero a then none else some a

-- What a discount is made for: a line, or the delivery with its product.
pub data Discounted : Type 0 where
  sold : LineData → Discounted
  delivered : DeliveryData → ℕ → Discounted

abbrev pub discount_of : Discounted → Option Discount
discount_of (sold d) = d.discount
discount_of (delivered d p) = d.discount

abbrev pub taxes_of : Discounted → List String
taxes_of (sold d) = d.taxes
taxes_of (delivered d p) = d.taxes

abbrev pub name_of : Discounted → String
name_of (sold d) = with_reference d.reference d.name
name_of (delivered d p) = ""

-- The discount of a line, if it has an amount.
abbrev pub amount_of : Option Discount → Option ℤ
amount_of none = none
amount_of (some d) = given_amount (some d.discount_amount)

abbrev pub tax_incl_of : Option Discount → Option ℤ
tax_incl_of none = none
tax_incl_of (some d) = given_amount d.discount_amount_tax_incl

abbrev pub percent_of : Option Discount → ℕ
percent_of none = 0
percent_of (some d) = d.discount_percent

module _ {C : Type 0} (env : Env C) (s : Settings) where
  unfoldable pub update_order_description : Option String → ℕ → List String → String
  update_order_description lang product [] = env.sale_description lang product
  update_order_description lang product (t ∷ ts) =
      text_append (env.sale_description lang product) (text_append "\n" (join_lines (t ∷ ts)))

  unfoldable pub get_discount_product : Result Error ℕ
  get_discount_product = elim s.discount_product_id [ some p ↦ ok p | none ↦ err api_import_error ]

  -- The price with taxes, where it is known and the taxes are part of the price.
  abbrev pub price_with : List Tax → ℤ → Option ℤ → Result Error ℤ
  unfolding get_tax_price_included
  price_with taxes price none = ok price
  price_with [] price (some incl) = ok price
  price_with (t ∷ taxes) price (some incl) =
      get_tax_price_included env s (t ∷ taxes) >>= λ b. ok (if b then incl else price)

  abbrev pub looked_up : Lookup → Option ℕ
  looked_up (found p) = some p
  looked_up _ = none

  abbrev pub product_of : Discounted → C → Result Error (Option ℕ × C)
  unfolding try_get_odoo_product
  product_of (sold d) c = try_get_odoo_product env s d false c >>= λ r. ok (looked_up r.0, r.1)
  product_of (delivered d p) c = ok (some p, c)

  abbrev pub line_name : Discounted → Option ℕ → String
  line_name d none = name_of d
  line_name d (some p) = env.display_name p

  abbrev pub discount_line : Option String → ℕ → String → ℤ → List Tax → Line
  unfolding update_order_description
  discount_line lang product name price taxes = record {
    product_id = product;
    name =
        some
          (update_order_description lang product (env.translated lang "Discount for %s" name ∷ []));
    price_unit = negated price;
    product_uom_qty = some 1;
    discount = none;
    tax_id = taxes;
    is_delivery = false;
    integration_external_id = "";
    external_location_id = "";
  }

  abbrev pub priced_discount :
      Option String → Discounted → ℤ → ℕ → Option ℕ → List Tax × C → Result Error (List Line × C)
  priced_discount lang d amount discount_product product (taxes, c) =
      price_with taxes amount (tax_incl_of (discount_of d)) >>= λ price.
      ok (discount_line lang discount_product (line_name d product) price taxes ∷ [], c)

  abbrev pub taxed_discount :
      Option String → Discounted → ℤ → ℕ → Option ℕ × C → Result Error (List Line × C)
  unfolding get_taxes_from_external_list
  taxed_discount lang d amount discount_product (product, c) =
      get_taxes_from_external_list env s product (taxes_of d) c
      >>= priced_discount lang d amount discount_product product

  abbrev pub discount_lines :
      Option String → Discounted → C → Option ℤ → Result Error (List Line × C)
  unfolding get_discount_product
  discount_lines lang d c none = ok ([], c)
  discount_lines lang d c (some amount) = get_discount_product >>= λ discount_product.
      product_of d c >>= taxed_discount lang d amount discount_product

  -- The language is that of the order's contact.
  unfoldable pub prepare_order_discount_line_vals :
      Option String → Discounted → C → Result Error (List Line × C)
  prepare_order_discount_line_vals lang d c = discount_lines lang d c (amount_of (discount_of d))

  abbrev pub additional_data : Option String → LineData → List String
  additional_data lang d =
      if str_eq d.coupon ""
      then d.add_description_list
      else d.add_description_list ++ env.translated lang "Coupon: %s" d.coupon ∷ []

  -- The product, and the name of a line without one.
  abbrev pub line_product : List String → LineData → Lookup × C → Result Error ((ℕ × String) × C)
  unfolding get_fallback_product_or_raise
  line_product texts d (found p, c) = ok ((p, ""), c)
  line_product texts d (not_found, c) = err not_found_external_product
  line_product texts d (undefined_external_product, c) =
      get_fallback_product_or_raise env s >>= λ p.
      ok ((p, join_lines (with_reference d.reference d.name ∷ texts)), c)

  abbrev pub description : Option String → ℕ → String → List String → Option String
  unfolding update_order_description
  description lang product name texts =
      if not (str_eq name "")
      then some name
      else if is_empty texts
      then none
      else some (update_order_description lang product texts)

  abbrev pub main_line : Option String → LineData → ℕ → String → List Tax → ℤ → Line
  main_line lang d product name taxes price = record {
    product_id = product;
    name = description lang product name (additional_data lang d);
    price_unit = price;
    product_uom_qty = d.product_uom_qty;
    discount = some (if s.separate_discount_line then 0 else percent_of d.discount);
    tax_id = taxes;
    is_delivery = false;
    integration_external_id = d.id;
    external_location_id = d.external_location_id;
  }

  abbrev pub priced_line :
      Option String → LineData → ℕ → String → List Tax × C → Result Error (Line × C)
  priced_line lang d product name (taxes, c) =
      price_with taxes d.price_unit (given_amount d.price_unit_tax_incl) >>= λ price.
      ok (main_line lang d product name taxes price, c)

  abbrev pub taxed_line : Option String → LineData → (ℕ × String) × C → Result Error (Line × C)
  unfolding get_taxes_from_external_list
  taxed_line lang d ((product, name), c) =
      get_taxes_from_external_list env s (some product) d.taxes c
      >>= priced_line lang d product name

  unfoldable pub prepare_order_line_vals : Option String → LineData → C → Result Error (Line × C)
  unfolding try_get_odoo_product
  prepare_order_line_vals lang d c =
      try_get_odoo_product env s d false c
      >>= line_product (additional_data lang d) d
      >>= taxed_line lang d

  abbrev pub separate_lines : Option String → LineData → C → Result Error (List Line × C)
  unfolding prepare_order_discount_line_vals
  separate_lines lang d c =
      if s.separate_discount_line
      then prepare_order_discount_line_vals lang (sold d) c
      else ok ([], c)

  -- A line, and that of its discount.
  abbrev pub lines_of : Option String → LineData → C → Result Error (List Line × C)
  unfolding prepare_order_line_vals
  lines_of lang d c = prepare_order_line_vals lang d c >>= λ l.
      separate_lines lang d l.1 >>= λ m. ok (l.0 ∷ m.0, m.1)

  unfoldable pub create_order_lines :
      Option String → List LineData → C → Result Error (List Line × C)
  create_order_lines lang [] c = ok ([], c)
  create_order_lines lang (d ∷ ds) c = lines_of lang d c >>= λ l.
      create_order_lines lang ds l.1 >>= λ rest. ok (l.0 ++ rest.0, rest.1)
