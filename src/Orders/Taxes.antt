-- ===== src/Orders/Taxes.antt =====
-- The taxes and the product of a line: the methods of these names in
-- integration/models/integration_sale_order_factory.py, and the search of a product in sale_integration.py.
use text.Mathlib.Text.{◌==◌ as str_eq}
use jean_fourche.Base.{
  ℕ, String, Bool, true, false, not, ◌&&◌, ◌||◌, Option, none, some, List, [], ◌∷◌, ◌++◌, any, all,
  filter, ◌==◌, if◌then◌else◌,
}
use jean_fourche.Base.Int.{is_zero}
use jean_fourche.Base.Result.{Result, ok, err, ◌>>=◌}
use jean_fourche.Orders.Data.{
  Error, not_mapped_from_external, api_import_error, user_error, validation_error, Tax, LineData,
  EmptyTaxPolicy, Settings,
}
use jean_fourche.Orders.Env.{Env}

-- A recordset of taxes has each once.
abbrev pub union_tax : List Tax → Tax → List Tax
union_tax taxes t = if any (λ u. u.id == t.id) taxes then taxes else taxes ++ t ∷ []

abbrev special_tax : Option Tax → Result Error (List Tax)
special_tax none = err user_error
special_tax (some t) = if is_zero t.amount then ok (t ∷ []) else err user_error

-- What a lookup of a product gives; the two errors are those that its callers catch.
pub data Lookup : Type 0 where
  found : ℕ → Lookup
  undefined_external_product not_found : Lookup

module _ {C : Type 0} (env : Env C) (s : Settings) where
  abbrev pub tax_or_raise : String → Option Tax × C → Result Error (Tax × C)
  tax_or_raise code (none, c) = err (not_mapped_from_external code)
  tax_or_raise code (some t, c) = ok (t, c)

  unfoldable pub try_get_odoo_tax : String → C → Result Error (Tax × C)
  try_get_odoo_tax code c = elim (env.tax_of c code) [
    | some t ↦ ok (t, c)
    | none ↦ env.import_external_tax code c >>= tax_or_raise code
  ]

  abbrev pub external_taxes : List String → List Tax → C → Result Error (List Tax × C)
  unfolding try_get_odoo_tax
  external_taxes [] taxes c = ok (taxes, c)
  external_taxes (code ∷ codes) taxes c =
      try_get_odoo_tax code c >>= λ r. external_taxes codes (union_tax taxes r.0) r.1

  -- No product has no taxes.
  abbrev pub company_taxes : Option ℕ → List Tax
  company_taxes none = []
  company_taxes (some p) = filter (λ t. t.company_id == s.company_id) (env.taxes_of_product p)

  abbrev pub taxes_of_policy : EmptyTaxPolicy → Option ℕ → Result Error (List Tax)
  taxes_of_policy EmptyTaxPolicy.leave_empty product = ok []
  taxes_of_policy EmptyTaxPolicy.set_special_tax product = special_tax s.zero_tax_id
  taxes_of_policy EmptyTaxPolicy.take_from_product product = ok (company_taxes product)

  unfoldable pub get_taxes_from_external_list :
      Option ℕ → List String → C → Result Error (List Tax × C)
  get_taxes_from_external_list product [] c =
      taxes_of_policy s.behavior_on_empty_tax product >>= λ taxes. ok (taxes, c)
  get_taxes_from_external_list product (code ∷ codes) c = external_taxes (code ∷ codes) [] c

  -- The empty set of taxes includes the price.
  unfoldable pub get_tax_price_included : List Tax → Result Error Bool
  get_tax_price_included taxes =
      if not (all (λ t. t.price_include) taxes) && any (λ t. t.price_include) taxes
      then err api_import_error
      else ok (all (λ t. t.price_include) taxes)

  unfoldable pub get_odoo_product : String → Bool → C → Result Error (Option ℕ)
  get_odoo_product code raise_error c = elim (env.variant_of c code) [
    | some p ↦ ok (some p)
    | none ↦ if raise_error then err (not_mapped_from_external code) else ok none
  ]

  abbrev pub has_variant : String → Option (List String) → Bool
  has_variant code none = false
  has_variant code (some codes) = any (λ v. str_eq v code) codes

  abbrev pub lookup_of : C → Option ℕ → Result Error (Lookup × C)
  lookup_of c none = ok (not_found, c)
  lookup_of c (some p) = ok (found p, c)

  abbrev pub create_on_the_fly : String → C → Option ℕ → Result Error (Lookup × C)
  unfolding get_odoo_product
  create_on_the_fly code c (some p) = ok (found p, c)
  create_on_the_fly code c none = env.import_product (env.template_code code) c >>= λ d.
      get_odoo_product code true d >>= lookup_of d

  abbrev pub after_import : Bool → String → Option (List String) × C → Result Error (Lookup × C)
  unfolding get_odoo_product
  after_import force_create code (variants, c) =
      let auto : Bool = force_create || s.auto_create_products_on_so in
      if has_variant code variants
      then (get_odoo_product code (not auto) c >>= create_on_the_fly code c)
      else ok (not_found, c)

  abbrev pub search_or_import : Bool → String → C → Option ℕ → Result Error (Lookup × C)
  search_or_import force_create code c (some p) = ok (found p, c)
  search_or_import force_create code c none =
      env.import_external_product (env.template_code code) c >>= after_import force_create code

  unfoldable pub try_get_odoo_product : LineData → Bool → C → Result Error (Lookup × C)
  unfolding get_odoo_product
  try_get_odoo_product line force_create c = elim line.odoo_variant_id [
    | some p ↦ ok (found p, c)
    | none ↦
        if str_eq line.product_id ""
        then ok (undefined_external_product, c)
        else get_odoo_product line.product_id false c
          >>= search_or_import force_create line.product_id c
  ]

  unfoldable pub get_fallback_product_or_raise : Result Error ℕ
  get_fallback_product_or_raise = elim s.fallback_product_id [
    | some p ↦ ok p
    | none ↦ err validation_error
  ]
