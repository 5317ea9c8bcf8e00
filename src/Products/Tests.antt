-- ===== src/Products/Tests.antt =====
-- The hub at concrete products.
use text.Mathlib.Text.{◌==◌ as str_eq}
use jean_fourche.Base.Result.{Holds}
use jean_fourche.Base.{
  not, elem, refl, ℕ, String, true, false, ◌&&◌, ◌≡◌, Option, none, some, List, [], ◌∷◌, filter,
  arith,
}
use jean_fourche.Base.Eq.{string_eq}
use jean_fourche.Base.Dict.{get}
use jean_fourche.Products.Hub.{
  Product, is_variant, get_variants, get_repeated_product_ids,
  get_products_with_repeated_configurations, get_products_with_duplicate_references,
}
use jean_fourche.Products.Groups.{get_products_with_duplicate_references-variants}

abbrev product : ℕ → String → String → Option ℕ → Product
product id barcode ref parent = record {
  id = id;
  name = "P";
  barcode = barcode;
  ref = ref;
  parent_id = parent;
  skip_ref = false;
  joint_namespace = true;
}

-- A template with two variants of one reference and one barcode, and one without.
abbrev products : List Product
products =
    product 1 "" "R" none
    ∷ product 2 "B" "R" (some 1)
    ∷ product 3 "" "S" (some 1)
    ∷ product 4 "B" "R" (some 1)
    ∷ []

get_products_with_duplicate_references-variants_example :
    Holds
      (λ report.
        filter is_variant (get "R" report)
        ≡ filter (λ x. not (elem x.id []) && (is_variant x && str_eq x.ref "R")) products)
      (get_products_with_duplicate_references products)
unfolding get_repeated_product_ids get_products_with_repeated_configurations get_variants
get_products_with_duplicate_references-variants_example =
    get_products_with_duplicate_references-variants "R" products [] refl refl (omega arith)
