-- ===== src/Products/Groups.antt =====
-- The groups that a hub reports, by key.
use text.Mathlib.Text.{◌==◌ as str_eq}
use mathlib.Core.Path.{subst}
use jean_fourche.Base.Result.{ok, Holds, ◌>>=◌}
use jean_fourche.Base.{
  sym, ℕ, ℕ, ◌≤◌, String, Bool, true, false, not, ◌&&◌, ◌||◌, ◌≡◌, refl, ap, ◌∙◌, List, [], ◌∷◌,
  filter, elem, length, leb, length-filter-le, if◌then◌else◌, Bool-cases, inl, inr, arith,
}
use jean_fourche.Base.Eq.{Eq, nat_eq, string_eq, beq_apart}
use jean_fourche.Base.Dict.{
  get, groupby, get-extend_all-groupby, extend_all-DistinctKeys, get-at_least,
}
use jean_fourche.Products.Hub.{
  Product, is_variant, has_barcode, group_by, group_by_level, templates_to_skip_ids, has_ref,
  with_references, get_repeated_product_ids, get_products_with_duplicate_references,
  duplicate_references, get_products_with_duplicate_barcodes,
}

module _ {K : Type 0} ⦃e : Eq K⦄ where
  group_by_level_lem :
      (k : K) (attr : Product → K) (level : ℕ) (ps : List Product)
      → get k (group_by_level attr level ps) ≡ (
          if leb level (length (filter (λ x. e.beq (attr x) k) ps))
          then filter (λ x. e.beq (attr x) k) ps
          else [])
  group_by_level_lem k attr level ps =
      get-at_least k level (group_by attr ps) (extend_all-DistinctKeys (groupby attr ps) [] tt)
      ∙ ap (λ xs. if leb level (length xs) then xs else []) (get-extend_all-groupby k attr ps)

filter-filter :
    (p q r : Product → Bool) (ps : List Product)
    → ((x : Product) → (p x && q x) ≡ r x)
    → filter q (filter p ps) ≡ filter r ps
filter-filter p q r [] h = refl
filter-filter p q r (x ∷ xs) h = ground (arith, h x, filter-filter p q r xs h)

-- The products that a hub reports under a barcode, which is no empty text, are all those that
-- carry it, in their order, wherever they stand in the list, if these are two or more; else there
-- are none.
pub get_products_with_duplicate_barcodes_lem :
    (barcode : String) (ps : List Product)
    → str_eq barcode "" ≡ false
    → get barcode (get_products_with_duplicate_barcodes ps) ≡ (
        if leb 2 (length (filter (λ x. str_eq x.barcode barcode) ps))
        then filter (λ x. str_eq x.barcode barcode) ps
        else [])
unfolding get_products_with_duplicate_barcodes
get_products_with_duplicate_barcodes_lem barcode ps h =
    group_by_level_lem barcode (λ x. x.barcode) 2 (filter has_barcode ps)
    ∙ ap (λ xs. if leb 2 (length xs) then xs else [])
        (filter-filter has_barcode (λ x. str_eq x.barcode barcode) (λ x. str_eq x.barcode barcode)
          ps has_it)
  where
    has_it : (x : Product) → (has_barcode x && str_eq x.barcode barcode) ≡ str_eq x.barcode barcode
    has_it x = elim (Bool-cases (str_eq x.barcode barcode)) [
      | inl same ↦ ground (arith, beq_apart x.barcode barcode "" same)
      | inr apart ↦ ground arith
    ]

-- What is skipped of a group of two or more variants are templates.
duplicate_references-variants :
    (ref : String) (ps : List Product)
    → 2 ≤ length (filter (λ x. is_variant x && str_eq x.ref ref) ps)
    → filter is_variant (get ref (duplicate_references ps))
      ≡ filter (λ x. is_variant x && str_eq x.ref ref) ps
duplicate_references-variants ref ps h =
    ap (filter is_variant) (group_by_level_lem ref (λ x. x.ref) 2 kept) ∙ chosen
  where
    skipped : List ℕ
    skipped = templates_to_skip_ids (group_by_level (λ x. x.ref) 2 ps)

    keep : Product → Bool
    keep x = not (elem x.id skipped) || is_variant x

    kept : List Product
    kept = filter keep ps

    group : List Product
    group = filter (λ x. str_eq x.ref ref) kept

    variants : filter is_variant group ≡ filter (λ x. is_variant x && str_eq x.ref ref) ps
    variants =
        ap (filter is_variant) (
          filter-filter keep (λ x. str_eq x.ref ref) (λ x. keep x && str_eq x.ref ref) ps
            (λ x. refl))
        ∙ filter-filter (λ x. keep x && str_eq x.ref ref) is_variant
            (λ x. is_variant x && str_eq x.ref ref) ps (λ x. ground arith)

    enough : 2 ≤ length group
    enough = omega (arith, length-filter-le is_variant group, ap length variants, h)

    chosen :
        filter is_variant (if leb 2 (length group) then group else [])
        ≡ filter (λ x. is_variant x && str_eq x.ref ref) ps
    chosen = let e : leb 2 (length group) ≡ true = ground (arith, enough) in rw e variants

-- If two or more of the products, whose id is not among those that stand twice, are variants with one
-- reference, then the report has a group of that reference, with all of these variants in their order.
pub get_products_with_duplicate_references-variants :
    (ref : String) (ps : List Product) (repeated_ids : List ℕ)
    → str_eq ref "" ≡ false
    → get_repeated_product_ids ps ≡ ok repeated_ids
    → 2
      ≤ length (filter (λ x. not (elem x.id repeated_ids) && (is_variant x && str_eq x.ref ref)) ps)
    → Holds
        (λ report.
          filter is_variant (get ref report)
          ≡ filter (λ x. not (elem x.id repeated_ids) && (is_variant x && str_eq x.ref ref)) ps)
        (get_products_with_duplicate_references ps)
unfolding get_products_with_duplicate_references get_repeated_product_ids
get_products_with_duplicate_references-variants ref ps repeated_ids n e h =
    subst
      (λ r.
        Holds
          (λ report.
            filter is_variant (get ref report)
            ≡ filter (λ x. not (elem x.id repeated_ids) && (is_variant x && str_eq x.ref ref)) ps)
          (r >>= λ ids. ok (duplicate_references (with_references ids ps))))
      (sym e)
      (duplicate_references-variants ref (with_references repeated_ids ps)
          (subst (λ xs. 2 ≤ length xs) (sym kept) h)
        ∙ kept)
  where
    wanted : Product → Bool
    wanted x = not (elem x.id repeated_ids) && (is_variant x && str_eq x.ref ref)

    is_wanted :
        (x : Product)
        → (has_ref x && not (elem x.id repeated_ids) && (is_variant x && str_eq x.ref ref))
          ≡ wanted x
    is_wanted x = elim (Bool-cases (str_eq x.ref ref)) [
      | inl same ↦ ground (arith, beq_apart x.ref ref "" same, n)
      | inr apart ↦ ground arith
    ]

    kept :
        filter (λ x. is_variant x && str_eq x.ref ref) (with_references repeated_ids ps)
        ≡ filter wanted ps
    kept =
        filter-filter (λ x. has_ref x && not (elem x.id repeated_ids))
          (λ x. is_variant x && str_eq x.ref ref) wanted ps is_wanted
