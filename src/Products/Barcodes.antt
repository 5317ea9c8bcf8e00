-- ===== src/Products/Barcodes.antt =====
-- The templates that a hub reports because only a part of their variants has a barcode.
use mathlib.Core.Path.{fun_ext}
use jean_fourche.Base.{
  ℕ, Bool, true, false, not, ◌&&◌, ◌≡◌, refl, ap, sym, ◌∙◌, List, [], ◌∷◌, map, filter, any, all,
  elem, ◌==◌, if◌then◌else◌, Bool-cases, inl, inr, arith, any-map, any-filter,
}
use jean_fourche.Base.Eq.{nat_eq}
use jean_fourche.Base.Dict.{
  get, has_key, groupby, DistinctKeys, get-extend_all-groupby, extend_all-DistinctKeys,
}
use jean_fourche.Base.Sort.{any-sort_by}
use jean_fourche.Products.Hub.{
  Product, is_variant, has_barcode, group_by, parent_key, get_variants, is_part_filled,
  get_products_with_partial_barcodes,
}

-- A variant of the template of that id, with a barcode or without one.
abbrev pub has_variant : Bool → ℕ → List Product → Bool
has_variant with_barcode id = any (λ x.
    is_variant x
    && (parent_key x == id)
    && (if with_barcode then has_barcode x else not (has_barcode x)))

not-all : (p : Product → Bool) (xs : List Product) → not (all p xs) ≡ any (λ x. not (p x)) xs
not-all p [] = refl
not-all p (x ∷ xs) = ground (arith, not-all p xs)

module _ (p : List Product → Bool) (empty : p [] ≡ false) where
  no_key :
      (k : ℕ) (d : List (ℕ × List Product))
      → has_key k d ≡ false
      → any (λ g. (g.0 == k) && p g.1) d ≡ false
  no_key k [] h = refl
  no_key k (g ∷ d) h = ground (arith, no_key k d)

  any-get :
      (k : ℕ) (d : List (ℕ × List Product))
      → DistinctKeys d
      → any (λ g. (g.0 == k) && p g.1) d ≡ p (get k d)
  any-get k [] h = sym empty
  any-get k ((j, xs) ∷ d) h = elim (Bool-cases (j == k)) [
    | inl same ↦
        let j≡k : j ≡ k = ground arith in
        let none_left : has_key k d ≡ false = ap (λ z. has_key z d) (sym j≡k) ∙ h.0 in
        ground (arith, no_key k d none_left)
    | inr apart ↦ ground (arith, any-get k d h.1)
  ]

  elem-keys :
      (k : ℕ) (d : List (ℕ × List Product))
      → DistinctKeys d
      → elem k (map (λ g. g.0) (filter (λ g. p g.1) d)) ≡ p (get k d)
  elem-keys k d h =
      any-map (λ g. g.0) (λ y. y == k) (filter (λ g. p g.1) d)
      ∙ any-filter (λ g. g.0 == k) (λ g. p g.1) d
      ∙ ap (λ f. any f d) (fun_ext (λ g. ground arith))
      ∙ any-get k d h

part_filled_lem :
    (id : ℕ) (ps : List Product)
    → is_part_filled (get id (group_by parent_key (get_variants ps)))
      ≡ (has_variant true id ps && has_variant false id ps)
unfolding get_variants
part_filled_lem id ps =
    ap is_part_filled (get-extend_all-groupby id parent_key (get_variants ps))
    ∙ ap (λ b. any has_barcode group && b) (not-all has_barcode group)
    ∙ ap (λ b. b && any (λ x. not (has_barcode x)) group) (variants has_barcode)
    ∙ ap (λ b. has_variant true id ps && b) (variants (λ x. not (has_barcode x)))
  where
    group : List Product
    group = filter (λ x. parent_key x == id) (get_variants ps)

    variants :
        (q : Product → Bool)
        → any q group ≡ any (λ x. is_variant x && (parent_key x == id) && q x) ps
    variants q =
        any-filter q (λ x. parent_key x == id) (get_variants ps)
        ∙ any-sort_by (λ x. (parent_key x == id) && q x) (λ x. x.id) (filter is_variant ps)
        ∙ any-filter (λ x. (parent_key x == id) && q x) is_variant ps
        ∙ ap (λ f. any f ps) (fun_ext (λ x. ground arith))

-- A hub reports as partly filled exactly the products whose id is the parent of a variant with a
-- barcode and of a variant without one, in the order of the hub.
pub get_products_with_partial_barcodes_lem :
    (ps : List Product)
    → get_products_with_partial_barcodes ps
      ≡ filter (λ x. has_variant true x.id ps && has_variant false x.id ps) ps
unfolding get_products_with_partial_barcodes
get_products_with_partial_barcodes_lem ps =
    ap (λ f. filter f ps)
      (fun_ext λ x.
        elem-keys is_part_filled refl x.id (group_by parent_key (get_variants ps))
          (extend_all-DistinctKeys (groupby parent_key (get_variants ps)) [] tt)
        ∙ part_filled_lem x.id ps)
