-- ===== src/Products/Hub.antt =====
-- The products of a hub, and the lists that it reports.
use text.Mathlib.Text.{◌==◌ as str_eq}
use jean_fourche.Base.{
  ℕ, String, Bool, true, false, not, ◌&&◌, ◌||◌, Option, none, some, List, [], ◌∷◌, map, filter,
  any, all, elem, find?, flat_map, ◌==◌, if◌then◌else◌,
}
use jean_fourche.Base.Eq.{Eq, nat_eq, string_eq}
use jean_fourche.Base.Dict.{groupby, extend_all, at_least, dict_append}
use jean_fourche.Base.Sort.{sort_by}
use jean_fourche.Base.Result.{Result, ok, err, ◌>>=◌}

pub record Product : Type 0 where
  pub id : ℕ
  pub name : String
  pub barcode : String
  pub ref : String
  pub parent_id : Option ℕ
  pub skip_ref : Bool
  pub joint_namespace : Bool

-- `ValueError` of `find_record_by_id`.
pub data Error : Type 0 where
  value_error : ℕ → Error

abbrev pub is_template : Product → Bool
is_template x = elim x.parent_id [ none ↦ true | some p ↦ false ]

abbrev pub is_variant : Product → Bool
is_variant x = not (is_template x)

abbrev pub has_barcode : Product → Bool
has_barcode x = not (str_eq x.barcode "")

abbrev pub has_ref : Product → Bool
has_ref x = not (str_eq x.ref "")

-- The templates that the records belong to, read where a variant is meant.
abbrev pub parent_is : ℕ → Product → Bool
parent_is id x = elim x.parent_id [ none ↦ false | some p ↦ p == id ]

unfoldable pub get_templates : List Product → List Product
unfolding sort_by
get_templates ps = sort_by (λ x. x.id) (filter is_template ps)

unfoldable pub get_variants : List Product → List Product
unfolding sort_by
get_variants ps = sort_by (λ x. x.id) (filter is_variant ps)

unfoldable pub get_ids : List Product → List ℕ
get_ids = map (λ x. x.id)

unfoldable pub split_templates_and_variants : List Product → List Product × List Product
split_templates_and_variants ps = (filter is_template ps, filter is_variant ps)

-- `_group_by`; without a level the groups are all returned, none of which is empty.
abbrev pub group_by :
    {K : Type 0} ⦃e : Eq K⦄ → (Product → K) → List Product → List (K × List Product)
group_by attr ps = extend_all (groupby attr ps) []

abbrev pub group_by_level :
    {K : Type 0} ⦃e : Eq K⦄ → (Product → K) → ℕ → List Product → List (K × List Product)
group_by_level attr level ps = at_least level (group_by attr ps)

abbrev pub find_record_by_id : ℕ → List Product → Result Error Product
find_record_by_id id ps = elim (find? (λ x. x.id == id) ps) [
  | none ↦ err (value_error id)
  | some x ↦ ok x
]

abbrev pub is_part_filled : List Product → Bool
is_part_filled xs = any has_barcode xs && not (all has_barcode xs)

-- The key of a variant is its parent; a template has none, and there are none among the variants.
abbrev pub parent_key : Product → ℕ
parent_key x = elim x.parent_id [ none ↦ 0 | some p ↦ p ]

unfoldable pub get_products_with_partial_barcodes : List Product → List Product
unfolding get_variants
get_products_with_partial_barcodes ps =
    let groups = group_by parent_key (get_variants ps) in
    let part_filled = map (λ g. g.0) (filter (λ g. is_part_filled g.1) groups) in
    filter (λ x. elem x.id part_filled) ps

unfoldable pub get_products_with_empty_references : List Product → List Product × List Product
unfolding split_templates_and_variants
get_products_with_empty_references ps =
    split_templates_and_variants (filter (λ x. not (has_ref x) && not x.skip_ref) ps)

unfoldable pub get_products_with_duplicate_barcodes : List Product → List (String × List Product)
get_products_with_duplicate_barcodes ps = group_by_level (λ x. x.barcode) 2 (filter has_barcode ps)

abbrev pub parents_of : List Product → List Product → Result Error (List Product)
parents_of ps [] = ok []
parents_of ps (x ∷ xs) =
    find_record_by_id (parent_key x) ps >>= λ p. parents_of ps xs >>= λ rest. ok (p ∷ rest)

abbrev pub repeated_of :
    List Product → List (ℕ × List Product) → Result Error (List (Product × List Product))
repeated_of ps [] = ok []
repeated_of ps ((key, xs) ∷ groups) = find_record_by_id key ps >>= λ r.
    parents_of ps xs >>= λ parents. repeated_of ps groups >>= λ rest. ok ((r, parents) ∷ rest)

-- The variants whose id stands twice, each with the parents that it has.
unfoldable pub get_products_with_repeated_configurations :
    List Product → Result Error (List (Product × List Product))
unfolding get_variants
get_products_with_repeated_configurations ps =
    repeated_of ps (group_by_level (λ x. x.id) 2 (get_variants ps))

unfoldable pub get_repeated_product_ids : List Product → Result Error (List ℕ)
unfolding get_products_with_repeated_configurations
get_repeated_product_ids ps =
    get_products_with_repeated_configurations ps >>= λ d. ok (map (λ g. g.0.id) d)

-- The template that a group of one reference may do without.
abbrev pub template_to_skip : List Product → List Product → List ℕ
template_to_skip (t ∷ []) (v ∷ []) = if parent_is t.id v then t.id ∷ [] else []
template_to_skip (t ∷ []) _ = t.id ∷ []
template_to_skip _ _ = []

abbrev pub templates_to_skip_ids : List (String × List Product) → List ℕ
templates_to_skip_ids =
    flat_map (λ g. template_to_skip (filter is_template g.1) (filter is_variant g.1))

abbrev pub with_references : List ℕ → List Product → List Product
with_references repeated_ids = filter (λ x. has_ref x && not (elem x.id repeated_ids))

abbrev pub duplicate_references : List Product → List (String × List Product)
duplicate_references products =
    let skipped = templates_to_skip_ids (group_by_level (λ x. x.ref) 2 products) in
    group_by_level (λ x. x.ref) 2 (filter (λ x. not (elem x.id skipped) || is_variant x) products)

unfoldable pub get_products_with_duplicate_references :
    List Product → Result Error (List (String × List Product))
unfolding get_repeated_product_ids
get_products_with_duplicate_references ps = get_repeated_product_ids ps >>= λ repeated_ids.
    ok (duplicate_references (with_references repeated_ids ps))

unfoldable pub get_ref_intersection :
    List Product → List Product → List (String × List Product) × List (String × List Product)
get_ref_intersection a b =
    let in_refs = λ (ps : List Product) (x : Product).
      any (λ (y : Product). has_ref y && not y.skip_ref && str_eq y.ref x.ref) ps in
    let scope = λ (x : Product). in_refs a x && in_refs b x in
    (group_by (λ x. x.ref) (filter scope a), group_by (λ x. x.ref) (filter scope b))

-- A dict whose keys are parent records. `find_record_by_id` always finds the same record for an id,
-- so that the record's id stands for it.
abbrev pub append_to_parent :
    List Product → List Product → List (ℕ × List Product) → Result Error (List (ℕ × List Product))
append_to_parent ps [] d = ok d
append_to_parent ps (x ∷ xs) d = find_record_by_id (parent_key x) ps >>= λ parent.
    append_to_parent ps xs (dict_append parent.id x d)

unfoldable pub get_products_with_no_barcodes_on_variants :
    List Product → Result Error (List (ℕ × List Product))
unfolding get_variants
get_products_with_no_barcodes_on_variants ps =
    append_to_parent ps (filter (λ x. not (has_barcode x)) (get_variants ps)) []

unfoldable pub get_products_with_nested_configurations :
    List Product → Result Error (List (ℕ × List Product))
unfolding get_variants get_templates get_ids
get_products_with_nested_configurations ps =
    let template_ids = get_ids (filter (λ x. x.joint_namespace) (get_templates ps)) in
    append_to_parent ps (filter (λ x. elem x.id template_ids) (get_variants ps)) []
