-- ===== src/Prices/Items.antt =====
-- `PriceList`, and the records of `integration.product.pricelist.item.external` that it rewrites.
-- What a search and an unlink do to those records is a filter, what a create does is an append.
use Prim.Native.String.{◌++◌ as text_append}
use mathlib.Core.List.{append_assoc, append-nil}
use jean_fourche.Base.{
  ℕ, String, Bool, true, false, not, ◌&&◌, ◌≡◌, refl, ap, sym, ◌∙◌, Option, none, some, List, [],
  ◌∷◌, ◌++◌, map, filter, any, elem, ◌==◌, arith,
}

-- `_res_model`
pub data ResModel : Type 0 where
  product_template product_product : ResModel

pub record Price : Type 0 where
  pub external_group_id : String
  pub item_id : ℕ
  pub external_item_ids : List ℕ

-- `result` has the external item of an exported item, if the store gave one.
pub record PriceList : Type 0 where
  pub int_id : ℕ
  pub res_id : ℕ
  pub res_model : ResModel
  pub ext_id : String
  pub prices : List Price
  pub force_sync_pricelist : Bool
  pub result : List (ℕ × Option ℕ)
  pub unlinked : List ℕ

pub record ItemExternal : Type 0 where
  pub item_id : ℕ
  pub external_item_id : ℕ
  pub variant_id : Option ℕ
  pub template_id : Option ℕ
  pub integration_id : ℕ

abbrev pub same_id : Option ℕ → Option ℕ → Bool
same_id none none = true
same_id (some a) (some b) = a == b
same_id _ _ = false

abbrev pub tmpl_id : PriceList → Option ℕ
tmpl_id pl = elim pl.res_model [ product_template ↦ some pl.res_id | product_product ↦ none ]

abbrev pub var_id : PriceList → Option ℕ
var_id pl = elim pl.res_model [ product_template ↦ none | product_product ↦ some pl.res_id ]

-- '|'.join(x['external_group_id'] for x in self.prices)
unfoldable pub join_groups : List Price → String
join_groups [] = ""
join_groups (x ∷ []) = x.external_group_id
join_groups (x ∷ y ∷ xs) = text_append x.external_group_id (text_append "|" (join_groups (y ∷ xs)))

unfoldable pub join_external_groups : PriceList → String
unfolding join_groups
join_external_groups pl = join_groups pl.prices

unfoldable pub parsed_items : PriceList → List ℕ
parsed_items pl = map (λ x. x.item_id) pl.prices

unfoldable pub update_result : ℕ × Option ℕ → PriceList → PriceList
update_result res pl = record pl { result = pl.result ++ res ∷ [] }

unfoldable pub update_unlinked : List ℕ → PriceList → PriceList
update_unlinked ids pl = record pl { unlinked = ids }

-- The values by default, as a domain.
abbrev pub is_default : PriceList → ItemExternal → Bool
is_default pl r =
    same_id r.variant_id (var_id pl)
    && same_id r.template_id (tmpl_id pl)
    && (r.integration_id == pl.int_id)

unfoldable pub drop_unlinked : PriceList → List ItemExternal → List ItemExternal
drop_unlinked pl db =
    filter (λ r. not ((r.integration_id == pl.int_id) && elem r.external_item_id pl.unlinked)) db

unfoldable pub drop_legacy : PriceList → ℕ → List ItemExternal → List ItemExternal
drop_legacy pl item_id db = filter (λ r. not (is_default pl r && (r.item_id == item_id))) db

abbrev pub item_vals : PriceList → ℕ → ℕ → ItemExternal
item_vals pl item_id ext_item_id = record {
  item_id = item_id;
  external_item_id = ext_item_id;
  variant_id = var_id pl;
  template_id = tmpl_id pl;
  integration_id = pl.int_id;
}

-- The loop of `_save_result_db`, with `vals_list`, which is created at its end.
unfoldable pub save_items :
    PriceList → List (ℕ × Option ℕ) → List ItemExternal → List ItemExternal → List ItemExternal
unfolding drop_legacy
save_items pl [] vals_list db = db ++ vals_list
save_items pl ((item_id, none) ∷ rest) vals_list db = save_items pl rest vals_list db
save_items pl ((item_id, some ext_item_id) ∷ rest) vals_list db =
    save_items pl rest (vals_list ++ item_vals pl item_id ext_item_id ∷ [])
      (drop_legacy pl item_id db)

unfoldable pub save_result_db : PriceList → List ItemExternal → List ItemExternal
unfolding drop_unlinked save_items
save_result_db pl db = save_items pl pl.result [] (drop_unlinked pl db)

-- The result gives this item an external one.
abbrev pub is_saved : ℕ → List (ℕ × Option ℕ) → Bool
is_saved item_id = any (λ e. elim e.1 [ none ↦ false | some x ↦ item_id == e.0 ])

abbrev pub saved_vals : PriceList → List (ℕ × Option ℕ) → List ItemExternal
saved_vals pl [] = []
saved_vals pl ((item_id, none) ∷ rest) = saved_vals pl rest
saved_vals pl ((item_id, some x) ∷ rest) = item_vals pl item_id x ∷ saved_vals pl rest

filter-filter :
    (p q r : ItemExternal → Bool) (xs : List ItemExternal)
    → ((x : ItemExternal) → (p x && q x) ≡ r x)
    → filter q (filter p xs) ≡ filter r xs
filter-filter p q r [] h = refl
filter-filter p q r (x ∷ xs) h = ground (arith, h x, filter-filter p q r xs h)

save_items_lem :
    (pl : PriceList) (result : List (ℕ × Option ℕ)) (vals db : List ItemExternal)
    → save_items pl result vals db
      ≡ filter (λ r. not (is_default pl r && is_saved r.item_id result)) db
        ++ (vals ++ saved_vals pl result)
unfolding save_items drop_legacy
save_items_lem pl [] vals db =
    sym (ap (λ xs. xs ++ (vals ++ [])) (all_kept db) ∙ ap (λ xs. db ++ xs) (append-nil vals))
  where
    all_kept :
        (xs : List ItemExternal)
        → filter (λ r. not (is_default pl r && is_saved r.item_id [])) xs ≡ xs
    all_kept [] = refl
    all_kept (x ∷ xs) = ground (arith, all_kept xs)
save_items_lem pl ((item_id, none) ∷ rest) vals db = save_items_lem pl rest vals db
save_items_lem pl ((item_id, some x) ∷ rest) vals db =
    save_items_lem pl rest (vals ++ item_vals pl item_id x ∷ []) (drop_legacy pl item_id db)
    ∙ ap (λ xs. xs ++ ((vals ++ item_vals pl item_id x ∷ []) ++ saved_vals pl rest)) both
    ∙ ap (λ ys. filter keep db ++ ys)
        (append_assoc vals (item_vals pl item_id x ∷ []) (saved_vals pl rest))
  where
    keep : ItemExternal → Bool
    keep r = not (is_default pl r && is_saved r.item_id ((item_id, some x) ∷ rest))

    both :
        filter (λ r. not (is_default pl r && is_saved r.item_id rest)) (drop_legacy pl item_id db)
        ≡ filter keep db
    both =
        filter-filter (λ r. not (is_default pl r && (r.item_id == item_id))) _ keep db
          (λ r. ground arith)

-- After a dump the records are those from before, less the ones that the export unlinked from this
-- store and the ones of this product, of its kind and store, whose item got an external one; then
-- the new records, one for each item that got one, in the order of the export. No record of another
-- product, kind, store or item is lost otherwise.
pub save_result_db_lem :
    (pl : PriceList) (db : List ItemExternal)
    → save_result_db pl db
      ≡ filter
          (λ r.
            not ((r.integration_id == pl.int_id) && elem r.external_item_id pl.unlinked)
            && not (is_default pl r && is_saved r.item_id pl.result))
          db
        ++ saved_vals pl pl.result
unfolding save_result_db drop_unlinked
save_result_db_lem pl db =
    save_items_lem pl pl.result [] (drop_unlinked pl db)
    ∙ ap (λ xs. xs ++ saved_vals pl pl.result) (filter-filter _ _ _ db (λ x. refl))
