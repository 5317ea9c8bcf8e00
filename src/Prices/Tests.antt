-- ===== src/Prices/Tests.antt =====
-- A product with two prices, of which the store took one.
use jean_fourche.Base.{ℕ, not, ◌&&◌, ◌≡◌, none, some, [], ◌∷◌, ◌++◌, filter, elem, ◌==◌, false}
use jean_fourche.Prices.Items.{
  PriceList, ResModel, ItemExternal, is_default, is_saved, saved_vals, save_result_db,
  save_result_db_lem,
}

abbrev price_list : PriceList
price_list = record {
  int_id = 1;
  res_id = 5;
  res_model = ResModel.product_template;
  ext_id = "gid";
  prices = [];
  force_sync_pricelist = false;
  result = (7, some 70) ∷ (8, none) ∷ [];
  unlinked = 60 ∷ [];
}

abbrev item : ℕ → ℕ → ItemExternal
item i x = record {
  item_id = i;
  external_item_id = x;
  variant_id = none;
  template_id = some 5;
  integration_id = 1;
}

save_result_db_example :
    save_result_db price_list (item 7 69 ∷ item 8 80 ∷ item 9 60 ∷ [])
    ≡ filter
        (λ r.
          not ((r.integration_id == 1) && elem r.external_item_id (60 ∷ []))
          && not (is_default price_list r && is_saved r.item_id price_list.result))
        (item 7 69 ∷ item 8 80 ∷ item 9 60 ∷ [])
      ++ saved_vals price_list price_list.result
save_result_db_example = save_result_db_lem price_list (item 7 69 ∷ item 8 80 ∷ item 9 60 ∷ [])
