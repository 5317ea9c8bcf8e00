-- ===== src/Shopify/Tests.antt =====
-- An order of two lines, of which the second has three units left.
use jean_fourche.Base.{ℕ, refl, [], ◌∷◌}
use jean_fourche.Shopify.Orders.{
  Status, FulfillmentOrder, LineItem, LineData, Sendable, prepare_fulfillment_single_line_data,
  prepare_fulfillment_single_line_data-Sendable,
}

abbrev line_item : ℕ → ℕ → ℕ → LineItem
line_item id sale rest = record {
  gid = id;
  sale_line_item_id = sale;
  total_quantity = 5;
  remaining_quantity = rest;
}

abbrev order : FulfillmentOrder
order = record {
  gid = 1;
  status = Status.open_;
  line_items = line_item 11 1 0 ∷ line_item 12 2 3 ∷ [];
}

abbrev sent : LineData
sent = record { id = 12; quantity = 3 }

prepare_fulfillment_single_line_data-Sendable_example : Sendable 2 4 order sent
unfolding prepare_fulfillment_single_line_data
prepare_fulfillment_single_line_data-Sendable_example =
    prepare_fulfillment_single_line_data-Sendable 2 4 order sent refl
