-- ===== src/External/Fulfill.antt =====
-- The fulfillments of the store: external.order.fulfillment,
-- integration/models/external/external_order_fulfillment.py. Odoo's button that validates a
-- delivery is a parameter, which may change every delivery of the order and make further ones.
use jean_fourche.Base.{
  ℕ, String, Bool, true, false, Option, none, some, List, [], ◌∷◌, map, filter, find?, ◌==◌,
  if◌then◌else◌,
}
use jean_fourche.Base.Result.{Result, ok, err}
use jean_fourche.External.Resource.{
  Resource, is_done, is_success, mark_done, mark_skipped, mark_failed,
}
use jean_fourche.External.Payment.{Error, user_error, validation_error, api_import_error, failure}
use jean_fourche.External.Delivery.{
  Stock, Picking, FulfillmentFields, filter_pickings_to_handle, check_for_fulfill,
  prepare_external_fulfillment,
}

abbrev pub Fulfillment : Type 0
Fulfillment = Resource FulfillmentFields

-- The deliveries of the order, and the settings of its store.
pub record Shipping : Type 0 where
  pub is_available_multi_stock_for_so : Bool
  pub wh_from_external_location : String → Option ℕ

unfoldable pub set_info : Option String → Fulfillment → Fulfillment
set_info info f = record f { internal_info = info }

unfoldable pub mark_integration_sent : Picking → Picking
mark_integration_sent p = record p { tracking_exported = true }

unfoldable pub get_pickings : Shipping → Fulfillment → List Picking → List Picking
get_pickings shipping f ps =
    let to_handle = filter_pickings_to_handle ps in
    if shipping.is_available_multi_stock_for_so
    then elim (shipping.wh_from_external_location f.own.external_location_id) [
      | none ↦ to_handle
      | some warehouse ↦ filter (λ p. p.warehouse_id == warehouse) to_handle
    ]
    else to_handle

-- The write of a delivery to the database.
abbrev pub put_picking : Picking → List Picking → List Picking
put_picking q = map (λ p. if p.id == q.id then q else p)

-- The record and the deliveries as they are written, whether it succeeded, and the ids.
pub record Delivered : Type 0 where
  pub fulfillment : Fulfillment
  pub pickings : List Picking
  pub result : Bool
  pub ids : List ℕ

abbrev pub delivery_failed : Fulfillment → List Picking → Result Error Delivered
delivery_failed f ps = ok (record {
  fulfillment = mark_failed (set_info (some "Delivery validation failed") f);
  pickings = ps;
  result = false;
  ids = [];
})

-- The deliveries, as the button leaves them, with the one that was matched marked.
abbrev pub sent_picking : ℕ → List Picking → List Picking
unfolding mark_integration_sent
sent_picking id = map (λ p. if p.id == id then mark_integration_sent p else p)

-- What the handler keeps of an error: what was written to the delivery before stays written.
abbrev pub after_button :
    Fulfillment
    → Picking
    → List Picking
    → Result Error (Bool × List Picking)
    → Result Error Delivered
after_button f p ps (ok (result, qs)) = ok (record {
  fulfillment = mark_done f;
  pickings = sent_picking p.id qs;
  result = result;
  ids = p.id ∷ [];
})
after_button f p ps (err (user_error _)) = delivery_failed f ps
after_button f p ps (err (validation_error _)) = delivery_failed f ps
after_button f p ps (err api_import_error) = err api_import_error
after_button f p ps (err failure) = err failure

module _ (stock : Stock)
    (button_validate : ℕ → List Picking → Result Error (Bool × List Picking)) where
  abbrev pub deliver : Fulfillment → Picking → List Picking → Result Error Delivered
  deliver f p ps =
      let filled = prepare_external_fulfillment stock f.own p in
      let written = put_picking filled ps in
      after_button f filled written (button_validate filled.id written)

  abbrev pub deliver_matched : Fulfillment → List Picking → Option Picking → Result Error Delivered
  deliver_matched f ps none = ok (record {
    fulfillment = set_info (some "No matching delivery found for the fulfilled items") f;
    pickings = ps;
    result = false;
    ids = [];
  })
  deliver_matched f ps (some q) = deliver f q ps

  abbrev pub handle_pickings : Fulfillment → List Picking → List Picking → Result Error Delivered
  handle_pickings f [] ps = ok (record {
    fulfillment = mark_done (set_info (some "No pending deliveries found for this order") f);
    pickings = ps;
    result = true;
    ids = [];
  })
  handle_pickings f (p ∷ rest) ps =
      deliver_matched f ps (find? (check_for_fulfill stock f.own.line_ids) (p ∷ rest))

  unfoldable pub validate_fulfillment :
      Shipping → Fulfillment → List Picking → Result Error Delivered
  unfolding set_info mark_skipped
  validate_fulfillment shipping f ps =
      let f = set_info none f in
      if is_done f
      then ok (record { fulfillment = f; pickings = ps; result = true; ids = [] })
      else if is_success f
      then handle_pickings f (get_pickings shipping f ps) ps
      else ok (record {
        fulfillment =
            mark_skipped
              (set_info (some "Fulfillment skipped - external status does not allow processing") f);
        pickings = ps;
        result = false;
        ids = [];
      })

-- `cancel_fulfillment` is the adapter's call of the store.
unfoldable pub cancel_in_ecommerce_system :
    (String → Result Error Bool) → Fulfillment → Result Error (Fulfillment × Bool)
cancel_in_ecommerce_system cancel_fulfillment f = elim (cancel_fulfillment f.external_str_id) [
  | ok result ↦ ok ((if result then record f { external_status = "cancelled" } else f), result)
  | err e ↦ err e
]
