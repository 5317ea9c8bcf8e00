-- ===== src/External/Delivery.antt =====
-- The quantities of a delivery that a fulfillment of the store sets,
-- integration/models/stock_picking.py. Quantities are whole numbers. Odoo's units of measure, its
-- bills of materials, the quantity of a move and the button are parameters.
use text.Mathlib.Text.{◌==◌ as str_eq}
use jean_fourche.Base.{
  ℕ, zero, suc, ◌-◌, String, Bool, true, false, ◌&&◌, Option, none, some, List, [], ◌∷◌, map, any,
  all, filter, ◌==◌, leb, if◌then◌else◌,
}

pub record MoveLine : Type 0 where
  pub id : ℕ
  pub quantity : ℕ

pub record SaleLine : Type 0 where
  pub id : ℕ
  pub product_id : ℕ
  pub qty_to_deliver : ℕ

-- `is_open`: the state is neither done nor cancel.
pub record Move : Type 0 where
  pub id : ℕ
  pub product_id : ℕ
  pub sale_line_id : SaleLine
  pub integration_external_id : String
  pub is_open : Bool
  pub product_qty : ℕ
  pub move_line_ids : List MoveLine

pub data PickingState : Type 0 where
  draft waiting confirmed assigned done cancel : PickingState

pub record Picking : Type 0 where
  pub id : ℕ
  pub state : PickingState
  pub warehouse_id : ℕ
  pub move_ids : List Move
  pub carrier_tracking_ref : String
  pub carrier_id : Option ℕ
  pub tracking_exported : Bool

-- external.order.fulfillment.line
pub record FulfillmentLine : Type 0 where
  pub external_str_id : String
  pub code : String
  pub external_reference : String
  pub quantity : ℕ
  pub fulfillable_quantity : ℕ

-- external.order.fulfillment
pub record FulfillmentFields : Type 0 where
  pub external_location_id : String
  pub tracking_company : String
  pub tracking_number : String
  pub line_ids : List FulfillmentLine
  pub do_cancel_external : Bool

-- What Odoo answers: the quantity of a move line in the product's unit; the quantity of a move;
-- the products of a kit for so many of it; the carrier of a name.
pub record Stock : Type 0 where
  pub quantity_product_uom : MoveLine → ℕ
  pub move_quantity : List MoveLine → ℕ
  pub explode : ℕ → ℕ → Option (List (ℕ × ℕ))
  pub carrier_by_external_name : String → Option ℕ

abbrev pub is_to_handle : PickingState → Bool
is_to_handle PickingState.confirmed = true
is_to_handle PickingState.assigned = true
is_to_handle _ = false

abbrev pub filter_pickings_to_handle : List Picking → List Picking
filter_pickings_to_handle = filter (λ p. is_to_handle p.state)

-- A dict of quantities: `d.get(p, 0)`, and `d[p] = q`.
abbrev pub qty_get : ℕ → List (ℕ × ℕ) → ℕ
qty_get p [] = 0
qty_get p ((k, q) ∷ d) = if k == p then q else qty_get p d

abbrev pub qty_put : ℕ → ℕ → List (ℕ × ℕ) → List (ℕ × ℕ)
qty_put p q [] = (p, q) ∷ []
qty_put p q ((k, v) ∷ d) = if k == p then (k, q) ∷ d else (k, v) ∷ qty_put p q d

abbrev pub qty_dict_of : List (ℕ × ℕ) → List (ℕ × ℕ) → List (ℕ × ℕ)
qty_dict_of [] d = d
qty_dict_of ((p, q) ∷ rest) d = qty_dict_of rest (qty_put p q d)

-- What the loop over the move lines does with one: what it sets, what is left to hand out.
abbrev pub value_of : ℕ → ℕ → ℕ
value_of demand fulfill = if leb demand fulfill then demand else fulfill

abbrev pub left_of : ℕ → ℕ → ℕ
left_of demand fulfill = if leb demand fulfill then fulfill - demand else fulfill

abbrev pub zeroed : MoveLine → MoveLine
zeroed l = record l { quantity = 0 }

module _ (stock : Stock) where
  abbrev pub has_enough_qty : Move → Bool
  has_enough_qty m = leb (stock.move_quantity m.move_line_ids) m.product_qty

  abbrev pub is_of_line : String → Move → Bool
  is_of_line line_id m = m.is_open && str_eq m.integration_external_id line_id && has_enough_qty m

  unfoldable pub get_moves_by_external_line : String → List Move → List Move
  get_moves_by_external_line line_id ms = filter (is_of_line line_id) ms

  unfoldable pub check_qty_availability : String → ℕ → List Move → Bool
  unfolding get_moves_by_external_line
  check_qty_availability line_id qty ms =
      any (λ m. leb qty m.sale_line_id.qty_to_deliver) (get_moves_by_external_line line_id ms)

  unfoldable pub check_for_fulfill : List FulfillmentLine → Picking → Bool
  unfolding check_qty_availability
  check_for_fulfill lines p =
      all (λ l. check_qty_availability l.external_str_id l.quantity p.move_ids) lines

  -- The loop over the move lines of a move, with the quantity to hand out and `qty_dict`.
  unfoldable pub fill_lines : ℕ → ℕ → List (ℕ × ℕ) → List MoveLine → List MoveLine × List (ℕ × ℕ)
  fill_lines p fulfill d [] = ([], d)
  fill_lines p zero d (l ∷ ls) = let (ls', d') = fill_lines p zero d ls in (l ∷ ls', d')
  fill_lines p (suc n) d (l ∷ ls) =
      let demand = stock.quantity_product_uom l in
      let left = left_of demand (suc n) in
      let (ls', d') = fill_lines p left (qty_put p left d) ls in
      (record l { quantity = value_of demand (suc n) } ∷ ls', d')

  unfoldable pub fill_move : Move → List (ℕ × ℕ) → Move × List (ℕ × ℕ)
  unfolding fill_lines
  fill_move m d =
      let (ls, d') = fill_lines m.product_id (qty_get m.product_id d) d m.move_line_ids in
      (record m { move_line_ids = ls }, d')

  -- The loop over the moves of a fulfillment line; the other moves of the delivery stay.
  unfoldable pub fill_moves : String → List (ℕ × ℕ) → List Move → List Move
  unfolding fill_move
  fill_moves line_id d [] = []
  fill_moves line_id d (m ∷ ms) =
      let filled = fill_move m d in
      let of_line = is_of_line line_id m in
      (if of_line then filled.0 else m) ∷ fill_moves line_id (if of_line then filled.1 else d) ms

  abbrev pub line_qty_dict : ℕ → ℕ → List (ℕ × ℕ)
  line_qty_dict product quantity = elim (stock.explode product quantity) [
    | none ↦ (product, quantity) ∷ []
    | some parts ↦ qty_dict_of parts []
  ]

  -- Without a move there is nothing to hand out.
  unfoldable pub fill_fulfillment_line : FulfillmentLine → List Move → List Move
  unfolding get_moves_by_external_line fill_moves
  fill_fulfillment_line l ms = elim (get_moves_by_external_line l.external_str_id ms) [
    | [] ↦ ms
    | m ∷ rest ↦
        fill_moves l.external_str_id (line_qty_dict m.sale_line_id.product_id l.quantity) ms
  ]

  unfoldable pub fill_fulfillment_lines : List FulfillmentLine → List Move → List Move
  unfolding fill_fulfillment_line
  fill_fulfillment_lines [] ms = ms
  fill_fulfillment_lines (l ∷ ls) ms = fill_fulfillment_lines ls (fill_fulfillment_line l ms)

  -- Step 2: what no line of the fulfillment is about is not delivered.
  unfoldable pub skip_rest : List FulfillmentLine → List Move → List Move
  skip_rest lines ms =
      map
        (λ m.
          if any (λ l. is_of_line l.external_str_id m) lines
          then m
          else record m { move_line_ids = map zeroed m.move_line_ids })
        ms

  unfoldable pub set_tracking : FulfillmentFields → Picking → Picking
  set_tracking f p = record p {
    carrier_tracking_ref =
        (if str_eq f.tracking_number "" then p.carrier_tracking_ref else f.tracking_number);
    carrier_id =
        (if str_eq f.tracking_company ""
          then p.carrier_id
          else stock.carrier_by_external_name f.tracking_company);
  }

  -- The delivery as it is when its button is called.
  unfoldable pub prepare_external_fulfillment : FulfillmentFields → Picking → Picking
  unfolding skip_rest fill_fulfillment_lines set_tracking
  prepare_external_fulfillment f p =
      set_tracking f (record p {
        move_ids = fill_fulfillment_lines f.line_ids (skip_rest f.line_ids p.move_ids);
      })
