-- ===== src/Methods/Picking.antt =====
-- The shipments of an order, validated one after the other: `_auto_validate_picking` of
-- integration/models/stock_picking.py. A shipment is told by its id, and read from the order.
use jean_fourche.Base.{
  ℕ, zero, suc, Bool, true, false, not, ◌&&◌, Option, none, some, List, [], ◌∷◌, map, filter, any,
  elem, ltb, ◌==◌, if◌then◌else◌,
}
use jean_fourche.Methods.Data.{
  PickingState, MoveLine, Move, Picking, SaleOrder, Answer, Validation, validated, manual, refused,
  Odoo,
}

abbrev pub is_closed : PickingState → Bool
is_closed PickingState.done = true
is_closed PickingState.cancel = true
is_closed _ = false

abbrev pub is_ready : PickingState → Bool
is_ready PickingState.confirmed = true
is_ready PickingState.assigned = true
is_ready _ = false

abbrev pub is_waiting : PickingState → Bool
is_waiting PickingState.waiting = true
is_waiting _ = false

-- `_filter_pickings_to_handle` of a recordset, and of all shipments of the order.
unfoldable pub filter_pickings_to_handle : List Picking → List Picking
filter_pickings_to_handle ps = filter (λ p. is_ready p.state) ps

abbrev pub ids_of : List Picking → List ℕ
ids_of ps = map (λ p. p.id) ps

abbrev pub browse : List ℕ → SaleOrder → List Picking
browse ids o = filter (λ p. elem p.id ids) o.picking_ids

abbrev pub fill_line : MoveLine → MoveLine
fill_line l = record l { quantity = l.quantity_product_uom }

-- `_move_qty_lack`
abbrev pub fill_move : Move → Move
fill_move m =
    if not (is_closed m.state) && ltb m.quantity m.product_qty
    then record m { move_line_ids = map fill_line m.move_line_ids }
    else m

unfoldable pub fill_picking : ℕ → SaleOrder → SaleOrder
fill_picking id o = record o {
  picking_ids =
      map (λ p. if p.id == id then record p { move_ids = map fill_move p.move_ids } else p)
        o.picking_ids;
}

module _ (odoo : Odoo) where
  -- After the loop, on the recordset of the call.
  unfoldable pub check_waiting : List ℕ → SaleOrder → Answer
  check_waiting self o =
      if any (λ p. is_waiting p.state) (browse self o)
      then (false, "not ready to be validated", o)
      else (true, "validated pickings successfully", o)

  -- The rest of the loop, and the call on what is then to be handled, each within the fuel.
  abbrev pub after_validate :
      (List ℕ → SaleOrder → Option Answer)
      → (List ℕ → SaleOrder → Option Answer)
      → List ℕ
      → Validation × SaleOrder
      → Option Answer
  unfolding filter_pickings_to_handle
  after_validate again go_on ids (manual, o) = some (false, "requires manual validation", o)
  after_validate again go_on ids (refused message, o) = some (false, message, o)
  after_validate again go_on ids (validated, o) =
      elim (ids_of (filter_pickings_to_handle o.picking_ids)) [
        | [] ↦ go_on ids o
        | id ∷ rest ↦ again (id ∷ rest) o
      ]

  -- The loop over the shipments of a call on `self`. The fuel is the number of shipments that may be
  -- validated.
  unfoldable pub validate_each : ℕ → List ℕ → List ℕ → SaleOrder → Option Answer
  unfolding check_waiting fill_picking
  validate_each n self [] o = some (check_waiting self o)
  validate_each zero self (id ∷ ids) o = none
  validate_each (suc n) self (id ∷ ids) o =
      after_validate (λ hs o'. validate_each n hs hs o') (λ rest o'. validate_each n self rest o')
        ids (odoo.button_validate id (fill_picking id o))

  unfoldable pub auto_validate_picking : ℕ → List ℕ → SaleOrder → Option Answer
  unfolding validate_each filter_pickings_to_handle
  auto_validate_picking n self o =
      validate_each n self (ids_of (filter_pickings_to_handle (browse self o))) o
