-- ===== src/External/Tests.antt =====
-- The external records at concrete orders.
use jean_fourche.Base.{
  map, ◌==◌, if◌then◌else◌, ℕ, ◌+◌, String, Bool, true, false, ◌≡◌, refl, none, some, List, [], ◌∷◌,
  ltb, All, Pairwise, arith,
}
use jean_fourche.Base.Result.{Result, ok, err, Holds}
use jean_fourche.External.Resource.{Status, mark_done}
use jean_fourche.External.Payment.{
  Transaction, Kind, Error, user_error, Odoo, Order, validate, get_amount,
}
use jean_fourche.External.Apply.{shopify, Integration, apply_external_payments}
use jean_fourche.External.Settled.{Settled, validate_lem, get_amount-residual}
use jean_fourche.External.Paid.{Applied, apply_external_payments_lem}
use jean_fourche.External.Delivery.{
  MoveLine, Move, Picking, PickingState, FulfillmentFields, Stock, fill_lines, qty_get,
  prepare_external_fulfillment, set_tracking, skip_rest, fill_fulfillment_lines,
  fill_fulfillment_line, fill_moves, fill_move, get_moves_by_external_line, check_for_fulfill,
  check_qty_availability,
}
use jean_fourche.External.Quantities.{
  IsSkipped, IsFilled, fill_lines_enough, fill_lines_repeats, total,
  prepare_external_fulfillment-IsSkipped,
}
use jean_fourche.External.Fulfill.{
  get_pickings, set_info, mark_integration_sent, Fulfillment, Shipping, validate_fulfillment,
}

-- Amounts in cents; every amount is read as 100.
abbrev odoo : List ℕ → Odoo ℕ
odoo made = record {
  float = λ s. some 100;
  less = ltb;
  find_currency = λ s. some 1;
  convert = λ a b d x. x;
  today = 5;
  gateway_journal = λ g. ok 3;
  pipeline_journal = ok 4;
  is_overpaid = λ w. ltb 80 w.amount;
  create_payments =
      λ w. elim w.writeoff_account_id [ none ↦ err (user_error "account") | some a ↦ ok (7 ∷ []) ];
  make_advance_payment = λ a. ok (8 ∷ []);
}

abbrev order : List ℕ → Order ℕ
order made = record {
  currency_id = 1;
  amount_residual = 500;
  unpaid_invoices = 2 ∷ [];
  create_advance_payments = false;
  integration_writeoff_account_id = some 9;
}

abbrev transaction : ℕ → Kind → Status → Transaction
transaction n kind status = record {
  id = n;
  name = "T";
  internal_status = status;
  external_str_id = "gid";
  external_order_str_id = none;
  external_status = "success";
  internal_info = none;
  erp_order_id = some 1;
  own = record {
    transaction = "tx";
    kind = kind;
    amount = "1.00";
    currency = "EUR";
    gateway = "";
    external_parent_str_id = "";
    payment_ids = [];
    external_process_date = none;
  };
}

abbrev paid : Transaction
paid = transaction 1 Kind.sale Status.draft

abbrev store : Integration
store = record {
  type_api = shopify;
  apply_external_fulfillments = true;
  apply_external_payments = true;
}

validate_lem_example : Holds (Settled paid) (validate (odoo []) true false (order []) paid)
validate_lem_example = validate_lem (odoo []) true false (order []) paid

apply_external_payments_example :
    Holds
      (λ r. Pairwise (Applied true) (paid ∷ transaction 2 Kind.authorization Status.draft ∷ []) r.0)
      (apply_external_payments odoo order
        (some store)
        false
        []
        (paid ∷ transaction 2 Kind.authorization Status.draft ∷ []))
apply_external_payments_example =
    apply_external_payments_lem odoo order store false []
      (paid ∷ transaction 2 Kind.authorization Status.draft ∷ []) refl

get_amount-residual_example :
    Holds (λ amount. ltb amount 500 ≡ false) (get_amount (odoo []) true (order []) paid)
get_amount-residual_example = get_amount-residual ℕ (odoo []) (order []) paid refl

abbrev stock : Stock
stock = record {
  quantity_product_uom = λ l. l.quantity;
  move_quantity = λ ls. total (λ l. l.quantity) ls;
  explode = λ p q. none;
  carrier_by_external_name = λ s. none;
}

abbrev move_line : ℕ → ℕ → MoveLine
move_line n q = record { id = n; quantity = q }

abbrev move : ℕ → String → List MoveLine → Move
move n ext ls = record {
  id = n;
  product_id = n;
  sale_line_id = record { id = n; product_id = n; qty_to_deliver = 5 };
  integration_external_id = ext;
  is_open = true;
  product_qty = 10;
  move_line_ids = ls;
}

abbrev picking : Picking
picking = record {
  id = 1;
  state = PickingState.assigned;
  warehouse_id = 1;
  move_ids = move 1 "a" (move_line 1 5 ∷ []) ∷ move 2 "b" (move_line 2 4 ∷ []) ∷ [];
  carrier_tracking_ref = "";
  carrier_id = none;
  tracking_exported = false;
}

abbrev fulfillment_fields : FulfillmentFields
fulfillment_fields = record {
  external_location_id = "L";
  tracking_company = "";
  tracking_number = "T1";
  line_ids =
      record {
        external_str_id = "a";
        code = "A";
        external_reference = "A";
        quantity = 3;
        fulfillable_quantity = 0;
      }
      ∷ [];
  do_cancel_external = false;
}

abbrev fulfillment : Fulfillment
fulfillment = record {
  id = 1;
  name = "F";
  internal_status = Status.draft;
  external_str_id = "f";
  external_order_str_id = none;
  external_status = "success";
  internal_info = none;
  erp_order_id = some 1;
  own = fulfillment_fields;
}

abbrev shipping : Shipping
shipping = record { is_available_multi_stock_for_so = false; wh_from_external_location = λ s. none }

abbrev button : ℕ → List Picking → Result Error (Bool × List Picking)
button id ps =
    ok (true, map (λ p. if p.id == id then record p { state = PickingState.done } else p) ps)

-- Lines of 1 and 2 units, 3 to hand out.
fill_lines_enough_example :
    Pairwise
      (IsFilled stock)
      (move_line 1 1 ∷ move_line 2 2 ∷ [])
      (fill_lines stock 1 3 ((1, 3) ∷ []) (move_line 1 1 ∷ move_line 2 2 ∷ [])).0
    × (qty_get 1 (fill_lines stock 1 3 ((1, 3) ∷ []) (move_line 1 1 ∷ move_line 2 2 ∷ [])).1 + 3
        ≡ 3)
fill_lines_enough_example =
    fill_lines_enough stock 1 3 ((1, 3) ∷ []) (move_line 1 1 ∷ move_line 2 2 ∷ []) refl
      (omega arith)

-- Two lines of 5 units and 3 to hand out: the move gets 6.
fill_lines_repeats_example :
    (total
        (λ l. l.quantity)
        (fill_lines stock 1 3 ((1, 3) ∷ []) (move_line 1 5 ∷ move_line 2 5 ∷ [])).0
      ≡ 6)
    × (qty_get 1 (fill_lines stock 1 3 ((1, 3) ∷ []) (move_line 1 5 ∷ move_line 2 5 ∷ [])).1 ≡ 3)
fill_lines_repeats_example =
    fill_lines_repeats stock 1 2 ((1, 3) ∷ []) (move_line 1 5 ∷ move_line 2 5 ∷ []) refl
      (omega arith, (omega arith, tt))

prepare_external_fulfillment-IsSkipped_example :
    All
      (IsSkipped stock fulfillment_fields.line_ids)
      (prepare_external_fulfillment stock fulfillment_fields picking).move_ids
prepare_external_fulfillment-IsSkipped_example =
    prepare_external_fulfillment-IsSkipped stock fulfillment_fields picking

-- The matched delivery is done and marked, and the fulfillment is done.
delivered :
    Holds
      (λ d. (map (λ p. p.tracking_exported) d.pickings ≡ true ∷ []) × (d.ids ≡ 1 ∷ []))
      (validate_fulfillment stock button shipping fulfillment (picking ∷ []))
unfolding validate_fulfillment prepare_external_fulfillment get_pickings set_info set_tracking
    skip_rest fill_fulfillment_lines fill_fulfillment_line fill_moves fill_move fill_lines
    get_moves_by_external_line check_for_fulfill check_qty_availability mark_integration_sent
    mark_done
delivered = (refl, refl)
