-- ===== src/Methods/Tests.antt =====
-- An order with shipments, in an Odoo that does what it is asked.
use jean_fourche.Base.{
  ℕ, Bool, true, false, ◌≡◌, refl, Option, none, some, List, [], ◌∷◌, map, if◌then◌else◌,
}
use jean_fourche.Base.Result.{Result, ok, err, Holds}
use jean_fourche.Workflow.Steps.{Step}
use jean_fourche.Methods.Data.{
  SaleState, InvoiceState, PaymentState, PickingState, Invoice, Picking, SaleOrder, Answer,
  validated, Odoo, Error,
}
use jean_fourche.Methods.Picking.{
  filter_pickings_to_handle, fill_picking, check_waiting, validate_each, auto_validate_picking,
  is_ready,
}
use jean_fourche.Methods.Order.{integration_validate_picking, run_method}
use jean_fourche.Methods.Goals.{Goal, run_method-Goal}

-- The first shipment that is ready is done.
abbrev finish_first : List Picking → List Picking
finish_first [] = []
finish_first (p ∷ ps) =
    if is_ready p.state then record p { state = PickingState.done } ∷ ps else p ∷ finish_first ps

abbrev obliging : Odoo
obliging = record {
  action_confirm = λ o. ok (record o { state = SaleState.sale });
  button_validate = λ id o. (validated, record o { picking_ids = finish_first o.picking_ids });
  create_invoices = λ o. ok (record o { order_is_invoiced = true });
  action_post = λ ids o. ok (record o {
    invoice_ids = map (λ (i : Invoice). record i { state = InvoiceState.posted }) o.invoice_ids;
  });
  opens_send_wizard = λ i. true;
  send_and_print = λ id o. (false, o);
  get_payment_journal_or_raise = ok 1;
  create_payments = λ journal id o. ok (record o {
    invoice_ids =
        map (λ (i : Invoice). record i { payment_state = PaymentState.paid }) o.invoice_ids;
  });
}

abbrev picking : ℕ → PickingState → Picking
picking id state = record { id = id; state = state; move_ids = [] }

abbrev order : SaleOrder
order = record {
  state = SaleState.draft;
  order_is_invoiced = false;
  invoice_ids =
      record {
        id = 1;
        name = "INV1";
        state = InvoiceState.posted;
        payment_state = PaymentState.not_paid;
        has_email = true;
        is_move_sent = false;
      }
      ∷ [];
  picking_ids = picking 1 PickingState.assigned ∷ picking 2 PickingState.assigned ∷ [];
  external_payment_ids = [];
}

run_method-Goal_example :
    Holds
      (λ a. a.0 ≡ true → Goal obliging Step.register_payment order a.2)
      (run_method obliging 4 false Step.register_payment order)
run_method-Goal_example = run_method-Goal obliging 4 false Step.register_payment order

abbrev result : Result Error Answer → Option Bool
result (ok a) = some a.0
result (err e) = none

-- A shipment that waits for another operation fails the task if one other is validated, but not if
-- there are two: the second call looks at the shipments that are ready only.
one_waiting :
    result (
      integration_validate_picking obliging 9 (record order {
        picking_ids = picking 1 PickingState.assigned ∷ picking 3 PickingState.waiting ∷ [];
      }))
    ≡ some false
unfolding integration_validate_picking auto_validate_picking validate_each check_waiting
    fill_picking filter_pickings_to_handle
one_waiting = refl

two_and_waiting :
    result (
      integration_validate_picking obliging 9 (record order {
        picking_ids =
            picking 1 PickingState.assigned
            ∷ picking 2 PickingState.assigned
            ∷ picking 3 PickingState.waiting
            ∷ [];
      }))
    ≡ some true
unfolding integration_validate_picking auto_validate_picking validate_each check_waiting
    fill_picking filter_pickings_to_handle
two_and_waiting = refl
