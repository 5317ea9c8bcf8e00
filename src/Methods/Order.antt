-- ===== src/Methods/Order.antt =====
-- The six methods of the workflow's tasks, integration/models/sale_order.py. A method returns its result,
-- its message and the order; a raise of Odoo goes through it, except where an invoice is sent.
use Prim.Native.String.{◌++◌ as text_append}
use jean_fourche.Base.{
  ℕ, String, Bool, true, false, not, ◌&&◌, Option, none, some, List, [], ◌∷◌, ◌++◌, map, filter,
  find?, ◌==◌, if◌then◌else◌,
}
use jean_fourche.Base.Result.{Result, ok, err, ◌>>=◌}
use jean_fourche.External.Apply.{close_payments}
use jean_fourche.Workflow.Steps.{Step}
use jean_fourche.Methods.Data.{
  Invoice, SaleOrder, Error, user_error, Answer, Odoo, order_is_confirmed, order_is_cancelled,
  is_draft_invoice, invoice_is_posted, invoice_is_paid, invoice_to_pay, actual_invoice_ids,
  order_is_fully_paid, is_order_invoices_posted,
}
use jean_fourche.Methods.Picking.{is_closed, ids_of, auto_validate_picking}

-- By whether the goal is reached after Odoo was called.
abbrev pub answer_if : (SaleOrder → Bool) → String → String → SaleOrder → Result Error Answer
answer_if goal good bad o = ok (goal o, (if goal o then good else bad), o)

module _ (odoo : Odoo) where
  unfoldable pub integration_validate_order : SaleOrder → Result Error Answer
  integration_validate_order o =
      if order_is_cancelled o
      then ok (false, "order was already cancelled.", o)
      else if order_is_confirmed o
      then ok (true, "already confirmed.", o)
      else odoo.action_confirm o
        >>= answer_if order_is_confirmed "confirmed successfully." "order confirmation error."

  abbrev pub or_out_of_fuel : Option Answer → Result Error Answer
  or_out_of_fuel none = err (user_error "out of fuel")
  or_out_of_fuel (some a) = ok a

  -- The fuel is that of the loop over the shipments.
  unfoldable pub integration_validate_picking : ℕ → SaleOrder → Result Error Answer
  unfolding auto_validate_picking
  integration_validate_picking n o = elim (filter (λ p. not (is_closed p.state)) o.picking_ids) [
    | [] ↦ ok (true, "there are no pickings awaiting validation.", o)
    | p ∷ ps ↦ or_out_of_fuel (auto_validate_picking odoo n (ids_of (p ∷ ps)) o)
  ]

  unfoldable pub integration_create_invoice : SaleOrder → Result Error Answer
  integration_create_invoice o =
      if o.order_is_invoiced
      then ok (true, "already invoiced.", o)
      else odoo.create_invoices o
        >>= answer_if (λ o'. o'.order_is_invoiced) "created invoices successfully."
            "invoices creation error."

  abbrev pub invoice_ids_of : List Invoice → List ℕ
  invoice_ids_of is = map (λ i. i.id) is

  unfoldable pub integration_validate_invoice : SaleOrder → Result Error Answer
  unfolding actual_invoice_ids is_order_invoices_posted
  integration_validate_invoice o = elim (filter is_draft_invoice (actual_invoice_ids o)) [
    | [] ↦ ok (true, "there are no invoices awaiting validation.", o)
    | i ∷ is ↦
        odoo.action_post (invoice_ids_of (i ∷ is)) o
        >>= answer_if is_order_invoices_posted "validated invoices successfully."
            "invoices validation failed."
  ]

  abbrev pub find_invoice : ℕ → SaleOrder → Option Invoice
  find_invoice id o = find? (λ i. i.id == id) o.invoice_ids

  abbrev pub is_sent : Option Invoice → Bool
  is_sent none = false
  is_sent (some i) = i.is_move_sent

  -- The errors of an invoice, by whether the wizard raised.
  abbrev pub send_errors : Invoice → Bool × SaleOrder → List String × SaleOrder
  send_errors i (raised, o) = (
    (if raised then text_append "Failed to send invoice " i.name ∷ [] else [])
        ++ (if is_sent (find_invoice i.id o)
            then []
            else text_append "Wizard did not confirm sending for invoice " i.name ∷ []),
    o,
  )

  abbrev pub send_one : Invoice → SaleOrder → List String × SaleOrder
  send_one i o = if odoo.opens_send_wizard i then send_errors i (odoo.send_and_print i.id o) else (
    text_append "Invoice "
          (text_append i.name ": email layout or template is not properly configured.")
        ∷ [],
    o,
  )

  abbrev pub send_all : List Invoice → SaleOrder → List String × SaleOrder
  send_all [] o = ([], o)
  send_all (i ∷ is) o =
      let r : List String × SaleOrder = send_one i o in
      let rest : List String × SaleOrder = send_all is r.1 in (r.0 ++ rest.0, rest.1)

  abbrev pub sent_answer : List String × SaleOrder → Answer
  sent_answer ([], o) = (true, "Invoices sent", o)
  sent_answer (e ∷ es, o) = (false, "Failed to send invoices", o)

  unfoldable pub integration_send_invoice : SaleOrder → Result Error Answer
  integration_send_invoice o =
      elim (filter (λ i. invoice_is_posted i && i.has_email) o.invoice_ids) [
        | [] ↦ ok (false, "no valid invoices to send.", o)
        | i ∷ is ↦ ok (sent_answer (send_all (i ∷ is) o))
      ]

  unfoldable pub integration_register_payment_one : ℕ → SaleOrder → Result Error SaleOrder
  integration_register_payment_one id o = elim (find_invoice id o) [
    | none ↦ ok o
    | some i ↦
        if invoice_is_paid i
        then ok o
        else odoo.get_payment_journal_or_raise >>= λ journal. odoo.create_payments journal id o
  ]

  abbrev pub register_all : List ℕ → SaleOrder → Result Error SaleOrder
  unfolding integration_register_payment_one
  register_all [] o = ok o
  register_all (id ∷ ids) o = integration_register_payment_one id o >>= register_all ids

  abbrev pub after_register : Bool → SaleOrder → Answer
  unfolding close_payments order_is_fully_paid
  after_register from_shopify o =
      if order_is_fully_paid o
      then (
        true,
        "the all successfully registered.",
        record o { external_payment_ids = close_payments from_shopify o.external_payment_ids },
      )
      else (false, "not the all payments were registered.", o)

  unfoldable pub integration_register_payment : Bool → SaleOrder → Result Error Answer
  unfolding actual_invoice_ids
  integration_register_payment from_shopify o =
      elim (filter (λ i. invoice_is_posted i && invoice_to_pay i) (actual_invoice_ids o)) [
        | [] ↦ ok (true, "there are no invoices awaiting payment registration.", o)
        | i ∷ is ↦
            register_all (invoice_ids_of (i ∷ is)) o >>= λ o'. ok (after_register from_shopify o')
      ]

  -- getattr(order, f'_integration_{step}')()
  unfoldable pub run_method : ℕ → Bool → Step → SaleOrder → Result Error Answer
  unfolding integration_validate_order integration_validate_picking integration_create_invoice
      integration_validate_invoice integration_send_invoice integration_register_payment
  run_method n from_shopify Step.validate_order o = integration_validate_order o
  run_method n from_shopify Step.validate_picking o = integration_validate_picking n o
  run_method n from_shopify Step.create_invoice o = integration_create_invoice o
  run_method n from_shopify Step.validate_invoice o = integration_validate_invoice o
  run_method n from_shopify Step.send_invoice o = integration_send_invoice o
  run_method n from_shopify Step.register_payment o = integration_register_payment from_shopify o
