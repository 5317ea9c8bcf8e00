-- ===== src/Methods/Goals.antt =====
-- What it means that a method of the workflow succeeded: integration/models/sale_order.py and
-- stock_picking.py.
use mathlib.Core.Path.{subst}
use jean_fourche.Base.{
  any, length, ◌≤◌, ℕ, Bool, true, false, not, ◌&&◌, ◌≡◌, refl, ap, sym, ◌∙◌, Option, none, some,
  List, [], ◌∷◌, filter, all, if◌then◌else◌, arith,
}
use jean_fourche.Base.Result.{ok, ◌>>=◌, Holds, Holds-bind_any, Holds-if, Holds-mono}
use jean_fourche.Workflow.Steps.{Step}
use jean_fourche.External.Apply.{close_payments}
use jean_fourche.Methods.Data.{
  Picking, Invoice, SaleOrder, Error, Answer, Odoo, order_is_confirmed, order_is_cancelled,
  is_draft_invoice, invoice_is_posted, invoice_to_pay, actual_invoice_ids, order_is_fully_paid,
  is_order_invoices_posted,
}
use jean_fourche.Methods.Picking.{
  is_waiting, is_closed, is_ready, filter_pickings_to_handle, ids_of, browse, auto_validate_picking,
}
use jean_fourche.Methods.Handled.{
  NoneWaits, waiting-browse, validate_each-NoneWaits, Succeeds-both, Succeeds, Handled, ids_of-nil,
  validate_each-Handled, Among, Among-open, handled-browse, browse_none,
}
use jean_fourche.Methods.Order.{
  send_all, sent_answer, answer_if, integration_validate_order, integration_validate_picking,
  integration_create_invoice, integration_validate_invoice, integration_send_invoice,
  integration_register_payment, run_method, or_out_of_fuel, register_all, after_register,
  invoice_ids_of, integration_register_payment_one,
}
use jean_fourche.Methods.Answers.{paid-settled, posted-validated, answer_if-goal}
use jean_fourche.Methods.Sent.{send_all-opens, sent_answer-opens}

-- The invoices that are sent.
abbrev pub to_send : SaleOrder → List Invoice
to_send o = filter (λ i. invoice_is_posted i && i.has_email) o.invoice_ids

-- What the success of a step is about, of the order before the step and after it: nothing is left for
-- the step to do. Of shipments that wait it says something only where none was ready at first, and of
-- e-mails that there is one at least and that Odoo's wizard opened for each of them.
unfoldable pub Goal : Odoo → Step → SaleOrder → SaleOrder → Type 0
unfolding filter_pickings_to_handle actual_invoice_ids
Goal odoo Step.validate_order before o = order_is_confirmed o ≡ true
Goal odoo Step.validate_picking before o =
    (filter_pickings_to_handle o.picking_ids ≡ [])
    × (filter_pickings_to_handle before.picking_ids ≡ [] → NoneWaits before)
Goal odoo Step.create_invoice before o = o.order_is_invoiced ≡ true
Goal odoo Step.validate_invoice before o = filter is_draft_invoice (actual_invoice_ids o) ≡ []
Goal odoo Step.send_invoice before o =
    (1 ≤ length (to_send before)) × (all odoo.opens_send_wizard (to_send before) ≡ true)
Goal odoo Step.register_payment before o =
    filter (λ i. invoice_is_posted i && invoice_to_pay i) (actual_invoice_ids o) ≡ []

module _ (odoo : Odoo) (n : ℕ) (from_shopify : Bool) where
  abbrev Reached : Step → SaleOrder → Answer → Type 0
  Reached step before a = a.0 ≡ true → Goal odoo step before a.2

  validate_order-Reached :
      (o : SaleOrder) → Holds (Reached Step.validate_order o) (integration_validate_order odoo o)
  unfolding integration_validate_order Goal
  validate_order-Reached o =
      Holds-if {E = Error} (Reached Step.validate_order o) (order_is_cancelled o)
        (ok (false, "order was already cancelled.", o))
        (if order_is_confirmed o
          then ok (true, "already confirmed.", o)
          else odoo.action_confirm o
            >>= answer_if order_is_confirmed "confirmed successfully." "order confirmation error.")
        (λ _ e. absurd (ground (arith, e)))
        (λ _.
          Holds-if {E = Error} (Reached Step.validate_order o) (order_is_confirmed o)
            (ok (true, "already confirmed.", o))
            (odoo.action_confirm o
              >>= answer_if order_is_confirmed "confirmed successfully."
                  "order confirmation error.")
            (λ t _. t)
            (λ _.
              answer_if-goal order_is_confirmed "confirmed successfully."
                "order confirmation error." (odoo.action_confirm o)))

  create_invoice-Reached :
      (o : SaleOrder) → Holds (Reached Step.create_invoice o) (integration_create_invoice odoo o)
  unfolding integration_create_invoice Goal
  create_invoice-Reached o =
      Holds-if {E = Error} (Reached Step.create_invoice o) o.order_is_invoiced
        (ok (true, "already invoiced.", o))
        (odoo.create_invoices o
          >>= answer_if (λ o'. o'.order_is_invoiced) "created invoices successfully."
              "invoices creation error.")
        (λ t _. t)
        (λ _.
          answer_if-goal (λ o'. o'.order_is_invoiced) "created invoices successfully."
            "invoices creation error." (odoo.create_invoices o))

  validate_invoice-Reached :
      (o : SaleOrder)
      → Holds (Reached Step.validate_invoice o) (integration_validate_invoice odoo o)
  unfolding integration_validate_invoice Goal is_order_invoices_posted
  validate_invoice-Reached o = by_drafts (filter is_draft_invoice (actual_invoice_ids o)) refl
    where
      by_drafts :
          (is : List Invoice)
          → filter is_draft_invoice (actual_invoice_ids o) ≡ is
          → Holds {E = Error} (Reached Step.validate_invoice o) (elim is [
            | [] ↦ ok (true, "there are no invoices awaiting validation.", o)
            | i ∷ is ↦
                odoo.action_post (invoice_ids_of odoo (i ∷ is)) o
                >>= answer_if is_order_invoices_posted "validated invoices successfully."
                    "invoices validation failed."
          ])
      by_drafts [] e = λ _. e
      by_drafts (i ∷ is) e =
          Holds-mono (λ a. a.0 ≡ true → is_order_invoices_posted a.2 ≡ true)
            (Reached Step.validate_invoice o)
            (odoo.action_post (invoice_ids_of odoo (i ∷ is)) o
              >>= answer_if is_order_invoices_posted "validated invoices successfully."
                  "invoices validation failed.")
            (λ a h t. posted-validated (actual_invoice_ids a.2) (ground (arith, h t)))
            (answer_if-goal is_order_invoices_posted "validated invoices successfully."
              "invoices validation failed." (odoo.action_post (invoice_ids_of odoo (i ∷ is)) o))

  register_payment-Reached :
      (o : SaleOrder)
      → Holds (Reached Step.register_payment o) (integration_register_payment odoo from_shopify o)
  unfolding integration_register_payment Goal actual_invoice_ids order_is_fully_paid close_payments
      integration_register_payment_one
  register_payment-Reached o =
      by_due (filter (λ i. invoice_is_posted i && invoice_to_pay i) (actual_invoice_ids o)) refl
    where
      by_flag :
          (o' : SaleOrder) (b : Bool)
          → order_is_fully_paid o' ≡ b
          → Reached Step.register_payment o (
              if b
              then (
                true,
                "the all successfully registered.",
                record o' {
                  external_payment_ids = close_payments from_shopify o'.external_payment_ids;
                },
              )
              else (false, "not the all payments were registered.", o'))
      by_flag o' true t = λ _. paid-settled (actual_invoice_ids o') t
      by_flag o' false t = λ e. absurd (ground (arith, e))

      by_paid :
          (o' : SaleOrder) → Reached Step.register_payment o (after_register odoo from_shopify o')
      by_paid o' = by_flag o' (order_is_fully_paid o') refl

      by_due :
          (is : List Invoice)
          → filter (λ i. invoice_is_posted i && invoice_to_pay i) (actual_invoice_ids o) ≡ is
          → Holds {E = Error} (Reached Step.register_payment o) (elim is [
            | [] ↦ ok (true, "there are no invoices awaiting payment registration.", o)
            | i ∷ is ↦ register_all odoo (invoice_ids_of odoo (i ∷ is)) o >>= λ o'.
                ok (after_register odoo from_shopify o')
          ])
      by_due [] e = λ _. e
      by_due (i ∷ is) e =
          Holds-bind_any (Reached Step.register_payment o)
            (register_all odoo (invoice_ids_of odoo (i ∷ is)) o)
            (λ o'. ok (after_register odoo from_shopify o')) by_paid

  validate_picking-Reached :
      (o : SaleOrder)
      → Holds (Reached Step.validate_picking o) (integration_validate_picking odoo n o)
  unfolding integration_validate_picking Goal auto_validate_picking filter_pickings_to_handle
  validate_picking-Reached o = by_open (filter (λ p. not (is_closed p.state)) o.picking_ids) refl
    where
      AtFirst : SaleOrder → Type 0
      AtFirst _ = filter_pickings_to_handle o.picking_ids ≡ [] → NoneWaits o

      in_fuel :
          (m : Option Answer)
          → Succeeds (λ o'. Handled o' × AtFirst o') m
          → Holds (Reached Step.validate_picking o) (or_out_of_fuel odoo m)
      in_fuel none h = tt
      in_fuel (some a) h = h

      among :
          (ps : List Picking)
          → filter (λ p. not (is_closed p.state)) o.picking_ids ≡ ps
          → Among (ids_of ps) o.picking_ids
      among ps e = subst (λ l. Among (ids_of l) o.picking_ids) e (Among-open o.picking_ids)

      all_handled :
          (ps : List Picking)
          → filter (λ p. not (is_closed p.state)) o.picking_ids ≡ ps
          → ids_of (filter_pickings_to_handle (browse (ids_of ps) o)) ≡ []
          → Handled o
      all_handled ps e h =
          sym (handled-browse (ids_of ps) o.picking_ids (among ps e))
          ∙ ids_of-nil (filter_pickings_to_handle (browse (ids_of ps) o)) h

      when_none :
          (ps : List Picking) (m : Option Answer)
          → (filter_pickings_to_handle o.picking_ids ≡ [] → Succeeds (λ _. NoneWaits o) m)
          → Succeeds AtFirst m
      when_none ps none f = tt
      when_none ps (some a) f = λ t r. f r t

      by_open :
          (ps : List Picking)
          → filter (λ p. not (is_closed p.state)) o.picking_ids ≡ ps
          → Holds {E = Error} (Reached Step.validate_picking o) (elim ps [
            | [] ↦ ok (true, "there are no pickings awaiting validation.", o)
            | p ∷ ps ↦ or_out_of_fuel odoo (auto_validate_picking odoo n (ids_of (p ∷ ps)) o)
          ])
      by_open [] e = λ _. (
        all_handled [] e
            (ap (λ l. ids_of (filter (λ p. is_ready p.state) l)) (browse_none o.picking_ids)),
        λ _.
            sym (waiting-browse [] o.picking_ids (among [] e))
            ∙ ap (λ l. any (λ p. is_waiting p.state) l) (browse_none o.picking_ids),
      )
      by_open (p ∷ ps) e = in_fuel m (
          Succeeds-both Handled AtFirst m
            (validate_each-Handled odoo n (ids_of (p ∷ ps)) handles o (all_handled (p ∷ ps) e))
            (when_none (p ∷ ps) m (λ r.
              validate_each-NoneWaits odoo n (ids_of (p ∷ ps)) handles o
                (ap (λ l. ids_of l)
                  (handled-browse (ids_of (p ∷ ps)) o.picking_ids (among (p ∷ ps) e) ∙ r))
                (among (p ∷ ps) e))))
        where
          handles : List ℕ
          handles = ids_of (filter_pickings_to_handle (browse (ids_of (p ∷ ps)) o))

          m : Option Answer
          m = auto_validate_picking odoo n (ids_of (p ∷ ps)) o

  send_invoice-Reached :
      (o : SaleOrder) → Holds (Reached Step.send_invoice o) (integration_send_invoice odoo o)
  unfolding integration_send_invoice Goal
  send_invoice-Reached o = by_invoices (to_send o)
    where
      by_invoices :
          (is : List Invoice)
          → Holds {E = Error}
              (λ (a : Answer).
                a.0 ≡ true → (1 ≤ length is) × (all odoo.opens_send_wizard is ≡ true))
              (elim is [
                | [] ↦ ok (false, "no valid invoices to send.", o)
                | i ∷ is ↦ ok (sent_answer odoo (send_all odoo (i ∷ is) o))
              ])
      by_invoices [] = λ e. absurd (ground (arith, e))
      by_invoices (i ∷ is) = λ e. (
        omega arith,
        send_all-opens odoo (i ∷ is) o (sent_answer-opens odoo (send_all odoo (i ∷ is) o) e),
      )

  -- A method of the workflow that reports success has reached what it is for, whatever Odoo did when
  -- it was called: the order is confirmed; no shipment is ready to be handled, and if none was at
  -- first, then none waits either; the order is invoiced; no invoice is a draft; there are invoices to
  -- send, and the wizard opened for each of them; no invoice that is posted is to be paid. The fuel
  -- bounds the loop over the shipments.
  pub run_method-Goal :
      (step : Step) (o : SaleOrder)
      → Holds (λ a. a.0 ≡ true → Goal odoo step o a.2) (run_method odoo n from_shopify step o)
  unfolding run_method Goal
  run_method-Goal Step.validate_order o = validate_order-Reached o
  run_method-Goal Step.validate_picking o = validate_picking-Reached o
  run_method-Goal Step.create_invoice o = create_invoice-Reached o
  run_method-Goal Step.validate_invoice o = validate_invoice-Reached o
  run_method-Goal Step.send_invoice o = send_invoice-Reached o
  run_method-Goal Step.register_payment o = register_payment-Reached o
