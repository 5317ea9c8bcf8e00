-- ===== src/Methods/Data.antt =====
-- A sales order as its workflow sees it, with the shipments and the invoices:
-- integration/models/sale_order.py and account_move.py.
use jean_fourche.Base.{ℕ, String, Bool, true, false, not, ◌&&◌, List, filter, all}
use jean_fourche.Base.Result.{Result}
use jean_fourche.External.Payment.{Transaction}

pub data SaleState : Type 0 where
  draft sent sale cancel : SaleState

pub data InvoiceState : Type 0 where
  draft posted cancel : InvoiceState

pub data PaymentState : Type 0 where
  not_paid in_payment paid partial reversed other : PaymentState

pub data PickingState : Type 0 where
  draft waiting confirmed assigned done cancel : PickingState

pub record Invoice : Type 0 where
  pub id : ℕ
  pub name : String
  pub state : InvoiceState
  pub payment_state : PaymentState
  pub has_email : Bool
  pub is_move_sent : Bool

pub record MoveLine : Type 0 where
  pub quantity : ℕ
  pub quantity_product_uom : ℕ

pub record Move : Type 0 where
  pub state : PickingState
  pub quantity : ℕ
  pub product_qty : ℕ
  pub move_line_ids : List MoveLine

pub record Picking : Type 0 where
  pub id : ℕ
  pub state : PickingState
  pub move_ids : List Move

pub record SaleOrder : Type 0 where
  pub state : SaleState
  -- invoice_status == 'invoiced'
  pub order_is_invoiced : Bool
  pub invoice_ids : List Invoice
  pub picking_ids : List Picking
  pub external_payment_ids : List Transaction

pub data Error : Type 0 where
  user_error : String → Error

-- What a method returns: the result, its message, and the order.
abbrev pub Answer : Type 0
Answer = Bool × String × SaleOrder

-- button_validate: it is done, asks for input, or refuses with a message.
pub data Validation : Type 0 where
  validated manual : Validation
  refused : String → Validation

pub record Odoo : Type 0 where
  pub action_confirm : SaleOrder → Result Error SaleOrder
  pub button_validate : ℕ → SaleOrder → Validation × SaleOrder
  pub create_invoices : SaleOrder → Result Error SaleOrder
  pub action_post : List ℕ → SaleOrder → Result Error SaleOrder
  -- Whether the action of an invoice opens the wizard that sends it; and the wizard, which may raise.
  pub opens_send_wizard : Invoice → Bool
  pub send_and_print : ℕ → SaleOrder → Bool × SaleOrder
  pub get_payment_journal_or_raise : Result Error ℕ
  pub create_payments : ℕ → ℕ → SaleOrder → Result Error SaleOrder

abbrev pub order_is_confirmed : SaleOrder → Bool
order_is_confirmed o = elim o.state [ SaleState.sale ↦ true | _ ↦ false ]

abbrev pub order_is_cancelled : SaleOrder → Bool
order_is_cancelled o = elim o.state [ SaleState.cancel ↦ true | _ ↦ false ]

abbrev pub is_cancelled_invoice : Invoice → Bool
is_cancelled_invoice i = elim i.state [ InvoiceState.cancel ↦ true | _ ↦ false ]

abbrev pub is_draft_invoice : Invoice → Bool
is_draft_invoice i = elim i.state [ InvoiceState.draft ↦ true | _ ↦ false ]

abbrev pub invoice_is_posted : Invoice → Bool
invoice_is_posted i = elim i.state [ InvoiceState.posted ↦ true | _ ↦ false ]

abbrev pub is_paid_state : PaymentState → Bool
is_paid_state PaymentState.paid = true
is_paid_state PaymentState.in_payment = true
is_paid_state _ = false

abbrev pub is_to_pay_state : PaymentState → Bool
is_to_pay_state PaymentState.not_paid = true
is_to_pay_state PaymentState.partial = true
is_to_pay_state _ = false

abbrev pub invoice_is_paid : Invoice → Bool
invoice_is_paid i = is_paid_state i.payment_state

abbrev pub invoice_to_pay : Invoice → Bool
invoice_to_pay i = is_to_pay_state i.payment_state

unfoldable pub actual_invoice_ids : SaleOrder → List Invoice
actual_invoice_ids o = filter (λ i. not (is_cancelled_invoice i)) o.invoice_ids

unfoldable pub order_is_fully_paid : SaleOrder → Bool
unfolding actual_invoice_ids
order_is_fully_paid o = all invoice_is_paid (actual_invoice_ids o)

unfoldable pub is_order_invoices_posted : SaleOrder → Bool
unfolding actual_invoice_ids
is_order_invoices_posted o = o.order_is_invoiced && all invoice_is_posted (actual_invoice_ids o)
