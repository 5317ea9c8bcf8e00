-- ===== src/External/Payment.antt =====
-- The payments of the store: external.order.transaction,
-- integration/models/external/external_order_transaction.py. Odoo's accounting, the advance
-- payment add-on, and amounts, which are floats, are parameters.
use text.Mathlib.Text.{◌==◌ as str_eq}
use jean_fourche.Base.{
  ℕ, String, Bool, true, false, not, ◌&&◌, ◌||◌, Option, none, some, List, [], ◌∷◌, ◌++◌, any, elem,
  ◌==◌, if◌then◌else◌, filter,
}
use jean_fourche.Base.Result.{Result, ok, err, ◌>>=◌}
use jean_fourche.External.Resource.{
  Resource, is_done, is_success, mark_done, mark_skipped, mark_failed,
}

pub data Kind : Type 0 where
  authorization capture sale void refund other : Kind

pub record TransactionFields : Type 0 where
  pub transaction : String
  pub kind : Kind
  pub amount : String
  pub currency : String
  pub gateway : String
  pub external_parent_str_id : String
  pub payment_ids : List ℕ
  pub external_process_date : Option ℕ

abbrev pub Transaction : Type 0
Transaction = Resource TransactionFields

-- The exceptions by the handlers that tell them apart; `failure` is any other.
pub data Error : Type 0 where
  user_error validation_error : String → Error
  api_import_error : Error
  failure : Error

-- The values of the payment register wizard.
pub record Wizard (Amount : Type 0) : Type 0 where
  pub invoices : List ℕ
  pub amount : Amount
  pub journal_id : ℕ
  pub payment_date : ℕ
  pub writeoff_account_id : Option ℕ

-- The values of the advance payment wizard.
pub record Advance (Amount : Type 0) : Type 0 where
  pub amount_total : Amount
  pub amount_advance : Amount
  pub currency_id : ℕ
  pub journal_id : ℕ
  pub date : ℕ

-- What Odoo answers. `float` is none where Python's raises.
pub record Odoo (Amount : Type 0) : Type 0 where
  pub float : String → Option Amount
  pub less : Amount → Amount → Bool
  pub find_currency : String → Option ℕ
  pub convert : ℕ → ℕ → ℕ → Amount → Amount
  pub today : ℕ
  pub gateway_journal : String → Result Error ℕ
  pub pipeline_journal : Result Error ℕ
  pub is_overpaid : Wizard Amount → Bool
  pub create_payments : Wizard Amount → Result Error (List ℕ)
  pub make_advance_payment : Advance Amount → Result Error (List ℕ)

-- The sales order, and the settings of its store.
pub record Order (Amount : Type 0) : Type 0 where
  pub currency_id : ℕ
  pub amount_residual : Amount
  pub unpaid_invoices : List ℕ
  pub create_advance_payments : Bool
  pub integration_writeoff_account_id : Option ℕ

abbrev pub is_refund_kind : Kind → Bool
is_refund_kind Kind.refund = true
is_refund_kind _ = false

abbrev pub is_refund : Transaction → Bool
is_refund t = is_refund_kind t.own.kind

abbrev pub is_paid_kind : Kind → Bool
is_paid_kind Kind.capture = true
is_paid_kind Kind.sale = true
is_paid_kind _ = false

-- `is_ecommerce_ok`, with what integration_shopify adds in its file of the same name.
unfoldable pub is_ecommerce_ok : Bool → Transaction → Bool
is_ecommerce_ok from_shopify t = is_success t && (not from_shopify || is_paid_kind t.own.kind)

abbrev pub or_raise : {A : Type 0} → Error → Option A → Result Error A
or_raise e none = err e
or_raise e (some a) = ok a

-- The command (4, id, 0) for every id: a link that is there stays one.
abbrev pub link : List ℕ → List ℕ → List ℕ
link [] ids = ids
link (new ∷ rest) ids = link rest (if elem new ids then ids else ids ++ new ∷ [])

unfoldable pub add_payment_ids : List ℕ → Transaction → Transaction
add_payment_ids ids t = record t { own = record t.own { payment_ids = link ids t.own.payment_ids } }

unfoldable pub set_info : Option String → Transaction → Transaction
set_info info t = record t { internal_info = info }

unfoldable pub raise_if_refund_found : List Transaction → Result Error Unit
raise_if_refund_found ts =
    if any is_refund (filter (λ t. not (is_done t)) ts)
    then err (validation_error "REFUND TRANSACTION DETECTED")
    else ok tt

module _ {Amount : Type 0} (odoo : Odoo Amount) where
  abbrev pub get_payment_date : Transaction → ℕ
  get_payment_date t = elim t.own.external_process_date [ none ↦ odoo.today | some d ↦ d ]

  abbrev pub get_journal : Transaction → Result Error ℕ
  get_journal t =
      if str_eq t.own.gateway "" then odoo.pipeline_journal else odoo.gateway_journal t.own.gateway

  abbrev pub get_writeoff_account : Order Amount → Result Error ℕ
  get_writeoff_account order =
      or_raise (validation_error "Write-off account is not configured")
        order.integration_writeoff_account_id

  -- In the currency of the order.
  abbrev pub converted : Order Amount → Transaction → ℕ → Amount → Amount
  converted order t currency amount =
      if order.currency_id == currency
      then amount
      else odoo.convert currency order.currency_id (get_payment_date t) amount

  unfoldable pub get_amount : Bool → Order Amount → Transaction → Result Error Amount
  get_amount no_writeoff order t =
      if str_eq t.own.currency ""
      then err (validation_error "Currency code is missing in the transaction data.")
      else or_raise api_import_error (odoo.find_currency t.own.currency) >>= λ currency.
          or_raise failure (odoo.float t.own.amount) >>= λ amount.
          (let value = converted order t currency amount in
            ok (
              if no_writeoff && odoo.less value order.amount_residual
              then order.amount_residual
              else value))

  -- The answer of a validation: the record as it is written, whether it succeeded, and the ids.
  abbrev pub Answer : Type 0
  Answer = Transaction × Bool × List ℕ

  -- `except (UserError, ValidationError)`: any other error goes on.
  abbrev pub caught : Transaction → String → Error → Result Error Answer
  caught t prefix (user_error _) = ok (mark_failed (set_info (some prefix) t), false, [])
  caught t prefix (validation_error _) = ok (mark_failed (set_info (some prefix) t), false, [])
  caught t prefix api_import_error = err api_import_error
  caught t prefix failure = err failure

  abbrev pub finish : Transaction → String → Result Error (List ℕ) → Result Error Answer
  finish t prefix (ok ids) = ok (mark_done (add_payment_ids ids t), true, ids)
  finish t prefix (err e) = caught t prefix e

  -- The wizard with its write-off account, where the payment is greater than what is owed.
  abbrev pub with_writeoff : Order Amount → Wizard Amount → Result Error (Wizard Amount)
  with_writeoff order wizard =
      if odoo.is_overpaid wizard
      then get_writeoff_account order
        >>= (λ account. ok (record wizard { writeoff_account_id = some account }))
      else ok wizard

  abbrev pub new_wizard : Order Amount → Transaction → Result Error (Wizard Amount)
  new_wizard order t = get_amount false order t >>= λ amount. get_journal t >>= λ journal.
      ok (record {
        invoices = order.unpaid_invoices;
        amount = amount;
        journal_id = journal;
        payment_date = get_payment_date t;
        writeoff_account_id = none;
      })

  abbrev pub register : Order Amount → Transaction → Result Error Answer
  register order t = new_wizard order t >>= with_writeoff order >>= λ wizard.
      finish t "Payment creation failed" (odoo.create_payments wizard)

  -- What both kinds of validation test first.
  abbrev pub checked : Bool → Transaction → Result Error Answer → Result Error Answer
  checked from_shopify t go =
      if is_done t
      then ok (t, true, [])
      else if is_ecommerce_ok from_shopify t
      then go
      else ok (
        mark_skipped
            (set_info (some "Transaction skipped - external status does not allow processing") t),
        false,
        [],
      )

  abbrev pub by_invoices : Order Amount → Transaction → List ℕ → Result Error Answer
  by_invoices order t [] =
      ok (mark_skipped (set_info (some "No unpaid invoices found for this order") t), false, [])
  by_invoices order t (i ∷ is) = register order t

  unfoldable pub validate_invoices : Bool → Order Amount → Transaction → Result Error Answer
  unfolding set_info mark_skipped
  validate_invoices from_shopify order t =
      let t = set_info none t in checked from_shopify t (by_invoices order t order.unpaid_invoices)

  abbrev pub advance : Order Amount → Transaction → Result Error (List ℕ)
  advance order t = get_amount true order t >>= λ amount. get_journal t >>= λ journal.
      odoo.make_advance_payment (record {
        amount_total = order.amount_residual;
        amount_advance = amount;
        currency_id = order.currency_id;
        journal_id = journal;
        date = get_payment_date t;
      })

  unfoldable pub validate_as_advance_payment :
      Bool → Order Amount → Transaction → Result Error Answer
  unfolding set_info
  validate_as_advance_payment from_shopify order t =
      let t = set_info none t in
      checked from_shopify t (finish t "Advance payment creation failed" (advance order t))

  unfoldable pub validate : Bool → Bool → Order Amount → Transaction → Result Error Answer
  validate from_shopify skip_advance_payment order t =
      if skip_advance_payment || not order.create_advance_payments
      then validate_invoices from_shopify order t
      else validate_as_advance_payment from_shopify order t
