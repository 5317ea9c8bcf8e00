-- ===== src/Methods/Answers.antt =====
-- What the answers of the workflow's methods rest on: the states of invoices in
-- integration/models/account_move.py, and the checks of integration/models/sale_order.py.
use jean_fourche.Base.{
  String, Bool, true, false, ◌&&◌, ◌≡◌, refl, List, [], ◌∷◌, filter, all, arith,
}
use jean_fourche.Base.Result.{Result, ok, err, ◌>>=◌, Holds}
use jean_fourche.Methods.Data.{
  InvoiceState, PaymentState, is_paid_state, is_to_pay_state, Invoice, SaleOrder, Error,
  is_draft_invoice, invoice_is_posted, invoice_is_paid, invoice_to_pay,
}
use jean_fourche.Methods.Order.{answer_if}

paid-not_due : (p : PaymentState) → is_paid_state p ≡ true → is_to_pay_state p ≡ false
paid-not_due PaymentState.paid e = refl
paid-not_due PaymentState.in_payment e = refl
paid-not_due PaymentState.not_paid e = absurd (ground (arith, e))
paid-not_due PaymentState.partial e = absurd (ground (arith, e))
paid-not_due PaymentState.reversed e = refl
paid-not_due PaymentState.other e = refl

posted-not_draft :
    (t : InvoiceState)
    → elim t [ InvoiceState.posted ↦ true | _ ↦ false ] ≡ true
    → elim t [ InvoiceState.draft ↦ true | _ ↦ false ] ≡ false
posted-not_draft InvoiceState.draft e = absurd (ground (arith, e))
posted-not_draft InvoiceState.posted e = refl
posted-not_draft InvoiceState.cancel e = refl

pub paid-settled :
    (is : List Invoice)
    → all invoice_is_paid is ≡ true
    → filter (λ i. invoice_is_posted i && invoice_to_pay i) is ≡ []
paid-settled [] h = refl
paid-settled (i ∷ is) h = ground (arith, h, paid-not_due i.payment_state, paid-settled is)

pub posted-validated :
    (is : List Invoice) → all invoice_is_posted is ≡ true → filter is_draft_invoice is ≡ []
posted-validated [] h = refl
posted-validated (i ∷ is) h = ground (arith, h, posted-not_draft i.state, posted-validated is)

pub answer_if-goal :
    (goal : SaleOrder → Bool) (good bad : String) (m : Result Error SaleOrder)
    → Holds (λ a. a.0 ≡ true → goal a.2 ≡ true) (m >>= answer_if goal good bad)
answer_if-goal goal good bad (ok o) = λ e. e
answer_if-goal goal good bad (err x) = tt
