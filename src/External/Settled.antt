-- ===== src/External/Settled.antt =====
-- What a validation makes of a transaction, and what applying the payments makes of them all.
use text.Mathlib.Text.{◌==◌ as str_eq}
use jean_fourche.Base.{
  ℕ, String, Bool, true, false, not, ◌||◌, ◌≡◌, refl, inl, inr, ◌⊎◌, none, some, List, [], ◌∷◌,
  arith, if◌then◌else◌, Bool-cases,
}
use jean_fourche.Base.Result.{Result, ok, err, ◌>>=◌, Holds, Holds-bind_any, Holds-if}
use jean_fourche.External.Resource.{Status, is_done, mark_done, mark_failed, mark_skipped}
use jean_fourche.External.Payment.{
  Transaction, Error, user_error, validation_error, api_import_error, failure, Odoo, Order, Answer,
  set_info, add_payment_ids, caught, finish, checked, register, is_ecommerce_ok, validate,
  validate_invoices, validate_as_advance_payment, with_writeoff, new_wizard, by_invoices,
  get_amount, converted, or_raise,
}

abbrev pub Succeeded : Transaction → Type 0
Succeeded t' = (t'.internal_status ≡ Status.done) × (t'.internal_info ≡ none)

-- Not done, with a reason for the user, and no field of the payment touched.
abbrev pub Rejected : Transaction → Transaction → Type 0
Rejected t t' =
    ((t'.internal_status ≡ Status.skipped) ⊎ (t'.internal_status ≡ Status.failed))
    × ((t'.internal_info ≡ none) → ⊥)
    × (t'.own ≡ t.own)

-- `success` tells the two apart; a transaction that was done before makes no payment.
abbrev pub Settled : Transaction → Transaction × Bool × List ℕ → Type 0
Settled t (t', success, ids) =
    (success ≡ true → Succeeded t')
    × (success ≡ false → Rejected t t' × (ids ≡ []))
    × (is_done t ≡ true → (success ≡ true) × (ids ≡ []) × (t'.own ≡ t.own))

abbrev rejected : Transaction → String → Transaction
rejected t reason = record t { internal_status = Status.failed; internal_info = some reason }

rejected-Settled :
    (t : Transaction) (reason : String)
    → is_done t ≡ false
    → Settled t (rejected t reason, false, [])
rejected-Settled t reason h = (
  λ e. absurd (ground arith),
  (λ _. ((inr refl, λ e. absurd (ground arith), refl), refl)),
  λ e. absurd (ground arith),
)

skipped-Settled :
    (t : Transaction) (reason : String)
    → is_done t ≡ false
    → Settled t
        (record t { internal_status = Status.skipped; internal_info = some reason }, false, [])
skipped-Settled t reason h = (
  λ e. absurd (ground arith),
  (λ _. ((inl refl, λ e. absurd (ground arith), refl), refl)),
  λ e. absurd (ground arith),
)

module _ {Amount : Type 0} (odoo : Odoo Amount) where
  caught_lem :
      (t : Transaction) (prefix : String) (e : Error)
      → is_done t ≡ false
      → Holds (Settled t) (caught odoo (set_info none t) prefix e)
  unfolding set_info mark_failed
  caught_lem t prefix (user_error m) h = rejected-Settled t prefix h
  caught_lem t prefix (validation_error m) h = rejected-Settled t prefix h
  caught_lem t prefix api_import_error h = tt
  caught_lem t prefix failure h = tt

  finish_lem :
      (t : Transaction) (prefix : String) (r : Result Error (List ℕ))
      → is_done t ≡ false
      → Holds (Settled t) (finish odoo (set_info none t) prefix r)
  unfolding set_info mark_done add_payment_ids
  finish_lem t prefix (ok ids) h =
      ((λ _. (refl, refl)), (λ e. absurd (ground arith)), λ e. absurd (ground arith))
  finish_lem t prefix (err e) h = caught_lem t prefix e h

  checked_lem :
      (from_shopify : Bool) (t : Transaction) (go : Result Error (Answer odoo))
      → (is_done t ≡ false → Holds (Settled t) go)
      → Holds (Settled t) (checked odoo from_shopify (set_info none t) go)
  unfolding set_info mark_skipped
  checked_lem from_shopify t go h = elim (Bool-cases (is_done t)) [
    | inl over ↦
        rw over ((λ _. (ground arith, refl)), (λ e. absurd (ground arith)), λ _. (refl, refl, refl))
    | inr open_ ↦ elim (Bool-cases (is_ecommerce_ok from_shopify (set_info none t))) [
      | inl good ↦ rw (open_, good) (h open_)
      | inr bad ↦ rw (open_, bad) (skipped-Settled t _ open_)
    ]
  ]

  register_lem :
      (order : Order Amount) (t : Transaction)
      → is_done t ≡ false
      → Holds (Settled t) (register odoo order (set_info none t))
  register_lem order t h =
      Holds-bind_any (Settled t)
        (new_wizard odoo order (set_info none t) >>= with_writeoff odoo order)
        (λ wizard.
          finish odoo (set_info none t) "Payment creation failed" (odoo.create_payments wizard))
        (λ wizard. finish_lem t "Payment creation failed" (odoo.create_payments wizard) h)

  by_invoices_lem :
      (order : Order Amount) (t : Transaction) (invoices : List ℕ)
      → is_done t ≡ false
      → Holds (Settled t) (by_invoices odoo order (set_info none t) invoices)
  unfolding set_info mark_skipped
  by_invoices_lem order t [] h = skipped-Settled t _ h
  by_invoices_lem order t (i ∷ is) h = register_lem order t h

  -- Whatever Odoo answers and whatever the transaction, a validation that returns either succeeds,
  -- and then the transaction is done and carries no message; or it does not, and then it is skipped
  -- or failed, says why, makes no payment and touches no field of the payment. One that was done
  -- before succeeds and makes no payment.
  pub validate_lem :
      (from_shopify skip_advance_payment : Bool) (order : Order Amount) (t : Transaction)
      → Holds (Settled t) (validate odoo from_shopify skip_advance_payment order t)
  unfolding validate validate_invoices validate_as_advance_payment set_info
  validate_lem from_shopify skip_advance_payment order t =
      elim (Bool-cases (skip_advance_payment || not order.create_advance_payments)) [
        | inl plain ↦
            rw plain (checked_lem from_shopify t _ (by_invoices_lem order t order.unpaid_invoices))
        | inr early ↦ rw early (checked_lem from_shopify t _ (finish_lem t _ _))
      ]

-- If no residual is below itself, the amount of an advance payment, where one is found, is never
-- below what is left to pay on the order, however small the payment that the store reports: a
-- smaller amount is raised to it.
pub get_amount-residual :
    (Amount : Type 0) (odoo : Odoo Amount) (order : Order Amount) (t : Transaction)
    → odoo.less order.amount_residual order.amount_residual ≡ false
    → Holds
        (λ amount. odoo.less amount order.amount_residual ≡ false)
        (get_amount odoo true order t)
unfolding get_amount
get_amount-residual Amount odoo order t irreflexive =
    Holds-if NotBelow (str_eq t.own.currency "") _ _ (λ _. tt)
      λ _.
        Holds-bind_any NotBelow (or_raise api_import_error (odoo.find_currency t.own.currency))
          (λ currency. or_raise failure (odoo.float t.own.amount) >>= raised currency)
          (λ currency.
            Holds-bind_any NotBelow (or_raise failure (odoo.float t.own.amount)) (raised currency)
              (λ amount. not_below (converted odoo order t currency amount)))
  where
    NotBelow : Amount → Type 0
    NotBelow amount = odoo.less amount order.amount_residual ≡ false

    raised : ℕ → Amount → Result Error Amount
    raised currency amount = ok (
        if odoo.less (converted odoo order t currency amount) order.amount_residual
        then order.amount_residual
        else converted odoo order t currency amount)

    not_below :
        (value : Amount)
        → odoo.less
            (if odoo.less value order.amount_residual then order.amount_residual else value)
            order.amount_residual
          ≡ false
    not_below value = elim (Bool-cases (odoo.less value order.amount_residual)) [
      | inl below ↦ rw below irreflexive
      | inr above ↦ rw above above
    ]
