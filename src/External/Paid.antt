-- ===== src/External/Paid.antt =====
-- What applying the payments of an order makes of its transactions.
use jean_fourche.Base.{
  ℕ, Bool, true, false, ◌≡◌, refl, inl, inr, ◌⊎◌, some, List, [], ◌∷◌, ◌++◌, any, arith, Bool-cases,
  Pairwise,
}
use jean_fourche.Base.Result.{
  Result, ok, ◌>>=◌, Holds, Holds-bind, Holds-bind_any, Holds-mono, Holds-if,
}
use jean_fourche.External.Payment.{Transaction, Error, Odoo, Order, validate, raise_if_refund_found}
use jean_fourche.External.Apply.{
  Integration, is_pending, is_shopify, validate_if_pending, validate_payments,
  apply_external_payments,
}
use jean_fourche.External.Settled.{Succeeded, Rejected, Settled, validate_lem}

-- A transaction that was to be paid is settled; any other is as it was.
abbrev pub Applied : Bool → Transaction → Transaction → Type 0
Applied from_shopify t t' =
    (is_pending from_shopify t ≡ true → Succeeded t' ⊎ Rejected t t')
    × (is_pending from_shopify t ≡ false → t' ≡ t)

Settled-Applied :
    (from_shopify : Bool) (t : Transaction) (a : Transaction × Bool × List ℕ)
    → is_pending from_shopify t ≡ true
    → Settled t a
    → Applied from_shopify t a.0
Settled-Applied from_shopify t (t', true, ids) p s =
    ((λ _. inl (s.0 refl)), λ e. absurd (ground arith))
Settled-Applied from_shopify t (t', false, ids) p s =
    ((λ _. inr (s.1 refl).0), λ e. absurd (ground arith))

untouched :
    (from_shopify : Bool) (ts : List Transaction)
    → any (is_pending from_shopify) ts ≡ false
    → Pairwise (Applied from_shopify) ts ts
untouched from_shopify [] h = tt
untouched from_shopify (t ∷ ts) h =
    (((λ e. absurd (ground arith)), λ _. refl), untouched from_shopify ts (ground arith))

module _ {Amount : Type 0} (odoo : List ℕ → Odoo Amount) (order : List ℕ → Order Amount) where
  validate_if_pending_lem :
      (from_shopify from_invoice_post : Bool) (made : List ℕ) (t : Transaction)
      → Holds
          (λ a. Applied from_shopify t a.0)
          (validate_if_pending odoo order from_shopify from_invoice_post made t)
  validate_if_pending_lem from_shopify from_invoice_post made t =
      Holds-if (λ a. Applied from_shopify t a.0) (is_pending from_shopify t) _ _
        (λ e.
          Holds-mono (Settled t) (λ a. Applied from_shopify t a.0)
            (validate (odoo made) from_shopify from_invoice_post (order made) t)
            (λ a s. Settled-Applied from_shopify t a e s)
            (validate_lem (odoo made) from_shopify from_invoice_post (order made) t))
        (λ e. ((λ e'. absurd (ground arith)), λ _. refl))

  validate_payments_lem :
      (from_shopify from_invoice_post : Bool) (made : List ℕ) (ts : List Transaction)
      → Holds
          (λ r. Pairwise (Applied from_shopify) ts r.0)
          (validate_payments odoo order from_shopify from_invoice_post made ts)
  unfolding validate_payments
  validate_payments_lem from_shopify from_invoice_post made [] = tt
  validate_payments_lem from_shopify from_invoice_post made (t ∷ ts) =
      Holds-bind AllApplied (λ a. Applied from_shopify t a.0)
        (validate_if_pending odoo order from_shopify from_invoice_post made t)
        (λ a. rest a >>= λ r. ok (a.0 ∷ r.0, r.1))
        (validate_if_pending_lem from_shopify from_invoice_post made t)
        (λ a h.
          Holds-bind AllApplied (λ r. Pairwise (Applied from_shopify) ts r.0) (rest a)
            (λ r. ok (a.0 ∷ r.0, r.1))
            (validate_payments_lem from_shopify from_invoice_post (made ++ a.2) ts)
            (λ r h'. (h, h')))
    where
      AllApplied : List Transaction × List ℕ → Type 0
      AllApplied r = Pairwise (Applied from_shopify) (t ∷ ts) r.0

      rest : Transaction × Bool × List ℕ → Result Error (List Transaction × List ℕ)
      rest a = validate_payments odoo order from_shopify from_invoice_post (made ++ a.2) ts

  -- For a store that applies payments, a call that returns settles every transaction that the
  -- store reports as paid and that was not done: it is done without a message, or it is skipped or
  -- failed, says why, and has the fields of its payment untouched. Every other transaction is as
  -- it was.
  pub apply_external_payments_lem :
      (i : Integration) (from_invoice_post : Bool) (made : List ℕ) (ts : List Transaction)
      → i.apply_external_payments ≡ true
      → Holds
          (λ r. Pairwise (Applied (is_shopify i.type_api)) ts r.0)
          (apply_external_payments odoo order (some i) from_invoice_post made ts)
  unfolding apply_external_payments
  apply_external_payments_lem i from_invoice_post made ts h =
      elim (Bool-cases (any (is_pending (is_shopify i.type_api)) ts)) [
        | inl some_pending ↦
            rw (h, some_pending)
              (Holds-bind_any (λ r. Pairwise (Applied (is_shopify i.type_api)) ts r.0)
                (raise_if_refund_found ts)
                (λ _.
                  validate_payments odoo order (is_shopify i.type_api) from_invoice_post made ts)
                (λ _. validate_payments_lem (is_shopify i.type_api) from_invoice_post made ts))
        | inr none_pending ↦
            rw (h, none_pending) (untouched (is_shopify i.type_api) ts none_pending)
      ]
