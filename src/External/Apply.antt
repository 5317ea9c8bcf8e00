-- ===== src/External/Apply.antt =====
-- How a sales order applies what the store reports, integration/models/sale_order.py. Odoo's
-- accounting answers by the payments that were made before: `odoo made`, `order made`.
use jean_fourche.Base.{
  ℕ, Bool, true, false, not, ◌&&◌, Option, none, some, List, [], ◌∷◌, ◌++◌, any, map, if◌then◌else◌,
}
use jean_fourche.Base.Result.{Result, ok, ◌>>=◌}
use jean_fourche.External.Resource.{is_done, is_success, mark_done, mark_skipped}
use jean_fourche.External.Payment.{
  Transaction, Error, Odoo, Order, is_ecommerce_ok, raise_if_refund_found, validate,
}
use jean_fourche.External.Delivery.{Stock, Picking}
use jean_fourche.External.Fulfill.{Fulfillment, Shipping, validate_fulfillment}

-- `type_api`, as far as the code tells the stores apart.
pub data Api : Type 0 where
  shopify magento_two other_api : Api

pub record Integration : Type 0 where
  pub type_api : Api
  pub apply_external_fulfillments : Bool
  pub apply_external_payments : Bool

abbrev pub takes_fulfillments : Api → Bool
takes_fulfillments Api.shopify = true
takes_fulfillments Api.magento_two = true
takes_fulfillments Api.other_api = false

abbrev pub is_shopify : Api → Bool
is_shopify Api.shopify = true
is_shopify _ = false

abbrev pub is_pending : Bool → Transaction → Bool
is_pending from_shopify t = is_ecommerce_ok from_shopify t && not (is_done t)

module _ {Amount : Type 0} (odoo : List ℕ → Odoo Amount) (order : List ℕ → Order Amount) where
  abbrev pub validate_if_pending :
      Bool → Bool → List ℕ → Transaction → Result Error (Transaction × Bool × List ℕ)
  validate_if_pending from_shopify from_invoice_post made t =
      if is_pending from_shopify t
      then validate (odoo made) from_shopify from_invoice_post (order made) t
      else ok (t, true, [])

  -- `for payment in payments`: a validation writes its own record alone, so that the loop over the
  -- pending ones is one over all that leaves the others.
  unfoldable pub validate_payments :
      Bool → Bool → List ℕ → List Transaction → Result Error (List Transaction × List ℕ)
  validate_payments from_shopify from_invoice_post made [] = ok ([], made)
  validate_payments from_shopify from_invoice_post made (t ∷ ts) =
      validate_if_pending from_shopify from_invoice_post made t >>= λ a.
      validate_payments from_shopify from_invoice_post (made ++ a.2) ts >>= λ rest.
      ok (a.0 ∷ rest.0, rest.1)

  unfoldable pub apply_external_payments :
      Option Integration
      → Bool
      → List ℕ
      → List Transaction
      → Result Error (List Transaction × List ℕ)
  unfolding raise_if_refund_found validate_payments
  apply_external_payments none from_invoice_post made ts = ok (ts, made)
  apply_external_payments (some i) from_invoice_post made ts =
      let from_shopify = is_shopify i.type_api in
      if i.apply_external_payments && any (is_pending from_shopify) ts
      then raise_if_refund_found ts
        >>= (λ _. validate_payments from_shopify from_invoice_post made ts)
      else ok (ts, made)

module _ (stock : Stock)
    (button_validate : ℕ → List Picking → Result Error (Bool × List Picking)) where
  unfoldable pub validate_fulfillments :
      Shipping → List Fulfillment → List Picking → Result Error (List Fulfillment × List Picking)
  unfolding validate_fulfillment
  validate_fulfillments shipping [] ps = ok ([], ps)
  validate_fulfillments shipping (f ∷ fs) ps =
      if is_success f && not (is_done f)
      then (validate_fulfillment stock button_validate shipping f ps >>= λ d.
          validate_fulfillments shipping fs d.pickings >>= λ rest.
          ok (d.fulfillment ∷ rest.0, rest.1))
      else (validate_fulfillments shipping fs ps >>= λ rest. ok (f ∷ rest.0, rest.1))

  unfoldable pub apply_external_fulfillments :
      Option Integration
      → Shipping
      → List Fulfillment
      → List Picking
      → Result Error (List Fulfillment × List Picking)
  unfolding validate_fulfillments
  apply_external_fulfillments none shipping fs ps = ok (fs, ps)
  apply_external_fulfillments (some i) shipping fs ps =
      if i.apply_external_fulfillments && takes_fulfillments i.type_api
      then validate_fulfillments shipping fs ps
      else ok (fs, ps)

-- The records of the transactions after `_integration_register_payment` found the order paid.
unfoldable pub close_payments : Bool → List Transaction → List Transaction
unfolding mark_done mark_skipped
close_payments from_shopify ts =
    map (λ t. if is_done t then t else mark_skipped t)
      (map (λ t. if is_ecommerce_ok from_shopify t then mark_done t else t) ts)
