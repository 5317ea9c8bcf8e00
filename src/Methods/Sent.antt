-- ===== src/Methods/Sent.antt =====
-- The e-mails of invoices: `_integration_send_invoice` of integration/models/sale_order.py.
use jean_fourche.Base.{
  ◌++◌, Bool-cases, inl, inr, String, true, false, ◌≡◌, refl, List, [], ◌∷◌, all, arith,
}
use jean_fourche.Methods.Data.{Invoice, SaleOrder, Odoo}
use jean_fourche.Methods.Order.{send_all, send_one, sent_answer}

append-nil : (xs ys : List String) → xs ++ ys ≡ [] → (xs ≡ []) × (ys ≡ [])
append-nil [] ys e = (refl, e)
append-nil (x ∷ xs) ys e = absurd (ground (arith, e))

module _ (odoo : Odoo) where
  -- An invoice whose wizard does not open leaves an error.
  pub send_all-opens :
      (is : List Invoice) (o : SaleOrder)
      → (send_all odoo is o).0 ≡ []
      → all odoo.opens_send_wizard is ≡ true
  send_all-opens [] o e = refl
  send_all-opens (i ∷ is) o e = elim (Bool-cases (odoo.opens_send_wizard i)) [
    | inl opens ↦ rw opens (
        send_all-opens is (send_one odoo i o).1
          (append-nil (send_one odoo i o).0 (send_all odoo is (send_one odoo i o).1).0 e).1)
    | inr fails ↦ absurd (
        some_error i
          (append-nil (send_one odoo i o).0 (send_all odoo is (send_one odoo i o).1).0 e).0 fails)
  ]
    where
      some_error : (i : Invoice) → (send_one odoo i o).0 ≡ [] → odoo.opens_send_wizard i ≡ false → ⊥
      some_error i e f = ground (arith, e, f)

  pub sent_answer-opens : (r : List String × SaleOrder) → (sent_answer odoo r).0 ≡ true → r.0 ≡ []
  sent_answer-opens ([], o) e = refl
  sent_answer-opens (x ∷ xs, o) e = absurd (ground (arith, e))
