-- ===== src/Methods/Handled.antt =====
-- The loop over the shipments of an order leaves none to be handled: integration/models/stock_picking.py.
use jean_fourche.Base.{
  any, sym, ◌∙◌, ℕ, zero, suc, Bool, true, false, not, ◌≡◌, refl, Option, none, some, List, [], ◌∷◌,
  filter, any, elem, All, ==_refl, if◌then◌else◌, arith,
}
use jean_fourche.Methods.Data.{
  PickingState, Picking, SaleOrder, Answer, Validation, validated, manual, refused, Odoo,
}
use jean_fourche.Methods.Picking.{
  is_closed, is_ready, filter_pickings_to_handle, ids_of, browse, fill_picking, check_waiting,
  is_waiting, after_validate, validate_each,
}

-- A success of a loop that may be out of fuel.
abbrev pub Succeeds : (SaleOrder → Type 0) → Option Answer → Type 0
Succeeds P none = Unit
Succeeds P (some a) = a.0 ≡ true → P a.2

abbrev pub Handled : SaleOrder → Type 0
Handled o = filter_pickings_to_handle o.picking_ids ≡ []

pub ids_of-nil : (ps : List Picking) → ids_of ps ≡ [] → ps ≡ []
ids_of-nil [] e = refl
ids_of-nil (p ∷ ps) e = absurd (ground (arith, e))

module _ (odoo : Odoo) where
  after_validate-Handled :
      (again go_on : List ℕ → SaleOrder → Option Answer) (ids : List ℕ) (r : Validation × SaleOrder)
      → ((id : ℕ) (hs : List ℕ) (o : SaleOrder) → Succeeds Handled (again (id ∷ hs) o))
      → ((o : SaleOrder) → Handled o → Succeeds Handled (go_on ids o))
      → Succeeds Handled (after_validate odoo again go_on ids r)
  unfolding filter_pickings_to_handle
  after_validate-Handled again go_on ids (manual, o) f g = λ e. absurd (ground (arith, e))
  after_validate-Handled again go_on ids (refused m, o) f g = λ e. absurd (ground (arith, e))
  after_validate-Handled again go_on ids (validated, o) f g =
      by_handled (ids_of (filter_pickings_to_handle o.picking_ids)) refl
    where
      by_handled :
          (hs : List ℕ)
          → ids_of (filter_pickings_to_handle o.picking_ids) ≡ hs
          → Succeeds Handled (elim hs [ [] ↦ go_on ids o | id ∷ rest ↦ again (id ∷ rest) o ])
      by_handled [] e = g o (ids_of-nil (filter_pickings_to_handle o.picking_ids) e)
      by_handled (id ∷ rest) e = f id rest o

  pub validate_each-Handled :
      (n : ℕ) (self ids : List ℕ) (o : SaleOrder)
      → (ids ≡ [] → Handled o)
      → Succeeds Handled (validate_each odoo n self ids o)
  unfolding validate_each check_waiting
  validate_each-Handled n self [] o h = by_waiting (any (λ p. is_waiting p.state) (browse self o))
    where
      by_waiting :
          (b : Bool)
          → Succeeds Handled (
              some (
                if b
                then (false, "not ready to be validated", o)
                else (true, "validated pickings successfully", o)))
      by_waiting true e = h refl
      by_waiting false e = h refl
  validate_each-Handled zero self (id ∷ ids) o h = tt
  validate_each-Handled (suc n) self (id ∷ ids) o h =
      after_validate-Handled (λ hs o'. validate_each odoo n hs hs o')
        (λ rest o'. validate_each odoo n self rest o') ids
        (odoo.button_validate id (fill_picking id o))
        (λ i hs o'. validate_each-Handled n (i ∷ hs) (i ∷ hs) o' (λ e. absurd (ground (arith, e))))
        (λ o' q. validate_each-Handled n self ids o' (λ _. q))

-- The shipments that are not closed are among those of the ids.
abbrev pub Among : List ℕ → List Picking → Type 0
Among ids ps = All (λ p. is_closed p.state ≡ false → elem p.id ids ≡ true) ps

Among-cons : (x : ℕ) (ids : List ℕ) (ps : List Picking) → Among ids ps → Among (x ∷ ids) ps
Among-cons x ids [] h = tt
Among-cons x ids (p ∷ ps) h = ((λ r. ground (arith, h.0 r)), Among-cons x ids ps h.1)

ready-open : (st : PickingState) → is_ready st ≡ true → is_closed st ≡ false
ready-open PickingState.draft e = refl
ready-open PickingState.waiting e = refl
ready-open PickingState.confirmed e = refl
ready-open PickingState.assigned e = refl
ready-open PickingState.done e = absurd (ground (arith, e))
ready-open PickingState.cancel e = absurd (ground (arith, e))

waiting-open : (st : PickingState) → is_waiting st ≡ true → is_closed st ≡ false
waiting-open PickingState.draft e = refl
waiting-open PickingState.waiting e = refl
waiting-open PickingState.confirmed e = refl
waiting-open PickingState.assigned e = refl
waiting-open PickingState.done e = absurd (ground (arith, e))
waiting-open PickingState.cancel e = absurd (ground (arith, e))

Among-by_closed :
    (p : Picking) (ps : List Picking) (b : Bool)
    → is_closed p.state ≡ b
    → Among (ids_of (filter (λ q. not (is_closed q.state)) ps)) ps
    → Among
        (ids_of (
          if not b
          then p ∷ filter (λ q. not (is_closed q.state)) ps
          else filter (λ q. not (is_closed q.state)) ps))
        (p ∷ ps)
Among-by_closed p ps true e h = ((λ r. absurd (ground (arith, r, e))), h)
Among-by_closed p ps false e h = (
  (λ r. ground (arith, ==_refl p.id)),
  Among-cons p.id (ids_of (filter (λ q. not (is_closed q.state)) ps)) ps h,
)

pub Among-open : (ps : List Picking) → Among (ids_of (filter (λ p. not (is_closed p.state)) ps)) ps
Among-open [] = tt
Among-open (p ∷ ps) = Among-by_closed p ps (is_closed p.state) refl (Among-open ps)

pub handled-browse :
    (ids : List ℕ) (ps : List Picking)
    → Among ids ps
    → filter (λ p. is_ready p.state) (filter (λ p. elem p.id ids) ps)
      ≡ filter (λ p. is_ready p.state) ps
handled-browse ids [] h = refl
handled-browse ids (p ∷ ps) h = ground (arith, h.0, ready-open p.state, handled-browse ids ps h.1)

pub waiting-browse :
    (ids : List ℕ) (ps : List Picking)
    → Among ids ps
    → any (λ p. is_waiting p.state) (filter (λ p. elem p.id ids) ps)
      ≡ any (λ p. is_waiting p.state) ps
waiting-browse ids [] h = refl
waiting-browse ids (p ∷ ps) h = ground (arith, h.0, waiting-open p.state, waiting-browse ids ps h.1)

pub browse_none : (ps : List Picking) → filter (λ p. elem p.id []) ps ≡ []
browse_none [] = refl
browse_none (p ∷ ps) = browse_none ps

abbrev pub NoneWaits : SaleOrder → Type 0
NoneWaits o = any (λ p. is_waiting p.state) o.picking_ids ≡ false

-- With no shipment to validate, a success says that none waits.
pub validate_each-NoneWaits :
    (odoo : Odoo) (n : ℕ) (self ids : List ℕ) (o : SaleOrder)
    → ids ≡ []
    → Among self o.picking_ids
    → Succeeds (λ _. NoneWaits o) (validate_each odoo n self ids o)
unfolding validate_each check_waiting
validate_each-NoneWaits odoo n self (id ∷ ids) o e h = absurd (ground (arith, e))
validate_each-NoneWaits odoo n self [] o e h =
    by_waiting (any (λ p. is_waiting p.state) (browse self o)) refl
  where
    by_waiting :
        (b : Bool)
        → any (λ p. is_waiting p.state) (browse self o) ≡ b
        → Succeeds
            (λ _. NoneWaits o)
            (some (
              if b
              then (false, "not ready to be validated", o)
              else (true, "validated pickings successfully", o)))
    by_waiting true f = λ t. absurd (ground (arith, t))
    by_waiting false f = λ t. sym (waiting-browse self o.picking_ids h) ∙ f

pub Succeeds-both :
    (P Q : SaleOrder → Type 0) (m : Option Answer)
    → Succeeds P m
    → Succeeds Q m
    → Succeeds (λ o. P o × Q o) m
Succeeds-both P Q none p q = tt
Succeeds-both P Q (some a) p q = λ e. (p e, q e)
