-- ===== src/Orders/Once.antt =====
-- An order of the store is made once: `create_order` of
-- integration/models/integration_sale_order_factory.py, called again.
use text.Mathlib.Text.{◌==◌ as str_eq}
use jean_fourche.Base.{
  ℕ, suc, String, true, false, ◌||◌, ◌≡◌, refl, ap, ◌∙◌, Option, none, some, List, [], ◌∷◌, ◌++◌,
  filter, if◌then◌else◌,
}
use jean_fourche.Base.Result.{
  ok, ◌>>=◌, lift, Holds, Holds-bind, Holds-bind_any, Holds-if, Holds-lift,
}
use jean_fourche.Mappings.Records.{Db}
use jean_fourche.Mappings.Mixin.{create_integration_mapping, to_odoo, to_external_record}
use jean_fourche.Partners.Records.{Partner, Settings as ContactSettings}
use jean_fourche.Partners.Odoo.{Odoo}
use jean_fourche.Partners.Factory.{create_factory, get_partner_and_addresses}
use jean_fourche.Orders.Data.{Error, contact, mapping, OrderData, Order, Settings, Pricelist}
use jean_fourche.Orders.Env.{Env, World, PaymentMethod}
use jean_fourche.Orders.Extras.{create_order_additional_lines}
use jean_fourche.Orders.Vals.{
  same_currency, pricelist_of_partner, pricelist_of_currency, get_order_pricelist, status_if_given,
  contacts_of, prepare_order_vals, get_order_sub_status, order_of, company_pricelist,
  pricelist_or_create,
}
use jean_fourche.Orders.Create.{
  mapped_orders, bind_method, new_method, is_method, method_by_name, method_or_bind,
  get_payment_method, set_values, with_lines, order_values, after_taxes, new_order, with_mapping,
  found_or_new, create_order, completed, valued, extended,
}
use jean_fourche.Orders.Bound.{mapped_orders-create_integration_mapping}

module _ {C : Type 0} (env : Env C) (s : Settings) (o : Odoo) (cs : ContactSettings) (db : Db) where
  -- The mappings of the orders are those given.
  abbrev Same : {A : Type 0} → A × World C → Type 0
  Same r = r.1.order_mappings ≡ db

  get_order_pricelist-Same :
      (currency : String) (p : Option Partner) (w : World C)
      → w.order_mappings ≡ db
      → Holds Same (get_order_pricelist env s currency p w)
  unfolding get_order_pricelist
  get_order_pricelist-Same currency p w h =
      Holds-if {E = Error} Same (str_eq s.company_currency "" || str_eq currency "") (ok (none, w))
        (if same_currency env s currency (pricelist_of_partner env s p w)
          then ok (pricelist_of_partner env s p w, w)
          else pricelist_of_currency env s w (env.currency_of currency))
        (λ _. h)
        (λ _.
          Holds-if {E = Error} Same (same_currency env s currency (pricelist_of_partner env s p w))
            (ok (pricelist_of_partner env s p w, w))
            (pricelist_of_currency env s w (env.currency_of currency)) (λ _. h)
            (λ _. by_currency (env.currency_of currency)))
    where
      by_pricelist :
          (c : String) (q : Option Pricelist)
          → Holds {E = Error} Same (ok (pricelist_or_create env s c w q))
      by_pricelist c none = h
      by_pricelist c (some q) = h

      by_currency : (c : Option String) → Holds Same (pricelist_of_currency env s w c)
      by_currency none = tt
      by_currency (some c) = by_pricelist c (company_pricelist env s c w.pricelists)

  status_if_given-Same :
      (code : String) (w : World C)
      → w.order_mappings ≡ db
      → Holds Same (status_if_given env s code w)
  unfolding get_order_sub_status
  status_if_given-Same code w h =
      Holds-if {E = Error} Same (str_eq code "") (ok (none, w))
        (get_order_sub_status env s code w.catalog >>= λ r.
          ok (some r.0, record w { catalog = r.1 }))
        (λ _. h)
        (λ _.
          Holds-bind_any Same (get_order_sub_status env s code w.catalog)
            (λ r. ok (some r.0, record w { catalog = r.1 })) (λ _. h))

  prepare_order_vals-Same :
      (d : OrderData) (w : World C)
      → w.order_mappings ≡ db
      → Holds Same (prepare_order_vals env s o cs d w)
  unfolding prepare_order_vals create_factory get_partner_and_addresses
  prepare_order_vals-Same d w h =
      Holds-bind Same Same (contacts_of env s o cs d w)
        (λ k. status_if_given env s d.current_order_state k.1 >>= λ status.
          get_order_pricelist env s d.currency k.0.customer status.1 >>= λ pricelist.
          ok (order_of env s d k.0 status.0 pricelist.0 pricelist.1, pricelist.1))
        (Holds-bind_any Same
          (lift contact (
            create_factory o d.customer d.billing d.shipping >>= λ proxies.
            get_partner_and_addresses o cs false proxies w.contacts))
          (λ r. ok (r.0, record w { contacts = r.1 })) (λ _. h))
        (λ k kh.
          Holds-bind Same Same (status_if_given env s d.current_order_state k.1)
            (λ status. get_order_pricelist env s d.currency k.0.customer status.1 >>= λ pricelist.
              ok (order_of env s d k.0 status.0 pricelist.0 pricelist.1, pricelist.1))
            (status_if_given-Same d.current_order_state k.1 kh)
            (λ status sh.
              Holds-bind Same Same (get_order_pricelist env s d.currency k.0.customer status.1)
                (λ pricelist.
                  ok (order_of env s d k.0 status.0 pricelist.0 pricelist.1, pricelist.1))
                (get_order_pricelist-Same d.currency k.0.customer status.1 sh) (λ _ ph. ph)))

  bind_method-Same :
      (code : String) (id : ℕ) (w : World C)
      → w.order_mappings ≡ db
      → Holds Same (bind_method env s code id w)
  unfolding create_integration_mapping
  bind_method-Same code id w h =
      Holds-bind_any Same
        (lift mapping (create_integration_mapping s.id id code (some code) none w.method_mappings))
        (λ ms. ok (id, record w { method_mappings = ms })) (λ _. h)

  method_or_bind-Same :
      (code : String) (w : World C) (ids : List ℕ)
      → w.order_mappings ≡ db
      → Holds Same (method_or_bind env s code w ids)
  method_or_bind-Same code w [] h = by_name (filter (is_method env s code) w.payment_methods)
    where
      by_name : (ps : List PaymentMethod) → Holds Same (method_by_name env s code w ps)
      by_name [] = bind_method-Same code w.next_payment_method (new_method env s code w) h
      by_name (p ∷ []) = bind_method-Same code p.id w h
      by_name (p ∷ q ∷ ps) = tt
  method_or_bind-Same code w (id ∷ []) h = h
  method_or_bind-Same code w (id ∷ j ∷ ids) h = tt

  set_values-Same :
      (d : OrderData) (order : Order) (w : World C)
      → w.order_mappings ≡ db
      → Holds Same (set_values env s d order w)
  unfolding get_payment_method to_external_record
  set_values-Same d order w h =
      Holds-bind Same Same (get_payment_method env s d.payment_method w)
        (λ method.
          lift mapping (to_external_record true s.id method.0 method.1.method_mappings) >>= λ e.
          ok (order_values env s order method.0 e, method.1))
        (Holds-bind_any Same (lift mapping (to_odoo false s.id d.payment_method w.method_mappings))
          (method_or_bind env s d.payment_method w)
          (λ ids. method_or_bind-Same d.payment_method w ids h))
        (λ method mh.
          Holds-bind_any Same
            (lift mapping (to_external_record true s.id method.0 method.1.method_mappings))
            (λ e. ok (order_values env s order method.0 e, method.1)) (λ _. mh))

  new_order-Same :
      (d : OrderData) (w : World C) → w.order_mappings ≡ db → Holds Same (new_order env s o cs d w)
  unfolding new_order create_order_additional_lines
  new_order-Same d w h =
      Holds-bind Same Same (prepare_order_vals env s o cs d w) (completed env s d)
        (prepare_order_vals-Same d w h)
        (λ a ah. Holds-bind_any Same (with_lines env s d a.0 a.1.catalog) (valued env s d a.1) (λ b.
          Holds-bind Same Same (set_values env s d b.0 (record a.1 { catalog = b.1 }))
            (extended env s d) (set_values-Same d b.0 (record a.1 { catalog = b.1 }) ah)
            (λ v vh.
              Holds-bind_any Same (create_order_additional_lines env s d v.0 v.1.catalog)
                (λ x.
                  ok (after_taxes env s x.0 x.0.fiscal_position_id, record v.1 { catalog = x.1 }))
                (λ _. vh))))

module _ {C : Type 0} (env : Env C) (s : Settings) (o : Odoo) (cs : ContactSettings) where
  -- What a later call does, with what the first one returned and left.
  abbrev Again : OrderData → List ℕ × World C → Type 0
  Again d r = create_order env s o cs d r.1 ≡ ok r

  found-Again :
      (d e : OrderData) (w : World C) (ids : List ℕ)
      → e.id ≡ d.id
      → mapped_orders s.id d.id w.order_mappings ≡ ids
      → Holds (Again e) (found_or_new env s o cs d w ids)
  unfolding create_order create_integration_mapping
  found-Again d e w (id ∷ ids) same h =
      ap (λ code. found_or_new env s o cs e w (mapped_orders s.id code w.order_mappings)) same
      ∙ ap (found_or_new env s o cs e w) h
  found-Again d e w [] same h =
      Holds-bind (Again e) (Same env s o cs w.order_mappings) (new_order env s o cs d w)
        (with_mapping env s o cs d) (new_order-Same env s o cs w.order_mappings d w refl)
        (λ a ah.
          let after : Db → World C = (λ db. record a.1 {
            orders = a.1.orders ++ a.0 ∷ [];
            next_order = suc a.1.next_order;
            order_mappings = db;
          }) in
          Holds-bind (Again e) (λ db. mapped_orders s.id d.id db ≡ a.0.id ∷ [])
            (lift mapping
              (create_integration_mapping s.id a.0.id d.id (some a.0.name) none a.1.order_mappings))
            (λ db. ok (a.0.id ∷ [], after db))
            (Holds-lift (λ db. mapped_orders s.id d.id db ≡ a.0.id ∷ []) mapping
              (create_integration_mapping s.id a.0.id d.id (some a.0.name) none a.1.order_mappings)
              (mapped_orders-create_integration_mapping s.id a.0.id d.id (some a.0.name) none
                a.1.order_mappings (ap (mapped_orders s.id d.id) ah ∙ h)))
            (λ db q.
              ap (λ code. found_or_new env s o cs e (after db) (mapped_orders s.id code db)) same
              ∙ ap (found_or_new env s o cs e (after db)) q))

  -- An order that was made, or found, is found again: a further call with data of the same id returns
  -- the same order, and changes nothing.
  pub create_order-create_order :
      (d e : OrderData) (w : World C)
      → e.id ≡ d.id
      → Holds (λ r. create_order env s o cs e r.1 ≡ ok r) (create_order env s o cs d w)
  unfolding create_order mapped_orders
  create_order-create_order d e w same =
      found-Again d e w (mapped_orders s.id d.id w.order_mappings) same refl
