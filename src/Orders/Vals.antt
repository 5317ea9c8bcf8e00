-- ===== src/Orders/Vals.antt =====
-- The values that an order is made with: `_prepare_order_vals` of
-- integration/models/integration_sale_order_factory.py, with what it calls of sale_order.py and
-- sale_integration.py.
use Prim.Native.String.{◌++◌ as text_append}
use text.Mathlib.Text.{◌==◌ as str_eq}
use jean_fourche.Base.{
  ℕ, suc, String, Bool, true, false, ◌&&◌, ◌||◌, Option, none, some, List, [], ◌∷◌, ◌++◌, find?,
  ◌==◌, if◌then◌else◌,
}
use jean_fourche.Base.Text.{to_lower}
use jean_fourche.Base.Result.{Result, ok, err, ◌>>=◌, lift}
use jean_fourche.Partners.Records.{Partner, Settings as ContactSettings}
use jean_fourche.Partners.Odoo.{Odoo}
use jean_fourche.Partners.Contact.{id_of}
use jean_fourche.Partners.Factory.{Contacts, create_factory, get_partner_and_addresses}
use jean_fourche.Orders.Data.{
  Error, api_import_error, not_mapped_from_external, contact, OrderData, Order, Settings, Pricelist,
}
use jean_fourche.Orders.Env.{Env, World}

abbrev pub is_company : ℕ → Option ℕ → Bool
is_company company none = false
is_company company (some c) = c == company

abbrev pub is_shared : Option ℕ → Bool
is_shared none = true
is_shared (some c) = false

abbrev pub or_option {ℓ} : {A : Type ℓ} → Option A → Option A → Option A
or_option none y = y
or_option (some x) y = some x

module _ {C : Type 0} (env : Env C) (s : Settings) where
  -- A pricelist of the company before one that companies share.
  abbrev pub company_pricelist : String → List Pricelist → Option Pricelist
  company_pricelist currency ps =
      or_option (find? (λ p. str_eq p.currency currency && is_company s.company_id p.company_id) ps)
        (find? (λ p. str_eq p.currency currency && is_shared p.company_id) ps)

  abbrev pub new_pricelist : String → World C → Pricelist
  new_pricelist currency w = record {
    id = w.next_pricelist;
    company_id = some s.company_id;
    currency = currency;
  }

  abbrev pub pricelist_or_create : String → World C → Option Pricelist → Option Pricelist × World C
  pricelist_or_create currency w (some p) = (some p, w)
  pricelist_or_create currency w none = (
    some (new_pricelist currency w),
    record w {
      pricelists = w.pricelists ++ new_pricelist currency w ∷ [];
      next_pricelist = suc w.next_pricelist;
    },
  )

  abbrev pub pricelist_of_currency :
      World C → Option String → Result Error (Option Pricelist × World C)
  pricelist_of_currency w none = err api_import_error
  pricelist_of_currency w (some currency) =
      ok (pricelist_or_create currency w (company_pricelist currency w.pricelists))

  abbrev pub pricelist_of_partner : Option Partner → World C → Option Pricelist
  pricelist_of_partner none w = none
  pricelist_of_partner (some p) w = env.partner_pricelist w.contacts p

  abbrev pub same_currency : String → Option Pricelist → Bool
  same_currency currency none = false
  same_currency currency (some p) = str_eq (to_lower p.currency) (to_lower currency)

  unfoldable pub get_order_pricelist :
      String → Option Partner → World C → Result Error (Option Pricelist × World C)
  get_order_pricelist currency partner w =
      if str_eq s.company_currency "" || str_eq currency ""
      then ok (none, w)
      else if same_currency currency (pricelist_of_partner partner w)
      then ok (pricelist_of_partner partner w, w)
      else pricelist_of_currency w (env.currency_of currency)

  abbrev pub status_or_raise : String → C → Option ℕ → Result Error (ℕ × C)
  status_or_raise code c none = err (not_mapped_from_external code)
  status_or_raise code c (some status) = ok (status, c)

  unfoldable pub get_order_sub_status : String → C → Result Error (ℕ × C)
  get_order_sub_status code c = elim (env.status_of c code) [
    | some status ↦ ok (status, c)
    | none ↦ env.import_statuses c >>= λ d. status_or_raise code d (env.status_of d code)
  ]

  unfoldable pub get_integration_order_name : String → Option String
  get_integration_order_name order_ref =
      if s.use_odoo_so_numbering then none else some (text_append s.order_name_ref order_ref)

  -- An empty name is none.
  abbrev pub name_or : Option String → String → String
  name_or none t = t
  name_or (some name) t = if str_eq name "" then t else name

  -- The field of the reference, unless it is the name that Odoo gives.
  abbrev pub reference_of : String → Option String → Option (String × String)
  reference_of ref none = none
  reference_of ref (some field) =
      if s.use_odoo_so_numbering && str_eq field "name" then none else some (field, ref)

  abbrev pub status_if_given : String → World C → Result Error (Option ℕ × World C)
  unfolding get_order_sub_status
  status_if_given code w =
      if str_eq code ""
      then ok (none, w)
      else get_order_sub_status code w.catalog >>= λ r. ok (some r.0, record w { catalog = r.1 })

  abbrev pub date_of : String → Option String
  date_of date = if str_eq date "" then none else some (env.set_zero_time_zone date)

  abbrev pub pricelist_id : Option Pricelist → Option ℕ
  pricelist_id none = none
  pricelist_id (some p) = some p.id

  abbrev pub order_of : OrderData → Contacts → Option ℕ → Option Pricelist → World C → Order
  unfolding get_integration_order_name
  order_of d contacts status pricelist w = record {
    id = w.next_order;
    name = name_or (get_integration_order_name d.ref) (env.sequence_name w.next_order);
    integration_amount_total = d.amount_total;
    partner_id = id_of contacts.customer;
    partner_shipping_id = id_of contacts.shipping;
    partner_invoice_id = id_of contacts.billing;
    external_reference = reference_of d.ref s.so_external_reference_field;
    date_order = date_of d.date_order;
    sub_status_id = status;
    pricelist_id = pricelist_id pricelist;
    team_id = none;
    user_id = none;
    fiscal_position_id = none;
    payment_method_id = none;
    payment_term_id = none;
    external_payment_ids = [];
    external_fields = [];
    order_line = [];
    show_update_fpos = false;
    delivery_notes = "";
  }

  -- The contacts' part of the database, with its own settings.
  module _ (o : Odoo) (cs : ContactSettings) where
    abbrev pub contacts_of : OrderData → World C → Result Error (Contacts × World C)
    unfolding create_factory get_partner_and_addresses
    contacts_of d w =
        lift contact (
          create_factory o d.customer d.billing d.shipping >>= λ proxies.
          get_partner_and_addresses o cs false proxies w.contacts)
        >>= λ r. ok (r.0, record w { contacts = r.1 })

    unfoldable pub prepare_order_vals : OrderData → World C → Result Error (Order × World C)
    unfolding get_order_pricelist
    prepare_order_vals d w = contacts_of d w >>= λ k.
        status_if_given d.current_order_state k.1 >>= λ status.
        get_order_pricelist d.currency k.0.customer status.1 >>= λ pricelist.
        ok (order_of d k.0 status.0 pricelist.0 pricelist.1, pricelist.1)
