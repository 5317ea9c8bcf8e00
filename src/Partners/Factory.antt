-- ===== src/Partners/Factory.antt =====
-- The proxies of an order and the contacts that they give: integration_res_partner_factory.py and
-- `create_proxy` of integration_res_partner_proxy.py, in integration/models.
use text.Mathlib.Text.{◌==◌ as str_eq}
use jean_fourche.Base.{
  ℕ, String, Bool, true, not, ◌&&◌, ◌||◌, Option, none, some, List, [], ◌∷◌, if◌then◌else◌,
}
use jean_fourche.Base.Text.{strip, to_lower}
use jean_fourche.Base.Result.{Result, ok, err, ◌>>=◌}
use jean_fourche.Partners.Records.{Partner, Proxy, Settings, is_set}
use jean_fourche.Partners.Domain.{elem_str}
use jean_fourche.Partners.Odoo.{
  Odoo, Error, value_error, attribute_error, api_import_error, not_mapped_customer,
  not_mapped_from_external,
}
use jean_fourche.Partners.Proxy.{World, browse}
use jean_fourche.Partners.Contact.{get_or_create_partner, id_of, mapped_id, is_given}
use jean_fourche.Partners.Address.{get_or_create_address}
use jean_fourche.Partners.Data.{
  Data, filled_text, get_text, set_text, prepare_values, text_at, or_text, proxy_calls,
}

abbrev proxy_types : List String
proxy_types = "customer" ∷ "shipping_address" ∷ "billing_address" ∷ "other_address" ∷ []

pub record Contacts : Type 0 where
  pub customer : Option Partner
  pub billing : Option Partner
  pub shipping : Option Partner

module _ (o : Odoo) where
  abbrev set_email : Data → Data
  set_email vals =
      if filled_text (get_text "email" none vals)
      then set_text "email"
          (some
            (or_text (o.email_normalize (text_at "email" vals)) (to_lower (text_at "email" vals))))
          vals
      else vals

  -- The country is that of the data, not of the prepared values.
  abbrev phone_country : Data → Result Error (Option ℕ)
  phone_country d =
      if is_set (text_at "country" d)
      then o.country_from_external (text_at "country" d)
      else ok (
          if is_set (text_at "country_code" d)
          then o.country_of_code (text_at "country_code" d)
          else none)

  abbrev formatted : String → Option ℕ → String
  formatted number none = number
  formatted number (some country) = or_text (o.phone_format number country) number

  abbrev set_phone : Data → Data → Result Error Data
  set_phone d vals =
      if filled_text (get_text "phone" none vals)
      then (phone_country d >>= λ country.
          ok (set_text "phone_sanitized" (some (formatted (text_at "phone" vals) country)) vals))
      else ok vals

  unfoldable pub prepare_proxy_values : Data → Result Error Data
  prepare_proxy_values d = set_phone d (set_email (prepare_values d []))

  abbrev pub validate_required_values : Data → Bool
  validate_required_values vals =
      is_set (text_at "person_name" vals) || is_set (text_at "email" vals)

  -- data.get('id', '').strip(), of a customer
  abbrev external_id_of : String → Data → Result Error String
  external_id_of type d =
      if str_eq type "customer"
      then elim (get_text "id" (some "") d) [ none ↦ err attribute_error | some i ↦ ok (strip i) ]
      else ok ""

  abbrev pub proxy_of : String → String → Data → Proxy
  proxy_of type external_id vals = record {
    type = type;
    external_id = external_id;
    pricelist_id = text_at "pricelist_id" vals;
    person_name = text_at "person_name" vals;
    email = text_at "email" vals;
    phone = text_at "phone" vals;
    phone_sanitized = text_at "phone_sanitized" vals;
    mobile = text_at "mobile" vals;
    language = text_at "language" vals;
    person_id_number = text_at "person_id_number" vals;
    company_name = text_at "company_name" vals;
    company_reg_number = text_at "company_reg_number" vals;
    street = text_at "street" vals;
    street2 = text_at "street2" vals;
    city = text_at "city" vals;
    country = text_at "country" vals;
    country_code = text_at "country_code" vals;
    state = text_at "state" vals;
    state_code = text_at "state_code" vals;
    zip = text_at "zip" vals;
  }

  abbrev pub proxy_if_valid : String → Data → Data → Result Error (Option Proxy)
  proxy_if_valid type d vals =
      if validate_required_values vals
      then (external_id_of type d >>= λ i. ok (some (proxy_of type i vals)))
      else ok none

  unfoldable pub create_proxy : String → Data → Result Error (Option Proxy)
  unfolding prepare_proxy_values
  create_proxy type d =
      if elem_str type proxy_types
      then (prepare_proxy_values d >>= proxy_if_valid type d)
      else err (value_error type)

  abbrev add_proxy : List Proxy → Option Proxy → List Proxy
  add_proxy proxies none = proxies
  add_proxy proxies (some p) = p ∷ proxies

  abbrev pub create_proxies : List (String × Data) → Result Error (List Proxy)
  create_proxies [] = ok []
  create_proxies ((type, d) ∷ calls) =
      let rest = create_proxies calls in
      create_proxy type d >>= λ p. rest >>= λ proxies. ok (add_proxy proxies p)

  unfoldable pub create_factory :
      Option Data → Option Data → Option Data → Result Error (List Proxy)
  unfolding proxy_calls create_proxy
  create_factory customer billing shipping = create_proxies (proxy_calls customer billing shipping)

  -- self.proxy_ids.filtered(lambda r: r.type == type); a factory makes one of each type.
  abbrev pub proxy_with_type : String → List Proxy → Option Proxy
  proxy_with_type type [] = none
  proxy_with_type type (p ∷ ps) = if str_eq p.type type then some p else proxy_with_type type ps

module _ (o : Odoo) (s : Settings) where
  abbrev pub external_id : Option Proxy → String
  external_id none = ""
  external_id (some p) = p.external_id

  -- The contact of the mapping of the customer's external id.
  abbrev pub mapped_customer : Option Proxy → World → Option Partner
  mapped_customer none w = none
  mapped_customer (some p) w = if is_set p.external_id then browse (mapped_id w.mapping) w else none

  abbrev pub validate_for_initial_import : Option Proxy → World → Result Error World
  validate_for_initial_import customer w =
      if not (is_set (external_id customer))
      then err api_import_error
      else if s.use_manual_customer_mapping && not (is_given (mapped_customer customer w))
      then err (not_mapped_customer (external_id customer))
      else ok w

  -- `get_customer` has set the contact of the proxy.
  abbrev pub looked_up : Option Proxy → World → World
  looked_up none w = w
  looked_up (some p) w = record w { partner_id = id_of (mapped_customer (some p) w) }

  abbrev pub validate_for_sales_orders : Option Proxy → World → Result Error World
  validate_for_sales_orders customer w =
      if not (is_given customer) && not (is_given s.default_customer)
      then err api_import_error
      else if not s.use_manual_customer_mapping
      then ok w
      else if is_given (mapped_customer customer w) || not (is_set (external_id customer))
      then ok (looked_up customer w)
      else err (not_mapped_customer (external_id customer))

  unfoldable pub validate_data : Bool → Option Proxy → World → Result Error World
  validate_data is_initial_import customer w =
      if is_initial_import
      then validate_for_initial_import customer w
      else validate_for_sales_orders customer w

  -- get_customer() of the manual mapping, which raises
  abbrev pub customer_or_raise :
      Proxy → Option Partner → World → Result Error (Option Partner × World)
  customer_or_raise p none w = err (not_mapped_from_external p.external_id)
  customer_or_raise p (some q) w = ok (some q, record w { partner_id = some q.id })

  abbrev pub some_customer : Partner × World → Result Error (Option Partner × World)
  some_customer r = ok (some r.0, r.1)

  abbrev pub customer_of : Option Proxy → World → Result Error (Option Partner × World)
  customer_of none w = ok (browse s.default_customer w, w)
  customer_of (some p) w =
      if s.use_manual_customer_mapping
      then customer_or_raise p (mapped_customer (some p) w) w
      else (get_or_create_partner o s p w >>= some_customer)

  -- Each proxy keeps what it has found for itself.
  abbrev pub fresh_proxy : World → World
  fresh_proxy w = record w { company_partner = none; partner_id = none; is_vat_verified = true }

  -- The customer of the factory is the contact of its customer proxy.
  abbrev pub factory_customer : Option Proxy → World → Option ℕ
  factory_customer none w = none
  factory_customer (some p) w = w.partner_id

  abbrev pub address_or :
      Option Proxy → Option ℕ → Option Partner → World → Result Error (Option Partner × World)
  address_or none owner customer w = ok (customer, w)
  address_or (some p) owner customer w =
      get_or_create_address o s p (browse owner w) (fresh_proxy w)

  abbrev pub addresses_of : List Proxy → Option Partner × World → Result Error (Contacts × World)
  addresses_of proxies (customer, w) =
      let owner : Option ℕ = factory_customer (proxy_with_type o "customer" proxies) w in
      address_or (proxy_with_type o "billing_address" proxies) owner customer w >>= λ b.
      address_or (proxy_with_type o "shipping_address" proxies) owner customer b.1 >>= λ d.
      ok (record { customer = customer; billing = b.0; shipping = d.0 }, d.1)

  unfoldable pub get_partner_and_addresses :
      Bool → List Proxy → World → Result Error (Contacts × World)
  unfolding validate_data
  get_partner_and_addresses is_initial_import proxies w =
      validate_data is_initial_import (proxy_with_type o "customer" proxies) w
      >>= customer_of (proxy_with_type o "customer" proxies)
      >>= addresses_of proxies
