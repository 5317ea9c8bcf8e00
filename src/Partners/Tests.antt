-- ===== src/Partners/Tests.antt =====
-- An order whose mapped contact is of another company.
use jean_fourche.Base.{ℕ, ◌≡◌, Option, true, false, refl, none, some, List, [], ◌∷◌}
use jean_fourche.Base.Result.{ok, Holds, ◌>>=◌}
use jean_fourche.Partners.Records.{Partner, Proxy, Settings}
use jean_fourche.Partners.Proxy.{World}
use jean_fourche.Partners.Contact.{get_or_create_partner}
use jean_fourche.Partners.Address.{get_or_create_address}
use jean_fourche.Partners.Company.{IsConfigured}
use jean_fourche.Partners.Mapped.{IsUsable}
use jean_fourche.Partners.Usable.{get_or_create_partner-IsUsable}
use jean_fourche.Partners.Addressed.{Belonging, get_or_create_address-Belongs}
use jean_fourche.Partners.Contacts.{get_partner_and_addresses-Belonging}
use jean_fourche.Partners.Factory.{get_partner_and_addresses}
use jean_fourche.Partners.Data.{Data, get_text, proxy_calls}
use jean_fourche.Partners.Kept.{IsCustomerFirst, proxy_calls_lem}
use jean_fourche.Partners.Domain.{
  collect_partner_search_domain, collect_company_search_domain, collect_address_search_domain,
}
use jean_fourche.Partners.Proxy.{
  prepare_partner_vals, get_or_create_company_contact, prepare_company_vals, get_vat,
  find_odoo_country, find_odoo_state, write_address_fields_if_empty,
}
use jean_fourche.Partners.Contact.{
  get_compatible_mapped_partner, is_mapping_compatible, search_or_create_partner, configure_partner,
}
use jean_fourche.Partners.Address.{prepare_address_vals, changed_fields}
use jean_fourche.Partners.Factory.{validate_data}
use jean_fourche.Partners.Memory.{memory, memory-Laws}

abbrev settings : Settings
settings = record {
  company_id = 1;
  skip_individual_contacts = false;
  use_manual_customer_mapping = false;
  pricelist_integration = false;
  ignore_vat_validation = false;
  use_vat_only_company_search = true;
  search_customer_fields = [];
  customer_personal_id_field = none;
  customer_company_vat_field = some "vat";
  default_customer = none;
}

abbrev proxy : Proxy
proxy = record {
  type = "customer";
  external_id = "gid-7";
  pricelist_id = "";
  person_name = "Ann  Lee";
  email = "ann@shop.test";
  phone = "";
  phone_sanitized = "";
  mobile = "";
  language = "";
  person_id_number = "";
  company_name = "Shop";
  company_reg_number = "FR 1-2";
  street = "Main 1";
  street2 = "";
  city = "Lyon";
  country = "FR";
  country_code = "";
  state = "";
  state_code = "";
  zip = "69000";
}

-- The mapped contact 7 is of the company 2.
abbrev world : World
world = record {
  partners =
      (record {
        id = 7;
        active = true;
        is_company = false;
        parent_id = none;
        company_id = some 2;
        type = "contact";
        columns = [];
      })
      ∷ [];
  next_id = 8;
  company_partner = none;
  partner_id = none;
  is_vat_verified = true;
  mapping = some (some 7);
  external_partner = some (7 ∷ []);
  pricelists = [];
}

settings-IsConfigured : IsConfigured settings
settings-IsConfigured = ((refl, refl), tt)

get_or_create_partner-IsUsable_example :
    Holds (λ r. IsUsable settings proxy r.0) (get_or_create_partner memory settings proxy world)
get_or_create_partner-IsUsable_example =
    get_or_create_partner-IsUsable memory settings proxy memory-Laws settings-IsConfigured world
      refl

get_or_create_address-Belongs_example :
    Holds
      (λ r. Belonging 1 r.0)
      (get_or_create_address memory settings proxy
        (some (record {
          id = 7;
          active = true;
          is_company = false;
          parent_id = none;
          company_id = some 2;
          type = "contact";
          columns = [];
        }))
        world)
get_or_create_address-Belongs_example =
    get_or_create_address-Belongs memory settings proxy memory-Laws settings-IsConfigured
      (some (record {
        id = 7;
        active = true;
        is_company = false;
        parent_id = none;
        company_id = some 2;
        type = "contact";
        columns = [];
      }))
      world refl

abbrev proxies : List Proxy
proxies = proxy ∷ record proxy { type = "billing_address"; street = "Main 2" } ∷ []

get_partner_and_addresses-Belonging_example :
    Holds
      (λ r. Belonging 1 r.0.customer × Belonging 1 r.0.billing × Belonging 1 r.0.shipping)
      (get_partner_and_addresses memory settings false proxies world)
get_partner_and_addresses-Belonging_example =
    get_partner_and_addresses-Belonging memory settings memory-Laws settings-IsConfigured false
      proxies proxy world refl refl refl

abbrev customer_data : Data
customer_data = ("email", some "Ann@shop.test") ∷ ("person_name", some "Ann") ∷ []

abbrev billing_data : Data
billing_data =
    ("id", some "b1")
    ∷ ("email", some "ann@shop.test")
    ∷ ("person_name", some "ANN")
    ∷ ("city", some "Lyon")
    ∷ []

proxy_calls_lem_example :
    IsCustomerFirst "id" none
      (get_text "id" none (("id", some "c1") ∷ customer_data))
      (proxy_calls (some (("id", some "c1") ∷ customer_data)) (some billing_data) none)
proxy_calls_lem_example =
    proxy_calls_lem "id" none ("id", some "c1") customer_data (some billing_data) none refl

abbrev ids : Option Partner → Option ℕ
ids none = none
ids (some q) = some q.id

-- The mapped contact is passed over: a company and a contact are made, and an address for the bill.
made :
    (get_partner_and_addresses memory settings false proxies world >>= λ r.
    ok (ids r.0.customer ∷ ids r.0.billing ∷ []))
    ≡ ok (some 9 ∷ some 10 ∷ [])
unfolding get_partner_and_addresses validate_data get_or_create_partner
    get_compatible_mapped_partner is_mapping_compatible search_or_create_partner
    prepare_partner_vals get_or_create_company_contact prepare_company_vals get_vat
    find_odoo_country find_odoo_state write_address_fields_if_empty configure_partner
    get_or_create_address prepare_address_vals changed_fields collect_partner_search_domain
    collect_company_search_domain collect_address_search_domain
made = refl

-- Without a valid customer the order has the default customer, and its billing address is none at all.
no_billing :
    (get_partner_and_addresses memory
        (record settings { default_customer = some 7 })
        false
        (record proxy { type = "billing_address" } ∷ [])
        world
      >>= λ r. ok (ids r.0.customer ∷ ids r.0.billing ∷ ids r.0.shipping ∷ []))
    ≡ ok (some 7 ∷ none ∷ some 7 ∷ [])
unfolding get_partner_and_addresses validate_data get_or_create_address
no_billing = refl
