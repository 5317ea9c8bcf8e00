-- ===== src/Partners/Contacts.antt =====
-- The contacts that the factory gives an order.
use mathlib.Core.Path.{subst}
use jean_fourche.Base.{
  ℕ, Bool, false, not, ◌&&◌, ◌||◌, ◌≡◌, refl, sym, Option, none, some, List, if◌then◌else◌, arith,
}
use jean_fourche.Base.Result.{Result, ok, err, ◌>>=◌, Holds, Holds-bind, Holds-if}
use jean_fourche.Partners.Records.{Partner, Proxy, Settings, is_set}
use jean_fourche.Partners.Odoo.{Odoo, Error, Laws}
use jean_fourche.Partners.Proxy.{World, browse}
use jean_fourche.Partners.Contact.{get_or_create_partner}
use jean_fourche.Partners.Company.{IsConfigured}
use jean_fourche.Partners.Mapped.{IsUsable}
use jean_fourche.Partners.Usable.{get_or_create_partner-IsUsable}
use jean_fourche.Partners.Addressed.{Belonging, get_or_create_address-Belongs}
use jean_fourche.Partners.Factory.{
  external_id, mapped_customer, validate_for_initial_import, looked_up, validate_for_sales_orders,
  validate_data, customer_of, customer_or_raise, some_customer, fresh_proxy, factory_customer,
  address_or, Contacts, addresses_of, get_partner_and_addresses, proxy_with_type,
}
use jean_fourche.Partners.Odoo.{api_import_error, not_mapped_customer}
use jean_fourche.Partners.Contact.{is_given}

module _ (o : Odoo) (s : Settings) (laws : Laws o) (h : IsConfigured s) where
  abbrev IsFresh : World → Type 0
  IsFresh w = w.company_partner ≡ none

  looked_up-IsFresh :
      (customer : Option Proxy) (w : World) → IsFresh w → IsFresh (looked_up o s customer w)
  looked_up-IsFresh none w f = f
  looked_up-IsFresh (some p) w f = f

  validate_for_initial_import-IsFresh :
      (customer : Option Proxy) (w : World)
      → IsFresh w
      → Holds IsFresh (validate_for_initial_import o s customer w)
  validate_for_initial_import-IsFresh customer w f =
      Holds-if {E = Error} IsFresh (not (is_set (external_id o s customer))) (err api_import_error)
        mapped (λ _. tt {0})
        (λ _.
          Holds-if {E = Error} IsFresh
            (s.use_manual_customer_mapping && not (is_given (mapped_customer o s customer w)))
            (err (not_mapped_customer (external_id o s customer))) (ok w) (λ _. tt {0}) (λ _. f))
    where
      mapped : Result Error World
      mapped =
          if s.use_manual_customer_mapping && not (is_given (mapped_customer o s customer w))
          then err (not_mapped_customer (external_id o s customer))
          else ok w

  validate_for_sales_orders-IsFresh :
      (customer : Option Proxy) (w : World)
      → IsFresh w
      → Holds IsFresh (validate_for_sales_orders o s customer w)
  validate_for_sales_orders-IsFresh customer w f =
      Holds-if {E = Error} IsFresh (not (is_given customer) && not (is_given s.default_customer))
        (err api_import_error) by_mode (λ _. tt {0})
        (λ _.
          Holds-if {E = Error} IsFresh (not s.use_manual_customer_mapping) (ok w) by_mapping
            (λ _. f)
            (λ _.
              Holds-if {E = Error} IsFresh
                (is_given (mapped_customer o s customer w)
                  || not (is_set (external_id o s customer)))
                (ok (looked_up o s customer w))
                (err (not_mapped_customer (external_id o s customer)))
                (λ _. looked_up-IsFresh customer w f) (λ _. tt {0})))
    where
      by_mapping : Result Error World
      by_mapping =
          if is_given (mapped_customer o s customer w) || not (is_set (external_id o s customer))
          then ok (looked_up o s customer w)
          else err (not_mapped_customer (external_id o s customer))

      by_mode : Result Error World
      by_mode = if not s.use_manual_customer_mapping then ok w else by_mapping

  validate_data-IsFresh :
      (initial : Bool) (customer : Option Proxy) (w : World)
      → IsFresh w
      → Holds IsFresh (validate_data o s initial customer w)
  unfolding validate_data
  validate_data-IsFresh initial customer w f =
      Holds-if {E = Error} IsFresh initial (validate_for_initial_import o s customer w)
        (validate_for_sales_orders o s customer w)
        (λ _. validate_for_initial_import-IsFresh customer w f)
        (λ _. validate_for_sales_orders-IsFresh customer w f)

  abbrev IsGiven : Option Partner × World → Type 0
  IsGiven r = Belonging s.company_id r.0

  customer_of-IsGiven :
      (p : Proxy) (w : World)
      → s.use_manual_customer_mapping ≡ false
      → IsFresh w
      → Holds IsGiven (customer_of o s (some p) w)
  customer_of-IsGiven p w m f =
      Holds-if {E = Error} IsGiven s.use_manual_customer_mapping
        (customer_or_raise o s p (mapped_customer o s (some p) w) w)
        (get_or_create_partner o s p w >>= some_customer o s) (λ t. absurd (ground arith))
        (λ _.
          Holds-bind IsGiven (λ r. IsUsable s p r.0) (get_or_create_partner o s p w)
            (some_customer o s) (get_or_create_partner-IsUsable o s p laws h w f) (λ r u. u.0))

  address_or-IsGiven :
      (p : Option Proxy) (owner : Option ℕ) (customer : Option Partner) (w : World)
      → Belonging s.company_id customer
      → Holds IsGiven (address_or o s p owner customer w)
  address_or-IsGiven none owner customer w b = b
  address_or-IsGiven (some p) owner customer w b =
      get_or_create_address-Belongs o s p laws h (browse owner w) (fresh_proxy o s w) refl

  abbrev AllGiven : Contacts × World → Type 0
  AllGiven r =
      Belonging s.company_id r.0.customer
      × Belonging s.company_id r.0.billing
      × Belonging s.company_id r.0.shipping

  addresses_of-AllGiven :
      (proxies : List Proxy) (r : Option Partner × World)
      → IsGiven r
      → Holds AllGiven (addresses_of o s proxies r)
  addresses_of-AllGiven proxies (customer, w) g =
      Holds-bind AllGiven IsGiven (address_or o s billing owner customer w) with_billing
        (address_or-IsGiven billing owner customer w g)
        (λ b i.
          Holds-bind AllGiven IsGiven (address_or o s shipping owner customer b.1) (with_both b)
            (address_or-IsGiven shipping owner customer b.1 g) (λ d j. (g, i, j)))
    where
      owner : Option ℕ
      owner = factory_customer o s (proxy_with_type o "customer" proxies) w

      billing : Option Proxy
      billing = proxy_with_type o "billing_address" proxies

      shipping : Option Proxy
      shipping = proxy_with_type o "shipping_address" proxies

      with_both : Option Partner × World → Option Partner × World → Result Error (Contacts × World)
      with_both b d = ok (record { customer = customer; billing = b.0; shipping = d.0 }, d.1)

      with_billing : Option Partner × World → Result Error (Contacts × World)
      with_billing b = address_or o s shipping owner customer b.1 >>= with_both b

  -- The customer, the billing and the shipping address that an order is given, if it has a customer's
  -- data and the store does not map customers by hand, each belong to the company of the store or to
  -- none. The first proxy has kept no company contact before, the database does what its documentation
  -- says, and the fields that the store has configured are neither the company nor the kind.
  pub get_partner_and_addresses-Belonging :
      (initial : Bool) (proxies : List Proxy) (p : Proxy) (w : World)
      → proxy_with_type o "customer" proxies ≡ some p
      → s.use_manual_customer_mapping ≡ false
      → w.company_partner ≡ none
      → Holds
          (λ r.
            Belonging s.company_id r.0.customer
            × Belonging s.company_id r.0.billing
            × Belonging s.company_id r.0.shipping)
          (get_partner_and_addresses o s initial proxies w)
  unfolding get_partner_and_addresses
  get_partner_and_addresses-Belonging initial proxies p w e m f =
      Holds-bind AllGiven IsGiven (validate_data o s initial given w >>= customer_of o s given)
        (addresses_of o s proxies)
        (Holds-bind IsGiven IsFresh (validate_data o s initial given w) (customer_of o s given)
          (validate_data-IsFresh initial given w f)
          (λ v g.
            subst (λ c. Holds IsGiven (customer_of o s c v)) (sym e) (customer_of-IsGiven p v m g)))
        (addresses_of-AllGiven proxies)
    where
      given : Option Proxy
      given = proxy_with_type o "customer" proxies
