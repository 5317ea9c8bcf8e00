-- ===== src/Orders/Env.antt =====
-- What the making of an order calls, and what it reads and writes:
-- integration/models/integration_sale_order_factory.py.
use jean_fourche.Base.{ℕ, String, Option, List}
use jean_fourche.Base.Int.{ℤ}
use jean_fourche.Base.Result.{Result}
use jean_fourche.Mappings.Records.{ExternalRecord, Db}
use jean_fourche.Partners.Records.{Partner}
use jean_fourche.Partners.Proxy.{World as ContactsWorld}
use jean_fourche.Workflow.Steps.{SubStatus}
use jean_fourche.Orders.Data.{Error, Tax, CarrierData, Line, Order, Pricelist}

-- Odoo and the store's adapter. C is the catalog: products, taxes, carriers, statuses and transactions
-- with their mappings, which an import extends.
pub record Env (C : Type 0) : Type 0 where
  pub variant_of : C → String → Option ℕ
  pub template_code : String → String
  -- The codes of the variants, if the template is there.
  pub import_external_product : String → C → Result Error (Option (List String) × C)
  pub import_product : String → C → Result Error C
  pub tax_of : C → String → Option Tax
  pub import_external_tax : String → C → Result Error (Option Tax × C)
  pub carrier_of : C → String → Option ℕ
  pub import_external_carrier : CarrierData → C → Result Error (Option ℕ × C)
  pub status_of : C → String → Option ℕ
  -- The external record of a status, and what it switches on.
  pub status_record : C → String → Option (ℕ × SubStatus)
  pub import_statuses : C → Result Error C
  pub transaction_of : String → C → Result Error (ℕ × C)
  pub taxes_of_product : ℕ → List Tax
  pub display_name : ℕ → String
  -- In a language, if there is one.
  pub sale_description : Option String → ℕ → String
  pub translated : Option String → String → String → String
  pub lang_of : Option ℕ → Option String
  -- The name of the currency that matches a code.
  pub currency_of : String → Option String
  pub partner_pricelist : ContactsWorld → Partner → Option Pricelist
  pub payment_term : ExternalRecord → Option ℕ
  pub fiscal_position : Option ℕ → Option ℕ → Option ℕ
  pub update_taxes : ℕ → List Line → List Line
  -- The other lines, and the delivery line that is appended to them.
  pub set_delivery_line : ℕ → ℤ → List Line → List Line × Option Line
  -- The name of an order that is made without one.
  pub sequence_name : ℕ → String
  pub set_zero_time_zone : String → String
  -- What the price list takes off a line of the product that has no discount of its own, in percent.
  pub pricelist_discount : ℕ → ℕ
  pub order_total : List Line → ℤ
  pub external_fields : List (String × String)

pub record PaymentMethod : Type 0 where
  pub id : ℕ
  pub name : String
  pub integration_id : ℕ

-- The payment methods, pricelists and orders with the ids that are given next, and the mappings of
-- the payment methods and of the orders.
pub record World (C : Type 0) : Type 0 where
  pub catalog : C
  pub contacts : ContactsWorld
  pub pricelists : List Pricelist
  pub next_pricelist : ℕ
  pub payment_methods : List PaymentMethod
  pub next_payment_method : ℕ
  pub method_mappings : Db
  pub orders : List Order
  pub next_order : ℕ
  pub order_mappings : Db
