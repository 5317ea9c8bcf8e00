-- ===== src/Orders/Data.antt =====
-- The data of an order, the sales order that is made of it, and what the making calls:
-- integration/models/integration_sale_order_factory.py.
use jean_fourche.Base.{ℕ, String, Bool, Option, List}
use jean_fourche.Base.Int.{ℤ}
use jean_fourche.Partners.Data.{Data}
use jean_fourche.Partners.Odoo.{Error as ContactError}
use jean_fourche.Mappings.Records.{Error as MappingError}
use jean_fourche.Workflow.Pipeline.{Error as FileError}

pub data Error : Type 0 where
  not_found_external_product api_import_error : Error
  user_error validation_error expected_singleton : Error
  not_mapped_from_external : String → Error
  contact : ContactError → Error
  mapping : MappingError → Error
  file : FileError → Error

pub record Tax : Type 0 where
  pub id : ℕ
  pub amount : ℤ
  pub price_include : Bool
  pub company_id : ℕ

-- The dict of a discount; the key with taxes may be missing or zero.
pub record Discount : Type 0 where
  pub discount_amount : ℤ
  pub discount_amount_tax_incl : Option ℤ
  pub discount_percent : ℕ

-- A line of the store. An empty dict of a discount is none.
pub record LineData : Type 0 where
  pub id : String
  pub product_id : String
  pub odoo_variant_id : Option ℕ
  pub name : String
  pub reference : String
  pub product_uom_qty : Option ℕ
  pub price_unit : ℤ
  pub price_unit_tax_incl : Option ℤ
  pub taxes : List String
  pub discount : Option Discount
  pub coupon : String
  pub add_description_list : List String
  pub external_location_id : String

pub record CarrierData : Type 0 where
  pub id : String
  pub name : String
  pub is_pickup_point : Bool

pub record DeliveryData : Type 0 where
  pub carrier : Option CarrierData
  pub shipping_cost : ℤ
  pub shipping_cost_tax_excl : Option ℤ
  pub taxes : List String
  pub carrier_tax_rate : Option ℕ
  pub discount : Option Discount
  pub delivery_notes : String

pub record GiftData : Type 0 where
  pub do_gift_wrapping : Bool
  pub wrapping_tax_ids : List String
  pub total_wrapping_tax_incl : ℤ
  pub total_wrapping_tax_excl : ℤ
  pub gift_message : String

pub record OrderData : Type 0 where
  pub id : String
  pub ref : String
  pub is_cancelled : Bool
  pub amount_total : Option ℤ
  pub customer : Option Data
  pub billing : Option Data
  pub shipping : Option Data
  pub date_order : String
  pub current_order_state : String
  pub currency : String
  pub integration_workflow_states : List String
  pub payment_transactions : List String
  pub payment_method : String
  pub lines : List LineData
  pub delivery_data : DeliveryData
  pub gift_data : GiftData

-- A line of a sales order. A name that is not given is the product's own, a quantity that is not given
-- is one, and a discount that is not given is that of the price list.
pub record Line : Type 0 where
  pub product_id : ℕ
  pub name : Option String
  pub price_unit : ℤ
  pub product_uom_qty : Option ℕ
  pub discount : Option ℕ
  pub tax_id : List Tax
  pub is_delivery : Bool
  pub integration_external_id : String
  pub external_location_id : String

pub record Order : Type 0 where
  pub id : ℕ
  pub name : String
  pub integration_amount_total : Option ℤ
  pub partner_id : Option ℕ
  pub partner_shipping_id : Option ℕ
  pub partner_invoice_id : Option ℕ
  pub external_reference : Option (String × String)
  pub date_order : Option String
  pub sub_status_id : Option ℕ
  pub pricelist_id : Option ℕ
  pub team_id : Option ℕ
  pub user_id : Option (Option ℕ)
  pub fiscal_position_id : Option ℕ
  pub payment_method_id : Option ℕ
  pub payment_term_id : Option ℕ
  pub external_payment_ids : List ℕ
  pub external_fields : List (String × String)
  pub order_line : List Line
  pub show_update_fpos : Bool
  pub delivery_notes : String

pub data EmptyTaxPolicy : Type 0 where
  leave_empty set_special_tax take_from_product : EmptyTaxPolicy

pub record Settings : Type 0 where
  pub id : ℕ
  pub company_id : ℕ
  pub company_currency : String
  pub separate_discount_line : Bool
  pub use_order_total_difference_correction : Bool
  pub update_fiscal_position : Bool
  pub auto_create_products_on_so : Bool
  pub fallback_product_id : Option ℕ
  pub discount_product_id : Option ℕ
  pub gift_wrapping_product_id : Option ℕ
  pub positive_price_difference_product_id : Option ℕ
  pub negative_price_difference_product_id : Option ℕ
  pub behavior_on_empty_tax : EmptyTaxPolicy
  pub zero_tax_id : Option Tax
  pub use_odoo_so_numbering : Bool
  pub order_name_ref : String
  pub so_external_reference_field : Option String
  pub has_delivery_note_field : Bool
  pub default_sales_team_id : Option ℕ
  pub default_sales_person_id : Option ℕ
  pub keep_sales_person_empty : Bool

pub record Pricelist : Type 0 where
  pub id : ℕ
  pub company_id : Option ℕ
  pub currency : String
