-- ===== src/Orders/Sample.antt =====
-- A sample order with a discount, of a contact that is set by default.
use jean_fourche.Base.{String, true, false, none, some, List, [], ◌∷◌}
use jean_fourche.Base.Int.{pos}
use jean_fourche.Mappings.Records.{Db}
use jean_fourche.Partners.Records.{Settings as ContactSettings}
use jean_fourche.Partners.Proxy.{World as ContactsWorld}
use jean_fourche.Orders.Data.{LineData, OrderData, EmptyTaxPolicy, Settings}
use jean_fourche.Orders.Env.{World}

abbrev pub settings : Settings
settings = record {
  id = 1;
  company_id = 1;
  company_currency = "EUR";
  separate_discount_line = true;
  use_order_total_difference_correction = true;
  update_fiscal_position = false;
  auto_create_products_on_so = true;
  fallback_product_id = none;
  discount_product_id = some 800;
  gift_wrapping_product_id = none;
  positive_price_difference_product_id = some 801;
  negative_price_difference_product_id = some 802;
  behavior_on_empty_tax = EmptyTaxPolicy.take_from_product;
  zero_tax_id = none;
  use_odoo_so_numbering = false;
  order_name_ref = "SHOP-";
  so_external_reference_field = none;
  has_delivery_note_field = true;
  default_sales_team_id = none;
  default_sales_person_id = none;
  keep_sales_person_empty = true;
}

abbrev pub contact_settings : ContactSettings
contact_settings = record {
  company_id = 1;
  skip_individual_contacts = false;
  use_manual_customer_mapping = false;
  pricelist_integration = false;
  ignore_vat_validation = false;
  use_vat_only_company_search = true;
  search_customer_fields = [];
  customer_personal_id_field = none;
  customer_company_vat_field = none;
  default_customer = some 7;
}

abbrev pub contacts : ContactsWorld
contacts = record {
  partners =
      (record {
        id = 7;
        active = true;
        is_company = false;
        parent_id = none;
        company_id = some 1;
        type = "contact";
        columns = [];
      })
      ∷ [];
  next_id = 8;
  company_partner = none;
  partner_id = none;
  is_vat_verified = true;
  mapping = none;
  external_partner = none;
  pricelists = [];
}

abbrev pub no_mappings : Db
no_mappings = record {
  externals = [];
  mappings = [];
  next_external = 1;
  next_mapping = 1;
  requeued = [];
}

abbrev pub world : World (List String)
world = record {
  catalog = [];
  contacts = contacts;
  pricelists = [];
  next_pricelist = 1;
  payment_methods = [];
  next_payment_method = 1;
  method_mappings = no_mappings;
  orders = [];
  next_order = 40;
  order_mappings = no_mappings;
}

-- Two lamps of 10 with a discount of 3.
abbrev pub lamps : LineData
lamps = record {
  id = "l1";
  product_id = "7-1";
  odoo_variant_id = none;
  name = "Lamp";
  reference = "LMP";
  product_uom_qty = some 2;
  price_unit = pos 10;
  price_unit_tax_incl = some (pos 12);
  taxes = "20" ∷ [];
  discount =
      some (record {
        discount_amount = pos 3;
        discount_amount_tax_incl = none;
        discount_percent = 15;
      });
  coupon = "";
  add_description_list = [];
  external_location_id = "";
}

abbrev pub shade : LineData
shade = record lamps { id = "l2"; product_id = "8-1"; discount = none; product_uom_qty = none }

abbrev pub order_data : OrderData
order_data = record {
  id = "1001";
  ref = "A1";
  is_cancelled = false;
  amount_total = some (pos 40);
  customer = none;
  billing = none;
  shipping = none;
  date_order = "2024-01-01";
  current_order_state = "paid";
  currency = "EUR";
  integration_workflow_states = "paid" ∷ [];
  payment_transactions = "t1" ∷ [];
  payment_method = "card";
  lines = lamps ∷ shade ∷ [];
  delivery_data = record {
    carrier = some (record { id = "post"; name = "Post"; is_pickup_point = true });
    shipping_cost = pos 5;
    shipping_cost_tax_excl = some (pos 4);
    taxes = "20" ∷ [];
    carrier_tax_rate = none;
    discount = none;
    delivery_notes = " at the door ";
  };
  gift_data = record {
    do_gift_wrapping = false;
    wrapping_tax_ids = [];
    total_wrapping_tax_incl = pos 0;
    total_wrapping_tax_excl = pos 0;
    gift_message = "";
  };
}
