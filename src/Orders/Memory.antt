-- ===== src/Orders/Memory.antt =====
-- A small store and a small Odoo: the catalog is the list of the codes that were imported.
use Prim.Native.String.{◌++◌ as text_append}
use text.Mathlib.Text.{◌==◌ as str_eq}
use jean_fourche.Base.{
  arith, ℕ, zero, suc, String, Bool, true, false, ◌||◌, ◌≡◌, refl, none, some, List, [], ◌∷◌, ◌++◌,
  any, if◌then◌else◌,
}
use jean_fourche.Base.Int.{ℤ, pos, ◌+ℤ◌}
use jean_fourche.Base.Result.{ok}
use jean_fourche.Workflow.Steps.{SubStatus}
use jean_fourche.Orders.Data.{Tax, Line}
use jean_fourche.Orders.Env.{Env}
use jean_fourche.Orders.Extras.{plain_line}
use jean_fourche.Orders.Known.{KeepsStatus}
use jean_fourche.Orders.Total.{AddsUntaxed}

abbrev times : ℕ → ℤ → ℤ
times zero a = pos 0
times (suc n) a = times n a +ℤ a

-- Without the taxes, which are part of the prices here.
abbrev amount_of : Line → ℤ
amount_of l = elim l.product_uom_qty [ none ↦ l.price_unit | some n ↦ times n l.price_unit ]

abbrev total_from : ℤ → List Line → ℤ
total_from a [] = a
total_from a (l ∷ ls) = total_from (a +ℤ amount_of l) ls

abbrev tax : Tax
tax = record { id = 20; amount = pos 20; price_include = true; company_id = 1 }

abbrev is_imported : List String → String → Bool
is_imported codes code = any (λ c. str_eq c code) codes

abbrev carrier_line : ℕ → ℤ → Line
carrier_line carrier price = record {
  product_id = 900;
  name = some "Delivery";
  price_unit = price;
  product_uom_qty = some 1;
  discount = none;
  tax_id = [];
  is_delivery = true;
  integration_external_id = "";
  external_location_id = "";
}

abbrev paid : SubStatus
paid = record {
  validate_order = true;
  validate_picking = false;
  create_invoice = true;
  validate_invoice = true;
  send_invoice = false;
  register_payment = false;
  invoice_journal = true;
}

abbrev pub memory : Env (List String)
memory = record {
  variant_of = λ c code. if is_imported c code || str_eq code "7-1" then some 71 else none;
  template_code = λ code. code;
  import_external_product = λ code c. ok (some (code ∷ []), c);
  import_product = λ code c. ok (code ∷ c);
  tax_of = λ c code. if str_eq code "20" then some tax else none;
  import_external_tax = λ code c. ok (some tax, c);
  carrier_of = λ c code. if str_eq code "post" then some 5 else none;
  import_external_carrier = λ d c. ok (none, c);
  status_of = λ c code. if is_imported c "statuses" || str_eq code "paid" then some 3 else none;
  status_record =
      λ c code. if is_imported c "statuses" || str_eq code "paid" then some (30, paid) else none;
  import_statuses = λ c. ok ("statuses" ∷ c);
  transaction_of = λ t c. ok (8, c);
  taxes_of_product = λ p. tax ∷ [];
  display_name = λ p. "Lamp";
  sale_description = λ lang p. "A lamp";
  translated = λ lang source argument. text_append source argument;
  lang_of = λ p. none;
  currency_of = λ code. if str_eq code "EUR" then some "EUR" else none;
  partner_pricelist = λ w p. none;
  payment_term = λ e. none;
  fiscal_position = λ partner delivery. none;
  update_taxes = λ p ls. ls;
  set_delivery_line = λ carrier price ls. (ls, some (carrier_line carrier price));
  sequence_name = λ n. "S0001";
  set_zero_time_zone = λ date. date;
  pricelist_discount = λ p. 0;
  order_total = total_from (pos 0);
  external_fields = [];
}

pub memory-AddsUntaxed : AddsUntaxed memory
memory-AddsUntaxed ls product price _ = from (pos 0) ls
  where
    from :
        (a : ℤ) (ls : List Line)
        → total_from a (ls ++ plain_line product [] price ∷ []) ≡ total_from a ls +ℤ price
    from a [] = refl
    from a (l ∷ ls) = from (a +ℤ amount_of l) ls

pub memory-KeepsStatus : KeepsStatus memory
memory-KeepsStatus = record {
  status-record = λ c code id h. its_record c code id h;
  transaction-keeps = λ c code x t h. h;
  tax-keeps = λ c code x t h. h;
  carrier-keeps = λ c code x d h. h;
}
  where
    its_record :
        (c : List String) (code : String) (id : ℕ)
        → memory.status_of c code ≡ some id
        → (x : ℕ × SubStatus) × (memory.status_record c code ≡ some x)
    its_record c code id h = ((30, paid), ground (arith, h))
