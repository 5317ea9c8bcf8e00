-- ===== src/Partners/Data.antt =====
-- The dicts of a customer and of its addresses, from an order to the proxies:
-- integration/models/integration_res_partner_factory.py and integration_res_partner_proxy.py.
-- A value of a dict is a text or None.
use text.Mathlib.Text.{◌==◌ as str_eq}
use jean_fourche.Base.{
  String, Bool, true, false, not, ◌&&◌, Option, none, some, List, [], ◌∷◌, ◌++◌, all, if◌then◌else◌,
}
use jean_fourche.Base.Text.{strip, to_lower}
use jean_fourche.Partners.Records.{is_set}
use jean_fourche.Partners.Domain.{elem_str}

abbrev pub Data : Type 0
Data = List (String × Option String)

abbrev pub filled_text : Option String → Bool
filled_text none = false
filled_text (some s) = is_set s

-- data.get(key, default)
abbrev pub get_text : String → Option String → Data → Option String
get_text key default_ [] = default_
get_text key default_ ((k, v) ∷ d) = if str_eq k key then v else get_text key default_ d

-- data[key] = value
abbrev pub set_text : String → Option String → Data → Data
set_text key v [] = (key, v) ∷ []
set_text key v ((k, u) ∷ d) = if str_eq k key then (k, v) ∷ d else (k, u) ∷ set_text key v d

-- Python's truth of an optional dict.
abbrev pub is_filled : Option Data → Bool
is_filled none = false
is_filled (some []) = false
is_filled (some (kv ∷ d)) = true

abbrev pub fields_to_copy : List String
fields_to_copy =
    "person_name" ∷ "company_name" ∷ "company_reg_number" ∷ "street" ∷ "street2" ∷ "country"
    ∷ "state" ∷ "city" ∷ "country_code" ∷ "state_code" ∷ "zip" ∷ "phone" ∷ "mobile" ∷ []

-- customer_data[field] = billing_data.get(field, '') of every field
abbrev pub copy_fields : List String → Data → Data → Data
copy_fields [] billing customer = customer
copy_fields (f ∷ fs) billing customer =
    copy_fields fs billing (set_text f (get_text f (some "") billing) customer)

-- str(data.get(key, '')).lower()
abbrev pub lowered : String → Data → String
lowered key d = elim (get_text key (some "") d) [ none ↦ "none" | some s ↦ to_lower s ]

abbrev pub same_person : Data → Data → Bool
same_person customer billing =
    str_eq (lowered "email" customer) (lowered "email" billing)
    && str_eq (lowered "person_name" customer) (lowered "person_name" billing)

abbrev pub copy_company : Data → Data → Data
copy_company billing customer =
    if filled_text (get_text "company_name" (some "") billing)
    then copy_fields ("company_name" ∷ "company_reg_number" ∷ "country" ∷ "country_code" ∷ [])
        billing customer
    else customer

unfoldable pub copy_billing : Data → Data → Data
copy_billing billing customer =
    let d : Data = copy_company billing (copy_fields ("person_id_number" ∷ []) billing customer) in
    if same_person d billing then copy_fields fields_to_copy billing d else d

abbrev pub copied : Option Data → Option Data → Option Data
copied none customer = customer
copied billing none = none
copied (some []) (some d) = some d
copied (some (kv ∷ b)) (some d) = some (copy_billing (kv ∷ b) d)

unfoldable pub update_customer_data : Option Data → Option Data → Option Data → Option Data
update_customer_data customer billing shipping =
    if is_filled customer
    then copied billing customer
    else if is_filled billing
    then billing
    else shipping

-- A dict without any value is none.
abbrev pub unless_blank : Option Data → Option Data
unless_blank none = none
unless_blank (some []) = some []
unless_blank (some (kv ∷ d)) =
    if all (λ e. not (filled_text e.1)) (kv ∷ d) then none else some (kv ∷ d)

-- x or y
abbrev pub or_data : Option Data → Option Data → Option Data
or_data x y = if is_filled x then x else y

abbrev pub call_if_filled : String → Option Data → List (String × Data)
call_if_filled type none = []
call_if_filled type (some []) = []
call_if_filled type (some (kv ∷ d)) = (type, kv ∷ d) ∷ []

-- The calls of create_proxy, with the data after they were completed.
abbrev pub calls_of : Option Data → Option Data → Option Data → List (String × Data)
calls_of customer billing shipping =
    call_if_filled "customer" (or_data (update_customer_data customer billing shipping) billing)
    ++ (call_if_filled "billing_address" billing ++ call_if_filled "shipping_address" shipping)

-- The billing address falls back to the shipping address.
unfoldable pub proxy_calls : Option Data → Option Data → Option Data → List (String × Data)
unfolding update_customer_data
proxy_calls customer billing shipping =
    let ship : Option Data = unless_blank shipping in
    calls_of customer (or_data (unless_blank billing) (or_data ship (unless_blank billing))) ship

abbrev pub proxy_fields : List String
proxy_fields =
    "pricelist_id" ∷ "person_name" ∷ "email" ∷ "language" ∷ "person_id_number" ∷ "company_name"
    ∷ "company_reg_number" ∷ "street" ∷ "street2" ∷ "city" ∷ "country" ∷ "country_code" ∷ "state"
    ∷ "state_code" ∷ "phone" ∷ "phone_sanitized" ∷ "mobile" ∷ "other" ∷ "zip" ∷ []

abbrev pub prepare_value : String × Option String → Data → Data
prepare_value (key, none) vals = vals
prepare_value (key, some s) vals =
    if elem_str key proxy_fields && is_set s then set_text key (some (strip s)) vals else vals

abbrev pub prepare_values : Data → Data → Data
prepare_values [] vals = vals
prepare_values (kv ∷ d) vals = prepare_values d (prepare_value kv vals)

-- The text of a key, where None and a missing key are empty.
abbrev pub text_at : String → Data → String
text_at key d = elim (get_text key (some "") d) [ none ↦ "" | some s ↦ s ]

abbrev pub or_text : Option String → String → String
or_text none s = s
or_text (some t) s = if is_set t then t else s
