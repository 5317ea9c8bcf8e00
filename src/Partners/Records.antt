-- ===== src/Partners/Records.antt =====
-- Contacts, the values that they are written with, the proxy of a contact of an order, and the
-- settings of the store that its handling reads.
use text.Mathlib.Text.{◌==◌ as str_eq}
use jean_fourche.Base.{
  ℕ, String, Bool, true, false, not, Option, none, some, List, [], ◌∷◌, if◌then◌else◌,
}

-- What a key of a dict of values has: False, True, a text, the id of a record, or several.
pub data Value : Type 0 where
  no yes : Value
  char : String → Value
  ref : ℕ → Value
  refs : List ℕ → Value

abbrev pub Vals : Type 0
Vals = List (String × Value)

abbrev pub truthy : Value → Bool
truthy no = false
truthy (char s) = not (str_eq s "")
truthy _ = true

-- values.get(key, '')
abbrev pub get_val : String → Vals → Value
get_val key [] = char ""
get_val key ((k, v) ∷ vals) = if str_eq k key then v else get_val key vals

-- values[key] = value
abbrev pub set_val : String → Value → Vals → Vals
set_val key value [] = (key, value) ∷ []
set_val key value ((k, v) ∷ vals) =
    if str_eq k key then (k, value) ∷ vals else (k, v) ∷ set_val key value vals

abbrev pub set_vals : Vals → Vals → Vals
set_vals [] vals = vals
set_vals ((k, v) ∷ new) vals = set_vals new (set_val k v vals)

-- values.pop(key, '')
abbrev pub pop_val : String → Vals → Vals
pop_val key [] = []
pop_val key ((k, v) ∷ vals) =
    let rest = pop_val key vals in if str_eq k key then vals else (k, v) ∷ rest

abbrev pub set_some : String → Option ℕ → Vals → Vals
set_some key none vals = vals
set_some key (some i) vals = set_val key (ref i) vals

-- Under `columns`, the fields that hold texts, the country and the state, and those that a store has
-- configured.
pub record Partner : Type 0 where
  pub id : ℕ
  pub active : Bool
  pub is_company : Bool
  pub parent_id : Option ℕ
  pub company_id : Option ℕ
  pub type : String
  pub columns : Vals

-- An empty text is a field that is not set.
pub record Proxy : Type 0 where
  pub type : String
  pub external_id : String
  pub pricelist_id : String
  pub person_name : String
  pub email : String
  pub phone : String
  pub phone_sanitized : String
  pub mobile : String
  pub language : String
  pub person_id_number : String
  pub company_name : String
  pub company_reg_number : String
  pub street : String
  pub street2 : String
  pub city : String
  pub country : String
  pub country_code : String
  pub state : String
  pub state_code : String
  pub zip : String

pub record Settings : Type 0 where
  pub company_id : ℕ
  pub skip_individual_contacts : Bool
  pub use_manual_customer_mapping : Bool
  pub pricelist_integration : Bool
  pub ignore_vat_validation : Bool
  pub use_vat_only_company_search : Bool
  pub search_customer_fields : List String
  pub customer_personal_id_field : Option String
  pub customer_company_vat_field : Option String
  pub default_customer : Option ℕ

abbrev pub is_set : String → Bool
is_set s = not (str_eq s "")

-- ADDRESS_MATCH_SIMPLE_FIELDS, with what the proxy has for each.
abbrev pub simple_fields : Proxy → Vals
simple_fields p =
    ("street", char p.street)
    ∷ ("street2", char p.street2)
    ∷ ("city", char p.city)
    ∷ ("zip", char p.zip)
    ∷ ("email", char p.email)
    ∷ ("phone", char p.phone)
    ∷ ("mobile", char p.mobile)
    ∷ []
