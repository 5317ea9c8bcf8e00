-- ===== src/Partners/Domain.antt =====
-- The domains by which a contact, a company or an address is searched:
-- integration/models/integration_res_partner_proxy.py.
use text.Mathlib.Text.{◌==◌ as str_eq}
use jean_fourche.Base.{
  String, Bool, true, false, not, ◌&&◌, Option, none, some, List, [], ◌∷◌, ◌++◌, map, filter, any,
  all, if◌then◌else◌,
}
use jean_fourche.Partners.Records.{Value, no, char, Vals, truthy, get_val, Settings, is_set}

pub data Operand : Type 0 where
  one : Value → Operand
  among : List Value → Operand

-- A condition on a field, or two that the operator '|' joins.
pub data Term : Type 0 where
  leaf : String → String → Operand → Term
  either : Term → Term → Term

abbrev pub Criterion : Type 0
Criterion = String × String

abbrev pub mandatory_partner_search_criteria : List Criterion
mandatory_partner_search_criteria =
    ("parent_id", "=") ∷ ("is_company", "=") ∷ ("type", "=") ∷ ("company_id", "in") ∷ []

abbrev pub mandatory_company_search_criteria : List Criterion
mandatory_company_search_criteria =
    ("name", "=ilike") ∷ ("is_company", "=") ∷ ("company_id", "in") ∷ []

abbrev pub mandatory_address_search_criteria : List Criterion
mandatory_address_search_criteria =
    ("name", "=ilike") ∷ ("parent_id", "=") ∷ ("company_id", "in") ∷ []

abbrev pub default_search_customer_fields : List String
default_search_customer_fields = "email" ∷ "name" ∷ "mobile" ∷ "phone" ∷ []

abbrev pub elem_str : String → List String → Bool
elem_str s = any (λ t. str_eq t s)

-- The terms of one criterion, for a value that is not empty.
abbrev pub key_term : String → String → Value → Term
key_term key op value =
    if str_eq key "email"
    then either (leaf key op (one value)) (leaf "email_normalized" "=" (one value))
    else if str_eq key "phone"
    then either (leaf key op (one value)) (leaf "phone_sanitized" "=ilike" (one value))
    else if str_eq key "company_id"
    then leaf key op (among (value ∷ no ∷ []))
    else leaf key op (one value)

-- `escape_psql` of odoo.tools is a parameter.
module _ (escape_psql : String → String) where
  abbrev pub escaped : String → String → Value → List Term
  escaped key op (char s) =
      if str_eq op "=ilike"
      then (if is_set (escape_psql s) then key_term key op (char (escape_psql s)) ∷ [] else [])
      else key_term key op (char s) ∷ []
  escaped key op value = key_term key op value ∷ []

  abbrev pub criterion_terms : Criterion → Vals → List Term
  criterion_terms (key, op) values =
      if truthy (get_val key values)
      then escaped key op (get_val key values)
      else leaf key "in" (among (char "" ∷ no ∷ [])) ∷ []

  abbrev pub build_search_domain : List Criterion → Vals → List Term
  build_search_domain [] values = []
  build_search_domain (c ∷ cs) values = criterion_terms c values ++ build_search_domain cs values

  abbrev pub customer_operator : String → String
  customer_operator field = if elem_str field ("name" ∷ "email" ∷ []) then "=ilike" else "="

  abbrev pub with_value : Vals → List String → List String
  with_value vals = filter (λ field. truthy (get_val field vals))

  abbrev pub same_set : List String → List String → Bool
  same_set xs ys = all (λ x. elem_str x ys) xs && all (λ y. elem_str y xs) ys

  abbrev pub is_empty : List String → Bool
  is_empty [] = true
  is_empty (x ∷ xs) = false

  abbrev pub is_restricted : Settings → Bool
  is_restricted s =
      not (is_empty s.search_customer_fields)
      && not (same_set s.search_customer_fields default_search_customer_fields)

  abbrev pub person_terms : Option String → String → List Term
  person_terms none number = []
  person_terms (some name) number =
      if is_set number then leaf name "=" (one (char number)) ∷ [] else []

  abbrev pub partner_terms : List String → Vals → List Term
  partner_terms fields vals =
      build_search_domain
        (mandatory_partner_search_criteria
          ++ map (λ field. (field, customer_operator field)) fields)
        vals

  -- With the configured fields that have a value. The fields are a set in the source.
  abbrev pub partner_domain : Settings → String → Vals → List String → List Term
  partner_domain s number vals [] =
      if is_restricted s
      then leaf "id" "=" (one no) ∷ []
      else partner_terms (with_value vals default_search_customer_fields) vals
        ++ person_terms s.customer_personal_id_field number
  partner_domain s number vals (field ∷ fields) =
      partner_terms (field ∷ fields) vals
      ++ (if is_restricted s then [] else person_terms s.customer_personal_id_field number)

  unfoldable pub collect_partner_search_domain : Settings → String → Vals → List Term
  collect_partner_search_domain s number vals =
      partner_domain s number vals (with_value vals s.search_customer_fields)

  abbrev pub vat_criteria : Bool → String → List Criterion
  vat_criteria true vat = (vat, "=") ∷ ("is_company", "=") ∷ ("company_id", "in") ∷ []
  vat_criteria false vat = mandatory_company_search_criteria ++ (vat, "=") ∷ []

  abbrev pub company_criteria : Settings → Vals → Option String → List Criterion
  company_criteria s vals none = mandatory_company_search_criteria
  company_criteria s vals (some vat) =
      if truthy (get_val vat vals)
      then vat_criteria s.use_vat_only_company_search vat
      else mandatory_company_search_criteria

  unfoldable pub collect_company_search_domain : Settings → Vals → List Term
  collect_company_search_domain s vals =
      build_search_domain (company_criteria s vals s.customer_company_vat_field) vals

  abbrev pub if_given : Vals → String → List Criterion
  if_given vals field = if truthy (get_val field vals) then (field, "=ilike") ∷ [] else []

  abbrev pub address_criteria : Vals → List Criterion
  address_criteria vals =
      mandatory_address_search_criteria
      ++ if_given vals "email"
      ++ if_given vals "phone"
      ++ ("street", "=ilike")
        ∷ ("street2", "=ilike")
        ∷ ("city", "=ilike")
        ∷ ("zip", "=ilike")
        ∷ ("state_id", "=")
        ∷ ("country_id", "=")
        ∷ []

  abbrev pub address_types : Term
  address_types = leaf "type" "in" (among (char "other" ∷ char "invoice" ∷ char "delivery" ∷ []))

  unfoldable pub collect_address_search_domain : Vals → List Term
  collect_address_search_domain vals =
      build_search_domain (address_criteria vals) vals ++ address_types ∷ []
