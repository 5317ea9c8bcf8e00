-- ===== src/Partners/Odoo.antt =====
-- What the handling of a contact calls: the database of contacts, the mappings of countries, states and
-- languages, and the check of a VAT number.
use text.Mathlib.Text.{◌==◌ as str_eq}
use jean_fourche.Base.{
  ℕ, String, Bool, true, false, ◌≡◌, ◌⊎◌, Option, none, some, List, [], ◌∷◌, In, All,
}
use jean_fourche.Base.Result.{Result}
use jean_fourche.Partners.Records.{Value, no, yes, char, ref, Vals, get_val, truthy, Partner}
use jean_fourche.Partners.Domain.{Term, leaf, one, among}

pub data Error : Type 0 where
  not_mapped_from_external : String → Error
  api_import_error : Error
  value_error : String → Error
  attribute_error : Error
  -- The mapping of the customer, without a contact, is made in a transaction of its own.
  not_mapped_customer : String → Error

pub record Odoo : Type 0 where
  -- The contacts that meet a domain, in the given order.
  pub search : String → List Term → List Partner → List Partner
  -- The fields of a contact, and those that hold a record.
  pub has_field : String → Bool
  pub is_relational : String → Bool
  -- The contact that is made of the values, with the id; and one that is written.
  pub create : ℕ → Vals → Partner
  pub write : Vals → Partner → Partner
  pub escape_psql : String → String
  pub country_from_external : String → Result Error (Option ℕ)
  pub country_of_code : String → Option ℕ
  pub has_states : Option ℕ → Bool
  pub state_from_external : String → Result Error (Option ℕ)
  pub state_of_code : ℕ → String → Option ℕ
  pub language_from_external : String → Result Error (Option String)
  pub pricelist_from_external : String → Option ℕ
  pub validate_integration_vat : String → ℕ → Option Bool
  pub email_normalize : String → Option String
  pub phone_format : String → ℕ → Option String
  pub integration_tag : Result Error ℕ

abbrev pub Belongs : ℕ → Partner → Type 0
Belongs company p = (p.company_id ≡ none) ⊎ (p.company_id ≡ some company)

abbrev pub ref_of : Value → Option ℕ
ref_of (ref i) = some i
ref_of _ = none

-- A condition that every contact found meets.
abbrev pub Includes : Term → List Term → Type 0
Includes t [] = ⊥
Includes t (u ∷ ts) = (u ≡ t) ⊎ Includes t ts

-- The values have none for the field.
abbrev pub Spares : String → Vals → Type 0
Spares key vals = All (λ kv. str_eq kv.0 key ≡ false) vals

-- A domain finds what meets its terms: of a company among two values, and companies or persons. A
-- contact has the values that it is made with, and a write changes neither the company nor the kind
-- unless its values have one for it.
pub record Laws (o : Odoo) : Type 0 where
  pub has_field-company_id : o.has_field "company_id" ≡ true
  pub is_relational-company_id : o.is_relational "company_id" ≡ true
  pub search-company :
      (order : String) (c : ℕ) (ts : List Term) (ps : List Partner) (p : Partner)
      → Includes (leaf "company_id" "in" (among (ref c ∷ no ∷ []))) ts
      → In p (o.search order ts ps)
      → Belongs c p
  pub search-is_company :
      (order : String) (ts : List Term) (ps : List Partner) (p : Partner)
      → Includes (leaf "is_company" "=" (one yes)) ts
      → In p (o.search order ts ps)
      → p.is_company ≡ true
  pub search-is_person :
      (order : String) (ts : List Term) (ps : List Partner) (p : Partner)
      → Includes (leaf "is_company" "in" (among (char "" ∷ no ∷ []))) ts
      → In p (o.search order ts ps)
      → p.is_company ≡ false
  pub search-never :
      (order : String) (ps : List Partner) (p : Partner)
      → In p (o.search order (leaf "id" "=" (one no) ∷ []) ps)
      → ⊥
  pub create-company_id :
      (id : ℕ) (vals : Vals) → (o.create id vals).company_id ≡ ref_of (get_val "company_id" vals)
  pub create-is_company :
      (id : ℕ) (vals : Vals) → (o.create id vals).is_company ≡ truthy (get_val "is_company" vals)
  pub write-company_id :
      (vals : Vals) (p : Partner)
      → Spares "company_id" vals
      → (o.write vals p).company_id ≡ p.company_id
  pub write-is_company :
      (vals : Vals) (p : Partner)
      → Spares "is_company" vals
      → (o.write vals p).is_company ≡ p.is_company
