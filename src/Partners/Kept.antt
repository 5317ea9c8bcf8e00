-- ===== src/Partners/Kept.antt =====
-- What a customer's own data keeps when it is completed from the billing address.
use text.Mathlib.Text.{◌==◌ as str_eq}
use text.Mathlib.TextEquality.{eq_iff}
use mathlib.Core.Path.{subst}
use jean_fourche.Base.{
  String, Bool, true, false, ◌≡◌, refl, ap, sym, ◌∙◌, Option, none, some, List, [], ◌∷◌, ◌++◌, inl,
  inr, all, if◌then◌else◌, arith, Bool-cases,
}
use jean_fourche.Partners.Domain.{elem_str}
use jean_fourche.Partners.Data.{
  Data, get_text, set_text, is_filled, fields_to_copy, copy_fields, copy_company, copy_billing,
  update_customer_data, unless_blank, or_data, call_if_filled, calls_of, proxy_calls, filled_text,
  same_person,
}

get-set_text :
    (j k : String) (x v : Option String) (d : Data)
    → str_eq k j ≡ false
    → get_text j x (set_text k v d) ≡ get_text j x d
get-set_text j k x v [] h = ground arith
get-set_text j k x v ((i, u) ∷ d) h = elim (Bool-cases (str_eq i k)) [
  | inl same ↦
      let e : i ≡ k = (eq_iff i k).0 same in
      let f : str_eq i j ≡ false = ap (λ t. str_eq t j) e ∙ h in ground arith
  | inr apart ↦ ground (arith, get-set_text j k x v d h)
]

set_text-filled :
    (k : String) (v : Option String) (d : Data) → is_filled (some (set_text k v d)) ≡ true
set_text-filled k v [] = refl
set_text-filled k v ((i, u) ∷ d) = ground arith

apart :
    (f j : String) (gs : List String)
    → elem_str f gs ≡ true
    → elem_str j gs ≡ false
    → str_eq f j ≡ false
apart f j gs m a = elim (Bool-cases (str_eq f j)) [
  | inl y ↦ absurd (true-false (sym (subst (λ k. elem_str k gs ≡ true) ((eq_iff f j).0 y) m) ∙ a))
  | inr n ↦ n
]
  where
    true-false : true ≡ false → ⊥
    true-false e = ground arith

-- A text that is none of some is none of a part of them.
none-part :
    (fs gs : List String) (j : String)
    → all (λ f. elem_str f gs) fs ≡ true
    → elem_str j gs ≡ false
    → elem_str j fs ≡ false
none-part [] gs j m a = refl
none-part (f ∷ fs) gs j m a =
    let h : elem_str f gs ≡ true = ground arith in
    let k : all (λ f. elem_str f gs) fs ≡ true = ground arith in
    ground (arith, apart f j gs h a, none-part fs gs j k a)

abbrev pub IsCustomerFirst : String → Option String → Option String → List (String × Data) → Type 0
IsCustomerFirst j x g [] = ⊥
IsCustomerFirst j x g ((type, d) ∷ calls) = (type ≡ "customer") × (get_text j x d ≡ g)

module _ (j : String) (x : Option String) (g : Option String) where
  -- A filled dict whose key has the value.
  abbrev Has : Data → Type 0
  Has d = (is_filled (some d) ≡ true) × (get_text j x d ≡ g)

  copy_fields-Has :
      (fs : List String) (billing d : Data)
      → elem_str j fs ≡ false
      → Has d
      → Has (copy_fields fs billing d)
  copy_fields-Has [] billing d a h = h
  copy_fields-Has (f ∷ fs) billing d a h =
      copy_fields-Has fs billing (set_text f (get_text f (some "") billing) d) (ground arith) (
        set_text-filled f (get_text f (some "") billing) d,
        get-set_text j f x (get_text f (some "") billing) d (ground arith) ∙ h.1,
      )

  if-Has : (b : Bool) (d e : Data) → Has d → Has e → Has (if b then d else e)
  if-Has true d e h k = h
  if-Has false d e h k = k

  module _ (a : elem_str j ("person_id_number" ∷ fields_to_copy) ≡ false) where
    copy_billing-Has : (billing d : Data) → Has d → Has (copy_billing billing d)
    unfolding copy_billing
    copy_billing-Has billing d h =
        if-Has (same_person d1 billing) (copy_fields fields_to_copy billing d1) d1
          (copy_fields-Has fields_to_copy billing d1 (none-part fields_to_copy others j refl a) h1)
          h1
      where
        d0 : Data
        d0 = copy_fields ("person_id_number" ∷ []) billing d

        others : List String
        others = "person_id_number" ∷ fields_to_copy

        company : List String
        company = "company_name" ∷ "company_reg_number" ∷ "country" ∷ "country_code" ∷ []

        h0 : Has d0
        h0 =
            copy_fields-Has ("person_id_number" ∷ []) billing d
              (none-part ("person_id_number" ∷ []) others j refl a) h

        d1 : Data
        d1 = copy_company billing d0

        h1 : Has d1
        h1 =
            if-Has (filled_text (get_text "company_name" (some "") billing))
              (copy_fields company billing d0) d0
              (copy_fields-Has company billing d0 (none-part company others j refl a) h0) h0

    abbrev Starts : List (String × Data) → Type 0
    Starts = IsCustomerFirst j x g

    starts :
        (d : Data) (b : Option Data) (calls : List (String × Data))
        → Has d
        → Starts (call_if_filled "customer" (or_data (some d) b) ++ calls)
    starts [] b calls h = absurd (ground arith)
    starts (kv ∷ d) b calls h = (refl, h.1)

    calls_of-Starts :
        (kv : String × Option String) (d : Data) (billing shipping : Option Data)
        → get_text j x (kv ∷ d) ≡ g
        → Starts (calls_of (some (kv ∷ d)) billing shipping)
    unfolding update_customer_data
    calls_of-Starts kv d none shipping h = (refl, h)
    calls_of-Starts kv d (some []) shipping h = (refl, h)
    calls_of-Starts kv d (some (b ∷ bs)) shipping h =
        starts (copy_billing (b ∷ bs) (kv ∷ d)) (some (b ∷ bs))
          (call_if_filled "billing_address" (some (b ∷ bs))
            ++ call_if_filled "shipping_address" shipping)
          (copy_billing-Has (b ∷ bs) (kv ∷ d) (refl, h))

-- The first proxy that is asked for is the customer's. A key of the customer's own data that is neither
-- the personal id nor one of the fields that are copied has the same value in it, whatever the billing
-- and the shipping address are: its id and its email are never replaced.
pub proxy_calls_lem :
    (j : String) (x : Option String) (kv : String × Option String) (d : Data)
    (billing shipping : Option Data)
    → elem_str j ("person_id_number" ∷ fields_to_copy) ≡ false
    → IsCustomerFirst j x (get_text j x (kv ∷ d)) (proxy_calls (some (kv ∷ d)) billing shipping)
unfolding proxy_calls
proxy_calls_lem j x kv d billing shipping a =
    calls_of-Starts j x (get_text j x (kv ∷ d)) a kv d
      (or_data (unless_blank billing) (or_data (unless_blank shipping) (unless_blank billing)))
      (unless_blank shipping) refl
