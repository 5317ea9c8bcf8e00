-- ===== src/Partners/Keeps.antt =====
-- The company and the kind of a contact among the values that it is searched and made with.
use text.Mathlib.Text.{◌==◌ as str_eq}
use text.Mathlib.TextEquality.{eq_iff}
use mathlib.Core.Path.{subst}
use jean_fourche.Base.{
  ℕ, String, Bool, true, false, ◌≡◌, refl, ap, sym, ◌∙◌, ◌⊎◌, inl, inr, Option, none, some, List,
  [], ◌∷◌, ◌++◌, map, All, In, if◌then◌else◌, arith, Bool-cases,
}
use jean_fourche.Partners.Records.{
  Value, no, yes, char, ref, Vals, truthy, get_val, set_val, set_vals, set_some, pop_val, Proxy,
  Settings,
}
use jean_fourche.Partners.Domain.{
  Term, leaf, one, among, Criterion, criterion_terms, build_search_domain,
  collect_partner_search_domain, collect_company_search_domain, company_criteria, vat_criteria,
  partner_domain, escaped, mandatory_company_search_criteria, mandatory_partner_search_criteria,
  default_search_customer_fields, partner_terms, person_terms, with_value, is_restricted,
  customer_operator,
}
use jean_fourche.Partners.Odoo.{Odoo, Includes}
use jean_fourche.Partners.Proxy.{without}

get-set_val :
    (j k : String) (v : Value) (vals : Vals)
    → str_eq k j ≡ false
    → get_val j (set_val k v vals) ≡ get_val j vals
get-set_val j k v [] h = ground arith
get-set_val j k v ((i, u) ∷ vals) h = elim (Bool-cases (str_eq i k)) [
  | inl same ↦
      let e : i ≡ k = (eq_iff i k).0 same in
      let f : str_eq i j ≡ false = ap (λ t. str_eq t j) e ∙ h in ground arith
  | inr apart ↦ ground (arith, get-set_val j k v vals h)
]

get-pop_val :
    (j k : String) (vals : Vals) → str_eq k j ≡ false → get_val j (pop_val k vals) ≡ get_val j vals
get-pop_val j k [] h = refl
get-pop_val j k ((i, u) ∷ vals) h = elim (Bool-cases (str_eq i k)) [
  | inl same ↦
      let e : i ≡ k = (eq_iff i k).0 same in
      let f : str_eq i j ≡ false = ap (λ t. str_eq t j) e ∙ h in ground arith
  | inr apart ↦ ground (arith, get-pop_val j k vals h)
]

-- A field that is neither the company nor the kind.
abbrev pub IsOther : String → Type 0
IsOther k = (str_eq k "company_id" ≡ false) × (str_eq k "is_company" ≡ false)

abbrev pub IsOtherField : Option String → Type 0
IsOtherField none = Unit
IsOtherField (some k) = IsOther k

abbrev pub Keeps : ℕ → Value → Vals → Type 0
Keeps c b vals = (get_val "company_id" vals ≡ ref c) × (get_val "is_company" vals ≡ b)

module _ (c : ℕ) (b : Value) where
  pub set_val-Keeps :
      (k : String) (v : Value) (vals : Vals)
      → IsOther k
      → Keeps c b vals
      → Keeps c b (set_val k v vals)
  set_val-Keeps k v vals h w =
      (get-set_val "company_id" k v vals h.0 ∙ w.0, get-set_val "is_company" k v vals h.1 ∙ w.1)

  pub pop_val-Keeps :
      (k : String) (vals : Vals) → IsOther k → Keeps c b vals → Keeps c b (pop_val k vals)
  pop_val-Keeps k vals h w =
      (get-pop_val "company_id" k vals h.0 ∙ w.0, get-pop_val "is_company" k vals h.1 ∙ w.1)

  pub set_vals-Keeps :
      (new vals : Vals)
      → All (λ kv. IsOther kv.0) new
      → Keeps c b vals
      → Keeps c b (set_vals new vals)
  set_vals-Keeps [] vals h w = w
  set_vals-Keeps ((k, v) ∷ new) vals h w =
      set_vals-Keeps new (set_val k v vals) h.1 (set_val-Keeps k v vals h.0 w)

  pub set_some-Keeps :
      (k : String) (i : Option ℕ) (vals : Vals)
      → IsOther k
      → Keeps c b vals
      → Keeps c b (set_some k i vals)
  set_some-Keeps k none vals h w = w
  set_some-Keeps k (some i) vals h w = set_val-Keeps k (ref i) vals h w

  pub without-Keeps :
      (o : Odoo) (s : Settings) (p : Proxy) (field : Option String) (vals : Vals)
      → IsOtherField field
      → Keeps c b vals
      → Keeps c b (without o s p field vals)
  without-Keeps o s p none vals h w = w
  without-Keeps o s p (some k) vals h w = pop_val-Keeps k vals h w

-- Terms of a domain whose criteria name both fields.
Includes-append : (t : Term) (ts us : List Term) → Includes t us → Includes t (ts ++ us)
Includes-append t [] us h = h
Includes-append t (x ∷ ts) us h = inr (Includes-append t ts us h)

pub Includes-left : (t : Term) (ts us : List Term) → Includes t ts → Includes t (ts ++ us)
Includes-left t [] us h = absurd h
Includes-left t (x ∷ ts) us (inl e) = inl e
Includes-left t (x ∷ ts) us (inr h) = inr (Includes-left t ts us h)

module _ (escape : String → String) where
  pub Includes-build :
      (t : Term) (key op : String) (cs : List Criterion) (vals : Vals)
      → In (key, op) cs
      → criterion_terms escape (key, op) vals ≡ t ∷ []
      → Includes t (build_search_domain escape cs vals)
  Includes-build t key op [] vals m e = absurd m
  Includes-build t key op (x ∷ cs) vals (inl s) e =
      Includes-left t (criterion_terms escape x vals) (build_search_domain escape cs vals) (
        subst (λ ts. Includes t ts) (sym (ap (λ y. criterion_terms escape y vals) s ∙ e))
          (inl refl))
  Includes-build t key op (x ∷ cs) vals (inr m) e =
      Includes-append t (criterion_terms escape x vals) (build_search_domain escape cs vals)
        (Includes-build t key op cs vals m e)

  abbrev pub company_leaf : ℕ → Term
  company_leaf c = leaf "company_id" "in" (among (ref c ∷ no ∷ []))

  abbrev pub absent_leaf : String → Term
  absent_leaf key = leaf key "in" (among (char "" ∷ no ∷ []))

  pub company_term :
      (c : ℕ) (vals : Vals)
      → get_val "company_id" vals ≡ ref c
      → criterion_terms escape ("company_id", "in") vals ≡ company_leaf c ∷ []
  company_term c vals e =
      ap
        (λ v.
          if truthy v then escaped escape "company_id" "in" v else absent_leaf "company_id" ∷ [])
        e

  kind_term :
      (v : Value) (vals : Vals)
      → get_val "is_company" vals ≡ v
      → criterion_terms escape ("is_company", "=") vals
        ≡ (if truthy v then escaped escape "is_company" "=" v else absent_leaf "is_company" ∷ [])
  kind_term v vals e =
      ap
        (λ v. if truthy v then escaped escape "is_company" "=" v else absent_leaf "is_company" ∷ [])
        e

  abbrev pub Both : ℕ → Term → List Term → Type 0
  Both c t ts = Includes (company_leaf c) ts × Includes t ts

  criteria-In :
      (s : Settings) (vals : Vals) (vat : Option String)
      → In ("is_company", "=") (company_criteria escape s vals vat)
        × In ("company_id", "in") (company_criteria escape s vals vat)
  criteria-In s vals none = (inr (inl refl), inr (inr (inl refl)))
  criteria-In s vals (some vat) = by_value (truthy (get_val vat vals)) s.use_vat_only_company_search
    where
      by_value :
          (b only : Bool)
          → In
              ("is_company", "=")
              (if b then vat_criteria escape only vat else mandatory_company_search_criteria)
            × In
                ("company_id", "in")
                (if b then vat_criteria escape only vat else mandatory_company_search_criteria)
      by_value true true = (inr (inl refl), inr (inr (inl refl)))
      by_value true false = (inr (inl refl), inr (inr (inl refl)))
      by_value false only = (inr (inl refl), inr (inr (inl refl)))

  pub company_domain-Both :
      (s : Settings) (c : ℕ) (vals : Vals)
      → Keeps c yes vals
      → Both c (leaf "is_company" "=" (one yes)) (collect_company_search_domain escape s vals)
  unfolding collect_company_search_domain
  company_domain-Both s c vals w =
      let cs : List Criterion = company_criteria escape s vals s.customer_company_vat_field in
      (
        Includes-build (company_leaf c) "company_id" "in" cs vals
            (criteria-In s vals s.customer_company_vat_field).1 (company_term c vals w.0),
        Includes-build (leaf "is_company" "=" (one yes)) "is_company" "=" cs vals
            (criteria-In s vals s.customer_company_vat_field).0 (kind_term yes vals w.1),
      )

  partner_terms-Both :
      (c : ℕ) (fields : List String) (vals : Vals) (more : List Term)
      → Keeps c no vals
      → Both c (absent_leaf "is_company") (partner_terms escape fields vals ++ more)
  partner_terms-Both c fields vals more w =
      let cs : List Criterion =
        mandatory_partner_search_criteria
        ++ map (λ field. (field, customer_operator escape field)) fields in
      (
        Includes-left (company_leaf c) (partner_terms escape fields vals) more (
            Includes-build (company_leaf c) "company_id" "in" cs vals (inr (inr (inr (inl refl))))
              (company_term c vals w.0)),
        Includes-left (absent_leaf "is_company") (partner_terms escape fields vals) more (
            Includes-build (absent_leaf "is_company") "is_company" "=" cs vals (inr (inl refl))
              (kind_term no vals w.1)),
      )

  abbrev pub never : List Term
  never = leaf "id" "=" (one no) ∷ []

  -- A search of a contact finds none, or asks for the company and for a person.
  pub partner_domain-Both :
      (s : Settings) (c : ℕ) (number : String) (vals : Vals)
      → Keeps c no vals
      → (collect_partner_search_domain escape s number vals ≡ never)
        ⊎ Both c (absent_leaf "is_company") (collect_partner_search_domain escape s number vals)
  unfolding collect_partner_search_domain
  partner_domain-Both s c number vals w =
      by_fields (with_value escape vals s.search_customer_fields)
    where
      by_restricted :
          (b : Bool) (ts : List Term)
          → Both c (absent_leaf "is_company") ts
          → ((if b then never else ts) ≡ never)
            ⊎ Both c (absent_leaf "is_company") (if b then never else ts)
      by_restricted true ts h = inl refl
      by_restricted false ts h = inr h

      by_fields :
          (fields : List String)
          → (partner_domain escape s number vals fields ≡ never)
            ⊎ Both c (absent_leaf "is_company") (partner_domain escape s number vals fields)
      by_fields [] =
          by_restricted (is_restricted escape s)
            (partner_terms escape (with_value escape vals default_search_customer_fields) vals
              ++ person_terms escape s.customer_personal_id_field number)
            (partner_terms-Both c (with_value escape vals default_search_customer_fields) vals
              (person_terms escape s.customer_personal_id_field number) w)
      by_fields (field ∷ fields) = inr (
          partner_terms-Both c (field ∷ fields) vals
            (if is_restricted escape s
              then []
              else person_terms escape s.customer_personal_id_field number)
            w)
