-- ===== src/Partners/Company.antt =====
-- The company contact of a proxy is a company, of the store's own company or of none.
use mathlib.Core.Path.{subst}
use jean_fourche.Base.{
  ℕ, String, Bool, true, false, not, ◌≡◌, refl, ap, sym, ◌∙◌, ◌⊎◌, inl, inr, Option, none, some,
  List, [], ◌∷◌, All, all, In, if◌then◌else◌, Bool-cases,
}
use jean_fourche.Base.Text.{drop_dashes}
use jean_fourche.Base.Result.{Result, ok, ◌>>=◌, Holds, Holds-bind, Holds-bind_any, Holds-if}
use jean_fourche.Partners.Records.{
  Value, yes, char, refs, Vals, truthy, get_val, set_val, set_vals, set_some, Partner, Proxy,
  Settings, is_set, simple_fields,
}
use jean_fourche.Partners.Domain.{collect_company_search_domain}
use jean_fourche.Partners.Odoo.{Odoo, Error, Laws, Belongs, ref_of}
use jean_fourche.Partners.Proxy.{
  World, store, add_language, add_places, find_odoo_country, find_odoo_state, get_vat, get_vat_of,
  vat_vals, validate_vat, set_vat_verified, set_lang, prepare_company_vals, base_company_vals,
  without, write_later, create_later, add_tag, write_address_fields_if_empty,
  found_or_create_company, remember_company, search_company, company_contact,
  get_or_create_company_contact, match_fields,
}
use jean_fourche.Partners.Others.{Others, Others-Spares, add_places-Others}
use jean_fourche.Partners.Keeps.{
  IsOther, IsOtherField, Keeps, set_val-Keeps, set_vals-Keeps, set_some-Keeps, without-Keeps,
  company_domain-Both,
}

-- The fields for the VAT number and the personal id are neither the company nor the kind.
abbrev pub IsConfigured : Settings → Type 0
IsConfigured s =
    IsOtherField s.customer_company_vat_field × IsOtherField s.customer_personal_id_field

module _ (o : Odoo) (s : Settings) (p : Proxy) (laws : Laws o) (h : IsConfigured s) where
  abbrev pub IsOf : Bool → Partner → Type 0
  IsOf b q = Belongs s.company_id q × (q.is_company ≡ b)

  write-IsOf :
      (b : Bool) (vals : Vals) (q : Partner) → Others vals → IsOf b q → IsOf b (o.write vals q)
  write-IsOf b vals q t (c, k) = (
    subst (λ i. (i ≡ none) ⊎ (i ≡ some s.company_id))
        (sym (laws.write-company_id vals q (Others-Spares vals t).0)) c,
    laws.write-is_company vals q (Others-Spares vals t).1 ∙ k,
  )

  create-IsOf :
      (v : Value) (id : ℕ) (vals : Vals)
      → Keeps s.company_id v vals
      → IsOf (truthy v) (o.create id vals)
  create-IsOf v id vals w = (
    inr (laws.create-company_id id vals ∙ ap ref_of w.0),
    laws.create-is_company id vals ∙ ap truthy w.1,
  )

  write_later-IsOf :
      (b : Bool) (field : Option String) (vals : Vals) (q : Partner)
      → IsOtherField field
      → IsOf b q
      → IsOf b (write_later o s p field vals q)
  write_later-IsOf b none vals q i g = g
  write_later-IsOf b (some k) vals q i g = elim (Bool-cases (truthy (get_val k vals))) [
    | inl t ↦
        subst (IsOf b) (sym (ap (λ x. if x then o.write ((k, get_val k vals) ∷ []) q else q) t))
          (write-IsOf b ((k, get_val k vals) ∷ []) q (i, tt) g)
    | inr f ↦
        subst (IsOf b) (sym (ap (λ x. if x then o.write ((k, get_val k vals) ∷ []) q else q) f)) g
  ]

  create_later-IsOf :
      (v : Value) (field : Option String) (vals : Vals) (w : World)
      → IsOtherField field
      → Keeps s.company_id v vals
      → IsOf (truthy v) (create_later o s p field vals w).0
  create_later-IsOf v field vals w i k =
      write_later-IsOf (truthy v) field vals (o.create w.next_id (without o s p field vals)) i (
        create-IsOf v w.next_id (without o s p field vals)
          (without-Keeps s.company_id v o s p field vals i k))

  -- The values that a company or a person is looked for with.
  pub add_language-Keeps :
      (v : Value) (vals : Vals)
      → Keeps s.company_id v vals
      → Holds (Keeps s.company_id v) (add_language o s p vals)
  add_language-Keeps v vals k =
      Holds-if {E = Error} (Keeps s.company_id v) (is_set p.language)
        (o.language_from_external p.language >>= λ code. ok (set_lang o s p code vals)) (ok vals)
        (λ _.
          Holds-bind_any (Keeps s.company_id v) (o.language_from_external p.language)
            (λ code. ok (set_lang o s p code vals)) by_code)
        (λ _. k)
    where
      by_code : (code : Option String) → Keeps s.company_id v (set_lang o s p code vals)
      by_code none = k
      by_code (some code) = set_val-Keeps s.company_id v "lang" (char code) vals (refl, refl) k

  pub add_places-Keeps :
      (v : Value) (vals : Vals)
      → Keeps s.company_id v vals
      → Holds (Keeps s.company_id v) (add_places o s p vals)
  add_places-Keeps v vals k =
      Holds-bind_any (Keeps s.company_id v) (find_odoo_country o s p)
        (λ country. find_odoo_state o s p country >>= λ state.
          ok (set_some "state_id" state (set_some "country_id" country vals)))
        (λ country.
          Holds-bind_any (Keeps s.company_id v) (find_odoo_state o s p country)
            (λ state. ok (set_some "state_id" state (set_some "country_id" country vals)))
            (λ state.
              set_some-Keeps s.company_id v "state_id" state (set_some "country_id" country vals)
                (refl, refl)
                (set_some-Keeps s.company_id v "country_id" country vals (refl, refl) k)))

  abbrev IsVat : World → Vals × World → Type 0
  IsVat w r = All (λ kv. IsOther kv.0) r.0 × (r.1.company_partner ≡ w.company_partner)

  vat_vals-IsVat :
      (field number : String) (answer : Option Bool) (w : World)
      → IsOther field
      → IsVat w (vat_vals o s p field number answer, set_vat_verified answer w)
  vat_vals-IsVat field number none w i = (tt, refl)
  vat_vals-IsVat field number (some true) w i = ((i, tt), refl)
  vat_vals-IsVat field number (some false) w i = (tt, refl)

  get_vat_of-IsVat :
      (field : Option String) (number : String) (w : World)
      → IsOtherField field
      → Holds (IsVat w) (get_vat_of o s p field number w)
  get_vat_of-IsVat none number w i = (tt, refl)
  get_vat_of-IsVat (some field) number w i =
      Holds-if {E = Error} (IsVat w) (is_set number) (find_odoo_country o s p >>= answer)
        (ok ([], w))
        (λ _.
          Holds-bind_any (IsVat w) (find_odoo_country o s p) answer
            (λ country. vat_vals-IsVat field number (validate_vat o s p number country) w i))
        (λ _. (tt, refl))
    where
      answer : Option ℕ → Result Error (Vals × World)
      answer country = ok (
        vat_vals o s p field number (validate_vat o s p number country),
        set_vat_verified (validate_vat o s p number country) w,
      )

  abbrev pub HasKept : Value → World → Vals × World → Type 0
  HasKept v w r = Keeps s.company_id v r.0 × (r.1.company_partner ≡ w.company_partner)

  prepare_company_vals-HasKept : (w : World) → Holds (HasKept yes w) (prepare_company_vals o s p w)
  unfolding prepare_company_vals get_vat
  prepare_company_vals-HasKept w =
      Holds-bind (HasKept yes w) (Keeps s.company_id yes)
        (add_language o s p (base_company_vals o s p))
        (λ vals. get_vat o s p w >>= λ r. ok (set_vals r.0 vals, r.1))
        (add_language-Keeps yes (base_company_vals o s p) (refl, refl))
        (λ vals k.
          Holds-bind (HasKept yes w) (IsVat w) (get_vat o s p w) (λ r. ok (set_vals r.0 vals, r.1))
            (get_vat_of-IsVat s.customer_company_vat_field (drop_dashes p.company_reg_number) w h.0)
            (λ r i. (set_vals-Keeps s.company_id yes r.0 vals i.0 k, i.1)))

  -- The company contact that the proxy has kept is one.
  abbrev pub IsKept : Option Partner → Type 0
  IsKept none = Unit
  IsKept (some q) = IsOf true q

  abbrev pub IsSound : Bool → Partner × World → Type 0
  IsSound b r = IsOf b r.0 × IsKept r.1.company_partner

  pub write_address_fields_if_empty-IsSound :
      (b : Bool) (q : Partner) (w : World)
      → IsOf b q
      → IsKept w.company_partner
      → Holds (IsSound b) (write_address_fields_if_empty o s p q w)
  unfolding write_address_fields_if_empty
  write_address_fields_if_empty-IsSound b q w g k =
      Holds-if {E = Error} (IsSound b)
        (all (λ field. not (truthy (get_val field q.columns))) (match_fields o s p))
        (add_places o s p (simple_fields p) >>= written) (ok (q, w))
        (λ _.
          Holds-bind (IsSound b) Others (add_places o s p (simple_fields p)) written
            (add_places-Others o s p) (λ vals t. (write-IsOf b vals q t g, k)))
        (λ _. (g, k))
    where
      written : Vals → Result Error (Partner × World)
      written vals = ok (o.write vals q, store (o.write vals q) w)

  -- A contact that is made with values of the company and the kind.
  pub create-IsSound :
      (v : Value) (field : Option String) (vals : Vals) (w : World)
      → IsOtherField field
      → Keeps s.company_id v vals
      → IsKept w.company_partner
      → Holds
          (IsSound (truthy v))
          (add_tag o s p vals >>= λ tagged. ok (create_later o s p field tagged w))
  create-IsSound v field vals w i k c =
      Holds-bind (IsSound (truthy v)) (Keeps s.company_id v) (add_tag o s p vals)
        (λ tagged. ok (create_later o s p field tagged w))
        (Holds-bind_any (Keeps s.company_id v) o.integration_tag
          (λ tag. ok (set_val "category_id" (refs (tag ∷ [])) vals))
          (λ tag. set_val-Keeps s.company_id v "category_id" (refs (tag ∷ [])) vals (refl, refl) k))
        (λ tagged t. (create_later-IsOf v field tagged w i t, c))

  search_company-IsSound :
      (vals : Vals) (w : World)
      → Keeps s.company_id yes vals
      → IsKept w.company_partner
      → Holds (IsSound true) (search_company o s p (vals, w))
  search_company-IsSound vals w k c =
      Holds-bind (IsSound true) (IsSound true) (found_or_create_company o s p vals w found)
        (remember_company o s p) (by_found found refl) remembered
    where
      found : List Partner
      found = o.search "" (collect_company_search_domain o.escape_psql s vals) w.partners

      first : {q : Partner} {qs : List Partner} → found ≡ q ∷ qs → In q found
      first {q} e = subst (In q) (sym e) (inl refl)

      by_found :
          (qs : List Partner)
          → found ≡ qs
          → Holds (IsSound true) (found_or_create_company o s p vals w qs)
      by_found [] e = create-IsSound yes s.customer_company_vat_field vals w h.0 k c
      by_found (q ∷ qs) e = (
        (
          laws.search-company "" s.company_id (collect_company_search_domain o.escape_psql s vals)
              w.partners q (company_domain-Both o.escape_psql s s.company_id vals k).0 (first e),
          laws.search-is_company "" (collect_company_search_domain o.escape_psql s vals) w.partners
              q (company_domain-Both o.escape_psql s s.company_id vals k).1 (first e),
        ),
        c,
      )

      remembered :
          (r : Partner × World) → IsSound true r → Holds (IsSound true) (remember_company o s p r)
      remembered r g =
          Holds-bind (IsSound true) (IsSound true) (write_address_fields_if_empty o s p r.0 r.1)
            (λ q. ok (q.0, record q.1 { company_partner = some q.0 }))
            (write_address_fields_if_empty-IsSound true r.0 r.1 g.0 g.1) (λ q i. (i.0, i.0))

  pub get_or_create_company_contact-IsSound :
      (w : World)
      → IsKept w.company_partner
      → Holds (IsSound true) (get_or_create_company_contact o s p w)
  unfolding get_or_create_company_contact
  get_or_create_company_contact-IsSound w c = by_kept w.company_partner c
    where
      by_kept : (k : Option Partner) → IsKept k → Holds (IsSound true) (company_contact o s p k w)
      by_kept (some q) g = (g, c)
      by_kept none g =
          Holds-bind (IsSound true) (HasKept yes w) (prepare_company_vals o s p w)
            (search_company o s p) (prepare_company_vals-HasKept w)
            (λ r i. search_company-IsSound r.0 r.1 i.0 (subst IsKept (sym i.1) c))
