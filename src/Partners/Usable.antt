-- ===== src/Partners/Usable.antt =====
-- Every contact that an order is given is of the store's company, or of none, and of the kind that the
-- store's settings ask for.
use mathlib.Core.Path.{subst}
use jean_fourche.Base.{
  String, Bool, true, false, ◌&&◌, ◌≡◌, refl, sym, ◌⊎◌, inl, inr, Option, none, some, List, [], ◌∷◌,
  In, if◌then◌else◌, arith,
}
use jean_fourche.Base.Text.{join_words}
use jean_fourche.Base.Result.{◌>>=◌, Holds, Holds-bind}
use jean_fourche.Partners.Records.{no, char, Vals, Partner, Proxy, Settings, is_set}
use jean_fourche.Partners.Domain.{Term, collect_partner_search_domain}
use jean_fourche.Partners.Odoo.{Odoo, Laws}
use jean_fourche.Partners.Proxy.{
  World, set_char, set_person_id, prepare_partner_vals, named_vals, base_partner_vals,
  get_or_create_company_contact, set_parent,
}
use jean_fourche.Partners.Contact.{
  get_compatible_mapped_partner, found_or_create_partner, search_partner, search_or_create_partner,
  configured, partner_unless_mapped, get_or_create_partner,
}
use jean_fourche.Partners.Keeps.{
  IsOtherField, Keeps, set_val-Keeps, partner_domain-Both, never, Both, absent_leaf,
}
use jean_fourche.Partners.Details.{
  IsPrepared, set_char-Keeps, under_company-IsPrepared, completed-IsPrepared,
}
use jean_fourche.Partners.Company.{
  IsConfigured, IsOf, IsKept, IsSound, write_address_fields_if_empty-IsSound, create-IsSound,
  get_or_create_company_contact-IsSound,
}
use jean_fourche.Partners.Mapped.{IsUsable, IsFine, get_compatible_mapped_partner-IsFine}

module _ (o : Odoo) (s : Settings) (p : Proxy) (laws : Laws o) (h : IsConfigured s) where
  named_vals-Keeps : Keeps s.company_id no (named_vals o s p)
  named_vals-Keeps =
      set_char-Keeps o s p laws h no "mobile" p.mobile with_sanitized (refl, refl)
        (set_char-Keeps o s p laws h no "phone_sanitized" p.phone_sanitized with_phone (refl, refl)
          (set_char-Keeps o s p laws h no "phone" p.phone with_email (refl, refl)
            (set_char-Keeps o s p laws h no "email" p.email with_name (refl, refl)
              (set_char-Keeps o s p laws h no "name" (join_words p.person_name)
                (base_partner_vals o s p) (refl, refl) (refl, refl)))))
    where
      with_name : Vals
      with_name = set_char o s p "name" (join_words p.person_name) (base_partner_vals o s p)

      with_email : Vals
      with_email = set_char o s p "email" p.email with_name

      with_phone : Vals
      with_phone = set_char o s p "phone" p.phone with_email

      with_sanitized : Vals
      with_sanitized = set_char o s p "phone_sanitized" p.phone_sanitized with_phone

  set_person_id-Keeps :
      (field : Option String) (vals : Vals)
      → IsOtherField field
      → Keeps s.company_id no vals
      → Keeps s.company_id no (set_person_id o s p field vals)
  set_person_id-Keeps none vals i k = k
  set_person_id-Keeps (some field) vals i k =
      set_val-Keeps s.company_id no field (char p.person_id_number) vals i k

  prepare_partner_vals-HasKept :
      (w : World)
      → IsKept o s p laws h w.company_partner
      → Holds
          (λ r. Keeps s.company_id no r.0 × IsKept o s p laws h r.1.company_partner)
          (prepare_partner_vals o s p w)
  unfolding prepare_partner_vals
  prepare_partner_vals-HasKept w c =
      completed-IsPrepared o s p laws h no (set_person_id o s p s.customer_personal_id_field)
        (set_parent o s p (named_vals o s p) w)
        (λ vals k. set_person_id-Keeps s.customer_personal_id_field vals h.1 k)
        (under_company-IsPrepared o s p laws h no (is_set p.company_name) (named_vals o s p) w
          named_vals-Keeps c)

  search_partner-IsSound :
      (vals : Vals) (w : World)
      → Keeps s.company_id no vals
      → IsKept o s p laws h w.company_partner
      → Holds (IsSound o s p laws h false) (search_partner o s p (vals, w))
  search_partner-IsSound vals w k c = by_found found refl
    where
      domain : List Term
      domain = collect_partner_search_domain o.escape_psql s p.person_id_number vals

      found : List Partner
      found = o.search "create_date asc" domain w.partners

      by_found :
          (qs : List Partner)
          → found ≡ qs
          → Holds (IsSound o s p laws h false) (found_or_create_partner o s p vals w qs)
      by_found [] e = create-IsSound o s p laws h no s.customer_personal_id_field vals w h.1 k c
      by_found (q ∷ qs) e =
          write_address_fields_if_empty-IsSound o s p laws h false q w
            (by_domain (partner_domain-Both o.escape_psql s s.company_id p.person_id_number vals k))
            c
        where
          first : In q found
          first = subst (In q) (sym e) (inl refl)

          by_domain :
              (domain ≡ never o.escape_psql)
                ⊎ Both o.escape_psql s.company_id (absent_leaf o.escape_psql "is_company") domain
              → IsOf o s p laws h false q
          by_domain (inl n) = absurd (
              laws.search-never "create_date asc" w.partners q
                (subst (λ d. In q (o.search "create_date asc" d w.partners)) n first))
          by_domain (inr b) = (
            laws.search-company "create_date asc" s.company_id domain w.partners q b.0 first,
            laws.search-is_person "create_date asc" domain w.partners q b.1 first,
          )

  search_or_create_partner-IsSound :
      (w : World)
      → IsKept o s p laws h w.company_partner
      → Holds (IsSound o s p laws h false) (search_or_create_partner o s p w)
  unfolding search_or_create_partner
  search_or_create_partner-IsSound w c =
      Holds-bind (IsSound o s p laws h false) (IsPrepared o s p laws h no)
        (prepare_partner_vals o s p w) (search_partner o s p) (prepare_partner_vals-HasKept w c)
        (λ r i. search_partner-IsSound r.0 r.1 i.0 i.1)

  abbrev IsDone : Partner × World → Type 0
  IsDone r = IsUsable s p r.0

  partner_unless_mapped-IsDone :
      (q : Option Partner) (w : World)
      → IsFine o s p laws h (q, w)
      → Holds IsDone (partner_unless_mapped o s p (q, w))
  partner_unless_mapped-IsDone (some q) w (u, c) = u
  partner_unless_mapped-IsDone none w (u, c) =
      by_mode (s.skip_individual_contacts && is_set p.company_name) refl
    where
      by_mode :
          (b : Bool)
          → (s.skip_individual_contacts && is_set p.company_name) ≡ b
          → Holds IsDone (
              (if b
                then get_or_create_company_contact o s p w
                else search_or_create_partner o s p w)
              >>= configured o s p)
      by_mode true e =
          Holds-bind IsDone (IsSound o s p laws h true) (get_or_create_company_contact o s p w)
            (configured o s p) (get_or_create_company_contact-IsSound o s p laws h w c)
            (λ r i. (i.0.0, (λ n. absurd (ground arith)), λ _ _. i.0.1))
      by_mode false e =
          Holds-bind IsDone (IsSound o s p laws h false) (search_or_create_partner o s p w)
            (configured o s p) (search_or_create_partner-IsSound w c)
            (λ r i. (i.0.0, (λ _. i.0.1), λ m n. absurd (ground arith)))

  -- Whether it is mapped, found or made, the contact that an order is given belongs to the company of
  -- the store or to none; it is a person if the store has individual contacts, and a company if it has
  -- companies alone and the order names one. The proxy has kept no company contact before, the
  -- database does what its documentation says of a search, a create and a write, and the fields that the
  -- store has configured are neither the company nor the kind.
  pub get_or_create_partner-IsUsable :
      (w : World)
      → w.company_partner ≡ none
      → Holds (λ r. IsUsable s p r.0) (get_or_create_partner o s p w)
  unfolding get_or_create_partner
  get_or_create_partner-IsUsable w e =
      Holds-bind IsDone (IsFine o s p laws h) (get_compatible_mapped_partner o s p w)
        (partner_unless_mapped o s p)
        (get_compatible_mapped_partner-IsFine o s p laws h w
          (subst (IsKept o s p laws h) (sym e) tt))
        (λ r i. partner_unless_mapped-IsDone r.0 r.1 i)
