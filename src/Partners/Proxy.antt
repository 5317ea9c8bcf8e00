-- ===== src/Partners/Proxy.antt =====
-- How the contact of an order is found or made: integration/models/integration_res_partner_proxy.py.
-- The state is the database of contacts with the mapping of the proxy's external id.
use jean_fourche.Base.{
  ℕ, suc, String, Bool, true, false, not, Option, none, some, List, [], ◌∷◌, ◌++◌, map, all, find?,
  ◌==◌, if◌then◌else◌,
}
use jean_fourche.Base.Text.{join_words, drop_dashes}
use jean_fourche.Base.Result.{Result, ok, ◌>>=◌}
use jean_fourche.Partners.Records.{
  no, yes, char, ref, refs, Vals, truthy, get_val, set_val, set_vals, set_some, pop_val, Partner,
  Proxy, Settings, is_set, simple_fields,
}
use jean_fourche.Partners.Domain.{collect_company_search_domain}
use jean_fourche.Partners.Odoo.{Odoo, Error}

-- With what the proxy has stored: its company contact, its contact, and whether its VAT number was
-- verified; the mapping of its external id, and the contacts that are linked to the external record.
pub record World : Type 0 where
  pub partners : List Partner
  pub next_id : ℕ
  pub company_partner : Option Partner
  pub partner_id : Option ℕ
  pub is_vat_verified : Bool
  pub mapping : Option (Option ℕ)
  pub external_partner : Option (List ℕ)
  pub pricelists : List (ℕ × ℕ)

abbrev pub store : Partner → World → World
store p w = record w { partners = map (λ q. if q.id == p.id then p else q) w.partners }

abbrev pub browse : Option ℕ → World → Option Partner
browse none w = none
browse (some i) w = find? (λ p. p.id == i) w.partners

abbrev pub set_vat_verified : Option Bool → World → World
set_vat_verified none w = record w { is_vat_verified = false }
set_vat_verified (some b) w = w

module _ (o : Odoo) (s : Settings) (p : Proxy) where
  unfoldable pub find_odoo_country : Result Error (Option ℕ)
  find_odoo_country =
      if is_set p.country
      then o.country_from_external p.country
      else ok (if is_set p.country_code then o.country_of_code p.country_code else none)

  abbrev pub state_by_code : Option ℕ → Option ℕ
  state_by_code none = none
  state_by_code (some country) =
      if is_set p.state_code then o.state_of_code country p.state_code else none

  unfoldable pub find_odoo_state : Option ℕ → Result Error (Option ℕ)
  find_odoo_state country =
      if not (o.has_states country)
      then ok none
      else if is_set p.state
      then o.state_from_external p.state
      else ok (state_by_code country)

  abbrev pub set_lang : Option String → Vals → Vals
  set_lang none vals = vals
  set_lang (some code) vals = set_val "lang" (char code) vals

  abbrev pub add_language : Vals → Result Error Vals
  add_language vals =
      if is_set p.language
      then (o.language_from_external p.language >>= λ code. ok (set_lang code vals))
      else ok vals

  abbrev pub add_places : Vals → Result Error Vals
  add_places vals = find_odoo_country >>= λ country. find_odoo_state country >>= λ state.
      ok (set_some "state_id" state (set_some "country_id" country vals))

  -- True, False, or None when the service is not available.
  abbrev pub validate_vat : String → Option ℕ → Option Bool
  validate_vat number none = some true
  validate_vat number (some country) =
      if s.ignore_vat_validation then some true else o.validate_integration_vat number country

  abbrev pub vat_vals : String → String → Option Bool → Vals
  vat_vals field number (some true) = (field, char number) ∷ []
  vat_vals field number _ = []

  abbrev pub get_vat_of : Option String → String → World → Result Error (Vals × World)
  get_vat_of none number w = ok ([], w)
  get_vat_of (some field) number w =
      if is_set number
      then (find_odoo_country >>= λ country. ok (
        vat_vals field number (validate_vat number country),
        set_vat_verified (validate_vat number country) w,
      ))
      else ok ([], w)

  unfoldable pub get_vat : World → Result Error (Vals × World)
  get_vat w = get_vat_of s.customer_company_vat_field (drop_dashes p.company_reg_number) w

  abbrev pub base_company_vals : Vals
  base_company_vals =
      ("name", char p.company_name)
      ∷ ("parent_id", no)
      ∷ ("is_company", yes)
      ∷ ("company_id", ref s.company_id)
      ∷ []

  unfoldable pub prepare_company_vals : World → Result Error (Vals × World)
  prepare_company_vals w =
      add_language base_company_vals >>= λ vals. get_vat w >>= λ r. ok (set_vals r.0 vals, r.1)

  abbrev pub match_fields : List String
  match_fields =
      "street" ∷ "street2" ∷ "city" ∷ "zip" ∷ "email" ∷ "phone" ∷ "mobile" ∷ "country_id"
      ∷ "state_id" ∷ []

  unfoldable pub write_address_fields_if_empty : Partner → World → Result Error (Partner × World)
  write_address_fields_if_empty partner w =
      if all (λ field. not (truthy (get_val field partner.columns))) match_fields
      then (add_places (simple_fields p) >>= λ vals.
          ok (o.write vals partner, store (o.write vals partner) w))
      else ok (partner, w)

  abbrev pub add_tag : Vals → Result Error Vals
  add_tag vals = o.integration_tag >>= λ tag. ok (set_val "category_id" (refs (tag ∷ [])) vals)

  -- A create without the value of a field, which is written afterwards.
  abbrev pub write_later : Option String → Vals → Partner → Partner
  write_later none vals partner = partner
  write_later (some field) vals partner =
      if truthy (get_val field vals)
      then o.write ((field, get_val field vals) ∷ []) partner
      else partner

  abbrev pub without : Option String → Vals → Vals
  without none vals = vals
  without (some field) vals = pop_val field vals

  abbrev pub create_later : Option String → Vals → World → Partner × World
  create_later field vals w =
      let new : Partner = write_later field vals (o.create w.next_id (without field vals)) in
      (new, record w { partners = w.partners ++ new ∷ []; next_id = suc w.next_id })

  abbrev pub found_or_create_company : Vals → World → List Partner → Result Error (Partner × World)
  found_or_create_company vals w (c ∷ cs) = ok (c, w)
  found_or_create_company vals w [] =
      add_tag vals >>= λ tagged. ok (create_later s.customer_company_vat_field tagged w)

  abbrev pub remember_company : Partner × World → Result Error (Partner × World)
  remember_company r = write_address_fields_if_empty r.0 r.1 >>= λ q.
      ok (q.0, record q.1 { company_partner = some q.0 })

  abbrev pub search_company : Vals × World → Result Error (Partner × World)
  search_company r =
      found_or_create_company r.0 r.1
        (o.search "" (collect_company_search_domain o.escape_psql s r.0) r.1.partners)
      >>= remember_company

  abbrev pub company_contact : Option Partner → World → Result Error (Partner × World)
  company_contact (some c) w = ok (c, w)
  company_contact none w = prepare_company_vals w >>= search_company

  unfoldable pub get_or_create_company_contact : World → Result Error (Partner × World)
  get_or_create_company_contact w = company_contact w.company_partner w

  abbrev pub set_parent : Vals → World → Result Error (Vals × World)
  set_parent vals w =
      if is_set p.company_name
      then (get_or_create_company_contact w >>= λ r.
          ok (set_val "parent_id" (ref r.0.id) vals, r.1))
      else ok (vals, w)

  abbrev pub set_char : String → String → Vals → Vals
  set_char key value vals = if is_set value then set_val key (char value) vals else vals

  abbrev pub base_partner_vals : Vals
  base_partner_vals =
      ("parent_id", no)
      ∷ ("is_company", no)
      ∷ ("type", char "contact")
      ∷ ("company_id", ref s.company_id)
      ∷ []

  abbrev pub set_person_id : Option String → Vals → Vals
  set_person_id none vals = vals
  set_person_id (some field) vals = set_val field (char p.person_id_number) vals

  abbrev pub named_vals : Vals
  named_vals = set_char "mobile" p.mobile (
      set_char "phone_sanitized" p.phone_sanitized (
        set_char "phone" p.phone (
          set_char "email" p.email (set_char "name" (join_words p.person_name) base_partner_vals))))

  unfoldable pub prepare_partner_vals : World → Result Error (Vals × World)
  prepare_partner_vals w = set_parent named_vals w >>= λ r.
      add_places (set_vals (simple_fields p) r.0) >>= add_language >>= λ vals.
      ok (set_person_id s.customer_personal_id_field vals, r.1)
