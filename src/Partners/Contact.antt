-- ===== src/Partners/Contact.antt =====
-- The contact that an order is given: mapped, found or made;
-- integration/models/integration_res_partner_proxy.py.
use jean_fourche.Base.{
  ℕ, Bool, true, false, not, ◌&&◌, Option, none, some, List, [], ◌∷◌, ◌++◌, elem, ◌==◌,
  if◌then◌else◌,
}
use jean_fourche.Base.Result.{Result, ok, ◌>>=◌}
use jean_fourche.Partners.Records.{Vals, Partner, Proxy, Settings, is_set}
use jean_fourche.Partners.Domain.{collect_partner_search_domain}
use jean_fourche.Partners.Odoo.{Odoo, Error}
use jean_fourche.Partners.Proxy.{
  World, browse, get_or_create_company_contact, prepare_partner_vals, write_address_fields_if_empty,
  create_later, add_tag,
}

abbrev pub id_of : Option Partner → Option ℕ
id_of none = none
id_of (some p) = some p.id

-- The contact of the mapping, which may have none.
abbrev pub mapped_id : Option (Option ℕ) → Option ℕ
mapped_id none = none
mapped_id (some i) = i

-- get_customer(False)
abbrev pub get_customer : World → Option Partner × World
get_customer w = (
  browse (mapped_id w.mapping) w,
  record w { partner_id = id_of (browse (mapped_id w.mapping) w) },
)

abbrev pub is_other : Option ℕ → ℕ → Bool
is_other none company = false
is_other (some c) company = not (c == company)

-- A parent, and a company that is expected.
abbrev pub fits_parent : ℕ → Option Partner → Option Partner → Bool
fits_parent company (some parent) (some expected) =
    (parent.id == expected.id) && not (is_other parent.company_id company)
fits_parent company _ _ = true

abbrev pub fits_company : Settings → Partner → Option Partner → Bool
fits_company s partner none = true
fits_company s partner (some expected) =
    if s.skip_individual_contacts && partner.is_company
    then (partner.id == expected.id) && not (is_other partner.company_id s.company_id)
    else true

abbrev pub is_given : {A : Type 0} → Option A → Bool
is_given none = false
is_given (some a) = true

-- The checks of a mapped contact in their order; the parent is read from the database.
abbrev pub is_fit : Settings → Partner → Option Partner → Option Partner → Bool
is_fit s partner parent expected =
    if is_other partner.company_id s.company_id
    then false
    else if partner.is_company && not s.skip_individual_contacts
    then false
    else if not partner.is_company && s.skip_individual_contacts
    then false
    else if is_given expected
        && not s.skip_individual_contacts
        && not partner.is_company
        && not (is_given parent)
    then false
    else fits_parent s.company_id parent expected && fits_company s partner expected

module _ (o : Odoo) (s : Settings) (p : Proxy) where
  abbrev pub company_if_named : World → Result Error (Option Partner × World)
  company_if_named w =
      if is_set p.company_name
      then (get_or_create_company_contact o s p w >>= λ r. ok (some r.0, r.1))
      else ok (none, w)

  unfoldable pub is_mapping_compatible : Partner → World → Result Error (Bool × World)
  is_mapping_compatible partner w =
      if not partner.active
      then ok (false, w)
      else company_if_named w >>= λ r. ok (is_fit s partner (browse partner.parent_id r.1) r.0, r.1)

  abbrev pub if_compatible : Partner → Bool × World → Result Error (Option Partner × World)
  if_compatible partner (true, w) = ok (some partner, w)
  if_compatible partner (false, w) = ok (none, w)

  abbrev pub compatible_customer : Option Partner × World → Result Error (Option Partner × World)
  compatible_customer (none, w) = ok (none, w)
  compatible_customer (some partner, w) =
      if not partner.active
      then ok (none, w)
      else is_mapping_compatible partner w >>= if_compatible partner

  unfoldable pub get_compatible_mapped_partner : World → Result Error (Option Partner × World)
  get_compatible_mapped_partner w =
      if is_set p.external_id then compatible_customer (get_customer w) else ok (none, w)

  -- The mapping that is there is written; else one is made, with its external record.
  abbrev pub create_or_update_mapping : World → World
  create_or_update_mapping w = record w {
    mapping = some w.partner_id;
    external_partner = elim w.external_partner [ none ↦ some [] | some ids ↦ some ids ];
  }

  abbrev pub link_external_partner : Partner → World → World
  link_external_partner partner w = record w {
    external_partner = elim w.external_partner [
      | none ↦ none
      | some ids ↦ some (if elem partner.id ids then ids else ids ++ partner.id ∷ [])
    ];
  }

  -- On the parent, if the contact has one.
  abbrev pub priced : Option ℕ → ℕ → ℕ
  priced none id = id
  priced (some parent) id = parent

  abbrev pub set_pricelist : Partner → Option ℕ → World → World
  set_pricelist partner none w = w
  set_pricelist partner (some pricelist) w = record w {
    pricelists = w.pricelists ++ (priced partner.parent_id partner.id, pricelist) ∷ [];
  }

  abbrev pub set_partner_pricelist : Partner → World → World
  set_partner_pricelist partner w =
      if s.pricelist_integration && is_set p.pricelist_id
      then set_pricelist partner (o.pricelist_from_external p.pricelist_id) w
      else w

  unfoldable pub configure_partner : Partner → World → World
  configure_partner partner w =
      let w' : World = record w { partner_id = some partner.id } in
      set_partner_pricelist partner (
        if is_set p.external_id
        then link_external_partner partner (create_or_update_mapping w')
        else w')

  abbrev pub found_or_create_partner : Vals → World → List Partner → Result Error (Partner × World)
  found_or_create_partner vals w (partner ∷ ps) = write_address_fields_if_empty o s p partner w
  found_or_create_partner vals w [] =
      add_tag o s p vals >>= λ tagged. ok (create_later o s p s.customer_personal_id_field tagged w)

  abbrev pub search_partner : Vals × World → Result Error (Partner × World)
  search_partner r = found_or_create_partner r.0 r.1 (
      o.search "create_date asc"
        (collect_partner_search_domain o.escape_psql s p.person_id_number r.0) r.1.partners)

  unfoldable pub search_or_create_partner : World → Result Error (Partner × World)
  search_or_create_partner w = prepare_partner_vals o s p w >>= search_partner

  abbrev pub configured : Partner × World → Result Error (Partner × World)
  configured r = ok (r.0, configure_partner r.0 r.1)

  abbrev pub partner_unless_mapped : Option Partner × World → Result Error (Partner × World)
  partner_unless_mapped (some partner, w) = configured (partner, w)
  partner_unless_mapped (none, w) =
      (if s.skip_individual_contacts && is_set p.company_name
        then get_or_create_company_contact o s p w
        else search_or_create_partner w)
      >>= configured

  unfoldable pub get_or_create_partner : World → Result Error (Partner × World)
  get_or_create_partner w = get_compatible_mapped_partner w >>= partner_unless_mapped
