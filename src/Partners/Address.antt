-- ===== src/Partners/Address.antt =====
-- The address of an order: the customer's own, one that is there, or a new one;
-- integration/models/integration_res_partner_proxy.py.
use text.Mathlib.Text.{◌==◌ as str_eq}
use jean_fourche.Base.{
  ℕ, String, Bool, true, false, not, ◌&&◌, ◌||◌, Option, none, some, List, [], ◌∷◌, map, filter,
  ◌==◌, if◌then◌else◌,
}
use jean_fourche.Base.Text.{strip, lower, codes, join_words}
use jean_fourche.Base.Result.{Result, ok, ◌>>=◌}
use jean_fourche.Partners.Records.{
  Value, no, yes, char, ref, Vals, truthy, get_val, set_val, set_vals, Partner, Proxy, Settings,
  is_set, simple_fields,
}
use jean_fourche.Partners.Domain.{elem_str, collect_address_search_domain}
use jean_fourche.Partners.Odoo.{Odoo, Error, ref_of}
use jean_fourche.Partners.Proxy.{
  World, browse, get_or_create_company_contact, add_places, add_language, add_tag, set_char,
  create_later,
}

abbrev pub address_uniqueness_ignored_fields : List String
address_uniqueness_ignored_fields =
    "parent_id" ∷ "type" ∷ "external_company_name" ∷ "category_id" ∷ "lang" ∷ "active"
    ∷ "create_date" ∷ "write_date" ∷ []

abbrev pub case_insensitive_fields : List String
case_insensitive_fields = "name" ∷ "street" ∷ "street2" ∷ "city" ∷ "zip" ∷ "email" ∷ []

-- The id that a field has, or none for False, against a new value.
abbrev pub same_id : Option ℕ → Value → Bool
same_id (some i) (ref j) = i == j
same_id none no = true
same_id _ _ = false

abbrev pub same_codes : List ℕ → List ℕ → Bool
same_codes [] [] = true
same_codes (a ∷ xs) (b ∷ ys) = let rest = same_codes xs ys in (a == b) && rest
same_codes _ _ = false

-- The text of a field; records are compared by their id before.
abbrev pub text_of : Value → String
text_of (char s) = s
text_of yes = "True"
text_of _ = ""

abbrev pub is_text_changed : String → Value → Value → Bool
is_text_changed field old new =
    if elem_str field case_insensitive_fields
    then not (same_codes (lower (strip (text_of old))) (lower (strip (text_of new))))
    else not (same_codes (codes (strip (text_of old))) (codes (strip (text_of new))))

abbrev pub is_id_changed : String → Option ℕ → Value → Bool
is_id_changed field old new =
    if str_eq field "company_id"
    then not (same_id old no || same_id old new)
    else not (same_id old new)

-- partner[field].id
abbrev pub relation_of : Partner → String → Option ℕ
relation_of q field =
    if str_eq field "company_id" then q.company_id else ref_of (get_val field q.columns)

abbrev pub is_changed : Odoo → Partner → String × Value → Bool
is_changed o q (field, new) =
    if elem_str field address_uniqueness_ignored_fields || not (o.has_field field)
    then false
    else if o.is_relational field
    then is_id_changed field (relation_of q field) new
    else if not (truthy (get_val field q.columns)) && not (truthy new)
    then false
    else is_text_changed field (get_val field q.columns) new

-- The changed fields of _has_address_changes, which answers whether there are any.
unfoldable pub changed_fields : Odoo → Partner → Vals → List String
changed_fields o q vals = map (λ kv. kv.0) (filter (is_changed o q) vals)

abbrev pub address_type : String → String
address_type type =
    if str_eq type "billing_address"
    then "invoice"
    else if str_eq type "shipping_address"
    then "delivery"
    else "other"

module _ (o : Odoo) (s : Settings) (p : Proxy) where
  abbrev pub base_address_vals : ℕ → Vals
  base_address_vals customer = set_char o s p "name" (join_words p.person_name) (
      ("parent_id", ref customer)
      ∷ ("company_id", ref s.company_id)
      ∷ ("type", char (address_type p.type))
      ∷ [])

  abbrev pub set_company : Vals → World → Result Error (Vals × World)
  set_company vals w =
      if is_set p.company_name && not s.use_manual_customer_mapping
      then (get_or_create_company_contact o s p w >>= λ r.
          ok (set_val "parent_id" (ref r.0.id) vals, r.1))
      else ok (vals, w)

  unfoldable pub prepare_address_vals : ℕ → World → Result Error (Vals × World)
  prepare_address_vals customer w = set_company (base_address_vals customer) w >>= λ r.
      add_places o s p (set_vals (simple_fields p) r.0) >>= add_language o s p >>= λ vals.
      ok (set_char o s p "external_company_name" p.company_name vals, r.1)

  abbrev pub of_type : String → List Partner → List Partner
  of_type type = filter (λ q. str_eq q.type type)

  -- x.filtered(…) or x
  abbrev pub or_all : List Partner → List Partner → List Partner
  or_all [] qs = qs
  or_all (q ∷ qs) rs = q ∷ qs

  abbrev pub first_or_create : Vals → World → List Partner → Result Error (Partner × World)
  first_or_create vals w (q ∷ qs) = ok (q, w)
  first_or_create vals w [] = add_tag o s p vals >>= λ tagged. ok (create_later o s p none tagged w)

  abbrev pub search_address : Vals → World → Result Error (Partner × World)
  search_address vals w =
      let found : List Partner =
        o.search "" (collect_address_search_domain o.escape_psql vals) w.partners in
      first_or_create vals w (or_all (of_type (address_type p.type) found) found)

  -- The contact itself, if the address differs from it in no field.
  abbrev pub unless_changed : Vals → List String → Partner × World → Result Error (Partner × World)
  unless_changed vals [] r = ok r
  unless_changed vals (field ∷ fields) r = search_address vals r.1

  abbrev pub reuse_or_search : Vals → Partner × World → Result Error (Partner × World)
  reuse_or_search vals r = unless_changed vals (changed_fields o r.0 vals) r

  -- The contact as it is now, after the company contact may have been written.
  abbrev pub reread : Partner → Option Partner → Partner
  reread q none = q
  reread q (some now) = now

  abbrev pub address_of : Partner → Vals × World → Result Error (Partner × World)
  address_of customer (vals, w) =
      if not s.skip_individual_contacts || not (is_set p.company_name)
      then reuse_or_search vals (reread customer (browse (some customer.id) w), w)
      else (get_or_create_company_contact o s p w >>= reuse_or_search vals)

  abbrev pub some_partner : Partner × World → Result Error (Option Partner × World)
  some_partner r = ok (some r.0, r.1)

  -- Without a customer there is no address.
  unfoldable pub get_or_create_address :
      Option Partner → World → Result Error (Option Partner × World)
  get_or_create_address none w = ok (none, w)
  get_or_create_address (some customer) w =
      prepare_address_vals customer.id w >>= address_of customer >>= some_partner
