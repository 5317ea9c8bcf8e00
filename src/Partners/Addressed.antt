-- ===== src/Partners/Addressed.antt =====
-- Every address that an order is given is of the store's company or of none.
use text.Mathlib.Text.{◌==◌ as str_eq}
use text.Mathlib.TextEquality.{eq_iff}
use mathlib.Core.Path.{subst}
use jean_fourche.Base.{
  ℕ, String, Bool, true, false, not, ◌&&◌, ◌||◌, ◌≡◌, refl, ap, sym, ◌∙◌, ◌⊎◌, inl, inr, Option,
  none, some, filter, List, [], ◌∷◌, map, In, In-filter, if◌then◌else◌, arith, Bool-cases,
}
use jean_fourche.Base.Text.{join_words}
use jean_fourche.Base.Result.{ok, ◌>>=◌, Holds, Holds-bind, Holds-if, Holds-mono}
use jean_fourche.Partners.Records.{char, ref, Vals, get_val, Partner, Proxy, Settings, is_set}
use jean_fourche.Partners.Odoo.{Odoo, Error, Laws, Includes, Belongs}
use jean_fourche.Partners.Proxy.{
  World, browse, set_char, create_later, add_tag, get_or_create_company_contact,
}
use jean_fourche.Partners.Keeps.{Keeps, company_leaf, company_term, Includes-build, Includes-left}
use jean_fourche.Partners.Details.{
  IsPrepared, set_char-Keeps, under_company-IsPrepared, completed-IsPrepared,
}
use jean_fourche.Partners.Company.{
  IsConfigured, IsKept, IsSound, create-IsSound, get_or_create_company_contact-IsSound,
}
use jean_fourche.Partners.Address.{
  is_changed, changed_fields, is_id_changed, base_address_vals, set_company, prepare_address_vals,
  of_type, or_all, first_or_create, search_address, unless_changed, reuse_or_search, address_of,
  reread, some_partner, get_or_create_address, address_type,
}
use jean_fourche.Partners.Domain.{
  collect_address_search_domain, build_search_domain, address_criteria, address_types,
}

not_found :
    {A : Type 0} → (p : A → Bool) (a : A) (xs : List A) → filter p xs ≡ [] → In a xs → p a ≡ false
not_found p a [] e m = absurd m
not_found p a (x ∷ xs) e (inl same) = subst (λ y. p y ≡ false) same (ground arith)
not_found p a (x ∷ xs) e (inr m) = not_found p a xs (ground arith) m

get_val-In : (key : String) (i : ℕ) (vals : Vals) → get_val key vals ≡ ref i → In (key, ref i) vals
get_val-In key i [] e = absurd (ground arith)
get_val-In key i ((k, v) ∷ vals) e = elim (Bool-cases (str_eq k key)) [
  | inl y ↦
      let same : k ≡ key = (eq_iff k key).0 y in
      let value : v ≡ ref i = subst (λ b. (if b then v else get_val key vals) ≡ ref i) y e in
      inl (ap (λ j. (j, v)) same ∙ ap (λ u. (key, u)) value)
  | inr n ↦
      inr (get_val-In key i vals (subst (λ b. (if b then v else get_val key vals) ≡ ref i) n e))
]

map-nil : {A B : Type 0} → (f : A → B) (xs : List A) → map f xs ≡ [] → xs ≡ []
map-nil f [] e = refl
map-nil f (x ∷ xs) e = absurd (ground arith)

address_domain-Includes :
    (escape : String → String) (c : ℕ) (vals : Vals)
    → get_val "company_id" vals ≡ ref c
    → Includes (company_leaf escape c) (collect_address_search_domain escape vals)
unfolding collect_address_search_domain
address_domain-Includes escape c vals k =
    Includes-left (company_leaf escape c)
      (build_search_domain escape (address_criteria escape vals) vals) (address_types escape ∷ [])
      (Includes-build escape (company_leaf escape c) "company_id" "in"
        (address_criteria escape vals) vals (inr (inr (inl refl))) (company_term escape c vals k))

unchanged-Belongs :
    (i : Option ℕ) (c : ℕ)
    → is_id_changed "company_id" i (ref c) ≡ false
    → (i ≡ none) ⊎ (i ≡ some c)
unchanged-Belongs none c e = inl refl
unchanged-Belongs (some d) c e = inr (ap some (ground arith))

abbrev pub Belonging : ℕ → Option Partner → Type 0
Belonging c none = Unit
Belonging c (some q) = Belongs c q

module _ (o : Odoo) (s : Settings) (p : Proxy) (laws : Laws o) (h : IsConfigured s) where
  -- A contact that the address does not differ from is of the company of the address.
  changed_fields-Belongs :
      (q : Partner) (vals : Vals)
      → get_val "company_id" vals ≡ ref s.company_id
      → changed_fields o q vals ≡ []
      → Belongs s.company_id q
  unfolding changed_fields
  changed_fields-Belongs q vals k e =
      unchanged-Belongs q.company_id s.company_id
        (ground (arith, laws.has_field-company_id, laws.is_relational-company_id, unchanged))
    where
      unchanged : is_changed o q ("company_id", ref s.company_id) ≡ false
      unchanged =
          not_found (is_changed o q) ("company_id", ref s.company_id) vals
            (map-nil (λ kv. kv.0) (filter (is_changed o q) vals) e)
            (get_val-In "company_id" s.company_id vals k)

  base_address_vals-Keeps :
      (customer : ℕ) → Keeps s.company_id (char "") (base_address_vals o s p customer)
  base_address_vals-Keeps customer =
      set_char-Keeps o s p laws h (char "") "name" (join_words p.person_name)
        (("parent_id", ref customer)
          ∷ ("company_id", ref s.company_id)
          ∷ ("type", char (address_type p.type))
          ∷ [])
        (refl, refl) (refl, refl)

  prepare_address_vals-IsPrepared :
      (customer : ℕ) (w : World)
      → IsKept o s p laws h w.company_partner
      → Holds (IsPrepared o s p laws h (char "")) (prepare_address_vals o s p customer w)
  unfolding prepare_address_vals
  prepare_address_vals-IsPrepared customer w c =
      completed-IsPrepared o s p laws h (char "")
        (set_char o s p "external_company_name" p.company_name)
        (set_company o s p (base_address_vals o s p customer) w)
        (λ vals k.
          set_char-Keeps o s p laws h (char "") "external_company_name" p.company_name vals
            (refl, refl) k)
        (under_company-IsPrepared o s p laws h (char "")
          (is_set p.company_name && not s.use_manual_customer_mapping)
          (base_address_vals o s p customer) w (base_address_vals-Keeps customer) c)

  abbrev IsHere : Partner × World → Type 0
  IsHere r = Belongs s.company_id r.0

  or_all-In :
      (q : Partner) (qs rs : List Partner)
      → (In q qs → In q rs)
      → In q (or_all o s p qs rs)
      → In q rs
  or_all-In q [] rs f m = m
  or_all-In q (x ∷ qs) rs f m = f m

  search_address-IsHere :
      (vals : Vals) (w : World)
      → Keeps s.company_id (char "") vals
      → IsKept o s p laws h w.company_partner
      → Holds IsHere (search_address o s p vals w)
  search_address-IsHere vals w k c =
      by_found (or_all o s p (of_type o s p (address_type p.type) found) found) from_search
    where
      found : List Partner
      found = o.search "" (collect_address_search_domain o.escape_psql vals) w.partners

      from_search :
          (q : Partner)
          → In q (or_all o s p (of_type o s p (address_type p.type) found) found)
          → In q found
      from_search q =
          or_all-In q (of_type o s p (address_type p.type) found) found
            (λ m. (In-filter (λ x. str_eq x.type (address_type p.type)) q found m).0)

      by_found :
          (qs : List Partner)
          → ((q : Partner) → In q qs → In q found)
          → Holds IsHere (first_or_create o s p vals w qs)
      by_found [] f =
          Holds-mono (IsSound o s p laws h false) IsHere
            (add_tag o s p vals >>= λ tagged. ok (create_later o s p none tagged w)) (λ r i. i.0.0)
            (create-IsSound o s p laws h (char "") none vals w tt k c)
      by_found (q ∷ qs) f =
          laws.search-company "" s.company_id (collect_address_search_domain o.escape_psql vals)
            w.partners q (address_domain-Includes o.escape_psql s.company_id vals k.0)
            (f q (inl refl))

  unless_changed-IsHere :
      (vals : Vals) (q : Partner) (w : World) (fields : List String)
      → changed_fields o q vals ≡ fields
      → Keeps s.company_id (char "") vals
      → IsKept o s p laws h w.company_partner
      → Holds IsHere (unless_changed o s p vals fields (q, w))
  unless_changed-IsHere vals q w [] e k c = changed_fields-Belongs q vals k.0 e
  unless_changed-IsHere vals q w (field ∷ fields) e k c = search_address-IsHere vals w k c

  address_of-IsHere :
      (customer : Partner) (r : Vals × World)
      → IsPrepared o s p laws h (char "") r
      → Holds IsHere (address_of o s p customer r)
  address_of-IsHere customer (vals, w) i =
      Holds-if {E = Error} IsHere (not s.skip_individual_contacts || not (is_set p.company_name))
        (reuse_or_search o s p vals (now, w))
        (get_or_create_company_contact o s p w >>= reuse_or_search o s p vals)
        (λ _. unless_changed-IsHere vals now w (changed_fields o now vals) refl i.0 i.1)
        (λ _.
          Holds-bind IsHere (IsSound o s p laws h true) (get_or_create_company_contact o s p w)
            (reuse_or_search o s p vals) (get_or_create_company_contact-IsSound o s p laws h w i.1)
            (λ r g. unless_changed-IsHere vals r.0 r.1 (changed_fields o r.0 vals) refl i.0 g.1))
    where
      now : Partner
      now = reread o s p customer (browse (some customer.id) w)

  -- The address of an order, whether it is the customer itself, the company contact, an address that was
  -- there or a new one, belongs to the company of the store or to none. The proxy has kept no company
  -- contact before, the database does what its documentation says, and the fields that the store has
  -- configured are neither the company nor the kind.
  pub get_or_create_address-Belongs :
      (customer : Option Partner) (w : World)
      → w.company_partner ≡ none
      → Holds (λ r. Belonging s.company_id r.0) (get_or_create_address o s p customer w)
  unfolding get_or_create_address
  get_or_create_address-Belongs none w e = tt
  get_or_create_address-Belongs (some customer) w e =
      Holds-bind (λ r. Belonging s.company_id r.0) IsHere
        (prepare_address_vals o s p customer.id w >>= address_of o s p customer)
        (some_partner o s p)
        (Holds-bind IsHere (IsPrepared o s p laws h (char ""))
          (prepare_address_vals o s p customer.id w) (address_of o s p customer)
          (prepare_address_vals-IsPrepared customer.id w (subst (IsKept o s p laws h) (sym e) tt))
          (λ r i. address_of-IsHere customer r i))
        (λ r b. b)
