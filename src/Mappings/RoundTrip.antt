-- ===== src/Mappings/RoundTrip.antt =====
-- What was bound is found again, from the store's side and from Odoo's.
use text.Mathlib.Text.{◌==◌ as str_eq}
use text.Mathlib.TextEquality.{eq_iff}
use jean_fourche.Base.{
  ℕ, ◌≤◌, String, Bool, true, false, ◌&&◌, ◌≡◌, refl, ap, ◌∙◌, Option, none, some, List, [], ◌∷◌,
  ◌++◌, map, filter, count, find?, ◌==◌, ltb, if◌then◌else◌, arith,
}
use jean_fourche.Base.Result.{ok, err, ◌>>=◌, Holds, Holds-bind, Holds-if, Holds-mono, Holds-both}
use jean_fourche.Mappings.Records.{
  ExternalRecord, MappingRecord, Error, Db, Vals, is_code, update_first, write_vals, new_external,
  create_or_update, create_or_write, created, written, is_reference, unique_violation,
  assertion_error,
}
use jean_fourche.Mappings.Mixin.{
  is_mapped, bind_found, new_mapping, write_internal, create_mapping, bind_external,
  create_integration_mapping, internals, get_mapping, get_internal_record, found_or_raise, to_odoo,
  search_mapping_from_external,
}
use jean_fourche.Mappings.Valid.{IsValid, create_or_update-IsValid}

module _ {A : Type 0} where
  pub filter_nil : (p : A → Bool) (xs : List A) → count p xs ≡ 0 → filter p xs ≡ []
  filter_nil p [] h = refl
  filter_nil p (x ∷ xs) h = ground (arith, filter_nil p xs)

  -- A test that holds once: all that it finds is the first.
  pub filter_once :
      (p : A → Bool) (xs : List A) (a : A)
      → count p xs ≤ 1
      → find? p xs ≡ some a
      → filter p xs ≡ a ∷ []
  filter_once p [] a h e = ground arith
  filter_once p (x ∷ xs) a h e = ground (arith, filter_nil p xs, filter_once p xs a)

  find-update_first :
      (p : A → Bool) (f : A → A) (xs : List A) (a : A)
      → ((x : A) → p x ≡ true → p (f x) ≡ true)
      → find? p xs ≡ some a
      → find? p (update_first p f xs) ≡ some (f a)
  find-update_first p f [] a k e = ground arith
  find-update_first p f (x ∷ xs) a k e = ground (arith, k x, find-update_first p f xs a k)

  find-append_new :
      (p : A → Bool) (xs : List A) (a : A)
      → find? p xs ≡ none
      → p a ≡ true
      → find? p (xs ++ a ∷ []) ≡ some a
  find-append_new p [] a e h = ground arith
  find-append_new p (x ∷ xs) a e h = ground (arith, find-append_new p xs a)

  pub filter-append :
      (p : A → Bool) (xs ys : List A) → filter p (xs ++ ys) ≡ filter p xs ++ filter p ys
  filter-append p [] ys = refl
  filter-append p (x ∷ xs) ys = ground (arith, filter-append p xs ys)

  -- A change of what a test finds, if the test does not see it.
  filter-map_found :
      (p : A → Bool) (f : A → A) (xs : List A)
      → ((x : A) → p (f x) ≡ p x)
      → filter p (map (λ x. if p x then f x else x) xs) ≡ map f (filter p xs)
  filter-map_found p f [] h = refl
  filter-map_found p f (x ∷ xs) h = ground (arith, h x, filter-map_found p f xs h)

abbrev pub bound_to : ℕ → MappingRecord → MappingRecord
bound_to odoo_id m = record m { internal = some odoo_id }

internals-bound :
    (odoo_id : ℕ) (ms : List MappingRecord)
    → internals (map (bound_to odoo_id) ms) (odoo_id ∷ []) ≡ odoo_id ∷ []
internals-bound odoo_id [] = refl
internals-bound odoo_id (m ∷ ms) = ground (arith, internals-bound odoo_id ms)

module _ (integration odoo_id : ℕ) (code : String) where
  abbrev pub vals : Option String → Option String → Vals
  vals name reference = record {
    integration_id = integration;
    code = code;
    name = name;
    external_reference = reference;
  }

  -- The record that `create_or_update` gives back is the one of the code.
  abbrev pub Found : List MappingRecord → ExternalRecord × Db → Type 0
  Found ms r =
      (find? (is_code integration code) r.1.externals ≡ some r.0)
      × (r.0.code ≡ code)
      × (r.1.mappings ≡ ms)

  code_is : (i : ℕ) (c : String) → ((i == i) && str_eq c c) ≡ true
  code_is i c = ground (arith, (eq_iff c c).1 refl)

  pub create_or_write-Found :
      (name reference : Option String) (db : Db) (o : Option ExternalRecord)
      → find? (is_code integration code) db.externals ≡ o
      → Holds (Found db.mappings) (create_or_write (vals name reference) db o)
  create_or_write-Found name reference db none e =
      Holds-if {E = Error} (Found db.mappings)
        (ltb 1
          (count (is_reference integration reference) (created (vals name reference) db).externals))
        (err unique_violation)
        (ok (new_external db.next_external (vals name reference), created (vals name reference) db))
        (λ _. tt {0})
        (λ _. (
          find-append_new (is_code integration code) db.externals
              (new_external db.next_external (vals name reference)) e (code_is integration code),
          refl,
          refl,
        ))
  create_or_write-Found name reference db (some old) e =
      let new : ExternalRecord = write_vals (vals name reference) old in
      Holds-if {E = Error} (Found db.mappings)
        (ltb 1 (
          count (is_reference integration new.external_reference)
            (written (vals name reference) old db).externals))
        (err unique_violation) (ok (new, written (vals name reference) old db)) (λ _. tt {0})
        (λ _. (
          find-update_first (is_code integration code) (write_vals (vals name reference))
              db.externals old (λ _ _. code_is integration code) e,
          refl,
          refl,
        ))

  abbrev pub IsBound : ExternalRecord → List ExternalRecord → Db → Type 0
  IsBound e es db =
      (db.externals ≡ es)
      × (internals (filter (is_mapped integration e.id) db.mappings) [] ≡ odoo_id ∷ [])

  bind_found-IsBound :
      (e : ExternalRecord) (db : Db) (ms : List MappingRecord)
      → filter (is_mapped integration e.id) db.mappings ≡ ms
      → Holds (IsBound e db.externals) (bind_found integration odoo_id code e db ms)
  unfolding create_mapping write_internal
  bind_found-IsBound e db [] f = (
    refl,
    ap (λ l. internals l [])
          (filter-append p db.mappings (new ∷ []) ∙ ap (λ l. l ++ filter p (new ∷ [])) f)
        ∙ one,
  )
    where
      p : MappingRecord → Bool
      p = is_mapped integration e.id

      new : MappingRecord
      new = new_mapping integration (some odoo_id) e.id db

      one : internals (filter p (new ∷ [])) [] ≡ odoo_id ∷ []
      one = ground arith
  bind_found-IsBound e db (m ∷ ms) f =
      Holds-if {E = Error} (IsBound e db.externals) (str_eq e.code code)
        (ok (write_internal p (some odoo_id) db)) (err assertion_error)
        (λ _. (
          refl,
          ap (λ l. internals l [])
                (filter-map_found p (bound_to odoo_id) db.mappings (λ _. refl)
                  ∙ ap (map (bound_to odoo_id)) f)
              ∙ internals-bound odoo_id ms,
        ))
        (λ _. tt {0})
    where
      p : MappingRecord → Bool
      p = is_mapped integration e.id

  pub bind_external-IsBound :
      (r : ExternalRecord × Db)
      → Holds (IsBound r.0 r.1.externals) (bind_external integration odoo_id code r)
  bind_external-IsBound (e, db) =
      bind_found-IsBound e db (filter (is_mapped integration e.id) db.mappings) refl

  -- What `create_or_update` leaves: the record is there, and the tables are well formed.
  pub create_or_update-Found :
      (name reference : Option String) (db : Db)
      → IsValid db
      → Holds (λ r. Found db.mappings r × IsValid r.1) (create_or_update (vals name reference) db)
  unfolding create_or_update
  create_or_update-Found name reference db v =
      Holds-both (Found db.mappings) (λ r. IsValid r.1) (create_or_update (vals name reference) db)
        (create_or_write-Found name reference db (find? (is_code integration code) db.externals)
          refl)
        (create_or_update-IsValid (vals name reference) db v)

  found_or_raise_some : (b : Bool) (i : ℕ) → found_or_raise b code (i ∷ []) ≡ ok (i ∷ [])
  found_or_raise_some true i = refl
  found_or_raise_some false i = refl

  to_odoo-bound :
      (raise_error : Bool) (e : ExternalRecord) (es : List ExternalRecord) (db : Db)
      → str_eq code "" ≡ false
      → filter (is_code integration code) es ≡ e ∷ []
      → IsBound e es db
      → to_odoo raise_error integration code db ≡ ok (odoo_id ∷ [])
  unfolding to_odoo get_mapping
  to_odoo-bound raise_error e es db n f (s, i) =
      ap
        (λ b.
          (if b
            then ok []
            else search_mapping_from_external integration
                (filter (is_code integration code) db.externals) db)
          >>= get_internal_record raise_error code)
        n
      ∙ ap
          (λ l.
            search_mapping_from_external integration (filter (is_code integration code) l) db
            >>= get_internal_record raise_error code)
          s
      ∙ ap
          (λ l.
            search_mapping_from_external integration l db >>= get_internal_record raise_error code)
          f
      ∙ ap (found_or_raise raise_error code) i
      ∙ found_or_raise_some raise_error odoo_id

-- A code that was bound to a record of Odoo, and that is not empty, is translated to that record and
-- no other, whatever the code was bound to before.
pub to_odoo-create_integration_mapping :
    (raise_error : Bool) (integration odoo_id : ℕ) (code : String) (name reference : Option String)
    (db : Db)
    → IsValid db
    → str_eq code "" ≡ false
    → Holds
        (λ after. to_odoo raise_error integration code after ≡ ok (odoo_id ∷ []))
        (create_integration_mapping integration odoo_id code name reference db)
unfolding create_integration_mapping
to_odoo-create_integration_mapping raise_error integration odoo_id code name reference db v n =
    Holds-bind Translated (λ r. Found integration odoo_id code db.mappings r × IsValid r.1)
      (create_or_update (vals integration odoo_id code name reference) db)
      (bind_external integration odoo_id code)
      (create_or_update-Found integration odoo_id code name reference db v)
      (λ r h.
        Holds-mono (IsBound integration odoo_id code r.0 r.1.externals) Translated
          (bind_external integration odoo_id code r)
          (λ after bound.
            to_odoo-bound integration odoo_id code raise_error r.0 r.1.externals after n
              (filter_once (is_code integration code) r.1.externals r.0 (h.1.codes integration code)
                h.0.0)
              bound)
          (bind_external-IsBound integration odoo_id code r))
  where
    Translated : Db → Type 0
    Translated after = to_odoo raise_error integration code after ≡ ok (odoo_id ∷ [])
