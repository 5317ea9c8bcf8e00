-- ===== src/Mappings/Valid.antt =====
-- The tables stay well formed: a store has a code once, an id is given once, and an external record
-- has one mapping at most.
use text.Mathlib.Text.{◌==◌ as str_eq}
use text.Mathlib.TextEquality.{eq_iff}
use jean_fourche.Base.{
  ℕ, ◌≤◌, String, Bool, true, ◌&&◌, ◌≡◌, refl, ap, sym, ◌∙◌, Option, none, some, List, [], ◌∷◌, map,
  filter, count, count-append, find?, ◌==◌, ltb, if◌then◌else◌, arith,
}
use jean_fourche.Base.Result.{ok, err, Holds, Holds-bind, Holds-if}
use jean_fourche.Mappings.Records.{
  ExternalRecord, MappingRecord, Error, Db, Vals, is_code, update_first, write_vals, new_external,
  checked, create_or_update, create_or_write, created, written, is_reference, unique_violation,
  assertion_error,
}
use jean_fourche.Mappings.Mixin.{
  is_mapped, bind_found, new_mapping, write_internal, create_mapping, bind_external,
  create_integration_mapping,
}

abbrev pub is_id : ℕ → ExternalRecord → Bool
is_id k e = e.id == k

pub record IsValid (db : Db) : Type 0 where
  pub codes : (i : ℕ) (c : String) → count (is_code i c) db.externals ≤ 1
  pub ids : (k : ℕ) → count (is_id k) db.externals ≤ 1
  pub fresh : (k : ℕ) → db.next_external ≤ k → count (is_id k) db.externals ≡ 0
  pub pairs : (i k : ℕ) → count (is_mapped i k) db.mappings ≤ 1

module _ {A : Type 0} where
  -- A write that leaves a test alone leaves its count alone.
  pub count-update_first :
      (q p : A → Bool) (f : A → A) (xs : List A)
      → ((x : A) → p x ≡ true → q (f x) ≡ q x)
      → count q (update_first p f xs) ≡ count q xs
  count-update_first q p f [] h = refl
  count-update_first q p f (x ∷ xs) h = ground (arith, h x, count-update_first q p f xs h)

  pub count-map :
      (q : A → Bool) (f : A → A) (xs : List A)
      → ((x : A) → q (f x) ≡ q x)
      → count q (map f xs) ≡ count q xs
  count-map q f [] h = refl
  count-map q f (x ∷ xs) h = ground (arith, h x, count-map q f xs h)

  pub count-filter-le : (q p : A → Bool) (xs : List A) → count q (filter p xs) ≤ count q xs
  count-filter-le q p [] = omega arith
  count-filter-le q p (x ∷ xs) = ground (arith, count-filter-le q p xs)

  pub count-find_none : (p : A → Bool) (xs : List A) → find? p xs ≡ none → count p xs ≡ 0
  count-find_none p [] h = refl
  count-find_none p (x ∷ xs) h = ground (arith, count-find_none p xs)

  pub count-filter_nil : (p : A → Bool) (xs : List A) → filter p xs ≡ [] → count p xs ≡ 0
  count-filter_nil p [] h = refl
  count-filter_nil p (x ∷ xs) h = ground (arith, count-filter_nil p xs)

-- Two keys that a test takes for the same count the same.
same_key :
    (i j : ℕ) (c d : String) (xs : List ExternalRecord)
    → ((i == j) && str_eq c d) ≡ true
    → count (is_code j d) xs ≡ count (is_code i c) xs
same_key i j c d xs h =
    let e : j ≡ i = ground arith in
    let e' : d ≡ c = ground (arith, eq_iff c d) in
    ap (λ k. count (is_code k d) xs) e ∙ ap (λ t. count (is_code i t) xs) e'

created-IsValid :
    (vals : Vals) (db : Db)
    → IsValid db
    → find? (is_code vals.integration_id vals.code) db.externals ≡ none
    → IsValid (created vals db)
created-IsValid vals db v e = record {
  codes = λ i c. ground (
    arith,
    count-append (is_code i c) db.externals (new_external db.next_external vals ∷ []),
    v.codes i c,
    same_key vals.integration_id i vals.code c db.externals,
    count-find_none (is_code vals.integration_id vals.code) db.externals e,
  );
  ids = λ k. ground (
    arith,
    count-append (is_id k) db.externals (new_external db.next_external vals ∷ []),
    v.ids k,
    v.fresh k,
  );
  fresh = λ k lt. ground (
    arith,
    count-append (is_id k) db.externals (new_external db.next_external vals ∷ []),
    v.fresh k (omega arith),
  );
  pairs = v.pairs;
}

written-IsValid :
    (vals : Vals) (old : ExternalRecord) (db : Db) → IsValid db → IsValid (written vals old db)
written-IsValid vals old db v = record {
  codes = λ i c. omega (arith, kept (is_code i c) (code_kept i c), v.codes i c);
  ids = λ k. omega (arith, kept (is_id k) (λ x h. refl), v.ids k);
  fresh = λ k lt. kept (is_id k) (λ x h. refl) ∙ v.fresh k lt;
  pairs = v.pairs;
}
  where
    p : ExternalRecord → Bool
    p = is_code vals.integration_id vals.code

    kept :
        (q : ExternalRecord → Bool)
        → ((x : ExternalRecord) → p x ≡ true → q (write_vals vals x) ≡ q x)
        → count q (update_first p (write_vals vals) db.externals) ≡ count q db.externals
    kept q h = count-update_first q p (write_vals vals) db.externals h

    code_kept :
        (i : ℕ) (c : String) (x : ExternalRecord)
        → p x ≡ true
        → is_code i c (write_vals vals x) ≡ is_code i c x
    code_kept i c x h =
        let e : x.integration_id ≡ vals.integration_id = ground arith in
        let e' : x.code ≡ vals.code = ground (arith, eq_iff x.code vals.code) in
        ap (λ k. (k == i) && str_eq vals.code c) (sym e)
        ∙ ap (λ t. (x.integration_id == i) && str_eq t c) (sym e')

pub checked_lem :
    (P : Db → Type 0) (e : ExternalRecord) (db : Db) → P db → Holds (λ r. P r.1) (checked e db)
checked_lem P e db h =
    Holds-if {E = Error} (λ (r : ExternalRecord × Db). P r.1)
      (ltb 1 (count (is_reference e.integration_id e.external_reference) db.externals))
      (err unique_violation) (ok (e, db)) (λ _. tt {0}) (λ _. h)

create_or_write-IsValid :
    (vals : Vals) (db : Db) (o : Option ExternalRecord)
    → IsValid db
    → find? (is_code vals.integration_id vals.code) db.externals ≡ o
    → Holds (λ r. IsValid r.1) (create_or_write vals db o)
create_or_write-IsValid vals db none v e =
    checked_lem IsValid (new_external db.next_external vals) (created vals db)
      (created-IsValid vals db v e)
create_or_write-IsValid vals db (some old) v e =
    checked_lem IsValid (write_vals vals old) (written vals old db) (written-IsValid vals old db v)

pub create_or_update-IsValid :
    (vals : Vals) (db : Db) → IsValid db → Holds (λ r. IsValid r.1) (create_or_update vals db)
unfolding create_or_update
create_or_update-IsValid vals db v =
    create_or_write-IsValid vals db (find? (is_code vals.integration_id vals.code) db.externals) v
      refl

write_internal-IsValid :
    (p : MappingRecord → Bool) (odoo_id : Option ℕ) (db : Db)
    → IsValid db
    → IsValid (write_internal p odoo_id db)
unfolding write_internal
write_internal-IsValid p odoo_id db v = record {
  codes = v.codes;
  ids = v.ids;
  fresh = v.fresh;
  pairs = λ i k. omega (
    arith,
    v.pairs i k,
    count-map (is_mapped i k) (λ m. if p m then record m { internal = odoo_id } else m) db.mappings
        (λ m. ground arith),
  );
}

create_mapping-IsValid :
    (integration : ℕ) (odoo_id : Option ℕ) (external : ℕ) (db : Db)
    → IsValid db
    → filter (is_mapped integration external) db.mappings ≡ []
    → IsValid (create_mapping integration odoo_id external db)
unfolding create_mapping
create_mapping-IsValid integration odoo_id external db v e = record {
  codes = v.codes;
  ids = v.ids;
  fresh = v.fresh;
  pairs = λ i k. ground (
    arith,
    v.pairs i k,
    count-append (is_mapped i k) db.mappings (new_mapping integration odoo_id external db ∷ []),
    same_pair i k,
    count-filter_nil (is_mapped integration external) db.mappings e,
  );
}
  where
    same_pair :
        (i k : ℕ)
        → ((integration == i) && (external == k)) ≡ true
        → count (is_mapped i k) db.mappings ≡ count (is_mapped integration external) db.mappings
    same_pair i k h =
        let e' : i ≡ integration = ground arith in
        let e'' : k ≡ external = ground arith in
        ap (λ j. count (is_mapped j k) db.mappings) e'
        ∙ ap (λ j. count (is_mapped integration j) db.mappings) e''

bind_external-IsValid :
    (integration odoo_id : ℕ) (code : String) (r : ExternalRecord × Db)
    → IsValid r.1
    → Holds IsValid (bind_external integration odoo_id code r)
bind_external-IsValid integration odoo_id code (e, db) v =
    by_found (filter (is_mapped integration e.id) db.mappings) refl
  where
    by_found :
        (ms : List MappingRecord)
        → filter (is_mapped integration e.id) db.mappings ≡ ms
        → Holds IsValid (bind_found integration odoo_id code e db ms)
    by_found [] f = create_mapping-IsValid integration (some odoo_id) e.id db v f
    by_found (m ∷ ms) f =
        Holds-if {E = Error} IsValid (str_eq e.code code)
          (ok (write_internal (is_mapped integration e.id) (some odoo_id) db)) (err assertion_error)
          (λ _. write_internal-IsValid (is_mapped integration e.id) (some odoo_id) db v)
          (λ _. tt {0})

-- Binding a record of Odoo to a code of a store keeps the tables well formed, whether the code and
-- its mapping are there or not.
pub create_integration_mapping-IsValid :
    (integration odoo_id : ℕ) (code : String) (name reference : Option String) (db : Db)
    → IsValid db
    → Holds IsValid (create_integration_mapping integration odoo_id code name reference db)
unfolding create_integration_mapping
create_integration_mapping-IsValid integration odoo_id code name reference db v =
    Holds-bind IsValid (λ r. IsValid r.1) (create_or_update vals db)
      (bind_external integration odoo_id code) (create_or_update-IsValid vals db v)
      (λ r h. bind_external-IsValid integration odoo_id code r h)
  where
    vals : Vals
    vals = record {
      integration_id = integration;
      code = code;
      name = name;
      external_reference = reference;
    }
