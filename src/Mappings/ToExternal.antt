-- ===== src/Mappings/ToExternal.antt =====
-- A record of Odoo that was bound to a code of a store is exported with that code.
use text.Mathlib.Text.{◌==◌ as str_eq}
use jean_fourche.Base.{
  ℕ, ◌≤◌, String, Bool, true, false, ◌≡◌, refl, ap, ◌∙◌, Option, none, some, List, [], ◌∷◌, ◌++◌,
  map, filter, count, find?, ◌==◌, if◌then◌else◌, arith,
}
use jean_fourche.Base.Sort.{sort_by}
use jean_fourche.Base.Result.{Result, ok, err, ◌>>=◌, Holds, Holds-bind, Holds-if, Holds-mono}
use jean_fourche.Mappings.Records.{
  ExternalRecord, MappingRecord, Error, Db, is_code, create_or_update, assertion_error,
  not_mapped_to,
}
use jean_fourche.Mappings.Mixin.{
  is_mapped, is_of_odoo, bind_found, new_mapping, write_internal, create_mapping, bind_external,
  create_integration_mapping, to_external_record, to_external, newest, code_of,
}
use jean_fourche.Mappings.RoundTrip.{
  filter_nil, filter-append, bound_to, vals, Found, create_or_update-Found,
}
use jean_fourche.Mappings.Valid.{IsValid, is_id}

module _ {A : Type 0} where
  count-find_some :
      (p q : A → Bool) (xs : List A) (a : A) → find? p xs ≡ some a → q a ≡ true → 1 ≤ count q xs
  count-find_some p q [] a e h = ground arith
  count-find_some p q (x ∷ xs) a e h = by_test (p x) refl (count-find_some p q xs a)
    where
      by_test :
          (b : Bool)
          → p x ≡ b
          → (find? p xs ≡ some a → q a ≡ true → 1 ≤ count q xs)
          → 1 ≤ count q (x ∷ xs)
      by_test true t rest =
          let same : x ≡ a = ground arith in let h' : q x ≡ true = ap q same ∙ h in ground arith
      by_test false f rest = ground (arith, rest)

  -- What one test finds, another that holds of it and only once finds too.
  find-find :
      (p q : A → Bool) (xs : List A) (a : A)
      → find? p xs ≡ some a
      → q a ≡ true
      → count q xs ≤ 1
      → find? q xs ≡ some a
  find-find p q [] a e h c = ground arith
  find-find p q (x ∷ xs) a e h c = by_test (p x) refl (find-find p q xs a)
    where
      by_test :
          (b : Bool)
          → p x ≡ b
          → (find? p xs ≡ some a → q a ≡ true → count q xs ≤ 1 → find? q xs ≡ some a)
          → find? q (x ∷ xs) ≡ some a
      by_test true t rest =
          let same : x ≡ a = ground arith in let h' : q x ≡ true = ap q same ∙ h in ground arith
      by_test false f rest = ground (arith, rest, count-find_some p q xs a)

  filter-count_one :
      (p : A → Bool) (xs : List A) (y : A) (ys : List A)
      → count p xs ≤ 1
      → filter p xs ≡ y ∷ ys
      → (ys ≡ []) × (p y ≡ true)
  filter-count_one p [] y ys c e = ground arith
  filter-count_one p (x ∷ xs) y ys c e = ground (arith, filter_nil p xs, filter-count_one p xs y ys)

  -- A test that nothing met, after a change that makes what another test finds meet it.
  filter-map_made :
      (p q : A → Bool) (f : A → A) (xs : List A)
      → ((x : A) → p x ≡ true → q (f x) ≡ true)
      → filter q xs ≡ []
      → filter q (map (λ x. if p x then f x else x) xs) ≡ map f (filter p xs)
  filter-map_made p q f [] h e = refl
  filter-map_made p q f (x ∷ xs) h e = ground (arith, h x, filter-map_made p q f xs h)

module _ (integration odoo_id : ℕ) (code : String) where
  abbrev q : MappingRecord → Bool
  q = is_of_odoo integration odoo_id

  abbrev IsExported : ExternalRecord → List ExternalRecord → Db → Type 0
  IsExported e es db =
      (db.externals ≡ es) × (map (λ m. m.external) (filter q db.mappings) ≡ e.id ∷ [])

  bind_found-IsExported :
      (e : ExternalRecord) (db : Db) (ms : List MappingRecord)
      → filter q db.mappings ≡ []
      → count (is_mapped integration e.id) db.mappings ≤ 1
      → filter (is_mapped integration e.id) db.mappings ≡ ms
      → Holds (IsExported e db.externals) (bind_found integration odoo_id code e db ms)
  unfolding create_mapping write_internal
  bind_found-IsExported e db [] n c f = (
    refl,
    ap (map (λ m. m.external))
          (filter-append q db.mappings (new ∷ []) ∙ ap (λ l. l ++ filter q (new ∷ [])) n)
        ∙ one,
  )
    where
      new : MappingRecord
      new = new_mapping integration (some odoo_id) e.id db

      one : map (λ m. m.external) (filter q (new ∷ [])) ≡ e.id ∷ []
      one = ground arith
  bind_found-IsExported e db (m ∷ ms) n c f =
      Holds-if {E = Error} (IsExported e db.externals) (str_eq e.code code)
        (ok (write_internal p (some odoo_id) db)) (err assertion_error)
        (λ _. (
          refl,
          ap (map (λ m. m.external)) (
                filter-map_made p q (bound_to odoo_id) db.mappings (λ x h. ground arith) n
                ∙ ap (map (bound_to odoo_id)) f)
              ∙ one,
        ))
        (λ _. tt {0})
    where
      p : MappingRecord → Bool
      p = is_mapped integration e.id

      one : map (λ m. m.external) (map (bound_to odoo_id) (m ∷ ms)) ≡ e.id ∷ []
      one =
          let h : (ms ≡ []) × (p m ≡ true) = filter-count_one p db.mappings m ms c f in
          ap (λ l. map (λ m. m.external) (map (bound_to odoo_id) (m ∷ l))) h.0
          ∙ ap (λ i. i ∷ []) (ground arith)

  abbrev exported : List ExternalRecord → List MappingRecord → Result Error (Option ExternalRecord)
  exported es ms = elim (newest ms) [
    | none ↦ err (not_mapped_to odoo_id)
    | some m ↦ ok (find? (λ e. e.id == m.external) es)
  ]

  exported-one :
      (k : ℕ) (es : List ExternalRecord) (ms : List MappingRecord)
      → map (λ m. m.external) ms ≡ k ∷ []
      → exported es ms ≡ ok (find? (is_id k) es)
  unfolding sort_by
  exported-one k es [] h = ground arith
  exported-one k es (m ∷ []) h = ap (λ i. ok (find? (is_id i) es)) (ground arith)
  exported-one k es (m ∷ n ∷ ms) h = ground arith

  to_external-exported :
      (e : ExternalRecord) (es : List ExternalRecord) (db : Db)
      → find? (is_id e.id) es ≡ some e
      → e.code ≡ code
      → IsExported e es db
      → to_external integration odoo_id db ≡ ok (some code)
  unfolding to_external to_external_record
  to_external-exported e es db f c (s, i) =
      ap (λ r. r >>= λ e. ok (code_of e))
        (exported-one e.id db.externals (filter q db.mappings) i
          ∙ ap (λ l. ok (find? (is_id e.id) l)) s
          ∙ ap ok f)
      ∙ ap (λ t. ok (some t)) c

-- A record of Odoo that had no mapping in the store, once it is bound to a code, is exported with that
-- code.
pub to_external-create_integration_mapping :
    (integration odoo_id : ℕ) (code : String) (name reference : Option String) (db : Db)
    → IsValid db
    → filter (is_of_odoo integration odoo_id) db.mappings ≡ []
    → Holds
        (λ after. to_external integration odoo_id after ≡ ok (some code))
        (create_integration_mapping integration odoo_id code name reference db)
unfolding create_integration_mapping
to_external-create_integration_mapping integration odoo_id code name reference db v n =
    Holds-bind Exported (λ r. Found integration odoo_id code db.mappings r × IsValid r.1)
      (create_or_update (vals integration odoo_id code name reference) db)
      (bind_external integration odoo_id code)
      (create_or_update-Found integration odoo_id code name reference db v)
      (λ r h.
        Holds-mono (IsExported integration odoo_id code r.0 r.1.externals) Exported
          (bind_external integration odoo_id code r)
          (λ after e.
            to_external-exported integration odoo_id code r.0 r.1.externals after
              (find-find (is_code integration code) (is_id r.0.id) r.1.externals r.0 h.0.0
                (ground arith) (h.1.ids r.0.id))
              h.0.1 e)
          (bind_found-IsExported integration odoo_id code r.0 r.1
            (filter (is_mapped integration r.0.id) r.1.mappings)
            (ap (filter (is_of_odoo integration odoo_id)) h.0.2 ∙ n) (h.1.pairs integration r.0.id)
            refl))
  where
    Exported : Db → Type 0
    Exported after = to_external integration odoo_id after ≡ ok (some code)
