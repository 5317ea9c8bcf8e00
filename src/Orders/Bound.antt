-- ===== src/Orders/Bound.antt =====
-- The mapping of an order: what a search by the order's code finds after it was bound.
use text.Mathlib.Text.{◌==◌ as str_eq}
use text.Mathlib.TextEquality.{eq_iff}
use jean_fourche.Base.{
  ℕ, ◌≤◌, String, Bool, true, false, ◌&&◌, ◌||◌, ◌≡◌, refl, ap, ◌∙◌, Option, none, some, List, [],
  ◌∷◌, ◌++◌, map, filter, any, any-append, find?, length, count, ltb, All, ◌==◌, if◌then◌else◌,
  Option-cases, inl, inr, arith,
}
use jean_fourche.Base.Result.{ok, err, Holds, Holds-bind, Holds-if}
use jean_fourche.Mappings.Records.{
  ExternalRecord, MappingRecord, Error, Db, Vals, is_code, update_first, write_vals, new_external,
  create_or_update, create_or_write, created, written, is_reference, unique_violation,
  assertion_error,
}
use jean_fourche.Mappings.Mixin.{
  is_mapped, bind_found, new_mapping, write_internal, create_mapping, bind_external,
  create_integration_mapping, internals,
}
use jean_fourche.Mappings.RoundTrip.{bound_to, filter-append, vals}
use jean_fourche.Orders.Create.{names_code, mapped_orders}

length-snoc : (ids : List ℕ) (i : ℕ) → length ids ≤ length (ids ++ i ∷ [])
length-snoc [] i = omega arith
length-snoc (j ∷ ids) i = ground (arith, length-snoc ids i)

internals_grow : (ms : List MappingRecord) (ids : List ℕ) → length ids ≤ length (internals ms ids)
internals_grow [] ids = omega arith
internals_grow (m ∷ ms) ids = elim (Option-cases m.internal) [
  | inl e ↦ ground (arith, e, internals_grow ms ids)
  | inr (i, e) ↦
      ground (arith, e, internals_grow ms ids, internals_grow ms (ids ++ i ∷ []), length-snoc ids i)
]

-- Mappings without a record where the test holds.
abbrev Blank : (MappingRecord → Bool) → List MappingRecord → Type 0
Blank q ms = All (λ m. q m ≡ true → m.internal ≡ none) ms

internals-Blank :
    (q : MappingRecord → Bool) (ms : List MappingRecord)
    → internals (filter q ms) [] ≡ []
    → Blank q ms
internals-Blank q [] h = tt
internals-Blank q (m ∷ ms) h = elim (Option-cases m.internal) [
  | inl e ↦ ((λ _. e), internals-Blank q ms (ground (arith, e)))
  | inr (i, e) ↦ (
    (λ t. ground (arith, e, t, h, internals_grow (filter q ms) (i ∷ []))),
    internals-Blank q ms (ground (arith, e, internals_grow (filter q ms) (i ∷ []))),
  )
]

internals-append :
    (n : ℕ) (q : MappingRecord → Bool) (new : MappingRecord) (ms : List MappingRecord)
    → new.internal ≡ some n
    → Blank q ms
    → internals (filter q ms ++ new ∷ []) [] ≡ n ∷ []
internals-append n q new [] h b = ground arith
internals-append n q new (m ∷ ms) h b = ground (arith, b.0, internals-append n q new ms h b.1)

abbrev ids_if : ℕ → Bool → List ℕ
ids_if n b = if b then n ∷ [] else []

internals-map :
    (n : ℕ) (b : Bool) (q0 q1 p : MappingRecord → Bool) (ms : List MappingRecord)
    → ((m : MappingRecord) → q1 m ≡ (q0 m || p m))
    → ((m : MappingRecord) → q1 (bound_to n m) ≡ q1 m)
    → Blank q0 ms
    → internals (filter q1 (map (λ m. if p m then bound_to n m else m) ms)) (ids_if n b)
      ≡ ids_if n (b || any p ms)
internals-map n b q0 q1 p [] h k l = ground arith
internals-map n b q0 q1 p (m ∷ ms) h k l = ground (
  arith,
  h m,
  k m,
  l.0,
  internals-map n b q0 q1 p ms h k l.1,
  internals-map n true q0 q1 p ms h k l.1,
)

Blank-apart :
    (q0 q1 p : MappingRecord → Bool) (ms : List MappingRecord)
    → ((m : MappingRecord) → q1 m ≡ (q0 m || p m))
    → filter p ms ≡ []
    → Blank q0 ms
    → Blank q1 ms
Blank-apart q0 q1 p [] h f b = tt
Blank-apart q0 q1 p (m ∷ ms) h f b =
    ((λ t. ground (arith, h m, t, f, b.0)), Blank-apart q0 q1 p ms h (ground (arith, f)) b.1)

any-filter_cons :
    (p : MappingRecord → Bool) (xs ms : List MappingRecord) (m : MappingRecord)
    → filter p xs ≡ m ∷ ms
    → any p xs ≡ true
any-filter_cons p [] ms m f = ground arith
any-filter_cons p (x ∷ xs) ms m f = ground (arith, any-filter_cons p xs ms m)

module _ (integration n : ℕ) (code : String) where
  abbrev named : ℕ → List ExternalRecord → Bool
  named k es = any (λ e. (e.id == k) && str_eq e.code code) es

  named-written :
      (k : ℕ) (v : Vals) (es : List ExternalRecord) (old : ExternalRecord)
      → v.code ≡ code
      → find? (is_code integration code) es ≡ some old
      → named k (update_first (is_code integration code) (write_vals v) es)
        ≡ (named k es || (old.id == k))
  named-written k v [] old c e = ground arith
  named-written k v (x ∷ es) old c e =
      ground (arith, c, named-written k v es old c, eq_iff code code)

  -- The externals after a record was found or made: what was named is, and that record.
  abbrev Named : List ExternalRecord → List MappingRecord → ExternalRecord × Db → Type 0
  Named es ms r =
      ((k : ℕ) → named k r.1.externals ≡ (named k es || (r.0.id == k))) × (r.1.mappings ≡ ms)

  create_or_write-Named :
      (name reference : Option String) (db : Db) (o : Option ExternalRecord)
      → find? (is_code integration code) db.externals ≡ o
      → Holds
          (Named db.externals db.mappings)
          (create_or_write (vals integration n code name reference) db o)
  create_or_write-Named name reference db none e =
      Holds-if {E = Error} (Named db.externals db.mappings)
        (ltb 1 (count (is_reference integration reference) (created v db).externals))
        (err unique_violation) (ok (new, created v db)) (λ _. tt {0}) (λ _. (named_new, refl))
    where
      v : Vals
      v = vals integration n code name reference

      new : ExternalRecord
      new = new_external db.next_external v

      named_new :
          (k : ℕ)
          → named k (db.externals ++ new ∷ []) ≡ (named k db.externals || (db.next_external == k))
      named_new k =
          any-append (λ e. (e.id == k) && str_eq e.code code) db.externals (new ∷ [])
          ∙ ground (arith, eq_iff code code)
  create_or_write-Named name reference db (some old) e =
      let v : Vals = vals integration n code name reference in
      Holds-if {E = Error} (Named db.externals db.mappings)
        (ltb 1 (
          count (is_reference integration (write_vals v old).external_reference)
            (written v old db).externals))
        (err unique_violation) (ok (write_vals v old, written v old db)) (λ _. tt {0})
        (λ _. ((λ k. named-written k v db.externals old refl e), refl))

  abbrev Orders : Db → Type 0
  Orders db = mapped_orders integration code db ≡ n ∷ []

  -- The test of the orders, after a record was found or made.
  names_code_or :
      (es : List ExternalRecord) (r : ExternalRecord × Db)
      → Named es r.1.mappings r
      → (m : MappingRecord)
      → names_code integration code r.1.externals m
        ≡ (names_code integration code es m || is_mapped integration r.0.id m)
  names_code_or es r k m = ground (arith, k.0 m.external)

  bind_found-Orders :
      (es : List ExternalRecord) (r : ExternalRecord × Db) (ms : List MappingRecord)
      → Named es r.1.mappings r
      → filter (is_mapped integration r.0.id) r.1.mappings ≡ ms
      → Blank (names_code integration code es) r.1.mappings
      → Holds Orders (bind_found integration n code r.0 r.1 ms)
  unfolding mapped_orders create_mapping write_internal
  bind_found-Orders es r [] k f h =
      ap (λ l. internals l [])
        (filter-append q1 r.1.mappings (new ∷ []) ∙ ap (λ l. filter q1 r.1.mappings ++ l) one)
      ∙ internals-append n q1 new r.1.mappings refl (
          Blank-apart (names_code integration code es) q1 (is_mapped integration r.0.id)
            r.1.mappings (names_code_or es r k) f h)
    where
      q1 : MappingRecord → Bool
      q1 = names_code integration code r.1.externals

      new : MappingRecord
      new = new_mapping integration (some n) r.0.id r.1

      one : filter q1 (new ∷ []) ≡ new ∷ []
      one = ground (arith, names_code_or es r k new)
  bind_found-Orders es r (m ∷ ms) k f h =
      Holds-if {E = Error} Orders (str_eq r.0.code code) (ok (write_internal p (some n) r.1))
        (err assertion_error)
        (λ _.
          internals-map n false (names_code integration code es)
            (names_code integration code r.1.externals) p r.1.mappings (names_code_or es r k)
            (λ _. refl) h
          ∙ ap (ids_if n) (any-filter_cons p r.1.mappings ms m f))
        (λ _. tt {0})
    where
      p : MappingRecord → Bool
      p = is_mapped integration r.0.id

  -- A code that no mapping of the store bound to an order is bound to the given one, and no other.
  pub mapped_orders-create_integration_mapping :
      (name reference : Option String) (db : Db)
      → mapped_orders integration code db ≡ []
      → Holds Orders (create_integration_mapping integration n code name reference db)
  unfolding create_integration_mapping create_or_update mapped_orders
  mapped_orders-create_integration_mapping name reference db h =
      Holds-bind Orders (Named db.externals db.mappings)
        (create_or_update (vals integration n code name reference) db)
        (bind_external integration n code)
        (create_or_write-Named name reference db (find? (is_code integration code) db.externals)
          refl)
        (λ r k.
          bind_found-Orders db.externals r (filter (is_mapped integration r.0.id) r.1.mappings)
            (k.0, refl) refl
            (internals-Blank (names_code integration code db.externals) r.1.mappings (
              ap (λ l. internals (filter (names_code integration code db.externals) l) []) k.1
              ∙ h)))
