-- ===== src/Orders/Paid.antt =====
-- The payment method of an order is known to the workflow: `_get_payment_method` of
-- integration/models/integration_sale_order_factory.py and `_build_task_list_and_vals` of sale_order.py.
use text.Mathlib.Text.{◌==◌ as str_eq}
use mathlib.Core.Path.{subst}
use jean_fourche.Base.{
  Bool-cases, ℕ, String, Bool, false, ◌≡◌, ◌⊎◌, inl, inr, refl, ap, sym, ◌∙◌, Option, none, some,
  List, [], ◌∷◌, filter, find?, arith,
}
use jean_fourche.Base.Result.{ok, ◌>>=◌, lift, Holds, Holds-bind, Holds-if, Holds-mono, Holds-lift}
use jean_fourche.Mappings.Records.{
  ExternalRecord, Error as MappingError, Db, is_code, get_external_by_code, create_or_update,
}
use jean_fourche.Mappings.Mixin.{
  create_integration_mapping, bind_external, to_odoo, get_mapping, get_internal_record,
  search_mapping_from_external, internals, found_or_raise,
}
use jean_fourche.Mappings.RoundTrip.{
  vals, Found, create_or_write-Found, IsBound, bind_external-IsBound,
}
use jean_fourche.Orders.Data.{mapping, Settings}
use jean_fourche.Orders.Env.{Env, World, PaymentMethod}
use jean_fourche.Orders.Tasks.{payment_or_raise}
use jean_fourche.Orders.Create.{
  bind_method, new_method, is_method, method_by_name, method_or_bind, get_payment_method,
}

module _ {A : Type 0} where
  filter-find :
      (p : A → Bool) (xs : List A) (a : A)
      → find? p xs ≡ some a
      → (ys : List A) × (filter p xs ≡ a ∷ ys)
  filter-find p [] a e = ground arith
  filter-find p (x ∷ xs) a e = elim (Bool-cases (p x)) [
    | inl t ↦ (filter p xs, ground (arith, t))
    | inr t ↦
        let r : (ys : List A) × (filter p xs ≡ a ∷ ys) = filter-find p xs a (ground (arith, t)) in
        (r.0, ground (arith, t, r.1))
  ]

module _ (integration : ℕ) (code : String) where
  -- The payment method can be read when the tasks are built.
  abbrev pub IsPaid : Db → Type 0
  IsPaid db =
      (p : Option ℕ) × ((lift mapping (get_external_by_code false integration code db)
          >>= payment_or_raise code)
        ≡ ok p)

  found-IsPaid :
      (db : Db) (e : ExternalRecord) (es : List ExternalRecord)
      → filter (is_code integration code) db.externals ≡ e ∷ es
      → IsPaid db
  unfolding get_external_by_code
  found-IsPaid db e es h = (some e.id, ap (payment_or_raise code) h)

  create_integration_mapping-IsPaid :
      (id : ℕ) (db : Db)
      → Holds IsPaid (create_integration_mapping integration id code (some code) none db)
  unfolding create_integration_mapping create_or_update get_external_by_code
  create_integration_mapping-IsPaid id db =
      Holds-bind IsPaid (Found integration id code db.mappings)
        (create_or_update (vals integration id code (some code) none) db)
        (bind_external integration id code)
        (create_or_write-Found integration id code (some code) none db
          (find? (is_code integration code) db.externals) refl)
        (λ r f.
          Holds-mono (IsBound integration id code r.0 r.1.externals) IsPaid
            (bind_external integration id code r)
            (λ after b.
              let g : (es : List ExternalRecord) × (filter (is_code integration code) r.1.externals
                    ≡ r.0 ∷ es) =
                filter-find (is_code integration code) r.1.externals r.0 f.0 in
              found-IsPaid after r.0 g.0 (ap (filter (is_code integration code)) b.0 ∙ g.1))
            (bind_external-IsBound integration id code r))

  to_odoo-IsPaid :
      (db : Db) → Holds (λ ids. (ids ≡ []) ⊎ IsPaid db) (to_odoo false integration code db)
  unfolding to_odoo get_mapping
  to_odoo-IsPaid db =
      Holds-bind (λ ids. (ids ≡ []) ⊎ IsPaid db) (λ ms. (ms ≡ []) ⊎ IsPaid db)
        (get_mapping integration code db) (get_internal_record false code)
        (Holds-if {E = MappingError} (λ ms. (ms ≡ []) ⊎ IsPaid db) (str_eq code "") (ok [])
          (search_mapping_from_external integration (filter (is_code integration code) db.externals)
            db)
          (λ _. inl refl) (λ _. searched (filter (is_code integration code) db.externals) refl))
        (λ ms h. elim h [
          | inl e ↦
              subst (λ l. Holds (λ ids. (ids ≡ []) ⊎ IsPaid db) (get_internal_record false code l))
                (sym e) (inl refl)
          | inr p ↦ given (internals ms []) p
        ])
    where
      searched :
          (es : List ExternalRecord)
          → filter (is_code integration code) db.externals ≡ es
          → Holds (λ ms. (ms ≡ []) ⊎ IsPaid db) (search_mapping_from_external integration es db)
      searched [] e = inl refl
      searched (f ∷ []) e = inr (found-IsPaid db f [] e)
      searched (f ∷ g ∷ fs) e = tt

      given :
          (ids : List ℕ)
          → IsPaid db
          → Holds (λ ids. (ids ≡ []) ⊎ IsPaid db) (found_or_raise false code ids)
      given [] p = inr p
      given (i ∷ ids) p = inr p

module _ {C : Type 0} (env : Env C) (s : Settings) (code : String) (c : C) where
  -- The method is known, and the catalog as it was.
  abbrev pub Paid : ℕ × World C → Type 0
  Paid r = IsPaid s.id code r.1.method_mappings × (r.1.catalog ≡ c)

  bind_method-Paid :
      (id : ℕ) (w : World C) → w.catalog ≡ c → Holds Paid (bind_method env s code id w)
  unfolding create_integration_mapping get_external_by_code
  bind_method-Paid id w h =
      Holds-bind Paid (IsPaid s.id code)
        (lift mapping (create_integration_mapping s.id id code (some code) none w.method_mappings))
        (λ db. ok (id, record w { method_mappings = db }))
        (Holds-lift (IsPaid s.id code) mapping
          (create_integration_mapping s.id id code (some code) none w.method_mappings)
          (create_integration_mapping-IsPaid s.id code id w.method_mappings))
        (λ _ p. (p, h))

  method_by_name-Paid :
      (w : World C) (ps : List PaymentMethod)
      → w.catalog ≡ c
      → Holds Paid (method_by_name env s code w ps)
  unfolding create_integration_mapping
  method_by_name-Paid w [] h = bind_method-Paid w.next_payment_method (new_method env s code w) h
  method_by_name-Paid w (p ∷ []) h = bind_method-Paid p.id w h
  method_by_name-Paid w (p ∷ q ∷ ps) h = tt

  pub get_payment_method-Paid :
      (w : World C) → w.catalog ≡ c → Holds Paid (get_payment_method env s code w)
  unfolding get_payment_method create_integration_mapping get_external_by_code
  get_payment_method-Paid w h =
      Holds-bind Paid (λ ids. (ids ≡ []) ⊎ IsPaid s.id code w.method_mappings)
        (lift mapping (to_odoo false s.id code w.method_mappings)) (method_or_bind env s code w)
        (Holds-lift (λ ids. (ids ≡ []) ⊎ IsPaid s.id code w.method_mappings) mapping
          (to_odoo false s.id code w.method_mappings) (to_odoo-IsPaid s.id code w.method_mappings))
        by_ids
    where
      by_ids :
          (ids : List ℕ)
          → (ids ≡ []) ⊎ IsPaid s.id code w.method_mappings
          → Holds Paid (method_or_bind env s code w ids)
      by_ids [] q = method_by_name-Paid w (filter (is_method env s code) w.payment_methods) h
      by_ids (id ∷ []) (inl e) = absurd (ground (arith, e))
      by_ids (id ∷ []) (inr p) = (p, h)
      by_ids (id ∷ j ∷ ids) q = tt
