-- ===== src/Images/Steps.antt =====
-- A step of the export gives a mapping that was not exported before, and leaves the rest as it was:
-- integration/models/mixins/integration_product_external_mixin.py.
use mathlib.Core.Path.{subst}
use jean_fourche.Base.{
  Bool-cases, ℕ, suc, ◌<◌, Bool, true, false, ◌≡◌, refl, sym, Option, none, some, List, [], ◌∷◌,
  ◌++◌, map, find?, elem, All, inl, inr, ◌==◌, if◌then◌else◌, arith,
}
use jean_fourche.Images.Export.{ImageMapping, Db, ExternalImage, in_pending, write_one, add_one}

abbrev pub Below : ℕ → List ImageMapping → Type 0
Below n ms = All (λ m. m.id < n) ms

-- A mapping that is pending is not exported yet.
abbrev pub Unused : List ℕ → List ImageMapping → Type 0
Unused used ms = All (λ m. in_pending m ≡ true → elem m.id used ≡ false) ms

pub record Inv (used : List ℕ) (db : Db) : Type 0 where
  pub below : Below db.next_mapping db.mappings
  pub unused : Unused used db.mappings
  pub old : All (λ i. i < db.next_mapping) used

-- What a step gives: a mapping that was not exported before, and the invariant with it.
abbrev pub Steps : List ℕ → Option ExternalImage × Db → Type 0
Steps used (none, db) = Inv used db
Steps used (some x, db) =
    (elem x.product_image_mapping_id used ≡ false) × Inv (x.product_image_mapping_id ∷ used) db

elem-old : (n : ℕ) (used : List ℕ) → All (λ i. i < n) used → elem n used ≡ false
elem-old n [] h = refl
elem-old n (i ∷ is) h = ground (arith, h.0, elem-old n is h.1)

All-suc : (n : ℕ) (used : List ℕ) → All (λ i. i < n) used → All (λ i. i < suc n) used
All-suc n [] h = tt
All-suc n (i ∷ is) h = (omega (arith, h.0), All-suc n is h.1)

-- A mapping is appended.
Below-snoc :
    (n : ℕ) (ms : List ImageMapping) (m : ImageMapping)
    → m.id ≡ n
    → Below n ms
    → Below (suc n) (ms ++ m ∷ [])
Below-snoc n [] m e h = (omega (arith, e), tt)
Below-snoc n (x ∷ ms) m e h = (omega (arith, h.0), Below-snoc n ms m e h.1)

Unused-snoc :
    (n : ℕ) (used : List ℕ) (ms : List ImageMapping) (m : ImageMapping)
    → in_pending m ≡ false
    → Below n ms
    → Unused used ms
    → Unused (n ∷ used) (ms ++ m ∷ [])
Unused-snoc n used [] m e b u = ((λ t. ground (arith, e, t)), tt)
Unused-snoc n used (x ∷ ms) m e b u =
    ((λ t. ground (arith, b.0, u.0 t)), Unused-snoc n used ms m e b.1 u.1)

pub add_one-Steps :
    (used : List ℕ) (m : ImageMapping) (db : Db)
    → m.id ≡ db.next_mapping
    → in_pending m ≡ false
    → Inv used db
    → Steps used (add_one m db)
add_one-Steps used m db e p v = (
  subst (λ i. elem i used ≡ false) (sym e) (elem-old db.next_mapping used v.old),
  record {
    below = Below-snoc db.next_mapping db.mappings m e v.below;
    unused =
        subst (λ i. Unused (i ∷ used) (db.mappings ++ m ∷ [])) (sym e)
          (Unused-snoc db.next_mapping used db.mappings m p v.below v.unused);
    old = (omega (arith, e), All-suc db.next_mapping used v.old);
  },
)

-- One mapping is written, which is not pending afterwards.
module _ (f : ImageMapping → ImageMapping) (keeps : (m : ImageMapping) → (f m).id ≡ m.id)
    (ends : (m : ImageMapping) → in_pending (f m) ≡ false) where
  Below-write :
      (n i : ℕ) (ms : List ImageMapping)
      → Below n ms
      → Below n (map (λ m. if m.id == i then f m else m) ms)
  Below-write n i [] h = tt
  Below-write n i (m ∷ ms) h = (ground (arith, h.0, keeps m), Below-write n i ms h.1)

  Unused-write :
      (i : ℕ) (used : List ℕ) (ms : List ImageMapping)
      → Unused used ms
      → Unused (i ∷ used) (map (λ m. if m.id == i then f m else m) ms)
  Unused-write i used [] h = tt
  Unused-write i used (m ∷ ms) h = (
    (λ t. elim (Bool-cases (m.id == i)) [
      | inl c ↦ absurd (ground (arith, c, t, ends m))
      | inr c ↦ ground (arith, c, t, h.0)
    ]),
    Unused-write i used ms h.1,
  )

  pub write_one-Steps :
      (used : List ℕ) (m : ImageMapping) (db : Db)
      → elem m.id used ≡ false
      → m.id < db.next_mapping
      → Inv used db
      → Steps used (write_one f m db)
  write_one-Steps used m db e l v = (
    subst (λ i. elem i used ≡ false) (sym (keeps m)) e,
    subst (λ i. Inv (i ∷ used) (write_one f m db).1) (sym (keeps m))
        (record {
          below = Below-write db.next_mapping m.id db.mappings v.below;
          unused = Unused-write m.id used db.mappings v.unused;
          old = (l, v.old);
        }),
  )

-- What is found among pending mappings was not exported.
pub found-Unused :
    (used : List ℕ) (p : ImageMapping → Bool) (n : ℕ) (ms : List ImageMapping) (m : ImageMapping)
    → ((x : ImageMapping) → p x ≡ true → in_pending x ≡ true)
    → find? p ms ≡ some m
    → Below n ms
    → Unused used ms
    → (elem m.id used ≡ false) × (m.id < n)
found-Unused used p n [] m q e b u = absurd (ground (arith, e))
found-Unused used p n (x ∷ ms) m q e b u = elim (Bool-cases (p x)) [
  | inl t ↦
      let same : x ≡ m = ground (arith, e, t) in
      subst (λ (y : ImageMapping). (elem y.id used ≡ false) × (y.id < n)) same (u.0 (q x t), b.0)
  | inr t ↦ found-Unused used p n ms m q (ground (arith, e, t)) b.1 u.1
]
