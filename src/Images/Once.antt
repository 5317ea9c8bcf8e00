-- ===== src/Images/Once.antt =====
-- No two images of a product are exported with the same mapping:
-- integration/models/mixins/integration_product_external_mixin.py.
use jean_fourche.Base.{
  ℕ, ◌<◌, String, true, false, ◌≡◌, refl, Option, none, some, List, [], ◌∷◌, map, elem, All,
  Distinct, arith,
}
use jean_fourche.Images.Export.{
  ImageMapping, Db, ProductExternal, Image, ExternalImage, in_pending, MatchLevel, matches,
  find_suitable_mapping_out, mark_none, mark_assign, write_image, write_values, write_one,
  copy_mapping, created_mapping, init_empty_external_image, by_minimal, by_low, by_middle, by_high,
  init_image_dataclass_out, add_image, prepare_images_mappings_to_export,
}
use jean_fourche.Images.Steps.{
  Below, Unused, Inv, Steps, add_one-Steps, write_one-Steps, found-Unused,
}

module _ (p : ProductExternal) (checksum : String) (image_id : Option ℕ) (used : List ℕ) (db : Db)
    (v : Inv used db) where
  found-Steps :
      (level : MatchLevel) (f : ImageMapping → ImageMapping) (m : ImageMapping)
      → ((x : ImageMapping) → matches p checksum image_id level x ≡ true → in_pending x ≡ true)
      → ((x : ImageMapping) → (f x).id ≡ x.id)
      → ((x : ImageMapping) → in_pending (f x) ≡ false)
      → find_suitable_mapping_out p checksum image_id level db ≡ some m
      → Steps used (write_one f m db)
  unfolding find_suitable_mapping_out
  found-Steps level f m q keeps ends e =
      let r : (elem m.id used ≡ false) × (m.id < db.next_mapping) =
        found-Unused used (matches p checksum image_id level) db.next_mapping db.mappings m q e
          v.below v.unused in
      write_one-Steps f keeps ends used m db r.0 r.1 v

  by_minimal-Steps : (o : Option ImageMapping) → Steps used (by_minimal p checksum image_id db o)
  by_minimal-Steps (some m) = add_one-Steps used (copy_mapping p image_id m db) db refl refl v
  by_minimal-Steps none =
      add_one-Steps used (created_mapping p checksum image_id db) (init_empty_external_image db)
        refl refl (record { below = v.below; unused = v.unused; old = v.old })

  by_low-Steps :
      (o : Option ImageMapping)
      → find_suitable_mapping_out p checksum image_id MatchLevel.low db ≡ o
      → Steps used (by_low p checksum image_id db o)
  unfolding find_suitable_mapping_out
  by_low-Steps (some m) e =
      found-Steps MatchLevel.low (λ n. mark_assign (write_values p image_id n)) m
        (λ x t. ground (arith, t)) (λ x. refl) (λ x. refl) e
  by_low-Steps none e =
      by_minimal-Steps (find_suitable_mapping_out p checksum image_id MatchLevel.minimal db)

  by_middle-Steps :
      (o : Option ImageMapping)
      → find_suitable_mapping_out p checksum image_id MatchLevel.middle db ≡ o
      → Steps used (by_middle p checksum image_id db o)
  unfolding find_suitable_mapping_out
  by_middle-Steps (some m) e =
      found-Steps MatchLevel.middle (λ n. mark_assign (write_image image_id n)) m
        (λ x t. ground (arith, t)) (λ x. refl) (λ x. refl) e
  by_middle-Steps none e =
      by_low-Steps (find_suitable_mapping_out p checksum image_id MatchLevel.low db) refl

  by_high-Steps :
      (o : Option ImageMapping)
      → find_suitable_mapping_out p checksum image_id MatchLevel.high db ≡ o
      → Steps used (by_high p checksum image_id db o)
  unfolding find_suitable_mapping_out
  by_high-Steps (some m) e =
      found-Steps MatchLevel.high mark_none m (λ x t. ground (arith, t)) (λ x. refl) (λ x. refl) e
  by_high-Steps none e =
      by_middle-Steps (find_suitable_mapping_out p checksum image_id MatchLevel.middle db) refl

init_image-Steps :
    (p : ProductExternal) (image : Image) (used : List ℕ) (db : Db)
    → Inv used db
    → Steps used (init_image_dataclass_out p image db)
unfolding init_image_dataclass_out find_suitable_mapping_out
init_image-Steps p image used db v = by_checksum image.checksum
  where
    by_checksum :
        (o : Option String)
        → Steps used (elim o [
          | none ↦ (none, db)
          | some checksum ↦
              by_high p checksum image.image_id db
                (find_suitable_mapping_out p checksum image.image_id MatchLevel.high db)
        ])
    by_checksum none = v
    by_checksum (some checksum) =
        by_high-Steps p checksum image.image_id used db v
          (find_suitable_mapping_out p checksum image.image_id MatchLevel.high db) refl

abbrev pub ids : List ExternalImage → List ℕ
ids xs = map (λ x. x.product_image_mapping_id) xs

abbrev Apart : List ℕ → List ExternalImage → Type 0
Apart used xs = All (λ i. elem i used ≡ false) (ids xs) × Distinct (ids xs)

Apart-cons :
    (i : ℕ) (used js : List ℕ)
    → All (λ j. elem j (i ∷ used) ≡ false) js
    → (elem i js ≡ false) × All (λ j. elem j used ≡ false) js
Apart-cons i used [] h = (refl, tt)
Apart-cons i used (j ∷ js) h =
    let r : (elem i js ≡ false) × All (λ j. elem j used ≡ false) js = Apart-cons i used js h.1 in
    (ground (arith, h.0, r.0), (ground (arith, h.0), r.1))

exported-Apart :
    (p : ProductExternal) (images : List Image) (used : List ℕ) (db : Db)
    → Inv used db
    → Apart used (prepare_images_mappings_to_export p images db).0
unfolding prepare_images_mappings_to_export
exported-Apart p [] used db v = (tt, tt)
exported-Apart p (image ∷ images) used db v =
    by_image (init_image_dataclass_out p image db) (init_image-Steps p image used db v)
      (λ used' db' w. exported-Apart p images used' db' w)
  where
    by_image :
        (r : Option ExternalImage × Db)
        → Steps used r
        → ((used' : List ℕ) (db' : Db)
            → Inv used' db'
            → Apart used' (prepare_images_mappings_to_export p images db').0)
        → Apart used (add_image r.0 (prepare_images_mappings_to_export p images r.1).0)
    by_image (none, db') w rest = rest used db' w
    by_image (some x, db') (e, w) rest =
        let i : ℕ = x.product_image_mapping_id in
        let h : Apart (i ∷ used) (prepare_images_mappings_to_export p images db').0 =
          rest (i ∷ used) db' w in
        let k : (elem i (ids (prepare_images_mappings_to_export p images db').0) ≡ false)
            × All (λ j. elem j used ≡ false)
                (ids (prepare_images_mappings_to_export p images db').0) =
          Apart-cons i used (ids (prepare_images_mappings_to_export p images db').0) h.0 in
        ((e, k.1), (k.0, h.1))

nothing-Unused : (ms : List ImageMapping) → Unused [] ms
nothing-Unused [] = tt
nothing-Unused (m ∷ ms) = ((λ _. refl), nothing-Unused ms)

-- The images of a product are exported with mappings of which no two are the same, whatever the
-- mappings were, where the id that is given next is above those given.
pub prepare_images_mappings_to_export-Distinct :
    (p : ProductExternal) (images : List Image) (db : Db)
    → Below db.next_mapping db.mappings
    → Distinct (ids (prepare_images_mappings_to_export p images db).0)
prepare_images_mappings_to_export-Distinct p images db b =
    (exported-Apart p images [] db
      (record { below = b; unused = nothing-Unused db.mappings; old = tt })).1
