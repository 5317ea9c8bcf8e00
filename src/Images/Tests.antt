-- ===== src/Images/Tests.antt =====
-- A lamp whose cover image was mapped, and whose second image is the same.
use jean_fourche.Base.{arith, ℕ, true, ◌≡◌, refl, none, some, List, [], ◌∷◌, map, Distinct}
use jean_fourche.Images.Export.{
  ProductType, ActionType, Db, ProductExternal, Image, find_suitable_mapping_out,
  init_image_dataclass_out, prepare_images_mappings_to_export,
}
use jean_fourche.Images.Once.{ids, prepare_images_mappings_to_export-Distinct}

abbrev lamp : ProductExternal
lamp = record { ttype = ProductType.product_template; res_id = 5; variant_code = none }

abbrev images : List Image
images =
    record { image_id = none; checksum = some "c1" }
    ∷ record { image_id = some 2; checksum = some "c1" }
    ∷ record { image_id = some 3; checksum = some "c2" }
    ∷ record { image_id = some 4; checksum = none }
    ∷ []

abbrev db : Db
db = record {
  mappings =
      record {
        id = 7;
        external_image_id = 1;
        ttype = ProductType.product_template;
        res_id = some 5;
        image_id = none;
        is_cover = true;
        variant_code = none;
        checksum = some "c1";
        action_type = ActionType.pending;
      }
      ∷ [];
  externals = 1 ∷ [];
  next_mapping = 8;
  next_external = 2;
}

-- The cover keeps its mapping, the same image gets a copy of it, and the other a new one.
exported :
    map {B = ℕ × ActionType}
      (λ x. (x.product_image_mapping_id, x.action_type))
      (prepare_images_mappings_to_export lamp images db).0
    ≡ (7, ActionType.no_action) ∷ (8, ActionType.assign) ∷ (9, ActionType.create) ∷ []
unfolding prepare_images_mappings_to_export init_image_dataclass_out find_suitable_mapping_out
exported = refl

prepare_images_mappings_to_export-Distinct_example :
    Distinct (ids (prepare_images_mappings_to_export lamp images db).0)
prepare_images_mappings_to_export-Distinct_example =
    prepare_images_mappings_to_export-Distinct lamp images db (omega arith, tt)
