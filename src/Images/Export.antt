-- ===== src/Images/Export.antt =====
-- Which image mapping an image of a product is exported with:
-- integration/models/mixins/integration_product_external_mixin.py, the actions of ActionType and
-- ExternalImage of integration/tools.py, and the writes of integration_product_image_mapping.py.
use text.Mathlib.Text.{◌==◌ as str_eq}
use jean_fourche.Base.{
  ℕ, suc, String, Bool, true, false, not, ◌&&◌, Option, none, some, List, [], ◌∷◌, ◌++◌, map, find?,
  all, ◌==◌, if◌then◌else◌,
}

pub data ProductType : Type 0 where
  product_template product_product : ProductType

pub data ActionType : Type 0 where
  no_action pending assign create : ActionType

pub record ImageMapping : Type 0 where
  pub id : ℕ
  pub external_image_id : ℕ
  pub ttype : ProductType
  pub res_id : Option ℕ
  pub image_id : Option ℕ
  pub is_cover : Bool
  pub variant_code : Option String
  pub checksum : Option String
  pub action_type : ActionType

-- The mappings of the images of one template in the order in which they are read, the external images,
-- and the ids that are given next.
pub record Db : Type 0 where
  pub mappings : List ImageMapping
  pub externals : List ℕ
  pub next_mapping : ℕ
  pub next_external : ℕ

-- The external record of a template or of a variant, with the product that it is mapped to.
pub record ProductExternal : Type 0 where
  pub ttype : ProductType
  pub res_id : ℕ
  pub variant_code : Option String

-- An image of the product, with its checksum if it is not empty; the cover has no id.
pub record Image : Type 0 where
  pub image_id : Option ℕ
  pub checksum : Option String

-- What is exported of a mapping.
pub record ExternalImage : Type 0 where
  pub product_image_mapping_id : ℕ
  pub ttype : ProductType
  pub variant_code : Option String
  pub is_cover : Bool
  pub action_type : ActionType

abbrev pub from_mapping : ImageMapping → ExternalImage
from_mapping m = record {
  product_image_mapping_id = m.id;
  ttype = m.ttype;
  variant_code = m.variant_code;
  is_cover = m.is_cover;
  action_type = m.action_type;
}

abbrev pub is_pending : ActionType → Bool
is_pending ActionType.pending = true
is_pending _ = false

abbrev pub in_pending : ImageMapping → Bool
in_pending m = is_pending m.action_type

abbrev pub to_none : ActionType → Bool
to_none ActionType.no_action = true
to_none _ = false

abbrev pub has_code : Option String → Bool
has_code none = false
has_code (some t) = not (str_eq t "")

abbrev pub same_code : Option String → Option String → Bool
same_code none none = true
same_code (some s) (some t) = str_eq s t
same_code _ _ = false

abbrev pub is_template : ProductType → Bool
is_template ProductType.product_template = true
is_template ProductType.product_product = false

-- `image_mapping_ids`, of the mappings of the template.
abbrev pub is_own : ProductExternal → ImageMapping → Bool
is_own p m =
    if is_template p.ttype
    then not (has_code m.variant_code)
    else same_code m.variant_code p.variant_code

unfoldable pub image_mappings_lack_or_in_none_state : Db → Bool
image_mappings_lack_or_in_none_state db = all (λ m. to_none m.action_type) db.mappings

abbrev pub same_image : Option ℕ → Option ℕ → Bool
same_image none j = false
same_image (some i) none = false
same_image (some i) (some j) = i == j

abbrev pub is_given : Option ℕ → Bool
is_given none = false
is_given (some i) = true

pub data MatchLevel : Type 0 where
  high middle low minimal : MatchLevel

-- The image that a mapping has, or that it is the cover.
abbrev pub matches_image : Option ℕ → ImageMapping → Bool
matches_image image_id m = if is_given image_id then same_image m.image_id image_id else m.is_cover

abbrev pub matches : ProductExternal → String → Option ℕ → MatchLevel → ImageMapping → Bool
matches p checksum image_id MatchLevel.high m =
    in_pending m
    && (same_code m.checksum (some checksum) && (is_own p m && matches_image image_id m))
matches p checksum image_id MatchLevel.middle m =
    in_pending m && (same_code m.checksum (some checksum) && is_own p m)
matches p checksum image_id MatchLevel.low m = in_pending m && same_code m.checksum (some checksum)
matches p checksum image_id MatchLevel.minimal m = same_code m.checksum (some checksum)

unfoldable pub find_suitable_mapping_out :
    ProductExternal → String → Option ℕ → MatchLevel → Db → Option ImageMapping
find_suitable_mapping_out p checksum image_id level db =
    find? (matches p checksum image_id level) db.mappings

abbrev pub mark_none : ImageMapping → ImageMapping
mark_none m = record m { action_type = ActionType.no_action }

abbrev pub mark_assign : ImageMapping → ImageMapping
mark_assign m = record m { action_type = ActionType.assign }

abbrev pub write_image : Option ℕ → ImageMapping → ImageMapping
write_image image_id m = record m { image_id = image_id; is_cover = not (is_given image_id) }

abbrev pub write_values : ProductExternal → Option ℕ → ImageMapping → ImageMapping
write_values p image_id m = record m {
  ttype = p.ttype;
  res_id = some p.res_id;
  image_id = image_id;
  is_cover = not (is_given image_id);
  variant_code = p.variant_code;
}

-- A write to one mapping, and what is exported of it.
abbrev pub write_one : (ImageMapping → ImageMapping) → ImageMapping → Db → Option ExternalImage × Db
write_one f m db = (
  some (from_mapping (f m)),
  record db { mappings = map (λ n. if n.id == m.id then f n else n) db.mappings },
)

abbrev pub add_one : ImageMapping → Db → Option ExternalImage × Db
add_one m db = (
  some (from_mapping m),
  record db { mappings = db.mappings ++ m ∷ []; next_mapping = suc db.next_mapping },
)

-- A copy of the mapping that has the same image, with its own id.
abbrev pub copy_mapping : ProductExternal → Option ℕ → ImageMapping → Db → ImageMapping
copy_mapping p image_id m db =
    mark_assign (write_values p image_id (record m { id = db.next_mapping }))

abbrev pub created_mapping : ProductExternal → String → Option ℕ → Db → ImageMapping
created_mapping p checksum image_id db = record {
  id = db.next_mapping;
  external_image_id = db.next_external;
  ttype = p.ttype;
  res_id = some p.res_id;
  image_id = image_id;
  is_cover = not (is_given image_id);
  variant_code = p.variant_code;
  checksum = some checksum;
  action_type = ActionType.create;
}

abbrev pub init_empty_external_image : Db → Db
init_empty_external_image db = record db {
  externals = db.externals ++ db.next_external ∷ [];
  next_external = suc db.next_external;
}

abbrev pub by_minimal :
    ProductExternal → String → Option ℕ → Db → Option ImageMapping → Option ExternalImage × Db
by_minimal p checksum image_id db (some m) = add_one (copy_mapping p image_id m db) db
by_minimal p checksum image_id db none =
    add_one (created_mapping p checksum image_id db) (init_empty_external_image db)

abbrev pub by_low :
    ProductExternal → String → Option ℕ → Db → Option ImageMapping → Option ExternalImage × Db
unfolding find_suitable_mapping_out
by_low p checksum image_id db (some m) =
    write_one (λ n. mark_assign (write_values p image_id n)) m db
by_low p checksum image_id db none =
    by_minimal p checksum image_id db
      (find_suitable_mapping_out p checksum image_id MatchLevel.minimal db)

abbrev pub by_middle :
    ProductExternal → String → Option ℕ → Db → Option ImageMapping → Option ExternalImage × Db
unfolding find_suitable_mapping_out
by_middle p checksum image_id db (some m) =
    write_one (λ n. mark_assign (write_image image_id n)) m db
by_middle p checksum image_id db none =
    by_low p checksum image_id db (find_suitable_mapping_out p checksum image_id MatchLevel.low db)

abbrev pub by_high :
    ProductExternal → String → Option ℕ → Db → Option ImageMapping → Option ExternalImage × Db
unfolding find_suitable_mapping_out
by_high p checksum image_id db (some m) = write_one mark_none m db
by_high p checksum image_id db none =
    by_middle p checksum image_id db
      (find_suitable_mapping_out p checksum image_id MatchLevel.middle db)

-- A product that is there; an empty image gives nothing.
unfoldable pub init_image_dataclass_out : ProductExternal → Image → Db → Option ExternalImage × Db
unfolding find_suitable_mapping_out
init_image_dataclass_out p image db = elim image.checksum [
  | none ↦ (none, db)
  | some checksum ↦
      by_high p checksum image.image_id db
        (find_suitable_mapping_out p checksum image.image_id MatchLevel.high db)
]

abbrev pub add_image : Option ExternalImage → List ExternalImage → List ExternalImage
add_image none xs = xs
add_image (some x) xs = x ∷ xs

-- The cover first, and then the further images.
unfoldable pub prepare_images_mappings_to_export :
    ProductExternal → List Image → Db → List ExternalImage × Db
unfolding init_image_dataclass_out
prepare_images_mappings_to_export p [] db = ([], db)
prepare_images_mappings_to_export p (image ∷ images) db =
    let r : Option ExternalImage × Db = init_image_dataclass_out p image db in
    let rest : List ExternalImage × Db = prepare_images_mappings_to_export p images r.1 in
    (add_image r.0 rest.0, rest.1)
