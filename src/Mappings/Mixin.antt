-- ===== src/Mappings/Mixin.antt =====
-- integration/models/mixins/integration_mapping_mixin.py, the calls of it in
-- integration_model_mixin.py, and `create_or_update_mapping` of integration_external_mixin.py.
use text.Mathlib.Text.{◌==◌ as str_eq}
use jean_fourche.Base.{
  ℕ, suc, String, Bool, true, false, not, ◌&&◌, Option, none, some, List, [], ◌∷◌, ◌++◌, map,
  filter, find?, elem, last?, ◌==◌, if◌then◌else◌,
}
use jean_fourche.Base.Sort.{sort_by}
use jean_fourche.Base.Result.{Result, ok, err, ◌>>=◌}
use jean_fourche.Mappings.Records.{
  ExternalRecord, MappingRecord, Requeue, not_mapped_from_external, not_mapped_to_external, Error,
  not_mapped_from, not_mapped_to, validation_error, assertion_error, Db, is_code, is_name,
  create_or_update,
}

abbrev pub is_internal : ℕ → Option ℕ → Bool
is_internal id none = false
is_internal id (some i) = i == id

abbrev pub is_mapped : ℕ → ℕ → MappingRecord → Bool
is_mapped integration external m = (m.integration_id == integration) && (m.external == external)

-- requeue_jobs_if_needed of a mapping; the external record is read by its id.
unfoldable pub requeue_mapping : List ExternalRecord → MappingRecord → List Requeue → List Requeue
requeue_mapping es m jobs = elim m.internal [
  | none ↦ jobs
  | some i ↦ elim (find? (λ e. e.id == m.external) es) [
    | none ↦ jobs
    | some e ↦ jobs ++ not_mapped_from_external e.code ∷ not_mapped_to_external i ∷ []
  ]
]

abbrev pub requeue_mappings : List ExternalRecord → List MappingRecord → List Requeue → List Requeue
requeue_mappings es [] jobs = jobs
requeue_mappings es (m ∷ ms) jobs = requeue_mappings es ms (requeue_mapping es m jobs)

-- A write of the internal record to all mappings that meet the test, with what they requeue.
unfoldable pub write_internal : (MappingRecord → Bool) → Option ℕ → Db → Db
unfolding requeue_mapping
write_internal p odoo_id db =
    let ms = map (λ m. if p m then record m { internal = odoo_id } else m) db.mappings in
    record db { mappings = ms; requeued = requeue_mappings db.externals (filter p ms) db.requeued }

abbrev pub new_mapping : ℕ → Option ℕ → ℕ → Db → MappingRecord
new_mapping integration odoo_id external db = record {
  id = db.next_mapping;
  integration_id = integration;
  internal = odoo_id;
  external = external;
}

unfoldable pub create_mapping : ℕ → Option ℕ → ℕ → Db → Db
unfolding requeue_mapping
create_mapping integration odoo_id external db = record db {
  mappings = db.mappings ++ new_mapping integration odoo_id external db ∷ [];
  next_mapping = suc db.next_mapping;
  requeued = requeue_mapping db.externals (new_mapping integration odoo_id external db) db.requeued;
}

-- With the external record that `create_or_update` found or made.
abbrev pub bind_found : ℕ → ℕ → String → ExternalRecord → Db → List MappingRecord → Result Error Db
bind_found integration odoo_id code e db [] = ok (create_mapping integration (some odoo_id) e.id db)
bind_found integration odoo_id code e db (m ∷ ms) =
    if str_eq e.code code
    then ok (write_internal (is_mapped integration e.id) (some odoo_id) db)
    else err assertion_error

abbrev pub bind_external : ℕ → ℕ → String → ExternalRecord × Db → Result Error Db
bind_external integration odoo_id code (e, db) =
    bind_found integration odoo_id code e db (filter (is_mapped integration e.id) db.mappings)

-- `extra_vals` may have a name and a reference.
unfoldable pub create_integration_mapping :
    ℕ → ℕ → String → Option String → Option String → Db → Result Error Db
unfolding create_or_update create_mapping write_internal
create_integration_mapping integration odoo_id code name reference db =
    create_or_update
      (record {
        integration_id = integration;
        code = code;
        name = name;
        external_reference = reference;
      })
      db
    >>= bind_external integration odoo_id code

abbrev pub search_mapping_from_external :
    ℕ → List ExternalRecord → Db → Result Error (List MappingRecord)
search_mapping_from_external integration [] db = ok []
search_mapping_from_external integration (e ∷ []) db =
    ok (filter (is_mapped integration e.id) db.mappings)
search_mapping_from_external integration (e ∷ f ∷ es) db = err validation_error

unfoldable pub get_mapping : ℕ → String → Db → Result Error (List MappingRecord)
get_mapping integration code db =
    if str_eq code ""
    then ok []
    else search_mapping_from_external integration (filter (is_code integration code) db.externals)
        db

unfoldable pub get_mapping_from_name : ℕ → String → Db → Result Error (List MappingRecord)
get_mapping_from_name integration name db =
    search_mapping_from_external integration (filter (is_name integration name) db.externals) db

-- The internal field of a recordset: the records that it names, each once.
abbrev pub internals : List MappingRecord → List ℕ → List ℕ
internals [] ids = ids
internals (m ∷ ms) ids =
    internals ms
      (elim m.internal [ none ↦ ids | some i ↦ if elem i ids then ids else ids ++ i ∷ [] ])

abbrev pub found_or_raise : Bool → String → List ℕ → Result Error (List ℕ)
found_or_raise true code [] = err (not_mapped_from code)
found_or_raise _ code ids = ok ids

abbrev pub get_internal_record : Bool → String → List MappingRecord → Result Error (List ℕ)
get_internal_record raise_error code ms = found_or_raise raise_error code (internals ms [])

unfoldable pub to_odoo : Bool → ℕ → String → Db → Result Error (List ℕ)
unfolding get_mapping
to_odoo raise_error integration code db =
    get_mapping integration code db >>= get_internal_record raise_error code

unfoldable pub to_odoo_from_name : Bool → ℕ → String → Db → Result Error (List ℕ)
unfolding get_mapping_from_name
to_odoo_from_name raise_error integration name db =
    get_mapping_from_name integration name db >>= get_internal_record raise_error name

-- search(…, order='id desc', limit=1)
abbrev pub newest : List MappingRecord → Option MappingRecord
newest ms = last? (sort_by (λ m. m.id) ms)

abbrev pub is_of_odoo : ℕ → ℕ → MappingRecord → Bool
is_of_odoo integration odoo_id m =
    (m.integration_id == integration) && is_internal odoo_id m.internal

unfoldable pub to_external_record : Bool → ℕ → ℕ → Db → Result Error (Option ExternalRecord)
unfolding sort_by
to_external_record raise_error integration odoo_id db =
    elim (newest (filter (is_of_odoo integration odoo_id) db.mappings)) [
      | none ↦ if raise_error then err (not_mapped_to odoo_id) else ok none
      | some m ↦ ok (find? (λ e. e.id == m.external) db.externals)
    ]

abbrev pub code_of : Option ExternalRecord → Option String
code_of none = none
code_of (some e) = some e.code

unfoldable pub to_external : ℕ → ℕ → Db → Result Error (Option String)
unfolding to_external_record
to_external integration odoo_id db =
    to_external_record true integration odoo_id db >>= λ e. ok (code_of e)

unfoldable pub get_external_code : ℕ → ℕ → Db → Result Error (Option String)
unfolding to_external_record
get_external_code integration odoo_id db =
    to_external_record false integration odoo_id db >>= λ e. ok (code_of e)

-- `except NotMappedToExternal`
abbrev pub or_export :
    Result Error (Option String × Db)
    → Result Error (Option String)
    → Db
    → Result Error (Option String × Db)
or_export export (ok code) db = ok (code, db)
or_export export (err (not_mapped_to _)) db = export
or_export export (err e) db = err e

-- The export is what the record's own model does.
unfoldable pub to_external_or_export :
    (Db → Result Error (Option String × Db)) → ℕ → ℕ → Db → Result Error (Option String × Db)
unfolding to_external
to_external_or_export export integration odoo_id db =
    or_export (export db) (to_external integration odoo_id db) db

-- The argument `odoo_id`: left out, `False`, or an id.
pub data OdooId : Type 0 where
  left_out unmap : OdooId
  given : ℕ → OdooId

abbrev pub new_internal : OdooId → Option ℕ
new_internal (given i) = some i
new_internal _ = none

abbrev pub write_if_changed : (MappingRecord → Bool) → OdooId → Db → Db
write_if_changed p left_out db = db
write_if_changed p unmap db = write_internal p none db
write_if_changed p (given i) db = write_internal p (some i) db

abbrev pub differs : OdooId → Option ℕ → Bool
differs left_out old = false
differs unmap none = false
differs unmap (some j) = true
differs (given i) old = not (is_internal i old)

abbrev pub only_if_left_out : OdooId → Db → Result Error Db
only_if_left_out left_out db = ok db
only_if_left_out _ db = err validation_error

-- The mapping of an external record; more than one raises where the id of its record is read.
unfoldable pub create_or_update_mapping : ExternalRecord → OdooId → Db → Result Error Db
unfolding create_mapping write_internal
create_or_update_mapping e odoo_id db =
    elim (filter (is_mapped e.integration_id e.id) db.mappings) [
      | [] ↦ ok (create_mapping e.integration_id (new_internal odoo_id) e.id db)
      | m ∷ [] ↦ ok (
          if differs odoo_id m.internal
          then write_if_changed (is_mapped e.integration_id e.id) odoo_id db
          else db)
      | m ∷ n ∷ ms ↦ only_if_left_out odoo_id db
    ]

-- All mappings of the store, or those of the given records.
unfoldable pub clear_mappings : ℕ → Option (List ℕ) → Db → Db
clear_mappings integration records db = record db {
  mappings =
      filter
        (λ m. not (
          (m.integration_id == integration) && elim records [
            | none ↦ true
            | some ids ↦ elim m.internal [ none ↦ false | some i ↦ elem i ids ]
          ]))
        db.mappings;
}
