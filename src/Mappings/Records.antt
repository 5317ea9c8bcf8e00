-- ===== src/Mappings/Records.antt =====
-- The external records of one model and their mappings to the records of Odoo, as the two tables
-- hold them. integration/models/mixins/integration_external_mixin.py.
use text.Mathlib.Text.{◌==◌ as str_eq}
use jean_fourche.Base.{
  ℕ, suc, String, Bool, true, false, ◌&&◌, Option, none, some, List, [], ◌∷◌, ◌++◌, filter, count,
  find?, ◌==◌, ltb, if◌then◌else◌,
}
use jean_fourche.Base.Result.{Result, ok, err}

pub record ExternalRecord : Type 0 where
  pub id : ℕ
  pub integration_id : ℕ
  pub code : String
  pub name : String
  pub external_reference : Option String

pub record MappingRecord : Type 0 where
  pub id : ℕ
  pub integration_id : ℕ
  pub internal : Option ℕ
  pub external : ℕ

-- The failed jobs that are put back: by the name of their exception, with their key.
pub data Requeue : Type 0 where
  not_mapped_from_external : String → Requeue
  not_mapped_to_external : ℕ → Requeue
  no_external : String → Requeue

pub data Error : Type 0 where
  not_mapped_from : String → Error
  not_mapped_to : ℕ → Error
  validation_error multiple_external_records unique_violation assertion_error : Error
  missing_external : String → Error

-- The two tables, the ids that they give next, and the jobs that were put back.
pub record Db : Type 0 where
  pub externals : List ExternalRecord
  pub mappings : List MappingRecord
  pub next_external : ℕ
  pub next_mapping : ℕ
  pub requeued : List Requeue

-- The values of an external record; a key that may be missing is an Option.
pub record Vals : Type 0 where
  pub integration_id : ℕ
  pub code : String
  pub name : Option String
  pub external_reference : Option String

abbrev pub is_code : ℕ → String → ExternalRecord → Bool
is_code integration code e = (e.integration_id == integration) && str_eq e.code code

abbrev pub is_name : ℕ → String → ExternalRecord → Bool
is_name integration name e = (e.integration_id == integration) && str_eq e.name name

abbrev pub same_reference : Option String → Option String → Bool
same_reference (some a) (some b) = str_eq a b
same_reference _ _ = false

abbrev pub is_reference : ℕ → Option String → ExternalRecord → Bool
is_reference integration reference e =
    (e.integration_id == integration) && same_reference e.external_reference reference

abbrev pub or_else {ℓ} : {A : Type ℓ} → Option A → A → A
or_else none a = a
or_else (some b) a = b

abbrev pub kept_reference : Option String → Option String → Option String
kept_reference none old = old
kept_reference (some new) old = some new

abbrev pub write_vals : Vals → ExternalRecord → ExternalRecord
write_vals vals e = record e {
  integration_id = vals.integration_id;
  code = vals.code;
  name = or_else vals.name e.name;
  external_reference = kept_reference vals.external_reference e.external_reference;
}

abbrev pub new_external : ℕ → Vals → ExternalRecord
new_external id vals = record {
  id = id;
  integration_id = vals.integration_id;
  code = vals.code;
  name = or_else vals.name "";
  external_reference = vals.external_reference;
}

-- A search with the limit 1, and a write to what it found.
abbrev pub update_first {ℓ} : {A : Type ℓ} → (A → Bool) → (A → A) → List A → List A
update_first p f [] = []
update_first p f (x ∷ xs) = if p x then f x ∷ xs else x ∷ update_first p f xs

-- requeue_jobs_if_needed of an external record.
abbrev pub requeue_external : ExternalRecord → List Requeue → List Requeue
requeue_external e jobs = elim e.external_reference [
  | none ↦ jobs
  | some reference ↦ if str_eq reference "" then jobs else jobs ++ no_external e.code ∷ []
]

-- The constraint uniq_reference, after a write; uniq_code cannot fail where the code was searched.
abbrev pub checked : ExternalRecord → Db → Result Error (ExternalRecord × Db)
checked e db =
    if ltb 1 (count (is_reference e.integration_id e.external_reference) db.externals)
    then err unique_violation
    else ok (e, db)

abbrev pub created : Vals → Db → Db
created vals db = record db {
  externals = db.externals ++ new_external db.next_external vals ∷ [];
  next_external = suc db.next_external;
  requeued = requeue_external (new_external db.next_external vals) db.requeued;
}

abbrev pub written : Vals → ExternalRecord → Db → Db
written vals old db = record db {
  externals = update_first (is_code vals.integration_id vals.code) (write_vals vals) db.externals;
  requeued = requeue_external (write_vals vals old) db.requeued;
}

abbrev pub create_or_write : Vals → Db → Option ExternalRecord → Result Error (ExternalRecord × Db)
create_or_write vals db none = checked (new_external db.next_external vals) (created vals db)
create_or_write vals db (some old) = checked (write_vals vals old) (written vals old db)

unfoldable pub create_or_update : Vals → Db → Result Error (ExternalRecord × Db)
create_or_update vals db =
    create_or_write vals db (find? (is_code vals.integration_id vals.code) db.externals)

-- The records that the search found, by whether more or fewer than one is an error.
abbrev pub only_one : Bool → String → List ExternalRecord → Result Error (List ExternalRecord)
only_one false code es = ok es
only_one true code [] = err (missing_external code)
only_one true code (e ∷ []) = ok (e ∷ [])
only_one true code (e ∷ f ∷ es) = err multiple_external_records

unfoldable pub get_external_by_code : Bool → ℕ → String → Db → Result Error (List ExternalRecord)
get_external_by_code raise_error integration code db =
    only_one raise_error code (filter (is_code integration code) db.externals)
