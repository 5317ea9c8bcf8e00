-- ===== src/Adapters/Hub.antt =====
-- `AdapterHub` of integration/tools.py, `to_dictionary` and `_build_adapter_core` of
-- integration/models/sale_integration.py, and `to_dictionary` of
-- integration/models/sale_integration_api_field.py.
use text.Mathlib.Text.{◌==◌ as str_eq}
use jean_fourche.Base.{
  ℕ, String, Bool, not, ◌&&◌, Option, none, some, List, [], ◌∷◌, ◌==◌, if◌then◌else◌,
}

-- A row of the settings of a store.
pub record ApiField : Type 0 where
  pub name : String
  pub description : String
  pub value : String
  pub eval : Bool
  pub is_secure : Bool

-- The same in the dictionary, where the value may have been evaluated.
pub record Setting (V : Type 0) : Type 0 where
  pub name : String
  pub description : String
  pub value : V
  pub eval : Bool
  pub is_secure : Bool

pub record Settings (V : Type 0) : Type 0 where
  pub name : String
  pub type_api : String
  pub fields : List (String × Setting V)
  pub data_block_size : ℕ

pub record Integration : Type 0 where
  pub id : ℕ
  pub name : String
  pub type_api : String
  pub field_ids : List ApiField
  pub data_block_size : ℕ

pub record Core (V : Type 0) : Type 0 where
  pub settings : Settings V
  pub integration_id : ℕ
  pub integration_name : String
  pub adapter_hash : ℕ

-- dict_[key] = value
abbrev pub dict_set : {A : Type 0} → String → A → List (String × A) → List (String × A)
dict_set k a [] = (k, a) ∷ []
dict_set k a ((j, b) ∷ d) = if str_eq j k then (j, a) ∷ d else (j, b) ∷ dict_set k a d

-- The integration's id and the process's.
abbrev pub Key : Type 0
Key = ℕ × ℕ

abbrev pub same_key : Key → Key → Bool
same_key (i, p) (j, q) = (i == j) && (p == q)

module _ {A : Type 0} where
  abbrev pub hub_get : Key → List (Key × A) → Option A
  hub_get k [] = none
  hub_get k ((j, a) ∷ d) = if same_key j k then some a else hub_get k d

  abbrev pub hub_set : Key → A → List (Key × A) → List (Key × A)
  hub_set k a [] = (k, a) ∷ []
  hub_set k a ((j, b) ∷ d) = if same_key j k then (j, a) ∷ d else (j, b) ∷ hub_set k a d

  -- dict_.pop(key, False)
  abbrev pub hub_pop : Key → List (Key × A) → List (Key × A)
  hub_pop k [] = []
  hub_pop k ((j, a) ∷ d) = if same_key j k then d else (j, a) ∷ hub_pop k d

abbrev pub Hub : Type 0 → Type 0
Hub V = List (Key × Core V)

-- The values of the settings, the evaluation of one that is marked for it, and Python's `hash` of the
-- text of the dictionary.
module _ {V : Type 0} (as_text safe_eval : String → V) (hash : Settings V → ℕ) where
  abbrev pub field_to_dictionary : ApiField → Setting V
  field_to_dictionary f = record {
    name = f.name;
    description = f.description;
    value = if f.eval && not (str_eq f.value "") then safe_eval f.value else as_text f.value;
    eval = f.eval;
    is_secure = f.is_secure;
  }

  abbrev pub fields_to_dictionary :
      List ApiField → List (String × Setting V) → List (String × Setting V)
  fields_to_dictionary [] d = d
  fields_to_dictionary (f ∷ fs) d =
      fields_to_dictionary fs (dict_set f.name (field_to_dictionary f) d)

  unfoldable pub to_dictionary : Integration → Settings V
  to_dictionary i = record {
    name = i.name;
    type_api = i.type_api;
    fields = fields_to_dictionary i.field_ids [];
    data_block_size = i.data_block_size;
  }

  -- Without the argument: the settings of a store are never an empty dictionary.
  abbrev pub get_hash : Integration → ℕ
  get_hash i = hash (to_dictionary i)

  abbrev pub build_adapter_core : Integration → Core V
  build_adapter_core i = record {
    settings = to_dictionary i;
    integration_id = i.id;
    integration_name = i.name;
    adapter_hash = hash (to_dictionary i);
  }

  abbrev pub set_core_cls : Integration → Key → Hub V → Core V × Hub V
  set_core_cls i k d = (build_adapter_core i, hub_set k (build_adapter_core i) d)

  abbrev pub erase_core_cls : Key → Hub V → Hub V
  erase_core_cls k d = hub_pop k d

  -- With the core that the hub has under the key.
  abbrev pub current_core : Integration → Key → Hub V → Option (Core V) → Core V × Hub V
  current_core i k d none = set_core_cls i k d
  current_core i k d (some core) =
      if core.adapter_hash == get_hash i then (core, d) else set_core_cls i k (erase_core_cls k d)

  -- In the process `pid`.
  unfoldable pub get_core : ℕ → Integration → Hub V → Core V × Hub V
  get_core pid i d = current_core i (i.id, pid) d (hub_get (i.id, pid) d)

  -- The cores of a sequence of calls, each in its process and with the settings of its time.
  abbrev pub get_cores : List (ℕ × Integration) → Hub V → List (Core V)
  get_cores [] d = []
  get_cores ((pid, i) ∷ calls) d = let r = get_core pid i d in r.0 ∷ get_cores calls r.1
