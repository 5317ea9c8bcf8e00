-- ===== src/Adapters/Tests.antt =====
-- A store whose settings change between two calls of one process, and a call of another process.
use jean_fourche.Base.{ℕ, String, ◌≡◌, List, [], ◌∷◌, map}
use jean_fourche.Adapters.Hub.{Settings, Integration, get_cores, build_adapter_core}
use jean_fourche.Adapters.Refine.{get_cores-refines, seen}

abbrev store : ℕ → Integration
store block = record {
  id = 4;
  name = "shop";
  type_api = "shopify";
  field_ids = [];
  data_block_size = block;
}

abbrev calls : List (ℕ × Integration)
calls = (100, store 10) ∷ (100, store 10) ∷ (100, store 20) ∷ (101, store 20) ∷ []

abbrev by_block : Settings String → ℕ
by_block s = s.data_block_size

get_cores-refines_example :
    map (seen (λ s. s) (λ s. s) by_block) (get_cores (λ s. s) (λ s. s) by_block calls [])
    ≡ map
        (λ call.
          seen (λ s. s) (λ s. s) by_block (build_adapter_core (λ s. s) (λ s. s) by_block call.1))
        calls
get_cores-refines_example = get_cores-refines (λ s. s) (λ s. s) by_block calls
