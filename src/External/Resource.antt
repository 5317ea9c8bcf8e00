-- ===== src/External/Resource.antt =====
-- What a store knows of an order besides its lines: external.order.resource,
-- integration/models/external/external_order_resource.py. `X` are the fields that the payment
-- transactions and the fulfillments add.
use text.Mathlib.Text.{◌==◌ as str_eq}
use jean_fourche.Base.{
  ℕ, String, Bool, true, false, ◌&&◌, Option, none, some, List, [], ◌∷◌, ◌++◌, map, find?, ◌==◌,
  if◌then◌else◌,
}

pub data Status : Type 0 where
  draft skipped failed done : Status

pub record Resource (X : Type 0) : Type 0 where
  pub id : ℕ
  pub name : String
  pub internal_status : Status
  pub external_str_id : String
  pub external_order_str_id : Option String
  pub external_status : String
  pub internal_info : Option String
  pub erp_order_id : Option ℕ
  pub own : X

-- The data of a resource as the store's adapter gives it.
pub record Data (X : Type 0) : Type 0 where
  pub name : String
  pub external_str_id : String
  pub external_status : String
  pub own : X

abbrev pub is_done_status : Status → Bool
is_done_status Status.done = true
is_done_status _ = false

abbrev pub same_option : Option ℕ → Option ℕ → Bool
same_option none none = true
same_option (some a) (some b) = a == b
same_option _ _ = false

abbrev pub integration_of : (ℕ → Option ℕ) → Option ℕ → Option ℕ
integration_of order_integration none = none
integration_of order_integration (some o) = order_integration o

module _ {X : Type 0} where
  abbrev pub is_done : Resource X → Bool
  is_done r = is_done_status r.internal_status

  abbrev pub is_success : Resource X → Bool
  is_success r = str_eq r.external_status "success"

  unfoldable pub mark_done : Resource X → Resource X
  mark_done r = record r { internal_status = Status.done }

  unfoldable pub mark_skipped : Resource X → Resource X
  mark_skipped r = record r { internal_status = Status.skipped }

  unfoldable pub mark_failed : Resource X → Resource X
  mark_failed r = record r { internal_status = Status.failed }

  -- The domain of the search. `order_integration` is the field `integration_id` of a sales order,
  -- to which that of a resource is related.
  abbrev pub is_match : (ℕ → Option ℕ) → Option ℕ → String → Resource X → Bool
  is_match order_integration integration ext_id r =
      str_eq r.external_str_id ext_id
      && same_option (integration_of order_integration r.erp_order_id) integration

  -- `write_own` is what writing the fields of `X` does to those that a record has.
  module _ (write_own : X → X → X) where
    abbrev pub write_vals : Option String → Data X → Resource X → Resource X
    write_vals order_id vals r = record r {
      name = vals.name;
      external_str_id = vals.external_str_id;
      external_order_str_id = order_id;
      external_status = vals.external_status;
      own = write_own vals.own r.own;
    }

    abbrev pub write_record : ℕ → (Resource X → Resource X) → List (Resource X) → List (Resource X)
    write_record id f rs = map (λ r. if r.id == id then f r else r) rs

    -- The id of the record that is found or created, and the records after that. `next_id` is the
    -- id that the database gives to a new record.
    unfoldable pub get_or_create_from_external :
        (ℕ → Option ℕ)
        → Option ℕ
        → Option String
        → X
        → ℕ
        → Data X
        → List (Resource X)
        → ℕ × List (Resource X)
    get_or_create_from_external order_integration integration order_id default next_id vals rs =
        elim (find? (is_match order_integration integration vals.external_str_id) rs) [
          | none ↦ (
            next_id,
            rs
                ++ record {
                  id = next_id;
                  name = vals.name;
                  internal_status = Status.draft;
                  external_str_id = vals.external_str_id;
                  external_order_str_id = order_id;
                  external_status = vals.external_status;
                  internal_info = none;
                  erp_order_id = none;
                  own = write_own vals.own default;
                }
                  ∷ [],
          )
          | some r ↦ (r.id, write_record r.id (write_vals order_id vals) rs)
        ]
