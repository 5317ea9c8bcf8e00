-- ===== src/Mappings/Tests.antt =====
-- Runs of the mappings on one store, whose code `A` is bound to the record 5.
use jean_fourche.Base.{true, ◌≡◌, refl, none, some, [], ◌∷◌, arith}
use jean_fourche.Base.Result.{ok, Holds, ◌>>=◌}
use jean_fourche.Base.Sort.{sort_by}
use jean_fourche.Mappings.Records.{Db, create_or_update}
use jean_fourche.Mappings.Mixin.{
  create_integration_mapping, create_mapping, write_internal, requeue_mapping, get_mapping,
  to_external_record, to_odoo, to_external,
}
use jean_fourche.Mappings.Valid.{IsValid, create_integration_mapping-IsValid}
use jean_fourche.Mappings.RoundTrip.{to_odoo-create_integration_mapping}
use jean_fourche.Mappings.ToExternal.{to_external-create_integration_mapping}

abbrev store : Db
store = record {
  externals =
      (record { id = 0; integration_id = 1; code = "A"; name = "a"; external_reference = none })
      ∷ [];
  mappings = (record { id = 0; integration_id = 1; internal = some 5; external = 0 }) ∷ [];
  next_external = 1;
  next_mapping = 1;
  requeued = [];
}

store-IsValid : IsValid store
store-IsValid = record {
  codes = λ i c. ground arith;
  ids = λ k. ground arith;
  fresh = λ k h. ground arith;
  pairs = λ i k. ground arith;
}

create_integration_mapping-IsValid_example :
    Holds IsValid (create_integration_mapping 1 7 "A" none none store)
create_integration_mapping-IsValid_example =
    create_integration_mapping-IsValid 1 7 "A" none none store store-IsValid

to_odoo-create_integration_mapping_example :
    Holds
      (λ after. to_odoo true 1 "A" after ≡ ok (7 ∷ []))
      (create_integration_mapping 1 7 "A" none none store)
to_odoo-create_integration_mapping_example =
    to_odoo-create_integration_mapping true 1 7 "A" none none store store-IsValid refl

to_external-create_integration_mapping_example :
    Holds
      (λ after. to_external 1 7 after ≡ ok (some "A"))
      (create_integration_mapping 1 7 "A" none none store)
to_external-create_integration_mapping_example =
    to_external-create_integration_mapping 1 7 "A" none none store store-IsValid refl

-- The code is bound anew, and read from both sides.
bound_again :
    (create_integration_mapping 1 7 "A" none none store >>= to_odoo true 1 "A") ≡ ok (7 ∷ [])
unfolding create_integration_mapping create_or_update create_mapping write_internal requeue_mapping
    to_odoo get_mapping
bound_again = refl

exported_again :
    (create_integration_mapping 1 7 "A" none none store >>= to_external 1 7) ≡ ok (some "A")
unfolding create_integration_mapping create_or_update create_mapping write_internal requeue_mapping
    to_external to_external_record sort_by
exported_again = refl
