-- ===== src/Tests/Routing.antt =====
-- Routing: runs of the validation, and its theorems at concrete specs.
use distributed_service_mesh.Base.Dict.{put, get}
use distributed_service_mesh.Base.Text.{text_eq, codes}
use distributed_service_mesh.Base.Outcome.{err, ok}
use distributed_service_mesh.Tests.Data.{canary}
use distributed_service_mesh.Routing.Store.{
  put_spec, spec_of-IsAccepted, new_store, change, change_all, spec_of, set,
}
use distributed_service_mesh.Routing.Spec.{weights_sum, check_total, check_splits, Spec, validate}
use distributed_service_mesh.Routing.Validation.{validate_iff, IsAccepted}
use distributed_service_mesh.Base.{some, refl, [], ◌∷◌, ◌↔◌, ◌≡◌}

short_validate :
    validate (record canary { splits = record { version = []; weight = 99 } ∷ [] })
    ≡ err (weights_sum 99)
unfolding validate check_splits check_total get put text_eq
short_validate = refl

validate_iff_example : (validate canary ≡ ok tt) ↔ IsAccepted canary
validate_iff_example = validate_iff canary

-- 4294967295 and 101 per cent.
abbrev huge : Spec
huge = record canary {
  splits =
      record { version = codes "v1"; weight = 4_294_967_295 }
      ∷ record { version = codes "v2"; weight = 101 }
      ∷ [];
  retry_on = [];
}

found_canary : spec_of (codes "web") (change_all (put_spec canary ∷ []) new_store) ≡ some canary
unfolding spec_of change_all change set get put validate check_splits check_total text_eq
found_canary = refl

spec_of-IsAccepted_example : (canary.service ≡ codes "web") × IsAccepted canary
spec_of-IsAccepted_example =
    spec_of-IsAccepted (put_spec canary ∷ []) (codes "web") {spec = canary} found_canary
