-- ===== src/Examples/Validating.antt =====
-- A validation by one mandatory validator.
use mathlib.Core.List.{Memᴰ}
use georesearch_dsh.Prelude.{◌≡◌, refl, true, [], ◌∷◌, length, all, any}
use georesearch_dsh.Dict.{get, put}
use georesearch_dsh.Contracts.Validation.{
  ValidationValidatorSpec, ValidationValidatorResult, ValidatorStatus,
}
use georesearch_dsh.Reducer.Maps.{put_all}
use georesearch_dsh.Validation.{derive_validation_overall}
use georesearch_dsh.Validation.Outcome.{Answers, passed_is_earned}
use georesearch_dsh.Examples.Data.{digest_a}

abbrev crs : ValidationValidatorSpec
crs = record { validator_id = "crs"; version = "1"; mandatory = true; config_digest = digest_a }

abbrev crs_passed : ValidationValidatorResult
crs_passed = record {
  validator_id = "crs";
  version = "1";
  mandatory = true;
  config_digest = digest_a;
  status = ValidatorStatus.passed;
  findings = [];
}

abbrev crs_failed : ValidationValidatorResult
crs_failed = record crs_passed { status = ValidatorStatus.failed }

passed_is_earned_example :
    (length (crs_passed ∷ []) ≡ length (crs ∷ []))
    × ((r : ValidationValidatorResult) × Memᴰ r (crs_passed ∷ []) × Answers crs r)
unfolding derive_validation_overall get put put_all all any
passed_is_earned_example = passed_is_earned (crs ∷ []) (crs_passed ∷ []) crs refl (Memᴰ.head refl)
