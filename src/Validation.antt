-- ===== src/Validation.antt =====
-- packages/contracts/src/phase6.ts: the overall outcome of a validation.
pub mod Outcome
use georesearch_dsh.Prelude.{
  String, Bool, true, false, ◌&&◌, ◌||◌, not, Option, none, some, List, [], ◌∷◌, ◌==◌, nat_eq,
  length, is_empty, any, all, if◌then◌else◌,
}
use georesearch_dsh.Dict.{Dict, get}
use georesearch_dsh.Contracts.Dataset.{Overall}
use georesearch_dsh.Contracts.Validation.{
  ValidationValidatorSpec, ValidationValidatorResult, ValidatorStatus,
}
use georesearch_dsh.Reducer.Maps.{put_all}

-- `new Map(results.map(result => [result.validatorId, result]))`
unfoldable pub by_id : List ValidationValidatorResult → Dict ValidationValidatorResult
by_id results = put_all (λ r. r.validator_id) [] results

abbrev pub same_flag : Bool → Bool → Bool
same_flag true b = b
same_flag false b = not b

abbrev pub answers : ValidationValidatorSpec → ValidationValidatorResult → Bool
answers expected actual =
    actual.version == expected.version
    && same_flag actual.mandatory expected.mandatory
    && actual.config_digest == expected.config_digest

abbrev pub answered : ValidationValidatorSpec → Option ValidationValidatorResult → Bool
answered expected none = false
answered expected (some actual) = answers expected actual

abbrev pub is_stuck : ValidatorStatus → Bool
is_stuck ValidatorStatus.blocked = true
is_stuck ValidatorStatus.error = true
is_stuck _ = false

abbrev pub is_failed : ValidatorStatus → Bool
is_failed ValidatorStatus.failed = true
is_failed _ = false

unfoldable pub derive_validation_overall :
    List ValidationValidatorSpec → List ValidationValidatorResult → Overall
unfolding by_id
derive_validation_overall validators results =
    if is_empty validators || is_empty results
    then Overall.blocked
    else if not (nat_eq (length (by_id results)) (length results))
        || not (nat_eq (length results) (length validators))
    then Overall.blocked
    else if not (all (λ v. answered v (get (by_id results) v.validator_id)) validators)
    then Overall.blocked
    else if any (λ r. r.mandatory && is_stuck r.status) results
    then Overall.blocked
    else if any (λ r. is_failed r.status) results
    then Overall.failed
    else Overall.passed
