-- ===== src/Service/Claims/Calculation.antt =====
-- `calculateClaim`: the value of a derived claim.
use georesearch_dsh.Prelude.{
  String, Bool, true, false, ◌&&◌, not, Option, none, some, List, [], ◌∷◌, ◌==◌, length, map,
  if◌then◌else◌, Result, ok, err, ◌>>=◌, Failure, geo_research_error,
}
use georesearch_dsh.Dict.{get, or_empty}
use georesearch_dsh.Contracts.Json.{Number}
use georesearch_dsh.Contracts.Experiment.{ResultRecord}
use georesearch_dsh.Contracts.Claim.{
  CalculationOperation, ClaimCalculation, ClaimCalculationProposal,
}
use georesearch_dsh.Contracts.State.{ProjectReducerState}
use georesearch_dsh.Service.Host.{Host}
use georesearch_dsh.Service.Guards.{same_strings}

abbrev pub claim_invalid : Failure
claim_invalid = geo_research_error "CLAIM_INVALID"

abbrev operation_text : CalculationOperation → String
operation_text CalculationOperation.difference = "difference"
operation_text CalculationOperation.ratio = "ratio"
operation_text CalculationOperation.percent_change = "percent-change"
operation_text CalculationOperation.mean = "mean"

-- `JSON.stringify(a) === JSON.stringify(b)` on calculations that may be null
abbrev pub same_calculation : Option ClaimCalculation → Option ClaimCalculation → Bool
same_calculation none none = true
same_calculation (some a) (some b) =
    operation_text a.operation == operation_text b.operation
    && same_strings a.operand_result_ids b.operand_result_ids
    && a.value == b.value
    && same_strings a.input_digests b.input_digests
same_calculation _ _ = false

-- The results with these ids, if all are on record.
unfoldable pub resolve : ProjectReducerState → List String → Option (List ResultRecord)
resolve s [] = some []
resolve s (k ∷ ks) = both (get (or_empty s.results) k) (resolve s ks)
  where
    both : Option ResultRecord → Option (List ResultRecord) → Option (List ResultRecord)
    both (some r) (some rs) = some (r ∷ rs)
    both _ _ = none

module _ (h : Host) where
  abbrev pub sum : Number → List Number → Number
  sum total [] = total
  sum total (v ∷ vs) = sum (h.add total v) vs

  abbrev pub quotient : (Number → Number → Number) → List Number → Result Number
  quotient f (a ∷ b ∷ []) = if b == "0" then err claim_invalid else ok (f a b)
  quotient f _ = err claim_invalid

  -- A zero, also a negative one, has the text `0`.
  abbrev pub calculate_value : CalculationOperation → List Number → Result Number
  calculate_value CalculationOperation.difference (a ∷ b ∷ []) = ok (h.subtract a b)
  calculate_value CalculationOperation.difference _ = err claim_invalid
  calculate_value CalculationOperation.ratio values = quotient h.divide values
  calculate_value CalculationOperation.percent_change values =
      quotient (λ a b. h.multiply (h.divide (h.subtract a b) b) "100") values
  calculate_value CalculationOperation.mean [] = err claim_invalid
  calculate_value CalculationOperation.mean (v ∷ vs) =
      ok (h.divide (sum "0" (v ∷ vs)) (h.of_nat (length (v ∷ vs))))

  abbrev calculate_on :
      ClaimCalculationProposal → Option (List ResultRecord) → Result ClaimCalculation
  calculate_on c none = err claim_invalid
  calculate_on c (some results) =
      calculate_value c.operation (map (λ r. r.value) results) >>= λ value.
      if not (h.is_finite value)
      then err claim_invalid
      else ok (record {
        operation = c.operation;
        operand_result_ids = c.operand_result_ids;
        value = value;
        input_digests = map (λ r. r.digest) results;
      })

  unfoldable pub calculate_claim :
      ProjectReducerState → ClaimCalculationProposal → Result ClaimCalculation
  unfolding resolve
  calculate_claim s c = calculate_on c (resolve s c.operand_result_ids)
