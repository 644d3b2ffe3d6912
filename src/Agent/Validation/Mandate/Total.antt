-- ===== src/Agent/Validation/Mandate/Total.antt =====
-- mandate.py's `MandateValidator`: when it answers.
use agentic_negotiators_sbx.Agent.Json.{Json}
use agentic_negotiators_sbx.Agent.Observation.{Observation, Role, next_proposer}
use agentic_negotiators_sbx.Agent.Validation.Decisions.{
  Validation, accepted, proposed_accept, proposed_offer, proposed_walk_away, refused,
  valid_walk_away,
}
use agentic_negotiators_sbx.Agent.Validation.Mandate.{
  validate, validate_accept, validate_offer, validate_outcome,
}
use agentic_negotiators_sbx.Agent.Validation.Structure.{ParseResult}
use agentic_negotiators_sbx.Agent.Validation.Structure.Total.{parse_decision_total}
use agentic_negotiators_sbx.Prelude.{answers, bind_ok, err, ok, refl, ◌≡◌}

outcome_total :
    (r : ParseResult) (o : Observation) (role : Role)
    → next_proposer o ≡ ok role
    → (v : Validation) × (validate_outcome r o ≡ ok v)
unfolding validate_outcome validate_offer
outcome_total (err refusal) o role h = (refused refusal, refl)
outcome_total (ok (proposed_offer amount)) o role h = answers _ _ (bind_ok (next_proposer o) _ h)
outcome_total (ok (proposed_accept hash)) o role h = (validate_accept hash o o.active_offer, refl)
outcome_total (ok (proposed_walk_away why c)) o role h = (accepted (valid_walk_away why c), refl)

-- When the history says whose turn it is, the validator answers whatever the response is, and
-- raises nothing.
pub validate_total :
    (response : Json) (o : Observation) (role : Role)
    → next_proposer o ≡ ok role
    → (v : Validation) × (validate response o ≡ ok v)
unfolding validate
validate_total response o role h =
    let (r, parsed) = parse_decision_total response in
    let (v, e) = outcome_total r o role h in (v, rw parsed e)
