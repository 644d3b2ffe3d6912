-- ===== src/Tests/Validation.antt =====
-- Validation at a legal offer of the seller.
use agentic_negotiators_sbx.Agent.Observation.{next_proposer, offers_recorded, seller}
use agentic_negotiators_sbx.Agent.Validation.Decisions.{
  Validation, accepted, proposed_offer, valid_offer,
}
use agentic_negotiators_sbx.Agent.Validation.Mandate.{validate}
use agentic_negotiators_sbx.Agent.Validation.Mandate.Legal.{LegalOffer, WithinMandate}
use agentic_negotiators_sbx.Agent.Validation.Mandate.Sound.{validate-accepts_iff}
use agentic_negotiators_sbx.Agent.Validation.Mandate.Total.{validate_total}
use agentic_negotiators_sbx.Agent.Validation.Structure.{ParseResult, parse_decision}
use agentic_negotiators_sbx.Agent.Validation.Structure.Total.{parse_decision_total}
use agentic_negotiators_sbx.Prelude.{arith, ok, refl, ◌≡◌}
use agentic_negotiators_sbx.Protocol.Values.{parse}
use agentic_negotiators_sbx.Tests.Sample.{offer_120, seller_view}

within_example : WithinMandate seller_view 120
within_example = record { priced = (λ e. cc, λ _. omega arith); kept = (λ e. cc, λ _. omega arith) }

offer_example : LegalOffer seller_view 120
unfolding next_proposer offers_recorded
offer_example = record {
  in_turn = refl;
  opportunity = omega arith;
  session_open = omega arith;
  within = within_example;
}

validate-accepts_iff_example : validate offer_120 seller_view ≡ ok (accepted (valid_offer 120))
unfolding parse_decision parse
validate-accepts_iff_example =
    (validate-accepts_iff offer_120 seller_view (valid_offer 120)).1
      (ok (proposed_offer 120), refl, (refl, offer_example))

validate_total_example : (v : Validation) × (validate offer_120 seller_view ≡ ok v)
unfolding next_proposer
validate_total_example = validate_total offer_120 seller_view seller refl

parse_decision_total_example : (r : ParseResult) × (parse_decision offer_120 ≡ ok r)
parse_decision_total_example = parse_decision_total offer_120
