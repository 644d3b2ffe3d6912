-- ===== src/Tests/Policy.antt =====
-- The baseline at the seller's first move.
use mathlib.Core.Path.{subst}
use agentic_negotiators_sbx.Agent.Consistency.{contradictions}
use agentic_negotiators_sbx.Agent.Consistency.Usable.{contradictions-IsUsable}
use agentic_negotiators_sbx.Agent.Observation.{buyer, next_proposer, own_offers_recorded, seller}
use agentic_negotiators_sbx.Agent.Policy.Concession.{concession_price, opportunities}
use agentic_negotiators_sbx.Agent.Policy.Concession.Laws.{
  concession_price_bounds, concession_price_concedes, concession_price_last,
}
use agentic_negotiators_sbx.Agent.Policy.Deterministic.{Choice, choose, envelope}
use agentic_negotiators_sbx.Agent.Policy.Deterministic.Gate.{IsUsable, choose_passes}
use agentic_negotiators_sbx.Agent.Signing.{Hashing}
use agentic_negotiators_sbx.Agent.Validation.Decisions.{Validation, is_ok}
use agentic_negotiators_sbx.Agent.Validation.Mandate.{validate}
use agentic_negotiators_sbx.Prelude.{arith, ok, refl, true, ◌≡◌, ◌≤◌}
use agentic_negotiators_sbx.Prelude.Int.{◌*ℤ◌, ◌/ℤ◌}
use agentic_negotiators_sbx.Protocol.Values.{digest, uint256_max}
use agentic_negotiators_sbx.Tests.Sample.{
  hashing, offer_digest, seller_session, seller_view, standing,
}

concession_price_bounds_example :
    (1 ≤ 120) × (120 ≤ uint256_max) × (seller ≡ buyer → 120 ≤ 100) × (seller ≡ seller → 100 ≤ 120)
unfolding concession_price ◌/ℤ◌ ◌*ℤ◌
concession_price_bounds_example =
    concession_price_bounds seller 100 0 3 {p = 120} (omega arith) (omega arith) refl

concession_price_last_example : concession_price buyer 100 2 3 ≡ ok 100
concession_price_last_example =
    concession_price_last buyer 100 3 (omega arith) (omega arith) (omega arith)

concession_price_concedes_example : (seller ≡ buyer → 120 ≤ 110) × (seller ≡ seller → 110 ≤ 120)
unfolding concession_price ◌/ℤ◌ ◌*ℤ◌
concession_price_concedes_example =
    concession_price_concedes seller 100 0 1 3 {p = 120} {q = 110} (omega arith) (omega arith) refl
      refl

seller_view-IsUsable : IsUsable seller_view
unfolding next_proposer opportunities digest
seller_view-IsUsable = record {
  turn_known = (seller, refl);
  share = λ _. omega arith;
  canonical = λ a e.
      let same : standing ≡ a = cc in subst (λ b. digest b.offer_hash ≡ ok b.offer_hash) same refl;
}

choose_passes_example :
    (c : Choice) × (choose seller_view ≡ ok c)
    × ((v : Validation) × (validate (envelope c) seller_view ≡ ok v) × (is_ok v ≡ true))
choose_passes_example = choose_passes seller_view seller_view-IsUsable

-- An encoder under which the standing offer has its digest.
abbrev offer_hashing : Hashing
offer_hashing = record hashing { hash_message = λ _ _ _. offer_digest }

contradictions-IsUsable_example : IsUsable seller_view
unfolding contradictions opportunities digest own_offers_recorded
contradictions-IsUsable_example =
    contradictions-IsUsable offer_hashing seller_session seller_view refl
      seller_view-IsUsable.canonical
