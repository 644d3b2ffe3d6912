-- ===== src/Tests/Turns.antt =====
-- A turn of the seller whose policy first answers with no decision and then with an offer.
use agentic_negotiators_sbx.Agent.Json.{Json, null}
use agentic_negotiators_sbx.Agent.Observation.{next_proposer, seller}
use agentic_negotiators_sbx.Agent.Policy.{PolicyResponse, answered}
use agentic_negotiators_sbx.Agent.Turns.{Environment, TurnOutcome, run}
use agentic_negotiators_sbx.Agent.Turns.Outcomes.{IsSound, run-IsSound}
use agentic_negotiators_sbx.Agent.Turns.Progress.{IsReady, run_total}
use agentic_negotiators_sbx.Prelude.{
  arith, if◌then◌else◌, ltb, none, ok, refl, true, ℕ, ◌+◌, ◌-◌, ◌≡◌,
}
use agentic_negotiators_sbx.Prelude.Int.{pos}
use agentic_negotiators_sbx.Tests.Sample.{
  hashing, offer_120, seller_session, seller_signer, seller_view,
}

-- The environment's state counts the clock's readings and the policy's answers.
abbrev answer_at : ℕ → Json
answer_at n = if ltb n 2 then null else offer_120

abbrev response_of : Json → PolicyResponse
response_of answer = record {
  raw_response = answer;
  stop_reason = none;
  usage = none;
  cost_estimated_usd = none;
  cost_reported_usd = none;
}

abbrev environment : Environment ℕ
environment = record {
  now = λ n. (pos n, n + 1);
  decide = λ o repair left n. (answered (response_of (answer_at n)), n + 1);
  latency = λ a b. b - a;
  still_open = λ n. true;
}

run-IsSound_example :
    IsSound environment hashing seller_session seller_signer none seller_view 2
      (run environment hashing seller_session seller_signer none seller_view 2 0)
run-IsSound_example =
    run-IsSound environment hashing seller_session seller_signer none seller_view 2 0

ready_example : IsReady environment hashing seller_session seller_signer none seller_view
unfolding next_proposer
ready_example = record {
  turn_known = (seller, refl);
  early = omega arith;
  mine = refl;
  stays_open = λ s. refl;
}

run_total_example :
    (out : TurnOutcome) × ((run environment hashing seller_session seller_signer none seller_view 2
        0).0
      ≡ ok out)
run_total_example =
    run_total environment hashing seller_session seller_signer none seller_view 2 0 (omega arith)
      ready_example
