-- ===== src/Tests/Metrics.antt =====
-- The figures of a session of ten base units, settled at ninety-five.
use agentic_negotiators_sbx.Agent.Observation.{Observation, Role, buyer, seller}
use agentic_negotiators_sbx.Agent.Validation.Mandate.Legal.{WithinMandate}
use agentic_negotiators_sbx.Api.Controller.States.{failed_setup}
use agentic_negotiators_sbx.Api.Metrics.Costs.{Decision, OutboxRow, first_sent, model_cost}
use agentic_negotiators_sbx.Api.Metrics.Costs.FirstSent.{IsBroadcast, IsLeast, first_sent-IsLeast}
use agentic_negotiators_sbx.Api.Metrics.Costs.Totals.{model_cost_lem}
use agentic_negotiators_sbx.Api.Metrics.Failure.{
  FailureClass, execution_class, failure_class, model_class, no_class, rpc_class, signing_class,
}
use agentic_negotiators_sbx.Api.Metrics.Failure.Causes.{IsExecution, IsModel, IsRpc, IsSigning}
use agentic_negotiators_sbx.Api.Metrics.Failure.Classes.{by_state, failure_class_lem}
use agentic_negotiators_sbx.Api.Metrics.Figures.{
  Action, MandateVersion, Wallet, feasibility, judged_quote, limits, mandate_violations, offer_of,
  offered, outside, party_of, took, utilities, violates,
}
use agentic_negotiators_sbx.Api.Metrics.Figures.Counting.{
  IsViolation, Tally, mandate_violations-Tally,
}
use agentic_negotiators_sbx.Api.Metrics.Figures.Feasible.{feasibility_iff, utilities_lem}
use agentic_negotiators_sbx.Api.Metrics.Figures.Violations.{IsFirstView, outside_iff}
use agentic_negotiators_sbx.Api.Metrics.Settlement.{
  Stage, TokenRole, deltas_match, post_settlement, pre_settlement, token_base, token_quote,
}
use agentic_negotiators_sbx.Api.Metrics.Settlement.Transfers.{IsTransfer, deltas_match_iff}
use agentic_negotiators_sbx.Prelude.{
  Among, List, Option, [], arith, codes, false, inl, none, refl, some, true, ℕ, ◌↔◌, ◌∷◌, ◌≡◌, ◌≢◌,
  ◌≤◌,
}
use agentic_negotiators_sbx.Prelude.Int.{pos, ℤ, ◌+ℤ◌, ◌-ℤ◌, ◌≤ℤ◌}
use agentic_negotiators_sbx.Tests.Sample.{seller_view}

abbrev mandates : Role → MandateVersion
mandates buyer = record { reservation_price_minor = 110; min_remaining_inventory_minor = 20 }
mandates seller = record { reservation_price_minor = 90; min_remaining_inventory_minor = 5 }

abbrev wallets : Role → Wallet
wallets buyer = record { address = codes "0xb0"; initial_base_minor = 0; initial_quote_minor = 200 }
wallets seller = record { address = codes "0x5e"; initial_base_minor = 50; initial_quote_minor = 0 }

feasibility_iff_example : ((feasibility mandates wallets 10).feasible ≡ true) ↔ (
    (quote : ℕ) × (1 ≤ quote)
    × (outside buyer quote (limits mandates wallets 10) ≡ false)
    × (outside seller quote (limits mandates wallets 10) ≡ false))
feasibility_iff_example = feasibility_iff mandates wallets 10

utilities_lem_example :
    let l = limits mandates wallets 10 in
    (u : ℤ) × (v : ℤ) × (utilities mandates wallets 10 (some 95) ≡ (some u, some v))
    × (u +ℤ v ≡ l.high -ℤ pos l.low)
    × ((pos 0 ≤ℤ u) ↔ (outside buyer 95 l ≡ false))
    × (l.deliverable ≡ true → (pos 0 ≤ℤ v) ↔ (outside seller 95 l ≡ false))
utilities_lem_example = utilities_lem mandates wallets 10 95

abbrev first_view : Observation
first_view = record seller_view {
  mandate = record { reservation_price = 90; min_remaining_inventory = 5 };
}

first_view-IsFirstView : IsFirstView first_view mandates wallets 10
first_view-IsFirstView = record {
  price = refl;
  floor = refl;
  base = refl;
  quote = refl;
  amount = refl;
}

outside_iff_example :
    (outside seller 95 (limits mandates wallets 10) ≡ false) ↔ WithinMandate first_view 95
outside_iff_example =
    outside_iff seller first_view mandates wallets 10 95 refl (omega arith) first_view-IsFirstView

abbrev actions : List Action
actions =
    record { signer = codes "0x5e"; digest = codes "0x10"; body = offered 95 }
    ∷ record { signer = codes "0xb0"; digest = codes "0x11"; body = took (codes "0x10") }
    ∷ record { signer = codes "0xb0"; digest = codes "0x12"; body = offered 115 }
    ∷ []

mandate_violations-Tally_example :
    Tally
      (IsViolation actions mandates wallets 10)
      actions
      (mandate_violations actions mandates wallets 10)
mandate_violations-Tally_example = mandate_violations-Tally actions mandates wallets 10

counted_once : mandate_violations actions mandates wallets 10 ≡ 1
unfolding mandate_violations outside party_of judged_quote limits violates offer_of
counted_once = refl

abbrev amounts : Stage → Role → TokenRole → Option ℕ
amounts pre_settlement buyer token_base = some 0
amounts pre_settlement buyer token_quote = some 200
amounts pre_settlement seller token_base = some 50
amounts pre_settlement seller token_quote = some 0
amounts post_settlement buyer token_base = some 10
amounts post_settlement buyer token_quote = some 105
amounts post_settlement seller token_base = some 40
amounts post_settlement seller token_quote = some 95

deltas_match_iff_example : (deltas_match amounts 10 95 ≡ true) ↔ (
    IsTransfer amounts token_base seller buyer 10 × IsTransfer amounts token_quote buyer seller 95)
deltas_match_iff_example = deltas_match_iff amounts 10 95

abbrev timed_out : Option FailureClass
timed_out = failure_class failed_setup none (some (codes "rpc_timeout"))

failure_class_lem_example :
    ((timed_out ≡ some model_class) ↔ IsModel (codes "rpc_timeout"))
    × ((timed_out ≡ some execution_class) ↔ IsExecution (codes "rpc_timeout"))
    × ((timed_out ≡ some rpc_class) ↔ IsRpc (codes "rpc_timeout"))
    × ((timed_out ≡ some signing_class) ↔ IsSigning (codes "rpc_timeout"))
    × (timed_out ≡ some no_class → true ≡ true)
    × (true ≡ true → timed_out ≢ none)
failure_class_lem_example =
    failure_class_lem failed_setup none (some (codes "rpc_timeout")) (codes "rpc_timeout")
      (by_state failed_setup none (codes "rpc_timeout") (inl (refl, inl refl)))

abbrev decisions : List Decision
decisions =
    record {
      by_model = true;
      latency_ms = some 900;
      usage = none;
      cost_estimated_usd = some 120;
      cost_reported_usd = none;
    }
    ∷ record {
      by_model = false;
      latency_ms = some 2;
      usage = none;
      cost_estimated_usd = none;
      cost_reported_usd = none;
    }
    ∷ []

model_cost_lem_example :
    ((model_cost decisions).calls ≡ 1)
    × ((model_cost decisions).estimated_usd ≡ some 120)
    × ((model_cost decisions).reported_usd ≡ none)
model_cost_lem_example = model_cost_lem decisions

abbrev first_row : OutboxRow
first_row = record {
  kind = codes "offer";
  sender = codes "0x5e";
  nonce = 3;
  submitted_at = some 2000000;
  included_at = none;
  gas_used = none;
  effective_gas_price_wei = none;
}

abbrev replaced_rows : List OutboxRow
replaced_rows =
    record first_row {
      submitted_at = some 9000000;
      included_at = some 9500000;
      gas_used = some 21000;
    }
    ∷ first_row
    ∷ []

first_sent-IsLeast_example :
    IsLeast
      (λ at. (row : OutboxRow) × Among row replaced_rows × IsBroadcast (codes "0x5e") 3 at row)
      (first_sent (codes "0x5e") 3 none replaced_rows)
first_sent-IsLeast_example = first_sent-IsLeast (codes "0x5e") 3 replaced_rows
