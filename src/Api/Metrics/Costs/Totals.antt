-- ===== src/Api/Metrics/Costs/Totals.antt =====
-- metrics/figures.py's `model_cost`: known and unknown costs.
use agentic_negotiators_sbx.Api.Metrics.Costs.{
  Decision, ModelCost, add_known, count_decision, count_decisions, model_cost,
}
use agentic_negotiators_sbx.Prelude.{
  Bool, List, Option, [], ap, arith, count_if, false, if◌then◌else◌, none, some, suc, true, ℕ, ◌+◌,
  ◌∙◌, ◌∷◌, ◌≡◌,
}

-- A decision's cost beside the sum of those after it.
abbrev pub beside : Bool → Option ℕ → Option ℕ → Option ℕ
beside false cost rest = rest
beside true cost none = none
beside true none (some rest) = none
beside true (some c) (some rest) = some (c + rest)

-- The sum of the model's costs; nothing when one of them is unknown.
abbrev pub known_sum : (Decision → Option ℕ) → List Decision → Option ℕ
known_sum cost [] = some 0
known_sum cost (d ∷ ds) = beside d.by_model (cost d) (known_sum cost ds)

total_with : Bool → Option ℕ → Option ℕ → Option ℕ
unfolding add_known
total_with by_model total cost = if by_model then add_known total cost else total

add_known_zero : (o : Option ℕ) → add_known (some 0) o ≡ o
unfolding add_known
add_known_zero o = ground arith

add_known-beside :
    (by_model : Bool) (total cost rest : Option ℕ)
    → add_known (total_with by_model total cost) rest ≡ add_known total (beside by_model cost rest)
unfolding total_with add_known
add_known-beside by_model total cost rest = ground arith

count_decision_lem :
    (total : ModelCost) (d : Decision)
    → ((count_decision total d).calls ≡ total.calls + elim d.by_model [ true ↦ 1 | false ↦ 0 ])
      × ((count_decision total d).estimated_usd
          ≡ total_with d.by_model total.estimated_usd d.cost_estimated_usd)
      × ((count_decision total d).reported_usd
          ≡ total_with d.by_model total.reported_usd d.cost_reported_usd)
unfolding count_decision total_with
count_decision_lem total d = ground arith

-- What the loop adds to its totals.
counted :
    (ds : List Decision) (total : ModelCost)
    → ((count_decisions total ds).calls ≡ total.calls + count_if (λ d. d.by_model) ds)
      × ((count_decisions total ds).estimated_usd
          ≡ add_known total.estimated_usd (known_sum (λ d. d.cost_estimated_usd) ds))
      × ((count_decisions total ds).reported_usd
          ≡ add_known total.reported_usd (known_sum (λ d. d.cost_reported_usd) ds))
unfolding count_decisions add_known
counted [] total = (omega arith, ground arith, ground arith)
counted (d ∷ ds) total =
    let (calls, estimated, reported) = counted ds (count_decision total d) in
    let (called, estimate, report) = count_decision_lem total d in
    (
      calls ∙ more d.by_model called,
      estimated
          ∙ ap (λ t. add_known t (known_sum (λ e. e.cost_estimated_usd) ds)) estimate
          ∙ add_known-beside d.by_model total.estimated_usd d.cost_estimated_usd _,
      reported
          ∙ ap (λ t. add_known t (known_sum (λ e. e.cost_reported_usd) ds)) report
          ∙ add_known-beside d.by_model total.reported_usd d.cost_reported_usd _,
    )
  where
    more :
        (b : Bool) {n : ℕ}
        → n ≡ total.calls + elim b [ true ↦ 1 | false ↦ 0 ]
        → n + count_if (λ (e : Decision). e.by_model) ds
          ≡ total.calls + elim b [
            | true ↦ suc (count_if (λ (e : Decision). e.by_model) ds)
            | false ↦ count_if (λ (e : Decision). e.by_model) ds
          ]
    more true h = omega arith
    more false h = omega arith

-- The calls are the model's decisions, and each cost is the sum over them where all are known and
-- unknown where one is.
pub model_cost_lem :
    (ds : List Decision)
    → ((model_cost ds).calls ≡ count_if (λ d. d.by_model) ds)
      × ((model_cost ds).estimated_usd ≡ known_sum (λ d. d.cost_estimated_usd) ds)
      × ((model_cost ds).reported_usd ≡ known_sum (λ d. d.cost_reported_usd) ds)
unfolding model_cost
model_cost_lem ds =
    let (calls, estimated, reported) = counted ds (record {
      calls = 0;
      input_tokens = 0;
      output_tokens = 0;
      estimated_usd = some 0;
      reported_usd = some 0;
      decision_time_ms = 0;
    }) in
    (omega (arith, calls), estimated ∙ add_known_zero _, reported ∙ add_known_zero _)
