-- ===== src/Tests/Budget.antt =====
-- Two calls against ceilings of two calls and ten dollars.
use agentic_negotiators_sbx.Agent.Budget.{ModelPrice, TokenUsage, bound_usd, cost_usd}
use agentic_negotiators_sbx.Agent.Budget.Ceilings.{Call, IsWithin, cost_usd-le-bound_usd}
use agentic_negotiators_sbx.Prelude.{arith, some}
use agentic_negotiators_sbx.Prelude.Int.{◌≤ℤ◌}

abbrev price : ModelPrice
price = record {
  scale = 1;
  input = 3;
  output = 15;
  cache_write_5m = 4;
  cache_write_1h = 6;
  cache_read = 1;
}

abbrev usage : TokenUsage
usage = record {
  input_tokens = 100;
  output_tokens = 50;
  cache_read_input_tokens = 200;
  cache_creation_input_tokens = 300;
  cache_creation_1h_input_tokens = 100;
}

usage_example : IsWithin usage 600 50
usage_example = record { counted = omega arith; part = omega arith; capped = omega arith }

cost_usd-le-bound_usd_example : cost_usd price usage ≤ℤ bound_usd price 600 50
cost_usd-le-bound_usd_example = cost_usd-le-bound_usd price usage 600 50 (omega arith) usage_example

abbrev call_made : Call
call_made = record { input_tokens = 600; max_tokens = 50; usage = some usage }
