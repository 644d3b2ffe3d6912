-- ===== src/Tests/Relay.antt =====
-- Fees under a ceiling of a hundred wei.
use agentic_negotiators_sbx.Api.Relay.Fees.{FeeQuote, Fees, RelayPolicy, bumped_fees}
use agentic_negotiators_sbx.Api.Relay.Fees.Bounds.{
  bump_times, bump_times_bounded, bumped_fees_bounds,
}
use agentic_negotiators_sbx.Prelude.{arith, refl, ◌*◌, ◌+◌, ◌≤◌}
use agentic_negotiators_sbx.Prelude.Int.{◌*ℤ◌, ◌/ℤ◌}

abbrev policy : RelayPolicy
policy = record { max_fee_per_gas_wei = 100; fallback_gas_limit = 500000; gas_margin_quarters = 5 }

abbrev quote : FeeQuote
quote = record { base_fee_per_gas = 30; max_priority_fee_per_gas = 4 }

abbrev first_fees : Fees
first_fees = record { max_fee_per_gas = 64; max_priority_fee_per_gas = 4 }

abbrev second_fees : Fees
second_fees = record { max_fee_per_gas = 72; max_priority_fee_per_gas = 5 }

bumped_fees_bounds_example : (64 * 11 ≤ 72 * 10) × (72 * 8 ≤ 64 * 9 + 7) × (72 ≤ 100) × (5 ≤ 72)
unfolding bumped_fees ◌/ℤ◌ ◌*ℤ◌
bumped_fees_bounds_example = bumped_fees_bounds first_fees policy {g = second_fees} refl

bump_times_bounded_example : 64 + 1 ≤ 100
unfolding bump_times bumped_fees ◌/ℤ◌ ◌*ℤ◌
bump_times_bounded_example =
    bump_times_bounded 1 first_fees policy {g = second_fees} (omega arith) (omega arith) refl
