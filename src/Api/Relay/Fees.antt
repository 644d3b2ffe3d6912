-- ===== src/Api/Relay/Fees.antt =====
-- relay/fees.py: fee caps, their bumps and gas limits, in whole wei. Amounts of wei and gas are
-- not negative.
pub mod Bounds
use agentic_negotiators_sbx.Prelude.{Option, if◌then◌else◌, ltb, min, none, some, ℕ, ◌*◌, ◌+◌}
use agentic_negotiators_sbx.Prelude.Int.{neg, pos, pos_part, ◌*ℤ◌, ◌/ℤ◌}

-- `FeeQuote`
pub record FeeQuote : Type 0 where
  pub base_fee_per_gas : ℕ
  pub max_priority_fee_per_gas : ℕ

-- The fields of `RelayPolicy` that the fees use.
pub record RelayPolicy : Type 0 where
  pub max_fee_per_gas_wei : ℕ
  pub fallback_gas_limit : ℕ
  pub gas_margin_quarters : ℕ

pub record Fees : Type 0 where
  pub max_fee_per_gas : ℕ
  pub max_priority_fee_per_gas : ℕ

-- `_ceil_ratio`: `-(-value * numerator // denominator)`
ceil_of : ℕ → ℕ → ℕ → ℕ
ceil_of value numerator denominator =
    pos_part (neg (neg (pos value) *ℤ pos numerator /ℤ denominator))

unfoldable pub initial_fees : FeeQuote → RelayPolicy → Fees
initial_fees quote policy =
    let priority = min quote.max_priority_fee_per_gas policy.max_fee_per_gas_wei in
    let max_fee = min (2 * quote.base_fee_per_gas + priority) policy.max_fee_per_gas_wei in
    record { max_fee_per_gas = max_fee; max_priority_fee_per_gas = min priority max_fee }

unfoldable pub bumped_fees : Fees → RelayPolicy → Option Fees
unfolding ceil_of
bumped_fees current policy =
    let max_fee = min (ceil_of current.max_fee_per_gas 9 8) policy.max_fee_per_gas_wei in
    if ltb max_fee (ceil_of current.max_fee_per_gas 11 10)
    then none
    else some (record {
      max_fee_per_gas = max_fee;
      max_priority_fee_per_gas = min (ceil_of current.max_priority_fee_per_gas 9 8) max_fee;
    })

unfoldable pub gas_limit : Option ℕ → RelayPolicy → ℕ
unfolding ceil_of
gas_limit none policy = policy.fallback_gas_limit
gas_limit (some estimate) policy = ceil_of estimate policy.gas_margin_quarters 4
