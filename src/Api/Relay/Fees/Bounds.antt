-- ===== src/Api/Relay/Fees/Bounds.antt =====
-- relay/fees.py: the fee caps and gas limits against the ceiling, the node's minimum and the estimate.
use agentic_negotiators_sbx.Api.Relay.Fees.{
  FeeQuote, Fees, RelayPolicy, bumped_fees, ceil_of, gas_limit, initial_fees,
}
use agentic_negotiators_sbx.Prelude.{
  Option, arith, none, refl, some, suc, zero, ℕ, ◌*◌, ◌+◌, ◌-◌, ◌/◌, ◌<◌, ◌↔◌, ◌≡◌, ◌≤◌,
}
use agentic_negotiators_sbx.Prelude.Int.{ceil_ratio, neg-mul_pos}

ceil_lem : (v a b : ℕ) → 0 < b → ceil_of v a b ≡ (v * a + (b - 1)) / b
unfolding ceil_of
ceil_lem v a b h = rw (neg-mul_pos, ceil_ratio (v * a) b h) refl

-- The first fee cap is within the ceiling and the tip within the cap; when the ceiling leaves
-- room for twice the base fee and the tip, the cap is that sum and the tip is as quoted.
pub initial_fees_bounds :
    (q : FeeQuote) (p : RelayPolicy)
    → let f = initial_fees q p in
      (f.max_fee_per_gas ≤ p.max_fee_per_gas_wei)
      × (f.max_priority_fee_per_gas ≤ f.max_fee_per_gas)
      × (2 * q.base_fee_per_gas + q.max_priority_fee_per_gas ≤ p.max_fee_per_gas_wei
          → (f.max_fee_per_gas ≡ 2 * q.base_fee_per_gas + q.max_priority_fee_per_gas)
            × (f.max_priority_fee_per_gas ≡ q.max_priority_fee_per_gas))
unfolding initial_fees
initial_fees_bounds q p = ground arith

-- A bump raises the fee cap by at least a tenth and at most an eighth, rounded up, within the
-- ceiling, and the tip is within the cap.
pub bumped_fees_bounds :
    (f : Fees) (p : RelayPolicy) {g : Fees}
    → bumped_fees f p ≡ some g
    → (f.max_fee_per_gas * 11 ≤ g.max_fee_per_gas * 10)
      × (g.max_fee_per_gas * 8 ≤ f.max_fee_per_gas * 9 + 7)
      × (g.max_fee_per_gas ≤ p.max_fee_per_gas_wei)
      × (g.max_priority_fee_per_gas ≤ g.max_fee_per_gas)
unfolding bumped_fees
bumped_fees_bounds f p h = ground (
  arith,
  ceil_lem f.max_fee_per_gas 9 8 (omega arith),
  ceil_lem f.max_fee_per_gas 11 10 (omega arith),
  ceil_lem f.max_priority_fee_per_gas 9 8 (omega arith),
)

-- There is no bump exactly when the ceiling is below the fee cap raised by a tenth.
pub bumped_fees-none_iff :
    (f : Fees) (p : RelayPolicy)
    → (bumped_fees f p ≡ none) ↔ (p.max_fee_per_gas_wei * 10 < f.max_fee_per_gas * 11)
unfolding bumped_fees
bumped_fees-none_iff f p = ground (
  arith,
  ceil_lem f.max_fee_per_gas 9 8 (omega arith),
  ceil_lem f.max_fee_per_gas 11 10 (omega arith),
)

-- That many bumps one after another, as `replace_stuck` makes them.
unfoldable pub bump_times : ℕ → Fees → RelayPolicy → Option Fees
bump_times zero f p = some f
bump_times (suc n) f p = elim (bumped_fees f p) [ none ↦ none | some g ↦ bump_times n g p ]

-- A transaction with a positive fee cap within the ceiling is bumped only a bounded number of
-- times: n bumps need n wei of room below the ceiling.
pub bump_times_bounded :
    (n : ℕ) (f : Fees) (p : RelayPolicy) {g : Fees}
    → 1 ≤ f.max_fee_per_gas
    → f.max_fee_per_gas ≤ p.max_fee_per_gas_wei
    → bump_times n f p ≡ some g
    → f.max_fee_per_gas + n ≤ p.max_fee_per_gas_wei
unfolding bump_times
bump_times_bounded zero f p lo hi h = omega arith
bump_times_bounded (suc n) f p {g} lo hi h =
    bumps (λ k. bump_times_bounded n k p) (bumped_fees f p) refl h
  where
    bumps :
        ((k : Fees)
          → 1 ≤ k.max_fee_per_gas
          → k.max_fee_per_gas ≤ p.max_fee_per_gas_wei
          → bump_times n k p ≡ some g
          → k.max_fee_per_gas + n ≤ p.max_fee_per_gas_wei)
        → (o : Option Fees) → bumped_fees f p ≡ o
        → elim o [ none ↦ none | some k ↦ bump_times n k p ] ≡ some g
        → f.max_fee_per_gas + suc n ≤ p.max_fee_per_gas_wei
    bumps later none e q = absurd (cc)
    bumps later (some k) e q =
        let b = bumped_fees_bounds f p e in
        let rest = later k (omega (arith, b)) b.2 q in omega (arith, b, rest)

-- The gas limit is the estimate times the margin's quarters over four, rounded up, and covers the
-- estimate when the margin is at least four quarters.
pub gas_limit_covers :
    (estimate : ℕ) (p : RelayPolicy)
    → (estimate * p.gas_margin_quarters ≤ gas_limit (some estimate) p * 4)
      × (gas_limit (some estimate) p * 4 ≤ estimate * p.gas_margin_quarters + 3)
      × (4 ≤ p.gas_margin_quarters → estimate ≤ gas_limit (some estimate) p)
unfolding gas_limit
gas_limit_covers estimate p =
    rw (ceil_lem estimate p.gas_margin_quarters 4 (omega arith))
      (omega arith, omega arith, λ h. grind arith)
