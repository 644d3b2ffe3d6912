-- ===== src/Agent/Budget.antt =====
-- budget/prices.py and budget/guard.py: what a model call can cost, and the ceilings it is held to.
-- A rate is a whole number of `1 / scale` dollars for a million tokens, so a product of tokens and
-- rates is a number of `1 / scale` micro-dollars; an amount of money is a number of micro-dollars,
-- to which every priced amount is rounded.
pub mod Ceilings
use agentic_negotiators_sbx.Prelude.{Bool, Option, if◌then◌else◌, ltb, max, none, some, ℕ, ◌*◌, ◌+◌}
use agentic_negotiators_sbx.Prelude.Int.{leb_ℤ, neg, pos, sub_ℕ, ℤ, ◌*ℤ◌, ◌+ℤ◌, ◌/ℤ◌}

-- `TokenUsage`
pub record TokenUsage : Type 0 where
  pub input_tokens : ℕ
  pub output_tokens : ℕ
  pub cache_read_input_tokens : ℕ
  pub cache_creation_input_tokens : ℕ
  pub cache_creation_1h_input_tokens : ℕ

-- `ModelPrice`
pub record ModelPrice : Type 0 where
  pub scale : ℕ
  pub input : ℕ
  pub output : ℕ
  pub cache_write_5m : ℕ
  pub cache_write_1h : ℕ
  pub cache_read : ℕ

-- `_usd`: rounded up to the micro-dollar.
usd : ℕ → ℤ → ℤ
usd scale x = neg (neg x /ℤ scale)

-- `ModelPrice.bound_usd`
unfoldable pub bound_usd : ModelPrice → ℕ → ℕ → ℤ
unfolding usd
bound_usd p input_tokens max_tokens =
    let dearest_input = max (max (max p.input p.cache_write_5m) p.cache_write_1h) p.cache_read in
    usd p.scale (pos (input_tokens * dearest_input + max_tokens * p.output))

-- `ModelPrice.cost_usd`
unfoldable pub cost_usd : ModelPrice → TokenUsage → ℤ
unfolding usd
cost_usd p u =
    let written_5m = sub_ℕ u.cache_creation_input_tokens u.cache_creation_1h_input_tokens in
    usd p.scale (
      pos (
        u.input_tokens * p.input
        + u.output_tokens * p.output
        + u.cache_read_input_tokens * p.cache_read
        + u.cache_creation_1h_input_tokens * p.cache_write_1h)
      +ℤ written_5m *ℤ pos p.cache_write_5m)

pub data RefusalReason : Type 0 where
  call_ceiling unknown_price spend_ceiling : RefusalReason

-- `BudgetGuard`: its limits, its price and its two counters. `BudgetLimits` refuses a negative
-- ceiling.
pub record Guard : Type 0 where
  pub ceiling : ℕ
  pub spend_ceiling_usd : ℤ
  pub price : Option ModelPrice
  pub allow_unknown_price : Bool
  pub calls : ℕ
  pub spent : ℤ

-- `BudgetGuard.__init__`
unfoldable pub new_guard : ℕ → ℕ → Option ModelPrice → Bool → Guard
new_guard ceiling spend price allow = record {
  ceiling = ceiling;
  spend_ceiling_usd = pos spend;
  price = price;
  allow_unknown_price = allow;
  calls = 0;
  spent = pos 0;
}

-- What `admit` returns or raises; an `Admission` holds the estimate.
pub data Admitted : Type 0 where
  invalid_call : Admitted
  refused_call : RefusalReason → Option ℤ → Admitted
  admission : Option ℤ → Admitted

admit_unpriced : Guard → Guard × Admitted
admit_unpriced g =
    if g.allow_unknown_price
    then (record g { calls = g.calls + 1 }, admission none)
    else (g, refused_call unknown_price none)

admit_priced : Guard → ℤ → Guard × Admitted
admit_priced g estimate =
    if leb_ℤ (g.spent +ℤ estimate) g.spend_ceiling_usd
    then (record g { calls = g.calls + 1 }, admission (some estimate))
    else (g, refused_call spend_ceiling (some estimate))

admit_at : Guard → Option ModelPrice → ℕ → ℕ → Guard × Admitted
unfolding admit_unpriced admit_priced
admit_at g none input_tokens max_tokens = admit_unpriced g
admit_at g (some p) input_tokens max_tokens = admit_priced g (bound_usd p input_tokens max_tokens)

-- `BudgetGuard.admit`, on an input count that is not negative.
unfoldable pub admit : Guard → ℕ → ℕ → Guard × Admitted
unfolding admit_at
admit g input_tokens max_tokens =
    if ltb max_tokens 1
    then (g, invalid_call)
    else if ltb g.ceiling (g.calls + 1)
    then (g, refused_call call_ceiling none)
    else admit_at g g.price input_tokens max_tokens

-- `admission.estimated_usd or Decimal(0)`
abbrev estimate_or_zero : Option ℤ → ℤ
estimate_or_zero none = pos 0
estimate_or_zero (some x) = x

settle_at : Guard → Option ModelPrice → Option ℤ → Option TokenUsage → Guard × Option ℤ
settle_at g none estimate usage = (g, none)
settle_at g (some p) estimate none =
    (record g { spent = g.spent +ℤ estimate_or_zero estimate }, none)
settle_at g (some p) estimate (some u) =
    (record g { spent = g.spent +ℤ cost_usd p u }, some (cost_usd p u))

-- `BudgetGuard.settle` of an admission with this estimate.
unfoldable pub settle : Guard → Option ℤ → Option TokenUsage → Guard × Option ℤ
unfolding settle_at
settle g estimate usage = settle_at g g.price estimate usage
