-- ===== src/Agent/Policy/Concession.antt =====
-- deterministic.py: the concession schedule, `opportunities` and `concession_price`.
pub mod Laws
use agentic_negotiators_sbx.Agent.Observation.{
  Role, ValueError, buyer, no_opportunity, role_eq, seller,
}
use agentic_negotiators_sbx.Prelude.{
  Result, err, if◌then◌else◌, ltb, min, nat_eq, ok, text_eq, ℕ, ◌*◌, ◌+◌, ◌-◌, ◌/◌, ◌==◌,
}
use agentic_negotiators_sbx.Prelude.Int.{max_ℤ, min_ℤ, neg, pos, pos_part, sub_ℕ, ℤ, ◌*ℤ◌, ◌/ℤ◌}
use agentic_negotiators_sbx.Protocol.Values.{uint256_max}

-- Own offer opportunities of `max_offers`.
unfoldable pub opportunities : Role → ℕ → ℕ
opportunities buyer max_offers = (max_offers + 1) / 2
opportunities seller max_offers = max_offers / 2

-- The price of own offer `k` of `n` before it is kept within uint256, where `n` is at least 2.
unclamped : Role → ℕ → ℕ → ℕ → ℤ
unclamped buyer r k n = pos (min (r * (4 * (n - 1) + k) / (5 * (n - 1))) r)
unclamped seller r k n = max_ℤ (neg (neg (pos r) *ℤ sub_ℕ (6 * (n - 1)) k /ℤ (5 * (n - 1)))) (pos r)

-- `min(max(price, 1), UINT256_MAX)`, which is not negative.
clamp : ℤ → ℕ
clamp price = pos_part (min_ℤ (max_ℤ price (pos 1)) (pos uint256_max))

-- `concession_price`; it raises where there is no opportunity.
unfoldable pub concession_price : Role → ℕ → ℕ → ℕ → Result ValueError ℕ
unfolding unclamped clamp
concession_price role r k n =
    if ltb n 1
    then err no_opportunity
    else ok (clamp (if n == 1 then pos r else unclamped role r k n))
