-- ===== src/Api/Metrics/Figures/Feasible.antt =====
-- metrics/figures.py's `feasibility` and `utilities`, against the prices that both mandates allow.
use agentic_negotiators_sbx.Agent.Observation.{Role, buyer, seller}
use agentic_negotiators_sbx.Api.Metrics.Figures.{
  Limits, MandateVersion, Wallet, feasibility, feasibility_of, limits, outside, utilities,
}
use agentic_negotiators_sbx.Prelude.{arith, false, max, refl, some, true, ℕ, ◌↔◌, ◌≡◌, ◌≤◌}
use agentic_negotiators_sbx.Prelude.Int.{pos, ℤ, ◌+ℤ◌, ◌-ℤ◌, ◌≤ℤ◌}

-- A settlement is feasible exactly when some positive price is outside neither party's mandate.
pub feasibility_iff :
    (mandates : Role → MandateVersion) (wallets : Role → Wallet) (base_amount : ℕ)
    → ((feasibility mandates wallets base_amount).feasible ≡ true) ↔ (
        (quote : ℕ) × (1 ≤ quote)
        × (outside buyer quote (limits mandates wallets base_amount) ≡ false)
        × (outside seller quote (limits mandates wallets base_amount) ≡ false))
unfolding feasibility limits outside feasibility_of
feasibility_iff mandates wallets base_amount = (
  λ h. (max (mandates seller).reservation_price_minor 1, omega arith, ground arith, ground arith),
  λ (quote, positive, buys, sells). ground arith,
)

shared :
    (high : ℤ) (low quote : ℕ) → (high -ℤ pos quote) +ℤ (pos quote -ℤ pos low) ≡ high -ℤ pos low
unfolding ◌+ℤ◌ ◌-ℤ◌
shared high low quote = ground arith

buyer_gains :
    (l : Limits) (quote : ℕ) → (pos 0 ≤ℤ l.high -ℤ pos quote) ↔ (outside buyer quote l ≡ false)
unfolding outside ◌-ℤ◌
buyer_gains l quote = ground arith

seller_gains :
    (l : Limits) (quote : ℕ)
    → l.deliverable ≡ true
    → (pos 0 ≤ℤ pos quote -ℤ pos l.low) ↔ (outside seller quote l ≡ false)
unfolding outside ◌-ℤ◌
seller_gains l quote d = ground arith

-- The two utilities of a settlement share out the surplus, the buyer's is not negative exactly
-- when the price is within its mandate, and so is the seller's where it can deliver.
pub utilities_lem :
    (mandates : Role → MandateVersion) (wallets : Role → Wallet) (base_amount quote : ℕ)
    → let l = limits mandates wallets base_amount in
      (u : ℤ) × (v : ℤ) × (utilities mandates wallets base_amount (some quote) ≡ (some u, some v))
      × (u +ℤ v ≡ l.high -ℤ pos l.low)
      × ((pos 0 ≤ℤ u) ↔ (outside buyer quote l ≡ false))
      × (l.deliverable ≡ true → (pos 0 ≤ℤ v) ↔ (outside seller quote l ≡ false))
unfolding utilities
utilities_lem mandates wallets base_amount quote =
    let l = limits mandates wallets base_amount in
    (
      l.high -ℤ pos quote,
      pos quote -ℤ pos l.low,
      refl,
      shared l.high l.low quote,
      buyer_gains l quote,
      seller_gains l quote,
    )
