-- ===== src/Api/Metrics/Figures/Violations.antt =====
-- metrics/figures.py's `mandate_violations`: what counts, beside what the agents' validator allows.
use mathlib.Core.Path.{subst}
use agentic_negotiators_sbx.Agent.Observation.{Observation, Role, buyer, seller}
use agentic_negotiators_sbx.Agent.Validation.Mandate.Legal.{WithinMandate}
use agentic_negotiators_sbx.Api.Metrics.Figures.{MandateVersion, Wallet, limits, outside}
use agentic_negotiators_sbx.Prelude.{arith, false, ℕ, ◌↔◌, ◌≡◌, ◌≤◌}

-- What an instance is shown at its first turn: its own mandate, its wallet's first balances and
-- the session's base amount.
pub record IsFirstView (o : Observation) (mandates : Role → MandateVersion)
    (wallets : Role → Wallet) (base_amount : ℕ) : Type 0 where
  pub price : o.mandate.reservation_price ≡ (mandates o.role).reservation_price_minor
  pub floor : o.mandate.min_remaining_inventory ≡ (mandates o.role).min_remaining_inventory_minor
  pub base : o.my_balances.base ≡ (wallets o.role).initial_base_minor
  pub quote : o.my_balances.quote ≡ (wallets o.role).initial_quote_minor
  pub amount : o.session.base_amount ≡ base_amount

buyer_outside :
    (o : Observation) (mandates : Role → MandateVersion) (wallets : Role → Wallet)
    (base_amount quote : ℕ)
    → o.role ≡ buyer
    → IsFirstView o mandates wallets base_amount
    → (outside buyer quote (limits mandates wallets base_amount) ≡ false) ↔ WithinMandate o quote
unfolding outside limits
buyer_outside o mandates wallets base_amount quote e v =
    let price : o.mandate.reservation_price ≡ (mandates buyer).reservation_price_minor =
      subst (λ r. o.mandate.reservation_price ≡ (mandates r).reservation_price_minor) e v.price in
    let floor : o.mandate.min_remaining_inventory ≡ (mandates buyer).min_remaining_inventory_minor =
      subst (λ r. o.mandate.min_remaining_inventory ≡ (mandates r).min_remaining_inventory_minor) e
        v.floor in
    let held : o.my_balances.quote ≡ (wallets buyer).initial_quote_minor =
      subst (λ r. o.my_balances.quote ≡ (wallets r).initial_quote_minor) e v.quote in
    ground arith

seller_outside :
    (o : Observation) (mandates : Role → MandateVersion) (wallets : Role → Wallet)
    (base_amount quote : ℕ)
    → o.role ≡ seller
    → 1 ≤ quote
    → IsFirstView o mandates wallets base_amount
    → (outside seller quote (limits mandates wallets base_amount) ≡ false) ↔ WithinMandate o quote
unfolding outside limits
seller_outside o mandates wallets base_amount quote e positive v =
    let price : o.mandate.reservation_price ≡ (mandates seller).reservation_price_minor =
      subst (λ r. o.mandate.reservation_price ≡ (mandates r).reservation_price_minor) e v.price in
    let floor : o.mandate.min_remaining_inventory
        ≡ (mandates seller).min_remaining_inventory_minor =
      subst (λ r. o.mandate.min_remaining_inventory ≡ (mandates r).min_remaining_inventory_minor) e
        v.floor in
    let held : o.my_balances.base ≡ (wallets seller).initial_base_minor =
      subst (λ r. o.my_balances.base ≡ (wallets r).initial_base_minor) e v.base in
    let amount = v.amount in ground arith

-- A price that is not outside an instance's mandate is one that its validator allows: at the
-- first view of a party, a positive price counts as no violation exactly when it is within the
-- mandate.
pub outside_iff :
    (role : Role) (o : Observation) (mandates : Role → MandateVersion) (wallets : Role → Wallet)
    (base_amount quote : ℕ)
    → o.role ≡ role
    → 1 ≤ quote
    → IsFirstView o mandates wallets base_amount
    → (outside role quote (limits mandates wallets base_amount) ≡ false) ↔ WithinMandate o quote
unfolding outside limits
outside_iff buyer o mandates wallets base_amount quote e positive v =
    buyer_outside o mandates wallets base_amount quote e v
outside_iff seller o mandates wallets base_amount quote e positive v =
    seller_outside o mandates wallets base_amount quote e positive v
