-- ===== src/Agent/Validation/Mandate/Legal.antt =====
-- What a trade must be, written from docs/protocol.md and the mandate rather than from the code.
use agentic_negotiators_sbx.Agent.Observation.{
  ActiveOffer, Observation, buyer, next_proposer, offers_recorded, seller,
}
use agentic_negotiators_sbx.Prelude.{Text, ok, some, ℕ, ◌+◌, ◌<◌, ◌≡◌, ◌≢◌, ◌≤◌}

-- The price suits the party, and paying its own leg leaves it at or above its floor.
pub record WithinMandate (o : Observation) (amount : ℕ) : Type 0 where
  pub priced :
      (o.role ≡ buyer → amount ≤ o.mandate.reservation_price)
      × (o.role ≡ seller → o.mandate.reservation_price ≤ amount)
  pub kept :
      (o.role ≡ buyer → amount + o.mandate.min_remaining_inventory ≤ o.my_balances.quote)
      × (o.role ≡ seller
          → o.session.base_amount + o.mandate.min_remaining_inventory ≤ o.my_balances.base)

-- An offer that may be signed: in turn, within both limits on the number of offers, and within
-- the mandate.
pub record LegalOffer (o : Observation) (amount : ℕ) : Type 0 where
  pub in_turn : next_proposer o ≡ ok o.role
  pub opportunity : 0 < o.offers_remaining_for_me
  pub session_open : offers_recorded o < o.session.max_offers
  pub within : WithinMandate o amount

-- An acceptance that may be signed: of the counterparty's offer, named by its hash, before it
-- expires, and within the mandate.
pub record LegalAccept (o : Observation) (a : ActiveOffer) (hash : Text) : Type 0 where
  pub stands : o.active_offer ≡ some a
  pub theirs : a.proposer ≢ o.role
  pub named : hash ≡ a.offer_hash
  pub unexpired : o.chain_time < a.valid_until
  pub within : WithinMandate o a.quote_amount
