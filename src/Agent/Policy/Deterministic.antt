-- ===== src/Agent/Policy/Deterministic.antt =====
-- deterministic.py: `DeterministicPolicy`, the linear-concession baseline.
pub mod Gate
use agentic_negotiators_sbx.Agent.Json.{Json, no_more, obj, pair, str}
use agentic_negotiators_sbx.Agent.Observation.{
  ActiveOffer, Observation, Role, ValueError, buyer, own_offers_recorded, role_eq, seller,
}
use agentic_negotiators_sbx.Agent.Policy.Concession.{concession_price, opportunities}
use agentic_negotiators_sbx.Agent.Validation.Decisions.{Validation, is_holdings, is_ok}
use agentic_negotiators_sbx.Agent.Validation.Mandate.{validate}
use agentic_negotiators_sbx.Prelude.{
  Bool, Option, Result, Text, codes, false, if◌then◌else◌, inl, inr, ltb, nat_eq, none, ok, some,
  text_eq, ℕ, ◌&&◌, ◌==◌, ◌>>=◌, ◌||◌, ◌⊎◌,
}
use agentic_negotiators_sbx.Protocol.Values.{to_json}

-- The decision documents of `_choose`.
pub data Choice : Type 0 where
  choose_accept : Text → Choice
  choose_offer : ℕ → Choice
  choose_walk_away : Text → Choice

-- A decision as the dict that the policy builds.
unfoldable pub document : Choice → Json
document (choose_accept hash) =
    obj
      (pair (codes "action") (str (codes "accept")) (pair (codes "offer_hash") (str hash) no_more))
document (choose_offer price) = obj (
    pair (codes "action") (str (codes "offer"))
      (pair (codes "quote_amount_minor") (str (to_json price)) no_more))
document (choose_walk_away reason) =
    obj
      (pair (codes "action") (str (codes "walk_away")) (pair (codes "reason") (str reason) no_more))

-- `{"decision": …}`
unfoldable pub envelope : Choice → Json
unfolding document
envelope choice = obj (pair (codes "decision") (document choice) no_more)

-- The counterparty's offer, if one stands.
incoming : Observation → Option ActiveOffer
incoming o = elim o.active_offer [
  | none ↦ none
  | some a ↦ if a.proposer == o.role then none else some a
]

-- `active.quote_amount > bound` for the buyer, `<` for the seller.
price_outside : Role → ℕ → ℕ → Bool
price_outside buyer amount bound = ltb bound amount
price_outside seller amount bound = ltb amount bound

-- `_incoming_outside_bound`
incoming_outside_bound : Observation → Bool
unfolding incoming price_outside
incoming_outside_bound o = elim (incoming o) [
  | none ↦ false
  | some a ↦ price_outside o.role a.quote_amount o.mandate.reservation_price
]

-- `_next_price`
next_price : Observation → Result ValueError ℕ
next_price o =
    concession_price o.role o.mandate.reservation_price (own_offers_recorded o)
      (opportunities o.role o.session.max_offers)

-- `_reason`
reason : Observation → Bool → Text
unfolding incoming_outside_bound
reason o held_back =
    if held_back
    then codes "inventory_constraint"
    else if o.offers_remaining_for_me == 0 && incoming_outside_bound o
    then codes "terms_unacceptable"
    else codes "no_further_concession"

-- The choice that the validator lets through, or whether holdings held it back.
tried : Choice → Validation → Choice ⊎ Bool
tried choice v = if is_ok v then inl choice else inr (is_holdings v.code)

-- The first half of `_choose`: accept the incoming offer.
try_accept : Observation → Option ActiveOffer → Result ValueError (Choice ⊎ Bool)
unfolding tried
try_accept o none = ok (inr false)
try_accept o (some a) = do
  v ← validate (envelope (choose_accept a.offer_hash)) o
  ok (tried (choose_accept a.offer_hash) v)

-- The second half: make the scheduled offer, while any is left.
try_offer : Observation → Result ValueError (Choice ⊎ Bool)
unfolding next_price tried
try_offer o =
    if ltb 0 o.offers_remaining_for_me
    then (next_price o >>= λ price.
        validate (envelope (choose_offer price)) o >>= λ v. ok (tried (choose_offer price) v))
    else ok (inr false)

after_offer : Observation → Bool → Choice ⊎ Bool → Choice
unfolding reason
after_offer o held_back (inl choice) = choice
after_offer o held_back (inr held) = choose_walk_away (reason o (held_back || held))

after_accept : Observation → Choice ⊎ Bool → Result ValueError Choice
unfolding try_offer after_offer
after_accept o (inl choice) = ok choice
after_accept o (inr held_back) = do second ← try_offer o; ok (after_offer o held_back second)

-- `_choose`
unfoldable pub choose : Observation → Result ValueError Choice
unfolding try_accept after_accept incoming
choose o = do first ← try_accept o (incoming o); after_accept o first
