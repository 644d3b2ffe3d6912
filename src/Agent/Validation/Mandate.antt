-- ===== src/Agent/Validation/Mandate.antt =====
-- mandate.py: `MandateValidator`, the complete trade checked before anything is signed.
pub mod Legal
pub mod Sound
pub mod Total
use agentic_negotiators_sbx.Agent.Json.{Json}
use agentic_negotiators_sbx.Agent.Observation.{
  ActiveOffer, Observation, Role, ValueError, buyer, next_proposer, offers_recorded, role_eq,
  seller,
}
use agentic_negotiators_sbx.Agent.Validation.Decisions.{
  Code, Feedback, Refusal, ValidDecision, Validation, above_reservation, accepted, against,
  below_reservation, expired_at, hash_is, insufficient_balance, inventory_floor, leaves,
  no_active_offer, not_your_turn, offer_expired, offer_limit_reached, proposed_accept,
  proposed_offer, proposed_walk_away, refused, self_acceptance, stale_offer_hash, turn_of,
  valid_accept, valid_offer, valid_walk_away, wording,
}
use agentic_negotiators_sbx.Agent.Validation.Structure.{ParseResult, parse_decision}
use agentic_negotiators_sbx.Prelude.{
  Bool, Option, Result, Text, err, if◌then◌else◌, leb, ltb, nat_eq, none, not, ok, some, text_eq, ℕ,
  ◌&&◌, ◌==◌, ◌>>=◌, ◌or_else◌,
}
use agentic_negotiators_sbx.Prelude.Int.{leb_ℤ, pos, sub_ℕ}

abbrev pub refusal_of : Code → Feedback → Option Refusal
refusal_of c f = some (record { code = c; feedback = f })

-- Refuses unless the test holds.
abbrev pub unless : Bool → Code → Feedback → Option Refusal
unless test c f = if test then none else refusal_of c f

refuse_out_of_turn : Observation → Result ValueError (Option Refusal)
refuse_out_of_turn o = do
  next ← next_proposer o
  ok (unless (next == o.role) not_your_turn (turn_of next))

refuse_past_offer_limit : Observation → Option Refusal
refuse_past_offer_limit o =
    unless (ltb 0 o.offers_remaining_for_me && ltb (offers_recorded o) o.session.max_offers)
      offer_limit_reached wording

refuse_own_offer : Observation → ActiveOffer → Option Refusal
refuse_own_offer o active = unless (not (active.proposer == o.role)) self_acceptance wording

refuse_stale_hash : Text → ActiveOffer → Option Refusal
refuse_stale_hash hash active =
    unless (hash == active.offer_hash) stale_offer_hash (hash_is active.offer_hash)

refuse_expired : Observation → ActiveOffer → Option Refusal
refuse_expired o active =
    unless (ltb o.chain_time active.valid_until) offer_expired
      (expired_at active.valid_until o.chain_time)

outside_reservation : Role → ℕ → ℕ → Option Refusal
outside_reservation buyer amount bound =
    unless (leb amount bound) above_reservation (against amount bound)
outside_reservation seller amount bound =
    unless (leb bound amount) below_reservation (against amount bound)

refuse_outside_reservation : Observation → ℕ → Option Refusal
unfolding outside_reservation
refuse_outside_reservation o amount = outside_reservation o.role amount o.mandate.reservation_price

-- The leg this party pays: the quote amount, or the session's base amount.
unfoldable pub leg : Role → Observation → ℕ → ℕ
leg buyer o amount = amount
leg seller o amount = o.session.base_amount

-- The balance that the leg is paid from.
unfoldable pub holding : Role → Observation → ℕ
holding buyer o = o.my_balances.quote
holding seller o = o.my_balances.base

refuse_unaffordable : Observation → ℕ → Option Refusal
unfolding leg holding
refuse_unaffordable o amount =
    unless (leb (leg o.role o amount) (holding o.role o)) insufficient_balance
      (against (leg o.role o amount) (holding o.role o))

-- `after` can be negative in Python, where the balance is below the leg.
refuse_below_inventory_floor : Observation → ℕ → Option Refusal
unfolding leg holding
refuse_below_inventory_floor o amount =
    let after = sub_ℕ (holding o.role o) (leg o.role o amount) in
    unless (leb_ℤ (pos o.mandate.min_remaining_inventory) after) inventory_floor
      (leaves after o.mandate.min_remaining_inventory)

abbrev pub verdict : Option Refusal → ValidDecision → Validation
verdict (some r) d = refused r
verdict none d = accepted d

unfoldable pub validate_offer : ℕ → Observation → Result ValueError Validation
unfolding refuse_out_of_turn refuse_past_offer_limit refuse_outside_reservation refuse_unaffordable
    refuse_below_inventory_floor
validate_offer amount o = do
  turn ← refuse_out_of_turn o
  ok (
      verdict
        (turn
          or_else refuse_past_offer_limit o
          or_else refuse_outside_reservation o amount
          or_else refuse_unaffordable o amount
          or_else refuse_below_inventory_floor o amount)
        (valid_offer amount))

accept_active : Text → Observation → ActiveOffer → Validation
unfolding refuse_own_offer refuse_stale_hash refuse_expired refuse_outside_reservation
    refuse_unaffordable refuse_below_inventory_floor
accept_active hash o active =
    verdict
      (refuse_own_offer o active
        or_else refuse_stale_hash hash active
        or_else refuse_expired o active
        or_else refuse_outside_reservation o active.quote_amount
        or_else refuse_unaffordable o active.quote_amount
        or_else refuse_below_inventory_floor o active.quote_amount)
      (valid_accept active.offer_hash)

unfoldable pub validate_accept : Text → Observation → Option ActiveOffer → Validation
unfolding accept_active
validate_accept hash o none = refused (record { code = no_active_offer; feedback = wording })
validate_accept hash o (some active) = accept_active hash o active

-- The economic half of `validate`, on what parsed.
validate_outcome : ParseResult → Observation → Result ValueError Validation
unfolding validate_offer validate_accept
validate_outcome (err refusal) o = ok (refused refusal)
validate_outcome (ok (proposed_offer amount)) o = validate_offer amount o
validate_outcome (ok (proposed_accept hash)) o = ok (validate_accept hash o o.active_offer)
validate_outcome (ok (proposed_walk_away reason c)) o = ok (accepted (valid_walk_away reason c))

-- `MandateValidator.validate`
unfoldable pub validate : Json → Observation → Result ValueError Validation
unfolding validate_outcome
validate response o = do outcome ← parse_decision response; validate_outcome outcome o
