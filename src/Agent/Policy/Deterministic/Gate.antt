-- ===== src/Agent/Policy/Deterministic/Gate.antt =====
-- deterministic.py's `_choose`: its choices as the validator sees them.
use agentic_negotiators_sbx.Agent.Json.{str}
use agentic_negotiators_sbx.Agent.Observation.{
  ActiveOffer, Observation, Role, next_proposer, own_offers_recorded, role_eq,
}
use agentic_negotiators_sbx.Agent.Policy.Concession.{opportunities}
use agentic_negotiators_sbx.Agent.Policy.Concession.Laws.{concession_price_total}
use agentic_negotiators_sbx.Agent.Policy.Deterministic.{
  Choice, after_accept, choose, choose_accept, choose_offer, choose_walk_away, envelope, incoming,
  incoming_outside_bound, next_price, reason, tried, try_accept, try_offer,
}
use agentic_negotiators_sbx.Agent.Validation.Decisions.{
  Validation, accepted, is_holdings, is_ok, proposed_accept, proposed_offer, proposed_walk_away,
  valid_walk_away,
}
use agentic_negotiators_sbx.Agent.Validation.Mandate.{validate, validate_accept, validate_offer}
use agentic_negotiators_sbx.Agent.Validation.Structure.{
  parse_decision, read_amount, read_offer_hash, read_reason,
}
use agentic_negotiators_sbx.Prelude.{
  Bool, Bool-cases, Option, Text, answers, arith, bind_ok, false, if◌then◌else◌, inl, inr, ltb,
  nat_eq, none, ok, refl, some, text_eq, true, ℕ, ◌&&◌, ◌<◌, ◌==◌, ◌||◌, ◌≡◌, ◌≤◌, ◌⊎◌,
}
use agentic_negotiators_sbx.Protocol.Decimal.{parse-to_json}
use agentic_negotiators_sbx.Protocol.Reasons.{close_reason_code, close_reason_name}
use agentic_negotiators_sbx.Protocol.Values.{digest, uint256_max}

-- What an observation that reached the policy satisfies: its consistency check has passed, and
-- its digests are canonical.
pub record IsUsable (o : Observation) : Type 0 where
  pub turn_known : (r : Role) × (next_proposer o ≡ ok r)
  pub share : 0 < o.offers_remaining_for_me → 1 ≤ opportunities o.role o.session.max_offers
  pub canonical :
      (a : ActiveOffer) → o.active_offer ≡ some a → digest a.offer_hash ≡ ok a.offer_hash

-- What the validator makes of a choice.
abbrev IsPassed : Observation → Choice → Type 0
IsPassed o c = (v : Validation) × (validate (envelope c) o ≡ ok v) × (is_ok v ≡ true)

envelope-offer :
    (price : ℕ)
    → 1 ≤ price
    → price ≤ uint256_max
    → parse_decision (envelope (choose_offer price)) ≡ ok (ok (proposed_offer price))
unfolding parse_decision envelope read_amount
envelope-offer price lo hi = ground (arith, parse-to_json price hi)

envelope-accept :
    (hash : Text)
    → digest hash ≡ ok hash
    → parse_decision (envelope (choose_accept hash)) ≡ ok (ok (proposed_accept hash))
unfolding parse_decision envelope read_offer_hash
envelope-accept hash h = ground arith

walk_away-IsPassed :
    (o : Observation) (why : Text) (c : ℕ)
    → read_reason (str why) ≡ ok (ok (proposed_walk_away why c))
    → IsPassed o (choose_walk_away why)
unfolding validate parse_decision envelope
walk_away-IsPassed o why c h = (accepted (valid_walk_away why c), ground arith, refl)

-- Each reason that the policy gives is one that the validator knows.
reason_known :
    (o : Observation) (held_back : Bool)
    → (c : ℕ) × (read_reason (str (reason o held_back))
        ≡ ok (ok (proposed_walk_away (reason o held_back) c)))
unfolding reason read_reason close_reason_code close_reason_name
reason_known o true = (2, refl)
reason_known o false =
    elim (Bool-cases (o.offers_remaining_for_me == 0 && incoming_outside_bound o)) [
      | inl outside ↦ (1, rw outside refl)
      | inr inside ↦ (3, rw inside refl)
    ]

-- A choice was let through, or the validator answered and it was not.
abbrev IsTried : Observation → Choice ⊎ Bool → Type 0
IsTried o (inl c) = IsPassed o c
IsTried o (inr held_back) = Unit

tried-IsTried :
    (o : Observation) (c : Choice) (v : Validation)
    → validate (envelope c) o ≡ ok v
    → IsTried o (tried c v)
unfolding tried
tried-IsTried o c v h = split (is_ok v) refl
  where
    split : (b : Bool) → is_ok v ≡ b → IsTried o (if b then inl c else inr (is_holdings v.code))
    split true e = (v, h, e)
    split false e = tt

module _ (o : Observation) (u : IsUsable o) where
  price_named :
      1 ≤ opportunities o.role o.session.max_offers
      → (price : ℕ) × (next_price o ≡ ok price) × (1 ≤ price) × (price ≤ uint256_max)
  unfolding next_price
  price_named some_left =
      concession_price_total o.role o.mandate.reservation_price (own_offers_recorded o)
        (opportunities o.role o.session.max_offers) some_left

  accept_answered :
      (a : ActiveOffer)
      → o.active_offer ≡ some a
      → (v : Validation) × (validate (envelope (choose_accept a.offer_hash)) o ≡ ok v)
  unfolding validate
  accept_answered a h = (
    validate_accept a.offer_hash o o.active_offer,
    rw (envelope-accept a.offer_hash (u.canonical a h)) refl,
  )

  offer_judged : (price : ℕ) → (v : Validation) × (validate_offer price o ≡ ok v)
  unfolding validate_offer
  offer_judged price = let (r, e) = u.turn_known in answers _ _ (bind_ok (next_proposer o) _ e)

  offer_answered :
      (price : ℕ)
      → 1 ≤ price
      → price ≤ uint256_max
      → (v : Validation) × (validate (envelope (choose_offer price)) o ≡ ok v)
  unfolding validate
  offer_answered price lo hi =
      let (v, e) = offer_judged price in (v, rw (envelope-offer price lo hi) e)

  try_accept-IsTried :
      (active : Option ActiveOffer)
      → ((a : ActiveOffer) → active ≡ some a → o.active_offer ≡ some a)
      → (t : Choice ⊎ Bool) × (try_accept o active ≡ ok t) × IsTried o t
  unfolding try_accept
  try_accept-IsTried none h = (inr false, refl, tt)
  try_accept-IsTried (some a) h =
      let (v, e) = accept_answered a (h a refl) in
      (tried (choose_accept a.offer_hash) v, rw e, tried-IsTried o (choose_accept a.offer_hash) v e)

  try_offer-IsTried : (t : Choice ⊎ Bool) × (try_offer o ≡ ok t) × IsTried o t
  unfolding try_offer
  try_offer-IsTried = elim (Bool-cases (ltb 0 o.offers_remaining_for_me)) [
    | inl left ↦
        let (price, named, lo, hi) = price_named (u.share (ground arith)) in
        let (v, e) = offer_answered price lo hi in
        (
          tried (choose_offer price) v,
          rw (left, named) (rw e refl),
          tried-IsTried o (choose_offer price) v e,
        )
    | inr none_left ↦ (inr false, rw none_left refl, tt)
  ]

  incoming_stands : (a : ActiveOffer) → incoming o ≡ some a → o.active_offer ≡ some a
  unfolding incoming
  incoming_stands a h = ground arith

  walk_away_answered : (held_back : Bool) → IsPassed o (choose_walk_away (reason o held_back))
  walk_away_answered held_back =
      let (c, e) = reason_known o held_back in walk_away-IsPassed o (reason o held_back) c e

  after_accept-IsPassed :
      (t : Choice ⊎ Bool) → IsTried o t → (c : Choice) × (after_accept o t ≡ ok c) × IsPassed o c
  unfolding after_accept
  after_accept-IsPassed (inl c) h = (c, refl, h)
  after_accept-IsPassed (inr held_back) h = second try_offer-IsTried
    where
      second :
          (t : Choice ⊎ Bool) × (try_offer o ≡ ok t) × IsTried o t
          → (c : Choice) × (after_accept o (inr held_back) ≡ ok c) × IsPassed o c
      second (inl c, e, passed) = (c, rw e refl, passed)
      second (inr held, e, _) = (
        choose_walk_away (reason o (held_back || held)),
        rw e refl,
        walk_away_answered (held_back || held),
      )

  -- On a usable observation the deterministic policy does not raise, and the validator accepts
  -- what it chooses.
  pub choose_passes :
      (c : Choice) × (choose o ≡ ok c)
      × ((v : Validation) × (validate (envelope c) o ≡ ok v) × (is_ok v ≡ true))
  unfolding choose
  choose_passes =
      let (t, e, h) = try_accept-IsTried (incoming o) incoming_stands in
      let (c, e', passed) = after_accept-IsPassed t h in (c, rw e e', passed)
