-- ===== src/Agent/Validation/Decisions.antt =====
-- codes.py and decisions.py: refusal codes, proposals and validated decisions; and
-- structure.py's `Refusal`. The words of a feedback text are left out, what it quotes is kept.
use agentic_negotiators_sbx.Agent.Observation.{Role}
use agentic_negotiators_sbx.Prelude.{Bool, List, Option, Text, false, none, some, true, ℕ}
use agentic_negotiators_sbx.Prelude.Int.{ℤ}

pub data Code : Type 0 where
  schema_error extra_fields invalid_amount zero_amount invalid_offer_hash invalid_reason : Code
  not_your_turn offer_limit_reached no_active_offer self_acceptance stale_offer_hash : Code
  offer_expired above_reservation below_reservation insufficient_balance inventory_floor : Code

-- `code in HOLDINGS_CODES`
abbrev pub is_holdings : Option Code → Bool
is_holdings (some insufficient_balance) = true
is_holdings (some inventory_floor) = true
is_holdings _ = false

-- What each feedback text quotes.
pub data Feedback : Type 0 where
  wording : Feedback
  remove : List Text → Feedback
  needs : Text → Feedback
  turn_of : Role → Feedback
  hash_is : Text → Feedback
  expired_at : ℕ → ℕ → Feedback
  against : ℕ → ℕ → Feedback
  leaves : ℤ → ℕ → Feedback

pub record Refusal : Type 0 where
  pub code : Code
  pub feedback : Feedback

pub data Proposal : Type 0 where
  proposed_offer : ℕ → Proposal
  proposed_accept : Text → Proposal
  proposed_walk_away : Text → ℕ → Proposal

pub data ValidDecision : Type 0 where
  valid_offer : ℕ → ValidDecision
  valid_accept : Text → ValidDecision
  valid_walk_away : Text → ℕ → ValidDecision

pub record Validation : Type 0 where
  pub decision : Option ValidDecision
  pub code : Option Code
  pub feedback : Option Feedback

-- `Validation.ok`
abbrev pub is_ok : Validation → Bool
is_ok v = elim v.decision [ none ↦ false | some _ ↦ true ]

abbrev pub accepted : ValidDecision → Validation
accepted d = record { decision = some d; code = none; feedback = none }

abbrev pub refused : Refusal → Validation
refused r = record { decision = none; code = some r.code; feedback = some r.feedback }
