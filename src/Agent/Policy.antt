-- ===== src/Agent/Policy.antt =====
-- The policies (services/agent/src/agent/policy): base.py's answers, and the deterministic
-- baseline.
pub mod Concession
pub mod Deterministic
use agentic_negotiators_sbx.Agent.Json.{Json}
use agentic_negotiators_sbx.Agent.Validation.Decisions.{Code, Feedback}
use agentic_negotiators_sbx.Prelude.{List, Option, Text, ℕ}

-- `Repair`: the previous attempt's refusal.
pub record Repair : Type 0 where
  pub code : Option Code
  pub feedback : Option Feedback

-- `PolicyResponse`; the costs are decimal texts, kept and never computed with.
pub record PolicyResponse : Type 0 where
  pub raw_response : Json
  pub stop_reason : Option Text
  pub usage : Option (List (Text × ℕ))
  pub cost_estimated_usd : Option Text
  pub cost_reported_usd : Option Text

pub data FailureCode : Type 0 where
  timeout provider_error budget_exhausted : FailureCode

-- `PolicyFailure`; the response is there when the call was sent.
pub record PolicyFailure : Type 0 where
  pub code : FailureCode
  pub response : Option PolicyResponse

-- What a policy's `decide` returns.
pub data Answer : Type 0 where
  answered : PolicyResponse → Answer
  unanswered : PolicyFailure → Answer
