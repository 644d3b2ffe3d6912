-- ===== src/Agent/Turns.antt =====
-- turns/__init__.py: one turn, decided, validated, repaired as provisioned and signed. The policy,
-- the clock and the other requests of the instance are the environment, with a state of its own;
-- times are microseconds.
pub mod Outcomes
pub mod Progress
use agentic_negotiators_sbx.Agent.Observation.{Observation, ValueError, role_eq}
use agentic_negotiators_sbx.Agent.Policy.{
  Answer, FailureCode, PolicyResponse, Repair, answered, budget_exhausted, provider_error, timeout,
  unanswered,
}
use agentic_negotiators_sbx.Agent.Signing.{ApprovedSession, Hashing, RunSigner}
use agentic_negotiators_sbx.Agent.Signing.Actions.{SignError, SignedAction, sign_decision}
use agentic_negotiators_sbx.Agent.Validation.Decisions.{ValidDecision, Validation}
use agentic_negotiators_sbx.Agent.Validation.Mandate.{validate}
use agentic_negotiators_sbx.Prelude.{
  Bool, List, Option, Result, [], codes, err, false, get_last?, if◌then◌else◌, ltb, nat_eq, none,
  ok, some, suc, text_eq, zero, ℕ, ◌++◌, ◌+◌, ◌==◌, ◌>>=◌, ◌∷◌,
}
use agentic_negotiators_sbx.Prelude.Int.{leb_ℤ, pos, ℤ, ◌-ℤ◌}

-- `DecisionRecord`, less the prompt version and the observation's hash, which the turn's caller
-- chose.
pub record DecisionRecord : Type 0 where
  pub attempt : ℕ
  pub response : PolicyResponse
  pub validation : Validation
  pub latency_ms : ℕ
  pub requested_at : ℤ

pub data TurnStatus : Type 0 where
  signed model_failed out_of_budget : TurnStatus

-- The `code` of a failure.
pub data Failure : Type 0 where
  policy_failure : FailureCode → Failure
  refusal repair_exhausted : Failure

pub record TurnOutcome : Type 0 where
  pub status : TurnStatus
  pub signed_action : Option SignedAction
  pub decisions : List DecisionRecord
  pub failure : Option Failure

-- What a turn raises.
pub data TurnError : Type 0 where
  no_attempts released : TurnError
  value_error : ValueError → TurnError
  sign_error : SignError → TurnError

-- What the executor calls: the wall clock, the policy, the latency between two states, and
-- `still_open`.
pub record Environment (S : Type 0) : Type 0 where
  pub now : S → ℤ × S
  pub decide : Observation → Option Repair → Option ℤ → S → Answer × S
  pub latency : S → S → ℕ
  pub still_open : S → Bool

-- `RESPONSE_MARGIN_S`
abbrev response_margin : ℤ
response_margin = pos 1000000

abbrev pub not_validated : Validation
not_validated = record { decision = none; code = none; feedback = none }

-- `_failed`
abbrev status_of : FailureCode → TurnStatus
status_of budget_exhausted = out_of_budget
status_of timeout = model_failed
status_of provider_error = model_failed

failed_with : List DecisionRecord → FailureCode → TurnOutcome
failed_with records code = record {
  status = status_of code;
  signed_action = none;
  decisions = records;
  failure = some (policy_failure code);
}

-- `records[-1].response.stop_reason == "refusal"`
declined : Option DecisionRecord → Bool
declined none = false
declined (some r) = elim r.response.stop_reason [ none ↦ false | some why ↦ why == codes "refusal" ]

-- Every attempt was refused.
exhausted : List DecisionRecord → TurnOutcome
unfolding declined
exhausted records = record {
  status = model_failed;
  signed_action = none;
  decisions = records;
  failure = some (if declined (get_last? records) then refusal else repair_exhausted);
}

-- What an attempt came to: a record, or its record if its call was sent and the failure.
pub data Attempt : Type 0 where
  recorded : DecisionRecord → Attempt
  ended : Option DecisionRecord → FailureCode → Attempt

-- The record of an attempt whose call was sent and not answered.
unfoldable pub sent : ℕ → ℕ → ℤ → Option PolicyResponse → Option DecisionRecord
sent attempt latency at none = none
sent attempt latency at (some r) = some (record {
  attempt = attempt;
  response = r;
  validation = not_validated;
  latency_ms = latency;
  requested_at = at;
})

-- `if time_left is not None and time_left <= 0`
out_of_time : Option ℤ → Bool
out_of_time none = false
out_of_time (some left) = leb_ℤ left (pos 0)

module _ {S : Type 0} (env : Environment S) (h : Hashing) (approval : ApprovedSession)
    (signer : RunSigner) (deadline : Option ℤ) (o : Observation) where
  -- `_time_left`
  time_left : S → Option ℤ × S
  time_left s = elim deadline [
    | none ↦ (none, s)
    | some at ↦ let (t, s') = env.now s in (some (at -ℤ t -ℤ response_margin), s')
  ]

  -- The record of an answer, once it is judged.
  judge : ℕ → ℕ → ℤ → Answer → Result ValueError Attempt
  judge attempt latency at (answered r) = do
    v ← validate r.raw_response o
    ok (
        recorded (record {
          attempt = attempt;
          response = r;
          validation = v;
          latency_ms = latency;
          requested_at = at;
        }))
  judge attempt latency at (unanswered f) = ok (ended (sent attempt latency at f.response) f.code)

  -- `_attempt`
  make_attempt : ℕ → Option Repair → Option ℤ → S → Result ValueError Attempt × S
  unfolding judge
  make_attempt attempt repair left s =
      let (at, s₁) = env.now s in
      let (answer, s₂) = env.decide o repair left s₁ in
      (judge attempt (env.latency s₁ s₂) at answer, s₂)

  -- The signature of a decision that passed, if the run is still open.
  sign_open : List DecisionRecord → ValidDecision → S → Result TurnError TurnOutcome
  sign_open records d s =
      if env.still_open s
      then elim (sign_decision h d (some approval) o.expected_sequence o.chain_time signer) [
        | err e ↦ err (sign_error e)
        | ok action ↦ ok (record {
          status = signed;
          signed_action = some action;
          decisions = records;
          failure = none;
        })
      ]
      else err released

  -- What follows a judged answer: its signature, or another attempt with its refusal.
  after_record :
      (Option Repair → List DecisionRecord → S → Result TurnError TurnOutcome × S)
      → List DecisionRecord
      → Validation
      → Option ValidDecision
      → S
      → Result TurnError TurnOutcome × S
  unfolding sign_open
  after_record again records v (some d) s = (sign_open records d s, s)
  after_record again records v none s =
      again (some (record { code = v.code; feedback = v.feedback })) records s

  -- What follows an attempt.
  after_attempt :
      (Option Repair → List DecisionRecord → S → Result TurnError TurnOutcome × S)
      → List DecisionRecord
      → Result ValueError Attempt
      → S
      → Result TurnError TurnOutcome × S
  unfolding after_record failed_with
  after_attempt again records (err e) s = (err (value_error e), s)
  after_attempt again records (ok (ended none code)) s = (ok (failed_with records code), s)
  after_attempt again records (ok (ended (some r) code)) s =
      (ok (failed_with (records ++ r ∷ []) code), s)
  after_attempt again records (ok (recorded r)) s =
      after_record again (records ++ r ∷ []) r.validation r.validation.decision s

  -- One round of the loop, with the time left.
  attempt_round :
      (Option Repair → List DecisionRecord → S → Result TurnError TurnOutcome × S)
      → ℕ
      → Option Repair
      → List DecisionRecord
      → Option ℤ
      → S
      → Result TurnError TurnOutcome × S
  unfolding after_attempt make_attempt out_of_time failed_with
  attempt_round again attempt repair records left s =
      if out_of_time left
      then (ok (failed_with records timeout), s)
      else (let (made, s') = make_attempt attempt repair left s in
          after_attempt again records made s')

  -- The loop of `run`: attempts left, this attempt's number, its repair and the records so far.
  run_attempts : ℕ → ℕ → Option Repair → List DecisionRecord → S → Result TurnError TurnOutcome × S
  unfolding time_left attempt_round exhausted
  run_attempts zero attempt repair records s = (ok (exhausted records), s)
  run_attempts (suc left) attempt repair records s =
      let (t, s') = time_left s in
      attempt_round (run_attempts left (attempt + 1)) attempt repair records t s'

  -- `TurnExecutor.run`
  unfoldable pub run : ℕ → S → Result TurnError TurnOutcome × S
  unfolding run_attempts
  run attempts s =
      if ltb attempts 1 then (err no_attempts, s) else run_attempts attempts 1 none [] s
