-- ===== src/Api/Turns/Recording.antt =====
-- turns/executor.py, `_record` and `_record_signed`: what a run keeps of an agent's answer.
use agentic_negotiators_sbx.Agent.Signing.{Message}
use agentic_negotiators_sbx.Api.Effects.{Eff, reading, ◌>>=◌}
use agentic_negotiators_sbx.Api.Relay.Outbox.{RelayError, action_signed}
use agentic_negotiators_sbx.Api.Turns.Checks.{accepted_payload, authorised_attempt}
use agentic_negotiators_sbx.Api.Turns.Executor.{Executor, finish_refused, submit}
use agentic_negotiators_sbx.Api.Turns.Records.{
  ResponseStatus, SignedActionPayload, StepStatus, TurnRecord, TurnResponse, TurnStep, TurnStore,
  broadcasting, response_exhausted, response_signed, state_model_failed, turn_abandoned,
  turn_exhausted, turn_model_failed, turn_signed,
}
use agentic_negotiators_sbx.Api.Turns.Rows.{
  decision_events, decisions_of, ended_with, failure_of, in_turn, last_attempt, step,
  with_termination,
}
use agentic_negotiators_sbx.Prelude.{
  Option, Text, [], any_of, codes, if◌then◌else◌, nat_eq, none, not, ok, some, text_eq, ℕ, ◌++◌,
  ◌==◌, ◌∷◌,
}

module _ {W : Type 0} (x : Executor W) where
  -- What the run keeps of a response that its checks accept.
  abbrev pub with_signed :
      TurnRecord → TurnResponse → SignedActionPayload → Message → ℕ → TurnStore W → TurnStore W
  with_signed turn response payload message attempt s = record s {
    turns = in_turn turn.turn (λ t. record t { state = broadcasting }) s.turns;
    decisions = s.decisions ++ decisions_of turn.turn (some attempt) response.decisions;
    actions =
        s.actions
        ++ record {
          turn = turn.turn;
          sequence = turn.expected_sequence;
          kind = payload.kind;
          message = message;
          digest = payload.digest;
          signer = payload.signer;
          signature = payload.signature;
          status = action_signed;
          revert_error = none;
        }
          ∷ [];
    events =
        s.events
        ++ decision_events turn response.status (some attempt) (some message)
            (last_attempt response.decisions) response.decisions
        ++ turn_signed turn.turn turn.party payload.kind payload.digest ∷ [];
  }

  -- A decision that a recorded termination overtook.
  abbrev pub with_abandoned : TurnRecord → TurnResponse → TurnStore W → TurnStore W
  with_abandoned turn response s = record s {
    turns =
        in_turn turn.turn (ended_with turn.state (some (codes "termination_requested")) none)
          s.turns;
    decisions = s.decisions ++ decisions_of turn.turn none response.decisions;
  }

  -- The unit of work of `_record_signed`, under the run's row lock, and `_submit`.
  unfoldable pub sign_in :
      TurnRecord
      → TurnResponse
      → SignedActionPayload
      → Message
      → ℕ
      → Eff (TurnStore W) RelayError TurnStep
  sign_in turn response payload message attempt s = elim s.termination [
    | some requested ↦ (
      ok (step turn_abandoned (some (codes "termination_requested")) turn),
      with_abandoned turn response s,
    )
    | none ↦ submit x turn (with_signed turn response payload message attempt s)
  ]

  -- What `_record_signed` reads and checks: the payload's message and the attempt it came from.
  abbrev pub verified :
      TurnRecord → TurnResponse → TurnStore W → Option (SignedActionPayload × Message × ℕ)
  verified turn response s =
      accepted_payload x.verifier turn response.signed_action
        (authorised_attempt response.decisions) (x.wallet turn.party) (x.opened s.world)

  unfoldable pub record_checked :
      TurnRecord
      → TurnResponse
      → Option (SignedActionPayload × Message × ℕ)
      → Eff (TurnStore W) RelayError TurnStep
  record_checked turn response none = finish_refused turn (codes "signed_action_mismatch")
  record_checked turn response (some (payload, message, attempt)) =
      sign_in turn response payload message attempt

  -- `_record_signed`
  unfoldable pub record_signed : TurnRecord → TurnResponse → Eff (TurnStore W) RelayError TurnStep
  unfolding record_checked
  record_signed turn response = do
    found ← reading (verified turn response)
    record_checked turn response found

  abbrev pub termination_for : ResponseStatus → Text × ℕ
  termination_for response_exhausted = (codes "budget_exhausted", 3)
  termination_for _ = (codes "model_failure", 2)

  abbrev pub failed_status : ResponseStatus → StepStatus
  failed_status response_exhausted = turn_exhausted
  failed_status _ = turn_model_failed

  -- The unit of work of a response that is not signed.
  abbrev pub with_failure : TurnRecord → TurnResponse → TurnStore W → TurnStore W
  with_failure turn response s = record s {
    turns =
        in_turn turn.turn
          (ended_with state_model_failed (failure_of response.failure).0
            (failure_of response.failure).1)
          s.turns;
    decisions = s.decisions ++ decisions_of turn.turn none response.decisions;
    events =
        s.events
        ++ decision_events turn response.status none none (last_attempt response.decisions)
            response.decisions;
    termination = with_termination s.termination (some (termination_for response.status));
  }

  unfoldable pub record_failed : TurnRecord → TurnResponse → Eff (TurnStore W) RelayError TurnStep
  record_failed turn response s = (
    ok (step (failed_status response.status) (some (termination_for response.status).0) turn),
    with_failure turn response s,
  )

  unfoldable pub record_answer :
      TurnRecord → TurnResponse → ResponseStatus → Eff (TurnStore W) RelayError TurnStep
  record_answer turn response response_signed = record_signed turn response
  record_answer turn response _ = record_failed turn response

  -- `_record`
  unfoldable pub record_response : TurnRecord → TurnResponse → Eff (TurnStore W) RelayError TurnStep
  unfolding record_answer
  record_response turn response =
      if not (response.turn == turn.turn)
      then finish_refused turn (codes "wrong_turn")
      else if any_of (λ d. not (d.observation_hash == turn.observation_hash)) response.decisions
      then finish_refused turn (codes "observation_hash_mismatch")
      else record_answer turn response response.status
