-- ===== src/Api/Turns/Invariant/Aborts.antt =====
-- The termination that a failed turn owes the run.
use agentic_negotiators_sbx.Agent.Signing.{Message}
use agentic_negotiators_sbx.Api.Effects.{
  Eff, Ends, Holds, bind_lem, if_lem, pure, pure_lem, reading, ◌>>=◌,
}
use agentic_negotiators_sbx.Api.Relay.Outbox.{
  ActionStatus, RelayError, action_confirmed, action_finalized, action_included, action_reverted,
  action_signed, action_submitted, action_superseded,
}
use agentic_negotiators_sbx.Api.Turns.Executor.{
  Executor, append, confirmed_turn, finish, finish_refused, follow, move_turn, submit,
}
use agentic_negotiators_sbx.Api.Turns.Recording.{
  record_answer, record_checked, record_failed, record_response, record_signed, sign_in,
  termination_for, verified, with_abandoned, with_signed,
}
use agentic_negotiators_sbx.Api.Turns.Records.{
  ActionRecord, ResponseStatus, SignedActionPayload, StepStatus, TurnRecord, TurnResponse, TurnStep,
  TurnStore, confirming, response_exhausted, response_failed, response_signed, state_confirmed,
  state_execution_failed, turn_abandoned, turn_exhausted, turn_failed, turn_in_flight,
  turn_model_failed, tx_status,
}
use agentic_negotiators_sbx.Api.Turns.Rows.{step, with_termination}
use agentic_negotiators_sbx.Prelude.{
  Bool, Option, Result, Text, any_of, arith, codes, err, false, nat_eq, none, not, ok, refl, some,
  sym, text_eq, true, ℕ, ◌==◌, ◌∙◌, ◌≡◌, ◌≢◌,
}

-- The steps that end a run by an abort.
abbrev pub owes_abort : StepStatus → Bool
owes_abort turn_model_failed = true
owes_abort turn_exhausted = true
owes_abort turn_failed = true
owes_abort _ = false

termination_recorded :
    (old : Option (Text × ℕ)) (new : Text × ℕ) → with_termination old (some new) ≢ none
termination_recorded none new e = ground arith
termination_recorded (some old) new e = ground arith

module _ {W : Type 0} (x : Executor W) where
  -- A step that owes an abort has it recorded.
  unfoldable pub Owed : TurnStep → TurnStore W → Type 0
  Owed result s = owes_abort result.status ≡ true → s.termination ≢ none

  unfoldable pub Owing : Eff (TurnStore W) RelayError TurnStep → Type 0
  Owing m = Holds {E = RelayError} (λ s. Unit {0}) (λ s. Unit {0}) m Owed

  pub any_lem :
      {A : Type 0} (m : Eff (TurnStore W) RelayError A)
      → Holds {E = RelayError} (λ s. Unit {0}) (λ s. Unit {0}) m (λ _ _. Unit {0})
  any_lem m = record { holds = λ s p. ended (m s) }
    where
      ended :
          {A : Type 0} (t : Result RelayError A × TurnStore W)
          → Ends {S = TurnStore W} {E = RelayError} {A = A} (λ s. Unit {0}) (λ _ _. Unit {0}) t
      ended (ok a, s) = tt
      ended (err e, s) = tt

  -- A step that owes nothing, after any code.
  pub plain :
      {A : Type 0} (m : Eff (TurnStore W) RelayError A) (result : TurnStep)
      → owes_abort result.status ≡ false
      → Owing (m >>= λ done. pure result)
  unfolding Owing Owed
  plain m result e =
      bind_lem (any_lem m) (λ done. pure_lem result (λ s p f. ground (arith, sym e ∙ f)))

  pub plain_only : (result : TurnStep) → owes_abort result.status ≡ false → Owing (pure result)
  unfolding Owing Owed
  plain_only result e = pure_lem result (λ s p f. ground (arith, sym e ∙ f))

  submit-Owing : (turn : TurnRecord) → Owing (submit x turn)
  unfolding submit Owing Owed
  submit-Owing turn = bind_lem (any_lem (x.submit_action turn.turn)) (λ status.
      bind_lem (any_lem (move_turn turn.turn confirming))
        (λ done. plain (append (tx_status status)) (step turn_in_flight none turn) refl))

  pub finish_refused-Owing : (turn : TurnRecord) (cause : Text) → Owing (finish_refused turn cause)
  unfolding finish_refused
  finish_refused-Owing turn cause = plain (finish turn turn.state (some cause) none none) _ refl

  reverted_owes :
      (turn : TurnRecord) (action : ActionRecord)
      → Owing (
          finish turn state_execution_failed
            (some (codes "reverted"))
            action.revert_error
            (some (codes "execution_failure", 4))
          >>= λ done. pure (step turn_failed action.revert_error turn))
  unfolding Owing Owed ◌>>=◌ finish pure
  reverted_owes turn action = record {
    holds = λ s p e. termination_recorded s.termination (codes "execution_failure", 4);
  }

  pub follow-Owing : (turn : TurnRecord) (action : ActionRecord) → Owing (follow x turn action)
  unfolding follow confirmed_turn
  follow-Owing turn action = followed action.status
    where
      later :
          Owing (move_turn turn.turn confirming >>= λ done. pure (step turn_in_flight none turn))
      later = plain (move_turn turn.turn confirming) _ refl

      done_turn : Owing (confirmed_turn x turn)
      done_turn = plain (finish turn state_confirmed none none none) _ refl

      followed :
          (status : ActionStatus)
          → Owing (elim status [
            | action_signed ↦ submit x turn
            | action_confirmed ↦ confirmed_turn x turn
            | action_finalized ↦ confirmed_turn x turn
            | action_reverted ↦
                finish turn state_execution_failed
                  (some (codes "reverted"))
                  action.revert_error
                  (some (codes "execution_failure", 4))
                >>= λ done. pure (step turn_failed action.revert_error turn)
            | _ ↦ move_turn turn.turn confirming >>= λ done. pure (step turn_in_flight none turn)
          ])
      followed action_signed = submit-Owing turn
      followed action_confirmed = done_turn
      followed action_finalized = done_turn
      followed action_reverted = reverted_owes turn action
      followed action_submitted = later
      followed action_included = later
      followed action_superseded = later

  sign_in-Owing :
      (turn : TurnRecord) (response : TurnResponse) (payload : SignedActionPayload)
      (message : Message) (attempt : ℕ)
      → Owing (sign_in x turn response payload message attempt)
  unfolding sign_in Owing Owed pure
  sign_in-Owing turn response payload message attempt = record {
    holds = λ s p. locked s s.termination;
  }
    where
      locked :
          (s : TurnStore W) (o : Option (Text × ℕ))
          → Ends {E = RelayError} {A = TurnStep}
              (λ s. Unit {0})
              Owed
              (elim o [
                | some requested ↦ (
                  ok (step turn_abandoned (some (codes "termination_requested")) turn),
                  with_abandoned x turn response s,
                )
                | none ↦ submit x turn (with_signed x turn response payload message attempt s)
              ])
      locked s (some requested) =
          (plain_only (step turn_abandoned (some (codes "termination_requested")) turn) refl).holds
            (with_abandoned x turn response s) tt
      locked s none =
          (submit-Owing turn).holds (with_signed x turn response payload message attempt s) tt

  record_failed-Owing :
      (turn : TurnRecord) (response : TurnResponse) → Owing (record_failed x turn response)
  unfolding Owing Owed record_failed
  record_failed-Owing turn response = record {
    holds = λ s p e. termination_recorded s.termination (termination_for x response.status);
  }

  pub record_response-Owing :
      (turn : TurnRecord) (response : TurnResponse) → Owing (record_response x turn response)
  unfolding record_response record_answer record_signed record_checked Owing
  record_response-Owing turn response =
      if_lem (not (response.turn == turn.turn)) (finish_refused-Owing turn (codes "wrong_turn")) (
        if_lem (any_of (λ d. not (d.observation_hash == turn.observation_hash)) response.decisions)
          (finish_refused-Owing turn (codes "observation_hash_mismatch")) (answer response.status))
    where
      checked :
          (found : Option (SignedActionPayload × Message × ℕ))
          → Owing (record_checked x turn response found)
      checked none = finish_refused-Owing turn (codes "signed_action_mismatch")
      checked (some (payload, message, attempt)) =
          sign_in-Owing turn response payload message attempt

      answer : (status : ResponseStatus) → Owing (record_answer x turn response status)
      answer response_signed = bind_lem (any_lem (reading (verified x turn response))) checked
      answer response_failed = record_failed-Owing turn response
      answer response_exhausted = record_failed-Owing turn response
