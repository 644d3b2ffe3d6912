-- ===== src/Api/Turns/Invariant/Settling.antt =====
-- The termination that a failed turn owes the run, asked of the executor as a whole.
use mathlib.Core.Path.{subst}
use agentic_negotiators_sbx.Api.Effects.{Ends, bind_lem, if_lem, pure, reading}
use agentic_negotiators_sbx.Api.Relay.Outbox.{RelayError}
use agentic_negotiators_sbx.Api.Turns.Advance.{
  add_turn, advance, advance_from, ask_or_retire, begin, begin_at, begin_with, go_on, is_stale,
  no_turn, past_deadline, retry_stale,
}
use agentic_negotiators_sbx.Api.Turns.Asking.{
  ask_agent, ask_sessions, ask_turn, decide, heard, heard_again, no_answer, refused_inconsistent,
  refused_late, refused_otherwise, refused_turn, restore_and_ask, restored_or,
}
use agentic_negotiators_sbx.Api.Turns.Executor.{Executor, finish, head_time, open_turn}
use agentic_negotiators_sbx.Api.Turns.Invariant.Aborts.{
  Owed, Owing, any_lem, finish_refused-Owing, follow-Owing, owes_abort, plain, plain_only,
  record_response-Owing,
}
use agentic_negotiators_sbx.Api.Turns.Records.{
  ActionRecord, AgentRefusal, AgentReply, Built, Restoration, TurnRecord, TurnStep, TurnStore,
  agent_refused, agent_responded, agent_restored, no_agent, restore_refused, restore_unavailable,
  turn_not_ready, turn_recovery, turn_retry,
}
use agentic_negotiators_sbx.Api.Turns.Rows.{
  action_for, backwards, inconsistent_in_a_row, is_forgotten, is_text, step,
}
use agentic_negotiators_sbx.Prelude.{
  Bool, Option, Result, Text, codes, err, false, if◌then◌else◌, leb, nat_eq, none, ok, refl, some,
  text_eq, true, ℕ, ◌++◌, ◌==◌, ◌||◌, ◌≡◌, ◌≢◌,
}

module _ {W : Type 0} (x : Executor W) where
  refused_turn-Owing :
      (turn : TurnRecord) (refusal : AgentRefusal) → Owing x (refused_turn x turn refusal)
  unfolding refused_turn refused_otherwise refused_inconsistent refused_late Owing
  refused_turn-Owing turn refusal =
      if_lem (refusal.code == codes "observation_inconsistent")
        (bind_lem
          (any_lem x
            (finish turn turn.state (some (codes "observation_inconsistent")) refusal.fields none))
          (λ done.
            bind_lem (any_lem x (reading (λ s. inconsistent_in_a_row (backwards s.turns))))
              inconsistent))
        (if_lem (is_text (codes "session_deadline_passed") refusal.state)
          (plain x (finish turn turn.state (some (codes "session_deadline_passed")) none none) _
            refl)
          (finish_refused-Owing x turn _))
    where
      counted : (b : Bool) → owes_abort (if b then turn_recovery else turn_retry) ≡ false
      counted true = refl
      counted false = refl

      inconsistent :
          (count : ℕ)
          → Owing x (
              pure (
                step
                  (if leb x.observation_retries count then turn_recovery else turn_retry)
                  (some (codes "observation_inconsistent"))
                  turn))
      inconsistent count = plain_only x _ (counted (leb x.observation_retries count))

  restored_or-Owing :
      (turn : TurnRecord) (restoration : Restoration) → Owing x (restored_or x turn restoration)
  unfolding restored_or heard_again no_answer Owing
  restored_or-Owing turn restore_unavailable = plain_only x _ refl
  restored_or-Owing turn (restore_refused refusal) = finish_refused-Owing x turn _
  restored_or-Owing turn agent_restored = bind_lem (any_lem x (ask_agent x turn)) again
    where
      again : (reply : AgentReply) → Owing x (heard_again x turn reply)
      again no_agent = plain_only x _ refl
      again (agent_refused refusal) = refused_turn-Owing turn refusal
      again (agent_responded response) = record_response-Owing x turn response

  ask_turn-Owing : (turn : TurnRecord) → Owing x (ask_turn x turn)
  unfolding ask_turn heard restore_and_ask no_answer Owing
  ask_turn-Owing turn =
      bind_lem (any_lem x (decide x turn)) (λ t. bind_lem (any_lem x (ask_agent x t)) (asked t))
    where
      restored : (t : TurnRecord) → Owing x (restore_and_ask x t)
      restored t = bind_lem (any_lem x (ask_sessions x t.party)) (restored_or-Owing t)

      asked :
          (t : TurnRecord) (reply : AgentReply) → Owing x (heard x t (restore_and_ask x t) reply)
      asked t no_agent = plain_only x _ refl
      asked t (agent_refused refusal) =
          if_lem (is_forgotten refusal) (restored t) (refused_turn-Owing t refusal)
      asked t (agent_responded response) = record_response-Owing x t response

  begin-Owing : Owing x (begin x)
  unfolding begin begin_at begin_with Owing
  begin-Owing = bind_lem (any_lem x (head_time x)) (λ now.
      if_lem (past_deadline x now x.session_expires_at) (plain_only x _ refl)
        (bind_lem (any_lem x (reading (x.build now))) built_turn))
    where
      coded :
          (b : Bool) (code : Text)
          → owes_abort
              (if b
                then no_turn x turn_not_ready (some code)
                else no_turn x turn_recovery (some (codes "observation_" ++ code))).status
            ≡ false
      coded true code = refl
      coded false code = refl

      built_turn : (built : Result Text Built) → Owing x (begin_with x built)
      built_turn (ok built) = bind_lem (any_lem x (add_turn x built)) ask_turn-Owing
      built_turn (err code) =
          plain_only x _
            (coded (code == codes "not_confirmed" || code == codes "session_ended") code)

  advance-Owing : Owing x (advance x)
  unfolding advance advance_from go_on ask_or_retire retry_stale Owing
  advance-Owing = bind_lem (any_lem x (reading open_turn)) from
    where
      onward : (turn : TurnRecord) (action : Option ActionRecord) → Owing x (go_on x turn action)
      onward turn none = bind_lem (any_lem x (head_time x)) (λ now.
          if_lem (is_stale x now turn.observation)
            (plain x (finish turn turn.state (some (codes "observation_stale")) none none) _ refl)
            (ask_turn-Owing turn))
      onward turn (some action) = follow-Owing x turn action

      from : (current : Option TurnRecord) → Owing x (advance_from x current)
      from none = begin-Owing
      from (some turn) =
          bind_lem (any_lem x (reading (λ s. action_for s.actions turn.turn))) (onward turn)

  -- A step that says the model failed, a budget is exhausted or an execution failed leaves a
  -- termination recorded.
  pub advance-owes_abort :
      (s t : TurnStore W) (result : TurnStep)
      → advance x s ≡ (ok result, t)
      → owes_abort result.status ≡ true
      → t.termination ≢ none
  unfolding Owing Owed
  advance-owes_abort s t result e =
      subst (λ r. Ends {E = RelayError} {A = TurnStep} (λ s. Unit {0}) (Owed x) r) e
        (advance-Owing.holds s tt)
