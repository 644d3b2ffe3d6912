-- ===== src/Api/Turns/Asking.antt =====
-- turns/executor.py, `_refused`, `_ask` and `_restore_and_ask`.
use agentic_negotiators_sbx.Agent.Observation.{Role, role_eq}
use agentic_negotiators_sbx.Agent.Signing.{party}
use agentic_negotiators_sbx.Api.Effects.{Eff, pure, reading, ◌>>=◌}
use agentic_negotiators_sbx.Api.Relay.Outbox.{RelayError}
use agentic_negotiators_sbx.Api.Turns.Executor.{Executor, finish, finish_refused, move_turn}
use agentic_negotiators_sbx.Api.Turns.Recording.{record_response}
use agentic_negotiators_sbx.Api.Turns.Records.{
  AgentRefusal, AgentReply, Restoration, TurnRecord, TurnStep, TurnStore, agent_refused,
  agent_responded, agent_restored, deciding, no_agent, observing, restore_refused,
  restore_unavailable, turn_deadline, turn_recovery, turn_retry, turn_unavailable,
}
use agentic_negotiators_sbx.Api.Turns.Rows.{
  backwards, cause_of, inconsistent_in_a_row, is_forgotten, is_text, step,
}
use agentic_negotiators_sbx.Prelude.{
  codes, if◌then◌else◌, leb, nat_eq, none, ok, some, text_eq, ◌++◌, ◌==◌,
}

module _ {W : Type 0} (x : Executor W) where
  unfoldable pub refused_otherwise :
      TurnRecord → AgentRefusal → Eff (TurnStore W) RelayError TurnStep
  refused_otherwise turn refusal = finish_refused turn (cause_of refusal refusal.state)

  unfoldable pub refused_inconsistent :
      TurnRecord → AgentRefusal → Eff (TurnStore W) RelayError TurnStep
  refused_inconsistent turn refusal = do
    done ← finish turn turn.state (some (codes "observation_inconsistent")) refusal.fields none
    count ← reading (λ s. inconsistent_in_a_row (backwards s.turns))
    pure (
        step (if leb x.observation_retries count then turn_recovery else turn_retry)
          (some (codes "observation_inconsistent")) turn)

  unfoldable pub refused_late : TurnRecord → Eff (TurnStore W) RelayError TurnStep
  refused_late turn = do
    done ← finish turn turn.state (some (codes "session_deadline_passed")) none none
    pure (step turn_deadline none turn)

  -- `_refused`
  unfoldable pub refused_turn : TurnRecord → AgentRefusal → Eff (TurnStore W) RelayError TurnStep
  unfolding refused_otherwise refused_inconsistent refused_late
  refused_turn turn refusal =
      if refusal.code == codes "observation_inconsistent"
      then refused_inconsistent turn refusal
      else if is_text (codes "session_deadline_passed") refusal.state
      then refused_late turn
      else refused_otherwise turn refusal

  -- The agent's answer, and what other tasks did meanwhile.
  unfoldable pub ask_agent : TurnRecord → Eff (TurnStore W) RelayError AgentReply
  ask_agent turn s =
      let reply = x.agent_turn turn.party turn s.world in
      (ok reply.0, x.meanwhile (record s { world = reply.1 }))

  unfoldable pub ask_sessions : Role → Eff (TurnStore W) RelayError Restoration
  ask_sessions party s =
      let reply = x.restore party s.world in (ok reply.0, record s { world = reply.1 })

  unfoldable pub no_answer : TurnRecord → TurnStep
  no_answer turn = step turn_unavailable (some (codes "agent_unavailable")) turn

  -- What follows a reply, with what follows the refusal of an agent that forgot the run.
  unfoldable pub heard :
      TurnRecord
      → Eff (TurnStore W) RelayError TurnStep
      → AgentReply
      → Eff (TurnStore W) RelayError TurnStep
  unfolding no_answer
  heard turn forgotten no_agent = pure (no_answer turn)
  heard turn forgotten (agent_refused refusal) =
      if is_forgotten refusal then forgotten else refused_turn turn refusal
  heard turn forgotten (agent_responded response) = record_response x turn response

  unfoldable pub heard_again : TurnRecord → AgentReply → Eff (TurnStore W) RelayError TurnStep
  unfolding no_answer
  heard_again turn no_agent = pure (no_answer turn)
  heard_again turn (agent_refused refusal) = refused_turn turn refusal
  heard_again turn (agent_responded response) = record_response x turn response

  unfoldable pub restored_or : TurnRecord → Restoration → Eff (TurnStore W) RelayError TurnStep
  unfolding no_answer heard_again
  restored_or turn restore_unavailable = pure (no_answer turn)
  restored_or turn (restore_refused refusal) =
      finish_refused turn (codes "restore_" ++ refusal.code)
  restored_or turn agent_restored = do reply ← ask_agent turn; heard_again turn reply

  -- `_restore_and_ask`
  unfoldable pub restore_and_ask : TurnRecord → Eff (TurnStore W) RelayError TurnStep
  unfolding restored_or
  restore_and_ask turn = do restoration ← ask_sessions turn.party; restored_or turn restoration

  -- `_ask`'s first update: an observed turn is being decided.
  unfoldable pub decide : TurnRecord → Eff (TurnStore W) RelayError TurnRecord
  decide turn = elim turn.state [
    | observing ↦ do done ← move_turn turn.turn deciding; pure (record turn { state = deciding })
    | _ ↦ pure turn
  ]

  -- `_ask`
  unfoldable pub ask_turn : TurnRecord → Eff (TurnStore W) RelayError TurnStep
  unfolding heard
  ask_turn turn = do
    decided ← decide turn
    reply ← ask_agent decided
    heard decided (restore_and_ask decided) reply
