-- ===== src/Api/Turns/Executor.antt =====
-- turns/executor.py, `TurnExecutor`, for one run. Its agents, its observations, its relay, the node
-- and the wallets are what it is given; `meanwhile` is what other tasks do while an agent decides.
use agentic_negotiators_sbx.Agent.Observation.{Role, role_eq}
use agentic_negotiators_sbx.Api.Effects.{Eff, pure, ◌>>=◌}
use agentic_negotiators_sbx.Api.Relay.Chain.{Reply, answered, unavailable}
use agentic_negotiators_sbx.Api.Relay.Outbox.{
  RelayError, action_confirmed, action_finalized, action_reverted, action_signed, rpc_unavailable,
}
use agentic_negotiators_sbx.Api.Turns.Checks.{Opened, Verifier}
use agentic_negotiators_sbx.Api.Turns.Records.{
  ActionRecord, AgentReply, Built, Restoration, RunEvent, TurnRecord, TurnState, TurnStep,
  TurnStore, confirming, state_confirmed, state_execution_failed, turn_done, turn_failed,
  turn_in_flight, turn_recovery, tx_status,
}
use agentic_negotiators_sbx.Api.Turns.Rows.{
  ended_with, in_turn, latest, open_of, step, with_termination,
}
use agentic_negotiators_sbx.Prelude.{
  Option, Result, Text, [], codes, err, nat_eq, none, ok, some, text_eq, ℕ, ◌++◌, ◌∷◌,
}

pub record Executor (W : Type 0) : Type 0 where
  pub verifier : Verifier
  pub head : W → Reply ℕ × W
  pub build : ℕ → TurnStore W → Result Text Built
  pub agent_turn : Role → TurnRecord → W → AgentReply × W
  pub meanwhile : TurnStore W → TurnStore W
  pub restore : Role → W → Restoration × W
  pub wallet : Role → Option Text
  pub opened : W → Option Opened
  pub submit_action : ℕ → TurnStore W → Result RelayError Text × TurnStore W
  pub session_expires_at : Option ℕ
  pub observation_retries : ℕ

module _ {W : Type 0} where
  abbrev pub put_turn : ℕ → (TurnRecord → TurnRecord) → TurnStore W → TurnStore W
  put_turn number change s = record s { turns = in_turn number change s.turns }

  unfoldable pub move_turn : ℕ → TurnState → Eff (TurnStore W) RelayError (Unit {0})
  move_turn number state s = (ok tt, put_turn number (λ t. record t { state = state }) s)

  -- `_finish`, with the termination that it records.
  unfoldable pub finish :
      TurnRecord
      → TurnState
      → Option Text
      → Option Text
      → Option (Text × ℕ)
      → Eff (TurnStore W) RelayError (Unit {0})
  finish turn state code why termination s = (
    ok tt,
    record s {
      turns = in_turn turn.turn (ended_with state code why) s.turns;
      termination = with_termination s.termination termination;
    },
  )

  -- `open_turn`
  unfoldable pub open_turn : TurnStore W → Option TurnRecord
  open_turn s = open_of (latest s.turns)

  -- `_finish_refused`
  unfoldable pub finish_refused : TurnRecord → Text → Eff (TurnStore W) RelayError TurnStep
  finish_refused turn cause = do
    done ← finish turn turn.state (some cause) none none
    pure (step turn_recovery (some (codes "agent_" ++ cause)) turn)

  -- A node's reply, or its outage.
  abbrev pub take_time : Reply ℕ × W → TurnStore W → Result RelayError ℕ × TurnStore W
  take_time (answered n, w) s = (ok n, record s { world = w })
  take_time (unavailable why, w) s = (err (rpc_unavailable why), record s { world = w })

  unfoldable pub append : RunEvent → Eff (TurnStore W) RelayError (Unit {0})
  append event s = (ok tt, record s { events = s.events ++ event ∷ [] })

  module _ (x : Executor W) where
    unfoldable pub head_time : Eff (TurnStore W) RelayError ℕ
    head_time s = take_time (x.head s.world) s

    -- `_submit`
    unfoldable pub submit : TurnRecord → Eff (TurnStore W) RelayError TurnStep
    submit turn = do
      status ← x.submit_action turn.turn
      done ← move_turn turn.turn confirming
      noted ← append (tx_status status)
      pure (step turn_in_flight none turn)

    -- What a confirmed action ends.
    unfoldable pub confirmed_turn : TurnRecord → Eff (TurnStore W) RelayError TurnStep
    confirmed_turn turn = do
      done ← finish turn state_confirmed none none none
      pure (step turn_done none turn)

    -- `_follow`
    unfoldable pub follow : TurnRecord → ActionRecord → Eff (TurnStore W) RelayError TurnStep
    follow turn action = elim action.status [
      | action_signed ↦ submit turn
      | action_confirmed ↦ confirmed_turn turn
      | action_finalized ↦ confirmed_turn turn
      | action_reverted ↦ do
        done ←
            finish turn state_execution_failed (some (codes "reverted")) action.revert_error
              (some (codes "execution_failure", 4))
        pure (step turn_failed action.revert_error turn)
      | _ ↦ do done ← move_turn turn.turn confirming; pure (step turn_in_flight none turn)
    ]
