-- ===== src/Api/Turns/Advance.antt =====
-- turns/executor.py, `advance` and `close`: the open turn is followed, asked again or begun.
use agentic_negotiators_sbx.Api.Effects.{Eff, pure, reading, ◌>>=◌}
use agentic_negotiators_sbx.Api.Relay.Outbox.{
  RelayError, action_confirmed, action_finalized, action_reverted,
}
use agentic_negotiators_sbx.Api.Turns.Asking.{ask_turn}
use agentic_negotiators_sbx.Api.Turns.Executor.{Executor, finish, follow, head_time, open_turn}
use agentic_negotiators_sbx.Api.Turns.Records.{
  ActionRecord, Built, StepStatus, StoredObservation, TurnRecord, TurnState, TurnStep, TurnStore,
  observing, state_confirmed, state_execution_failed, turn_deadline, turn_not_ready, turn_recovery,
  turn_retry, turn_started,
}
use agentic_negotiators_sbx.Api.Turns.Rows.{action_for, highest, step}
use agentic_negotiators_sbx.Prelude.{
  Bool, Option, Result, Text, [], codes, err, false, if◌then◌else◌, leb, nat_eq, none, ok, some,
  text_eq, ℕ, ◌++◌, ◌+◌, ◌==◌, ◌||◌, ◌∷◌,
}

module _ {W : Type 0} (x : Executor W) where
  -- The rest of `_stale`, at a chain time.
  abbrev pub is_stale : ℕ → StoredObservation → Bool
  is_stale now observation =
      elim observation.active_offer [ none ↦ false | some offer ↦ leb offer.valid_until now ]
      || leb observation.expires_at now

  abbrev pub past_deadline : ℕ → Option ℕ → Bool
  past_deadline now none = false
  past_deadline now (some deadline) = leb deadline now

  -- The new turn of an observation.
  abbrev pub new_turn : ℕ → Built → TurnRecord
  new_turn number built = record {
    turn = number;
    party = built.party;
    expected_sequence = built.expected_sequence;
    state = observing;
    observation = built.document;
    observation_hash = built.observation_hash;
    finished = false;
    failure_code = none;
    failure_detail = none;
  }

  unfoldable pub add_turn : Built → Eff (TurnStore W) RelayError TurnRecord
  add_turn built s =
      let turn = new_turn (1 + highest s.turns) built in
      (
        ok turn,
        record s {
          turns = s.turns ++ turn ∷ [];
          events = s.events ++ turn_started turn.turn built.party built.expected_sequence ∷ [];
        },
      )

  -- A step with no turn of its own.
  abbrev pub no_turn : StepStatus → Option Text → TurnStep
  no_turn status cause = record { status = status; cause = cause; turn = none }

  unfoldable pub begin_with : Result Text Built → Eff (TurnStore W) RelayError TurnStep
  begin_with (ok built) = do turn ← add_turn built; ask_turn x turn
  begin_with (err code) = pure (
      if code == codes "not_confirmed" || code == codes "session_ended"
      then no_turn turn_not_ready (some code)
      else no_turn turn_recovery (some (codes "observation_" ++ code)))

  unfoldable pub begin_at : ℕ → Eff (TurnStore W) RelayError TurnStep
  begin_at now =
      if past_deadline now x.session_expires_at
      then pure (no_turn turn_deadline none)
      else reading (x.build now) >>= begin_with

  -- `_begin`
  unfoldable pub begin : Eff (TurnStore W) RelayError TurnStep
  begin = head_time x >>= begin_at

  unfoldable pub retry_stale : TurnRecord → Eff (TurnStore W) RelayError TurnStep
  retry_stale turn = do
    done ← finish turn turn.state (some (codes "observation_stale")) none none
    pure (step turn_retry (some (codes "observation_stale")) turn)

  unfoldable pub ask_or_retire : TurnRecord → Eff (TurnStore W) RelayError TurnStep
  ask_or_retire turn = do
    now ← head_time x
    if is_stale now turn.observation then retry_stale turn else ask_turn x turn

  unfoldable pub go_on : TurnRecord → Option ActionRecord → Eff (TurnStore W) RelayError TurnStep
  go_on turn none = ask_or_retire turn
  go_on turn (some action) = follow x turn action

  unfoldable pub advance_from : Option TurnRecord → Eff (TurnStore W) RelayError TurnStep
  advance_from none = begin
  advance_from (some turn) = do
    action ← reading (λ s. action_for s.actions turn.turn)
    go_on turn action

  -- `advance`
  unfoldable pub advance : Eff (TurnStore W) RelayError TurnStep
  advance = do current ← reading open_turn; advance_from current

  abbrev pub closing : TurnRecord → Option ActionRecord → TurnState × Option Text × Option Text
  closing turn none = (turn.state, some (codes "session_ended"), none)
  closing turn (some action) = elim action.status [
    | action_confirmed ↦ (state_confirmed, none, none)
    | action_finalized ↦ (state_confirmed, none, none)
    | action_reverted ↦ (state_execution_failed, some (codes "reverted"), action.revert_error)
    | _ ↦ (turn.state, some (codes "session_ended"), none)
  ]

  unfoldable pub close_with :
      TurnRecord → TurnState × Option Text × Option Text → Eff (TurnStore W) RelayError (Unit {0})
  close_with turn (state, code, why) = finish turn state code why none

  unfoldable pub close_from : Option TurnRecord → Eff (TurnStore W) RelayError (Unit {0})
  close_from none = pure tt
  close_from (some turn) = do
    action ← reading (λ s. action_for s.actions turn.turn)
    close_with turn (closing turn action)

  -- `close`
  unfoldable pub close : Eff (TurnStore W) RelayError (Unit {0})
  close = do current ← reading open_turn; close_from current
