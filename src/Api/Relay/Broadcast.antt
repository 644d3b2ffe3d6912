-- ===== src/Api/Relay/Broadcast.antt =====
-- relay/relay.py, broadcasting: `_resume` to `_record_attempt`.
use agentic_negotiators_sbx.Agent.Turns.{sent}
use agentic_negotiators_sbx.Agent.Validation.Mandate.{verdict}
use agentic_negotiators_sbx.Api.Effects.{Eff, pure, unit_of_work, ◌>>=◌}
use agentic_negotiators_sbx.Api.Relay.Chain.{
  Rejection, Relay, Verdict, ask, catch_outage, hand_out, taken_in, turned_away,
}
use agentic_negotiators_sbx.Api.Relay.Outbox.{
  OutboxRecord, RelayError, Store, mark_submitted, pending, record_attempt, submit_signed,
}
use agentic_negotiators_sbx.Prelude.{
  Bool, Option, Text, false, if◌then◌else◌, none, ok, some, true, ℕ,
}

-- `_Sent`
pub data Sent : Type 0 where
  sent_accepted sent_unreachable sent_refused : Sent

-- What came of handing the bytes to a node: the head's number, the refusal or the outage.
pub data Outcome : Type 0 where
  node_holds : ℕ → Outcome
  node_refused node_silent : Text → Outcome

module _ {W : Type 0} (relay : Relay W) where
  unfoldable pub carry_action : Option ℕ → Eff (Store W) RelayError (Unit {0})
  carry_action none s = (ok tt, s)
  carry_action (some id) s = (ok tt, record s { actions = submit_signed id s.actions })

  -- `_record_broadcast`
  unfoldable pub record_broadcast : OutboxRecord → ℕ → Eff (Store W) RelayError OutboxRecord
  unfolding carry_action
  record_broadcast row head_block = unit_of_work (do
    updated ← mark_submitted row.id head_block
    done ← carry_action row.signed_action_id
    pure updated)

  -- `_already_sent`
  unfoldable pub already_sent : OutboxRecord → Rejection → Eff (Store W) RelayError Bool
  already_sent row error = elim error.already_known [
    | true ↦ pure true
    | false ↦ elim error.nonce_too_low [
      | true ↦ ask (relay.chain.receipt row.tx_hash)
      | false ↦ pure false
    ]
  ]

  unfoldable pub judged : OutboxRecord → ℕ → Verdict → Eff (Store W) RelayError Outcome
  unfolding already_sent
  judged row head_block taken_in = pure (node_holds head_block)
  judged row head_block (turned_away error) = do
    sent ← already_sent row error
    pure (if sent then node_holds head_block else node_refused error.reason)

  -- The `try` of `_send`: an outage in it is recorded the same wherever it happens.
  unfoldable pub offered : OutboxRecord → Eff (Store W) RelayError Outcome
  unfolding judged
  offered row = do
    head_block ← ask relay.chain.head
    verdict ← hand_out relay.chain row.raw_tx
    judged row head_block verdict

  unfoldable pub recorded :
      OutboxRecord → Outcome → Eff (Store W) RelayError (OutboxRecord × Sent × Option Text)
  recorded row (node_holds head_block) = do
    updated ← record_broadcast row head_block
    pure (updated, sent_accepted, none)
  recorded row (node_refused why) = do
    updated ← unit_of_work (record_attempt row.id why)
    pure (updated, sent_refused, some why)
  recorded row (node_silent why) = do
    updated ← unit_of_work (record_attempt row.id why)
    pure (updated, sent_unreachable, none)

  -- `_send`
  unfoldable pub send : OutboxRecord → Eff (Store W) RelayError (OutboxRecord × Sent × Option Text)
  unfolding offered recorded
  send row = do
    outcome ← catch_outage (offered row) (λ why. pure (node_silent why))
    recorded row outcome

  -- `_broadcast`
  unfoldable pub broadcast : OutboxRecord → Eff (Store W) RelayError OutboxRecord
  broadcast row = do result ← send row; pure result.0

  -- `_resume`
  unfoldable pub resume : OutboxRecord → Eff (Store W) RelayError OutboxRecord
  resume row = elim row.status [ pending ↦ broadcast row | _ ↦ pure row ]
