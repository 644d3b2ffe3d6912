-- ===== src/Api/Turns/Records.antt =====
-- What a run's turns store (db/models.py, db/repositories/runs.py and turns.py), and the executor's
-- own types.
use agentic_negotiators_sbx.Agent.Observation.{Role}
use agentic_negotiators_sbx.Agent.Signing.{Message}
use agentic_negotiators_sbx.Agent.Signing.Actions.{ActionKind}
use agentic_negotiators_sbx.Api.Relay.Outbox.{ActionStatus}
use agentic_negotiators_sbx.Prelude.{Bool, List, Option, Text, ℕ}

-- `TurnState`
pub data TurnState : Type 0 where
  observing deciding repairing signing broadcasting confirming : TurnState
  state_confirmed state_model_failed state_execution_failed : TurnState

-- The active offer of a stored observation.
pub record StoredOffer : Type 0 where
  pub offer_hash : Text
  pub valid_until : ℕ

-- What is read of a stored observation.
pub record StoredObservation : Type 0 where
  pub chain_time : ℕ
  pub expires_at : ℕ
  pub active_offer : Option StoredOffer

-- A `TurnRecord`; its `finished_at` as whether it is set.
pub record TurnRecord : Type 0 where
  pub turn : ℕ
  pub party : Role
  pub expected_sequence : ℕ
  pub state : TurnState
  pub observation : StoredObservation
  pub observation_hash : Text
  pub finished : Bool
  pub failure_code : Option Text
  pub failure_detail : Option Text

-- `DecisionPayload`, its text, usage and cost as one text.
pub record DecisionPayload : Type 0 where
  pub attempt : ℕ
  pub observation_hash : Text
  pub valid : Bool
  pub content : Text

-- A stored decision of a turn.
pub record StoredDecision : Type 0 where
  pub turn : ℕ
  pub payload : DecisionPayload
  pub authorized : Bool

-- `SignedActionPayload`; a message whose fields are no kind's is none.
pub record SignedActionPayload : Type 0 where
  pub kind : ActionKind
  pub typed_message : Option Message
  pub digest : Text
  pub signer : Text
  pub signature : Text

-- A `SignedActionRecord` of a run.
pub record ActionRecord : Type 0 where
  pub turn : ℕ
  pub sequence : ℕ
  pub kind : ActionKind
  pub message : Message
  pub digest : Text
  pub signer : Text
  pub signature : Text
  pub status : ActionStatus
  pub revert_error : Option Text

pub data ResponseStatus : Type 0 where
  response_signed response_failed response_exhausted : ResponseStatus

-- `TurnResponse`
pub record TurnResponse : Type 0 where
  pub turn : ℕ
  pub status : ResponseStatus
  pub decisions : List DecisionPayload
  pub signed_action : Option SignedActionPayload
  pub failure : Option (Text × Option Text)

-- `AgentRefusedError`: its code, its state and the fields in its details.
pub record AgentRefusal : Type 0 where
  pub code : Text
  pub state : Option Text
  pub fields : Option Text

pub data AgentReply : Type 0 where
  no_agent : AgentReply
  agent_refused : AgentRefusal → AgentReply
  agent_responded : TurnResponse → AgentReply

pub data Restoration : Type 0 where
  restore_unavailable : Restoration
  restore_refused : AgentRefusal → Restoration
  agent_restored : Restoration

-- `ObservationBuilder.build`'s result
pub record Built : Type 0 where
  pub party : Role
  pub expected_sequence : ℕ
  pub document : StoredObservation
  pub observation_hash : Text

-- What a run's events say of its turns, less their sentences.
pub data RunEvent : Type 0 where
  turn_started : ℕ → Role → ℕ → RunEvent
  turn_decision : ℕ → Role → ℕ → Text → Option Message → RunEvent
  turn_signed : ℕ → Role → ActionKind → Text → RunEvent
  tx_status : Text → RunEvent

-- A run's rows, and the rest of the world.
pub record TurnStore (W : Type 0) : Type 0 where
  pub world : W
  pub turns : List TurnRecord
  pub decisions : List StoredDecision
  pub actions : List ActionRecord
  pub termination : Option (Text × ℕ)
  pub events : List RunEvent

-- `TurnStatus`
pub data StepStatus : Type 0 where
  turn_in_flight turn_done turn_not_ready turn_retry turn_unavailable turn_deadline : StepStatus
  turn_model_failed turn_exhausted turn_failed turn_abandoned turn_recovery : StepStatus

-- `TurnStep`
pub record TurnStep : Type 0 where
  pub status : StepStatus
  pub cause : Option Text
  pub turn : Option ℕ
