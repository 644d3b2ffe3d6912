-- ===== src/Api/Turns/Invariant.antt =====
-- What the executor's steps keep of a run's turns, signed actions and termination.
pub mod Steps
pub mod Recording
pub mod Asking
pub mod Advance
pub mod Signed
pub mod Numbered
pub mod Aborts
pub mod Settling
use agentic_negotiators_sbx.Agent.Observation.{Role}
use agentic_negotiators_sbx.Agent.Signing.{Message}
use agentic_negotiators_sbx.Api.Turns.Checks.{Opened, check}
use agentic_negotiators_sbx.Api.Turns.Executor.{Executor}
use agentic_negotiators_sbx.Api.Turns.Genuine.{IsGenuine}
use agentic_negotiators_sbx.Api.Turns.Recording.{with_signed}
use agentic_negotiators_sbx.Api.Turns.Records.{
  ActionRecord, RunEvent, SignedActionPayload, StoredObservation, TurnRecord, TurnResponse,
  TurnStore,
}
use agentic_negotiators_sbx.Api.Turns.Rows.{highest}
use agentic_negotiators_sbx.Prelude.{
  Among, List, Text, [], map, none, some, true, ℕ, ◌++◌, ◌+◌, ◌∷◌, ◌≡◌, ◌⊎◌,
}
use agentic_negotiators_sbx.Protocol.Values.{digest}

-- What no update of a turn changes.
pub record Charge : Type 0 where
  pub turn : ℕ
  pub party : Role
  pub expected_sequence : ℕ
  pub observation : StoredObservation

abbrev pub charge_of : TurnRecord → Charge
charge_of t = record {
  turn = t.turn;
  party = t.party;
  expected_sequence = t.expected_sequence;
  observation = t.observation;
}

-- What no update of a signed action changes.
pub record Deed : Type 0 where
  pub turn : ℕ
  pub sequence : ℕ
  pub payload : SignedActionPayload
  pub message : Message

abbrev pub deed_of : ActionRecord → Deed
deed_of a = record {
  turn = a.turn;
  sequence = a.sequence;
  payload = record {
    kind = a.kind;
    typed_message = some a.message;
    digest = a.digest;
    signer = a.signer;
    signature = a.signature;
  };
  message = a.message;
}

module _ {W : Type 0} where
  abbrev pub charges : TurnStore W → List Charge
  charges s = map charge_of s.turns

  abbrev pub deeds : TurnStore W → List Deed
  deeds s = map deed_of s.actions

  -- The turns' charges and the signed actions are the same, and a recorded termination stays.
  pub record IsQuieter (s t : TurnStore W) : Type 0 where
    pub same_charges : charges t ≡ charges s
    pub same_deeds : deeds t ≡ deeds s
    pub keeps_termination : (t.termination ≡ s.termination) ⊎ (s.termination ≡ none)

  -- What the executor relies on: neither its relay nor other tasks change a turn's charge or a
  -- signed action, or take a termination back.
  pub record IsTame (x : Executor W) : Type 0 where
    pub meanwhile_quiet : (s : TurnStore W) → IsQuieter s (x.meanwhile s)
    pub submit_quiet : (turn : ℕ) (s : TurnStore W) → IsQuieter s (x.submit_action turn s).1

  -- The signed action is a turn's, and genuine for its party's wallet and for the session whose
  -- opening the run's records showed.
  pub IsBacked : Executor W → List Charge → Deed → Type 0
  IsBacked x cs d =
      (turn : TurnRecord) × (address : Text) × (opened : Opened) × (w : W) × Among (charge_of turn)
        cs
      × (turn.turn ≡ d.turn)
      × (turn.expected_sequence ≡ d.sequence)
      × (x.wallet turn.party ≡ some address)
      × (x.opened w ≡ some opened)
      × (IsGenuine x.verifier d.payload d.message turn address opened)

  -- A property of runs that every step of the executor keeps.
  pub record Closed (x : Executor W) (Inv : TurnStore W → Type 0) : Type 0 where
    pub quieter : (s t : TurnStore W) → IsQuieter s t → Inv s → Inv t
    pub begun :
        (s : TurnStore W) (turn : TurnRecord) (events : List RunEvent)
        → turn.turn ≡ 1 + highest s.turns
        → Inv s
        → Inv (record s { turns = s.turns ++ turn ∷ []; events = events })
    pub signs :
        (s : TurnStore W) (turn : TurnRecord) (response : TurnResponse)
        (payload : SignedActionPayload) (message : Message) (attempt : ℕ)
        → Among (charge_of turn) (charges s)
        → (address : Text) (opened : Opened) → x.wallet turn.party ≡ some address
        → (w : W) → x.opened w ≡ some opened
        → check x.verifier payload message turn address opened ≡ true
        → s.termination ≡ none
        → Inv s
        → Inv (with_signed x turn response payload message attempt s)

  -- The property, and that these turns are there.
  pub record Kept (Inv : TurnStore W → Type 0) (L : List Charge) (s : TurnStore W) : Type 0 where
    pub inv : Inv s
    pub has : (c : Charge) → Among c L → Among c (charges s)
