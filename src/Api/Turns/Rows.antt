-- ===== src/Api/Turns/Rows.antt =====
-- turns/executor.py and its repositories, on rows alone.
use agentic_negotiators_sbx.Agent.Signing.{Message}
use agentic_negotiators_sbx.Api.Turns.Records.{
  ActionRecord, AgentRefusal, DecisionPayload, ResponseStatus, RunEvent, StepStatus, StoredDecision,
  TurnRecord, TurnState, TurnStep, response_signed, state_confirmed, state_execution_failed,
  state_model_failed, turn_decision,
}
use agentic_negotiators_sbx.Prelude.{
  Bool, List, Option, Text, [], codes, false, get_last?, if◌then◌else◌, keep_if, max, nat_eq, none,
  some, text_eq, true, ℕ, ◌++◌, ◌+◌, ◌==◌, ◌||◌, ◌∷◌,
}

abbrev pub step : StepStatus → Option Text → TurnRecord → TurnStep
step status cause turn = record { status = status; cause = cause; turn = some turn.turn }

-- `_finished`
abbrev pub is_finished : TurnRecord → Bool
is_finished turn = elim turn.state [
  | state_confirmed ↦ true
  | state_model_failed ↦ true
  | state_execution_failed ↦ true
  | _ ↦ turn.finished
]

-- `_action_for`
abbrev pub action_for : List ActionRecord → ℕ → Option ActionRecord
action_for [] turn = none
action_for (a ∷ as') turn = if a.turn == turn then some a else action_for as' turn

-- `uow.turns.update_state` and its optional values.
abbrev pub in_turn : ℕ → (TurnRecord → TurnRecord) → List TurnRecord → List TurnRecord
in_turn number change [] = []
in_turn number change (t ∷ ts) =
    (if t.turn == number then change t else t) ∷ in_turn number change ts

abbrev pub highest : List TurnRecord → ℕ
highest [] = 0
highest (t ∷ ts) = max t.turn (highest ts)

abbrev pub first_turn : List TurnRecord → Option TurnRecord
first_turn [] = none
first_turn (t ∷ ts) = some t

abbrev pub latest : List TurnRecord → Option TurnRecord
latest turns = first_turn (keep_if (λ t. t.turn == highest turns) turns)

abbrev pub open_of : Option TurnRecord → Option TurnRecord
open_of none = none
open_of (some turn) = if is_finished turn then none else some turn

abbrev pub is_text : Text → Option Text → Bool
is_text a none = false
is_text a (some b) = a == b

-- `_FORGOTTEN`
abbrev pub is_forgotten : AgentRefusal → Bool
is_forgotten refusal =
    is_text (codes "unprovisioned") refusal.state || is_text (codes "provisioned") refusal.state

-- `update_state` with a time of finishing: with no code the row keeps its code and its detail.
abbrev pub ended_with : TurnState → Option Text → Option Text → TurnRecord → TurnRecord
ended_with state none why t = record t { state = state; finished = true }
ended_with state (some code) why t = record t {
  state = state;
  finished = true;
  failure_code = some code;
  failure_detail = why;
}

-- What a refusal is finished with: the state that it names, or its code.
abbrev pub cause_of : AgentRefusal → Option Text → Text
cause_of refusal none = refusal.code
cause_of refusal (some []) = refusal.code
cause_of refusal (some (c ∷ cs)) = c ∷ cs

-- `_inconsistent_in_a_row`, over the turns from the last.
abbrev pub inconsistent_in_a_row : List TurnRecord → ℕ
inconsistent_in_a_row [] = 0
inconsistent_in_a_row (t ∷ ts) =
    let rest = inconsistent_in_a_row ts in
    if is_text (codes "observation_inconsistent") t.failure_code then rest + 1 else 0

abbrev pub backwards : List TurnRecord → List TurnRecord
backwards [] = []
backwards (t ∷ ts) = backwards ts ++ t ∷ []

abbrev pub is_number : ℕ → Option ℕ → Bool
is_number n none = false
is_number n (some m) = n == m

-- `_add_decisions`
abbrev pub decisions_of : ℕ → Option ℕ → List DecisionPayload → List StoredDecision
decisions_of turn authorized [] = []
decisions_of turn authorized (d ∷ ds) =
    record { turn = turn; payload = d; authorized = is_number d.attempt authorized }
    ∷ decisions_of turn authorized ds

-- The status of a decision in `_decision_events`, of the last attempt or of an earlier one.
abbrev pub decision_status : ResponseStatus → Bool → DecisionPayload → Text
decision_status response_signed last d = if d.valid then codes "valid" else codes "invalid"
decision_status _ true d = codes "model_failed"
decision_status _ false d = if d.valid then codes "valid" else codes "invalid"

-- `_decision_events`
abbrev pub decision_events :
    TurnRecord
    → ResponseStatus
    → Option ℕ
    → Option Message
    → ℕ
    → List DecisionPayload
    → List RunEvent
decision_events turn status authorized message last [] = []
decision_events turn status authorized message last (d ∷ ds) =
    turn_decision turn.turn turn.party d.attempt (decision_status status (d.attempt == last) d)
      (if is_number d.attempt authorized then message else none)
    ∷ decision_events turn status authorized message last ds

abbrev pub last_attempt : List DecisionPayload → ℕ
last_attempt decisions = elim (get_last? decisions) [ none ↦ 0 | some d ↦ d.attempt ]

abbrev pub failure_of : Option (Text × Option Text) → Option Text × Option Text
failure_of none = (none, none)
failure_of (some (code, why)) = (some code, why)

-- `request_termination`: the first is kept.
abbrev pub with_termination : Option (Text × ℕ) → Option (Text × ℕ) → Option (Text × ℕ)
with_termination (some old) new = some old
with_termination none new = new
