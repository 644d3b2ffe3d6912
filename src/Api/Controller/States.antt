-- ===== src/Api/Controller/States.antt =====
-- controller/states.py: the run's operational state machine, and driver.py's `RunStates`, which
-- makes every change of state under the run's row lock.
pub mod Graph
pub mod Steps
use agentic_negotiators_sbx.Prelude.{
  Bool, Eq, List, Option, Result, Text, [], any_of, arith, codes, err, false, if◌then◌else◌,
  keep_if, nat_beq, nat_eq, none, not, ok, some, text_eq, true, ℕ, ◌&&◌, ◌==◌, ◌>>=◌, ◌↔◌, ◌∷◌, ◌≡◌,
}

pub data RunState : Type 0 where
  draft validated preparing running paused recovery_required terminal failed_setup : RunState

-- The states in the order of the enum.
abbrev pub run_states : List RunState
run_states =
    draft ∷ validated ∷ preparing ∷ running ∷ paused ∷ recovery_required ∷ terminal ∷ failed_setup
    ∷ []

pub RunState-discrete : Discrete RunState
RunState-discrete = hlevel

abbrev pub state_index : RunState → ℕ
state_index draft = 0
state_index validated = 1
state_index preparing = 2
state_index running = 3
state_index paused = 4
state_index recovery_required = 5
state_index terminal = 6
state_index failed_setup = 7

abbrev pub state_beq : RunState → RunState → Bool
state_beq a b = nat_beq (state_index a) (state_index b)

pub state_beq_iff : (a b : RunState) → (state_beq a b ≡ true) ↔ (a ≡ b)
state_beq_iff a b = ground arith

instance abbrev pub state_eq : Eq RunState
state_eq = record { equal = state_beq; equal_iff = state_beq_iff }

-- `TRANSITIONS`
abbrev pub transitions : List (RunState × RunState)
transitions =
    (draft, validated)
    ∷ (validated, draft)
    ∷ (validated, preparing)
    ∷ (preparing, running)
    ∷ (preparing, paused)
    ∷ (preparing, failed_setup)
    ∷ (preparing, recovery_required)
    ∷ (running, paused)
    ∷ (paused, running)
    ∷ (paused, paused)
    ∷ (running, recovery_required)
    ∷ (paused, recovery_required)
    ∷ (recovery_required, paused)
    ∷ (recovery_required, preparing)
    ∷ (running, terminal)
    ∷ (paused, terminal)
    ∷ (recovery_required, terminal)
    ∷ (recovery_required, failed_setup)
    ∷ []

-- `state in ACTIVE`
abbrev pub is_active : RunState → Bool
is_active preparing = true
is_active running = true
is_active paused = true
is_active recovery_required = true
is_active _ = false

-- `state in FINISHED`
abbrev pub is_finished : RunState → Bool
is_finished terminal = true
is_finished failed_setup = true
is_finished _ = false

unfoldable pub allowed : RunState → RunState → Bool
allowed current target =
    any_of (λ (t : RunState × RunState). current == t.0 && target == t.1) transitions

-- `sources`: every state with a transition to the target, in the order of the enum.
unfoldable pub sources : RunState → List RunState
unfolding allowed
sources target = keep_if (λ s. allowed s target) run_states

-- What `RunStates` raises: `LookupError`, `InvalidStateError`, `InvalidTransitionError` and
-- `TurnInProgressError`.
pub data StateError : Type 0 where
  no_run turn_in_progress : StateError
  invalid_state : RunState → StateError
  invalid_transition : RunState → RunState → StateError

-- `require_transition`
require_transition : RunState → RunState → Result StateError (Unit {0})
unfolding allowed
require_transition current target =
    if allowed current target then ok tt else err (invalid_transition current target)

-- A run's row, as far as a change of state reads and writes it, and the `run.state` events
-- appended to it, the newest first.
pub record RunRow : Type 0 where
  pub state : RunState
  pub cause : Option Text
  pub events : List (RunState × Option Text)

abbrev option_text_beq : Option Text → Option Text → Bool
option_text_beq none none = true
option_text_beq none (some t) = false
option_text_beq (some s) none = false
option_text_beq (some s) (some t) = s == t

-- `uow.runs.update_state`, with its `run.state` event in the same unit of work.
unfoldable pub update_state : RunRow → RunState → Option Text → RunRow
update_state row target why = record {
  state = target;
  cause = why;
  events = (target, why) ∷ row.events;
}

-- `expect is not None and run.state not in expect`
unexpected : Option (List RunState) → RunState → Bool
unexpected none s = false
unexpected (some expected) s = not (any_of (λ e. s == e) expected)

-- `RunStates.move` on a run that exists.
unfoldable pub move :
    RunRow → RunState → Option Text → Option (List RunState) → Bool → Result StateError RunRow
unfolding require_transition update_state unexpected
move row target why expect force =
    if unexpected expect row.state
    then err (invalid_state row.state)
    else (let checked =
          if row.state == target then ok tt else require_transition row.state target in
        checked >>= λ _. ok (
          if row.state == target && option_text_beq row.cause why && not force
          then row
          else update_state row target why))

-- `RunStates.begin_step` on a run that exists.
unfoldable pub begin_step : RunRow → Result StateError RunRow
unfolding update_state
begin_step row =
    if not (row.state == paused)
    then err (invalid_state row.state)
    else if option_text_beq row.cause (some (codes "step"))
    then err turn_in_progress
    else ok (update_state row paused (some (codes "step")))

abbrev pub active_states : List RunState
active_states = preparing ∷ running ∷ paused ∷ recovery_required ∷ []

-- `RunStates.recovery`: only an `InvalidStateError` is suppressed.
unfoldable pub recovery : RunRow → Text → Result StateError RunRow
unfolding move
recovery row why =
    if is_active row.state
    then elim (move row recovery_required (some why) (some active_states) false) [
      | ok row' ↦ ok row'
      | err (invalid_state s) ↦ ok row
      | err no_run ↦ err no_run
      | err turn_in_progress ↦ err turn_in_progress
      | err (invalid_transition a b) ↦ err (invalid_transition a b)
    ]
    else ok row
