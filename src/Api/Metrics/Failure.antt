-- ===== src/Api/Metrics/Failure.antt =====
-- metrics/figures.py: the operational failure class of a run.
pub mod Causes
pub mod Classes
-- The causes that `failure_class` names, and the classes.
use agentic_negotiators_sbx.Agent.Policy.{budget_exhausted}
use agentic_negotiators_sbx.Agent.Validation.Decisions.{refused}
use agentic_negotiators_sbx.Api.Controller.States.{
  RunState, is_finished, recovery_required, state_eq,
}
use agentic_negotiators_sbx.Prelude.{
  Bool, List, Option, Text, [], any_of, codes, false, if◌then◌else◌, nat_eq, none, some, text_eq,
  true, ◌&&◌, ◌==◌, ◌||◌, ◌∷◌,
}

abbrev model_causes : List Text
model_causes = codes "model_failure" ∷ codes "budget_exhausted" ∷ []

abbrev execution_causes : List Text
execution_causes =
    codes "execution_failure"
    ∷ codes "session_refused"
    ∷ codes "settlement_check_failed"
    ∷ codes "termination_reverted"
    ∷ codes "session_opening_missing"
    ∷ codes "invalid_confirmation_threshold"
    ∷ []

abbrev rpc_causes : List Text
rpc_causes =
    codes "rpc_timeout"
    ∷ codes "unreachable"
    ∷ codes "refused"
    ∷ codes "nonce_conflict"
    ∷ codes "chain_unavailable"
    ∷ []

pub data FailureClass : Type 0 where
  model_class execution_class rpc_class signing_class no_class : FailureClass

-- `text.startswith(prefix)`
unfoldable pub starts_with : Text → Text → Bool
starts_with text [] = true
starts_with [] (p ∷ ps) = false
starts_with (c ∷ cs) (p ∷ ps) = c == p && starts_with cs ps

-- `text.endswith(suffix)`
unfoldable pub ends_with : Text → Text → Bool
ends_with [] suffix = [] == suffix
ends_with (c ∷ cs) suffix = let rest = ends_with cs suffix in (c ∷ cs) == suffix || rest

-- The class of a cause, of a run that has ended or not.
class_of : Text → Bool → Option FailureClass
unfolding starts_with ends_with
class_of cause finished =
    if any_of (λ c. cause == c) model_causes
    then some model_class
    else if any_of (λ c. cause == c) execution_causes || ends_with cause (codes "_reverted")
    then some execution_class
    else if any_of (λ c. cause == c) rpc_causes
    then some rpc_class
    else if cause == codes "agent_unavailable"
        || starts_with cause (codes "agent_")
        || starts_with cause (codes "observation_")
        || starts_with cause (codes "signed_action_")
    then some signing_class
    else if finished
    then some no_class
    else none

-- `a or b or ""`, where an empty text is false.
text_or : Option Text → Text → Text
text_or none other = other
text_or (some []) other = other
text_or (some (c ∷ cs)) other = c ∷ cs

-- `failure_class`, of a run's state, its termination cause and its state's cause.
unfoldable pub failure_class : RunState → Option Text → Option Text → Option FailureClass
unfolding class_of text_or
failure_class recovery_required termination_cause state_cause =
    class_of (text_or state_cause []) false
failure_class state termination_cause state_cause =
    if is_finished state
    then class_of (text_or termination_cause (text_or state_cause [])) true
    else none
