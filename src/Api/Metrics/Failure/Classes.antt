-- ===== src/Api/Metrics/Failure/Classes.antt =====
-- metrics/figures.py's `failure_class`: the class of every cause.
use mathlib.Core.Path.{subst}
use agentic_negotiators_sbx.Api.Controller.States.{
  RunState, failed_setup, is_finished, recovery_required, state_eq, terminal,
}
use agentic_negotiators_sbx.Api.Metrics.Failure.{
  FailureClass, class_of, execution_class, failure_class, model_causes, model_class, no_class,
  rpc_causes, rpc_class, signing_class, text_or,
}
use agentic_negotiators_sbx.Api.Metrics.Failure.Causes.{
  IsExecution, IsModel, IsRpc, IsSigning, any_iff, apart, executed, executed_iff, prefixed,
  IsSigning-iff,
}
use agentic_negotiators_sbx.Prelude.{
  Bool, Option, Text, [], any_of, ap, arith, false, if◌then◌else◌, inl, inr, nat_eq, none, refl,
  some, sym, text_eq, true, ℕ, ◌==◌, ◌↔◌, ◌∙◌, ◌∷◌, ◌≡◌, ◌≢◌, ◌⊎◌,
}

-- Five tests in turn, of which only the second and the fourth can hold together.
ladder :
    (a b c d finished : Bool)
    → (a ≡ true → b ≡ false)
    → (a ≡ true → d ≡ false)
    → (c ≡ true → a ≡ false)
    → (c ≡ true → b ≡ false)
    → (c ≡ true → d ≡ false)
    → let k =
        if a
        then some model_class
        else if b
        then some execution_class
        else if c
        then some rpc_class
        else if d
        then some signing_class
        else if finished
        then some no_class
        else none in
      ((k ≡ some model_class) ↔ (a ≡ true))
      × ((k ≡ some execution_class) ↔ (b ≡ true))
      × ((k ≡ some rpc_class) ↔ (c ≡ true))
      × ((k ≡ some signing_class) ↔ ((d ≡ true) × (b ≡ false)))
      × (k ≡ some no_class → finished ≡ true)
      × (finished ≡ true → k ≢ none)
ladder true b c d finished ab ad ca cb cd = ground (arith, ab refl, ad refl)
ladder false true c d finished ab ad ca cb cd = ground arith
ladder false false true d finished ab ad ca cb cd = ground (arith, cd refl)
ladder false false false true finished ab ad ca cb cd = ground arith
ladder false false false false true ab ad ca cb cd = ground arith
ladder false false false false false ab ad ca cb cd = ground arith

-- The class of each cause; the four kinds of cause overlap only where an agent's ends in a revert.
Classified : Text → Bool → Option FailureClass → Type 0
Classified cause finished k =
    ((k ≡ some model_class) ↔ IsModel cause)
    × ((k ≡ some execution_class) ↔ IsExecution cause)
    × ((k ≡ some rpc_class) ↔ IsRpc cause)
    × ((k ≡ some signing_class) ↔ IsSigning cause)
    × (k ≡ some no_class → finished ≡ true)
    × (finished ≡ true → k ≢ none)

iff_trans : {P Q R : Type 0} → P ↔ Q → Q ↔ R → P ↔ R
iff_trans f g = (λ p. g.0 (f.0 p), λ r. f.1 (g.1 r))

class_of-Classified :
    (cause : Text) (finished : Bool) → Classified cause finished (class_of cause finished)
unfolding Classified class_of executed prefixed
class_of-Classified cause finished =
    let tested =
      ladder (any_of (λ c. cause == c) model_causes) (executed cause)
        (any_of (λ c. cause == c) rpc_causes) (prefixed cause) finished
        (λ e. apart cause model_causes executed e refl)
        (λ e. apart cause model_causes prefixed e refl)
        (λ e. apart cause rpc_causes (λ t. any_of (λ c. t == c) model_causes) e refl)
        (λ e. apart cause rpc_causes executed e refl)
        (λ e. apart cause rpc_causes prefixed e refl) in
    (
      iff_trans tested.0 (any_iff cause model_causes),
      iff_trans tested.1 (executed_iff cause),
      iff_trans tested.2 (any_iff cause rpc_causes),
      iff_trans tested.3 (IsSigning-iff cause),
      tested.4,
      tested.5,
    )

-- A cause that is not there, or is empty.
abbrev pub IsBlank : Option Text → Type 0
IsBlank o = (o ≡ none) ⊎ (o ≡ some [])

-- The cause that counts: a termination's in a finished run, else the state's, empty if none is
-- there; of a run that waits for recovery only the state's.
pub data CauseOf : RunState → Option Text → Option Text → Text → Type 0 where
  by_termination :
      (state : RunState) (c : ℕ) (cs : Text) (o : Option Text)
      → is_finished state ≡ true
      → CauseOf state (some (c ∷ cs)) o (c ∷ cs)
  by_state :
      (state : RunState) (t : Option Text) (cause : Text)
      → (is_finished state ≡ true) × IsBlank t ⊎ (state ≡ recovery_required)
      → CauseOf state t (some cause) cause
  by_nothing :
      (state : RunState) (t : Option Text)
      → (is_finished state ≡ true) × IsBlank t ⊎ (state ≡ recovery_required)
      → CauseOf state t none []

text_or-blank : (t : Option Text) (other : Text) → IsBlank t → text_or t other ≡ other
unfolding text_or
text_or-blank t other (inl e) = rw e refl
text_or-blank t other (inr e) = rw e refl

text_or-some : (cause : Text) → text_or (some cause) [] ≡ cause
unfolding text_or
text_or-some [] = refl
text_or-some (c ∷ cs) = refl

finished_class :
    (state : RunState) (t s : Option Text)
    → is_finished state ≡ true
    → failure_class state t s ≡ class_of (text_or t (text_or s [])) true
unfolding failure_class
finished_class terminal t s e = refl
finished_class failed_setup t s e = refl
finished_class recovery_required t s e = cc
finished_class state t s e = cc

-- The class of the cause that is read.
read_as :
    (state : RunState) (t s : Option Text) (cause : Text)
    → ((is_finished state ≡ true) × (text_or t (text_or s []) ≡ cause))
      ⊎ ((state ≡ recovery_required) × (text_or s [] ≡ cause))
    → failure_class state t s ≡ class_of cause (is_finished state)
unfolding failure_class
read_as state t s cause (inl (e, f)) =
    finished_class state t s e ∙ (λ i. class_of (f i) true) ∙ ap (class_of cause) (sym e)
read_as state t s cause (inr (e, f)) =
    subst (λ r. failure_class r t s ≡ class_of cause (is_finished r)) (sym e)
      (ap (λ c. class_of c false) f)

-- Of the two causes of a run, what is read where its termination's is blank or does not count.
read_state :
    (state : RunState) (t s : Option Text) (cause : Text)
    → text_or s [] ≡ cause
    → ((is_finished state ≡ true) × IsBlank t) ⊎ (state ≡ recovery_required)
    → ((is_finished state ≡ true) × (text_or t (text_or s []) ≡ cause))
      ⊎ ((state ≡ recovery_required) × (text_or s [] ≡ cause))
read_state state t s cause e (inl (f, blank)) = inl (f, text_or-blank t (text_or s []) blank ∙ e)
read_state state t s cause e (inr f) = inr (f, e)

failure_class-class_of :
    (state : RunState) (t s : Option Text) (cause : Text)
    → CauseOf state t s cause
    → failure_class state t s ≡ class_of cause (is_finished state)
unfolding text_or
failure_class-class_of _ _ _ _ (by_termination state c cs o e) =
    read_as state (some (c ∷ cs)) o (c ∷ cs) (inl (e, refl))
failure_class-class_of _ _ _ _ (by_state state t cause w) =
    read_as state t (some cause) cause
      (read_state state t (some cause) cause (text_or-some cause) w)
failure_class-class_of _ _ _ _ (by_nothing state t w) =
    read_as state t none [] (read_state state t none [] refl w)

-- A run that finished or waits for recovery has the model's class exactly for a cause of the
-- model or its budget, the execution's for a listed cause or one that ends in a revert, the
-- node's for a listed cause, and the signing class for an agent's, an observation's or a signed
-- action's cause that ends in no revert; no class of failure is only a finished run's, which has
-- one in any case.
pub failure_class_lem :
    (state : RunState) (t s : Option Text) (cause : Text)
    → CauseOf state t s cause
    → ((failure_class state t s ≡ some model_class) ↔ IsModel cause)
      × ((failure_class state t s ≡ some execution_class) ↔ IsExecution cause)
      × ((failure_class state t s ≡ some rpc_class) ↔ IsRpc cause)
      × ((failure_class state t s ≡ some signing_class) ↔ IsSigning cause)
      × (failure_class state t s ≡ some no_class → is_finished state ≡ true)
      × (is_finished state ≡ true → failure_class state t s ≢ none)
unfolding Classified
failure_class_lem state t s cause counts =
    subst (Classified cause (is_finished state))
      (sym (failure_class-class_of state t s cause counts))
      (class_of-Classified cause (is_finished state))
