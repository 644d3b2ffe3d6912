-- ===== src/Tests/Controller.antt =====
-- A run that was prepared, and one that ended.
use agentic_negotiators_sbx.Api.Controller.States.{
  RunRow, allowed, begin_step, move, paused, preparing, recovery, recovery_required, running,
  state_eq, terminal, turn_in_progress, validated,
}
use agentic_negotiators_sbx.Api.Controller.States.Graph.{IsLogged, finished_absorbs, move-IsLogged}
use agentic_negotiators_sbx.Api.Controller.States.Steps.{
  begin_step-IsLogged, begin_step_exclusive, recovery_total,
}
use agentic_negotiators_sbx.Prelude.{
  [], codes, err, false, inr, nat_eq, none, ok, refl, some, text_eq, true, ◌∷◌, ◌≡◌,
}

abbrev prepared_row : RunRow
prepared_row = record {
  state = preparing;
  cause = none;
  events = (preparing, none) ∷ (validated, none) ∷ [];
}

abbrev ended_row : RunRow
ended_row = record {
  state = terminal;
  cause = none;
  events = (terminal, none) ∷ (running, none) ∷ (preparing, none) ∷ (validated, none) ∷ [];
}

abbrev running_row : RunRow
running_row = record {
  state = running;
  cause = none;
  events = (running, none) ∷ (preparing, none) ∷ (validated, none) ∷ [];
}

logged_example : IsLogged prepared_row
unfolding allowed
logged_example = record { current = refl; path = (inr refl, (inr refl, tt)); prepared = λ _. refl }

finished_absorbs_example : terminal ≡ terminal
unfolding move
finished_absorbs_example = finished_absorbs ended_row ended_row terminal none none false refl refl

move-IsLogged_example : IsLogged running_row
unfolding move
move-IsLogged_example =
    move-IsLogged prepared_row running_row running none none false logged_example refl

abbrev paused_row : RunRow
paused_row = record {
  state = paused;
  cause = none;
  events = (paused, none) ∷ (running, none) ∷ (preparing, none) ∷ (validated, none) ∷ [];
}

abbrev stepping_row : RunRow
stepping_row = record {
  state = paused;
  cause = some (codes "step");
  events =
      (paused, some (codes "step"))
      ∷ (paused, none)
      ∷ (running, none)
      ∷ (preparing, none)
      ∷ (validated, none)
      ∷ [];
}

begin_step_exclusive_example :
    (paused ≡ paused) × (paused ≡ paused) × (begin_step stepping_row ≡ err turn_in_progress)
unfolding begin_step
begin_step_exclusive_example = begin_step_exclusive paused_row stepping_row refl

recovery_total_example :
    (row' : RunRow) × (recovery running_row (codes "restart") ≡ ok row')
    × (true ≡ true → (row'.state ≡ recovery_required) × (row'.cause ≡ some (codes "restart")))
    × (true ≡ false → row' ≡ running_row)
recovery_total_example = recovery_total running_row (codes "restart")

paused-IsLogged : IsLogged paused_row
unfolding allowed
paused-IsLogged = record {
  current = refl;
  path = (inr refl, (inr refl, (inr refl, (inr refl, tt))));
  prepared = λ _. refl;
}

begin_step-IsLogged_example : IsLogged stepping_row
unfolding begin_step
begin_step-IsLogged_example = begin_step-IsLogged paused_row stepping_row paused-IsLogged refl
