-- ===== src/Api/Controller/States/Steps.antt =====
-- driver.py's `RunStates.begin_step` and `RunStates.recovery`.
use mathlib.Core.Path.{subst}
use agentic_negotiators_sbx.Api.Controller.States.{
  RunRow, RunState, allowed, begin_step, is_active, move, option_text_beq, paused, recovery,
  recovery_required, require_transition, state_beq_iff, state_eq, turn_in_progress, unexpected,
  update_state,
}
use agentic_negotiators_sbx.Api.Controller.States.Graph.{IsLogged, update_state-IsLogged}
use agentic_negotiators_sbx.Prelude.{
  Bool-cases, Option, Text, ap, arith, codes, err, false, if◌then◌else◌, inl, inr, nat_eq, none, ok,
  refl, some, sym, text_beq_iff, text_eq, true, ◌&&◌, ◌==◌, ◌≡◌,
}

begun :
    (row row' : RunRow)
    → begin_step row ≡ ok row'
    → (row.state ≡ paused) × (update_state row paused (some (codes "step")) ≡ row')
unfolding begin_step
begun row row' h = (ground arith, ground arith)

-- A step begins only on a paused run and leaves it paused, and a second step on what it leaves is
-- refused because a turn is in progress.
pub begin_step_exclusive :
    (row row' : RunRow)
    → begin_step row ≡ ok row'
    → (row.state ≡ paused) × (row'.state ≡ paused) × (begin_step row' ≡ err turn_in_progress)
unfolding begin_step update_state
begin_step_exclusive row row' h =
    let (was, e) = begun row row' h in
    (was, ap (λ r. r.state) (sym e), subst (λ r. begin_step r ≡ err turn_in_progress) e refl)

-- A step that begins keeps the log: the newest event tells the state, the events are a path of
-- the diagram from draft, and a run past validation has been preparing.
pub begin_step-IsLogged :
    (row row' : RunRow) → IsLogged row → begin_step row ≡ ok row' → IsLogged row'
begin_step-IsLogged row row' l h =
    let (was, e) = begun row row' h in
    subst IsLogged e (update_state-IsLogged row paused (some (codes "step")) l (inl was))

-- The row that recovery leaves an active run with.
recovered : RunRow → Text → RunRow
recovered row why =
    if row.state == recovery_required && option_text_beq row.cause (some why)
    then row
    else update_state row recovery_required (some why)

option_text_beq-some : (o : Option Text) (t : Text) → option_text_beq o (some t) ≡ true → o ≡ some t
option_text_beq-some none t h = cc
option_text_beq-some (some s) t h = ap some ((text_beq_iff s t).0 h)

recovered_lem :
    (row : RunRow) (why : Text)
    → ((recovered row why).state ≡ recovery_required) × ((recovered row why).cause ≡ some why)
unfolding recovered update_state
recovered_lem row why =
    ground (arith, option_text_beq-some row.cause why, state_beq_iff row.state recovery_required)

active_recovered :
    (row : RunRow) (why : Text) (s : RunState)
    → row.state ≡ s
    → is_active s ≡ true
    → recovery row why ≡ ok (recovered row why)
unfolding recovery recovered move require_transition unexpected allowed
active_recovered row why s e active = ground arith

idle_kept : (row : RunRow) (why : Text) → is_active row.state ≡ false → recovery row why ≡ ok row
unfolding recovery
idle_kept row why idle = rw idle refl

-- Recovery is never refused: an active run comes to recovery_required with the given cause, and
-- any other run is left as it was.
pub recovery_total :
    (row : RunRow) (why : Text)
    → (row' : RunRow) × (recovery row why ≡ ok row')
      × (is_active row.state ≡ true → (row'.state ≡ recovery_required) × (row'.cause ≡ some why))
      × (is_active row.state ≡ false → row' ≡ row)
recovery_total row why = elim (Bool-cases (is_active row.state)) [
  | inl active ↦ (
    recovered row why,
    active_recovered row why row.state refl active,
    λ _. recovered_lem row why,
    λ idle. cc,
  )
  | inr idle ↦ (row, idle_kept row why idle, λ active. cc, λ _. refl)
]
