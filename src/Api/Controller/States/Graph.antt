-- ===== src/Api/Controller/States/Graph.antt =====
-- controller/states.py and driver.py's `RunStates.move`: the diagram, and the log of a run's states.
use mathlib.Core.Path.{subst}
use agentic_negotiators_sbx.Api.Controller.States.{
  RunRow, RunState, allowed, draft, is_finished, move, preparing, require_transition, sources,
  state_beq_iff, state_eq, update_state, validated,
}
use agentic_negotiators_sbx.Prelude.{
  Bool, List, Option, Text, [], any_of, arith, false, inl, inr, nat_eq, ok, refl, sym, text_eq,
  true, ◌==◌, ◌∷◌, ◌≡◌, ◌⊎◌,
}

-- A state is listed among the sources of a target exactly when its transition is allowed.
pub sources_lem : (s t : RunState) → any_of (λ r. s == r) (sources t) ≡ allowed s t
unfolding sources
sources_lem s t = ground arith

-- Nothing leaves a finished state: a move that is not refused leaves the state as it was.
pub finished_absorbs :
    (row row' : RunRow) (target : RunState) (why : Option Text) (expect : Option (List RunState))
    (force : Bool)
    → is_finished row.state ≡ true
    → move row target why expect force ≡ ok row'
    → row'.state ≡ row.state
unfolding move
finished_absorbs row row' target why expect force f h = ground arith

-- The state that a log's newest event announces; a run with no event is a draft.
abbrev logged : List (RunState × Option Text) → RunState
logged [] = draft
logged ((s, why) ∷ es) = s

-- Each event keeps the state before it or follows a transition of the diagram.
abbrev IsPathLog : List (RunState × Option Text) → Type 0
IsPathLog [] = Unit
IsPathLog ((s, why) ∷ es) = ((logged es ≡ s) ⊎ (allowed (logged es) s ≡ true)) × IsPathLog es

-- Past validation.
abbrev is_started : RunState → Bool
is_started draft = false
is_started validated = false
is_started _ = true

abbrev was_preparing : List (RunState × Option Text) → Bool
was_preparing = any_of (λ (e : RunState × Option Text). e.0 == preparing)

-- The log tells the run's state, is a path of the diagram from `draft`, and shows `preparing`
-- whenever the run has got past validation.
pub record IsLogged (row : RunRow) : Type 0 where
  pub current : logged row.events ≡ row.state
  pub path : IsPathLog row.events
  pub prepared : is_started row.state ≡ true → was_preparing row.events ≡ true

-- A transition into a started state is the one into `preparing`, or leaves a started state.
started_by :
    (s t : RunState)
    → allowed s t ≡ true
    → is_started t ≡ true
    → (t ≡ preparing) ⊎ (is_started s ≡ true)
unfolding allowed
started_by s t h k = ground arith

-- A started state that a step along the diagram reaches is `preparing`, or so was the row.
reached :
    (s t : RunState)
    → (s ≡ t) ⊎ (allowed s t ≡ true)
    → is_started t ≡ true
    → (t ≡ preparing) ⊎ (is_started s ≡ true)
reached s t (inl e) k = inr (rw e k)
reached s t (inr a) k = started_by s t a k

was_preparing_cons :
    (t : RunState) (why : Option Text) (es : List (RunState × Option Text))
    → (t ≡ preparing) ⊎ (was_preparing es ≡ true)
    → was_preparing ((t, why) ∷ es) ≡ true
was_preparing_cons t why es h = ground arith

-- A change of state along the diagram keeps the log.
pub update_state-IsLogged :
    (row : RunRow) (target : RunState) (why : Option Text)
    → IsLogged row
    → (row.state ≡ target) ⊎ (allowed row.state target ≡ true)
    → IsLogged (update_state row target why)
unfolding update_state
update_state-IsLogged row target why l step = record {
  current = refl;
  path = (rw l.current step, l.path);
  prepared = λ k.
      was_preparing_cons target why row.events
        (elim (reached row.state target step k) [ inl e ↦ inl e | inr b ↦ inr (l.prepared b) ]);
}

-- A move that is not refused leaves the row, or changes it along the diagram.
move-step :
    (row row' : RunRow) (target : RunState) (why : Option Text) (expect : Option (List RunState))
    (force : Bool)
    → move row target why expect force ≡ ok row'
    → (row' ≡ row)
      ⊎ ((row' ≡ update_state row target why)
          × ((row.state ≡ target) ⊎ (allowed row.state target ≡ true)))
unfolding move require_transition
move-step row row' target why expect force h = ground (arith, state_beq_iff row.state target)

-- A move that is not refused keeps the log: the newest event tells the state, the events are a
-- path of the diagram from draft, and a run past validation has been preparing.
pub move-IsLogged :
    (row row' : RunRow) (target : RunState) (why : Option Text) (expect : Option (List RunState))
    (force : Bool)
    → IsLogged row
    → move row target why expect force ≡ ok row'
    → IsLogged row'
move-IsLogged row row' target why expect force l h =
    elim (move-step row row' target why expect force h) [
      | inl e ↦ subst IsLogged (sym e) l
      | inr (e, step) ↦ subst IsLogged (sym e) (update_state-IsLogged row target why l step)
    ]
