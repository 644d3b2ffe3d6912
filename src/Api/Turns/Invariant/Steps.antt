-- ===== src/Api/Turns/Invariant/Steps.antt =====
-- The executor's single steps against a property that its steps keep.
use mathlib.Core.Path.{ap₂, subst}
use agentic_negotiators_sbx.Agent.Observation.{Role, role_eq}
use agentic_negotiators_sbx.Agent.Signing.{party}
use agentic_negotiators_sbx.Api.Effects.{Ends, Preserves, bind_lem, pure, pure_lem, ◌>>=◌}
use agentic_negotiators_sbx.Api.Relay.Chain.{Reply, answered, unavailable}
use agentic_negotiators_sbx.Api.Relay.Outbox.{
  ActionStatus, RelayError, action_confirmed, action_finalized, action_included, action_reverted,
  action_signed, action_submitted, action_superseded,
}
use agentic_negotiators_sbx.Api.Turns.Asking.{ask_agent, ask_sessions}
use agentic_negotiators_sbx.Api.Turns.Executor.{
  Executor, append, confirmed_turn, finish, finish_refused, follow, head_time, move_turn, submit,
  take_time,
}
use agentic_negotiators_sbx.Api.Turns.Invariant.{Charge, Closed, IsQuieter, IsTame, Kept, charge_of}
use agentic_negotiators_sbx.Api.Turns.Records.{
  ActionRecord, RunEvent, TurnRecord, TurnState, TurnStep, TurnStore, confirming, state_confirmed,
  state_execution_failed, turn_failed, turn_in_flight, tx_status,
}
use agentic_negotiators_sbx.Api.Turns.Rows.{ended_with, in_turn, step, with_termination}
use agentic_negotiators_sbx.Prelude.{
  Among, List, Option, Result, Text, [], codes, err, false, if◌then◌else◌, inl, inr, map, nat_eq,
  none, ok, refl, some, sym, text_eq, true, ℕ, ◌++◌, ◌==◌, ◌∷◌, ◌≡◌, ◌⊎◌,
}

pub in_turn-charges :
    (number : ℕ) (change : TurnRecord → TurnRecord)
    → ((t : TurnRecord) → charge_of (change t) ≡ charge_of t)
    → (turns : List TurnRecord) → map charge_of (in_turn number change turns) ≡ map charge_of turns
in_turn-charges number change e [] = refl
in_turn-charges number change e (t ∷ ts) =
    ap₂ ◌∷◌
      (elim (t.turn == number) as (λ b. charge_of (if b then change t else t) ≡ charge_of t) [
        | true ↦ e t
        | false ↦ refl
      ])
      (in_turn-charges number change e ts)

pub ended_with-charge :
    (state : TurnState) (code why : Option Text) (t : TurnRecord)
    → charge_of (ended_with state code why t) ≡ charge_of t
ended_with-charge state none why t = refl
ended_with-charge state (some code) why t = refl

pub termination_kept :
    (old new : Option (Text × ℕ)) → (with_termination old new ≡ old) ⊎ (old ≡ none)
termination_kept none new = inr refl
termination_kept (some old) new = inl refl

module _ {W : Type 0} (x : Executor W) (tame : IsTame x) (Inv : TurnStore W → Type 0)
    (closed : Closed x Inv) where
  pub Kept-quiet :
      (L : List Charge) (s t : TurnStore W) → IsQuieter s t → Kept Inv L s → Kept Inv L t
  Kept-quiet L s t quiet kept = record {
    inv = closed.quieter s t quiet kept.inv;
    has = λ c i. subst (Among c) (sym quiet.same_charges) (kept.has c i);
  }

  pub move_turn-Preserves :
      (L : List Charge) (number : ℕ) (state : TurnState)
      → Preserves (Kept Inv L) (move_turn {W = W} number state)
  unfolding move_turn
  move_turn-Preserves L number state = record {
    holds = λ s kept.
        Kept-quiet L s _
          (record {
            same_charges =
                in_turn-charges number (λ t. record t { state = state }) (λ t. refl) s.turns;
            same_deeds = refl;
            keeps_termination = inl refl;
          })
          kept;
  }

  pub finish-Preserves :
      (L : List Charge) (turn : TurnRecord) (state : TurnState) (code why : Option Text)
      (termination : Option (Text × ℕ))
      → Preserves (Kept Inv L) (finish {W = W} turn state code why termination)
  unfolding finish
  finish-Preserves L turn state code why termination = record {
    holds = λ s kept.
        Kept-quiet L s _
          (record {
            same_charges =
                in_turn-charges turn.turn (ended_with state code why)
                  (ended_with-charge state code why) s.turns;
            same_deeds = refl;
            keeps_termination = termination_kept s.termination termination;
          })
          kept;
  }

  -- The world or the events change.
  aside :
      (L : List Charge) (s : TurnStore W) (w : W) (events : List RunEvent)
      → Kept Inv L s
      → Kept Inv L (record s { world = w; events = events })
  aside L s w events =
      Kept-quiet L s (record s { world = w; events = events })
        (record { same_charges = refl; same_deeds = refl; keeps_termination = inl refl })

  append-Preserves :
      (L : List Charge) (event : RunEvent) → Preserves (Kept Inv L) (append {W = W} event)
  unfolding append
  append-Preserves L event = record {
    holds = λ s kept. aside L s s.world (s.events ++ event ∷ []) kept;
  }

  pub head_time-Preserves : (L : List Charge) → Preserves (Kept Inv L) (head_time x)
  unfolding head_time
  head_time-Preserves L = record { holds = λ s kept. taken (x.head s.world) s kept }
    where
      taken :
          (reply : Reply ℕ × W) (s : TurnStore W)
          → Kept Inv L s
          → Ends {E = RelayError} {A = ℕ} (Kept Inv L) (λ _. Kept Inv L) (take_time reply s)
      taken (answered n, w) s kept = aside L s w s.events kept
      taken (unavailable why, w) s kept = aside L s w s.events kept

  pub ask_sessions-Preserves :
      (L : List Charge) (party : Role) → Preserves (Kept Inv L) (ask_sessions x party)
  unfolding ask_sessions
  ask_sessions-Preserves L party = record {
    holds = λ s kept. aside L s (x.restore party s.world).1 s.events kept;
  }

  pub ask_agent-Preserves :
      (L : List Charge) (turn : TurnRecord) → Preserves (Kept Inv L) (ask_agent x turn)
  unfolding ask_agent
  ask_agent-Preserves L turn = record {
    holds = λ s kept.
        let w = (x.agent_turn turn.party turn s.world).1 in
        Kept-quiet L (record s { world = w }) _ (tame.meanwhile_quiet (record s { world = w }))
          (aside L s w s.events kept);
  }

  relay-Preserves : (L : List Charge) (turn : ℕ) → Preserves (Kept Inv L) (x.submit_action turn)
  relay-Preserves L turn = record {
    holds = λ s kept.
        settled (x.submit_action turn s) (Kept-quiet L s _ (tame.submit_quiet turn s) kept);
  }
    where
      settled :
          (t : Result RelayError Text × TurnStore W)
          → Kept Inv L t.1
          → Ends (Kept Inv L) (λ _. Kept Inv L) t
      settled (ok status, s) kept = kept
      settled (err e, s) kept = kept

  pub submit-Preserves :
      (L : List Charge) (turn : TurnRecord) → Preserves (Kept Inv L) (submit x turn)
  unfolding submit
  submit-Preserves L turn = bind_lem (relay-Preserves L turn.turn) (λ status.
      bind_lem (move_turn-Preserves L turn.turn confirming) (λ done.
        bind_lem (append-Preserves L (tx_status status)) (λ noted. pure_lem _ (λ s kept. kept))))

  -- A turn is finished, and the step says so.
  pub finished-Preserves :
      (L : List Charge) (turn : TurnRecord) (state : TurnState) (code why : Option Text)
      (termination : Option (Text × ℕ)) (result : TurnStep)
      → Preserves
          (Kept Inv L)
          (finish {W = W} turn state code why termination >>= λ done. pure result)
  finished-Preserves L turn state code why termination result =
      bind_lem (finish-Preserves L turn state code why termination)
        (λ done. pure_lem result (λ s kept. kept))

  pub finish_refused-Preserves :
      (L : List Charge) (turn : TurnRecord) (cause : Text)
      → Preserves (Kept Inv L) (finish_refused {W = W} turn cause)
  unfolding finish_refused
  finish_refused-Preserves L turn cause =
      finished-Preserves L turn turn.state (some cause) none none _

  confirmed_turn-Preserves :
      (L : List Charge) (turn : TurnRecord) → Preserves (Kept Inv L) (confirmed_turn x turn)
  unfolding confirmed_turn
  confirmed_turn-Preserves L turn = finished-Preserves L turn state_confirmed none none none _

  pub follow-Preserves :
      (L : List Charge) (turn : TurnRecord) (action : ActionRecord)
      → Preserves (Kept Inv L) (follow x turn action)
  unfolding follow
  follow-Preserves L turn action = followed action.status
    where
      later :
          Preserves (Kept Inv L) (
            move_turn {W = W} turn.turn confirming >>= λ done. pure (step turn_in_flight none turn))
      later =
          bind_lem (move_turn-Preserves L turn.turn confirming)
            (λ done. pure_lem _ (λ s kept. kept))

      followed :
          (status : ActionStatus)
          → Preserves {E = RelayError} {A = TurnStep} (Kept Inv L) (elim status [
            | action_signed ↦ submit x turn
            | action_confirmed ↦ confirmed_turn x turn
            | action_finalized ↦ confirmed_turn x turn
            | action_reverted ↦
                finish turn state_execution_failed
                  (some (codes "reverted"))
                  action.revert_error
                  (some (codes "execution_failure", 4))
                >>= λ done. pure (step turn_failed action.revert_error turn)
            | _ ↦ move_turn turn.turn confirming >>= λ done. pure (step turn_in_flight none turn)
          ])
      followed action_signed = submit-Preserves L turn
      followed action_confirmed = confirmed_turn-Preserves L turn
      followed action_finalized = confirmed_turn-Preserves L turn
      followed action_reverted =
          finished-Preserves L turn state_execution_failed (some (codes "reverted"))
            action.revert_error (some (codes "execution_failure", 4)) _
      followed action_submitted = later
      followed action_included = later
      followed action_superseded = later
