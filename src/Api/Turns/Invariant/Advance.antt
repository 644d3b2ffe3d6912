-- ===== src/Api/Turns/Invariant/Advance.antt =====
-- `advance` and `close`, and what sequences of them keep.
use mathlib.Core.Path.{subst}
use agentic_negotiators_sbx.Api.Effects.{
  Eff, Ends, Holds, Preserves, bind_lem, if_lem, pure_lem, reading_lem, weaken_lem,
}
use agentic_negotiators_sbx.Api.Relay.Outbox.{RelayError}
use agentic_negotiators_sbx.Api.Turns.Advance.{
  add_turn, advance, advance_from, ask_or_retire, begin, begin_at, begin_with, close, close_from,
  close_with, closing, go_on, is_stale, new_turn, past_deadline, retry_stale,
}
use agentic_negotiators_sbx.Api.Turns.Asking.{ask_turn}
use agentic_negotiators_sbx.Api.Turns.Executor.{Executor, open_turn}
use agentic_negotiators_sbx.Api.Turns.Invariant.{Charge, Closed, IsTame, Kept, charge_of, charges}
use agentic_negotiators_sbx.Api.Turns.Invariant.Asking.{ask_turn-Preserves}
use agentic_negotiators_sbx.Api.Turns.Invariant.Steps.{
  finish-Preserves, finished-Preserves, follow-Preserves, head_time-Preserves,
}
use agentic_negotiators_sbx.Api.Turns.Records.{
  ActionRecord, Built, TurnRecord, TurnState, TurnStore, turn_started,
}
use agentic_negotiators_sbx.Api.Turns.Rows.{
  action_for, first_turn, highest, is_finished, latest, open_of,
}
use agentic_negotiators_sbx.Prelude.{
  Among, Among-append_last, Among-append_left, Among-keep_if, Among-map, Bool, List, Option, Result,
  Text, [], arith, codes, err, false, if◌then◌else◌, inl, inr, keep_if, map-append, nat_eq, none,
  ok, refl, some, some_injective, sym, text_eq, true, ◌++◌, ◌+◌, ◌==◌, ◌∷◌, ◌≡◌,
}

open_of-some : (o : Option TurnRecord) (turn : TurnRecord) → open_of o ≡ some turn → o ≡ some turn
open_of-some none turn e = e
open_of-some (some t) turn e = kept_open (is_finished t) e
  where
    kept_open : (b : Bool) → (if b then none else some t) ≡ some turn → some t ≡ some turn
    kept_open true e = ground arith
    kept_open false e = e

first_turn-Among :
    (turns : List TurnRecord) (turn : TurnRecord) → first_turn turns ≡ some turn → Among turn turns
first_turn-Among [] turn e = ground arith
first_turn-Among (t ∷ ts) turn e = inl (sym (some_injective e))

-- The open turn is one of the run's.
open_turn-Among :
    {W : Type 0} (s : TurnStore W) (turn : TurnRecord)
    → open_turn s ≡ some turn
    → Among turn s.turns
unfolding open_turn
open_turn-Among s turn e =
    Among-keep_if turn (λ t. t.turn == highest s.turns) s.turns
      (first_turn-Among (keep_if (λ t. t.turn == highest s.turns) s.turns) turn
        (open_of-some (latest s.turns) turn e))

module _ {W : Type 0} (x : Executor W) (tame : IsTame x) (Inv : TurnStore W → Type 0)
    (closed : Closed x Inv) where
  add_turn-lem :
      (L : List Charge) (built : Built)
      → Holds (Kept Inv L) (Kept Inv L) (add_turn x built) (λ turn. Kept Inv (charge_of turn ∷ L))
  unfolding add_turn
  add_turn-lem L built = record {
    holds = λ s kept. grown s (new_turn x (1 + highest s.turns) built) refl kept;
  }
    where
      grown :
          (s : TurnStore W) (turn : TurnRecord)
          → turn.turn ≡ 1 + highest s.turns
          → Kept Inv L s
          → Kept Inv (charge_of turn ∷ L) (record s {
            turns = s.turns ++ turn ∷ [];
            events = s.events ++ turn_started turn.turn built.party built.expected_sequence ∷ [];
          })
      grown s turn next kept = record {
        inv = closed.begun s turn _ next kept.inv;
        has = λ c i. subst (Among c) (sym (map-append charge_of s.turns (turn ∷ []))) (elim i [
          | inl e ↦
              subst (λ d. Among d (charges s ++ charge_of turn ∷ [])) (sym e)
                (Among-append_last (charge_of turn) (charges s))
          | inr j ↦ Among-append_left c (charges s) (charge_of turn ∷ []) (kept.has c j)
        ]);
      }

  -- Code that needs a turn that is there.
  charged_lem :
      {A : Type 0} (L : List Charge) (c : Charge) (m : Eff (TurnStore W) RelayError A)
      → Preserves (Kept Inv (c ∷ L)) m
      → Holds (Kept Inv L) (Kept Inv (c ∷ L)) m (λ _. Kept Inv L)
  charged_lem L c m h = record { holds = λ s kept. dropped_from (m s) (h.holds s kept) }
    where
      dropped_from :
          {A : Type 0} (t : Result RelayError A × TurnStore W)
          → Ends (Kept Inv (c ∷ L)) (λ _. Kept Inv (c ∷ L)) t
          → Ends (Kept Inv L) (λ _. Kept Inv L) t
      dropped_from (ok a, s) kept = record { inv = kept.inv; has = λ d i. kept.has d (inr i) }
      dropped_from (err e, s) kept = record { inv = kept.inv; has = λ d i. kept.has d (inr i) }

  begin_with-Preserves :
      (L : List Charge) (built : Result Text Built) → Preserves (Kept Inv L) (begin_with x built)
  unfolding begin_with
  begin_with-Preserves L (ok built) = bind_lem (add_turn-lem L built) (λ turn.
      charged_lem L (charge_of turn) (ask_turn x turn)
        (ask_turn-Preserves x tame Inv closed (charge_of turn ∷ L) turn (inl refl)))
  begin_with-Preserves L (err code) = pure_lem _ (λ s kept. kept)

  begin-Preserves : (L : List Charge) → Preserves (Kept Inv L) (begin x)
  unfolding begin begin_at
  begin-Preserves L = bind_lem (head_time-Preserves x tame Inv closed L) (λ now.
      if_lem (past_deadline x now x.session_expires_at) (pure_lem _ (λ s kept. kept))
        (bind_lem (reading_lem (x.build now) (λ s kept. kept)) (begin_with-Preserves L)))

  go_on-lem :
      (L : List Charge) (turn : TurnRecord) (action : Option ActionRecord)
      → Among (charge_of turn) L
      → Preserves (Kept Inv L) (go_on x turn action)
  unfolding go_on ask_or_retire retry_stale
  go_on-lem L turn none i = bind_lem (head_time-Preserves x tame Inv closed L) (λ now.
      if_lem (is_stale x now turn.observation)
        (finished-Preserves x tame Inv closed L turn turn.state (some (codes "observation_stale"))
          none none _)
        (ask_turn-Preserves x tame Inv closed L turn i))
  go_on-lem L turn (some action) i = follow-Preserves x tame Inv closed L turn action

  advance_from-lem :
      (current : Option TurnRecord)
      → Holds
          (Kept Inv [])
          (λ s.
            Kept Inv [] s
            × ((turn : TurnRecord) → current ≡ some turn → Among (charge_of turn) (charges s)))
          (advance_from x current)
          (λ _. Kept Inv [])
  unfolding advance_from
  advance_from-lem none = weaken_lem (λ s p. p.0) (λ a s kept. kept) (begin-Preserves [])
  advance_from-lem (some turn) =
      weaken_lem
        (λ s p. record {
          inv = p.0.inv;
          has = λ c i. elim i [
            | inl e ↦ subst (λ d. Among d (charges s)) (sym e) (p.1 turn refl)
            | inr j ↦ elim j [ ]
          ];
        })
        (λ a s kept. kept)
        (charged_lem [] (charge_of turn) _ (
          bind_lem (reading_lem (λ s. action_for s.actions turn.turn) (λ s kept. kept))
            (λ action. go_on-lem (charge_of turn ∷ []) turn action (inl refl))))

  pub advance-Preserves : Preserves (Kept Inv []) (advance x)
  unfolding advance
  advance-Preserves =
      bind_lem
        (reading_lem open_turn
          (λ s kept. (kept, λ turn e. Among-map charge_of turn s.turns (open_turn-Among s turn e))))
        advance_from-lem

  pub close-Preserves : Preserves (Kept Inv []) (close x)
  unfolding close close_from close_with
  close-Preserves = bind_lem (reading_lem open_turn (λ s kept. kept)) closing_from
    where
      closed_by :
          (turn : TurnRecord) (how : TurnState × Option Text × Option Text)
          → Preserves (Kept Inv []) (close_with x turn how)
      closed_by turn (state, code, why) =
          finish-Preserves x tame Inv closed [] turn state code why none

      closing_from : (current : Option TurnRecord) → Preserves (Kept Inv []) (close_from x current)
      closing_from none = pure_lem tt (λ s kept. kept)
      closing_from (some turn) =
          bind_lem (reading_lem (λ s. action_for s.actions turn.turn) (λ s kept. kept))
            (λ action. closed_by turn (closing x turn action))
