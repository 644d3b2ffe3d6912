-- ===== src/Api/Turns/Invariant/Numbered.antt =====
-- The numbers of a run's turns.
use mathlib.Core.Path.{subst}
use agentic_negotiators_sbx.Api.Turns.Executor.{Executor}
use agentic_negotiators_sbx.Api.Turns.Invariant.{Charge, Closed, IsTame, charge_of, charges}
use agentic_negotiators_sbx.Api.Turns.Invariant.Signed.{perform_steps, perform_steps-keeps}
use agentic_negotiators_sbx.Api.Turns.Invariant.Steps.{in_turn-charges}
use agentic_negotiators_sbx.Api.Turns.Records.{TurnRecord, TurnStore, broadcasting}
use agentic_negotiators_sbx.Api.Turns.Rows.{highest}
use agentic_negotiators_sbx.Prelude.{
  Bool, List, [], arith, length, map, map-append, max, refl, suc, sym, ℕ, ◌++◌, ◌+◌, ◌∷◌, ◌≡◌,
}

-- The turns are numbered on from a number, in order.
abbrev pub AreNumbered : ℕ → List Charge → Type 0
AreNumbered n [] = Unit
AreNumbered n (c ∷ cs) = (c.turn ≡ n) × AreNumbered (suc n) cs

AreNumbered-append :
    (n : ℕ) (cs : List Charge) (c : Charge)
    → AreNumbered n cs
    → c.turn ≡ n + length cs
    → AreNumbered n (cs ++ c ∷ [])
AreNumbered-append n [] c h e = (omega (arith, e), tt)
AreNumbered-append n (d ∷ cs) c (f, h) e = (f, AreNumbered-append (suc n) cs c h (omega (arith, e)))

-- The highest number is how many turns there are.
highest_lem :
    (n : ℕ) (ts : List TurnRecord)
    → AreNumbered (suc n) (map charge_of ts)
    → max n (highest ts) ≡ n + length (map charge_of ts)
highest_lem n [] h = ground arith
highest_lem n (t ∷ ts) (e, h) = ground (arith, e, highest_lem (suc n) ts h)

module _ {W : Type 0} (x : Executor W) where
  -- The run's turns are numbered from one.
  IsNumbered : TurnStore W → Type 0
  IsNumbered s = AreNumbered 1 (charges s)

  IsNumbered-Closed : Closed x IsNumbered
  unfolding IsNumbered
  IsNumbered-Closed = record {
    quieter = λ s t q inv. subst (AreNumbered 1) (sym q.same_charges) inv;
    begun = λ s turn events next inv.
        subst (AreNumbered 1) (sym (map-append charge_of s.turns (turn ∷ []))) (
          AreNumbered-append 1 (charges s) (charge_of turn) inv
            (ground (arith, next, highest_lem 0 s.turns inv)));
    signs = λ s turn response payload message attempt i address opened e w h f g inv.
        subst (AreNumbered 1)
          (sym (
            in_turn-charges turn.turn (λ t. record t { state = broadcasting }) (λ t. refl) s.turns))
          inv;
  }

  -- Turns that are numbered one, two and on in order stay so over any sequence of the executor's
  -- calls, where the relay and other tasks leave turns alone.
  pub perform_steps-AreNumbered :
      IsTame x
      → (calls : List Bool) (s : TurnStore W) → AreNumbered 1 (charges s)
      → AreNumbered 1 (charges (perform_steps x calls s))
  unfolding IsNumbered
  perform_steps-AreNumbered tame calls s inv =
      perform_steps-keeps x tame IsNumbered IsNumbered-Closed calls s inv
