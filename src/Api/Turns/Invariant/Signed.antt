-- ===== src/Api/Turns/Invariant/Signed.antt =====
-- Sequences of a run's turns: its signed actions and its termination.
use mathlib.Core.Path.{subst}
use agentic_negotiators_sbx.Agent.Signing.{Message}
use agentic_negotiators_sbx.Api.Effects.{Ends}
use agentic_negotiators_sbx.Api.Relay.Outbox.{RelayError, action_signed}
use agentic_negotiators_sbx.Api.Turns.Advance.{advance, close}
use agentic_negotiators_sbx.Api.Turns.Checks.{Opened, check}
use agentic_negotiators_sbx.Api.Turns.Executor.{Executor}
use agentic_negotiators_sbx.Api.Turns.Genuine.{IsGenuine, check-IsGenuine}
use agentic_negotiators_sbx.Api.Turns.Invariant.{
  Charge, Closed, Deed, IsBacked, IsTame, Kept, charge_of, charges, deed_of, deeds,
}
use agentic_negotiators_sbx.Api.Turns.Invariant.Advance.{advance-Preserves, close-Preserves}
use agentic_negotiators_sbx.Api.Turns.Invariant.Steps.{in_turn-charges}
use agentic_negotiators_sbx.Api.Turns.Recording.{with_signed}
use agentic_negotiators_sbx.Api.Turns.Records.{
  ActionRecord, SignedActionPayload, TurnRecord, TurnResponse, TurnStore, broadcasting,
}
use agentic_negotiators_sbx.Prelude.{
  Among, Among-append-cases, Among-append_left, Bool, List, Result, Text, [], err, false, inl, inr,
  map, map-append, none, ok, refl, some, sym, true, ℕ, ◌++◌, ◌∙◌, ◌∷◌, ◌≡◌, ◌≢◌, ◌⊎◌,
}

module _ {W : Type 0} (x : Executor W) where
  -- One call of the executor.
  unfoldable pub perform_step : Bool → TurnStore W → TurnStore W
  perform_step true s = (advance x s).1
  perform_step false s = (close x s).1

  -- Calls of `advance`, and of `close` where the list says false.
  unfoldable pub perform_steps : List Bool → TurnStore W → TurnStore W
  unfolding perform_step
  perform_steps [] s = s
  perform_steps (call ∷ calls) s = perform_steps calls (perform_step call s)

  IsBacked-grows :
      (cs : List Charge) (c : Charge) (d : Deed) → IsBacked x cs d → IsBacked x (cs ++ c ∷ []) d
  unfolding IsBacked
  IsBacked-grows cs c d
        (turn, address, opened, w, i, same_turn, same_sequence, wallet, session, passed) =
      (
        turn,
        address,
        opened,
        w,
        Among-append_left (charge_of turn) cs (c ∷ []) i,
        same_turn,
        same_sequence,
        wallet,
        session,
        passed,
      )

  -- A signed action that is added passed its checks.
  signed-IsBacked :
      (s : TurnStore W) (turn : TurnRecord) (response : TurnResponse)
      (payload : SignedActionPayload) (message : Message) (attempt : ℕ)
      → Among (charge_of turn) (charges s)
      → (address : Text) (opened : Opened) → x.wallet turn.party ≡ some address
      → (w : W) → x.opened w ≡ some opened
      → check x.verifier payload message turn address opened ≡ true
      → ((d : Deed) → Among d (deeds s) → IsBacked x (charges s) d)
      → (d : Deed) → Among d (deeds (with_signed x turn response payload message attempt s))
      → IsBacked x (charges s) d
  unfolding IsBacked
  signed-IsBacked s turn response payload message attempt i address opened e w h f inv d j =
      placed (
        Among-append-cases d (deed_of new) (deeds s)
          (subst (Among d) (map-append deed_of s.actions (new ∷ [])) j))
    where
      new : ActionRecord
      new = record {
        turn = turn.turn;
        sequence = turn.expected_sequence;
        kind = payload.kind;
        message = message;
        digest = payload.digest;
        signer = payload.signer;
        signature = payload.signature;
        status = action_signed;
        revert_error = none;
      }

      recast :
          IsGenuine x.verifier payload message turn address opened
          → IsGenuine x.verifier (deed_of new).payload message turn address opened
      recast g = record {
        of_kind = g.of_kind;
        by_signer = g.by_signer;
        by_wallet = g.by_wallet;
        in_sequence = g.in_sequence;
        in_session = g.in_session;
        in_config = g.in_config;
        in_terms = g.in_terms;
        over_digest = g.over_digest;
        is_canonical = g.is_canonical;
        signed_by = g.signed_by;
      }

      placed : Among d (deeds s) ⊎ (d ≡ deed_of new) → IsBacked x (charges s) d
      placed (inl k) = inv d k
      placed (inr g) = subst (IsBacked x (charges s)) (sym g) (
        turn,
        address,
        opened,
        w,
        i,
        refl,
        refl,
        e,
        h,
        recast (check-IsGenuine x.verifier payload message turn address opened f),
      )

  -- Every signed action passed the checks of a turn of the run.
  AllBacked : TurnStore W → Type 0
  AllBacked s = (d : Deed) → Among d (deeds s) → IsBacked x (charges s) d

  AllBacked-Closed : Closed x AllBacked
  unfolding AllBacked IsBacked
  AllBacked-Closed = record {
    quieter = λ s t q inv. λ d i.
        subst (λ cs. IsBacked x cs d) (sym q.same_charges) (inv d (subst (Among d) q.same_deeds i));
    begun = λ s turn events next inv. λ d i.
        subst (λ cs. IsBacked x cs d) (sym (map-append charge_of s.turns (turn ∷ [])))
          (IsBacked-grows (charges s) (charge_of turn) d (inv d i));
    signs = λ s turn response payload message attempt i address opened e w h f g inv. λ d j.
        subst (λ cs. IsBacked x cs d)
          (sym (
            in_turn-charges turn.turn (λ t. record t { state = broadcasting }) (λ t. refl) s.turns))
          (signed-IsBacked s turn response payload message attempt i address opened e w h f inv d
            j);
  }

  -- The signed actions of a run with a recorded termination.
  IsFrozen : List Deed → TurnStore W → Type 0
  IsFrozen D s = (s.termination ≢ none) × (deeds s ≡ D)

  IsFrozen-Closed : (D : List Deed) → Closed x (IsFrozen D)
  unfolding IsFrozen
  IsFrozen-Closed D = record {
    quieter = λ s t q inv. elim q.keeps_termination [
      | inl e ↦ ((λ f. inv.0 (sym e ∙ f)), q.same_deeds ∙ inv.1)
      | inr e ↦ elim (inv.0 e) [ ]
    ];
    begun = λ s turn events next inv. inv;
    signs = λ s turn response payload message attempt i address opened e w h f g inv.
        elim (inv.0 g) [ ];
  }

  returned_inv :
      {A : Type 0} (Inv : TurnStore W → Type 0) (t : Result RelayError A × TurnStore W)
      → Ends (Kept Inv []) (λ _. Kept Inv []) t
      → Inv t.1
  returned_inv Inv (ok a, s) kept = kept.inv
  returned_inv Inv (err e, s) kept = kept.inv

  module _ (tame : IsTame x) where
    pub perform_steps-keeps :
        (Inv : TurnStore W → Type 0)
        → Closed x Inv
        → (calls : List Bool) (s : TurnStore W) → Inv s
        → Inv (perform_steps calls s)
    unfolding perform_steps perform_step
    perform_steps-keeps Inv held [] s inv = inv
    perform_steps-keeps Inv held (true ∷ calls) s inv =
        perform_steps-keeps Inv held calls (advance x s).1 (
          returned_inv Inv (advance x s) (
            (advance-Preserves x tame Inv held).holds s
              (record { inv = inv; has = λ c i. elim i [ ] })))
    perform_steps-keeps Inv held (false ∷ calls) s inv =
        perform_steps-keeps Inv held calls (close x s).1 (
          returned_inv Inv (close x s) (
            (close-Preserves x tame Inv held).holds s
              (record { inv = inv; has = λ c i. elim i [ ] })))

    -- From a run with no signed action, where the relay and other tasks leave turns and signed
    -- actions alone, every action that the executor has stored is a turn's own: its message is of
    -- its kind, of the turn's sequence, of the session and configuration of an opening that the
    -- run's records showed, and within the terms of the turn's observation, it names the wallet
    -- of the turn's party, and its canonical signature is that wallet's over the digest of that
    -- very message.
    pub perform_steps-IsBacked :
        (calls : List Bool) (s : TurnStore W) (d : Deed)
        → s.actions ≡ []
        → Among d (deeds (perform_steps calls s))
        → IsBacked x (charges (perform_steps calls s)) d
    unfolding AllBacked
    perform_steps-IsBacked calls s d e =
        perform_steps-keeps AllBacked AllBacked-Closed calls s
          (λ c i. elim (subst (λ as'. Among c (map deed_of as')) e i) [ ]) d

    -- Once a termination is recorded, no sequence of the executor's calls signs anything into the
    -- run, where the relay and other tasks leave signed actions alone and take no termination
    -- back.
    pub perform_steps-terminated :
        (calls : List Bool) (s : TurnStore W)
        → s.termination ≢ none
        → deeds (perform_steps calls s) ≡ deeds s
    unfolding IsFrozen
    perform_steps-terminated calls s stopped =
        (perform_steps-keeps (IsFrozen (deeds s)) (IsFrozen-Closed (deeds s)) calls s
          (stopped, refl)).1
