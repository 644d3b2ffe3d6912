-- ===== src/Api/Turns/Invariant/Recording.antt =====
-- Keeping an agent's answer, against a property that the executor's steps keep.
use mathlib.Core.Path.{subst}
use agentic_negotiators_sbx.Agent.Signing.{Message}
use agentic_negotiators_sbx.Api.Effects.{Ends, Holds, Preserves, bind_lem, reading_lem, weaken_lem}
use agentic_negotiators_sbx.Api.Relay.Outbox.{RelayError}
use agentic_negotiators_sbx.Api.Turns.Checks.{
  Opened, Verifier, accepted_payload, authorised_attempt, check, readable,
}
use agentic_negotiators_sbx.Api.Turns.Executor.{Executor, submit}
use agentic_negotiators_sbx.Api.Turns.Invariant.{Charge, Closed, IsTame, Kept, charge_of}
use agentic_negotiators_sbx.Api.Turns.Invariant.Steps.{
  Kept-quiet, ended_with-charge, finish_refused-Preserves, in_turn-charges, submit-Preserves,
  termination_kept,
}
use agentic_negotiators_sbx.Api.Turns.Recording.{
  record_checked, record_failed, record_signed, sign_in, termination_for, verified, with_abandoned,
  with_signed,
}
use agentic_negotiators_sbx.Api.Turns.Records.{
  DecisionPayload, SignedActionPayload, TurnRecord, TurnResponse, TurnStep, TurnStore, broadcasting,
  state_model_failed, turn_abandoned,
}
use agentic_negotiators_sbx.Api.Turns.Rows.{ended_with, failure_of, step}
use agentic_negotiators_sbx.Prelude.{
  Among, Bool, List, Option, Text, arith, codes, false, if◌then◌else◌, inl, nat_eq, none, ok, refl,
  some, some_injective, sym, text_eq, true, ℕ, ◌≡◌,
}

-- What an accepted payload passed.
accepted_check :
    (v : Verifier) (turn : TurnRecord) (payload : SignedActionPayload) (attempt : ℕ)
    (address : Text) (opened : Opened) (message : Option Message)
    (found : SignedActionPayload × Message × ℕ)
    → readable v turn payload attempt address opened message ≡ some found
    → check v found.0 found.1 turn address opened ≡ true
accepted_check v turn payload attempt address opened none found e = ground arith
accepted_check v turn payload attempt address opened (some message) found e =
    tested (check v payload message turn address opened) refl e
  where
    tested :
        (b : Bool)
        → check v payload message turn address opened ≡ b
        → (if b then some (payload, message, attempt) else none) ≡ some found
        → check v found.0 found.1 turn address opened ≡ true
    tested true f e = subst (λ p. check v p.0 p.1 turn address opened ≡ true) (some_injective e) f
    tested false f e = ground arith

-- An accepted payload has the wallet's address and the session's opening that it was checked with.
accepted_payload-cases :
    (v : Verifier) (turn : TurnRecord) (payload : Option SignedActionPayload)
    (authorised : Option DecisionPayload) (address : Option Text) (opened : Option Opened)
    (found : SignedActionPayload × Message × ℕ)
    → accepted_payload v turn payload authorised address opened ≡ some found
    → (a : Text) × (o : Opened) × (address ≡ some a)
      × (opened ≡ some o)
      × (check v found.0 found.1 turn a o ≡ true)
unfolding accepted_payload
accepted_payload-cases v turn none authorised address opened found e = ground arith
accepted_payload-cases v turn (some payload) none address opened found e = ground arith
accepted_payload-cases v turn (some payload) (some authorised) none opened found e = ground arith
accepted_payload-cases v turn (some payload) (some authorised) (some a) none found e = ground arith
accepted_payload-cases v turn (some payload) (some authorised) (some a) (some o) found e = (
  a,
  o,
  refl,
  refl,
  accepted_check v turn payload authorised.attempt a o payload.typed_message found e,
)

module _ {W : Type 0} (x : Executor W) (tame : IsTame x) (Inv : TurnStore W → Type 0)
    (closed : Closed x Inv) where
  sign_in-lem :
      (L : List Charge) (turn : TurnRecord) (response : TurnResponse)
      (payload : SignedActionPayload) (message : Message) (attempt : ℕ) (address : Text)
      (opened : Opened)
      → Among (charge_of turn) L
      → x.wallet turn.party ≡ some address
      → (w : W) → x.opened w ≡ some opened
      → check x.verifier payload message turn address opened ≡ true
      → Preserves (Kept Inv L) (sign_in x turn response payload message attempt)
  unfolding sign_in
  sign_in-lem L turn response payload message attempt address opened i e w h f = record {
    holds = λ s kept. locked s kept s.termination refl;
  }
    where
      abandoned : (s : TurnStore W) → Kept Inv L s → Kept Inv L (with_abandoned x turn response s)
      abandoned s kept =
          Kept-quiet x tame Inv closed L s _
            (record {
              same_charges =
                  in_turn-charges turn.turn
                    (ended_with turn.state (some (codes "termination_requested")) none) (λ t. refl)
                    s.turns;
              same_deeds = refl;
              keeps_termination = inl refl;
            })
            kept

      stored :
          (s : TurnStore W)
          → Kept Inv L s
          → s.termination ≡ none
          → Kept Inv L (with_signed x turn response payload message attempt s)
      stored s kept g = record {
        inv =
            closed.signs s turn response payload message attempt (kept.has (charge_of turn) i)
              address opened e w h f g kept.inv;
        has = λ c j.
            subst (Among c)
              (sym (
                in_turn-charges turn.turn (λ t. record t { state = broadcasting }) (λ t. refl)
                  s.turns))
              (kept.has c j);
      }

      locked :
          (s : TurnStore W)
          → Kept Inv L s
          → (o : Option (Text × ℕ)) → s.termination ≡ o
          → Ends {E = RelayError} {A = TurnStep}
              (Kept Inv L)
              (λ _. Kept Inv L)
              (elim o [
                | some requested ↦ (
                  ok (step turn_abandoned (some (codes "termination_requested")) turn),
                  with_abandoned x turn response s,
                )
                | none ↦ submit x turn (with_signed x turn response payload message attempt s)
              ])
      locked s kept (some requested) g = abandoned s kept
      locked s kept none g =
          (submit-Preserves x tame Inv closed L turn).holds
            (with_signed x turn response payload message attempt s) (stored s kept g)

  pub record_signed-Preserves :
      (L : List Charge) (turn : TurnRecord) (response : TurnResponse)
      → Among (charge_of turn) L
      → Preserves (Kept Inv L) (record_signed x turn response)
  unfolding record_signed record_checked
  record_signed-Preserves L turn response i =
      bind_lem
        (reading_lem {Q = λ found s. Kept Inv L s × ((w : W) × (verified_in w ≡ found))}
          (verified x turn response) (λ s kept. (kept, (s.world, refl))))
        (checked)
    where
      verified_in : W → Option (SignedActionPayload × Message × ℕ)
      verified_in w =
          accepted_payload x.verifier turn response.signed_action
            (authorised_attempt response.decisions) (x.wallet turn.party) (x.opened w)

      checked :
          (found : Option (SignedActionPayload × Message × ℕ))
          → Holds
              (Kept Inv L)
              (λ s. Kept Inv L s × ((w : W) × (verified_in w ≡ found)))
              (record_checked x turn response found)
              (λ _. Kept Inv L)
      checked none =
          weaken_lem (λ s p. p.0) (λ a s kept. kept)
            (finish_refused-Preserves x tame Inv closed L turn (codes "signed_action_mismatch"))
      checked (some (payload, message, attempt)) = record {
        holds = λ s p.
            let (a, o, e, h, f) =
              accepted_payload-cases x.verifier turn response.signed_action
                (authorised_attempt response.decisions) (x.wallet turn.party) (x.opened p.1.0)
                (payload, message, attempt) p.1.1 in
            (sign_in-lem L turn response payload message attempt a o i e p.1.0 h f).holds s p.0;
      }

  pub record_failed-Preserves :
      (L : List Charge) (turn : TurnRecord) (response : TurnResponse)
      → Preserves (Kept Inv L) (record_failed x turn response)
  unfolding record_failed
  record_failed-Preserves L turn response = record {
    holds = λ s kept.
        Kept-quiet x tame Inv closed L s _
          (record {
            same_charges =
                in_turn-charges turn.turn
                  (ended_with state_model_failed (failure_of response.failure).0
                    (failure_of response.failure).1)
                  (ended_with-charge state_model_failed (failure_of response.failure).0
                    (failure_of response.failure).1)
                  s.turns;
            same_deeds = refl;
            keeps_termination =
                termination_kept s.termination (some (termination_for x response.status));
          })
          kept;
  }
