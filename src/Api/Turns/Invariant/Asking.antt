-- ===== src/Api/Turns/Invariant/Asking.antt =====
-- Asking an agent, against a property that the executor's steps keep.
use mathlib.Core.Path.{subst}
use agentic_negotiators_sbx.Api.Effects.{
  Eff, Holds, Preserves, bind_lem, if_lem, pure, pure_lem, reading_lem, ◌>>=◌,
}
use agentic_negotiators_sbx.Api.Relay.Outbox.{RelayError}
use agentic_negotiators_sbx.Api.Turns.Asking.{
  ask_agent, ask_turn, decide, heard, heard_again, refused_inconsistent, refused_late,
  refused_otherwise, refused_turn, restore_and_ask, restored_or,
}
use agentic_negotiators_sbx.Api.Turns.Executor.{Executor, move_turn}
use agentic_negotiators_sbx.Api.Turns.Invariant.{Charge, Closed, IsTame, Kept, charge_of}
use agentic_negotiators_sbx.Api.Turns.Invariant.Recording.{
  record_failed-Preserves, record_signed-Preserves,
}
use agentic_negotiators_sbx.Api.Turns.Invariant.Steps.{
  ask_agent-Preserves, ask_sessions-Preserves, finish-Preserves, finish_refused-Preserves,
  finished-Preserves, move_turn-Preserves,
}
use agentic_negotiators_sbx.Api.Turns.Recording.{record_answer, record_response}
use agentic_negotiators_sbx.Api.Turns.Records.{
  AgentRefusal, AgentReply, ResponseStatus, Restoration, TurnRecord, TurnResponse, TurnStep,
  TurnStore, agent_refused, agent_responded, agent_restored, deciding, no_agent, observing,
  response_exhausted, response_failed, response_signed, restore_refused, restore_unavailable,
}
use agentic_negotiators_sbx.Api.Turns.Rows.{backwards, inconsistent_in_a_row, is_forgotten, is_text}
use agentic_negotiators_sbx.Prelude.{
  Among, List, any_of, codes, nat_eq, none, not, refl, some, sym, text_eq, ◌==◌, ◌≡◌,
}

module _ {W : Type 0} (x : Executor W) (tame : IsTame x) (Inv : TurnStore W → Type 0)
    (closed : Closed x Inv) where
  record_response-Preserves :
      (L : List Charge) (turn : TurnRecord) (response : TurnResponse)
      → Among (charge_of turn) L
      → Preserves (Kept Inv L) (record_response x turn response)
  unfolding record_response record_answer
  record_response-Preserves L turn response i =
      if_lem (not (response.turn == turn.turn))
        (finish_refused-Preserves x tame Inv closed L turn (codes "wrong_turn"))
        (if_lem (any_of (λ d. not (d.observation_hash == turn.observation_hash)) response.decisions)
          (finish_refused-Preserves x tame Inv closed L turn (codes "observation_hash_mismatch"))
          (answer response.status))
    where
      answer :
          (status : ResponseStatus) → Preserves (Kept Inv L) (record_answer x turn response status)
      answer response_signed = record_signed-Preserves x tame Inv closed L turn response i
      answer response_failed = record_failed-Preserves x tame Inv closed L turn response
      answer response_exhausted = record_failed-Preserves x tame Inv closed L turn response

  refused_turn-Preserves :
      (L : List Charge) (turn : TurnRecord) (refusal : AgentRefusal)
      → Preserves (Kept Inv L) (refused_turn x turn refusal)
  unfolding refused_turn refused_otherwise refused_inconsistent refused_late
  refused_turn-Preserves L turn refusal =
      if_lem (refusal.code == codes "observation_inconsistent")
        (bind_lem
          (finish-Preserves x tame Inv closed L turn turn.state
            (some (codes "observation_inconsistent")) refusal.fields none)
          (λ done.
            bind_lem (reading_lem (λ s. inconsistent_in_a_row (backwards s.turns)) (λ s kept. kept))
              (λ count. pure_lem _ (λ s kept. kept))))
        (if_lem (is_text (codes "session_deadline_passed") refusal.state)
          (finished-Preserves x tame Inv closed L turn turn.state
            (some (codes "session_deadline_passed")) none none _)
          (finish_refused-Preserves x tame Inv closed L turn _))

  heard-Preserves :
      (L : List Charge) (turn : TurnRecord) (forgotten : Eff (TurnStore W) RelayError TurnStep)
      (reply : AgentReply)
      → Among (charge_of turn) L
      → Preserves (Kept Inv L) forgotten
      → Preserves (Kept Inv L) (heard x turn forgotten reply)
  unfolding heard
  heard-Preserves L turn forgotten no_agent i h = pure_lem _ (λ s kept. kept)
  heard-Preserves L turn forgotten (agent_refused refusal) i h =
      if_lem (is_forgotten refusal) h (refused_turn-Preserves L turn refusal)
  heard-Preserves L turn forgotten (agent_responded response) i h =
      record_response-Preserves L turn response i

  heard_again-Preserves :
      (L : List Charge) (turn : TurnRecord) (reply : AgentReply)
      → Among (charge_of turn) L
      → Preserves (Kept Inv L) (heard_again x turn reply)
  unfolding heard_again
  heard_again-Preserves L turn no_agent i = pure_lem _ (λ s kept. kept)
  heard_again-Preserves L turn (agent_refused refusal) i = refused_turn-Preserves L turn refusal
  heard_again-Preserves L turn (agent_responded response) i =
      record_response-Preserves L turn response i

  restored_or-Preserves :
      (L : List Charge) (turn : TurnRecord) (restoration : Restoration)
      → Among (charge_of turn) L
      → Preserves (Kept Inv L) (restored_or x turn restoration)
  unfolding restored_or
  restored_or-Preserves L turn restore_unavailable i = pure_lem _ (λ s kept. kept)
  restored_or-Preserves L turn (restore_refused refusal) i =
      finish_refused-Preserves x tame Inv closed L turn _
  restored_or-Preserves L turn agent_restored i =
      bind_lem (ask_agent-Preserves x tame Inv closed L turn)
        (λ reply. heard_again-Preserves L turn reply i)

  restore_and_ask-Preserves :
      (L : List Charge) (turn : TurnRecord)
      → Among (charge_of turn) L
      → Preserves (Kept Inv L) (restore_and_ask x turn)
  unfolding restore_and_ask
  restore_and_ask-Preserves L turn i =
      bind_lem (ask_sessions-Preserves x tame Inv closed L turn.party)
        (λ restoration. restored_or-Preserves L turn restoration i)

  decide-lem :
      (L : List Charge) (turn : TurnRecord)
      → Holds
          (Kept Inv L)
          (Kept Inv L)
          (decide x turn)
          (λ t s. Kept Inv L s × (charge_of t ≡ charge_of turn))
  unfolding decide
  decide-lem L turn =
      elim turn.state
        as (λ state.
          Holds {E = RelayError} {A = TurnRecord} (Kept Inv L) (Kept Inv L)
            (elim state [
              | observing ↦
                  move_turn turn.turn deciding >>= λ done. pure (record turn { state = deciding })
              | _ ↦ pure turn
            ])
            (λ t s. Kept Inv L s × (charge_of t ≡ charge_of turn))) [
              | observing ↦
                  bind_lem (move_turn-Preserves x tame Inv closed L turn.turn deciding)
                    (λ done. pure_lem _ (λ s kept. (kept, refl)))
              | _ ↦ pure_lem turn (λ s kept. (kept, refl))
            ]

  pub ask_turn-Preserves :
      (L : List Charge) (turn : TurnRecord)
      → Among (charge_of turn) L
      → Preserves (Kept Inv L) (ask_turn x turn)
  unfolding ask_turn
  ask_turn-Preserves L turn i = bind_lem (decide-lem L turn) decided
    where
      decided :
          (t : TurnRecord)
          → Holds
              (Kept Inv L)
              (λ s. Kept Inv L s × (charge_of t ≡ charge_of turn))
              (ask_agent x t >>= heard x t (restore_and_ask x t))
              (λ _. Kept Inv L)
      decided t = record {
        holds = λ s p.
            let j = subst (λ c. Among c L) (sym p.1) i in
            (bind_lem {Q = λ _. Kept Inv L} (ask_agent-Preserves x tame Inv closed L t) (λ reply.
                heard-Preserves L t (restore_and_ask x t) reply j
                  (restore_and_ask-Preserves L t j))).holds
              s p.0;
      }
