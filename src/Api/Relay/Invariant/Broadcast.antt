-- ===== src/Api/Relay/Invariant/Broadcast.antt =====
-- Broadcasting against the relay's invariant.
use agentic_negotiators_sbx.Api.Effects.{
  Preserves, bind_lem, either_lem, pure, pure_lem, unit_of_work, unit_of_work_lem, ◌>>=◌,
}
use agentic_negotiators_sbx.Api.Relay.Broadcast.{
  Outcome, already_sent, broadcast, carry_action, judged, node_holds, node_refused, node_silent,
  offered, record_broadcast, recorded, resume, send,
}
use agentic_negotiators_sbx.Api.Relay.Chain.{Rejection, Relay, Verdict, taken_in, turned_away}
use agentic_negotiators_sbx.Api.Relay.Invariant.{Claim, Good, claim_of}
use agentic_negotiators_sbx.Api.Relay.Invariant.Outbox.{
  ask-Preserves, catch_outage-Preserves, hand_out-Preserves, mark_submitted-Preserves,
  record_attempt-Preserves, same,
}
use agentic_negotiators_sbx.Api.Relay.Outbox.{OutboxRecord, pending, record_attempt, submit_signed}
use agentic_negotiators_sbx.Prelude.{Among, List, Option, Text, false, none, refl, some, true, ℕ}

module _ {W : Type 0} (relay : Relay W) where
  carry_action-Preserves :
      (L : List Claim) (action : Option ℕ) → Preserves (Good {W = W} L) (carry_action relay action)
  unfolding carry_action
  carry_action-Preserves L none = record { holds = λ s good. good }
  carry_action-Preserves L (some id) = record {
    holds = λ s good. same L s (record s { actions = submit_signed id s.actions }) refl refl good;
  }

  pub record_broadcast-Preserves :
      (L : List Claim) (row : OutboxRecord) (block : ℕ)
      → Preserves (Good {W = W} L) (record_broadcast relay row block)
  unfolding record_broadcast
  record_broadcast-Preserves L row block =
      unit_of_work_lem (λ s good. good)
        (bind_lem (mark_submitted-Preserves L row.id block) (λ updated.
          bind_lem (carry_action-Preserves L row.signed_action_id)
            (λ done. pure_lem updated (λ s good. good))))

  already_sent-Preserves :
      (L : List Claim) (row : OutboxRecord) (error : Rejection)
      → Preserves (Good {W = W} L) (already_sent relay row error)
  unfolding already_sent
  already_sent-Preserves L row error =
      either_lem error.already_known (pure_lem true (λ s good. good)) (
        either_lem error.nonce_too_low (ask-Preserves L (relay.chain.receipt row.tx_hash))
          (pure_lem false (λ s good. good)))

  judged-Preserves :
      (L : List Claim) (row : OutboxRecord) (block : ℕ) (verdict : Verdict)
      → Preserves (Good {W = W} L) (judged relay row block verdict)
  unfolding judged
  judged-Preserves L row block taken_in = pure_lem (node_holds block) (λ s good. good)
  judged-Preserves L row block (turned_away error) =
      bind_lem (already_sent-Preserves L row error) (λ b. pure_lem _ (λ s good. good))

  offered-Preserves :
      (L : List Claim) (row : OutboxRecord)
      → Among (claim_of row) L
      → Preserves (Good {W = W} L) (offered relay row)
  unfolding offered
  offered-Preserves L row i = bind_lem (ask-Preserves L relay.chain.head) (λ block.
      bind_lem (hand_out-Preserves L relay.chain (claim_of row) i)
        (λ verdict. judged-Preserves L row block verdict))

  attempt-Preserves :
      {B : Type 0} (L : List Claim) (row : OutboxRecord) (why : Text) (k : OutboxRecord → B)
      → Preserves
          (Good {W = W} L)
          (unit_of_work (record_attempt row.id why) >>= λ updated. pure (k updated))
  attempt-Preserves L row why k =
      bind_lem (unit_of_work_lem (λ s good. good) (record_attempt-Preserves L row.id why))
        (λ updated. pure_lem (k updated) (λ s good. good))

  recorded-Preserves :
      (L : List Claim) (row : OutboxRecord) (outcome : Outcome)
      → Preserves (Good {W = W} L) (recorded relay row outcome)
  unfolding recorded
  recorded-Preserves L row (node_holds block) =
      bind_lem (record_broadcast-Preserves L row block) (λ updated. pure_lem _ (λ s good. good))
  recorded-Preserves L row (node_refused why) = attempt-Preserves L row why _
  recorded-Preserves L row (node_silent why) = attempt-Preserves L row why _

  pub send-Preserves :
      (L : List Claim) (row : OutboxRecord)
      → Among (claim_of row) L
      → Preserves (Good {W = W} L) (send relay row)
  unfolding send
  send-Preserves L row i =
      bind_lem
        (catch_outage-Preserves L (offered relay row) _ (offered-Preserves L row i)
          (λ why. pure_lem (node_silent why) (λ s good. good)))
        (recorded-Preserves L row)

  pub broadcast-Preserves :
      (L : List Claim) (row : OutboxRecord)
      → Among (claim_of row) L
      → Preserves (Good {W = W} L) (broadcast relay row)
  unfolding broadcast
  broadcast-Preserves L row i =
      bind_lem (send-Preserves L row i) (λ result. pure_lem result.0 (λ s good. good))

  pub resume-Preserves :
      (L : List Claim) (row : OutboxRecord)
      → Among (claim_of row) L
      → Preserves (Good {W = W} L) (resume relay row)
  unfolding resume
  resume-Preserves L row i =
      elim row.status
        as (λ x.
          Preserves (Good {W = W} L) (elim x [ pending ↦ broadcast relay row | _ ↦ pure row ])) [
            | pending ↦ broadcast-Preserves L row i
            | _ ↦ pure_lem row (λ s good. good)
          ]
