-- ===== src/Api/Relay/Invariant/Replacement.antt =====
-- Gas replacement against the relay's invariant.
use agentic_negotiators_sbx.Api.Effects.{
  Preserves, bind_lem, if_lem, pure_lem, raise_lem, reading_lem, unit_of_work_lem, weaken_lem,
}
use agentic_negotiators_sbx.Api.Relay.Chain.{Relay, SignedTransaction, TransactionSigner, TxFields}
use agentic_negotiators_sbx.Api.Relay.Fees.{Fees, bumped_fees}
use agentic_negotiators_sbx.Api.Relay.Invariant.{Claim, Good, IsFree, claim_of, claims}
use agentic_negotiators_sbx.Api.Relay.Invariant.Adding.{add_claimed, claim_from}
use agentic_negotiators_sbx.Api.Relay.Invariant.Broadcast.{broadcast-Preserves}
use agentic_negotiators_sbx.Api.Relay.Invariant.Outbox.{
  added_lem, ask-Preserves, update_status-Preserves,
}
use agentic_negotiators_sbx.Api.Relay.Invariant.Recovery.{Among-unfinished, each_row-lem}
use agentic_negotiators_sbx.Api.Relay.Outbox.{
  OutboxRecord, Store, TxStatus, present, relay_refused, unfinished,
}
use agentic_negotiators_sbx.Api.Relay.Recovery.{
  bumped, is_stuck, replace, replace_stuck, replaced_by, resign, signer_for, succeed, successor_of,
}
use agentic_negotiators_sbx.Prelude.{
  Among, Among-keep_if, List, Option, inl, keep_if, none, refl, some, ℕ, ◌∷◌,
}

module _ {W : Type 0} (relay : Relay W) where
  -- A row that takes another's place claims the same nonce.
  succeeds-IsFree :
      (L : List Claim) (row : OutboxRecord) (made : SignedTransaction) (s : Store W)
      → Good L s
      → Among (claim_of row) L
      → IsFree (claim_from (successor_of relay row made)) (claims s)
  succeeds-IsFree L row made s good i d a j e f =
      good.sound.once (claim_of row) (good.has (claim_of row) i) d a j e f

  succeed-Preserves :
      (L : List Claim) (row : OutboxRecord) (made : SignedTransaction)
      → Among (claim_of row) L
      → Preserves (Good {W = W} L) (succeed relay row made)
  unfolding succeed
  succeed-Preserves L row made i =
      bind_lem
        (unit_of_work_lem (λ s good. good)
          (bind_lem (update_status-Preserves L row.id TxStatus.replaced) (λ done.
            weaken_lem (λ s good. (good, succeeds-IsFree L row made s good i)) (λ r s good. good)
              (add_claimed L (successor_of relay row made)))))
        (λ successor. added_lem L (claim_of successor) _ (
          bind_lem (broadcast-Preserves relay (claim_of successor ∷ L) successor (inl refl))
            (λ updated. pure_lem (some updated) (λ s good. good))))

  bumped-Preserves :
      (L : List Claim) (row : OutboxRecord) (signer : TransactionSigner) (fields : TxFields)
      (fees : Option Fees)
      → Among (claim_of row) L
      → Preserves (Good {W = W} L) (bumped relay row signer fields fees)
  unfolding bumped
  bumped-Preserves L row signer fields none i = pure_lem none (λ s good. good)
  bumped-Preserves L row signer fields (some fees) i = succeed-Preserves L row _ i

  resign-Preserves :
      (L : List Claim) (row : OutboxRecord) (signer : TransactionSigner) (fields : Option TxFields)
      → Among (claim_of row) L
      → Preserves (Good {W = W} L) (resign relay row signer fields)
  unfolding resign
  resign-Preserves L row signer none i = raise_lem relay_refused (λ s good. good)
  resign-Preserves L row signer (some fields) i =
      bumped-Preserves L row signer fields (bumped_fees fields.fees relay.policy) i

  replaced_by-Preserves :
      (L : List Claim) (row : OutboxRecord) (signer : Option TransactionSigner)
      → Among (claim_of row) L
      → Preserves (Good {W = W} L) (replaced_by relay row signer)
  unfolding replaced_by
  replaced_by-Preserves L row none i = pure_lem none (λ s good. good)
  replaced_by-Preserves L row (some signer) i =
      bind_lem (ask-Preserves L (relay.chain.receipt row.tx_hash)) (λ found.
        if_lem found (pure_lem none (λ s good. good))
          (resign-Preserves L row signer (relay.decode_raw_transaction row.raw_tx) i))

  pub replace_stuck-Preserves :
      (L : List Claim) (run_id : ℕ) → Preserves (Good {W = W} L) (replace_stuck relay run_id)
  unfolding replace_stuck replace
  replace_stuck-Preserves L run_id = bind_lem (ask-Preserves L relay.chain.head) (λ head_block.
      bind_lem
        (reading_lem (λ s. keep_if (is_stuck relay head_block) (unfinished relay.collates run_id s))
          (λ s good. (
            good,
            λ r i. Among-unfinished relay run_id s r (
                Among-keep_if r (is_stuck relay head_block) (unfinished relay.collates run_id s) i),
          )))
        (λ stuck.
          bind_lem
            (each_row-lem relay L (replace relay) stuck
              (λ M r i. replaced_by-Preserves M r (signer_for relay r.sender) i))
            (λ successors. pure_lem (present successors) (λ s good. good))))
