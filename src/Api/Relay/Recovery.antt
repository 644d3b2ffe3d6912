-- ===== src/Api/Relay/Recovery.antt =====
-- relay/relay.py, recovery and gas replacement: `reconcile` to `_replace`.
use agentic_negotiators_sbx.Api.Effects.{Eff, for_each, pure, raise, reading, unit_of_work, ◌>>=◌}
use agentic_negotiators_sbx.Api.Relay.Broadcast.{
  Sent, broadcast, record_broadcast, send, sent_accepted, sent_refused, sent_unreachable,
}
use agentic_negotiators_sbx.Api.Relay.Chain.{
  Relay, SignedTransaction, TransactionSigner, TxFields, ask, catch_outage,
}
use agentic_negotiators_sbx.Api.Relay.Fees.{Fees, bumped_fees}
use agentic_negotiators_sbx.Api.Relay.Outbox.{
  OutboxRecord, RelayError, Store, TxStatus, dropped, nonce_group, pending, present, relay_refused,
  submitted, unfinished, update_status,
}
use agentic_negotiators_sbx.Api.Relay.Submission.{NewOutboxTx, add}
use agentic_negotiators_sbx.Prelude.{
  Bool, List, Option, Text, [], false, if◌then◌else◌, keep_if, leb, ltb, nat_eq, none, some,
  text_eq, true, ℕ, ◌+◌, ◌==◌, ◌∷◌,
}

pub data Reconciliation : Type 0 where
  mined in_pool rebroadcast superseded nonce_conflict unreachable refused : Reconciliation

pub record ReconcileResult : Type 0 where
  pub outbox_id : ℕ
  pub tx_hash : Text
  pub outcome : Reconciliation
  pub detail_field : Option Text

-- What a resend is reported as.
abbrev pub resent : Sent → Option Text → Reconciliation × Option Text
resent sent_accepted reason = (rebroadcast, none)
resent sent_unreachable reason = (unreachable, none)
resent sent_refused reason = (refused, reason)

-- The rows that `reconcile` looks up.
abbrev pub is_unsettled : OutboxRecord → Bool
is_unsettled row = elim row.status [ pending ↦ true | submitted ↦ true | _ ↦ false ]

module _ {W : Type 0} (relay : Relay W) where
  -- Whether another of the group has a receipt, asked until one has.
  unfoldable pub sibling_mined : ℕ → List OutboxRecord → Eff (Store W) RelayError Bool
  sibling_mined id [] = pure false
  sibling_mined id (sibling ∷ group) =
      let rest = sibling_mined id group in
      if sibling.id == id
      then rest
      else do found ← ask (relay.chain.receipt sibling.tx_hash); if found then pure true else rest

  -- `_nonce_consumed`
  unfoldable pub nonce_consumed : OutboxRecord → Eff (Store W) RelayError Reconciliation
  unfolding sibling_mined
  nonce_consumed row = do
    group ← reading (nonce_group relay.on_deployment row.sender row.nonce)
    found ← sibling_mined row.id group
    elim found [
      | true ↦ do done ← unit_of_work (update_status row.id dropped); pure superseded
      | false ↦ pure nonce_conflict
    ]

  -- `_mark_submitted_without_sending`, of a pending row.
  unfoldable pub marked : OutboxRecord → Eff (Store W) RelayError Reconciliation
  marked row = elim row.status [
    | pending ↦ do
      head_block ← ask relay.chain.head
      done ← record_broadcast relay row head_block
      pure in_pool
    | _ ↦ pure in_pool
  ]

  unfoldable pub nonce_looked_up :
      OutboxRecord → ℕ → Eff (Store W) RelayError (Option Reconciliation)
  nonce_looked_up row used = elim (ltb row.nonce used) [
    | true ↦ do outcome ← nonce_consumed row; pure (some outcome)
    | false ↦ pure none
  ]

  unfoldable pub not_mined : OutboxRecord → Eff (Store W) RelayError (Option Reconciliation)
  unfolding marked nonce_looked_up
  not_mined row = do
    pooled ← ask (relay.chain.transaction row.tx_hash)
    elim pooled [
      | true ↦ do outcome ← marked row; pure (some outcome)
      | false ↦ do used ← ask (relay.chain.mined_nonce row.sender); nonce_looked_up row used
    ]

  -- The `try` of `_reconcile_one`: none where nothing was found out and the nonce is free.
  unfoldable pub looked_up : OutboxRecord → Eff (Store W) RelayError (Option Reconciliation)
  unfolding not_mined
  looked_up row = do
    found ← ask (relay.chain.receipt row.tx_hash)
    elim found [ true ↦ pure (some mined) | false ↦ not_mined row ]

  unfoldable pub sent_again :
      OutboxRecord → Option Reconciliation → Eff (Store W) RelayError (Reconciliation × Option Text)
  sent_again row (some outcome) = pure (outcome, none)
  sent_again row none = do (updated, what, reason) ← send relay row; pure (resent what reason)

  -- `_reconcile_one`
  unfoldable pub reconcile_one :
      OutboxRecord → Eff (Store W) RelayError (Reconciliation × Option Text)
  unfolding looked_up sent_again
  reconcile_one row = do
    outcome ← catch_outage (looked_up row) (λ why. pure (some unreachable))
    sent_again row outcome

  unfoldable pub reconciled : OutboxRecord → Eff (Store W) RelayError ReconcileResult
  reconciled row = do
    (outcome, why) ← reconcile_one row
    pure (record {
      outbox_id = row.id;
      tx_hash = row.tx_hash;
      outcome = outcome;
      detail_field = why;
    })

  -- `reconcile`
  unfoldable pub reconcile : ℕ → Eff (Store W) RelayError (List ReconcileResult)
  unfolding reconciled
  reconcile run_id = do
    rows ← reading (λ s. keep_if is_unsettled (unfinished relay.collates run_id s))
    for_each reconciled rows

  -- What `replace_stuck` replaces at a head.
  abbrev pub is_stuck : ℕ → OutboxRecord → Bool
  is_stuck head_block row = elim row.status [
    | submitted ↦ elim row.block_number [
      | some block ↦ false
      | none ↦ elim row.submitted_block [
        | none ↦ false
        | some block ↦ leb (block + relay.replace_after_blocks) head_block
      ]
    ]
    | _ ↦ false
  ]

  -- `_signer_for`
  unfoldable pub signer_for : Text → Option TransactionSigner
  signer_for sender =
      if relay.relay_signer.address == sender
      then some relay.relay_signer
      else elim relay.operator_signer [
        | none ↦ none
        | some signer ↦ if signer.address == sender then some signer else none
      ]

  -- The row that replaces another: the same claim at a higher fee.
  abbrev pub successor_of : OutboxRecord → SignedTransaction → NewOutboxTx
  successor_of row made = record {
    run_id = row.run_id;
    kind = row.kind;
    sender = row.sender;
    nonce = row.nonce;
    raw_tx = made.raw_transaction;
    tx_hash = made.tx_hash;
    signed_action_id = row.signed_action_id;
    replaces_id = some row.id;
  }

  unfoldable pub succeed :
      OutboxRecord → SignedTransaction → Eff (Store W) RelayError (Option OutboxRecord)
  succeed row made = do
    successor ←
        unit_of_work (do done ← update_status row.id TxStatus.replaced; add (successor_of row made))
    updated ← broadcast relay successor
    pure (some updated)

  unfoldable pub bumped :
      OutboxRecord
      → TransactionSigner
      → TxFields
      → Option Fees
      → Eff (Store W) RelayError (Option OutboxRecord)
  bumped row signer fields none = pure none
  bumped row signer fields (some fees) =
      succeed row (signer.sign_transaction (record fields { fees = fees }))

  unfoldable pub resign :
      OutboxRecord
      → TransactionSigner
      → Option TxFields
      → Eff (Store W) RelayError (Option OutboxRecord)
  resign row signer none = raise relay_refused
  resign row signer (some fields) = bumped row signer fields (bumped_fees fields.fees relay.policy)

  unfoldable pub replaced_by :
      OutboxRecord → Option TransactionSigner → Eff (Store W) RelayError (Option OutboxRecord)
  replaced_by row none = pure none
  replaced_by row (some signer) = do
    found ← ask (relay.chain.receipt row.tx_hash)
    if found then pure none else resign row signer (relay.decode_raw_transaction row.raw_tx)

  -- `_replace`
  unfoldable pub replace : OutboxRecord → Eff (Store W) RelayError (Option OutboxRecord)
  unfolding replaced_by
  replace row = replaced_by row (signer_for row.sender)

  -- `replace_stuck`
  unfoldable pub replace_stuck : ℕ → Eff (Store W) RelayError (List OutboxRecord)
  replace_stuck run_id = do
    head_block ← ask relay.chain.head
    stuck ← reading (λ s. keep_if (is_stuck head_block) (unfinished relay.collates run_id s))
    successors ← for_each replace stuck
    pure (present successors)
