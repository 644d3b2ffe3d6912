-- ===== src/Api/Relay/Submission.antt =====
-- relay/relay.py, submission: `submit_action`, `submit_call` and `submit_presigned`, with
-- `take_relay_nonce` of db/repositories/runs.py.
use agentic_negotiators_sbx.Agent.Signing.Actions.{
  ActionKind, accept_action, close_action, offer_action,
}
use agentic_negotiators_sbx.Api.Effects.{Eff, pure, raise, reading, unit_of_work, ◌>>=◌}
use agentic_negotiators_sbx.Api.Relay.Broadcast.{broadcast, resume}
use agentic_negotiators_sbx.Api.Relay.Chain.{Relay, TransactionSigner, TxFields, ask}
use agentic_negotiators_sbx.Api.Relay.Fees.{gas_limit, initial_fees}
use agentic_negotiators_sbx.Api.Relay.Outbox.{
  OutboxRecord, RelayError, SignedActionRow, Store, TxKind, accept_and_settle, action_of, add_row,
  close_session, duplicate_live, first_of, for_signed_action, lease_lost, live_for_signed_action,
  max_nonce, pending, record_offer, relay_refused,
}
use agentic_negotiators_sbx.Prelude.{
  Bool, List, Option, Result, Text, [], err, get_last?, if◌then◌else◌, keep_if, length, max, nat_eq,
  none, not, ok, some, text_eq, ℕ, ◌+◌, ◌==◌, ◌∷◌,
}

-- `TX_KIND_FOR_ACTION`
abbrev pub tx_kind_for_action : ActionKind → TxKind
tx_kind_for_action offer_action = record_offer
tx_kind_for_action accept_action = accept_and_settle
tx_kind_for_action close_action = close_session

-- A new row of the outbox: pending and never attempted.
pub record NewOutboxTx : Type 0 where
  pub run_id : ℕ
  pub kind : TxKind
  pub sender : Text
  pub nonce : ℕ
  pub raw_tx : Text
  pub tx_hash : Text
  pub signed_action_id : Option ℕ
  pub replaces_id : Option ℕ

-- Rows are numbered in the order they are added.
abbrev pub row_from : ℕ → NewOutboxTx → OutboxRecord
row_from id new = record {
  id = id;
  run_id = new.run_id;
  kind = new.kind;
  sender = new.sender;
  nonce = new.nonce;
  raw_tx = new.raw_tx;
  tx_hash = new.tx_hash;
  signed_action_id = new.signed_action_id;
  replaces_id = new.replaces_id;
  status = pending;
  attempts = 0;
  last_error = none;
  block_number = none;
  submitted_block = none;
}

abbrev pub next_nonce : ℕ → List (ℕ × ℕ) → Option ℕ
next_nonce run_id [] = none
next_nonce run_id ((held, next) ∷ leases) =
    if held == run_id then some next else next_nonce run_id leases

abbrev pub with_nonce : ℕ → ℕ → List (ℕ × ℕ) → List (ℕ × ℕ)
with_nonce run_id next [] = []
with_nonce run_id next ((held, n) ∷ leases) =
    (held, (if held == run_id then next else n)) ∷ with_nonce run_id next leases

module _ {W : Type 0} where
  -- `uow.outbox.add`
  unfoldable pub add : NewOutboxTx → Eff (Store W) RelayError OutboxRecord
  add new = do id ← reading (λ s. length s.outbox); add_row (row_from id new)

  -- `take_relay_nonce`
  unfoldable pub take_relay_nonce : ℕ → ℕ → Eff (Store W) RelayError ℕ
  take_relay_nonce run_id chain_nonce s = elim (next_nonce run_id s.leases) [
    | none ↦ (err lease_lost, s)
    | some stored ↦ (
      ok (max stored chain_nonce),
      record s { leases = with_nonce run_id (max stored chain_nonce + 1) s.leases },
    )
  ]

  module _ (relay : Relay W) where
    -- What a signer other than the relay's takes: after what is recorded for it.
    unfoldable pub nonce_after : Text → ℕ → Store W → ℕ
    nonce_after sender chain_nonce s = elim (max_nonce relay.on_deployment sender s) [
      | none ↦ chain_nonce
      | some taken ↦ max chain_nonce (taken + 1)
    ]

    -- `_take_nonce`
    unfoldable pub take_nonce : ℕ → TransactionSigner → ℕ → Eff (Store W) RelayError ℕ
    take_nonce run_id signer chain_nonce =
        if signer.address == relay.relay_signer.address
        then take_relay_nonce run_id chain_nonce
        else reading (nonce_after signer.address chain_nonce)

    -- The unit of work of `_persist`.
    unfoldable pub write_signed :
        ℕ
        → TxKind
        → TransactionSigner
        → Option ℕ
        → (ℕ → TxFields)
        → ℕ
        → Eff (Store W) RelayError OutboxRecord
    write_signed run_id kind signer action fields chain_nonce = unit_of_work (do
      nonce ← take_nonce run_id signer chain_nonce
      let signed = signer.sign_transaction (fields nonce)
      add (record {
        run_id = run_id;
        kind = kind;
        sender = signer.address;
        nonce = nonce;
        raw_tx = signed.raw_transaction;
        tx_hash = signed.tx_hash;
        signed_action_id = action;
        replaces_id = none;
      }))

    -- Other tasks run while the node is asked.
    unfoldable pub yield_to_others : Eff (Store W) RelayError (Unit {0})
    yield_to_others s = (ok tt, relay.meanwhile s)

    -- `_persist`
    unfoldable pub persist :
        ℕ
        → TxKind
        → TransactionSigner
        → Text
        → Text
        → Option ℕ
        → ℕ
        → Eff (Store W) RelayError OutboxRecord
    persist run_id kind signer to data_field action value = do
      quote ← ask relay.chain.fee_quote
      estimate ← ask (
          relay.chain.estimate_gas
            (record { sender = signer.address; to = to; data_field = data_field; value = value }))
      chain_nonce ← ask (relay.chain.pending_nonce signer.address)
      done ← yield_to_others
      write_signed run_id kind signer action
          (λ nonce. record {
            chain_id = relay.chain_id;
            nonce = nonce;
            to = some to;
            value = value;
            data_field = data_field;
            gas = gas_limit estimate relay.policy;
            fees = initial_fees quote relay.policy;
          })
          chain_nonce

    abbrev pub continued :
        ℕ → Result RelayError OutboxRecord × Store W → Result RelayError OutboxRecord × Store W
    continued action (ok row, s) = broadcast relay row s
    continued action (err duplicate_live, s) = elim (live_for_signed_action action s) [
      | none ↦ (err duplicate_live, s)
      | some live ↦ resume relay live s
    ]
    continued action (err e, s) = (err e, s)

    -- An action with no transaction yet.
    unfoldable pub submit_fresh : ℕ → ℕ → SignedActionRow → Eff (Store W) RelayError OutboxRecord
    submit_fresh run_id id action s = continued id (
        persist run_id (tx_kind_for_action action.kind) relay.relay_signer relay.exchange
          (relay.encode_signed_action action.kind action.message action.signature) (some id) 0 s)

    unfoldable pub submit_from :
        ℕ → ℕ → Option SignedActionRow → List OutboxRecord → Eff (Store W) RelayError OutboxRecord
    submit_from run_id id none history = raise relay_refused
    submit_from run_id id (some action) history =
        if not (action.run_id == run_id) then raise relay_refused else elim (get_last? history) [
          | none ↦ submit_fresh run_id id action
          | some row ↦ resume relay row
        ]

    -- `submit_action`
    unfoldable pub submit_action : ℕ → ℕ → Eff (Store W) RelayError OutboxRecord
    submit_action run_id id = do
      action ← reading (λ s. action_of id s.actions)
      history ← reading (for_signed_action id)
      submit_from run_id id action history

    unfoldable pub call_by :
        ℕ
        → TxKind
        → Text
        → Text
        → ℕ
        → Option TransactionSigner
        → Eff (Store W) RelayError OutboxRecord
    call_by run_id kind to data_field value none = raise relay_refused
    call_by run_id kind to data_field value (some signer) = do
      row ← persist run_id kind signer to data_field none value
      broadcast relay row

    -- `submit_call`, with its value in wei, which is not negative.
    unfoldable pub submit_call :
        ℕ → TxKind → Text → Text → Bool → ℕ → Eff (Store W) RelayError OutboxRecord
    submit_call run_id kind to data_field as_operator value =
        call_by run_id kind to data_field value
          (if as_operator then relay.operator_signer else some relay.relay_signer)

    unfoldable pub with_hash : Text → Store W → Option OutboxRecord
    with_hash tx_hash s = first_of (keep_if (λ r. r.tx_hash == tx_hash) s.outbox)

    unfoldable pub found_or_added :
        ℕ → TxKind → Text → ℕ → Option OutboxRecord → Eff (Store W) RelayError OutboxRecord
    found_or_added run_id kind raw nonce (some row) = pure row
    found_or_added run_id kind raw nonce none = add (record {
      run_id = run_id;
      kind = kind;
      sender = relay.recover raw;
      nonce = nonce;
      raw_tx = raw;
      tx_hash = relay.keccak raw;
      signed_action_id = none;
      replaces_id = none;
    })

    unfoldable pub submit_read :
        ℕ → TxKind → Text → Option TxFields → Eff (Store W) RelayError OutboxRecord
    submit_read run_id kind raw none = raise relay_refused
    submit_read run_id kind raw (some fields) =
        if not (fields.chain_id == relay.chain_id)
        then raise relay_refused
        else unit_of_work
            (reading (with_hash (relay.keccak raw)) >>= found_or_added run_id kind raw fields.nonce)
          >>= resume relay

    -- `submit_presigned`
    unfoldable pub submit_presigned : ℕ → TxKind → Text → Eff (Store W) RelayError OutboxRecord
    submit_presigned run_id kind raw =
        submit_read run_id kind raw (relay.decode_raw_transaction raw)
