-- ===== src/Api/Relay/Chain.antt =====
-- What the relay is given: the node behind `ChainAdapter`, the signers, the contract's encoding,
-- its policy, and what other tasks of the process do meanwhile; and how it calls the node.
use agentic_negotiators_sbx.Agent.Signing.{Message}
use agentic_negotiators_sbx.Agent.Signing.Actions.{ActionKind}
use agentic_negotiators_sbx.Api.Effects.{Eff}
use agentic_negotiators_sbx.Api.Relay.Fees.{FeeQuote, Fees, RelayPolicy}
use agentic_negotiators_sbx.Api.Relay.Outbox.{RelayError, Store, rpc_unavailable}
use agentic_negotiators_sbx.Prelude.{Bool, Option, Result, Text, err, ok, ℕ, ◌∷◌}

-- The answer of a node, or the words of `RpcUnavailableError`.
pub data Reply (A : Type 0) : Type 0 where
  answered : A → Reply A
  unavailable : Text → Reply A

-- `TransactionRejectedError`
pub record Rejection : Type 0 where
  pub already_known : Bool
  pub nonce_too_low : Bool
  pub reason : Text

pub data Verdict : Type 0 where
  taken_in : Verdict
  turned_away : Rejection → Verdict

-- `CallRequest`
pub record CallRequest : Type 0 where
  pub sender : Text
  pub to : Text
  pub data_field : Text
  pub value : ℕ

-- A transaction before it is signed.
pub record TxFields : Type 0 where
  pub chain_id : ℕ
  pub nonce : ℕ
  pub to : Option Text
  pub value : ℕ
  pub data_field : Text
  pub gas : ℕ
  pub fees : Fees

-- `SignedTransaction`
pub record SignedTransaction : Type 0 where
  pub raw_transaction : Text
  pub tx_hash : Text

-- `TransactionSigner`
pub record TransactionSigner : Type 0 where
  pub address : Text
  pub sign_transaction : TxFields → SignedTransaction

-- `ChainAdapter`, as far as the relay calls it: an estimate of nothing is a call that reverts, and
-- of a receipt and a transaction only their being there is read.
pub record ChainAdapter (W : Type 0) : Type 0 where
  pub fee_quote : W → Reply FeeQuote × W
  pub estimate_gas : CallRequest → W → Reply (Option ℕ) × W
  pub pending_nonce : Text → W → Reply ℕ × W
  pub head : W → Reply ℕ × W
  pub send_raw : Text → W → Reply Verdict × W
  pub receipt : Text → W → Reply Bool × W
  pub transaction : Text → W → Reply Bool × W
  pub mined_nonce : Text → W → Reply ℕ × W

-- The fields of `Relay`. The bytes of a transaction are read by `decode_raw_transaction`, hashed
-- by `keccak` and give their signer by `recover`; `collates` is the database's order of texts,
-- `on_deployment` tells this deployment's runs, and `meanwhile` is what other tasks do to the store
-- while the node is asked for a nonce.
pub record Relay (W : Type 0) : Type 0 where
  pub chain : ChainAdapter W
  pub chain_id : ℕ
  pub exchange : Text
  pub relay_signer : TransactionSigner
  pub operator_signer : Option TransactionSigner
  pub policy : RelayPolicy
  pub replace_after_blocks : ℕ
  pub encode_signed_action : ActionKind → Message → Text → Text
  pub decode_raw_transaction : Text → Option TxFields
  pub keccak : Text → Text
  pub recover : Text → Text
  pub collates : Text → Text → Bool
  pub on_deployment : ℕ → Bool
  pub meanwhile : Store W → Store W

module _ {W : Type 0} where
  abbrev pub take_reply : {A : Type 0} → Reply A × W → Store W → Result RelayError A × Store W
  take_reply (answered a, w) s = (ok a, record s { world = w })
  take_reply (unavailable why, w) s = (err (rpc_unavailable why), record s { world = w })

  unfoldable pub ask : {A : Type 0} → (W → Reply A × W) → Eff (Store W) RelayError A
  ask call s = take_reply (call s.world) s

  -- `send_raw`, and that the bytes were handed out.
  unfoldable pub hand_out : ChainAdapter W → Text → Eff (Store W) RelayError Verdict
  hand_out chain raw s = take_reply (chain.send_raw raw s.world) (record s { sent = raw ∷ s.sent })

  abbrev pub rescued :
      {A : Type 0}
      → (Text → Eff (Store W) RelayError A)
      → Result RelayError A × Store W
      → Result RelayError A × Store W
  rescued handler (err (rpc_unavailable why), s) = handler why s
  rescued handler (err e, s) = (err e, s)
  rescued handler (ok a, s) = (ok a, s)

  -- `try` ... `except RpcUnavailableError as error`
  unfoldable pub catch_outage :
      {A : Type 0}
      → Eff (Store W) RelayError A
      → (Text → Eff (Store W) RelayError A)
      → Eff (Store W) RelayError A
  catch_outage body handler s = rescued handler (body s)
