-- ===== src/Agent/Signing/Setup.antt =====
-- signing/setup.py: the approval of the exchange that an instance signs while its run is set up.
-- The calldata of an `approve` and the signature of a transaction are those of a `SetupSigner`.
pub mod Approvals
use agentic_negotiators_sbx.Agent.Observation.{Role, buyer, seller}
use agentic_negotiators_sbx.Agent.Signing.{ExpectedSession}
use agentic_negotiators_sbx.Prelude.{
  Result, Text, codes, err, if◌then◌else◌, ltb, ok, ℕ, ◌*◌, ◌++◌, ◌>>=◌,
}

pub record SetupBounds : Type 0 where
  pub gas_limit_max : ℕ
  pub max_cost_wei : ℕ

pub record FeeTerms : Type 0 where
  pub nonce : ℕ
  pub gas_limit : ℕ
  pub max_fee_per_gas : ℕ
  pub max_priority_fee_per_gas : ℕ

pub record SetupApproval : Type 0 where
  pub raw_tx : Text
  pub tx_hash : Text
  pub sender : Text
  pub token : Text
  pub spender : Text
  pub amount : ℕ
  pub nonce : ℕ

-- The transaction that is signed; its type is 2 and its access list is empty.
pub record Transaction : Type 0 where
  pub chain_id : ℕ
  pub nonce : ℕ
  pub to : Text
  pub value : ℕ
  pub calldata : Text
  pub gas : ℕ
  pub max_fee_per_gas : ℕ
  pub max_priority_fee_per_gas : ℕ

pub record SetupSigner : Type 0 where
  pub address : Text
  -- The hexadecimal calldata of `approve(address,uint256)`.
  pub approve_data : Text → ℕ → Text
  -- The hexadecimal raw transaction and its hash.
  pub sign_transaction : Transaction → Text × Text

-- The `RequestValidationError` of each bound.
pub data TermsError : Type 0 where
  gas_above_bound cost_above_bound priority_above_cap : TermsError

-- `_check_terms`
check_terms : FeeTerms → SetupBounds → Result TermsError (Unit {0})
check_terms terms bounds =
    if ltb bounds.gas_limit_max terms.gas_limit
    then err gas_above_bound
    else if ltb bounds.max_cost_wei (terms.gas_limit * terms.max_fee_per_gas)
    then err cost_above_bound
    else if ltb terms.max_fee_per_gas terms.max_priority_fee_per_gas
    then err priority_above_cap
    else ok tt

-- `expected.quote_token if role == "buyer" else expected.base_token`
paid_token : Role → ExpectedSession → Text
paid_token buyer expected = expected.quote_token
paid_token seller expected = expected.base_token

setup_transaction : Role → ExpectedSession → ℕ → FeeTerms → SetupSigner → Transaction
unfolding paid_token
setup_transaction role expected allowance terms signer = record {
  chain_id = expected.chain_id;
  nonce = terms.nonce;
  to = paid_token role expected;
  value = 0;
  calldata = codes "0x" ++ signer.approve_data expected.exchange_address allowance;
  gas = terms.gas_limit;
  max_fee_per_gas = terms.max_fee_per_gas;
  max_priority_fee_per_gas = terms.max_priority_fee_per_gas;
}

setup_approval : Role → ExpectedSession → ℕ → FeeTerms → SetupSigner → SetupApproval
unfolding setup_transaction
setup_approval role expected allowance terms signer =
    let (raw, hash) =
      signer.sign_transaction (setup_transaction role expected allowance terms signer) in
    record {
      raw_tx = codes "0x" ++ raw;
      tx_hash = hash;
      sender = signer.address;
      token = paid_token role expected;
      spender = expected.exchange_address;
      amount = allowance;
      nonce = terms.nonce;
    }

unfoldable pub build_setup_approval :
    Role
    → ExpectedSession
    → ℕ
    → FeeTerms
    → SetupBounds
    → SetupSigner
    → Result TermsError SetupApproval
unfolding check_terms setup_approval
build_setup_approval role expected allowance terms bounds signer = do
  _ ← check_terms terms bounds
  ok (setup_approval role expected allowance terms signer)
