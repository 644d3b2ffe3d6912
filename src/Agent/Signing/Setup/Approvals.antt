-- ===== src/Agent/Signing/Setup/Approvals.antt =====
-- signing/setup.py's `build_setup_approval`: what an approval can cost and what it approves.
use mathlib.Core.Path.{subst}
use agentic_negotiators_sbx.Agent.Observation.{Role, buyer, seller}
use agentic_negotiators_sbx.Agent.Signing.{ExpectedSession}
use agentic_negotiators_sbx.Agent.Signing.Setup.{
  FeeTerms, SetupApproval, SetupBounds, SetupSigner, TermsError, Transaction, build_setup_approval,
  check_terms, paid_token, setup_approval, setup_transaction,
}
use agentic_negotiators_sbx.Prelude.{
  Result, Text, arith, codes, err, ok, refl, ℕ, ◌*◌, ◌++◌, ◌>>=◌, ◌↔◌, ◌≡◌, ◌≤◌,
}

-- The terms that an instance accepts.
pub record IsBounded (terms : FeeTerms) (bounds : SetupBounds) : Type 0 where
  pub gas_bounded : terms.gas_limit ≤ bounds.gas_limit_max
  pub cost_bounded : terms.gas_limit * terms.max_fee_per_gas ≤ bounds.max_cost_wei
  pub priority_bounded : terms.max_priority_fee_per_gas ≤ terms.max_fee_per_gas

-- The transaction behind an approval: it sends no value, calls `approve` for the exchange and this
-- allowance on the token of the party's own leg, and costs at most what the bounds allow.
pub record IsApproval (role : Role) (e : ExpectedSession) (allowance : ℕ) (bounds : SetupBounds)
    (signer : SetupSigner) (a : SetupApproval) : Type 0 where
  pub tx : Transaction
  pub raw : Text
  pub signature : signer.sign_transaction tx ≡ (raw, a.tx_hash)
  pub sent : a.raw_tx ≡ codes "0x" ++ raw
  pub no_value : tx.value ≡ 0
  pub approves : tx.calldata ≡ codes "0x" ++ signer.approve_data e.exchange_address allowance
  pub own_leg : (role ≡ buyer → tx.to ≡ e.quote_token) × (role ≡ seller → tx.to ≡ e.base_token)
  pub on_chain : tx.chain_id ≡ e.chain_id
  pub cost : tx.gas * tx.max_fee_per_gas ≤ bounds.max_cost_wei
  pub named : (a.token ≡ tx.to) × (a.nonce ≡ tx.nonce) × (a.amount ≡ allowance)

check_terms_iff :
    (terms : FeeTerms) (bounds : SetupBounds)
    → (check_terms terms bounds ≡ ok tt) ↔ IsBounded terms bounds
unfolding check_terms
check_terms_iff terms bounds = ground arith

own_token :
    (role : Role) (e : ExpectedSession)
    → (role ≡ buyer → paid_token role e ≡ e.quote_token)
      × (role ≡ seller → paid_token role e ≡ e.base_token)
unfolding paid_token
own_token role e = ground arith

setup_approval-IsApproval :
    (role : Role) (e : ExpectedSession) (allowance : ℕ) (terms : FeeTerms) (bounds : SetupBounds)
    (signer : SetupSigner)
    → IsBounded terms bounds
    → IsApproval role e allowance bounds signer (setup_approval role e allowance terms signer)
unfolding setup_approval setup_transaction
setup_approval-IsApproval role e allowance terms bounds signer b =
    let tx = setup_transaction role e allowance terms signer in
    record {
      tx = tx;
      raw = (signer.sign_transaction tx).0;
      signature = refl;
      sent = refl;
      no_value = refl;
      approves = refl;
      own_leg = own_token role e;
      on_chain = refl;
      cost = b.cost_bounded;
      named = (refl, refl, refl);
    }

-- An approval is signed exactly within the bounds; it is then of a transaction that sends no
-- value, approves the exchange for the allowance on the party's own leg, and costs at most the
-- bound.
pub build_setup_approval_lem :
    (role : Role) (e : ExpectedSession) (allowance : ℕ) (terms : FeeTerms) (bounds : SetupBounds)
    (signer : SetupSigner)
    → (IsBounded terms bounds
        → (a : SetupApproval) × (build_setup_approval role e allowance terms bounds signer ≡ ok a))
      × ((a : SetupApproval)
          → build_setup_approval role e allowance terms bounds signer ≡ ok a
          → IsBounded terms bounds × IsApproval role e allowance bounds signer a)
unfolding build_setup_approval
build_setup_approval_lem role e allowance terms bounds signer = (
  (λ b.
      (setup_approval role e allowance terms signer, rw ((check_terms_iff terms bounds).1 b) refl)),
  built (check_terms terms bounds) refl,
)
  where
    built :
        (m : Result TermsError (Unit {0}))
        → check_terms terms bounds ≡ m
        → (a : SetupApproval)
        → (m >>= (λ _. ok (setup_approval role e allowance terms signer))) ≡ ok a
        → IsBounded terms bounds × IsApproval role e allowance bounds signer a
    built (err x) h a p = cc
    built (ok u) h a p =
        let b = (check_terms_iff terms bounds).0 h in
        let same : setup_approval role e allowance terms signer ≡ a = cc in
        (
          b,
          subst (IsApproval role e allowance bounds signer) same
              (setup_approval-IsApproval role e allowance terms bounds signer b),
        )
