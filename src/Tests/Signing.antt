-- ===== src/Tests/Signing.antt =====
-- The seller approves its session and signs an offer.
use agentic_negotiators_sbx.Agent.Observation.{counterparty, seller}
use agentic_negotiators_sbx.Agent.Signing.{
  ExpectedSession, SessionOpened, approve_session, mismatches_with, offer_message, zero_address,
}
use agentic_negotiators_sbx.Agent.Signing.Actions.{SignedAction, offer_action, sign_decision}
use agentic_negotiators_sbx.Agent.Signing.Actions.Laws.{IsSigned, sign_decision_lem}
use agentic_negotiators_sbx.Agent.Signing.Approval.{IsAgreed, IsExpected, approve_session_iff}
use agentic_negotiators_sbx.Agent.Signing.Approval.Agreement.{
  IsSameSession, mismatches_with-nil_iff,
}
use agentic_negotiators_sbx.Agent.Signing.Setup.{
  FeeTerms, SetupApproval, SetupBounds, SetupSigner, build_setup_approval,
}
use agentic_negotiators_sbx.Agent.Signing.Setup.Approvals.{
  IsApproval, IsBounded, build_setup_approval_lem,
}
use agentic_negotiators_sbx.Agent.Validation.Decisions.{valid_offer}
use agentic_negotiators_sbx.Prelude.{
  [], arith, codes, false, ok, refl, some, text_beq_iff, true, ◌↔◌, ◌∷◌, ◌≡◌,
}
use agentic_negotiators_sbx.Tests.Sample.{hashing, seller_session, seller_signer, view}

abbrev expected : ExpectedSession
expected = record {
  chain_id = 84532;
  exchange_address = codes "0x03";
  base_token = codes "0x04";
  quote_token = codes "0x05";
  base_amount = 10;
  max_offers = 6;
  session_duration_s = 3600;
  offer_lifetime_s = 300;
}

abbrev opened : SessionOpened
opened = record {
  session_id = codes "0x01";
  buyer_address = codes "0xb0";
  seller_address = codes "0x5e";
  base_token = codes "0x04";
  quote_token = codes "0x05";
  base_amount = 10;
  expires_at = 4600;
  max_offers = 6;
  config_hash = codes "0x02";
  opened_at = 1000;
}

differ : ¬ (false ≡ true)
differ e = cc

expected_example : IsExpected hashing expected opened seller (codes "0x5e")
unfolding counterparty
expected_example = record {
  base = refl;
  quote = refl;
  amount = refl;
  offers = refl;
  hashed = refl;
  mine = refl;
  theirs = λ e. differ ((text_beq_iff (codes "0xb0") (codes "0x5e")).1 e);
  real = λ e. differ ((text_beq_iff (codes "0xb0") zero_address).1 e);
  later = omega arith;
  sooner = omega arith;
}

IsAgreed-example : IsAgreed hashing expected opened seller (codes "0x5e") seller_session
IsAgreed-example = record {
  same_chain = refl;
  same_exchange = refl;
  same_base = refl;
  same_quote = refl;
  same_amount = refl;
  same_offers = refl;
  same_lifetime = refl;
  same_id = refl;
  same_config = refl;
  same_buyer = refl;
  same_seller = refl;
  same_expiry = refl;
  own_role = refl;
  committed = refl;
}

approve_session_iff_example :
    approve_session hashing expected opened seller (codes "0x5e") ≡ ok seller_session
approve_session_iff_example =
    (approve_session_iff hashing expected opened seller (codes "0x5e") {a = seller_session}).1
      (expected_example, IsAgreed-example)

abbrev signed_offer : SignedAction
signed_offer = record {
  kind = offer_action;
  message = offer_message (codes "0x01") (codes "0x02") 2 (codes "0x5e") 120 1300;
  digest = 1 ∷ 2 ∷ 120 ∷ 1300 ∷ [];
  signature = 0 ∷ 1 ∷ 2 ∷ 120 ∷ 1300 ∷ [];
  signer = codes "0x5e";
}

sign_decision_lem_example :
    IsSigned hashing (valid_offer 120) (some seller_session) 2 1000 seller_signer signed_offer
unfolding sign_decision
sign_decision_lem_example =
    sign_decision_lem hashing (valid_offer 120) (some seller_session) 2 1000 seller_signer
      signed_offer refl

mismatches_with-nil_iff_example :
    (mismatches_with seller_session view ≡ []) ↔ IsSameSession seller_session view
mismatches_with-nil_iff_example = mismatches_with-nil_iff seller_session view

abbrev terms : FeeTerms
terms = record {
  nonce = 0;
  gas_limit = 50000;
  max_fee_per_gas = 1000;
  max_priority_fee_per_gas = 10;
}

abbrev bounds : SetupBounds
bounds = record { gas_limit_max = 100000; max_cost_wei = 10000000000 }

abbrev setup_signer : SetupSigner
setup_signer = record {
  address = codes "0x5e";
  approve_data = λ spender amount. amount ∷ spender;
  sign_transaction = λ tx. (tx.calldata, tx.to);
}

build_setup_approval_lem_example :
    (IsBounded terms bounds
      → (a : SetupApproval) × (build_setup_approval seller expected 60 terms bounds setup_signer
          ≡ ok a))
    × ((a : SetupApproval)
        → build_setup_approval seller expected 60 terms bounds setup_signer ≡ ok a
        → IsBounded terms bounds × IsApproval seller expected 60 bounds setup_signer a)
build_setup_approval_lem_example =
    build_setup_approval_lem seller expected 60 terms bounds setup_signer
