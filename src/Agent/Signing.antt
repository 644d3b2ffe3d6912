-- ===== src/Agent/Signing.antt =====
-- signing/session.py and signing/messages.py: the session an instance approves, and the action it
-- signs under it. The EIP-712 hashes and the signature are those of a `Hashing`, whose code is the
-- protocol package's encoder over keccak and secp256k1.
pub mod Approval
pub mod Actions
pub mod Setup
use agentic_negotiators_sbx.Agent.Observation.{
  Role, SessionView, buyer, counterparty, role_eq, seller,
}
use agentic_negotiators_sbx.Prelude.{
  Bool, List, Result, Text, [], codes, err, if◌then◌else◌, leb, ltb, nat_eq, not, ok, text_eq, ℕ,
  ◌&&◌, ◌++◌, ◌+◌, ◌==◌, ◌∷◌,
}

-- `ExpectedSession`, from provisioning.
pub record ExpectedSession : Type 0 where
  pub chain_id : ℕ
  pub exchange_address : Text
  pub base_token : Text
  pub quote_token : Text
  pub base_amount : ℕ
  pub max_offers : ℕ
  pub session_duration_s : ℕ
  pub offer_lifetime_s : ℕ

-- `SessionOpened`, the decoded event and its block's time.
pub record SessionOpened : Type 0 where
  pub session_id : Text
  pub buyer_address : Text
  pub seller_address : Text
  pub base_token : Text
  pub quote_token : Text
  pub base_amount : ℕ
  pub expires_at : ℕ
  pub max_offers : ℕ
  pub config_hash : Text
  pub opened_at : ℕ

pub record ApprovedSession : Type 0 where
  pub chain_id : ℕ
  pub exchange_address : Text
  pub base_token : Text
  pub quote_token : Text
  pub session_id : Text
  pub config_hash : Text
  pub buyer_address : Text
  pub seller_address : Text
  pub base_amount : ℕ
  pub expires_at : ℕ
  pub max_offers : ℕ
  pub offer_lifetime_s : ℕ

-- `ApprovedSession.party`
abbrev pub party : ApprovedSession → Role → Text
party session buyer = session.buyer_address
party session seller = session.seller_address

-- The typed messages; each begins with its session id, configuration hash and sequence.
pub data Message : Type 0 where
  offer_message : Text → Text → ℕ → Text → ℕ → ℕ → Message
  accept_message : Text → Text → ℕ → Text → Text → Message
  close_message : Text → Text → ℕ → Text → ℕ → Message

pub record Hashing : Type 0 where
  -- `SessionConfig.config_hash`, of a session id, the two parties, the base amount, the expiry,
  -- the offer limit and the two tokens.
  pub hash_config : Text → Text → Text → ℕ → ℕ → ℕ → Text → Text → Text
  -- `message.digest(domain)`, of a chain id and an exchange address.
  pub hash_message : ℕ → Text → Message → Text

-- `RunSigner`: its derivation's role, its address and its signature of a digest.
pub record RunSigner : Type 0 where
  pub role : Role
  pub address : Text
  pub sign_digest : Text → Text

-- The fields that a mismatch names.
pub data SessionField : Type 0 where
  session_id_field config_hash_field chain_id_field exchange_address_field : SessionField
  base_token_field quote_token_field base_amount_field expires_at_field : SessionField
  max_offers_field : SessionField
  party_field : Role → SessionField

-- A field that differs.
abbrev pub differs : Bool → SessionField → List SessionField
differs same f = if same then [] else f ∷ []

-- `ApprovedSession.mismatches_with`
unfoldable pub mismatches_with : ApprovedSession → SessionView → List SessionField
mismatches_with a v =
    differs (a.session_id == v.session_id) session_id_field
    ++ (differs (a.config_hash == v.config_hash) config_hash_field
        ++ (differs (a.chain_id == v.chain_id) chain_id_field
            ++ (differs (a.exchange_address == v.exchange_address) exchange_address_field
                ++ (differs (a.base_token == v.base_token) base_token_field
                    ++ (differs (a.quote_token == v.quote_token) quote_token_field
                        ++ (differs (a.base_amount == v.base_amount) base_amount_field
                            ++ (differs (a.expires_at == v.expires_at) expires_at_field
                                ++ differs (a.max_offers == v.max_offers) max_offers_field)))))))

abbrev pub zero_address : Text
zero_address = codes "0x0000000000000000000000000000000000000000"

-- The address of a slot of the opened session.
abbrev pub slot : SessionOpened → Role → Text
slot opened buyer = opened.buyer_address
slot opened seller = opened.seller_address

-- `_party_faults`: this instance in its own slot, a real and different party in the other.
party_faults : SessionOpened → Role → Text → List SessionField
unfolding counterparty
party_faults opened role me =
    differs (slot opened role == me) (party_field role)
    ++ differs
        (not (slot opened (counterparty role) == me)
          && not (slot opened (counterparty role) == zero_address))
        (party_field (counterparty role))

-- `_expiry_fault`
expiry_fault : ExpectedSession → SessionOpened → List SessionField
expiry_fault e opened =
    differs
      (ltb opened.opened_at opened.expires_at
        && leb opened.expires_at (opened.opened_at + e.session_duration_s))
      expires_at_field

module _ (h : Hashing) where
  -- `_recompute_config_hash`
  recompute_config_hash : ExpectedSession → SessionOpened → Text
  recompute_config_hash e opened =
      h.hash_config opened.session_id opened.buyer_address opened.seller_address opened.base_amount
        opened.expires_at opened.max_offers e.base_token e.quote_token

  -- Every field of `approve_session` that differs.
  session_faults : ExpectedSession → SessionOpened → Role → Text → List SessionField
  unfolding recompute_config_hash party_faults expiry_fault
  session_faults e opened role me =
      differs (e.base_token == opened.base_token) base_token_field
      ++ (differs (e.quote_token == opened.quote_token) quote_token_field
          ++ (differs (e.base_amount == opened.base_amount) base_amount_field
              ++ (differs (e.max_offers == opened.max_offers) max_offers_field
                  ++ (differs (recompute_config_hash e opened == opened.config_hash)
                        config_hash_field
                      ++ (party_faults opened role me ++ expiry_fault e opened)))))

  -- What `approve_session` returns where nothing differs.
  unfoldable pub approved : ExpectedSession → SessionOpened → ApprovedSession
  approved e opened = record {
    chain_id = e.chain_id;
    exchange_address = e.exchange_address;
    base_token = e.base_token;
    quote_token = e.quote_token;
    session_id = opened.session_id;
    config_hash = opened.config_hash;
    buyer_address = opened.buyer_address;
    seller_address = opened.seller_address;
    base_amount = opened.base_amount;
    expires_at = opened.expires_at;
    max_offers = opened.max_offers;
    offer_lifetime_s = e.offer_lifetime_s;
  }

  -- `approve_session`; a `SessionMismatchError` names every differing field.
  unfoldable pub approve_session :
      ExpectedSession → SessionOpened → Role → Text → Result (List SessionField) ApprovedSession
  unfolding session_faults approved
  approve_session e opened role me = elim (session_faults e opened role me) [
    | [] ↦ ok (approved e opened)
    | f ∷ fs ↦ err (f ∷ fs)
  ]
