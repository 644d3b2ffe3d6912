-- ===== src/Api/Turns/Checks.antt =====
-- turns/executor.py, the checks: `_check`, `_terms_hold` and `_authorised_attempt`.
use agentic_negotiators_sbx.Agent.Signing.{Message, accept_message, close_message, offer_message}
use agentic_negotiators_sbx.Agent.Signing.Actions.{
  ActionKind, accept_action, close_action, offer_action,
}
use agentic_negotiators_sbx.Api.Turns.Records.{
  DecisionPayload, SignedActionPayload, StoredObservation, TurnRecord,
}
use agentic_negotiators_sbx.Prelude.{
  Bool, List, Option, Text, [], all_of, false, get_last?, if◌then◌else◌, keep_if, leb, ltb, nat_eq,
  none, some, text_eq, true, ℕ, ◌&&◌, ◌==◌, ◌||◌, ◌∷◌,
}
use agentic_negotiators_sbx.Protocol.Values.{sequence}

-- What the checks read beside the turn: the party's wallet, the session's opening, and the code of
-- eth_account and of the protocol's encoding.
pub record Opened : Type 0 where
  pub session_id : Text
  pub config_hash : Text

pub record Verifier : Type 0 where
  pub to_address : Text → Option Text
  pub digest_of : ActionKind → Message → Text
  pub signature_is_canonical : Text → Bool
  pub recover_signer : Text → Text → Option Text

-- Whether the message has its kind's fields (`_MESSAGE_FIELDS`).
abbrev pub has_fields : ActionKind → Message → Bool
has_fields offer_action (offer_message session config sequence proposer amount until) = true
has_fields accept_action (accept_message session config sequence actor hash) = true
has_fields close_action (close_message session config sequence actor reason) = true
has_fields _ _ = false

abbrev pub signer_of : Message → Text
signer_of (offer_message session config sequence proposer amount until) = proposer
signer_of (accept_message session config sequence actor hash) = actor
signer_of (close_message session config sequence actor reason) = actor

abbrev pub sequence_of : Message → ℕ
sequence_of (offer_message session config sequence proposer amount until) = sequence
sequence_of (accept_message session config sequence actor hash) = sequence
sequence_of (close_message session config sequence actor reason) = sequence

abbrev pub session_of : Message → Text
session_of (offer_message session config sequence proposer amount until) = session
session_of (accept_message session config sequence actor hash) = session
session_of (close_message session config sequence actor reason) = session

abbrev pub config_of : Message → Text
config_of (offer_message session config sequence proposer amount until) = config
config_of (accept_message session config sequence actor hash) = config
config_of (close_message session config sequence actor reason) = config

-- `_terms_hold`
unfoldable pub terms_hold : Message → StoredObservation → Bool
terms_hold (offer_message session config sequence proposer amount until) observation =
    ltb observation.chain_time until && leb until observation.expires_at && ltb 0 amount
terms_hold (accept_message session config sequence actor hash) observation =
    elim observation.active_offer [ none ↦ false | some offer ↦ hash == offer.offer_hash ]
terms_hold (close_message session config sequence actor reason) observation =
    reason == 1 || reason == 2 || reason == 3

abbrev pub is_address : Option Text → Text → Bool
is_address none address = false
is_address (some a) address = a == address

-- `_check`: whether there is no problem; what cannot be read is one.
unfoldable pub check : Verifier → SignedActionPayload → Message → TurnRecord → Text → Opened → Bool
check v payload message turn address opened =
    all_of (λ holds. holds)
      (has_fields payload.kind message
        ∷ is_address (v.to_address payload.signer) address
        ∷ is_address (v.to_address (signer_of message)) address
        ∷ (sequence_of message == turn.expected_sequence)
        ∷ (session_of message == opened.session_id)
        ∷ (config_of message == opened.config_hash)
        ∷ terms_hold message turn.observation
        ∷ (v.digest_of payload.kind message == payload.digest)
        ∷ v.signature_is_canonical payload.signature
        ∷ is_address (v.recover_signer (v.digest_of payload.kind message) payload.signature) address
        ∷ [])

-- `_authorised_attempt`: the last that is valid.
unfoldable pub authorised_attempt : List DecisionPayload → Option DecisionPayload
authorised_attempt decisions = get_last? (keep_if (λ d. d.valid) decisions)

abbrev pub readable :
    Verifier
    → TurnRecord
    → SignedActionPayload
    → ℕ
    → Text
    → Opened
    → Option Message
    → Option (SignedActionPayload × Message × ℕ)
readable v turn payload attempt address opened none = none
readable v turn payload attempt address opened (some message) =
    if check v payload message turn address opened then some (payload, message, attempt) else none

-- The signed action of a response that is the one the turn asked for, its message and the attempt
-- that it came from.
unfoldable pub accepted_payload :
    Verifier
    → TurnRecord
    → Option SignedActionPayload
    → Option DecisionPayload
    → Option Text
    → Option Opened
    → Option (SignedActionPayload × Message × ℕ)
accepted_payload v turn (some payload) (some authorised) (some address) (some opened) =
    readable v turn payload authorised.attempt address opened payload.typed_message
accepted_payload v turn _ _ _ _ = none
