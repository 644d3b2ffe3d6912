-- ===== src/Api/Turns/Genuine.antt =====
-- What a signed action that passes turns/executor.py's `_check` is, in the contract's terms.
use mathlib.Core.Path.{subst}
use agentic_negotiators_sbx.Agent.Signing.{Message, accept_message, close_message, offer_message}
use agentic_negotiators_sbx.Api.Turns.Checks.{
  Opened, Verifier, check, config_of, has_fields, is_address, sequence_of, session_of, signer_of,
  terms_hold,
}
use agentic_negotiators_sbx.Api.Turns.Records.{
  SignedActionPayload, StoredObservation, StoredOffer, TurnRecord,
}
use agentic_negotiators_sbx.Prelude.{
  Bool, Option, Text, ap, arith, false, nat_beq_iff, nat_eq, none, refl, some, text_beq_iff,
  text_eq, true, ◌&&◌, ◌<◌, ◌==◌, ◌≡◌, ◌≤◌, ◌⊎◌,
}
use agentic_negotiators_sbx.Protocol.Values.{sequence}

-- The terms that the contract asks of each kind of action.
abbrev pub IsWithinTerms : Message → StoredObservation → Type 0
IsWithinTerms (offer_message session config sequence proposer amount until) observation =
    (observation.chain_time < until) × (until ≤ observation.expires_at) × (0 < amount)
IsWithinTerms (accept_message session config sequence actor hash) observation =
    (offer : StoredOffer) × (observation.active_offer ≡ some offer) × (hash ≡ offer.offer_hash)
IsWithinTerms (close_message session config sequence actor reason) observation =
    (reason ≡ 1) ⊎ (reason ≡ 2) ⊎ (reason ≡ 3)

-- The message is of its kind, of the turn's sequence and of the session and its configuration,
-- within the turn's terms, and its canonical signature is the wallet's over the digest of this very
-- message.
pub record IsGenuine (v : Verifier) (payload : SignedActionPayload) (message : Message)
    (turn : TurnRecord) (address : Text) (opened : Opened) : Type 0 where
  pub of_kind : has_fields payload.kind message ≡ true
  pub by_signer : v.to_address payload.signer ≡ some address
  pub by_wallet : v.to_address (signer_of message) ≡ some address
  pub in_sequence : sequence_of message ≡ turn.expected_sequence
  pub in_session : session_of message ≡ opened.session_id
  pub in_config : config_of message ≡ opened.config_hash
  pub in_terms : IsWithinTerms message turn.observation
  pub over_digest : v.digest_of payload.kind message ≡ payload.digest
  pub is_canonical : v.signature_is_canonical payload.signature ≡ true
  pub signed_by : v.recover_signer payload.digest payload.signature ≡ some address

first_true : (a b : Bool) → (a && b) ≡ true → a ≡ true
first_true true b e = refl
first_true false b e = e

rest_true : (a b : Bool) → (a && b) ≡ true → b ≡ true
rest_true true b e = e
rest_true false b e = ground arith

is_address-some :
    (o : Option Text) (address : Text) → is_address o address ≡ true → o ≡ some address
is_address-some none address e = ground arith
is_address-some (some a) address e = ap some ((text_beq_iff a address).0 e)

terms_hold-IsWithinTerms :
    (message : Message) (observation : StoredObservation)
    → terms_hold message observation ≡ true
    → IsWithinTerms message observation
unfolding terms_hold
terms_hold-IsWithinTerms (offer_message session config sequence proposer amount until) observation
      e =
    ground arith
terms_hold-IsWithinTerms (accept_message session config sequence actor hash) observation e =
    active observation.active_offer refl e
  where
    active :
        (o : Option StoredOffer)
        → observation.active_offer ≡ o
        → (elim o [ none ↦ false | some offer ↦ hash == offer.offer_hash ]) ≡ true
        → (offer : StoredOffer) × (observation.active_offer ≡ some offer)
          × (hash ≡ offer.offer_hash)
    active none f e = ground arith
    active (some offer) f e = (offer, f, (text_beq_iff hash offer.offer_hash).0 e)
terms_hold-IsWithinTerms (close_message session config sequence actor reason) observation e =
    ground arith

pub check-IsGenuine :
    (v : Verifier) (payload : SignedActionPayload) (message : Message) (turn : TurnRecord)
    (address : Text) (opened : Opened)
    → check v payload message turn address opened ≡ true
    → IsGenuine v payload message turn address opened
unfolding check
check-IsGenuine v payload message turn address opened e =
    let e1 = rest_true (has_fields payload.kind message) _ e in
    let e2 = rest_true (is_address (v.to_address payload.signer) address) _ e1 in
    let e3 = rest_true (is_address (v.to_address (signer_of message)) address) _ e2 in
    let e4 = rest_true (sequence_of message == turn.expected_sequence) _ e3 in
    let e5 = rest_true (session_of message == opened.session_id) _ e4 in
    let e6 = rest_true (config_of message == opened.config_hash) _ e5 in
    let e7 = rest_true (terms_hold message turn.observation) _ e6 in
    let e8 = rest_true (v.digest_of payload.kind message == payload.digest) _ e7 in
    let e9 = rest_true (v.signature_is_canonical payload.signature) _ e8 in
    let same_digest =
      (text_beq_iff (v.digest_of payload.kind message) payload.digest).0
        (first_true (v.digest_of payload.kind message == payload.digest) _ e7) in
    record {
      of_kind = first_true (has_fields payload.kind message) _ e;
      by_signer =
          is_address-some (v.to_address payload.signer) address
            (first_true (is_address (v.to_address payload.signer) address) _ e1);
      by_wallet =
          is_address-some (v.to_address (signer_of message)) address
            (first_true (is_address (v.to_address (signer_of message)) address) _ e2);
      in_sequence =
          (nat_beq_iff (sequence_of message) turn.expected_sequence).0
            (first_true (sequence_of message == turn.expected_sequence) _ e3);
      in_session =
          (text_beq_iff (session_of message) opened.session_id).0
            (first_true (session_of message == opened.session_id) _ e4);
      in_config =
          (text_beq_iff (config_of message) opened.config_hash).0
            (first_true (config_of message == opened.config_hash) _ e5);
      in_terms =
          terms_hold-IsWithinTerms message turn.observation
            (first_true (terms_hold message turn.observation) _ e6);
      over_digest = same_digest;
      is_canonical = first_true (v.signature_is_canonical payload.signature) _ e8;
      signed_by =
          subst (λ d. v.recover_signer d payload.signature ≡ some address) same_digest
            (is_address-some (v.recover_signer (v.digest_of payload.kind message) payload.signature)
              address
              (first_true
                (is_address (v.recover_signer (v.digest_of payload.kind message) payload.signature)
                  address)
                _ e9));
    }
