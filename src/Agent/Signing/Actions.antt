-- ===== src/Agent/Signing/Actions.antt =====
-- signing/messages.py: a validated decision built into its message and signed.
pub mod Laws
use agentic_negotiators_sbx.Agent.Signing.{
  ApprovedSession, Hashing, Message, RunSigner, accept_message, close_message, offer_message, party,
}
use agentic_negotiators_sbx.Agent.Validation.Decisions.{
  ValidDecision, valid_accept, valid_offer, valid_walk_away,
}
use agentic_negotiators_sbx.Prelude.{
  Option, Result, Text, err, if◌then◌else◌, leb, min, nat_eq, none, ok, some, text_eq, ℕ, ◌+◌, ◌==◌,
  ◌>>=◌,
}

pub data ActionKind : Type 0 where
  offer_action accept_action close_action : ActionKind

pub record SignedAction : Type 0 where
  pub kind : ActionKind
  pub message : Message
  pub digest : Text
  pub signature : Text
  pub signer : Text

-- Why nothing is signed: `InvalidStateError` without an approval or past the session's deadline,
-- and `SessionMismatchError` for a signer that is not the session's party.
pub data SignError : Type 0 where
  not_approved deadline_passed wrong_signer : SignError

-- `_signable_session`
signable_session : Option ApprovedSession → ℕ → RunSigner → Result SignError ApprovedSession
signable_session none chain_time signer = err not_approved
signable_session (some session) chain_time signer =
    if leb session.expires_at chain_time
    then err deadline_passed
    else if party session signer.role == signer.address
    then ok session
    else err wrong_signer

-- `_build`
build : ValidDecision → ApprovedSession → ℕ → ℕ → Text → ActionKind × Message
build (valid_offer amount) session seq chain_time me = (
  offer_action,
  offer_message session.session_id session.config_hash seq me amount
      (min (chain_time + session.offer_lifetime_s) session.expires_at),
)
build (valid_accept hash) session seq chain_time me =
    (accept_action, accept_message session.session_id session.config_hash seq me hash)
build (valid_walk_away reason c) session seq chain_time me =
    (close_action, close_message session.session_id session.config_hash seq me c)

-- The signature of what was built.
seal : Hashing → ApprovedSession → RunSigner → ActionKind × Message → SignedAction
seal h session signer (kind, message) =
    let hash = h.hash_message session.chain_id session.exchange_address message in
    record {
      kind = kind;
      message = message;
      digest = hash;
      signature = signer.sign_digest hash;
      signer = signer.address;
    }

unfoldable pub sign_decision :
    Hashing
    → ValidDecision
    → Option ApprovedSession
    → ℕ
    → ℕ
    → RunSigner
    → Result SignError SignedAction
unfolding signable_session build seal
sign_decision h decision approval seq chain_time signer = do
  session ← signable_session approval chain_time signer
  ok (seal h session signer (build decision session seq chain_time signer.address))
