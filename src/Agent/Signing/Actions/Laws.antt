-- ===== src/Agent/Signing/Actions/Laws.antt =====
-- signing/messages.py's `sign_decision`: what is signed, and when.
use mathlib.Core.Path.{subst}
use agentic_negotiators_sbx.Agent.Signing.{
  ApprovedSession, Hashing, Message, RunSigner, accept_message, close_message, offer_message, party,
}
use agentic_negotiators_sbx.Agent.Signing.Actions.{
  SignError, SignedAction, build, seal, sign_decision, signable_session,
}
use agentic_negotiators_sbx.Agent.Validation.Decisions.{
  ValidDecision, valid_accept, valid_offer, valid_walk_away,
}
use agentic_negotiators_sbx.Prelude.{
  Option, Result, Text, arith, err, min, none, ok, refl, some, sym, text_beq_iff, ℕ, ◌+◌, ◌<◌,
  ◌>>=◌, ◌≡◌, ◌≤◌,
}

-- The message that stands for a decision under a session: the decision's own price, hash or code,
-- and for an offer a deadline within the session's and within the offer's lifetime.
abbrev pub Carries : ApprovedSession → ℕ → ℕ → Text → ValidDecision → Message → Type 0
Carries s seq chain_time me (valid_offer amount) m =
    (valid_until : ℕ) × (m ≡ offer_message s.session_id s.config_hash seq me amount valid_until)
    × (valid_until ≤ s.expires_at)
    × (valid_until ≤ chain_time + s.offer_lifetime_s)
    × (1 ≤ s.offer_lifetime_s → chain_time < valid_until)
Carries s seq chain_time me (valid_accept hash) m =
    m ≡ accept_message s.session_id s.config_hash seq me hash
Carries s seq chain_time me (valid_walk_away reason c) m =
    m ≡ close_message s.session_id s.config_hash seq me c

build-Carries :
    (d : ValidDecision) (s : ApprovedSession) (seq chain_time : ℕ) (me : Text)
    → chain_time < s.expires_at
    → Carries s seq chain_time me d (build d s seq chain_time me).1
unfolding build
build-Carries (valid_offer amount) s seq t me h =
    (min (t + s.offer_lifetime_s) s.expires_at, refl, omega arith, omega arith, omega arith)
build-Carries (valid_accept hash) s seq t me h = refl
build-Carries (valid_walk_away reason c) s seq t me h = refl

signable :
    (approval : Option ApprovedSession) (chain_time : ℕ) (signer : RunSigner) (s : ApprovedSession)
    → signable_session approval chain_time signer ≡ ok s
    → (approval ≡ some s) × (chain_time < s.expires_at) × (party s signer.role ≡ signer.address)
unfolding signable_session
signable none t signer s h = cc
signable (some a) t signer s h = ground (arith, text_beq_iff (party a signer.role) signer.address)

-- What a signed action is.
abbrev pub IsSigned :
    Hashing → ValidDecision → Option ApprovedSession → ℕ → ℕ → RunSigner → SignedAction → Type 0
IsSigned h d approval seq chain_time signer a =
    (s : ApprovedSession) × (approval ≡ some s)
    × (chain_time < s.expires_at)
    × (a.signer ≡ party s signer.role)
    × (a.digest ≡ h.hash_message s.chain_id s.exchange_address a.message)
    × (a.signature ≡ signer.sign_digest a.digest)
    × Carries s seq chain_time a.signer d a.message

-- A signed action is of the approved session, by that session's own party, before its deadline,
-- and its signature is over the digest of a message that carries the decision unaltered; an
-- offer's deadline is within the session's and the offer's lifetime, and ahead when that lifetime
-- is positive.
pub sign_decision_lem :
    (h : Hashing) (d : ValidDecision) (approval : Option ApprovedSession) (seq chain_time : ℕ)
    (signer : RunSigner) (a : SignedAction)
    → sign_decision h d approval seq chain_time signer ≡ ok a
    → IsSigned h d approval seq chain_time signer a
unfolding sign_decision
sign_decision_lem h d approval seq t signer a = to (signable_session approval t signer) refl
  where
    to :
        (m : Result SignError ApprovedSession)
        → signable_session approval t signer ≡ m
        → (m >>= (λ s. ok (seal h s signer (build d s seq t signer.address)))) ≡ ok a
        → IsSigned h d approval seq t signer a
    to (err e) q p = cc
    to (ok s) q p =
        let (stands, early, mine) = signable approval t signer s q in
        let e : seal h s signer (build d s seq t signer.address) ≡ a = cc in
        subst (IsSigned h d approval seq t signer) e
          (s, stands, early, sym mine, refl, refl, build-Carries d s seq t signer.address early)

-- The approved session's own party can sign any decision before the deadline.
pub sign_decision_total :
    (h : Hashing) (d : ValidDecision) (session : ApprovedSession) (seq chain_time : ℕ)
    (signer : RunSigner)
    → chain_time < session.expires_at
    → party session signer.role ≡ signer.address
    → (a : SignedAction) × (sign_decision h d (some session) seq chain_time signer ≡ ok a)
unfolding sign_decision signable_session
sign_decision_total h d session seq t signer early mine = (
  seal h session signer (build d session seq t signer.address),
  ground (arith, text_beq_iff (party session signer.role) signer.address),
)
