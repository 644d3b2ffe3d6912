-- ===== src/Agent/Signing/Approval.antt =====
-- signing/session.py's `approve_session`: the session that it should approve.
pub mod Agreement
use mathlib.Core.Path.{subst}
use agentic_negotiators_sbx.Agent.Observation.{Role, buyer, counterparty, role_eq, seller}
use agentic_negotiators_sbx.Agent.Signing.{
  ApprovedSession, ExpectedSession, Hashing, SessionField, SessionOpened, approve_session, approved,
  base_amount_field, base_token_field, config_hash_field, differs, expiry_fault, max_offers_field,
  party, party_faults, party_field, quote_token_field, recompute_config_hash, session_faults, slot,
  zero_address,
}
use agentic_negotiators_sbx.Api.Relay.Invariant.Outbox.{same}
use agentic_negotiators_sbx.Prelude.{
  Bool, Eq, List, Text, [], ap, arith, err, nat_eq, not, ok, refl, sym, text_beq_iff, text_eq, true,
  ◌&&◌, ◌++◌, ◌+◌, ◌<◌, ◌==◌, ◌↔◌, ◌∙◌, ◌∷◌, ◌≡◌, ◌≢◌, ◌≤◌,
}

-- The session that an instance may approve: the one it was provisioned for, itself in its own
-- slot, a real counterparty in the other, and a deadline inside the provisioned duration.
pub record IsExpected (h : Hashing) (e : ExpectedSession) (opened : SessionOpened) (role : Role)
    (me : Text) : Type 0 where
  pub base : e.base_token ≡ opened.base_token
  pub quote : e.quote_token ≡ opened.quote_token
  pub amount : e.base_amount ≡ opened.base_amount
  pub offers : e.max_offers ≡ opened.max_offers
  pub hashed :
      h.hash_config opened.session_id opened.buyer_address opened.seller_address opened.base_amount
        opened.expires_at opened.max_offers e.base_token e.quote_token
      ≡ opened.config_hash
  pub mine : slot opened role ≡ me
  pub theirs : slot opened (counterparty role) ≢ me
  pub real : slot opened (counterparty role) ≢ zero_address
  pub later : opened.opened_at < opened.expires_at
  pub sooner : opened.expires_at ≤ opened.opened_at + e.session_duration_s

append-eq-nil {ℓ} : {A : Type ℓ} (xs ys : List A) → xs ++ ys ≡ [] → (xs ≡ []) × (ys ≡ [])
append-eq-nil [] ys h = (refl, h)
append-eq-nil (x ∷ xs) ys h = cc

differs-eq-nil : (b : Bool) (f : SessionField) → (differs b f ≡ []) ↔ (b ≡ true)
differs-eq-nil b f = ground arith

-- Both lists are empty, each by its own reason.
append_iff {ℓ κ μ} :
    {A : Type ℓ} {P : Type κ} {Q : Type μ} (xs ys : List A)
    → (xs ≡ []) ↔ P
    → (ys ≡ []) ↔ Q
    → (xs ++ ys ≡ []) ↔ (P × Q)
append_iff [] ys p q = (λ h. (p.0 refl, q.0 h), λ h. q.1 h.1)
append_iff (x ∷ xs) ys p q = (λ h. absurd (cc), λ h. absurd (cc (p.1 h.0)))

-- One field of a list of differences.
same_iff {ℓ} :
    {A : Type ℓ} ⦃e : Eq A⦄ (a b : A) (f : SessionField) → (differs (a == b) f ≡ []) ↔ (a ≡ b)
same_iff ⦃e⦄ a b f = (
  λ h. (e.equal_iff a b).0 ((differs-eq-nil (a == b) f).0 h),
  λ h. (differs-eq-nil (a == b) f).1 ((e.equal_iff a b).1 h),
)

party_faults_iff :
    (opened : SessionOpened) (role : Role) (me : Text)
    → (party_faults opened role me ≡ []) ↔ (
        (slot opened role ≡ me)
        × ((slot opened (counterparty role) ≢ me)
            × (slot opened (counterparty role) ≢ zero_address)))
unfolding party_faults
party_faults_iff opened role me = append_iff _ _ (same_iff (slot opened role) me _) other
  where
    other :
        (differs
            (not (slot opened (counterparty role) == me)
              && not (slot opened (counterparty role) == zero_address))
            (party_field (counterparty role))
          ≡ [])
        ↔ ((slot opened (counterparty role) ≢ me)
            × (slot opened (counterparty role) ≢ zero_address))
    other = ground (
      arith,
      text_beq_iff (slot opened (counterparty role)) me,
      text_beq_iff (slot opened (counterparty role)) zero_address,
    )

expiry_fault_iff :
    (e : ExpectedSession) (opened : SessionOpened)
    → (expiry_fault e opened ≡ []) ↔ (
        (opened.opened_at < opened.expires_at)
        × (opened.expires_at ≤ opened.opened_at + e.session_duration_s))
unfolding expiry_fault
expiry_fault_iff e opened = ground arith

session_faults_iff :
    (h : Hashing) (e : ExpectedSession) (opened : SessionOpened) (role : Role) (me : Text)
    → (session_faults h e opened role me ≡ []) ↔ IsExpected h e opened role me
unfolding session_faults
session_faults_iff h e opened role me =
    let all = append_iff _ _ (same_iff e.base_token opened.base_token base_token_field) (
      append_iff _ _ (same_iff e.quote_token opened.quote_token quote_token_field) (
        append_iff _ _ (same_iff e.base_amount opened.base_amount base_amount_field) (
          append_iff _ _ (same_iff e.max_offers opened.max_offers max_offers_field) (
            append_iff _ _
              (same_iff (recompute_config_hash h e opened) opened.config_hash config_hash_field)
              (append_iff _ _ (party_faults_iff opened role me) (expiry_fault_iff e opened)))))) in
    (
      λ nothing.
          let (base, rest) = all.0 nothing in
          record {
            base = base;
            quote = rest.0;
            amount = rest.1.0;
            offers = rest.1.1.0;
            hashed = rest.1.1.1.0;
            mine = rest.1.1.1.1.0.0;
            theirs = rest.1.1.1.1.0.1.0;
            real = rest.1.1.1.1.0.1.1;
            later = rest.1.1.1.1.1.0;
            sooner = rest.1.1.1.1.1.1;
          },
      λ x. all.1 (
        x.base,
        (
          x.quote,
          (x.amount, (x.offers, (x.hashed, ((x.mine, (x.theirs, x.real)), (x.later, x.sooner))))),
        ),
      ),
    )

-- What the approved session holds: the terms, the chain and the contract of the provisioning, the
-- identity, parties and deadline that the chain reported, the instance in its own role, and a
-- configuration hash that commits to these very fields.
pub record IsAgreed (h : Hashing) (e : ExpectedSession) (opened : SessionOpened) (role : Role)
    (me : Text) (a : ApprovedSession) : Type 0 where
  pub same_chain : a.chain_id ≡ e.chain_id
  pub same_exchange : a.exchange_address ≡ e.exchange_address
  pub same_base : a.base_token ≡ e.base_token
  pub same_quote : a.quote_token ≡ e.quote_token
  pub same_amount : a.base_amount ≡ e.base_amount
  pub same_offers : a.max_offers ≡ e.max_offers
  pub same_lifetime : a.offer_lifetime_s ≡ e.offer_lifetime_s
  pub same_id : a.session_id ≡ opened.session_id
  pub same_config : a.config_hash ≡ opened.config_hash
  pub same_buyer : a.buyer_address ≡ opened.buyer_address
  pub same_seller : a.seller_address ≡ opened.seller_address
  pub same_expiry : a.expires_at ≡ opened.expires_at
  pub own_role : party a role ≡ me
  pub committed :
      h.hash_config a.session_id a.buyer_address a.seller_address a.base_amount a.expires_at
        a.max_offers a.base_token a.quote_token
      ≡ a.config_hash

slot-approved :
    (h : Hashing) (e : ExpectedSession) (opened : SessionOpened) (role : Role)
    → party (approved h e opened) role ≡ slot opened role
unfolding approved
slot-approved h e opened buyer = refl
slot-approved h e opened seller = refl

approved-IsAgreed :
    (h : Hashing) (e : ExpectedSession) (opened : SessionOpened) (role : Role) (me : Text)
    → IsExpected h e opened role me
    → IsAgreed h e opened role me (approved h e opened)
unfolding approved
approved-IsAgreed h e opened role me x = record {
  same_chain = refl;
  same_exchange = refl;
  same_base = refl;
  same_quote = refl;
  same_amount = sym x.amount;
  same_offers = sym x.offers;
  same_lifetime = refl;
  same_id = refl;
  same_config = refl;
  same_buyer = refl;
  same_seller = refl;
  same_expiry = refl;
  own_role = slot-approved h e opened role ∙ x.mine;
  committed = x.hashed;
}

agreed-approved :
    (h : Hashing) (e : ExpectedSession) (opened : SessionOpened) (role : Role) (me : Text)
    (a : ApprovedSession)
    → IsExpected h e opened role me
    → IsAgreed h e opened role me a
    → a ≡ approved h e opened
unfolding approved
agreed-approved h e opened role me a x g = ground arith

-- A session is approved exactly when it is the expected one, and what is then approved is exactly
-- the provisioned terms, chain and contract with the identity, parties and deadline that the
-- chain reported, with the instance itself in its role and a configuration hash of these fields.
pub approve_session_iff :
    (h : Hashing) (e : ExpectedSession) (opened : SessionOpened) (role : Role) (me : Text)
    {a : ApprovedSession}
    → (approve_session h e opened role me ≡ ok a)
      ↔ (IsExpected h e opened role me × IsAgreed h e opened role me a)
unfolding approve_session
approve_session_iff h e opened role me {a} = (
  to (session_faults h e opened role me) refl,
  λ (x, agreed). from x (agreed-approved h e opened role me a x agreed),
)
  where
    to :
        (fs : List SessionField)
        → session_faults h e opened role me ≡ fs
        → elim fs [ [] ↦ ok (approved h e opened) | f ∷ rest ↦ err (f ∷ rest) ] ≡ ok a
        → IsExpected h e opened role me × IsAgreed h e opened role me a
    to [] none_differ p =
        let x = (session_faults_iff h e opened role me).0 none_differ in
        let same : approved h e opened ≡ a = cc in
        (x, subst (IsAgreed h e opened role me) same (approved-IsAgreed h e opened role me x))
    to (f ∷ fs) some_differ p = cc

    from :
        IsExpected h e opened role me
        → a ≡ approved h e opened
        → approve_session h e opened role me ≡ ok a
    from x same =
        rw ((session_faults_iff h e opened role me).1 x, approve_session) (ap ok (sym same))
