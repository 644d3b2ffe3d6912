-- ===== src/Agent/Validation/Mandate/Sound.antt =====
-- mandate.py's `MandateValidator`, against the legal trades of Legal.
use mathlib.Core.Path.{subst}
use agentic_negotiators_sbx.Agent.Json.{Json}
use agentic_negotiators_sbx.Agent.Observation.{ActiveOffer, Observation, ValueError}
use agentic_negotiators_sbx.Agent.Validation.Decisions.{
  Refusal, ValidDecision, Validation, accepted, proposed_accept, proposed_offer, proposed_walk_away,
  valid_accept, valid_offer, valid_walk_away,
}
use agentic_negotiators_sbx.Agent.Validation.Mandate.{
  accept_active, refuse_below_inventory_floor, refuse_outside_reservation, refuse_unaffordable,
  validate, validate_accept, validate_offer, validate_outcome, verdict,
}
use agentic_negotiators_sbx.Agent.Validation.Mandate.Legal.{LegalAccept, LegalOffer, WithinMandate}
use agentic_negotiators_sbx.Agent.Validation.Structure.{ParseResult, parse_decision}
use agentic_negotiators_sbx.Prelude.{
  Option, Result, Text, ap, arith, err, none, ok, refl, some, sym, text_beq_iff, ℕ, ◌<◌, ◌>>=◌,
  ◌or_else◌, ◌↔◌, ◌∙◌, ◌≡◌, ◌≢◌,
}

-- The last three checks together.
within_checks : Observation → ℕ → Option Refusal
within_checks o amount =
    refuse_outside_reservation o amount
    or_else refuse_unaffordable o amount
    or_else refuse_below_inventory_floor o amount

within_checks-none :
    (o : Observation) (amount : ℕ) → WithinMandate o amount → within_checks o amount ≡ none
unfolding within_checks refuse_outside_reservation refuse_unaffordable refuse_below_inventory_floor
within_checks-none o amount w = ground arith

none-within_checks :
    (o : Observation) (amount : ℕ) → within_checks o amount ≡ none → WithinMandate o amount
unfolding within_checks refuse_outside_reservation refuse_unaffordable refuse_below_inventory_floor
none-within_checks o amount h = ground arith

or_else-none {ℓ} : {A : Type ℓ} (x y : Option A) → (x or_else y) ≡ none → (x ≡ none) × (y ≡ none)
or_else-none none y h = (refl, h)
or_else-none (some a) y h = cc

verdict-accepted :
    (r : Option Refusal) (d e : ValidDecision) → verdict r d ≡ accepted e → (r ≡ none) × (d ≡ e)
verdict-accepted none d e h = ground arith
verdict-accepted (some r) d e h = ground arith

offer_legal :
    (amount : ℕ) (o : Observation) (d : ValidDecision)
    → validate_offer amount o ≡ ok (accepted d)
    → (d ≡ valid_offer amount) × LegalOffer o amount
unfolding validate_offer
offer_legal amount o d h = ground arith

legal_offer :
    (amount : ℕ) (o : Observation)
    → LegalOffer o amount
    → validate_offer amount o ≡ ok (accepted (valid_offer amount))
unfolding validate_offer
legal_offer amount o h = ground arith

accept_legal :
    (hash : Text) (o : Observation) (a : ActiveOffer) (d : ValidDecision)
    → accept_active hash o a ≡ accepted d
    → (d ≡ valid_accept hash)
      × (a.proposer ≢ o.role)
      × (hash ≡ a.offer_hash)
      × (o.chain_time < a.valid_until)
      × WithinMandate o a.quote_amount
unfolding accept_active
accept_legal hash o a d h = ground (arith, text_beq_iff hash a.offer_hash)

legal_accept :
    (hash : Text) (o : Observation) (a : ActiveOffer)
    → LegalAccept o a hash
    → accept_active hash o a ≡ accepted (valid_accept hash)
unfolding accept_active
legal_accept hash o a h = ground (arith, text_beq_iff hash a.offer_hash)

accept_stands :
    (hash : Text) (o : Observation) (active : Option ActiveOffer) (d : ValidDecision)
    → o.active_offer ≡ active
    → validate_accept hash o active ≡ accepted d
    → (d ≡ valid_accept hash) × (a : ActiveOffer) × LegalAccept o a hash
unfolding validate_accept
accept_stands hash o none d e h = ground arith
accept_stands hash o (some a) d e h =
    let l = accept_legal hash o a d h in
    (l.0, a, record { stands = e; theirs = l.1; named = l.2; unexpired = l.3; within = l.4 })

-- What an accepted response proposed, and that it was legal.
abbrev pub Justified : Observation → ParseResult → ValidDecision → Type 0
Justified o r (valid_offer amount) = (r ≡ ok (proposed_offer amount)) × LegalOffer o amount
Justified o r (valid_accept hash) =
    (r ≡ ok (proposed_accept hash)) × ((a : ActiveOffer) × LegalAccept o a hash)
Justified o r (valid_walk_away reason c) = r ≡ ok (proposed_walk_away reason c)

accepted-Justified :
    (r : ParseResult) (o : Observation) (d : ValidDecision)
    → validate_outcome r o ≡ ok (accepted d)
    → Justified o r d
unfolding validate_outcome
accepted-Justified (err refusal) o d h = cc
accepted-Justified (ok (proposed_offer n)) o d h =
    let (e, l) = offer_legal n o d h in
    subst (Justified o (ok (proposed_offer n))) (sym e) (refl, l)
accepted-Justified (ok (proposed_accept hash)) o d h =
    let (e, a, l) = accept_stands hash o o.active_offer d refl (ground arith) in
    subst (Justified o (ok (proposed_accept hash))) (sym e) (refl, (a, l))
accepted-Justified (ok (proposed_walk_away reason c)) o d h =
    let e : valid_walk_away reason c ≡ d = ground arith in
    subst (Justified o (ok (proposed_walk_away reason c))) e refl

Justified-accepted :
    (r : ParseResult) (o : Observation) (d : ValidDecision)
    → Justified o r d
    → validate_outcome r o ≡ ok (accepted d)
unfolding validate_outcome validate_accept
Justified-accepted r o (valid_offer amount) (p, l) = rw p (legal_offer amount o l)
Justified-accepted r o (valid_accept hash) (p, (a, l)) =
    rw p (ap ok (ap (validate_accept hash o) l.stands ∙ legal_accept hash o a l))
Justified-accepted r o (valid_walk_away reason c) p = rw p

-- The validator accepts a decision exactly when the response parses to that very proposal and the
-- proposal is justified: an offer is a legal offer at that amount, an acceptance a legal
-- acceptance of the active offer under that hash, and a walk-away needs nothing more.
pub validate-accepts_iff :
    (response : Json) (o : Observation) (d : ValidDecision)
    → (validate response o ≡ ok (accepted d))
      ↔ ((r : ParseResult) × (parse_decision response ≡ ok r) × Justified o r d)
unfolding validate
validate-accepts_iff response o d =
    (to (parse_decision response) refl, λ (r, p, j). rw p (Justified-accepted r o d j))
  where
    to :
        (p : Result ValueError ParseResult)
        → parse_decision response ≡ p
        → (p >>= (λ r. validate_outcome r o)) ≡ ok (accepted d)
        → (r : ParseResult) × (parse_decision response ≡ ok r) × Justified o r d
    to (err e) q h = cc
    to (ok r) q h = (r, q, accepted-Justified r o d h)

IsVerdict : Validation → Type 0
IsVerdict v = (d : ValidDecision) → v.decision ≡ some d → v ≡ accepted d

verdict-IsVerdict : (r : Option Refusal) (d : ValidDecision) → IsVerdict (verdict r d)
unfolding IsVerdict
verdict-IsVerdict none d e h = ground arith
verdict-IsVerdict (some r) d e h = ground arith

outcome-IsVerdict :
    (r : ParseResult) (o : Observation) (v : Validation) → validate_outcome r o ≡ ok v → IsVerdict v
unfolding validate_outcome IsVerdict validate_offer validate_accept accept_active
outcome-IsVerdict (err refusal) o v h d e = ground arith
outcome-IsVerdict (ok (proposed_offer n)) o v h d e = ground arith
outcome-IsVerdict (ok (proposed_accept hash)) o v h d e = ground arith
outcome-IsVerdict (ok (proposed_walk_away why c)) o v h d e = ground arith

-- A validation that names a decision is nothing but that decision: it carries no code and no
-- feedback.
pub validate-decision :
    (response : Json) (o : Observation) (v : Validation) (d : ValidDecision)
    → validate response o ≡ ok v
    → v.decision ≡ some d
    → v ≡ accepted d
unfolding validate IsVerdict
validate-decision response o v d = to (parse_decision response)
  where
    to :
        (p : Result ValueError ParseResult)
        → (p >>= (λ r. validate_outcome r o)) ≡ ok v
        → v.decision ≡ some d
        → v ≡ accepted d
    to (err e) h q = cc
    to (ok r) h q = outcome-IsVerdict r o v h d q
