-- ===== src/Agent/Validation/Structure/Total.antt =====
-- structure.py's `parse_decision`: when it answers.
use agentic_negotiators_sbx.Agent.Json.{Fields, Json, get, obj, str}
use agentic_negotiators_sbx.Agent.Observation.{ValueError, role_eq, unknown_reason}
use agentic_negotiators_sbx.Agent.Validation.Decisions.{
  Refusal, invalid_reason, proposed_walk_away, schema_error, wording,
}
use agentic_negotiators_sbx.Agent.Validation.Structure.{
  ParseResult, Shape, action_shape, check_envelope, parse_decision, parse_fields, parse_inner,
  parse_shape, read_amount, read_field, read_offer_hash, read_reason, refuse, shape_of,
}
use agentic_negotiators_sbx.Prelude.{
  Bool-cases, List, Option, Result, Text, [], arith, codes, err, inl, inr, nat_eq, none, ok, refl,
  returned, returns, some, text_eq, true, ℕ, ◌==◌, ◌∷◌, ◌≡◌,
}
use agentic_negotiators_sbx.Protocol.Reasons.{
  UnknownReasonCode, close_reason_code, close_reason_name, close_reasons_roundtrip,
}

read_amount-returns : (j : Json) → returns (read_amount j) ≡ true
unfolding read_amount
read_amount-returns j = ground arith

read_offer_hash-returns : (j : Json) → returns (read_offer_hash j) ≡ true
unfolding read_offer_hash
read_offer_hash-returns j = ground arith

-- A reason's code has a name.
reason_returns : (text : Text) → returns (read_reason (str text)) ≡ true
unfolding read_reason
reason_returns text = split (close_reason_code text) refl
  where
    split :
        (m : Result UnknownReasonCode ℕ)
        → close_reason_code text ≡ m
        → returns {E = ValueError} {A = ParseResult} (elim m [
          | err _ ↦ ok (refuse invalid_reason wording)
          | ok c ↦ elim (close_reason_name c) [
            | err _ ↦ err unknown_reason
            | ok name ↦ ok (ok (proposed_walk_away name c))
          ]
        ])
          ≡ true
    split (err e) h = refl
    split (ok c) h = rw ((close_reasons_roundtrip c text).1 h) refl

read_reason-returns : (j : Json) → returns (read_reason j) ≡ true
unfolding read_reason
read_reason-returns (str text) = reason_returns text
read_reason-returns j = refl

-- A shape whose reader always answers.
IsAnswering : Option Shape → Type 0
IsAnswering none = Unit
IsAnswering (some s) = (j : Json) → returns (s.read j) ≡ true

shape_of-IsAnswering : (action : Text) → IsAnswering (shape_of action)
unfolding shape_of IsAnswering
shape_of-IsAnswering action = elim (Bool-cases (action == codes "offer")) [
  | inl e ↦ rw e read_amount-returns
  | inr e ↦ elim (Bool-cases (action == codes "accept")) [
    | inl f ↦ rw (e, f) read_offer_hash-returns
    | inr f ↦ elim (Bool-cases (action == codes "walk_away")) [
      | inl g ↦ rw (e, f, g) read_reason-returns
      | inr g ↦ rw (e, f, g) tt
    ]
  ]
]

action_shape-IsAnswering : (action : Option Json) → IsAnswering (action_shape action)
unfolding action_shape IsAnswering
action_shape-IsAnswering (some (str action)) = shape_of-IsAnswering action
action_shape-IsAnswering j = tt

read_field-returns :
    (s : Shape) (extra : List Text) (j : Option Json)
    → ((k : Json) → returns (s.read k) ≡ true)
    → returns (read_field s extra j) ≡ true
unfolding read_field
read_field-returns s (k ∷ ks) j h = refl
read_field-returns s [] none h = refl
read_field-returns s [] (some j) h = h j

parse_fields-returns : (decision : Fields) → returns (parse_fields decision) ≡ true
unfolding parse_fields parse_shape IsAnswering
parse_fields-returns decision =
    split (action_shape (get (codes "action") decision))
      (action_shape-IsAnswering (get (codes "action") decision))
  where
    split :
        (s : Option Shape)
        → IsAnswering s
        → returns (elim s [
          | none ↦ ok (refuse schema_error wording)
          | some shape ↦ parse_shape shape decision
        ])
          ≡ true
    split none h = refl
    split (some s) h = read_field-returns s _ _ h

parse_inner-returns : (d : Option Json) → returns (parse_inner d) ≡ true
unfolding parse_inner
parse_inner-returns (some (obj decision)) = parse_fields-returns decision
parse_inner-returns d = refl

enveloped :
    (response : Fields) (m : Option Refusal)
    → returns {E = ValueError} {A = ParseResult} (elim m [
      | some fault ↦ ok (err fault)
      | none ↦ parse_inner (get (codes "decision") response)
    ])
      ≡ true
enveloped response none = parse_inner-returns (get (codes "decision") response)
enveloped response (some fault) = refl

parse_decision-returns : (response : Json) → returns (parse_decision response) ≡ true
unfolding parse_decision
parse_decision-returns (obj response) = enveloped response (check_envelope response)
parse_decision-returns j = refl

-- Whatever the response, the parser answers, with a proposal or a refusal, and raises nothing.
pub parse_decision_total : (response : Json) → (r : ParseResult) × (parse_decision response ≡ ok r)
parse_decision_total response = returned (parse_decision response) (parse_decision-returns response)
