-- ===== src/Agent/Validation/Structure.antt =====
-- structure.py: a decision envelope parsed into a proposal, or the structural rule it breaks.
pub mod Total
use agentic_negotiators_sbx.Agent.Json.{Fields, Json, get, keys_outside, obj, str}
use agentic_negotiators_sbx.Agent.Observation.{ValueError, role_eq, unknown_reason}
use agentic_negotiators_sbx.Agent.Validation.Decisions.{
  Code, Feedback, Proposal, Refusal, extra_fields, invalid_amount, invalid_offer_hash,
  invalid_reason, needs, proposed_accept, proposed_offer, proposed_walk_away, remove, schema_error,
  wording, zero_amount,
}
use agentic_negotiators_sbx.Prelude.{
  Bool, List, Option, Result, Text, [], codes, err, false, if◌then◌else◌, leb, length, nat_eq, none,
  ok, some, text_eq, ℕ, ◌==◌, ◌∷◌,
}
use agentic_negotiators_sbx.Protocol.Reasons.{close_reason_code, close_reason_name}
use agentic_negotiators_sbx.Protocol.Values.{digest, parse}

abbrev pub explanation_max_chars : ℕ
explanation_max_chars = 280

-- `ParseResult.outcome`
abbrev pub ParseResult : Type 0
ParseResult = Result Refusal Proposal

abbrev pub refuse : Code → Feedback → ParseResult
refuse c f = err (record { code = c; feedback = f })

is_explanation : Json → Bool
is_explanation (str s) = leb (length s) explanation_max_chars
is_explanation _ = false

-- The three tests of `_check_envelope`, on the extra keys and the two fields.
envelope_fault : List Text → Option Json → Option Json → Option Refusal
unfolding is_explanation
envelope_fault (k ∷ ks) decision explanation =
    some (record { code = extra_fields; feedback = remove (k ∷ ks) })
envelope_fault [] none explanation = some (record { code = schema_error; feedback = wording })
envelope_fault [] (some d) none = none
envelope_fault [] (some d) (some e) =
    if is_explanation e then none else some (record { code = schema_error; feedback = wording })

-- `_check_envelope`; `None` when nothing is wrong with the envelope.
check_envelope : Fields → Option Refusal
unfolding get keys_outside envelope_fault
check_envelope response =
    envelope_fault (keys_outside (codes "decision" ∷ codes "explanation" ∷ []) response)
      (get (codes "decision") response) (get (codes "explanation") response)

-- `_Shape`: the one other field of a decision and how to read it.
pub record Shape : Type 0 where
  pub name : Text
  pub read : Json → Result ValueError ParseResult

read_field : Shape → List Text → Option Json → Result ValueError ParseResult
read_field shape (k ∷ ks) value = ok (refuse extra_fields (remove (k ∷ ks)))
read_field shape [] none = ok (refuse schema_error (needs shape.name))
read_field shape [] (some value) = shape.read value

-- `_Shape.parse`
parse_shape : Shape → Fields → Result ValueError ParseResult
unfolding get keys_outside read_field
parse_shape shape decision =
    read_field shape (keys_outside (codes "action" ∷ shape.name ∷ []) decision)
      (get shape.name decision)

unfoldable pub read_amount : Json → Result ValueError ParseResult
read_amount (str text) = elim (parse text) [
  | err _ ↦ ok (refuse invalid_amount wording)
  | ok amount ↦ ok (if amount == 0 then refuse zero_amount wording else ok (proposed_offer amount))
]
read_amount _ = ok (refuse invalid_amount wording)

unfoldable pub read_offer_hash : Json → Result ValueError ParseResult
read_offer_hash (str text) = elim (digest text) [
  | err _ ↦ ok (refuse invalid_offer_hash wording)
  | ok hash ↦ ok (ok (proposed_accept hash))
]
read_offer_hash _ = ok (refuse invalid_offer_hash wording)

unfoldable pub read_reason : Json → Result ValueError ParseResult
read_reason (str text) = elim (close_reason_code text) [
  | err _ ↦ ok (refuse invalid_reason wording)
  | ok c ↦ elim (close_reason_name c) [
    | err _ ↦ err unknown_reason
    | ok name ↦ ok (ok (proposed_walk_away name c))
  ]
]
read_reason _ = ok (refuse invalid_reason wording)

-- `_SHAPES.get(action)`
shape_of : Text → Option Shape
unfolding read_amount read_offer_hash read_reason
shape_of action =
    if action == codes "offer"
    then some (record { name = codes "quote_amount_minor"; read = read_amount })
    else if action == codes "accept"
    then some (record { name = codes "offer_hash"; read = read_offer_hash })
    else if action == codes "walk_away"
    then some (record { name = codes "reason"; read = read_reason })
    else none

-- The action's shape, when `action` is a text that names one.
action_shape : Option Json → Option Shape
unfolding shape_of
action_shape (some (str action)) = shape_of action
action_shape (some _) = none
action_shape none = none

parse_fields : Fields → Result ValueError ParseResult
unfolding action_shape parse_shape
parse_fields decision = elim (action_shape (get (codes "action") decision)) [
  | none ↦ ok (refuse schema_error wording)
  | some shape ↦ parse_shape shape decision
]

parse_inner : Option Json → Result ValueError ParseResult
unfolding parse_fields
parse_inner (some (obj decision)) = parse_fields decision
parse_inner _ = ok (refuse schema_error wording)

unfoldable pub parse_decision : Json → Result ValueError ParseResult
unfolding check_envelope parse_inner
parse_decision (obj response) = elim (check_envelope response) [
  | some fault ↦ ok (err fault)
  | none ↦ parse_inner (get (codes "decision") response)
]
parse_decision _ = ok (refuse schema_error wording)
