-- ===== src/Protocol/Reasons.antt =====
-- reasons.py: the codes of a close and of an abort, and their names.
use agentic_negotiators_sbx.Prelude.{
  List, Result, Text, [], arith, codes, err, if◌then◌else◌, nat_eq, ok, text_beq_iff, text_eq, ℕ,
  ◌==◌, ◌↔◌, ◌∷◌, ◌≡◌,
}

-- `UnknownReasonCodeError`
pub data UnknownReasonCode : Type 0 where
  unknown_code : ℕ → UnknownReasonCode
  unknown_name : Text → UnknownReasonCode

-- A read-only dict, in insertion order.
abbrev pub Table : Type 0
Table = List (ℕ × Text)

abbrev pub close_reasons : Table
close_reasons =
    (1, codes "terms_unacceptable")
    ∷ (2, codes "inventory_constraint")
    ∷ (3, codes "no_further_concession")
    ∷ []

abbrev pub abort_reasons : Table
abort_reasons =
    (1, codes "operator_request")
    ∷ (2, codes "model_failure")
    ∷ (3, codes "budget_exhausted")
    ∷ (4, codes "execution_failure")
    ∷ []

name_in : Table → ℕ → Result UnknownReasonCode Text
name_in [] code = err (unknown_code code)
name_in ((c, name) ∷ table) code = if code == c then ok name else name_in table code

-- The lookup in the table turned round, `{name: code for code, name in table.items()}`.
code_in : Table → Text → Result UnknownReasonCode ℕ
code_in [] name = err (unknown_name name)
code_in ((code, n) ∷ table) name = if name == n then ok code else code_in table name

unfoldable pub close_reason_name : ℕ → Result UnknownReasonCode Text
unfolding name_in
close_reason_name = name_in close_reasons

unfoldable pub abort_reason_name : ℕ → Result UnknownReasonCode Text
unfolding name_in
abort_reason_name = name_in abort_reasons

unfoldable pub close_reason_code : Text → Result UnknownReasonCode ℕ
unfolding code_in
close_reason_code = code_in close_reasons

unfoldable pub abort_reason_code : Text → Result UnknownReasonCode ℕ
unfolding code_in
abort_reason_code = code_in abort_reasons

-- A close code's name is looked up exactly when the name's code is that code.
pub close_reasons_roundtrip :
    (code : ℕ) (name : Text)
    → (close_reason_name code ≡ ok name) ↔ (close_reason_code name ≡ ok code)
unfolding close_reason_name close_reason_code
close_reasons_roundtrip code name = ground (
  arith,
  text_beq_iff name (codes "terms_unacceptable"),
  text_beq_iff name (codes "inventory_constraint"),
  text_beq_iff name (codes "no_further_concession"),
)

-- An abort code's name is looked up exactly when the name's code is that code.
pub abort_reasons_roundtrip :
    (code : ℕ) (name : Text)
    → (abort_reason_name code ≡ ok name) ↔ (abort_reason_code name ≡ ok code)
unfolding abort_reason_name abort_reason_code
abort_reasons_roundtrip code name = ground (
  arith,
  text_beq_iff name (codes "operator_request"),
  text_beq_iff name (codes "model_failure"),
  text_beq_iff name (codes "budget_exhausted"),
  text_beq_iff name (codes "execution_failure"),
)
