-- ===== src/Api/Metrics/Failure/Causes.antt =====
-- metrics/figures.py's `failure_class`: what its tests ask of a cause.
use mathlib.Core.Path.{subst}
use agentic_negotiators_sbx.Api.Metrics.Failure.{ends_with, execution_causes, starts_with}
use agentic_negotiators_sbx.Prelude.{
  Among, Bool, Bool-cases, List, Text, [], all_of, any_of, ap, arith, codes, false, inl, inr,
  nat_beq_iff, nat_eq, not, refl, sym, text_beq_iff, text_eq, true, ◌++◌, ◌==◌, ◌||◌, ◌↔◌, ◌∷◌, ◌≡◌,
  ◌⊎◌,
}

abbrev pub StartsWith : Text → Text → Type 0
StartsWith text prefix = (rest : Text) × (text ≡ prefix ++ rest)

abbrev pub EndsWith : Text → Text → Type 0
EndsWith text suffix = (front : Text) × (text ≡ front ++ suffix)

-- A failure of the model or of its budget.
abbrev pub IsModel : Text → Type 0
IsModel cause = Among cause (codes "model_failure" ∷ codes "budget_exhausted" ∷ [])

-- The contracts' or the relay's refusal of what was authorised, every revert among them.
abbrev pub IsExecution : Text → Type 0
IsExecution cause =
    Among cause (
      codes "execution_failure"
      ∷ codes "session_refused"
      ∷ codes "settlement_check_failed"
      ∷ codes "termination_reverted"
      ∷ codes "session_opening_missing"
      ∷ codes "invalid_confirmation_threshold"
      ∷ [])
    ⊎ EndsWith cause (codes "_reverted")

-- The node's.
abbrev pub IsRpc : Text → Type 0
IsRpc cause = Among cause (
    codes "rpc_timeout"
    ∷ codes "unreachable"
    ∷ codes "refused"
    ∷ codes "nonce_conflict"
    ∷ codes "chain_unavailable"
    ∷ [])

-- An agent's, short of a revert.
abbrev pub IsSigning : Text → Type 0
IsSigning cause =
    (StartsWith cause (codes "agent_")
      ⊎ StartsWith cause (codes "observation_")
      ⊎ StartsWith cause (codes "signed_action_"))
    × (EndsWith cause (codes "_reverted") → ⊥)

starts_with_iff : (text prefix : Text) → (starts_with text prefix ≡ true) ↔ StartsWith text prefix
unfolding starts_with
starts_with_iff text [] = (λ e. (text, refl), λ s. refl)
starts_with_iff [] (p ∷ ps) = (λ e. cc, λ (rest, e). cc)
starts_with_iff (c ∷ cs) (p ∷ ps) = (
  λ e.
      let (rest, f) = (starts_with_iff cs ps).0 (ground (arith, e)) in
      (rest, cc (f, (nat_beq_iff c p).0 (ground (arith, e)))),
  λ (rest, e).
      let q = (nat_beq_iff c p).1 (cc) in
      let r = (starts_with_iff cs ps).1 (rest, cc) in ground arith,
)

ends_with_iff : (text suffix : Text) → (ends_with text suffix ≡ true) ↔ EndsWith text suffix
unfolding ends_with
ends_with_iff [] suffix = (
  λ e. ([], (text_beq_iff [] suffix).0 e),
  λ (front, e). (text_beq_iff [] suffix).1 (emptied front e),
)
  where
    emptied : (front : Text) → ◌≡◌ {A = Text} [] (front ++ suffix) → ◌≡◌ {A = Text} [] suffix
    emptied [] e = e
    emptied (d ∷ front) e = cc
ends_with_iff (c ∷ cs) suffix = (
  λ e. elim (Bool-cases ((c ∷ cs) == suffix)) [
    | inl eq ↦ ([], (text_beq_iff (c ∷ cs) suffix).0 eq)
    | inr ne ↦
        let (front, f) = (ends_with_iff cs suffix).0 (rw ne at e) in (c ∷ front, ap (λ t. c ∷ t) f)
  ],
  λ (front, e). back (ends_with_iff cs suffix).1 front e,
)
  where
    back :
        (EndsWith cs suffix → ends_with cs suffix ≡ true)
        → (front : Text) → c ∷ cs ≡ front ++ suffix
        → ends_with (c ∷ cs) suffix ≡ true
    back ih [] e = ground (arith, (text_beq_iff (c ∷ cs) suffix).1 e)
    back ih (d ∷ front) e = ground (arith, ih (front, cc))

-- What a test holds of no member of a list, it does not hold of what is among them.
pub apart :
    (cause : Text) (xs : List Text) (p : Text → Bool)
    → any_of (λ x. cause == x) xs ≡ true
    → all_of (λ x. not (p x)) xs ≡ true
    → p cause ≡ false
apart cause [] p e f = cc
apart cause (x ∷ xs) p e f = elim (Bool-cases (cause == x)) [
  | inl eq ↦ subst (λ t. p t ≡ false) (sym ((text_beq_iff cause x).0 eq)) (ground (arith, f))
  | inr ne ↦ apart cause xs p (rw ne at e) (ground (arith, f))
]

pub any_iff :
    (cause : Text) (xs : List Text) → (any_of (λ x. cause == x) xs ≡ true) ↔ Among cause xs
any_iff cause [] = (λ e. cc, λ i. elim i [ ])
any_iff cause (x ∷ xs) = ground (arith, any_iff cause xs, text_beq_iff cause x)

-- A disjunction of tests.
or_iff : {P Q : Type 0} (a b : Bool) → (a ≡ true) ↔ P → (b ≡ true) ↔ Q → ((a || b) ≡ true) ↔ (P ⊎ Q)
or_iff true b p q = (λ e. inl (p.0 refl), λ h. refl)
or_iff false b p q = (λ e. inr (q.0 e), λ h. elim h [ inl x ↦ absurd (cc (p.1 x)) | inr y ↦ q.1 y ])

-- The test for an agent's cause.
unfoldable pub prefixed : Text → Bool
unfolding starts_with
prefixed cause =
    cause == codes "agent_unavailable"
    || starts_with cause (codes "agent_")
    || starts_with cause (codes "observation_")
    || starts_with cause (codes "signed_action_")

prefixed_iff :
    (cause : Text)
    → (prefixed cause ≡ true) ↔ (
        StartsWith cause (codes "agent_")
        ⊎ StartsWith cause (codes "observation_")
        ⊎ StartsWith cause (codes "signed_action_"))
unfolding prefixed
prefixed_iff cause =
    let all =
      or_iff _ _
        (or_iff _ _
          (or_iff _ _ (text_beq_iff cause (codes "agent_unavailable"))
            (starts_with_iff cause (codes "agent_")))
          (starts_with_iff cause (codes "observation_")))
        (starts_with_iff cause (codes "signed_action_")) in
    (
      λ e. elim (all.0 e) [
        | inl (inl (inl f)) ↦ inl (codes "unavailable", f)
        | inl (inl (inr f)) ↦ inl f
        | inl (inr f) ↦ inr (inl f)
        | inr f ↦ inr (inr f)
      ],
      λ h.
          all.1 (elim h [
            | inl f ↦ inl (inl (inr f))
            | inr (inl f) ↦ inl (inr f)
            | inr (inr f) ↦ inr f
          ]),
    )

-- The test for a cause of the execution.
unfoldable pub executed : Text → Bool
unfolding ends_with
executed cause = any_of (λ c. cause == c) execution_causes || ends_with cause (codes "_reverted")

pub executed_iff : (cause : Text) → (executed cause ≡ true) ↔ IsExecution cause
unfolding executed
executed_iff cause =
    or_iff _ _ (any_iff cause execution_causes) (ends_with_iff cause (codes "_reverted"))

execution_unprefixed : (cause : Text) → Among cause execution_causes → prefixed cause ≡ false
unfolding prefixed
execution_unprefixed cause i =
    apart cause execution_causes prefixed ((any_iff cause execution_causes).1 i) refl

-- An agent's cause that is no cause of the execution is one that ends in no revert.
pub IsSigning-iff :
    (cause : Text) → ((prefixed cause ≡ true) × (executed cause ≡ false)) ↔ IsSigning cause
IsSigning-iff cause = (
  λ (p, e).
      ((prefixed_iff cause).0 p, λ ended. absurd (cc (e, (executed_iff cause).1 (inr ended)))),
  λ (p, short). ((prefixed_iff cause).1 p, not_executed ((prefixed_iff cause).1 p) short),
)
  where
    not_executed :
        prefixed cause ≡ true → (EndsWith cause (codes "_reverted") → ⊥) → executed cause ≡ false
    not_executed p short = elim (Bool-cases (executed cause)) [
      | inr e ↦ e
      | inl e ↦ elim ((executed_iff cause).0 e) [
        | inl listed ↦ absurd (cc (p, execution_unprefixed cause listed))
        | inr ended ↦ absurd (short ended)
      ]
    ]
