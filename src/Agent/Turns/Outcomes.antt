-- ===== src/Agent/Turns/Outcomes.antt =====
-- turns/__init__.py's `TurnExecutor.run`: what a turn can come to.
use agentic_negotiators_sbx.Agent.Observation.{Observation, ValueError}
use agentic_negotiators_sbx.Agent.Policy.{
  Answer, FailureCode, Repair, answered, timeout, unanswered,
}
use agentic_negotiators_sbx.Agent.Signing.{ApprovedSession, Hashing, RunSigner}
use agentic_negotiators_sbx.Agent.Signing.Actions.{SignError, SignedAction, sign_decision}
use agentic_negotiators_sbx.Agent.Signing.Actions.Laws.{IsSigned, sign_decision_lem}
use agentic_negotiators_sbx.Agent.Turns.{
  Attempt, DecisionRecord, Environment, Failure, TurnError, TurnOutcome, after_attempt,
  after_record, attempt_round, declined, ended, exhausted, failed_with, judge, make_attempt,
  out_of_time, policy_failure, recorded, refusal, released, repair_exhausted, run, run_attempts,
  sign_error, sign_open, signed, time_left,
}
use agentic_negotiators_sbx.Agent.Validation.Decisions.{ValidDecision}
use agentic_negotiators_sbx.Agent.Validation.Mandate.{validate}
use agentic_negotiators_sbx.Agent.Validation.Mandate.Sound.{
  Justified, validate-accepts_iff, validate-decision,
}
use agentic_negotiators_sbx.Agent.Validation.Structure.{ParseResult, parse_decision}
use agentic_negotiators_sbx.Prelude.{
  Bool, Bool-cases, List, Option, Result, [], ap, arith, err, false, get_last?, if◌then◌else◌, inl,
  inr, length, length-append, ltb, none, ok, refl, some, suc, true, zero, ℕ, ◌++◌, ◌+◌, ◌∙◌, ◌∷◌,
  ◌≡◌, ◌≢◌, ◌≤◌, ◌⊎◌,
}
use agentic_negotiators_sbx.Prelude.Int.{ℤ}

length-snoc {ℓ} : {A : Type ℓ} (xs : List A) (x : A) → length (xs ++ x ∷ []) ≡ length xs + 1
length-snoc xs x = omega (arith, length-append {ℓ} xs (x ∷ []))

get_last?-snoc {ℓ} : {A : Type ℓ} (xs : List A) (x : A) → get_last? (xs ++ x ∷ []) ≡ some x
get_last?-snoc [] x = refl
get_last?-snoc (y ∷ []) x = refl
get_last?-snoc (y ∷ (z ∷ zs)) x = get_last?-snoc (z ∷ zs) x

module _ {S : Type 0} (env : Environment S) (h : Hashing) (approval : ApprovedSession)
    (signer : RunSigner) (deadline : Option ℤ) (o : Observation) where
  -- A turn that signed: its last attempt's response parsed to a proposal that was justified, the
  -- run was open when it was signed, and the action is the signature of that very decision.
  pub record IsSignedTurn (out : TurnOutcome) (s : S) : Type 0 where
    pub last : DecisionRecord
    pub decision : ValidDecision
    pub action : SignedAction
    pub proposal : ParseResult
    pub is_last : get_last? out.decisions ≡ some last
    pub parsed : parse_decision last.response.raw_response ≡ ok proposal
    pub justified : Justified o proposal decision
    pub is_action : out.signed_action ≡ some action
    pub status_signed : out.status ≡ signed
    pub no_failure : out.failure ≡ none
    pub open_run : env.still_open s ≡ true
    pub sealed : IsSigned h decision (some approval) o.expected_sequence o.chain_time signer action

  -- A turn that did not sign says why.
  pub record IsFailedTurn (out : TurnOutcome) : Type 0 where
    pub failure : Failure
    pub no_action : out.signed_action ≡ none
    pub not_signed : out.status ≢ signed
    pub says_why : out.failure ≡ some failure

  -- What the turn returned, with at most `room` decision records.
  abbrev pub IsSound : ℕ → Result TurnError TurnOutcome × S → Type 0
  IsSound room (err e, s) = Unit
  IsSound room (ok out, s) = (length out.decisions ≤ room) × (IsSignedTurn out s ⊎ IsFailedTurn out)

  failed_with-IsFailedTurn :
      (records : List DecisionRecord) (code : FailureCode) → IsFailedTurn (failed_with records code)
  unfolding failed_with
  failed_with-IsFailedTurn records code = record {
    failure = policy_failure code;
    no_action = refl;
    not_signed = ground arith;
    says_why = refl;
  }

  exhausted-IsFailedTurn : (records : List DecisionRecord) → IsFailedTurn (exhausted records)
  unfolding exhausted
  exhausted-IsFailedTurn records = record {
    failure = if declined (get_last? records) then refusal else repair_exhausted;
    no_action = refl;
    not_signed = ground arith;
    says_why = refl;
  }

  signed_outcome : List DecisionRecord → SignedAction → TurnOutcome
  signed_outcome records a = record {
    status = signed;
    signed_action = some a;
    decisions = records;
    failure = none;
  }

  signed_outcome-IsSignedTurn :
      (records : List DecisionRecord) (r : DecisionRecord) (d : ValidDecision) (a : SignedAction)
      (s : S)
      → validate r.response.raw_response o ≡ ok r.validation
      → r.validation.decision ≡ some d
      → env.still_open s ≡ true
      → sign_decision h d (some approval) o.expected_sequence o.chain_time signer ≡ ok a
      → IsSignedTurn (signed_outcome (records ++ r ∷ []) a) s
  unfolding signed_outcome
  signed_outcome-IsSignedTurn records r d a s judged named still sealed =
      let plain = validate-decision r.response.raw_response o r.validation d judged named in
      let (p, parsed, justified) =
        (validate-accepts_iff r.response.raw_response o d).0 (judged ∙ ap ok plain) in
      record {
        last = r;
        decision = d;
        action = a;
        proposal = p;
        is_last = get_last?-snoc records r;
        parsed = parsed;
        justified = justified;
        is_action = refl;
        status_signed = refl;
        no_failure = refl;
        open_run = still;
        sealed =
            sign_decision_lem h d (some approval) o.expected_sequence o.chain_time signer a sealed;
      }

  sign_open-IsSound :
      (records : List DecisionRecord) (r : DecisionRecord) (d : ValidDecision) (s : S)
      → validate r.response.raw_response o ≡ ok r.validation
      → r.validation.decision ≡ some d
      → IsSound
          (length records + 1)
          (sign_open env h approval signer deadline o (records ++ r ∷ []) d s, s)
  unfolding sign_open signed_outcome
  sign_open-IsSound records r d s judged named =
      split (env.still_open s) refl
        (sign_decision h d (some approval) o.expected_sequence o.chain_time signer) refl
    where
      split :
          (b : Bool)
          → env.still_open s ≡ b
          → (m : Result SignError SignedAction)
          → sign_decision h d (some approval) o.expected_sequence o.chain_time signer ≡ m
          → IsSound (length records + 1) (
            if b
                then elim m [
                  | err e ↦ err (sign_error e)
                  | ok a ↦ ok (signed_outcome (records ++ r ∷ []) a)
                ]
                else err released,
            s,
          )
      split false closed m made = tt
      split true still (err e) made = tt
      split true still (ok a) made = (
        omega (arith, length-snoc records r),
        inl (signed_outcome-IsSignedTurn records r d a s judged named still made),
      )

  IsSound-mono :
      (n m : ℕ) (t : Result TurnError TurnOutcome × S) → n ≤ m → IsSound n t → IsSound m t
  IsSound-mono n m (err e, s) le sound = tt
  IsSound-mono n m (ok out, s) le sound = (omega (arith, sound.0), sound.1)

  -- The validation of a recorded answer is the validator's.
  judged :
      (attempt latency : ℕ) (at : ℤ) (answer : Answer) (r : DecisionRecord)
      → judge env h approval signer deadline o attempt latency at answer ≡ ok (recorded r)
      → validate r.response.raw_response o ≡ ok r.validation
  unfolding judge
  judged attempt latency at (answered a) r e = ground arith
  judged attempt latency at (unanswered f) r e = cc

  -- One round keeps the bound, if the rounds after it do.
  attempt_round-IsSound :
      (again : Option Repair → List DecisionRecord → S → Result TurnError TurnOutcome × S)
      (left attempt : ℕ) (repair : Option Repair) (records : List DecisionRecord) (t : Option ℤ)
      (s : S)
      → ((repair' : Option Repair) (records' : List DecisionRecord) (s' : S)
          → IsSound (length records' + left) (again repair' records' s'))
      → IsSound
          (length records + suc left)
          (attempt_round env h approval signer deadline o again attempt repair records t s)
  unfolding attempt_round after_attempt after_record make_attempt
  attempt_round-IsSound again left attempt repair records t s ih = timed (out_of_time t)
    where
      next :
          (s' : S) (r : DecisionRecord) (d : Option ValidDecision)
          → validate r.response.raw_response o ≡ ok r.validation
          → r.validation.decision ≡ d
          → IsSound (length records + suc left) (
              after_record env h approval signer deadline o again
                (records ++ r ∷ [])
                r.validation
                d
                s')
      next s' r none e named =
          IsSound-mono (length (records ++ r ∷ []) + left) (length records + suc left) _
            (omega (arith, length-snoc records r)) (ih _ (records ++ r ∷ []) s')
      next s' r (some d) e named =
          IsSound-mono (length records + 1) (length records + suc left) _ (omega arith)
            (sign_open-IsSound records r d s' e named)

      made :
          (s' : S) (latency : ℕ) (at : ℤ) (answer : Answer) (m : Result ValueError Attempt)
          → judge env h approval signer deadline o attempt latency at answer ≡ m
          → IsSound
              (length records + suc left)
              (after_attempt env h approval signer deadline o again records m s')
      made s' latency at answer (err e) q = tt
      made s' latency at answer (ok (ended none code)) q =
          (omega arith, inr (failed_with-IsFailedTurn records code))
      made s' latency at answer (ok (ended (some r) code)) q = (
        omega (arith, length-snoc records r),
        inr (failed_with-IsFailedTurn (records ++ r ∷ []) code),
      )
      made s' latency at answer (ok (recorded r)) q =
          next s' r r.validation.decision (judged attempt latency at answer r q) refl

      timed :
          (b : Bool)
          → IsSound (length records + suc left) (
              if b
              then (ok (failed_with records timeout), s)
              else (let (m, s') =
                    make_attempt env h approval signer deadline o attempt repair t s in
                  after_attempt env h approval signer deadline o again records m s'))
      timed true = (omega arith, inr (failed_with-IsFailedTurn records timeout))
      timed false =
          let (at, s₁) = env.now s in
          let (answer, s₂) = env.decide o repair t s₁ in
          made s₂ (env.latency s₁ s₂) at answer _ refl

  run_attempts-IsSound :
      (left attempt : ℕ) (repair : Option Repair) (records : List DecisionRecord) (s : S)
      → IsSound
          (length records + left)
          (run_attempts env h approval signer deadline o left attempt repair records s)
  unfolding run_attempts
  run_attempts-IsSound zero attempt repair records s =
      (omega arith, inr (exhausted-IsFailedTurn records))
  run_attempts-IsSound (suc left) attempt repair records s =
      let (t, s') = time_left env h approval signer deadline o s in
      attempt_round-IsSound (run_attempts env h approval signer deadline o left (attempt + 1)) left
        attempt repair records t s' (run_attempts-IsSound left (attempt + 1))

  -- Whatever the policy answers, a turn that returns keeps at most one record an attempt, and it
  -- either signed a justified decision of its last attempt, while the run was open, or says why
  -- it did not and carries no action.
  pub run-IsSound :
      (attempts : ℕ) (s : S) → IsSound attempts (run env h approval signer deadline o attempts s)
  unfolding run
  run-IsSound attempts s = elim (Bool-cases (ltb attempts 1)) [
    | inl few ↦ rw few tt
    | inr enough ↦ rw enough (
        IsSound-mono (0 + attempts) attempts
          (run_attempts env h approval signer deadline o attempts 1 none [] s) (omega arith)
          (run_attempts-IsSound attempts 1 none [] s))
  ]
