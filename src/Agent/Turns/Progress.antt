-- ===== src/Agent/Turns/Progress.antt =====
-- turns/__init__.py's `TurnExecutor.run`: when a turn comes to an outcome.
use agentic_negotiators_sbx.Agent.Observation.{Observation, Role, next_proposer}
use agentic_negotiators_sbx.Agent.Policy.{Answer, Repair, answered, timeout, unanswered}
use agentic_negotiators_sbx.Agent.Signing.{ApprovedSession, Hashing, RunSigner, party}
use agentic_negotiators_sbx.Agent.Signing.Actions.Laws.{sign_decision_total}
use agentic_negotiators_sbx.Agent.Turns.{
  Attempt, DecisionRecord, Environment, TurnError, TurnOutcome, after_attempt, after_record,
  attempt_round, ended, exhausted, failed_with, judge, make_attempt, out_of_time, recorded, run,
  run_attempts, sent, sign_open, signed, time_left,
}
use agentic_negotiators_sbx.Agent.Validation.Decisions.{ValidDecision, Validation}
use agentic_negotiators_sbx.Agent.Validation.Mandate.{validate}
use agentic_negotiators_sbx.Agent.Validation.Mandate.Total.{validate_total}
use agentic_negotiators_sbx.Prelude.{
  Bool, List, Option, Result, [], answers, arith, false, if◌then◌else◌, ltb, none, ok, refl, some,
  suc, true, zero, ℕ, ◌++◌, ◌+◌, ◌<◌, ◌∷◌, ◌≡◌, ◌≤◌,
}
use agentic_negotiators_sbx.Prelude.Int.{ℤ}

module _ {S : Type 0} (env : Environment S) (h : Hashing) (approval : ApprovedSession)
    (signer : RunSigner) (deadline : Option ℤ) (o : Observation) where
  -- What lets a turn sign: the history says whose turn it is, the session's deadline has not
  -- passed, the signer is the session's party and the run stays open.
  pub record IsReady : Type 0 where
    pub turn_known : (r : Role) × (next_proposer o ≡ ok r)
    pub early : o.chain_time < approval.expires_at
    pub mine : party approval signer.role ≡ signer.address
    pub stays_open : (s : S) → env.still_open s ≡ true

  -- What came to an outcome.
  abbrev pub Concludes : Result TurnError TurnOutcome × S → Type 0
  Concludes t = (out : TurnOutcome) × (t.0 ≡ ok out)

  sign_open_total :
      (records : List DecisionRecord) (d : ValidDecision) (s : S)
      → IsReady
      → Concludes (sign_open env h approval signer deadline o records d s, s)
  unfolding sign_open
  sign_open_total records d s ready =
      let (a, e) =
        sign_decision_total h d approval o.expected_sequence o.chain_time signer ready.early
          ready.mine in
      (
        record { status = signed; signed_action = some a; decisions = records; failure = none },
        rw (ready.stays_open s, e) refl,
      )

  judge_total :
      (attempt latency : ℕ) (at : ℤ) (answer : Answer)
      → IsReady
      → (m : Attempt) × (judge env h approval signer deadline o attempt latency at answer ≡ ok m)
  unfolding judge
  judge_total attempt latency at (unanswered f) ready =
      (ended (sent attempt latency at f.response) f.code, refl)
  judge_total attempt latency at (answered r) ready =
      let (role, known) = ready.turn_known in
      let (v, e) = validate_total r.raw_response o role known in
      answers (validate r.raw_response o) _ e

  attempt_round_total :
      (again : Option Repair → List DecisionRecord → S → Result TurnError TurnOutcome × S)
      (attempt : ℕ) (repair : Option Repair) (records : List DecisionRecord) (t : Option ℤ) (s : S)
      → IsReady
      → ((repair' : Option Repair) (records' : List DecisionRecord) (s' : S)
          → Concludes (again repair' records' s'))
      → Concludes (attempt_round env h approval signer deadline o again attempt repair records t s)
  unfolding attempt_round after_attempt after_record make_attempt
  attempt_round_total again attempt repair records t s ready ih = timed (out_of_time t)
    where
      next :
          (s' : S) (records' : List DecisionRecord) (v : Validation) (d : Option ValidDecision)
          → Concludes (after_record env h approval signer deadline o again records' v d s')
      next s' records' v none =
          ih (some (record { code = v.code; feedback = v.feedback })) records' s'
      next s' records' v (some d) = sign_open_total records' d s' ready

      made :
          (s' : S) (m : Attempt)
          → Concludes (after_attempt env h approval signer deadline o again records (ok m) s')
      made s' (ended none code) = (failed_with records code, refl)
      made s' (ended (some r) code) = (failed_with (records ++ r ∷ []) code, refl)
      made s' (recorded r) = next s' (records ++ r ∷ []) r.validation r.validation.decision

      timed :
          (b : Bool)
          → Concludes (
              if b
              then (ok (failed_with records timeout), s)
              else (let (m, s') =
                    make_attempt env h approval signer deadline o attempt repair t s in
                  after_attempt env h approval signer deadline o again records m s'))
      timed true = (failed_with records timeout, refl)
      timed false =
          let (at, s₁) = env.now s in
          let (answer, s₂) = env.decide o repair t s₁ in
          let (m, e) = judge_total attempt (env.latency s₁ s₂) at answer ready in rw e (made s₂ m)

  run_attempts_total :
      (left attempt : ℕ) (repair : Option Repair) (records : List DecisionRecord) (s : S)
      → IsReady
      → Concludes (run_attempts env h approval signer deadline o left attempt repair records s)
  unfolding run_attempts
  run_attempts_total zero attempt repair records s ready = (exhausted records, refl)
  run_attempts_total (suc left) attempt repair records s ready =
      let (t, s') = time_left env h approval signer deadline o s in
      attempt_round_total (run_attempts env h approval signer deadline o left (attempt + 1)) attempt
        repair records t s' ready
        (λ repair' records' s''. run_attempts_total left (attempt + 1) repair' records' s'' ready)

  -- With at least one attempt, and the turn known, the deadline ahead, the signer the session's
  -- party and the run open throughout, a turn raises nothing: whatever the policy answers, it
  -- comes to an outcome.
  pub run_total :
      (attempts : ℕ) (s : S)
      → 1 ≤ attempts
      → IsReady
      → (out : TurnOutcome) × ((run env h approval signer deadline o attempts s).0 ≡ ok out)
  unfolding run
  run_total attempts s some_left ready =
      let enough : ltb attempts 1 ≡ false = ground arith in
      rw enough (run_attempts_total attempts 1 none [] s ready)
