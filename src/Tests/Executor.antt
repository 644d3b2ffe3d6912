-- ===== src/Tests/Executor.antt =====
-- The turn executor at a concrete run: the buyer's first turn, signed or failed.
use agentic_negotiators_sbx.Agent.Observation.{buyer}
use agentic_negotiators_sbx.Agent.Signing.{Message, offer_message}
use agentic_negotiators_sbx.Agent.Signing.Actions.{offer_action}
use agentic_negotiators_sbx.Api.Effects.{pure, reading, ◌>>=◌}
use agentic_negotiators_sbx.Api.Relay.Chain.{answered}
use agentic_negotiators_sbx.Api.Turns.Advance.{
  add_turn, advance, advance_from, begin, begin_at, begin_with,
}
use agentic_negotiators_sbx.Api.Turns.Asking.{ask_agent, ask_turn, decide, heard}
use agentic_negotiators_sbx.Api.Turns.Checks.{
  Verifier, accepted_payload, authorised_attempt, check, terms_hold,
}
use agentic_negotiators_sbx.Api.Turns.Executor.{
  Executor, append, head_time, move_turn, open_turn, submit,
}
use agentic_negotiators_sbx.Api.Turns.Invariant.{Deed, IsBacked, IsTame, charges, deeds}
use agentic_negotiators_sbx.Api.Turns.Invariant.Numbered.{AreNumbered, perform_steps-AreNumbered}
use agentic_negotiators_sbx.Api.Turns.Invariant.Settling.{advance-owes_abort}
use agentic_negotiators_sbx.Api.Turns.Invariant.Signed.{
  perform_step, perform_steps, perform_steps-IsBacked, perform_steps-terminated,
}
use agentic_negotiators_sbx.Api.Turns.Recording.{
  record_answer, record_checked, record_failed, record_response, record_signed, sign_in,
}
use agentic_negotiators_sbx.Api.Turns.Records.{
  DecisionPayload, ResponseStatus, TurnResponse, TurnStore, agent_responded, agent_restored,
  response_failed, response_signed, turn_model_failed,
}
use agentic_negotiators_sbx.Prelude.{
  Among, [], arith, codes, inl, none, ok, refl, some, true, ℕ, ◌∷◌, ◌≡◌, ◌≢◌,
}

abbrev message : Message
message = offer_message (codes "session") (codes "config") 1 (codes "buyer") 500 150

abbrev verifier : Verifier
verifier = record {
  to_address = λ a. some a;
  digest_of = λ kind message. codes "digest";
  signature_is_canonical = λ signature. true;
  recover_signer = λ digest signature. some (codes "buyer");
}

abbrev decision : DecisionPayload
decision = record { attempt = 1; observation_hash = codes "hash"; valid = true; content = [] }

abbrev answer_with : ResponseStatus → TurnResponse
answer_with status = record {
  turn = 1;
  status = status;
  decisions = decision ∷ [];
  signed_action = some (record {
    kind = offer_action;
    typed_message = some message;
    digest = codes "digest";
    signer = codes "buyer";
    signature = codes "signature";
  });
  failure = none;
}

abbrev run_with : ResponseStatus → Executor ℕ
run_with status = record {
  verifier = verifier;
  head = λ w. (answered w, w);
  build = λ now s. ok (record {
    party = buyer;
    expected_sequence = 1;
    document = record { chain_time = 100; expires_at = 1000; active_offer = none };
    observation_hash = codes "hash";
  });
  agent_turn = λ party turn w. (agent_responded (answer_with status), w);
  meanwhile = λ s. s;
  restore = λ party w. (agent_restored, w);
  wallet = λ party. some (codes "buyer");
  opened = λ w. some (record { session_id = codes "session"; config_hash = codes "config" });
  submit_action = λ turn s. (ok (codes "submitted"), s);
  session_expires_at = some 1000;
  observation_retries = 5;
}

abbrev fresh_run : TurnStore ℕ
fresh_run = record {
  world = 100;
  turns = [];
  decisions = [];
  actions = [];
  termination = none;
  events = [];
}

run_with-IsTame : (status : ResponseStatus) → IsTame (run_with status)
run_with-IsTame status = record {
  meanwhile_quiet =
      λ s. record { same_charges = refl; same_deeds = refl; keeps_termination = inl refl };
  submit_quiet =
      λ turn s. record { same_charges = refl; same_deeds = refl; keeps_termination = inl refl };
}

abbrev signed_deed : Deed
signed_deed = record {
  turn = 1;
  sequence = 1;
  payload = record {
    kind = offer_action;
    typed_message = some message;
    digest = codes "digest";
    signer = codes "buyer";
    signature = codes "signature";
  };
  message = message;
}

signed_first :
    Among signed_deed (deeds (perform_steps (run_with response_signed) (true ∷ []) fresh_run))
unfolding perform_steps perform_step advance advance_from begin begin_at begin_with head_time
    add_turn ask_turn decide ask_agent heard record_response record_answer record_signed
    record_checked accepted_payload authorised_attempt check terms_hold sign_in submit move_turn
    append open_turn reading pure ◌>>=◌
signed_first = inl refl

perform_steps-IsBacked_example :
    IsBacked
      (run_with response_signed)
      (charges (perform_steps (run_with response_signed) (true ∷ []) fresh_run))
      signed_deed
perform_steps-IsBacked_example =
    perform_steps-IsBacked (run_with response_signed) (run_with-IsTame response_signed) (true ∷ [])
      fresh_run signed_deed refl signed_first

abbrev stopped_run : TurnStore ℕ
stopped_run = record fresh_run { termination = some (codes "operator", 1) }

perform_steps-terminated_example :
    deeds (perform_steps (run_with response_signed) (true ∷ true ∷ []) stopped_run) ≡ []
perform_steps-terminated_example =
    perform_steps-terminated (run_with response_signed) (run_with-IsTame response_signed)
      (true ∷ true ∷ []) stopped_run (λ e. ground arith)

abbrev failing : Executor ℕ
failing = run_with response_failed

fails_first : advance failing fresh_run ≡ (
  ok (record { status = turn_model_failed; cause = some (codes "model_failure"); turn = some 1 }),
  (advance failing fresh_run).1,
)
unfolding advance advance_from begin begin_at begin_with head_time add_turn ask_turn decide
    ask_agent heard record_response record_answer record_failed move_turn open_turn reading pure
    ◌>>=◌
fails_first = refl

advance-owes_abort_example : (advance failing fresh_run).1.termination ≢ none
advance-owes_abort_example =
    advance-owes_abort failing fresh_run (advance failing fresh_run).1
      (record { status = turn_model_failed; cause = some (codes "model_failure"); turn = some 1 })
      fails_first refl

perform_steps-AreNumbered_example :
    AreNumbered 1 (charges (perform_steps (run_with response_signed) (true ∷ true ∷ []) fresh_run))
perform_steps-AreNumbered_example =
    perform_steps-AreNumbered (run_with response_signed) (run_with-IsTame response_signed)
      (true ∷ true ∷ []) fresh_run tt
