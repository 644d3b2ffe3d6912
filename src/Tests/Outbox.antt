-- ===== src/Tests/Outbox.antt =====
-- The relay at a concrete outbox: a node that takes everything in, and one signed action.
use agentic_negotiators_sbx.Agent.Signing.{close_message}
use agentic_negotiators_sbx.Agent.Signing.Actions.{close_action}
use agentic_negotiators_sbx.Api.Effects.{pure, raise, reading, unit_of_work, ◌>>=◌}
use agentic_negotiators_sbx.Api.Relay.Broadcast.{
  broadcast, carry_action, judged, offered, record_broadcast, recorded, send,
}
use agentic_negotiators_sbx.Api.Relay.Chain.{
  ChainAdapter, Relay, TransactionSigner, TxFields, answered, ask, catch_outage, hand_out, taken_in,
}
use agentic_negotiators_sbx.Api.Relay.Fees.{Fees, gas_limit, initial_fees}
use agentic_negotiators_sbx.Api.Relay.Invariant.{IsQuiet, IsSignedOnce, claims}
use agentic_negotiators_sbx.Api.Relay.Invariant.Runs.{
  Operation, op_action, op_reconcile, op_replace, perform, perform_all, perform_all-IsSignedOnce,
  perform_all-claims,
}
use agentic_negotiators_sbx.Api.Relay.Outbox.{
  Store, action_signed, add_row, fits_index, for_signed_action, mark_submitted, update_row,
  write_rows,
}
use agentic_negotiators_sbx.Api.Relay.Submission.{
  add, persist, submit_action, submit_fresh, submit_from, take_nonce, take_relay_nonce,
  write_signed, yield_to_others,
}
use agentic_negotiators_sbx.Prelude.{
  Among, List, [], codes, false, inl, none, refl, some, true, ℕ, ◌+◌, ◌∷◌,
}

abbrev fees : Fees
fees = record { max_fee_per_gas = 30; max_priority_fee_per_gas = 1 }

abbrev drafted : TxFields
drafted = record {
  chain_id = 1;
  nonce = 7;
  to = none;
  value = 0;
  data_field = [];
  gas = 21000;
  fees = fees;
}

abbrev key : TransactionSigner
key = record {
  address = codes "relay";
  sign_transaction = λ t. record {
    raw_transaction = t.nonce ∷ t.fees.max_fee_per_gas ∷ [];
    tx_hash = t.nonce ∷ t.fees.max_fee_per_gas ∷ [];
  };
}

abbrev node : ChainAdapter ℕ
node = record {
  fee_quote = λ w. (answered (record { base_fee_per_gas = 10; max_priority_fee_per_gas = 1 }), w);
  estimate_gas = λ call w. (answered (some 21000), w);
  pending_nonce = λ address w. (answered 7, w);
  head = λ w. (answered w, w + 10);
  send_raw = λ raw w. (answered taken_in, w);
  receipt = λ tx_hash w. (answered false, w);
  transaction = λ tx_hash w. (answered false, w);
  mined_nonce = λ address w. (answered 7, w);
}

abbrev pub steady : Relay ℕ
steady = record {
  chain = node;
  chain_id = 1;
  exchange = codes "exchange";
  relay_signer = key;
  operator_signer = none;
  policy = record {
    max_fee_per_gas_wei = 100;
    fallback_gas_limit = 100000;
    gas_margin_quarters = 5;
  };
  replace_after_blocks = 3;
  encode_signed_action = λ kind message signature. signature;
  decode_raw_transaction = λ raw. some drafted;
  keccak = λ raw. raw;
  recover = λ raw. codes "agent";
  collates = λ a b. true;
  on_deployment = λ run_id. true;
  meanwhile = λ s. s;
}

steady-IsQuiet : IsQuiet steady
steady-IsQuiet = record {
  keeps = λ L s good. good;
  opens = λ run a s unused of_run. inl (inl unused);
}

abbrev pub started : Store ℕ
started = record {
  world = 100;
  outbox = [];
  actions =
      record {
        id = 5;
        run_id = 1;
        kind = close_action;
        message = close_message [] [] 1 [] 1;
        signature = codes "signature";
        status = action_signed;
      }
      ∷ [];
  leases = (1, 3) ∷ [];
  sent = [];
}

abbrev pub calls : List Operation
calls = op_action 1 5 ∷ op_replace 1 ∷ op_action 1 5 ∷ op_reconcile 1 ∷ []

pub nothing_sent : IsSignedOnce (claims started) started.sent
nothing_sent = record { once = λ c i. elim i [ ]; stored = λ b i. elim i [ ] }

abbrev after_first : Store ℕ
after_first = perform_all steady (op_action 1 5 ∷ []) started

first_claim :
    Among
      (record { action = some 5; sender = codes "relay"; nonce = 7; raw = 7 ∷ 21 ∷ [] })
      (claims after_first)
unfolding perform_all perform submit_action submit_from submit_fresh persist write_signed take_nonce
    take_relay_nonce add add_row write_rows fits_index yield_to_others ask unit_of_work broadcast
    send offered judged recorded record_broadcast mark_submitted update_row carry_action hand_out
    catch_outage for_signed_action initial_fees gas_limit reading pure raise ◌>>=◌
first_claim = inl refl

perform_all-claims_example :
    Among
      (record { action = some 5; sender = codes "relay"; nonce = 7; raw = 7 ∷ 21 ∷ [] })
      (claims (perform_all steady calls after_first))
perform_all-claims_example =
    perform_all-claims steady steady-IsQuiet calls after_first
      (record { action = some 5; sender = codes "relay"; nonce = 7; raw = 7 ∷ 21 ∷ [] })
      (perform_all-IsSignedOnce steady steady-IsQuiet (op_action 1 5 ∷ []) started nothing_sent)
      first_claim
