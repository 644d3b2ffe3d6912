-- ===== src/Api/Metrics/Costs.antt =====
-- metrics/figures.py: what the decisions and the transactions of a run cost. An amount of money is a number of
-- micro-dollars, as the database keeps it; `None` is an unknown price.
pub mod Totals
pub mod FirstSent
use agentic_negotiators_sbx.Agent.Turns.{sent}
use agentic_negotiators_sbx.Prelude.{
  Bool, List, Option, Text, [], any_of, codes, if◌then◌else◌, min, nat_eq, none, some, text_eq, ℕ,
  ◌&&◌, ◌*◌, ◌+◌, ◌==◌, ◌∷◌,
}
use agentic_negotiators_sbx.Prelude.Int.{max_ℤ, pos, sub_ℕ, ℤ, ◌+ℤ◌}

-- The fields of a `DecisionRecord` that the figure reads; a usage is a dict.
pub record Decision : Type 0 where
  pub by_model : Bool
  pub latency_ms : Option ℕ
  pub usage : Option (List (Text × ℕ))
  pub cost_estimated_usd : Option ℕ
  pub cost_reported_usd : Option ℕ

pub record ModelCost : Type 0 where
  pub calls : ℕ
  pub input_tokens : ℕ
  pub output_tokens : ℕ
  pub estimated_usd : Option ℕ
  pub reported_usd : Option ℕ
  pub decision_time_ms : ℕ

-- `_add`
add_known : Option ℕ → Option ℕ → Option ℕ
add_known none value = none
add_known (some total) none = none
add_known (some total) (some value) = some (total + value)

-- `x or 0`
or_zero : Option ℕ → ℕ
or_zero none = 0
or_zero (some n) = n

-- `usage.get(key, 0)` of `usage = decision.usage or {}`
tokens_of : Text → Option (List (Text × ℕ)) → ℕ
tokens_of key none = 0
tokens_of key (some []) = 0
tokens_of key (some ((k, n) ∷ rest)) = if key == k then n else tokens_of key (some rest)

-- The sum over `_INPUT_TOKEN_KEYS`.
input_tokens_of : Option (List (Text × ℕ)) → ℕ
unfolding tokens_of
input_tokens_of usage =
    tokens_of (codes "input_tokens") usage
    + tokens_of (codes "cache_read_input_tokens") usage
    + tokens_of (codes "cache_creation_input_tokens") usage

-- The body of the loop of `model_cost`.
count_decision : ModelCost → Decision → ModelCost
unfolding add_known or_zero tokens_of input_tokens_of
count_decision total d =
    let timed = record total { decision_time_ms = total.decision_time_ms + or_zero d.latency_ms } in
    if d.by_model
    then record {
      calls = total.calls + 1;
      input_tokens = total.input_tokens + input_tokens_of d.usage;
      output_tokens = total.output_tokens + tokens_of (codes "output_tokens") d.usage;
      estimated_usd = add_known total.estimated_usd d.cost_estimated_usd;
      reported_usd = add_known total.reported_usd d.cost_reported_usd;
      decision_time_ms = timed.decision_time_ms;
    }
    else timed

count_decisions : ModelCost → List Decision → ModelCost
unfolding count_decision
count_decisions total [] = total
count_decisions total (d ∷ ds) = count_decisions (count_decision total d) ds

unfoldable pub model_cost : List Decision → ModelCost
unfolding count_decisions
model_cost decisions =
    count_decisions
      (record {
        calls = 0;
        input_tokens = 0;
        output_tokens = 0;
        estimated_usd = some 0;
        reported_usd = some 0;
        decision_time_ms = 0;
      })
      decisions

-- The fields of an `OutboxRecord` that the figure reads; times are microseconds.
pub record OutboxRow : Type 0 where
  pub kind : Text
  pub sender : Text
  pub nonce : ℕ
  pub submitted_at : Option ℕ
  pub included_at : Option ℕ
  pub gas_used : Option ℕ
  pub effective_gas_price_wei : Option ℕ

pub record ChainCost : Type 0 where
  pub gas_used : ℕ
  pub fee_wei : ℕ
  pub wait_ms : ℤ

-- `min(first_sent.get(key, at), at)`
earlier : Option ℕ → ℕ → ℕ
earlier none at = at
earlier (some t) at = min t at

-- `first_sent.get(key)` after a row.
sent_by : Text → ℕ → Option ℕ → OutboxRow → Option ℕ
unfolding earlier
sent_by sender nonce sent row =
    if row.sender == sender && row.nonce == nonce
    then elim row.submitted_at [ none ↦ sent | some at ↦ some (earlier sent at) ]
    else sent

-- The same after the rows, from the first to the last.
unfoldable pub first_sent : Text → ℕ → Option ℕ → List OutboxRow → Option ℕ
unfolding sent_by
first_sent sender nonce sent [] = sent
first_sent sender nonce sent (row ∷ rows) =
    first_sent sender nonce (sent_by sender nonce sent row) rows

-- `max(0, int((row.included_at - sent).total_seconds() * 1000))`, where `milliseconds` is
-- `int(d.total_seconds() * 1000)` of a difference in microseconds, a float on the way.
wait_of : (ℤ → ℤ) → Option ℕ → Option ℕ → ℤ
wait_of milliseconds none included = pos 0
wait_of milliseconds (some sent) none = pos 0
wait_of milliseconds (some sent) (some at) = max_ℤ (pos 0) (milliseconds (sub_ℕ at sent))

-- The body of the loop of `chain_cost`, over a row that was mined.
add_mined : (ℤ → ℤ) → List OutboxRow → ChainCost → OutboxRow → ℕ → ChainCost
unfolding first_sent wait_of or_zero
add_mined milliseconds rows total row gas = record {
  gas_used = total.gas_used + gas;
  fee_wei = total.fee_wei + gas * or_zero row.effective_gas_price_wei;
  wait_ms =
      total.wait_ms
      +ℤ wait_of milliseconds (first_sent row.sender row.nonce none rows) row.included_at;
}

add_row : (ℤ → ℤ) → List Text → List OutboxRow → ChainCost → OutboxRow → ChainCost
unfolding add_mined
add_row milliseconds kinds rows total row =
    if any_of (λ k. row.kind == k) kinds
    then elim row.gas_used [ none ↦ total | some gas ↦ add_mined milliseconds rows total row gas ]
    else total

add_rows : (ℤ → ℤ) → List Text → List OutboxRow → ChainCost → List OutboxRow → ChainCost
unfolding add_row
add_rows milliseconds kinds all total [] = total
add_rows milliseconds kinds all total (row ∷ rows) =
    add_rows milliseconds kinds all (add_row milliseconds kinds all total row) rows

unfoldable pub chain_cost : (ℤ → ℤ) → List OutboxRow → List Text → ChainCost
unfolding add_rows
chain_cost milliseconds rows kinds =
    add_rows milliseconds kinds rows (record { gas_used = 0; fee_wei = 0; wait_ms = pos 0 }) rows
