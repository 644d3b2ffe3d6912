-- ===== src/Lib.antt =====
-- The negotiation sandbox: two agents, a buyer and a seller, bargain over one trade. Each agent
-- instance (services/agent/src/agent) decides and signs for one party; the backend
-- (services/api/src/api) runs the sessions, relays what is signed to the chain and records what
-- happened; both use the shared protocol values (packages/protocol/src/negotiation_protocol).
--
-- The parts and their files:
--   Prelude/          Booleans, lists, texts, results and integers that the parts share.
--   Protocol/         values.py (`parse`, `to_json`, `digest`, `sequence`) and reasons.py.
--   Agent/Observation observation.py: what an instance is shown, and whose turn it reads there.
--   Agent/Consistency consistency.py: `contradictions`, every problem of an observation.
--   Agent/Json        a model's response as Python's `json` reads it.
--   Agent/Validation/ validation: structure.py's `parse_decision` in Structure, mandate.py's
--                     `MandateValidator` in Mandate, one function for each check.
--                     Mandate/Legal says from the protocol what a legal trade is.
--   Agent/Policy/     policy/base.py, and policy/deterministic.py's `concession_price` and
--                     `_choose`, which asks the validator before it answers.
--   Agent/Signing/    signing/session.py's `approve_session` and `mismatches_with`, and
--                     signing/messages.py's `sign_decision` in Actions; signing/setup.py in Setup.
--   Agent/Turns/      turns/__init__.py's `TurnExecutor.run`: the policy is asked, its answer
--                     validated, repaired as often as provisioned, and signed.
--   Agent/Budget/     budget/prices.py and budget/guard.py.
--   Api/Controller/   controller/states.py, and controller/driver.py's `RunStates` in States and
--                     `_terminating` in Termination.
--   Api/Metrics/      metrics/figures.py: `feasibility`, `utilities` and `mandate_violations` in
--                     Figures, `_deltas_match` in Settlement, `failure_class` in Failure and
--                     `model_cost` and `chain_cost` in Costs.
--   Api/Effects       code that reads and changes a store and may raise: `do` blocks, a unit of
--                     work, a loop over a list.
--   Api/Relay/        relay/fees.py in Fees; relay/relay.py's `Relay`: the outbox's rows and their
--                     repository in Outbox, `_send` in Broadcast, `submit_action`, `submit_call`
--                     and `submit_presigned` in Submission, `reconcile` and `replace_stuck` in
--                     Recovery. Chain holds what the relay is given.
--   Api/Turns/        turns/executor.py's `TurnExecutor`: rows in Records and Rows, `_check` in
--                     Checks, `_follow` in Executor, `_record` in Recording, `_ask` in Asking,
--                     `advance` and `close` in Advance.
--   Tests/            the theorems at a concrete session.
--
-- State: a turn passes on the state of an `Environment`, whose functions are the clock, the
-- policy, the latency and the run's release; a budget guard and a run's row are records that each
-- operation takes and returns. The relay and the backend's executor act on a store of rows, and
-- what they stored before an exception stays, but for an open unit of work. An exception is an
-- error value, and a `None` is `none`. A Python `str` is the list of its code points. Amounts
-- that the code's classes keep from being negative are natural numbers; where the code subtracts,
-- the result is an integer.
--
-- Interaction: the relay is given a node (`ChainAdapter`), its signers and the rows that other
-- tasks change while a transaction is priced (`meanwhile`; `IsQuiet` says what they keep: the claims,
-- and for an action that they sign meanwhile a live transaction, unless they hold its run's lease);
-- the executor is given its agents, the relay's `submit_action` and what other tasks do while an
-- agent decides (`IsTame`). Every other stretch between two units of work is run without a break.
-- Rows of the outbox are numbered in the order they are added, and one run's turns by their turn.
--
-- Loops: `run_attempts` recurses on the attempts left, which is the loop's own range. `emit`
-- writes the digits of n with n + 1 steps, and n has fewer digits.
--
-- Parameters: the hash of a configuration and of a message (the EIP-712 encoder over keccak), the
-- calldata of an approval and every signature are the fields of `Hashing`, `RunSigner` and
-- `SetupSigner`, and `chain_cost` takes the milliseconds of a duration, a float on the way; of
-- these nothing is assumed. A rate of a model is a whole number of 1 / scale dollars for a million
-- tokens, so that no Decimal is rounded before `_usd` rounds it up; the 28 digits of Python's
-- Decimal are not modelled.
--
-- Not modelled: the words of feedback texts, the prompt and the model client, the agent's
-- registry, keys and routes, the rest of the backend's driver, its setup, indexer, observation
-- builder and projections, the storage beyond the rows above, the contracts and the web client.
-- They are I/O, other languages or third-party code around the parts above, or parts that this
-- library leaves out.
pub mod Prelude
pub mod Protocol
pub mod Agent
pub mod Api
pub mod Tests
