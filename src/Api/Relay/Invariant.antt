-- ===== src/Api/Relay/Invariant.antt =====
-- What the relay's parts keep: which claim on a nonce every persisted row makes, and which bytes
-- were handed out.
pub mod Outbox
pub mod Broadcast
pub mod Adding
pub mod Submission
pub mod Submitting
pub mod Recovery
pub mod Replacement
pub mod Runs
use agentic_negotiators_sbx.Agent.Turns.{run}
use agentic_negotiators_sbx.Api.Relay.Chain.{Relay}
use agentic_negotiators_sbx.Api.Relay.Outbox.{
  OutboxRecord, SignedActionRow, Store, action_of, is_live_for,
}
use agentic_negotiators_sbx.Api.Relay.Submission.{next_nonce}
use agentic_negotiators_sbx.Prelude.{
  Among, List, Option, Text, any_of, map, none, some, true, ℕ, ◌≡◌, ◌≢◌, ◌⊎◌,
}

-- What a row claims for the action it carries; no operation on the outbox changes it.
pub record Claim : Type 0 where
  pub action : Option ℕ
  pub sender : Text
  pub nonce : ℕ
  pub raw : Text

abbrev pub claim_of : OutboxRecord → Claim
claim_of row = record {
  action = row.signed_action_id;
  sender = row.sender;
  nonce = row.nonce;
  raw = row.raw_tx;
}

-- The action has no transaction but at this sender and nonce.
abbrev pub IsFree : Claim → List Claim → Type 0
IsFree c claims =
    (d : Claim) (a : ℕ)
    → Among d claims
    → c.action ≡ some a
    → d.action ≡ some a
    → (c.sender ≡ d.sender) × (c.nonce ≡ d.nonce)

-- One action has one nonce of one sender, and only persisted bytes were handed out.
pub record IsSignedOnce (claims : List Claim) (handed : List Text) : Type 0 where
  pub once : (c : Claim) → Among c claims → IsFree c claims
  pub stored : (b : Text) → Among b handed → Among b (map (λ c. c.raw) claims)

module _ {W : Type 0} where
  abbrev pub claims : Store W → List Claim
  claims s = map claim_of s.outbox

  -- The store is sound, and has these claims.
  pub record Good (L : List Claim) (s : Store W) : Type 0 where
    pub sound : IsSignedOnce (claims s) s.sent
    pub has : (c : Claim) → Among c L → Among c (claims s)

  -- No transaction carries the action.
  abbrev pub IsUnused : ℕ → Store W → Type 0
  IsUnused a s = (d : Claim) → Among d (claims s) → d.action ≢ some a

  -- No transaction carries the action, or a live one does.
  abbrev pub IsOpen : ℕ → Store W → Type 0
  IsOpen a s = IsUnused a s ⊎ (any_of (is_live_for a) s.outbox ≡ true)

  -- An action's row is added where the action has no transaction, or a live one refuses it.
  abbrev pub IsOpenFor : Option ℕ → Store W → Type 0
  IsOpenFor none s = Unit
  IsOpenFor (some a) s = IsOpen a s

  -- The action is one of this run's.
  abbrev pub IsOf : ℕ → ℕ → Store W → Type 0
  IsOf run a s = (row : SignedActionRow) × (action_of a s.actions ≡ some row) × (row.run_id ≡ run)

  -- A run's action with no transaction.
  abbrev pub IsReadyFor : ℕ → Option ℕ → Store W → Type 0
  IsReadyFor run none s = Unit
  IsReadyFor run (some a) s = IsUnused a s × IsOf run a s

  -- An action is open, or its run's lease is lost.
  abbrev pub IsGuarded : ℕ → ℕ → Store W → Type 0
  IsGuarded run a s = IsOpen a s ⊎ (next_nonce run s.leases ≡ none)

  abbrev pub IsGuardedFor : ℕ → Option ℕ → Store W → Type 0
  IsGuardedFor run none s = Unit
  IsGuardedFor run (some a) s = IsGuarded run a s

  -- What other tasks do while a transaction is priced: they keep claims sound and persisted, and an
  -- action that had no transaction has none or a live one, or its run's lease is lost.
  pub record IsQuiet (relay : Relay W) : Type 0 where
    pub keeps : (L : List Claim) (s : Store W) → Good L s → Good L (relay.meanwhile s)
    pub opens :
        (run a : ℕ) (s : Store W)
        → IsUnused a s
        → IsOf run a s
        → IsGuarded run a (relay.meanwhile s)
