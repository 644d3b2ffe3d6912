-- ===== src/Api/Controller/Termination.antt =====
-- controller/driver.py, ending a session early: `_terminating` and what it reads.
pub mod Sends
pub mod Expiry
use agentic_negotiators_sbx.Api.Relay.Outbox.{
  OutboxRecord, TxKind, abort_session, expire_session, is_live,
}
use agentic_negotiators_sbx.Prelude.{
  Bool, List, Option, [], any_of, false, if◌then◌else◌, keep_if, leb, none, not, some, true, ℕ,
  ◌&&◌, ◌∷◌,
}

-- `TERMINATIONS`
abbrev pub is_termination : TxKind → Bool
is_termination abort_session = true
is_termination expire_session = true
is_termination _ = false

abbrev pub is_expiry : TxKind → Bool
is_expiry expire_session = true
is_expiry _ = false

-- `_termination_rows`
abbrev pub termination_rows : List OutboxRecord → List OutboxRecord
termination_rows rows = keep_if (λ r. is_termination r.kind) rows

-- What `_terminating` reads of the run, its canonical events and the chain's head.
pub record EndingView : Type 0 where
  pub termination_code : Option ℕ
  pub session_expires_at : Option ℕ
  pub is_opened : Bool
  pub is_ended : Bool
  pub head_time : ℕ

-- What `_terminating` does: it waits, leaves the run to a person, or sends a transaction.
pub data Ending : Type 0 where
  wait_on give_up expire_now : Ending
  abort_now : ℕ → Ending

abbrev pub is_expired : EndingView → Bool
is_expired v = elim v.session_expires_at [ none ↦ false | some deadline ↦ leb deadline v.head_time ]

-- With no termination in flight and none sent that stands in the way.
abbrev pub send_due : EndingView → Ending
send_due v =
    if is_expired v
    then expire_now
    else elim v.termination_code [ none ↦ wait_on | some code ↦ abort_now code ]

abbrev pub none_sent : List OutboxRecord → Bool
none_sent [] = true
none_sent (r ∷ rs) = false

-- `_terminating`
unfoldable pub terminating : EndingView → List OutboxRecord → Ending
terminating v outbox =
    let rows = termination_rows outbox in
    if any_of (λ r. is_live r.status) rows
    then wait_on
    else if v.is_ended
    then wait_on
    else if not v.is_opened
    then wait_on
    else if not (none_sent rows) && not (is_expired v && not (any_of (λ r. is_expiry r.kind) rows))
    then give_up
    else send_due v
