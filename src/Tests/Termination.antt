-- ===== src/Tests/Termination.antt =====
-- A run's termination at a concrete course: an abort that reverted, then an expiry.
use agentic_negotiators_sbx.Api.Controller.Termination.{
  EndingView, expire_now, is_expiry, terminating, termination_rows,
}
use agentic_negotiators_sbx.Api.Controller.Termination.Expiry.{terminating-expires_iff}
use agentic_negotiators_sbx.Api.Controller.Termination.Sends.{
  Course, Course-IsBrief, IsBrief, opening, others, sends_one,
}
use agentic_negotiators_sbx.Api.Relay.Outbox.{
  OutboxRecord, TxKind, TxStatus, abort_session, expire_session, is_live,
}
use agentic_negotiators_sbx.Prelude.{
  List, [], any_of, codes, false, none, refl, some, true, ℕ, ◌++◌, ◌↔◌, ◌∷◌, ◌≡◌, ◌≤◌,
}

abbrev row_with : TxKind → TxStatus → OutboxRecord
row_with kind status = record {
  id = 0;
  run_id = 1;
  kind = kind;
  sender = codes "relay";
  nonce = 1;
  raw_tx = [];
  tx_hash = [];
  signed_action_id = none;
  replaces_id = none;
  status = status;
  attempts = 1;
  last_error = none;
  block_number = none;
  submitted_block = none;
}

abbrev view_at : ℕ → EndingView
view_at now = record {
  termination_code = some 1;
  session_expires_at = some 1000;
  is_opened = true;
  is_ended = false;
  head_time = now;
}

abbrev aborted : List OutboxRecord
aborted = row_with abort_session TxStatus.reverted ∷ []

abbrev ended_course :
    Course
      (abort_session ∷ expire_session ∷ [])
      (aborted ++ row_with expire_session TxStatus.pending ∷ [])
unfolding terminating
ended_course = sends_one (view_at 1000) (row_with expire_session TxStatus.pending) refl (
    others {rows = row_with abort_session TxStatus.pending ∷ []} aborted refl refl
      (sends_one (view_at 10) (row_with abort_session TxStatus.pending) refl (opening [] refl)))

Course-IsBrief_example : IsBrief (abort_session ∷ expire_session ∷ [])
Course-IsBrief_example =
    Course-IsBrief (abort_session ∷ expire_session ∷ [])
      (aborted ++ row_with expire_session TxStatus.pending ∷ []) ended_course

terminating-expires_iff_example : (terminating (view_at 1000) aborted ≡ expire_now) ↔ (
    (any_of (λ r. is_live r.status) (termination_rows aborted) ≡ false)
    × ((view_at 1000).is_ended ≡ false)
    × ((view_at 1000).is_opened ≡ true)
    × ((d : ℕ) × ((view_at 1000).session_expires_at ≡ some d) × (d ≤ 1000))
    × (any_of (λ r. is_expiry r.kind) aborted ≡ false))
terminating-expires_iff_example = terminating-expires_iff (view_at 1000) aborted
