-- ===== src/Api/Controller/Termination/Expiry.antt =====
-- When `_terminating` sends an expiry.
use agentic_negotiators_sbx.Api.Controller.Termination.{
  EndingView, abort_now, expire_now, give_up, is_expired, is_expiry, is_termination, none_sent,
  terminating, termination_rows, wait_on,
}
use agentic_negotiators_sbx.Api.Controller.Termination.Sends.{
  any_of-keep_if, expiry_terminates, has_expiry, no_expiry, not_lem, unsent_lem,
}
use agentic_negotiators_sbx.Api.Relay.Outbox.{OutboxRecord, is_live}
use agentic_negotiators_sbx.Prelude.{
  Bool, List, Option, any_of, arith, false, if◌then◌else◌, leb, none, not, refl, some,
  some_injective, sym, true, ℕ, ◌&&◌, ◌↔◌, ◌∙◌, ◌≡◌, ◌≤◌,
}

expires_when :
    (live ended opened unsent expired expiry : Bool) (code : Option ℕ)
    → (unsent ≡ true → expiry ≡ false)
    → ((if live
          then wait_on
          else if ended
          then wait_on
          else if not opened
          then wait_on
          else if not unsent && not (expired && not expiry)
          then give_up
          else if expired
          then expire_now
          else elim code [ none ↦ wait_on | some c ↦ abort_now c ])
        ≡ expire_now)
      ↔ ((live ≡ false) × (ended ≡ false) × (opened ≡ true) × (expired ≡ true) × (expiry ≡ false))
expires_when true ended opened unsent expired expiry code h = ground arith
expires_when false true opened unsent expired expiry code h = ground arith
expires_when false false false unsent expired expiry code h = ground arith
expires_when false false true true true expiry code h =
    ((λ e. (refl, refl, refl, refl, h refl)), (λ p. refl))
expires_when false false true true false expiry none h = ground arith
expires_when false false true true false expiry (some c) h = ground arith
expires_when false false true false true true code h = ground arith
expires_when false false true false true false code h =
    ((λ e. (refl, refl, refl, refl, refl)), (λ p. refl))
expires_when false false true false false expiry code h = ground arith

expired_iff :
    (deadline : Option ℕ) (now : ℕ)
    → ((elim deadline [ none ↦ false | some d ↦ leb d now ]) ≡ true)
      ↔ ((d : ℕ) × (deadline ≡ some d) × (d ≤ now))
expired_iff none now = ground arith
expired_iff (some d) now =
    ((λ e. (d, refl, ground arith)), (λ p. ground (arith, some_injective p.1)))

-- An expiry is sent exactly when no termination is live, the session is open and not ended, its
-- deadline has come, and no expiry was sent before, whatever became of an abort.
pub terminating-expires_iff :
    (v : EndingView) (rows : List OutboxRecord)
    → (terminating v rows ≡ expire_now) ↔ (
        (any_of (λ r. is_live r.status) (termination_rows rows) ≡ false)
        × (v.is_ended ≡ false)
        × (v.is_opened ≡ true)
        × ((d : ℕ) × (v.session_expires_at ≡ some d) × (d ≤ v.head_time))
        × (any_of (λ r. is_expiry r.kind) rows ≡ false))
unfolding terminating
terminating-expires_iff v rows =
    let kinds =
      any_of-keep_if (λ r. is_expiry r.kind) (λ r. is_termination r.kind) rows
        (λ r. expiry_terminates r.kind) in
    let both =
      expires_when (any_of (λ r. is_live r.status) (termination_rows rows)) v.is_ended v.is_opened
        (none_sent (termination_rows rows)) (is_expired v) (has_expiry (termination_rows rows))
        v.termination_code (λ f. kinds ∙ no_expiry rows (not_lem (sym (unsent_lem rows) ∙ f))) in
    let past = expired_iff v.session_expires_at v.head_time in
    (
      (λ e. let (a, b, c, d, f) = both.0 e in (a, b, c, past.0 d, sym kinds ∙ f)),
      (λ p. let (a, b, c, d, f) = p in both.1 (a, b, c, past.1 d, kinds ∙ f)),
    )
