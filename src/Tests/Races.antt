-- ===== src/Tests/Races.antt =====
-- The relay while another task signs the same action.
use mathlib.Core.Path.{subst}
use agentic_negotiators_sbx.Api.Effects.{pure, raise, reading, unit_of_work, ◌>>=◌}
use agentic_negotiators_sbx.Api.Relay.Broadcast.{
  broadcast, carry_action, judged, offered, record_broadcast, recorded, resume, send,
}
use agentic_negotiators_sbx.Api.Relay.Chain.{Relay, ask, catch_outage, hand_out}
use agentic_negotiators_sbx.Api.Relay.Fees.{gas_limit, initial_fees}
use agentic_negotiators_sbx.Api.Relay.Invariant.{
  Claim, Good, IsOpen, IsQuiet, IsSignedOnce, IsUnused, claim_of, claims,
}
use agentic_negotiators_sbx.Api.Relay.Invariant.Adding.{unused-IsFree}
use agentic_negotiators_sbx.Api.Relay.Invariant.Outbox.{claim_added, same}
use agentic_negotiators_sbx.Api.Relay.Invariant.Runs.{
  op_action, perform, perform_all, perform_all-IsSignedOnce,
}
use agentic_negotiators_sbx.Api.Relay.Outbox.{
  OutboxRecord, Store, TxStatus, add_row, close_session, fits_index, for_signed_action, is_live_for,
  live_for_signed_action, mark_submitted, number_beq, pending, reverted, update_row, write_rows,
}
use agentic_negotiators_sbx.Api.Relay.Submission.{
  add, persist, submit_action, submit_fresh, submit_from, take_nonce, take_relay_nonce,
  write_signed, yield_to_others,
}
use agentic_negotiators_sbx.Prelude.{
  Among, Among-append-cases, Among-map_append, Among-unmap, Bool, List, [], any_of, ap, arith,
  codes, false, if◌then◌else◌, inl, inr, map-append, nat_eq, none, refl, some, some_injective, sym,
  text_eq, true, ℕ, ◌++◌, ◌==◌, ◌∙◌, ◌∷◌, ◌≡◌,
}
use agentic_negotiators_sbx.Tests.Outbox.{calls, nothing_sent, started, steady}

-- The other task's transaction of action five.
abbrev theirs : TxStatus → OutboxRecord
theirs status = record {
  id = 0;
  run_id = 1;
  kind = close_session;
  sender = codes "relay";
  nonce = 9;
  raw_tx = 9 ∷ [];
  tx_hash = 9 ∷ [];
  signed_action_id = some 5;
  replaces_id = none;
  status = status;
  attempts = 0;
  last_error = none;
  block_number = none;
  submitted_block = none;
}

abbrev carries : OutboxRecord → Bool
carries row = number_beq (some 5) row.signed_action_id

abbrev signed_by_them : TxStatus → Store ℕ → Store ℕ
signed_by_them status s =
    if any_of carries s.outbox then s else record s { outbox = s.outbox ++ theirs status ∷ [] }

abbrev racing : TxStatus → Relay ℕ
racing status = record steady { meanwhile = signed_by_them status }

not_carried :
    (rows : List OutboxRecord) (row : OutboxRecord)
    → any_of carries rows ≡ false
    → Among row rows
    → carries row ≡ false
not_carried [] row e i = elim i [ ]
not_carried (r ∷ rows) row e (inl f) = ap carries f ∙ ground (arith, e)
not_carried (r ∷ rows) row e (inr i) = not_carried rows row (ground (arith, e)) i

not_used : (s : Store ℕ) → any_of carries s.outbox ≡ false → IsUnused 5 s
not_used s e d i f =
    let (row, j, g) = Among-unmap claim_of d s.outbox i in
    let same_action : row.signed_action_id ≡ some 5 = ap (λ c. c.action) (sym g) ∙ f in
    cc (not_carried s.outbox row e j, ap (number_beq (some 5)) same_action)

-- Whatever became of it, their transaction leaves the claims sound.
racing-keeps :
    (status : TxStatus) (L : List Claim) (s : Store ℕ) → Good L s → Good L (signed_by_them status s)
racing-keeps status L s good = by_test (any_of carries s.outbox) refl
  where
    by_test :
        (b : Bool)
        → any_of carries s.outbox ≡ b
        → Good L (if b then s else record s { outbox = s.outbox ++ theirs status ∷ [] })
    by_test true e = good
    by_test false e = record {
      sound =
          subst (λ cs. IsSignedOnce cs s.sent)
            (sym (map-append claim_of s.outbox (theirs status ∷ [])))
            (claim_added (claims s) (claim_of (theirs status)) s.sent
              (unused-IsFree (claim_of (theirs status)) (claims s) 5 refl (not_used s e))
              good.sound);
      has = λ c i. Among-map_append claim_of c s.outbox (theirs status ∷ []) (good.has c i);
    }

last_live :
    (a : ℕ) (rows : List OutboxRecord) (row : OutboxRecord)
    → is_live_for a row ≡ true
    → any_of (is_live_for a) (rows ++ row ∷ []) ≡ true
last_live a [] row e = ground (arith, e)
last_live a (r ∷ rows) row e = ground (arith, last_live a rows row e)

racing-opens : (a : ℕ) (s : Store ℕ) → IsUnused a s → IsOpen a (signed_by_them pending s)
racing-opens a s unused = by_test (any_of carries s.outbox) (a == 5) refl
  where
    by_test :
        (b c : Bool)
        → (a == 5) ≡ c
        → IsOpen a (if b then s else record s { outbox = s.outbox ++ theirs pending ∷ [] })
    by_test true c e = inl unused
    by_test false true e = inr (last_live a s.outbox (theirs pending) (ground (arith, e)))
    by_test false false e = inl (λ d i f.
        elim (Among-append-cases d (claim_of (theirs pending)) (claims s)
          (subst (Among d) (map-append claim_of s.outbox (theirs pending ∷ [])) i)) [
            | inl j ↦ unused d j f
            | inr g ↦ absurd (ground (arith, e, some_injective (sym f ∙ ap (λ c. c.action) g)))
          ])

racing-IsQuiet : IsQuiet (racing pending)
racing-IsQuiet = record {
  keeps = racing-keeps pending;
  opens = λ run a s unused of_run. inl (racing-opens a s unused);
}

perform_all-IsSignedOnce_example :
    IsSignedOnce
      (claims (perform_all (racing pending) calls started))
      (perform_all (racing pending) calls started).sent
perform_all-IsSignedOnce_example =
    perform_all-IsSignedOnce (racing pending) racing-IsQuiet calls started nothing_sent

-- Their transaction is found and sent, and no second one is signed.
resumed :
    claims (perform_all (racing pending) (op_action 1 5 ∷ []) started)
    ≡ claim_of (theirs pending) ∷ []
unfolding perform_all perform submit_action submit_from submit_fresh persist write_signed take_nonce
    take_relay_nonce add add_row write_rows fits_index yield_to_others ask unit_of_work broadcast
    send offered judged recorded record_broadcast mark_submitted update_row carry_action hand_out
    catch_outage for_signed_action initial_fees gas_limit reading pure raise live_for_signed_action
    resume ◌>>=◌
resumed = refl

-- Where it is reverted by the time that the transaction is priced, a second one is signed.
signed_twice :
    claims (perform_all (racing reverted) (op_action 1 5 ∷ []) started)
    ≡ claim_of (theirs reverted)
      ∷ record { action = some 5; sender = codes "relay"; nonce = 7; raw = 7 ∷ 21 ∷ [] }
      ∷ []
unfolding perform_all perform submit_action submit_from submit_fresh persist write_signed take_nonce
    take_relay_nonce add add_row write_rows fits_index yield_to_others ask unit_of_work broadcast
    send offered judged recorded record_broadcast mark_submitted update_row carry_action hand_out
    catch_outage for_signed_action initial_fees gas_limit reading pure raise live_for_signed_action
    resume ◌>>=◌
signed_twice = refl

-- Another process takes the run's lease over, signs the action, and sees it reverted.
abbrev taken_over : Relay ℕ
taken_over = record steady { meanwhile = λ s. record (signed_by_them reverted s) { leases = [] } }

taken_over-IsQuiet : IsQuiet taken_over
taken_over-IsQuiet = record {
  keeps =
      λ L s good. same L (signed_by_them reverted s) _ refl refl (racing-keeps reverted L s good);
  opens = λ run a s unused of_run. inr refl;
}

taken_over-IsSignedOnce :
    IsSignedOnce
      (claims (perform_all taken_over calls started))
      (perform_all taken_over calls started).sent
taken_over-IsSignedOnce =
    perform_all-IsSignedOnce taken_over taken_over-IsQuiet calls started nothing_sent

-- Nothing is signed without the lease.
lost_lease :
    claims (perform_all taken_over (op_action 1 5 ∷ []) started) ≡ claim_of (theirs reverted) ∷ []
unfolding perform_all perform submit_action submit_from submit_fresh persist write_signed take_nonce
    take_relay_nonce add add_row write_rows fits_index yield_to_others ask unit_of_work broadcast
    send offered judged recorded record_broadcast mark_submitted update_row carry_action hand_out
    catch_outage for_signed_action initial_fees gas_limit reading pure raise live_for_signed_action
    resume ◌>>=◌
lost_lease = refl
