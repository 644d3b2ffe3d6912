-- ===== src/Api/Relay/Invariant/Submitting.antt =====
-- The relay's three submissions against its invariant.
use agentic_negotiators_sbx.Api.Effects.{
  Ends, Holds, Preserves, bind_lem, if_lem, pure_lem, raise, raise_lem, reading_lem,
  unit_of_work_lem, weaken_lem,
}
use agentic_negotiators_sbx.Api.Relay.Broadcast.{broadcast, resume}
use agentic_negotiators_sbx.Api.Relay.Chain.{Relay, TransactionSigner, TxFields}
use agentic_negotiators_sbx.Api.Relay.Invariant.{
  Claim, Good, IsOf, IsQuiet, IsUnused, claim_of, claims,
}
use agentic_negotiators_sbx.Api.Relay.Invariant.Adding.{add_claimed, idle-IsFree}
use agentic_negotiators_sbx.Api.Relay.Invariant.Broadcast.{broadcast-Preserves, resume-Preserves}
use agentic_negotiators_sbx.Api.Relay.Invariant.Outbox.{added_lem, claimed_lem, keep_claim}
use agentic_negotiators_sbx.Api.Relay.Invariant.Submission.{persist-lem}
use agentic_negotiators_sbx.Api.Relay.Outbox.{
  OutboxRecord, RelayError, SignedActionRow, Store, TxKind, action_of, duplicate_hash,
  duplicate_live, first_of, for_signed_action, is_live_for, lease_lost, live_for_signed_action,
  no_row, number_beq, relay_refused, rpc_unavailable,
}
use agentic_negotiators_sbx.Api.Relay.Submission.{
  call_by, continued, found_or_added, submit_action, submit_call, submit_fresh, submit_from,
  submit_presigned, submit_read, with_hash,
}
use agentic_negotiators_sbx.Prelude.{
  Among, Among-keep_if, Among-map, Among-unmap, Bool, List, Option, Result, Text, [], ap, arith,
  dropped_all, err, false, get_last?, get_last?-none, if◌then◌else◌, inl, inr, keep_if, nat_beq_iff,
  nat_eq, none, not, ok, refl, some, some_injective, sym, text_beq_iff, text_eq, true, ℕ, ◌==◌, ◌∙◌,
  ◌∷◌, ◌≡◌,
}

module _ {W : Type 0} (relay : Relay W) where
  module _ (quiet : IsQuiet relay) where
    first_of-Among :
        (p : OutboxRecord → Bool) (rows : List OutboxRecord) (r : OutboxRecord)
        → first_of (keep_if p rows) ≡ some r
        → Among r rows
    first_of-Among p rows r e = Among-keep_if r p rows (headed (keep_if p rows) e)
      where
        headed : (xs : List OutboxRecord) → first_of xs ≡ some r → Among r xs
        headed [] e = ground arith
        headed (x ∷ xs) e = inl (sym (some_injective e))

    theirs :
        (L : List Claim) (id : ℕ) (o : Option OutboxRecord) (s : Store W)
        → live_for_signed_action id s ≡ o
        → Good L s
        → Ends {E = RelayError} {A = OutboxRecord}
            (Good {W = W} L)
            (λ _. Good {W = W} L)
            (elim o [ none ↦ (err duplicate_live, s) | some live ↦ resume relay live s ])
    unfolding live_for_signed_action
    theirs L id none s e good = good
    theirs L id (some live) s e good =
        (claimed_lem L (claim_of live) (resume relay live)
            (resume-Preserves relay (claim_of live ∷ L) live (inl refl))).holds
          s
          (good, Among-map claim_of live s.outbox (first_of-Among (is_live_for id) s.outbox live e))

    submit_fresh-lem :
        (L : List Claim) (run_id id : ℕ) (action : SignedActionRow)
        → Holds
            (Good {W = W} L)
            (λ s. Good L s × (IsUnused id s × IsOf run_id id s))
            (submit_fresh relay run_id id action)
            (λ _. Good {W = W} L)
    unfolding submit_fresh
    submit_fresh-lem L run_id id action = record {
      holds = λ s p. resumed _ (
          (persist-lem relay quiet L run_id _ _ _ _ (some id) 0
              ((text_beq_iff relay.relay_signer.address relay.relay_signer.address).1 refl)).holds
            s p);
    }
      where
        resumed :
            (t : Result RelayError OutboxRecord × Store W)
            → Ends (Good {W = W} L) (λ r. Good {W = W} (claim_of r ∷ L)) t
            → Ends {E = RelayError} {A = OutboxRecord}
                (Good {W = W} L)
                (λ _. Good {W = W} L)
                (continued relay id t)
        resumed (ok row, s) good =
            (added_lem L (claim_of row) (broadcast relay row)
                (broadcast-Preserves relay (claim_of row ∷ L) row (inl refl))).holds
              s good
        resumed (err duplicate_live, s) good = theirs L id (live_for_signed_action id s) s refl good
        resumed (err (rpc_unavailable why), s) good = good
        resumed (err relay_refused, s) good = good
        resumed (err no_row, s) good = good
        resumed (err lease_lost, s) good = good
        resumed (err duplicate_hash, s) good = good

    last_of-Among :
        (rows : List OutboxRecord) (r : OutboxRecord) → get_last? rows ≡ some r → Among r rows
    last_of-Among [] r e = ground arith
    last_of-Among (x ∷ []) r e = inl (sym (some_injective e))
    last_of-Among (x ∷ (y ∷ rows)) r e = inr (last_of-Among (y ∷ rows) r e)

    -- Rows of an action's history are in the outbox, and with no history it has no transaction.
    IsHistory : ℕ → List OutboxRecord → Store W → Type 0
    IsHistory id history s =
        ((r : OutboxRecord) → Among r history → Among r s.outbox)
        × (get_last? history ≡ none → IsUnused id s)

    -- What was read is the action's row, if it has one.
    IsRead : ℕ → Option SignedActionRow → Store W → Type 0
    IsRead id none s = Unit
    IsRead id (some action) s = action_of id s.actions ≡ some action

    read_lem :
        (id : ℕ) (o : Option SignedActionRow) (s : Store W)
        → action_of id s.actions ≡ o
        → IsRead id o s
    unfolding IsRead
    read_lem id none s e = tt
    read_lem id (some action) s e = e

    submit_from-lem :
        (L : List Claim) (run_id id : ℕ) (action : Option SignedActionRow)
        (history : List OutboxRecord)
        → Holds
            (Good {W = W} L)
            (λ s. (Good L s × IsHistory id history s) × IsRead id action s)
            (submit_from relay run_id id action history)
            (λ _. Good {W = W} L)
    unfolding submit_from IsHistory IsRead
    submit_from-lem L run_id id none history = raise_lem relay_refused (λ s p. p.0.0)
    submit_from-lem L run_id id (some action) history = by_run (not (action.run_id == run_id)) refl
      where
        newest :
            (o : Option OutboxRecord)
            → get_last? history ≡ o
            → action.run_id ≡ run_id
            → Holds
                (Good {W = W} L)
                (λ s. (Good L s × IsHistory id history s) × IsRead id (some action) s)
                (elim o [
                  | none ↦ submit_fresh relay run_id id action
                  | some row ↦ resume relay row
                ])
                (λ _. Good {W = W} L)
        newest none e of_run =
            weaken_lem (λ s p. (p.0.0, (p.0.1.1 e, (action, p.1, of_run)))) (λ a s good. good)
              (submit_fresh-lem L run_id id action)
        newest (some row) e of_run =
            weaken_lem
              (λ s p. (
                p.0.0,
                Among-map claim_of row s.outbox (p.0.1.0 row (last_of-Among history row e)),
              ))
              (λ a s good. good)
              (claimed_lem L (claim_of row) (resume relay row)
                (resume-Preserves relay (claim_of row ∷ L) row (inl refl)))

        by_run :
            (b : Bool)
            → not (action.run_id == run_id) ≡ b
            → Holds
                (Good {W = W} L)
                (λ s. (Good L s × IsHistory id history s) × IsRead id (some action) s)
                (if b then raise relay_refused else elim (get_last? history) [
                  | none ↦ submit_fresh relay run_id id action
                  | some row ↦ resume relay row
                ])
                (λ _. Good {W = W} L)
        by_run true e = raise_lem relay_refused (λ s p. p.0.0)
        by_run false e =
            newest (get_last? history) refl
              ((nat_beq_iff action.run_id run_id).0 (ground (arith, e)))

    history_lem : (id : ℕ) (s : Store W) → IsHistory id (for_signed_action id s) s
    unfolding for_signed_action IsHistory
    history_lem id s = (
      (λ r i. Among-keep_if r (λ r. number_beq (some id) r.signed_action_id) s.outbox i),
      (λ e d i f.
          let (r, j, g) = Among-unmap claim_of d s.outbox i in
          let dropped_r =
            dropped_all r (λ r. number_beq (some id) r.signed_action_id) s.outbox
              (get_last?-none (for_signed_action id s) e) j in
          let same_id = ap (number_beq (some id)) (sym f ∙ ap (λ c. c.action) g) in
          ground (arith, sym ((nat_beq_iff id id).1 refl) ∙ same_id ∙ dropped_r)),
    )

    pub submit_action-Preserves :
        (L : List Claim) (run_id id : ℕ)
        → Preserves (Good {W = W} L) (submit_action relay run_id id)
    unfolding submit_action
    submit_action-Preserves L run_id id =
        bind_lem
          (reading_lem {Q = λ found s. Good {W = W} L s × IsRead id found s}
            (λ s. action_of id s.actions)
            (λ s good. (good, read_lem id (action_of id s.actions) s refl)))
          (λ action.
            bind_lem (reading_lem (for_signed_action id) (λ s p. ((p.0, history_lem id s), p.1)))
              (λ history. submit_from-lem L run_id id action history))

    call_by-Preserves :
        (L : List Claim) (run_id : ℕ) (kind : TxKind) (to data_field : Text) (value : ℕ)
        (signer : Option TransactionSigner)
        → Preserves (Good {W = W} L) (call_by relay run_id kind to data_field value signer)
    unfolding call_by
    call_by-Preserves L run_id kind to data_field value none =
        raise_lem relay_refused (λ s good. good)
    call_by-Preserves L run_id kind to data_field value (some signer) =
        bind_lem
          (weaken_lem (λ s good. (good, tt)) (λ r s good. good)
            (persist-lem relay quiet L run_id kind signer to data_field none value tt))
          (λ row.
            added_lem L (claim_of row) (broadcast relay row)
              (broadcast-Preserves relay (claim_of row ∷ L) row (inl refl)))

    pub submit_call-Preserves :
        (L : List Claim) (run_id : ℕ) (kind : TxKind) (to data_field : Text) (as_operator : Bool)
        (value : ℕ)
        → Preserves (Good {W = W} L) (submit_call relay run_id kind to data_field as_operator value)
    unfolding submit_call
    submit_call-Preserves L run_id kind to data_field as_operator value =
        call_by-Preserves L run_id kind to data_field value
          (if as_operator then relay.operator_signer else some relay.relay_signer)

    with_hash-Among :
        (tx_hash : Text) (s : Store W) (row : OutboxRecord)
        → with_hash relay tx_hash s ≡ some row
        → Among row s.outbox
    unfolding with_hash
    with_hash-Among tx_hash s row e = first_of-Among (λ r. r.tx_hash == tx_hash) s.outbox row e

    found_or_added-lem :
        (L : List Claim) (run_id : ℕ) (kind : TxKind) (raw : Text) (nonce : ℕ)
        (o : Option OutboxRecord)
        → Holds
            (Good {W = W} L)
            (λ s. Good L s × ((r : OutboxRecord) → o ≡ some r → Among r s.outbox))
            (found_or_added relay run_id kind raw nonce o)
            (λ r. Good {W = W} (claim_of r ∷ L))
    unfolding found_or_added
    found_or_added-lem L run_id kind raw nonce none =
        weaken_lem
          (λ s p. (
            p.0,
            idle-IsFree
                (record { action = none; sender = relay.recover raw; nonce = nonce; raw = raw })
                (claims s) refl,
          ))
          (λ r s good. good) (add_claimed L _)
    found_or_added-lem L run_id kind raw nonce (some row) =
        pure_lem row (λ s p.
          keep_claim L (claim_of row) s p.0 (Among-map claim_of row s.outbox (p.1 row refl)))

    submit_read-Preserves :
        (L : List Claim) (run_id : ℕ) (kind : TxKind) (raw : Text) (fields : Option TxFields)
        → Preserves (Good {W = W} L) (submit_read relay run_id kind raw fields)
    unfolding submit_read
    submit_read-Preserves L run_id kind raw none = raise_lem relay_refused (λ s good. good)
    submit_read-Preserves L run_id kind raw (some fields) =
        if_lem (not (fields.chain_id == relay.chain_id)) (raise_lem relay_refused (λ s good. good))
          (bind_lem
            (unit_of_work_lem (λ s good. good)
              (bind_lem
                (reading_lem (with_hash relay (relay.keccak raw))
                  (λ s good. (good, with_hash-Among (relay.keccak raw) s)))
                (found_or_added-lem L run_id kind raw fields.nonce)))
            (λ row.
              added_lem L (claim_of row) (resume relay row)
                (resume-Preserves relay (claim_of row ∷ L) row (inl refl))))

    pub submit_presigned-Preserves :
        (L : List Claim) (run_id : ℕ) (kind : TxKind) (raw : Text)
        → Preserves (Good {W = W} L) (submit_presigned relay run_id kind raw)
    unfolding submit_presigned
    submit_presigned-Preserves L run_id kind raw =
        submit_read-Preserves L run_id kind raw (relay.decode_raw_transaction raw)
