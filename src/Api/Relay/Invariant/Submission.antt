-- ===== src/Api/Relay/Invariant/Submission.antt =====
-- Submission against the relay's invariant.
use agentic_negotiators_sbx.Api.Effects.{
  Ends, Holds, bind_lem, if_lem, reading_lem, unit_of_work_lem,
}
use agentic_negotiators_sbx.Api.Relay.Chain.{Relay, Reply, TransactionSigner, TxFields, ask}
use agentic_negotiators_sbx.Api.Relay.Invariant.{
  Claim, Good, IsGuardedFor, IsOpenFor, IsQuiet, IsReadyFor, claim_of,
}
use agentic_negotiators_sbx.Api.Relay.Invariant.Adding.{add-open}
use agentic_negotiators_sbx.Api.Relay.Invariant.Outbox.{ask_lem, same}
use agentic_negotiators_sbx.Api.Relay.Outbox.{RelayError, Store, TxKind, lease_lost}
use agentic_negotiators_sbx.Api.Relay.Submission.{
  next_nonce, nonce_after, persist, take_nonce, take_relay_nonce, with_nonce, write_signed,
  yield_to_others,
}
use agentic_negotiators_sbx.Prelude.{
  List, Option, Text, err, inl, inr, max, nat_eq, none, ok, refl, some, text_eq, true, ℕ, ◌+◌, ◌==◌,
  ◌∷◌, ◌≡◌,
}

module _ {W : Type 0} (relay : Relay W) where
  take_relay_nonce-lem :
      (L : List Claim) (action : Option ℕ) (run_id chain_nonce : ℕ)
      → Holds
          (Good {W = W} L)
          (λ s. Good L s × IsGuardedFor run_id action s)
          (take_relay_nonce run_id chain_nonce)
          (λ _ s. Good {W = W} L s × IsOpenFor action s)
  unfolding take_relay_nonce
  take_relay_nonce-lem L action run_id chain_nonce = record {
    holds = λ s p. leased s p.0 p.1 (next_nonce run_id s.leases) refl;
  }
    where
      carried :
          (action : Option ℕ) (s : Store W) (leases : List (ℕ × ℕ)) (stored : ℕ)
          → next_nonce run_id s.leases ≡ some stored
          → IsGuardedFor run_id action s
          → IsOpenFor action (record s { leases = leases })
      carried none s leases stored e p = tt
      carried (some a) s leases stored e (inl p) = p
      carried (some a) s leases stored e (inr lost) = absurd (cc (e, lost))

      leased :
          (s : Store W)
          → Good L s
          → IsGuardedFor run_id action s
          → (o : Option ℕ) → next_nonce run_id s.leases ≡ o
          → Ends {E = RelayError} {A = ℕ}
              (Good {W = W} L)
              (λ _ s. Good {W = W} L s × IsOpenFor action s)
              (elim o [
                | none ↦ (err lease_lost, s)
                | some stored ↦ (
                  ok (max stored chain_nonce),
                  record s { leases = with_nonce run_id (max stored chain_nonce + 1) s.leases },
                )
              ])
      leased s good p none e = good
      leased s good p (some stored) e = (
        same L s (record s { leases = with_nonce run_id (max stored chain_nonce + 1) s.leases })
            refl refl good,
        carried action s _ stored e p,
      )

  -- An action's transaction is the relay's to sign.
  abbrev pub IsRelays : Option ℕ → TransactionSigner → Type 0
  IsRelays none signer = Unit
  IsRelays (some a) signer = (signer.address == relay.relay_signer.address) ≡ true

  take_nonce-lem :
      (L : List Claim) (action : Option ℕ) (run_id : ℕ) (signer : TransactionSigner)
      (chain_nonce : ℕ)
      → IsRelays action signer
      → Holds
          (Good {W = W} L)
          (λ s. Good L s × IsGuardedFor run_id action s)
          (take_nonce relay run_id signer chain_nonce)
          (λ _ s. Good {W = W} L s × IsOpenFor action s)
  unfolding take_nonce
  take_nonce-lem L none run_id signer chain_nonce by_relay =
      if_lem (signer.address == relay.relay_signer.address)
        (take_relay_nonce-lem L none run_id chain_nonce)
        (reading_lem (nonce_after relay signer.address chain_nonce) (λ s p. p))
  take_nonce-lem L (some a) run_id signer chain_nonce by_relay =
      rw by_relay (take_relay_nonce-lem L (some a) run_id chain_nonce)

  write_signed-lem :
      (L : List Claim) (run_id : ℕ) (kind : TxKind) (signer : TransactionSigner) (action : Option ℕ)
      (fields : ℕ → TxFields) (chain_nonce : ℕ)
      → IsRelays action signer
      → Holds
          (Good {W = W} L)
          (λ s. Good L s × IsGuardedFor run_id action s)
          (write_signed relay run_id kind signer action fields chain_nonce)
          (λ r. Good {W = W} (claim_of r ∷ L))
  unfolding write_signed
  write_signed-lem L run_id kind signer action fields chain_nonce by_relay =
      unit_of_work_lem (λ s p. p.0)
        (bind_lem (take_nonce-lem L action run_id signer chain_nonce by_relay)
          (λ nonce. add-open L _))

  module _ (quiet : IsQuiet relay) where
    yield_to_others-lem :
        (L : List Claim) (run_id : ℕ) (action : Option ℕ)
        → Holds
            (Good {W = W} L)
            (λ s. Good L s × IsReadyFor run_id action s)
            (yield_to_others relay)
            (λ _ s. Good {W = W} L s × IsGuardedFor run_id action s)
    unfolding yield_to_others
    yield_to_others-lem L run_id none = record { holds = λ s p. (quiet.keeps L s p.0, tt) }
    yield_to_others-lem L run_id (some a) = record {
      holds = λ s p. (quiet.keeps L s p.0, quiet.opens run_id a s p.1.0 p.1.1);
    }

    ask_unused :
        {A : Type 0} (L : List Claim) (run_id : ℕ) (action : Option ℕ) (call : W → Reply A × W)
        → Holds
            (Good {W = W} L)
            (λ s. Good L s × IsReadyFor run_id action s)
            (ask call)
            (λ _ s. Good {W = W} L s × IsReadyFor run_id action s)
    ask_unused L run_id none call =
        ask_lem _ _ call (λ s w p. (same L s (record s { world = w }) refl refl p.0, tt))
          (λ s p. p.0)
    ask_unused L run_id (some a) call =
        ask_lem _ _ call (λ s w p. (same L s (record s { world = w }) refl refl p.0, p.1))
          (λ s p. p.0)

    pub persist-lem :
        (L : List Claim) (run_id : ℕ) (kind : TxKind) (signer : TransactionSigner)
        (to data_field : Text) (action : Option ℕ) (value : ℕ)
        → IsRelays action signer
        → Holds
            (Good {W = W} L)
            (λ s. Good L s × IsReadyFor run_id action s)
            (persist relay run_id kind signer to data_field action value)
            (λ r. Good {W = W} (claim_of r ∷ L))
    unfolding persist
    persist-lem L run_id kind signer to data_field action value by_relay =
        bind_lem (ask_unused L run_id action relay.chain.fee_quote) (λ quote.
          bind_lem (ask_unused L run_id action _) (λ estimate.
            bind_lem (ask_unused L run_id action (relay.chain.pending_nonce signer.address))
              (λ chain_nonce.
                bind_lem (yield_to_others-lem L run_id action)
                  (λ done. write_signed-lem L run_id kind signer action _ chain_nonce by_relay))))
