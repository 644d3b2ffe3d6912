-- ===== src/Api/Relay/Invariant/Runs.antt =====
-- Sequences of the relay's operations, the failed ones included.
use agentic_negotiators_sbx.Api.Effects.{Eff, Ends, Preserves}
use agentic_negotiators_sbx.Api.Relay.Chain.{Relay}
use agentic_negotiators_sbx.Api.Relay.Invariant.{Claim, Good, IsQuiet, IsSignedOnce, claims}
use agentic_negotiators_sbx.Api.Relay.Invariant.Outbox.{keep_claim}
use agentic_negotiators_sbx.Api.Relay.Invariant.Recovery.{reconcile-Preserves}
use agentic_negotiators_sbx.Api.Relay.Invariant.Replacement.{replace_stuck-Preserves}
use agentic_negotiators_sbx.Api.Relay.Invariant.Submitting.{
  submit_action-Preserves, submit_call-Preserves, submit_presigned-Preserves,
}
use agentic_negotiators_sbx.Api.Relay.Outbox.{RelayError, Store, TxKind}
use agentic_negotiators_sbx.Api.Relay.Recovery.{reconcile, replace_stuck}
use agentic_negotiators_sbx.Api.Relay.Submission.{submit_action, submit_call, submit_presigned}
use agentic_negotiators_sbx.Prelude.{
  Among, Bool, List, Result, Text, [], err, inl, ok, refl, ℕ, ◌∷◌,
}

-- One call of `Relay`.
pub data Operation : Type 0 where
  op_action : ℕ → ℕ → Operation
  op_call : ℕ → TxKind → Text → Text → Bool → ℕ → Operation
  op_presigned : ℕ → TxKind → Text → Operation
  op_reconcile op_replace : ℕ → Operation

module _ {W : Type 0} (relay : Relay W) where
  -- The store that a call leaves, whether it returns or raises.
  unfoldable pub perform : Operation → Store W → Store W
  perform (op_action run_id id) s = (submit_action relay run_id id s).1
  perform (op_call run_id kind to calldata as_operator value) s =
      (submit_call relay run_id kind to calldata as_operator value s).1
  perform (op_presigned run_id kind raw) s = (submit_presigned relay run_id kind raw s).1
  perform (op_reconcile run_id) s = (reconcile relay run_id s).1
  perform (op_replace run_id) s = (replace_stuck relay run_id s).1

  unfoldable pub perform_all : List Operation → Store W → Store W
  unfolding perform
  perform_all [] s = s
  perform_all (op ∷ ops) s = perform_all ops (perform op s)

  left-Good :
      {A : Type 0} (L : List Claim) (t : Result RelayError A × Store W)
      → Ends (Good {W = W} L) (λ _. Good {W = W} L) t
      → Good L t.1
  left-Good L (ok a, s) good = good
  left-Good L (err e, s) good = good

  kept_by :
      {A : Type 0} (L : List Claim) (m : Eff (Store W) RelayError A)
      → Preserves (Good {W = W} L) m
      → (s : Store W) → Good L s
      → Good L (m s).1
  kept_by L m h s good = left-Good L (m s) (h.holds s good)

  module _ (quiet : IsQuiet relay) where
    perform-Good :
        (L : List Claim) (op : Operation) (s : Store W) → Good L s → Good L (perform op s)
    unfolding perform
    perform-Good L (op_action run_id id) =
        kept_by L _ (submit_action-Preserves relay quiet L run_id id)
    perform-Good L (op_call run_id kind to calldata as_operator value) =
        kept_by L _ (submit_call-Preserves relay quiet L run_id kind to calldata as_operator value)
    perform-Good L (op_presigned run_id kind raw) =
        kept_by L _ (submit_presigned-Preserves relay quiet L run_id kind raw)
    perform-Good L (op_reconcile run_id) = kept_by L _ (reconcile-Preserves relay L run_id)
    perform-Good L (op_replace run_id) = kept_by L _ (replace_stuck-Preserves relay L run_id)

    perform_all-Good :
        (L : List Claim) (ops : List Operation) (s : Store W)
        → Good L s
        → Good L (perform_all ops s)
    unfolding perform_all
    perform_all-Good L [] s good = good
    perform_all-Good L (op ∷ ops) s good =
        perform_all-Good L ops (perform op s) (perform-Good L op s good)

    -- Where other tasks keep this same rule and every persisted transaction while a transaction
    -- is priced, and leave an action that had no transaction then with none or with a live one
    -- unless they take its run's lease over, any sequence of the relay's operations, the failed
    -- ones included, keeps it: all transactions of one signed action, replacements included, are
    -- at one nonce of one sender, and no bytes are handed to a node that are not persisted.
    pub perform_all-IsSignedOnce :
        (ops : List Operation) (s : Store W)
        → IsSignedOnce (claims s) s.sent
        → IsSignedOnce (claims (perform_all ops s)) (perform_all ops s).sent
    perform_all-IsSignedOnce ops s sound =
        (perform_all-Good [] ops s (record { sound = sound; has = λ c i. elim i [ ] })).sound

    -- Where other tasks keep the relay's rule and every persisted transaction while a transaction
    -- is priced, and leave an action that had no transaction then with none or with a live one
    -- unless they take its run's lease over, no sequence of the relay's operations loses a
    -- persisted transaction or changes the action, sender, nonce and bytes of one.
    pub perform_all-claims :
        (ops : List Operation) (s : Store W) (c : Claim)
        → IsSignedOnce (claims s) s.sent
        → Among c (claims s)
        → Among c (claims (perform_all ops s))
    perform_all-claims ops s c sound i =
        (perform_all-Good (c ∷ []) ops s
            (keep_claim [] c s (record { sound = sound; has = λ d j. elim j [ ] }) i)).has
          c (inl refl)
