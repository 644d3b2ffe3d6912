-- ===== src/Api/Relay/Invariant/Recovery.antt =====
-- Recovery and gas replacement against the relay's invariant.
use mathlib.Core.Path.{subst}
use agentic_negotiators_sbx.Api.Effects.{
  Eff, Ends, Holds, Preserves, bind_lem, either_lem, for_each, for_each_lem, if_lem, pure, pure_lem,
  reading_lem, unit_of_work_lem, ◌>>=◌,
}
use agentic_negotiators_sbx.Api.Relay.Broadcast.{record_broadcast}
use agentic_negotiators_sbx.Api.Relay.Chain.{Relay, ask}
use agentic_negotiators_sbx.Api.Relay.Invariant.{Claim, Good, claim_of, claims}
use agentic_negotiators_sbx.Api.Relay.Invariant.Broadcast.{
  record_broadcast-Preserves, send-Preserves,
}
use agentic_negotiators_sbx.Api.Relay.Invariant.Outbox.{
  ask-Preserves, catch_outage-Preserves, update_status-Preserves,
}
use agentic_negotiators_sbx.Api.Relay.Outbox.{
  OutboxRecord, RelayError, Store, comes_before, dropped, is_unfinished, nonce_group, pending,
  place_row, sort_rows, unfinished,
}
use agentic_negotiators_sbx.Api.Relay.Recovery.{
  Reconciliation, in_pool, is_unsettled, looked_up, marked, mined, nonce_conflict, nonce_consumed,
  nonce_looked_up, not_mined, reconcile, reconcile_one, reconciled, sent_again, sibling_mined,
  superseded, unreachable,
}
use agentic_negotiators_sbx.Prelude.{
  All, Among, Among-append_left, Among-keep_if, Among-map, Among-unmap, Bool, List, Option, Result,
  Text, [], err, false, if◌then◌else◌, inl, inr, keep_if, ltb, map, nat_eq, none, ok, refl, some,
  sym, text_eq, true, ℕ, ◌&&◌, ◌++◌, ◌==◌, ◌∷◌, ◌⊎◌,
}

All-of_Among : {A : Type 0} (P : A → Type 0) (xs : List A) → ((x : A) → Among x xs → P x) → All P xs
All-of_Among P [] h = tt
All-of_Among P (x ∷ xs) h = (h x (inl refl), All-of_Among P xs (λ y i. h y (inr i)))

Among-append_right : {A : Type 0} (a : A) (xs ys : List A) → Among a ys → Among a (xs ++ ys)
Among-append_right a [] ys i = i
Among-append_right a (x ∷ xs) ys i = inr (Among-append_right a xs ys i)

Among-append_either :
    {A : Type 0} (a : A) (xs ys : List A) → Among a (xs ++ ys) → Among a xs ⊎ Among a ys
Among-append_either a [] ys i = inr i
Among-append_either a (x ∷ xs) ys (inl e) = inl (inl e)
Among-append_either a (x ∷ xs) ys (inr i) = elim (Among-append_either a xs ys i) [
  | inl j ↦ inl (inr j)
  | inr j ↦ inr j
]

-- Sorting rows only orders them.
Among-place_row :
    (collates : Text → Text → Bool) (r row : OutboxRecord) (rows : List OutboxRecord)
    → Among r (place_row collates row rows)
    → Among r (row ∷ rows)
Among-place_row collates r row [] i = i
Among-place_row collates r row (x ∷ rows) i =
    placed (comes_before collates row x) i (Among-place_row collates r row rows)
  where
    placed :
        (b : Bool)
        → Among r (if b then row ∷ x ∷ rows else x ∷ place_row collates row rows)
        → (Among r (place_row collates row rows) → Among r (row ∷ rows))
        → Among r (row ∷ x ∷ rows)
    placed true i rest = i
    placed false (inl e) rest = inr (inl e)
    placed false (inr i) rest = elim (rest i) [ inl e ↦ inl e | inr j ↦ inr (inr j) ]

Among-sort_rows :
    (collates : Text → Text → Bool) (r : OutboxRecord) (rows : List OutboxRecord)
    → Among r (sort_rows collates rows)
    → Among r rows
Among-sort_rows collates r [] i = i
Among-sort_rows collates r (x ∷ rows) i =
    elim (Among-place_row collates r x (sort_rows collates rows) i) [
      | inl e ↦ inl e
      | inr j ↦ inr (Among-sort_rows collates r rows j)
    ]

module _ {W : Type 0} (relay : Relay W) where
  -- A body for each of some persisted rows.
  pub each_row-lem :
      {B : Type 0} (L : List Claim) (body : OutboxRecord → Eff (Store W) RelayError B)
      (rows : List OutboxRecord)
      → ((M : List Claim) (r : OutboxRecord)
          → Among (claim_of r) M
          → Preserves (Good {W = W} M) (body r))
      → Holds
          (Good {W = W} L)
          (λ s. Good L s × ((r : OutboxRecord) → Among r rows → Among r s.outbox))
          (for_each body rows)
          (λ _. Good {W = W} L)
  each_row-lem L body rows h = record {
    holds = λ s p. lent (for_each body rows s) (kept.holds s (taken s p));
  }
    where
      M : List Claim
      M = map claim_of rows ++ L

      kept : Preserves (Good {W = W} (map claim_of rows ++ L)) (for_each body rows)
      kept = for_each_lem (Good (map claim_of rows ++ L)) body rows (
          All-of_Among _ rows (λ r i.
            h (map claim_of rows ++ L) r
              (Among-append_left (claim_of r) (map claim_of rows) L (Among-map claim_of r rows i))))

      persisted :
          (s : Store W) (c : Claim)
          → ((r : OutboxRecord) → Among r rows → Among r s.outbox)
          → Among c (map claim_of rows)
          → Among c (claims s)
      persisted s c p i =
          let (r, j, e) = Among-unmap claim_of c rows i in
          subst (λ x. Among x (claims s)) (sym e) (Among-map claim_of r s.outbox (p r j))

      taken :
          (s : Store W)
          → Good L s × ((r : OutboxRecord) → Among r rows → Among r s.outbox)
          → Good (map claim_of rows ++ L) s
      taken s p = record {
        sound = p.0.sound;
        has = λ c i. elim (Among-append_either c (map claim_of rows) L i) [
          | inl j ↦ persisted s c p.1 j
          | inr j ↦ p.0.has c j
        ];
      }

      back : (s : Store W) → Good (map claim_of rows ++ L) s → Good L s
      back s good = record {
        sound = good.sound;
        has = λ c i. good.has c (Among-append_right c (map claim_of rows) L i);
      }

      lent :
          {B : Type 0} (t : Result RelayError (List B) × Store W)
          → Ends
              (Good {W = W} (map claim_of rows ++ L))
              (λ _. Good {W = W} (map claim_of rows ++ L))
              t
          → Ends (Good {W = W} L) (λ _. Good {W = W} L) t
      lent (ok a, s) good = back s good
      lent (err e, s) good = back s good

  sibling_mined-Preserves :
      (L : List Claim) (id : ℕ) (group : List OutboxRecord)
      → Preserves (Good {W = W} L) (sibling_mined relay id group)
  unfolding sibling_mined
  sibling_mined-Preserves L id [] = pure_lem false (λ s good. good)
  sibling_mined-Preserves L id (sibling ∷ group) =
      if_lem (sibling.id == id) (sibling_mined-Preserves L id group) (
        bind_lem (ask-Preserves L (relay.chain.receipt sibling.tx_hash)) (λ found.
          if_lem found (pure_lem true (λ s good. good)) (sibling_mined-Preserves L id group)))

  nonce_consumed-Preserves :
      (L : List Claim) (row : OutboxRecord) → Preserves (Good {W = W} L) (nonce_consumed relay row)
  unfolding nonce_consumed
  nonce_consumed-Preserves L row =
      bind_lem (reading_lem (nonce_group relay.on_deployment row.sender row.nonce) (λ s good. good))
        (λ group. bind_lem (sibling_mined-Preserves L row.id group) (λ found.
          either_lem found
            (bind_lem (unit_of_work_lem (λ s good. good) (update_status-Preserves L row.id dropped))
              (λ done. pure_lem superseded (λ s good. good)))
            (pure_lem nonce_conflict (λ s good. good))))

  marked-Preserves :
      (L : List Claim) (row : OutboxRecord) → Preserves (Good {W = W} L) (marked relay row)
  unfolding marked
  marked-Preserves L row =
      elim row.status
        as (λ status.
          Preserves {E = RelayError} {A = Reconciliation} (Good {W = W} L) (elim status [
            | pending ↦ ask relay.chain.head >>= λ head_block.
                record_broadcast relay row head_block >>= λ done. pure in_pool
            | _ ↦ pure in_pool
          ])) [
            | pending ↦ bind_lem (ask-Preserves L relay.chain.head) (λ block.
                bind_lem (record_broadcast-Preserves relay L row block)
                  (λ done. pure_lem in_pool (λ s good. good)))
            | _ ↦ pure_lem in_pool (λ s good. good)
          ]

  not_mined-Preserves :
      (L : List Claim) (row : OutboxRecord) → Preserves (Good {W = W} L) (not_mined relay row)
  unfolding not_mined nonce_looked_up
  not_mined-Preserves L row =
      bind_lem (ask-Preserves L (relay.chain.transaction row.tx_hash)) (λ pooled.
        either_lem pooled
          (bind_lem (marked-Preserves L row) (λ outcome. pure_lem (some outcome) (λ s good. good)))
          (bind_lem (ask-Preserves L (relay.chain.mined_nonce row.sender)) (λ used.
            either_lem (ltb row.nonce used)
              (bind_lem (nonce_consumed-Preserves L row)
                (λ outcome. pure_lem (some outcome) (λ s good. good)))
              (pure_lem none (λ s good. good)))))

  looked_up-Preserves :
      (L : List Claim) (row : OutboxRecord) → Preserves (Good {W = W} L) (looked_up relay row)
  unfolding looked_up
  looked_up-Preserves L row = bind_lem (ask-Preserves L (relay.chain.receipt row.tx_hash)) (λ found.
      either_lem found (pure_lem (some mined) (λ s good. good)) (not_mined-Preserves L row))

  sent_again-Preserves :
      (L : List Claim) (row : OutboxRecord) (outcome : Option Reconciliation)
      → Among (claim_of row) L
      → Preserves (Good {W = W} L) (sent_again relay row outcome)
  unfolding sent_again
  sent_again-Preserves L row (some outcome) i = pure_lem (outcome, none) (λ s good. good)
  sent_again-Preserves L row none i =
      bind_lem (send-Preserves relay L row i) (λ result. pure_lem _ (λ s good. good))

  reconcile_one-Preserves :
      (L : List Claim) (row : OutboxRecord)
      → Among (claim_of row) L
      → Preserves (Good {W = W} L) (reconcile_one relay row)
  unfolding reconcile_one
  reconcile_one-Preserves L row i =
      bind_lem
        (catch_outage-Preserves L (looked_up relay row) _ (looked_up-Preserves L row)
          (λ why. pure_lem (some unreachable) (λ s good. good)))
        (λ outcome. sent_again-Preserves L row outcome i)

  pub Among-unfinished :
      (run_id : ℕ) (s : Store W) (r : OutboxRecord)
      → Among r (unfinished relay.collates run_id s)
      → Among r s.outbox
  unfolding unfinished
  Among-unfinished run_id s r i =
      Among-keep_if r (λ r. r.run_id == run_id && is_unfinished r.status) s.outbox
        (Among-sort_rows relay.collates r _ i)

  pub reconcile-Preserves :
      (L : List Claim) (run_id : ℕ) → Preserves (Good {W = W} L) (reconcile relay run_id)
  unfolding reconcile reconciled
  reconcile-Preserves L run_id =
      bind_lem
        (reading_lem (λ s. keep_if is_unsettled (unfinished relay.collates run_id s))
          (λ s good. (
            good,
            λ r i.
                Among-unfinished run_id s r
                  (Among-keep_if r is_unsettled (unfinished relay.collates run_id s) i),
          )))
        (λ rows. each_row-lem L (reconciled relay) rows (λ M r i.
          bind_lem (reconcile_one-Preserves M r i) (λ result. pure_lem _ (λ s good. good))))
