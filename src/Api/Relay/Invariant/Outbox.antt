-- ===== src/Api/Relay/Invariant/Outbox.antt =====
-- The operations on the outbox and the calls of the node, against the relay's invariant.
use mathlib.Core.Path.{ap₂, subst}
use agentic_negotiators_sbx.Api.Effects.{Eff, Ends, Holds, Preserves, weaken_lem}
use agentic_negotiators_sbx.Api.Relay.Chain.{
  ChainAdapter, Reply, Verdict, answered, ask, catch_outage, hand_out, rescued, take_reply,
  unavailable,
}
use agentic_negotiators_sbx.Api.Relay.Invariant.{
  Claim, Good, IsFree, IsSignedOnce, claim_of, claims,
}
use agentic_negotiators_sbx.Api.Relay.Outbox.{
  OutboxRecord, RelayError, Store, TxStatus, add_row, changed, duplicate_hash, duplicate_live,
  fits_index, lease_lost, mark_submitted, no_row, record_attempt, relay_refused, row_of,
  rpc_unavailable, update_row, update_status, write_rows,
}
use agentic_negotiators_sbx.Prelude.{
  Among, Among-append-cases, Among-append_last, Among-append_left, Among-map, Among-map_append,
  List, Result, Text, [], all_of, any_of, ap, err, false, if◌then◌else◌, inl, inr, map, map-append,
  nat_eq, none, ok, refl, some, sym, text_eq, true, ℕ, ◌++◌, ◌==◌, ◌∙◌, ◌∷◌, ◌≡◌, ◌⊎◌,
}

-- Changing rows keeps their claims.
changed-claims :
    (id : ℕ) (change : OutboxRecord → OutboxRecord)
    → ((r : OutboxRecord) → claim_of (change r) ≡ claim_of r)
    → (rows : List OutboxRecord) → map claim_of (changed id change rows) ≡ map claim_of rows
changed-claims id change e [] = refl
changed-claims id change e (r ∷ rs) =
    ap₂ ◌∷◌
      (elim (r.id == id) as (λ b. claim_of (if b then change r else r) ≡ claim_of r) [
        | true ↦ e r
        | false ↦ refl
      ])
      (changed-claims id change e rs)

-- A free claim added to the others.
pub claim_added :
    (cs : List Claim) (c : Claim) (handed : List Text)
    → IsFree c cs
    → IsSignedOnce cs handed
    → IsSignedOnce (cs ++ c ∷ []) handed
claim_added cs c handed free sound = record {
  once = λ x i y a j ex ey.
      both x y a (Among-append-cases x c cs i) (Among-append-cases y c cs j) ex ey;
  stored = λ b i. Among-map_append (λ d. d.raw) b cs (c ∷ []) (sound.stored b i);
}
  where
    both :
        (x y : Claim) (a : ℕ)
        → Among x cs ⊎ (x ≡ c)
        → Among y cs ⊎ (y ≡ c)
        → x.action ≡ some a
        → y.action ≡ some a
        → (x.sender ≡ y.sender) × (x.nonce ≡ y.nonce)
    both x y a (inl i) (inl j) ex ey = sound.once x i y a j ex ey
    both x y a (inl i) (inr f) ex ey =
        let found = free x a i (sym (ap (λ d. d.action) f) ∙ ey) ex in
        (sym found.0 ∙ ap (λ d. d.sender) (sym f), sym found.1 ∙ ap (λ d. d.nonce) (sym f))
    both x y a (inr e) (inl j) ex ey =
        let found = free y a j (sym (ap (λ d. d.action) e) ∙ ex) ey in
        (ap (λ d. d.sender) e ∙ found.0, ap (λ d. d.nonce) e ∙ found.1)
    both x y a (inr e) (inr f) ex ey =
        (ap (λ d. d.sender) (e ∙ sym f), ap (λ d. d.nonce) (e ∙ sym f))

module _ {W : Type 0} where
  -- What holds of a store by its claims and what it handed out.
  by_claims :
      (L cs : List Claim) (s : Store W)
      → claims s ≡ cs
      → IsSignedOnce cs s.sent
      → ((c : Claim) → Among c L → Among c cs)
      → Good L s
  by_claims L cs s e sound has = record {
    sound = subst (λ x. IsSignedOnce x s.sent) (sym e) sound;
    has = λ c i. subst (Among c) (sym e) (has c i);
  }

  pub same :
      (L : List Claim) (s t : Store W) → claims t ≡ claims s → t.sent ≡ s.sent → Good L s → Good L t
  same L s t e f good =
      by_claims L (claims s) t e (subst (IsSignedOnce (claims s)) (sym f) good.sound) good.has

  pub keep_claim :
      (L : List Claim) (c : Claim) (s : Store W) → Good L s → Among c (claims s) → Good (c ∷ L) s
  keep_claim L c s good i = record {
    sound = good.sound;
    has =
        λ d j. elim j [ inl e ↦ subst (λ x. Among x (claims s)) (sym e) i | inr k ↦ good.has d k ];
  }

  pub drop_claim : (L : List Claim) (c : Claim) (s : Store W) → Good (c ∷ L) s → Good L s
  drop_claim L c s good = record { sound = good.sound; has = λ d j. good.has d (inr j) }

  -- A table with the old claims is written, or refused and left.
  write_same :
      (L : List Claim) (rows : List OutboxRecord) (row : OutboxRecord) (s : Store W)
      → map claim_of rows ≡ claims s
      → Good L s
      → Ends (Good {W = W} L) (λ _. Good L) (write_rows rows row s)
  unfolding write_rows
  write_same L rows row s e good =
      elim (all_of (fits_index rows) rows)
        as (λ b.
          Ends (Good {W = W} L) (λ _. Good L)
            (if b then (ok row, record s { outbox = rows }) else (err duplicate_live, s))) [
              | true ↦ same L s (record s { outbox = rows }) e refl good
              | false ↦ good
            ]

  pub update_row-Preserves :
      (L : List Claim) (id : ℕ) (change : OutboxRecord → OutboxRecord)
      → ((r : OutboxRecord) → claim_of (change r) ≡ claim_of r)
      → Preserves (Good {W = W} L) (update_row id change)
  unfolding update_row
  update_row-Preserves L id change e = record {
    holds = λ s good.
        elim (row_of id s.outbox)
          as (λ o.
            Ends {E = RelayError} {A = OutboxRecord} (Good {W = W} L) (λ _. Good L)
              (elim o [
                | none ↦ (err no_row, s)
                | some row ↦ write_rows (changed id change s.outbox) (change row) s
              ])) [
                | none ↦ good
                | some row ↦
                    write_same L (changed id change s.outbox) (change row) s
                      (changed-claims id change e s.outbox) good
              ];
  }

  pub mark_submitted-Preserves :
      (L : List Claim) (id block : ℕ) → Preserves (Good {W = W} L) (mark_submitted id block)
  unfolding mark_submitted
  mark_submitted-Preserves L id block = update_row-Preserves L id _ (λ r. refl)

  pub update_status-Preserves :
      (L : List Claim) (id : ℕ) (status : TxStatus)
      → Preserves (Good {W = W} L) (update_status id status)
  unfolding update_status
  update_status-Preserves L id status = update_row-Preserves L id _ (λ r. refl)

  pub record_attempt-Preserves :
      (L : List Claim) (id : ℕ) (why : Text) → Preserves (Good {W = W} L) (record_attempt id why)
  unfolding record_attempt
  record_attempt-Preserves L id why = update_row-Preserves L id _ (λ r. refl)

  -- A row whose claim is free is added to what is persisted.
  added_claim :
      (L : List Claim) (row : OutboxRecord) (s : Store W)
      → IsFree (claim_of row) (claims s)
      → Good L s
      → Good (claim_of row ∷ L) (record s { outbox = s.outbox ++ row ∷ [] })
  added_claim L row s free good =
      by_claims (claim_of row ∷ L) (claims s ++ claim_of row ∷ [])
        (record s { outbox = s.outbox ++ row ∷ [] }) (map-append claim_of s.outbox (row ∷ []))
        (claim_added (claims s) (claim_of row) s.sent free good.sound)
        (λ c i. elim i [
          | inl e ↦
              subst (λ x. Among x (claims s ++ claim_of row ∷ [])) (sym e)
                (Among-append_last (claim_of row) (claims s))
          | inr j ↦ Among-append_left c (claims s) (claim_of row ∷ []) (good.has c j)
        ])

  pub add_row_claimed :
      (L : List Claim) (row : OutboxRecord)
      → Holds
          (Good L)
          (λ s. Good L s × IsFree (claim_of row) (claims s))
          (add_row row)
          (λ r. Good {W = W} (claim_of r ∷ L))
  unfolding add_row write_rows
  add_row_claimed L row = record {
    holds = λ s h.
        elim (any_of (λ r. r.tx_hash == row.tx_hash) s.outbox)
          as (λ b.
            Ends (Good {W = W} L) (λ r. Good {W = W} (claim_of r ∷ L))
              (if b then (err duplicate_hash, s) else write_rows (s.outbox ++ row ∷ []) row s)) [
                | true ↦ h.0
                | false ↦
                    elim (all_of (fits_index (s.outbox ++ row ∷ [])) (s.outbox ++ row ∷ []))
                      as (λ b.
                        Ends (Good {W = W} L) (λ r. Good {W = W} (claim_of r ∷ L))
                          (if b
                            then (ok row, record s { outbox = s.outbox ++ row ∷ [] })
                            else (err duplicate_live, s))) [
                              | true ↦ added_claim L row s h.1 h.0
                              | false ↦ h.0
                            ]
              ];
  }

  -- A call of the node leaves what does not depend on the world.
  pub ask_lem :
      {A : Type 0} (R P : Store W → Type 0) (call : W → Reply A × W)
      → ((s : Store W) (w : W) → P s → P (record s { world = w }))
      → ((s : Store W) → P s → R s)
      → Holds R P (ask call) (λ _. P)
  unfolding ask
  ask_lem R P call moved excused = record { holds = λ s p. taken (call s.world) s p }
    where
      taken :
          {A : Type 0} (reply : Reply A × W) (s : Store W)
          → P s
          → Ends {E = RelayError} {A = A} R (λ _. P) (take_reply reply s)
      taken (answered a, w) s p = moved s w p
      taken (unavailable why, w) s p = excused (record s { world = w }) (moved s w p)

  pub ask-Preserves :
      {A : Type 0} (L : List Claim) (call : W → Reply A × W) → Preserves (Good {W = W} L) (ask call)
  ask-Preserves L call =
      ask_lem (Good L) (Good L) call (λ s w good. same L s (record s { world = w }) refl refl good)
        (λ s good. good)

  pub hand_out-Preserves :
      (L : List Claim) (chain : ChainAdapter W) (c : Claim)
      → Among c L
      → Preserves (Good {W = W} L) (hand_out chain c.raw)
  unfolding hand_out
  hand_out-Preserves L chain c i = record {
    holds = λ s good. taken (chain.send_raw c.raw s.world) s good;
  }
    where
      handed :
          (s : Store W) (w : W) → Good L s → Good L (record s { world = w; sent = c.raw ∷ s.sent })
      handed s w good = record {
        sound = record {
          once = good.sound.once;
          stored = λ b j. elim j [
            | inl e ↦
                subst (λ x. Among x (map (λ d. d.raw) (claims s))) (sym e)
                  (Among-map (λ d. d.raw) c (claims s) (good.has c i))
            | inr k ↦ good.sound.stored b k
          ];
        };
        has = good.has;
      }

      taken :
          (reply : Reply Verdict × W) (s : Store W)
          → Good L s
          → Ends {E = RelayError} {A = Verdict}
              (Good {W = W} L)
              (λ _. Good L)
              (take_reply reply (record s { sent = c.raw ∷ s.sent }))
      taken (answered a, w) s good = handed s w good
      taken (unavailable why, w) s good = handed s w good

  pub catch_outage-Preserves :
      {A : Type 0} (L : List Claim) (body : Eff (Store W) RelayError A)
      (handler : Text → Eff (Store W) RelayError A)
      → Preserves (Good {W = W} L) body
      → ((why : Text) → Preserves (Good {W = W} L) (handler why))
      → Preserves (Good {W = W} L) (catch_outage body handler)
  unfolding catch_outage
  catch_outage-Preserves {A = A} L body handler h k = record {
    holds = λ s good. caught (body s) (h.holds s good);
  }
    where
      caught :
          (t : Result RelayError A × Store W)
          → Ends (Good {W = W} L) (λ _. Good L) t
          → Ends (Good {W = W} L) (λ _. Good L) (rescued handler t)
      caught (ok a, s) good = good
      caught (err (rpc_unavailable why), s) good = (k why).holds s good
      caught (err relay_refused, s) good = good
      caught (err no_row, s) good = good
      caught (err lease_lost, s) good = good
      caught (err duplicate_hash, s) good = good
      caught (err duplicate_live, s) good = good

  -- Code that needs a claim that is persisted.
  pub claimed_lem :
      {A : Type 0} (L : List Claim) (c : Claim) (m : Eff (Store W) RelayError A)
      → Preserves (Good {W = W} (c ∷ L)) m
      → Holds (Good {W = W} L) (λ s. Good L s × Among c (claims s)) m (λ _. Good {W = W} L)
  claimed_lem L c m h = record {
    holds = λ s p. dropped_from (m s) (h.holds s (keep_claim L c s p.0 p.1));
  }
    where
      dropped_from :
          {A : Type 0} (t : Result RelayError A × Store W)
          → Ends (Good {W = W} (c ∷ L)) (λ _. Good {W = W} (c ∷ L)) t
          → Ends (Good {W = W} L) (λ _. Good {W = W} L) t
      dropped_from (ok a, s) good = drop_claim L c s good
      dropped_from (err e, s) good = drop_claim L c s good

  pub added_lem :
      {A : Type 0} (L : List Claim) (c : Claim) (m : Eff (Store W) RelayError A)
      → Preserves (Good {W = W} (c ∷ L)) m
      → Holds (Good {W = W} L) (Good {W = W} (c ∷ L)) m (λ _. Good {W = W} L)
  added_lem L c m h =
      weaken_lem (λ s good. (drop_claim L c s good, good.has c (inl refl))) (λ a s good. good)
        (claimed_lem L c m h)
