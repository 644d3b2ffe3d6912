-- ===== src/Api/Metrics/Costs/FirstSent.antt =====
-- metrics/figures.py's `chain_cost`: the time from which a transaction waits.
use mathlib.Core.Path.{subst}
use agentic_negotiators_sbx.Agent.Turns.{sent}
use agentic_negotiators_sbx.Api.Metrics.Costs.{OutboxRow, earlier, first_sent, sent_by}
use agentic_negotiators_sbx.Prelude.{
  Among, ap, Bool-cases, List, Option, Option-cases, Text, [], arith, inl, inr, min, nat_eq, none,
  refl, some, some_injective, sym, text_beq_iff, text_eq, true, ℕ, ◌&&◌, ◌==◌, ◌∙◌, ◌∷◌, ◌≡◌, ◌≤◌,
  ◌⊎◌,
}

-- A row is a broadcast of this sender and nonce at this time.
pub record IsBroadcast (sender : Text) (nonce at : ℕ) (row : OutboxRow) : Type 0 where
  pub by_sender : row.sender ≡ sender
  pub at_nonce : row.nonce ≡ nonce
  pub at_time : row.submitted_at ≡ some at

-- The least number with a property, if a number has it.
abbrev pub IsLeast : (ℕ → Type 0) → Option ℕ → Type 0
IsLeast P none = (n : ℕ) → P n → ⊥
IsLeast P (some u) = P u × ((n : ℕ) → P n → u ≤ n)

-- Two properties have one least number, where the first implies the second and lies below it.
IsLeast-below :
    (P Q : ℕ → Type 0) (o : Option ℕ)
    → ((n : ℕ) → P n → Q n)
    → ((n : ℕ) → Q n → (m : ℕ) × P m × (m ≤ n))
    → IsLeast P o
    → IsLeast Q o
IsLeast-below P Q none into below least = λ n q. let (m, p, le) = below n q in least m p
IsLeast-below P Q (some u) into below least =
    (into u least.0, λ n q. let (m, p, le) = below n q in omega (arith, le, least.1 m p))

module _ (sender : Text) (nonce : ℕ) where
  sent_by-at_most :
      (t : ℕ) (row : OutboxRow) → (u : ℕ) × (sent_by sender nonce (some t) row ≡ some u) × (u ≤ t)
  unfolding sent_by earlier
  sent_by-at_most t row = elim (Bool-cases (row.sender == sender && row.nonce == nonce)) [
    | inr other ↦ (t, rw other refl, omega arith)
    | inl same ↦ elim (Option-cases row.submitted_at) [
      | inl never ↦ (t, rw (same, never) refl, omega arith)
      | inr (at, e) ↦ (min t at, rw (same, e) refl, omega arith)
    ]
  ]

  sent_by-broadcast :
      (at : ℕ) (sent : Option ℕ) (row : OutboxRow)
      → IsBroadcast sender nonce at row
      → (u : ℕ) × (sent_by sender nonce sent row ≡ some u) × (u ≤ at)
  unfolding sent_by earlier
  sent_by-broadcast at sent row b =
      let same : (row.sender == sender && row.nonce == nonce) ≡ true =
        ground (arith, text_beq_iff row.sender sender, b.by_sender, b.at_nonce) in
      elim (Option-cases sent) [
        | inl none_yet ↦ (at, rw (same, b.at_time, none_yet) refl, omega arith)
        | inr (t, e) ↦ (min t at, rw (same, b.at_time, e) refl, omega arith)
      ]

  earlier-cases : (sent : Option ℕ) (at u : ℕ) → earlier sent at ≡ u → (sent ≡ some u) ⊎ (at ≡ u)
  unfolding earlier
  earlier-cases none at u e = inr e
  earlier-cases (some t) at u e = ground arith

  -- What is kept after a row was kept before it, or is the row's.
  sent_by-cases :
      (sent : Option ℕ) (row : OutboxRow) (u : ℕ)
      → sent_by sender nonce sent row ≡ some u
      → (sent ≡ some u) ⊎ IsBroadcast sender nonce u row
  unfolding sent_by
  sent_by-cases sent row u e = elim (Bool-cases (row.sender == sender && row.nonce == nonce)) [
    | inr other ↦ inl (rw other at e)
    | inl same ↦ elim (Option-cases row.submitted_at) [
      | inl never ↦ inl (rw (same, never) at e)
      | inr (at, f) ↦ elim (earlier-cases sent at u (some_injective (rw (same, f) at e))) [
        | inl g ↦ inl g
        | inr g ↦ inr (record {
          by_sender = (text_beq_iff row.sender sender).0 (ground (arith, same));
          at_nonce = ground (arith, same);
          at_time = f ∙ ap some g;
        })
      ]
    ]
  ]

  -- What was kept before the rows, or is a broadcast among them.
  IsCandidate : Option ℕ → List OutboxRow → ℕ → Type 0
  IsCandidate sent rows at =
      (sent ≡ some at) ⊎ ((row : OutboxRow) × Among row rows × IsBroadcast sender nonce at row)

  IsCandidate-back :
      (sent : Option ℕ) (row : OutboxRow) (rows : List OutboxRow) (at : ℕ)
      → IsCandidate (sent_by sender nonce sent row) rows at
      → IsCandidate sent (row ∷ rows) at
  unfolding IsCandidate
  IsCandidate-back sent row rows at (inl e) = elim (sent_by-cases sent row at e) [
    | inl f ↦ inl f
    | inr b ↦ inr (row, inl refl, b)
  ]
  IsCandidate-back sent row rows at (inr (later, i, b)) = inr (later, inr i, b)

  IsCandidate-below :
      (sent : Option ℕ) (row : OutboxRow) (rows : List OutboxRow) (at : ℕ)
      → IsCandidate sent (row ∷ rows) at
      → (u : ℕ) × IsCandidate (sent_by sender nonce sent row) rows u × (u ≤ at)
  unfolding IsCandidate
  IsCandidate-below sent row rows at (inl e) =
      let (u, f, le) = sent_by-at_most at row in
      (u, inl (subst (λ o. sent_by sender nonce o row ≡ some u) (sym e) f), le)
  IsCandidate-below sent row rows at (inr (r, inl e, b)) =
      let (u, f, le) = sent_by-broadcast at sent row (subst (IsBroadcast sender nonce at) e b) in
      (u, inl f, le)
  IsCandidate-below sent row rows at (inr (r, inr i, b)) = (at, inr (r, i, b), omega arith)

  first_sent-IsLeast_from :
      (sent : Option ℕ) (rows : List OutboxRow)
      → IsLeast (IsCandidate sent rows) (first_sent sender nonce sent rows)
  unfolding first_sent IsCandidate
  first_sent-IsLeast_from none [] = λ n p. elim p [ inl e ↦ absurd (cc) | inr q ↦ elim q.1 [ ] ]
  first_sent-IsLeast_from (some t) [] =
      (inl refl, λ n p. elim p [ inl e ↦ omega (arith, some_injective e) | inr q ↦ elim q.1 [ ] ])
  first_sent-IsLeast_from sent (row ∷ rows) =
      IsLeast-below (IsCandidate (sent_by sender nonce sent row) rows)
        (IsCandidate sent (row ∷ rows))
        (first_sent sender nonce (sent_by sender nonce sent row) rows)
        (IsCandidate-back sent row rows) (IsCandidate-below sent row rows)
        (first_sent-IsLeast_from (sent_by sender nonce sent row) rows)

  -- The time from which a transaction waits is the earliest time at which one of the rows with
  -- its sender and nonce, replaced ones included, was broadcast, and there is none exactly when
  -- no such row was broadcast.
  pub first_sent-IsLeast :
      (rows : List OutboxRow)
      → IsLeast
          (λ at. (row : OutboxRow) × Among row rows × IsBroadcast sender nonce at row)
          (first_sent sender nonce none rows)
  unfolding IsCandidate
  first_sent-IsLeast rows =
      IsLeast-below (IsCandidate none rows) _ (first_sent sender nonce none rows)
        (λ n p. elim p [ inl e ↦ absurd (cc) | inr q ↦ q ]) (λ n q. (n, inr q, omega arith))
        (first_sent-IsLeast_from none rows)
