-- ===== src/Api/Relay/Invariant/Adding.antt =====
-- New rows of the outbox against the relay's invariant.
use mathlib.Core.Path.{subst}
use agentic_negotiators_sbx.Api.Effects.{Ends, Holds, bind_lem, reading_lem}
use agentic_negotiators_sbx.Api.Relay.Invariant.{Claim, Good, IsFree, IsOpenFor, claim_of, claims}
use agentic_negotiators_sbx.Api.Relay.Invariant.Outbox.{add_row_claimed}
use agentic_negotiators_sbx.Api.Relay.Outbox.{
  OutboxRecord, RelayError, Store, add_row, duplicate_hash, duplicate_live, fits_index, is_live_for,
  pending, write_rows,
}
use agentic_negotiators_sbx.Api.Relay.Submission.{NewOutboxTx, add, row_from}
use agentic_negotiators_sbx.Prelude.{
  Among, Bool, List, Option-cases, [], all_of, any_of, ap, arith, count_if, err, false,
  if◌then◌else◌, inl, inr, leb, length, nat_beq_iff, nat_eq, none, refl, some, suc, sym, text_eq,
  true, ℕ, ◌&&◌, ◌++◌, ◌==◌, ◌||◌, ◌∙◌, ◌∷◌, ◌≡◌, ◌≢◌, ◌≤◌,
}

all_of-last :
    {A : Type 0} (p : A → Bool) (xs : List A) (y : A)
    → p y ≡ false
    → all_of p (xs ++ y ∷ []) ≡ false
all_of-last p [] y e = simp (e)
all_of-last p (x ∷ xs) y e = elim (p x) as (λ b. b && all_of p (xs ++ y ∷ []) ≡ false) [
  | true ↦ all_of-last p xs y e
  | false ↦ refl
]

count_if-once :
    {A : Type 0} (p : A → Bool) (xs : List A) (y : A) → p y ≡ true → 1 ≤ count_if p (xs ++ y ∷ [])
count_if-once p [] y f = ground arith
count_if-once p (x ∷ xs) y f =
    elim (p x)
      as (λ b.
        1 ≤ elim b [ true ↦ suc (count_if p (xs ++ y ∷ [])) | false ↦ count_if p (xs ++ y ∷ []) ]) [
          | true ↦ omega arith
          | false ↦ count_if-once p xs y f
        ]

count_if-twice :
    {A : Type 0} (p : A → Bool) (xs : List A) (y : A)
    → any_of p xs ≡ true
    → p y ≡ true
    → 2 ≤ count_if p (xs ++ y ∷ [])
count_if-twice p [] y e f = ground arith
count_if-twice p (x ∷ xs) y e f =
    elim (p x)
        as (λ b.
          b || any_of p xs ≡ true
          → 2 ≤ elim b [
            | true ↦ suc (count_if p (xs ++ y ∷ []))
            | false ↦ count_if p (xs ++ y ∷ [])
          ]) [
            | true ↦ λ h. omega (arith, count_if-once p xs y f)
            | false ↦ λ h. count_if-twice p xs y h f
          ]
      e

is_live_for_self :
    (a : ℕ) (row : OutboxRecord)
    → row.signed_action_id ≡ some a
    → row.status ≡ pending
    → is_live_for a row ≡ true
is_live_for_self a row e f = rw (e, f) ((nat_beq_iff a a).1 refl)

leb-two : (n : ℕ) → 2 ≤ n → leb n 1 ≡ false
leb-two n h = ground arith

-- A second live row of an action is refused.
live_refused :
    (a : ℕ) (row : OutboxRecord) (rows : List OutboxRecord)
    → row.signed_action_id ≡ some a
    → row.status ≡ pending
    → any_of (is_live_for a) rows ≡ true
    → all_of (fits_index (rows ++ row ∷ [])) (rows ++ row ∷ []) ≡ false
unfolding fits_index
live_refused a row rows e f live = all_of-last (fits_index (rows ++ row ∷ [])) rows row (
    ap
      (λ o. elim o [
        | none ↦ true
        | some action ↦ leb (count_if (is_live_for action) (rows ++ row ∷ [])) 1
      ])
      e
    ∙ leb-two (count_if (is_live_for a) (rows ++ row ∷ []))
        (count_if-twice (is_live_for a) rows row live (is_live_for_self a row e f)))

pub unused-IsFree :
    (c : Claim) (cs : List Claim) (a : ℕ)
    → c.action ≡ some a
    → ((d : Claim) → Among d cs → d.action ≢ some a)
    → IsFree c cs
unused-IsFree c cs a e unused d b i f g = elim (unused d i (g ∙ sym f ∙ e)) [ ]

-- A claim for no action is free.
pub idle-IsFree : (c : Claim) (cs : List Claim) → c.action ≡ none → IsFree c cs
idle-IsFree c cs e d a i f g = ground arith

-- The claim of a new row.
abbrev pub claim_from : NewOutboxTx → Claim
claim_from new = record {
  action = new.signed_action_id;
  sender = new.sender;
  nonce = new.nonce;
  raw = new.raw_tx;
}

module _ {W : Type 0} where
  refused_row :
      (L : List Claim) (row : OutboxRecord) (s : Store W)
      → all_of (fits_index (s.outbox ++ row ∷ [])) (s.outbox ++ row ∷ []) ≡ false
      → Good L s
      → Ends {E = RelayError} {A = OutboxRecord}
          (Good {W = W} L)
          (λ r. Good {W = W} (claim_of r ∷ L))
          (add_row row s)
  unfolding add_row write_rows
  refused_row L row s e good =
      rw (e)
        (elim (any_of (λ r. r.tx_hash == row.tx_hash) s.outbox)
          as (λ b.
            Ends {E = RelayError} {A = OutboxRecord} (Good {W = W} L)
              (λ r. Good {W = W} (claim_of r ∷ L))
              (if b then (err duplicate_hash, s) else (err duplicate_live, s))) [
                | true ↦ good
                | false ↦ good
              ])

  -- A pending row is added where its action is open, or the index on live rows refuses it.
  add_row-open :
      (L : List Claim) (row : OutboxRecord)
      → row.status ≡ pending
      → Holds
          (Good {W = W} L)
          (λ s. Good L s × IsOpenFor row.signed_action_id s)
          (add_row row)
          (λ r. Good {W = W} (claim_of r ∷ L))
  add_row-open L row f = record {
    holds = λ s p. elim (Option-cases row.signed_action_id) [
      | inl e ↦ (add_row_claimed L row).holds s (p.0, idle-IsFree (claim_of row) (claims s) e)
      | inr (a, e) ↦ elim (subst (λ o. IsOpenFor o s) e p.1) [
        | inl unused ↦
            (add_row_claimed L row).holds s
              (p.0, unused-IsFree (claim_of row) (claims s) a e unused)
        | inr live ↦ refused_row L row s (live_refused a row s.outbox e f live) p.0
      ]
    ];
  }

  pub add-open :
      (L : List Claim) (new : NewOutboxTx)
      → Holds
          (Good {W = W} L)
          (λ s. Good L s × IsOpenFor new.signed_action_id s)
          (add new)
          (λ r. Good {W = W} (claim_of r ∷ L))
  unfolding add
  add-open L new =
      bind_lem (reading_lem (λ s. length s.outbox) (λ s p. p))
        (λ id. add_row-open L (row_from id new) refl)

  pub add_claimed :
      (L : List Claim) (new : NewOutboxTx)
      → Holds
          (Good {W = W} L)
          (λ s. Good L s × IsFree (claim_from new) (claims s))
          (add new)
          (λ r. Good {W = W} (claim_of r ∷ L))
  unfolding add
  add_claimed L new =
      bind_lem (reading_lem (λ s. length s.outbox) (λ s p. p))
        (λ id. add_row_claimed L (row_from id new))
