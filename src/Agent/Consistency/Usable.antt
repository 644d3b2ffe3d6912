-- ===== src/Agent/Consistency/Usable.antt =====
-- consistency.py's `contradictions`, and what the policy and the validator need.
use agentic_negotiators_sbx.Agent.Consistency.{
  Problem, contradictions, entry_problems, expected_actor, expected_sequence_problem,
  history_problem, history_problems, remaining_problem, reported,
}
use agentic_negotiators_sbx.Agent.Observation.{
  ActiveOffer, Actor, HistoryEntry, Observation, Role, buyer, by, counterparty, is_by, is_offer,
  next_proposer, own_offers_recorded, role_eq,
}
use agentic_negotiators_sbx.Agent.Policy.Concession.{opportunities}
use agentic_negotiators_sbx.Agent.Policy.Deterministic.Gate.{IsUsable}
use agentic_negotiators_sbx.Agent.Signing.{ApprovedSession, Hashing}
use agentic_negotiators_sbx.Prelude.{
  All, Bool, List, [], arith, false, get_last?, inl, inr, keep_if, leb, length, nat_eq, ok, refl,
  some, text_eq, true, ℕ, ◌++◌, ◌+◌, ◌-◌, ◌==◌, ◌∷◌, ◌≡◌, ◌⊎◌,
}
use agentic_negotiators_sbx.Protocol.Values.{digest}

append-nil_parts {ℓ} : {A : Type ℓ} (xs ys : List A) → xs ++ ys ≡ [] → (xs ≡ []) × (ys ≡ [])
append-nil_parts [] ys e = (refl, e)
append-nil_parts (x ∷ xs) ys e = cc

reported-nil : (good : Bool) (p : Problem) → reported good p ≡ [] → good ≡ true
unfolding reported
reported-nil good p e = ground arith

by_role : (r : Role) (a : Actor) → is_by r a ≡ true → a ≡ by r
by_role r a e = ground arith

-- An entry that a party made.
IsParty : HistoryEntry → Type 0
IsParty e = (r : Role) × (e.actor ≡ by r)

module _ (h : Hashing) (approval : ApprovedSession) (o : Observation) where
  entry-IsParty :
      (index : ℕ) (entry : HistoryEntry) (count : ℕ)
      → entry_problems h approval o index entry count ≡ []
      → IsParty entry
  unfolding entry_problems IsParty
  entry-IsParty index entry count e =
      (expected_actor index, by_role (expected_actor index) entry.actor (ground arith))

  history-IsParty :
      (index count : ℕ) (entries : List HistoryEntry)
      → history_problems h approval o index count entries ≡ []
      → All IsParty entries
  unfolding history_problems
  history-IsParty index count [] e = tt
  history-IsParty index count (entry ∷ entries) e =
      let (now, later) = append-nil_parts (entry_problems h approval o index entry count) _ e in
      (entry-IsParty index entry count now, history-IsParty (index + 1) count entries later)

All-cons_if {ℓ κ} :
    {A : Type ℓ} (P : A → Type κ) (b : Bool) (x : A) (xs : List A)
    → P x
    → All P xs
    → All P (elim b [ true ↦ x ∷ xs | false ↦ xs ])
All-cons_if P true x xs a as' = (a, as')
All-cons_if P false x xs a as' = as'

All-keep_if {ℓ κ} :
    {A : Type ℓ} (P : A → Type κ) (p : A → Bool) (xs : List A) → All P xs → All P (keep_if p xs)
All-keep_if P p [] a = tt
All-keep_if P p (x ∷ xs) (b, bs) = All-cons_if P (p x) x (keep_if p xs) b (All-keep_if P p xs bs)

last-All {ℓ κ} :
    {A : Type ℓ} (P : A → Type κ) (xs : List A)
    → All P xs
    → (xs ≡ []) ⊎ ((x : A) × (get_last? xs ≡ some x) × P x)
last-All P [] a = inl refl
last-All P (x ∷ []) (b, bs) = inr (x, refl, b)
last-All P (x ∷ (y ∷ ys)) (b, bs) = elim (last-All P (y ∷ ys) bs) [
  | inl e ↦ absurd (cc)
  | inr l ↦ inr l
]

proposer_known : (o : Observation) → All IsParty o.history → (r : Role) × (next_proposer o ≡ ok r)
unfolding next_proposer IsParty
proposer_known o parties =
    elim (last-All IsParty (keep_if (λ e. is_offer e.kind) o.history)
      (All-keep_if IsParty (λ e. is_offer e.kind) o.history parties)) [
        | inl none_yet ↦ (buyer, rw none_yet refl)
        | inr (last, found, (r, made)) ↦ (counterparty r, rw (found, made) refl)
      ]

-- An observation without contradictions, its active offer's hash being canonical, is usable: the
-- history says whose turn it is, and a party with offers left has a share of the session's
-- offers.
pub contradictions-IsUsable :
    (h : Hashing) (approval : ApprovedSession) (o : Observation)
    → contradictions h approval o ≡ []
    → ((a : ActiveOffer) → o.active_offer ≡ some a → digest a.offer_hash ≡ ok a.offer_hash)
    → IsUsable o
unfolding contradictions
contradictions-IsUsable h approval o e canonical =
    let (entries, rest) =
      append-nil_parts (history_problems h approval o 0 (length o.history) o.history) _ e in
    let (_, rest') =
      append-nil_parts (reported (leb (length o.history) o.session.max_offers) history_problem) _
        rest in
    let (_, rest'') =
      append-nil_parts
        (reported (o.expected_sequence == length o.history + 1) expected_sequence_problem) _
        rest' in
    let (remaining, _) =
      append-nil_parts
        (reported
          (o.offers_remaining_for_me
            == opportunities o.role o.session.max_offers - own_offers_recorded o)
          remaining_problem)
        _ rest'' in
    let share = reported-nil _ remaining_problem remaining in
    record {
      turn_known =
          proposer_known o (history-IsParty h approval o 0 (length o.history) o.history entries);
      share = λ some_left. ground arith;
      canonical = canonical;
    }
