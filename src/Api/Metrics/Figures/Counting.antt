-- ===== src/Api/Metrics/Figures/Counting.antt =====
-- metrics/figures.py's `mandate_violations`: which actions it counts.
use mathlib.Core.Path.{subst}
use agentic_negotiators_sbx.Agent.Observation.{Role, buyer, role_eq, seller}
use agentic_negotiators_sbx.Api.Controller.States.{state_eq}
use agentic_negotiators_sbx.Api.Metrics.Figures.{
  Action, Body, MandateVersion, Wallet, closed, judged_quote, limits, mandate_violations, offer_of,
  offered, outside, party_of, took, violates,
}
use agentic_negotiators_sbx.Api.Relay.Invariant.Outbox.{same}
use agentic_negotiators_sbx.Prelude.{
  Among, Bool, Bool-cases, List, Option, Option-cases, Text, [], ap, arith, count_if, false,
  if◌then◌else◌, inl, inr, nat_eq, none, refl, some, some_injective, suc, text_beq_iff, text_eq,
  true, ℕ, ◌+◌, ◌==◌, ◌↔◌, ◌∷◌, ◌≡◌, ◌≢◌, ◌≤◌,
}

-- A price that both a party's mandate and its first balances allow it to agree to.
abbrev pub IsAllowed : Role → (Role → MandateVersion) → (Role → Wallet) → ℕ → ℕ → Type 0
IsAllowed buyer mandates wallets base_amount quote =
    (quote ≤ (mandates buyer).reservation_price_minor)
    × (quote + (mandates buyer).min_remaining_inventory_minor ≤ (wallets buyer).initial_quote_minor)
IsAllowed seller mandates wallets base_amount quote =
    ((mandates seller).reservation_price_minor ≤ quote)
    × (1 ≤ quote)
    × (base_amount + (mandates seller).min_remaining_inventory_minor
        ≤ (wallets seller).initial_base_minor)

-- Whose action it is; a wallet that both share is the seller's.
abbrev pub IsBy : (Role → Wallet) → Text → Role → Type 0
IsBy wallets signer seller = signer ≡ (wallets seller).address
IsBy wallets signer buyer = (signer ≡ (wallets buyer).address) × (signer ≢ (wallets seller).address)

-- The action offers the digest's price.
pub record IsOffer (hash : Text) (quote : ℕ) (a : Action) : Type 0 where
  pub digest_is : a.digest ≡ hash
  pub body_is : a.body ≡ offered quote

-- The last offer with the digest is at this price.
pub data LastOffer (hash : Text) (quote : ℕ) : List Action → Type 0 where
  here :
      (a : Action) (rest : List Action)
      → IsOffer hash quote a
      → ((b : Action) (q : ℕ) → Among b rest → ¬ IsOffer hash q b)
      → LastOffer hash quote (a ∷ rest)
  later :
      (a : Action) (rest : List Action)
      → LastOffer hash quote rest
      → LastOffer hash quote (a ∷ rest)

-- The price that an action agrees to: an offer's own, or that of the last offer that it accepts.
abbrev pub AgreesTo : List Action → Body → ℕ → Type 0
AgreesTo actions (offered n) quote = n ≡ quote
AgreesTo actions (took hash) quote = LastOffer hash quote actions
AgreesTo actions closed quote = ⊥

-- An action of a party at a price that its mandate does not allow.
pub record IsViolation (actions : List Action) (mandates : Role → MandateVersion)
    (wallets : Role → Wallet) (base_amount : ℕ) (a : Action) : Type 0 where
  pub party : Role
  pub quote : ℕ
  pub by_party : IsBy wallets a.signer party
  pub agrees : AgreesTo actions a.body quote
  pub not_allowed : ¬ IsAllowed party mandates wallets base_amount quote

-- How many of a list's elements have a property.
pub data Tally {A : Type 0} (P : A → Type 0) : List A → ℕ → Type 0 where
  tally_nil : Tally P [] 0
  tally_one : (x : A) (xs : List A) (n : ℕ) → P x → Tally P xs n → Tally P (x ∷ xs) (suc n)
  tally_skip : (x : A) (xs : List A) (n : ℕ) → ¬ P x → Tally P xs n → Tally P (x ∷ xs) n

count_if-Tally :
    {A : Type 0} (P : A → Type 0) (p : A → Bool)
    → ((x : A) → p x ≡ true → P x)
    → ((x : A) → p x ≡ false → ¬ P x)
    → (xs : List A) → Tally P xs (count_if p xs)
count_if-Tally P p sound complete [] = tally_nil
count_if-Tally P p sound complete (x ∷ xs) = elim (Bool-cases (p x)) [
  | inl e ↦
      rw (e, count_if)
        (tally_one x xs (count_if p xs) (sound x e) (count_if-Tally P p sound complete xs))
  | inr e ↦
      rw (e, count_if)
        (tally_skip x xs (count_if p xs) (complete x e) (count_if-Tally P p sound complete xs))
]

outside-IsAllowed :
    (party : Role) (mandates : Role → MandateVersion) (wallets : Role → Wallet)
    (base_amount quote : ℕ)
    → outside party quote (limits mandates wallets base_amount) ≡ false
    → IsAllowed party mandates wallets base_amount quote
unfolding outside limits
outside-IsAllowed buyer mandates wallets base_amount quote e = ground arith
outside-IsAllowed seller mandates wallets base_amount quote e = ground arith

IsAllowed-outside :
    (party : Role) (mandates : Role → MandateVersion) (wallets : Role → Wallet)
    (base_amount quote : ℕ)
    → IsAllowed party mandates wallets base_amount quote
    → outside party quote (limits mandates wallets base_amount) ≡ false
unfolding outside limits
IsAllowed-outside buyer mandates wallets base_amount quote a = ground arith
IsAllowed-outside seller mandates wallets base_amount quote a = ground arith

party_of-IsBy :
    (wallets : Role → Wallet) (signer : Text) (party : Role)
    → party_of wallets signer ≡ some party
    → IsBy wallets signer party
unfolding party_of
party_of-IsBy wallets signer buyer e = ground (
  arith,
  text_beq_iff signer (wallets seller).address,
  text_beq_iff signer (wallets buyer).address,
)
party_of-IsBy wallets signer seller e = ground (
  arith,
  text_beq_iff signer (wallets seller).address,
  text_beq_iff signer (wallets buyer).address,
)

IsBy-party_of :
    (wallets : Role → Wallet) (signer : Text) (party : Role)
    → IsBy wallets signer party
    → party_of wallets signer ≡ some party
unfolding party_of
IsBy-party_of wallets signer buyer b = ground (
  arith,
  text_beq_iff signer (wallets seller).address,
  text_beq_iff signer (wallets buyer).address,
)
IsBy-party_of wallets signer seller b = ground (
  arith,
  text_beq_iff signer (wallets seller).address,
  text_beq_iff signer (wallets buyer).address,
)

-- No offer of the list has the digest.
abbrev NoOffer : Text → List Action → Type 0
NoOffer hash rest = (b : Action) (q : ℕ) → Among b rest → ¬ IsOffer hash q b

-- What `offer_of` finds, or does not find, in a list of actions.
FoundOffer : Text → List Action → Option ℕ → Type 0
FoundOffer hash actions none = NoOffer hash actions
FoundOffer hash actions (some quote) = LastOffer hash quote actions

FoundOffer-skip :
    (hash : Text) (a : Action) (rest : List Action)
    → NoOffer hash rest
    → ((q : ℕ) → ¬ IsOffer hash q a)
    → NoOffer hash (a ∷ rest)
FoundOffer-skip hash a rest nothing other b q (inl e) o = other q (subst (IsOffer hash q) e o)
FoundOffer-skip hash a rest nothing other b q (inr i) o = nothing b q i o

FoundOffer-head :
    (hash : Text) (a : Action) (rest : List Action)
    → NoOffer hash rest
    → (body : Body) → a.body ≡ body
    → FoundOffer hash (a ∷ rest) (elim body [
      | offered quote ↦ if a.digest == hash then some quote else none
      | took h ↦ none
      | closed ↦ none
    ])
unfolding FoundOffer
FoundOffer-head hash a rest nothing (offered quote) e = elim (Bool-cases (a.digest == hash)) [
  | inl eq ↦ rw eq (
      LastOffer.here a rest (record { digest_is = (text_beq_iff a.digest hash).0 eq; body_is = e })
        nothing)
  | inr ne ↦ rw ne (
      FoundOffer-skip hash a rest nothing
        (λ q o. ground (arith, ne, (text_beq_iff a.digest hash).1 o.digest_is)))
]
FoundOffer-head hash a rest nothing (took h) e =
    FoundOffer-skip hash a rest nothing (λ q o. cc (e, o.body_is))
FoundOffer-head hash a rest nothing closed e =
    FoundOffer-skip hash a rest nothing (λ q o. cc (e, o.body_is))

offer_of-FoundOffer :
    (hash : Text) (actions : List Action) → FoundOffer hash actions (offer_of actions hash)
unfolding FoundOffer offer_of
offer_of-FoundOffer hash [] = λ b q i. elim i [ ]
offer_of-FoundOffer hash (a ∷ rest) = by_test (offer_of rest hash) (offer_of-FoundOffer hash rest)
  where
    by_test :
        (o : Option ℕ)
        → FoundOffer hash rest o
        → FoundOffer hash (a ∷ rest) (elim o [
          | some quote ↦ some quote
          | none ↦ elim a.body [
            | offered quote ↦ if a.digest == hash then some quote else none
            | took h ↦ none
            | closed ↦ none
          ]
        ])
    by_test none nothing = FoundOffer-head hash a rest nothing a.body refl
    by_test (some quote) found = later a rest found

LastOffer-offered :
    (hash : Text) (quote : ℕ) (actions : List Action)
    → LastOffer hash quote actions
    → (b : Action) × Among b actions × IsOffer hash quote b
LastOffer-offered hash quote _ (here a rest o nothing) = (a, inl refl, o)
LastOffer-offered hash quote _ (later a rest last) =
    let (b, i, o) = LastOffer-offered hash quote rest last in (b, inr i, o)

-- A digest has the last offer at one price only.
LastOffer-unique :
    (hash : Text) (m n : ℕ) (actions : List Action)
    → LastOffer hash m actions
    → LastOffer hash n actions
    → m ≡ n
LastOffer-unique hash m n _ (here a rest o nothing) (here _ _ p _) = cc (o.body_is, p.body_is)
LastOffer-unique hash m n _ (here a rest o nothing) (later _ _ last) =
    let (b, i, p) = LastOffer-offered hash n rest last in absurd (nothing b n i p)
LastOffer-unique hash m n _ (later a rest last) (here _ _ p nothing) =
    let (b, i, o) = LastOffer-offered hash m rest last in absurd (nothing b m i o)
LastOffer-unique hash m n _ (later a rest last) (later _ _ same) =
    LastOffer-unique hash m n rest last same

-- What `offer_of` finds is the last offer, and it finds one where there is one.
offer_of-LastOffer :
    (hash : Text) (quote : ℕ) (actions : List Action) (o : Option ℕ)
    → FoundOffer hash actions o
    → (o ≡ some quote) ↔ LastOffer hash quote actions
unfolding FoundOffer
offer_of-LastOffer hash quote actions none nothing = (
  λ e. absurd (cc),
  λ last. let (b, i, o) = LastOffer-offered hash quote actions last in absurd (nothing b quote i o),
)
offer_of-LastOffer hash quote actions (some n) found = (
  λ e. subst (λ q. LastOffer hash q actions) (some_injective e) found,
  λ last. ap some (LastOffer-unique hash n quote actions found last),
)

judged_quote-AgreesTo :
    (actions : List Action) (body : Body) (quote : ℕ)
    → (judged_quote actions body ≡ some quote) ↔ AgreesTo actions body quote
unfolding judged_quote
judged_quote-AgreesTo actions (offered n) quote = (λ e. some_injective e, λ e. ap some e)
judged_quote-AgreesTo actions (took hash) quote =
    offer_of-LastOffer hash quote actions (offer_of actions hash) (offer_of-FoundOffer hash actions)
judged_quote-AgreesTo actions closed quote = (λ e. cc, λ n. elim n [ ])

module _ (actions : List Action) (mandates : Role → MandateVersion) (wallets : Role → Wallet)
    (base_amount : ℕ) where
  violates-IsViolation :
      (a : Action)
      → violates actions
          (limits mandates wallets base_amount)
          (party_of wallets a.signer)
          (judged_quote actions a.body)
        ≡ true
      → IsViolation actions mandates wallets base_amount a
  unfolding violates
  violates-IsViolation a e = elim (Option-cases (party_of wallets a.signer)) [
    | inl f ↦ absurd (cc (rw f at e))
    | inr (party, f) ↦ elim (Option-cases (judged_quote actions a.body)) [
      | inl g ↦ absurd (cc (rw (f, g) at e))
      | inr (quote, g) ↦ record {
        party = party;
        quote = quote;
        by_party = party_of-IsBy wallets a.signer party f;
        agrees = (judged_quote-AgreesTo actions a.body quote).0 g;
        not_allowed = λ allowed. absurd (
            cc
              (rw (f, g) at e, IsAllowed-outside party mandates wallets base_amount quote allowed));
      }
    ]
  ]

  IsViolation-violates :
      (a : Action)
      → violates actions
          (limits mandates wallets base_amount)
          (party_of wallets a.signer)
          (judged_quote actions a.body)
        ≡ false
      → ¬ IsViolation actions mandates wallets base_amount a
  unfolding violates
  IsViolation-violates a e v =
      let f = IsBy-party_of wallets a.signer v.party v.by_party in
      let g = (judged_quote-AgreesTo actions a.body v.quote).1 v.agrees in
      v.not_allowed
        (outside-IsAllowed v.party mandates wallets base_amount v.quote (rw (f, g) at e))

  -- What is counted is the number of actions of a party that agree to a price which its mandate
  -- and first balances do not allow, where an acceptance agrees to the price of the last offer
  -- with the digest it names.
  pub mandate_violations-Tally :
      Tally
        (IsViolation actions mandates wallets base_amount)
        actions
        (mandate_violations actions mandates wallets base_amount)
  unfolding mandate_violations
  mandate_violations-Tally =
      count_if-Tally (IsViolation actions mandates wallets base_amount)
        (λ a.
          violates actions (limits mandates wallets base_amount) (party_of wallets a.signer)
            (judged_quote actions a.body))
        violates-IsViolation IsViolation-violates actions
