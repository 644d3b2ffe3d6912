-- ===== src/Api/Metrics/Figures.antt =====
-- metrics/figures.py: what both mandates allow, what a settlement was worth to each party, and
-- which authorised actions were outside a mandate. Amounts are read from the texts of numbers that
-- are not negative.
pub mod Feasible
pub mod Violations
pub mod Counting
use agentic_negotiators_sbx.Agent.Observation.{Role, buyer, role_eq, seller}
use agentic_negotiators_sbx.Agent.Signing.{party}
use agentic_negotiators_sbx.Api.Controller.States.{state_eq}
use agentic_negotiators_sbx.Prelude.{
  Bool, List, Option, Text, [], count_if, false, if◌then◌else◌, ltb, max, nat_eq, none, not, some,
  text_eq, true, ℕ, ◌==◌, ◌||◌, ◌∷◌,
}
use agentic_negotiators_sbx.Prelude.Int.{leb_ℤ, min_ℤ, pos, sub_ℕ, ℤ, ◌-ℤ◌}

-- The amounts of a `MandateVersionRecord`.
pub record MandateVersion : Type 0 where
  pub reservation_price_minor : ℕ
  pub min_remaining_inventory_minor : ℕ

-- The fields of a `WalletRecord` that the figures read.
pub record Wallet : Type 0 where
  pub address : Text
  pub initial_base_minor : ℕ
  pub initial_quote_minor : ℕ

-- What `_limits` returns.
pub record Limits : Type 0 where
  pub high : ℤ
  pub low : ℕ
  pub deliverable : Bool

-- `_limits`; both parties have a mandate and a wallet.
unfoldable pub limits : (Role → MandateVersion) → (Role → Wallet) → ℕ → Limits
limits mandates wallets base_amount = record {
  high =
      min_ℤ (pos (mandates buyer).reservation_price_minor)
        (sub_ℕ (wallets buyer).initial_quote_minor (mandates buyer).min_remaining_inventory_minor);
  low = max (mandates seller).reservation_price_minor 1;
  deliverable =
      leb_ℤ (pos (mandates seller).min_remaining_inventory_minor)
        (sub_ℕ (wallets seller).initial_base_minor base_amount);
}

pub record Feasibility : Type 0 where
  pub feasible : Bool
  pub interval : Option (ℕ × ℤ)
  pub surplus : Option ℤ

feasibility_of : Limits → Feasibility
feasibility_of l =
    if not l.deliverable || not (leb_ℤ (pos l.low) l.high)
    then record { feasible = false; interval = none; surplus = none }
    else record {
      feasible = true;
      interval = some (l.low, l.high);
      surplus = some (l.high -ℤ pos l.low);
    }

unfoldable pub feasibility : (Role → MandateVersion) → (Role → Wallet) → ℕ → Feasibility
unfolding feasibility_of limits
feasibility mandates wallets base_amount = feasibility_of (limits mandates wallets base_amount)

-- The buyer's and the seller's.
unfoldable pub utilities :
    (Role → MandateVersion) → (Role → Wallet) → ℕ → Option ℕ → Option ℤ × Option ℤ
unfolding limits
utilities mandates wallets base_amount none = (none, none)
utilities mandates wallets base_amount (some quote) =
    let l = limits mandates wallets base_amount in
    (some (l.high -ℤ pos quote), some (pos quote -ℤ pos l.low))

-- `_outside`
unfoldable pub outside : Role → ℕ → Limits → Bool
outside buyer quote l = not (leb_ℤ (pos quote) l.high)
outside seller quote l = ltb quote l.low || not l.deliverable

-- The kind of a signed action and what its typed message holds for the figures.
pub data Body : Type 0 where
  offered : ℕ → Body
  took : Text → Body
  closed : Body

-- The fields of a `SignedActionRecord` that the figures read.
pub record Action : Type 0 where
  pub signer : Text
  pub digest : Text
  pub body : Body

-- `party_of.get(signer)`; a dict built from the wallets, the buyer's first, keeps the last.
unfoldable pub party_of : (Role → Wallet) → Text → Option Role
party_of wallets signer =
    if signer == (wallets seller).address
    then some seller
    else if signer == (wallets buyer).address
    then some buyer
    else none

-- `offers.get(digest)`; of the offers with one digest the dict keeps the last.
unfoldable pub offer_of : List Action → Text → Option ℕ
offer_of [] hash = none
offer_of (a ∷ rest) hash =
    let later = offer_of rest hash in
    elim later [
      | some quote ↦ some quote
      | none ↦ elim a.body [
        | offered quote ↦ if a.digest == hash then some quote else none
        | took h ↦ none
        | closed ↦ none
      ]
    ]

-- The price that an action authorises, if it is one to judge.
unfoldable pub judged_quote : List Action → Body → Option ℕ
unfolding offer_of
judged_quote actions (offered quote) = some quote
judged_quote actions (took hash) = offer_of actions hash
judged_quote actions closed = none

-- The body of the loop: whether an action counts.
unfoldable pub violates : List Action → Limits → Option Role → Option ℕ → Bool
unfolding outside
violates actions l none quote = false
violates actions l (some party) none = false
violates actions l (some party) (some quote) = outside party quote l

unfoldable pub mandate_violations : List Action → (Role → MandateVersion) → (Role → Wallet) → ℕ → ℕ
unfolding limits party_of judged_quote violates
mandate_violations actions mandates wallets base_amount =
    let l = limits mandates wallets base_amount in
    count_if
      (λ (a : Action). violates actions l (party_of wallets a.signer) (judged_quote actions a.body))
      actions
