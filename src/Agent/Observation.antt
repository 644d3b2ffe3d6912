-- ===== src/Agent/Observation.antt =====
-- observation.py: what an agent is shown, and what it reads from the history. Addresses, digests
-- and ids are texts; amounts, sequences and chain times are numbers, which their classes and the
-- observation's schema keep from being negative.
use agentic_negotiators_sbx.Prelude.{
  Bool, Eq, List, Option, Result, Text, arith, count_if, err, false, get_last?, keep_if, nat_eq,
  none, ok, some, text_eq, true, ℕ, ◌&&◌, ◌==◌, ◌>>=◌, ◌↔◌, ◌≡◌,
}

-- `ValueError`, by what raised it.
pub data ValueError : Type 0 where
  not_a_role unknown_reason no_opportunity : ValueError

pub data Role : Type 0 where
  buyer seller : Role

-- `HistoryEntry.actor`, the schema's four.
pub data Actor : Type 0 where
  by : Role → Actor
  operator anyone : Actor

abbrev pub role_beq : Role → Role → Bool
role_beq buyer buyer = true
role_beq buyer seller = false
role_beq seller buyer = false
role_beq seller seller = true

pub role_beq_iff : (a b : Role) → (role_beq a b ≡ true) ↔ (a ≡ b)
role_beq_iff a b = ground arith

instance abbrev pub role_eq : Eq Role
role_eq = record { equal = role_beq; equal_iff = role_beq_iff }

-- `entry.actor == role`
abbrev pub is_by : Role → Actor → Bool
is_by role (by r) = r == role
is_by role operator = false
is_by role anyone = false

unfoldable pub counterparty : Role → Role
counterparty buyer = seller
counterparty seller = buyer

unfoldable pub as_role : Actor → Result ValueError Role
as_role (by r) = ok r
as_role operator = err not_a_role
as_role anyone = err not_a_role

pub record Mandate : Type 0 where
  pub reservation_price : ℕ
  pub min_remaining_inventory : ℕ

pub record SessionView : Type 0 where
  pub session_id : Text
  pub config_hash : Text
  pub chain_id : ℕ
  pub exchange_address : Text
  pub base_token : Text
  pub quote_token : Text
  pub base_amount : ℕ
  pub expires_at : ℕ
  pub max_offers : ℕ

pub record ActiveOffer : Type 0 where
  pub offer_hash : Text
  pub proposer : Role
  pub quote_amount : ℕ
  pub valid_until : ℕ
  pub sequence : ℕ

pub data Kind : Type 0 where
  offer accept close expire abort settle : Kind

abbrev pub is_offer : Kind → Bool
is_offer offer = true
is_offer _ = false

pub data Status : Type 0 where
  active replaced expired accepted terminal : Status

pub record HistoryEntry : Type 0 where
  pub sequence : ℕ
  pub actor : Actor
  pub kind : Kind
  pub quote_amount : Option ℕ
  pub valid_until : Option ℕ
  pub offer_hash : Option Text
  pub status : Option Status

pub record Balances : Type 0 where
  pub base : ℕ
  pub quote : ℕ

pub record Observation : Type 0 where
  pub run_id : Text
  pub role : Role
  pub my_address : Text
  pub session : SessionView
  pub chain_time : ℕ
  pub expected_sequence : ℕ
  pub offers_remaining_for_me : ℕ
  pub active_offer : Option ActiveOffer
  pub history : List HistoryEntry
  pub my_balances : Balances
  pub mandate : Mandate

unfoldable pub offers_recorded : Observation → ℕ
offers_recorded o = count_if (λ e. is_offer e.kind) o.history

unfoldable pub own_offers_recorded : Observation → ℕ
own_offers_recorded o = count_if (λ e. is_offer e.kind && is_by o.role e.actor) o.history

-- The counterparty of whoever made the last recorded offer; the buyer before any.
unfoldable pub proposer_after : Option HistoryEntry → Result ValueError Role
unfolding counterparty as_role
proposer_after none = ok buyer
proposer_after (some e) = do r ← as_role e.actor; ok (counterparty r)

unfoldable pub next_proposer : Observation → Result ValueError Role
unfolding proposer_after
next_proposer o = proposer_after (get_last? (keep_if (λ e. is_offer e.kind) o.history))
