-- ===== src/Api/Metrics/Settlement.antt =====
-- metrics/figures.py: the balances that a settlement moved.
pub mod Transfers
-- The stages of a snapshot that `_deltas_match` reads, and its tokens.
use agentic_negotiators_sbx.Agent.Observation.{Role, buyer, seller}
use agentic_negotiators_sbx.Agent.Signing.{party}
use agentic_negotiators_sbx.Prelude.{Bool, Option, false, none, some, ℕ, ◌&&◌}
use agentic_negotiators_sbx.Prelude.Int.{leb_ℤ, neg, pos, sub_ℕ, ℤ}

pub data Stage : Type 0 where
  pre_settlement post_settlement : Stage

pub data TokenRole : Type 0 where
  token_base token_quote : TokenRole

-- One of the four expected moves of `_deltas_match`, of the balance before and after.
is_move : Option ℕ → Option ℕ → ℤ → Bool
is_move none after delta = false
is_move (some before) none delta = false
is_move (some before) (some after) delta =
    leb_ℤ (sub_ℕ after before) delta && leb_ℤ delta (sub_ℕ after before)

-- The same of the amounts keyed by stage, party and token.
moved : (Stage → Role → TokenRole → Option ℕ) → Role → TokenRole → ℤ → Bool
unfolding is_move
moved amounts party token delta =
    is_move (amounts pre_settlement party token) (amounts post_settlement party token) delta

-- `_deltas_match`
unfoldable pub deltas_match : (Stage → Role → TokenRole → Option ℕ) → ℕ → ℕ → Bool
unfolding moved
deltas_match amounts base_amount quote =
    moved amounts buyer token_base (pos base_amount)
    && moved amounts buyer token_quote (neg (pos quote))
    && moved amounts seller token_base (neg (pos base_amount))
    && moved amounts seller token_quote (pos quote)
