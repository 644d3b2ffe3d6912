-- ===== src/Api/Metrics/Settlement/Transfers.antt =====
-- metrics/figures.py's `_deltas_match`, as transfers between the parties.
use agentic_negotiators_sbx.Agent.Observation.{Role, buyer, seller}
use agentic_negotiators_sbx.Api.Metrics.Settlement.{
  Stage, TokenRole, deltas_match, is_move, moved, post_settlement, pre_settlement, token_base,
  token_quote,
}
use agentic_negotiators_sbx.Prelude.{Option, arith, none, refl, some, true, ℕ, ◌+◌, ◌↔◌, ◌≡◌}
use agentic_negotiators_sbx.Prelude.Int.{neg, pos}

-- The balances before and after a transfer of `n` of a token.
pub record IsTransfer (amounts : Stage → Role → TokenRole → Option ℕ) (token : TokenRole)
    (payer payee : Role) (n : ℕ) : Type 0 where
  pub payer_before : ℕ
  pub payer_after : ℕ
  pub payee_before : ℕ
  pub payee_after : ℕ
  pub is_payer_before : amounts pre_settlement payer token ≡ some payer_before
  pub is_payer_after : amounts post_settlement payer token ≡ some payer_after
  pub is_payee_before : amounts pre_settlement payee token ≡ some payee_before
  pub is_payee_after : amounts post_settlement payee token ≡ some payee_after
  pub paid : payer_after + n ≡ payer_before
  pub received : payee_after ≡ payee_before + n

-- What each side of a transfer shows.
gained :
    (before after : Option ℕ) (n : ℕ)
    → (is_move before after (pos n) ≡ true)
      ↔ ((b : ℕ) × (a : ℕ) × (before ≡ some b) × (after ≡ some a) × (a ≡ b + n))
unfolding is_move
gained none after n = ((λ h. absurd (cc)), (λ (b, a, e, f, g). cc))
gained (some b) none n = ((λ h. absurd (cc)), (λ (c, a, e, f, g). cc))
gained (some b) (some a) n =
    ((λ h. (b, a, refl, refl, ground arith)), (λ (c, d, e, f, g). ground arith))

lost :
    (before after : Option ℕ) (n : ℕ)
    → (is_move before after (neg (pos n)) ≡ true)
      ↔ ((b : ℕ) × (a : ℕ) × (before ≡ some b) × (after ≡ some a) × (a + n ≡ b))
unfolding is_move
lost none after n = ((λ h. absurd (cc)), (λ (b, a, e, f, g). cc))
lost (some b) none n = ((λ h. absurd (cc)), (λ (c, a, e, f, g). cc))
lost (some b) (some a) n =
    ((λ h. (b, a, refl, refl, ground arith)), (λ (c, d, e, f, g). ground arith))

-- A payer's loss and a payee's gain make a transfer.
paid_iff :
    (amounts : Stage → Role → TokenRole → Option ℕ) (token : TokenRole) (payer payee : Role) (n : ℕ)
    → ((moved amounts payer token (neg (pos n)) ≡ true)
        × (moved amounts payee token (pos n) ≡ true))
      ↔ IsTransfer amounts token payer payee n
unfolding moved
paid_iff amounts token payer payee n =
    let out = lost (amounts pre_settlement payer token) (amounts post_settlement payer token) n in
    let in_ = gained (amounts pre_settlement payee token) (amounts post_settlement payee token) n in
    (
      (λ (l, g).
          let (b, a, e, f, h) = out.0 l in
          let (b', a', e', f', h') = in_.0 g in
          record {
            payer_before = b;
            payer_after = a;
            payee_before = b';
            payee_after = a';
            is_payer_before = e;
            is_payer_after = f;
            is_payee_before = e';
            is_payee_after = f';
            paid = h;
            received = h';
          }),
      (λ t. (
        out.1 (t.payer_before, t.payer_after, t.is_payer_before, t.is_payer_after, t.paid),
        in_.1 (t.payee_before, t.payee_after, t.is_payee_before, t.is_payee_after, t.received),
      )),
    )

-- The balances match exactly when the base amount went from the seller to the buyer and the price
-- from the buyer to the seller.
pub deltas_match_iff :
    (amounts : Stage → Role → TokenRole → Option ℕ) (base_amount quote : ℕ)
    → (deltas_match amounts base_amount quote ≡ true) ↔ (
        IsTransfer amounts token_base seller buyer base_amount
        × IsTransfer amounts token_quote buyer seller quote)
unfolding deltas_match
deltas_match_iff amounts base_amount quote =
    let base = paid_iff amounts token_base seller buyer base_amount in
    let price = paid_iff amounts token_quote buyer seller quote in
    (
      (λ h. (base.0 (ground arith, ground arith), price.0 (ground arith, ground arith))),
      (λ (b, p).
          let (paid, received) = base.1 b in
          let (paid', received') = price.1 p in rw (received, paid', paid, received') refl),
    )
