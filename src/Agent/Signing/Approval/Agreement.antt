-- ===== src/Agent/Signing/Approval/Agreement.antt =====
-- signing/session.py's `mismatches_with`: the session that an instance is shown, against the one it
-- approved.
use agentic_negotiators_sbx.Agent.Observation.{SessionView}
use agentic_negotiators_sbx.Agent.Signing.{
  ApprovedSession, base_amount_field, base_token_field, chain_id_field, config_hash_field,
  exchange_address_field, expires_at_field, max_offers_field, mismatches_with, quote_token_field,
  session_id_field,
}
use agentic_negotiators_sbx.Agent.Signing.Approval.{append_iff, same_iff}
use agentic_negotiators_sbx.Prelude.{[], nat_eq, text_eq, ◌↔◌, ◌≡◌}

-- The nine fields that an observation repeats.
pub record IsSameSession (a : ApprovedSession) (v : SessionView) : Type 0 where
  pub same_id : a.session_id ≡ v.session_id
  pub same_config : a.config_hash ≡ v.config_hash
  pub same_chain : a.chain_id ≡ v.chain_id
  pub same_exchange : a.exchange_address ≡ v.exchange_address
  pub same_base : a.base_token ≡ v.base_token
  pub same_quote : a.quote_token ≡ v.quote_token
  pub same_amount : a.base_amount ≡ v.base_amount
  pub same_expiry : a.expires_at ≡ v.expires_at
  pub same_offers : a.max_offers ≡ v.max_offers

-- Nothing is reported exactly when the session of an observation agrees with the approved one on
-- all nine fields that it repeats.
pub mismatches_with-nil_iff :
    (a : ApprovedSession) (v : SessionView) → (mismatches_with a v ≡ []) ↔ IsSameSession a v
unfolding mismatches_with
mismatches_with-nil_iff a v =
    let all = append_iff _ _ (same_iff a.session_id v.session_id session_id_field) (
      append_iff _ _ (same_iff a.config_hash v.config_hash config_hash_field) (
        append_iff _ _ (same_iff a.chain_id v.chain_id chain_id_field) (
          append_iff _ _ (same_iff a.exchange_address v.exchange_address exchange_address_field) (
            append_iff _ _ (same_iff a.base_token v.base_token base_token_field) (
              append_iff _ _ (same_iff a.quote_token v.quote_token quote_token_field) (
                append_iff _ _ (same_iff a.base_amount v.base_amount base_amount_field) (
                  append_iff _ _ (same_iff a.expires_at v.expires_at expires_at_field)
                    (same_iff a.max_offers v.max_offers max_offers_field)))))))) in
    (
      λ nothing.
          let (
            same_id,
            (
              same_config,
              (
                same_chain,
                (
                  same_exchange,
                  (same_base, (same_quote, (same_amount, (same_expiry, same_offers)))),
                ),
              ),
            ),
          ) =
            all.0 nothing in
          record {
            same_id = same_id;
            same_config = same_config;
            same_chain = same_chain;
            same_exchange = same_exchange;
            same_base = same_base;
            same_quote = same_quote;
            same_amount = same_amount;
            same_expiry = same_expiry;
            same_offers = same_offers;
          },
      λ x. all.1 (
        x.same_id,
        (
          x.same_config,
          (
            x.same_chain,
            (
              x.same_exchange,
              (x.same_base, (x.same_quote, (x.same_amount, (x.same_expiry, x.same_offers)))),
            ),
          ),
        ),
      ),
    )
