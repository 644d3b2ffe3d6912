-- ===== src/Tests/Sample.antt =====
-- A session of six offers over ten base units: the buyer has offered, and the seller is to move.
use agentic_negotiators_sbx.Agent.Json.{Json, no_more, obj, pair, str}
use agentic_negotiators_sbx.Agent.Observation.{
  ActiveOffer, HistoryEntry, Observation, SessionView, active, buyer, by, offer, seller,
}
use agentic_negotiators_sbx.Agent.Signing.{
  ApprovedSession, Hashing, Message, RunSigner, accept_message, close_message, offer_message,
}
use agentic_negotiators_sbx.Prelude.{Text, [], codes, some, ◌∷◌}

abbrev pub offer_digest : Text
offer_digest = codes "0x1111111111111111111111111111111111111111111111111111111111111111"

abbrev pub view : SessionView
view = record {
  session_id = codes "0x01";
  config_hash = codes "0x02";
  chain_id = 84532;
  exchange_address = codes "0x03";
  base_token = codes "0x04";
  quote_token = codes "0x05";
  base_amount = 10;
  expires_at = 4600;
  max_offers = 6;
}

abbrev pub standing : ActiveOffer
standing = record {
  offer_hash = offer_digest;
  proposer = buyer;
  quote_amount = 90;
  valid_until = 1300;
  sequence = 1;
}

abbrev pub first_entry : HistoryEntry
first_entry = record {
  sequence = 1;
  actor = by buyer;
  kind = offer;
  quote_amount = some 90;
  valid_until = some 1300;
  offer_hash = some offer_digest;
  status = some active;
}

abbrev pub seller_view : Observation
seller_view = record {
  run_id = codes "run";
  role = seller;
  my_address = codes "0x5e";
  session = view;
  chain_time = 1000;
  expected_sequence = 2;
  offers_remaining_for_me = 3;
  active_offer = some standing;
  history = first_entry ∷ [];
  my_balances = record { base = 50; quote = 0 };
  mandate = record { reservation_price = 100; min_remaining_inventory = 5 };
}

-- The answer `{"decision": {"action": "offer", "quote_amount_minor": "120"}}`.
abbrev pub offer_120 : Json
offer_120 = obj (
    pair (codes "decision")
      (obj (
        pair (codes "action") (str (codes "offer"))
          (pair (codes "quote_amount_minor") (str (codes "120")) no_more)))
      no_more)

abbrev pub seller_session : ApprovedSession
seller_session = record {
  chain_id = 84532;
  exchange_address = codes "0x03";
  base_token = codes "0x04";
  quote_token = codes "0x05";
  session_id = codes "0x01";
  config_hash = codes "0x02";
  buyer_address = codes "0xb0";
  seller_address = codes "0x5e";
  base_amount = 10;
  expires_at = 4600;
  max_offers = 6;
  offer_lifetime_s = 300;
}

-- An encoder that hashes a configuration to `0x02` and a message to its kind and sequence.
abbrev pub message_tag : Message → Text
message_tag (offer_message s c seq me amount until) = 1 ∷ seq ∷ amount ∷ until ∷ []
message_tag (accept_message s c seq me hash) = 2 ∷ seq ∷ []
message_tag (close_message s c seq me code) = 3 ∷ seq ∷ code ∷ []

abbrev pub hashing : Hashing
hashing = record {
  hash_config = λ _ _ _ _ _ _ _ _. codes "0x02";
  hash_message = λ _ _ m. message_tag m;
}

abbrev pub seller_signer : RunSigner
seller_signer = record { role = seller; address = codes "0x5e"; sign_digest = λ d. 0 ∷ d }
