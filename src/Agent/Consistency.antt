-- ===== src/Agent/Consistency.antt =====
-- consistency.py: what contradicts itself in an observation. A problem keeps its key, and loses
-- its message.
pub mod Usable
use agentic_negotiators_sbx.Agent.Observation.{
  ActiveOffer, HistoryEntry, Observation, Role, Status, accepted, active, buyer, expired, is_by,
  is_offer, own_offers_recorded, replaced, role_eq, seller, terminal,
}
use agentic_negotiators_sbx.Agent.Policy.Concession.{opportunities}
use agentic_negotiators_sbx.Agent.Signing.{ApprovedSession, Hashing, offer_message, party}
use agentic_negotiators_sbx.Prelude.{
  Bool, List, Option, Text, [], false, get_last?, if◌then◌else◌, leb, length, ltb, nat_eq, none,
  not, some, text_eq, true, ℕ, ◌%◌, ◌&&◌, ◌++◌, ◌+◌, ◌-◌, ◌==◌, ◌∷◌,
}

-- The keys of the problems, those of an entry with the index.
pub data Problem : Type 0 where
  sequence_problem kind_problem actor_problem entry_problem : ℕ → Problem
  hash_problem status_problem : ℕ → Problem
  history_problem expected_sequence_problem remaining_problem active_offer_problem : Problem

-- A problem that is reported unless a test holds.
reported : Bool → Problem → List Problem
reported good problem = if good then [] else problem ∷ []

abbrev status_beq : Status → Status → Bool
status_beq active active = true
status_beq expired expired = true
status_beq replaced replaced = true
status_beq accepted accepted = true
status_beq terminal terminal = true
status_beq _ _ = false

-- `"buyer" if index % 2 == 0 else "seller"`
expected_actor : ℕ → Role
expected_actor index = if index % 2 == 0 then buyer else seller

expected_status : ℕ → ℕ → ℕ → ℕ → Status
expected_status index count valid_until chain_time =
    if index + 1 == count
    then (if ltb chain_time valid_until then active else expired)
    else replaced

module _ (h : Hashing) (approval : ApprovedSession) (o : Observation) where
  -- `_digest_matches`; UINT64_MAX is 2 ^ 64 - 1.
  digest_matches : ℕ → Text → ℕ → ℕ → Text → Bool
  digest_matches seq proposer quote valid_until offer_hash =
      leb valid_until 18446744073709551615
      && h.hash_message approval.chain_id approval.exchange_address
          (offer_message approval.session_id approval.config_hash seq proposer quote valid_until)
        == offer_hash

  -- What an offer in its place must still satisfy.
  offer_problems : ℕ → HistoryEntry → ℕ → ℕ → ℕ → Text → Status → List Problem
  unfolding reported digest_matches expected_actor expected_status
  offer_problems index entry count quote valid_until offer_hash status =
      reported
        (digest_matches entry.sequence (party approval (expected_actor index)) quote valid_until
          offer_hash)
        (hash_problem index)
      ++ reported (status_beq status (expected_status index count valid_until o.chain_time))
          (status_problem index)

  -- The optional fields of an offer.
  field_problems :
      ℕ → HistoryEntry → ℕ → Option ℕ → Option ℕ → Option Text → Option Status → List Problem
  unfolding offer_problems
  field_problems index entry count (some quote) (some valid_until) (some offer_hash) (some status) =
      offer_problems index entry count quote valid_until offer_hash status
  field_problems index entry count quote valid_until offer_hash status = entry_problem index ∷ []

  -- `_entry_problems`
  entry_problems : ℕ → HistoryEntry → ℕ → List Problem
  unfolding field_problems expected_actor
  entry_problems index entry count =
      if not (entry.sequence == index + 1)
      then sequence_problem index ∷ []
      else if not (is_offer entry.kind)
      then kind_problem index ∷ []
      else if not (is_by (expected_actor index) entry.actor)
      then actor_problem index ∷ []
      else field_problems index entry count entry.quote_amount entry.valid_until entry.offer_hash
          entry.status

  -- The loop over the history.
  history_problems : ℕ → ℕ → List HistoryEntry → List Problem
  unfolding entry_problems
  history_problems index count [] = []
  history_problems index count (entry ∷ entries) =
      entry_problems index entry count ++ history_problems (index + 1) count entries

  -- `last.valid_until is not None and last.valid_until > observation.chain_time`
  stands : Option ℕ → Bool
  stands none = false
  stands (some valid_until) = ltb o.chain_time valid_until

  abbrev text_is : Option Text → Text → Bool
  text_is none t = false
  text_is (some s) t = t == s

  abbrev number_is : Option ℕ → ℕ → Bool
  number_is none n = false
  number_is (some m) n = n == m

  same_offer : ActiveOffer → HistoryEntry → Bool
  same_offer a last =
      text_is last.offer_hash a.offer_hash
      && is_by a.proposer last.actor
      && number_is last.quote_amount a.quote_amount
      && number_is last.valid_until a.valid_until
      && a.sequence == last.sequence

  -- `_active_offer_problems`
  active_offer_problems : Option HistoryEntry → Option ActiveOffer → List Problem
  unfolding reported stands same_offer
  active_offer_problems none none = []
  active_offer_problems (some last) none =
      reported (not (stands last.valid_until)) active_offer_problem
  active_offer_problems none (some a) = active_offer_problem ∷ []
  active_offer_problems (some last) (some a) =
      reported (stands last.valid_until && same_offer a last) active_offer_problem

  unfoldable pub contradictions : List Problem
  unfolding history_problems reported active_offer_problems
  contradictions =
      history_problems 0 (length o.history) o.history
      ++ (reported (leb (length o.history) o.session.max_offers) history_problem
          ++ (reported (o.expected_sequence == length o.history + 1) expected_sequence_problem
              ++ (reported
                    (o.offers_remaining_for_me
                      == opportunities o.role o.session.max_offers - own_offers_recorded o)
                    remaining_problem
                  ++ active_offer_problems (get_last? o.history) o.active_offer)))
