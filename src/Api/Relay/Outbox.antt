-- ===== src/Api/Relay/Outbox.antt =====
-- The transaction outbox (db/models.py `OutboxTx`, db/repositories/chain.py) and what else the
-- relay reads and writes: the signed actions' status and the lease's nonce.
use agentic_negotiators_sbx.Agent.Signing.{Message}
use agentic_negotiators_sbx.Agent.Signing.Actions.{ActionKind}
use agentic_negotiators_sbx.Api.Effects.{Eff}
use agentic_negotiators_sbx.Prelude.{
  Bool, List, Option, Text, [], all_of, any_of, count_if, err, false, if◌then◌else◌, keep_if, leb,
  max, nat_eq, none, ok, some, text_eq, true, ℕ, ◌&&◌, ◌++◌, ◌+◌, ◌==◌, ◌||◌, ◌∷◌,
}

pub data TxKind : Type 0 where
  record_offer accept_and_settle close_session expire_session abort_session : TxKind
  create_session mint approve fund_eth : TxKind

pub data TxStatus : Type 0 where
  pending submitted included confirmed finalized reverted replaced dropped : TxStatus

pub data ActionStatus : Type 0 where
  action_signed action_submitted action_included action_confirmed : ActionStatus
  action_finalized action_reverted action_superseded : ActionStatus

-- `status not in TX_STATUSES_NOT_LIVE`
abbrev pub is_live : TxStatus → Bool
is_live replaced = false
is_live dropped = false
is_live reverted = false
is_live _ = true

-- `status in UNFINISHED_TX_STATUSES`
abbrev pub is_unfinished : TxStatus → Bool
is_unfinished pending = true
is_unfinished submitted = true
is_unfinished included = true
is_unfinished _ = false

-- An `OutboxRecord`, less what only the indexer writes and its first broadcast's time.
pub record OutboxRecord : Type 0 where
  pub id : ℕ
  pub run_id : ℕ
  pub kind : TxKind
  pub sender : Text
  pub nonce : ℕ
  pub raw_tx : Text
  pub tx_hash : Text
  pub signed_action_id : Option ℕ
  pub replaces_id : Option ℕ
  pub status : TxStatus
  pub attempts : ℕ
  pub last_error : Option Text
  pub block_number : Option ℕ
  pub submitted_block : Option ℕ

-- A `SignedActionRecord`, as far as the relay reads it.
pub record SignedActionRow : Type 0 where
  pub id : ℕ
  pub run_id : ℕ
  pub kind : ActionKind
  pub message : Message
  pub signature : Text
  pub status : ActionStatus

-- The database and the rest of the world, a value of `W`; `sent` are the bytes handed to a node,
-- the newest first, and a lease is a run whose lease this holder has and its next relay nonce.
pub record Store (W : Type 0) : Type 0 where
  pub world : W
  pub outbox : List OutboxRecord
  pub actions : List SignedActionRow
  pub leases : List (ℕ × ℕ)
  pub sent : List Text

-- What the relay raises: `RelayError`, `RpcUnavailableError` with its words, `DuplicateError` by
-- its constraint, `LeaseLostError` and `NotFoundError`.
pub data RelayError : Type 0 where
  relay_refused no_row lease_lost : RelayError
  rpc_unavailable : Text → RelayError
  duplicate_hash duplicate_live : RelayError

abbrev pub number_beq : Option ℕ → Option ℕ → Bool
number_beq (some a) (some b) = a == b
number_beq _ _ = false

-- A row that is in the partial unique index on `signed_action_id`, and its key.
abbrev pub is_live_for : ℕ → OutboxRecord → Bool
is_live_for action row = is_live row.status && number_beq (some action) row.signed_action_id

-- Whether the index holds this row's key once.
unfoldable pub fits_index : List OutboxRecord → OutboxRecord → Bool
fits_index rows row = elim row.signed_action_id [
  | none ↦ true
  | some action ↦ leb (count_if (is_live_for action) rows) 1
]

-- `uow.outbox._update`: the row, as it is after the update, if there is one.
abbrev pub changed : ℕ → (OutboxRecord → OutboxRecord) → List OutboxRecord → List OutboxRecord
changed id change [] = []
changed id change (r ∷ rs) = (if r.id == id then change r else r) ∷ changed id change rs

abbrev pub row_of : ℕ → List OutboxRecord → Option OutboxRecord
row_of id [] = none
row_of id (r ∷ rs) = if r.id == id then some r else row_of id rs

abbrev pub kept_or : Option ℕ → ℕ → Option ℕ
kept_or none new = some new
kept_or (some old) new = some old

-- `signed_actions.get`
abbrev pub action_of : ℕ → List SignedActionRow → Option SignedActionRow
action_of id [] = none
action_of id (a ∷ as') = if a.id == id then some a else action_of id as'

-- An action that is only signed is submitted with its transaction.
abbrev pub submit_signed : ℕ → List SignedActionRow → List SignedActionRow
submit_signed id [] = []
submit_signed id (a ∷ as') =
    (if a.id == id
      then elim a.status [ action_signed ↦ record a { status = action_submitted } | _ ↦ a ]
      else a)
    ∷ submit_signed id as'

-- The order of `sender, nonce`, by the database's order of texts.
abbrev pub comes_before : (Text → Text → Bool) → OutboxRecord → OutboxRecord → Bool
comes_before collates a b =
    collates a.sender b.sender || a.sender == b.sender && leb a.nonce b.nonce

abbrev pub place_row : (Text → Text → Bool) → OutboxRecord → List OutboxRecord → List OutboxRecord
place_row collates row [] = row ∷ []
place_row collates row (r ∷ rs) =
    let rest = place_row collates row rs in
    if comes_before collates row r then row ∷ r ∷ rs else r ∷ rest

abbrev pub sort_rows : (Text → Text → Bool) → List OutboxRecord → List OutboxRecord
sort_rows collates [] = []
sort_rows collates (r ∷ rs) = place_row collates r (sort_rows collates rs)

-- `func.max(OutboxTx.nonce)`
abbrev largest : List OutboxRecord → Option ℕ
largest [] = none
largest (r ∷ rs) = elim (largest rs) [ none ↦ some r.nonce | some n ↦ some (max r.nonce n) ]

abbrev pub first_of : List OutboxRecord → Option OutboxRecord
first_of [] = none
first_of (r ∷ rs) = some r

module _ {W : Type 0} where
  -- The rows of the outbox in a table written back, where the unique indexes allow it.
  unfoldable pub write_rows :
      List OutboxRecord → OutboxRecord → Eff (Store W) RelayError OutboxRecord
  unfolding fits_index
  write_rows rows row s =
      if all_of (fits_index rows) rows
      then (ok row, record s { outbox = rows })
      else (err duplicate_live, s)

  -- `uow.outbox.add`
  unfoldable pub add_row : OutboxRecord → Eff (Store W) RelayError OutboxRecord
  unfolding write_rows
  add_row row s =
      if any_of (λ r. r.tx_hash == row.tx_hash) s.outbox
      then (err duplicate_hash, s)
      else write_rows (s.outbox ++ row ∷ []) row s

  unfoldable pub update_row :
      ℕ → (OutboxRecord → OutboxRecord) → Eff (Store W) RelayError OutboxRecord
  unfolding write_rows
  update_row id change s = elim (row_of id s.outbox) [
    | none ↦ (err no_row, s)
    | some row ↦ write_rows (changed id change s.outbox) (change row) s
  ]

  -- `mark_submitted`
  unfoldable pub mark_submitted : ℕ → ℕ → Eff (Store W) RelayError OutboxRecord
  unfolding update_row
  mark_submitted id block = update_row id (λ r. record r {
    status = submitted;
    submitted_block = kept_or r.submitted_block block;
    attempts = r.attempts + 1;
    last_error = none;
  })

  -- `update_status`, with no error.
  unfoldable pub update_status : ℕ → TxStatus → Eff (Store W) RelayError OutboxRecord
  unfolding update_row
  update_status id status = update_row id (λ r. record r { status = status })

  -- `record_attempt`
  unfoldable pub record_attempt : ℕ → Text → Eff (Store W) RelayError OutboxRecord
  unfolding update_row
  record_attempt id why =
      update_row id (λ r. record r { attempts = r.attempts + 1; last_error = some why })

  -- `outbox.unfinished`, by sender and nonce
  unfoldable pub unfinished : (Text → Text → Bool) → ℕ → Store W → List OutboxRecord
  unfinished collates run_id s =
      sort_rows collates (keep_if (λ r. r.run_id == run_id && is_unfinished r.status) s.outbox)

  -- `nonce_group`
  unfoldable pub nonce_group : (ℕ → Bool) → Text → ℕ → Store W → List OutboxRecord
  nonce_group on_deployment sender nonce s =
      keep_if (λ r. r.sender == sender && r.nonce == nonce && on_deployment r.run_id) s.outbox

  -- `max_nonce`
  unfoldable pub max_nonce : (ℕ → Bool) → Text → Store W → Option ℕ
  max_nonce on_deployment sender s =
      largest (keep_if (λ r. r.sender == sender && on_deployment r.run_id) s.outbox)

  -- `for_signed_action`, the oldest first.
  unfoldable pub for_signed_action : ℕ → Store W → List OutboxRecord
  for_signed_action action s = keep_if (λ r. number_beq (some action) r.signed_action_id) s.outbox

  -- `live_for_signed_action`
  unfoldable pub live_for_signed_action : ℕ → Store W → Option OutboxRecord
  live_for_signed_action action s = first_of (keep_if (is_live_for action) s.outbox)

-- The rows that are there.
abbrev pub present : List (Option OutboxRecord) → List OutboxRecord
present [] = []
present (none ∷ rows) = present rows
present (some row ∷ rows) = row ∷ present rows
