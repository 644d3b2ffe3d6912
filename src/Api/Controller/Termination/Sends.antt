-- ===== src/Api/Controller/Termination/Sends.antt =====
-- Which terminations a run's driver sends, over any course of the run.
use mathlib.Core.Path.{ap₂}
use agentic_negotiators_sbx.Api.Controller.Termination.{
  Ending, EndingView, abort_now, expire_now, give_up, is_expired, is_expiry, is_termination,
  none_sent, terminating, termination_rows, wait_on,
}
use agentic_negotiators_sbx.Api.Relay.Outbox.{
  OutboxRecord, TxKind, abort_session, accept_and_settle, approve, close_session, create_session,
  expire_session, fund_eth, is_live, mint, record_offer,
}
use agentic_negotiators_sbx.Prelude.{
  Bool, List, Option, [], any_of, ap, arith, false, if◌then◌else◌, inl, inr, keep_if, none, not,
  refl, some, sym, true, ℕ, ◌&&◌, ◌++◌, ◌||◌, ◌∙◌, ◌∷◌, ◌≡◌, ◌⊎◌,
}

abbrev pub has_termination : List OutboxRecord → Bool
has_termination rows = any_of (λ r. is_termination r.kind) rows

abbrev pub has_expiry : List OutboxRecord → Bool
has_expiry rows = any_of (λ r. is_expiry r.kind) rows

-- The kind of transaction that an ending sends.
abbrev pub sent_kinds : Ending → List TxKind
sent_kinds wait_on = []
sent_kinds give_up = []
sent_kinds expire_now = expire_session ∷ []
sent_kinds (abort_now code) = abort_session ∷ []

-- What the driver sent so far, the first first, and the outbox. Others change rows as they like,
-- replace and revert them, but make no first transaction of an abort or an expiry; what the driver
-- sends is a row from then on.
pub data Course : List TxKind → List OutboxRecord → Type 0 where
  opening : (rows : List OutboxRecord) → has_termination rows ≡ false → Course [] rows
  others :
      {sends : List TxKind} {rows : List OutboxRecord} (rows' : List OutboxRecord)
      → has_termination rows' ≡ has_termination rows
      → has_expiry rows' ≡ has_expiry rows
      → Course sends rows
      → Course sends rows'
  waits :
      {sends : List TxKind} {rows : List OutboxRecord} (v : EndingView)
      → sent_kinds (terminating v rows) ≡ []
      → Course sends rows
      → Course sends rows
  sends_one :
      {sends : List TxKind} {rows : List OutboxRecord} (v : EndingView) (row : OutboxRecord)
      → sent_kinds (terminating v rows) ≡ row.kind ∷ []
      → Course sends rows
      → Course (sends ++ row.kind ∷ []) (rows ++ row ∷ [])

-- Nothing, one abort, one expiry, or an abort and then an expiry.
abbrev pub IsBrief : List TxKind → Type 0
IsBrief sends =
    (sends ≡ [])
    ⊎ (sends ≡ abort_session ∷ [])
    ⊎ (sends ≡ expire_session ∷ [])
    ⊎ (sends ≡ abort_session ∷ expire_session ∷ [])

any_of-append :
    {A : Type 0} (p : A → Bool) (xs : List A) (y : A) → any_of p (xs ++ y ∷ []) ≡ any_of p xs || p y
any_of-append p [] y = elim (p y) as (λ b. (b || false) ≡ b) [ true ↦ refl | false ↦ refl ]
any_of-append p (x ∷ xs) y =
    elim (p x) as (λ b. (b || any_of p (xs ++ y ∷ [])) ≡ ((b || any_of p xs) || p y)) [
      | true ↦ refl
      | false ↦ any_of-append p xs y
    ]

pub any_of-keep_if :
    {A : Type 0} (p q : A → Bool) (xs : List A)
    → ((x : A) → q x ≡ false → p x ≡ false)
    → any_of p (keep_if q xs) ≡ any_of p xs
any_of-keep_if p q [] h = refl
any_of-keep_if p q (x ∷ xs) h = tested (q x) refl (any_of-keep_if p q xs h)
  where
    tested :
        (b : Bool)
        → q x ≡ b
        → any_of p (keep_if q xs) ≡ any_of p xs
        → any_of p (elim b [ true ↦ x ∷ keep_if q xs | false ↦ keep_if q xs ]) ≡ p x || any_of p xs
    tested true f e = ap (λ b. p x || b) e
    tested false f e = e ∙ sym (ap (λ b. b || any_of p xs) (h x f))

-- An expiry is one of the terminations.
pub expiry_terminates : (k : TxKind) → is_termination k ≡ false → is_expiry k ≡ false
expiry_terminates expire_session e = e
expiry_terminates abort_session e = refl
expiry_terminates record_offer e = refl
expiry_terminates accept_and_settle e = refl
expiry_terminates close_session e = refl
expiry_terminates create_session e = refl
expiry_terminates mint e = refl
expiry_terminates approve e = refl
expiry_terminates fund_eth e = refl

-- Where nothing was sent there is no expiry.
pub no_expiry : (rows : List OutboxRecord) → has_termination rows ≡ false → has_expiry rows ≡ false
no_expiry [] e = refl
no_expiry (r ∷ rs) e = tested (is_termination r.kind) refl e (no_expiry rs)
  where
    tested :
        (b : Bool)
        → is_termination r.kind ≡ b
        → b || has_termination rs ≡ false
        → (has_termination rs ≡ false → has_expiry rs ≡ false)
        → is_expiry r.kind || has_expiry rs ≡ false
    tested true f e rest = ground arith
    tested false f e rest = ap (λ b. b || has_expiry rs) (expiry_terminates r.kind f) ∙ rest e

pub unsent_lem :
    (rows : List OutboxRecord) → none_sent (termination_rows rows) ≡ not (has_termination rows)
unsent_lem [] = refl
unsent_lem (r ∷ rs) =
    elim (is_termination r.kind)
      as (λ b.
        none_sent (elim b [ true ↦ r ∷ termination_rows rs | false ↦ termination_rows rs ])
        ≡ not (b || has_termination rs)) [ true ↦ refl | false ↦ unsent_lem rs ]

pub not_lem : {b : Bool} → not b ≡ true → b ≡ false
not_lem {b = true} e = sym e
not_lem {b = false} e = refl

decided :
    (live ended opened unsent expired expiry : Bool) (code : Option ℕ) (k : TxKind)
    → (unsent ≡ true → expiry ≡ false)
    → sent_kinds (
        if live
        then wait_on
        else if ended
        then wait_on
        else if not opened
        then wait_on
        else if not unsent && not (expired && not expiry)
        then give_up
        else if expired
        then expire_now
        else elim code [ none ↦ wait_on | some c ↦ abort_now c ])
      ≡ k ∷ []
    → ((k ≡ expire_session) × (expiry ≡ false)) ⊎ ((k ≡ abort_session) × (unsent ≡ true))
decided true ended opened unsent expired expiry code k h e = ground arith
decided false true opened unsent expired expiry code k h e = ground arith
decided false false false unsent expired expiry code k h e = ground arith
decided false false true true true expiry code k h e = inl (ground arith, h refl)
decided false false true true false expiry none k h e = ground arith
decided false false true true false expiry (some c) k h e = inr (ground arith, refl)
decided false false true false true true code k h e = ground arith
decided false false true false true false code k h e = inl (ground arith, refl)
decided false false true false false expiry code k h e = ground arith

IsBrief-grows :
    (sends : List TxKind) (k : TxKind)
    → IsBrief sends
    → ((k ≡ expire_session) × (any_of is_expiry sends ≡ false))
      ⊎ ((k ≡ abort_session) × (any_of is_termination sends ≡ false))
    → IsBrief (sends ++ k ∷ [])
IsBrief-grows sends k (inl e) (inl (f, g)) = inr (inr (inl (ap₂ (λ s k. s ++ k ∷ []) e f)))
IsBrief-grows sends k (inl e) (inr (f, g)) = inr (inl (ap₂ (λ s k. s ++ k ∷ []) e f))
IsBrief-grows sends k (inr (inl e)) (inl (f, g)) = inr (inr (inr (ap₂ (λ s k. s ++ k ∷ []) e f)))
IsBrief-grows sends k (inr (inl e)) (inr (f, g)) =
    ground (arith, sym (ap (any_of is_termination) e) ∙ g)
IsBrief-grows sends k (inr (inr (inl e))) (inl (f, g)) =
    ground (arith, sym (ap (any_of is_expiry) e) ∙ g)
IsBrief-grows sends k (inr (inr (inl e))) (inr (f, g)) =
    ground (arith, sym (ap (any_of is_termination) e) ∙ g)
IsBrief-grows sends k (inr (inr (inr e))) (inl (f, g)) =
    ground (arith, sym (ap (any_of is_expiry) e) ∙ g)
IsBrief-grows sends k (inr (inr (inr e))) (inr (f, g)) =
    ground (arith, sym (ap (any_of is_termination) e) ∙ g)

-- What is sent is due: an expiry that was not sent, or an abort where nothing was sent.
due_lem :
    (v : EndingView) (rows : List OutboxRecord) (k : TxKind)
    → sent_kinds (terminating v rows) ≡ k ∷ []
    → ((k ≡ expire_session) × (has_expiry rows ≡ false))
      ⊎ ((k ≡ abort_session) × (has_termination rows ≡ false))
unfolding terminating
due_lem v rows k e =
    elim (decided (any_of (λ r. is_live r.status) (termination_rows rows)) v.is_ended v.is_opened
      (none_sent (termination_rows rows)) (is_expired v) (has_expiry (termination_rows rows))
      v.termination_code k
      (λ f.
        any_of-keep_if (λ r. is_expiry r.kind) (λ r. is_termination r.kind) rows
          (λ r. expiry_terminates r.kind)
        ∙ no_expiry rows (not_lem (sym (unsent_lem rows) ∙ f)))
      e) [
        | inl (f, g) ↦ inl (
          f,
          sym (
                any_of-keep_if (λ r. is_expiry r.kind) (λ r. is_termination r.kind) rows
                  (λ r. expiry_terminates r.kind))
              ∙ g,
        )
        | inr (f, g) ↦ inr (f, not_lem (sym (unsent_lem rows) ∙ g))
      ]

-- The sends, and which of their kinds the outbox has.
record Told (sends : List TxKind) (rows : List OutboxRecord) : Type 0 where
  brief : IsBrief sends
  terminations : has_termination rows ≡ any_of is_termination sends
  expiries : has_expiry rows ≡ any_of is_expiry sends

Course-Told : {sends : List TxKind} {rows : List OutboxRecord} → Course sends rows → Told sends rows
Course-Told (opening rows e) = record {
  brief = inl refl;
  terminations = e;
  expiries = no_expiry rows e;
}
Course-Told (others rows' e f course) =
    let told = Course-Told course in
    record {
      brief = told.brief;
      terminations = e ∙ told.terminations;
      expiries = f ∙ told.expiries;
    }
Course-Told (waits v e course) = Course-Told course
Course-Told (sends_one {sends = sends} {rows = rows} v row e course) =
    let told = Course-Told course in
    record {
      brief = IsBrief-grows sends row.kind told.brief (elim (due_lem v rows row.kind e) [
        | inl (f, g) ↦ inl (f, sym told.expiries ∙ g)
        | inr (f, g) ↦ inr (f, sym told.terminations ∙ g)
      ]);
      terminations =
          any_of-append (λ r. is_termination r.kind) rows row
          ∙ ap (λ b. b || is_termination row.kind) told.terminations
          ∙ sym (any_of-append is_termination sends row.kind);
      expiries =
          any_of-append (λ r. is_expiry r.kind) rows row
          ∙ ap (λ b. b || is_expiry row.kind) told.expiries
          ∙ sym (any_of-append is_expiry sends row.kind);
    }

-- Over any course of a run, where others replace, revert and resend terminations but start none,
-- the driver sends nothing, one abort, one expiry, or an abort and then an expiry.
pub Course-IsBrief :
    (sends : List TxKind) (rows : List OutboxRecord) → Course sends rows → IsBrief sends
Course-IsBrief sends rows course = (Course-Told course).brief
