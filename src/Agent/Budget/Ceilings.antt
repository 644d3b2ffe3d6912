-- ===== src/Agent/Budget/Ceilings.antt =====
-- The two ceilings, over a sequence of calls.
use native.Mathlib.Nat.{mul-le-mul_left, mul-le-mul_right}
use agentic_negotiators_sbx.Agent.Budget.{
  Admitted, Guard, ModelPrice, RefusalReason, TokenUsage, admission, admit, bound_usd, cost_usd,
  invalid_call, refused_call, settle, settle_at, usd,
}
use agentic_negotiators_sbx.Prelude.{
  All, List, Option, [], arith, max, none, refl, some, ℕ, ◌*◌, ◌+◌, ◌-◌, ◌/◌, ◌<◌, ◌∙◌, ◌∷◌, ◌≡◌,
  ◌≤◌,
}
use agentic_negotiators_sbx.Prelude.Int.{ceil_ratio, div_mono, pos, sub_ℕ, ℤ, ◌*ℤ◌, ◌+ℤ◌, ◌≤ℤ◌}

-- The provider's report stays within what was counted and capped: the cached tokens are part of
-- the count, the one-hour writes are part of the cache writes, and the output is capped.
pub record IsWithin (u : TokenUsage) (input_tokens max_tokens : ℕ) : Type 0 where
  pub counted :
      u.input_tokens + u.cache_read_input_tokens + u.cache_creation_input_tokens ≤ input_tokens
  pub part : u.cache_creation_1h_input_tokens ≤ u.cache_creation_input_tokens
  pub capped : u.output_tokens ≤ max_tokens

usd_pos : (scale x : ℕ) → 0 < scale → usd scale (pos x) ≡ pos ((x + (scale - 1)) / scale)
unfolding usd
usd_pos scale x h = ceil_ratio x scale h

usd_mono : (scale x y : ℕ) → 0 < scale → x ≤ y → usd scale (pos x) ≤ℤ usd scale (pos y)
usd_mono scale x y h le =
    rw (usd_pos scale x h, usd_pos scale y h)
      (omega (arith, div_mono scale {a = x + (scale - 1)} {b = y + (scale - 1)} h (omega arith)))

written : (a b r : ℕ) → b ≤ a → sub_ℕ a b *ℤ pos r ≡ pos ((a - b) * r)
unfolding ◌*ℤ◌
written a b r h = grind arith

dearest : ModelPrice → ℕ
dearest p = max (max (max p.input p.cache_write_5m) p.cache_write_1h) p.cache_read

-- The tokens of a report, each at its own rate, cost no more than all of them at the dearest.
rates_bound :
    (p : ModelPrice) (u : TokenUsage) (input_tokens max_tokens : ℕ)
    → IsWithin u input_tokens max_tokens
    → u.input_tokens * p.input
        + u.output_tokens * p.output
        + u.cache_read_input_tokens * p.cache_read
        + u.cache_creation_1h_input_tokens * p.cache_write_1h
        + (u.cache_creation_input_tokens - u.cache_creation_1h_input_tokens) * p.cache_write_5m
      ≤ input_tokens * dearest p + max_tokens * p.output
unfolding dearest
rates_bound p u i m w =
    let d = dearest p in
    let e₁ : u.input_tokens * p.input ≤ u.input_tokens * d =
      mul-le-mul_left u.input_tokens (omega arith) in
    let e₂ : u.cache_read_input_tokens * p.cache_read ≤ u.cache_read_input_tokens * d =
      mul-le-mul_left u.cache_read_input_tokens (omega arith) in
    let e₃ : u.cache_creation_1h_input_tokens * p.cache_write_1h
        ≤ u.cache_creation_1h_input_tokens * d =
      mul-le-mul_left u.cache_creation_1h_input_tokens (omega arith) in
    let e₄ : (u.cache_creation_input_tokens - u.cache_creation_1h_input_tokens) * p.cache_write_5m
        ≤ (u.cache_creation_input_tokens - u.cache_creation_1h_input_tokens) * d =
      mul-le-mul_left (u.cache_creation_input_tokens - u.cache_creation_1h_input_tokens)
        (omega arith) in
    let out : u.output_tokens * p.output ≤ m * p.output = grind arith in
    let all : (u.input_tokens
            + u.cache_read_input_tokens
            + u.cache_creation_1h_input_tokens
            + (u.cache_creation_input_tokens - u.cache_creation_1h_input_tokens))
          * d
        ≤ i * d =
      mul-le-mul_right d (omega (arith, w.counted, w.part)) in
    omega arith

add_pos : (a b : ℕ) → pos a +ℤ pos b ≡ pos (a + b)
unfolding ◌+ℤ◌
add_pos a b = ground arith

-- What a call cost, for a usage within what was counted and capped, is at most the bound that it
-- was admitted at.
pub cost_usd-le-bound_usd :
    (p : ModelPrice) (u : TokenUsage) (input_tokens max_tokens : ℕ)
    → 0 < p.scale
    → IsWithin u input_tokens max_tokens
    → cost_usd p u ≤ℤ bound_usd p input_tokens max_tokens
unfolding cost_usd bound_usd dearest
cost_usd-le-bound_usd p u i m scale w =
    rw
      (
        written u.cache_creation_input_tokens u.cache_creation_1h_input_tokens p.cache_write_5m
            w.part,
        add_pos,
      )
      (usd_mono p.scale _ _ scale (rates_bound p u i m w))

-- A call to make: what was counted and capped, and what the provider reports, if it does.
pub record Call : Type 0 where
  pub input_tokens : ℕ
  pub max_tokens : ℕ
  pub usage : Option TokenUsage

-- A call that is admitted is settled.
settle_admitted : Guard → Admitted → Option TokenUsage → Guard
settle_admitted g (admission estimate) usage = (settle g estimate usage).0
settle_admitted g (refused_call why estimate) usage = g
settle_admitted g invalid_call usage = g

-- The calls of a run, one after another, as a turn's attempts make them.
pub make_calls : Guard → List Call → Guard
unfolding settle_admitted
make_calls g [] = g
make_calls g (c ∷ cs) =
    let (g', a) = admit g c.input_tokens c.max_tokens in
    make_calls (settle_admitted g' a c.usage) cs

-- A reported usage stays within what was counted and capped.
abbrev pub IsHonest : Call → Type 0
IsHonest c = (u : TokenUsage) → c.usage ≡ some u → IsWithin u c.input_tokens c.max_tokens

-- Both counters are within their ceilings, and the price is to a positive scale.
pub record IsHeld (g : Guard) : Type 0 where
  pub calls_held : g.calls ≤ g.ceiling
  pub spend_held : g.spent ≤ℤ g.spend_ceiling_usd
  pub scaled : (p : ModelPrice) → g.price ≡ some p → 0 < p.scale

-- What an admission leaves: room for its estimate, which is the bound of the call when the model
-- has a price.
record IsAdmitted (g g' : Guard) (c : Call) (estimate : Option ℤ) : Type 0 where
  counted : g'.calls ≡ g.calls + 1
  called : g'.calls ≤ g.ceiling
  kept :
      (g'.ceiling ≡ g.ceiling)
      × (g'.spend_ceiling_usd ≡ g.spend_ceiling_usd)
      × (g'.price ≡ g.price)
      × (g'.spent ≡ g.spent)
  room :
      (p : ModelPrice)
      → g.price ≡ some p
      → (estimate ≡ some (bound_usd p c.input_tokens c.max_tokens))
        × (g.spent +ℤ bound_usd p c.input_tokens c.max_tokens ≤ℤ g.spend_ceiling_usd)

admit-admission :
    (g g' : Guard) (c : Call) (estimate : Option ℤ)
    → admit g c.input_tokens c.max_tokens ≡ (g', admission estimate)
    → IsAdmitted g g' c estimate
unfolding admit
admit-admission g g' c estimate h = record {
  counted = ground arith;
  called = ground arith;
  kept = ground arith;
  room = λ p e. ground arith;
}

admit-refused :
    (g g' : Guard) (c : Call) (why : RefusalReason) (estimate : Option ℤ)
    → admit g c.input_tokens c.max_tokens ≡ (g', refused_call why estimate)
    → g' ≡ g
unfolding admit
admit-refused g g' c why estimate h = ground arith

admit-invalid :
    (g g' : Guard) (c : Call) → admit g c.input_tokens c.max_tokens ≡ (g', invalid_call) → g' ≡ g
unfolding admit
admit-invalid g g' c h = ground arith

-- The counters that a settlement leaves, where its amount is within the room that was found.
settle_lem :
    (g : Guard) (estimate : Option ℤ) (usage : Option TokenUsage)
    → ((settle g estimate usage).0.calls ≡ g.calls)
      × ((settle g estimate usage).0.ceiling ≡ g.ceiling)
      × ((settle g estimate usage).0.spend_ceiling_usd ≡ g.spend_ceiling_usd)
      × ((settle g estimate usage).0.price ≡ g.price)
unfolding settle
settle_lem g estimate usage = ground arith

add_mono : (a b c : ℤ) → b ≤ℤ c → a +ℤ b ≤ℤ a +ℤ c
unfolding ◌+ℤ◌
add_mono a b c h = ground arith

-- The spend after a settlement: unchanged without a price, and within the ceiling otherwise.
settle_spend :
    (g : Guard) (c : Call) (price : Option ModelPrice) (estimate : Option ℤ)
    (usage : Option TokenUsage)
    → g.spent ≤ℤ g.spend_ceiling_usd
    → ((p : ModelPrice)
        → price ≡ some p
        → (0 < p.scale)
          × (estimate ≡ some (bound_usd p c.input_tokens c.max_tokens))
          × (g.spent +ℤ bound_usd p c.input_tokens c.max_tokens ≤ℤ g.spend_ceiling_usd))
    → ((u : TokenUsage) → usage ≡ some u → IsWithin u c.input_tokens c.max_tokens)
    → (settle_at g price estimate usage).0.spent ≤ℤ g.spend_ceiling_usd
unfolding settle_at
settle_spend g c none estimate usage within room honest = within
settle_spend g c (some p) estimate none within room honest = rw ((room p refl).1) ((room p refl).2)
settle_spend g c (some p) estimate (some u) within room honest =
    let (scale, _, fits) = room p refl in
    let priced = cost_usd-le-bound_usd p u c.input_tokens c.max_tokens scale (honest u refl) in
    omega (
      arith,
      add_mono g.spent (cost_usd p u) (bound_usd p c.input_tokens c.max_tokens) priced,
      fits,
    )

admission-IsHeld :
    (g g' : Guard) (c : Call) (estimate : Option ℤ)
    → IsHeld g
    → IsHonest c
    → IsAdmitted g g' c estimate
    → IsHeld (settle g' estimate c.usage).0
unfolding settle
admission-IsHeld g g' c estimate held honest a =
    let (calls, ceiling, spend, price) = settle_lem g' estimate c.usage in
    let (ceiling', spend', price', spent') = a.kept in
    let room : (p : ModelPrice)
        → g'.price ≡ some p
        → (0 < p.scale)
          × (estimate ≡ some (bound_usd p c.input_tokens c.max_tokens))
          × (g'.spent +ℤ bound_usd p c.input_tokens c.max_tokens ≤ℤ g'.spend_ceiling_usd) =
      λ p e.
        let e' : g.price ≡ some p = cc in
        (held.scaled p e', (a.room p e').0, rw (spent', spend') ((a.room p e').1)) in
    record {
      calls_held = rw (calls, ceiling, ceiling') a.called;
      spend_held = rw spend (
          settle_spend g' c g'.price estimate c.usage (rw (spent', spend') held.spend_held) room
            honest);
      scaled = λ p e. held.scaled p (cc);
    }

-- The two ceilings, and that a guard keeps them and its price.
pub record Keeps (g g' : Guard) : Type 0 where
  pub ceiling_kept : g'.ceiling ≡ g.ceiling
  pub spend_ceiling_kept : g'.spend_ceiling_usd ≡ g.spend_ceiling_usd

call-IsHeld :
    (g : Guard) (c : Call)
    → IsHeld g
    → IsHonest c
    → (g' : Guard) (a : Admitted) → admit g c.input_tokens c.max_tokens ≡ (g', a)
    → IsHeld (settle_admitted g' a c.usage) × Keeps g (settle_admitted g' a c.usage)
unfolding settle_admitted
call-IsHeld g c held honest g' invalid_call h =
    rw (admit-invalid g g' c h) (held, record { ceiling_kept = refl; spend_ceiling_kept = refl })
call-IsHeld g c held honest g' (refused_call why estimate) h =
    rw (admit-refused g g' c why estimate h)
      (held, record { ceiling_kept = refl; spend_ceiling_kept = refl })
call-IsHeld g c held honest g' (admission estimate) h =
    let a = admit-admission g g' c estimate h in
    let k = settle_lem g' estimate c.usage in
    (
      admission-IsHeld g g' c estimate held honest a,
      record { ceiling_kept = k.1 ∙ a.kept.0; spend_ceiling_kept = k.2 ∙ a.kept.1 },
    )

pub make_calls-IsHeld :
    (g : Guard) (cs : List Call)
    → IsHeld g
    → All IsHonest cs
    → IsHeld (make_calls g cs) × Keeps g (make_calls g cs)
unfolding make_calls
make_calls-IsHeld g [] held honest =
    (held, record { ceiling_kept = refl; spend_ceiling_kept = refl })
make_calls-IsHeld g (c ∷ cs) held (honest, others) =
    let (g', a) = admit g c.input_tokens c.max_tokens in
    let (now, kept) = call-IsHeld g c held honest g' a refl in
    let (later, after) = make_calls-IsHeld (settle_admitted g' a c.usage) cs now others in
    (
      later,
      record {
        ceiling_kept = after.ceiling_kept ∙ kept.ceiling_kept;
        spend_ceiling_kept = after.spend_ceiling_kept ∙ kept.spend_ceiling_kept;
      },
    )
