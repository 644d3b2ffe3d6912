-- ===== src/Agent/Policy/Concession/Laws.antt =====
-- deterministic.py's `concession_price`: its prices against the bound and along the schedule.
use native.Mathlib.Decide.{dec_lt}
use native.Mathlib.Nat.{div-eq_of_lt, mul-add-div_right, mul-div_cancel}
use agentic_negotiators_sbx.Agent.Observation.{Role, buyer, role_eq, seller}
use agentic_negotiators_sbx.Agent.Policy.Concession.{clamp, concession_price, unclamped}
use agentic_negotiators_sbx.Prelude.{
  ap, arith, if◌then◌else◌, max, min, nat_eq, ok, text_eq, ℕ, ◌*◌, ◌+◌, ◌-◌, ◌/◌, ◌==◌, ◌∙◌, ◌≡◌,
  ◌≤◌,
}
use agentic_negotiators_sbx.Prelude.Int.{ceil_ratio, div_mono, neg-mul_pos, pos, sub_ℕ, ℤ}
use agentic_negotiators_sbx.Protocol.Values.{uint256_max}

-- The seller's price before clamping: the ratio rounded up, and at least its bound.
seller_price :
    (r k n : ℕ)
    → 2 ≤ n
    → k ≤ n - 1
    → unclamped seller r k n
      ≡ pos (max ((r * (6 * (n - 1) - k) + (5 * (n - 1) - 1)) / (5 * (n - 1))) r)
unfolding unclamped
seller_price r k n h le =
    let e : sub_ℕ (6 * (n - 1)) k ≡ pos (6 * (n - 1) - k) = ground arith in
    rw (e, neg-mul_pos, ceil_ratio (r * (6 * (n - 1) - k)) (5 * (n - 1)) (omega arith))
      (ground arith)

-- The price while it is being clamped: what `concession_price` returns of a raw price `x`.
abbrev within_uint256 : ℕ → ℕ
within_uint256 x = min (max x 1) uint256_max

clamp_pos : (x : ℕ) → clamp (pos x) ≡ within_uint256 x
unfolding clamp
clamp_pos x = ground arith

-- The raw price in natural numbers.
raw : Role → ℕ → ℕ → ℕ → ℕ
raw buyer r k n = min (r * (4 * (n - 1) + k) / (5 * (n - 1))) r
raw seller r k n = max ((r * (6 * (n - 1) - k) + (5 * (n - 1) - 1)) / (5 * (n - 1))) r

concession_price-raw :
    (role : Role) (r k n : ℕ)
    → 2 ≤ n
    → k ≤ n - 1
    → concession_price role r k n ≡ ok (within_uint256 (raw role r k n))
unfolding concession_price raw
concession_price-raw buyer r k n h le = ground (arith, clamp_pos (raw buyer r k n))
concession_price-raw seller r k n h le =
    ground (arith, seller_price r k n h le, clamp_pos (raw seller r k n))

concession_price_one : (role : Role) (r k : ℕ) → concession_price role r k 1 ≡ ok (within_uint256 r)
unfolding concession_price
concession_price_one role r k = ground (arith, clamp_pos r)

clamp_bounds : (x : ℤ) → (1 ≤ clamp x) × (clamp x ≤ uint256_max)
unfolding clamp
clamp_bounds x = ground arith

-- With at least one opportunity a price is named, whatever the bound, and it is a positive
-- uint256 amount.
pub concession_price_total :
    (role : Role) (r k n : ℕ)
    → 1 ≤ n
    → (p : ℕ) × (concession_price role r k n ≡ ok p) × (1 ≤ p) × (p ≤ uint256_max)
unfolding concession_price
concession_price_total role r k n h =
    let x : ℤ = if n == 1 then pos r else unclamped role r k n in
    (clamp x, ground arith, (clamp_bounds x).0, (clamp_bounds x).1)

-- For a bound that is a positive uint256 amount, every price that the schedule names is a
-- positive uint256 amount on the policy's own side of the bound: a buyer's is at most the bound
-- and a seller's at least it.
pub concession_price_bounds :
    (role : Role) (r k n : ℕ) {p : ℕ}
    → 1 ≤ r
    → r ≤ uint256_max
    → concession_price role r k n ≡ ok p
    → (1 ≤ p) × (p ≤ uint256_max) × (role ≡ buyer → p ≤ r) × (role ≡ seller → r ≤ p)
unfolding concession_price
concession_price_bounds buyer r k n lo hi h = ground arith
concession_price_bounds seller r k n lo hi h = ground arith

raw_last : (role : Role) (r n : ℕ) → 2 ≤ n → raw role r (n - 1) n ≡ r
unfolding raw
raw_last buyer r n h =
    let e : 4 * (n - 1) + (n - 1) ≡ 5 * (n - 1) = omega arith in
    rw (e, mul-div_cancel r {n = 5 * (n - 1)} (omega arith)) (omega arith)
raw_last seller r n h =
    let e : 6 * (n - 1) - (n - 1) ≡ 5 * (n - 1) = omega arith in
    let low : (5 * (n - 1) - 1) / (5 * (n - 1)) ≡ 0 = div-eq_of_lt (omega arith) in
    rw (e, mul-add-div_right {m = 5 * (n - 1)} (omega arith) r (5 * (n - 1) - 1), low) (omega arith)

-- For a bound that is a positive uint256 amount and at least one opportunity, the last offer of
-- the schedule is at the bound itself.
pub concession_price_last :
    (role : Role) (r n : ℕ)
    → 1 ≤ r
    → r ≤ uint256_max
    → 1 ≤ n
    → concession_price role r (n - 1) n ≡ ok r
concession_price_last role r n lo hi h = elim (dec_lt 1 n) [
  | yes two ↦
      rw (concession_price-raw role r (n - 1) n two (omega arith), raw_last role r n two)
        (ap ok (omega arith))
  | no one ↦
      let e : n ≡ 1 = omega arith in rw e (concession_price_one role r 0 ∙ ap ok (omega arith))
]

raw_mono :
    (role : Role) (r k j n : ℕ)
    → 2 ≤ n
    → k ≤ j
    → (role ≡ buyer → raw role r k n ≤ raw role r j n)
      × (role ≡ seller → raw role r j n ≤ raw role r k n)
unfolding raw
raw_mono buyer r k j n h le =
    let more : r * (4 * (n - 1) + k) ≤ r * (4 * (n - 1) + j) = grind arith in
    let up = div_mono (5 * (n - 1)) (omega arith) more in (λ _. omega arith, λ e. cc)
raw_mono seller r k j n h le =
    let less : r * (6 * (n - 1) - j) ≤ r * (6 * (n - 1) - k) = grind arith in
    let down =
      div_mono (5 * (n - 1)) {a = r * (6 * (n - 1) - j) + (5 * (n - 1) - 1)}
        {b = r * (6 * (n - 1) - k) + (5 * (n - 1) - 1)} (omega arith) (omega arith) in
    (λ e. cc, λ _. omega arith)

concession_price_few :
    (role : Role) (r k n : ℕ) {p : ℕ}
    → n ≤ 1
    → concession_price role r k n ≡ ok p
    → p ≡ within_uint256 r
unfolding concession_price
concession_price_few role r k n h e = ground (arith, clamp_pos r)

-- Within the schedule, a later offer concedes: a buyer's price does not fall and a seller's does
-- not rise.
pub concession_price_concedes :
    (role : Role) (r k j n : ℕ) {p q : ℕ}
    → k ≤ j
    → j ≤ n - 1
    → concession_price role r k n ≡ ok p
    → concession_price role r j n ≡ ok q
    → (role ≡ buyer → p ≤ q) × (role ≡ seller → q ≤ p)
concession_price_concedes role r k j n le last hp hq = elim (dec_lt 1 n) [
  | yes two ↦ ground (
    arith,
    concession_price-raw role r k n two (omega arith),
    concession_price-raw role r j n two last,
    raw_mono role r k j n two le,
  )
  | no one ↦
      let p_is = concession_price_few role r k n (omega arith) hp in
      let q_is = concession_price_few role r j n (omega arith) hq in
      (λ _. omega arith, λ _. omega arith)
]
