-- ===== src/Protocol/Decimal.antt =====
-- values.py's `MinorAmount.parse` and `MinorAmount.to_json`: amounts read and written.
use mathlib.Core.List.{append-nil}
use mathlib.Core.Path.{subst}
use native.Mathlib.Decide.{dec_lt}
use native.Mathlib.Nat.{pow-suc}
use agentic_negotiators_sbx.Prelude.{
  Text, [], all_of, ap, arith, inl, inr, length, ok, refl, suc, true, zero, ℕ, ◌%◌, ◌*◌, ◌++◌, ◌+◌,
  ◌-◌, ◌/◌, ◌<◌, ◌^◌, ◌↔◌, ◌∙◌, ◌∷◌, ◌≡◌, ◌≢◌, ◌≤◌, ◌⊎◌,
}
use agentic_negotiators_sbx.Protocol.Values.{
  emit, is_digit, is_minor_amount, parse, read_from, to_json, uint256_max,
}

-- With enough fuel the digits read back as the number.
read_from-emit : (f n : ℕ) (out : Text) → n ≤ f → read_from 0 (emit f n out) ≡ read_from n out
unfolding emit read_from
read_from-emit zero n out h = ap (λ k. read_from k out) (omega arith)
read_from-emit (suc f) n out h = ground (arith, read_from-emit f (n / 10) ((b'0' + n % 10) ∷ out))

-- A leading digit from 1 to 9 and at most `m` digits behind it.
abbrev IsCanonical : ℕ → Text → Type 0
IsCanonical m [] = ⊥
IsCanonical m (c ∷ cs) = (b'1' ≤ c) × (c ≤ b'9') × (all_of is_digit cs ≡ true) × (length cs ≤ m)

emit_small : (f n : ℕ) (out : Text) → n ≢ 0 → n < 10 → n ≤ f → emit f n out ≡ (b'0' + n) ∷ out
unfolding emit
emit_small zero n out h lt le = absurd (omega arith)
emit_small (suc zero) n out h lt le = ground arith
emit_small (suc (suc f)) n out h lt le = ground arith

emit_step :
    (f n : ℕ) (out : Text) → n ≢ 0 → emit (suc f) n out ≡ emit f (n / 10) ((b'0' + n % 10) ∷ out)
unfolding emit
emit_step f n out h = ground arith

emit-IsCanonical :
    (f n k m : ℕ) (out : Text)
    → n ≢ 0
    → n ≤ f
    → n < 10 ^ suc k
    → all_of is_digit out ≡ true
    → length out + k ≤ m
    → IsCanonical m (emit f n out)
emit-IsCanonical zero n k m out h le lt digits fits = absurd (omega arith)
emit-IsCanonical (suc f) n zero m out h le lt digits fits =
    rw (emit_small (suc f) n out h (omega (arith, pow-suc 10 0)) le)
      (omega arith, omega arith, digits, omega arith)
emit-IsCanonical (suc f) n (suc k) m out h le lt digits fits = elim (dec_lt n 10) [
  | yes small ↦
      rw (emit_small (suc f) n out h small le) (omega arith, omega arith, digits, omega arith)
  | no big ↦ rw (emit_step f n out h) (
      emit-IsCanonical f (n / 10) k m ((b'0' + n % 10) ∷ out) (omega arith) (omega arith)
        (omega (arith, pow-suc 10 (suc k))) (ground arith) (omega arith))
]

-- The number does not depend on the fuel.
emit-fuel : (f g n : ℕ) (out : Text) → n ≤ f → n ≤ g → emit f n out ≡ emit g n out
unfolding emit
emit-fuel zero zero n out h k = refl
emit-fuel zero (suc g) n out h k = ground arith
emit-fuel (suc f) zero n out h k = ground arith
emit-fuel (suc f) (suc g) n out h k = ground (arith, emit-fuel f g (n / 10) ((b'0' + n % 10) ∷ out))

-- The digits of `n` followed by digits, read and written again.
emit-read_from :
    (f n : ℕ) (cs out : Text)
    → n ≢ 0
    → all_of is_digit cs ≡ true
    → read_from n cs ≤ f
    → emit f (read_from n cs) out ≡ emit n n (cs ++ out)
unfolding read_from
emit-read_from f n [] out h digits le = emit-fuel f n n out le (omega arith)
emit-read_from f n (c ∷ cs) out h digits le =
    let m = n * 10 + (c - b'0') in
    let is_c : b'0' + m % 10 ≡ c = ground arith in
    let is_n : m / 10 ≡ n = ground arith in
    let ih = emit-read_from f m cs out (omega arith) (ground arith) le in
    let fuel = emit-fuel m (suc m) m (cs ++ out) (omega arith) (omega arith) in
    let step = emit_step m m (cs ++ out) (omega arith) in
    ih
    ∙ fuel
    ∙ step
    ∙ rw (is_c, is_n) (emit-fuel m n n (c ∷ (cs ++ out)) (omega arith) (omega arith))

le-read_from : (n : ℕ) (cs : Text) → n ≤ read_from n cs
unfolding read_from
le-read_from n [] = omega arith
le-read_from n (c ∷ cs) = omega (arith, le-read_from (n * 10 + (c - b'0')) cs)

-- A canonical text is the text of its value.
to_json-read_from :
    (c : ℕ) (cs : Text) → IsCanonical 77 (c ∷ cs) → to_json (read_from 0 (c ∷ cs)) ≡ c ∷ cs
unfolding to_json read_from
to_json-read_from c cs h =
    let d = c - b'0' in
    let v = read_from d cs in
    let nz : v ≢ 0 = omega (arith, le-read_from d cs) in
    let is_c : b'0' + d ≡ c = omega (arith, h.0) in
    let step : emit v v [] ≡ c ∷ cs =
      emit-read_from v d cs [] (omega (arith, h.0)) h.2 (omega arith)
      ∙ emit_small d d (cs ++ []) (omega (arith, h.0)) (omega (arith, h.1)) (omega arith)
      ∙ rw (append-nil, is_c) refl in
    ground (arith, nz, step)

is_minor_amount-cases : (t : Text) → is_minor_amount t ≡ true → (t ≡ b'0' ∷ []) ⊎ IsCanonical 77 t
unfolding is_minor_amount
is_minor_amount-cases [] h = cc
is_minor_amount-cases (c ∷ []) h = ground arith
is_minor_amount-cases (c ∷ (d ∷ ds)) h = ground arith

IsCanonical-is_minor_amount : (t : Text) → IsCanonical 77 t → is_minor_amount t ≡ true
unfolding is_minor_amount
IsCanonical-is_minor_amount [] h = absurd h
IsCanonical-is_minor_amount (c ∷ []) h = ground arith
IsCanonical-is_minor_amount (c ∷ (d ∷ ds)) h = ground arith

to_json_pos : (n : ℕ) → n ≢ 0 → to_json n ≡ emit n n []
unfolding to_json
to_json_pos n h = ground arith

to_json_zero : to_json 0 ≡ b'0' ∷ []
unfolding to_json
to_json_zero = refl

is_minor_amount-to_json : (n : ℕ) → n ≤ uint256_max → is_minor_amount (to_json n) ≡ true
unfolding is_minor_amount
is_minor_amount-to_json zero h = rw to_json_zero refl
is_minor_amount-to_json (suc n) h = rw (to_json_pos (suc n) (omega arith)) (
    IsCanonical-is_minor_amount (emit (suc n) (suc n) []) (
      emit-IsCanonical (suc n) (suc n) 77 77 [] (omega arith) (omega arith) (omega arith) refl
        (omega arith)))

read_from-to_json : (n : ℕ) → read_from 0 (to_json n) ≡ n
unfolding read_from
read_from-to_json zero = rw to_json_zero refl
read_from-to_json (suc n) =
    rw (to_json_pos (suc n) (omega arith)) (read_from-emit (suc n) (suc n) [] (omega arith))

-- An amount within uint256 is read back from its own text.
pub parse-to_json : (n : ℕ) → n ≤ uint256_max → parse (to_json n) ≡ ok n
unfolding parse
parse-to_json n h = rw (is_minor_amount-to_json n h, read_from-to_json n) (ground arith)

to_json-read_from-is_minor_amount :
    (t : Text) → is_minor_amount t ≡ true → to_json (read_from 0 t) ≡ t
unfolding read_from
to_json-read_from-is_minor_amount t h = elim (is_minor_amount-cases t h) [
  | inl e ↦ rw e to_json_zero
  | inr c ↦ canonical t c
]
  where
    canonical : (s : Text) → IsCanonical 77 s → to_json (read_from 0 s) ≡ s
    canonical [] c = absurd c
    canonical (d ∷ ds) c = to_json-read_from d ds c

-- A text that parses is the text of an amount within uint256.
to_json-parse : (t : Text) (n : ℕ) → parse t ≡ ok n → (n ≤ uint256_max) × (to_json n ≡ t)
unfolding parse
to_json-parse t n h = ground (arith, to_json-read_from-is_minor_amount t)

-- A text is read as an amount exactly when the amount is within uint256 and the text is what is
-- written for it.
pub parse-iff-to_json :
    (t : Text) (n : ℕ) → (parse t ≡ ok n) ↔ ((n ≤ uint256_max) × (to_json n ≡ t))
parse-iff-to_json t n =
    (to_json-parse t n, λ h. subst (λ s. parse s ≡ ok n) h.1 (parse-to_json n h.0))
