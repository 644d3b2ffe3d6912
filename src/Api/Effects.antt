-- ===== src/Api/Effects.antt =====
-- Code that reads and changes a store and may raise, and what holds before and after it.
use agentic_negotiators_sbx.Prelude.{
  All, Bool, List, Result, [], err, false, if◌then◌else◌, ok, true, ◌∷◌,
}

-- What was stored up to an exception stays stored.
abbrev pub Eff : Type 0 → Type 0 → Type 0 → Type 0
Eff S E A = S → Result E A × S

-- What follows an outcome.
abbrev pub after : {S E A B : Type 0} → Result E A × S → (A → Eff S E B) → Result E B × S
after (ok a, s) k = k a s
after (err e, s) k = (err e, s)

infixl 10 ◌>>=◌
unfoldable pub ◌>>=◌ : {S E A B : Type 0} → Eff S E A → (A → Eff S E B) → Eff S E B
(m >>= k) s = after (m s) k

unfoldable pub pure : {S E A : Type 0} → A → Eff S E A
pure a s = (ok a, s)

unfoldable pub raise : {S E A : Type 0} → E → Eff S E A
raise e s = (err e, s)

-- A reading of the store.
unfoldable pub reading : {S E A : Type 0} → (S → A) → Eff S E A
reading f s = (ok (f s), s)

abbrev pub committed : {S E A : Type 0} → S → Result E A × S → Result E A × S
committed before (ok a, s) = (ok a, s)
committed before (err e, s) = (err e, before)

-- `async with transactions.unit_of_work()`: an exception inside undoes what it wrote.
unfoldable pub unit_of_work : {S E A : Type 0} → Eff S E A → Eff S E A
unit_of_work m s = committed s (m s)

-- The body for each item of a list, and its results.
unfoldable pub for_each : {S E A B : Type 0} → (A → Eff S E B) → List A → Eff S E (List B)
unfolding pure
for_each body [] = pure []
for_each body (x ∷ xs) = do y ← body x; ys ← for_each body xs; pure (y ∷ ys)

-- A value that satisfies `Q` with the store it left, or an exception that left `R`.
abbrev pub Ends : {S E A : Type 0} → (S → Type 0) → (A → S → Type 0) → Result E A × S → Type 0
Ends R Q (ok a, s) = Q a s
Ends R Q (err e, s) = R s

-- From a store with `P`, the code ends with `Q`, or raises and leaves `R`.
pub record Holds {S E A : Type 0} (R P : S → Type 0) (m : Eff S E A) (Q : A → S → Type 0)
    : Type 0 where
  pub holds : (s : S) → P s → Ends R Q (m s)

-- The code leaves `P` as it finds it, exceptions included.
abbrev pub Preserves : {S E A : Type 0} → (S → Type 0) → Eff S E A → Type 0
Preserves P m = Holds P P m (λ _. P)

after_lem :
    {S E A B : Type 0} (R : S → Type 0) (Q : A → S → Type 0) (T : B → S → Type 0)
    (k : A → Eff S E B) (t : Result E A × S)
    → Ends R Q t
    → ((a : A) → Holds R (Q a) (k a) T)
    → Ends R T (after t k)
after_lem R Q T k (ok a, s) h rest = (rest a).holds s h
after_lem R Q T k (err e, s) h rest = h

pub bind_lem :
    {S E A B : Type 0} {R P : S → Type 0} {Q : A → S → Type 0} {T : B → S → Type 0} {m : Eff S E A}
    {k : A → Eff S E B}
    → Holds R P m Q
    → ((a : A) → Holds R (Q a) (k a) T)
    → Holds R P (m >>= k) T
unfolding ◌>>=◌
bind_lem {R} {Q} {T} {m} {k} first rest = record {
  holds = λ s p. after_lem R Q T k (m s) (first.holds s p) rest;
}

pub pure_lem :
    {S E A : Type 0} {R P : S → Type 0} {Q : A → S → Type 0} (a : A)
    → ((s : S) → P s → Q a s)
    → Holds {E = E} R P (pure a) Q
unfolding pure
pure_lem a h = record { holds = h }

pub raise_lem :
    {S E A : Type 0} {R P : S → Type 0} {Q : A → S → Type 0} (e : E)
    → ((s : S) → P s → R s)
    → Holds R P (raise e) Q
unfolding raise
raise_lem e h = record { holds = h }

pub reading_lem :
    {S E A : Type 0} {R P : S → Type 0} {Q : A → S → Type 0} (f : S → A)
    → ((s : S) → P s → Q (f s) s)
    → Holds {E = E} R P (reading f) Q
unfolding reading
reading_lem f h = record { holds = h }

weaker :
    {S E A : Type 0} (R : S → Type 0) (P Q : A → S → Type 0) (t : Result E A × S)
    → ((a : A) (s : S) → P a s → Q a s)
    → Ends R P t
    → Ends R Q t
weaker R P Q (ok a, s) more h = more a s h
weaker R P Q (err e, s) more h = h

pub weaken_lem :
    {S E A : Type 0} {R P P' : S → Type 0} {Q Q' : A → S → Type 0} {m : Eff S E A}
    → ((s : S) → P' s → P s)
    → ((a : A) (s : S) → Q a s → Q' a s)
    → Holds R P m Q
    → Holds R P' m Q'
weaken_lem {R} {Q} {Q'} {m} less more h = record {
  holds = λ s p. weaker R Q Q' (m s) more (h.holds s (less s p));
}

committed_lem :
    {S E A : Type 0} (R : S → Type 0) (Q : A → S → Type 0) (before : S) (t : Result E A × S)
    → R before
    → Ends R Q t
    → Ends R Q (committed before t)
committed_lem R Q before (ok a, s) r h = h
committed_lem R Q before (err e, s) r h = r

pub unit_of_work_lem :
    {S E A : Type 0} {R P : S → Type 0} {Q : A → S → Type 0} {m : Eff S E A}
    → ((s : S) → P s → R s)
    → Holds R P m Q
    → Holds R P (unit_of_work m) Q
unfolding unit_of_work
unit_of_work_lem {R} {Q} {m} undone h = record {
  holds = λ s p. committed_lem R Q s (m s) (undone s p) (h.holds s p);
}

pub for_each_lem :
    {S E A B : Type 0} (P : S → Type 0) (body : A → Eff S E B) (xs : List A)
    → All (λ x. Preserves P (body x)) xs
    → Preserves P (for_each body xs)
unfolding for_each
for_each_lem P body [] h = pure_lem [] (λ s p. p)
for_each_lem P body (x ∷ xs) (h, hs) =
    bind_lem h (λ y. bind_lem (for_each_lem P body xs hs) (λ ys. pure_lem (y ∷ ys) (λ s p. p)))

-- Either of two, whichever a test takes.
pub either_lem :
    {S E A : Type 0} {R P : S → Type 0} {Q : A → S → Type 0} {m n : Eff S E A} (b : Bool)
    → Holds R P m Q
    → Holds R P n Q
    → Holds R P (elim b [ true ↦ m | false ↦ n ]) Q
either_lem true h k = h
either_lem false h k = k

pub if_lem :
    {S E A : Type 0} {R P : S → Type 0} {Q : A → S → Type 0} {m n : Eff S E A} (b : Bool)
    → Holds R P m Q
    → Holds R P n Q
    → Holds R P (if b then m else n) Q
if_lem true h k = h
if_lem false h k = k
