-- ===== src/Prelude/Lists.antt =====
-- Lists measured by native numbers, and a predicate on every element.
use Prim.Native.Nat.{ℕ, suc, ◌+◌}
use mathlib.Core.Path.{ap, refl, ◌≡◌, ◌∙◌}
use mathlib.Core.Logic.{inl, inr, ◌⊎◌}
use mathlib.Core.Bool.{Bool, true, false, ◌&&◌, ◌||◌}
use mathlib.Core.List.{List, [], map, ◌∷◌, ◌++◌}
use mathlib.Core.Option.{Option, none, some}
use native.Mathlib.Omega.{arith}

module _ {ℓ} {A : Type ℓ} where
  abbrev pub length : List A → ℕ
  length [] = 0
  length (x ∷ xs) = suc (length xs)

  -- `xs[-1]`, or `None` of an empty list.
  abbrev pub get_last? : List A → Option A
  get_last? [] = none
  get_last? (x ∷ []) = some x
  get_last? (x ∷ (y ∷ ys)) = get_last? (y ∷ ys)

  abbrev pub All {κ} : (A → Type κ) → List A → Type κ
  All P [] = Unit
  All P (x ∷ xs) = P x × All P xs

  pub length-append : (xs ys : List A) → length (xs ++ ys) ≡ length xs + length ys
  length-append [] ys = omega arith
  length-append (x ∷ xs) ys = omega (arith, length-append xs ys)

  -- `sum(1 for x in xs if p(x))`
  abbrev pub count_if : (A → Bool) → List A → ℕ
  count_if p [] = 0
  count_if p (x ∷ xs) = elim (p x) [ true ↦ suc (count_if p xs) | false ↦ count_if p xs ]

  -- `[x for x in xs if p(x)]`
  abbrev pub keep_if : (A → Bool) → List A → List A
  keep_if p [] = []
  keep_if p (x ∷ xs) = elim (p x) [ true ↦ x ∷ keep_if p xs | false ↦ keep_if p xs ]

  abbrev pub any_of : (A → Bool) → List A → Bool
  any_of p [] = false
  any_of p (x ∷ xs) = p x || any_of p xs

  abbrev pub all_of : (A → Bool) → List A → Bool
  all_of p [] = true
  all_of p (x ∷ xs) = p x && all_of p xs

module _ {A : Type 0} where
  -- `a in xs`
  abbrev pub Among : A → List A → Type 0
  Among a [] = ⊥
  Among a (x ∷ xs) = (a ≡ x) ⊎ Among a xs

  pub Among-append_left : (a : A) (xs ys : List A) → Among a xs → Among a (xs ++ ys)
  Among-append_left a [] ys i = elim i [ ]
  Among-append_left a (x ∷ xs) ys (inl e) = inl e
  Among-append_left a (x ∷ xs) ys (inr i) = inr (Among-append_left a xs ys i)

  pub Among-append_last : (a : A) (xs : List A) → Among a (xs ++ a ∷ [])
  Among-append_last a [] = inl refl
  Among-append_last a (x ∷ xs) = inr (Among-append_last a xs)

  pub Among-append-cases : (a b : A) (xs : List A) → Among a (xs ++ b ∷ []) → Among a xs ⊎ (a ≡ b)
  Among-append-cases a b [] (inl e) = inr e
  Among-append-cases a b [] (inr i) = elim i [ ]
  Among-append-cases a b (x ∷ xs) (inl e) = inl (inl e)
  Among-append-cases a b (x ∷ xs) (inr i) = elim (Among-append-cases a b xs i) [
    | inl j ↦ inl (inr j)
    | inr e ↦ inr e
  ]

  Among-cons :
      (a x : A) (xs ys : List A) → (Among a xs → Among a ys) → Among a (x ∷ xs) → Among a (x ∷ ys)
  Among-cons a x xs ys f (inl e) = inl e
  Among-cons a x xs ys f (inr i) = inr (f i)

  pub Among-keep_if : (a : A) (p : A → Bool) (xs : List A) → Among a (keep_if p xs) → Among a xs
  Among-keep_if a p [] i = elim i [ ]
  Among-keep_if a p (x ∷ xs) i =
      elim (p x)
          as (λ b.
            Among a (elim b [ true ↦ x ∷ keep_if p xs | false ↦ keep_if p xs ])
            → Among a (x ∷ xs)) [
              | true ↦ Among-cons a x (keep_if p xs) xs (Among-keep_if a p xs)
              | false ↦ λ j. inr (Among-keep_if a p xs j)
            ]
        i

pub Among-map :
    {A B : Type 0} (f : A → B) (a : A) (xs : List A) → Among a xs → Among (f a) (map f xs)
Among-map f a [] i = elim i [ ]
Among-map f a (x ∷ xs) (inl e) = inl (ap f e)
Among-map f a (x ∷ xs) (inr i) = inr (Among-map f a xs i)

pub Among-map_append :
    {A B : Type 0} (f : A → B) (b : B) (xs ys : List A)
    → Among b (map f xs)
    → Among b (map f (xs ++ ys))
Among-map_append f b [] ys i = elim i [ ]
Among-map_append f b (x ∷ xs) ys (inl e) = inl e
Among-map_append f b (x ∷ xs) ys (inr i) = inr (Among-map_append f b xs ys i)

pub map-append :
    {A B : Type 0} (f : A → B) (xs ys : List A) → map f (xs ++ ys) ≡ map f xs ++ map f ys
map-append f [] ys = refl
map-append f (x ∷ xs) ys = ap (λ rest. f x ∷ rest) (map-append f xs ys)

pub Among-unmap :
    {A B : Type 0} (f : A → B) (b : B) (xs : List A)
    → Among b (map f xs)
    → (a : A) × Among a xs × (b ≡ f a)
Among-unmap f b [] i = elim i [ ]
Among-unmap f b (x ∷ xs) (inl e) = (x, inl refl, e)
Among-unmap f b (x ∷ xs) (inr i) = let (a, j, e) = Among-unmap f b xs i in (a, inr j, e)

-- What is not kept fails the test.
pub dropped_all :
    {A : Type 0} (a : A) (p : A → Bool) (xs : List A) → keep_if p xs ≡ [] → Among a xs → p a ≡ false
dropped_all a p [] e i = elim i [ ]
dropped_all a p (x ∷ xs) e i = at_head (p x) refl e i (dropped_all a p xs)
  where
    at_head :
        (b : Bool)
        → p x ≡ b
        → elim b [ true ↦ x ∷ keep_if p xs | false ↦ keep_if p xs ] ≡ []
        → Among a (x ∷ xs)
        → (keep_if p xs ≡ [] → Among a xs → p a ≡ false)
        → p a ≡ false
    at_head true f e i rest = ground arith
    at_head false f e (inl g) rest = ap p g ∙ f
    at_head false f e (inr j) rest = rest e j

pub get_last?-none : {A : Type 0} (xs : List A) → get_last? xs ≡ none → xs ≡ []
get_last?-none [] e = refl
get_last?-none (x ∷ []) e = ground arith
get_last?-none (x ∷ (y ∷ ys)) e = ground (arith, get_last?-none (y ∷ ys) e)

pub some_injective : {A : Type 0} {a b : A} → some a ≡ some b → a ≡ b
some_injective {a = a} e = ap (λ o. elim o [ none ↦ a | some x ↦ x ]) e
