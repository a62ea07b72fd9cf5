-- ===== src/Prelude/Lists.antt =====
-- Lists measured by native numbers, and predicates on all elements.
use Prim.Native.Nat.{ℕ, zero, suc, ◌+◌}
use mathlib.Core.Path.{◌≡◌, refl, sym, subst}
use mathlib.Core.Bool.{Bool, true, false}
use mathlib.Core.Option.{Option, none, some}
use mathlib.Core.List.{List, [], ◌∷◌, ◌++◌, Memᴰ}
use native.Mathlib.Omega.{arith}
use manualbox.Prelude.Tests.{if◌then◌else◌}

module _ {ℓ} {A : Type ℓ} where
  abbrev pub length : List A → ℕ
  length [] = 0
  length (x ∷ xs) = suc (length xs)

  abbrev pub take : ℕ → List A → List A
  take zero xs = []
  take (suc n) [] = []
  take (suc n) (x ∷ xs) = x ∷ take n xs

  abbrev pub drop : ℕ → List A → List A
  drop zero xs = xs
  drop (suc n) [] = []
  drop (suc n) (x ∷ xs) = drop n xs

  -- The elements that pass a Boolean test, in order.
  unfoldable pub keep : (A → Bool) → List A → List A
  keep p [] = []
  keep p (x ∷ xs) = let rest = keep p xs in if p x then x ∷ rest else rest

  -- How many pass.
  unfoldable pub count_where : (A → Bool) → List A → ℕ
  count_where p [] = 0
  count_where p (x ∷ xs) = let rest = count_where p xs in if p x then suc rest else rest

  pub length-append : (xs ys : List A) → length (xs ++ ys) ≡ length xs + length ys
  length-append [] ys = omega arith
  length-append (x ∷ xs) ys = omega (arith, length-append xs ys)

abbrev pub All {ℓ κ} : {A : Type ℓ} → (A → Type κ) → List A → Type κ
All P [] = Unit
All P (x ∷ xs) = P x × All P xs

module _ {ℓ κ} {A : Type ℓ} (P : A → Type κ) where
  pub All-keep : (p : A → Bool) (xs : List A) → All P xs → All P (keep p xs)
  unfolding keep
  All-keep p [] h = tt
  All-keep p (x ∷ xs) h = ground (arith, All-keep p xs h.1)

  pub All-append : (xs ys : List A) → All P xs → All P ys → All P (xs ++ ys)
  All-append [] ys h k = k
  All-append (x ∷ xs) ys h k = (h.0, All-append xs ys h.1 k)

  pub All-Mem : (x : A) (xs : List A) → Memᴰ x xs → All P xs → P x
  All-Mem x [] m a = elim m [ ]
  All-Mem x (y ∷ ys) (Memᴰ.head e) a = subst P (sym e) a.0
  All-Mem x (y ∷ ys) (Memᴰ.tail m) a = All-Mem x ys m a.1

module _ {ℓ} {A : Type ℓ} where
  -- The first element that passes a test.
  unfoldable pub find_where : (A → Bool) → List A → Option A
  find_where p [] = none
  find_where p (x ∷ xs) = if p x then some x else find_where p xs

  -- An update of the elements that pass a test.
  unfoldable pub map_where : (A → Bool) → (A → A) → List A → List A
  map_where p f [] = []
  map_where p f (x ∷ xs) = (if p x then f x else x) ∷ map_where p f xs

  pub find_where-keep :
      (p q : A → Bool) (xs : List A)
      → ((x : A) → p x ≡ true → q x ≡ true)
      → find_where p (keep q xs) ≡ find_where p xs
  unfolding find_where keep
  find_where-keep p q [] h = refl
  find_where-keep p q (x ∷ xs) h = ground (arith, h x, find_where-keep p q xs h)

  pub find_where-keep-none :
      (p q : A → Bool) (xs : List A)
      → ((x : A) → p x ≡ true → q x ≡ false)
      → find_where p (keep q xs) ≡ none
  unfolding find_where keep
  find_where-keep-none p q [] h = refl
  find_where-keep-none p q (x ∷ xs) h = ground (arith, h x, find_where-keep-none p q xs h)

  pub find_where-append :
      (p : A → Bool) (xs : List A) (y : A)
      → find_where p xs ≡ none
      → p y ≡ true
      → find_where p (xs ++ y ∷ []) ≡ some y
  unfolding find_where
  find_where-append p [] y h k = rw k
  find_where-append p (x ∷ xs) y h k = ground (arith, find_where-append p xs y)

  pub find_where-weaken :
      (p q : A → Bool) (xs : List A)
      → ((x : A) → q x ≡ true → p x ≡ true)
      → find_where p xs ≡ none
      → find_where q xs ≡ none
  unfolding find_where
  find_where-weaken p q [] h e = refl
  find_where-weaken p q (x ∷ xs) h e = ground (arith, h x, find_where-weaken p q xs h)

module _ {ℓ} {A : Type ℓ} where
  -- A prefix of known length, and what follows it.
  pub take-append : (xs ys : List A) → take (length xs) (xs ++ ys) ≡ xs
  take-append [] ys = refl
  take-append (x ∷ xs) ys = rw (take-append xs ys)

  pub drop-append : (xs ys : List A) → drop (length xs) (xs ++ ys) ≡ ys
  drop-append [] ys = refl
  drop-append (x ∷ xs) ys = drop-append xs ys

module _ {ℓ} {A : Type ℓ} where
  -- What a test finds first is found after an update of what passes it, if the update keeps the test.
  pub find_where-map_where :
      (p : A → Bool) (f : A → A) (xs : List A) (x : A)
      → ((y : A) → p y ≡ true → p (f y) ≡ true)
      → find_where p xs ≡ some x
      → find_where p (map_where p f xs) ≡ some (f x)
  unfolding find_where map_where
  find_where-map_where p f [] x h e = cc
  find_where-map_where p f (y ∷ xs) x h e = ground (arith, h y, find_where-map_where p f xs x h)
