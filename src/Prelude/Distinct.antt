-- ===== src/Prelude/Distinct.antt =====
-- Lists no two elements of which clash, as the unique columns of a table demand.
use mathlib.Core.Path.{◌≡◌, refl}
use mathlib.Core.Bool.{Bool, true, false, not, ◌&&◌, ◌||◌}
use mathlib.Core.Option.{none}
use mathlib.Core.List.{List, [], ◌∷◌, ◌++◌}
use native.Mathlib.Omega.{arith}
use manualbox.Prelude.Tests.{if◌then◌else◌}
use manualbox.Prelude.Lists.{keep, find_where, map_where}

module _ {ℓ} {A : Type ℓ} (clash : A → A → Bool) where
  unfoldable pub meets : A → List A → Bool
  meets x [] = false
  meets x (y ∷ ys) = clash x y || meets x ys

  unfoldable pub distinct : List A → Bool
  unfolding meets
  distinct [] = true
  distinct (x ∷ xs) = not (meets x xs) && distinct xs

  meets-keep :
      (p : A → Bool) (x : A) (xs : List A) → meets x xs ≡ false → meets x (keep p xs) ≡ false
  unfolding meets keep
  meets-keep p x [] h = refl
  meets-keep p x (y ∷ ys) h = ground (arith, meets-keep p x ys)

  pub distinct-keep :
      (p : A → Bool) (xs : List A) → distinct xs ≡ true → distinct (keep p xs) ≡ true
  unfolding distinct keep
  distinct-keep p [] h = refl
  distinct-keep p (x ∷ xs) h = ground (arith, meets-keep p x xs, distinct-keep p xs)

  meets-append :
      (x u : A) (xs : List A)
      → meets x xs ≡ false
      → clash x u ≡ false
      → meets x (xs ++ u ∷ []) ≡ false
  unfolding meets
  meets-append x u [] h k = ground (arith, k)
  meets-append x u (y ∷ ys) h k = ground (arith, meets-append x u ys)

  pub distinct-append :
      (u : A) (xs : List A)
      → distinct xs ≡ true
      → find_where (λ x. clash x u) xs ≡ none
      → distinct (xs ++ u ∷ []) ≡ true
  unfolding distinct find_where
  distinct-append u [] h k = refl
  distinct-append u (x ∷ xs) h k = ground (arith, meets-append x u xs, distinct-append u xs)

  module _ (p : A → Bool) (f : A → A) where
    abbrev updated : A → A
    updated x = if p x then f x else x

    module _ (same : (x y : A) → clash (updated x) (updated y) ≡ clash x y) where
      meets-map_where : (x : A) (xs : List A) → meets (updated x) (map_where p f xs) ≡ meets x xs
      unfolding meets map_where
      meets-map_where x [] = refl
      meets-map_where x (y ∷ ys) = rw (same x y, meets-map_where x ys)

      pub distinct-map_where : (xs : List A) → distinct (map_where p f xs) ≡ distinct xs
      unfolding distinct map_where
      distinct-map_where [] = refl
      distinct-map_where (x ∷ xs) = rw (meets-map_where x xs, distinct-map_where xs)
