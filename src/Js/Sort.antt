-- ===== src/Js/Sort.antt =====
-- `Array.prototype.sort` with a comparison: a stable sort.
use oacp.Prelude.{
  ◌≡◌, ◌≢◌, ◌⊎◌, refl, sym, ap, ◌∙◌, Bool, true, ◌&&◌, ◌||◌, List, [], ◌∷◌, arith, if◌then◌else◌,
  all, any, String, ◌==◌,
}
use oacp.Js.Set
use oacp.Js.Set.{has-any}
use mathlib.Core.List.{Perm}
use mathlib.Core.List.Perm

module _ {ℓ} {A : Type ℓ} (le : A → A → Bool) where
  unfoldable pub insert : A → List A → List A
  insert x [] = x ∷ []
  insert x (y ∷ ys) = if le x y then x ∷ y ∷ ys else y ∷ insert x ys

  unfoldable pub sort : List A → List A
  unfolding insert
  sort [] = []
  sort (x ∷ xs) = insert x (sort xs)

  pub insert-perm : (x : A) (ys : List A) → Perm (insert x ys) (x ∷ ys)
  unfolding insert
  insert-perm x [] = Perm.rfl
  insert-perm x (y ∷ ys) = ground (
    arith,
    Perm.rfl {l = x ∷ y ∷ ys},
    Perm.trans (Perm.cons y (insert-perm x ys)) (Perm.swap x y ys),
  )

  pub sort-perm : (xs : List A) → Perm (sort xs) xs
  unfolding sort
  sort-perm [] = Perm.rfl
  sort-perm (x ∷ xs) = Perm.trans (insert-perm x (sort xs)) (Perm.cons x (sort-perm xs))

  pub all-insert : (p : A → Bool) (x : A) (ys : List A) → all p (insert x ys) ≡ (p x && all p ys)
  unfolding insert
  all-insert p x [] = refl
  all-insert p x (y ∷ ys) = ground (arith, all-insert p x ys)

  pub all-sort : (p : A → Bool) (xs : List A) → all p (sort xs) ≡ all p xs
  unfolding sort
  all-sort p [] = refl
  all-sort p (x ∷ xs) = ground (arith, all-insert p x (sort xs), all-sort p xs)

  pub any-insert : (p : A → Bool) (x : A) (ys : List A) → any p (insert x ys) ≡ (p x || any p ys)
  unfolding insert
  any-insert p x [] = refl
  any-insert p x (y ∷ ys) = ground (arith, any-insert p x ys)

  pub any-sort : (p : A → Bool) (xs : List A) → any p (sort xs) ≡ any p xs
  unfolding sort
  any-sort p [] = refl
  any-sort p (x ∷ xs) = ground (arith, any-insert p x (sort xs), any-sort p xs)

  insert-ne-nil : (x : A) (ys : List A) → insert x ys ≢ []
  unfolding insert
  insert-ne-nil x [] = ground arith
  insert-ne-nil x (y ∷ ys) = ground arith

  pub sort-ne-nil : (x : A) (xs : List A) → sort (x ∷ xs) ≢ []
  unfolding sort
  sort-ne-nil x xs = insert-ne-nil x (sort xs)

  -- Each element is in order with all that follow it.
  abbrev pub sorted : List A → Bool
  sorted [] = true
  sorted (x ∷ xs) = all (le x) xs && sorted xs

  module _ (total : (a b : A) → (le a b ≡ true) ⊎ (le b a ≡ true))
      (trans : (a b c : A) → le a b ≡ true → le b c ≡ true → le a c ≡ true) where
    all_trans :
        (x y : A) (zs : List A) → le x y ≡ true → all (le y) zs ≡ true → all (le x) zs ≡ true
    all_trans x y [] h k = refl
    all_trans x y (z ∷ zs) h k = ground (arith, trans x y z, all_trans x y zs)

    insert-sorted : (x : A) (ys : List A) → sorted ys ≡ true → sorted (insert x ys) ≡ true
    unfolding insert
    insert-sorted x [] h = refl
    insert-sorted x (y ∷ ys) h =
        ground (arith, total x y, all_trans x y ys, all-insert (le y) x ys, insert-sorted x ys)

    pub sort-sorted : (xs : List A) → sorted (sort xs) ≡ true
    unfolding sort
    sort-sorted [] = refl
    sort-sorted (x ∷ xs) = insert-sorted x (sort xs) (sort-sorted xs)

    -- The first element of a sorted list is least.
    pub sort-least : (x : A) (xs ys : List A) → sort xs ≡ x ∷ ys → all (le x) xs ≡ true
    sort-least x xs ys e =
        sym (all-sort (le x) xs) ∙ ground (arith, sort-sorted xs, total x x, ap sorted e)

pub has-sort :
    (le : String → String → Bool) (xs : List String) (a : String)
    → Set.has (sort le xs) a ≡ Set.has xs a
has-sort le xs a = rw (has-any (sort le xs) a, has-any xs a) (any-sort le (λ x. x == a) xs)
