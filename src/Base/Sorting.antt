-- ===== src/Base/Sorting.antt =====
-- `sort_by` of the standard library, which is stable, and `dedup`.
use mathlib.Core.Path.{◌≡◌, refl}
use mathlib.Core.Bool.{Bool, ◌||◌}
use mathlib.Core.List.{List, [], ◌∷◌}
use mathlib.Core.List.{Perm}
use mathlib.Core.List.Perm
use native.Mathlib.Omega.{arith}
use my_mesh.Base.Tests.{if◌then◌else◌}
use my_mesh.Base.Equality.{Eq, ◌==◌, contains}
use my_mesh.Base.Lists.{any, All}

module _ {ℓ} {A : Type ℓ} where
  -- `lt a b` says that `a` stands before `b`; equal elements keep their order.
  unfoldable pub insert_sorted : (A → A → Bool) → A → List A → List A
  insert_sorted lt a [] = a ∷ []
  insert_sorted lt a (x ∷ xs) = if lt x a then x ∷ insert_sorted lt a xs else a ∷ x ∷ xs

  unfoldable pub sort_by : (A → A → Bool) → List A → List A
  unfolding insert_sorted
  sort_by lt [] = []
  sort_by lt (x ∷ xs) = insert_sorted lt x (sort_by lt xs)

  insert_sorted-perm :
      (lt : A → A → Bool) (a : A) (xs : List A) → Perm (insert_sorted lt a xs) (a ∷ xs)
  unfolding insert_sorted
  insert_sorted-perm lt a [] = Perm.refl (a ∷ [])
  insert_sorted-perm lt a (x ∷ xs) = ground (
    arith,
    Perm.refl (a ∷ x ∷ xs),
    Perm.trans (Perm.cons x (insert_sorted-perm lt a xs)) (Perm.swap a x xs),
  )

  pub sort_by-perm : (lt : A → A → Bool) (xs : List A) → Perm (sort_by lt xs) xs
  unfolding sort_by
  sort_by-perm lt [] = Perm.refl []
  sort_by-perm lt (x ∷ xs) =
      Perm.trans (insert_sorted-perm lt x (sort_by lt xs)) (Perm.cons x (sort_by-perm lt xs))

  insert_sorted-All {κ} :
      (P : A → Type κ) (lt : A → A → Bool) (a : A) (xs : List A)
      → P a
      → All P xs
      → All P (insert_sorted lt a xs)
  unfolding insert_sorted
  insert_sorted-All P lt a [] h k = (h, tt)
  insert_sorted-All P lt a (x ∷ xs) h k = ground (arith, insert_sorted-All P lt a xs h k.1)

  pub sort_by-All {κ} :
      (P : A → Type κ) (lt : A → A → Bool) (xs : List A) → All P xs → All P (sort_by lt xs)
  unfolding sort_by
  sort_by-All P lt [] h = tt
  sort_by-All P lt (x ∷ xs) h =
      insert_sorted-All P lt x (sort_by lt xs) h.0 (sort_by-All P lt xs h.1)

  any-insert_sorted :
      (p : A → Bool) (lt : A → A → Bool) (a : A) (xs : List A)
      → any p (insert_sorted lt a xs) ≡ (p a || any p xs)
  unfolding insert_sorted
  any-insert_sorted p lt a [] = refl
  any-insert_sorted p lt a (x ∷ xs) = ground (arith, any-insert_sorted p lt a xs)

  pub any-sort_by :
      (p : A → Bool) (lt : A → A → Bool) (xs : List A) → any p (sort_by lt xs) ≡ any p xs
  unfolding sort_by
  any-sort_by p lt [] = refl
  any-sort_by p lt (x ∷ xs) =
      ground (arith, any-insert_sorted p lt x (sort_by lt xs), any-sort_by p lt xs)

module _ {ℓ} {A : Type ℓ} ⦃e : Eq A⦄ where
  contains-insert_sorted :
      (lt : A → A → Bool) (a b : A) (xs : List A)
      → contains (insert_sorted lt a xs) b ≡ (a == b || contains xs b)
  unfolding insert_sorted
  contains-insert_sorted lt a b [] = refl
  contains-insert_sorted lt a b (x ∷ xs) = ground (arith, contains-insert_sorted lt a b xs)

  pub contains-sort_by :
      (lt : A → A → Bool) (b : A) (xs : List A) → contains (sort_by lt xs) b ≡ contains xs b
  unfolding sort_by
  contains-sort_by lt b [] = refl
  contains-sort_by lt b (x ∷ xs) =
      ground (arith, contains-insert_sorted lt x b (sort_by lt xs), contains-sort_by lt b xs)

  -- `dedup`: of a run of equal elements the first stays.
  unfoldable pub dedup : List A → List A
  dedup [] = []
  dedup (x ∷ []) = x ∷ []
  dedup (x ∷ y ∷ xs) = let rest = dedup (y ∷ xs) in if x == y then rest else x ∷ rest

  pub contains-dedup : (b : A) (xs : List A) → contains (dedup xs) b ≡ contains xs b
  unfolding dedup
  contains-dedup b [] = refl
  contains-dedup b (x ∷ []) = refl
  contains-dedup b (x ∷ y ∷ xs) = ground (arith, contains-dedup b (y ∷ xs))
