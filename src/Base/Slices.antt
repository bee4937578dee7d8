-- ===== src/Base/Slices.antt =====
-- More on the parts of a list, and a test of the numbers below a bound.
use Prim.Native.Nat.{ℕ, zero, suc, ◌+◌, ◌≤◌, ◌<◌}
use mathlib.Core.Path.{◌≡◌, refl, ap, ◌∙◌}
use mathlib.Core.Bool.{Bool, true, ◌&&◌}
use mathlib.Core.List.{List, [], ◌∷◌, ◌++◌}
use native.Mathlib.Omega.{arith}
use native.Mathlib.Decide.{ℕ_discrete}
use my_mesh.Base.Lists.{length, take, drop, get_or}

suc_add : (n k : ℕ) → suc n + k ≡ suc (n + k)
suc_add n k = omega arith

module _ {A : Type 0} where
  abbrev nil : List A
  nil = []

  pub take_none : (n : ℕ) → take n nil ≡ []
  take_none zero = refl
  take_none (suc n) = refl

  pub drop_none : (n : ℕ) → drop n nil ≡ []
  drop_none zero = refl
  drop_none (suc n) = refl

  pub take_add : (n k : ℕ) (xs : List A) → take (n + k) xs ≡ take n xs ++ take k (drop n xs)
  take_add zero k xs = ground arith
  take_add (suc n) k [] = ground (arith, take_none (suc n + k), take_none k)
  take_add (suc n) k (x ∷ xs) =
      ap (λ m. take m (x ∷ xs)) (suc_add n k) ∙ ap (◌∷◌ x) (take_add n k xs)

  pub drop_add : (n k : ℕ) (xs : List A) → drop (n + k) xs ≡ drop k (drop n xs)
  drop_add zero k xs = ground arith
  drop_add (suc n) k [] = ground (arith, drop_none (suc n + k), drop_none k)
  drop_add (suc n) k (x ∷ xs) = ap (λ m. drop m (x ∷ xs)) (suc_add n k) ∙ drop_add n k xs

  pub drop_all : (n : ℕ) (xs : List A) → length xs ≤ n → drop n xs ≡ []
  drop_all zero [] h = refl
  drop_all zero (x ∷ xs) h = absurd (omega (arith, h))
  drop_all (suc n) [] h = refl
  drop_all (suc n) (x ∷ xs) h = drop_all n xs (omega (arith, h))

  pub take_all : (n : ℕ) (xs : List A) → length xs ≤ n → take n xs ≡ xs
  take_all zero [] h = refl
  take_all zero (x ∷ xs) h = absurd (omega (arith, h))
  take_all (suc n) [] h = refl
  take_all (suc n) (x ∷ xs) h = ap (◌∷◌ x) (take_all n xs (omega (arith, h)))

pub take-append_left :
    {A : Type 0} (n : ℕ) (xs ys : List A) → n ≤ length xs → take n (xs ++ ys) ≡ take n xs
take-append_left zero xs ys h = refl
take-append_left (suc n) [] ys h = absurd (omega (arith, h))
take-append_left (suc n) (x ∷ xs) ys h = ap (◌∷◌ x) (take-append_left n xs ys (omega (arith, h)))

pub get_or-drop :
    {A : Type 0} (xs : List A) (n : ℕ) (d : A) → get_or xs n d ≡ get_or (drop n xs) 0 d
get_or-drop xs zero d = refl
get_or-drop [] (suc n) d = refl
get_or-drop (x ∷ xs) (suc n) d = get_or-drop xs n d

-- Whether a test succeeds for each number below a bound.
abbrev pub holds_below : (ℕ → Bool) → ℕ → Bool
holds_below p zero = true
holds_below p (suc n) = p n && holds_below p n

pub holds_below-at : (p : ℕ → Bool) (n k : ℕ) → holds_below p n ≡ true → k < n → p k ≡ true
holds_below-at p zero k h less = absurd (omega (arith, less))
holds_below-at p (suc n) k h less = elim (ℕ_discrete k n) [
  | yes e ↦ ground (arith, h, e)
  | no d ↦ holds_below-at p n k (ground (arith, h)) (omega (arith, less, d))
]
