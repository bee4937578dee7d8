-- ===== src/Base/TextOrder.antt =====
-- The order of texts is total.
use mathlib.Core.Path.{◌≡◌, refl}
use mathlib.Core.Logic.{inl, inr}
use mathlib.Core.Bool.{true, false}
use mathlib.Core.List.{[], ◌∷◌}
use native.Mathlib.Omega.{arith}
use my_mesh.Base.Tests.{Bool-cases}
use my_mesh.Base.Strings.{Text, text_lt}

pub text_lt_irrefl : (a : Text) → text_lt a a ≡ false
unfolding text_lt
text_lt_irrefl [] = refl
text_lt_irrefl (x ∷ a) = ground (arith, text_lt_irrefl a)

pub text_lt_asymm : (a b : Text) → text_lt a b ≡ true → text_lt b a ≡ false
unfolding text_lt
text_lt_asymm [] [] h = refl
text_lt_asymm [] (y ∷ b) h = refl
text_lt_asymm (x ∷ a) [] h = cc
text_lt_asymm (x ∷ a) (y ∷ b) h = ground (arith, text_lt_asymm a b)

pub text_lt_trans : (a b c : Text) → text_lt a b ≡ true → text_lt b c ≡ true → text_lt a c ≡ true
unfolding text_lt
text_lt_trans a b [] h k = cc
text_lt_trans [] b (z ∷ c) h k = refl
text_lt_trans (x ∷ a) [] (z ∷ c) h k = cc
text_lt_trans (x ∷ a) (y ∷ b) (z ∷ c) h k = ground (arith, text_lt_trans a b c)

-- Texts that neither precede one another are one text.
pub text_lt_connected : (a b : Text) → text_lt a b ≡ false → text_lt b a ≡ false → a ≡ b
unfolding text_lt
text_lt_connected [] [] h k = refl
text_lt_connected [] (y ∷ b) h k = cc
text_lt_connected (x ∷ a) [] h k = cc
text_lt_connected (x ∷ a) (y ∷ b) h k = ground (arith, text_lt_connected a b)

-- What does not follow `a` precedes all that `a` precedes.
pub text_lt_le_trans :
    (m t r : Text) → text_lt t m ≡ false → text_lt t r ≡ true → text_lt m r ≡ true
text_lt_le_trans m t r h k = elim (Bool-cases (text_lt m t)) [
  | inl below ↦ text_lt_trans m t r below k
  | inr above ↦ rw (text_lt_connected m t above h) k
]
