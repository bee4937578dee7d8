-- ===== src/Base/Pieces.antt =====
-- `str::split` by an ASCII character, and `parse` of an unsigned integer of a bounded width.
use Prim.Native.Nat.{ℕ, zero, suc, ◌+◌, ◌-◌, ◌*◌, ◌/◌, ◌%◌, ◌≤◌, ◌<◌}
use mathlib.Core.Path.{◌≡◌, refl, ap, ◌∙◌}
use mathlib.Core.Logic.{◌≢◌}
use mathlib.Core.Bool.{Bool, ◌&&◌}
use mathlib.Core.Option.{Option, none, some}
use mathlib.Core.List.{List, [], ◌∷◌, ◌++◌, append_assoc}
use native.Mathlib.Omega.{arith}
use my_mesh.Base.Tests.{leb, if◌then◌else◌}
use my_mesh.Base.Lists.{All, length, length-append, drop, get_or}
use my_mesh.Base.Equality.{◌==◌, nat_eq}
use my_mesh.Base.Strings.{Text, join, starts_with, decimal, decimal_digits}

-- The character before the rest goes to the first piece of the rest.
extended : ℕ → List Text → List Text
extended c [] = (c ∷ []) ∷ []
extended c (p ∷ ps) = (c ∷ p) ∷ ps

unfoldable pub split : ℕ → Text → List Text
unfolding extended
split sep [] = [] ∷ []
split sep (c ∷ s) = let rest = split sep s in if c == sep then [] ∷ rest else extended c rest

-- `str::split` where a separator, given by the number of its bytes, stands; 0 if none does. Each round
-- drops a byte, so the length is fuel enough.
split_rounds : (ℕ → ℕ → ℕ → ℕ) → ℕ → Text → List Text
unfolding extended
split_rounds measure zero s = [] ∷ []
split_rounds measure (suc fuel) [] = [] ∷ []
split_rounds measure (suc fuel) (c ∷ s) = elim (measure c (get_or s 0 0) (get_or s 1 0)) [
  | zero ↦ extended c (split_rounds measure fuel s)
  | suc k ↦ [] ∷ split_rounds measure fuel (drop k s)
]

unfoldable pub split_where : (ℕ → ℕ → ℕ → ℕ) → Text → List Text
unfolding split_rounds
split_where measure s = split_rounds measure (suc (length s)) s

-- A measure by which a space is one separator and no byte of `P` starts one.
pub record Separates (P : ℕ → Type 0) (measure : ℕ → ℕ → ℕ → ℕ) : Type 0 where
  pub at_space : (b c : ℕ) → measure 32 b c ≡ 1
  pub elsewhere : (a b c : ℕ) → P a → measure a b c ≡ 0

module _ (P : ℕ → Type 0) (measure : ℕ → ℕ → ℕ → ℕ) (m : Separates P measure) where
  split_rounds-word :
      (fuel : ℕ) (w : Text) → length w < fuel → All P w → split_rounds measure fuel w ≡ w ∷ []
  unfolding split_rounds extended
  split_rounds-word zero w k h = absurd (omega (arith, k))
  split_rounds-word (suc fuel) [] k h = refl
  split_rounds-word (suc fuel) (c ∷ w) k h =
      let rest = split_rounds-word fuel w (omega (arith, k)) h.1 in
      ground (arith, m.elsewhere c (get_or w 0 0) (get_or w 1 0) h.0, rest)

  split_rounds-append :
      (n fuel : ℕ) (w rest : Text)
      → n ≡ length w + suc fuel
      → All P w
      → split_rounds measure n (w ++ 32 ∷ rest) ≡ w ∷ split_rounds measure fuel rest
  unfolding split_rounds extended
  split_rounds-append zero fuel w rest e h = absurd (omega (arith, e))
  split_rounds-append (suc n) fuel [] rest e h =
      let same : n ≡ fuel = omega (arith, e) in
      ground (arith, same, m.at_space (get_or rest 0 0) (get_or rest 1 0))
  split_rounds-append (suc n) fuel (c ∷ w) rest e h =
      let t = w ++ 32 ∷ rest in
      let tail = split_rounds-append n fuel w rest (omega (arith, e)) h.1 in
      ground (arith, m.elsewhere c (get_or t 0 0) (get_or t 1 0) h.0, tail)

  -- The words of a phrase in which one space stands between two.
  pub split_where-join :
      (w : Text) (ws : List Text)
      → All (All P) (w ∷ ws)
      → split_where measure (join (32 ∷ []) (w ∷ ws)) ≡ w ∷ ws
  unfolding split_where join
  split_where-join w [] h = split_rounds-word (suc (length w)) w (omega arith) h.0
  split_where-join w (v ∷ ws) h =
      let later = join (32 ∷ []) (v ∷ ws) in
      let size : suc (length (w ++ 32 ∷ later)) ≡ length w + suc (suc (length later)) =
        omega (arith, length-append w (32 ∷ later)) in
      rw (append_assoc w (32 ∷ []) later) (
        split_rounds-append (suc (length (w ++ 32 ∷ later))) (suc (length later)) w later size h.0
        ∙ ap (◌∷◌ w) (split_where-join v ws h.1))

-- `trim_start_matches`.
unfoldable pub drop_while : (ℕ → Bool) → Text → Text
drop_while p [] = []
drop_while p (c ∷ s) = let rest = drop_while p s in if p c then rest else c ∷ s

-- `strip_prefix`.
unfoldable pub strip_prefix : Text → Text → Option Text
strip_prefix prefix s = if starts_with s prefix then some (drop (length prefix) s) else none

abbrev pub Lacks : ℕ → Text → Type 0
Lacks sep = All (λ c. c ≢ sep)

pub split-Lacks : (sep : ℕ) (s : Text) → Lacks sep s → split sep s ≡ s ∷ []
unfolding split extended
split-Lacks sep [] h = refl
split-Lacks sep (c ∷ s) h = ground (arith, h, split-Lacks sep s h.1)

pub split-append :
    (sep : ℕ) (s rest : Text) → Lacks sep s → split sep (s ++ sep ∷ rest) ≡ s ∷ split sep rest
unfolding split extended
split-append sep [] rest h = ground arith
split-append sep (c ∷ s) rest h = ground (arith, h, split-append sep s rest h.1)

abbrev pub is_decimal : ℕ → Bool
is_decimal c = leb 48 c && leb c 57

-- The digits after a value that was read; none where one is no digit or the value passes `most`.
unfoldable pub read_digits : ℕ → ℕ → Text → Option ℕ
read_digits most v [] = some v
read_digits most v (c ∷ s) =
    let rest = read_digits most (v * 10 + (c - 48)) s in
    if is_decimal c && leb (v * 10 + (c - 48)) most then rest else none

-- `parse::<uN>()`: a `+` is allowed before the digits, of which there is at least one.
unfoldable pub parse_unsigned : ℕ → Text → Option ℕ
unfolding read_digits
parse_unsigned most [] = none
parse_unsigned most (c ∷ []) = if c == 43 then none else read_digits most 0 (c ∷ [])
parse_unsigned most (c ∷ d ∷ s) =
    if c == 43 then read_digits most 0 (d ∷ s) else read_digits most 0 (c ∷ d ∷ s)

read_digits-digits :
    (most fuel n : ℕ) (acc : Text)
    → n < fuel
    → n ≤ most
    → read_digits most 0 (decimal_digits fuel n acc) ≡ read_digits most n acc
unfolding read_digits decimal_digits
read_digits-digits most zero n acc h k = absurd (omega (arith, h))
read_digits-digits most (suc f) n acc h k =
    let lower : n / 10 * 10 + (48 + n % 10 - 48) ≡ n = omega arith in
    let rest = read_digits-digits most f (n / 10) ((48 + n % 10) ∷ acc) in
    ground (arith, h, k, lower, rest)

abbrev pub IsDecimal : ℕ → Type 0
IsDecimal c = (48 ≤ c) × (c ≤ 57)

digits-IsDecimal :
    (fuel n : ℕ) (acc : Text) → All IsDecimal acc → All IsDecimal (decimal_digits fuel n acc)
unfolding decimal_digits
digits-IsDecimal zero n acc h = h
digits-IsDecimal (suc f) n acc h =
    ground (arith, h, digits-IsDecimal f (n / 10) ((48 + n % 10) ∷ acc))

pub decimal-IsDecimal : (n : ℕ) → All IsDecimal (decimal n)
unfolding decimal
decimal-IsDecimal n = digits-IsDecimal (suc n) n [] tt

parse_unsigned_digits :
    (most : ℕ) (s : Text) → All IsDecimal s → s ≢ [] → parse_unsigned most s ≡ read_digits most 0 s
unfolding parse_unsigned
parse_unsigned_digits most [] h k = absurd (k refl)
parse_unsigned_digits most (c ∷ []) h k = ground (arith, h)
parse_unsigned_digits most (c ∷ d ∷ s) h k = ground (arith, h)

-- The fuel is not used up before a digit is written.
digits-nonempty : (fuel n : ℕ) (acc : Text) → acc ≢ [] → decimal_digits fuel n acc ≢ []
unfolding decimal_digits
digits-nonempty zero n acc h = h
digits-nonempty (suc f) n acc h =
    ground (arith, h, digits-nonempty f (n / 10) ((48 + n % 10) ∷ acc))

pub decimal-nonempty : (n : ℕ) → decimal n ≢ []
unfolding decimal decimal_digits
decimal-nonempty n = ground (arith, digits-nonempty n (n / 10) ((48 + n % 10) ∷ []))

-- A number in the range is read back from its digits.
pub parse_unsigned-decimal : (most n : ℕ) → n ≤ most → parse_unsigned most (decimal n) ≡ some n
unfolding decimal read_digits
parse_unsigned-decimal most n h =
    parse_unsigned_digits most (decimal n) (decimal-IsDecimal n) (decimal-nonempty n)
    ∙ read_digits-digits most (suc n) n [] (omega arith) h
