-- ===== src/Base/Int.antt =====
-- The signed integers of the source, `i64`.
use Prim.Native.Nat.{ℕ, suc, ◌+◌, ◌-◌}

-- `negsuc n` is -(n + 1).
pub data ℤ : Type 0 where
  pos : ℕ → ℤ
  negsuc : ℕ → ℤ

abbrev pub pos_part : ℤ → ℕ
pos_part (pos n) = n
pos_part (negsuc n) = 0

abbrev pub neg_part : ℤ → ℕ
neg_part (pos n) = 0
neg_part (negsuc n) = suc n

-- `(a - b).abs()`.
abbrev pub distance : ℤ → ℤ → ℕ
distance a b =
    let up = pos_part a + neg_part b in
    let down = pos_part b + neg_part a in (up - down) + (down - up)
