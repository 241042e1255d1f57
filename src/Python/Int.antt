-- ===== src/Python/Int.antt =====
-- Python's integers: `negsuc n` is -(n + 1).
use wu_kong_easy_sdk_csharp.Common.{
  ℕ, zero, suc, Bool, true, false, ltb, ◌==◌, ◌≡◌, ◌↔◌, arith, ◌&&◌, ◌*◌, ◌^◌, ◌/◌,
}

pub data ℤ : Type 0 where
  pos : ℕ → ℤ
  negsuc : ℕ → ℤ

abbrev pub pos_part : ℤ → ℕ
pos_part (pos n) = n
pos_part (negsuc n) = 0

abbrev pub neg_part : ℤ → ℕ
neg_part (pos n) = 0
neg_part (negsuc n) = suc n

-- -n
abbrev pub negate : ℕ → ℤ
negate zero = pos 0
negate (suc n) = negsuc n

-- 0 < z
abbrev pub positive : ℤ → Bool
positive (pos n) = ltb 0 n
positive (negsuc n) = false

abbrev pub int_eq : ℤ → ℤ → Bool
int_eq a b = (pos_part a == pos_part b) && (neg_part a == neg_part b)

-- a / 2 ^ j and b / 2 ^ k are the same number.
abbrev pub ratio_eq : ℤ → ℕ → ℤ → ℕ → Bool
ratio_eq a j b k =
    (pos_part a * 2 ^ k == pos_part b * 2 ^ j) && (neg_part a * 2 ^ k == neg_part b * 2 ^ j)

-- a / 2 ^ j, rounded towards zero
abbrev pub truncate : ℤ → ℕ → ℤ
truncate (pos n) j = pos (n / 2 ^ j)
truncate (negsuc n) j = negate (suc n / 2 ^ j)

pub int_eq_iff : (a b : ℤ) → (int_eq a b ≡ true) ↔ (a ≡ b)
int_eq_iff a b = ground arith
