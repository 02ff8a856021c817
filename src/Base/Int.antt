-- ===== src/Base/Int.antt =====
-- Go's signed integers. Values are mathematical integers; where the code may leave the range of an
-- `int64` the wrap-around is written out by `wrap64`.
use ubuntu_daemon.Base.{
  ℕ, suc, ◌+◌, ◌-◌, ◌*◌, ◌%◌, ◌^◌, ◌≤◌, ◌<◌, ◌≡◌, Bool, arith, ltb, leb, ◌==◌, if◌then◌else◌,
}

-- `negsuc n` is -(n + 1).
pub data ℤ : Type 0 where
  pos : ℕ → ℤ
  negsuc : ℕ → ℤ

abbrev pub pos_part : ℤ → ℕ
pos_part (pos n) = n
pos_part (negsuc n) = 0

abbrev pub neg_part : ℤ → ℕ
neg_part (pos n) = 0
neg_part (negsuc n) = suc n

infix 50 ◌≤ℤ◌ ◌<ℤ◌
abbrev pub ◌≤ℤ◌ : ℤ → ℤ → Type 0
a ≤ℤ b = pos_part a + neg_part b ≤ pos_part b + neg_part a

abbrev pub ◌<ℤ◌ : ℤ → ℤ → Type 0
a <ℤ b = pos_part a + neg_part b < pos_part b + neg_part a

abbrev pub ltb_ℤ : ℤ → ℤ → Bool
ltb_ℤ a b = ltb (pos_part a + neg_part b) (pos_part b + neg_part a)

abbrev pub leb_ℤ : ℤ → ℤ → Bool
leb_ℤ a b = leb (pos_part a + neg_part b) (pos_part b + neg_part a)

abbrev pub eqb_ℤ : ℤ → ℤ → Bool
eqb_ℤ a b = (pos_part a + neg_part b) == (pos_part b + neg_part a)

-- The `int64` with the same low 64 bits as a natural number.
unfoldable pub signed64 : ℕ → ℤ
signed64 m = let r = m % 2 ^ 64 in if ltb r (2 ^ 63) then pos r else negsuc (2 ^ 64 - r - 1)

-- `x * k` in `int64` for a positive constant `k`.
unfoldable pub mul64 : ℤ → ℕ → ℤ
unfolding signed64
mul64 (pos n) k = signed64 (n * k)
mul64 (negsuc n) k = signed64 (2 ^ 64 * k - suc n * k)

-- Below 2^63 the product is exact.
pub mul64_exact : (n k : ℕ) → n * k < 2 ^ 63 → mul64 (pos n) k ≡ pos (n * k)
unfolding mul64
mul64_exact n k h = ground arith

pub eq_of_le : (a b : ℤ) → a ≤ℤ b → b ≤ℤ a → a ≡ b
eq_of_le a b h k = ground arith

-- A time and a duration, in nanoseconds.
unfoldable pub add_time : ℕ → ℤ → ℤ
add_time n (pos m) = pos (n + m)
add_time n (negsuc m) = if ltb m n then pos (n - suc m) else negsuc (m - n)
