-- ===== src/Go/Ints.antt =====
-- Signed integers over the native numbers, and the wrap-around of a w-bit word.
use onedb.Prelude.{ℕ, suc, ◌-◌, ◌%◌, ◌^◌, ◌<◌, ◌≡◌, refl, arith, ltb, lt→ltb, if◌then◌else◌}
use native.Mathlib.Nat.{mod-eq_of_lt, pow-suc}

-- `negsuc n` is -(n + 1).
pub data ℤ : Type 0 where
  pos : ℕ → ℤ
  negsuc : ℕ → ℤ

-- `n` fits a signed word of `suc w` bits exactly if this magnitude is below 2 ^ w.
abbrev pub magnitude : ℤ → ℕ
magnitude (pos n) = n
magnitude (negsuc n) = n

-- Conversion to a signed word of `suc w` bits: the low bits, read as two's complement.
unfoldable pub wrap_signed : ℕ → ℤ → ℤ
wrap_signed w (pos n) =
    let m = n % 2 ^ suc w in if ltb m (2 ^ w) then pos m else negsuc (2 ^ suc w - suc m)
wrap_signed w (negsuc n) =
    let m = n % 2 ^ suc w in if ltb m (2 ^ w) then negsuc m else pos (2 ^ suc w - suc m)

-- Conversion to an unsigned word of `w` bits.
pub wrap_unsigned : ℕ → ℕ → ℕ
wrap_unsigned w n = n % 2 ^ w

pub wrap_unsigned-id : (w n : ℕ) → n < 2 ^ w → wrap_unsigned w n ≡ n
unfolding wrap_unsigned
wrap_unsigned-id w n h = mod-eq_of_lt h

low_suc : (w n : ℕ) → n < 2 ^ w → n % 2 ^ suc w ≡ n
low_suc w n h = mod-eq_of_lt (rw pow-suc (omega arith))

-- A value in range is kept.
pub wrap_signed-id : (w : ℕ) (z : ℤ) → magnitude z < 2 ^ w → wrap_signed w z ≡ z
unfolding wrap_signed
wrap_signed-id w (pos n) h = rw (low_suc w n h, lt→ltb n (2 ^ w) h) refl
wrap_signed-id w (negsuc n) h = rw (low_suc w n h, lt→ltb n (2 ^ w) h) refl
