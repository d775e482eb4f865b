-- ===== src/Base/Int.antt =====
-- Signed integers, as far as the program compares them. `negsuc n` is -(n + 1).
use Prim.Native.Nat.{ℕ, suc, ◌+◌, ◌-◌, ◌%◌, ◌^◌, compare, Ordering}
use mathlib.Core.Path.{◌≡◌}
use mathlib.Core.Bool.{Bool, true, false}
use native.Mathlib.Omega.{arith}

pub data ℤ : Type 0 where
  pos : ℕ → ℤ
  negsuc : ℕ → ℤ

abbrev eq_ℕ : ℕ → ℕ → Bool
eq_ℕ a b = elim (compare a b) [ Ordering.eq ↦ true | _ ↦ false ]

-- `==` on integers.
unfoldable pub int_eq : ℤ → ℤ → Bool
int_eq (pos a) (pos b) = eq_ℕ a b
int_eq (negsuc a) (negsuc b) = eq_ℕ a b
int_eq _ _ = false

pub int_eq_refl : (a : ℤ) → int_eq a a ≡ true
unfolding int_eq
int_eq_refl (pos a) = ground arith
int_eq_refl (negsuc a) = ground arith

-- The difference of two naturals.
abbrev minus : ℕ → ℕ → ℤ
minus a b = elim (compare a b) [ Ordering.lt ↦ negsuc (b - a - 1) | _ ↦ pos (a - b) ]

-- `+` and `<=` on integers.
infixl 60 ◌+ℤ◌
abbrev pub ◌+ℤ◌ : ℤ → ℤ → ℤ
pos a +ℤ pos b = pos (a + b)
pos a +ℤ negsuc b = minus a (suc b)
negsuc a +ℤ pos b = minus b (suc a)
negsuc a +ℤ negsuc b = negsuc (suc (a + b))

abbrev le_ℕ : ℕ → ℕ → Bool
le_ℕ a b = elim (compare a b) [ Ordering.gt ↦ false | _ ↦ true ]

abbrev pub int_leb : ℤ → ℤ → Bool
int_leb (pos a) (pos b) = le_ℕ a b
int_leb (pos a) (negsuc b) = false
int_leb (negsuc a) (pos b) = true
int_leb (negsuc a) (negsuc b) = le_ℕ b a

-- An integer cut to `w + 1` bits with a sign, as Rust cuts it: the top half of the range is negative.
abbrev wrapped : ℕ → ℤ → ℤ
wrapped w (pos n) =
    let m = n % 2 ^ suc w in
    elim (compare m (2 ^ w)) [ Ordering.lt ↦ pos m | _ ↦ negsuc (2 ^ suc w - m - 1) ]
wrapped w (negsuc n) =
    let m = n % 2 ^ suc w in
    elim (compare m (2 ^ w)) [ Ordering.lt ↦ negsuc m | _ ↦ pos (2 ^ suc w - m - 1) ]

abbrev pub wrap_i64 : ℤ → ℤ
wrap_i64 n = wrapped 63 n
