-- ===== src/Int.antt =====
-- The C++ `int` as an integer. `inc` and `pred` are `x + 1` and `x - 1`; the library's counters and
-- identifiers stay far from the ends of `int`, where the language leaves overflow undefined.
-- `to_u16`, `to_u32` and `to_s32` are the conversions that wrap around.
use str_manager.Prelude.{
  ℕ, zero, suc, ◌+◌, ◌-◌, ◌/◌, ◌%◌, ◌^◌, ◌<◌, ◌≡◌, ◌↔◌, refl, ap, Bool, true, false, arith,
  if◌then◌else◌,
}
use str_manager.Prelude

-- `negsuc n` is -(n + 1).
pub data ℤ : Type 0 where
  pos : ℕ → ℤ
  negsuc : ℕ → ℤ

infix 50 ◌==◌
abbrev pub ◌==◌ : ℤ → ℤ → Bool
pos a == pos b = Prelude.◌==◌ a b
negsuc a == negsuc b = Prelude.◌==◌ a b
_ == _ = false

pub ==_iff : (a b : ℤ) → ((a == b) ≡ true) ↔ (a ≡ b)
==_iff (pos a) (pos b) = ground arith
==_iff (pos a) (negsuc b) = ground arith
==_iff (negsuc a) (pos b) = ground arith
==_iff (negsuc a) (negsuc b) = ground arith

abbrev pub is_neg : ℤ → Bool
is_neg (pos n) = false
is_neg (negsuc n) = true

-- A number as a condition: true if it is not 0.
abbrev pub truthy : ℤ → Bool
truthy (pos zero) = false
truthy (pos (suc n)) = true
truthy (negsuc n) = true

abbrev pub inc : ℤ → ℤ
inc (pos n) = pos (suc n)
inc (negsuc zero) = pos 0
inc (negsuc (suc n)) = negsuc n

abbrev pub pred : ℤ → ℤ
pred (pos zero) = negsuc 0
pred (pos (suc n)) = pos n
pred (negsuc n) = negsuc (suc n)

pub pred-inc : (a : ℤ) → pred (inc a) ≡ a
pred-inc (pos n) = refl
pred-inc (negsuc zero) = refl
pred-inc (negsuc (suc n)) = refl

pub inc-ne : (a : ℤ) → (inc a == a) ≡ false
inc-ne (pos n) = ground arith
inc-ne (negsuc zero) = refl
inc-ne (negsuc (suc n)) = ground arith

-- `a / n` for a divisor above 0 rounds towards 0.
unfoldable pub div_by : ℤ → ℕ → ℤ
div_by (pos a) n = pos (a / n)
div_by (negsuc a) n = if Prelude.ltb a (n - 1) then pos 0 else negsuc (suc a / n - 1)

-- The conversion to an unsigned type whose values lie below `m`.
abbrev pub to_unsigned : ℕ → ℤ → ℕ
to_unsigned m (pos n) = n % m
to_unsigned m (negsuc n) = m - 1 - n % m

abbrev pub to_u16 : ℤ → ℕ
to_u16 = to_unsigned 0x1_0000

abbrev pub to_u32 : ℤ → ℕ
to_u32 = to_unsigned 0x1_0000_0000

-- An unsigned 32-bit value converted to `int`.
abbrev pub to_s32 : ℕ → ℤ
to_s32 w = if Prelude.ltb w 0x8000_0000 then pos w else negsuc (0xffff_ffff - w)

pub to_u16-lt : (a : ℤ) → to_u16 a < 0x1_0000
to_u16-lt (pos n) = omega arith
to_u16-lt (negsuc n) = omega arith

abbrev pub ltb : ℤ → ℤ → Bool
ltb (pos a) (pos b) = Prelude.ltb a b
ltb (pos a) (negsuc b) = false
ltb (negsuc a) (pos b) = true
ltb (negsuc a) (negsuc b) = Prelude.ltb b a

abbrev pub is_positive : ℤ → Bool
is_positive (pos zero) = false
is_positive (pos (suc n)) = true
is_positive (negsuc n) = false

pub is_positive-inc : (a : ℤ) → is_positive a ≡ true → is_positive (inc a) ≡ true
is_positive-inc (pos n) h = refl
is_positive-inc (negsuc n) h = cc

pub is_positive-pred :
    (a : ℤ) → is_positive a ≡ true → (pred a == pos 0) ≡ false → is_positive (pred a) ≡ true
is_positive-pred (pos zero) h k = cc
is_positive-pred (pos (suc zero)) h k = cc
is_positive-pred (pos (suc (suc n))) h k = refl
is_positive-pred (negsuc n) h k = cc

-- What is no condition is 0.
pub falsy : (a : ℤ) → truthy a ≡ false → a ≡ pos 0
falsy (pos zero) h = refl
falsy (pos (suc n)) h = cc
falsy (negsuc n) h = cc

pub pred-pos : (n m : ℕ) → n ≡ m + 1 → pred (pos n) ≡ pos m
pred-pos zero m h = absurd (omega arith)
pred-pos (suc n) m h = ap pos (omega arith)
