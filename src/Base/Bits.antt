-- ===== src/Base/Bits.antt =====
-- When `bit_or` and `bit_xor` give zero, for numbers of every size.
use Prim.Native.Nat.{
  ℕ, zero, suc, ◌+◌, ◌*◌, ◌/◌, ◌%◌, ◌≤◌, max, digits, bitwise, differ, bit_or, bit_xor,
  bit_or-bitwise, bit_xor-bitwise,
}
use mathlib.Core.Path.{◌≡◌, refl}
use mathlib.Core.Logic.{◌↔◌}
use native.Mathlib.Omega.{arith}

-- A step of the digit recursion, with its fuel left out.
module _ (last : ℕ → ℕ) (join : ℕ → ℕ → ℕ) where
  enough_fuel :
      (a b fuel more : ℕ)
      → a ≤ fuel
      → a ≤ more
      → digits last join fuel a b ≡ digits last join more a b
  enough_fuel zero b zero zero h k = refl
  enough_fuel zero b zero (suc more) h k = refl
  enough_fuel zero b (suc fuel) zero h k = refl
  enough_fuel zero b (suc fuel) (suc more) h k = refl
  enough_fuel (suc a) b zero more h k = absurd (omega arith)
  enough_fuel (suc a) b (suc fuel) zero h k = absurd (omega arith)
  enough_fuel (suc a) b (suc fuel) (suc more) h k =
      omega (arith, enough_fuel (suc a / 2) (b / 2) fuel more (omega arith) (omega arith))

  first_digit :
      (b a : ℕ)
      → join (suc a % 2) (b % 2) + 2 * bitwise last join (suc a / 2) (b / 2)
        ≡ bitwise last join (suc a) b
  first_digit b a =
      omega (arith, enough_fuel (suc a / 2) (b / 2) (suc a / 2) a (omega arith) (omega arith))

bit_or_step : (a b : ℕ) → bit_or a b ≡ max (a % 2) (b % 2) + 2 * bit_or (a / 2) (b / 2)
bit_or_step zero b = simp bit_or-bitwise (omega arith)
bit_or_step (suc a) b = omega (
  arith,
  bit_or-bitwise (suc a) b,
  bit_or-bitwise (suc a / 2) (b / 2),
  first_digit (λ y. y) max b a,
)

bit_xor_step : (a b : ℕ) → bit_xor a b ≡ differ (a % 2) (b % 2) + 2 * bit_xor (a / 2) (b / 2)
bit_xor_step zero b = simp bit_xor-bitwise (omega arith)
bit_xor_step (suc a) b = omega (
  arith,
  bit_xor-bitwise (suc a) b,
  bit_xor-bitwise (suc a / 2) (b / 2),
  first_digit (λ y. y) differ b a,
)

or_zero : (n a b : ℕ) → a + b ≤ n → bit_or a b ≡ 0 → (a ≡ 0) × (b ≡ 0)
or_zero zero a b h e = omega arith
or_zero (suc n) a b h e = ground (
  arith,
  bit_or_step a b,
  or_zero n (a / 2) (b / 2) (omega arith) (omega (arith, bit_or_step a b)),
)

differ_self : (a : ℕ) → differ a a ≡ 0
differ_self zero = refl
differ_self (suc a) = differ_self a

differ_zero : (a b : ℕ) → differ a b ≡ 0 → a ≡ b
differ_zero zero b h = omega arith
differ_zero (suc a) zero h = omega arith
differ_zero (suc a) (suc b) h = omega (arith, differ_zero a b)

xor_zero : (n a b : ℕ) → a + b ≤ n → bit_xor a b ≡ 0 → a ≡ b
xor_zero zero a b h e = omega arith
xor_zero (suc n) a b h e = omega (
  arith,
  differ_zero (a % 2) (b % 2) (omega (arith, bit_xor_step a b)),
  xor_zero n (a / 2) (b / 2) (omega arith) (omega (arith, bit_xor_step a b)),
)

xor_self : (n a : ℕ) → a ≤ n → bit_xor a a ≡ 0
xor_self zero zero h = refl
xor_self zero (suc a) h = absurd (omega arith)
xor_self (suc n) a h =
    omega (arith, bit_xor_step a a, differ_self (a % 2), xor_self n (a / 2) (omega arith))

pub bit_or-eq-zero_iff : (a b : ℕ) → (bit_or a b ≡ 0) ↔ ((a ≡ 0) × (b ≡ 0))
bit_or-eq-zero_iff a b = (or_zero (a + b) a b (omega arith), λ h. rw (h.0, h.1))

pub bit_xor-eq-zero_iff : (a b : ℕ) → (bit_xor a b ≡ 0) ↔ (a ≡ b)
bit_xor-eq-zero_iff a b =
    (xor_zero (a + b) a b (omega arith), λ h. rw h (xor_self b b (omega arith)))
