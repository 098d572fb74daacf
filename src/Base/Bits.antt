-- ===== src/Base/Bits.antt =====
-- Exclusive or of native numbers, from the digit recursion that the operation stands for.
use Prim.Native.Nat.{
  ℕ, zero, suc, ◌+◌, ◌*◌, ◌/◌, ◌%◌, ◌^◌, ◌≤◌, ◌<◌, bit_xor, digits, differ, bit_xor-bitwise,
}
use mathlib.Core.Path.{◌≡◌, refl}
use native.Mathlib.Nat.{pow-suc}
use native.Mathlib.Omega.{arith}

abbrev xor_digits : ℕ → ℕ → ℕ → ℕ
xor_digits n a b = digits (λ b. b) differ n a b

xor_digits_fuel : (n m a b : ℕ) → a ≤ n → a ≤ m → xor_digits n a b ≡ xor_digits m a b
xor_digits_fuel zero zero a b p q = refl
xor_digits_fuel zero (suc m) zero b p q = refl
xor_digits_fuel zero (suc m) (suc a) b p q = absurd (omega arith)
xor_digits_fuel (suc n) zero zero b p q = refl
xor_digits_fuel (suc n) zero (suc a) b p q = absurd (omega arith)
xor_digits_fuel (suc n) (suc m) zero b p q = refl
xor_digits_fuel (suc n) (suc m) (suc a) b p q =
    omega (arith, xor_digits_fuel n m (suc a / 2) (b / 2) (omega arith) (omega arith))

zero-bit_xor : (b : ℕ) → bit_xor 0 b ≡ b
zero-bit_xor b = bit_xor-bitwise 0 b

differ_zero : (y : ℕ) → differ 0 y ≡ y
differ_zero y = refl

bit_xor_step : (a b : ℕ) → bit_xor a b ≡ bit_xor (a / 2) (b / 2) * 2 + differ (a % 2) (b % 2)
bit_xor_step zero b = omega (arith, zero-bit_xor b, zero-bit_xor (b / 2), differ_zero (b % 2))
bit_xor_step (suc a) b = omega (
  arith,
  bit_xor-bitwise (suc a) b,
  bit_xor-bitwise (suc a / 2) (b / 2),
  xor_digits_fuel a (suc a / 2) (suc a / 2) (b / 2) (omega arith) (omega arith),
)

differ-differ : (x y : ℕ) → x < 2 → y < 2 → (differ (differ x y) y ≡ x) × (differ x y < 2)
differ-differ zero zero p q = (refl, omega arith)
differ-differ zero (suc zero) p q = (refl, omega arith)
differ-differ (suc zero) zero p q = (refl, omega arith)
differ-differ (suc zero) (suc zero) p q = (refl, omega arith)
differ-differ zero (suc (suc y)) p q = absurd (omega arith)
differ-differ (suc zero) (suc (suc y)) p q = absurd (omega arith)
differ-differ (suc (suc x)) y p q = absurd (omega arith)

bit_xor_twice_fuel : (n a b : ℕ) → a ≤ n → b ≤ n → bit_xor (bit_xor a b) b ≡ a
bit_xor_twice_fuel zero zero zero p q = refl
bit_xor_twice_fuel zero (suc a) b p q = absurd (omega arith)
bit_xor_twice_fuel zero zero (suc b) p q = absurd (omega arith)
bit_xor_twice_fuel (suc n) a b p q =
    let r = bit_xor a b in
    let d = differ-differ (a % 2) (b % 2) (omega arith) (omega arith) in
    let high : r / 2 ≡ bit_xor (a / 2) (b / 2) = omega (arith, bit_xor_step a b, d.1) in
    let low : r % 2 ≡ differ (a % 2) (b % 2) = omega (arith, bit_xor_step a b, d.1) in
    let ih = bit_xor_twice_fuel n (a / 2) (b / 2) (omega arith) (omega arith) in
    rw (bit_xor_step r b, high, low, ih, d.0) (omega arith)

pub bit_xor_twice : (a b : ℕ) → bit_xor (bit_xor a b) b ≡ a
bit_xor_twice a b = bit_xor_twice_fuel (a + b) a b (omega arith) (omega arith)

pub bit_xor-lt : (k a b : ℕ) → a < 2 ^ k → b < 2 ^ k → bit_xor a b < 2 ^ k
bit_xor-lt zero zero b p q = omega (arith, zero-bit_xor b)
bit_xor-lt zero (suc a) b p q = absurd (omega arith)
bit_xor-lt (suc k) a b p q =
    let d = differ-differ (a % 2) (b % 2) (omega arith) (omega arith) in
    let e : 2 ^ suc k ≡ 2 ^ k * 2 = pow-suc 2 k in
    omega (arith, bit_xor_step a b, d.1, bit_xor-lt k (a / 2) (b / 2) (omega arith) (omega arith))
