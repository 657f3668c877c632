-- ===== src/Common/Bits.antt =====
-- Single bits of a machine word: what `x & (1 << k)`, `x | (1 << k)` and `x & ~(1 << k)` do to each
-- bit. The native bit operations compute at numerals only; these laws hold at variables.
use Prim.Native.Nat.{
  ℕ, zero, suc, ◌+◌, ◌-◌, ◌*◌, ◌/◌, ◌%◌, ◌^◌, ◌≤◌, ◌<◌, min, max, bit_and, bit_or, digits, bitwise,
  bit_and-bitwise, bit_or-bitwise,
}
use mathlib.Core.Path.{◌≡◌, refl}
use mathlib.Core.Bool.{Bool, false, not, ◌&&◌, ◌||◌}
use native.Mathlib.Omega.{arith}
use native.Mathlib.Nat.{pow-suc}
use crashmonkey.Common.Tests.{◌==◌}

-- The native operations mean a recursion over binary digits on fuel; more fuel changes nothing.
module _ (z : ℕ → ℕ) (op : ℕ → ℕ → ℕ) where
  fuel_irrelevant : (n m a b : ℕ) → a ≤ n → a ≤ m → digits z op n a b ≡ digits z op m a b
  fuel_irrelevant zero zero a b p q = refl
  fuel_irrelevant zero (suc m) zero b p q = refl
  fuel_irrelevant zero (suc m) (suc a) b p q = absurd (omega arith)
  fuel_irrelevant (suc n) zero zero b p q = refl
  fuel_irrelevant (suc n) zero (suc a) b p q = absurd (omega arith)
  fuel_irrelevant (suc n) (suc m) zero b p q = refl
  fuel_irrelevant (suc n) (suc m) (suc a) b p q =
      rw (fuel_irrelevant n m (suc a / 2) (b / 2) (omega arith) (omega arith))

  lowest_digit :
      (a b : ℕ)
      → bitwise z op (suc a) b ≡ bitwise z op (suc a / 2) (b / 2) * 2 + op (suc a % 2) (b % 2)
  lowest_digit a b =
      omega (arith, fuel_irrelevant a (suc a / 2) (suc a / 2) (b / 2) (omega arith) (omega arith))

bit_and_digit : (a b : ℕ) → bit_and a b ≡ bit_and (a / 2) (b / 2) * 2 + min (a % 2) (b % 2)
bit_and_digit zero b = simp bit_and-bitwise (omega arith)
bit_and_digit (suc a) b = simp bit_and-bitwise (lowest_digit (λ y. 0) min a b)

bit_or_digit : (a b : ℕ) → bit_or a b ≡ bit_or (a / 2) (b / 2) * 2 + max (a % 2) (b % 2)
bit_or_digit zero b = simp bit_or-bitwise (omega arith)
bit_or_digit (suc a) b = simp bit_or-bitwise (lowest_digit (λ y. y) max a b)

bit_and_nothing : (n a : ℕ) → a ≤ n → bit_and a 0 ≡ 0
bit_and_nothing n zero h = refl
bit_and_nothing zero (suc a) h = absurd (omega arith)
bit_and_nothing (suc n) (suc a) h =
    omega (arith, bit_and_digit (suc a) 0, bit_and_nothing n (suc a / 2) (omega arith))

-- Bit k of x.
pub test_bit : ℕ → ℕ → Bool
test_bit x zero = x % 2 == 1
test_bit x (suc k) = test_bit (x / 2) k

half_pow : (k : ℕ) → (2 ^ suc k / 2 ≡ 2 ^ k) × (2 ^ suc k % 2 ≡ 0)
half_pow k = omega (arith, pow-suc 2 k)

-- `x & (1 << k)` is not 0 exactly if bit k is set.
pub mask_test : (k x : ℕ) → not (bit_and x (2 ^ k) == 0) ≡ test_bit x k
unfolding test_bit
mask_test zero x = ground (arith, bit_and_digit x 1, bit_and_nothing (x / 2) (x / 2))
mask_test (suc k) x = ground (arith, bit_and_digit x (2 ^ suc k), half_pow k, mask_test k (x / 2))

pub test_bit-bit_or : (k x y : ℕ) → test_bit (bit_or x y) k ≡ (test_bit x k || test_bit y k)
unfolding test_bit
test_bit-bit_or zero x y = ground (arith, bit_or_digit x y)
test_bit-bit_or (suc k) x y =
    let e : bit_or x y / 2 ≡ bit_or (x / 2) (y / 2) = omega (arith, bit_or_digit x y) in
    rw e (test_bit-bit_or k (x / 2) (y / 2))

pub test_bit-bit_and : (k x y : ℕ) → test_bit (bit_and x y) k ≡ (test_bit x k && test_bit y k)
unfolding test_bit
test_bit-bit_and zero x y = ground (arith, bit_and_digit x y)
test_bit-bit_and (suc k) x y =
    let e : bit_and x y / 2 ≡ bit_and (x / 2) (y / 2) = omega (arith, bit_and_digit x y) in
    rw e (test_bit-bit_and k (x / 2) (y / 2))

test_bit_zero : (k : ℕ) → test_bit 0 k ≡ false
unfolding test_bit
test_bit_zero zero = refl
test_bit_zero (suc k) = test_bit_zero k

pub test_bit-pow : (k j : ℕ) → test_bit (2 ^ j) k ≡ (j == k)
unfolding test_bit
test_bit-pow zero zero = refl
test_bit-pow zero (suc j) = ground (arith, half_pow j)
test_bit-pow (suc k) zero = ground (arith, test_bit_zero k)
test_bit-pow (suc k) (suc j) = rw (half_pow j).0 (ground (arith, test_bit-pow k j))

-- `~m` in a word of w bits.
pub complement : ℕ → ℕ → ℕ
complement w m = 2 ^ w - 1 - m

pub test_bit-complement :
    (k w m : ℕ) → m < 2 ^ w → k < w → test_bit (complement w m) k ≡ not (test_bit m k)
unfolding test_bit complement
test_bit-complement k zero m hm hk = absurd (omega arith)
test_bit-complement zero (suc w) m hm hk = ground (arith, pow-suc 2 w)
test_bit-complement (suc k) (suc w) m hm hk =
    let e : (2 ^ suc w - 1 - m) / 2 ≡ 2 ^ w - 1 - m / 2 = omega (arith, pow-suc 2 w) in
    rw e (test_bit-complement k w (m / 2) (omega (arith, pow-suc 2 w)) (omega arith))
