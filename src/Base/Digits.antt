-- ===== src/Base/Digits.antt =====
-- The native operations on binary digits, one digit at a time, and the masks that the code tests.
use Prim.Native.Nat.{
  ℕ, zero, suc, ◌+◌, ◌*◌, ◌/◌, ◌%◌, ◌^◌, ◌≤◌, ◌<◌, min, max, digits, bitwise, bit_and, bit_or,
  bit_and-bitwise, bit_or-bitwise,
}
use mathlib.Core.Path.{◌≡◌, refl, ap, ◌∙◌}
use native.Mathlib.Nat.{pow-suc}
use native.Mathlib.Omega.{arith}

module _ (join : ℕ → ℕ → ℕ) (last : ℕ → ℕ) where
  no_digits : (k y : ℕ) → digits last join k zero y ≡ last y
  no_digits zero y = refl
  no_digits (suc k) y = refl

  -- Any count that bounds the first number gives the same digits.
  digits_count : (x y k l : ℕ) → x ≤ k → x ≤ l → digits last join k x y ≡ digits last join l x y
  digits_count zero y k l p q = rw (no_digits k y, no_digits l y)
  digits_count (suc x) y zero l p q = absurd (omega arith)
  digits_count (suc x) y (suc k) zero p q = absurd (omega arith)
  digits_count (suc x) y (suc k) (suc l) p q =
      omega (arith, digits_count (suc x / 2) (y / 2) k l (omega arith) (omega arith))

  pub bitwise-suc :
      (x y : ℕ)
      → bitwise last join (suc x) y
        ≡ join (suc x % 2) (y % 2) + 2 * bitwise last join (suc x / 2) (y / 2)
  bitwise-suc x y =
      let same = digits_count (suc x / 2) (y / 2) x (suc x / 2) (omega arith) (omega arith) in
      omega (arith, same)

or_step : (a b : ℕ) → bit_or a b ≡ bit_or (a / 2) (b / 2) * 2 + max (a % 2) (b % 2)
or_step zero b = omega (arith, bit_or-bitwise 0 b, bit_or-bitwise 0 (b / 2))
or_step (suc a) b = omega (
  arith,
  bit_or-bitwise (suc a) b,
  bit_or-bitwise (suc a / 2) (b / 2),
  bitwise-suc max (λ y. y) a b,
)

and_step : (a b : ℕ) → bit_and a b ≡ bit_and (a / 2) (b / 2) * 2 + min (a % 2) (b % 2)
and_step zero b = omega (arith, bit_and-bitwise 0 b, bit_and-bitwise 0 (b / 2))
and_step (suc a) b = omega (
  arith,
  bit_and-bitwise (suc a) b,
  bit_and-bitwise (suc a / 2) (b / 2),
  bitwise-suc min (λ y. zero) a b,
)

and_none : (n a : ℕ) → a ≤ n → bit_and a 0 ≡ 0
and_none n zero h = bit_and-bitwise 0 0
and_none zero (suc a) h = absurd (omega arith)
and_none (suc n) (suc a) h = omega (arith, and_step (suc a) 0, and_none n (suc a / 2) (omega arith))

-- `x & 1` is the parity, and `x & 2` tells the parity of `x >> 1`.
pub bit_and-one : (a : ℕ) → bit_and a 1 ≡ a % 2
bit_and-one a = omega (arith, and_step a 1, and_none (a / 2) (a / 2) (omega arith))

pub bit_and-two : (a : ℕ) → bit_and a 2 ≡ a / 2 % 2 * 2
bit_and-two a = omega (arith, and_step a 2, bit_and-one (a / 2))

-- A union with no lowest digit has a second part with none.
pub bit_or-even : (a b : ℕ) → bit_or a b % 2 ≡ 0 → b % 2 ≡ 0
bit_or-even a b h = omega (arith, or_step a b)

-- With neither of the two lowest digits, the second part is a multiple of four.
pub bit_or_quarters : (a b : ℕ) → bit_or a b % 2 ≡ 0 → bit_or a b / 2 % 2 ≡ 0 → b % 4 ≡ 0
bit_or_quarters a b h k = omega (arith, or_step a b, or_step (a / 2) (b / 2))

or_none : (n a : ℕ) → a ≤ n → bit_or a 0 ≡ a
or_none n zero h = bit_or-bitwise 0 0
or_none zero (suc a) h = absurd (omega arith)
or_none (suc n) (suc a) h = omega (arith, or_step (suc a) 0, or_none n (suc a / 2) (omega arith))

-- Where the digits do not overlap the union is a sum.
pub bit_or_fields : (k q s : ℕ) → s < 2 ^ k → bit_or (q * 2 ^ k) s ≡ q * 2 ^ k + s
bit_or_fields zero q s h =
    let none_left : s ≡ 0 = omega arith in
    rw none_left (or_none (q * 2 ^ 0) (q * 2 ^ 0) (omega arith) ∙ omega arith)
bit_or_fields (suc k) q s h =
    let twice : q * 2 ^ suc k ≡ 2 * (q * 2 ^ k) =
      omega (arith, ap (λ (t : ℕ). q * t) (pow-suc 2 k)) in
    let half : q * 2 ^ suc k / 2 ≡ q * 2 ^ k = omega arith in
    rw (or_step (q * 2 ^ suc k) s, half, bit_or_fields k q (s / 2) (omega (arith, pow-suc 2 k)))
      (omega arith)
