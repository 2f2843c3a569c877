-- ===== src/Base/Bits.antt =====
-- `|` of two numbers with no common bit is their sum, and `&` with a byte mask cuts a byte out.
use Prim.Native.Nat.{
  ℕ, zero, suc, ◌+◌, ◌*◌, ◌/◌, ◌%◌, ◌^◌, ◌≤◌, ◌<◌, ◌-◌, min, max, bit_and, bit_or, digits,
  bit_and-bitwise, bit_or-bitwise,
}
use mathlib.Core.Path.{◌≡◌, refl, ap}
use native.Mathlib.Nat.{pow-suc, one-le-pow, zero-add, mul-one}
use native.Mathlib.Omega.{arith}

-- More fuel than the first number needs changes nothing.
module _ (last : ℕ → ℕ) (op : ℕ → ℕ → ℕ) where
  enough_fuel : (f g x y : ℕ) → x ≤ f → x ≤ g → digits last op f x y ≡ digits last op g x y
  enough_fuel zero zero x y p q = refl
  enough_fuel zero (suc g) zero y p q = refl
  enough_fuel zero (suc g) (suc x) y p q = absurd (omega arith)
  enough_fuel (suc f) zero zero y p q = refl
  enough_fuel (suc f) zero (suc x) y p q = absurd (omega arith)
  enough_fuel (suc f) (suc g) zero y p q = refl
  enough_fuel (suc f) (suc g) (suc x) y p q =
      omega (arith, enough_fuel f g (suc x / 2) (y / 2) (omega arith) (omega arith))

-- One equation for the lowest binary digit.
pub bit_and_digit : (x y : ℕ) → bit_and x y ≡ bit_and (x / 2) (y / 2) * 2 + min (x % 2) (y % 2)
bit_and_digit zero y = omega (arith, bit_and-bitwise 0 y, bit_and-bitwise 0 (y / 2))
bit_and_digit (suc x) y = omega (
  arith,
  bit_and-bitwise (suc x) y,
  bit_and-bitwise (suc x / 2) (y / 2),
  enough_fuel (λ _. 0) min x (suc x / 2) (suc x / 2) (y / 2) (omega arith) (omega arith),
)

pub bit_or_digit : (x y : ℕ) → bit_or x y ≡ bit_or (x / 2) (y / 2) * 2 + max (x % 2) (y % 2)
bit_or_digit zero y = omega (arith, bit_or-bitwise 0 y, bit_or-bitwise 0 (y / 2))
bit_or_digit (suc x) y = omega (
  arith,
  bit_or-bitwise (suc x) y,
  bit_or-bitwise (suc x / 2) (y / 2),
  enough_fuel (λ z. z) max x (suc x / 2) (suc x / 2) (y / 2) (omega arith) (omega arith),
)

pub bit_or_zero_left : (y : ℕ) → bit_or 0 y ≡ y
bit_or_zero_left y = bit_or-bitwise 0 y

double_shift : (q k : ℕ) → q * 2 ^ suc k ≡ 2 * (q * 2 ^ k)
double_shift q k = omega (arith, ap (λ (t : ℕ). q * t) (pow-suc 2 k))

-- A low part below `2 ^ k`, and a high part in multiples of `2 ^ k`.
pub bit_or_add : (k q r : ℕ) → r < 2 ^ k → bit_or r (q * 2 ^ k) ≡ r + q * 2 ^ k
bit_or_add zero q zero fits = omega (arith, bit_or_zero_left (q * 1))
bit_or_add zero q (suc r) fits = absurd (omega arith)
bit_or_add (suc k) q r fits = ground (
  arith,
  bit_or_digit r (q * 2 ^ suc k),
  double_shift q k,
  pow-suc 2 k,
  bit_or_add k q (r / 2) (omega (arith, pow-suc 2 k)),
)

-- A mask that starts at bit `k` does not see the bits below it.
pub bit_and_high :
    (k q r m : ℕ) → r < 2 ^ k → bit_and (r + q * 2 ^ k) (m * 2 ^ k) ≡ bit_and q m * 2 ^ k
bit_and_high zero q zero m fits = rw (zero-add, mul-one, mul-one, mul-one)
bit_and_high zero q (suc r) m fits = absurd (omega arith)
bit_and_high (suc k) q r m fits = ground (
  arith,
  bit_and_digit (r + q * 2 ^ suc k) (m * 2 ^ suc k),
  double_shift q k,
  double_shift m k,
  double_shift (bit_and q m) k,
  pow-suc 2 k,
  bit_and_high k q (r / 2) m (omega (arith, pow-suc 2 k)),
)

fuel_zero : (n x : ℕ) → x ≤ n → bit_and x 0 ≡ 0
fuel_zero n zero h = bit_and-bitwise 0 0
fuel_zero zero (suc x) h = absurd (omega arith)
fuel_zero (suc n) (suc x) h =
    omega (arith, bit_and_digit (suc x) 0, fuel_zero n (suc x / 2) (omega arith))

bit_and_zero : (x : ℕ) → bit_and x 0 ≡ 0
bit_and_zero x = fuel_zero x x (omega arith)

-- A mask of `k` ones is the remainder by `2 ^ k`.
low_bits : (k q r : ℕ) → r < 2 ^ k → bit_and (r + q * 2 ^ k) (2 ^ k - 1) ≡ r
low_bits zero q zero fits = bit_and_zero (0 + q * 1)
low_bits zero q (suc r) fits = absurd (omega arith)
low_bits (suc k) q r fits = ground (
  arith,
  bit_and_digit (r + q * 2 ^ suc k) (2 ^ suc k - 1),
  double_shift q k,
  pow-suc 2 k,
  one-le-pow k 2,
  low_bits k q (r / 2) (omega (arith, pow-suc 2 k)),
)

pub bit_and_low : (k x : ℕ) → bit_and x (2 ^ k - 1) ≡ x % 2 ^ k
bit_and_low k x = ground (arith, one-le-pow k 2, low_bits k (x / 2 ^ k) (x % 2 ^ k))

or_comm : (n x y : ℕ) → x ≤ n → y ≤ n → bit_or x y ≡ bit_or y x
or_comm zero zero zero p q = refl
or_comm zero zero (suc y) p q = absurd (omega arith)
or_comm zero (suc x) y p q = absurd (omega arith)
or_comm (suc n) x y p q = ground (
  arith,
  bit_or_digit x y,
  bit_or_digit y x,
  or_comm n (x / 2) (y / 2) (omega arith) (omega arith),
)

pub bit_or_comm : (x y : ℕ) → bit_or x y ≡ bit_or y x
bit_or_comm x y = or_comm (x + y) x y (omega arith) (omega arith)
