-- ===== src/Prelude/Bits.antt =====
-- `|` and `&` of the program's masks and shifts as arithmetic.
use Prim.Native.Nat.{
  ℕ, zero, suc, ◌+◌, ◌*◌, ◌/◌, ◌%◌, ◌^◌, ◌≤◌, ◌<◌, min, max, bit_and, bit_or, digits, bitwise,
  bit_and-bitwise, bit_or-bitwise,
}
use mathlib.Core.Path.{◌≡◌, refl, ◌∙◌, sym}
use native.Mathlib.Omega.{arith}
use native.Mathlib.Nat.{pow-suc}

-- Both operations are one recursion, by `f` on two digits and with `z` once the first number has run
-- out; its count of digits does not matter where it is large enough.
module _ (z : ℕ → ℕ) (f : ℕ → ℕ → ℕ) where
  count_irrelevant : (k l x y : ℕ) → x ≤ k → x ≤ l → digits z f k x y ≡ digits z f l x y
  count_irrelevant k l zero y hk hl = out_of_digits k ∙ sym (out_of_digits l)
    where
      out_of_digits : (m : ℕ) → digits z f m zero y ≡ z y
      out_of_digits zero = refl
      out_of_digits (suc m) = refl
  count_irrelevant zero l (suc x) y hk hl = absurd (omega arith)
  count_irrelevant (suc k) zero (suc x) y hk hl = absurd (omega arith)
  count_irrelevant (suc k) (suc l) (suc x) y hk hl =
      rw (count_irrelevant k l (suc x / 2) (y / 2) (omega arith) (omega arith)) refl

  bitwise_digit :
      (x y : ℕ)
      → z y ≡ z (y / 2) * 2 + f 0 (y % 2)
      → bitwise z f x y ≡ bitwise z f (x / 2) (y / 2) * 2 + f (x % 2) (y % 2)
  bitwise_digit zero y hz = hz
  bitwise_digit (suc x) y hz =
      rw (count_irrelevant x (suc x / 2) (suc x / 2) (y / 2) (omega arith) (omega arith)) refl

-- The lowest digit of each operation.
pub bit_and_digit : (x y : ℕ) → bit_and x y ≡ bit_and (x / 2) (y / 2) * 2 + min (x % 2) (y % 2)
bit_and_digit x y =
    rw (bit_and-bitwise x y, bit_and-bitwise (x / 2) (y / 2))
      (bitwise_digit (λ _. zero) min x y (omega arith))

bit_or_digit : (x y : ℕ) → bit_or x y ≡ bit_or (x / 2) (y / 2) * 2 + max (x % 2) (y % 2)
bit_or_digit x y =
    rw (bit_or-bitwise x y, bit_or-bitwise (x / 2) (y / 2))
      (bitwise_digit (λ d. d) max x y (omega arith))

-- A bound on the first number, halved in each step.
and_none : (k x : ℕ) → x < 2 ^ k → bit_and x 0 ≡ 0
and_none zero x h = let e : x ≡ 0 = omega arith in rw e refl
and_none (suc k) x h =
    omega (arith, pow-suc 2 k, bit_and_digit x 0, and_none k (x / 2) (omega (arith, pow-suc 2 k)))

or_none : (k x : ℕ) → x < 2 ^ k → bit_or x 0 ≡ x
or_none zero x h = let e : x ≡ 0 = omega arith in rw e refl
or_none (suc k) x h =
    omega (arith, pow-suc 2 k, bit_or_digit x 0, or_none k (x / 2) (omega (arith, pow-suc 2 k)))

lt_pow : (x : ℕ) → x < 2 ^ x
lt_pow zero = omega arith
lt_pow (suc x) = omega (arith, pow-suc 2 x, lt_pow x)

pub zero-bit_or : (y : ℕ) → bit_or 0 y ≡ y
zero-bit_or y = bit_or-bitwise 0 y

pub bit_or-zero : (x : ℕ) → bit_or x 0 ≡ x
bit_or-zero x = or_none x x (lt_pow x)

-- A step of a mask: its lowest digit is set or not.
and_odd : (x m : ℕ) → bit_and x (m * 2 + 1) ≡ bit_and (x / 2) m * 2 + x % 2
and_odd x m =
    let half : (m * 2 + 1) / 2 ≡ m = omega arith in
    rw (bit_and_digit x (m * 2 + 1), half) (omega arith)

and_even : (x m : ℕ) → bit_and x (m * 2) ≡ bit_and (x / 2) m * 2
and_even x m =
    let half : m * 2 / 2 ≡ m = omega arith in rw (bit_and_digit x (m * 2), half) (omega arith)

and_zero : (x : ℕ) → bit_and x 0 ≡ 0
and_zero x = and_none x x (lt_pow x)

-- `x & 3`
pub bit_and_low_two : (x : ℕ) → bit_and x 3 ≡ x % 4
bit_and_low_two x = omega (arith, and_odd x 1, and_odd (x / 2) 0, and_zero (x / 2 / 2))

-- `x & 0xff`
pub bit_and_byte : (x : ℕ) → bit_and x 255 ≡ x % 256
bit_and_byte x = omega (
  arith,
  and_odd x 127,
  and_odd (x / 2) 63,
  and_odd (x / 2 / 2) 31,
  and_odd (x / 2 / 2 / 2) 15,
  and_odd (x / 2 / 2 / 2 / 2) 7,
  and_odd (x / 2 / 2 / 2 / 2 / 2) 3,
  bit_and_low_two (x / 2 / 2 / 2 / 2 / 2 / 2),
)

-- `x & 0x80` of a byte
pub bit_and_high : (x : ℕ) → x < 256 → bit_and x 0x80 ≡ x / 128 * 128
bit_and_high x h = omega (
  arith,
  and_even x 64,
  and_even (x / 2) 32,
  and_even (x / 2 / 2) 16,
  and_even (x / 2 / 2 / 2) 8,
  and_even (x / 2 / 2 / 2 / 2) 4,
  and_even (x / 2 / 2 / 2 / 2 / 2) 2,
  and_even (x / 2 / 2 / 2 / 2 / 2 / 2) 1,
  and_odd (x / 2 / 2 / 2 / 2 / 2 / 2 / 2) 0,
  and_zero (x / 2 / 2 / 2 / 2 / 2 / 2 / 2 / 2),
)

-- One binary digit of a shifted number.
or_shift_step : (p v b : ℕ) → bit_or (v * (p * 2)) b ≡ bit_or (v * p) (b / 2) * 2 + b % 2
or_shift_step p v b =
    let e : v * (p * 2) / 2 ≡ v * p = omega arith in
    let m : v * (p * 2) % 2 ≡ 0 = omega arith in
    bit_or_digit (v * (p * 2)) b ∙ rw (e, m) (omega arith)

or_above_step : (p a v : ℕ) → bit_or a (v * (p * 2)) ≡ bit_or (a / 2) (v * p) * 2 + a % 2
or_above_step p a v =
    let e : v * (p * 2) / 2 ≡ v * p = omega arith in
    let m : v * (p * 2) % 2 ≡ 0 = omega arith in
    bit_or_digit a (v * (p * 2)) ∙ rw (e, m) (omega arith)

-- `(v << k) | b` for a `b` of `k` bits.
pub bit_or_shifted : (k v b : ℕ) → b < 2 ^ k → bit_or (v * 2 ^ k) b ≡ v * 2 ^ k + b
bit_or_shifted zero v b h = let e : b ≡ 0 = omega arith in rw e (bit_or-zero (v * 1) ∙ omega arith)
bit_or_shifted (suc k) v b h = rw (pow-suc 2 k) (
    rw (or_shift_step (2 ^ k) v b)
      (omega (arith, pow-suc 2 k, bit_or_shifted k v (b / 2) (omega (arith, pow-suc 2 k)))))

-- `a | (v << k)` for an `a` of `k` bits.
pub bit_or_above : (k a v : ℕ) → a < 2 ^ k → bit_or a (v * 2 ^ k) ≡ a + v * 2 ^ k
bit_or_above zero a v h = let e : a ≡ 0 = omega arith in rw e (zero-bit_or (v * 1) ∙ omega arith)
bit_or_above (suc k) a v h = rw (pow-suc 2 k) (
    rw (or_above_step (2 ^ k) a v)
      (omega (arith, pow-suc 2 k, bit_or_above k (a / 2) v (omega (arith, pow-suc 2 k)))))
