-- ===== src/Base/Words.antt =====
-- The bits of machine words: `&`, `|` and `!` read digit by digit.
use Prim.Native.Nat.{
  ℕ, zero, suc, ◌+◌, ◌-◌, ◌*◌, ◌/◌, ◌%◌, ◌^◌, ◌≤◌, ◌<◌, min, max, bit_and, bit_or, bit_xor, bitwise,
  digits, differ, bit_and-bitwise, bit_or-bitwise, bit_xor-bitwise,
}
use mathlib.Core.Path.{◌≡◌, refl, ◌∙◌}
use native.Mathlib.Nat.{pow-suc, one-le-pow}
use native.Mathlib.Omega.{arith}

-- The digit of `a` at place `i`.
unfoldable pub bit : ℕ → ℕ → ℕ
bit a zero = a % 2
bit a (suc i) = bit (a / 2) i

-- The native operations are a recursion with fuel; more fuel than needed changes nothing.
module _ (z : ℕ → ℕ) (f : ℕ → ℕ → ℕ) where
  enough_digits : (k l x y : ℕ) → x ≤ k → x ≤ l → digits z f k x y ≡ digits z f l x y
  enough_digits zero zero x y h i = refl
  enough_digits zero (suc l) (suc x) y h i = absurd (omega arith)
  enough_digits zero (suc l) zero y h i = refl
  enough_digits (suc k) zero (suc x) y h i = absurd (omega arith)
  enough_digits (suc k) zero zero y h i = refl
  enough_digits (suc k) (suc l) (suc x) y h i =
      rw (enough_digits k l (suc x / 2) (y / 2) (omega arith) (omega arith))
  enough_digits (suc k) (suc l) zero y h i = refl

  lowest_digit :
      (x y : ℕ)
      → bitwise z f (suc x) y ≡ bitwise z f (suc x / 2) (y / 2) * 2 + f (suc x % 2) (y % 2)
  lowest_digit x y =
      omega (arith, enough_digits x (suc x / 2) (suc x / 2) (y / 2) (omega arith) (omega arith))

bit_and_step : (x y : ℕ) → bit_and x y ≡ bit_and (x / 2) (y / 2) * 2 + min (x % 2) (y % 2)
bit_and_step zero y = simp bit_and-bitwise (omega arith)
bit_and_step (suc x) y = simp bit_and-bitwise (lowest_digit (λ d. 0) min x y)

bit_or_step : (x y : ℕ) → bit_or x y ≡ bit_or (x / 2) (y / 2) * 2 + max (x % 2) (y % 2)
bit_or_step zero y = simp bit_or-bitwise (omega arith)
bit_or_step (suc x) y = simp bit_or-bitwise (lowest_digit (λ d. d) max x y)

bit_cases : (a i : ℕ) → bit a i ≤ 1
unfolding bit
bit_cases a zero = omega arith
bit_cases a (suc i) = bit_cases (a / 2) i

pub bit-le-one : (a i : ℕ) → bit a i ≤ 1
bit-le-one a i = bit_cases a i

pub bit-and : (a b i : ℕ) → bit (bit_and a b) i ≡ min (bit a i) (bit b i)
unfolding bit
bit-and a b zero = omega (arith, bit_and_step a b)
bit-and a b (suc i) =
    let e : bit_and a b / 2 ≡ bit_and (a / 2) (b / 2) = omega (arith, bit_and_step a b) in
    rw e (bit-and (a / 2) (b / 2) i)

pub bit-or : (a b i : ℕ) → bit (bit_or a b) i ≡ max (bit a i) (bit b i)
unfolding bit
bit-or a b zero = omega (arith, bit_or_step a b)
bit-or a b (suc i) =
    let e : bit_or a b / 2 ≡ bit_or (a / 2) (b / 2) = omega (arith, bit_or_step a b) in
    rw e (bit-or (a / 2) (b / 2) i)

pub zero_bits : (i : ℕ) → bit 0 i ≡ 0
unfolding bit
zero_bits zero = refl
zero_bits (suc i) = zero_bits i

-- Numbers with the same digits are equal; `n` bounds them both.
eq_of_bits_below : (n a b : ℕ) → a ≤ n → b ≤ n → ((i : ℕ) → bit a i ≡ bit b i) → a ≡ b
unfolding bit
eq_of_bits_below zero a b p q h = omega arith
eq_of_bits_below (suc n) a b p q h =
    omega
      (arith, h 0, eq_of_bits_below n (a / 2) (b / 2) (omega arith) (omega arith) (λ i. h (suc i)))

pub eq_of_bits : (a b : ℕ) → ((i : ℕ) → bit a i ≡ bit b i) → a ≡ b
eq_of_bits a b h = eq_of_bits_below (a + b) a b (omega arith) (omega arith) h

differ_one : (x : ℕ) → x ≤ 1 → differ x 1 ≡ 1 - x
differ_one zero h = refl
differ_one (suc zero) h = refl
differ_one (suc (suc x)) h = absurd (omega arith)

differ-le-one : (x y : ℕ) → x ≤ 1 → y ≤ 1 → differ x y ≤ 1
differ-le-one zero y h k = k
differ-le-one (suc zero) zero h k = h
differ-le-one (suc zero) (suc zero) h k = omega arith
differ-le-one (suc zero) (suc (suc y)) h k = absurd (omega arith)
differ-le-one (suc (suc x)) y h k = absurd (omega arith)

bit_xor_step : (x y : ℕ) → bit_xor x y ≡ bit_xor (x / 2) (y / 2) * 2 + differ (x % 2) (y % 2)
bit_xor_step zero y = simp bit_xor-bitwise (omega arith)
bit_xor_step (suc x) y = simp bit_xor-bitwise (lowest_digit (λ d. d) differ x y)

bit-xor : (a b i : ℕ) → bit (bit_xor a b) i ≡ differ (bit a i) (bit b i)
unfolding bit
bit-xor a b zero =
    omega (arith, bit_xor_step a b, differ-le-one (a % 2) (b % 2) (omega arith) (omega arith))
bit-xor a b (suc i) =
    let low = differ-le-one (a % 2) (b % 2) (omega arith) (omega arith) in
    let e : bit_xor a b / 2 ≡ bit_xor (a / 2) (b / 2) = omega (arith, bit_xor_step a b) in
    rw e (bit-xor (a / 2) (b / 2) i)

-- `2 ^ w - 1`, a word of `w` ones.
pub ones : ℕ → ℕ
ones w = 2 ^ w - 1

half_ones : (w : ℕ) → (ones (suc w) / 2 ≡ ones w) × (ones (suc w) % 2 ≡ 1)
unfolding ones
half_ones w = omega (arith, pow-suc 2 w, one-le-pow w 2)

bit-ones : (w i : ℕ) → i < w → bit (ones w) i ≡ 1
unfolding bit
bit-ones zero i h = absurd (omega arith)
bit-ones (suc w) zero h = (half_ones w).1
bit-ones (suc w) (suc i) h = rw (half_ones w).0 (bit-ones w i (omega arith))

-- The complement of a word of `w` bits, `!a`.
unfoldable pub complement : ℕ → ℕ → ℕ
unfolding ones
complement w a = bit_xor a (ones w)

pub bit-complement : (w a i : ℕ) → i < w → bit (complement w a) i ≡ 1 - bit a i
unfolding complement
bit-complement w a i h =
    bit-xor a (ones w) i ∙ rw (bit-ones w i h) (differ_one (bit a i) (bit-le-one a i))

-- A word of `w` bits has no digit at `w` or above.
pub bit_above : (w a i : ℕ) → a < 2 ^ w → w ≤ i → bit a i ≡ 0
unfolding bit
bit_above zero a i h p = let e : a ≡ 0 = omega arith in rw e (zero_bits i)
bit_above (suc w) a zero h p = absurd (omega arith)
bit_above (suc w) a (suc i) h p = bit_above w (a / 2) i (omega (arith, pow-suc 2 w)) (omega arith)
