-- ===== src/Base/Decimal.antt =====
-- `to_string` of the integer types, and that `parse` reads it back.
use Prim.Native.Nat.{ℕ, zero, suc, ◌+◌, ◌*◌, ◌/◌, ◌%◌, ◌^◌, ◌≤◌, ◌<◌}
use mathlib.Core.Path.{◌≡◌, refl, ap, ◌∙◌}
use mathlib.Core.Bool.{true, false}
use mathlib.Core.Option.{none, some}
use mathlib.Core.List.{[], ◌∷◌}
use native.Mathlib.Omega.{arith}
use mathlib.Core.Logic.{inl, inr}
use hit_enter.Base.Tests.{if◌then◌else◌, ltb, Bool-cases}
use hit_enter.Base.Keys.{Text, ◌==◌, nat_key}
use hit_enter.Base.Int.{ℤ, pos, negsuc}
use hit_enter.Base.Texts.{
  digit_value, parse_digits, parse_unsigned, parse_u64, parse_u32, parse_i64, negate,
}

-- The digits of `n` in front of `s`; `fuel` is not below `n`.
unfoldable pub digits_before : ℕ → ℕ → Text → Text
digits_before zero n s = (b'0' + n) ∷ s
digits_before (suc fuel) n s =
    if ltb n 10 then (b'0' + n) ∷ s else digits_before fuel (n / 10) ((b'0' + n % 10) ∷ s)

unfoldable pub nat_text : ℕ → Text
unfolding digits_before
nat_text n = digits_before n n []

-- `i64::to_string`.
unfoldable pub int_text : ℤ → Text
unfolding nat_text
int_text (pos n) = nat_text n
int_text (negsuc n) = b'-' ∷ nat_text (suc n)

digit_value_digit : (d : ℕ) → d < 10 → digit_value (b'0' + d) ≡ some d
unfolding digit_value
digit_value_digit d h = ground arith

parse_digits_step :
    (limit a d : ℕ) (s : Text)
    → d < 10
    → a * 10 + d < limit
    → parse_digits limit a ((b'0' + d) ∷ s) ≡ parse_digits limit (a * 10 + d) s
unfolding parse_digits
parse_digits_step limit a d s h l =
    let small : ltb (a * 10 + d) limit ≡ true = ground arith in
    rw (parse_digits, digit_value_digit d h, small) refl

parse_digits-digits_before :
    (limit fuel n : ℕ) (s : Text)
    → n ≤ fuel
    → n < limit
    → parse_digits limit 0 (digits_before fuel n s) ≡ parse_digits limit n s
unfolding digits_before
parse_digits-digits_before limit zero n s h l =
    parse_digits_step limit 0 n s (omega arith) (omega arith)
    ∙ ap (λ k. parse_digits limit k s) (omega arith)
parse_digits-digits_before limit (suc fuel) n s h l = elim (Bool-cases (ltb n 10)) [
  | inl e ↦ rw e (
      parse_digits_step limit 0 n s (ground arith) (omega arith)
      ∙ ap (λ k. parse_digits limit k s) (omega arith))
  | inr e ↦ rw e (
      parse_digits-digits_before limit fuel (n / 10) ((b'0' + n % 10) ∷ s) (ground arith)
        (omega arith)
      ∙ parse_digits_step limit (n / 10) (n % 10) s (omega arith) (omega arith)
      ∙ ap (λ k. parse_digits limit k s) (omega arith))
]

-- A printed number is a digit and digits: no sign.
data IsDigits : Text → Type 0 where
  is_digits : (d : ℕ) (s : Text) → d < 10 → IsDigits ((b'0' + d) ∷ s)

digits_before-IsDigits : (fuel n : ℕ) (s : Text) → n ≤ fuel → IsDigits (digits_before fuel n s)
unfolding digits_before
digits_before-IsDigits zero n s h = is_digits n s (omega arith)
digits_before-IsDigits (suc fuel) n s h = elim (Bool-cases (ltb n 10)) [
  | inl e ↦ rw e (is_digits n s (ground arith))
  | inr e ↦ rw e (digits_before-IsDigits fuel (n / 10) ((b'0' + n % 10) ∷ s) (ground arith))
]

parse_unsigned-IsDigits :
    (limit : ℕ) {t : Text} → IsDigits t → parse_unsigned limit t ≡ parse_digits limit 0 t
unfolding parse_unsigned
parse_unsigned-IsDigits limit (is_digits d [] h) = refl
parse_unsigned-IsDigits limit (is_digits d (c ∷ s) h) =
    let plain : ((b'0' + d) == b'+') ≡ false = ground arith in rw plain refl

parse_unsigned-nat_text : (limit n : ℕ) → n < limit → parse_unsigned limit (nat_text n) ≡ some n
unfolding nat_text parse_digits
parse_unsigned-nat_text limit n h =
    parse_unsigned-IsDigits limit (digits_before-IsDigits n n [] (omega arith))
    ∙ parse_digits-digits_before limit n n [] (omega arith) h

pub parse_u64-nat_text : (n : ℕ) → n < 2 ^ 64 → parse_u64 (nat_text n) ≡ some n
unfolding parse_u64
parse_u64-nat_text n h = parse_unsigned-nat_text (2 ^ 64) n h

pub parse_u32-nat_text : (n : ℕ) → n < 2 ^ 32 → parse_u32 (nat_text n) ≡ some n
unfolding parse_u32
parse_u32-nat_text n h = parse_unsigned-nat_text (2 ^ 32) n h

parse_i64-IsDigits :
    {t : Text}
    → IsDigits t
    → parse_i64 t ≡ elim (parse_unsigned (2 ^ 63) t) [ none ↦ none | some n ↦ some (pos n) ]
unfolding parse_i64
parse_i64-IsDigits (is_digits d [] h) = refl
parse_i64-IsDigits (is_digits d (c ∷ s) h) =
    let plain : ((b'0' + d) == b'-') ≡ false = ground arith in rw plain refl

-- The integers of an `i64`.
abbrev pub IsI64 : ℤ → Type 0
IsI64 (pos n) = n < 2 ^ 63
IsI64 (negsuc n) = n < 2 ^ 63

negative_IsDigits :
    {t : Text}
    → IsDigits t
    → parse_i64 (b'-' ∷ t)
      ≡ elim (parse_digits (2 ^ 63 + 1) 0 t) [ none ↦ none | some n ↦ some (negate n) ]
unfolding parse_i64
negative_IsDigits (is_digits d s h) = refl

pub parse_i64-int_text : (z : ℤ) → IsI64 z → parse_i64 (int_text z) ≡ some z
unfolding int_text nat_text parse_digits
parse_i64-int_text (pos n) h =
    parse_i64-IsDigits (digits_before-IsDigits n n [] (omega arith))
    ∙ rw (parse_unsigned-nat_text (2 ^ 63) n h) refl
parse_i64-int_text (negsuc n) h =
    let read : parse_digits (2 ^ 63 + 1) 0 (digits_before (suc n) (suc n) []) ≡ some (suc n) =
      parse_digits-digits_before (2 ^ 63 + 1) (suc n) (suc n) [] (omega arith) (omega arith) in
    negative_IsDigits (digits_before-IsDigits (suc n) (suc n) [] (omega arith)) ∙ rw read refl
