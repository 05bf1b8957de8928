-- ===== src/Base/Texts.antt =====
-- What the code uses of `str`: literals, `trim`, `parse` of numbers.
use Prim.Native.Nat.{ℕ, zero, suc, ◌≤◌, ◌+◌, ◌-◌, ◌*◌, ◌^◌}
use Prim.Native.Char.{code}
use Prim.Native.String.{String}
use mathlib.Core.Path.{◌≡◌, refl}
use mathlib.Core.Bool.{Bool, ◌&&◌, ◌||◌}
use mathlib.Core.Option.{Option, none, some}
use mathlib.Core.List.{List, [], ◌∷◌, ◌++◌, reverse}
use hit_enter.Base.Tests.{if◌then◌else◌, leb, ltb}
use hit_enter.Base.Keys.{Text, ◌==◌, nat_key}
use hit_enter.Base.Lists.{length}
use native.Mathlib.Omega.{arith}
use hit_enter.Base.Int.{ℤ, pos, negsuc}

-- A literal of the source.
abbrev pub codes : String → Text
codes String.[] = []
codes (String.◌∷◌ c s) = code c ∷ codes s

-- `char::is_whitespace`, over the characters of the Unicode property White_Space.
unfoldable pub is_whitespace : ℕ → Bool
is_whitespace c =
    (leb 9 c && leb c 13)
    || c == 32
    || c == 0x85
    || c == 0xa0
    || c == 0x1680
    || (leb 0x2000 c && leb c 0x200a)
    || c == 0x2028
    || c == 0x2029
    || c == 0x202f
    || c == 0x205f
    || c == 0x3000

unfoldable pub trim_start : Text → Text
unfolding is_whitespace
trim_start [] = []
trim_start (c ∷ s) = if is_whitespace c then trim_start s else c ∷ s

unfoldable pub trim : Text → Text
unfolding trim_start
trim s = reverse (trim_start (reverse (trim_start s)))

unfoldable pub digit_value : ℕ → Option ℕ
digit_value c = if leb b'0' c && leb c b'9' then some (c - b'0') else none

-- The digits of a number below `limit`, or nothing on an overflow or another character.
unfoldable pub parse_digits : ℕ → ℕ → Text → Option ℕ
unfolding digit_value
parse_digits limit acc [] = some acc
parse_digits limit acc (c ∷ s) = elim (digit_value c) [
  | none ↦ none
  | some d ↦ if ltb (acc * 10 + d) limit then parse_digits limit (acc * 10 + d) s else none
]

-- `str::parse` for an unsigned type whose values are below `limit`: one `+` may lead, and there is
-- a digit.
unfoldable pub parse_unsigned : ℕ → Text → Option ℕ
unfolding parse_digits
parse_unsigned limit [] = none
parse_unsigned limit (c ∷ []) = parse_digits limit 0 (c ∷ [])
parse_unsigned limit (c ∷ d ∷ s) =
    if c == b'+' then parse_digits limit 0 (d ∷ s) else parse_digits limit 0 (c ∷ d ∷ s)

unfoldable pub parse_u64 : Text → Option ℕ
unfolding parse_unsigned
parse_u64 = parse_unsigned (2 ^ 64)

unfoldable pub parse_u32 : Text → Option ℕ
unfolding parse_unsigned
parse_u32 = parse_unsigned (2 ^ 32)

-- The integer `-n`.
abbrev pub negate : ℕ → ℤ
negate zero = pos zero
negate (suc n) = negsuc n

-- `str::parse::<i64>`.
unfoldable pub parse_i64 : Text → Option ℤ
unfolding parse_unsigned parse_digits
parse_i64 [] = none
parse_i64 (c ∷ []) = elim (parse_unsigned (2 ^ 63) (c ∷ [])) [ none ↦ none | some n ↦ some (pos n) ]
parse_i64 (c ∷ d ∷ s) =
    if c == b'-'
    then elim (parse_digits (2 ^ 63 + 1) 0 (d ∷ s)) [ none ↦ none | some n ↦ some (negate n) ]
    else elim (parse_unsigned (2 ^ 63) (c ∷ d ∷ s)) [ none ↦ none | some n ↦ some (pos n) ]

-- `str::split` on one character.
unfoldable pub split_on : ℕ → Text → List Text
split_on sep [] = [] ∷ []
split_on sep (c ∷ s) =
    let rest = split_on sep s in
    if c == sep then [] ∷ rest else elim rest [ [] ↦ (c ∷ []) ∷ [] | w ∷ ws ↦ (c ∷ w) ∷ ws ]

unfoldable pub join_with : Text → List Text → Text
join_with sep [] = []
join_with sep (w ∷ []) = w
join_with sep (w ∷ v ∷ ws) = w ++ (sep ++ join_with sep (v ∷ ws))

-- `str::strip_prefix`.
unfoldable pub strip_prefix : Text → Text → Option Text
strip_prefix [] s = some s
strip_prefix (p ∷ ps) [] = none
strip_prefix (p ∷ ps) (c ∷ s) = if p == c then strip_prefix ps s else none

parse_i64_low : parse_i64 (codes "-9223372036854775808") ≡ some (negsuc (2 ^ 63 - 1))
unfolding parse_i64
parse_i64_low = refl

parse_u32_over : parse_u32 (codes "4294967296") ≡ none
unfolding parse_u32
parse_u32_over = refl

trim_both : trim (codes " a b ") ≡ codes "a b"
unfolding trim
trim_both = refl

-- `str::len`: the bytes of the UTF-8 form.
char_bytes : ℕ → ℕ
char_bytes c = if ltb c 0x80 then 1 else if ltb c 0x800 then 2 else if ltb c 0x10000 then 3 else 4

unfoldable pub byte_length : Text → ℕ
unfolding char_bytes
byte_length [] = 0
byte_length (c ∷ s) = char_bytes c + byte_length s

pub length-byte_length : (s : Text) → length s ≤ byte_length s
unfolding byte_length
length-byte_length [] = omega arith
length-byte_length (c ∷ s) = ground (arith, length-byte_length s)

unfoldable pub take : ℕ → Text → Text
take zero s = []
take (suc n) [] = []
take (suc n) (c ∷ s) = c ∷ take n s
