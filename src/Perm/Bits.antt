-- ===== src/Perm/Bits.antt =====
-- The operations of crates/hit-group/src/perm.rs, read one bit at a time.
use hit_enter.Base.{
  ℕ, zero, suc, ◌-◌, ◌/◌, ◌≤◌, ◌<◌, ◌^◌, min, max, ◌≡◌, ◌↔◌, true, nat_beq_iff, ap, arith,
}
use native.Mathlib.Decide.{dec_lt}
use hit_enter.Base.Words.{
  bit, bit-and, bit-or, bit-complement, bit_above, bit-le-one, eq_of_bits, complement, zero_bits,
}
use hit_enter.Perm.{Permissions, all, sanitized, contains, union, intersection, is_empty, beyond}

-- Every permission of `p` is one of `q`.
abbrev pub Within : Permissions → Permissions → Type 0
Within p q = (i : ℕ) → bit p i ≤ bit q i

pub Within-refl : (p : Permissions) → Within p p
Within-refl p i = omega arith

pub Within-trans : (p q r : Permissions) → Within p q → Within q r → Within p r
Within-trans p q r h k i = omega (arith, h i, k i)

pub bit-union : (p q i : ℕ) → bit (union p q) i ≡ max (bit p i) (bit q i)
unfolding union
bit-union p q i = bit-or p q i

pub bit-intersection : (p q i : ℕ) → bit (intersection p q) i ≡ min (bit p i) (bit q i)
unfolding intersection
bit-intersection p q i = bit-and p q i

pub bit-sanitized : (p i : ℕ) → bit (sanitized p) i ≡ min (bit p i) (bit all i)
unfolding sanitized
bit-sanitized p i = bit-and p all i

bit-beyond : (p q i : ℕ) → p < 2 ^ 64 → bit (beyond p q) i ≡ bit p i - bit q i
unfolding beyond
bit-beyond p q i h = elim (dec_lt i 64) [
  | yes low ↦ omega (
    arith,
    bit-and p (complement 64 q) i,
    bit-complement 64 q i low,
    bit-le-one p i,
    bit-le-one q i,
  )
  | no high ↦ omega (arith, bit-and p (complement 64 q) i, bit_above 64 p i h (omega arith))
]

-- A set contains another exactly when every bit of the other is one of its own.
pub contains_iff : (held needed : Permissions) → (contains held needed ≡ true) ↔ Within needed held
unfolding contains
contains_iff held needed = (
  λ h i. omega (arith, bit-and held needed i, ap (λ (t : ℕ). bit t i) ((nat_beq_iff _ _).0 h)),
  λ h. (nat_beq_iff _ _).1 (eq_of_bits _ _ (λ i. omega (arith, bit-and held needed i, h i))),
)

-- Nothing of a 64-bit word of permissions is beyond a set exactly when each of its bits, undefined
-- ones included, is in the set.
pub beyond-is_empty_iff :
    (granting held : Permissions)
    → granting < 2 ^ 64
    → (is_empty (beyond granting held) ≡ true) ↔ Within granting held
unfolding is_empty
beyond-is_empty_iff granting held h = (
  λ e i. omega (
    arith,
    bit-beyond granting held i h,
    ap (λ (t : ℕ). bit t i) ((nat_beq_iff _ _).0 e),
    zero_bits i,
  ),
  λ w.
      (nat_beq_iff _ _).1
        (eq_of_bits _ _ (λ i. omega (arith, bit-beyond granting held i h, w i, zero_bits i))),
)

pub sanitized-Within : (p : Permissions) → Within (sanitized p) all
sanitized-Within p i = omega (arith, bit-sanitized p i)

Within-le_below : (n : ℕ) (p q : Permissions) → p ≤ n → Within p q → p ≤ q
unfolding bit
Within-le_below zero p q h w = omega arith
Within-le_below (suc n) p q h w =
    omega (arith, w 0, Within-le_below n (p / 2) (q / 2) (omega arith) (λ i. w (suc i)))

pub Within-le : (p q : Permissions) → Within p q → p ≤ q
Within-le p q w = Within-le_below p p q (omega arith) w
