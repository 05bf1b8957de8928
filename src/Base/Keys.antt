-- ===== src/Base/Keys.antt =====
-- What the standard library's ordered maps and sets ask of a key: an equality and an order.
use Prim.Native.Nat.{ℕ}
use mathlib.Core.Path.{◌≡◌, refl, ap}
use mathlib.Core.Logic.{◌↔◌}
use mathlib.Core.Bool.{Bool, true, false, ◌&&◌, ◌||◌}
use mathlib.Core.List.{List, [], ◌∷◌}
use native.Mathlib.Omega.{arith}
use hit_enter.Base.Tests.{nat_beq, nat_beq_iff, ltb}

pub record Key {ℓ} (A : Type ℓ) : Type ℓ where
  pub beq : A → A → Bool
  pub precedes : A → A → Bool
  pub beq_iff : (a b : A) → (beq a b ≡ true) ↔ (a ≡ b)

infix 50 ◌==◌
abbrev pub ◌==◌ {ℓ} : {A : Type ℓ} ⦃k : Key A⦄ → A → A → Bool
◌==◌ ⦃k⦄ = k.beq

instance abbrev pub nat_key : Key ℕ
nat_key = record { beq = nat_beq; precedes = ltb; beq_iff = nat_beq_iff }

-- A text is the list of its characters' code points. The order is that of the code points, which
-- is the order of the UTF-8 bytes.
abbrev pub Text : Type 0
Text = List ℕ

unfoldable pub text_beq : Text → Text → Bool
text_beq [] [] = true
text_beq (x ∷ xs) (y ∷ ys) = nat_beq x y && text_beq xs ys
text_beq _ _ = false

unfoldable pub text_precedes : Text → Text → Bool
text_precedes [] [] = false
text_precedes [] (y ∷ ys) = true
text_precedes (x ∷ xs) [] = false
text_precedes (x ∷ xs) (y ∷ ys) = ltb x y || (nat_beq x y && text_precedes xs ys)

text_beq-eq : (s t : Text) → text_beq s t ≡ true → s ≡ t
unfolding text_beq
text_beq-eq [] [] h = refl
text_beq-eq (x ∷ xs) (y ∷ ys) h = ground (arith, text_beq-eq xs ys)
text_beq-eq [] (y ∷ ys) h = ground arith
text_beq-eq (x ∷ xs) [] h = ground arith

text_beq_refl : (s : Text) → text_beq s s ≡ true
unfolding text_beq
text_beq_refl [] = refl
text_beq_refl (x ∷ xs) = ground (arith, text_beq_refl xs)

pub text_beq_iff : (s t : Text) → (text_beq s t ≡ true) ↔ (s ≡ t)
text_beq_iff s t = (text_beq-eq s t, λ e. rw e (text_beq_refl t))

instance abbrev pub text_key : Key Text
text_key = record { beq = text_beq; precedes = text_precedes; beq_iff = text_beq_iff }

-- Pairs are compared by their first parts, then by their second.
abbrev pub pair_beq {ℓ κ} : {A : Type ℓ} {B : Type κ} ⦃a : Key A⦄ ⦃b : Key B⦄ → A × B → A × B → Bool
pair_beq ⦃a⦄ ⦃b⦄ p q = a.beq p.0 q.0 && b.beq p.1 q.1

pub pair_beq_iff {ℓ κ} :
    {A : Type ℓ} {B : Type κ} ⦃a : Key A⦄ ⦃b : Key B⦄ (p q : A × B)
    → (pair_beq p q ≡ true) ↔ (p ≡ q)
pair_beq_iff ⦃a⦄ ⦃b⦄ (x, y) (z, w) = (
  λ h.
      let (e, f) : (x ≡ z) × (y ≡ w) =
        ((a.beq_iff x z).0 (ground arith), (b.beq_iff y w).0 (ground arith)) in
      rw (e, f) refl,
  λ h.
      let (e, f) : (x ≡ z) × (y ≡ w) = (ap (λ p. p.0) h, ap (λ p. p.1) h) in
      rw ((a.beq_iff x z).1 e, (b.beq_iff y w).1 f) refl,
)

instance abbrev pub pair_key {ℓ κ} : {A : Type ℓ} {B : Type κ} ⦃a : Key A⦄ ⦃b : Key B⦄ → Key (A × B)
pair_key ⦃a⦄ ⦃b⦄ = record {
  beq = pair_beq;
  precedes = λ p q. a.precedes p.0 q.0 || (a.beq p.0 q.0 && b.precedes p.1 q.1);
  beq_iff = pair_beq_iff;
}
