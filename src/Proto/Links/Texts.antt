-- ===== src/Proto/Links/Texts.antt =====
-- Cutting texts at characters that their parts do not have, for crates/hit-proto/src/invite.rs.
use hit_enter.Base.{
  ℕ, Bool, true, false, not, ◌&&◌, none, some, List, [], ◌∷◌, ◌++◌, ◌==◌, nat_key, Text, ◌≡◌, refl,
  ap, ◌∙◌, arith,
}
use mathlib.Core.List.{reverse, reverse_aux, reverse-reverse}
use hit_enter.Base.Lists.{every}
use hit_enter.Base.Maps.{beq_refl}
use hit_enter.Base.Texts.{trim, trim_start, is_whitespace, split_on}
use hit_enter.Proto.Links.{split_once}

-- No character of `t` is `c`.
abbrev pub lacks : ℕ → Text → Bool
lacks c t = every (λ x. not (x == c)) t

-- No character is white space.
abbrev pub is_tight : Text → Bool
is_tight t = every (λ x. not (is_whitespace x)) t

pub every-append {ℓ} :
    {A : Type ℓ} (p : A → Bool) (xs ys : List A) → every p (xs ++ ys) ≡ (every p xs && every p ys)
every-append p [] ys = refl
every-append p (x ∷ xs) ys = ground (arith, every-append p xs ys)

every-reverse_aux {ℓ} :
    {A : Type ℓ} (p : A → Bool) (xs ys : List A)
    → every p xs ≡ true
    → every p ys ≡ true
    → every p (reverse_aux xs ys) ≡ true
every-reverse_aux p [] ys h k = k
every-reverse_aux p (x ∷ xs) ys h k = every-reverse_aux p xs (x ∷ ys) (ground arith) (ground arith)

trim_start_tight : (t : Text) → is_tight t ≡ true → trim_start t ≡ t
unfolding trim_start
trim_start_tight [] h = refl
trim_start_tight (c ∷ t) h =
    let dark : is_whitespace c ≡ false = ground arith in rw (trim_start, dark) refl

pub trim_tight : (t : Text) → is_tight t ≡ true → trim t ≡ t
unfolding trim
trim_tight t h =
    ap (λ u. reverse (trim_start (reverse u))) (trim_start_tight t h)
    ∙ ap reverse
        (trim_start_tight (reverse t) (every-reverse_aux (λ x. not (is_whitespace x)) t [] h refl))
    ∙ reverse-reverse t

pub split_on_last : (sep : ℕ) (w : Text) → lacks sep w ≡ true → split_on sep w ≡ w ∷ []
unfolding split_on
split_on_last sep [] h = refl
split_on_last sep (c ∷ w) h =
    let other : (c == sep) ≡ false = ground arith in
    rw (split_on, other, split_on_last sep w (ground arith)) refl

pub split_on_first :
    (sep : ℕ) (w rest : Text)
    → lacks sep w ≡ true
    → split_on sep (w ++ sep ∷ rest) ≡ w ∷ split_on sep rest
unfolding split_on
split_on_first sep [] rest h = rw (split_on, beq_refl sep) refl
split_on_first sep (c ∷ w) rest h =
    let other : (c == sep) ≡ false = ground arith in
    rw (split_on, other, split_on_first sep w rest (ground arith)) refl

pub split_once-none : (sep : ℕ) (w : Text) → lacks sep w ≡ true → split_once sep w ≡ none
unfolding split_once
split_once-none sep [] h = refl
split_once-none sep (c ∷ w) h =
    let other : (c == sep) ≡ false = ground arith in
    rw (split_once, other, split_once-none sep w (ground arith)) refl

pub split_once-some :
    (sep : ℕ) (w rest : Text)
    → lacks sep w ≡ true
    → split_once sep (w ++ sep ∷ rest) ≡ some (w, rest)
unfolding split_once
split_once-some sep [] rest h = rw (split_once, beq_refl sep) refl
split_once-some sep (c ∷ w) rest h =
    let other : (c == sep) ≡ false = ground arith in
    rw (split_once, other, split_once-some sep w rest (ground arith)) refl
