-- ===== src/Base/Rising.antt =====
-- Lists in the order of their keys: collected into a `BTreeSet` or a `BTreeMap` they stay as they are.
use mathlib.Core.Path.{◌≡◌, refl, sym, ap, ◌∙◌}
use mathlib.Core.Bool.{Bool, true, false, ◌&&◌}
use mathlib.Core.Option.{some}
use mathlib.Core.Logic.{inl, inr}
use mathlib.Core.List.{List, [], ◌∷◌, ◌++◌, append_assoc, append-nil}
use native.Mathlib.Omega.{arith}
use hit_enter.Base.Tests.{Bool-cases}
use hit_enter.Base.Keys.{◌==◌, Key, nat_key, text_key, text_beq, text_precedes}
use hit_enter.Base.Lists.{every, fold}
use hit_enter.Base.Maps.{Map, insert, add, from_list, from_entries, get, beq_refl}

-- What a key before another is not: equal to it, or after it.
abbrev pub IsOrder {ℓ} : {A : Type ℓ} → Key A → Type ℓ
IsOrder {A = A} k =
    (a b : A) → k.precedes a b ≡ true → (k.beq b a ≡ false) × (k.precedes b a ≡ false)

pub nat_key-IsOrder : IsOrder nat_key
nat_key-IsOrder a b h = ground arith

pub text_key-IsOrder : IsOrder text_key
unfolding text_beq text_precedes
text_key-IsOrder [] [] h = absurd (ground arith)
text_key-IsOrder [] (y ∷ t) h = (refl, refl)
text_key-IsOrder (x ∷ s) [] h = absurd (ground arith)
text_key-IsOrder (x ∷ s) (y ∷ t) h = ground (arith, text_key-IsOrder s t)

module _ {ℓ} {A : Type ℓ} ⦃k : Key A⦄ where
  -- Each element is before all the later ones.
  unfoldable pub is_rising : List A → Bool
  is_rising [] = true
  is_rising (x ∷ xs) = every (k.precedes x) xs && is_rising xs

  -- All of the first list are before `x`.
  abbrev below : A → List A → Bool
  below x s = every (λ b. k.precedes b x) s

  add_last : IsOrder k → (x : A) (s : List A) → below x s ≡ true → add x s ≡ s ++ x ∷ []
  unfolding add
  add_last order x [] h = refl
  add_last order x (b ∷ s) h =
      let (e, p) = order b x (ground arith) in
      rw (e, p) (ap (λ t. b ∷ t) (add_last order x s (ground arith)))

  below_last :
      (x y : A) (s : List A)
      → below x s ≡ true
      → k.precedes y x ≡ true
      → below x (s ++ y ∷ []) ≡ true
  below_last x y [] h p = ground arith
  below_last x y (b ∷ s) h p = ground (arith, below_last x y s)

  -- All of `s` are before all of `xs`.
  abbrev apart : List A → List A → Bool
  apart s xs = every (λ x. below x s) xs

  apart_next :
      (s : List A) (y : A) (xs : List A)
      → apart s xs ≡ true
      → every (k.precedes y) xs ≡ true
      → apart (s ++ y ∷ []) xs ≡ true
  apart_next s y [] h p = refl
  apart_next s y (x ∷ xs) h p = ground (arith, below_last x y s, apart_next s y xs)

  apart_nil : (xs : List A) → apart [] xs ≡ true
  apart_nil [] = refl
  apart_nil (x ∷ xs) = apart_nil xs

  fold-add :
      IsOrder k
      → (s xs : List A) → apart s xs ≡ true
      → is_rising xs ≡ true
      → fold (λ t x. add x t) s xs ≡ s ++ xs
  unfolding is_rising
  fold-add order s [] h r = sym (append-nil s)
  fold-add order s (x ∷ xs) h r = rw (add_last order x s (ground arith)) (
      fold-add order (s ++ x ∷ []) xs (apart_next s x xs (ground arith) (ground arith))
        (ground arith)
      ∙ append_assoc s (x ∷ []) xs)

  pub from_list_rising : IsOrder k → (xs : List A) → is_rising xs ≡ true → from_list xs ≡ xs
  unfolding from_list
  from_list_rising order xs h = fold-add order [] xs (apart_nil xs) h

module _ {ℓ κ} {A : Type ℓ} {V : Type κ} ⦃k : Key A⦄ where
  -- The same for the keys of entries.
  unfoldable pub rises : Map A V → Bool
  rises [] = true
  rises (e ∷ m) = every (λ f. k.precedes e.0 f.0) m && rises m

  abbrev pub under : A → Map A V → Bool
  under a m = every (λ e. k.precedes e.0 a) m

  insert_last :
      IsOrder k → (a : A) (v : V) (m : Map A V) → under a m ≡ true → insert a v m ≡ m ++ (a, v) ∷ []
  unfolding insert
  insert_last order a v [] h = refl
  insert_last order a v ((b, w) ∷ m) h =
      let (e, p) = order b a (ground arith) in
      rw (e, p) (ap (λ t. (b, w) ∷ t) (insert_last order a v m (ground arith)))

  under_last :
      (a b : A) (v : V) (m : Map A V)
      → under a m ≡ true
      → k.precedes b a ≡ true
      → under a (m ++ (b, v) ∷ []) ≡ true
  under_last a b v [] h p = ground arith
  under_last a b v (e ∷ m) h p = ground (arith, under_last a b v m)

  abbrev pub all_under : Map A V → Map A V → Bool
  all_under m es = every (λ e. under e.0 m) es

  pub all_under_next :
      (m : Map A V) (b : A) (v : V) (es : Map A V)
      → all_under m es ≡ true
      → every (λ f. k.precedes b f.0) es ≡ true
      → all_under (m ++ (b, v) ∷ []) es ≡ true
  all_under_next m b v [] h p = refl
  all_under_next m b v (e ∷ es) h p = ground (arith, under_last e.0 b v m, all_under_next m b v es)

  pub all_under_nil : (es : Map A V) → all_under [] es ≡ true
  all_under_nil [] = refl
  all_under_nil (e ∷ es) = all_under_nil es

  fold-insert :
      IsOrder k
      → (m es : Map A V) → all_under m es ≡ true
      → rises es ≡ true
      → fold (λ t e. insert e.0 e.1 t) m es ≡ m ++ es
  unfolding rises
  fold-insert order m [] h r = sym (append-nil m)
  fold-insert order m ((a, v) ∷ es) h r = rw (insert_last order a v m (ground arith)) (
      fold-insert order (m ++ (a, v) ∷ []) es
        (all_under_next m a v es (ground arith) (ground arith)) (ground arith)
      ∙ append_assoc m ((a, v) ∷ []) es)

  pub from_entries_rising : IsOrder k → (es : Map A V) → rises es ≡ true → from_entries es ≡ es
  unfolding from_entries
  from_entries_rising order es h = fold-insert order [] es (all_under_nil es) h

module _ {ℓ κ} {A : Type ℓ} {V : Type κ} ⦃k : Key A⦄ where
  -- A key that is held after `b` is after `b`.
  get_after :
      (a b : A) (v : V) (m : Map A V)
      → get a m ≡ some v
      → every (λ f. k.precedes b f.0) m ≡ true
      → k.precedes b a ≡ true
  unfolding get
  get_after a b v [] g h = absurd (ground arith)
  get_after a b v ((c, w) ∷ m) g h = elim (Bool-cases (c == a)) [
    | inl e ↦ let same : c ≡ a = (k.beq_iff c a).0 e in rw (← same) (ground arith)
    | inr e ↦ get_after a b v m (ground arith) (ground arith)
  ]

  -- To put in what is held changes nothing.
  pub insert_held :
      IsOrder k
      → (a : A) (v : V) (m : Map A V) → rises m ≡ true
      → get a m ≡ some v
      → insert a v m ≡ m
  unfolding insert get rises
  insert_held order a v [] r g = absurd (ground arith)
  insert_held order a v ((b, w) ∷ m) r g = elim (Bool-cases (b == a)) [
    | inl e ↦
        let one : b ≡ a = (k.beq_iff b a).0 e in
        let two : some w ≡ some v = rw e at g in
        let held : w ≡ v = cc two in rw (← one, ← held, beq_refl b) refl
    | inr e ↦
        let held : get a m ≡ some v = rw e at g in
        let (apart_from, later) = order b a (get_after a b v m held (ground arith)) in
        rw (apart_from, later) (ap (λ t. (b, w) ∷ t) (insert_held order a v m (ground arith) held))
  ]

  -- What is put in at a key changes there, past the keys before it.
  pub insert_middle :
      IsOrder k
      → (a : A) (v w : V) (before after : Map A V) → every (λ e. k.precedes e.0 a) before ≡ true
      → insert a v (before ++ (a, w) ∷ after) ≡ before ++ (a, v) ∷ after
  unfolding insert
  insert_middle order a v w [] after h = rw (beq_refl a) refl
  insert_middle order a v w ((b, u) ∷ before) after h =
      let (e, p) = order b a (ground arith) in
      rw (e, p) (ap (λ t. (b, u) ∷ t) (insert_middle order a v w before after (ground arith)))
