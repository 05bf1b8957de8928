-- ===== src/Base/Maps.antt =====
-- `BTreeMap` and `BTreeSet`: the entries in the order of their keys, one for each key.
use mathlib.Core.Logic.{inl, inr}
use mathlib.Core.Path.{◌≡◌, refl}
use mathlib.Core.Bool.{Bool, true, ◌&&◌, ◌||◌, not}
use mathlib.Core.Option.{Option, none, some}
use mathlib.Core.List.{List, [], ◌∷◌, map}
use native.Mathlib.Omega.{arith}
use hit_enter.Base.Tests.{if◌then◌else◌, Bool-cases}
use hit_enter.Base.Keys.{Key, ◌==◌}
use hit_enter.Base.Results.{is_some}
use hit_enter.Base.Lists.{retain, elem, every, fold}

abbrev pub Map {ℓ κ} : Type ℓ → Type κ → Type (ℓ ⊔ κ)
Map K V = List (K × V)

pub beq_refl {ℓ} : {K : Type ℓ} ⦃k : Key K⦄ (a : K) → (a == a) ≡ true
beq_refl ⦃k⦄ a = (k.beq_iff a a).1 refl

module _ {ℓ κ} {K : Type ℓ} {V : Type κ} ⦃k : Key K⦄ where
  unfoldable pub get : K → Map K V → Option V
  get a [] = none
  get a ((b, v) ∷ m) = if b == a then some v else get a m

  unfoldable pub contains_key : K → Map K V → Bool
  contains_key a m = is_some (get a m)

  unfoldable pub insert : K → V → Map K V → Map K V
  insert a v [] = (a, v) ∷ []
  insert a v ((b, w) ∷ m) =
      if a == b
      then (a, v) ∷ m
      else if k.precedes a b
      then (a, v) ∷ (b, w) ∷ m
      else (b, w) ∷ insert a v m

  unfoldable pub remove : K → Map K V → Map K V
  remove a m = retain (λ e. not (e.0 == a)) m

  abbrev pub keys : Map K V → List K
  keys m = map (λ e. e.0) m

  abbrev pub values : Map K V → List V
  values m = map (λ e. e.1) m

  -- The later of two entries for one key stays, as `collect` has it.
  unfoldable pub from_entries : List (K × V) → Map K V
  from_entries es = fold (λ m e. insert e.0 e.1 m) [] es

  pub get-insert :
      (a b : K) (v : V) (m : Map K V) → get b (insert a v m) ≡ (if a == b then some v else get b m)
  unfolding get insert
  get-insert a b v [] = refl
  get-insert a b v ((c, w) ∷ m) =
      ground (arith, k.beq_iff a b, k.beq_iff a c, k.beq_iff c b, get-insert a b v m)

  pub get-remove : (a b : K) (m : Map K V) → get b (remove a m) ≡ (if a == b then none else get b m)
  unfolding get remove
  get-remove a b [] = ground arith
  get-remove a b ((c, w) ∷ m) =
      ground (arith, k.beq_iff a b, k.beq_iff c a, k.beq_iff c b, get-remove a b m)

  pub get-insert_self : (a : K) (v : V) (m : Map K V) → get a (insert a v m) ≡ some v
  get-insert_self a v m = rw (get-insert a a v m, beq_refl a)

module _ {ℓ κ μ} {K : Type ℓ} {V : Type κ} {W : Type μ} ⦃k : Key K⦄ where
  abbrev pub map_values : (V → W) → Map K V → Map K W
  map_values f m = map (λ e. (e.0, f e.1)) m

  pub get-map_values :
      (f : V → W) (a : K) (m : Map K V)
      → get a (map_values f m) ≡ elim (get a m) [ none ↦ none | some v ↦ some (f v) ]
  unfolding get
  get-map_values f a [] = refl
  get-map_values f a ((b, v) ∷ m) = ground (arith, get-map_values f a m)

-- A set is the list of its elements in their order.
abbrev pub Set {ℓ} : Type ℓ → Type ℓ
Set A = List A

module _ {ℓ} {A : Type ℓ} ⦃k : Key A⦄ where
  unfoldable pub add : A → Set A → Set A
  add a [] = a ∷ []
  add a (b ∷ s) = if a == b then b ∷ s else if k.precedes a b then a ∷ b ∷ s else b ∷ add a s

  unfoldable pub delete : A → Set A → Set A
  delete a s = retain (λ x. not (x == a)) s

  unfoldable pub from_list : List A → Set A
  from_list xs = fold (λ s x. add x s) [] xs

  -- Two sets are equal when each holds the other's elements.
  abbrev pub same_elements : Set A → Set A → Bool
  same_elements s t = every (λ x. elem x t) s && every (λ x. elem x s) t

  -- The elements of exactly one of the two, in order.
  unfoldable pub symmetric_difference : Set A → Set A → Set A
  symmetric_difference s t =
      fold (λ u x. add x u) (retain (λ x. not (elem x t)) s) (retain (λ x. not (elem x s)) t)

  pub elem-add : (a b : A) (s : Set A) → elem b (add a s) ≡ ((a == b) || elem b s)
  unfolding add
  elem-add a b [] = refl
  elem-add a b (c ∷ s) = ground (arith, k.beq_iff a b, k.beq_iff a c, k.beq_iff c b, elem-add a b s)

  pub elem-retain : (p : A → Bool) (b : A) (s : List A) → elem b (retain p s) ≡ (elem b s && p b)
  elem-retain p b [] = refl
  elem-retain p b (c ∷ s) = elim (Bool-cases (c == b)) [
    | inl e ↦ rw (← (k.beq_iff c b).0 e) (ground (arith, elem-retain p c s, k.beq_iff c c))
    | inr e ↦ ground (arith, elem-retain p b s)
  ]

  pub elem-delete : (a b : A) (s : Set A) → elem b (delete a s) ≡ (elem b s && not (b == a))
  unfolding delete
  elem-delete a b s = elem-retain (λ x. not (x == a)) b s

  elem-fold-add :
      (b : A) (xs s : List A) → elem b (fold (λ t x. add x t) s xs) ≡ (elem b xs || elem b s)
  elem-fold-add b [] s = refl
  elem-fold-add b (x ∷ xs) s = ground (arith, elem-fold-add b xs (add x s), elem-add x b s)

  pub elem-from_list : (b : A) (xs : List A) → elem b (from_list xs) ≡ elem b xs
  unfolding from_list
  elem-from_list b xs = ground (arith, elem-fold-add b xs [])

  pub elem-symmetric_difference :
      (b : A) (s t : Set A)
      → elem b (symmetric_difference s t)
        ≡ ((elem b t && not (elem b s)) || (elem b s && not (elem b t)))
  unfolding symmetric_difference
  elem-symmetric_difference b s t = ground (
    arith,
    elem-fold-add b (retain (λ x. not (elem x s)) t) (retain (λ x. not (elem x t)) s),
    elem-retain (λ x. not (elem x s)) b t,
    elem-retain (λ x. not (elem x t)) b s,
  )

  pub elem-every :
      (b : A) (s t : List A) → every (λ x. elem x t) s ≡ true → elem b s ≡ true → elem b t ≡ true
  elem-every b [] t h m = ground arith
  elem-every b (c ∷ s) t h m = elim (Bool-cases (c == b)) [
    | inl e ↦ let same : c ≡ b = (k.beq_iff c b).0 e in rw (← same) (ground arith)
    | inr e ↦ elem-every b s t (ground arith) (ground arith)
  ]
