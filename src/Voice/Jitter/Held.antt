-- ===== src/Voice/Jitter/Held.antt =====
-- The packets held, a map from unwrapped numbers: what the steps of
-- crates/hit-voice/src/jitter.rs do to their order, their bounds and their number.
use hit_enter.Base.{
  ℕ, ◌+◌, ◌≤◌, ◌<◌, leb, Bool, true, ◌&&◌, [], ◌∷◌, none, some, ◌==◌, nat_key, ◌≡◌, refl, arith,
  Bool-cases, inl, inr,
}
use hit_enter.Base.Lists.{length, retain}
use hit_enter.Base.Maps.{Map, get, insert, remove}
use hit_enter.Voice.Jitter.{Bytes, drop_lowest, max_held}

-- The numbers rise, from `lo` on and up to `hi`.
unfoldable pub is_within : ℕ → ℕ → Map ℕ Bytes → Bool
is_within lo hi [] = true
is_within lo hi (e ∷ m) = leb lo e.0 && leb e.0 hi && is_within (e.0 + 1) hi m

pub within_wider :
    (lo low hi high : ℕ) (m : Map ℕ Bytes)
    → low ≤ lo
    → hi ≤ high
    → is_within lo hi m ≡ true
    → is_within low high m ≡ true
unfolding is_within
within_wider lo low hi high [] p q h = refl
within_wider lo low hi high ((s, v) ∷ m) p q h =
    ground (arith, within_wider (s + 1) (s + 1) hi high m (omega arith) q)

pub within-insert :
    (lo hi s : ℕ) (p : Bytes) (m : Map ℕ Bytes)
    → lo ≤ s
    → s ≤ hi
    → is_within lo hi m ≡ true
    → is_within lo hi (insert s p m) ≡ true
unfolding is_within insert
within-insert lo hi s p [] below above h = ground arith
within-insert lo hi s p ((t, v) ∷ m) below above h =
    ground (arith, within-insert (t + 1) hi s p m, within_wider (t + 1) (s + 1) hi hi m)

pub within-drop_lowest :
    (lo hi : ℕ) (m : Map ℕ Bytes)
    → is_within lo hi m ≡ true
    → (is_within lo hi (drop_lowest m) ≡ true) × (length (drop_lowest m) ≤ max_held)
unfolding is_within drop_lowest
within-drop_lowest lo hi [] h = (refl, omega arith)
within-drop_lowest lo hi ((s, v) ∷ m) h =
    ground (arith, within-drop_lowest (s + 1) hi m, within_wider (s + 1) lo hi hi (drop_lowest m))

pub within-retain :
    (lo hi to : ℕ) (m : Map ℕ Bytes)
    → is_within lo hi m ≡ true
    → (is_within to hi (retain (λ e. leb to e.0) m) ≡ true)
      × (is_within lo hi (retain (λ e. leb to e.0) m) ≡ true)
unfolding is_within
within-retain lo hi to [] h = (refl, refl)
within-retain lo hi to ((s, v) ∷ m) h = ground (
  arith,
  within-retain (s + 1) hi to m,
  within_wider (s + 1) lo hi hi (retain (λ e. leb to e.0) m),
)

-- Nothing below the lowest number is held.
pub get_below : (lo hi s : ℕ) (m : Map ℕ Bytes) → s < lo → is_within lo hi m ≡ true → get s m ≡ none
unfolding is_within get
get_below lo hi s [] p h = refl
get_below lo hi s ((t, v) ∷ m) p h = ground (arith, get_below (t + 1) hi s m)

pub within-remove :
    (lo hi s : ℕ) (m : Map ℕ Bytes) → is_within lo hi m ≡ true → is_within lo hi (remove s m) ≡ true
unfolding is_within remove
within-remove lo hi s [] h = refl
within-remove lo hi s ((t, v) ∷ m) h =
    ground (arith, within-remove (t + 1) hi s m, within_wider (t + 1) lo hi hi (remove s m))

-- Nothing above the bound is held.
pub get_above :
    (lo hi s : ℕ) (p : Bytes) (m : Map ℕ Bytes)
    → get s m ≡ some p
    → is_within lo hi m ≡ true
    → s ≤ hi
unfolding is_within get
get_above lo hi s p [] g h = absurd (cc g)
get_above lo hi s p ((t, v) ∷ m) g h = elim (Bool-cases (t == s)) [
  | inl e ↦ ground arith
  | inr e ↦ get_above (t + 1) hi s p m (ground arith) (ground arith)
]

-- Without the lowest number the rest is above it.
pub within-remove_first :
    (hi s : ℕ) (m : Map ℕ Bytes)
    → is_within s hi m ≡ true
    → is_within (s + 1) hi (remove s m) ≡ true
unfolding is_within remove
within-remove_first hi s [] h = refl
within-remove_first hi s ((t, v) ∷ m) h = elim (Bool-cases (t == s)) [
  | inl e ↦ ground (arith, within-remove (t + 1) hi s m)
  | inr e ↦ ground (arith, within-remove (t + 1) hi s m)
]

pub within-absent :
    (hi s : ℕ) (m : Map ℕ Bytes)
    → get s m ≡ none
    → is_within s hi m ≡ true
    → is_within (s + 1) hi m ≡ true
unfolding is_within get
within-absent hi s [] g h = refl
within-absent hi s ((t, v) ∷ m) g h = ground arith

pub get-retain_from :
    (to s : ℕ) (m : Map ℕ Bytes) → to ≤ s → get s (retain (λ e. leb to e.0) m) ≡ get s m
unfolding get
get-retain_from to s [] h = refl
get-retain_from to s ((t, v) ∷ m) h = ground (arith, get-retain_from to s m h)
