-- ===== src/Group/Posting/Times.antt =====
-- When a member may post: silences and waits of crates/hit-group/src/state.rs.
use mathlib.Core.List.{Memᴰ}
use mathlib.Core.List.Memᴰ.{head, tail}
use hit_enter.Base.{
  ℕ, ◌+◌, max, ltb, if◌then◌else◌, Option, ◌≤◌, Bool, true, false, ◌&&◌, none, some, List, [], ◌∷◌,
  ◌<◌, ◌↔◌, ◌≡◌, refl, arith, Bool-cases, Option-cases, inl, inr, ◌⊎◌, nat_key, text_key, ◌==◌,
  is_some,
}
use hit_enter.Base.Maps.{get}
use hit_enter.Base.Lists.{find}
use hit_enter.Event.{PublicKey, Timestamp}
use hit_enter.Event.Kinds.{public_newcomer_floor}
use hit_enter.Group.{GroupState, Silence, silence_at, posts_from, newcomer_wait_of, covers}

pub find-holds {ℓ} :
    {A : Type ℓ} (p : A → Bool) (xs : List A)
    → is_some (find p xs) ≡ true
    → (x : A) × Memᴰ x xs × (p x ≡ true)
find-holds p [] h = absurd (ground arith)
find-holds p (x ∷ xs) h = elim (Bool-cases (p x)) [
  | inl e ↦ (x, head refl, e)
  | inr e ↦ let (y, m, k) = find-holds p xs (rw e at h) in (y, tail m, k)
]

pub find-found {ℓ} :
    {A : Type ℓ} (p : A → Bool) (xs : List A) (x : A)
    → Memᴰ x xs
    → p x ≡ true
    → is_some (find p xs) ≡ true
find-found p [] x m k = elim m [ ]
find-found p (y ∷ xs) x (head e) k = let same : p y ≡ true = rw (← e) k in ground arith
find-found p (y ∷ xs) x (tail m) k = ground (arith, find-found p xs x m k)

-- The silences of a person that have begun at `t` are over at `t`.
abbrev pub IsHeard : List Silence → PublicKey → Timestamp → Type 0
IsHeard silences who t =
    (x : Silence)
    → Memᴰ x silences
    → x.who ≡ who
    → x.from ≤ t
    → (u : Timestamp) × (x.until ≡ some u) × (u ≤ t)

-- Who joined by themselves has waited as long as the group asks, and in a public group five minutes at
-- least; a group that is not public may ask nothing.
abbrev pub HasWaited : GroupState → PublicKey → Timestamp → Type 0
HasWaited s who t =
    (at : Timestamp)
    → get who s.joined ≡ some at
    → ((s.public ≡ false) × (s.newcomer_wait ≡ 0))
      ⊎ ((at + s.newcomer_wait ≤ t) × (s.public ≡ true → at + 300 ≤ t))

covers-ended :
    (x : Silence) (end : Option Timestamp) (t : Timestamp)
    → covers (record x { until = end }) t ≡ false
    → x.from ≤ t
    → (u : Timestamp) × (end ≡ some u) × (u ≤ t)
unfolding covers
covers-ended x none t c h = absurd (ground arith)
covers-ended x (some u) t c h = (u, refl, ground arith)

covers_over :
    (x : Silence) (end : Option Timestamp) (t u : Timestamp)
    → covers (record x { until = end }) t ≡ true
    → (x.from ≤ t) × (end ≡ some u → t < u)
unfolding covers
covers_over x none t u c = (ground arith, λ e. absurd (cc e))
covers_over x (some v) t u c = (ground arith, λ e. let same : v ≡ u = cc e in ground arith)

pub heard_iff :
    (s : GroupState) (who : PublicKey) (t : Timestamp)
    → (silence_at s who t ≡ none) ↔ IsHeard s.silences who t
unfolding silence_at
heard_iff s who t = (
  λ h x m theirs begun. elim (Bool-cases (covers x t)) [
    | inl c ↦
        let self = (nat_key.beq_iff x.who who).1 theirs in
        let found =
          find-found (λ x. x.who == who && covers x t) s.silences x m (rw (self, c) refl) in
        absurd (ground arith)
    | inr c ↦ covers-ended x x.until t c begun
  ],
  λ v. elim (Option-cases (silence_at s who t)) [
    | inl e ↦ e
    | inr (y, e) ↦
        let (x, m, k) = find-holds (λ x. x.who == who && covers x t) s.silences (rw e refl) in
        let theirs = (nat_key.beq_iff x.who who).0 (ground arith) in
        let c : covers x t ≡ true = ground arith in
        let begun = (covers_over x x.until t 0 c).0 in
        let (u, over, past) = v x m theirs begun in
        let late = (covers_over x x.until t u c).1 over in absurd (omega arith)
  ],
)

wait_iff :
    (public : Bool) (set at t : ℕ)
    → let wait = if public then max set public_newcomer_floor else set in
      ((if wait == 0 then none else if ltb t (at + wait) then some (at + wait) else none) ≡ none)
      ↔ (((public ≡ false) × (set ≡ 0)) ⊎ ((at + set ≤ t) × (public ≡ true → at + 300 ≤ t)))
wait_iff true set at t = (
  λ h. inr (ground arith, λ e. ground arith),
  λ v. elim v [ inl (e, z) ↦ absurd (cc e) | inr (a, b) ↦ let c = b refl in ground arith ],
)
wait_iff false set at t = (
  λ h. elim (Bool-cases (set == 0)) [
    | inl z ↦ inl (refl, ground arith)
    | inr z ↦ inr (ground arith, λ e. absurd (cc e))
  ],
  λ v. elim v [ inl (e, z) ↦ ground arith | inr (a, b) ↦ ground arith ],
)

pub waited_iff :
    (s : GroupState) (who : PublicKey) (t : Timestamp)
    → (posts_from s who t ≡ none) ↔ HasWaited s who t
unfolding posts_from newcomer_wait_of
waited_iff s who t = elim (Option-cases (get who s.joined)) [
  | inl e ↦ (λ h at k. absurd (cc (e, k)), λ v. rw (posts_from, e) (ground arith))
  | inr (at, e) ↦
      let waits = wait_iff s.public s.newcomer_wait at t in
      (
        λ h a k. let same : at ≡ a = cc (e, k) in rw (← same) (waits.0 (rw (posts_from, e) at h)),
        λ v. rw (posts_from, e) (waits.1 (v at e)),
      )
]
