-- ===== src/Voice/Jitter/Turns.antt =====
-- What one tick of crates/hit-voice/src/jitter.rs plays, and that it keeps the buffer valid.
use hit_enter.Base.{
  ℕ, ◌+◌, ◌^◌, ◌≤◌, ◌<◌, ltb, true, ◌&&◌, ◌||◌, not, [], ◌∷◌, Option, none, some, ◌==◌, nat_key,
  ◌≡◌, refl, ap, arith, Bool-cases, Option-cases, inl, inr, ◌⊎◌,
}
use hit_enter.Base.Lists.{length, length-retain-le}
use hit_enter.Base.Maps.{Map, get, remove}
use hit_enter.Voice.Jitter.{
  Bytes, Jitter, Slot, waiting, play, recover, conceal, pop, pop_from, skip, turn, starve, add32,
  max_dry, max_held, catch_up, first_key, is_nothing,
}
use hit_enter.Voice.Jitter.Held.{
  is_within, within_wider, within-remove_first, within-absent, get_above,
}
use hit_enter.Voice.Jitter.Valid.{IsValid, IsSkip, floor, skip_lem, add32_lem}

-- What a tick that takes `j` to `after` may give, and when.
pub data IsTurn (j after : Jitter) : Slot → Type 0 where
  waits : after.next ≡ none → IsTurn j after waiting
  plays :
      (s : ℕ) (p : Bytes)
      → floor j.next ≤ s
      → floor j.newest + 1 ≤ s + j.delay + catch_up
      → after.next ≡ some (s + 1)
      → get s j.held ≡ some p
      → IsTurn j after (play p)
  recovers :
      (s : ℕ) (p : Bytes)
      → floor j.next ≤ s
      → after.next ≡ some (s + 1)
      → get s j.held ≡ none
      → get (s + 1) j.held ≡ some p
      → IsTurn j after (recover p)
  conceals :
      (s : ℕ)
      → floor j.next ≤ s
      → after.next ≡ some (s + 1)
      → get s j.held ≡ none
      → get (s + 1) j.held ≡ none
      → IsTurn j after conceal

starve-IsTurn :
    (j : Jitter) (held : Map ℕ Bytes) (s : ℕ)
    → floor j.next ≤ s
    → get s j.held ≡ none
    → get (s + 1) held ≡ get (s + 1) j.held
    → s + 1 < 2 ^ 32
    → let r = starve (record j { held = held; next = some (add32 s 1) }) s in IsTurn j r.0 r.1
unfolding starve
starve-IsTurn j held s low absent same small =
    let next = add32_lem s 1 small in
    elim (Bool-cases (ltb max_dry (j.dry + 1) || (is_nothing held && ltb 2 (j.dry + 1)))) [
      | inl e ↦ rw e (waits refl)
      | inr e ↦ elim (Option-cases (get (add32 s 1) held)) [
        | inl g ↦ rw (e, g) (conceals s low (ap some next) absent (rw (← same, ← next) g))
        | inr (p, g) ↦ rw (e, g) (recovers s p low (ap some next) absent (rw (← same, ← next) g))
      ]
    ]

turn-IsTurn :
    (j : Jitter) (held : Map ℕ Bytes) (s : ℕ)
    → IsSkip j (floor j.next) (s, held)
    → s + 1 < 2 ^ 32
    → let r = turn (record j { held = held; next = some (add32 s 1) }) s in IsTurn j r.0 r.1
unfolding turn
turn-IsTurn j held s k small = elim (Option-cases (get s held)) [
  | inl g ↦
      rw (turn, g)
        (starve-IsTurn j held s k.forward (rw (← k.same s (omega arith)) g)
          (k.same (s + 1) (omega arith)) small)
  | inr (p, g) ↦
      rw (turn, g)
        (plays s p k.forward k.near (ap some (add32_lem s 1 small))
          (rw (← k.same s (omega arith)) g))
]

starve-IsValid :
    (j : Jitter) (s : ℕ)
    → is_within (s + 1) (floor j.newest) j.held ≡ true
    → length j.held ≤ max_held
    → j.dry ≤ max_dry
    → 1 ≤ j.delay
    → floor j.newest + j.delay + 32 ≤ 2 ^ 32
    → s ≤ floor j.newest + 1 + j.dry
    → ((n : ℕ) → j.newest ≡ some n → 65536 ≤ n)
    → IsValid (starve (record j { next = some (add32 s 1) }) s).0
unfolding starve
starve-IsValid j s w few dries d f a b =
    let next = add32_lem s 1 (omega arith) in
    elim (Bool-cases (ltb max_dry (j.dry + 1) || (is_nothing j.held && ltb 2 (j.dry + 1)))) [
      | inl e ↦ rw e (record {
        within =
            within_wider (s + 1) 0 (floor j.newest) (floor j.newest) j.held (omega arith)
              (omega arith) w;
        few = few;
        dries = omega arith;
        rests = λ n. refl;
        delayed = d;
        room = f;
        ahead = omega arith;
        begun = b;
      })
      | inr e ↦ rw e (record {
        within = rw next w;
        few = few;
        dries = ground arith;
        rests = λ n. absurd (cc n);
        delayed = d;
        room = f;
        ahead = omega arith;
        begun = b;
      })
    ]

turn-IsValid :
    (j : Jitter) (s : ℕ) (held : Map ℕ Bytes)
    → is_within s (floor j.newest) held ≡ true
    → length held ≤ max_held
    → j.dry ≤ max_dry
    → 1 ≤ j.delay
    → floor j.newest + j.delay + 32 ≤ 2 ^ 32
    → s ≤ floor j.newest + 1 + j.dry
    → ((n : ℕ) → j.newest ≡ some n → 65536 ≤ n)
    → IsValid (turn (record j { held = held; next = some (add32 s 1) }) s).0
unfolding turn remove
turn-IsValid j s held w few dries d f a b = elim (Option-cases (get s held)) [
  | inl g ↦
      rw (turn, g)
        (starve-IsValid (record j { held = held }) s (within-absent (floor j.newest) s held g w) few
          dries d f a b)
  | inr (p, g) ↦
      rw (turn, g)
        (record {
          within = rw (add32_lem s 1 (omega arith)) (within-remove_first (floor j.newest) s held w);
          few = omega (arith, length-retain-le (λ e. not (e.0 == s)) held);
          dries = omega arith;
          rests = λ n. absurd (cc n);
          delayed = d;
          room = f;
          ahead =
              let most = get_above s (floor j.newest) s p held g w in
              let next = add32_lem s 1 (omega arith) in omega arith;
          begun = b;
        })
]

-- The first of the numbers held is not below any bound of theirs.
within_first :
    (lo hi : ℕ) (m : Map ℕ Bytes) → is_within lo hi m ≡ true → is_within (first_key m) hi m ≡ true
unfolding is_within
within_first lo hi [] h = refl
within_first lo hi (e ∷ m) h = ground arith

first_key-le :
    (lo hi : ℕ) (m : Map ℕ Bytes) → is_within lo hi m ≡ true → 1 ≤ length m → first_key m ≤ hi
unfolding is_within
first_key-le lo hi [] h k = absurd (omega arith)
first_key-le lo hi (e ∷ m) h k = ground arith

pop_from-IsValid :
    (j : Jitter) (next : ℕ)
    → is_within next (floor j.newest) j.held ≡ true
    → next ≤ floor j.newest + 1 + j.dry
    → IsValid j
    → IsValid (pop_from j next).0
unfolding pop_from
pop_from-IsValid j next w a v =
    let k = skip_lem j next w v.few v.delayed v.room v.dries a in
    turn-IsValid j (skip j next).0 (skip j next).1 k.above k.fewer v.dries v.delayed v.room k.short
      v.begun

-- A tick waits and changes nothing, or plays from a number on.
abbrev pub IsFrom : Jitter → Type 0
IsFrom j =
    ((j.next ≡ none) × (pop j ≡ (j, waiting)))
    ⊎ ((n : ℕ) × (pop j ≡ pop_from j n)
        × (floor j.next ≤ n)
        × (is_within n (floor j.newest) j.held ≡ true)
        × (n ≤ floor j.newest + 1 + j.dry))

pop_next-cases :
    (j : Jitter) (next : Option ℕ)
    → is_within (floor next) (floor j.newest) j.held ≡ true
    → 1 ≤ j.delay
    → floor next ≤ floor j.newest + 1 + j.dry
    → IsFrom (record j { next = next })
unfolding pop pop_from skip
pop_next-cases j none w d a = elim (Bool-cases (ltb (length j.held) j.delay)) [
  | inl b ↦ inl (refl, rw b refl)
  | inr b ↦
      let low = first_key-le 0 (floor j.newest) j.held w (ground arith) in
      inr (
        first_key j.held,
        rw b refl,
        omega arith,
        within_first 0 (floor j.newest) j.held w,
        omega arith,
      )
]
pop_next-cases j (some n) w d a = inr (n, refl, omega arith, w, a)

pop-cases : (j : Jitter) → IsValid j → IsFrom j
pop-cases j v = pop_next-cases j j.next v.within v.delayed v.ahead

pub pop-IsValid : (j : Jitter) → IsValid j → IsValid (pop j).0
pop-IsValid j v = elim (pop-cases j v) [
  | inl (e, r) ↦ rw r v
  | inr (n, r, low, w, a) ↦ rw r (pop_from-IsValid j n w a v)
]

pop_from-IsTurn :
    (j : Jitter) (next : ℕ)
    → floor j.next ≤ next
    → is_within next (floor j.newest) j.held ≡ true
    → next ≤ floor j.newest + 1 + j.dry
    → IsValid j
    → IsTurn j (pop_from j next).0 (pop_from j next).1
unfolding pop_from
pop_from-IsTurn j next low w a v =
    let k = skip_lem j next w v.few v.delayed v.room v.dries a in
    turn-IsTurn j (skip j next).1 (skip j next).0
      (record {
        forward = omega (arith, k.forward);
        near = k.near;
        above = k.above;
        fewer = k.fewer;
        same = k.same;
        short = k.short;
      })
      (omega (arith, k.short, v.room, v.dries))

-- In a valid buffer a tick that plays a packet plays the one held at a number not passed before, at
-- most `delay` and CATCH_UP behind the newest, and goes on to the next number; it recovers a packet
-- only when it is not held and the next one is, and conceals one when neither is; and it waits only
-- when it starts over or has not started.
pub pop-IsTurn : (j : Jitter) → IsValid j → IsTurn j (pop j).0 (pop j).1
pop-IsTurn j v = elim (pop-cases j v) [
  | inl (e, r) ↦ rw r (waits e)
  | inr (n, r, low, w, a) ↦ rw r (pop_from-IsTurn j n low w a v)
]
