-- ===== src/Voice/Jitter/Runs.antt =====
-- Runs of the buffer of crates/hit-voice/src/jitter.rs: packets that arrive and ticks, in any order.
use hit_enter.Base.{
  ℕ, ◌<◌, ◌^◌, ltb, Bool, true, false, ◌&&◌, ◌||◌, List, [], ◌∷◌, some, none, Option, ◌+◌, ◌*◌, ◌≤◌,
  ◌≡◌, refl, ap, max, arith, Bool-cases, Option-cases, inl, inr, ◌⊎◌, nat_key,
}
use hit_enter.Base.Lists.{any, length}
use hit_enter.Base.Maps.{get}
use hit_enter.Voice.Jitter.{
  Bytes, Jitter, Slot, waiting, play, recover, conceal, new, push, pop, pop_from, skip, turn,
  starve, max_dry, is_nothing, add32, first_key,
}
use hit_enter.Voice.Jitter.Valid.{IsValid, new-IsValid, push-IsValid, push-top, top, floor}
use hit_enter.Voice.Jitter.Turns.{pop-IsValid}

pub data Op : Type 0 where
  arrive : ℕ → Bytes → Op
  tick : Op

-- The buffer after a run, and what its ticks played.
unfoldable pub run : Jitter → List Op → Jitter × List Slot
run j [] = (j, [])
run j (arrive seq p ∷ ops) = run (push j seq p) ops
run j (tick ∷ ops) =
    let (after, slot) = pop j in let (last, slots) = run after ops in (last, slot ∷ slots)

abbrev pub ticks_in : List Op → ℕ
ticks_in [] = 0
ticks_in (arrive seq p ∷ ops) = ticks_in ops
ticks_in (tick ∷ ops) = ticks_in ops + 1

-- The numbers that arrive are of 16 bits.
abbrev pub are_u16 : List Op → Bool
are_u16 [] = true
are_u16 (arrive seq p ∷ ops) = ltb seq 65536 && are_u16 ops
are_u16 (tick ∷ ops) = are_u16 ops

abbrev pub arrivals_in : List Op → ℕ
arrivals_in [] = 0
arrivals_in (arrive seq p ∷ ops) = arrivals_in ops + 1
arrivals_in (tick ∷ ops) = arrivals_in ops

pop_from-top :
    (j : Jitter) (next : ℕ)
    → ((pop_from j next).0.newest ≡ j.newest) × ((pop_from j next).0.delay ≡ j.delay)
unfolding pop_from turn starve
pop_from-top j next = elim (Option-cases (get (skip j next).0 (skip j next).1)) [
  | inl e ↦ rw (pop_from, turn, e) (ground arith, ground arith)
  | inr (p, e) ↦ rw (pop_from, turn, e) (refl, refl)
]

pop_next-top :
    (j : Jitter) (next : Option ℕ)
    → let r = (pop (record j { next = next })).0 in (r.newest ≡ j.newest) × (r.delay ≡ j.delay)
unfolding pop
pop_next-top j (some n) = pop_from-top (record j { next = some n }) n
pop_next-top j none = elim (Bool-cases (ltb (length j.held) j.delay)) [
  | inl b ↦ rw b (refl, refl)
  | inr b ↦ rw b (pop_from-top (record j { next = some (first_key j.held) }) (first_key j.held))
]

pop-top : (j : Jitter) → (top (pop j).0 ≡ top j) × ((pop j).0.delay ≡ j.delay)
pop-top j =
    let (same, still) = pop_next-top j j.next in (ap (λ o. max 131071 (floor o)) same, still)

run_from-IsValid :
    (ops : List Op) (j : Jitter)
    → are_u16 ops ≡ true
    → top j + 32768 * arrivals_in ops + j.delay + 131072 ≤ 2 ^ 32
    → IsValid j
    → IsValid (run j ops).0
unfolding run
run_from-IsValid [] j u h v = v
run_from-IsValid (arrive seq p ∷ ops) j u h v =
    let small : seq < 65536 = ground arith in
    let (up, still) = push-top j seq p small v (omega arith) in
    run_from-IsValid ops (push j seq p) (ground arith) (omega (arith, up, still))
      (push-IsValid j seq p small (omega arith) v)
run_from-IsValid (tick ∷ ops) j u h v =
    run_from-IsValid ops (pop j).0 u (omega (arith, pop-top j)) (pop-IsValid j v)

-- Whatever arrives and however often the buffer ticks, from a new one on it is valid: the packets
-- held rise from the next number to play to the newest seen, they are at most MAX_HELD, at most MAX_DRY
-- ticks are counted as dry, and the newest number leaves room for the delay below the end of a `u32`;
-- as long as the packets that arrived are few enough, each with a number of 16 bits, for their number times 32768, the delay and 2 ^ 18 to
-- fit in a `u32`.
pub run-IsValid :
    (delay : ℕ) (ops : List Op)
    → are_u16 ops ≡ true
    → 32768 * arrivals_in ops + delay + 2 ^ 18 ≤ 2 ^ 32
    → IsValid (run (new delay) ops).0
unfolding new
run-IsValid delay ops u h =
    run_from-IsValid ops (new delay) u (omega arith) (new-IsValid delay (omega arith))

-- A tick that plays a packet or waits, rather than making up sound.
abbrev pub is_settled : Slot → Bool
is_settled waiting = true
is_settled (play p) = true
is_settled (recover p) = false
is_settled conceal = false

push_dry : (j : Jitter) (seq : ℕ) (p : Bytes) → (push j seq p).dry ≡ j.dry
unfolding push
push_dry j seq p = ground arith

starve_dry :
    (j : Jitter) (s : ℕ)
    → (is_settled (starve j s).1 ≡ true)
      ⊎ (((starve j s).0.dry ≡ j.dry + 1) × (j.dry + 1 ≤ max_dry))
unfolding starve
starve_dry j s =
    elim (Bool-cases (ltb max_dry (j.dry + 1) || (is_nothing j.held && ltb 2 (j.dry + 1)))) [
      | inl e ↦ inl (rw e refl)
      | inr e ↦ inr (rw e refl, ground arith)
    ]

pop_from_dry :
    (j : Jitter) (next : ℕ)
    → (is_settled (pop_from j next).1 ≡ true)
      ⊎ (((pop_from j next).0.dry ≡ j.dry + 1) × (j.dry + 1 ≤ max_dry))
unfolding pop_from turn
pop_from_dry j next =
    let (to, held) = skip j next in
    elim (Option-cases (get to held)) [
      | inl e ↦
          rw (pop_from, turn, e)
            (starve_dry (record j { held = held; next = some (add32 to 1) }) to)
      | inr (p, e) ↦ inl (rw (pop_from, turn, e) refl)
    ]

-- A tick waits, or plays from a number on.
pop_next_dry :
    (j : Jitter) (next : Option ℕ)
    → let r = pop (record j { next = next }) in
      (is_settled r.1 ≡ true) ⊎ ((r.0.dry ≡ j.dry + 1) × (j.dry + 1 ≤ max_dry))
unfolding pop
pop_next_dry j (some n) = pop_from_dry (record j { next = some n }) n
pop_next_dry j none = elim (Bool-cases (ltb (length j.held) j.delay)) [
  | inl b ↦ inl (rw b refl)
  | inr b ↦ rw b (pop_from_dry (record j { next = some (first_key j.held) }) (first_key j.held))
]

settles_from :
    (ops : List Op) (j : Jitter)
    → j.dry ≤ max_dry
    → max_dry < ticks_in ops + j.dry
    → any is_settled (run j ops).1 ≡ true
unfolding run
settles_from [] j d h = absurd (omega arith)
settles_from (arrive seq p ∷ ops) j d h =
    settles_from ops (push j seq p) (omega (arith, push_dry j seq p))
      (omega (arith, push_dry j seq p))
settles_from (tick ∷ ops) j d h = elim (pop_next_dry j j.next) [
  | inl e ↦ rw e refl
  | inr (e, few) ↦ ground (arith, settles_from ops (pop j).0 (omega arith) (omega arith))
]

-- Among more than MAX_DRY ticks of a buffer that has counted MAX_DRY dry ones at most, whatever arrives
-- between them, one plays a packet or waits: made-up sound goes on for MAX_DRY ticks at most.
pub run_settles :
    (j : Jitter) (ops : List Op)
    → j.dry ≤ max_dry
    → max_dry < ticks_in ops
    → any is_settled (run j ops).1 ≡ true
run_settles j ops d h = settles_from ops j d (omega arith)
