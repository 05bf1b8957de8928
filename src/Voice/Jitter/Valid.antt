-- ===== src/Voice/Jitter/Valid.antt =====
-- What holds of a jitter buffer of crates/hit-voice/src/jitter.rs between its operations.
use hit_enter.Base.{
  ℕ, ◌+◌, ◌-◌, ◌%◌, ◌^◌, ◌≤◌, ◌<◌, leb, max, true, false, Option, none, some, nat_key, ◌≡◌, refl,
  arith, Bool-cases, inl, inr,
}
use hit_enter.Base.Lists.{length, length-retain-le}
use hit_enter.Base.Maps.{Map, get, insert}
use hit_enter.Voice.Jitter.{
  Bytes, Jitter, new, unwrap, nearer, abs_diff, add32, sub32, push, skip, behind, max_dry, max_held,
  catch_up, passed, newer,
}
use hit_enter.Voice.Jitter.Held.{
  is_within, within_wider, within-insert, within-drop_lowest, within-retain, get-retain_from,
}

-- The least number that may be held.
abbrev pub floor : Option ℕ → ℕ
floor none = 0
floor (some n) = n

-- The packets held rise from the next to play to the newest, no more than MAX_HELD of them; dry
-- ticks are counted up to MAX_DRY, and only once started; the delay is at least one; the newest
-- number is that of a packet, counted from 65536 on, and far enough below the end of a `u32`; and the
-- next to play is not further beyond it than ticks were dry.
pub record IsValid (j : Jitter) : Type 0 where
  pub within : is_within (floor j.next) (floor j.newest) j.held ≡ true
  pub few : length j.held ≤ max_held
  pub dries : j.dry ≤ max_dry
  pub rests : j.next ≡ none → j.dry ≡ 0
  pub delayed : 1 ≤ j.delay
  pub room : floor j.newest + j.delay + 32 ≤ 2 ^ 32
  pub ahead : floor j.next ≤ floor j.newest + 1 + j.dry
  pub begun : (n : ℕ) → j.newest ≡ some n → 65536 ≤ n

pub new-IsValid : (delay : ℕ) → delay + 33 ≤ 2 ^ 32 → IsValid (new delay)
unfolding new is_within
new-IsValid delay h = record {
  within = refl;
  few = omega arith;
  dries = omega arith;
  rests = λ e. refl;
  delayed = omega arith;
  room = omega arith;
  ahead = omega arith;
  begun = λ n e. absurd (cc e);
}

not_passed-floor : (o : Option ℕ) (s : ℕ) → passed o s ≡ false → floor o ≤ s
not_passed-floor none s h = omega arith
not_passed-floor (some n) s h = ground arith

pub add32_lem : (a b : ℕ) → a + b < 2 ^ 32 → add32 a b ≡ a + b
unfolding add32
add32_lem a b h = omega arith

pub sub32_lem : (a b : ℕ) → a < 2 ^ 32 → b ≤ a → sub32 a b ≡ a - b
unfolding sub32
sub32_lem a b h k = omega arith

-- The nearest of three numbers is not further beyond `n` than the second and the third allow.
nearer_lem :
    (n a b c : ℕ)
    → b ≤ n + 65535
    → n < b + 65536
    → a + 65536 ≡ b
    → b + 65536 ≡ c
    → nearer n (nearer n a b) c ≤ n + 32768
unfolding nearer abs_diff
nearer_lem n a b c low high last next = ground arith

newer-bounds : (o : Option ℕ) (s : ℕ) → (s ≤ newer o s) × (floor o ≤ newer o s)
newer-bounds none s = omega arith
newer-bounds (some n) s = omega arith

push-begun :
    (j : Jitter) (newest : Option ℕ) (seq : ℕ)
    → ((n : ℕ) → newest ≡ some n → 65536 ≤ n)
    → (n : ℕ) → some (newer newest (unwrap (record j { newest = newest }) seq)) ≡ some n
    → 65536 ≤ n
unfolding unwrap
push-begun j none seq h n e = let same : seq + 65536 ≡ n = cc e in omega arith
push-begun j (some m) seq h n e =
    let same : max m (unwrap (record j { newest = some m }) seq) ≡ n = cc e in
    omega (arith, h m refl)

-- The highest number that a buffer may have seen, if it has seen any.
abbrev pub top : Jitter → ℕ
top j = max 131071 (floor j.newest)

-- A packet's number is at most 32768 beyond the newest.
unwrap-top :
    (j : Jitter) (newest : Option ℕ) (seq : ℕ)
    → seq < 65536
    → ((n : ℕ) → newest ≡ some n → 65536 ≤ n)
    → top (record j { newest = newest }) + 131072 ≤ 2 ^ 32
    → newer newest (unwrap (record j { newest = newest }) seq)
      ≤ top (record j { newest = newest }) + 32768
unfolding unwrap
unwrap-top j none seq h begun room = omega arith
unwrap-top j (some n) seq h begun room =
    let base = n - n % 65536 in
    let mid = add32_lem base seq (omega arith) in
    let high = add32_lem base 65536 (omega arith) in
    let sum = add32_lem (base + 65536) seq (omega arith) in
    let started = begun n refl in
    let low = sub32_lem base 65536 (omega arith) (omega arith) in
    let least = add32_lem (base - 65536) seq (omega arith) in
    let close =
      nearer_lem n (base - 65536 + seq) (base + seq) (base + 65536 + seq) (omega arith)
        (omega arith) (omega arith) (omega arith) in
    rw (low, mid, high, least, sum) (omega (arith, close))

pub push-top :
    (j : Jitter) (seq : ℕ) (p : Bytes)
    → seq < 65536
    → IsValid j
    → top j + 131072 ≤ 2 ^ 32
    → (top (push j seq p) ≤ top j + 32768) × ((push j seq p).delay ≡ j.delay)
unfolding push
push-top j seq p h v room = elim (Bool-cases (passed j.next (unwrap j seq))) [
  | inl e ↦ rw e (omega arith, refl)
  | inr e ↦ rw e (omega (arith, unwrap-top j j.newest seq h v.begun room), refl)
]

pub push-IsValid :
    (j : Jitter) (seq : ℕ) (p : Bytes)
    → seq < 65536
    → top j + j.delay + 32768 + 131072 ≤ 2 ^ 32
    → IsValid j
    → IsValid (push j seq p)
unfolding push
push-IsValid j seq p small far v =
    let s = unwrap j seq in
    elim (Bool-cases (passed j.next s)) [
      | inl e ↦ rw e v
      | inr e ↦
          let above = newer-bounds j.newest s in
          let wide =
            within_wider (floor j.next) (floor j.next) (floor j.newest) (newer j.newest s) j.held
              (omega arith) above.1 v.within in
          let put =
            within-insert (floor j.next) (newer j.newest s) s p j.held (not_passed-floor j.next s e)
              above.0 wide in
          let kept = within-drop_lowest (floor j.next) (newer j.newest s) (insert s p j.held) put in
          rw e (record {
            within = kept.0;
            few = kept.1;
            dries = v.dries;
            rests = v.rests;
            delayed = v.delayed;
            room = omega (arith, unwrap-top j j.newest seq small v.begun (omega arith));
            ahead = omega (arith, v.ahead);
            begun = push-begun j j.newest seq v.begun;
          })
    ]

-- What `skip` gives: where to play from, near enough to the newest, and what is held from there on.
pub record IsSkip (j : Jitter) (next : ℕ) (r : ℕ × Map ℕ Bytes) : Type 0 where
  pub forward : next ≤ r.0
  pub near : floor j.newest + 1 ≤ r.0 + j.delay + catch_up
  pub above : is_within r.0 (floor j.newest) r.1 ≡ true
  pub fewer : length r.1 ≤ max_held
  pub same : (s : ℕ) → r.0 ≤ s → get s r.1 ≡ get s j.held
  pub short : r.0 ≤ floor j.newest + 1 + j.dry

skip_newest :
    (j : Jitter) (newest : Option ℕ) (next : ℕ)
    → is_within next (floor newest) j.held ≡ true
    → length j.held ≤ max_held
    → 1 ≤ j.delay
    → floor newest + j.delay + 32 ≤ 2 ^ 32
    → j.dry ≤ max_dry
    → next ≤ floor newest + 1 + j.dry
    → IsSkip (record j { newest = newest }) next (skip (record j { newest = newest }) next)
unfolding skip behind
skip_newest j none next w few d f y a = record {
  forward = omega arith;
  near = omega arith;
  above = w;
  fewer = few;
  same = λ s h. refl;
  short = a;
}
skip_newest j (some n) next w few d f y a = elim (Bool-cases (behind j n next)) [
  | inl b ↦
      let one = add32_lem n 1 (omega arith) in
      let sum = add32_lem next ((j.delay + catch_up) % 2 ^ 32) (omega arith) in
      let late : next + j.delay + catch_up < n + 1 = ground arith in
      let to = sub32 (add32 n 1) (j.delay % 2 ^ 32) in
      let there : to ≡ n + 1 - j.delay =
        rw one (omega (arith, sub32_lem (n + 1) (j.delay % 2 ^ 32) (omega arith) (omega arith))) in
      let rest = within-retain next n to j.held w in
      rw b (record {
        forward = omega arith;
        near = omega arith;
        above = rest.0;
        fewer = omega (arith, length-retain-le (λ e. leb to e.0) j.held);
        same = λ s h. get-retain_from to s j.held h;
        short = omega arith;
      })
  | inr b ↦ rw b (record {
    forward = omega arith;
    near =
        let one = add32_lem n 1 (omega arith) in
        let sum = add32_lem next ((j.delay + catch_up) % 2 ^ 32) (omega arith) in ground arith;
    above = w;
    fewer = few;
    same = λ s h. refl;
    short = a;
  })
]

pub skip_lem :
    (j : Jitter) (next : ℕ)
    → is_within next (floor j.newest) j.held ≡ true
    → length j.held ≤ max_held
    → 1 ≤ j.delay
    → floor j.newest + j.delay + 32 ≤ 2 ^ 32
    → j.dry ≤ max_dry
    → next ≤ floor j.newest + 1 + j.dry
    → IsSkip j next (skip j next)
skip_lem j next = skip_newest j j.newest next
