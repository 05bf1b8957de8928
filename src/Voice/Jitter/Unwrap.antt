-- ===== src/Voice/Jitter/Unwrap.antt =====
-- The numbers of crates/hit-voice/src/jitter.rs, unwrapped.
use hit_enter.Base.{ℕ, ◌+◌, ◌-◌, ◌%◌, ◌^◌, ◌≤◌, ◌<◌, some, none, Option, ◌≡◌, arith}
use hit_enter.Voice.Jitter.Valid.{add32_lem, sub32_lem}
use hit_enter.Voice.Jitter.{Jitter, unwrap, nearer}

nearest_lem :
    (n seq base : ℕ)
    → seq < 65536
    → base ≤ n
    → n < base + 65536
    → 65536 ≤ base
    → let s = nearer n (nearer n (base - 65536 + seq) (base + seq)) (base + 65536 + seq) in
      (s % 65536 ≡ (base + seq) % 65536) × (s ≤ n + 32768) × (n ≤ s + 32768)
unfolding nearer
nearest_lem n seq base h below above started = ground arith

unwrap_newest :
    (j : Jitter) (n t : ℕ)
    → 65536 ≤ n
    → n + 131072 ≤ 2 ^ 32
    → t < n + 32768
    → n < t + 32768
    → unwrap (record j { newest = some n }) (t % 65536) ≡ t
unfolding unwrap
unwrap_newest j n t begun small above below =
    let base = n - n % 65536 in
    let near =
      nearest_lem n (t % 65536) base (omega arith) (omega arith) (omega arith) (omega arith) in
    let seq = t % 65536 in
    let low = sub32_lem base 65536 (omega arith) (omega arith) in
    let least = add32_lem (base - 65536) seq (omega arith) in
    let mid = add32_lem base seq (omega arith) in
    let high = add32_lem base 65536 (omega arith) in
    let sum = add32_lem (base + 65536) seq (omega arith) in
    rw (low, least, mid, high, sum) (omega (arith, near))

unwrap_option :
    (j : Jitter) (newest : Option ℕ) (n t : ℕ)
    → newest ≡ some n
    → 65536 ≤ n
    → n + 131072 ≤ 2 ^ 32
    → t < n + 32768
    → n < t + 32768
    → unwrap (record j { newest = newest }) (t % 65536) ≡ t
unwrap_option j none n t e = absurd (cc e)
unwrap_option j (some m) n t e = let same : m ≡ n = cc e in rw same (unwrap_newest j n t)

-- A number that is less than 32768 away from the newest one is known from its low 16 bits, as long as
-- the newest one is at least 65536, where counting begins, and 131072 below the end of a `u32`.
pub unwrap_near :
    (j : Jitter) (n t : ℕ)
    → j.newest ≡ some n
    → 65536 ≤ n
    → n + 131072 ≤ 2 ^ 32
    → t < n + 32768
    → n < t + 32768
    → unwrap j (t % 65536) ≡ t
unwrap_near j n t = unwrap_option j j.newest n t
