-- ===== src/Voice/Jitter.antt =====
-- crates/hit-voice/src/jitter.rs: packets in, in any order and with gaps; one frame out per tick.
-- Numbers are those of a `u32`: every sum wraps at 2 ^ 32, as it does in a release build, where a debug
-- build stops.
pub mod Held
pub mod Valid
pub mod Turns
pub mod Runs
pub mod Unwrap
use hit_enter.Base.{
  ℕ, ◌+◌, ◌-◌, ◌*◌, ◌%◌, ◌^◌, max, ltb, leb, Bool, true, false, ◌&&◌, ◌||◌, not, Option, none, some,
  List, [], ◌∷◌, ◌==◌, nat_key, if◌then◌else◌,
}
use hit_enter.Base.Lists.{length, retain}
use hit_enter.Base.Maps.{Map, get, insert, remove}

-- The bytes of a packet.
abbrev pub Bytes : Type 0
Bytes = List ℕ

-- What to play for one tick.
pub data Slot : Type 0 where
  -- Not started, or starved and starting over.
  waiting : Slot
  play : Bytes → Slot
  -- Lost; rebuilt from the next packet.
  recover : Bytes → Slot
  conceal : Slot

pub record Jitter : Type 0 where
  pub delay : ℕ
  pub held : Map ℕ Bytes
  -- The next number to play, unwrapped; none until started.
  pub next : Option ℕ
  -- The newest number seen, unwrapped.
  pub newest : Option ℕ
  -- Ticks in a row with nothing to play.
  pub dry : ℕ

abbrev pub max_dry : ℕ
max_dry = 10

abbrev pub max_held : ℕ
max_held = 100

abbrev pub catch_up : ℕ
catch_up = 6

unfoldable pub new : ℕ → Jitter
new delay = record { delay = max delay 1; held = []; next = none; newest = none; dry = 0 }

-- `+` and `-` of a `u32`.
unfoldable pub add32 : ℕ → ℕ → ℕ
add32 a b = (a + b) % 2 ^ 32

unfoldable pub sub32 : ℕ → ℕ → ℕ
sub32 a b = (a + 2 ^ 32 - b) % 2 ^ 32

unfoldable pub abs_diff : ℕ → ℕ → ℕ
abs_diff a b = if ltb a b then b - a else a - b

-- One step of `min_by_key`: the first of equals stays.
unfoldable pub nearer : ℕ → ℕ → ℕ → ℕ
unfolding abs_diff
nearer n best c = if ltb (abs_diff c n) (abs_diff best n) then c else best

-- `seq` wraps at 65536; the number of its class that is nearest the newest.
unfoldable pub unwrap : Jitter → ℕ → ℕ
unfolding nearer
unwrap j seq = elim j.newest [
  | none ↦ seq + 65536
  | some n ↦
      let base = n - n % 65536 in
      nearer n (nearer n (add32 (sub32 base 65536) seq) (add32 base seq))
        (add32 (add32 base 65536) seq)
]

-- The loop that drops the lowest numbers.
unfoldable pub drop_lowest : Map ℕ Bytes → Map ℕ Bytes
drop_lowest [] = []
drop_lowest (e ∷ m) = if ltb max_held (length (e ∷ m)) then drop_lowest m else e ∷ m

abbrev passed : Option ℕ → ℕ → Bool
passed none s = false
passed (some n) s = ltb s n

abbrev newer : Option ℕ → ℕ → ℕ
newer none s = s
newer (some n) s = max n s

unfoldable pub push : Jitter → ℕ → Bytes → Jitter
unfolding unwrap drop_lowest
push j seq packet =
    let s = unwrap j seq in
    if passed j.next s
    then j
    else record j { newest = some (newer j.newest s); held = drop_lowest (insert s packet j.held) }

-- Too far behind the newest?
unfoldable pub behind : Jitter → ℕ → ℕ → Bool
behind j newest next = ltb (add32 next ((j.delay + catch_up) % 2 ^ 32)) (add32 newest 1)

-- Where to play from, and what is held from there on.
unfoldable pub skip : Jitter → ℕ → ℕ × Map ℕ Bytes
unfolding behind
skip j next = elim j.newest [
  | none ↦ (next, j.held)
  | some newest ↦
      let to = sub32 (add32 newest 1) (j.delay % 2 ^ 32) in
      if behind j newest next then (to, retain (λ e. leb to e.0) j.held) else (next, j.held)
]

abbrev is_nothing : Map ℕ Bytes → Bool
is_nothing [] = true
is_nothing (e ∷ m) = false

-- The turn of a packet that is not held.
unfoldable pub starve : Jitter → ℕ → Jitter × Slot
starve j next =
    let dry = j.dry + 1 in
    if ltb max_dry dry || (is_nothing j.held && ltb 2 dry)
    then (record j { next = none; dry = 0 }, waiting)
    else (
      record j { dry = dry },
      elim (get (add32 next 1) j.held) [ none ↦ conceal | some p ↦ recover p ],
    )

-- The turn of number `next`, with `j` past it.
unfoldable pub turn : Jitter → ℕ → Jitter × Slot
unfolding starve
turn j next = elim (get next j.held) [
  | some p ↦ (record j { held = remove next j.held; dry = 0 }, play p)
  | none ↦ starve j next
]

-- `pop`, once started.
unfoldable pub pop_from : Jitter → ℕ → Jitter × Slot
unfolding skip turn
pop_from j next =
    let (to, held) = skip j next in turn (record j { held = held; next = some (add32 to 1) }) to

abbrev first_key : Map ℕ Bytes → ℕ
first_key [] = 0
first_key (e ∷ m) = e.0

-- One tick.
unfoldable pub pop : Jitter → Jitter × Slot
unfolding pop_from
pop j = elim j.next [
  | some next ↦ pop_from j next
  | none ↦
      if ltb (length j.held) j.delay
      then (j, waiting)
      else let first = first_key j.held in pop_from (record j { next = some first }) first
]
