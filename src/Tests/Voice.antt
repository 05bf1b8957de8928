-- ===== src/Tests/Voice.antt =====
-- A call's packets, for crates/hit-voice/src/jitter.rs and crates/hit-voice/src/wire.rs.
use hit_enter.Base.{◌%◌, ◌^◌, ◌-◌, true, List, [], ◌∷◌, some, ◌≡◌, refl, arith}
use hit_enter.Base.Lists.{any}
use hit_enter.Base.Maps.{get, insert, remove}
use hit_enter.Voice.Jitter.{
  Jitter, play, recover, conceal, new, push, pop, pop_from, skip, behind, turn, starve, unwrap,
  nearer, abs_diff, add32, sub32, drop_lowest,
}
use hit_enter.Voice.Jitter.Held.{is_within}
use hit_enter.Voice.Jitter.Valid.{IsValid}
use hit_enter.Voice.Jitter.Turns.{IsTurn, pop-IsTurn}
use hit_enter.Voice.Jitter.Unwrap.{unwrap_near}
use hit_enter.Voice.Jitter.Runs.{Op, arrive, tick, run, run-IsValid, run_settles, is_settled}
use hit_enter.Voice.Wire.{Packet, encode}

-- Two packets in the wrong order, a gap, and one packet after it.
abbrev speech : List Op
speech =
    arrive 65535 (7 ∷ [])
    ∷ arrive 65534 (6 ∷ [])
    ∷ tick
    ∷ tick
    ∷ arrive 1 (9 ∷ [])
    ∷ tick
    ∷ tick
    ∷ tick
    ∷ []

speech_played :
    (run (new 2) speech).1
    ≡ play (6 ∷ []) ∷ play (7 ∷ []) ∷ recover (9 ∷ []) ∷ play (9 ∷ []) ∷ conceal ∷ []
unfolding run push pop pop_from skip behind turn starve unwrap nearer abs_diff add32 sub32
    drop_lowest new insert get remove
speech_played = refl

run-IsValid_example : IsValid (run (new 2) speech).0
run-IsValid_example = run-IsValid 2 speech refl (omega arith)

-- A buffer far behind: it skips from 65540 to 65551.
abbrev late : Jitter
late = record {
  delay = 3;
  held = (65541, 1 ∷ []) ∷ (65551, 2 ∷ []) ∷ (65553, 3 ∷ []) ∷ [];
  next = some 65540;
  newest = some 65553;
  dry = 0;
}

late-IsValid : IsValid late
unfolding is_within
late-IsValid = record {
  within = refl;
  few = omega arith;
  dries = omega arith;
  rests = λ e. refl;
  delayed = omega arith;
  room = omega arith;
  ahead = omega arith;
  begun = λ n e. let same : 65553 ≡ n = cc e in omega arith;
}

late_played : (pop late).1 ≡ play (2 ∷ [])
unfolding pop pop_from skip behind turn add32 sub32 get
late_played = refl

pop-IsTurn_example : IsTurn late (pop late).0 (pop late).1
pop-IsTurn_example = pop-IsTurn late late-IsValid

-- At the end of a `u32` the next number is 0.
last_wraps :
    (pop (record late {
      held = (2 ^ 32 - 1, 4 ∷ []) ∷ [];
      next = some (2 ^ 32 - 1);
      newest = some (2 ^ 32 - 1);
    })).0.next
    ≡ some 0
unfolding pop pop_from skip behind turn add32 sub32 get
last_wraps = refl

abbrev quiet : List Op
quiet =
    tick
    ∷ tick
    ∷ tick
    ∷ tick
    ∷ tick
    ∷ arrive 20 (4 ∷ [])
    ∷ tick
    ∷ tick
    ∷ tick
    ∷ tick
    ∷ tick
    ∷ tick
    ∷ []

run_settles_example : any is_settled (run late quiet).1 ≡ true
run_settles_example = run_settles late quiet (omega arith) (omega arith)

unwrap_near_example : unwrap late (65530 % 65536) ≡ 65530
unwrap_near_example =
    unwrap_near late 65553 65530 refl (omega arith) (omega arith) (omega arith) (omega arith)

abbrev sample : Packet
sample = record { seq = 258; speaking = true; opus = 5 ∷ 6 ∷ [] }

sample_sent : encode sample ≡ 1 ∷ 1 ∷ 2 ∷ 1 ∷ 5 ∷ 6 ∷ []
unfolding encode
sample_sent = refl
