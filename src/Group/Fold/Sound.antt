-- ===== src/Group/Fold/Sound.antt =====
-- Soundness along the fold of crates/hit-group/src/state.rs.
use hit_enter.Base.{
  ℕ, zero, suc, ◌++◌, ◌||◌, some, List, [], ◌∷◌, ◌==◌, nat_key, text_key, ◌≡◌, arith, Bool-cases,
  Option-cases, Result-cases, inl, inr,
}
use hit_enter.Base.Lists.{retain, length}
use hit_enter.Base.Maps.{add}
use hit_enter.Event.{Event, Nostr, PublicKey}
use hit_enter.Group.{GroupState}
use hit_enter.Group.Soundness.{IsSound}
use hit_enter.Group.Execute.{apply}
use hit_enter.Group.Execute.Whole.{apply-IsSound}
use hit_enter.Group.Fold.{
  start, pass, rounds, apply_second, run_live, ends_second, fold_group, sort, gathered, is_live,
}
use hit_enter.Group.Fold.Loaded.{start-IsSound}

pass-IsSound :
    (n : Nostr) (s : GroupState) (pending : List Event) → IsSound s → IsSound (pass n s pending).0
unfolding pass
pass-IsSound n s [] h = h
pass-IsSound n s (ev ∷ evs) h = elim (Result-cases ((apply n s ev).1)) [
  | inl (done, e) ↦
      let after = (apply n s ev).0 in
      rw (pass, e)
        (pass-IsSound n (record after { applied = add ev.id after.applied }) evs
          (apply-IsSound n s ev h))
  | inr (x, e) ↦ rw (pass, e) (pass-IsSound n (apply n s ev).0 evs (apply-IsSound n s ev h))
]

rounds-IsSound :
    (n : Nostr) (fuel : ℕ) (s : GroupState) (pending : List Event)
    → IsSound s
    → IsSound (rounds n fuel s pending).0
unfolding rounds
rounds-IsSound n zero s pending h = h
rounds-IsSound n (suc fuel) s pending h =
    let round = pass n s pending in
    let sound = pass-IsSound n s pending h in
    elim (Bool-cases (length round.1 == length pending || length round.1 == 0)) [
      | inl done ↦ rw (rounds, done) sound
      | inr more ↦ rw (rounds, more) (rounds-IsSound n fuel round.0 round.1 sound)
    ]

run_live-IsSound :
    (n : Nostr) (s : GroupState) (second evs : List Event)
    → IsSound s
    → IsSound (run_live n s second evs)
unfolding run_live apply_second
run_live-IsSound n s second [] h = rounds-IsSound n (length second) s second h
run_live-IsSound n s second (ev ∷ evs) h = elim (Bool-cases (ends_second second ev)) [
  | inl over ↦
      rw (run_live, over)
        (run_live-IsSound n (apply_second n s second) (ev ∷ []) evs
          (rounds-IsSound n (length second) s second h))
  | inr open_yet ↦ rw (run_live, open_yet) (run_live-IsSound n s (second ++ ev ∷ []) evs h)
]

-- Whatever events a group is folded from, the state that comes out is sound.
pub fold_group-IsSound :
    (n : Nostr) (group : PublicKey) (events : List Event) {s : GroupState}
    → fold_group n group events ≡ some s
    → IsSound s
unfolding fold_group
fold_group-IsSound n group events {s} e =
    let g = gathered n group events in
    elim (Option-cases (start n group g)) [
      | inl missing ↦ absurd (ground arith)
      | inr (t, started) ↦
          let live = retain (is_live t.cutoff) (sort g.actions) in
          let same : run_live n t [] live ≡ s = ground arith in
          rw (← same) (run_live-IsSound n t [] live (start-IsSound n group g t started))
    ]
