-- ===== src/Group/Fold/Rounds.antt =====
-- The loop of `apply_second`, of crates/hit-group/src/state.rs, and its fuel.
use hit_enter.Base.{
  ℕ, zero, suc, ◌≤◌, true, List, [], ◌∷◌, ◌≡◌, refl, ap, arith, Bool-cases, Result-cases, inl, inr,
  ◌⊎◌, ◌==◌, nat_key,
}
use hit_enter.Base.Lists.{length}
use hit_enter.Base.Maps.{add}
use hit_enter.Event.{Event, Nostr}
use hit_enter.Group.{GroupState}
use hit_enter.Group.Execute.{apply}
use hit_enter.Group.Fold.{pass, rounds}

-- What a pass leaves is a part of what was pending, and all of it if nothing was applied.
pass_left :
    (n : Nostr) (s : GroupState) (pending : List Event)
    → (length (pass n s pending).1 ≤ length pending)
      × (length (pass n s pending).1 ≡ length pending → (pass n s pending).1 ≡ pending)
unfolding pass
pass_left n s [] = (omega arith, λ e. refl)
pass_left n s (ev ∷ evs) = elim (Result-cases ((apply n s ev).1)) [
  | inl (done, e) ↦
      let after = (apply n s ev).0 in
      let (fewer, _) = pass_left n (record after { applied = add ev.id after.applied }) evs in
      rw (pass, e) (omega arith, λ same. absurd (omega arith))
  | inr (x, e) ↦
      let (fewer, all_left) = pass_left n (apply n s ev).0 evs in
      rw (pass, e) (omega arith, λ same. ap (◌∷◌ ev) (all_left (omega arith)))
]

no_elements : (l : List Event) → (length l == 0) ≡ true → l ≡ []
no_elements [] h = refl
no_elements (x ∷ l) h = absurd (ground arith)

-- With as much fuel as there are actions pending, or more, the loop ends by itself: nothing is
-- left, or the last pass went over exactly what is left and applied none of it.
pub rounds_end :
    (n : Nostr) (fuel : ℕ) (s : GroupState) (pending : List Event)
    → length pending ≤ fuel
    → let (t, left) = rounds n fuel s pending in
      (left ≡ []) ⊎ ((u : GroupState) × (pass n u left ≡ (t, left)))
unfolding rounds
rounds_end n zero s [] h = inl refl
rounds_end n zero s (ev ∷ evs) h = absurd (omega arith)
rounds_end n (suc fuel) s pending h =
    let round = pass n s pending in
    let (fewer, all_left) = pass_left n s pending in
    elim (Bool-cases (length round.1 == length pending)) [
      | inl same ↦
          rw (rounds, same)
            (inr (s, ap (λ l. pass n s l) (all_left ((nat_key.beq_iff _ _).0 same))))
      | inr less ↦ elim (Bool-cases (length round.1 == 0)) [
        | inl empty ↦ rw (rounds, less, empty) (inl (no_elements round.1 empty))
        | inr more ↦ rw (rounds, less, more) (rounds_end n fuel round.0 round.1 (ground arith))
      ]
    ]
