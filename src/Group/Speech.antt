-- ===== src/Group/Speech.antt =====
-- Who may speak: the silences of crates/hit-group/src/state.rs, before and after somebody is
-- removed.
use hit_enter.Base.{
  ◌≤◌, Bool, true, false, none, List, [], ◌∷◌, ◌++◌, map, ◌<◌, ◌≡◌, refl, ap, arith, ok, nat_key,
  text_key, is_some,
}
use hit_enter.Base.Lists.{find}
use hit_enter.Event.{PublicKey, Timestamp}
use hit_enter.Group.{GroupState, Silence, silence_at}
use hit_enter.Group.Apply.{remove_member, silence, drop_member, ban, let_back_in, end_removal}

find_last {ℓ} :
    {A : Type ℓ} (p : A → Bool) (xs : List A) (y : A)
    → p y ≡ true
    → is_some (find p (xs ++ y ∷ [])) ≡ true
find_last p [] y h = ground arith
find_last p (x ∷ xs) y h = ground (arith, find_last p xs y h)

map_last {ℓ} :
    {A : Type ℓ} (f : A → A) (xs : List A) (y : A) → map f (xs ++ y ∷ []) ≡ map f xs ++ f y ∷ []
map_last f [] y = refl
map_last f (x ∷ xs) y = ap (◌∷◌ (f x)) (map_last f xs y)

-- The span that begins with a removal.
abbrev removal : PublicKey → Timestamp → Silence
removal target at = record { who = target; from = at; until = none; mute = false }

remove-silences :
    (s t : GroupState) (actor : PublicKey) (at : Timestamp) (target : PublicKey) (with_ban : Bool)
    → remove_member s actor at target with_ban ≡ ok t
    → t.silences ≡ s.silences ++ removal target at ∷ []
unfolding remove_member drop_member ban silence
remove-silences s t actor at target with_ban e = ground arith

-- After an applied kick or ban its target is silenced at every time from the removal on; and when
-- they are let back in, they stay silenced at the times between the removal and then.
pub removal-silences :
    (s t : GroupState) (actor : PublicKey) (at : Timestamp) (target : PublicKey) (with_ban : Bool)
    (back now : Timestamp)
    → remove_member s actor at target with_ban ≡ ok t
    → at ≤ now
    → now < back
    → (is_some (silence_at t target now) ≡ true)
      × (is_some (silence_at (let_back_in t target back) target now) ≡ true)
unfolding silence_at let_back_in end_removal
removal-silences s t actor at target with_ban back now e h before =
    let span = remove-silences s t actor at target with_ban e in
    let self = (nat_key.beq_iff target target).1 refl in
    (
      rw span (find_last _ s.silences (removal target at) (ground arith)),
      rw (span, map_last (end_removal target back) s.silences (removal target at))
          (find_last _ (map (end_removal target back) s.silences)
            (end_removal target back (removal target at)) (ground arith)),
    )
