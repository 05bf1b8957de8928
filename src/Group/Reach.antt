-- ===== src/Group/Reach.antt =====
-- What a group's state becomes by actions alone, in crates/hit-group/src/state.rs: the fold after its
-- snapshot, as steps.
use hit_enter.Base.{
  true, false, some, List, [], ◌∷◌, nat_key, ◌≡◌, refl, ◌∙◌, arith, ok, bind-ok, Option-cases, inl,
  inr, ◌>>◌,
}
use hit_enter.Base.Maps.{contains_key, add}
use hit_enter.Event.{Event, Nostr, PublicKey, Timestamp}
use hit_enter.Event.Actions
use hit_enter.Event.Actions.{Action, parse_action}
use hit_enter.Event.Edits
use hit_enter.Event.Edits.{Edit}
use hit_enter.Perm.{all}
use hit_enter.Group.{GroupState, base, is_owner, names_key, require_member, outranks}
use hit_enter.Group.Soundness.{IsSound}
use hit_enter.Group.Edit.{
  edit_name, edit_public, edit_newcomer_wait, edit_about, edit_channel, edit_channel_delete,
  edit_override, edit_role, edit_role_delete, edit_one, edit_all,
}
use hit_enter.Group.Apply.Sound.{settled}
use hit_enter.Group.Execute.{apply}
use hit_enter.Group.Execute.Whole.{apply_malformed, apply_parsed, apply-IsSound}
use hit_enter.Group.Apply.{
  silence, let_back_in, put, drop_member, ban, remove_member, unban, mute, set_mute, join, leave,
  perform,
}

-- The states that come of `s`: an action is tried, whether it is applied or refused, or noted as
-- applied.
pub data Reaches (n : Nostr) (s : GroupState) : GroupState → Type 0 where
  unmoved : Reaches n s s
  tried : {t : GroupState} (ev : Event) → Reaches n s t → Reaches n s (apply n t ev).0
  noted :
      {t : GroupState} (ev : Event)
      → Reaches n s t
      → Reaches n s (record t { applied = add ev.id t.applied })

-- The same group, snapshot and owner.
abbrev pub Same : GroupState → GroupState → Type 0
Same s t =
    (t.id ≡ s.id)
    × (t.seq ≡ s.seq)
    × (t.cutoff ≡ s.cutoff)
    × (t.owner ≡ s.owner)
    × (t.named_owner ≡ s.named_owner)

Same-refl : (s : GroupState) → Same s s
Same-refl s = (refl, refl, refl, refl, refl)

Same-trans : (s t u : GroupState) → Same s t → Same t u → Same s u
Same-trans s t u (a, b, c, d, e) (a', b', c', d', e') = (a' ∙ a, b' ∙ b, c' ∙ c, d' ∙ d, e' ∙ e)

edit_one-Same :
    (before s : GroupState) (actor : PublicKey) {t : GroupState} (e : Edit)
    → edit_one before s actor e ≡ ok t
    → Same s t
unfolding edit_one edit_name edit_public edit_newcomer_wait edit_about edit_channel
    edit_channel_delete edit_override edit_role edit_role_delete
edit_one-Same before s actor (Edits.name n) e = ground arith
edit_one-Same before s actor (Edits.public b) e = ground arith
edit_one-Same before s actor (Edits.newcomer_wait w) e = ground arith
edit_one-Same before s actor (Edits.about a) e = ground arith
edit_one-Same before s actor (Edits.channel c) e = ground arith
edit_one-Same before s actor (Edits.channel_delete id) e = ground arith
edit_one-Same before s actor (Edits.override o) e = ground arith
edit_one-Same before s actor (Edits.role r) e = ground arith
edit_one-Same before s actor (Edits.role_delete id) e = ground arith

edit_all-Same :
    (before s t : GroupState) (actor : PublicKey) (es : List Edit)
    → edit_all before s actor es ≡ ok t
    → Same s t
unfolding edit_all
edit_all-Same before s t actor [] h = ground arith
edit_all-Same before s t actor (e ∷ es) h =
    let (next, first, rest) =
      bind-ok (edit_one before s actor e) (λ u. edit_all before u actor es) h in
    Same-trans s next t (edit_one-Same before s actor e first)
      (edit_all-Same before next t actor es rest)

perform-Same :
    (s : GroupState) (actor : PublicKey) (at : Timestamp) (a : Action)
    → Same s (perform s actor at a).0
unfolding perform put let_back_in remove_member drop_member ban silence unban mute set_mute join
    leave
perform-Same s actor at (Actions.put target roles) =
    settled (Same s) s (put s actor at target roles) (λ t e. ground arith) (Same-refl s)
perform-Same s actor at (Actions.remove target with_ban) =
    settled (Same s) s (remove_member s actor at target with_ban) (λ t e. ground arith)
      (Same-refl s)
perform-Same s actor at (Actions.unban target) =
    settled (Same s) s (unban s actor target) (λ t e. ground arith) (Same-refl s)
perform-Same s actor at (Actions.mute target until) = ground arith
perform-Same s actor at (Actions.edit edits) =
    settled (Same s) s (require_member s actor >> edit_all s s actor edits)
      (λ t e.
        edit_all-Same s s t actor edits
          ((bind-ok (require_member s actor) (λ _. edit_all s s actor edits) e).2))
      (Same-refl s)
perform-Same s actor at (Actions.join code) =
    settled (Same s) s (join s actor at code) (λ t e. ground arith) (Same-refl s)
perform-Same s actor at Actions.leave =
    settled (Same s) s (leave s actor at) (λ t e. ground arith) (Same-refl s)
perform-Same s actor at (Actions.invite code expires) = Same-refl s

apply-Same : (n : Nostr) (s : GroupState) (ev : Event) → Same s (apply n s ev).0
apply-Same n s ev = elim (Option-cases (parse_action n ev)) [
  | inl e ↦ rw (apply_malformed n s ev e) (Same-refl s)
  | inr ((g, a), e) ↦ rw (apply_parsed n s ev g a e) (perform-Same s ev.pubkey ev.created_at a)
]

pub Reaches-Same : (n : Nostr) (s t : GroupState) → Reaches n s t → Same s t
Reaches-Same n s t unmoved = Same-refl s
Reaches-Same n s t (tried {t = u} ev before) =
    Same-trans s u (apply n u ev).0 (Reaches-Same n s u before) (apply-Same n u ev)
Reaches-Same n s t (noted {t = u} ev before) = Reaches-Same n s u before

pub Reaches-IsSound : (n : Nostr) (s t : GroupState) → Reaches n s t → IsSound s → IsSound t
Reaches-IsSound n s t unmoved h = h
Reaches-IsSound n s t (tried {t = u} ev before) h =
    apply-IsSound n u ev (Reaches-IsSound n s u before h)
Reaches-IsSound n s t (noted {t = u} ev before) h = Reaches-IsSound n s u before h

-- However many actions are tried on a sound group, its owner stays its owner, is a member and may do
-- everything, and nobody outranks them.
pub Reaches-owner :
    (n : Nostr) (s t : GroupState) (o actor : PublicKey)
    → Reaches n s t
    → IsSound s
    → s.owner ≡ some o
    → (t.owner ≡ some o)
      × (contains_key o t.members ≡ true)
      × (base t o ≡ all)
      × (outranks t actor o ≡ false)
unfolding base outranks is_owner names_key
Reaches-owner n s t o actor steps h e =
    let sound = Reaches-IsSound n s t steps h in
    let (_, _, _, same, _) = Reaches-Same n s t steps in
    let owns : t.owner ≡ some o = same ∙ e in
    (
      owns,
      sound.owner_seated o owns,
      ground (arith, nat_key.beq_iff o o),
      ground (arith, nat_key.beq_iff o o),
    )
