-- ===== src/Event/Actions/Built.antt =====
-- The actions that crates/hit-event/src/group.rs builds are parsed as the actions they were built for.
use hit_enter.Base.{
  ℕ, ◌<◌, ◌^◌, ltb, true, false, none, some, List, [], ◌∷◌, map, nat_key, text_key, text_beq,
  nat_text, ◌≡◌, ◌≢◌, refl, sym, subst, arith, parse_u64-nat_text,
}
use hit_enter.Base.Lists.{find_map}
use hit_enter.Base.Rising.{is_rising, from_list_rising, text_key-IsOrder}
use hit_enter.Base.Texts.{codes}
use hit_enter.Event.{Event, Nostr, PublicKey}
use hit_enter.Event.Kinds
use hit_enter.Event.Tags.{first_value, value_of, group_of}
use hit_enter.Event.Edits
use hit_enter.Event.Edits.{Edit}
use hit_enter.Event.Builders.{to_tag}
use hit_enter.Event.Builders.Trips.{FitsEdit, parse-to_tag}
use hit_enter.Event.Builders.Events
use hit_enter.Event.Builders.Events.{EventBuilder, Hex}
use hit_enter.Event.Actions
use hit_enter.Event.Actions.{
  Action, put, remove, unban, mute, edit, invite, join, leave, parse_action,
}

-- The builder that each action is built by.
abbrev pub builder_of : Hex → PublicKey → Action → EventBuilder
builder_of x g (put target roles) = Events.put_user x g target roles
builder_of x g (remove target false) = Events.remove_user x g target
builder_of x g (remove target true) = Events.ban_user x g target
builder_of x g (unban target) = Events.unban_user x g target
builder_of x g (mute target until) = Events.mute_user x g target until
builder_of x g (edit edits) = Events.edit_metadata x g edits
builder_of x g (invite code expires) = Events.create_invite x g code expires
builder_of x g (join (some code)) = Events.join x g code
builder_of x g (join none) = Events.join_public x g
builder_of x g leave = Events.leave x g

-- Of every edit.
abbrev pub FitEdits : List Edit → Type 0
FitEdits [] = Unit {0}
FitEdits (e ∷ es) = FitsEdit e × FitEdits es

-- Roles in order, times of 64 bits and not the first second of all, and an edit at least.
abbrev pub FitsAction : Action → Type 0
FitsAction (put target roles) = is_rising roles ≡ true
FitsAction (mute target (some until)) = (0 < until) × (until < 2 ^ 64)
FitsAction (edit edits) = (edits ≢ []) × FitEdits edits
FitsAction (invite code (some t)) = t < 2 ^ 64
FitsAction a = Unit {0}

parse_all-to_tag : (es : List Edit) → FitEdits es → Edits.parse_all (map to_tag es) ≡ some es
unfolding Edits.parse_all
parse_all-to_tag [] h = refl
parse_all-to_tag (e ∷ es) (f, h) =
    rw (Edits.parse_all, parse-to_tag e f, parse_all-to_tag es h) refl

module _ (n : Nostr) (x : Hex) where
  -- An event with the kind and the tags of a builder.
  abbrev made : Event → EventBuilder → Event
  made ev b = record ev { kind = b.kind; tags = b.tags }

  until_read :
      (g target : PublicKey) (until : ℕ)
      → until < 2 ^ 64
      → find_map Actions.until_row
          (Events.h x g ∷ (codes "p" ∷ x.key_hex target ∷ nat_text until ∷ []) ∷ [])
        ≡ some until
  unfolding Actions.until_row Events.h text_beq
  until_read g target until f = rw (find_map, parse_u64-nat_text until f) refl

  made_read :
      ((p : PublicKey) → n.public_key (x.key_hex p) ≡ some p)
      → (ev : Event) (g : PublicKey) (a : Action) → FitsAction a
      → parse_action n (made ev (builder_of x g a)) ≡ some (g, a)
  unfolding parse_action group_of first_value value_of text_beq Kinds.is_group_kind Events.h
      Events.put_user Events.remove_user Events.ban_user Events.unban_user Events.mute_user
      Events.edit_metadata Events.create_invite Events.join Events.join_public Events.leave
  made_read reads ev g (put target roles) f =
      rw (reads g, reads target, from_list_rising text_key-IsOrder roles f) refl
  made_read reads ev g (remove target false) f = rw (reads g, reads target) refl
  made_read reads ev g (remove target true) f = rw (reads g, reads target) refl
  made_read reads ev g (unban target) f = rw (reads g, reads target) refl
  made_read reads ev g (mute target none) f = rw (reads g, reads target) refl
  made_read reads ev g (mute target (some until)) (some_time, fits) =
      let positive : ltb 0 until ≡ true = ground arith in
      rw (reads g, reads target, until_read g target until fits, positive) refl
  made_read reads ev g (edit []) (some_edit, fits) = absurd (some_edit refl)
  made_read reads ev g (edit (e ∷ es)) (some_edit, fits) =
      rw (reads g, parse_all-to_tag (e ∷ es) fits) refl
  made_read reads ev g (invite code none) f = rw (reads g) refl
  made_read reads ev g (invite code (some t)) f = rw (reads g, parse_u64-nat_text t f) refl
  made_read reads ev g (join (some code)) f = rw (reads g) refl
  made_read reads ev g (join none) f = rw (reads g) refl
  made_read reads ev g leave f = rw (reads g) refl

  -- An event with the kind and the tags that are built for an action in a group is parsed as that action in
  -- that group: where keys are read back from their hexadecimal, the roles given are in order, times have
  -- 64 bits and a mute's is not 0, and a change of the group has an edit and its numbers fit their types.
  pub parse_action-builder_of :
      ((p : PublicKey) → n.public_key (x.key_hex p) ≡ some p)
      → (ev : Event) (g : PublicKey) (a : Action) → FitsAction a
      → ev.kind ≡ (builder_of x g a).kind
      → ev.tags ≡ (builder_of x g a).tags
      → parse_action n ev ≡ some (g, a)
  parse_action-builder_of reads ev g a fits kind tags =
      subst (λ k. parse_action n (record ev { kind = k }) ≡ some (g, a)) (sym kind)
        (subst
          (λ t.
            parse_action n (record ev { kind = (builder_of x g a).kind; tags = t }) ≡ some (g, a))
          (sym tags) (made_read reads ev g a fits))
