-- ===== src/Group/Fold/Gathers.antt =====
-- What the first loop of `GroupState::fold`, crates/hit-group/src/state.rs, finds among a group's creation
-- and its four state events.
use hit_enter.Base.{
  ℕ, true, false, none, some, [], ◌∷◌, ◌==◌, nat_key, text_key, ◌≡◌, refl, sym, ap, subst, ◌∙◌,
  is_some,
}
use hit_enter.Base.Lists.{elem, fold}
use hit_enter.Base.Maps.{Map, get, insert, add, beq_refl}
use hit_enter.Event.{Event, Nostr, PublicKey}
use hit_enter.Event.Kinds
use hit_enter.Event.Tags.{group_of}
use hit_enter.Event.States.{StatePiece, parse_state}
use hit_enter.Event.States.Signed.{parse_state-group_of}
use hit_enter.Group.{names_key}
use hit_enter.Group.Fold.{Gathered, put_piece, gather, gathered}

names_own :
    (n : Nostr) (ev : Event) (group : PublicKey)
    → group_of n ev ≡ some group
    → names_key (group_of n ev) group ≡ true
unfolding names_key
names_own n ev group e = rw (names_key, e, beq_refl group) refl

put_new :
    (ev : Event) (kind : ℕ) (pieces : Map ℕ Event)
    → ev.kind ≡ kind
    → get kind pieces ≡ none
    → put_piece ev pieces ≡ insert kind ev pieces
unfolding put_piece
put_new ev kind pieces k free =
    let there : get ev.kind pieces ≡ none = subst (λ j. get j pieces ≡ none) (sym k) free in
    rw (put_piece, there) (ap (λ j. insert j ev pieces) k)

-- A state event goes to its place among the pieces.
gather_piece :
    (n : Nostr) (group : PublicKey) (g : Gathered) (ev : Event) (kind seq : ℕ) (piece : StatePiece)
    → parse_state n ev ≡ some (group, seq, piece)
    → ev.kind ≡ kind
    → elem kind Kinds.state_kinds ≡ true
    → get kind g.pieces ≡ none
    → gather n group g ev ≡ record g { pieces = insert kind ev g.pieces }
unfolding gather
gather_piece n group g ev kind seq piece p k s free =
    let ours : names_key (group_of n ev) group ≡ true =
      names_own n ev group (parse_state-group_of n ev group seq piece p) in
    let state : elem ev.kind Kinds.state_kinds ≡ true =
      subst (λ j. elem j Kinds.state_kinds ≡ true) (sym k) s in
    let read : is_some (parse_state n ev) ≡ true = rw p refl in
    rw (ours, state, read) (ap (λ m. record g { pieces = m }) (put_new ev kind g.pieces k free))

-- The creation of the group goes to its creators.
gather_creation :
    (n : Nostr) (group : PublicKey) (g : Gathered) (ev : Event)
    → group_of n ev ≡ some group
    → ev.kind ≡ Kinds.create_group
    → gather n group g ev ≡ record g { creators = add ev.pubkey g.creators }
unfolding gather
gather_creation n group g ev e k =
    let ours : names_key (group_of n ev) group ≡ true = names_own n ev group e in
    let state : elem ev.kind Kinds.state_kinds ≡ false =
      subst (λ j. elem j Kinds.state_kinds ≡ false) (sym k) refl in
    let made : (ev.kind == Kinds.create_group) ≡ true =
      (nat_key.beq_iff ev.kind Kinds.create_group).1 k in
    rw (ours, state, made) refl

-- The pieces that the fold finds.
abbrev pub pieces_of : Event → Event → Event → Event → Map ℕ Event
pieces_of meta held people defined =
    (Kinds.group_metadata, meta)
    ∷ (Kinds.group_admins, held)
    ∷ (Kinds.group_members, people)
    ∷ (Kinds.group_roles, defined)
    ∷ []

-- What the fold finds among the creation and the four state events.
pub gathered_pieces :
    (n : Nostr) (group : PublicKey) (creation meta held people defined : Event) (seq : ℕ)
    (a b c d : StatePiece)
    → (group_of n creation ≡ some group) × (creation.kind ≡ Kinds.create_group)
    → (parse_state n meta ≡ some (group, seq, a)) × (meta.kind ≡ Kinds.group_metadata)
    → (parse_state n held ≡ some (group, seq, b)) × (held.kind ≡ Kinds.group_admins)
    → (parse_state n people ≡ some (group, seq, c)) × (people.kind ≡ Kinds.group_members)
    → (parse_state n defined ≡ some (group, seq, d)) × (defined.kind ≡ Kinds.group_roles)
    → gathered n group (creation ∷ meta ∷ held ∷ people ∷ defined ∷ []) ≡ record {
      pieces = pieces_of meta held people defined;
      creators = creation.pubkey ∷ [];
      actions = [];
    }
unfolding gathered get insert add
gathered_pieces n group creation meta held people defined seq a b c d e0 e1 e2 e3 e4 =
    let g0 : Gathered = record { pieces = []; creators = []; actions = [] } in
    let g1 : Gathered = record { pieces = []; creators = creation.pubkey ∷ []; actions = [] } in
    let g2 : Gathered = record g1 { pieces = (Kinds.group_metadata, meta) ∷ [] } in
    let g3 : Gathered = record g1 {
      pieces = (Kinds.group_metadata, meta) ∷ (Kinds.group_admins, held) ∷ [];
    } in
    let g4 : Gathered = record g1 {
      pieces =
          (Kinds.group_metadata, meta)
          ∷ (Kinds.group_admins, held)
          ∷ (Kinds.group_members, people)
          ∷ [];
    } in
    let step = gather n group in
    let s0 : step g0 creation ≡ g1 = gather_creation n group g0 creation e0.0 e0.1 in
    let s1 : step g1 meta ≡ g2 =
      gather_piece n group g1 meta Kinds.group_metadata seq a e1.0 e1.1 refl refl in
    let s2 : step g2 held ≡ g3 =
      gather_piece n group g2 held Kinds.group_admins seq b e2.0 e2.1 refl refl in
    let s3 : step g3 people ≡ g4 =
      gather_piece n group g3 people Kinds.group_members seq c e3.0 e3.1 refl refl in
    ap (λ g. fold step g (meta ∷ held ∷ people ∷ defined ∷ [])) s0
    ∙ ap (λ g. fold step g (held ∷ people ∷ defined ∷ [])) s1
    ∙ ap (λ g. fold step g (people ∷ defined ∷ [])) s2
    ∙ ap (λ g. fold step g (defined ∷ [])) s3
    ∙ gather_piece n group g4 defined Kinds.group_roles seq d e4.0 e4.1 refl refl
