-- ===== src/Event/States/Signed.antt =====
-- The four events of a signed snapshot, crates/hit-event/src/group.rs, are read back as the snapshot.
use hit_enter.Base.{
  ◌==◌, ◌||◌, Bool-cases, inl, inr, ℕ, ◌<◌, ◌^◌, Bool, true, false, not, ◌&&◌, none, some, List, [],
  ◌∷◌, ◌++◌, map, Text, nat_key, text_key, text_beq, and_then-some, nat_text, ◌≡◌, refl, sym, ap,
  subst, ◌∙◌, parse_u64-nat_text,
}
use hit_enter.Base.Lists.{elem}
use hit_enter.Base.Maps.{from_list, from_entries, keys, beq_refl}
use hit_enter.Base.Rising.{is_rising, rises, from_list_rising, from_entries_rising, nat_key-IsOrder}
use hit_enter.Base.Texts.{codes}
use hit_enter.Event.{Event, Nostr, PublicKey, Timestamp}
use hit_enter.Event.Kinds
use hit_enter.Event.Tags.{group_of, seq_of, first_value, value_of}
use hit_enter.Event.Builders.{Draft, channel_tag, override_tag, role_tag}
use hit_enter.Event.Builders.Trips.{FitsOverride, FitsRole}
use hit_enter.Event.Snapshots.{
  Snapshot, GroupKey, metadata_tags, admin_tags, member_tags, state_draft, sign, wait_tags,
  about_tags, holder_tags,
}
use hit_enter.Event.States.{
  Admins, Members, StatePiece, metadata, admins, members, roles, no_metadata, rows_from, meta_row,
  admin_row, member_row, role_row, parse_metadata, parse_admins, parse_members, parse_roles,
  parse_piece, parse_state,
}
use hit_enter.Event.States.Rows.{
  Each, row_step, with_words, visibility_rows, wait_rows, about_rows, channel_rows, override_rows,
  role_rows,
}
use hit_enter.Event.States.People.{
  holders, FitsHolder, holder_rows, owner_rows, person_rows, ban_rows, mute_rows,
}

-- Numbers of their types, maps and sets in order, and no role with the owner's mark.
pub record FitsSnapshot (s : Snapshot) : Type 0 where
  pub seq : s.seq < 2 ^ 64
  pub wait : s.newcomer_wait < 2 ^ 32
  pub channels : Each (λ c. c.slowmode < 2 ^ 32) s.channels
  pub overrides : Each FitsOverride s.overrides
  pub roles : Each FitsRole s.roles
  pub held : Each FitsHolder s.members
  pub people : is_rising (keys s.members) ≡ true
  pub holding : rises (holders s.members) ≡ true
  pub banned : is_rising s.bans ≡ true
  pub muted : rises s.mutes ≡ true
  pub until : Each (λ e. e.1 < 2 ^ 64) s.mutes

-- What the nostr crate documents of a key's hexadecimal, of the tag `d`, and of signing.
pub record IsSigner (n : Nostr) (key : GroupKey) : Type 0 where
  pub reads_key : (p : PublicKey) → n.public_key (key.to_hex p) ≡ some p
  pub reads_identifier :
      (t : Text) (rest : List (List Text)) → n.identifier ((codes "d" ∷ t ∷ []) ∷ rest) ≡ some t
  pub signs :
      (draft : Draft) (ev : Event)
      → key.sign draft ≡ some ev
      → (ev.pubkey ≡ key.public_key)
        × (ev.kind ≡ draft.kind)
        × (ev.tags ≡ draft.tags)
        × (ev.created_at ≡ draft.created_at)

-- What the pieces of a snapshot say.
abbrev pub metadata_of : Snapshot → StatePiece
metadata_of s = metadata (record {
  name = s.name;
  public = s.public;
  newcomer_wait = s.newcomer_wait;
  about = s.about;
  channels = s.channels;
  overrides = s.overrides;
})

abbrev pub admins_of : Snapshot → StatePiece
admins_of s = admins (record { owner = s.owner; assignments = holders s.members })

abbrev pub members_of : Snapshot → StatePiece
members_of s = members (record { members = keys s.members; bans = s.bans; mutes = s.mutes })

metadata_rows :
    (s : Snapshot)
    → FitsSnapshot s
    → rows_from meta_row no_metadata (metadata_tags s)
      ≡ some (record {
        meta = record {
          name = s.name;
          public = s.public;
          newcomer_wait = s.newcomer_wait;
          about = s.about;
          channels = s.channels;
          overrides = s.overrides;
        };
        private = not s.public;
      })
unfolding metadata_tags
metadata_rows s f =
    let worded = with_words s.name s.public in
    let waited = record worded {
      meta = record (worded.meta) { newcomer_wait = s.newcomer_wait };
    } in
    let described = record waited { meta = record (waited.meta) { about = s.about } } in
    let channelled = record described {
      meta = record (described.meta) { channels = s.channels };
    } in
    let channel_part = map channel_tag s.channels ++ map override_tag s.overrides in
    visibility_rows s.name s.public
      (wait_tags s.newcomer_wait ++ (about_tags s.about ++ channel_part))
    ∙ wait_rows worded s.newcomer_wait (about_tags s.about ++ channel_part) f.wait
    ∙ about_rows waited s.about channel_part
    ∙ channel_rows described s.channels (map override_tag s.overrides) f.channels
    ∙ override_rows channelled s.overrides f.overrides

admin_rows :
    (n : Nostr) (key : GroupKey) (s : Snapshot)
    → FitsSnapshot s
    → IsSigner n key
    → rows_from (admin_row n) (record { owner = none; assignments = [] }) (admin_tags key s)
      ≡ some (record { owner = s.owner; assignments = holders s.members })
unfolding from_entries
admin_rows n key s f k =
    owner_rows n key k.reads_key s.owner [] (holder_tags key s.members)
    ∙ holder_rows n key k.reads_key (record { owner = s.owner; assignments = [] }) s.members f.held
    ∙ ap (λ m. some (record { owner = s.owner; assignments = m }))
        (from_entries_rising nat_key-IsOrder (holders s.members) f.holding)

member_rows :
    (n : Nostr) (key : GroupKey) (s : Snapshot)
    → FitsSnapshot s
    → IsSigner n key
    → rows_from (member_row n) (record { members = []; bans = []; mutes = [] }) (member_tags key s)
      ≡ some (record { members = keys s.members; bans = s.bans; mutes = s.mutes })
unfolding member_tags from_entries from_list
member_rows n key s f k =
    let people = from_list_rising nat_key-IsOrder (keys s.members) f.people in
    let banned = from_list_rising nat_key-IsOrder s.bans f.banned in
    let muted = from_entries_rising nat_key-IsOrder s.mutes f.muted in
    person_rows n key k.reads_key (record { members = []; bans = []; mutes = [] }) (keys s.members)
      _
    ∙ ban_rows n key k.reads_key _ s.bans _
    ∙ mute_rows n key k.reads_key _ s.mutes f.until
    ∙ rw (people, banned, muted) refl

-- A state event is one of the group that it is read under.
pub parse_state-group_of :
    (n : Nostr) (ev : Event) (g : PublicKey) (seq : ℕ) (piece : StatePiece)
    → parse_state n ev ≡ some (g, seq, piece)
    → group_of n ev ≡ some g
unfolding parse_state
parse_state-group_of n ev g seq piece h =
    let (o, e, r) = and_then-some (group_of n ev) _ h in
    elim (Bool-cases (not (elem ev.kind Kinds.state_kinds) || not (ev.pubkey == o))) [
      | inl c ↦ absurd (cc (rw c at r))
      | inr c ↦
          let (q, eq, rq) = and_then-some (seq_of ev) _ (rw c at r) in
          let (a, ea, ra) = and_then-some (parse_piece n ev) _ rq in
          let same : o ≡ g = cc ra in e ∙ ap some same
    ]

-- The four signatures of a signed snapshot.
pub sign_parts :
    (key : GroupKey) (s : Snapshot) (at : Timestamp) (meta held people defined : Event)
    → sign key s at ≡ some (meta, held, people, defined)
    → (key.sign (state_draft key s at Kinds.group_metadata (metadata_tags s)) ≡ some meta)
      × (key.sign (state_draft key s at Kinds.group_admins (admin_tags key s)) ≡ some held)
      × (key.sign (state_draft key s at Kinds.group_members (member_tags key s)) ≡ some people)
      × (key.sign (state_draft key s at Kinds.group_roles (map role_tag s.roles)) ≡ some defined)
unfolding sign
sign_parts key s at meta held people defined e =
    let (a, ea, ra) =
      and_then-some (key.sign (state_draft key s at Kinds.group_metadata (metadata_tags s))) _ e in
    let (b, eb, rb) =
      and_then-some (key.sign (state_draft key s at Kinds.group_admins (admin_tags key s))) _ ra in
    let (c, ec, rc) =
      and_then-some (key.sign (state_draft key s at Kinds.group_members (member_tags key s))) _
        rb in
    let (d, ed, rd) =
      and_then-some (key.sign (state_draft key s at Kinds.group_roles (map role_tag s.roles))) _
        rc in
    let (one, two, three, four) : (a ≡ meta) × (b ≡ held) × (c ≡ people) × (d ≡ defined) =
      (cc rd, cc rd, cc rd, cc rd) in
    (ea ∙ ap some one, eb ∙ ap some two, ec ∙ ap some three, ed ∙ ap some four)

public_only : (p : Bool) → (p && not (not p)) ≡ p
public_only true = refl
public_only false = refl

module _ (n : Nostr) (key : GroupKey) (s : Snapshot) (f : FitsSnapshot s) (k : IsSigner n key) where
  d_row : List Text
  d_row = codes "d" ∷ key.to_hex key.public_key ∷ []

  seq_row : List Text
  seq_row = codes "seq" ∷ nat_text s.seq ∷ []

  -- An event of the group key whose rows are those of a piece.
  abbrev stated : Event → ℕ → List (List Text) → Event
  stated ev kind rows = record ev {
    pubkey = key.public_key;
    kind = kind;
    tags = d_row ∷ seq_row ∷ rows;
  }

  stated_read :
      (ev : Event) (kind : ℕ) (rows : List (List Text)) (piece : StatePiece)
      → elem kind Kinds.state_kinds ≡ true
      → parse_piece n (stated ev kind rows) ≡ some piece
      → parse_state n (stated ev kind rows) ≡ some (key.public_key, s.seq, piece)
  unfolding parse_state group_of seq_of first_value value_of d_row seq_row text_beq
  stated_read ev kind rows piece h p =
      rw
        (
          h,
          k.reads_identifier (key.to_hex key.public_key) (seq_row ∷ rows),
          k.reads_key key.public_key,
          beq_refl key.public_key,
          parse_u64-nat_text s.seq f.seq,
          p,
        )
        refl

  metadata_read :
      (ev : Event)
      → parse_piece n (stated ev Kinds.group_metadata (metadata_tags s)) ≡ some (metadata_of s)
  unfolding parse_piece parse_metadata d_row seq_row meta_row text_beq
  metadata_read ev =
      rw
        (row_step meta_row no_metadata no_metadata d_row (seq_row ∷ metadata_tags s) refl
          ∙ row_step meta_row no_metadata no_metadata seq_row (metadata_tags s) refl
          ∙ metadata_rows s f)
        (rw (public_only s.public) refl)

  admins_read :
      (ev : Event)
      → parse_piece n (stated ev Kinds.group_admins (admin_tags key s)) ≡ some (admins_of s)
  unfolding parse_piece parse_admins d_row seq_row admin_row text_beq
  admins_read ev =
      let start : Admins = record { owner = none; assignments = [] } in
      rw
        (row_step (admin_row n) start start d_row (seq_row ∷ admin_tags key s) refl
          ∙ row_step (admin_row n) start start seq_row (admin_tags key s) refl
          ∙ admin_rows n key s f k)
        refl

  members_read :
      (ev : Event)
      → parse_piece n (stated ev Kinds.group_members (member_tags key s)) ≡ some (members_of s)
  unfolding parse_piece parse_members d_row seq_row member_row text_beq
  members_read ev =
      let start : Members = record { members = []; bans = []; mutes = [] } in
      rw
        (row_step (member_row n) start start d_row (seq_row ∷ member_tags key s) refl
          ∙ row_step (member_row n) start start seq_row (member_tags key s) refl
          ∙ member_rows n key s f k)
        refl

  roles_read :
      (ev : Event)
      → parse_piece n (stated ev Kinds.group_roles (map role_tag s.roles)) ≡ some (roles s.roles)
  unfolding parse_piece parse_roles d_row seq_row role_row text_beq
  roles_read ev =
      rw
        (row_step role_row [] [] d_row (seq_row ∷ map role_tag s.roles) refl
          ∙ row_step role_row [] [] seq_row (map role_tag s.roles) refl
          ∙ role_rows [] s.roles f.roles)
        refl

  -- The same for an event that was signed as such.
  signed_read :
      (at : Timestamp) (ev : Event) (kind : ℕ) (rows : List (List Text)) (piece : StatePiece)
      → elem kind Kinds.state_kinds ≡ true
      → key.sign (state_draft key s at kind rows) ≡ some ev
      → parse_piece n (stated ev kind rows) ≡ some piece
      → parse_state n ev ≡ some (key.public_key, s.seq, piece)
  unfolding state_draft d_row seq_row
  signed_read at ev kind rows piece h e p =
      let (author, made, tags, at_time) = k.signs (state_draft key s at kind rows) ev e in
      let reads : Event → Type 0 = λ x. parse_state n x ≡ some (key.public_key, s.seq, piece) in
      subst (λ a. reads (record ev { pubkey = a })) (sym author)
        (subst (λ b. reads (record ev { pubkey = key.public_key; kind = b })) (sym made)
          (subst (λ t. reads (record ev { pubkey = key.public_key; kind = kind; tags = t }))
            (sym tags) (stated_read ev kind rows piece h p)))

  -- The four events that a group key signs of a snapshot are read as its four pieces, each under the
  -- group and the snapshot's number, where the snapshot's numbers fit their types, its maps and sets are
  -- in order, and no role has the owner's mark; the nostr crate is taken to be as it documents.
  pub parse_state-sign :
      (at : Timestamp) (meta held people defined : Event)
      → sign key s at ≡ some (meta, held, people, defined)
      → (parse_state n meta ≡ some (key.public_key, s.seq, metadata_of s))
        × (parse_state n held ≡ some (key.public_key, s.seq, admins_of s))
        × (parse_state n people ≡ some (key.public_key, s.seq, members_of s))
        × (parse_state n defined ≡ some (key.public_key, s.seq, roles s.roles))
  parse_state-sign at meta held people defined e =
      let (ea, eb, ec, ed) = sign_parts key s at meta held people defined e in
      (
        signed_read at meta Kinds.group_metadata (metadata_tags s) (metadata_of s) refl ea
            (metadata_read meta),
        signed_read at held Kinds.group_admins (admin_tags key s) (admins_of s) refl eb
            (admins_read held),
        signed_read at people Kinds.group_members (member_tags key s) (members_of s) refl ec
            (members_read people),
        signed_read at defined Kinds.group_roles (map role_tag s.roles) (roles s.roles) refl ed
            (roles_read defined),
      )
