-- ===== src/Group/Fold/Renewed.antt =====
-- A group of crates/hit-group/src/state.rs that is snapshotted, signed and folded again is the same group.
use hit_enter.Base.{
  ℕ, ◌+◌, max, true, Option, some, List, [], ◌∷◌, map, Text, nat_key, text_key, ◌≡◌, refl, sym, ap,
  subst, ◌∙◌, arith, and_then,
}
use hit_enter.Base.Lists.{retain, elem, fold, filter_map}
use hit_enter.Base.Maps.{Map, Set, get, contains_key, keys, values, beq_refl}
use hit_enter.Base.Rising.{rises}
use hit_enter.Event.{Event, Nostr, PublicKey, Timestamp}
use hit_enter.Event.Kinds
use hit_enter.Event.Tags.{group_of}
use hit_enter.Event.Rows.{RoleDef, default_role}
use hit_enter.Event.Snapshots.{Snapshot, GroupKey, sign, state_draft}
use hit_enter.Event.States
use hit_enter.Event.States.{StatePiece, parse_state}
use hit_enter.Event.States.Rows.{Each}
use hit_enter.Event.States.People.{holders}
use hit_enter.Event.States.Signed.{
  FitsSnapshot, IsSigner, metadata_of, admins_of, members_of, parse_state-sign, sign_parts,
}
use hit_enter.Group.{GroupState}
use hit_enter.Group.Read.{to_snapshot}
use hit_enter.Group.Fold.{
  Loading, unloaded, load, blank, settle_snapshot, start, with_invites, run_live, fold_group,
  is_live, sort, gathered, carried_silence, seat_owner, assign, with_default, load_role, proven,
}
use hit_enter.Group.Fold.Restores.{IsRoleEntry, KnowsRoles, load_roles_lem, seat_owner-assign}
use hit_enter.Group.Fold.Gathers.{pieces_of, gathered_pieces}

-- A state that a snapshot tells whole: each role stands under its own name with defined bits, the default
-- role is there, members are in order and know their roles, and the owner is a member without roles.
pub record IsWhole (s : GroupState) (o : PublicKey) : Type 0 where
  pub fits : FitsSnapshot (to_snapshot s)
  pub ordered : rises s.roles ≡ true
  pub named : Each IsRoleEntry s.roles
  pub default_defined : contains_key default_role s.roles ≡ true
  pub seated : rises s.members ≡ true
  pub know : Each (KnowsRoles s.roles) s.members
  pub owned : s.owner ≡ some o
  pub plain_owner : get o s.members ≡ some []

-- The group as it is after a snapshot of it was signed at `at`: one number on, with that time as its
-- cutoff, with the mutes that still run as its silences, and with nothing of what a snapshot leaves out.
abbrev pub renewed : GroupState → Timestamp → GroupState
renewed s at = record s {
  seq = s.seq + 1;
  cutoff = at;
  joined = [];
  named_owner = s.owner;
  invites = [];
  applied = [];
  silences = filter_map (carried_silence at) s.mutes;
}

-- What the four pieces of a snapshot load, before the members get their roles.
abbrev loaded : Snapshot → PublicKey → ℕ → Timestamp → Loading
loaded s group seq at = record {
  state = record (blank group) {
    seq = seq;
    cutoff = at;
    name = s.name;
    public = s.public;
    newcomer_wait = s.newcomer_wait;
    about = s.about;
    channels = s.channels;
    overrides = s.overrides;
    roles = fold load_role [] s.roles;
    members = map (λ p. (p, [])) (keys s.members);
    bans = s.bans;
    mutes = s.mutes;
  };
  assignments = holders s.members;
  named = s.owner;
}

module _ (n : Nostr) (group : PublicKey) (s : Snapshot) (meta held people defined : Event) where
  load_pieces :
      (parse_state n meta ≡ some (group, s.seq, metadata_of s))
      → (parse_state n held ≡ some (group, s.seq, admins_of s))
      → (parse_state n people ≡ some (group, s.seq, members_of s))
      → (parse_state n defined ≡ some (group, s.seq, States.roles s.roles))
      → load n (pieces_of meta held people defined) (unloaded group) Kinds.state_kinds
        ≡ some (
            loaded s group (max (max (max (max 0 s.seq) s.seq) s.seq) s.seq) (
              max
                (max (max (max 0 meta.created_at) held.created_at) people.created_at)
                defined.created_at))
  unfolding load get blank
  load_pieces a b c d = rw (a, b, c, d) refl

module _ (s : GroupState) (o : PublicKey) (w : IsWhole s o) where
  proven_owner : proven s.owner (o ∷ []) ≡ s.owner
  unfolding proven
  proven_owner =
      let here : elem o (o ∷ []) ≡ true = rw (beq_refl o) refl in
      ap (λ x. proven x (o ∷ [])) w.owned ∙ rw here (sym w.owned)

  default_kept : with_default (fold load_role [] (values s.roles)) ≡ s.roles
  unfolding with_default
  default_kept =
      ap with_default (load_roles_lem s.roles w.ordered w.named) ∙ rw w.default_defined refl

  members_kept :
      seat_owner (proven s.owner (o ∷ [])) (
        fold
          (assign (with_default (fold load_role [] (values s.roles))))
          (map (λ p. (p, [])) (keys s.members))
          (holders s.members))
      ≡ s.members
  members_kept =
      ap
        (λ x. seat_owner x (
          fold (assign (with_default (fold load_role [] (values s.roles))))
            (map (λ p. (p, [])) (keys s.members)) (holders s.members)))
        (proven_owner ∙ w.owned)
      ∙ ap
          (λ r.
            seat_owner (some o)
              (fold (assign r) (map (λ p. (p, [])) (keys s.members)) (holders s.members)))
          default_kept
      ∙ seat_owner-assign s.roles o s.members w.seated w.know w.plain_owner

  settled :
      (n : Nostr) (at : Timestamp)
      → with_invites n [] (settle_snapshot (loaded (to_snapshot s) s.id (s.seq + 1) at) (o ∷ []))
        ≡ renewed s at
  unfolding settle_snapshot with_invites blank to_snapshot sort
  settled n at =
      let shape : Map Text RoleDef → Option PublicKey → Map PublicKey (Set Text) → GroupState =
        λ r x m. record (renewed s at) { roles = r; owner = x; members = m } in
      let roles_now = with_default (fold load_role [] (values s.roles)) in
      let owner_now = proven s.owner (o ∷ []) in
      let members_now =
        seat_owner owner_now
          (fold (assign roles_now) (map (λ p. (p, [])) (keys s.members)) (holders s.members)) in
      ap (λ r. shape r owner_now members_now) default_kept
      ∙ ap (λ x. shape s.roles x members_now) proven_owner
      ∙ ap (λ m. shape s.roles s.owner m) members_kept

-- Without actions, a fold is what it loads.
fold_quiet :
    (n : Nostr) (group : PublicKey) (events : List Event) (pieces : Map ℕ Event)
    (creators : Set PublicKey) (l : Loading)
    → gathered n group events ≡ record { pieces = pieces; creators = creators; actions = [] }
    → load n pieces (unloaded group) Kinds.state_kinds ≡ some l
    → fold_group n group events ≡ some (with_invites n [] (settle_snapshot l creators))
unfolding fold_group start run_live sort
fold_quiet n group events pieces creators l e m =
    let finish : GroupState → List Event → Option GroupState =
      λ x actions. some (run_live n x [] (retain (is_live x.cutoff) (sort actions))) in
    ap (λ g. and_then (start n group g) (λ x. finish x g.actions)) e
    ∙ ap
        (λ r.
          and_then (and_then r (λ k. some (with_invites n [] (settle_snapshot k creators))))
            (λ x. finish x []))
        m

-- The creation of a group by its owner, and the four events that the group's key signs of a snapshot of
-- its state, fold to that state as it is after the snapshot: one number on, with the snapshot's time as
-- its cutoff, with the mutes that still run as its silences, and without newcomers, invites and applied
-- actions, which a snapshot leaves out. The state is one that a snapshot tells whole, and the nostr
-- crate is taken to be as it documents.
pub fold_group-sign :
    (n : Nostr) (key : GroupKey) (s : GroupState) (o : PublicKey) (at : Timestamp)
    → (creation meta held people defined : Event) → IsWhole s o
    → IsSigner n key
    → key.public_key ≡ s.id
    → sign key (to_snapshot s) at ≡ some (meta, held, people, defined)
    → group_of n creation ≡ some s.id
    → creation.kind ≡ Kinds.create_group
    → creation.pubkey ≡ o
    → fold_group n s.id (creation ∷ meta ∷ held ∷ people ∷ defined ∷ []) ≡ some (renewed s at)
unfolding state_draft to_snapshot
fold_group-sign n key s o at creation meta held people defined w k own e named kind by =
    let snap = to_snapshot s in
    let (ea, eb, ec, ed) = sign_parts key snap at meta held people defined e in
    let (ra, rb, rc, rd) = parse_state-sign n key snap w.fits k at meta held people defined e in
    let (a0, a1, a2, a3) = k.signs _ meta ea in
    let (b0, b1, b2, b3) = k.signs _ held eb in
    let (c0, c1, c2, c3) = k.signs _ people ec in
    let (d0, d1, d2, d3) = k.signs _ defined ed in
    let qa = subst (λ g. parse_state n meta ≡ some (g, snap.seq, metadata_of snap)) own ra in
    let qb = subst (λ g. parse_state n held ≡ some (g, snap.seq, admins_of snap)) own rb in
    let qc = subst (λ g. parse_state n people ≡ some (g, snap.seq, members_of snap)) own rc in
    let qd =
      subst (λ g. parse_state n defined ≡ some (g, snap.seq, States.roles snap.roles)) own rd in
    let found =
      gathered_pieces n s.id creation meta held people defined snap.seq _ _ _ _ (named, kind)
        (qa, a1) (qb, b1) (qc, c1) (qd, d1) in
    let read = load_pieces n s.id snap meta held people defined qa qb qc qd in
    let seq : max (max (max (max 0 snap.seq) snap.seq) snap.seq) snap.seq ≡ s.seq + 1 =
      omega arith in
    let newest =
      max (max (max (max 0 meta.created_at) held.created_at) people.created_at)
        defined.created_at in
    let time : newest ≡ at = omega (arith, a3, b3, c3, d3) in
    fold_quiet n s.id (creation ∷ meta ∷ held ∷ people ∷ defined ∷ []) _ _ _ found (
      read
      ∙ ap (λ q. some (loaded snap s.id q newest)) seq
      ∙ ap (λ t. some (loaded snap s.id (s.seq + 1) t)) time)
    ∙ ap
        (λ c. some (with_invites n [] (settle_snapshot (loaded snap s.id (s.seq + 1) at) (c ∷ []))))
        by
    ∙ ap some (settled s o w n at)
