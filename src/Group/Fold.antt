-- ===== src/Group/Fold.antt =====
-- `GroupState::fold` of crates/hit-group/src/state.rs: a group's events into its state; and
-- `apply_second`, whose loop runs on fuel, the number of actions pending.
pub mod Loaded
pub mod Sound
pub mod Rounds
pub mod Owner
pub mod Ignored
pub mod Gathers
pub mod Restores
pub mod Renewed
use hit_enter.Base.{
  ℕ, zero, suc, ltb, leb, Bool, true, false, ◌&&◌, ◌||◌, not, Option, none, some, List, [], ◌∷◌,
  ◌++◌, map, Text, ◌==◌, nat_key, text_key, text_beq, if◌then◌else◌, and_then, is_some, ok, err,
  max, pos,
}
use hit_enter.Base.Lists.{elem, retain, fold, filter_map, head?, length}
use hit_enter.Base.Maps.{Map, Set, get, contains_key, insert, add, map_values}
use hit_enter.Event.{Event, Nostr, PublicKey, Timestamp}
use hit_enter.Event.Actions
use hit_enter.Event.Actions.{Action, parse_action}
use hit_enter.Event.Kinds
use hit_enter.Event.Replaces.{replaces}
use hit_enter.Event.Rows.{RoleDef, default_role, owner_mark}
use hit_enter.Event.States
use hit_enter.Event.States.{StatePiece, parse_state}
use hit_enter.Event.Tags.{group_of}
use hit_enter.Perm.{sanitized}
use hit_enter.Group.{GroupState, Silence, Invite, names_key}
use hit_enter.Group.Execute.{apply}

-- What the first loop collects.
pub record Gathered : Type 0 where
  pub pieces : Map ℕ Event
  pub creators : Set PublicKey
  pub actions : List Event

-- The newest state event of each kind.
unfoldable pub put_piece : Event → Map ℕ Event → Map ℕ Event
put_piece ev pieces = elim (get ev.kind pieces) [
  | none ↦ insert ev.kind ev pieces
  | some current ↦ if replaces ev current then insert ev.kind ev pieces else pieces
]

unfoldable pub gather : Nostr → PublicKey → Gathered → Event → Gathered
unfolding put_piece
gather n group g ev =
    if not (names_key (group_of n ev) group)
    then g
    else if elem ev.kind Kinds.state_kinds
    then if is_some (parse_state n ev) then record g { pieces = put_piece ev g.pieces } else g
    else if ev.kind == Kinds.create_group
    then record g { creators = add ev.pubkey g.creators }
    else if elem ev.kind Kinds.action_kinds
    then record g { actions = g.actions ++ ev ∷ [] }
    else g

unfoldable pub blank : PublicKey → GroupState
blank group = record {
  id = group;
  seq = 0;
  cutoff = 0;
  name = [];
  public = false;
  newcomer_wait = 0;
  about = [];
  joined = [];
  owner = none;
  named_owner = none;
  channels = [];
  overrides = [];
  roles = [];
  members = [];
  invites = [];
  applied = [];
  bans = [];
  mutes = [];
  silences = [];
}

-- The state being built, and what waits until all four pieces are in.
pub record Loading : Type 0 where
  pub state : GroupState
  pub assignments : Map PublicKey (Set Text)
  pub named : Option PublicKey

-- A role of the snapshot, with the bits that are defined; the owner's mark is no role.
unfoldable pub load_role : Map Text RoleDef → RoleDef → Map Text RoleDef
load_role roles r =
    if r.id == owner_mark then roles else insert r.id (record r { perms = sanitized r.perms }) roles

unfoldable pub load_piece : Loading → StatePiece → Loading
unfolding load_role
load_piece l (States.metadata m) = record l {
  state = record (l.state) {
    name = m.name;
    public = m.public;
    newcomer_wait = m.newcomer_wait;
    about = m.about;
    channels = m.channels;
    overrides = m.overrides;
  };
}
load_piece l (States.admins a) = record l { named = a.owner; assignments = a.assignments }
load_piece l (States.members m) = record l {
  state = record (l.state) {
    members = map (λ p. (p, [])) m.members;
    bans = m.bans;
    mutes = m.mutes;
  };
}
load_piece l (States.roles rs) = record l {
  state = record (l.state) { roles = fold load_role l.state.roles rs };
}

-- The newest number and time among the pieces.
unfoldable pub stamp : Loading → ℕ → Timestamp → Loading
stamp l seq at =
    let s = l.state in
    record l { state = record s { seq = max s.seq seq; cutoff = max s.cutoff at } }

-- The loop over the four kinds; one that is missing ends it.
unfoldable pub load : Nostr → Map ℕ Event → Loading → List ℕ → Option Loading
unfolding load_piece stamp
load n pieces l [] = some l
load n pieces l (kind ∷ kinds) = and_then (get kind pieces) λ ev.
    and_then (parse_state n ev)
      λ parsed. load n pieces (load_piece (stamp l parsed.1 ev.created_at) parsed.2) kinds

-- A group without a default role: a plain member may do nothing.
unfoldable pub with_default : Map Text RoleDef → Map Text RoleDef
with_default roles =
    if contains_key default_role roles
    then roles
    else insert default_role
        (record { id = default_role; name = default_role; perms = 0; position = pos 0 }) roles

unfoldable pub known_roles : Map Text RoleDef → Set Text → Set Text
known_roles roles held = retain (λ r. not (r == default_role) && contains_key r roles) held

-- Gives the members that the snapshot names the roles that it assigns them.
unfoldable pub assign :
    Map Text RoleDef → Map PublicKey (Set Text) → PublicKey × Set Text → Map PublicKey (Set Text)
unfolding known_roles
assign roles members (p, held) =
    if contains_key p members then insert p (known_roles roles held) members else members

-- `named_owner.filter(|o| creators.contains(o))`.
unfoldable pub proven : Option PublicKey → Set PublicKey → Option PublicKey
proven none creators = none
proven (some o) creators = if elem o creators then some o else none

-- The owner is a member, with no roles.
unfoldable pub seat_owner : Option PublicKey → Map PublicKey (Set Text) → Map PublicKey (Set Text)
seat_owner none members = members
seat_owner (some o) members = insert o [] members

-- A mute of the snapshot silences from the cutoff.
unfoldable pub carried_silence : Timestamp → PublicKey × Timestamp → Option Silence
carried_silence cutoff (p, u) =
    if ltb cutoff u
    then some (record { who = p; from = cutoff; until = some u; mute = true })
    else none

unfoldable pub settle_snapshot : Loading → Set PublicKey → GroupState
unfolding with_default assign proven seat_owner carried_silence
settle_snapshot l creators =
    let s = l.state in
    let roles = with_default s.roles in
    let owner = proven l.named creators in
    record s {
      roles = roles;
      members = seat_owner owner (fold (assign roles) s.members l.assignments);
      named_owner = l.named;
      owner = owner;
      silences = filter_map (carried_silence s.cutoff) s.mutes;
    }

-- `sort_by_key(|ev| (ev.created_at, ev.id))`.
unfoldable pub goes_before : Event → Event → Bool
goes_before a b = ltb a.created_at b.created_at || (a.created_at == b.created_at && ltb a.id b.id)

unfoldable pub place : Event → List Event → List Event
place x [] = x ∷ []
place x (y ∷ ys) = if goes_before y x then y ∷ place x ys else x ∷ y ∷ ys

unfoldable pub sort : List Event → List Event
unfolding goes_before place
sort [] = []
sort (x ∷ xs) = place x (sort xs)

unfoldable pub invites_under : Text → Map Text (List Invite) → List Invite
invites_under code m = elim (get code m) [ none ↦ [] | some is ↦ is ]

-- Records one invite, if the action is one.
unfoldable pub record_invite : Nostr → Map Text (List Invite) → Event → Map Text (List Invite)
unfolding invites_under
record_invite n m ev =
    if not (ev.kind == Kinds.create_invite) then m else elim (parse_action n ev) [
      | some (_, Actions.invite code expires) ↦
          insert code
            (invites_under code m
              ++ record { author = ev.pubkey; created_at = ev.created_at; expires = expires } ∷ [])
            m
      | _ ↦ m
    ]

-- One `retain` of `apply_second`: the state after it, and the actions that are left.
unfoldable pub pass : Nostr → GroupState → List Event → GroupState × List Event
pass n s [] = (s, [])
pass n s (ev ∷ evs) =
    let after = (apply n s ev).0 in
    elim ((apply n s ev).1) [
      | ok _ ↦ pass n (record after { applied = add ev.id after.applied }) evs
      | err _ ↦ let rest = pass n after evs in (rest.0, ev ∷ rest.1)
    ]

-- The `loop` of `apply_second`, with the actions that it leaves.
unfoldable pub rounds : Nostr → ℕ → GroupState → List Event → GroupState × List Event
unfolding pass
rounds n zero s pending = (s, pending)
rounds n (suc fuel) s pending =
    let round = pass n s pending in
    elim (length round.1 == length pending || length round.1 == 0) [
      | true ↦ round
      | false ↦ rounds n fuel round.0 round.1
    ]

unfoldable pub apply_second : Nostr → GroupState → List Event → GroupState
unfolding rounds
apply_second n s pending = (rounds n (length pending) s pending).0

-- Does a second that has begun end before `ev`?
unfoldable pub ends_second : List Event → Event → Bool
ends_second second ev = elim (head? second) [
  | none ↦ false
  | some f ↦ not (f.created_at == ev.created_at)
]

-- The loop over the live actions, a second at a time.
unfoldable pub run_live : Nostr → GroupState → List Event → List Event → GroupState
unfolding apply_second ends_second
run_live n s second [] = apply_second n s second
run_live n s second (ev ∷ evs) = elim (ends_second second ev) [
  | true ↦ run_live n (apply_second n s second) (ev ∷ []) evs
  | false ↦ run_live n s (second ++ ev ∷ []) evs
]

unfoldable pub is_live : Timestamp → Event → Bool
is_live cutoff ev = not (ev.kind == Kinds.create_invite) && leb cutoff ev.created_at

abbrev pub unloaded : PublicKey → Loading
unloaded group = record { state = blank group; assignments = []; named = none }

-- Invites are credentials: they are recorded whatever their age.
unfoldable pub with_invites : Nostr → List Event → GroupState → GroupState
unfolding record_invite
with_invites n actions s = record s { invites = fold (record_invite n) s.invites (sort actions) }

-- The state before any live action.
unfoldable pub start : Nostr → PublicKey → Gathered → Option GroupState
unfolding load settle_snapshot blank with_invites
start n group g =
    and_then (load n g.pieces (unloaded group) Kinds.state_kinds)
      λ l. some (with_invites n g.actions (settle_snapshot l g.creators))

-- The first loop.
unfoldable pub gathered : Nostr → PublicKey → List Event → Gathered
unfolding gather
gathered n group events =
    fold (gather n group) (record { pieces = []; creators = []; actions = [] }) events

unfoldable pub fold_group : Nostr → PublicKey → List Event → Option GroupState
unfolding gathered sort start is_live run_live
fold_group n group events =
    let g = gathered n group events in
    and_then (start n group g)
      λ s. some (run_live n s [] (retain (is_live s.cutoff) (sort g.actions)))

-- `FOLD_KINDS`: every kind that the fold reads.
abbrev pub fold_kinds : List ℕ
fold_kinds =
    Kinds.group_metadata ∷ Kinds.group_admins ∷ Kinds.group_members ∷ Kinds.group_roles
    ∷ Kinds.create_group ∷ Kinds.put_user ∷ Kinds.remove_user ∷ Kinds.edit_metadata
    ∷ Kinds.mute_user ∷ Kinds.create_invite ∷ Kinds.join ∷ Kinds.leave ∷ []
