-- ===== src/Group/Fold/Loaded.antt =====
-- Soundness of the state that a snapshot loads, by `fold` of crates/hit-group/src/state.rs.
use hit_enter.Base.{
  ℕ, true, false, not, ◌&&◌, Option, none, some, List, [], ◌∷◌, map, Text, ◌==◌, nat_key, text_key,
  text_beq, ◌≡◌, refl, arith, Bool-cases, Option-cases, inl, inr, subst,
}
use hit_enter.Base.Lists.{elem, fold}
use hit_enter.Base.Maps.{
  Map, Set, get, contains_key, insert, get-insert, elem-retain, get-insert_self,
}
use hit_enter.Event.{Event, Nostr, PublicKey}
use hit_enter.Event.Kinds
use hit_enter.Event.States
use hit_enter.Event.States.{StatePiece, parse_state}
use hit_enter.Event.Rows.{RoleDef, default_role, owner_mark}
use hit_enter.Base.Words.{zero_bits}
use hit_enter.Perm.{sanitized, all}
use hit_enter.Perm.Bits.{Within, sanitized-Within}
use hit_enter.Group.{GroupState}
use hit_enter.Group.Soundness.{Sound, IsSound}
use hit_enter.Group.Fold.{
  Gathered, Loading, load_role, load_piece, load, stamp, with_default, known_roles, assign, proven,
  seat_owner, settle_snapshot, blank, unloaded, with_invites, start,
}

-- The owner's mark is no role, and roles grant defined bits only.
record AreRoles (roles : Map Text RoleDef) : Type 0 where
  unmarked : get owner_mark roles ≡ none
  within : (r : Text) (d : RoleDef) → get r roles ≡ some d → Within d.perms all

insert-AreRoles :
    (r : Text) (d : RoleDef) (roles : Map Text RoleDef)
    → (r == owner_mark) ≡ false
    → Within d.perms all
    → AreRoles roles
    → AreRoles (insert r d roles)
insert-AreRoles r d roles plain w h = record {
  unmarked = ground (arith, get-insert r owner_mark d roles, h.unmarked);
  within = λ q e eq. elim (Bool-cases (r == q)) [
    | inl here ↦
        let same : d ≡ e = ground (arith, get-insert r q d roles) in
        subst (λ x. Within (RoleDef.perms x) all) same w
    | inr there ↦ h.within q e (ground (arith, get-insert r q d roles))
  ];
}

load_role-AreRoles :
    (roles : Map Text RoleDef) (r : RoleDef) → AreRoles roles → AreRoles (load_role roles r)
unfolding load_role
load_role-AreRoles roles r h = elim (Bool-cases (r.id == owner_mark)) [
  | inl mark ↦ rw (load_role, mark) h
  | inr plain ↦
      rw (load_role, plain)
        (insert-AreRoles r.id (record r { perms = sanitized r.perms }) roles plain
          (sanitized-Within r.perms) h)
]

load_roles-AreRoles :
    (roles : Map Text RoleDef) (rs : List RoleDef)
    → AreRoles roles
    → AreRoles (fold load_role roles rs)
load_roles-AreRoles roles [] h = h
load_roles-AreRoles roles (r ∷ rs) h =
    load_roles-AreRoles (load_role roles r) rs (load_role-AreRoles roles r h)

-- What holds while the pieces are loaded: nobody holds a role yet, and nobody is a newcomer.
record IsLoading (l : Loading) : Type 0 where
  are_roles : AreRoles l.state.roles
  bare : (p : PublicKey) (held : Set Text) → get p l.state.members ≡ some held → held ≡ []
  unjoined : l.state.joined ≡ []

bare_map :
    (ps : List PublicKey) (p : PublicKey) (held : Set Text)
    → get p (map (λ q. (q, [])) ps) ≡ some held
    → held ≡ []
unfolding get
bare_map [] p held e = ground arith
bare_map (q ∷ ps) p held e = ground (arith, bare_map ps p held)

load_piece-IsLoading :
    (l : Loading) (piece : StatePiece) → IsLoading l → IsLoading (load_piece l piece)
unfolding load_piece
load_piece-IsLoading l (States.metadata m) h = record {
  are_roles = h.are_roles;
  bare = h.bare;
  unjoined = h.unjoined;
}
load_piece-IsLoading l (States.admins a) h = record {
  are_roles = h.are_roles;
  bare = h.bare;
  unjoined = h.unjoined;
}
load_piece-IsLoading l (States.members m) h = record {
  are_roles = h.are_roles;
  bare = bare_map m.members;
  unjoined = h.unjoined;
}
load_piece-IsLoading l (States.roles rs) h = record {
  are_roles = load_roles-AreRoles l.state.roles rs h.are_roles;
  bare = h.bare;
  unjoined = h.unjoined;
}

load-IsLoading :
    (n : Nostr) (pieces : Map ℕ Event) (kinds : List ℕ) (l l' : Loading)
    → load n pieces l kinds ≡ some l'
    → IsLoading l
    → IsLoading l'
unfolding load stamp
load-IsLoading n pieces [] l l' e h = let same : l ≡ l' = ground arith in rw (← same) h
load-IsLoading n pieces (kind ∷ kinds) l l' e h = elim (Option-cases (get kind pieces)) [
  | inl absent ↦ absurd (ground arith)
  | inr (ev, there) ↦ elim (Option-cases (parse_state n ev)) [
    | inl bad ↦ absurd (ground arith)
    | inr ((g, seq, piece), parsed) ↦
        let stamped = stamp l seq ev.created_at in
        load-IsLoading n pieces kinds (load_piece stamped piece) l' (ground arith) (
          load_piece-IsLoading stamped piece
            (record { are_roles = h.are_roles; bare = h.bare; unjoined = h.unjoined }))
  ]
]

-- A group without a default role gets an empty one.
with_default-AreRoles :
    (roles : Map Text RoleDef)
    → AreRoles roles
    → AreRoles (with_default roles) × (contains_key default_role (with_default roles) ≡ true)
unfolding with_default contains_key text_beq
with_default-AreRoles roles h = elim (Option-cases (get default_role roles)) [
  | inl absent ↦ rw absent (
    insert-AreRoles default_role _ roles refl (λ i. omega (arith, zero_bits i)) h,
    rw (get-insert_self default_role _ roles),
  )
  | inr (d, there) ↦ rw there (h, rw there)
]

-- Members hold defined roles only, beside the default one.
abbrev HoldDefined : Map Text RoleDef → Map PublicKey (Set Text) → Type 0
HoldDefined roles members =
    (p : PublicKey) (held : Set Text) (r : Text)
    → get p members ≡ some held
    → elem r held ≡ true
    → (contains_key r roles ≡ true) × ((r == default_role) ≡ false)

assign-HoldDefined :
    (roles : Map Text RoleDef) (members : Map PublicKey (Set Text)) (a : PublicKey × Set Text)
    → HoldDefined roles members
    → HoldDefined roles (assign roles members a)
unfolding assign known_roles
assign-HoldDefined roles members (q, given) h p held r e m = ground (
  arith,
  get-insert q p (known_roles roles given) members,
  elem-retain (λ x. not (x == default_role) && contains_key x roles) r given,
  h p held r,
)

assign_all-HoldDefined :
    (roles : Map Text RoleDef) (given : List (PublicKey × Set Text))
    (members : Map PublicKey (Set Text))
    → HoldDefined roles members
    → HoldDefined roles (fold (assign roles) members given)
assign_all-HoldDefined roles [] members h = h
assign_all-HoldDefined roles (a ∷ given) members h =
    assign_all-HoldDefined roles given (assign roles members a)
      (assign-HoldDefined roles members a h)

seat_owner-Sound :
    (roles : Map Text RoleDef) (members : Map PublicKey (Set Text)) (owner : Option PublicKey)
    → AreRoles roles
    → contains_key default_role roles ≡ true
    → HoldDefined roles members
    → Sound roles (seat_owner owner members) owner []
unfolding seat_owner contains_key get
seat_owner-Sound roles members none h d held = record {
  default_defined = d;
  mark_undefined = h.unmarked;
  perms_defined = h.within;
  held_defined = held;
  owner_seated = λ o e. ground arith;
  newcomers_seated = λ p e. ground arith;
}
seat_owner-Sound roles members (some owner) h d held = record {
  default_defined = d;
  mark_undefined = h.unmarked;
  perms_defined = h.within;
  held_defined = λ p now r e m. ground (arith, get-insert owner p [] members, held p now r);
  owner_seated = λ o e. ground (arith, get-insert owner o [] members, nat_key.beq_iff owner o);
  newcomers_seated = λ p e. ground arith;
}

bare-HoldDefined :
    (roles : Map Text RoleDef) (members : Map PublicKey (Set Text))
    → ((p : PublicKey) (held : Set Text) → get p members ≡ some held → held ≡ [])
    → HoldDefined roles members
bare-HoldDefined roles members bare p held r e m =
    let none_held = bare p held e in absurd (ground arith)

settle_snapshot-IsSound :
    (l : Loading) (creators : Set PublicKey) → IsLoading l → IsSound (settle_snapshot l creators)
unfolding settle_snapshot
settle_snapshot-IsSound l creators h =
    let roles = with_default l.state.roles in
    let (are, default_there) = with_default-AreRoles l.state.roles h.are_roles in
    rw h.unjoined (
      seat_owner-Sound roles _ (proven l.named creators) are default_there (
        assign_all-HoldDefined roles l.assignments l.state.members
          (bare-HoldDefined roles l.state.members h.bare)))

pub start-IsSound :
    (n : Nostr) (group : PublicKey) (g : Gathered) (s : GroupState)
    → start n group g ≡ some s
    → IsSound s
unfolding start blank with_invites get
start-IsSound n group g s e =
    elim (Option-cases (load n g.pieces (unloaded group) Kinds.state_kinds)) [
      | inl missing ↦ absurd (ground arith)
      | inr (l, loaded) ↦
          let same : with_invites n g.actions (settle_snapshot l g.creators) ≡ s = ground arith in
          rw (← same) (
            settle_snapshot-IsSound l g.creators (
              load-IsLoading n g.pieces Kinds.state_kinds (unloaded group) l loaded
                unloaded-IsLoading))
    ]
  where
    unloaded-IsLoading : IsLoading (unloaded group)
    unloaded-IsLoading = record {
      are_roles = record { unmarked = refl; within = λ r d e. absurd (ground arith) };
      bare = λ p held e. absurd (ground arith);
      unjoined = refl;
    }
