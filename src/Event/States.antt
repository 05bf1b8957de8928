-- ===== src/Event/States.antt =====
-- `StatePiece` and `parse_state` of crates/hit-event/src/group.rs: what the group key signs.
pub mod Rows
pub mod People
pub mod Signed
use hit_enter.Base.{
  ℕ, Bool, true, false, ◌&&◌, ◌||◌, not, Option, none, some, List, [], ◌∷◌, ◌++◌, Text, ◌==◌,
  nat_key, text_key, text_beq, if◌then◌else◌, and_then,
}
use hit_enter.Base.Lists.{elem}
use hit_enter.Base.Maps.{Map, Set, insert, add, from_list}
use hit_enter.Base.Texts.{codes, parse_u32, parse_u64}
use hit_enter.Event.{Event, Nostr, PublicKey, Timestamp}
use hit_enter.Event.Kinds
use hit_enter.Event.Rows.{
  Channel, Override, RoleDef, owner_mark, parse_channel, parse_override, parse_role,
}
use hit_enter.Event.Tags.{group_of, seq_of}

pub record Metadata : Type 0 where
  pub name : Text
  pub public : Bool
  pub newcomer_wait : ℕ
  pub about : Text
  pub channels : List Channel
  pub overrides : List Override

pub record Admins : Type 0 where
  pub owner : Option PublicKey
  pub assignments : Map PublicKey (Set Text)

pub record Members : Type 0 where
  pub members : Set PublicKey
  pub bans : Set PublicKey
  pub mutes : Map PublicKey Timestamp

pub data StatePiece : Type 0 where
  metadata : Metadata → StatePiece
  admins : Admins → StatePiece
  members : Members → StatePiece
  roles : List RoleDef → StatePiece

-- A loop over the rows; `none` ends it.
pub rows_from {ℓ} : {A : Type ℓ} → (A → List Text → Option A) → A → List (List Text) → Option A
rows_from step a [] = some a
rows_from step a (row ∷ rest) = elim (step a row) [ none ↦ none | some b ↦ rows_from step b rest ]

-- A row of a word that takes one value; without the value it is ignored.
with_value {ℓ} : {A : Type ℓ} → A → List Text → (Text → Option A) → Option A
with_value a [] f = some a
with_value a (v ∷ rest) f = f v

-- What the loop of `39000` holds: `public` and `private` are read apart.
pub record MetaLoop : Type 0 where
  pub meta : Metadata
  pub private : Bool

pub meta_row : MetaLoop → List Text → Option MetaLoop
unfolding with_value text_beq parse_u32 parse_channel parse_override
meta_row l [] = some l
meta_row l (n ∷ row) =
    let m = l.meta in
    if n == codes "name"
    then with_value l row (λ v. some (record l { meta = record m { name = v } }))
    else if n == codes "public"
    then some (record l { meta = record m { public = true } })
    else if n == codes "private"
    then some (record l { private = true })
    else if n == codes "newcomer_wait"
    then with_value l row (λ v.
      and_then (parse_u32 v) (λ s. some (record l { meta = record m { newcomer_wait = s } })))
    else if n == codes "about"
    then with_value l row (λ v. some (record l { meta = record m { about = v } }))
    else if n == codes "channel"
    then and_then (parse_channel row)
        (λ c. some (record l { meta = record m { channels = m.channels ++ c ∷ [] } }))
    else if n == codes "override"
    then and_then (parse_override row)
        (λ o. some (record l { meta = record m { overrides = m.overrides ++ o ∷ [] } }))
    else some l

abbrev pub no_metadata : MetaLoop
no_metadata = record {
  meta = record {
    name = [];
    public = false;
    newcomer_wait = 0;
    about = [];
    channels = [];
    overrides = [];
  };
  private = false;
}

-- Both words, or neither: private.
parse_metadata : List (List Text) → Option StatePiece
unfolding rows_from meta_row
parse_metadata tags =
    and_then (rows_from meta_row no_metadata tags)
      λ l. some (metadata (record (l.meta) { public = l.meta.public && not l.private }))

pub admin_row : Nostr → Admins → List Text → Option Admins
unfolding text_beq from_list
admin_row n a (word ∷ p ∷ rest) =
    if word == codes "p"
    then and_then (n.public_key p) (λ key.
      if elem owner_mark rest
      then some (record a { owner = some key })
      else some (record a { assignments = insert key (from_list rest) a.assignments }))
    else some a
admin_row n a _ = some a

parse_admins : Nostr → List (List Text) → Option StatePiece
unfolding rows_from admin_row
parse_admins n tags =
    and_then (rows_from (admin_row n) (record { owner = none; assignments = [] }) tags)
      λ a. some (admins a)

-- A `mute` row without its time is ignored.
mute_row : Nostr → Members → List Text → Option Members
unfolding parse_u64
mute_row n m (p ∷ until ∷ rest) =
    and_then (n.public_key p)
      λ key. and_then (parse_u64 until) λ u. some (record m { mutes = insert key u m.mutes })
mute_row n m _ = some m

pub member_row : Nostr → Members → List Text → Option Members
unfolding with_value text_beq mute_row
member_row n m [] = some m
member_row n m (word ∷ row) =
    if word == codes "p"
    then with_value m row
        (λ p. and_then (n.public_key p) (λ key. some (record m { members = add key m.members })))
    else if word == codes "ban"
    then with_value m row
        (λ p. and_then (n.public_key p) (λ key. some (record m { bans = add key m.bans })))
    else if word == codes "mute"
    then mute_row n m row
    else some m

parse_members : Nostr → List (List Text) → Option StatePiece
unfolding rows_from member_row
parse_members n tags =
    and_then (rows_from (member_row n) (record { members = []; bans = []; mutes = [] }) tags)
      λ m. some (members m)

pub role_row : List RoleDef → List Text → Option (List RoleDef)
unfolding text_beq parse_role
role_row rs [] = some rs
role_row rs (word ∷ row) =
    if word == codes "role" then and_then (parse_role row) (λ r. some (rs ++ r ∷ [])) else some rs

parse_roles : List (List Text) → Option StatePiece
unfolding rows_from role_row
parse_roles tags = and_then (rows_from role_row [] tags) λ rs. some (roles rs)

parse_piece : Nostr → Event → Option StatePiece
unfolding parse_metadata parse_admins parse_members parse_roles
parse_piece n ev =
    if ev.kind == Kinds.group_metadata
    then parse_metadata ev.tags
    else if ev.kind == Kinds.group_admins
    then parse_admins n ev.tags
    else if ev.kind == Kinds.group_members
    then parse_members n ev.tags
    else parse_roles ev.tags

unfoldable pub parse_state : Nostr → Event → Option (PublicKey × ℕ × StatePiece)
unfolding group_of seq_of parse_piece
parse_state n ev = and_then (group_of n ev) λ g.
    (if not (elem ev.kind Kinds.state_kinds) || not (ev.pubkey == g)
      then none
      else and_then (seq_of ev) λ seq. and_then (parse_piece n ev) λ piece. some (g, seq, piece))
