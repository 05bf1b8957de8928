-- ===== src/Group.antt =====
-- crates/hit-group/src/state.rs: a group's state, and the answers to every permission question
-- about it. Here are the state, the refusals of crates/hit-group/src/lib.rs, and the answers; the
-- modules below are the actions, the edits, the fold, and what is judged and read by the state.
pub mod Soundness
pub mod Powers
pub mod Apply
pub mod Execute
pub mod Edit
pub mod Fold
pub mod Judge
pub mod Read
pub mod Channels
pub mod Speech
pub mod Posting
pub mod Order
pub mod Grants
pub mod Bans
pub mod Reach
use hit_enter.Base.{
  ℕ, ◌+◌, ◌-◌, ◌^◌, max, ltb, leb, Bool, true, false, ◌&&◌, ◌||◌, not, Option, none, some, List, [],
  ◌∷◌, Text, ◌==◌, nat_key, text_key, text_beq, if◌then◌else◌, and_then, is_some, Result, ok, err,
  ensure, ℤ, negsuc, ltb_ℤ, max_ℤ,
}
use hit_enter.Base.Lists.{elem, any, find, fold, retain, filter_map, length, every}
use hit_enter.Base.Maps.{Map, Set, get, contains_key, keys}
use hit_enter.Event.{PublicKey, EventId, Timestamp}
use hit_enter.Event.Kinds.{public_newcomer_floor}
use hit_enter.Event.Rows.{Channel, Override, RoleDef, default_role}
use hit_enter.Perm.{
  Permissions, all, none_at_all, view_channel, channel_scoped, manage_roles, contains, union,
  without, intersection, sanitized, beyond, is_empty,
}

-- `Rank(i64)`.
abbrev pub Rank : Type 0
Rank = ℤ

-- `Rank::FLOOR`, the least `i64`.
abbrev pub floor : Rank
floor = negsuc (2 ^ 63 - 1)

pub record Silence : Type 0 where
  pub who : PublicKey
  pub from : Timestamp
  -- `none`: until they are a member again.
  pub until : Option Timestamp
  pub mute : Bool

-- `self.until.is_none_or(|u| t < u)`.
abbrev before_end : Option Timestamp → Timestamp → Bool
before_end none t = true
before_end (some u) t = ltb t u

unfoldable pub covers : Silence → Timestamp → Bool
covers s t = leb s.from t && before_end s.until t

abbrev pub max_label : ℕ
max_label = 64

pub record Invite : Type 0 where
  pub author : PublicKey
  pub created_at : Timestamp
  pub expires : Option Timestamp

pub record GroupState : Type 0 where
  pub id : PublicKey
  pub seq : ℕ
  pub cutoff : Timestamp
  pub name : Text
  pub public : Bool
  pub newcomer_wait : ℕ
  pub about : Text
  pub joined : Map PublicKey Timestamp
  pub owner : Option PublicKey
  pub named_owner : Option PublicKey
  pub channels : List Channel
  pub overrides : List Override
  pub roles : Map Text RoleDef
  pub members : Map PublicKey (Set Text)
  pub invites : Map Text (List Invite)
  pub applied : Set EventId
  pub bans : Set PublicKey
  pub mutes : Map PublicKey Timestamp
  pub silences : List Silence

-- `Refusal` of crates/hit-group/src/lib.rs.
pub data Refusal : Type 0 where
  not_a_member already_a_member : Refusal
  kind_not_carried : ℕ → Refusal
  group_not_carried no_state not_signed_by_group malformed no_such_channel : Refusal
  lacks : Permissions → Refusal
  the_owner not_the_owner outranked cannot_grant unknown_role no_such_invite folded : Refusal
  not_applied from_the_future stale banned not_banned muted not_muted bad_edit : Refusal
  too_soon newcomer : ℕ → Refusal
  not_ours too_large : Refusal

-- `Some(p) == o`.
unfoldable pub names_key : Option PublicKey → PublicKey → Bool
names_key none p = false
names_key (some o) p = o == p

unfoldable pub is_owner : GroupState → PublicKey → Bool
unfolding names_key
is_owner s p = names_key s.owner p

unfoldable pub is_member : GroupState → PublicKey → Bool
unfolding contains_key
is_member s p = contains_key p s.members

-- The bits of a role, if it is defined.
unfoldable pub role_perms : Map Text RoleDef → Text → Permissions
role_perms roles r = elim (get r roles) [ none ↦ none_at_all | some d ↦ d.perms ]

-- What holding `held` (and the default role) grants, group-wide.
unfoldable pub base_of : GroupState → Set Text → Permissions
unfolding sanitized union role_perms
base_of s held =
    sanitized (fold (λ p r. union p (role_perms s.roles r)) none_at_all (default_role ∷ held))

-- Group-wide permissions; a non-member holds nothing.
unfoldable pub base : GroupState → PublicKey → Permissions
base s p =
    if is_owner s p
    then all
    else elim (get p s.members) [ none ↦ none_at_all | some held ↦ base_of s held ]

-- Does an override apply to a holder of `held` in `channel`?
unfoldable pub applies_in : Text → Set Text → Override → Bool
applies_in channel held o = o.channel == channel && (o.role == default_role || elem o.role held)

unfoldable pub allowed : GroupState → Set Text → Text → Permissions
allowed s held channel =
    fold (λ p o. union p o.allow) none_at_all (retain (applies_in channel held) s.overrides)

unfoldable pub denied : GroupState → Set Text → Text → Permissions
denied s held channel =
    fold (λ p o. union p o.deny) none_at_all (retain (applies_in channel held) s.overrides)

-- What holding `held` (and the default role) grants in `channel`.
unfoldable pub effective_of : GroupState → Set Text → Text → Permissions
unfolding applies_in allowed denied
effective_of s held channel =
    let allow = intersection (allowed s held channel) channel_scoped in
    let deny = intersection (denied s held channel) channel_scoped in
    sanitized (union (without (base_of s held) deny) allow)

unfoldable pub effective : GroupState → PublicKey → Text → Permissions
effective s p channel =
    if is_owner s p
    then all
    else elim (get p s.members) [ none ↦ none_at_all | some held ↦ effective_of s held channel ]

-- The positions of the roles held that are defined.
unfoldable pub positions : GroupState → Set Text → List ℤ
positions s held =
    filter_map (λ r. elim (get r s.roles) [ none ↦ none | some d ↦ some d.position ]) held

-- `Iterator::max`, or the floor of nothing.
unfoldable pub highest : List ℤ → Rank
highest [] = floor
highest (x ∷ xs) = fold max_ℤ x xs

unfoldable pub rank : GroupState → PublicKey → Rank
unfolding positions highest
rank s p = elim (get p s.members) [ none ↦ floor | some held ↦ highest (positions s held) ]

unfoldable pub outranks : GroupState → PublicKey → PublicKey → Bool
outranks s actor target =
    if is_owner s target
    then false
    else if is_owner s actor
    then true
    else ltb_ℤ (rank s target) (rank s actor)

unfoldable pub outranks_role : GroupState → PublicKey → RoleDef → Bool
outranks_role s actor role = is_owner s actor || ltb_ℤ role.position (rank s actor)

unfoldable pub can_grant : GroupState → PublicKey → Permissions → Bool
unfolding is_empty beyond
can_grant s actor granting = is_empty (beyond granting (base s actor))

unfoldable pub may_assign : GroupState → PublicKey → Text → Bool
unfolding contains outranks_role can_grant
may_assign s actor id = elim (get id s.roles) [
  | none ↦ false
  | some r ↦
      not (id == default_role)
      && contains (base s actor) manage_roles
      && outranks_role s actor r
      && can_grant s actor r.perms
]

unfoldable pub require_member : GroupState → PublicKey → Result Refusal (Unit {0})
require_member s p = ensure (is_member s p) not_a_member

unfoldable pub require : GroupState → PublicKey → Permissions → Result Refusal (Unit {0})
require s p needed = ensure (contains (base s p) needed) (lacks needed)

unfoldable pub channel_named : GroupState → Text → Option Channel
channel_named s id = find (λ c. c.id == id) s.channels

unfoldable pub newcomer_wait_of : GroupState → ℕ
newcomer_wait_of s = if s.public then max s.newcomer_wait public_newcomer_floor else s.newcomer_wait

-- `posts_from`: when a newcomer still waiting at `now` may first post.
unfoldable pub posts_from : GroupState → PublicKey → Timestamp → Option Timestamp
unfolding newcomer_wait_of
posts_from s p now =
    let wait = newcomer_wait_of s in
    if wait == 0
    then none
    else and_then (get p s.joined) (λ at. if ltb now (at + wait) then some (at + wait) else none)

unfoldable pub silence_at : GroupState → PublicKey → Timestamp → Option Silence
unfolding covers
silence_at s who t = find (λ x. x.who == who && covers x t) s.silences

unfoldable pub muted_until : GroupState → PublicKey → Timestamp → Option Timestamp
muted_until s p now = and_then (get p s.mutes) (λ u. if ltb now u then some u else none)

unfoldable pub slowmode : GroupState → Text → ℕ
unfolding channel_named
slowmode s channel = elim (channel_named s channel) [ none ↦ 0 | some c ↦ c.slowmode ]
