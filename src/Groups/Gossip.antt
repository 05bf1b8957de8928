-- ===== src/Groups/Gossip.antt =====
-- Gossip and reading, in crates/hit-group/src/lib.rs.
use hit_enter.Base.{
  Bool, true, false, some, [], ◌∷◌, ◌≡◌, arith, ◌==◌, nat_key, Option-cases, Bool-cases, inl, inr,
}
use hit_enter.Base.Lists.{elem, every}
use hit_enter.Base.Maps.{Map, get, contains_key, keys}
use hit_enter.Event.{Event, Nostr, PublicKey, Timestamp}
use hit_enter.Event.Kinds
use hit_enter.Event.Tags.{channel_of}
use hit_enter.Group.{GroupState, is_member, effective}
use hit_enter.Group.Read.{may_read, may_read_inside, in_a_channel, is_folded, everyone_can_view}
use hit_enter.Groups.{Groups, gossip_group, gossips, state_of, is_personal}
use hit_enter.Groups
use hit_enter.Perm.{view_channel, contains}

every-keys {ℓ} :
    {V : Type ℓ} (f : PublicKey → Bool) (m : Map PublicKey V) (p : PublicKey)
    → every f (keys m) ≡ true
    → contains_key p m ≡ true
    → f p ≡ true
unfolding contains_key get
every-keys f [] p h c = absurd (ground arith)
every-keys f ((q, v) ∷ m) p h c = elim (Bool-cases (q == p)) [
  | inl here ↦ let same : q ≡ p = (nat_key.beq_iff q p).0 here in rw (← same) (ground arith)
  | inr there ↦ every-keys f m p (ground arith) (ground arith)
]

-- The kinds posted in a channel are neither wraps, nor personal, nor actions.
channel_kind :
    (ev : Event)
    → in_a_channel ev ≡ true
    → ((ev.kind == Kinds.gift_wrap) ≡ false)
      × (is_personal ev.kind ≡ false)
      × ((ev.kind == Kinds.create_invite) ≡ false)
      × (elem ev.kind Kinds.action_kinds ≡ false)
unfolding in_a_channel is_personal
channel_kind ev h = ground arith

inside_sees :
    (n : Nostr) (s : GroupState) (p : PublicKey) (ev : Event) (now : Timestamp)
    → gossips s ev ≡ true
    → in_a_channel ev ≡ true
    → is_member s p ≡ true
    → may_read n s p ev now ≡ true
unfolding gossips everyone_can_view is_member may_read may_read_inside is_folded
inside_sees n s p ev now h placed member = elim (Option-cases (channel_of ev)) [
  | inl nowhere ↦ absurd (ground arith)
  | inr (c, there) ↦ ground (
    arith,
    channel_kind ev placed,
    every-keys (λ q. contains (effective s q c) view_channel) s.members p,
  )
]

-- An event posted in a channel goes over a group's gossip only if every member of the group may
-- read it.
pub gossip_group-may_read :
    (n : Nostr) (g : Groups) (ev : Event) (now : Timestamp) (group p : PublicKey) (s : GroupState)
    → gossip_group n g ev ≡ some group
    → state_of g group ≡ some s
    → in_a_channel ev ≡ true
    → is_member s p ≡ true
    → Groups.may_read n g p ev now ≡ true
unfolding gossip_group Groups.may_read
gossip_group-may_read n g ev now group p s e there placed member =
    ground (arith, channel_kind ev placed, inside_sees n s p ev now)
