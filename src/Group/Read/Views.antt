-- ===== src/Group/Read/Views.antt =====
-- Who sees what, by `may_read` of crates/hit-group/src/state.rs.
use hit_enter.Base.{true, false, some, [], Text, ◌≡◌, arith, nat_key, Option-cases, inl, inr, ◌⊎◌}
use hit_enter.Event.{Event, Nostr, PublicKey, Timestamp}
use hit_enter.Event.Tags.{channel_of}
use hit_enter.Perm.{view_channel, contains}
use hit_enter.Group.{GroupState, is_member, effective, effective_of}
use hit_enter.Group.Read.{
  may_read, may_read_outside, may_read_inside, removes, in_a_channel, open_to_readers,
}

-- An event in a channel is read by who can view the channel: a member by their own permissions,
-- anyone else only in a public group, and there as a member with no roles.
pub may_read_channel :
    (n : Nostr) (s : GroupState) (reader : PublicKey) (ev : Event) (now : Timestamp)
    → in_a_channel ev ≡ true
    → removes n ev reader ≡ false
    → may_read n s reader ev now ≡ true
    → (c : Text) × (channel_of ev ≡ some c)
      × ((is_member s reader ≡ true) × (contains (effective s reader c) view_channel ≡ true)
          ⊎ (is_member s reader ≡ false)
            × (s.public ≡ true)
            × (contains (effective_of s [] c) view_channel ≡ true))
unfolding may_read may_read_outside may_read_inside open_to_readers
may_read_channel n s reader ev now placed kept e = elim (Option-cases (channel_of ev)) [
  | inl nowhere ↦ absurd (ground arith)
  | inr (c, there) ↦ (c, there, ground arith)
]
