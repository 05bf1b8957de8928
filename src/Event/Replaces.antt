-- ===== src/Event/Replaces.antt =====
-- `slot` and `replaces` of crates/hit-event/src/replace.rs: which events replace which.
pub mod Order
use hit_enter.Base.{
  ℕ, ltb, leb, Bool, true, false, ◌&&◌, ◌||◌, not, Option, none, some, [], ◌∷◌, Text, ◌==◌, nat_key,
  text_key, text_beq, if◌then◌else◌,
}
use hit_enter.Base.Lists.{elem, any}
use hit_enter.Base.Texts.{codes}
use hit_enter.Event.{Event, Nostr}
use hit_enter.Event.Kinds
use hit_enter.Event.Tags.{seq_of}

pub data Slot : Type 0 where
  regular : Slot
  replaceable : Slot
  addressable : Text → Slot
  ephemeral : Slot

-- `unwrap_or_default`.
or_empty : Option Text → Text
or_empty none = []
or_empty (some s) = s

unfoldable pub slot : Nostr → Event → Slot
unfolding or_empty
slot n ev =
    let k = ev.kind in
    if k == 0 || k == 3 || (leb 10000 k && ltb k 20000)
    then replaceable
    else if leb 20000 k && ltb k 30000
    then ephemeral
    else if leb 30000 k && ltb k 40000
    then addressable (or_empty (n.identifier ev.tags))
    else regular

-- Of crates/hit-event/src/binding.rs.
unfoldable pub is_revoked : Event → Bool
unfolding text_beq
is_revoked ev = any (λ t. elim t [ [] ↦ false | w ∷ rest ↦ w == codes "revoked" ]) ev.tags

-- `n > c` on options: nothing is below everything.
seq_above : Option ℕ → Option ℕ → Bool
seq_above none c = false
seq_above (some n) none = true
seq_above (some n) (some c) = ltb c n

same_seq : Option ℕ → Option ℕ → Bool
same_seq none none = true
same_seq (some n) (some c) = n == c
same_seq _ _ = false

-- The order behind the `seq` of a group's state.
newer : Event → Event → Bool
unfolding is_revoked
newer new current =
    if not (new.created_at == current.created_at)
    then ltb current.created_at new.created_at
    else if new.kind == Kinds.device_binding
        && current.kind == Kinds.device_binding
        && is_revoked new
        && not (is_revoked current)
    then true
    else if new.kind == Kinds.device_binding
        && current.kind == Kinds.device_binding
        && not (is_revoked new)
        && is_revoked current
    then false
    else ltb new.id current.id

unfoldable pub replaces : Event → Event → Bool
unfolding seq_of seq_above same_seq newer
replaces new current =
    if elem new.kind Kinds.state_kinds
      && new.kind == current.kind
      && not (same_seq (seq_of new) (seq_of current))
    then seq_above (seq_of new) (seq_of current)
    else newer new current
