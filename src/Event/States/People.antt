-- ===== src/Event/States/People.antt =====
-- The rows of a signed snapshot that name people, crates/hit-event/src/group.rs, read back list by list.
use hit_enter.Base.{
  ◌<◌, ◌^◌, true, false, Option, none, some, List, [], ◌∷◌, ◌++◌, map, Text, nat_key, text_key,
  text_beq, nat_text, ◌≡◌, refl, ◌∙◌, parse_u64-nat_text,
}
use hit_enter.Base.Lists.{elem, fold}
use hit_enter.Base.Maps.{Map, Set, add, insert}
use hit_enter.Base.Rising.{is_rising, from_list_rising, text_key-IsOrder}
use hit_enter.Base.Texts.{codes}
use hit_enter.Event.{Nostr, PublicKey, Timestamp}
use hit_enter.Event.Rows.{owner_mark}
use hit_enter.Event.Snapshots.{GroupKey, owner_tags, holder_tags}
use hit_enter.Event.States.{Admins, Members, rows_from, with_value, admin_row, member_row, mute_row}
use hit_enter.Event.States.Rows.{row_step, Each}

-- The entries with roles.
abbrev pub holders : Map PublicKey (Set Text) → Map PublicKey (Set Text)
holders [] = []
holders ((p, []) ∷ m) = holders m
holders ((p, r ∷ rs) ∷ m) = (p, r ∷ rs) ∷ holders m

-- Roles in order, none of them the owner's mark.
abbrev pub FitsHolder : PublicKey × Set Text → Type 0
FitsHolder e = (elem owner_mark e.1 ≡ false) × (is_rising e.1 ≡ true)

module _ (n : Nostr) (key : GroupKey)
    (reads : (p : PublicKey) → n.public_key (key.to_hex p) ≡ some p) where
  holder_row :
      (a : Admins) (p : PublicKey) (rs : Set Text)
      → FitsHolder (p, rs)
      → admin_row n a (codes "p" ∷ key.to_hex p ∷ rs)
        ≡ some (record a { assignments = insert p rs a.assignments })
  unfolding admin_row text_beq
  holder_row a p rs (plain, order) =
      rw (reads p, plain, from_list_rising text_key-IsOrder rs order) refl

  owner_row :
      (a : Admins) (p : PublicKey)
      → admin_row n a (codes "p" ∷ key.to_hex p ∷ owner_mark ∷ [])
        ≡ some (record a { owner = some p })
  unfolding admin_row text_beq
  owner_row a p = rw (reads p) refl

  pub holder_rows :
      (a : Admins) (m : Map PublicKey (Set Text))
      → Each FitsHolder m
      → rows_from (admin_row n) a (holder_tags key m)
        ≡ some (record a { assignments = fold (λ t e. insert e.0 e.1 t) a.assignments (holders m) })
  unfolding rows_from
  holder_rows a [] h = refl
  holder_rows a ((p, []) ∷ m) (f, h) = holder_rows a m h
  holder_rows a ((p, r ∷ rs) ∷ m) (f, h) =
      let next = record a { assignments = insert p (r ∷ rs) a.assignments } in
      row_step (admin_row n) a next (codes "p" ∷ key.to_hex p ∷ r ∷ rs) (holder_tags key m)
        (holder_row a p (r ∷ rs) f)
      ∙ holder_rows next m h

  pub owner_rows :
      (o : Option PublicKey) (ms : Map PublicKey (Set Text)) (rest : List (List Text))
      → rows_from
          (admin_row n)
          (record { owner = none; assignments = ms })
          (owner_tags key o ++ rest)
        ≡ rows_from (admin_row n) (record { owner = o; assignments = ms }) rest
  owner_rows none ms rest = refl
  owner_rows (some p) ms rest =
      let before : Admins = record { owner = none; assignments = ms } in
      let after : Admins = record { owner = some p; assignments = ms } in
      row_step (admin_row n) before after (codes "p" ∷ key.to_hex p ∷ owner_mark ∷ []) rest
        (owner_row before p)

  person_row :
      (m : Members) (p : PublicKey)
      → member_row n m (codes "p" ∷ key.to_hex p ∷ [])
        ≡ some (record m { members = add p m.members })
  unfolding member_row with_value text_beq
  person_row m p = rw (reads p) refl

  pub person_rows :
      (m : Members) (ps : List PublicKey) (rest : List (List Text))
      → rows_from (member_row n) m (map (λ p. codes "p" ∷ key.to_hex p ∷ []) ps ++ rest)
        ≡ rows_from (member_row n) (record m { members = fold (λ s p. add p s) m.members ps }) rest
  person_rows m [] rest = refl
  person_rows m (p ∷ ps) rest =
      let next = record m { members = add p m.members } in
      row_step (member_row n) m next (codes "p" ∷ key.to_hex p ∷ []) _ (person_row m p)
      ∙ person_rows next ps rest

  ban_row :
      (m : Members) (p : PublicKey)
      → member_row n m (codes "ban" ∷ key.to_hex p ∷ []) ≡ some (record m { bans = add p m.bans })
  unfolding member_row with_value text_beq
  ban_row m p = rw (reads p) refl

  pub ban_rows :
      (m : Members) (ps : List PublicKey) (rest : List (List Text))
      → rows_from (member_row n) m (map (λ p. codes "ban" ∷ key.to_hex p ∷ []) ps ++ rest)
        ≡ rows_from (member_row n) (record m { bans = fold (λ s p. add p s) m.bans ps }) rest
  ban_rows m [] rest = refl
  ban_rows m (p ∷ ps) rest =
      let next = record m { bans = add p m.bans } in
      row_step (member_row n) m next (codes "ban" ∷ key.to_hex p ∷ []) _ (ban_row m p)
      ∙ ban_rows next ps rest

  muted_row :
      (m : Members) (p : PublicKey) (until : Timestamp)
      → until < 2 ^ 64
      → member_row n m (codes "mute" ∷ key.to_hex p ∷ nat_text until ∷ [])
        ≡ some (record m { mutes = insert p until m.mutes })
  unfolding member_row mute_row text_beq
  muted_row m p until h = rw (reads p, parse_u64-nat_text until h) refl

  pub mute_rows :
      (m : Members) (es : Map PublicKey Timestamp)
      → Each (λ e. e.1 < 2 ^ 64) es
      → rows_from (member_row n) m (map (λ e. codes "mute" ∷ key.to_hex e.0 ∷ nat_text e.1 ∷ []) es)
        ≡ some (record m { mutes = fold (λ t e. insert e.0 e.1 t) m.mutes es })
  unfolding rows_from
  mute_rows m [] h = refl
  mute_rows m ((p, until) ∷ es) (f, h) =
      let next = record m { mutes = insert p until m.mutes } in
      row_step (member_row n) m next (codes "mute" ∷ key.to_hex p ∷ nat_text until ∷ []) _
        (muted_row m p until f)
      ∙ mute_rows next es h
