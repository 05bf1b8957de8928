-- ===== src/Perm/Names.antt =====
-- The names of the permissions, of crates/hit-group/src/perm.rs: `NAMED`, `names`, `parse_list`
-- and `Display`.
use hit_enter.Base.{
  ℕ, zero, suc, ◌<◌, ◌^◌, ◌≡◌, refl, Bool, true, false, ◌&&◌, List, [], ◌∷◌, map, ok, err, Result,
  Text, ◌==◌, nat_key, text_key, text_beq, if◌then◌else◌, nat_beq_iff, arith, ap, some, none,
}
use hit_enter.Base.Lists.{retain, find}
use hit_enter.Base.Texts.{codes, trim, split_on, join_with}
use hit_enter.Perm.{
  Permissions, view_channel, send_messages, manage_messages, manage_channels, create_invite,
  manage_invites, kick_members, ban_members, mute_members, manage_roles, manage_group, attach_files,
  all, none_at_all, contains, union,
}

abbrev pub named : List (Text × Permissions)
named =
    (codes "view", view_channel)
    ∷ (codes "send", send_messages)
    ∷ (codes "manage-messages", manage_messages)
    ∷ (codes "manage-channels", manage_channels)
    ∷ (codes "invite", create_invite)
    ∷ (codes "manage-invites", manage_invites)
    ∷ (codes "kick", kick_members)
    ∷ (codes "ban", ban_members)
    ∷ (codes "mute", mute_members)
    ∷ (codes "manage-roles", manage_roles)
    ∷ (codes "manage-group", manage_group)
    ∷ (codes "attach", attach_files)
    ∷ []

-- `UnknownPermission(pub String)`.
pub record UnknownPermission : Type 0 where
  pub word : Text

unfoldable pub names : Permissions → List Text
unfolding contains
names p = map (λ e. e.0) (retain (λ e. contains p e.1) named)

-- The `match` on one word: what `out` becomes.
unfoldable pub read_word : Permissions → Text → Result UnknownPermission Permissions
unfolding union text_beq
read_word out word =
    if word == []
    then ok out
    else if word == codes "all"
    then ok (union out all)
    else if word == codes "none"
    then ok out
    else elim (find (λ e. e.0 == word) named) [
      | some (name, perm) ↦ ok (union out perm)
      | none ↦ err (record { word = word })
    ]

-- The loop of `parse_list`, over the words left.
unfoldable pub parse_words : Permissions → List Text → Result UnknownPermission Permissions
unfolding read_word trim
parse_words out [] = ok out
parse_words out (w ∷ ws) = elim (read_word out (trim w)) [
  | ok next ↦ parse_words next ws
  | err e ↦ err e
]

unfoldable pub parse_list : Text → Result UnknownPermission Permissions
unfolding parse_words split_on
parse_list list = parse_words none_at_all (split_on b',' list)

-- `Display`.
unfoldable pub display : Permissions → Text
unfolding names join_with
display p = elim (names p) [ [] ↦ codes "none" | n ∷ ns ↦ join_with (codes ",") (n ∷ ns) ]

-- Does a printed set of permissions read back as it was?
reads_back : Permissions → Bool
reads_back p = elim (parse_list (display p)) [ ok q ↦ q == p | err e ↦ false ]

-- Does every number under a bound pass a test?
passes_under : (ℕ → Bool) → ℕ → Bool
passes_under test zero = true
passes_under test (suc bound) = passes_under test bound && test bound

passed :
    (test : ℕ → Bool) (bound q : ℕ) → q < bound → passes_under test bound ≡ true → test q ≡ true
unfolding passes_under
passed test zero q small all_pass = absurd (omega arith)
passed test (suc bound) q small all_pass = ground (arith, passed test bound q)

every_set_reads_back : passes_under reads_back 4096 ≡ true
unfolding passes_under reads_back display parse_list
every_set_reads_back = refl

reads_back_sound :
    (r : Result UnknownPermission Permissions) (p : Permissions)
    → (elim r [ ok q ↦ q == p | err e ↦ false ]) ≡ true
    → r ≡ ok p
reads_back_sound (ok q) p h = ap ok ((nat_beq_iff q p).0 h)
reads_back_sound (err e) p h = ground arith

-- What `Display` prints for a set of defined permissions, `parse_list` reads back as that set.
pub parse_list-display : (p : Permissions) → p < 2 ^ 12 → parse_list (display p) ≡ ok p
unfolding reads_back
parse_list-display p h =
    reads_back_sound (parse_list (display p)) p (passed reads_back 4096 p h every_set_reads_back)
