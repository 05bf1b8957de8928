-- ===== src/Event/Edits.antt =====
-- `Edit` of crates/hit-event/src/group.rs: one change that a `9002` makes, and how its row is read.
use hit_enter.Base.{
  ℕ, Bool, true, false, Option, none, some, List, [], ◌∷◌, Text, ◌==◌, text_key, text_beq,
  if◌then◌else◌, and_then,
}
use hit_enter.Base.Texts.{codes, parse_u32}
use hit_enter.Event.Rows.{Channel, Override, RoleDef, parse_channel, parse_override, parse_role}

pub data Edit : Type 0 where
  name : Text → Edit
  public : Bool → Edit
  newcomer_wait : ℕ → Edit
  about : Text → Edit
  channel : Channel → Edit
  channel_delete : Text → Edit
  override : Override → Edit
  role : RoleDef → Edit
  role_delete : Text → Edit

-- A row behind a word that takes one value.
abbrev value_row : (Text → Option Edit) → List Text → Option Edit
value_row f [] = none
value_row f (v ∷ rest) = f v

-- The rows of a known word; `none` is a row of it that is malformed.
abbrev known {ℓ} : {A : Type ℓ} → (A → Edit) → Option A → Option (Option Edit)
known f none = none
known f (some a) = some (some (f a))

-- `Edit::parse`: `none` is malformed, `some none` a row that is no edit.
unfoldable pub parse : List Text → Option (Option Edit)
unfolding text_beq parse_u32 parse_channel parse_override parse_role
parse [] = some none
parse (n ∷ row) =
    if n == codes "name"
    then known (λ e. e) (value_row (λ v. some (name v)) row)
    else if n == codes "public"
    then some (some (public true))
    else if n == codes "private"
    then some (some (public false))
    else if n == codes "newcomer_wait"
    then known (λ e. e) (value_row (λ v. and_then (parse_u32 v) (λ s. some (newcomer_wait s))) row)
    else if n == codes "about"
    then known (λ e. e) (value_row (λ v. some (about v)) row)
    else if n == codes "channel"
    then known channel (parse_channel row)
    else if n == codes "channel-delete"
    then known (λ e. e) (value_row (λ v. some (channel_delete v)) row)
    else if n == codes "override"
    then known override (parse_override row)
    else if n == codes "role"
    then known role (parse_role row)
    else if n == codes "role-delete"
    then known (λ e. e) (value_row (λ v. some (role_delete v)) row)
    else some none

-- The loop over the tags of a `9002`: every edit of theirs, in order.
unfoldable pub parse_all : List (List Text) → Option (List Edit)
unfolding parse
parse_all [] = some []
parse_all (t ∷ ts) =
    let rest = parse_all ts in
    elim (parse t) [
      | none ↦ none
      | some none ↦ rest
      | some (some e) ↦ and_then rest (λ es. some (e ∷ es))
    ]
