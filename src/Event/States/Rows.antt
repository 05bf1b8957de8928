-- ===== src/Event/States/Rows.antt =====
-- The rows of a signed snapshot, crates/hit-event/src/group.rs, read back list by list.
use hit_enter.Base.{
  ℕ, suc, zero, ltb, ◌<◌, ◌^◌, not, Bool, true, false, Option, some, List, [], ◌∷◌, ◌++◌, map, Text,
  nat_key, text_key, text_beq, nat_text, ◌≡◌, refl, sym, ap, ◌∙◌, arith, parse_u32-nat_text,
}
use mathlib.Core.List.{append_assoc, append-nil}
use hit_enter.Base.Texts.{codes}
use hit_enter.Event.Rows.{Channel, Override, RoleDef}
use hit_enter.Event.Builders.{channel_tag, override_tag, role_tag, visibility_tags}
use hit_enter.Event.Builders.Trips.{
  FitsOverride, FitsRole, parse_channel_tag, parse_override_tag, parse_role_tag,
}
use hit_enter.Event.Snapshots.{wait_tags, about_tags}
use hit_enter.Event.States.{MetaLoop, no_metadata, rows_from, meta_row, with_value, role_row}

-- Of every element.
abbrev pub Each {ℓ} : {A : Type ℓ} → (A → Type 0) → List A → Type 0
Each P [] = Unit {0}
Each P (x ∷ xs) = P x × Each P xs

-- The loop of `39000` after the name and the words on visibility.
abbrev pub with_words : Text → Bool → MetaLoop
with_words name p = record {
  meta = record {
    name = name;
    public = p;
    newcomer_wait = 0;
    about = [];
    channels = [];
    overrides = [];
  };
  private = not p;
}

pub visibility_rows :
    (name : Text) (p : Bool) (rest : List (List Text))
    → rows_from meta_row no_metadata ((codes "name" ∷ name ∷ []) ∷ visibility_tags p ++ rest)
      ≡ rows_from meta_row (with_words name p) rest
unfolding rows_from meta_row with_value visibility_tags text_beq
visibility_rows name true rest = refl
visibility_rows name false rest = refl

-- One row, and the rest.
pub row_step {ℓ} :
    {A : Type ℓ} (step : A → List Text → Option A) (a b : A) (row : List Text)
    (rest : List (List Text))
    → step a row ≡ some b
    → rows_from step a (row ∷ rest) ≡ rows_from step b rest
unfolding rows_from
row_step step a b row rest e = rw (rows_from, e) refl

wait_row :
    (l : MetaLoop) (w : ℕ)
    → w < 2 ^ 32
    → meta_row l (codes "newcomer_wait" ∷ nat_text w ∷ [])
      ≡ some (record l { meta = record (l.meta) { newcomer_wait = w } })
unfolding meta_row with_value text_beq
wait_row l w h = rw (parse_u32-nat_text w h) refl

pub wait_rows :
    (l : MetaLoop) (w : ℕ) (rest : List (List Text))
    → w < 2 ^ 32
    → rows_from meta_row
        (record l { meta = record (l.meta) { newcomer_wait = 0 } })
        (wait_tags w ++ rest)
      ≡ rows_from meta_row (record l { meta = record (l.meta) { newcomer_wait = w } }) rest
wait_rows l zero rest h = refl
wait_rows l (suc w) rest h =
    let before = record l { meta = record (l.meta) { newcomer_wait = 0 } } in
    let after = record l { meta = record (l.meta) { newcomer_wait = suc w } } in
    let positive : ltb 0 (suc w) ≡ true = ground arith in
    rw positive (
      row_step meta_row before after (codes "newcomer_wait" ∷ nat_text (suc w) ∷ []) rest
        (wait_row before (suc w) h))

pub about_rows :
    (l : MetaLoop) (a : Text) (rest : List (List Text))
    → rows_from meta_row (record l { meta = record (l.meta) { about = [] } }) (about_tags a ++ rest)
      ≡ rows_from meta_row (record l { meta = record (l.meta) { about = a } }) rest
unfolding rows_from meta_row with_value text_beq
about_rows l [] rest = refl
about_rows l (c ∷ a) rest = refl

channel_row :
    (l : MetaLoop) (c : Channel)
    → c.slowmode < 2 ^ 32
    → meta_row l (channel_tag c)
      ≡ some (record l { meta = record (l.meta) { channels = l.meta.channels ++ c ∷ [] } })
unfolding meta_row channel_tag text_beq
channel_row l c h = rw (parse_channel_tag c h) refl

pub channel_rows :
    (l : MetaLoop) (cs : List Channel) (rest : List (List Text))
    → Each (λ c. c.slowmode < 2 ^ 32) cs
    → rows_from meta_row l (map channel_tag cs ++ rest)
      ≡ rows_from meta_row
          (record l { meta = record (l.meta) { channels = l.meta.channels ++ cs } })
          rest
channel_rows l [] rest h =
    ap (λ k. rows_from meta_row (record l { meta = record (l.meta) { channels = k } }) rest)
      (sym (append-nil l.meta.channels))
channel_rows l (c ∷ cs) rest (f, h) =
    let next = record l { meta = record (l.meta) { channels = l.meta.channels ++ c ∷ [] } } in
    row_step meta_row l next (channel_tag c) (map channel_tag cs ++ rest) (channel_row l c f)
    ∙ channel_rows next cs rest h
    ∙ ap (λ k. rows_from meta_row (record l { meta = record (l.meta) { channels = k } }) rest)
        (append_assoc l.meta.channels (c ∷ []) cs)

override_row :
    (l : MetaLoop) (o : Override)
    → FitsOverride o
    → meta_row l (override_tag o)
      ≡ some (record l { meta = record (l.meta) { overrides = l.meta.overrides ++ o ∷ [] } })
unfolding meta_row override_tag text_beq
override_row l o h = rw (parse_override_tag o h) refl

pub override_rows :
    (l : MetaLoop) (os : List Override)
    → Each FitsOverride os
    → rows_from meta_row l (map override_tag os)
      ≡ some (record l { meta = record (l.meta) { overrides = l.meta.overrides ++ os } })
unfolding rows_from
override_rows l [] h =
    ap (λ k. some (record l { meta = record (l.meta) { overrides = k } }))
      (sym (append-nil l.meta.overrides))
override_rows l (o ∷ os) (f, h) =
    let next = record l { meta = record (l.meta) { overrides = l.meta.overrides ++ o ∷ [] } } in
    row_step meta_row l next (override_tag o) (map override_tag os) (override_row l o f)
    ∙ override_rows next os h
    ∙ ap (λ k. some (record l { meta = record (l.meta) { overrides = k } }))
        (append_assoc l.meta.overrides (o ∷ []) os)

role_row_tag :
    (rs : List RoleDef) (r : RoleDef) → FitsRole r → role_row rs (role_tag r) ≡ some (rs ++ r ∷ [])
unfolding role_row role_tag text_beq
role_row_tag rs r h = rw (parse_role_tag r h) refl

pub role_rows :
    (rs more : List RoleDef)
    → Each FitsRole more
    → rows_from role_row rs (map role_tag more) ≡ some (rs ++ more)
unfolding rows_from
role_rows rs [] h = ap some (sym (append-nil rs))
role_rows rs (r ∷ more) (f, h) =
    row_step role_row rs (rs ++ r ∷ []) (role_tag r) (map role_tag more) (role_row_tag rs r f)
    ∙ role_rows (rs ++ r ∷ []) more h
    ∙ ap some (append_assoc rs (r ∷ []) more)
