-- ===== src/Group/Fold/Restores.antt =====
-- The parts of `GroupState::fold` of crates/hit-group/src/state.rs that put a snapshot's roles and members
-- together again.
use hit_enter.Base.{
  Bool, true, false, ◌&&◌, not, some, List, [], ◌∷◌, ◌++◌, map, Text, ◌==◌, nat_key, text_key, ◌≡◌,
  refl, sym, ap, ◌∙◌, arith,
}
use mathlib.Core.List.{append_assoc}
use hit_enter.Base.Lists.{retain, every, fold}
use hit_enter.Base.Maps.{Map, Set, get, contains_key, insert, keys, values, from_entries, beq_refl}
use hit_enter.Base.Rising.{
  rises, from_entries_rising, insert_held, insert_middle, all_under, all_under_next, all_under_nil,
  text_key-IsOrder, nat_key-IsOrder,
}
use hit_enter.Event.{PublicKey}
use hit_enter.Event.Rows.{RoleDef, default_role, owner_mark}
use hit_enter.Event.States.Rows.{Each}
use hit_enter.Event.States.People.{holders}
use hit_enter.Perm.{sanitized}
use hit_enter.Group.Fold.{load_role, known_roles, assign, seat_owner}

-- A role under its own name, which is not the owner's mark, and with defined bits only.
abbrev pub IsRoleEntry : Text × RoleDef → Type 0
IsRoleEntry e = (e.1.id ≡ e.0) × (sanitized e.1.perms ≡ e.1.perms) × ((e.0 == owner_mark) ≡ false)

load_entry :
    (roles : Map Text RoleDef) (e : Text × RoleDef)
    → IsRoleEntry e
    → load_role roles e.1 ≡ insert e.0 e.1 roles
unfolding load_role
load_entry roles (k, r) (same, whole, unmarked) = rw (same, unmarked, whole) refl

load_entries :
    (roles entries : Map Text RoleDef)
    → Each IsRoleEntry entries
    → fold load_role roles (values entries) ≡ fold (λ t e. insert e.0 e.1 t) roles entries
load_entries roles [] h = refl
load_entries roles (e ∷ entries) (f, h) =
    ap (λ t. fold load_role t (values entries)) (load_entry roles e f)
    ∙ load_entries (insert e.0 e.1 roles) entries h

pub load_roles_lem :
    (roles : Map Text RoleDef)
    → rises roles ≡ true
    → Each IsRoleEntry roles
    → fold load_role [] (values roles) ≡ roles
unfolding from_entries
load_roles_lem roles r h = load_entries [] roles h ∙ from_entries_rising text_key-IsOrder roles r

-- Roles that are defined, beside the default one.
abbrev pub KnowsRoles : Map Text RoleDef → PublicKey × Set Text → Type 0
KnowsRoles roles e = every (λ r. not (r == default_role) && contains_key r roles) e.1 ≡ true

retain-every {ℓ} : {A : Type ℓ} (p : A → Bool) (xs : List A) → every p xs ≡ true → retain p xs ≡ xs
retain-every p [] h = refl
retain-every p (x ∷ xs) h =
    let first : p x ≡ true = ground arith in
    rw first (ap (λ l. x ∷ l) (retain-every p xs (ground arith)))

contains_middle :
    (p : PublicKey) (w : Set Text) (before after : Map PublicKey (Set Text))
    → contains_key p (before ++ (p, w) ∷ after) ≡ true
unfolding contains_key get
contains_middle p w [] after = rw (beq_refl p) refl
contains_middle p w ((q, u) ∷ before) after = ground (arith, contains_middle p w before after)

assign_middle :
    (roles : Map Text RoleDef) (p : PublicKey) (held : Set Text)
    (before after : Map PublicKey (Set Text))
    → KnowsRoles roles (p, held)
    → every (λ e. nat_key.precedes e.0 p) before ≡ true
    → assign roles (before ++ (p, []) ∷ after) (p, held) ≡ before ++ (p, held) ∷ after
unfolding assign known_roles
assign_middle roles p held before after known under =
    rw
      (
        contains_middle p [] before after,
        retain-every (λ r. not (r == default_role) && contains_key r roles) held known,
      )
      (insert_middle nat_key-IsOrder p held [] before after under)

abbrev without_roles : Map PublicKey (Set Text) → Map PublicKey (Set Text)
without_roles m = map (λ p. (p, [])) (keys m)

assign_all :
    (roles : Map Text RoleDef) (before m : Map PublicKey (Set Text))
    → all_under before m ≡ true
    → rises m ≡ true
    → Each (KnowsRoles roles) m
    → fold (assign roles) (before ++ without_roles m) (holders m) ≡ before ++ m
unfolding rises
assign_all roles before [] u r h = refl
assign_all roles before ((p, []) ∷ m) u r (f, h) =
    let next = all_under_next before p [] m (ground arith) (ground arith) in
    ap (λ l. fold (assign roles) l (holders m))
      (sym (append_assoc before ((p, []) ∷ []) (without_roles m)))
    ∙ assign_all roles (before ++ (p, []) ∷ []) m next (ground arith) h
    ∙ append_assoc before ((p, []) ∷ []) m
assign_all roles before ((p, q ∷ qs) ∷ m) u r (f, h) =
    let next = all_under_next before p (q ∷ qs) m (ground arith) (ground arith) in
    ap (λ l. fold (assign roles) l (holders m))
      (assign_middle roles p (q ∷ qs) before (without_roles m) f (ground arith)
        ∙ sym (append_assoc before ((p, q ∷ qs) ∷ []) (without_roles m)))
    ∙ assign_all roles (before ++ (p, q ∷ qs) ∷ []) m next (ground arith) h
    ∙ append_assoc before ((p, q ∷ qs) ∷ []) m

-- Members that know their roles get them back, and an owner without roles is one of them.
pub seat_owner-assign :
    (roles : Map Text RoleDef) (o : PublicKey) (m : Map PublicKey (Set Text))
    → rises m ≡ true
    → Each (KnowsRoles roles) m
    → get o m ≡ some []
    → seat_owner (some o) (fold (assign roles) (map (λ p. (p, [])) (keys m)) (holders m)) ≡ m
unfolding seat_owner
seat_owner-assign roles o m r h g =
    ap (insert o []) (assign_all roles [] m (all_under_nil m) r h)
    ∙ insert_held nat_key-IsOrder o [] m r g
