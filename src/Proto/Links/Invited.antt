-- ===== src/Proto/Links/Invited.antt =====
-- What a link that reads holds, for crates/hit-proto/src/invite.rs and crates/hit-proto/src/contact.rs.
use mathlib.Core.List.{Memᴰ}
use mathlib.Core.List.Memᴰ.{head, tail}
use hit_enter.Base.{
  ◌⊎◌, ℕ, ◌≤◌, ltb, Bool, true, false, ◌&&◌, Option, none, some, List, [], ◌∷◌, ◌++◌, ◌==◌, nat_key,
  text_key, Text, Result, ok, err, ◌>>=◌, ok_or, ◌≡◌, refl, arith, if◌then◌else◌, bind-ok, ok_or-ok,
  suc, ap, subst, text_beq,
}
use hit_enter.Base.Lists.{length, every}
use hit_enter.Base.Texts.{length-byte_length, trim, split_on, strip_prefix, codes}
use hit_enter.Proto.Links.{
  Spelling, max_peers, invite_scheme, split_once, LinkError, InviteLink, InviteLoop, is_code,
  is_ascii_hexdigit, read_key, parse_peer, invite_part, invite_parts, parse_invite, malformed,
}

-- A link without a code has a good one.
abbrev pub is_code_or_none : Option Text → Bool
is_code_or_none none = true
is_code_or_none (some c) = is_code c

-- A digit, or a letter from `a` to `f` of either case.
abbrev pub IsHexDigit : ℕ → Type 0
IsHexDigit x = ((48 ≤ x) × (x ≤ 57)) ⊎ ((97 ≤ x) × (x ≤ 102)) ⊎ ((65 ≤ x) × (x ≤ 70))

hexdigit_lem : (x : ℕ) → is_ascii_hexdigit x ≡ true → IsHexDigit x
unfolding is_ascii_hexdigit
hexdigit_lem x h = ground arith

every-holds {ℓ} :
    {A : Type ℓ} (p : A → Bool) (xs : List A) (x : A) → every p xs ≡ true → Memᴰ x xs → p x ≡ true
every-holds p [] x h m = elim m [ ]
every-holds p (y ∷ xs) x h (head e) = rw e (ground arith)
every-holds p (y ∷ xs) x h (tail m) = every-holds p xs x (ground arith) m

code_lem :
    (c : Text)
    → is_code c ≡ true
    → (1 ≤ length c) × (length c ≤ 64) × ((x : ℕ) → Memᴰ x c → IsHexDigit x)
unfolding is_code text_beq
code_lem [] h = absurd (ground arith)
code_lem (c ∷ cs) h = (
  ground arith,
  ground (arith, length-byte_length (c ∷ cs)),
  λ x m. hexdigit_lem x (every-holds is_ascii_hexdigit (c ∷ cs) x (ground arith) m),
)

length-snoc {ℓ} : {A : Type ℓ} (xs : List A) (x : A) → length (xs ++ x ∷ []) ≡ suc (length xs)
length-snoc [] x = refl
length-snoc (y ∷ xs) x = ap suc (length-snoc xs x)

and_right : (a b : Bool) → (a && b) ≡ true → b ≡ true
and_right true b h = h
and_right false b h = ground arith

snoc_fits {ℓ} :
    {A : Type ℓ} (xs : List A) (x : A) (most : ℕ)
    → ltb (length xs) most ≡ true
    → length (xs ++ x ∷ []) ≤ most
snoc_fits xs x most h = ground (arith, length-snoc xs x)

branch {ℓ κ μ} :
    {E : Type κ} {A : Type ℓ} {P : Type μ} (b : Bool) {x y : Result E A} {r : A}
    → (b ≡ true → x ≡ ok r → P)
    → (b ≡ false → y ≡ ok r → P)
    → (if b then x else y) ≡ ok r
    → P
branch true t f h = t refl h
branch false t f h = f refl h

option_branch {ℓ κ μ ν} :
    {E : Type κ} {A : Type ℓ} {B : Type μ} {P : Type ν} (o : Option A) {x : Result E B}
    {f : A → Result E B} {r : B}
    → (x ≡ ok r → P)
    → ((a : A) → f a ≡ ok r → P)
    → elim o [ none ↦ x | some a ↦ f a ] ≡ ok r
    → P
option_branch none n s h = n h
option_branch (some a) n s h = s a h

module _ {Addr : Type 0} (sp : Spelling Addr) where
  abbrev LoopIsValid : InviteLoop Addr → Type 0
  LoopIsValid l = (length l.peers ≤ max_peers) × (is_code_or_none l.code ≡ true)

  kept :
      (l next : InviteLoop Addr)
      → LoopIsValid l
      → ◌≡◌ {A = Result LinkError (InviteLoop Addr)} (ok l) (ok next)
      → LoopIsValid next
  kept l next valid h = let same : l ≡ next = cc h in subst LoopIsValid same valid

  group_part :
      (l next : InviteLoop Addr) (v : Text)
      → LoopIsValid l
      → (ok_or (read_key sp v) (malformed (codes "group")) >>= λ p.
          ok (record l { group = some p }))
        ≡ ok next
      → LoopIsValid next
  group_part l next v valid h =
      let (p, _, e) =
        ok_or-ok (read_key sp v) (malformed (codes "group")) (λ p. ok (record l { group = some p }))
          h in
      kept (record l { group = some p }) next valid e

  code_part :
      (l next : InviteLoop Addr) (v : Text)
      → LoopIsValid l
      → (if is_code v then ok (record l { code = some v }) else err (malformed (codes "code")))
        ≡ ok next
      → LoopIsValid next
  code_part l next v (few, good) =
      branch (is_code v) (λ fits. kept (record l { code = some v }) next (few, fits))
        (λ _ h. absurd (cc h))

  peer_part :
      (l next : InviteLoop Addr) (v : Text)
      → LoopIsValid l
      → ltb (length l.peers) max_peers ≡ true
      → (ok_or (parse_peer sp v) (malformed (codes "peer")) >>= λ p.
          ok (record l { peers = l.peers ++ p ∷ [] }))
        ≡ ok next
      → LoopIsValid next
  peer_part l next v (few, good) room h =
      let (p, _, e) =
        ok_or-ok (parse_peer sp v) (malformed (codes "peer"))
          (λ p. ok (record l { peers = l.peers ++ p ∷ [] })) h in
      kept (record l { peers = l.peers ++ p ∷ [] }) next (snoc_fits l.peers p max_peers room, good)
        e

  invite_part-IsValid :
      (l next : InviteLoop Addr) (part : Text × Text)
      → LoopIsValid l
      → invite_part sp l part ≡ ok next
      → LoopIsValid next
  unfolding invite_part
  invite_part-IsValid l next (k, v) valid =
      branch (k == codes "g") (λ _. group_part l next v valid)
        (λ _.
          branch (k == codes "c") (λ _. code_part l next v valid)
            (λ _.
              branch (k == codes "p" && ltb (length l.peers) max_peers)
                (λ both. peer_part l next v valid (and_right (k == codes "p") _ both))
                (λ _. kept l next valid)))

  invite_parts-IsValid :
      (l last : InviteLoop Addr) (pairs : List Text)
      → LoopIsValid l
      → invite_parts sp l pairs ≡ ok last
      → LoopIsValid last
  unfolding invite_parts
  invite_parts-IsValid l last [] valid h = kept l last valid h
  invite_parts-IsValid l last (pair ∷ pairs) valid h =
      option_branch (split_once b'=' pair) (invite_parts-IsValid l last pairs valid)
        (λ part h.
          let (next, found, e) =
            bind-ok (invite_part sp l part) (λ next. invite_parts sp next pairs) h in
          invite_parts-IsValid next last pairs (invite_part-IsValid l next part valid found) e)
        h

  parse_invite-fits :
      (s : Text) (l : InviteLink Addr)
      → parse_invite sp s ≡ ok l
      → (length l.peers ≤ max_peers) × (is_code_or_none l.code ≡ true)
  unfolding parse_invite
  parse_invite-fits s l h =
      let (query, _, e) = ok_or-ok (strip_prefix invite_scheme (trim s)) _ _ h in
      let (last, found, f) = bind-ok (invite_parts sp _ (split_on b'&' query)) _ e in
      let (g, _, made) = ok_or-ok last.group _ _ f in
      let valid = invite_parts-IsValid _ last (split_on b'&' query) (omega arith, refl) found in
      let whole : record { group = g; code = last.code; peers = last.peers } ≡ l = cc made in
      subst
        (λ (l : InviteLink Addr). (length l.peers ≤ max_peers) × (is_code_or_none l.code ≡ true))
        whole valid

  -- An invite that reads has eight devices at most and, if it has a code, one of 1 to 64 hexadecimal digits.
  pub parse_invite-valid :
      (s : Text) (l : InviteLink Addr)
      → parse_invite sp s ≡ ok l
      → (length l.peers ≤ 8)
        × ((c : Text)
            → l.code ≡ some c
            → (1 ≤ length c) × (length c ≤ 64) × ((x : ℕ) → Memᴰ x c → IsHexDigit x))
  parse_invite-valid s l h =
      let (few, fits) = parse_invite-fits s l h in
      (few, λ c e. code_lem c (subst (λ o. is_code_or_none o ≡ true) e fits))
