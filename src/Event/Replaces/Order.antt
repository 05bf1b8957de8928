-- ===== src/Event/Replaces/Order.antt =====
-- The order that `replaces` of crates/hit-event/src/replace.rs puts events of one kind in.
use hit_enter.Base.{
  ℕ, ◌<◌, true, false, ◌&&◌, not, Option, none, some, nat_key, ◌≡◌, refl, sym, ◌∙◌, arith,
  if◌then◌else◌,
}
use hit_enter.Base.Lists.{elem}
use hit_enter.Event.{Event}
use hit_enter.Event.Kinds
use hit_enter.Event.Tags.{seq_of}
use hit_enter.Event.Replaces.{replaces, newer, is_revoked, seq_above, same_seq}

newer_asymm : (a b : Event) → newer a b ≡ true → newer b a ≡ false
unfolding newer
newer_asymm a b h = ground arith

newer_trans :
    (a b c : Event)
    → a.kind ≡ b.kind
    → b.kind ≡ c.kind
    → newer a b ≡ true
    → newer b c ≡ true
    → newer a c ≡ true
unfolding newer
newer_trans a b c same same' h k = ground arith

newer_total : (a b : Event) → newer a b ≡ false → newer b a ≡ false → a.id ≡ b.id
unfolding newer
newer_total a b h k = ground arith

above_asymm : (m n : Option ℕ) → seq_above m n ≡ true → seq_above n m ≡ false
unfolding seq_above
above_asymm none n h = absurd (ground arith)
above_asymm (some m) none h = refl
above_asymm (some m) (some n) h = ground arith

above_trans :
    (l m n : Option ℕ) → seq_above l m ≡ true → seq_above m n ≡ true → seq_above l n ≡ true
unfolding seq_above
above_trans none m n h k = absurd (ground arith)
above_trans (some l) none n h k = absurd (ground arith)
above_trans (some l) (some m) none h k = refl
above_trans (some l) (some m) (some n) h k = ground arith

same_seq_eq : (m n : Option ℕ) → same_seq m n ≡ true → m ≡ n
unfolding same_seq
same_seq_eq none none h = refl
same_seq_eq none (some n) h = absurd (ground arith)
same_seq_eq (some m) none h = absurd (ground arith)
same_seq_eq (some m) (some n) h = ground (arith, nat_key.beq_iff m n)

same_seq_sym : (m n : Option ℕ) → same_seq m n ≡ same_seq n m
unfolding same_seq
same_seq_sym none none = refl
same_seq_sym none (some n) = refl
same_seq_sym (some m) none = refl
same_seq_sym (some m) (some n) = ground arith

above_differs : (m n : Option ℕ) → seq_above m n ≡ true → same_seq m n ≡ false
unfolding seq_above same_seq
above_differs none n h = absurd (ground arith)
above_differs (some m) none h = refl
above_differs (some m) (some n) h = ground arith

above_total : (m n : Option ℕ) → seq_above m n ≡ false → seq_above n m ≡ false → same_seq m n ≡ true
unfolding seq_above same_seq
above_total none none h k = refl
above_total none (some n) h k = absurd (ground arith)
above_total (some m) none h k = absurd (ground arith)
above_total (some m) (some n) h k = ground arith

-- On events of one kind: the kinds of a group's state compare `seq` first.
replaces_unfolds :
    (a b : Event)
    → a.kind ≡ b.kind
    → replaces a b ≡ (
        if elem a.kind Kinds.state_kinds && not (same_seq (seq_of a) (seq_of b))
        then seq_above (seq_of a) (seq_of b)
        else newer a b)
unfolding replaces
replaces_unfolds a b same = ground (arith, nat_key.beq_iff a.kind b.kind)

-- Among events of one kind, to replace is a strict order: what one event replaces does not replace
-- it, what is replaced by that is replaced by the one too, and no event replaces itself.
pub replaces_strict :
    (a b c : Event)
    → a.kind ≡ b.kind
    → b.kind ≡ c.kind
    → replaces a b ≡ true
    → replaces b c ≡ true
    → (replaces b a ≡ false) × (replaces a c ≡ true) × (replaces a a ≡ false)
replaces_strict a b c ab bc h k =
    let ac : a.kind ≡ c.kind = ab ∙ bc in
    let first = rw (replaces_unfolds a b ab) at h in
    let second = rw (replaces_unfolds b c bc) at k in
    (
      rw (replaces_unfolds b a (sym ab)) (
          ground (
            arith,
            newer_asymm a b,
            above_asymm (seq_of a) (seq_of b),
            same_seq_sym (seq_of a) (seq_of b),
          )),
      rw (replaces_unfolds a c ac) (
          ground (
            arith,
            newer_trans a b c ab bc,
            above_trans (seq_of a) (seq_of b) (seq_of c),
            above_differs (seq_of a) (seq_of c),
            same_seq_eq (seq_of a) (seq_of b),
            same_seq_eq (seq_of b) (seq_of c),
          )),
      rw (replaces_unfolds a a refl)
          (ground (arith, newer_asymm a a, above_asymm (seq_of a) (seq_of a))),
    )

-- Of two events of one kind with different ids, one replaces the other.
pub replaces_total :
    (a b : Event) → a.kind ≡ b.kind → replaces a b ≡ false → replaces b a ≡ false → a.id ≡ b.id
replaces_total a b ab h k =
    let first = rw (replaces_unfolds a b ab) at h in
    let second = rw (replaces_unfolds b a (sym ab)) at k in
    ground (
      arith,
      newer_total a b,
      above_total (seq_of a) (seq_of b),
      same_seq_sym (seq_of a) (seq_of b),
    )

-- A binding that a revocation does not replace is later than it.
pub later_than_revoked :
    (x a : Event)
    → x.kind ≡ Kinds.device_binding
    → a.kind ≡ Kinds.device_binding
    → is_revoked x ≡ true
    → is_revoked a ≡ false
    → replaces x a ≡ false
    → x.created_at < a.created_at
unfolding newer
later_than_revoked x a k l r s h =
    let other : elem x.kind Kinds.state_kinds ≡ false = rw k refl in
    let plain : newer x a ≡ false = rw (replaces_unfolds x a (k ∙ sym l), other) at h in
    ground (arith, k, l)
