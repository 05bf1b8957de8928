-- ===== src/Group/Channels.antt =====
-- What a channel's overrides do to a member's permissions: `effective_of` of
-- crates/hit-group/src/state.rs.
use native.Mathlib.Decide.{dec_lt}
use mathlib.Core.List.{Memᴰ}
use mathlib.Core.List.Memᴰ.{head, tail}
use hit_enter.Base.{
  ℕ, ◌-◌, ◌≤◌, ◌<◌, min, max, Text, ◌≡◌, refl, ap, bit_and, arith, Bool, true, List, [], ◌∷◌, ◌==◌,
  text_key, ◌⊎◌, inl, inr, ◌↔◌, Bool-cases,
}
use hit_enter.Base.Lists.{fold, retain, elem}
use hit_enter.Base.Maps.{Set}
use hit_enter.Base.Words.{
  bit, bit-and, bit-complement, bit_above, complement, bit-le-one, zero_bits,
}
use hit_enter.Event.Rows.{Override, default_role}
use hit_enter.Perm.{Permissions, all, none_at_all, channel_scoped, union, without, intersection}
use hit_enter.Perm.Bits.{bit-union, bit-intersection, bit-sanitized}
use hit_enter.Group.{GroupState, base_of, effective_of, allowed, denied, applies_in}

bit-without : (p q i : ℕ) → i < 64 → bit (without p q) i ≡ min (bit p i) (1 - bit q i)
unfolding without
bit-without p q i h = omega (arith, bit-and p (complement 64 q) i, bit-complement 64 q i h)

bit-base_of : (s : GroupState) (held : Set Text) (i : ℕ) → bit (base_of s held) i ≤ bit all i
unfolding base_of
bit-base_of s held i = omega (arith, bit-sanitized _ i)

scoped_bits : (i : ℕ) → bit channel_scoped i ≤ bit all i
scoped_bits i =
    let e : bit_and channel_scoped all ≡ channel_scoped = refl in
    omega (arith, bit-and channel_scoped all i, ap (λ (t : ℕ). bit t i) e)

-- In a channel, at a place that channels may change: an allow wins, and a deny takes away what was
-- granted group-wide. At any other place the overrides change nothing.
bit-effective_of :
    (s : GroupState) (held : Set Text) (channel : Text) (i : ℕ)
    → bit (effective_of s held channel) i
      ≡ max
          (min
            (bit (base_of s held) i)
            (1 - min (bit (denied s held channel) i) (bit channel_scoped i)))
          (min (bit (allowed s held channel) i) (bit channel_scoped i))
unfolding effective_of
bit-effective_of s held channel i =
    let a = allowed s held channel in
    let d = denied s held channel in
    let b = base_of s held in
    let allow = intersection a channel_scoped in
    let deny = intersection d channel_scoped in
    let scoped = scoped_bits i in
    let sum = bit-sanitized (union (without b deny) allow) i in
    let joined = bit-union (without b deny) allow i in
    let wins = bit-intersection a channel_scoped i in
    let takes = bit-intersection d channel_scoped i in
    let defined = bit-base_of s held i in
    elim (dec_lt i 64) [
      | yes low ↦ omega (arith, sum, joined, wins, takes, defined, scoped, bit-without b deny i low)
      | no high ↦ omega (
        arith,
        sum,
        joined,
        wins,
        takes,
        defined,
        scoped,
        bit_above 12 all i (omega arith) (omega arith),
      )
    ]

-- An override in this channel, of the default role or of a role held, whose word `f` has the bit.
pub record IsOverridden (s : GroupState) (held : Set Text) (channel : Text)
    (f : Override → Permissions) (i : ℕ) : Type 0 where
  pub override : Override
  pub listed : Memᴰ override s.overrides
  pub here : override.channel ≡ channel
  pub theirs : (override.role ≡ default_role) ⊎ (elem override.role held ≡ true)
  pub has : bit (f override) i ≡ 1

-- A bit of the union of the words of some overrides is a bit of one of them.
bit-united :
    (q : Override → Bool) (f : Override → Permissions) (i : ℕ) (p : Permissions)
    (os : List Override)
    → bit (fold (λ p o. union p (f o)) p (retain q os)) i ≡ 1
    → (bit p i ≡ 1) ⊎ ((o : Override) × Memᴰ o os × (q o ≡ true) × (bit (f o) i ≡ 1))
bit-united q f i p [] h = inl h
bit-united q f i p (o ∷ os) h = elim (Bool-cases (q o)) [
  | inr e ↦ elim (bit-united q f i p os (rw e at h)) [
    | inl b ↦ inl b
    | inr (x, m, k, b) ↦ inr (x, tail m, k, b)
  ]
  | inl e ↦ elim (bit-united q f i (union p (f o)) os (rw e at h)) [
    | inr (x, m, k, b) ↦ inr (x, tail m, k, b)
    | inl b ↦ elim (dec_lt (bit p i) 1) [
      | no one ↦ inl (omega (arith, bit-le-one p i))
      | yes none ↦ inr (o, head refl, e, omega (arith, bit-union p (f o) i))
    ]
  ]
]

united-start :
    (q : Override → Bool) (f : Override → Permissions) (i : ℕ) (p : Permissions)
    (os : List Override)
    → bit p i ≡ 1
    → bit (fold (λ p o. union p (f o)) p (retain q os)) i ≡ 1
united-start q f i p [] h = h
united-start q f i p (o ∷ os) h = elim (Bool-cases (q o)) [
  | inr e ↦ rw e (united-start q f i p os h)
  | inl e ↦ rw e (
      united-start q f i (union p (f o)) os
        (omega (arith, bit-union p (f o) i, bit-le-one (f o) i)))
]

united-bit :
    (q : Override → Bool) (f : Override → Permissions) (i : ℕ) (p : Permissions)
    (os : List Override) (o : Override)
    → Memᴰ o os
    → q o ≡ true
    → bit (f o) i ≡ 1
    → bit (fold (λ p o. union p (f o)) p (retain q os)) i ≡ 1
united-bit q f i p [] o m k b = elim m [ ]
united-bit q f i p (x ∷ os) o (head e) k b =
    rw (← e, k)
      (united-start q f i (union p (f o)) os (omega (arith, bit-union p (f o) i, bit-le-one p i)))
united-bit q f i p (x ∷ os) o (tail m) k b = elim (Bool-cases (q x)) [
  | inl e ↦ rw e (united-bit q f i (union p (f x)) os o m k b)
  | inr e ↦ rw e (united-bit q f i p os o m k b)
]

applies_in_iff :
    (channel : Text) (held : Set Text) (o : Override)
    → (applies_in channel held o ≡ true)
      ↔ ((o.channel ≡ channel) × ((o.role ≡ default_role) ⊎ (elem o.role held ≡ true)))
unfolding applies_in
applies_in_iff channel held o = (
  λ h. (
    (text_key.beq_iff o.channel channel).0 (ground arith),
    elim (Bool-cases (o.role == default_role)) [
      | inl e ↦ inl ((text_key.beq_iff o.role default_role).0 e)
      | inr e ↦ inr (ground arith)
    ],
  ),
  λ (here, theirs).
      let one = (text_key.beq_iff o.channel channel).1 here in
      elim theirs [
        | inl e ↦ let two = (text_key.beq_iff o.role default_role).1 e in ground arith
        | inr e ↦ ground arith
      ],
)

IsOverridden-iff :
    (s : GroupState) (held : Set Text) (channel : Text) (f : Override → Permissions) (i : ℕ)
    → (bit
          (fold (λ p o. union p (f o)) none_at_all (retain (applies_in channel held) s.overrides))
          i
        ≡ 1)
      ↔ IsOverridden s held channel f i
IsOverridden-iff s held channel f i = (
  λ h. elim (bit-united (applies_in channel held) f i none_at_all s.overrides h) [
    | inl b ↦ absurd (omega (arith, zero_bits i))
    | inr (o, m, k, b) ↦
        let (here, theirs) = (applies_in_iff channel held o).0 k in
        record { override = o; listed = m; here = here; theirs = theirs; has = b }
  ],
  λ v.
      united-bit (applies_in channel held) f i none_at_all s.overrides v.override v.listed
        ((applies_in_iff channel held v.override).1 (v.here, v.theirs)) v.has,
)

-- Holding `held` gives a permission in a channel exactly when channels may change it and an override of
-- the channel, for the default role or a role held, allows it; or when it is held group-wide, and
-- channels may not change it or no such override denies it.
pub effective_of_iff :
    (s : GroupState) (held : Set Text) (channel : Text) (i : ℕ)
    → (bit (effective_of s held channel) i ≡ 1) ↔ (
        ((bit channel_scoped i ≡ 1) × IsOverridden s held channel (λ o. o.allow) i)
        ⊎ ((bit (base_of s held) i ≡ 1)
            × ¬ ((bit channel_scoped i ≡ 1) × IsOverridden s held channel (λ o. o.deny) i)))
unfolding allowed denied
effective_of_iff s held channel i =
    let whole = bit-effective_of s held channel i in
    let allows = IsOverridden-iff s held channel (λ o. o.allow) i in
    let denies = IsOverridden-iff s held channel (λ o. o.deny) i in
    let small = bit-le-one channel_scoped i in
    (
      λ h. elim (dec_lt (min (bit (allowed s held channel) i) (bit channel_scoped i)) 1) [
        | no one ↦
            inl (omega arith, allows.0 (omega (arith, bit-le-one (allowed s held channel) i)))
        | yes none ↦ inr (
          omega (arith, bit-le-one (base_of s held) i),
          λ (c, v). let d = denies.1 v in absurd (omega arith),
        )
      ],
      λ h. elim h [
        | inl (c, v) ↦ let a = allows.1 v in omega (arith, bit-le-one (base_of s held) i)
        | inr (b, free) ↦
            elim (dec_lt (min (bit (denied s held channel) i) (bit channel_scoped i)) 1) [
              | no one ↦ absurd (
                  free
                    (omega arith, denies.0 (omega (arith, bit-le-one (denied s held channel) i))))
              | yes none ↦ omega (arith, bit-le-one (allowed s held channel) i)
            ]
      ],
    )
