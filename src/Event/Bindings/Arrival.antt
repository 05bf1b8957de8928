-- ===== src/Event/Bindings/Arrival.antt =====
-- `BindingBook` of crates/hit-event/src/binding.rs holds the same, in whatever order events arrive.
use hit_enter.Base.{
  false, Option, none, some, List, [], nat_key, text_key, pair_key, Text, ok, ◌≡◌, refl, sym, ap,
  subst, ◌∙◌, Option-cases, inl, inr,
}
use mathlib.Core.List.{Memᴰ}
use hit_enter.Base.Maps.{get}
use hit_enter.Event.{Event, Nostr, PublicKey, EventId, Timestamp}
use hit_enter.Event.Kinds.{device_binding}
use hit_enter.Event.Replaces.{replaces}
use hit_enter.Event.Replaces.Order.{replaces_total}
use hit_enter.Event.Bindings.{Devices, Parsed, check}
use hit_enter.Event.Bindings.Book.{BindingBook}
use hit_enter.Event.Bindings.Sound.{check_ok}
use hit_enter.Event.Bindings.History.{learn_all, learn_all-Entries, learn_all_checked}

-- The id of the event held for a person and a device.
unfoldable pub held_id : BindingBook → PublicKey × Text → Option EventId
held_id book key = elim (get key book) [ none ↦ none | some a ↦ some a.id ]

module _ (n : Nostr) (d : Devices) where
  -- An entry is one of the events that came in.
  abbrev IsFrom : List (Event × Timestamp) → PublicKey × Text → Event → Type 0
  IsFrom xs key a =
      (at : Timestamp) × (p : Parsed) × Memᴰ (a, at) xs
      × (check n d a at ≡ ok p)
      × ((a.pubkey, p.device_hex) ≡ key)

  entry-IsFrom :
      (xs : List (Event × Timestamp)) (key : PublicKey × Text) (a : Event)
      → get key (learn_all n d [] xs) ≡ some a
      → IsFrom xs key a
  unfolding get
  entry-IsFrom xs =
      learn_all-Entries n d (IsFrom xs) xs [] (λ key a h. absurd (cc h))
        (λ x p m c. (x.1, p, m, c, refl))

  held_after :
      (xs ys : List (Event × Timestamp)) (key : PublicKey × Text) (a : Event)
      → ((x : Event × Timestamp) → Memᴰ x xs → Memᴰ x ys)
      → get key (learn_all n d [] xs) ≡ some a
      → (b : Event) × (get key (learn_all n d [] ys) ≡ some b)
        × (replaces a b ≡ false)
        × (a.kind ≡ device_binding)
  unfolding get
  held_after xs ys key a sub h =
      let (at, p, m, c, same) = entry-IsFrom xs key a h in
      let (b, g, r) =
        learn_all_checked n d ys [] (a, at) p (λ k e i. absurd (cc i)) (sub (a, at) m) c in
      (
        b,
        subst (λ k. get k (learn_all n d [] ys) ≡ some b) same g,
        r,
        (check_ok n d a at p c).0.kind,
      )

  -- Two books that started empty and took in the same events, each at a time, in whatever orders and how
  -- often, hold for each person and device the event of one id, or both nothing.
  pub held_id-learn_all :
      (xs ys : List (Event × Timestamp)) (key : PublicKey × Text)
      → ((x : Event × Timestamp) → Memᴰ x xs → Memᴰ x ys)
      → ((x : Event × Timestamp) → Memᴰ x ys → Memᴰ x xs)
      → held_id (learn_all n d [] xs) key ≡ held_id (learn_all n d [] ys) key
  unfolding held_id
  held_id-learn_all xs ys key sub sup = elim (Option-cases (get key (learn_all n d [] xs))) [
    | inl g ↦ elim (Option-cases (get key (learn_all n d [] ys))) [
      | inl h ↦ rw (held_id, g, h) refl
      | inr (b, h) ↦ let (a, i, r, k) = held_after ys xs key b sup h in absurd (cc (g, i))
    ]
    | inr (a, g) ↦
        let (b, h, ab, k) = held_after xs ys key a sub g in
        let (c, i, bc, l) = held_after ys xs key b sup h in
        let same : c ≡ a = cc (g, i) in
        let one : a.id ≡ b.id = replaces_total a b (k ∙ sym l) ab (rw same at bc) in
        rw (held_id, g, h) (ap some one)
  ]
