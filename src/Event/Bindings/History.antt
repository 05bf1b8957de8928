-- ===== src/Event/Bindings/History.antt =====
-- What `BindingBook` of crates/hit-event/src/binding.rs holds after many events, in whatever order they
-- arrived.
use hit_enter.Base.{
  true, false, not, some, List, [], ◌∷◌, ◌==◌, nat_key, text_key, pair_key, Text, ok, err, ◌≡◌, ◌⊎◌,
  refl, sym, subst, ◌∙◌, arith, Bool-cases, Result-cases, Option-cases, inl, inr,
}
use mathlib.Core.List.{Memᴰ}
use mathlib.Core.List.Memᴰ.{head, tail}
use hit_enter.Base.Maps.{get, insert, get-insert, beq_refl}
use hit_enter.Event.{Event, Nostr, PublicKey, Timestamp}
use hit_enter.Event.Kinds.{device_binding}
use hit_enter.Event.Replaces.{replaces}
use hit_enter.Event.Replaces.Order.{replaces_strict}
use hit_enter.Event.Bindings.{Devices, Parsed, check}
use hit_enter.Event.Bindings.Book.{BindingBook, insert_event, is_stale}
use hit_enter.Event.Bindings.Sound.{check_ok}

-- The book after an event came in, refused or not.
unfoldable pub learn : Nostr → Devices → BindingBook → Event × Timestamp → BindingBook
learn n d book x = elim (insert_event n d book x.0 x.1) [ ok r ↦ r.0 | err e ↦ book ]

unfoldable pub learn_all : Nostr → Devices → BindingBook → List (Event × Timestamp) → BindingBook
unfolding learn
learn_all n d book [] = book
learn_all n d book (x ∷ xs) = learn_all n d (learn n d book x) xs

replaces_irrefl : (ev : Event) → replaces ev ev ≡ false
replaces_irrefl ev = elim (Bool-cases (replaces ev ev)) [
  | inr e ↦ e
  | inl e ↦ (replaces_strict ev ev ev refl refl e e).0
]

-- What is so of every entry of a book.
abbrev pub Entries : (PublicKey × Text → Event → Type 0) → BindingBook → Type 0
Entries P book = (key : PublicKey × Text) (a : Event) → get key book ≡ some a → P key a

module _ (n : Nostr) (d : Devices) where
  -- An event leaves the book, or is put in it under its person and device, past one that it replaces.
  pub learn-cases :
      (book : BindingBook) (x : Event × Timestamp)
      → (learn n d book x ≡ book)
        ⊎ ((p : Parsed) × (check n d x.0 x.1 ≡ ok p)
            × (is_stale x.0 (get (x.0.pubkey, p.device_hex) book) ≡ false)
            × (learn n d book x ≡ insert (x.0.pubkey, p.device_hex) x.0 book))
  unfolding learn insert_event
  learn-cases book (ev, at) = elim (Result-cases (check n d ev at)) [
    | inr (e, c) ↦ inl (rw (learn, insert_event, c) refl)
    | inl (p, c) ↦ elim (Bool-cases (is_stale ev (get (ev.pubkey, p.device_hex) book))) [
      | inl s ↦ inl (rw (learn, insert_event, c, s) refl)
      | inr s ↦ inr (p, c, s, rw (learn, insert_event, c, s) refl)
    ]
  ]

  -- What `after` holds under a key is not replaced by anything that `before` is not replaced by.
  abbrev pub IsNewer : Event → Event → Type 0
  IsNewer before after =
      (after.kind ≡ device_binding)
      × ((ev : Event)
          → ev.kind ≡ device_binding
          → replaces ev before ≡ false
          → replaces ev after ≡ false)

  IsNewer-trans : (a b c : Event) → IsNewer a b → IsNewer b c → IsNewer a c
  IsNewer-trans a b c (k, f) (l, g) = (l, λ ev m r. g ev m (f ev m r))

  IsNewer-replaces :
      (a b : Event)
      → a.kind ≡ device_binding
      → b.kind ≡ device_binding
      → replaces b a ≡ true
      → IsNewer a b
  IsNewer-replaces a b k l r = (
    l,
    λ ev m h. elim (Bool-cases (replaces ev b)) [
      | inr e ↦ e
      | inl e ↦
          let (x, again, y) = replaces_strict ev b a (m ∙ sym l) (l ∙ sym k) e r in
          absurd (ground (arith, again, h))
    ],
  )

  pub learn-IsNewer :
      (book : BindingBook) (x : Event × Timestamp) (key : PublicKey × Text) (a : Event)
      → a.kind ≡ device_binding
      → get key book ≡ some a
      → (b : Event) × (get key (learn n d book x) ≡ some b) × IsNewer a b
  learn-IsNewer book x key a k g = elim (learn-cases book x) [
    | inl e ↦ (a, rw e g, (k, λ ev m r. r))
    | inr (p, c, s, e) ↦ elim (Bool-cases ((x.0.pubkey, p.device_hex) == key)) [
      | inl same ↦
          let one : (x.0.pubkey, p.device_hex) ≡ key =
            (pair_key.beq_iff (x.0.pubkey, p.device_hex) key).0 same in
          let held : get (x.0.pubkey, p.device_hex) book ≡ some a = rw one g in
          let past : not (replaces x.0 a) ≡ false = rw held at s in
          (
            x.0,
            rw (e, get-insert (x.0.pubkey, p.device_hex) key x.0 book, same) refl,
            IsNewer-replaces a x.0 k (check_ok n d x.0 x.1 p c).0.kind (ground arith),
          )
      | inr other ↦
          (a, rw (e, get-insert (x.0.pubkey, p.device_hex) key x.0 book, other) g, (k, λ ev m r. r))
    ]
  ]

  learn_all-IsNewer :
      (xs : List (Event × Timestamp)) (book : BindingBook) (key : PublicKey × Text) (a : Event)
      → a.kind ≡ device_binding
      → get key book ≡ some a
      → (b : Event) × (get key (learn_all n d book xs) ≡ some b) × IsNewer a b
  unfolding learn_all
  learn_all-IsNewer [] book key a k g = (a, g, (k, λ ev m r. r))
  learn_all-IsNewer (x ∷ xs) book key a k g =
      let (b, h, ab) = learn-IsNewer book x key a k g in
      let (c, i, bc) = learn_all-IsNewer xs (learn n d book x) key b ab.0 h in
      (c, i, IsNewer-trans a b c ab bc)

  -- An event that passes the checks leaves under its key one that it does not replace.
  learn_checked :
      (book : BindingBook) (x : Event × Timestamp) (p : Parsed)
      → Entries (λ key a. a.kind ≡ device_binding) book
      → check n d x.0 x.1 ≡ ok p
      → (b : Event) × (get (x.0.pubkey, p.device_hex) (learn n d book x) ≡ some b)
        × (b.kind ≡ device_binding)
        × (replaces x.0 b ≡ false)
  unfolding learn insert_event
  learn_checked book (ev, at) p kinds c =
      let k = (check_ok n d ev at p c).0.kind in
      elim (Bool-cases (is_stale ev (get (ev.pubkey, p.device_hex) book))) [
        | inl s ↦ elim (Option-cases (get (ev.pubkey, p.device_hex) book)) [
          | inl g ↦ absurd (cc (rw g at s))
          | inr (b, g) ↦
              let past : not (replaces ev b) ≡ true = rw g at s in
              (
                b,
                rw (learn, insert_event, c, s) g,
                kinds (ev.pubkey, p.device_hex) b g,
                ground arith,
              )
        ]
        | inr s ↦ (
          ev,
          rw
              (
                learn,
                insert_event,
                c,
                s,
                get-insert (ev.pubkey, p.device_hex) (ev.pubkey, p.device_hex) ev book,
                beq_refl {K = PublicKey × Text} (ev.pubkey, p.device_hex),
              )
              refl,
          k,
          replaces_irrefl ev,
        )
      ]

  pub learn-Entries :
      (P : PublicKey × Text → Event → Type 0) (book : BindingBook) (x : Event × Timestamp)
      → Entries P book
      → ((p : Parsed) → check n d x.0 x.1 ≡ ok p → P (x.0.pubkey, p.device_hex) x.0)
      → Entries P (learn n d book x)
  learn-Entries P book x all new key a g = elim (learn-cases book x) [
    | inl e ↦ all key a (rw e at g)
    | inr (p, c, s, e) ↦ elim (Bool-cases ((x.0.pubkey, p.device_hex) == key)) [
      | inl same ↦
          let one : (x.0.pubkey, p.device_hex) ≡ key =
            (pair_key.beq_iff (x.0.pubkey, p.device_hex) key).0 same in
          let this : some x.0 ≡ some a =
            rw (e, get-insert (x.0.pubkey, p.device_hex) key x.0 book, same) at g in
          let two : x.0 ≡ a = cc this in
          subst (λ k. P k a) one (subst (λ b. P (x.0.pubkey, p.device_hex) b) two (new p c))
      | inr other ↦
          all key a (rw (e, get-insert (x.0.pubkey, p.device_hex) key x.0 book, other) at g)
    ]
  ]

  pub learn_all-Entries :
      (P : PublicKey × Text → Event → Type 0) (xs : List (Event × Timestamp)) (book : BindingBook)
      → Entries P book
      → ((x : Event × Timestamp) (p : Parsed)
          → Memᴰ x xs
          → check n d x.0 x.1 ≡ ok p
          → P (x.0.pubkey, p.device_hex) x.0)
      → Entries P (learn_all n d book xs)
  unfolding learn_all
  learn_all-Entries P [] book all new = all
  learn_all-Entries P (x ∷ xs) book all new =
      learn_all-Entries P xs (learn n d book x)
        (learn-Entries P book x all (λ p c. new x p (head refl) c)) (λ y p m c. new y p (tail m) c)

  -- Every event that passes the checks when it comes leaves under its key one that it does not replace.
  pub learn_all_checked :
      (xs : List (Event × Timestamp)) (book : BindingBook) (x : Event × Timestamp) (p : Parsed)
      → Entries (λ key a. a.kind ≡ device_binding) book
      → Memᴰ x xs
      → check n d x.0 x.1 ≡ ok p
      → (b : Event) × (get (x.0.pubkey, p.device_hex) (learn_all n d book xs) ≡ some b)
        × (replaces x.0 b ≡ false)
  unfolding learn_all
  learn_all_checked [] book x p kinds m c = elim m [ ]
  learn_all_checked (y ∷ xs) book x p kinds (head e) c =
      let (b, g, k, r) = learn_checked book x p kinds c in
      let (after, h, later) =
        learn_all-IsNewer xs (learn n d book x) (x.0.pubkey, p.device_hex) b k g in
      (
        after,
        subst
            (λ z. get (x.0.pubkey, p.device_hex) (learn_all n d (learn n d book z) xs) ≡ some after)
            e h,
        later.1 x.0 (check_ok n d x.0 x.1 p c).0.kind r,
      )
  learn_all_checked (y ∷ xs) book x p kinds (tail m) c =
      learn_all_checked xs (learn n d book y) x p
        (learn-Entries (λ key a. a.kind ≡ device_binding) book y kinds
          (λ q e. (check_ok n d y.0 y.1 q e).0.kind))
        m c
