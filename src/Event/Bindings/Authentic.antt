-- ===== src/Event/Bindings/Authentic.antt =====
-- What `BindingBook::authenticate` of crates/hit-event/src/binding.rs promises.
use hit_enter.Base.{
  ◌<◌, true, false, some, List, [], nat_key, text_key, pair_key, Text, ok, err, ◌≡◌, ◌⊎◌, refl, sym,
  subst, ◌∙◌, Bool-cases, Option-cases, Result-cases, inl, inr,
}
use hit_enter.Base.Maps.{get}
use hit_enter.Event.{Event, Nostr, PublicKey, Timestamp}
use hit_enter.Event.Replaces.{is_revoked, replaces}
use hit_enter.Event.Bindings.{Devices, EndpointId, BindingError, Parsed, check, verify_binding_at}
use hit_enter.Event.Bindings.Book.{BindingBook, insert_event, newest_speaks, authenticate}
use hit_enter.Event.Bindings.Sound.{IsSpeaking, verify_ok, check_ok}
use hit_enter.Event.Bindings.History.{
  learn, learn_all, Entries, learn-Entries, learn_all-Entries, learn-IsNewer, learn_all_checked,
}
use mathlib.Core.List.{Memᴰ}
use hit_enter.Event.Kinds.{device_binding}
use hit_enter.Event.Replaces.Order.{later_than_revoked}

-- A book holds each event under its author.
abbrev pub IsKept : BindingBook → Type 0
IsKept book = Entries (λ key a. a.pubkey ≡ key.0) book

module _ (n : Nostr) (d : Devices) where
  pub learn_all-IsKept :
      (xs : List (Event × Timestamp)) (book : BindingBook)
      → IsKept book
      → IsKept (learn_all n d book xs)
  learn_all-IsKept xs book kept =
      learn_all-Entries n d (λ key a. a.pubkey ≡ key.0) xs book kept (λ x p m c. refl)

  -- An authenticated connection: the book holds an event of the person for this device, which says so now.
  pub record IsAuthentic (book : BindingBook) (conn : EndpointId) (now : Timestamp)
      (person : PublicKey) : Type 0 where
    pub newest : Event
    pub held : get (person, d.device_text conn) book ≡ some newest
    pub author : newest.pubkey ≡ person
    pub speaking : IsSpeaking n d newest conn now

  newest_speaks_ok :
      ((c : EndpointId) → d.parse_device (d.device_text c) ≡ some c)
      → (book : BindingBook) (person answer : PublicKey) (conn : EndpointId) (now : Timestamp)
      → IsKept book
      → newest_speaks n d book person conn now ≡ ok answer
      → (answer ≡ person) × IsAuthentic book conn now person
  unfolding newest_speaks
  newest_speaks_ok reads book person answer conn now kept h =
      elim (Option-cases (get (person, d.device_text conn) book)) [
        | inl g ↦ absurd (cc (rw (newest_speaks, g) at h))
        | inr (a, g) ↦ elim (Bool-cases (is_revoked a)) [
          | inl r ↦ absurd (cc (rw (newest_speaks, g, r) at h))
          | inr r ↦
              let v : verify_binding_at n d a conn now ≡ ok answer =
                rw (newest_speaks, g, r) at h in
              let (same, speaks) = verify_ok n d reads a conn now answer v in
              let author = kept (person, d.device_text conn) a g in
              (same ∙ author, record { newest = a; held = g; author = author; speaking = speaks })
        ]
      ]

  -- What `authenticate` does: it refuses, or asks the book that has learnt the event presented.
  authenticate-cases :
      (book : BindingBook) (presented : Event) (conn : EndpointId) (now : Timestamp)
      → ((e : BindingError) × (authenticate n d book presented conn now ≡ (book, err e)))
        ⊎ ((person : PublicKey) × (verify_binding_at n d presented conn now ≡ ok person)
            × (authenticate n d book presented conn now ≡ (
              learn n d book (presented, now),
              newest_speaks n d (learn n d book (presented, now)) person conn now,
            )))
  unfolding authenticate learn
  authenticate-cases book presented conn now =
      elim (Result-cases (verify_binding_at n d presented conn now)) [
        | inr (e, v) ↦ inl (e, rw (authenticate, v) refl)
        | inl (person, v) ↦ elim (Result-cases (insert_event n d book presented now)) [
          | inr (e, i) ↦ inl (e, rw (authenticate, v, i) refl)
          | inl ((after, done), i) ↦ inr (person, v, rw (authenticate, learn, v, i) refl)
        ]
      ]

  -- Where each event is held under its author, a connection is authenticated only as the author of the
  -- event presented, which names the connection's device, is neither revoked nor expired nor too long, and
  -- carries in its proof tag the device's signature on the author's key; and all of that holds too of the event that the
  -- book then has for this person and device. Supposed is that a device's text is read as that device.
  pub authenticate-IsAuthentic :
      ((c : EndpointId) → d.parse_device (d.device_text c) ≡ some c)
      → (book : BindingBook) (presented : Event) (conn : EndpointId) (now : Timestamp)
        (person : PublicKey)
      → IsKept book
      → (authenticate n d book presented conn now).1 ≡ ok person
      → (presented.pubkey ≡ person)
        × IsSpeaking n d presented conn now
        × IsAuthentic (authenticate n d book presented conn now).0 conn now person
  authenticate-IsAuthentic reads book presented conn now person kept h =
      elim (authenticate-cases book presented conn now) [
        | inl (e, r) ↦ absurd (cc (rw r at h))
        | inr (author, v, r) ↦
            let (same, speaks) = verify_ok n d reads presented conn now author v in
            let after =
              learn-Entries n d (λ key a. a.pubkey ≡ key.0) book (presented, now) kept
                (λ p c. refl) in
            let (one, found) =
              newest_speaks_ok reads (learn n d book (presented, now)) author person conn now after
                (rw r at h) in
            (sym same ∙ sym one, speaks, rw (r, one) found)
      ]

  -- After whatever events a book learnt, a connection is authenticated for a person only by a binding
  -- that is later than every revocation of theirs for the connection's device that passed the checks when
  -- it came.
  pub authenticate_revoked :
      ((c : EndpointId) → d.parse_device (d.device_text c) ≡ some c)
      → (xs : List (Event × Timestamp)) (presented : Event) (conn : EndpointId) (now : Timestamp)
        (person : PublicKey)
      → (authenticate n d (learn_all n d [] xs) presented conn now).1 ≡ ok person
      → (x : Event × Timestamp) (p : Parsed) → Memᴰ x xs
      → check n d x.0 x.1 ≡ ok p
      → x.0.pubkey ≡ person
      → p.device_hex ≡ d.device_text conn
      → is_revoked x.0 ≡ true
      → (newest : Event) × (get
            (person, d.device_text conn)
            (authenticate n d (learn_all n d [] xs) presented conn now).0
          ≡ some newest)
        × IsSpeaking n d newest conn now
        × (x.0.created_at < newest.created_at)
  unfolding get
  authenticate_revoked reads xs presented conn now person h x p m c theirs this revoked =
      let key : PublicKey × Text = (x.0.pubkey, p.device_hex) in
      let same : key ≡ (person, d.device_text conn) = rw (theirs, this) refl in
      let book = learn_all n d [] xs in
      let kept = learn_all-IsKept xs [] (λ key a e. absurd (cc e)) in
      let (b, g, rb) = learn_all_checked n d xs [] x p (λ k a e. absurd (cc e)) m c in
      elim (authenticate-cases book presented conn now) [
        | inl (e, r) ↦ absurd (cc (rw r at h))
        | inr (author, v, r) ↦
            let after =
              learn-Entries n d (λ key a. a.pubkey ≡ key.0) book (presented, now) kept
                (λ q e. refl) in
            let (one, found) =
              newest_speaks_ok reads (learn n d book (presented, now)) author person conn now after
                (rw r at h) in
            let kind = (check_ok n d x.0 x.1 p c).0.kind in
            let ours = subst (λ k. get k book ≡ some b) same g in
            let kinds =
              learn_all-Entries n d (λ k a. a.kind ≡ device_binding) xs [] (λ k a e. absurd (cc e))
                (λ y q i e. (check_ok n d y.0 y.1 q e).0.kind) in
            let (a, f, later) =
              learn-IsNewer n d book (presented, now) (person, d.device_text conn) b
                (kinds (person, d.device_text conn) b ours) ours in
            let one_newest : a ≡ found.newest = cc (f, found.held, one) in
            let kept_off = subst (λ z. replaces x.0 z ≡ false) one_newest (later.1 x.0 kind rb) in
            (
              found.newest,
              rw (r, one) found.held,
              found.speaking,
              later_than_revoked x.0 found.newest kind found.speaking.kind revoked
                  found.speaking.alive kept_off,
            )
      ]
