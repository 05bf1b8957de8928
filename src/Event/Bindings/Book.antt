-- ===== src/Event/Bindings/Book.antt =====
-- `BindingBook` of crates/hit-event/src/binding.rs: the newest event for each person and device.
use hit_enter.Base.{
  Bool, false, not, ◌&&◌, Option, none, some, List, map, ◌==◌, nat_key, text_key, pair_key, Text,
  Result, ok, err, ◌>>=◌, if◌then◌else◌,
}
use hit_enter.Base.Lists.{retain, filter_map}
use hit_enter.Base.Maps.{Map, get, insert}
use hit_enter.Event.{Event, Nostr, PublicKey, Timestamp}
use hit_enter.Event.Replaces.{is_revoked, replaces}
use hit_enter.Event.Bindings.{
  Devices, EndpointId, BindingError, revoked_device, superseded, check, verify_binding_at, expired,
}

-- The order of a `HashMap` is not one to rely on; nothing here does.
abbrev pub BindingBook : Type 0
BindingBook = Map (PublicKey × Text) Event

pub data Inserted : Type 0 where
  stored : Inserted
  stale : Inserted

-- Does the book hold something that `event` does not replace?
abbrev pub is_stale : Event → Option Event → Bool
is_stale event none = false
is_stale event (some current) = not (replaces event current)

-- `BindingBook::insert`.
unfoldable pub insert_event :
    Nostr → Devices → BindingBook → Event → Timestamp → Result BindingError (BindingBook × Inserted)
insert_event n d book event now = check n d event now >>= λ parsed.
    let key : PublicKey × Text = (event.pubkey, parsed.device_hex) in
    if is_stale event (get key book) then ok (book, stale) else ok (insert key event book, stored)

-- The end of `authenticate`: what the newest event for the person and the connection says.
unfoldable pub newest_speaks :
    Nostr
    → Devices
    → BindingBook
    → PublicKey
    → EndpointId
    → Timestamp
    → Result BindingError PublicKey
newest_speaks n d book person conn now = elim (get (person, d.device_text conn) book) [
  | none ↦ err superseded
  | some newest ↦
      if is_revoked newest then err revoked_device else verify_binding_at n d newest conn now
]

-- The book after it, and the answer.
unfoldable pub authenticate :
    Nostr
    → Devices
    → BindingBook
    → Event
    → EndpointId
    → Timestamp
    → BindingBook × Result BindingError PublicKey
unfolding insert_event newest_speaks
authenticate n d book presented conn now = elim (verify_binding_at n d presented conn now) [
  | err e ↦ (book, err e)
  | ok person ↦ elim (insert_event n d book presented now) [
    | err e ↦ (book, err e)
    | ok (after, done) ↦ (after, newest_speaks n d after person conn now)
  ]
]

-- Neither revoked nor expired.
abbrev pub is_live : Devices → Event → Timestamp → Bool
is_live d event now = not (is_revoked event) && not (expired d event now)

unfoldable pub devices_of : Devices → BindingBook → PublicKey → Timestamp → List EndpointId
unfolding is_revoked expired
devices_of d book person now =
    filter_map (λ e. d.parse_device e.0.1)
      (retain (λ e. is_live d e.1 now) (retain (λ e. e.0.0 == person) book))

unfoldable pub persons_of : Devices → BindingBook → EndpointId → Timestamp → List PublicKey
unfolding is_revoked expired
persons_of d book device now =
    map (λ e. e.0.0) (retain (λ e. e.0.1 == d.device_text device && is_live d e.1 now) book)
