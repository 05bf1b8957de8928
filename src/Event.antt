-- ===== src/Event.antt =====
-- crates/hit-event/src/group.rs: what the events of a group look like. Here is the event itself,
-- and what the nostr crate reads off one; the modules below are the kinds, the tags, the actions,
-- the state events, the attachments and the rule of replacement.
-- Keys and ids are their 32 bytes read as one number, big end first; a time is in seconds.
pub mod Kinds
pub mod Tags
pub mod Rows
pub mod Edits
pub mod Actions
pub mod States
pub mod Attachments
pub mod Builders
pub mod Snapshots
pub mod Replaces
pub mod Zaps
pub mod Bindings
use hit_enter.Base.{ℕ, Option, List, Text, Bool}

abbrev pub PublicKey : Type 0
PublicKey = ℕ

abbrev pub EventId : Type 0
EventId = ℕ

abbrev pub Timestamp : Type 0
Timestamp = ℕ

-- `nostr::Event`, without its signature: an event is checked (`Verified`) before it gets here.
pub record Event : Type 0 where
  pub id : EventId
  pub pubkey : PublicKey
  pub created_at : Timestamp
  pub kind : ℕ
  pub tags : List (List Text)
  pub content : Text

-- What reads keys, ids and events off texts and tags: the nostr crate, but for the last field. A `Result`
-- of theirs whose error is dropped is an option here.
pub record Nostr : Type 0 where
  -- `PublicKey::from_hex`
  pub public_key : Text → Option PublicKey
  -- `EventId::from_hex`
  pub event_id : Text → Option EventId
  -- `Tags::identifier`
  pub identifier : List (List Text) → Option Text
  -- `Tags::public_keys`
  pub public_keys : List (List Text) → List PublicKey
  -- `Event::from_json`
  pub from_json : Text → Option Event
  -- `Event::verify`: the id and the signature
  pub verify : Event → Bool
  -- the amount, in millisats, of an invoice that `Invoice::decode` (zap.rs, over the bech32 crate)
  -- reads, if it names one
  pub invoice_amount : Text → Option (Option ℕ)
