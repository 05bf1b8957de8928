-- ===== src/Event/Bindings.antt =====
-- crates/hit-event/src/binding.rs: events that say which person speaks from which device. The checks
-- of one event are here, the table of all that are known is Bindings.Book.
pub mod Book
pub mod Sound
pub mod History
pub mod Arrival
pub mod Authentic
pub mod Signing
use hit_enter.Base.{
  ℕ, ◌+◌, ◌-◌, ◌*◌, ◌/◌, ltb, leb, not, Bool, true, false, ◌&&◌, Option, none, some, List, [], ◌∷◌,
  ◌++◌, map, ◌==◌, nat_key, text_key, text_beq, Text, Result, ok, err, ◌>>=◌, ◌>>◌, ensure, ok_or,
  and_then, if◌then◌else◌,
}
use hit_enter.Base.Lists.{find, length}
use hit_enter.Base.Texts.{codes}
use hit_enter.Event.{Event, Nostr, PublicKey, Timestamp}
use hit_enter.Event.Kinds.{device_binding}
use hit_enter.Event.Replaces.{is_revoked}

abbrev pub Bytes : Type 0
Bytes = List ℕ

-- A device's key, iroh's `EndpointId`: its 32 bytes as one number.
abbrev pub EndpointId : Type 0
EndpointId = ℕ

-- What reads and checks devices: the iroh, nostr and hex crates.
pub record Devices : Type 0 where
  -- `EndpointId::from_str` and `to_string`
  pub parse_device : Text → Option EndpointId
  pub device_text : EndpointId → Text
  -- `EndpointId::verify`: is the signature the device's, on the message?
  pub device_verify : EndpointId → Bytes → Bytes → Bool
  -- `Tags::expiration`
  pub expiration : List (List Text) → Option Timestamp
  -- `hex::decode`
  pub hex_decode : Text → Option Bytes
  -- `PublicKey::to_bytes`
  pub key_bytes : PublicKey → Bytes

-- Seven days, thirty days and ten minutes, in seconds.
abbrev pub default_ttl : ℕ
default_ttl = 7 * 24 * 60 * 60

abbrev pub max_ttl : ℕ
max_ttl = 30 * 24 * 60 * 60

abbrev pub max_clock_skew : ℕ
max_clock_skew = 10 * 60

abbrev pub proof_domain : Bytes
proof_domain = codes "hit-enter/device-binding/1:"

abbrev pub proof_tag : Text
proof_tag = codes "proof"

pub data BindingError : Type 0 where
  wrong_kind : BindingError
  bad_signature : BindingError
  missing_device : BindingError
  not_canonical_device : BindingError
  wrong_device : BindingError
  missing_proof : BindingError
  bad_proof : BindingError
  missing_expiry : BindingError
  expired_binding : BindingError
  ttl_too_long : BindingError
  from_the_future : BindingError
  revoked_device : BindingError
  superseded : BindingError

unfoldable pub proof_message : Devices → PublicKey → Bytes
proof_message d person = proof_domain ++ d.key_bytes person

-- `Tag::kind` is a tag's first word, `Tag::content` its second.
abbrev pub is_tag : Text → List Text → Bool
is_tag name [] = false
is_tag name (w ∷ rest) = w == name

abbrev pub tag_content : List Text → Option Text
tag_content (w ∷ v ∷ rest) = some v
tag_content _ = none

unfoldable pub expired : Devices → Event → Timestamp → Bool
expired d ev now = elim (d.expiration ev.tags) [ none ↦ true | some exp ↦ leb exp now ]

unfoldable pub needs_renewal : Devices → Event → Timestamp → Bool
unfolding is_revoked
needs_renewal d binding now = elim (d.expiration binding.tags) [
  | none ↦ false
  | some exp ↦ not (is_revoked binding) && ltb (exp - now) ((exp - binding.created_at) / 2)
]

pub record Parsed : Type 0 where
  pub device_hex : Text
  pub revoked : Bool

-- `try_into` an array of 64 bytes.
abbrev pub of_64 : Bytes → Option Bytes
of_64 bs = if length bs == 64 then some bs else none

-- The lifetime and the device's proof, which a revocation has not.
unfoldable pub check_proof :
    Devices → Event → EndpointId → Timestamp → Result BindingError (Unit {0})
unfolding proof_message
check_proof d event device now = do
  exp ← ok_or (d.expiration event.tags) missing_expiry
  ensure (not (leb exp now)) expired_binding
  ensure (leb (exp - event.created_at) max_ttl) ttl_too_long
  proof_hex ← ok_or (and_then (find (is_tag proof_tag) event.tags) tag_content) missing_proof
  proof_bytes ← ok_or (and_then (d.hex_decode proof_hex) of_64) bad_proof
  ensure (d.device_verify device (proof_message d event.pubkey) proof_bytes) bad_proof

-- `Parsed::check`.
unfoldable pub check : Nostr → Devices → Event → Timestamp → Result BindingError Parsed
unfolding is_revoked check_proof
check n d event now = do
  ensure (event.kind == device_binding) wrong_kind
  ensure (n.verify event) bad_signature
  ensure (leb event.created_at (now + max_clock_skew)) from_the_future
  device_hex ← ok_or (n.identifier event.tags) missing_device
  device ← ok_or (d.parse_device device_hex) not_canonical_device
  ensure (d.device_text device == device_hex) not_canonical_device
  if is_revoked event then ok tt else check_proof d event device now
  ok (record { device_hex = device_hex; revoked = is_revoked event })

unfoldable pub verify_binding_at :
    Nostr → Devices → Event → EndpointId → Timestamp → Result BindingError PublicKey
unfolding check
verify_binding_at n d event conn now = do
  parsed ← check n d event now
  ensure (parsed.device_hex == d.device_text conn) wrong_device
  ensure (not parsed.revoked) revoked_device
  ok event.pubkey
