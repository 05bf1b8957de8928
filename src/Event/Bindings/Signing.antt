-- ===== src/Event/Bindings/Signing.antt =====
-- The signing of bindings and revocations, of crates/hit-event/src/binding.rs. Keys and signatures are
-- those of the nostr and iroh crates: parameters.
pub mod Verifies
use hit_enter.Base.{ℕ, ◌+◌, Option, List, [], ◌∷◌, Text}
use hit_enter.Base.Texts.{codes}
use hit_enter.Event.{Event, PublicKey, Timestamp}
use hit_enter.Event.Builders.{Draft}
use hit_enter.Event.Kinds.{device_binding}
use hit_enter.Event.Bindings.{Devices, EndpointId, Bytes, proof_message, proof_tag}

-- The keys of a person and of a device, and what is done with them.
pub record Keyring (Person DeviceKey : Type 0) : Type 0 where
  -- `Person::public_key`, `Person::sign`
  pub public_key : Person → PublicKey
  pub sign : Person → Draft → Option Event
  -- `SecretKey::public`, `SecretKey::sign`
  pub device_public : DeviceKey → EndpointId
  pub device_sign : DeviceKey → Bytes → Bytes
  -- `hex::encode`, and a time in decimal
  pub hex_encode : Bytes → Text
  pub time_text : Timestamp → Text

abbrev pub alt : List Text
alt = codes "alt" ∷ codes "HIT_ENTER device binding" ∷ []

module _ {Person DeviceKey : Type 0} (d : Devices) (k : Keyring Person DeviceKey) where
  unfoldable pub binding_draft : Person → DeviceKey → Timestamp → ℕ → Draft
  unfolding proof_message
  binding_draft person device now ttl =
      let proof = k.device_sign device (proof_message d (k.public_key person)) in
      record {
        kind = device_binding;
        content = [];
        created_at = now;
        tags =
            (codes "d" ∷ d.device_text (k.device_public device) ∷ [])
            ∷ (codes "expiration" ∷ k.time_text (now + ttl) ∷ [])
            ∷ (proof_tag ∷ k.hex_encode proof ∷ [])
            ∷ alt
            ∷ [];
      }

  unfoldable pub sign_binding : Person → DeviceKey → Timestamp → ℕ → Option Event
  unfolding binding_draft
  sign_binding person device now ttl = k.sign person (binding_draft person device now ttl)

  unfoldable pub revocation_draft : EndpointId → Timestamp → Draft
  revocation_draft device now = record {
    kind = device_binding;
    content = [];
    created_at = now;
    tags = (codes "d" ∷ d.device_text device ∷ []) ∷ (codes "revoked" ∷ []) ∷ alt ∷ [];
  }

  unfoldable pub sign_revocation : Person → EndpointId → Timestamp → Option Event
  unfolding revocation_draft
  sign_revocation person device now = k.sign person (revocation_draft device now)
