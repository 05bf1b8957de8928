-- ===== src/Event/Bindings/Signing/Verifies.antt =====
-- What crates/hit-event/src/binding.rs signs, it accepts.
use hit_enter.Base.{
  ℕ, ◌+◌, ◌-◌, ◌<◌, ◌≤◌, leb, true, false, some, List, [], ◌∷◌, ◌==◌, nat_key, text_key, text_beq,
  Text, ok, and_then, ◌≡◌, subst, ap, refl, sym, ◌∙◌, arith,
}
use hit_enter.Base.Lists.{length, find}
use hit_enter.Base.Maps.{beq_refl}
use hit_enter.Base.Texts.{codes}
use hit_enter.Event.{Event, Nostr, Timestamp}
use hit_enter.Event.Builders.{Draft}
use hit_enter.Event.Kinds.{device_binding}
use hit_enter.Event.Replaces.{is_revoked}
use hit_enter.Event.Bindings.{
  is_tag, proof_tag, tag_content, of_64, Devices, EndpointId, Bytes, check, check_proof,
  verify_binding_at, proof_message, max_ttl, max_clock_skew,
}
use hit_enter.Event.Bindings.Signing.{Keyring, binding_draft, sign_binding}

module _ (n : Nostr) (d : Devices) (ev : Event) where
  proof_intro :
      (device : EndpointId) (now exp : Timestamp) (hex : Text) (proof : Bytes)
      → d.expiration ev.tags ≡ some exp
      → now < exp
      → exp - ev.created_at ≤ max_ttl
      → and_then (find (is_tag proof_tag) ev.tags) tag_content ≡ some hex
      → d.hex_decode hex ≡ some proof
      → length proof ≡ 64
      → d.device_verify device (proof_message d ev.pubkey) proof ≡ true
      → check_proof d ev device now ≡ ok tt
  unfolding check_proof
  proof_intro device now exp hex proof e live short f g l v =
      let unexpired : leb exp now ≡ false = ground arith in
      let brief : leb (exp - ev.created_at) max_ttl ≡ true = ground arith in
      let whole : of_64 proof ≡ some proof = rw l refl in
      rw (e, unexpired, brief, f, g, whole, v) refl

  verify_intro :
      (conn : EndpointId) (now : Timestamp)
      → ev.kind ≡ device_binding
      → n.verify ev ≡ true
      → ev.created_at ≤ now + max_clock_skew
      → n.identifier ev.tags ≡ some (d.device_text conn)
      → d.parse_device (d.device_text conn) ≡ some conn
      → is_revoked ev ≡ false
      → check_proof d ev conn now ≡ ok tt
      → verify_binding_at n d ev conn now ≡ ok ev.pubkey
  unfolding verify_binding_at check
  verify_intro conn now k v past e f alive proof =
      let kind : (ev.kind == device_binding) ≡ true =
        (nat_key.beq_iff ev.kind device_binding).1 k in
      let early : leb ev.created_at (now + max_clock_skew) ≡ true = ground arith in
      rw (kind, v, early, e, f, beq_refl (d.device_text conn), alive, proof)
        (rw (beq_refl (d.device_text conn)) refl)

module _ {Person DeviceKey : Type 0} (n : Nostr) (d : Devices) (k : Keyring Person DeviceKey) where
  -- What the crates document of keys, signatures and tags.
  pub record IsHonest : Type 0 where
    pub reads_device : (c : EndpointId) → d.parse_device (d.device_text c) ≡ some c
    pub reads_identifier :
        (t : Text) (rest : List (List Text)) → n.identifier ((codes "d" ∷ t ∷ []) ∷ rest) ≡ some t
    pub reads_expiration :
        (t : Text) (at : Timestamp) (rest : List (List Text))
        → d.expiration ((codes "d" ∷ t ∷ []) ∷ (codes "expiration" ∷ k.time_text at ∷ []) ∷ rest)
          ≡ some at
    pub reads_hex : (bs : Bytes) → d.hex_decode (k.hex_encode bs) ≡ some bs
    pub signature_length : (s : DeviceKey) (m : Bytes) → length (k.device_sign s m) ≡ 64
    pub device_verifies :
        (s : DeviceKey) (m : Bytes)
        → d.device_verify (k.device_public s) m (k.device_sign s m) ≡ true
    pub signs :
        (p : Person) (draft : Draft) (ev : Event)
        → k.sign p draft ≡ some ev
        → (n.verify ev ≡ true)
          × (ev.pubkey ≡ k.public_key p)
          × (ev.kind ≡ draft.kind)
          × (ev.created_at ≡ draft.created_at)
          × (ev.tags ≡ draft.tags)

  -- A binding signed for at most the longest lifetime verifies for its device and its person, from ten
  -- minutes before it was signed until its lifetime ends.
  pub verify_binding_at-sign_binding :
      IsHonest
      → (person : Person) (device : DeviceKey) (now at : Timestamp) (ttl : ℕ) (ev : Event)
      → ttl ≤ max_ttl
      → now ≤ at + max_clock_skew
      → at < now + ttl
      → sign_binding d k person device now ttl ≡ some ev
      → verify_binding_at n d ev (k.device_public device) at ≡ ok (k.public_key person)
  unfolding sign_binding binding_draft is_revoked text_beq
  verify_binding_at-sign_binding honest person device now at ttl ev short early late s =
      let (v, p, kind, created, tags) =
        honest.signs person (binding_draft d k person device now ttl) ev s in
      let back = sym tags in
      let conn = k.device_public device in
      let proof = k.device_sign device (proof_message d (k.public_key person)) in
      let expires =
        subst (λ t. d.expiration t ≡ some (now + ttl)) back
          (honest.reads_expiration _ (now + ttl) _) in
      let found =
        subst (λ t. and_then (find (is_tag proof_tag) t) tag_content ≡ some (k.hex_encode proof))
          back refl in
      let named =
        subst (λ t. n.identifier t ≡ some (d.device_text conn)) back
          (honest.reads_identifier _ _) in
      let alive = subst (λ t. is_revoked (record ev { tags = t }) ≡ false) back refl in
      let mine =
        subst (λ q. d.device_verify conn (proof_message d q) proof ≡ true) (sym p)
          (honest.device_verifies device (proof_message d (k.public_key person))) in
      verify_intro n d ev conn at kind v (omega (arith, created)) named (honest.reads_device conn)
        alive
        (proof_intro n d ev conn at (now + ttl) (k.hex_encode proof) proof expires late
          (omega (arith, created)) found (honest.reads_hex proof)
          (honest.signature_length device (proof_message d (k.public_key person))) mine)
      ∙ ap ok p
