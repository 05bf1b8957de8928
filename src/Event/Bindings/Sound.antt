-- ===== src/Event/Bindings/Sound.antt =====
-- What it takes for crates/hit-event/src/binding.rs to accept an event, and to authenticate a
-- connection.
use hit_enter.Base.{
  ◌+◌, ◌-◌, ◌≤◌, ◌<◌, leb, not, Bool, true, false, some, none, Option, List, [], ◌∷◌, ap,
  Bool-cases, inl, inr, refl, ◌==◌, nat_key, text_key, Text, Result, ok, and_then, bind-ok,
  ensure-ok, ok_or-ok, ensure-true, ◌≡◌, subst, sym, ◌∙◌, arith, if◌then◌else◌, not-true,
}
use hit_enter.Base.Lists.{find, length}
use hit_enter.Event.{Event, Nostr, PublicKey, Timestamp}
use hit_enter.Event.Kinds.{device_binding}
use hit_enter.Event.Replaces.{is_revoked}
use hit_enter.Event.Bindings.{
  Devices, EndpointId, Bytes, Parsed, check, check_proof, verify_binding_at, proof_message, max_ttl,
  max_clock_skew, wrong_kind, bad_signature, from_the_future, missing_device, not_canonical_device,
  wrong_device, revoked_device, missing_expiry, expired_binding, ttl_too_long, missing_proof,
  bad_proof, is_tag, proof_tag, tag_content, of_64,
}

otherwise :
    {E : Type 0} (b : Bool) (r : Result E (Unit {0}))
    → (if b then ok tt else r) ≡ ok tt
    → b ≡ false
    → r ≡ ok tt
otherwise true r h e = absurd (cc e)
otherwise false r h e = h

-- A content that is read stands second in the tag that is found, behind the name sought.
found_content :
    (name v : Text) (tags : List (List Text))
    → and_then (find (is_tag name) tags) tag_content ≡ some v
    → (rest : List Text) × (find (is_tag name) tags ≡ some (name ∷ v ∷ rest))
found_content name v [] h = absurd (cc h)
found_content name v ([] ∷ tags) h = found_content name v tags h
found_content name v ((w ∷ []) ∷ tags) h = elim (Bool-cases (w == name)) [
  | inl e ↦ absurd (cc (rw e at h))
  | inr e ↦ let (rest, f) = found_content name v tags (rw e at h) in (rest, rw e f)
]
found_content name v ((w ∷ x ∷ rest) ∷ tags) h = elim (Bool-cases (w == name)) [
  | inl e ↦
      let same : x ≡ v = cc (rw e at h) in
      let named : w ≡ name = (text_key.beq_iff w name).0 e in (rest, rw e (rw (same, named) refl))
  | inr e ↦ let (rest, f) = found_content name v tags (rw e at h) in (rest, rw e f)
]

-- Bytes that decode to an array of 64 are those decoded, and 64 of them.
decoded_64 :
    (o : Option Bytes) (bytes : Bytes)
    → and_then o of_64 ≡ some bytes
    → (o ≡ some bytes) × (length bytes ≡ 64)
decoded_64 none bytes h = absurd (cc h)
decoded_64 (some bs) bytes h = elim (Bool-cases (length bs == 64)) [
  | inl e ↦
      let same : bs ≡ bytes = cc (rw e at h) in
      (ap some same, rw (← same) ((nat_key.beq_iff (length bs) 64).0 e))
  | inr e ↦ absurd (cc (rw e at h))
]

module _ (n : Nostr) (d : Devices) where
  -- A lifetime that has not ended, and, in hexadecimal in the first tag that is named a proof, the
  -- device's signature of 64 bytes on the person's key.
  pub record IsProven (event : Event) (device : EndpointId) (now : Timestamp) : Type 0 where
    pub expiry : Timestamp
    pub expires : d.expiration event.tags ≡ some expiry
    pub unexpired : now < expiry
    pub short : expiry - event.created_at ≤ max_ttl
    pub rest : List Text
    pub hex : Text
    pub proof : Bytes
    pub tagged : find (is_tag proof_tag) event.tags ≡ some (proof_tag ∷ hex ∷ rest)
    pub decoded : d.hex_decode hex ≡ some proof
    pub sized : length proof ≡ 64
    pub signed : d.device_verify device (proof_message d event.pubkey) proof ≡ true

  check_proof_ok :
      (event : Event) (device : EndpointId) (now : Timestamp)
      → check_proof d event device now ≡ ok tt
      → IsProven event device now
  unfolding check_proof
  check_proof_ok event device now h =
      let (exp, e, h1) = ok_or-ok (d.expiration event.tags) missing_expiry _ h in
      let (late, h2) = ensure-ok (not (leb exp now)) expired_binding _ h1 in
      let (short, h3) = ensure-ok (leb (exp - event.created_at) max_ttl) ttl_too_long _ h2 in
      let (hex, f, h4) =
        ok_or-ok (and_then (find (is_tag proof_tag) event.tags) tag_content) missing_proof _ h3 in
      let (bytes, g, h5) = ok_or-ok (and_then (d.hex_decode hex) of_64) bad_proof _ h4 in
      let (rest, t) = found_content proof_tag hex event.tags f in
      let (decoded, sized) = decoded_64 (d.hex_decode hex) bytes g in
      record {
        expiry = exp;
        expires = e;
        unexpired = ground arith;
        short = ground arith;
        rest = rest;
        hex = hex;
        proof = bytes;
        tagged = t;
        decoded = decoded;
        sized = sized;
        signed =
            ensure-true (d.device_verify device (proof_message d event.pubkey) bytes) bad_proof h5;
      }

  -- An event that passes `Parsed::check`.
  pub record IsChecked (event : Event) (now : Timestamp) (device_hex : Text) : Type 0 where
    pub kind : event.kind ≡ device_binding
    pub verified : n.verify event ≡ true
    pub past : event.created_at ≤ now + max_clock_skew
    pub named : n.identifier event.tags ≡ some device_hex
    pub device : EndpointId
    pub parsed : d.parse_device device_hex ≡ some device
    pub canonical : d.device_text device ≡ device_hex
    pub proven : is_revoked event ≡ false → IsProven event device now

  pub check_ok :
      (event : Event) (now : Timestamp) (p : Parsed)
      → check n d event now ≡ ok p
      → IsChecked event now p.device_hex × (p.revoked ≡ is_revoked event)
  unfolding check
  check_ok event now p h =
      let (a, h1) = ensure-ok (event.kind == device_binding) wrong_kind _ h in
      let (b, h2) = ensure-ok (n.verify event) bad_signature _ h1 in
      let (c, h3) = ensure-ok (leb event.created_at (now + max_clock_skew)) from_the_future _ h2 in
      let (hex, e, h4) = ok_or-ok (n.identifier event.tags) missing_device _ h3 in
      let (device, f, h5) = ok_or-ok (d.parse_device hex) not_canonical_device _ h4 in
      let (g, h6) = ensure-ok (d.device_text device == hex) not_canonical_device _ h5 in
      let (u, k, h7) =
        bind-ok (if is_revoked event then ok tt else check_proof d event device now) _ h6 in
      let same : hex ≡ p.device_hex = cc h7 in
      (
        record {
          kind = (nat_key.beq_iff event.kind device_binding).0 a;
          verified = b;
          past = ground arith;
          named = subst (λ t. n.identifier event.tags ≡ some t) same e;
          device = device;
          parsed = subst (λ t. d.parse_device t ≡ some device) same f;
          canonical = (text_key.beq_iff (d.device_text device) hex).0 g ∙ same;
          proven = λ alive.
              check_proof_ok event device now
                (otherwise (is_revoked event) (check_proof d event device now) k alive);
        },
        cc h7,
      )

  -- An event that says now that its author speaks from `conn`.
  pub record IsSpeaking (event : Event) (conn : EndpointId) (now : Timestamp) : Type 0 where
    pub kind : event.kind ≡ device_binding
    pub verified : n.verify event ≡ true
    pub past : event.created_at ≤ now + max_clock_skew
    pub named : n.identifier event.tags ≡ some (d.device_text conn)
    pub alive : is_revoked event ≡ false
    pub proven : IsProven event conn now

  pub verify_ok :
      ((c : EndpointId) → d.parse_device (d.device_text c) ≡ some c)
      → (event : Event) (conn : EndpointId) (now : Timestamp) (person : PublicKey)
      → verify_binding_at n d event conn now ≡ ok person
      → (person ≡ event.pubkey) × IsSpeaking event conn now
  unfolding verify_binding_at
  verify_ok reads event conn now person h =
      let (p, c, h1) = bind-ok (check n d event now) _ h in
      let (right, h2) = ensure-ok (p.device_hex == d.device_text conn) wrong_device _ h1 in
      let (there, h3) = ensure-ok (not p.revoked) revoked_device _ h2 in
      let (checked, revoked) = check_ok event now p c in
      let same : p.device_hex ≡ d.device_text conn =
        (text_key.beq_iff p.device_hex (d.device_text conn)).0 right in
      let alive : is_revoked event ≡ false = sym revoked ∙ not-true p.revoked there in
      let one : checked.device ≡ conn = cc (checked.parsed, reads conn, same) in
      (
        cc h3,
        record {
          kind = checked.kind;
          verified = checked.verified;
          past = checked.past;
          named = subst (λ t. n.identifier event.tags ≡ some t) same checked.named;
          alive = alive;
          proven = subst (λ c. IsProven event c now) one (checked.proven alive);
        },
      )
