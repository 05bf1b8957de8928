-- ===== src/Tests/Bindings.antt =====
-- Two devices of one person, for crates/hit-event/src/binding.rs. A device's text is one character, and
-- its signature 64 times its own number.
use hit_enter.Base.{
  ℕ, zero, suc, ◌+◌, ◌<◌, Bool, true, false, Option, none, some, List, [], ◌∷◌, ◌==◌, nat_key,
  text_key, text_beq, pair_key, Text, ok, err, ◌≡◌, refl, arith, if◌then◌else◌,
}
use mathlib.Core.List.{Memᴰ}
use mathlib.Core.List.Memᴰ.{head, tail}
use hit_enter.Base.Maps.{get, insert, beq_refl}
use hit_enter.Base.Texts.{codes}
use hit_enter.Event.{Event, Timestamp}
use hit_enter.Event.Kinds.{device_binding}
use hit_enter.Event.Replaces.{is_revoked, replaces}
use hit_enter.Event.Bindings.{
  Devices, EndpointId, Bytes, revoked_device, Parsed, check, verify_binding_at, needs_renewal,
}
use hit_enter.Event.Bindings.Book.{authenticate, devices_of, persons_of}
use hit_enter.Event.Bindings.Sound.{IsSpeaking}
use hit_enter.Event.Bindings.History.{learn_all}
use hit_enter.Event.Bindings.Arrival.{held_id, held_id-learn_all}
use hit_enter.Event.Bindings.Authentic.{
  IsKept, IsAuthentic, authenticate-IsAuthentic, authenticate_revoked,
}
use hit_enter.Event.Bindings.Signing.{Keyring, binding_draft, sign_binding, revocation_draft}
use hit_enter.Event.Bindings.Signing.Verifies.{IsHonest, verify_binding_at-sign_binding}
use hit_enter.Tests.Samples.{demo, word_value, event}

abbrev times : ℕ → ℕ → Bytes
times zero b = []
times (suc k) b = b ∷ times k b

abbrev starts_with : ℕ → Bytes → Bool
starts_with b [] = false
starts_with b (c ∷ cs) = c == b

abbrev one_number : Text → Option ℕ
one_number (c ∷ []) = some c
one_number t = none

abbrev second_time : List (List Text) → Option Timestamp
second_time (a ∷ (w ∷ (t ∷ []) ∷ []) ∷ rest) = if w == codes "expiration" then some t else none
second_time rows = none

abbrev toys : Devices
toys = record {
  parse_device = one_number;
  device_text = λ c. c ∷ [];
  device_verify = λ c m proof. starts_with c proof;
  expiration = second_time;
  hex_decode = λ t. some t;
  key_bytes = λ p. p ∷ [];
}

abbrev ring : Keyring ℕ ℕ
ring = record {
  public_key = λ p. p;
  sign = λ p draft. some (event (draft.created_at + 7) p draft.created_at draft.kind draft.tags);
  device_public = λ s. s;
  device_sign = λ s m. times 64 s;
  hex_encode = λ bs. bs;
  time_text = λ t. t ∷ [];
}

-- Person 5, from device 8: bound at 1000, revoked at 1000, bound again at 1001.
abbrev bound : Event
bound = event 2 5 1000 device_binding (binding_draft toys ring 5 8 1000 500).tags

abbrev revoked : Event
revoked = event 3 5 1000 device_binding (revocation_draft toys ring 8 1000).tags

abbrev again : Event
again = event 4 5 1001 device_binding (binding_draft toys ring 5 8 1001 500).tags

abbrev heard : List (Event × Timestamp)
heard = (bound, 1100) ∷ (revoked, 1100) ∷ []

abbrev heard_late : List (Event × Timestamp)
heard_late = (revoked, 1100) ∷ (bound, 1100) ∷ (revoked, 1100) ∷ []

reads_back : (c : EndpointId) → toys.parse_device (toys.device_text c) ≡ some c
reads_back c = refl

refused :
    (authenticate demo toys (learn_all demo toys [] heard_late) bound 8 1100).1 ≡ err revoked_device
unfolding authenticate verify_binding_at binding_draft word_value get learn_all revocation_draft
    insert replaces
refused = refl

accepted :
    ((authenticate demo toys (learn_all demo toys [] heard) again 8 1100).1 ≡ ok 5)
    × (devices_of toys (learn_all demo toys [] ((again, 1100) ∷ heard)) 5 1200 ≡ 8 ∷ [])
    × (persons_of toys (learn_all demo toys [] heard) 8 1200 ≡ [])
    × (needs_renewal toys bound 1249 ≡ false)
    × (needs_renewal toys bound 1251 ≡ true)
unfolding authenticate verify_binding_at binding_draft word_value get learn_all revocation_draft
    insert replaces devices_of persons_of needs_renewal
accepted = (refl, refl, refl, refl, refl)

heard_in : (x : Event × Timestamp) → Memᴰ x heard → Memᴰ x heard_late
heard_in x (head e) = tail (head e)
heard_in x (tail (head e)) = head e
heard_in x (tail (tail m)) = elim m [ ]

heard_back : (x : Event × Timestamp) → Memᴰ x heard_late → Memᴰ x heard
heard_back x (head e) = tail (head e)
heard_back x (tail (head e)) = head e
heard_back x (tail (tail (head e))) = tail (head e)
heard_back x (tail (tail (tail m))) = elim m [ ]

held_id-learn_all_example :
    held_id (learn_all demo toys [] heard) (5, 8 ∷ [])
    ≡ held_id (learn_all demo toys [] heard_late) (5, 8 ∷ [])
held_id-learn_all_example =
    held_id-learn_all demo toys heard heard_late (5, 8 ∷ []) heard_in heard_back

alone : (authenticate demo toys [] again 8 1100).1 ≡ ok 5
unfolding authenticate verify_binding_at binding_draft word_value get learn_all revocation_draft
    insert replaces
alone = refl

nothing-IsKept : IsKept []
unfolding get
nothing-IsKept key a e = absurd (cc e)

authenticate-IsAuthentic_example :
    (again.pubkey ≡ 5)
    × IsSpeaking demo toys again 8 1100
    × IsAuthentic demo toys (authenticate demo toys [] again 8 1100).0 8 1100 5
authenticate-IsAuthentic_example =
    authenticate-IsAuthentic demo toys reads_back [] again 8 1100 5 nothing-IsKept alone

abbrev parsed_revoked : Parsed
parsed_revoked = record { device_hex = 8 ∷ []; revoked = true }

revoked_checked : check demo toys revoked 1100 ≡ ok parsed_revoked
unfolding authenticate verify_binding_at binding_draft word_value get learn_all revocation_draft
    insert replaces check
revoked_checked = refl

revoked_revoked : is_revoked revoked ≡ true
unfolding is_revoked revocation_draft
revoked_revoked = refl

authenticate_revoked_example :
    (newest : Event) × (get
        (5, 8 ∷ [])
        (authenticate demo toys (learn_all demo toys [] heard) again 8 1100).0
      ≡ some newest)
    × IsSpeaking demo toys newest 8 1100
    × (1000 < newest.created_at)
authenticate_revoked_example =
    authenticate_revoked demo toys reads_back heard again 8 1100 5 accepted.0 (revoked, 1100)
      parsed_revoked (tail (head refl)) revoked_checked refl refl revoked_revoked

reads_d :
    (t : Text) (rest : List (List Text)) → demo.identifier ((codes "d" ∷ t ∷ []) ∷ rest) ≡ some t
unfolding word_value
reads_d t rest = refl

honest : IsHonest demo toys ring
unfolding text_beq
honest = record {
  reads_device = reads_back;
  reads_identifier = reads_d;
  reads_expiration = λ t at rest. refl;
  reads_hex = λ bs. refl;
  signature_length = λ s m. refl;
  device_verifies = λ s m. beq_refl s;
  signs = λ p draft ev e.
      let same : event (draft.created_at + 7) p draft.created_at draft.kind draft.tags ≡ ev =
        cc e in
      rw (← same) (refl, refl, refl, refl, refl);
}

abbrev signed : Event
signed = event 1007 5 1000 device_binding (binding_draft toys ring 5 8 1000 500).tags

signed_so : sign_binding toys ring 5 8 1000 500 ≡ some signed
unfolding sign_binding binding_draft
signed_so = refl

verify_binding_at-sign_binding_example : verify_binding_at demo toys signed 8 1400 ≡ ok 5
verify_binding_at-sign_binding_example =
    verify_binding_at-sign_binding demo toys ring honest 5 8 1000 1400 500 signed (omega arith)
      (omega arith) (omega arith) signed_so
