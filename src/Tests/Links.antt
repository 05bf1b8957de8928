-- ===== src/Tests/Links.antt =====
-- Keys, devices and addresses of one character, for crates/hit-proto/src/invite.rs.
use mathlib.Core.List.{Memᴰ}
use hit_enter.Base.{ℕ, ◌≤◌, Option, none, some, [], ◌∷◌, Text, ok, err, ◌≡◌, refl, nat_key}
use hit_enter.Base.Lists.{length}
use hit_enter.Base.Texts.{codes}
use hit_enter.Proto.Links.{
  Spelling, InviteLink, ContactLink, parse_invite, invite_text, parse_contact, contact_text,
  malformed, missing,
}
use hit_enter.Proto.Links.Invited.{IsHexDigit, parse_invite-valid}

abbrev one_char : Text → Option ℕ
one_char (c ∷ []) = some c
one_char t = none

abbrev of_chars : Spelling ℕ
of_chars = record {
  to_bech32 = λ p. some (p ∷ []);
  to_hex = λ p. p ∷ [];
  from_bech32 = one_char;
  from_hex = λ t. none;
  device_text = λ d. d ∷ [];
  parse_device = one_char;
  addr_text = λ a. a ∷ [];
  parse_addr = one_char;
}

abbrev invite : InviteLink ℕ
invite = record {
  group = b'A';
  code = some (codes "c0de");
  peers = (b'd', some b'x') ∷ (b'e', none) ∷ [];
}

abbrev contact : ContactLink ℕ
contact = record { person = b'A'; devices = (b'd', some b'x') ∷ [] }

writes : invite_text of_chars invite ≡ codes "hit-enter:join?g=A&c=c0de&p=d@x&p=e"
unfolding invite_text
writes = refl

reads : parse_invite of_chars (codes " hit-enter:join?v=2&p=d@x&g=A&new&p=e&c=c0de ") ≡ ok invite
unfolding parse_invite
reads = refl

no_group : parse_invite of_chars (codes "hit-enter:join?p=d") ≡ err (missing (codes "group"))
unfolding parse_invite
no_group = refl

no_code : parse_invite of_chars (codes "hit-enter:join?g=A&c=xyz") ≡ err (malformed (codes "code"))
unfolding parse_invite
no_code = refl

reads_contact : parse_contact of_chars (contact_text of_chars contact) ≡ ok contact
unfolding contact_text parse_contact
reads_contact = refl

parse_invite-valid_example :
    (length invite.peers ≤ 8)
    × ((c : Text)
        → invite.code ≡ some c
        → (1 ≤ length c) × (length c ≤ 64) × ((x : ℕ) → Memᴰ x c → IsHexDigit x))
parse_invite-valid_example =
    parse_invite-valid of_chars (codes " hit-enter:join?v=2&p=d@x&g=A&new&p=e&c=c0de ") invite reads
