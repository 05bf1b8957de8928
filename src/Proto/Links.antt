-- ===== src/Proto/Links.antt =====
-- The links that people share: crates/hit-proto/src/invite.rs and crates/hit-proto/src/contact.rs. How keys,
-- devices and addresses are written and read is the nostr and iroh crates' and the standard library's: a
-- parameter.
pub mod Texts
pub mod Invited
pub mod Peers
use hit_enter.Base.{
  ℕ, zero, suc, ltb, leb, not, Bool, true, false, ◌&&◌, ◌||◌, Option, none, some, List, [], ◌∷◌,
  ◌++◌, map, ◌==◌, nat_key, text_key, text_beq, Text, Result, ok, err, ◌>>=◌, ok_or, ensure, ◌>>◌,
  and_then, if◌then◌else◌,
}
use hit_enter.Base.Lists.{length, every}
use hit_enter.Base.Texts.{codes, trim, split_on, strip_prefix, byte_length}
use hit_enter.Event.{PublicKey}

-- Addresses are of a type of their own, devices the numbers of their keys.
pub record Spelling (Addr : Type 0) : Type 0 where
  pub to_bech32 : PublicKey → Option Text
  pub to_hex : PublicKey → Text
  pub from_bech32 : Text → Option PublicKey
  pub from_hex : Text → Option PublicKey
  pub device_text : ℕ → Text
  pub parse_device : Text → Option ℕ
  pub addr_text : Addr → Text
  pub parse_addr : Text → Option Addr

abbrev pub max_peers : ℕ
max_peers = 8

abbrev pub max_devices : ℕ
max_devices = 8

abbrev pub invite_scheme : Text
invite_scheme = codes "hit-enter:join?"

abbrev pub contact_scheme : Text
contact_scheme = codes "hit-enter:contact?"

-- `str::split_once`.
unfoldable pub split_once : ℕ → Text → Option (Text × Text)
split_once sep [] = none
split_once sep (c ∷ s) =
    if c == sep
    then some ([], s)
    else elim (split_once sep s) [ none ↦ none | some p ↦ some (c ∷ p.0, p.1) ]

-- `Iterator::take`.
abbrev pub first_few {ℓ} : {A : Type ℓ} → ℕ → List A → List A
first_few zero xs = []
first_few (suc n) [] = []
first_few (suc n) (x ∷ xs) = x ∷ first_few n xs

-- What is wrong with a link; `missing` and `malformed` say of which part.
pub data LinkError : Type 0 where
  not_a_link : LinkError
  missing malformed : Text → LinkError

unfoldable pub is_ascii_hexdigit : ℕ → Bool
is_ascii_hexdigit c =
    (leb b'0' c && leb c b'9') || (leb b'a' c && leb c b'f') || (leb b'A' c && leb c b'F')

module _ {Addr : Type 0} (sp : Spelling Addr) where
  abbrev pub Peer : Type 0
  Peer = ℕ × Option Addr

  -- `PublicKey`, in bech32 or in hexadecimal if that failed.
  abbrev pub key_text : PublicKey → Text
  key_text p = elim (sp.to_bech32 p) [ none ↦ sp.to_hex p | some t ↦ t ]

  abbrev pub read_key : Text → Option PublicKey
  read_key v = elim (sp.from_bech32 v) [ none ↦ sp.from_hex v | some p ↦ some p ]

  unfoldable pub peer_text : Peer → Text
  peer_text (id, none) = sp.device_text id
  peer_text (id, some a) = sp.device_text id ++ b'@' ∷ sp.addr_text a

  -- A device, and its address behind `@`.
  unfoldable pub parse_peer : Text → Option Peer
  unfolding split_once
  parse_peer v = elim (split_once b'@' v) [
    | none ↦ and_then (sp.parse_device v) λ id. some (id, none)
    | some (d, a) ↦
        and_then (sp.parse_addr a) λ addr. and_then (sp.parse_device d) λ id. some (id, some addr)
  ]

  -- The devices of a link, each behind a word.
  abbrev pub peer_texts : Text → List Peer → Text
  peer_texts word [] = []
  peer_texts word (p ∷ ps) = word ++ (peer_text p ++ peer_texts word ps)

pub record InviteLink (Addr : Type 0) : Type 0 where
  pub group : PublicKey
  pub code : Option Text
  pub peers : List (ℕ × Option Addr)

pub record ContactLink (Addr : Type 0) : Type 0 where
  pub person : PublicKey
  pub devices : List (ℕ × Option Addr)

-- What the loop over an invite's parts has found.
pub record InviteLoop (Addr : Type 0) : Type 0 where
  pub group : Option PublicKey
  pub code : Option Text
  pub peers : List (ℕ × Option Addr)

pub record ContactLoop (Addr : Type 0) : Type 0 where
  pub person : Option PublicKey
  pub devices : List (ℕ × Option Addr)

-- A code is of hexadecimal digits, 64 at most.
unfoldable pub is_code : Text → Bool
unfolding byte_length is_ascii_hexdigit
is_code v = not (v == [] || ltb 64 (byte_length v) || not (every is_ascii_hexdigit v))

module _ {Addr : Type 0} (sp : Spelling Addr) where
  abbrev pub code_text : Option Text → Text
  code_text none = []
  code_text (some c) = codes "&c=" ++ c

  -- `Display` of an invite.
  unfoldable pub invite_text : InviteLink Addr → Text
  unfolding peer_text
  invite_text l =
      invite_scheme
      ++ (codes "g="
          ++ (key_text sp l.group
              ++ (code_text l.code ++ peer_texts sp (codes "&p=") (first_few max_peers l.peers))))

  -- One part `key=value`; unknown keys are ignored.
  unfoldable pub invite_part : InviteLoop Addr → Text × Text → Result LinkError (InviteLoop Addr)
  unfolding text_beq is_code parse_peer
  invite_part l (k, v) =
      if k == codes "g"
      then (ok_or (read_key sp v) (malformed (codes "group")) >>= λ p.
          ok (record l { group = some p }))
      else if k == codes "c"
      then (if is_code v then ok (record l { code = some v }) else err (malformed (codes "code")))
      else if k == codes "p" && ltb (length l.peers) max_peers
      then (ok_or (parse_peer sp v) (malformed (codes "peer")) >>= λ p.
          ok (record l { peers = l.peers ++ p ∷ [] }))
      else ok l

  unfoldable pub invite_parts : InviteLoop Addr → List Text → Result LinkError (InviteLoop Addr)
  unfolding split_once invite_part
  invite_parts l [] = ok l
  invite_parts l (pair ∷ pairs) = elim (split_once b'=' pair) [
    | none ↦ invite_parts l pairs
    | some part ↦ invite_part l part >>= λ next. invite_parts next pairs
  ]

  -- `FromStr` of an invite.
  unfoldable pub parse_invite : Text → Result LinkError (InviteLink Addr)
  unfolding invite_parts trim split_on strip_prefix
  parse_invite s = ok_or (strip_prefix invite_scheme (trim s)) not_a_link >>= λ query.
      invite_parts (record { group = none; code = none; peers = [] }) (split_on b'&' query) >>= λ l.
      ok_or l.group (missing (codes "group")) >>= λ g.
      ok (record { group = g; code = l.code; peers = l.peers })

  -- `Display` and `FromStr` of a contact.
  unfoldable pub contact_text : ContactLink Addr → Text
  unfolding peer_text
  contact_text l =
      contact_scheme
      ++ (codes "p="
          ++ (key_text sp l.person
              ++ peer_texts sp (codes "&d=") (first_few max_devices l.devices)))

  unfoldable pub contact_part : ContactLoop Addr → Text × Text → Result LinkError (ContactLoop Addr)
  unfolding text_beq parse_peer
  contact_part l (k, v) =
      if k == codes "p"
      then (ok_or (read_key sp v) (malformed (codes "person")) >>= λ p.
          ok (record l { person = some p }))
      else if k == codes "d" && ltb (length l.devices) max_devices
      then (ok_or (parse_peer sp v) (malformed (codes "device")) >>= λ p.
          ok (record l { devices = l.devices ++ p ∷ [] }))
      else ok l

  unfoldable pub contact_parts : ContactLoop Addr → List Text → Result LinkError (ContactLoop Addr)
  unfolding split_once contact_part
  contact_parts l [] = ok l
  contact_parts l (pair ∷ pairs) = elim (split_once b'=' pair) [
    | none ↦ contact_parts l pairs
    | some part ↦ contact_part l part >>= λ next. contact_parts next pairs
  ]

  unfoldable pub parse_contact : Text → Result LinkError (ContactLink Addr)
  unfolding contact_parts trim split_on strip_prefix
  parse_contact s = ok_or (strip_prefix contact_scheme (trim s)) not_a_link >>= λ query.
      contact_parts (record { person = none; devices = [] }) (split_on b'&' query) >>= λ l.
      ensure (ltb 0 (length l.devices)) (missing (codes "device"))
      >> (ok_or l.person (missing (codes "person")) >>= λ p.
          ok (record { person = p; devices = l.devices }))
