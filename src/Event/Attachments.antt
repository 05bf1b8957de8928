-- ===== src/Event/Attachments.antt =====
-- `Attachment` and `attachments_of` of crates/hit-event/src/group.rs: the files a message carries.
pub mod Sent
use hit_enter.Base.{
  ◌++◌, nat_text, ℕ, ltb, leb, ◌*◌, Bool, ◌&&◌, ◌||◌, not, Option, none, some, List, [], ◌∷◌, Text,
  ◌==◌, nat_key, text_key, text_beq, if◌then◌else◌, and_then, Result, ok, err, ◌>>=◌, ok_or,
}
use hit_enter.Base.Lists.{length, every, any, find_map}
use hit_enter.Base.Texts.{codes, strip_prefix, parse_u64}
use hit_enter.Event.{Event}

pub record Attachment : Type 0 where
  -- BLAKE3
  pub hash : Text
  pub sha256 : Text
  pub size : ℕ
  pub mime : Text
  pub name : Text

abbrev pub max_attachment_bytes : ℕ
max_attachment_bytes = 50 * 1000 * 1000

abbrev pub max_attachments : ℕ
max_attachments = 10

abbrev pub max_attachment_name : ℕ
max_attachment_name = 255

abbrev pub max_attachment_mime : ℕ
max_attachment_mime = 128

abbrev blob_url : Text
blob_url = codes "hit-blob:"

-- 64 lowercase hexadecimal digits. They are ASCII, so characters count bytes.
unfoldable pub hex64 : Text → Bool
hex64 s = length s == 64 && every (λ b. (leb b'0' b && leb b b'9') || (leb b'a' b && leb b b'f')) s

unfoldable pub is_valid : Attachment → Bool
unfolding hex64
is_valid a =
    hex64 a.hash
    && hex64 a.sha256
    && ltb 0 a.size
    && leb a.size max_attachment_bytes
    && not (a.name == [])
    && leb (length a.name) max_attachment_name
    && not (any (λ c. c == b'/' || c == 92 || c == 0) a.name)
    && leb (length a.mime) max_attachment_mime

-- The first field `key value`.
field : List Text → Text → Option Text
unfolding strip_prefix
field fields key = find_map (λ f. and_then (strip_prefix key f) (strip_prefix (codes " "))) fields

or_default : Option Text → Text → Text
or_default none d = d
or_default (some v) d = v

-- One `imeta`.
read_attachment : List Text → Result (Unit {0}) Attachment
unfolding field or_default strip_prefix parse_u64 is_valid
read_attachment fields = do
  hash ← ok_or (and_then (field fields (codes "url")) (strip_prefix blob_url)) tt
  sha256 ← ok_or (field fields (codes "x")) tt
  size ← ok_or (and_then (field fields (codes "size")) parse_u64) tt
  let a : Attachment = record {
    hash = hash;
    sha256 = sha256;
    size = size;
    mime = or_default (field fields (codes "m")) (codes "application/octet-stream");
    name = or_default (field fields (codes "name")) (codes "file");
  }
  if is_valid a then ok a else err tt

-- The loop over the tags: the attachments of the `imeta` tags, in order.
read_all : List (List Text) → Result (Unit {0}) (List Attachment)
unfolding read_attachment text_beq
read_all [] = ok []
read_all ([] ∷ ts) = read_all ts
read_all ((n ∷ fields) ∷ ts) =
    let rest = read_all ts in
    if n == codes "imeta"
    then (read_attachment fields >>= λ a. rest >>= λ as'. ok (a ∷ as'))
    else rest

unfoldable pub attachments_of : Event → Result (Unit {0}) (List Attachment)
unfolding read_all
attachments_of ev = do
  out ← read_all ev.tags
  if ltb max_attachments (length out) then err tt else ok out

-- `Attachment::to_tag`.
unfoldable pub attachment_tag : Attachment → List Text
unfolding nat_text
attachment_tag a =
    codes "imeta"
    ∷ (codes "url " ++ (blob_url ++ a.hash))
    ∷ (codes "m " ++ a.mime)
    ∷ (codes "x " ++ a.sha256)
    ∷ (codes "size " ++ nat_text a.size)
    ∷ (codes "name " ++ a.name)
    ∷ []
