-- ===== src/Event/Attachments/Sent.antt =====
-- The files that a message of crates/hit-event/src/group.rs is sent with are the files it is read with.
use hit_enter.Base.{
  ltb, ◌≤◌, ◌<◌, ◌^◌, true, false, List, [], ◌∷◌, map, Text, nat_key, text_key, text_beq, ok, ◌>>=◌,
  parse_u64-nat_text, ◌≡◌, refl, sym, subst, ◌∙◌, arith,
}
use hit_enter.Base.Lists.{length, every}
use hit_enter.Base.Texts.{strip_prefix}
use hit_enter.Event.{Event, PublicKey}
use hit_enter.Event.Attachments.{
  Attachment, max_attachments, is_valid, read_attachment, read_all, attachments_of, attachment_tag,
  field, or_default,
}
use hit_enter.Event.Builders.Events.{Hex, message_with}

valid_size : (a : Attachment) → is_valid a ≡ true → a.size < 2 ^ 64
unfolding is_valid
valid_size a h = ground arith

read_sent :
    (a : Attachment) (ts : List (List Text))
    → is_valid a ≡ true
    → read_all (attachment_tag a ∷ ts) ≡ (read_all ts >>= λ rest. ok (a ∷ rest))
unfolding read_all read_attachment attachment_tag field or_default strip_prefix text_beq
read_sent a ts h = rw (parse_u64-nat_text a.size (valid_size a h), h) refl

read_all_sent :
    (files : List Attachment)
    → every is_valid files ≡ true
    → read_all (map attachment_tag files) ≡ ok files
unfolding read_all
read_all_sent [] h = refl
read_all_sent (a ∷ files) h =
    read_sent a (map attachment_tag files) (ground arith)
    ∙ rw (read_all_sent files (ground arith)) refl

read_message :
    (x : Hex) (group : PublicKey) (channel text : Text) (files : List Attachment)
    → every is_valid files ≡ true
    → read_all (message_with x group channel text files).tags ≡ ok files
unfolding read_all message_with text_beq
read_message x group channel text files h = rw (read_all_sent files h) refl

-- The files of a message that was built with at most MAX_ATTACHMENTS valid files are read as those files,
-- in their order.
pub attachments_of-message_with :
    (x : Hex) (ev : Event) (group : PublicKey) (channel text : Text) (files : List Attachment)
    → every is_valid files ≡ true
    → length files ≤ max_attachments
    → ev.tags ≡ (message_with x group channel text files).tags
    → attachments_of ev ≡ ok files
unfolding attachments_of
attachments_of-message_with x ev group channel text files h few e =
    let all : read_all ev.tags ≡ ok files =
      subst (λ t. read_all t ≡ ok files) (sym e) (read_message x group channel text files h) in
    let within : ltb max_attachments (length files) ≡ false = ground arith in rw (all, within) refl
