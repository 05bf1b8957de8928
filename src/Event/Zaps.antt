-- ===== src/Event/Zaps.antt =====
-- `carried` and `check_receipt` of crates/hit-event/src/zap.rs: a zap receipt that a member carries
-- into a group. Reading JSON, checking signatures and decoding invoices are parameters.
use hit_enter.Base.{
  ℕ, leb, ◌*◌, Bool, false, ◌&&◌, Option, none, some, [], ◌∷◌, Text, ◌==◌, nat_key, text_key,
  text_beq, if◌then◌else◌, and_then, Result, ok, ◌>>=◌, ◌>>◌, ok_or, ensure,
}
use hit_enter.Base.Lists.{any}
use hit_enter.Base.Texts.{codes, parse_u64, byte_length, take}
use hit_enter.Event.{Event, Nostr, PublicKey, EventId}
use hit_enter.Event.Kinds.{Kind, zap_carrier}
use hit_enter.Event.Tags.{first_value}

abbrev zap_receipt : Kind
zap_receipt = 9735

abbrev zap_request : Kind
zap_request = 9734

abbrev pub max_receipt_bytes : ℕ
max_receipt_bytes = 16 * 1024

abbrev max_comment : ℕ
max_comment = 280

pub record Zap : Type 0 where
  pub receipt : EventId
  pub request : EventId
  pub provider : PublicKey
  pub recipient : PublicKey
  pub target : EventId
  pub sender : Option PublicKey
  pub amount_msat : ℕ
  pub comment : Text
  pub paid_at : ℕ

pub data ZapError : Type 0 where
  not_a_receipt bad_signature bad_request bad_invoice wrong_amount mismatch too_large : ZapError

-- `o == Some(a)`.
abbrev holds : Option ℕ → ℕ → Bool
holds none a = false
holds (some b) a = b == a

-- `single` is the function that group.rs calls `first_value`.
key_in : Nostr → Event → Text → Option PublicKey
unfolding first_value
key_in n ev name = and_then (first_value ev name) n.public_key

id_in : Nostr → Event → Text → Option EventId
unfolding first_value
id_in n ev name = and_then (first_value ev name) n.event_id

is_anonymous : Event → Bool
unfolding text_beq
is_anonymous request = any (λ t. elim t [ [] ↦ false | w ∷ rest ↦ w == codes "anon" ]) request.tags

unfoldable pub check_receipt : Nostr → Event → Result ZapError Zap
unfolding first_value parse_u64 key_in id_in is_anonymous take
check_receipt n receipt = do
  ensure (receipt.kind == zap_receipt) not_a_receipt
  ensure (n.verify receipt) bad_signature
  description ← ok_or (first_value receipt (codes "description")) bad_request
  request ← ok_or (n.from_json description) bad_request
  ensure (request.kind == zap_request && n.verify request) bad_request
  amount ← ok_or (and_then (first_value receipt (codes "bolt11")) n.invoice_amount) bad_invoice
  asked ← ok_or (and_then (first_value request (codes "amount")) parse_u64) bad_request
  ensure (holds amount asked) wrong_amount
  recipient ← ok_or (key_in n request (codes "p")) bad_request
  target ← ok_or (id_in n request (codes "e")) bad_request
  ensure
      (holds (key_in n receipt (codes "p")) recipient && holds (id_in n receipt (codes "e")) target)
      mismatch
  ok (record {
    receipt = receipt.id;
    request = request.id;
    provider = receipt.pubkey;
    recipient = recipient;
    target = target;
    sender = if is_anonymous request then none else some request.pubkey;
    amount_msat = asked;
    comment = take max_comment request.content;
    paid_at = receipt.created_at;
  })

unfoldable pub carried : Nostr → Event → Result ZapError Zap
unfolding byte_length check_receipt key_in id_in
carried n ev = do
  ensure (ev.kind == zap_carrier) not_a_receipt
  ensure (leb (byte_length ev.content) max_receipt_bytes) too_large
  receipt ← ok_or (n.from_json ev.content) not_a_receipt
  zap ← check_receipt n receipt
  ensure
      (holds (id_in n ev (codes "e")) zap.target && holds (key_in n ev (codes "p")) zap.recipient)
      mismatch
  ok zap
