-- ===== src/Voice/Wire.antt =====
-- `Packet` of crates/hit-voice/src/wire.rs: one datagram of audio.
use hit_enter.Base.{
  ℕ, ◌+◌, ◌*◌, ◌/◌, ◌%◌, ◌<◌, Bool, true, false, not, Option, none, some, [], ◌∷◌, ◌==◌, nat_key,
  bit_and, ◌≡◌, refl, ◌≢◌, arith, ap, if◌then◌else◌,
}
use hit_enter.Voice.Jitter.{Bytes}

abbrev pub version : ℕ
version = 1

abbrev pub speaking_flag : ℕ
speaking_flag = 1

pub record Packet : Type 0 where
  pub seq : ℕ
  pub speaking : Bool
  pub opus : Bytes

-- `[version, seq, seq, flags, opus..]`, the number big end first.
unfoldable pub encode : Packet → Bytes
encode p =
    version ∷ (p.seq / 256) ∷ (p.seq % 256) ∷ (if p.speaking then speaking_flag else 0) ∷ p.opus

unfoldable pub decode : Bytes → Option Packet
decode (v ∷ a ∷ b ∷ flags ∷ o ∷ opus) =
    if v == version
    then some (record {
      seq = a * 256 + b;
      speaking = not (bit_and flags speaking_flag == 0);
      opus = o ∷ opus;
    })
    else none
decode _ = none

flag_speaking : (s : Bool) → not (bit_and (if s then speaking_flag else 0) speaking_flag == 0) ≡ s
flag_speaking true = refl
flag_speaking false = refl

decode-encode_parts :
    (seq : ℕ) (speaking : Bool) (opus : Bytes)
    → seq < 65536
    → opus ≢ []
    → decode (encode (record { seq = seq; speaking = speaking; opus = opus }))
      ≡ some (record { seq = seq; speaking = speaking; opus = opus })
unfolding decode encode
decode-encode_parts seq speaking [] h nonempty = absurd (nonempty refl)
decode-encode_parts seq speaking (o ∷ opus) h nonempty =
    rw (flag_speaking speaking)
      (ap (λ n. some (record { seq = n; speaking = speaking; opus = o ∷ opus })) (omega arith))

-- A packet that has audio, with a number of 16 bits, is read back as it was sent.
pub decode-encode : (p : Packet) → p.seq < 65536 → p.opus ≢ [] → decode (encode p) ≡ some p
decode-encode p h nonempty = decode-encode_parts p.seq p.speaking p.opus h nonempty
