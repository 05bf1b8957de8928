-- ===== src/Proto/Frame.antt =====
-- crates/hit-proto/src/frame.rs: a frame is a length of four bytes and a body.
use hit_enter.Base.{
  ℕ, ◌+◌, ◌*◌, ◌/◌, ◌%◌, ◌^◌, ◌≤◌, ◌<◌, ltb, leb, List, [], ◌∷◌, ◌++◌, ◌==◌, nat_key, Text, Result,
  ok, err, ensure, ◌>>◌, ◌≡◌, arith, if◌then◌else◌,
}
use hit_enter.Base.Lists.{length}

abbrev pub Bytes : Type 0
Bytes = List ℕ

abbrev pub max_frame_bytes : ℕ
max_frame_bytes = 1024 * 1024

abbrev pub header_bytes : ℕ
header_bytes = 4

pub data FrameError : Type 0 where
  too_large : ℕ → FrameError
  empty : FrameError
  -- The stream ended between frames.
  closed : FrameError
  -- The stream ended inside a frame: what was read, what was expected.
  truncated : ℕ → ℕ → FrameError
  transport : Text → FrameError

-- `u32::to_le_bytes`.
unfoldable pub to_le_bytes : ℕ → Bytes
to_le_bytes n = (n % 256) ∷ (n / 256 % 256) ∷ (n / 65536 % 256) ∷ (n / 16777216 % 256) ∷ []

-- `u32::from_le_bytes`.
unfoldable pub from_le_bytes : Bytes → ℕ
from_le_bytes [] = 0
from_le_bytes (b ∷ bs) = b + 256 * from_le_bytes bs

unfoldable pub encode : Bytes → Result FrameError Bytes
unfolding to_le_bytes
encode body = do
  ensure (ltb 0 (length body)) empty
  ensure (leb (length body) max_frame_bytes) (too_large (length body))
  ok (to_le_bytes (length body % 2 ^ 32) ++ body)

unfoldable pub body_len : Bytes → Result FrameError ℕ
unfolding from_le_bytes
body_len header =
    let n = from_le_bytes header in
    if n == 0 then err empty else if ltb max_frame_bytes n then err (too_large n) else ok n

-- The length in front of an encoded body is read as that body's length.
pub body_len-to_le_bytes :
    (n : ℕ) → 0 < n → n ≤ max_frame_bytes → body_len (to_le_bytes (n % 2 ^ 32)) ≡ ok n
unfolding body_len to_le_bytes
body_len-to_le_bytes n low high =
    let same : from_le_bytes (to_le_bytes (n % 2 ^ 32)) ≡ n = omega arith in rw same (ground arith)
