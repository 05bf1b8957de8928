-- ===== src/Proto/Io/Trips.antt =====
-- A frame that crates/hit-proto/src/frame.rs encodes is read back by crates/hit-proto/src/io.rs.
use hit_enter.Base.{
  ℕ, ◌≤◌, ◌<◌, ◌%◌, ◌^◌, ltb, leb, false, ◌++◌, nat_key, Text, Result, ok, err, ensure-ok, ◌≡◌, ◌⊎◌,
  refl, sym, ap, arith, inl, inr,
}
use hit_enter.Base.Lists.{length}
use hit_enter.Proto.Frame.{
  Bytes, max_frame_bytes, FrameError, empty, too_large, transport, to_le_bytes, encode,
  body_len-to_le_bytes,
}
use hit_enter.Proto.Io.{Reader, read_frame}
use hit_enter.Proto.Io.Refines.{
  parse_frame, split_at-append, length-append, IsRead, gives, refuses, breaks, read_frame-IsRead,
  Reached,
}

-- What is encoded is neither empty nor too large.
encode_ok :
    (body frame : Bytes)
    → encode body ≡ ok frame
    → (0 < length body)
      × (length body ≤ max_frame_bytes)
      × (frame ≡ to_le_bytes (length body % 2 ^ 32) ++ body)
unfolding encode
encode_ok body frame h =
    let (some_bytes, rest) = ensure-ok (ltb 0 (length body)) empty _ h in
    let (few_bytes, same) =
      ensure-ok (leb (length body) max_frame_bytes) (too_large (length body)) _ rest in
    (ground arith, ground arith, sym (cc same))

parse_frame-append :
    (body rest : Bytes)
    → 0 < length body
    → length body ≤ max_frame_bytes
    → parse_frame ((to_le_bytes (length body % 2 ^ 32) ++ body) ++ rest) ≡ ok (body, rest)
unfolding parse_frame to_le_bytes
parse_frame-append body rest low high =
    let enough : ltb (length (body ++ rest)) (length body) ≡ false =
      ground (arith, length-append body rest) in
    rw (body_len-to_le_bytes (length body) low high, enough) (ap ok (split_at-append body rest))

-- An encoded frame in front of other bytes is parsed as the body it was made of, and these bytes.
pub parse_frame-encode :
    (body frame rest : Bytes)
    → encode body ≡ ok frame
    → parse_frame (frame ++ rest) ≡ ok (body, rest)
parse_frame-encode body frame rest h =
    let (low, high, same) = encode_ok body frame h in
    rw same (parse_frame-append body rest low high)

module _ {R : Type 0} ⦃reader : Reader R⦄ where
  from_IsRead :
      (r : R) (body rest : Bytes) {res : Result FrameError (Bytes × R)}
      → parse_frame (reader.content r) ≡ ok (body, rest)
      → IsRead r res
      → ((s : R) × (res ≡ ok (body, s)) × (reader.content s ≡ rest))
        ⊎ ((s : R) × (k : ℕ) × (m : Text) × Reached r s
            × (reader.read s k ≡ err m)
            × (res ≡ err (transport m)))
  from_IsRead r body rest p (gives b s q) =
      let one : b ≡ body = cc (p, q) in
      let two : reader.content s ≡ rest = cc (p, q) in inl (s, rw one refl, two)
  from_IsRead r body rest p (refuses e q) = absurd (cc (p, q))
  from_IsRead r body rest p (breaks s k m q b) = inr (s, k, m, q, b, refl)

  -- From a stream whose next bytes are an encoded frame, `read_frame` reads the frame's body and leaves the
  -- bytes after it; or a read of this stream, at a state that its reads lead to, fails, and `read_frame`
  -- fails with that failure.
  pub read_frame-encode :
      (r : R) (body frame rest : Bytes)
      → encode body ≡ ok frame
      → reader.content r ≡ frame ++ rest
      → ((s : R) × (read_frame r ≡ ok (body, s)) × (reader.content s ≡ rest))
        ⊎ ((s : R) × (k : ℕ) × (m : Text) × Reached r s
            × (reader.read s k ≡ err m)
            × (read_frame r ≡ err (transport m)))
  read_frame-encode r body frame rest h c =
      from_IsRead r body rest (rw c (parse_frame-encode body frame rest h)) (read_frame-IsRead r)
