-- ===== src/Proto/Io.antt =====
-- crates/hit-proto/src/io.rs: frames over a stream of bytes. The stream is tokio's, so its reads and
-- writes are parameters.
pub mod Refines
pub mod Trips
use hit_enter.Base.{
  not, ℕ, zero, suc, ◌+◌, ◌-◌, ◌≤◌, ◌<◌, ltb, Bool, true, false, List, [], ◌∷◌, ◌++◌, ◌==◌, nat_key,
  Text, Result, ok, err, ◌>>=◌, ensure, ◌>>◌, ◌≡◌, if◌then◌else◌,
}
use hit_enter.Base.Lists.{length}
use hit_enter.Proto.Frame.{
  Bytes, header_bytes, FrameError, empty, closed, too_large, truncated, transport, encode, body_len,
}

-- What a stream to read from does, as `AsyncRead` documents it: a read gives at most as many bytes as
-- asked, the next ones of the stream, and none only at the stream's end.
pub record Reader (R : Type 0) : Type 0 where
  pub read : R → ℕ → Result Text (Bytes × R)
  -- The bytes still to come.
  pub content : R → Bytes
  pub read_next :
      (r s : R) (want : ℕ) (bs : Bytes) → read r want ≡ ok (bs, s) → content r ≡ bs ++ content s
  pub read_at_most : (r s : R) (want : ℕ) (bs : Bytes) → read r want ≡ ok (bs, s) → length bs ≤ want
  pub read_ends : (r s : R) (want : ℕ) → 0 < want → read r want ≡ ok ([], s) → content r ≡ []

abbrev pub map_err {ℓ} : {A : Type ℓ} → Result Text A → Result FrameError A
map_err (ok a) = ok a
map_err (err m) = err (transport m)

-- What a stream to write to does.
pub record Writer (W : Type 0) : Type 0 where
  pub write_all : W → Bytes → Result Text W
  pub flush : W → Result Text W

unfoldable pub check_header : ℕ → Result FrameError (Unit {0})
check_header read =
    if read == 0
    then err closed
    else if ltb read header_bytes
    then err (truncated read header_bytes)
    else ok tt

module _ {R : Type 0} ⦃reader : Reader R⦄ where
  -- The loop of `fill`, at most `fuel` times: what was read, and the stream after it.
  unfoldable pub fill : ℕ → R → ℕ → Result FrameError (Bytes × R)
  fill zero r want = ok ([], r)
  fill (suc fuel) r want =
      if want == 0
      then ok ([], r)
      else (map_err (reader.read r want) >>= λ got. elim got.0 [
        | [] ↦ ok ([], got.1)
        | b ∷ bs ↦
            fill fuel got.1 (want - length (b ∷ bs)) >>= λ more. ok ((b ∷ bs) ++ more.0, more.1)
      ])

  -- One frame's body, and the stream after it. Each turn of a loop reads a byte or ends it, so as many
  -- turns as bytes are wanted do.
  unfoldable pub read_frame : R → Result FrameError (Bytes × R)
  unfolding fill check_header
  read_frame r = do
    header ← fill header_bytes r header_bytes
    check_header (length header.0)
    expected ← body_len header.0
    body ← fill expected header.1 expected
    ensure (not (ltb (length body.0) expected)) (truncated (length body.0) expected)
    ok body

module _ {W : Type 0} ⦃writer : Writer W⦄ where
  unfoldable pub write_frame : W → Bytes → Result FrameError W
  write_frame w body = do
    frame ← encode body
    written ← map_err (writer.write_all w frame)
    map_err (writer.flush written)
