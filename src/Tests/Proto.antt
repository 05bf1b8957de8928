-- ===== src/Tests/Proto.antt =====
-- A stream that gives a byte at a time, for crates/hit-proto/src/io.rs.
use hit_enter.Base.{
  ℕ, ◌≤◌, ◌<◌, [], ◌∷◌, ◌++◌, nat_key, Text, Result, ok, err, ◌≡◌, ◌⊎◌, refl, arith, zero, suc,
}
use hit_enter.Base.Lists.{length}
use hit_enter.Proto.Frame.{
  Bytes, truncated, transport, encode, body_len, to_le_bytes, from_le_bytes,
}
use hit_enter.Proto.Io.{Reader, fill, check_header, read_frame}
use hit_enter.Proto.Io.Refines.{IsRead, Reached, read_frame-IsRead}
use hit_enter.Proto.Io.Trips.{read_frame-encode}

-- A read of at most one byte.
unfoldable read_one : Bytes → ℕ → Result Text (Bytes × Bytes)
read_one bs zero = ok ([], bs)
read_one [] (suc want) = ok ([], [])
read_one (b ∷ bs) (suc want) = ok (b ∷ [], bs)

read_one_next : (r s : Bytes) (want : ℕ) (bs : Bytes) → read_one r want ≡ ok (bs, s) → r ≡ bs ++ s
unfolding read_one
read_one_next r s zero bs e = let (p, q) : ([] ≡ bs) × (r ≡ s) = (cc e, cc e) in rw (← p, ← q) refl
read_one_next [] s (suc want) bs e =
    let (p, q) : ([] ≡ bs) × ([] ≡ s) = (cc e, cc e) in rw (← p, ← q) refl
read_one_next (b ∷ r) s (suc want) bs e =
    let (p, q) : (b ∷ [] ≡ bs) × (r ≡ s) = (cc e, cc e) in rw (← p, ← q) refl

read_one_at_most :
    (r s : Bytes) (want : ℕ) (bs : Bytes) → read_one r want ≡ ok (bs, s) → length bs ≤ want
unfolding read_one
read_one_at_most r s zero bs e = let p : [] ≡ bs = cc e in rw (← p) (omega arith)
read_one_at_most [] s (suc want) bs e = let p : [] ≡ bs = cc e in rw (← p) (omega arith)
read_one_at_most (b ∷ r) s (suc want) bs e = let p : b ∷ [] ≡ bs = cc e in rw (← p) (omega arith)

read_one_ends : (r s : Bytes) (want : ℕ) → 0 < want → read_one r want ≡ ok ([], s) → r ≡ []
unfolding read_one
read_one_ends r s zero h e = absurd (omega arith)
read_one_ends [] s (suc want) h e = refl
read_one_ends (b ∷ r) s (suc want) h e = absurd (cc e)

instance abbrev bytes_reader : Reader Bytes
bytes_reader = record {
  read = read_one;
  content = λ bs. bs;
  read_next = read_one_next;
  read_at_most = read_one_at_most;
  read_ends = read_one_ends;
}

-- A frame of two bytes, and the start of another.
abbrev stream : Bytes
stream = 2 ∷ 0 ∷ 0 ∷ 0 ∷ 91 ∷ 93 ∷ 9 ∷ 0 ∷ []

stream_encoded : encode (91 ∷ 93 ∷ []) ≡ ok (2 ∷ 0 ∷ 0 ∷ 0 ∷ 91 ∷ 93 ∷ [])
unfolding encode to_le_bytes
stream_encoded = refl

stream_read :
    (read_frame stream ≡ ok (91 ∷ 93 ∷ [], 9 ∷ 0 ∷ []))
    × (read_frame {R = Bytes} (9 ∷ 0 ∷ []) ≡ err (truncated 2 4))
unfolding read_frame fill check_header read_one body_len from_le_bytes
stream_read = (refl, refl)

read_frame-IsRead_example : IsRead stream (read_frame stream)
read_frame-IsRead_example = read_frame-IsRead stream

read_frame-encode_example :
    ((s : Bytes) × (read_frame stream ≡ ok (91 ∷ 93 ∷ [], s)) × (s ≡ 9 ∷ 0 ∷ []))
    ⊎ ((s : Bytes) × (k : ℕ) × (m : Text) × Reached stream s
        × (read_one s k ≡ err m)
        × (read_frame stream ≡ err (transport m)))
read_frame-encode_example =
    read_frame-encode stream (91 ∷ 93 ∷ []) (2 ∷ 0 ∷ 0 ∷ 0 ∷ 91 ∷ 93 ∷ []) (9 ∷ 0 ∷ [])
      stream_encoded refl
