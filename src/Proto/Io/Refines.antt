-- ===== src/Proto/Io/Refines.antt =====
-- However a stream cuts its bytes into reads, `read_frame` of crates/hit-proto/src/io.rs reads the
-- frame that stands at the front of the bytes still to come.
use hit_enter.Base.{
  ℕ, zero, suc, ◌+◌, ◌-◌, ◌≤◌, ◌<◌, ltb, not, true, false, [], ◌∷◌, ◌++◌, ◌==◌, nat_key, Text,
  Result, ok, err, ◌>>=◌, ensure, ◌>>◌, ◌≡◌, refl, sym, ap, ◌∙◌, arith, if◌then◌else◌, Bool-cases,
  Result-cases, inl, inr,
}
use hit_enter.Base.Lists.{length}
use hit_enter.Proto.Frame.{Bytes, header_bytes, FrameError, closed, truncated, transport, body_len}
use hit_enter.Proto.Io.{Reader, fill, check_header, read_frame}

-- The first `n` bytes, if there are as many, and the others.
unfoldable pub split_at : ℕ → Bytes → Bytes × Bytes
split_at zero bs = ([], bs)
split_at (suc n) [] = ([], [])
split_at (suc n) (b ∷ bs) = let (front, back) = split_at n bs in (b ∷ front, back)

-- The frame at the front of some bytes, and the bytes after it: what `read_frame` is to do.
unfoldable pub parse_frame : Bytes → Result FrameError (Bytes × Bytes)
parse_frame [] = err closed
parse_frame (a ∷ b ∷ c ∷ d ∷ rest) = body_len (a ∷ b ∷ c ∷ d ∷ []) >>= λ n.
    if ltb (length rest) n then err (truncated (length rest) n) else ok (split_at n rest)
parse_frame short = err (truncated (length short) header_bytes)

pub split_at-append : (bs rest : Bytes) → split_at (length bs) (bs ++ rest) ≡ (bs, rest)
unfolding split_at
split_at-append [] rest = refl
split_at-append (b ∷ bs) rest = rw (split_at-append bs rest) refl

pub length-append : (bs rest : Bytes) → length (bs ++ rest) ≡ length bs + length rest
length-append [] rest = omega arith
length-append (b ∷ bs) rest = omega (arith, length-append bs rest)

append_assoc : (xs ys zs : Bytes) → (xs ++ ys) ++ zs ≡ xs ++ (ys ++ zs)
append_assoc [] ys zs = refl
append_assoc (x ∷ xs) ys zs = ap (λ l. x ∷ l) (append_assoc xs ys zs)

module _ {R : Type 0} ⦃reader : Reader R⦄ where
  -- Reads that lead from one state of a stream to another.
  pub data Reached : R → R → Type 0 where
    here : (r : R) → Reached r r
    later :
        (r s t : R) (want : ℕ) (bs : Bytes)
        → reader.read r want ≡ ok (bs, s)
        → Reached s t
        → Reached r t

  Reached-trans : (r s t : R) → Reached r s → Reached s t → Reached r t
  Reached-trans _ _ t (here r) q = q
  Reached-trans _ _ t (later r u s want bs e p) q = later r u t want bs e (Reached-trans u s t p q)

  -- What `fill` may give: all bytes wanted, those up to the stream's end, or a read's failure.
  pub data Filled (r : R) (want : ℕ) : Result FrameError (Bytes × R) → Type 0 where
    filled :
        (bs : Bytes) (s : R)
        → reader.content r ≡ bs ++ reader.content s
        → length bs ≡ want
        → Reached r s
        → Filled r want (ok (bs, s))
    ended :
        (bs : Bytes) (s : R) → reader.content r ≡ bs → length bs < want → Filled r want (ok (bs, s))
    broke :
        (s : R) (k : ℕ) (m : Text)
        → Reached r s
        → reader.read s k ≡ err m
        → Filled r want (err (transport m))

  -- `fill` after a read that gave `bs`.
  Filled-more :
      (r s : R) (want left : ℕ) (bs : Bytes) {res : Result FrameError (Bytes × R)}
      → reader.content r ≡ bs ++ reader.content s
      → want ≡ length bs + left
      → Reached r s
      → Filled s left res
      → Filled r want (res >>= λ more. ok (bs ++ more.0, more.1))
  Filled-more r s want left bs e w p (filled more t c l q) =
      filled (bs ++ more) t
        (e ∙ ap (λ l. bs ++ l) c ∙ sym (append_assoc bs more (reader.content t)))
        (omega (arith, length-append bs more)) (Reached-trans r s t p q)
  Filled-more r s want left bs e w p (ended more t c l) =
      ended (bs ++ more) t (e ∙ ap (λ l. bs ++ l) c) (omega (arith, length-append bs more))
  Filled-more r s want left bs e w p (broke t k m q b) = broke t k m (Reached-trans r s t p q) b

  -- As many turns as bytes are wanted are enough.
  pub fill-Filled : (fuel : ℕ) (r : R) (want : ℕ) → want ≤ fuel → Filled r want (fill fuel r want)
  unfolding fill
  fill-Filled zero r want h = filled [] r refl (omega arith) (here r)
  fill-Filled (suc fuel) r want h = elim (Bool-cases (want == 0)) [
    | inl z ↦ rw z (filled [] r refl (ground arith) (here r))
    | inr z ↦ elim (Result-cases (reader.read r want)) [
      | inr (m, e) ↦ rw (z, e) (broke r want m (here r) e)
      | inl (([], s), e) ↦
          rw (z, e) (ended [] s (reader.read_ends r s want (ground arith) e) (ground arith))
      | inl ((b ∷ bs, s), e) ↦
          let most = reader.read_at_most r s want (b ∷ bs) e in
          rw (z, e)
            (Filled-more r s want (want - length (b ∷ bs)) (b ∷ bs)
              (reader.read_next r s want (b ∷ bs) e) (omega arith)
              (later r s s want (b ∷ bs) e (here s))
              (fill-Filled fuel s (want - length (b ∷ bs)) (omega arith)))
    ]
  ]

  -- What `read_frame` may give: the frame in front and the bytes after it, the refusal of these bytes, or
  -- a read's failure.
  pub data IsRead (r : R) : Result FrameError (Bytes × R) → Type 0 where
    gives :
        (body : Bytes) (s : R)
        → parse_frame (reader.content r) ≡ ok (body, reader.content s)
        → IsRead r (ok (body, s))
    refuses : (e : FrameError) → parse_frame (reader.content r) ≡ err e → IsRead r (err e)
    breaks :
        (s : R) (k : ℕ) (m : Text)
        → Reached r s
        → reader.read s k ≡ err m
        → IsRead r (err (transport m))

  body-IsRead :
      (r s : R) (n : ℕ) {res : Result FrameError (Bytes × R)}
      → parse_frame (reader.content r) ≡ (
          if ltb (length (reader.content s)) n
          then err (truncated (length (reader.content s)) n)
          else ok (split_at n (reader.content s)))
      → Reached r s
      → Filled s n res
      → IsRead r (
          res >>= λ body.
          ensure (not (ltb (length body.0) n)) (truncated (length body.0) n) >> ok body)
  body-IsRead r s n e p (filled bs t c l q) =
      let enough : ltb (length bs) n ≡ false = ground arith in
      let long : ltb (length (reader.content s)) n ≡ false =
        rw c (ground (arith, length-append bs (reader.content t))) in
      rw enough (gives bs t (e ∙ rw (long, c, ← l) (ap ok (split_at-append bs (reader.content t)))))
  body-IsRead r s n e p (ended bs t c l) =
      let short : ltb (length bs) n ≡ true = ground arith in
      rw short (refuses (truncated (length bs) n) (e ∙ rw (c, short) refl))
  body-IsRead r s n e p (broke t k m q b) = breaks t k m (Reached-trans r s t p q) b

  lengths-IsRead :
      (r s : R) (a b c d : ℕ)
      → reader.content r ≡ (a ∷ b ∷ c ∷ d ∷ []) ++ reader.content s
      → Reached r s
      → IsRead r (
          body_len (a ∷ b ∷ c ∷ d ∷ []) >>= λ n. fill n s n >>= λ body.
          ensure (not (ltb (length body.0) n)) (truncated (length body.0) n) >> ok body)
  unfolding parse_frame
  lengths-IsRead r s a b c d e p = elim (Result-cases (body_len (a ∷ b ∷ c ∷ d ∷ []))) [
    | inl (n, m) ↦ rw m (body-IsRead r s n (rw (e, m) refl) p (fill-Filled n s n (omega arith)))
    | inr (x, m) ↦ rw m (refuses x (rw (e, m) refl))
  ]

  header-IsRead :
      (r : R) {res : Result FrameError (Bytes × R)}
      → Filled r header_bytes res
      → IsRead r (
          res >>= λ header.
          check_header (length header.0)
          >> (body_len header.0 >>= λ n. fill n header.1 n >>= λ body.
              ensure (not (ltb (length body.0) n)) (truncated (length body.0) n) >> ok body))
  unfolding check_header parse_frame
  header-IsRead r (filled (a ∷ b ∷ d ∷ e ∷ []) s c l q) = lengths-IsRead r s a b d e c q
  header-IsRead r (filled [] s c l q) = absurd (omega arith)
  header-IsRead r (filled (a ∷ []) s c l q) = absurd (omega arith)
  header-IsRead r (filled (a ∷ b ∷ []) s c l q) = absurd (omega arith)
  header-IsRead r (filled (a ∷ b ∷ d ∷ []) s c l q) = absurd (omega arith)
  header-IsRead r (filled (a ∷ b ∷ d ∷ e ∷ f ∷ bs) s c l q) = absurd (omega arith)
  header-IsRead r (ended [] s c l) = refuses closed (rw c refl)
  header-IsRead r (ended (a ∷ []) s c l) = refuses (truncated 1 4) (rw c refl)
  header-IsRead r (ended (a ∷ b ∷ []) s c l) = refuses (truncated 2 4) (rw c refl)
  header-IsRead r (ended (a ∷ b ∷ d ∷ []) s c l) = refuses (truncated 3 4) (rw c refl)
  header-IsRead r (ended (a ∷ b ∷ d ∷ e ∷ bs) s c l) = absurd (omega arith)
  header-IsRead r (broke t k m q b) = breaks t k m q b

  -- However the reads of a stream cut it, `read_frame` gives the frame at the front of the bytes to come
  -- and leaves those after it, or refuses them as an end or a length of them asks, unless a read of this
  -- stream, at a state that its reads lead to, failed, and then that failure is the answer.
  pub read_frame-IsRead : (r : R) → IsRead r (read_frame r)
  unfolding read_frame
  read_frame-IsRead r = header-IsRead r (fill-Filled header_bytes r header_bytes (omega arith))
