-- ===== src/Wire/Frames.antt =====
-- Frames go over the wire whole.
use mathlib.Core.List.{append_assoc, append-nil}
use ai_trading_backend.Common.{
  ℕ, zero, suc, sym, ap, inl, inr, length-take, ◌≤◌, ◌<◌, ◌≡◌, refl, ◌∙◌, true, false, List, [],
  ◌∷◌, ◌++◌, length, take, drop, ltb, arith, Bool-cases, length-append, take-append, drop-append,
}
use ai_trading_backend.Wire.{
  Result, ok, error, eof_in_header, Frame, Header, header_struct, max_payload, has_crc32,
  header_fields, check_header, unpack_header, crc32, checksum, pack_frame, read_payload, read_body,
  read_frame,
}
use ai_trading_backend.Wire.Bytes.{
  le_bytes, length-le_bytes, from_le-le_bytes, concat, Shaped, chunks-concat,
}

-- The ranges that `pack_frame` asks for.
abbrev pub InRange : Frame → Type 0
InRange f =
    (f.msg_type ≤ 255)
    × (f.flags ≤ 65535)
    × (f.seq ≤ 4294967295)
    × (f.job_id ≤ 18446744073709551615)
    × (length f.payload ≤ max_payload)

header_fields-Shaped : (f : Frame) (csum : ℕ) → Shaped header_struct (header_fields f csum)
unfolding header_fields
header_fields-Shaped f csum = (
  refl,
  (
    length-le_bytes 1 _,
    (
      length-le_bytes 1 _,
      (
        length-le_bytes 2 _,
        (
          length-le_bytes 4 _,
          (
            length-le_bytes 4 _,
            (length-le_bytes 8 _, (length-le_bytes 4 _, (length-le_bytes 4 _, tt))),
          ),
        ),
      ),
    ),
  ),
)

header_of : Frame → ℕ → Header
header_of f csum = record {
  msg_type = f.msg_type;
  flags = f.flags;
  payload_len = length f.payload;
  seq = f.seq;
  job_id = f.job_id;
  csum = csum;
}

check_header-header_fields :
    (f : Frame) (csum : ℕ)
    → InRange f
    → csum < 4294967296
    → check_header (header_fields f csum) ≡ ok (header_of f csum)
unfolding check_header header_fields header_of
check_header-header_fields f csum h small =
    let (m, g, s, j, p) = h in
    rw
      (
        from_le-le_bytes 1 1 (omega arith),
        from_le-le_bytes 1 f.msg_type (omega (arith, m)),
        from_le-le_bytes 2 f.flags (omega (arith, g)),
        from_le-le_bytes 4 (length f.payload) (omega (arith, p)),
        from_le-le_bytes 4 f.seq (omega (arith, s)),
        from_le-le_bytes 8 f.job_id (omega (arith, j)),
        from_le-le_bytes 4 csum (omega (arith, small)),
      )
      (ground (arith, p))

length-header : (f : Frame) (csum : ℕ) → length (concat (header_fields f csum)) ≡ 32
unfolding header_fields concat le_bytes
length-header f csum = refl

unpack_header-header_fields :
    (f : Frame) (csum : ℕ)
    → InRange f
    → csum < 4294967296
    → unpack_header (concat (header_fields f csum)) ≡ ok (header_of f csum)
unfolding unpack_header
unpack_header-header_fields f csum h small =
    let fields = header_fields f csum in
    let whole = chunks-concat header_struct fields [] (header_fields-Shaped f csum) in
    let split = rw (append-nil (concat fields)) at whole in
    rw (length-header f csum, split) (check_header-header_fields f csum h small)

take-front : (n : ℕ) (xs ys : List ℕ) → length xs ≡ n → take n (xs ++ ys) ≡ xs
take-front n xs ys e = rw (← e) (take-append xs ys)

drop-front : (n : ℕ) (xs ys : List ℕ) → length xs ≡ n → drop n (xs ++ ys) ≡ ys
drop-front n xs ys e = rw (← e) (drop-append xs ys)

long_enough : (n : ℕ) (xs ys : List ℕ) → length xs ≡ n → ltb (length (xs ++ ys)) n ≡ false
long_enough n xs ys e = ground (arith, length-append xs ys)

module _ (binascii_crc32 : List ℕ → ℕ) where
  pack_frame-InRange :
      (f : Frame) {bytes : List ℕ}
      → pack_frame binascii_crc32 f ≡ ok bytes
      → InRange f × (bytes ≡ concat (header_fields f (checksum binascii_crc32 f)) ++ f.payload)
  unfolding pack_frame
  pack_frame-InRange f h = ground arith

  checksum-bound : (f : Frame) → checksum binascii_crc32 f < 4294967296
  unfolding checksum crc32
  checksum-bound f = ground arith

  read_payload-header_of :
      (f : Frame) (rest : List ℕ)
      → read_payload binascii_crc32 (header_of f (checksum binascii_crc32 f)) (f.payload ++ rest)
        ≡ ok (f, rest)
  unfolding read_payload header_of checksum
  read_payload-header_of f rest =
      rw (take-append f.payload rest, drop-append f.payload rest) ground
        (arith, length-append f.payload rest)

  -- Whatever the checksum function, a frame that `pack_frame` accepts is what `read_frame` reads from
  -- its bytes, and the stream goes on behind them.
  pub read_frame-pack_frame :
      (f : Frame) (rest : List ℕ) {bytes : List ℕ}
      → pack_frame binascii_crc32 f ≡ ok bytes
      → read_frame binascii_crc32 (bytes ++ rest) ≡ ok (f, rest)
  unfolding read_frame read_body
  read_frame-pack_frame f rest h =
      let (range, whole) = pack_frame-InRange f h in
      let csum = checksum binascii_crc32 f in
      let header = concat (header_fields f csum) in
      let behind = f.payload ++ rest in
      let size = length-header f csum in
      rw
        (
          whole,
          append_assoc header f.payload rest,
          long_enough 32 header behind size,
          take-front 32 header behind size,
          drop-front 32 header behind size,
          unpack_header-header_fields f csum range (checksum-bound f),
        )
        (read_payload-header_of f rest)

  take-drop : (n : ℕ) (xs : List ℕ) → take n xs ++ drop n xs ≡ xs
  take-drop zero xs = refl
  take-drop (suc n) [] = refl
  take-drop (suc n) (x ∷ xs) = ap (λ l. x ∷ l) (take-drop n xs)

  -- What is read of a stream is its front, as long as the header says, and it has the checksum.
  abbrev pub Checked : Header → List ℕ → Frame → List ℕ → Type 0
  Checked h stream f rest =
      (stream ≡ f.payload ++ rest)
      × (length f.payload ≡ h.payload_len)
      × (f.flags ≡ h.flags)
      × (has_crc32 f.flags ≡ true → crc32 binascii_crc32 f.payload ≡ h.csum)

  taken : Header → List ℕ → Frame
  taken h stream = record {
    msg_type = h.msg_type;
    flags = h.flags;
    seq = h.seq;
    job_id = h.job_id;
    payload = take h.payload_len stream;
  }

  read_payload-taken :
      (h : Header) (stream : List ℕ) {r : Frame × List ℕ}
      → read_payload binascii_crc32 h stream ≡ ok r
      → (r ≡ (taken h stream, drop h.payload_len stream))
        × (h.payload_len ≤ length stream)
        × (has_crc32 h.flags ≡ true → crc32 binascii_crc32 (take h.payload_len stream) ≡ h.csum)
  unfolding read_payload taken
  read_payload-taken h stream e = ground arith

  taken-Checked :
      (h : Header) (stream : List ℕ)
      → h.payload_len ≤ length stream
      → (has_crc32 h.flags ≡ true → crc32 binascii_crc32 (take h.payload_len stream) ≡ h.csum)
      → Checked h stream (taken h stream) (drop h.payload_len stream)
  unfolding taken
  taken-Checked h stream long sum = (
    sym (take-drop h.payload_len stream),
    omega (arith, length-take h.payload_len stream),
    refl,
    sum,
  )

  read_body-Checked :
      (r : Result Header) (stream : List ℕ) {f : Frame} {rest : List ℕ}
      → read_body binascii_crc32 r stream ≡ ok (f, rest)
      → (h : Header) × (r ≡ ok h) × Checked h stream f rest
  unfolding read_body
  read_body-Checked (error e) stream k = absurd cc
  read_body-Checked (ok h) stream {f} {rest} k =
      let (same, long, sum) = read_payload-taken h stream k in
      (
        h,
        refl,
        rw (ap (λ (r : Frame × List ℕ). r.0) same, ap (λ (r : Frame × List ℕ). r.1) same)
            (taken-Checked h stream long sum),
      )

  read_frame-short :
      (stream : List ℕ)
      → ltb (length stream) 32 ≡ true
      → read_frame binascii_crc32 stream ≡ error eof_in_header
  unfolding read_frame
  read_frame-short stream h = rw h refl

  read_frame-long :
      (stream : List ℕ)
      → ltb (length stream) 32 ≡ false
      → read_frame binascii_crc32 stream
        ≡ read_body binascii_crc32 (unpack_header (take 32 stream)) (drop 32 stream)
  unfolding read_frame
  read_frame-long stream h = rw h refl

  -- A frame that `read_frame` returns comes from a stream that starts with a header that
  -- `unpack_header` accepts, and goes on with the payload, whose length is the one that the header
  -- names, and the rest; and where the flag asks for it the payload has the checksum that the
  -- header names.
  pub read_frame-ok :
      (stream : List ℕ) {f : Frame} {rest : List ℕ}
      → read_frame binascii_crc32 stream ≡ ok (f, rest)
      → (h : Header) × (unpack_header (take 32 stream) ≡ ok h) × Checked h (drop 32 stream) f rest
  read_frame-ok stream e = elim (Bool-cases (ltb (length stream) 32)) [
    | inl short ↦ absurd (cc (read_frame-short stream short, e))
    | inr long ↦
        read_body-Checked (unpack_header (take 32 stream)) (drop 32 stream)
          (sym (read_frame-long stream long) ∙ e)
  ]
