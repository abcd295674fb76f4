-- ===== src/Wire.antt =====
-- api-worker/app/mt5_wire.py: the binary protocol between the MT5 expert advisor and the backend.
-- Numbers are those that Python checks to be in range, and a stream is the bytes still to come, up to
-- its end; the time limit of a read is left out.
pub mod Bytes
pub mod Frames
pub mod Payloads
pub mod Tests
use ai_trading_backend.Common.{
  ℕ, ◌+◌, ◌*◌, ◌%◌, ◌≤◌, ◌≡◌, Bool, true, false, not, ◌&&◌, ◌||◌, List, [], ◌∷◌, ◌++◌, length, take,
  drop, ltb, ◌==◌, if◌then◌else◌,
}
use ai_trading_backend.Wire.Bytes.{le_bytes, from_le, concat, chunks}

-- The texts of `ValueError`, `struct.error` and `ProtocolError`.
pub data WireError : Type 0 where
  msg_type_range flags_range seq_range job_id_range payload_range field_range : WireError
  invalid_header_length bad_magic unsupported_version payload_too_large : WireError
  eof_in_header eof_in_payload crc32_mismatch : WireError
  bad_live_bar_size hist_chunk_too_small hist_chunk_bad_size : WireError

pub data Result {ℓ} (A : Type ℓ) : Type ℓ where
  ok : A → Result A
  error : WireError → Result A

pub record Frame : Type 0 where
  pub msg_type : ℕ
  pub flags : ℕ
  pub seq : ℕ
  pub job_id : ℕ
  pub payload : List ℕ

-- What `unpack_header` returns.
pub record Header : Type 0 where
  pub msg_type : ℕ
  pub flags : ℕ
  pub payload_len : ℕ
  pub seq : ℕ
  pub job_id : ℕ
  pub csum : ℕ

-- `MAGIC`, the bytes of "MT5B"
abbrev pub magic : List ℕ
magic = 77 ∷ 84 ∷ 53 ∷ 66 ∷ []

-- `_HEADER_STRUCT`, "<4sBBHIIQII"
abbrev pub header_struct : List ℕ
header_struct = 4 ∷ 1 ∷ 1 ∷ 2 ∷ 4 ∷ 4 ∷ 8 ∷ 4 ∷ 4 ∷ []

abbrev pub max_payload : ℕ
max_payload = 8388608

-- `flags & FLAG_CRC32`
abbrev pub has_crc32 : ℕ → Bool
has_crc32 flags = flags % 2 == 1

abbrev pub is_magic : List ℕ → Bool
is_magic (a ∷ b ∷ c ∷ d ∷ []) = a == 77 && b == 84 && c == 53 && d == 66
is_magic _ = false

-- `_HEADER_STRUCT.pack`
unfoldable pub header_fields : Frame → ℕ → List (List ℕ)
header_fields f csum =
    magic
    ∷ le_bytes 1 1
    ∷ le_bytes 1 f.msg_type
    ∷ le_bytes 2 f.flags
    ∷ le_bytes 4 (length f.payload)
    ∷ le_bytes 4 f.seq
    ∷ le_bytes 8 f.job_id
    ∷ le_bytes 4 csum
    ∷ le_bytes 4 0
    ∷ []

-- The checks of `unpack_header`, on the fields of a header.
unfoldable pub check_header : List (List ℕ) → Result Header
check_header (m ∷ version ∷ msg_type ∷ flags ∷ payload_len ∷ seq ∷ job_id ∷ csum ∷ reserved ∷ []) =
    if not (is_magic m)
    then error bad_magic
    else if not (from_le version == 1)
    then error unsupported_version
    else if ltb max_payload (from_le payload_len)
    then error payload_too_large
    else ok (record {
      msg_type = from_le msg_type;
      flags = from_le flags;
      payload_len = from_le payload_len;
      seq = from_le seq;
      job_id = from_le job_id;
      csum = from_le csum;
    })
check_header _ = error invalid_header_length

unfoldable pub unpack_header : List ℕ → Result Header
unpack_header header =
    if not (length header == 32)
    then error invalid_header_length
    else check_header (chunks header_struct header)

-- `binascii.crc32` is a parameter.
module _ (binascii_crc32 : List ℕ → ℕ) where
  unfoldable pub crc32 : List ℕ → ℕ
  crc32 data_bytes = binascii_crc32 data_bytes % 4294967296

  unfoldable pub checksum : Frame → ℕ
  checksum f = if has_crc32 f.flags then crc32 f.payload else 0

  unfoldable pub pack_frame : Frame → Result (List ℕ)
  pack_frame f =
      if ltb 255 f.msg_type
      then error msg_type_range
      else if ltb 65535 f.flags
      then error flags_range
      else if ltb 4294967295 f.seq
      then error seq_range
      else if ltb 18446744073709551615 f.job_id
      then error job_id_range
      else if ltb max_payload (length f.payload)
      then error payload_range
      else ok (concat (header_fields f (checksum f)) ++ f.payload)

  -- The rest of `read_frame` once the header is read: the frame and the stream after it.
  unfoldable pub read_payload : Header → List ℕ → Result (Frame × List ℕ)
  read_payload h stream =
      let payload = take h.payload_len stream in
      if ltb (length stream) h.payload_len
      then error eof_in_payload
      else if has_crc32 h.flags && not (crc32 payload == h.csum)
      then error crc32_mismatch
      else ok (
        record {
          msg_type = h.msg_type;
          flags = h.flags;
          seq = h.seq;
          job_id = h.job_id;
          payload = payload;
        },
        drop h.payload_len stream,
      )

  unfoldable pub read_body : Result Header → List ℕ → Result (Frame × List ℕ)
  read_body (error e) stream = error e
  read_body (ok h) stream = read_payload h stream

  unfoldable pub read_frame : List ℕ → Result (Frame × List ℕ)
  read_frame stream =
      if ltb (length stream) 32
      then error eof_in_header
      else read_body (unpack_header (take 32 stream)) (drop 32 stream)
