-- ===== src/Wire/Tests.antt =====
-- Frames and candles on the wire, with a sum of the bytes for the checksum and eight bytes for a float.
use ai_trading_backend.Common.{ℕ, ◌+◌, ◌-◌, ◌≡◌, refl, true, List, [], ◌∷◌, ◌++◌, take, drop, arith}
use ai_trading_backend.Common.Integers.{pos, negsuc}
use ai_trading_backend.Wire.{
  ok, error, Frame, Header, pack_frame, read_frame, unpack_header, check_header, read_body,
  read_payload, checksum, crc32, header_fields, crc32_mismatch,
}
use ai_trading_backend.Wire.Bytes.{le_bytes, from_le, concat, chunks, fits_i64}
use ai_trading_backend.Wire.Frames.{Checked, read_frame-pack_frame, read_frame-ok}
use ai_trading_backend.Wire.Payloads.{
  Doubles, LiveBar, HistRow, pack_live_bar, live_bar_fields, unpack_live_bar, iter_hist_chunk,
}
use ai_trading_backend.Wire.Payloads.RoundTrip.{unpack_live_bar-pack_live_bar}
use ai_trading_backend.Wire.Payloads.History.{chunk_bytes, iter_hist_chunk-chunk_bytes}

abbrev sum : List ℕ → ℕ
sum [] = 0
sum (b ∷ bytes) = b + sum bytes

-- A heartbeat with a checksum.
abbrev frame : Frame
frame = record { msg_type = 2; flags = 1; seq = 7; job_id = 300; payload = 104 ∷ 105 ∷ [] }

abbrev frame_bytes : List ℕ
frame_bytes =
    77 ∷ 84 ∷ 53 ∷ 66 ∷ 1 ∷ 2 ∷ 1 ∷ 0 ∷ 2 ∷ 0 ∷ 0 ∷ 0 ∷ 7 ∷ 0 ∷ 0 ∷ 0 ∷ 44 ∷ 1 ∷ 0 ∷ 0 ∷ 0 ∷ 0 ∷ 0
    ∷ 0 ∷ 209 ∷ 0 ∷ 0 ∷ 0 ∷ 0 ∷ 0 ∷ 0 ∷ 0 ∷ 104 ∷ 105 ∷ []

frame_packed : pack_frame sum frame ≡ ok frame_bytes
unfolding pack_frame checksum crc32 header_fields concat le_bytes
frame_packed = refl

read_frame-pack_frame_example : read_frame sum (frame_bytes ++ 1 ∷ []) ≡ ok (frame, 1 ∷ [])
read_frame-pack_frame_example = read_frame-pack_frame sum frame (1 ∷ []) frame_packed

frame_read : read_frame sum frame_bytes ≡ ok (frame, [])
unfolding read_frame read_body read_payload unpack_header check_header chunks from_le crc32
frame_read = refl

-- One bit of the payload changed.
frame_damaged : read_frame sum (take 33 frame_bytes ++ 104 ∷ []) ≡ error crc32_mismatch
unfolding read_frame read_body read_payload unpack_header check_header chunks from_le crc32
frame_damaged = refl

read_frame-ok_example :
    (h : Header) × (unpack_header (take 32 frame_bytes) ≡ ok h)
    × Checked sum h (drop 32 frame_bytes) frame []
read_frame-ok_example = read_frame-ok sum frame_bytes frame_read

-- Eight bytes.
record Double : Type 0 where
  b₀ : ℕ
  b₁ : ℕ
  b₂ : ℕ
  b₃ : ℕ
  b₄ : ℕ
  b₅ : ℕ
  b₆ : ℕ
  b₇ : ℕ

abbrev double : ℕ → Double
double n = record { b₀ = n; b₁ = 0; b₂ = 0; b₃ = 0; b₄ = 0; b₅ = 0; b₆ = 240; b₇ = 63 }

abbrev from_bytes : List ℕ → Double
from_bytes (a ∷ b ∷ c ∷ d ∷ e ∷ f ∷ g ∷ h ∷ []) = record {
  b₀ = a;
  b₁ = b;
  b₂ = c;
  b₃ = d;
  b₄ = e;
  b₅ = f;
  b₆ = g;
  b₇ = h;
}
from_bytes _ = double 0

abbrev doubles : Doubles
doubles = record {
  F = Double;
  double_bytes = λ x. x.b₀ ∷ x.b₁ ∷ x.b₂ ∷ x.b₃ ∷ x.b₄ ∷ x.b₅ ∷ x.b₆ ∷ x.b₇ ∷ [];
  double_of = from_bytes;
  length-double_bytes = λ x. refl;
  double_of-double_bytes = λ x. refl;
}

-- "eurusd" and its upper case
abbrev eurusd : List ℕ
eurusd = 101 ∷ 117 ∷ 114 ∷ 117 ∷ 115 ∷ 100 ∷ []

abbrev upper : List ℕ → List ℕ
upper [] = []
upper (c ∷ text) = (c - 32) ∷ upper text

abbrev bar : LiveBar doubles
bar = record {
  symbol = eurusd;
  timeframe = 1;
  source = 1;
  ts_open = pos 1700000000;
  open_price = double 1;
  high_price = double 3;
  low_price = double 1;
  close_price = double 2;
  volume = negsuc 0;
}

bar_packed : pack_live_bar doubles upper bar ≡ ok (concat (live_bar_fields doubles upper bar))
unfolding pack_live_bar fits_i64
bar_packed = refl

unpack_live_bar-pack_live_bar_example :
    unpack_live_bar doubles (concat (live_bar_fields doubles upper bar))
    ≡ ok (record bar { symbol = upper eurusd })
unpack_live_bar-pack_live_bar_example =
    unpack_live_bar-pack_live_bar doubles upper bar (omega arith) bar_packed

abbrev row : HistRow doubles
row = record {
  ts_open = pos 1700000000;
  open_price = double 1;
  high_price = double 3;
  low_price = double 1;
  close_price = double 2;
  volume = pos 12;
}

row_fits : (fits_i64 row.ts_open ≡ true) × (fits_i64 row.volume ≡ true)
unfolding fits_i64
row_fits = (refl, refl)

iter_hist_chunk-chunk_bytes_example :
    iter_hist_chunk doubles (chunk_bytes doubles upper eurusd 1 5 (row ∷ row ∷ []))
    ≡ ok (
      record { symbol = upper eurusd; timeframe = 1; chunk_index = 5; count = 2 },
      row ∷ row ∷ [],
    )
iter_hist_chunk-chunk_bytes_example =
    iter_hist_chunk-chunk_bytes doubles upper eurusd 1 5 (row ∷ row ∷ []) (omega arith)
      (omega arith) (omega arith) (omega arith) (row_fits, (row_fits, tt))
