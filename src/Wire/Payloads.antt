-- ===== src/Wire/Payloads.antt =====
-- api-worker/app/mt5_wire.py: the payloads of candles. A text is the code points of its characters.
pub mod RoundTrip
pub mod History
use ai_trading_backend.Common.{
  ℕ, zero, suc, ◌+◌, ◌-◌, ◌*◌, ◌≡◌, Bool, not, ◌||◌, ◌&&◌, List, [], ◌∷◌, ◌++◌, length, take, drop,
  keep, replicate, ltb, ◌==◌, if◌then◌else◌,
}
use ai_trading_backend.Wire.{
  WireError, Result, ok, error, bad_live_bar_size, field_range, hist_chunk_too_small,
  hist_chunk_bad_size, invalid_header_length,
}
use ai_trading_backend.Common.Integers.{ℤ}
use ai_trading_backend.Wire.Bytes.{fits_i64, i64_bits, i64_of, le_bytes, from_le, concat, chunks}

-- What `struct` does with a float: its eight bytes, which are read back as the same float.
pub record Doubles : Type 1 where
  pub F : Type 0
  pub double_bytes : F → List ℕ
  pub double_of : List ℕ → F
  pub length-double_bytes : (x : F) → length (double_bytes x) ≡ 8
  pub double_of-double_bytes : (x : F) → double_of (double_bytes x) ≡ x

-- `encode("ascii", errors="ignore")`, and `decode` with the same arguments
abbrev pub ascii : List ℕ → List ℕ
ascii text = keep (λ c. ltb c 128) text

-- `pack_symbol`; `upper` is `str.upper`.
unfoldable pub pack_symbol : (List ℕ → List ℕ) → List ℕ → List ℕ
pack_symbol upper symbol =
    let s = ascii (upper symbol) in
    let cut = if ltb 16 (length s) then take 16 s else s in cut ++ replicate (16 - length cut) 0

-- `raw.split(b"\x00", 1)[0]`
unfoldable pub until_nul : List ℕ → List ℕ
until_nul [] = []
until_nul (b ∷ bytes) = let rest = until_nul bytes in if b == 0 then [] else b ∷ rest

unfoldable pub unpack_symbol : List ℕ → List ℕ
unpack_symbol buf = ascii (until_nul (take 16 buf))

-- `_LIVE_BAR_STRUCT`, "<16sBBHqddddq", `_HIST_CHUNK_HDR`, "<16sB3sIHH", and `_HIST_ROW`, "<qddddq"
abbrev pub live_bar_struct : List ℕ
live_bar_struct = 16 ∷ 1 ∷ 1 ∷ 2 ∷ 8 ∷ 8 ∷ 8 ∷ 8 ∷ 8 ∷ 8 ∷ []

abbrev pub hist_chunk_hdr : List ℕ
hist_chunk_hdr = 16 ∷ 1 ∷ 3 ∷ 4 ∷ 2 ∷ 2 ∷ []

abbrev pub hist_row : List ℕ
hist_row = 8 ∷ 8 ∷ 8 ∷ 8 ∷ 8 ∷ 8 ∷ []

-- The meta data of `iter_hist_chunk`.
pub record ChunkMeta : Type 0 where
  pub symbol : List ℕ
  pub timeframe : ℕ
  pub chunk_index : ℕ
  pub count : ℕ

unfoldable pub meta_of : List (List ℕ) → ChunkMeta
meta_of (symbol ∷ tf ∷ rsv ∷ chunk_index ∷ count ∷ rsv2 ∷ []) = record {
  symbol = unpack_symbol symbol;
  timeframe = from_le tf;
  chunk_index = from_le chunk_index;
  count = from_le count;
}
meta_of _ = record { symbol = []; timeframe = 0; chunk_index = 0; count = 0 }

module _ (db : Doubles) where
  open db use {F, double_bytes, double_of}

  pub record LiveBar : Type 0 where
    pub symbol : List ℕ
    pub timeframe : ℕ
    pub source : ℕ
    pub ts_open : ℤ
    pub open_price : F
    pub high_price : F
    pub low_price : F
    pub close_price : F
    pub volume : ℤ

  pub record HistRow : Type 0 where
    pub ts_open : ℤ
    pub open_price : F
    pub high_price : F
    pub low_price : F
    pub close_price : F
    pub volume : ℤ

  unfoldable pub live_bar_fields : (List ℕ → List ℕ) → LiveBar → List (List ℕ)
  live_bar_fields upper b =
      pack_symbol upper b.symbol
      ∷ le_bytes 1 b.timeframe
      ∷ le_bytes 1 b.source
      ∷ le_bytes 2 0
      ∷ le_bytes 8 (i64_bits b.ts_open)
      ∷ double_bytes b.open_price
      ∷ double_bytes b.high_price
      ∷ double_bytes b.low_price
      ∷ double_bytes b.close_price
      ∷ le_bytes 8 (i64_bits b.volume)
      ∷ []

  -- `pack_live_bar` and `pack_forming_bar`; `struct.pack` raises an error out of a field's range.
  unfoldable pub pack_live_bar : (List ℕ → List ℕ) → LiveBar → Result (List ℕ)
  pack_live_bar upper b =
      if ltb 255 b.timeframe
        || ltb 255 b.source
        || not (fits_i64 b.ts_open)
        || not (fits_i64 b.volume)
      then error field_range
      else ok (concat (live_bar_fields upper b))

  unfoldable pub live_bar_of : List (List ℕ) → Result LiveBar
  live_bar_of (symbol ∷ tf ∷ source ∷ rsv ∷ ts_open ∷ o ∷ h ∷ l ∷ c ∷ vol ∷ []) = ok (record {
    symbol = unpack_symbol symbol;
    timeframe = from_le tf;
    source = from_le source;
    ts_open = i64_of (from_le ts_open);
    open_price = double_of o;
    high_price = double_of h;
    low_price = double_of l;
    close_price = double_of c;
    volume = i64_of (from_le vol);
  })
  live_bar_of _ = error bad_live_bar_size

  unfoldable pub unpack_live_bar : List ℕ → Result LiveBar
  unpack_live_bar payload =
      if not (length payload == 68)
      then error bad_live_bar_size
      else live_bar_of (chunks live_bar_struct payload)

  -- `_HIST_ROW.unpack_from`
  unfoldable pub row_at : List ℕ → HistRow
  row_at bytes =
      let b₁ = drop 8 bytes in
      let b₂ = drop 8 b₁ in
      let b₃ = drop 8 b₂ in
      let b₄ = drop 8 b₃ in
      record {
        ts_open = i64_of (from_le (take 8 bytes));
        open_price = double_of (take 8 b₁);
        high_price = double_of (take 8 b₂);
        low_price = double_of (take 8 b₃);
        close_price = double_of (take 8 b₄);
        volume = i64_of (from_le (take 8 (drop 8 b₄)));
      }

  -- The loop of `iter_hist_chunk`, over what lies at and after its offset.
  unfoldable pub rows_from : ℕ → List ℕ → List HistRow
  rows_from zero bytes = []
  rows_from (suc count) bytes = row_at bytes ∷ rows_from count (drop 48 bytes)

  unfoldable pub iter_hist_chunk : List ℕ → Result (ChunkMeta × List HistRow)
  iter_hist_chunk payload =
      let header = meta_of (chunks hist_chunk_hdr payload) in
      if ltb (length payload) 28
      then error hist_chunk_too_small
      else if not (length payload == 28 + header.count * 48)
      then error hist_chunk_bad_size
      else ok (header, rows_from header.count (drop 28 payload))
