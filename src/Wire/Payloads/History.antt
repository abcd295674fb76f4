-- ===== src/Wire/Payloads/History.antt =====
-- A chunk of history comes back from the bytes that its format asks for.
use ai_trading_backend.Common.{
  ℕ, ◌*◌, ◌≤◌, ◌≡◌, refl, ap, ◌∙◌, true, List, [], ◌∷◌, ◌++◌, length, drop, All, arith,
  length-append, drop-append,
}
use ai_trading_backend.Wire.{ok}
use ai_trading_backend.Wire.Bytes.{
  fits_i64, i64_bits, i64_of, le_bytes, from_le, length-le_bytes, from_le-le_bytes, i64_bits_bound,
  i64_of-i64_bits, concat, chunks, Shaped, chunks-concat, length-concat,
}
use ai_trading_backend.Wire.Payloads.{
  Doubles, pack_symbol, hist_chunk_hdr, hist_row, ChunkMeta, HistRow, row_at, rows_from, meta_of,
  iter_hist_chunk,
}
use ai_trading_backend.Wire.Payloads.RoundTrip.{
  NoNul, wire_symbol, length-pack_symbol, unpack_symbol-pack_symbol,
}

module _ (db : Doubles) (upper : List ℕ → List ℕ) where
  open db use {double_bytes, double_of, length-double_bytes, double_of-double_bytes}

  -- The bytes of a chunk, written out from the two formats.
  abbrev row_fields : HistRow db → List (List ℕ)
  row_fields r =
      le_bytes 8 (i64_bits r.ts_open)
      ∷ double_bytes r.open_price
      ∷ double_bytes r.high_price
      ∷ double_bytes r.low_price
      ∷ double_bytes r.close_price
      ∷ le_bytes 8 (i64_bits r.volume)
      ∷ []

  abbrev pub rows_bytes : List (HistRow db) → List ℕ
  rows_bytes [] = []
  rows_bytes (r ∷ rows) = concat (row_fields r) ++ rows_bytes rows

  abbrev chunk_fields : List ℕ → ℕ → ℕ → ℕ → List (List ℕ)
  chunk_fields symbol tf chunk_index count =
      pack_symbol upper symbol
      ∷ le_bytes 1 tf
      ∷ le_bytes 3 0
      ∷ le_bytes 4 chunk_index
      ∷ le_bytes 2 count
      ∷ le_bytes 2 0
      ∷ []

  abbrev pub chunk_bytes : List ℕ → ℕ → ℕ → List (HistRow db) → List ℕ
  chunk_bytes symbol tf chunk_index rows =
      concat (chunk_fields symbol tf chunk_index (length rows)) ++ rows_bytes rows

  abbrev pub Fits : HistRow db → Type 0
  Fits r = (fits_i64 r.ts_open ≡ true) × (fits_i64 r.volume ≡ true)

  row_fields-Shaped : (r : HistRow db) → Shaped hist_row (row_fields r)
  row_fields-Shaped r = (
    length-le_bytes 8 _,
    (
      length-double_bytes _,
      (
        length-double_bytes _,
        (length-double_bytes _, (length-double_bytes _, (length-le_bytes 8 _, tt))),
      ),
    ),
  )

  -- The row of six fields; of any other number, a given one.
  abbrev row_of : HistRow db → List (List ℕ) → HistRow db
  row_of d (ts_open ∷ o ∷ h ∷ l ∷ c ∷ vol ∷ []) = record {
    ts_open = i64_of (from_le ts_open);
    open_price = double_of o;
    high_price = double_of h;
    low_price = double_of l;
    close_price = double_of c;
    volume = i64_of (from_le vol);
  }
  row_of d _ = d

  row_at-row_of :
      (d : HistRow db) (bytes : List ℕ) → row_at db bytes ≡ row_of d (chunks hist_row bytes)
  unfolding row_at chunks
  row_at-row_of d bytes = refl

  row_of-row_fields : (r : HistRow db) → Fits r → row_of r (row_fields r) ≡ r
  row_of-row_fields r (ts, vol) =
      rw
        (
          from_le-le_bytes 8 (i64_bits r.ts_open) (i64_bits_bound r.ts_open ts),
          from_le-le_bytes 8 (i64_bits r.volume) (i64_bits_bound r.volume vol),
          i64_of-i64_bits r.ts_open ts,
          i64_of-i64_bits r.volume vol,
          double_of-double_bytes r.open_price,
          double_of-double_bytes r.high_price,
          double_of-double_bytes r.low_price,
          double_of-double_bytes r.close_price,
        )
        refl

  row_at-row_fields :
      (r : HistRow db) (rest : List ℕ) → Fits r → row_at db (concat (row_fields r) ++ rest) ≡ r
  row_at-row_fields r rest h =
      row_at-row_of r (concat (row_fields r) ++ rest)
      ∙ ap (row_of r) (chunks-concat hist_row (row_fields r) rest (row_fields-Shaped r))
      ∙ row_of-row_fields r h

  drop-front : (n : ℕ) (xs ys : List ℕ) → length xs ≡ n → drop n (xs ++ ys) ≡ ys
  drop-front n xs ys e = rw (← e) (drop-append xs ys)

  length-row : (r : HistRow db) → length (concat (row_fields r)) ≡ 48
  length-row r = length-concat hist_row (row_fields r) (row_fields-Shaped r)

  rows_from-rows_bytes :
      (rows : List (HistRow db))
      → All Fits rows
      → rows_from db (length rows) (rows_bytes rows) ≡ rows
  unfolding rows_from
  rows_from-rows_bytes [] h = refl
  rows_from-rows_bytes (r ∷ rows) h =
      rw
        (
          row_at-row_fields r (rows_bytes rows) h.0,
          drop-front 48 (concat (row_fields r)) (rows_bytes rows) (length-row r),
          rows_from-rows_bytes rows h.1,
        )
        refl

  length-rows_bytes : (rows : List (HistRow db)) → length (rows_bytes rows) ≡ length rows * 48
  length-rows_bytes [] = refl
  length-rows_bytes (r ∷ rows) = omega (
    arith,
    length-append (concat (row_fields r)) (rows_bytes rows),
    length-row r,
    length-rows_bytes rows,
  )

  chunk_fields-Shaped :
      (symbol : List ℕ) (tf i n : ℕ) → Shaped hist_chunk_hdr (chunk_fields symbol tf i n)
  chunk_fields-Shaped symbol tf i n = (
    length-pack_symbol upper symbol,
    (
      length-le_bytes 1 _,
      (
        length-le_bytes 3 _,
        (length-le_bytes 4 _, (length-le_bytes 2 _, (length-le_bytes 2 _, tt))),
      ),
    ),
  )

  abbrev pub meta : List ℕ → ℕ → ℕ → ℕ → ChunkMeta
  meta symbol tf i n = record {
    symbol = wire_symbol upper symbol;
    timeframe = tf;
    chunk_index = i;
    count = n;
  }

  meta_of-chunk_fields :
      (symbol : List ℕ) (tf i n : ℕ)
      → NoNul (upper symbol)
      → tf ≤ 255
      → i ≤ 4294967295
      → n ≤ 65535
      → meta_of (chunk_fields symbol tf i n) ≡ meta symbol tf i n
  unfolding meta_of
  meta_of-chunk_fields symbol tf i n plain htf hi hn =
      rw
        (
          unpack_symbol-pack_symbol upper symbol plain,
          from_le-le_bytes 1 tf (omega (arith, htf)),
          from_le-le_bytes 4 i (omega (arith, hi)),
          from_le-le_bytes 2 n (omega (arith, hn)),
        )
        refl

  -- A chunk of at most 65535 rows, written in its format, comes back with its symbol as the wire
  -- carries it and with every row, where its numbers fit their fields and the symbol's upper case
  -- holds no character 0.
  pub iter_hist_chunk-chunk_bytes :
      (symbol : List ℕ) (tf i : ℕ) (rows : List (HistRow db))
      → NoNul (upper symbol)
      → tf ≤ 255
      → i ≤ 4294967295
      → length rows ≤ 65535
      → All Fits rows
      → iter_hist_chunk db (chunk_bytes symbol tf i rows)
        ≡ ok (meta symbol tf i (length rows), rows)
  unfolding iter_hist_chunk
  iter_hist_chunk-chunk_bytes symbol tf i rows plain htf hi hn fits =
      let fields = chunk_fields symbol tf i (length rows) in
      let shaped = chunk_fields-Shaped symbol tf i (length rows) in
      let size = length-concat hist_chunk_hdr fields shaped in
      rw
        (
          chunks-concat hist_chunk_hdr fields (rows_bytes rows) shaped,
          meta_of-chunk_fields symbol tf i (length rows) plain htf hi hn,
          drop-front 28 (concat fields) (rows_bytes rows) size,
          rows_from-rows_bytes rows fits,
        )
        ground
        (arith, length-append (concat fields) (rows_bytes rows), size, length-rows_bytes rows)
