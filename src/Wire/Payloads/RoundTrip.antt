-- ===== src/Wire/Payloads/RoundTrip.antt =====
-- A live bar comes back from its bytes.
use mathlib.Core.List.{append-nil}
use ai_trading_backend.Common.{
  All-take, ℕ, zero, suc, ◌-◌, ◌≤◌, ◌<◌, ◌≡◌, ◌≢◌, refl, ap, inl, inr, Bool, true, List, [], ◌∷◌,
  ◌++◌, length, take, keep, replicate, All, ltb, arith, Bool-cases, length-append, length-take,
  length-replicate,
}
use ai_trading_backend.Wire.{ok}
use ai_trading_backend.Wire.Bytes.{
  fits_i64, i64_bits, length-le_bytes, from_le-le_bytes, i64_bits_bound, i64_of-i64_bits, concat,
  Shaped, chunks-concat, length-concat,
}
use ai_trading_backend.Wire.Payloads.{
  Doubles, ascii, pack_symbol, until_nul, unpack_symbol, live_bar_struct, LiveBar, live_bar_fields,
  pack_live_bar, live_bar_of, unpack_live_bar,
}

-- A text without the character 0.
abbrev pub NoNul : List ℕ → Type 0
NoNul text = All (λ (c : ℕ). c ≢ 0) text

abbrev IsAscii : List ℕ → Type 0
IsAscii text = All (λ (c : ℕ). c < 128) text

keep-All {κ} : (P : ℕ → Type κ) (p : ℕ → Bool) (xs : List ℕ) → All P xs → All P (keep p xs)
keep-All P p [] h = tt
keep-All P p (x ∷ xs) h = elim (Bool-cases (p x)) [
  | inl e ↦ rw e (h.0, keep-All P p xs h.1)
  | inr e ↦ rw e (keep-All P p xs h.1)
]

ascii-IsAscii : (xs : List ℕ) → IsAscii (ascii xs)
ascii-IsAscii [] = tt
ascii-IsAscii (x ∷ xs) = ground (arith, ascii-IsAscii xs)

ascii-id : (xs : List ℕ) → IsAscii xs → ascii xs ≡ xs
ascii-id [] h = refl
ascii-id (x ∷ xs) h = ground (arith, ascii-id xs h.1)

until_nul-padded : (xs : List ℕ) (n : ℕ) → NoNul xs → until_nul (xs ++ replicate n 0) ≡ xs
unfolding until_nul
until_nul-padded [] zero h = refl
until_nul-padded [] (suc n) h = refl
until_nul-padded (x ∷ xs) n h = ground (arith, until_nul-padded xs n h.1)

take-all : (n : ℕ) (xs : List ℕ) → length xs ≤ n → take n xs ≡ xs
take-all zero [] h = refl
take-all zero (x ∷ xs) h = absurd (omega (arith, h))
take-all (suc n) [] h = refl
take-all (suc n) (x ∷ xs) h = ap (λ l. x ∷ l) (take-all n xs (omega (arith, h)))

-- The symbol as the wire carries it: its ASCII characters in upper case, the first 16.
abbrev pub wire_symbol : (List ℕ → List ℕ) → List ℕ → List ℕ
wire_symbol upper symbol = take 16 (ascii (upper symbol))

pack_symbol-wire_symbol :
    (upper : List ℕ → List ℕ) (symbol : List ℕ)
    → let s = wire_symbol upper symbol in
      pack_symbol upper symbol ≡ s ++ replicate (16 - length s) 0
unfolding pack_symbol
pack_symbol-wire_symbol upper symbol =
    let s = ascii (upper symbol) in
    elim (Bool-cases (ltb 16 (length s))) [
      | inl e ↦ rw e refl
      | inr e ↦ rw (e, take-all 16 s (ground arith)) refl
    ]

pub length-pack_symbol :
    (upper : List ℕ → List ℕ) (symbol : List ℕ) → length (pack_symbol upper symbol) ≡ 16
length-pack_symbol upper symbol =
    let s = wire_symbol upper symbol in
    rw (pack_symbol-wire_symbol upper symbol) omega (
      arith,
      length-append s (replicate (16 - length s) 0),
      length-replicate {A = ℕ} (16 - length s) 0,
      length-take 16 (ascii (upper symbol)),
    )

-- A symbol whose upper case holds no character 0 comes back as its ASCII characters in upper case,
-- the first 16.
pub unpack_symbol-pack_symbol :
    (upper : List ℕ → List ℕ) (symbol : List ℕ)
    → NoNul (upper symbol)
    → unpack_symbol (pack_symbol upper symbol) ≡ wire_symbol upper symbol
unfolding unpack_symbol
unpack_symbol-pack_symbol upper symbol h =
    let s = wire_symbol upper symbol in
    let whole =
      take-all 16 (pack_symbol upper symbol) (omega (arith, length-pack_symbol upper symbol)) in
    let plain =
      All-take (λ (c : ℕ). c ≢ 0) 16 _ (keep-All (λ (c : ℕ). c ≢ 0) (λ c. ltb c 128) _ h) in
    let low = All-take (λ (c : ℕ). c < 128) 16 _ (ascii-IsAscii (upper symbol)) in
    rw (whole, pack_symbol-wire_symbol upper symbol, until_nul-padded s (16 - length s) plain)
      (ascii-id s low)

module _ (db : Doubles) (upper : List ℕ → List ℕ) where
  open db use {length-double_bytes, double_of-double_bytes}

  live_bar_fields-Shaped : (b : LiveBar db) → Shaped live_bar_struct (live_bar_fields db upper b)
  unfolding live_bar_fields
  live_bar_fields-Shaped b = (
    length-pack_symbol upper b.symbol,
    (
      length-le_bytes 1 _,
      (
        length-le_bytes 1 _,
        (
          length-le_bytes 2 _,
          (
            length-le_bytes 8 _,
            (
              length-double_bytes _,
              (
                length-double_bytes _,
                (length-double_bytes _, (length-double_bytes _, (length-le_bytes 8 _, tt))),
              ),
            ),
          ),
        ),
      ),
    ),
  )

  packed :
      (b : LiveBar db) {bytes : List ℕ}
      → pack_live_bar db upper b ≡ ok bytes
      → (b.timeframe ≤ 255)
        × (b.source ≤ 255)
        × (fits_i64 b.ts_open ≡ true)
        × (fits_i64 b.volume ≡ true)
        × (bytes ≡ concat (live_bar_fields db upper b))
  unfolding pack_live_bar
  packed b h = ground arith

  read_fields :
      (b : LiveBar db)
      → NoNul (upper b.symbol)
      → b.timeframe ≤ 255
      → b.source ≤ 255
      → fits_i64 b.ts_open ≡ true
      → fits_i64 b.volume ≡ true
      → live_bar_of db (live_bar_fields db upper b)
        ≡ ok (record b { symbol = wire_symbol upper b.symbol })
  unfolding live_bar_of live_bar_fields
  read_fields b plain tf source ts vol =
      rw
        (
          unpack_symbol-pack_symbol upper b.symbol plain,
          from_le-le_bytes 1 b.timeframe (omega (arith, tf)),
          from_le-le_bytes 1 b.source (omega (arith, source)),
          from_le-le_bytes 8 (i64_bits b.ts_open) (i64_bits_bound b.ts_open ts),
          from_le-le_bytes 8 (i64_bits b.volume) (i64_bits_bound b.volume vol),
          i64_of-i64_bits b.ts_open ts,
          i64_of-i64_bits b.volume vol,
          double_of-double_bytes b.open_price,
          double_of-double_bytes b.high_price,
          double_of-double_bytes b.low_price,
          double_of-double_bytes b.close_price,
        )
        refl

  length-live_bar : (b : LiveBar db) → length (concat (live_bar_fields db upper b)) ≡ 68
  length-live_bar b =
      length-concat live_bar_struct (live_bar_fields db upper b) (live_bar_fields-Shaped b)

  -- Where the symbol's upper case holds no character 0, a bar that `pack_live_bar` accepts comes back
  -- from its bytes, its symbol as the wire carries it.
  pub unpack_live_bar-pack_live_bar :
      (b : LiveBar db) {bytes : List ℕ}
      → NoNul (upper b.symbol)
      → pack_live_bar db upper b ≡ ok bytes
      → unpack_live_bar db bytes ≡ ok (record b { symbol = wire_symbol upper b.symbol })
  unfolding unpack_live_bar
  unpack_live_bar-pack_live_bar b plain h =
      let (tf, source, ts, vol, whole) = packed b h in
      let fields = live_bar_fields db upper b in
      let split =
        rw (append-nil (concat fields)) at
          (chunks-concat live_bar_struct fields [] (live_bar_fields-Shaped b)) in
      rw (whole, length-live_bar b, split) (read_fields b plain tf source ts vol)
